-- ===== src/Safety/Claiming.antt =====
-- The claim of the head of the queue.
use mathlib.Core.Bool.{false≢true}
use open_llmops.Prelude.{
  ℕ, ◌≡◌, refl, sym, ◌∙◌, subst, Bool, true, false, ◌&&◌, Option, some, none, List, [], ◌∷◌, ◌==◌,
  nat_eq, String, int_eq, Bool-cases, inl, inr, arith, All, All-map, All-append, Result, ok, err,
  select,
}
use open_llmops.Workloads.{
  Row, deployment, training, evaluation, table, common, LeaseOwnerType, of_deployment, of_training,
  of_evaluation, type_eq, DeploymentState, DesiredServiceState, JobState, DesiredJobState,
}
use open_llmops.Leases.{Leases, LeaseError, LeaseAcquisition, try_acquire_locked}
use open_llmops.Leases.Table.{holds}
use open_llmops.Leases.Exclusive.{try_acquire-IsExclusive}
use open_llmops.Leases.Acquire.{alone, try_acquire-whole, try_acquire-keeps}
use open_llmops.Agent.{Execution}
use open_llmops.Reconciler.Database.{Database, is_active}
use open_llmops.Reconciler.Claim.{
  Catalog, Crash, ScheduleAttempt, Preflight, built, rejected, crashed, is_queued,
  queued_deployment, queued_job, queued_in, candidates, earliest, earliest_from, queued_before,
  claimant, set_generation, set_starting, fail_preflight, finish_claim, claim_row, claim_head,
  claim_fifo_head, build_execution,
}
use open_llmops.Safety.Backing.{row_owner, IsCovered, IsBacked, IsSafe, IsSafe-put}

-- The head of the queue is a queued row.
pub earliest_from-All :
    (P : Row → Type 0) (best : Row) (rows : List Row)
    → P best
    → All P rows
    → P (earliest_from best rows)
unfolding earliest_from
earliest_from-All P best [] p h = p
earliest_from-All P best (r ∷ rows) p h = elim (Bool-cases (queued_before r best)) [
  | inl first ↦ rw first (earliest_from-All P r rows h.0 h.1)
  | inr later ↦ rw later (earliest_from-All P best rows p h.1)
]

pub earliest-All :
    (P : Row → Type 0) (rows : List Row) (r : Row) → All P rows → earliest rows ≡ some r → P r
earliest-All P [] r h e = absurd (cc)
earliest-All P (s ∷ rows) r h e = subst P (some_eq e) (earliest_from-All P s rows h.0 h.1)
  where
    some_eq : ◌≡◌ {A = Option Row} (some (earliest_from s rows)) (some r) → earliest_from s rows ≡ r
    some_eq h = cc

select-queued :
    (t : LeaseOwnerType) (rows : List Row)
    → All (λ r. is_queued r ≡ true) (select (queued_in t) rows)
select-queued t [] = tt
select-queued t (r ∷ rows) = elim (Bool-cases (queued_in t r)) [
  | inl yes_queued ↦ rw yes_queued (right (table r == t) _ yes_queued, select-queued t rows)
  | inr other ↦ rw other (select-queued t rows)
]
  where
    right : (a b : Bool) → (a && b) ≡ true → b ≡ true
    right a b h = ground arith

pub candidates-queued : (rows : List Row) → All (λ r. is_queued r ≡ true) (candidates rows)
unfolding candidates
candidates-queued rows =
    All-append _ _ _ (select-queued of_deployment rows)
      (All-append _ _ _ (select-queued of_training rows) (select-queued of_evaluation rows))

queued_deployment-idle :
    (s : DeploymentState) (w : DesiredServiceState)
    → queued_deployment s w ≡ true
    → s ≡ DeploymentState.queued
queued_deployment-idle s w h = ground arith

queued_job-idle : (s : JobState) (w : DesiredJobState) → queued_job s w ≡ true → s ≡ JobState.queued
queued_job-idle s w h = ground arith

-- A queued row is not active, whatever its generation is set to.
queued-idle : (g : ℕ) (r : Row) → is_queued r ≡ true → is_active (set_generation g r) ≡ false
unfolding is_queued is_active
queued-idle g (deployment d) h = rw (queued_deployment-idle d.actual_state d.desired_state h)
queued-idle g (training j) h = rw (queued_job-idle j.job.actual_state j.job.desired_state h)
queued-idle g (evaluation r) h = rw (queued_job-idle r.job.actual_state r.job.desired_state h)

started-IsBacked :
    (r : Row) (t : Leases)
    → All (λ g. holds t (claimant r) g ≡ true) (common r).gpu_ids
    → IsBacked t (set_starting (set_generation (common r).state_version r))
started-IsBacked (deployment d) t h = λ on. h
started-IsBacked (training j) t h = λ on. h
started-IsBacked (evaluation r) t h = λ on. h

module _ (catalog : Catalog) (ttl now group : ℕ) where
  finish_claim-IsSafe :
      (execution : Execution) (r : Row) (db : Database) (a : ScheduleAttempt) (db' : Database)
      (q : Result LeaseError (LeaseAcquisition × Leases))
      → try_acquire_locked ttl now (claimant r) alone group (common r).gpu_ids db.leases ≡ q
      → is_queued r ≡ true
      → IsSafe db
      → finish_claim catalog ttl now group execution r db q ≡ ok (a, db')
      → IsSafe db'
  finish_claim-IsSafe execution r db a db' (err e) got waits safe h = absurd (cc)
  finish_claim-IsSafe execution r db a db' (ok (b, t)) got waits safe h =
      let exclusive =
        try_acquire-IsExclusive ttl now (claimant r) alone group (common r).gpu_ids db.leases b t
          (λ u x. x) safe.exclusive got in
      let keeps : (s : Row) → IsCovered db.leases s → IsCovered t s = λ s c.
        All-map
          (λ g.
            try_acquire-keeps ttl now (claimant r) alone group (common r).gpu_ids db.leases b t
              (row_owner s) g (λ k. k) got)
          (common s).gpu_ids c in
      elim (try_acquire-whole ttl now (claimant r) alone group (common r).gpu_ids db.leases b t
        got) [
          | inl (yes_acquired, held) ↦ subst IsSafe (second (rw yes_acquired at h)) (
              IsSafe-put _ db.rows db.leases t safe exclusive (λ s _ c. keeps s c)
                (started-IsBacked r t held))
          | inr (refused, _) ↦ subst IsSafe (second (rw refused at h)) (
              IsSafe-put (set_generation 0 r) db.rows db.leases t safe exclusive
                (λ s _ c. keeps s c) (λ on. absurd (false≢true (sym (queued-idle 0 r waits) ∙ on))))
        ]
    where
      second :
          {x : ScheduleAttempt} {d : Database}
          → ◌≡◌ {A = Result Crash (ScheduleAttempt × Database)} (ok (x, d)) (ok (a, db'))
          → d ≡ db'
      second h = cc

  fail_preflight-IsSafe :
      (m : String) (r : Row) (db : Database) (a : ScheduleAttempt) (db' : Database)
      → IsSafe db
      → fail_preflight catalog ttl now group m r db ≡ ok (a, db')
      → IsSafe db'
  unfolding is_active
  fail_preflight-IsSafe m (deployment d) db a db' safe h = absurd (cc)
  fail_preflight-IsSafe m (training j) db a db' safe h = subst IsSafe (second h) (
      IsSafe-put _ db.rows db.leases db.leases safe safe.exclusive (λ _ _ c. c) (λ on. absurd (cc)))
    where
      second :
          {x : ScheduleAttempt} {d : Database}
          → ◌≡◌ {A = Result Crash (ScheduleAttempt × Database)} (ok (x, d)) (ok (a, db'))
          → d ≡ db'
      second h = cc
  fail_preflight-IsSafe m (evaluation r) db a db' safe h = subst IsSafe (second h) (
      IsSafe-put _ db.rows db.leases db.leases safe safe.exclusive (λ _ _ c. c) (λ on. absurd (cc)))
    where
      second :
          {x : ScheduleAttempt} {d : Database}
          → ◌≡◌ {A = Result Crash (ScheduleAttempt × Database)} (ok (x, d)) (ok (a, db'))
          → d ≡ db'
      second h = cc

  claim_row-IsSafe :
      (p : Preflight) (r : Row) (db : Database) (a : ScheduleAttempt) (db' : Database)
      → is_queued r ≡ true
      → IsSafe db
      → claim_row catalog ttl now group p r db ≡ ok (a, db')
      → IsSafe db'
  claim_row-IsSafe (crashed c) r db a db' waits safe h = absurd (cc)
  claim_row-IsSafe (rejected m) r db a db' waits safe h = fail_preflight-IsSafe m r db a db' safe h
  claim_row-IsSafe (built execution) r db a db' waits safe h =
      finish_claim-IsSafe execution r db a db' _ refl waits safe h

  claim_head-IsSafe :
      (o : Option Row) (db : Database) (a : ScheduleAttempt) (db' : Database)
      → ((r : Row) → o ≡ some r → is_queued r ≡ true)
      → IsSafe db
      → claim_head catalog ttl now group o db ≡ ok (a, db')
      → IsSafe db'
  claim_head-IsSafe none db a db' waits safe h = subst IsSafe (cc) safe
  claim_head-IsSafe (some r) db a db' waits safe h =
      claim_row-IsSafe (build_execution catalog r) r db a db' (waits r refl) safe h

  -- A claim that returns leaves a safe database safe: no card leased twice, no two rows with one
  -- key, and every active row with a lease of its generation on each of its cards.
  pub claim_fifo_head-IsSafe :
      (db : Database) (a : ScheduleAttempt) (db' : Database)
      → IsSafe db
      → claim_fifo_head catalog ttl now group db ≡ ok (a, db')
      → IsSafe db'
  unfolding claim_fifo_head
  claim_fifo_head-IsSafe db a db' safe h =
      claim_head-IsSafe (earliest (candidates db.rows)) db a db'
        (λ r.
          earliest-All (λ s. is_queued s ≡ true) (candidates db.rows) r (candidates-queued db.rows))
        safe h
