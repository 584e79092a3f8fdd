-- ===== src/Reconciler/Fifo.antt =====
-- Strict FIFO: `_claim_fifo_head` acts on the head of the queue alone.
use open_llmops.Prelude.{
  ℕ, String, ◌≡◌, refl, sym, ◌∙◌, ap, subst, ◌⊎◌, inl, inr, true, Option, some, none, [], All, Memᴰ,
  Result, ok, err,
}
use open_llmops.Workloads.{Row, deployment, training, evaluation, table, common}
use open_llmops.Leases.{Leases, LeaseOwner, LeaseError, LeaseAcquisition, try_acquire_locked}
use open_llmops.Leases.Table.{holds}
use open_llmops.Leases.Acquire.{alone, try_acquire-whole}
use open_llmops.Agent.{Execution}
use open_llmops.Reconciler.Database.{Database, put_row, snapshot, is_terminal}
use open_llmops.Reconciler.Claim.{
  Catalog, Crash, ScheduleAttempt, empty, blocked, claimed, preflight_failed, Preflight, built,
  rejected, crashed, candidates, earliest, claimant, set_generation, set_starting, fail_preflight,
  finish_claim, claim_row, claim_head, claim_fifo_head, build_execution,
}
use open_llmops.Reconciler.Order.{IsFirst, earliest-IsFirst, earliest-none}

-- What a claim does. With candidates it is about the first of them, `r`: that starts with a lease on
-- each of its cards, or it is blocked and no lease changes, or it is a job that ends. No other row
-- is written.
pub data FifoClaim (db : Database) (a : ScheduleAttempt) (db' : Database) : Type 0 where
  none_waits : candidates db.rows ≡ [] → a ≡ empty → db' ≡ db → FifoClaim db a db'
  starts :
      (r : Row) (execution : Execution)
      → Memᴰ r (candidates db.rows)
      → IsFirst r (candidates db.rows)
      → a ≡ claimed (snapshot execution (set_starting (set_generation (common r).state_version r)))
      → db'.rows ≡ put_row (set_starting (set_generation (common r).state_version r)) db.rows
      → All (λ g. holds db'.leases (claimant r) g ≡ true) (common r).gpu_ids
      → FifoClaim db a db'
  waits :
      (r : Row) (blocking : Option LeaseOwner)
      → Memᴰ r (candidates db.rows)
      → IsFirst r (candidates db.rows)
      → a ≡ blocked blocking
      → db'.rows ≡ put_row (set_generation 0 r) db.rows
      → db'.leases ≡ db.leases
      → FifoClaim db a db'
  fails :
      (r r' : Row)
      → Memᴰ r (candidates db.rows)
      → IsFirst r (candidates db.rows)
      → a ≡ preflight_failed
      → (table r' ≡ table r) × ((common r').id ≡ (common r).id) × (is_terminal r' ≡ true)
      → db'.rows ≡ put_row r' db.rows
      → db'.leases ≡ db.leases
      → FifoClaim db a db'

module _ (catalog : Catalog) (ttl now group : ℕ) where
  module _ (r : Row) (db : Database) (a : ScheduleAttempt) (db' : Database) where
    module _ (m : Memᴰ r (candidates db.rows)) (first : IsFirst r (candidates db.rows)) where
      acquired-FifoClaim :
          (execution : Execution) (q : Result LeaseError (LeaseAcquisition × Leases))
          → try_acquire_locked ttl now (claimant r) alone group (common r).gpu_ids db.leases ≡ q
          → finish_claim catalog ttl now group execution r db q ≡ ok (a, db')
          → FifoClaim db a db'
      acquired-FifoClaim execution (err e) got h = absurd (cc)
      acquired-FifoClaim execution (ok (b, t)) got h =
          elim (try_acquire-whole ttl now (claimant r) alone group (common r).gpu_ids db.leases b t
            got) [
              | inl (yes_acquired, held) ↦
                  let (ea, ed) = pair_eq (rw yes_acquired at h) in
                  starts r execution m first (sym ea) (sym (ap (λ d. d.rows) ed)) (
                    subst
                      (λ (d : Database).
                        All (λ g. holds d.leases (claimant r) g ≡ true) (common r).gpu_ids)
                      ed held)
              | inr (refused, same) ↦
                  let (ea, ed) = pair_eq (rw refused at h) in
                  waits r b.blocking_owner m first (sym ea) (sym (ap (λ d. d.rows) ed))
                    (sym (ap (λ d. d.leases) ed) ∙ unchanged same)
            ]
        where
          pair_eq :
              {x : ScheduleAttempt} {d : Database}
              → ◌≡◌ {A = Result Crash (ScheduleAttempt × Database)} (ok (x, d)) (ok (a, db'))
              → (x ≡ a) × (d ≡ db')
          pair_eq h = (cc, cc)

          unchanged : (t ≡ db.leases) ⊎ (t ≡ alone db.leases) → t ≡ db.leases
          unchanged (inl e) = e
          unchanged (inr e) = e

    rejected-FifoClaim :
        (message : String)
        → Memᴰ r (candidates db.rows)
        → IsFirst r (candidates db.rows)
        → fail_preflight catalog ttl now group message r db ≡ ok (a, db')
        → FifoClaim db a db'
    unfolding is_terminal
    rejected-FifoClaim = go r
      where
        pair_eq :
            {x : ScheduleAttempt} {d : Database}
            → ◌≡◌ {A = Result Crash (ScheduleAttempt × Database)} (ok (x, d)) (ok (a, db'))
            → (x ≡ a) × (d ≡ db')
        pair_eq h = (cc, cc)

        go :
            (k : Row) (message : String)
            → Memᴰ k (candidates db.rows)
            → IsFirst k (candidates db.rows)
            → fail_preflight catalog ttl now group message k db ≡ ok (a, db')
            → FifoClaim db a db'
        go (deployment d) message m first h = absurd (cc)
        go (training j) message m first h =
            let (ea, ed) = pair_eq h in
            fails (training j) _ m first (sym ea) (refl, refl, refl) (sym (ap (λ d. d.rows) ed))
              (sym (ap (λ d. d.leases) ed))
        go (evaluation j) message m first h =
            let (ea, ed) = pair_eq h in
            fails (evaluation j) _ m first (sym ea) (refl, refl, refl) (sym (ap (λ d. d.rows) ed))
              (sym (ap (λ d. d.leases) ed))

    row-FifoClaim :
        (p : Preflight)
        → Memᴰ r (candidates db.rows)
        → IsFirst r (candidates db.rows)
        → claim_row catalog ttl now group p r db ≡ ok (a, db')
        → FifoClaim db a db'
    row-FifoClaim (crashed c) m first h = absurd (cc)
    row-FifoClaim (rejected message) m first h = rejected-FifoClaim message m first h
    row-FifoClaim (built execution) m first h = acquired-FifoClaim m first execution _ refl h

  head-FifoClaim :
      (o : Option Row) (db : Database) (a : ScheduleAttempt) (db' : Database)
      → earliest (candidates db.rows) ≡ o
      → claim_head catalog ttl now group o db ≡ ok (a, db')
      → FifoClaim db a db'
  head-FifoClaim none db a db' e h = none_waits (earliest-none _ e) (cc) (cc)
  head-FifoClaim (some r) db a db' e h =
      let (m, first) = earliest-IsFirst (candidates db.rows) r e in
      row-FifoClaim r db a db' (build_execution catalog r) m first h

-- An attempt that returns has acted on the head of the queue alone, the first candidate by queue
-- time, then type, then identifier. It started with a lease on each of its cards; or it waits and
-- no lease changed (no other candidate is tried); or it is a job that ended and no lease changed;
-- or the queue is empty and nothing changed.
pub claim_fifo_head-FifoClaim :
    (catalog : Catalog) (ttl now group : ℕ) (db : Database) (a : ScheduleAttempt) (db' : Database)
    → claim_fifo_head catalog ttl now group db ≡ ok (a, db')
    → FifoClaim db a db'
unfolding claim_fifo_head
claim_fifo_head-FifoClaim catalog ttl now group db a db' h =
    head-FifoClaim catalog ttl now group _ db a db' refl h
