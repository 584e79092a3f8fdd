-- ===== src/Safety/Restart.antt =====
-- A deployment that is started again while it is being stopped.
use open_llmops.Prelude.{
  ℕ, ◌+◌, ◌≤◌, ◌≡◌, ◌≢◌, refl, sym, ◌∙◌, ap, Bool, true, false, ◌&&◌, not, some, List, [], ◌∷◌,
  ◌==◌, nat_eq, ℤ, int_eq, arith, any, any_mono, All, Result, ok, err, >>=-eq-ok,
}
use open_llmops.Workloads.{
  Row, deployment, Deployment, of_deployment, type_eq, DeploymentState, common,
}
use open_llmops.Leases.{Leases, Lease, is_held_by, lease_invariant}
use open_llmops.Leases.Table.{holds}
use open_llmops.Leases.Normal.{IsRequest}
use open_llmops.Leases.Acquire.{alone}
use open_llmops.Leases.Stale.{is_stale, try_acquire-stale}
use open_llmops.Agent.{Execution}
use open_llmops.Reconciler.Database.{Database, get_row, is_active}
use open_llmops.Reconciler.Claim.{
  Catalog, lease, built, candidates, earliest, claimant, build_execution, claim_fifo_head,
}
use open_llmops.Routes.Common.{HttpError, StateActionResponse, any_owner}
use open_llmops.Routes.Deployments.{
  find_deployment, committed, enqueue, want_running, start_deployment,
}
use open_llmops.Safety.Backing.{row_owner, IsBacked, IsSafe, get_row-All}

-- The head of the queue has leases of another generation: the attempt raises.
claim-stale :
    (catalog : Catalog) (ttl now group : ℕ) (db : Database) (r : Row) (execution : Execution)
    → earliest (candidates db.rows) ≡ some r
    → build_execution catalog r ≡ built execution
    → IsRequest (common r).gpu_ids
    → any (is_stale (claimant r)) db.leases ≡ true
    → claim_fifo_head catalog ttl now group db ≡ err (lease lease_invariant)
unfolding claim_fifo_head
claim-stale catalog ttl now group db r execution head b request h = rw (
  head,
  b,
  try_acquire-stale ttl now (claimant r) alone group (common r).gpu_ids db.leases request h,
)

-- The row that the request leaves.
abbrev pub restarted : ℕ → Deployment → Row
restarted now d =
    deployment
      (enqueue now d (record d { desired_state = want_running d.desired_state d.desired_state }))

-- A lease of an older generation is stale for the row that is started again.
held-stale :
    (now : ℕ) (d : Deployment) (g : ℤ) (t : Leases)
    → d.runtime.runtime_generation ≤ d.runtime.state_version
    → holds t (row_owner (deployment d)) g ≡ true
    → any (is_stale (claimant (restarted now d))) t ≡ true
held-stale now d g t older h = any_mono _ _ each t h
  where
    bools : (a b c x : Bool) → (c ≡ true → x ≡ false) → (a && (b && c)) ≡ true → (b && not x) ≡ true
    bools a b c x f h = ground arith

    newer :
        (l : Lease)
        → (l.generation == d.runtime.runtime_generation) ≡ true
        → (l.generation == d.runtime.state_version + 1) ≡ false
    newer l e = ground arith

    each :
        (l : Lease)
        → (l.gpu_index == g && is_held_by (row_owner (deployment d)) l) ≡ true
        → is_stale (claimant (restarted now d)) l ≡ true
    each l e =
        bools (l.gpu_index == g) (l.owner_type == of_deployment && l.owner_id == d.runtime.id)
          (l.generation == d.runtime.runtime_generation)
          (l.generation == d.runtime.state_version + 1) (newer l) e

covered-stale :
    (now : ℕ) (d : Deployment) (t : Leases) (gs : List ℤ)
    → gs ≢ []
    → All (λ g. holds t (row_owner (deployment d)) g ≡ true) gs
    → d.runtime.runtime_generation ≤ d.runtime.state_version
    → any (is_stale (claimant (restarted now d))) t ≡ true
covered-stale now d t [] more h older = absurd (more refl)
covered-stale now d t (g ∷ gs) more (h, _) older = held-stale now d g t older h

start-leases :
    (now id : ℕ) (before db : Database) (a : StateActionResponse) (db' : Database)
    → start_deployment now id before db ≡ ok (a, db')
    → db.leases ≡ db'.leases
unfolding start_deployment
start-leases now id before db a db' h =
    let (_, _, h1) = >>=-eq-ok (find_deployment id before.rows) _ h in
    let (_, _, h2) = >>=-eq-ok (committed id db.rows) _ h1 in ap (λ d. d.leases) (snd_ok h2)
  where
    snd_ok :
        {x : StateActionResponse} {d : Database}
        → ◌≡◌ {A = Result HttpError (StateActionResponse × Database)} (ok (x, d)) (ok (a, db'))
        → d ≡ db'
    snd_ok h = cc

-- Let a safe database have a deployment that is being stopped, with a valid request for cards and
-- a runtime generation that is at most its version, and let it be started. Then, while its row is
-- the head of the queue and can be executed, an attempt to claim raises the lease invariant
-- error: the leases of the generation that was being stopped are in the way.
pub restart-stale :
    (catalog : Catalog) (ttl later group now id : ℕ) (d : Deployment) (execution : Execution)
    (before db db' : Database) (a : StateActionResponse)
    → IsSafe db
    → get_row (any_owner of_deployment id) db.rows ≡ some (deployment d)
    → d.actual_state ≡ DeploymentState.stopping
    → IsRequest d.runtime.gpu_ids
    → d.runtime.runtime_generation ≤ d.runtime.state_version
    → start_deployment now id before db ≡ ok (a, db')
    → earliest (candidates db'.rows) ≡ some (restarted now d)
    → build_execution catalog (restarted now d) ≡ built execution
    → claim_fifo_head catalog ttl later group db' ≡ err (lease lease_invariant)
unfolding is_active
restart-stale catalog ttl later group now id d execution before db db' a safe found stops request
      older h head b =
    let (backed, _) =
      get_row-All (IsBacked db.leases) (any_owner of_deployment id) db.rows (deployment d) found
        safe.backed in
    claim-stale catalog ttl later group db' (restarted now d) execution head b request (
      ap (any (is_stale (claimant (restarted now d)))) (sym (start-leases now id before db a db' h))
      ∙ covered-stale now d db.leases d.runtime.gpu_ids request.some_gpu (backed (rw stops)) older)
