-- ===== src/Safety/Race.antt =====
-- A request to stop that reads a row before the reconciler ends it, and writes it afterwards.
use open_llmops.Prelude.{
  ℕ, ◌≡◌, refl, sym, ◌∙◌, subst, true, false, Option, some, List, [], ◌∷◌, nat_eq, int_eq, ℤ,
  Bool-cases, inl, inr, Memᴰ, All, All-mem, All-elem, elem, beq_refl, ok,
}
use mathlib.Core.Bool.{false≢true}
use open_llmops.Workloads.{Row, deployment, Deployment, of_deployment, type_eq, DeploymentState}
use open_llmops.Leases.{LeaseOwner}
use open_llmops.Leases.Table.{holds}
use open_llmops.Reconciler.Database.{Database, get_row, put_row, is_row_of, is_active}
use open_llmops.Routes.Common.{StateActionResponse, any_owner}
use open_llmops.Routes.Deployments.{
  find_deployment, committed, stopped, want_stop, bumped, stored, stop_deployment,
}
use open_llmops.Safety.Backing.{row_owner, same_key, IsBacked, IsSafe}
use open_llmops.Safety.Requests.{committed-ok, snd_ok}

put_row-mem :
    (owner : LeaseOwner) (r r' : Row) (rows : List Row)
    → get_row owner rows ≡ some r
    → same_key r r' ≡ true
    → Memᴰ r' (put_row r' rows)
unfolding get_row put_row
put_row-mem owner r r' [] h k = absurd (cc)
put_row-mem owner r r' (s ∷ rows) h k = elim (Bool-cases (is_row_of owner s)) [
  | inl same ↦
      rw (subst (λ z. same_key z r' ≡ true) (sym (some_eq (rw same at h))) k) (Memᴰ.head refl)
  | inr other ↦ Memᴰ.tail (put_row-mem owner r r' rows (rw other at h) k)
]
  where
    some_eq : {a b : Row} → ◌≡◌ {A = Option Row} (some a) (some b) → a ≡ b
    some_eq h = cc

-- What the request leaves of a row that was read as running.
abbrev pub overwritten : (read d : Deployment) → Deployment
overwritten read d = bumped read (stopped DeploymentState.running read (want_stop read d))

overwritten-active : (read d : Deployment) → is_active (deployment (overwritten read d)) ≡ true
unfolding is_active
overwritten-active read d = refl

-- Let a request to stop read a deployment as running. If at its commit the row names a card on
-- which its generation has no lease (the reconciler has ended it meanwhile), the database is not
-- safe after the commit.
pub stop_deployment-race :
    (id : ℕ) (before db db' : Database) (a : StateActionResponse) (read d : Deployment) (g : ℤ)
    → find_deployment id before.rows ≡ ok read
    → read.actual_state ≡ DeploymentState.running
    → committed id db.rows ≡ ok d
    → elem g d.runtime.gpu_ids ≡ true
    → holds db.leases (row_owner (deployment d)) g ≡ false
    → stop_deployment id before db ≡ ok (a, db')
    → ¬ IsSafe db'
unfolding stop_deployment
stop_deployment-race id before db db' a read d g seen runs found asked free h safe = false≢true (
    sym free
    ∙ All-elem (λ g. holds db.leases (row_owner (deployment d)) g ≡ true) g d.runtime.gpu_ids
        covered asked)
  where
    same : ◌≡◌ {A = Database} (stored (overwritten read d) db) db'
    same = snd_ok (rw (seen, found, runs) at h)

    safe' : IsSafe (stored (overwritten read d) db)
    safe' = subst IsSafe (sym same) safe

    covered : All (λ g. holds db.leases (row_owner (deployment d)) g ≡ true) d.runtime.gpu_ids
    covered =
        All-mem (IsBacked db.leases) (put_row (deployment (overwritten read d)) db.rows)
          (deployment (overwritten read d)) safe'.backed
          (put_row-mem (any_owner of_deployment id) (deployment d) (deployment (overwritten read d))
            db.rows (committed-ok id db.rows d found) (beq_refl d.runtime.id))
          (overwritten-active read d)
