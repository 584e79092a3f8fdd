-- ===== src/Safety/Exclusion.antt =====
-- Two active workloads never share a card, whatever transactions led to the database.
use mathlib.Core.Bool.{false≢true}
use open_llmops.Prelude.{
  ℕ, ◌≡◌, refl, sym, ◌∙◌, ap, subst, String, Bool, true, false, ◌&&◌, ◌||◌, Option, some, List, [],
  ◌∷◌, ◌++◌, ◌==◌, nat_eq, ℤ, int_eq, Bool-cases, inl, inr, arith, All-append, All-elem, eq_of_beq,
  beq_refl, any, any-append, elem, Memᴰ, All-mem, ok,
}
use open_llmops.Workloads.{Row, table, common, type_eq, of_deployment, of_evaluation}
use open_llmops.Leases.{Leases, LeaseOwner, is_held_by}
use open_llmops.Leases.Table.{holds, IsExclusive, is_leased, elem-cards, holds→leased}
use open_llmops.Agent.{AgentCommandResponse}
use open_llmops.Cleanup.{Gateway}
use open_llmops.Reconciler.Database.{Database, is_active, is_row_of}
use open_llmops.Reconciler.Observe.{Validators}
use open_llmops.Reconciler.ObserveJob.{apply_observation, record_agent_error, fail_start}
use open_llmops.Reconciler.Claim.{Catalog, ScheduleAttempt, claim_fifo_head}
use open_llmops.Reconciler.Reap.{reap_terminal_expired_leases}
use open_llmops.Routes.Common.{StateActionResponse, any_owner}
use open_llmops.Routes.Deployments.{
  start_deployment, stop_deployment, DeploymentUpdate, update_deployment, delete_deployment,
}
use open_llmops.Routes.Jobs.{
  terminate_training_job, cancel_evaluation_run, delete_training_job, delete_evaluation_run,
}
use open_llmops.Safety.Backing.{
  row_owner, IsBacked, IsSafe, IsKeyed, same_key, get_row-mem, held_twice,
}
use open_llmops.Safety.Observation.{
  IsAwaited, apply_observation-IsSafe, record_agent_error-IsSafe, fail_start-IsSafe,
}
use open_llmops.Safety.Claiming.{claim_fifo_head-IsSafe}
use open_llmops.Safety.Reaping.{reap-IsSafe}
use open_llmops.Safety.Requests.{
  IsStill, start_deployment-IsSafe, stop_deployment-IsSafe, update_deployment-IsSafe,
}
use open_llmops.Safety.JobRequests.{terminate_training_job-IsSafe, cancel_evaluation_run-IsSafe}
use open_llmops.Safety.Deletion.{
  delete_deployment-IsSafe, delete_training_job-IsSafe, delete_evaluation_run-IsSafe,
}

-- One committed transaction of the reconciler or of a request. A request to create a workload adds a
-- row with a fresh key that is not active. Where a request reads a row without a lock, `before` is the
-- database at the reading.
pub data Step (db db' : Database) : Type 0 where
  observe :
      (checks : Validators) (now : ℕ) (owner : LeaseOwner) (response : AgentCommandResponse)
      (ttl : ℕ)
      → IsAwaited owner db
      → db' ≡ apply_observation checks now owner response ttl db
      → Step db db'
  agent_error :
      (owner : LeaseOwner) (m : String) → db' ≡ record_agent_error owner m db → Step db db'
  start_refused :
      (now : ℕ) (owner : LeaseOwner) (m : String)
      → IsAwaited owner db
      → db' ≡ fail_start now owner m db
      → Step db db'
  claim :
      (catalog : Catalog) (ttl now group : ℕ) (a : ScheduleAttempt)
      → claim_fifo_head catalog ttl now group db ≡ ok (a, db')
      → Step db db'
  reap : (now : ℕ) → db' ≡ (reap_terminal_expired_leases now db).1 → Step db db'
  create :
      (r : Row)
      → is_active r ≡ false
      → any (λ s. same_key s r) db.rows ≡ false
      → db' ≡ record db { rows = db.rows ++ r ∷ [] }
      → Step db db'
  start :
      (now id : ℕ) (before : Database) (a : StateActionResponse)
      → start_deployment now id before db ≡ ok (a, db')
      → Step db db'
  stop :
      (id : ℕ) (before : Database) (a : StateActionResponse)
      → IsStill (any_owner of_deployment id) before db
      → stop_deployment id before db ≡ ok (a, db')
      → Step db db'
  update :
      (gpu_count id : ℕ) (payload : DeploymentUpdate) (before : Database)
      → IsStill (any_owner of_deployment id) before db
      → update_deployment gpu_count id payload before db ≡ ok db'
      → Step db db'
  terminate :
      (now id : ℕ) (a : StateActionResponse)
      → terminate_training_job now id db ≡ ok (a, db')
      → Step db db'
  cancel :
      (now id : ℕ) (before : Database)
      → IsStill (any_owner of_evaluation id) before db
      → cancel_evaluation_run now id before db ≡ ok db'
      → Step db db'
  delete_service :
      (agent : Option Gateway) (id : ℕ) → delete_deployment agent id db ≡ ok db' → Step db db'
  delete_training :
      (agent : Option Gateway) (id : ℕ) → delete_training_job agent id db ≡ ok db' → Step db db'
  delete_run :
      (agent : Option Gateway) (id : ℕ) → delete_evaluation_run agent id db ≡ ok db' → Step db db'

pub data Reach (start : Database) : Database → Type 0 where
  here : Reach start start
  next : {db db' : Database} → Reach start db → Step db db' → Reach start db'

append-IsKeyed :
    (r : Row) (rows : List Row)
    → any (λ s. same_key s r) rows ≡ false
    → IsKeyed rows
    → IsKeyed (rows ++ r ∷ [])
append-IsKeyed r [] h u = (refl, tt)
append-IsKeyed r (s ∷ rows) h (new, u) = (
  rw (any-append (same_key s) rows (r ∷ []), new) (first (same_key s r) _ h),
  append-IsKeyed r rows (second (same_key s r) _ h) u,
)
  where
    first : (a b : Bool) → (a || b) ≡ false → (a || false) ≡ false
    first a b h = ground arith

    second : (a b : Bool) → (a || b) ≡ false → b ≡ false
    second a b h = ground arith

create-IsSafe :
    (r : Row) (db : Database)
    → is_active r ≡ false
    → any (λ s. same_key s r) db.rows ≡ false
    → IsSafe db
    → IsSafe (record db { rows = db.rows ++ r ∷ [] })
create-IsSafe r db off new safe = record {
  exclusive = safe.exclusive;
  keyed = append-IsKeyed r db.rows new safe.keyed;
  backed =
      All-append _ db.rows (r ∷ []) safe.backed ((λ on. absurd (false≢true (sym off ∙ on))), tt);
}

pub Step-IsSafe : (db db' : Database) → Step db db' → IsSafe db → IsSafe db'
Step-IsSafe db db' (observe checks now owner response ttl on e) safe =
    subst IsSafe (sym e) (apply_observation-IsSafe checks now owner response ttl db on safe)
Step-IsSafe db db' (agent_error owner m e) safe =
    subst IsSafe (sym e) (record_agent_error-IsSafe owner m db safe)
Step-IsSafe db db' (start_refused now owner m on e) safe =
    subst IsSafe (sym e) (fail_start-IsSafe now owner m db on safe)
Step-IsSafe db db' (claim catalog ttl now group a e) safe =
    claim_fifo_head-IsSafe catalog ttl now group db a db' safe e
Step-IsSafe db db' (reap now e) safe = subst IsSafe (sym e) (reap-IsSafe now db safe)
Step-IsSafe db db' (create r off new e) safe =
    subst IsSafe (sym e) (create-IsSafe r db off new safe)
Step-IsSafe db db' (start now id before a e) safe =
    start_deployment-IsSafe now id before db a db' e safe
Step-IsSafe db db' (stop id before a still e) safe =
    stop_deployment-IsSafe id before db a db' still e safe
Step-IsSafe db db' (update gpu_count id payload before still e) safe =
    update_deployment-IsSafe gpu_count id payload before db db' still e safe
Step-IsSafe db db' (terminate now id a e) safe =
    terminate_training_job-IsSafe now id db a db' e safe
Step-IsSafe db db' (cancel now id before still e) safe =
    cancel_evaluation_run-IsSafe now id before db db' still e safe
Step-IsSafe db db' (delete_service agent id e) safe =
    delete_deployment-IsSafe agent id db db' e safe
Step-IsSafe db db' (delete_training agent id e) safe =
    delete_training_job-IsSafe agent id db db' e safe
Step-IsSafe db db' (delete_run agent id e) safe =
    delete_evaluation_run-IsSafe agent id db db' e safe

pub Reach-IsSafe : (db db' : Database) → Reach db db' → IsSafe db → IsSafe db'
Reach-IsSafe db db' here safe = safe
Reach-IsSafe db db' (next {db = mid} r st) safe =
    Step-IsSafe mid db' st (Reach-IsSafe db mid r safe)

-- Two owners with a lease on one card are of one row.
one_holder :
    (t : Leases) (o p : LeaseOwner) (g : ℤ)
    → IsExclusive t
    → holds t o g ≡ true
    → holds t p g ≡ true
    → (o.type == p.type && o.id == p.id) ≡ true
one_holder [] o p g x h k = absurd (cc)
one_holder (l ∷ t) o p g (fresh, x) h k = elim (Bool-cases (l.gpu_index == g)) [
  | inr other ↦ one_holder t o p g x (rw other at h) (rw other at k)
  | inl at_card ↦ held_twice o p l (at_head o at_card h) (at_head p at_card k)
]
  where
    first : (a b : Bool) → b ≡ false → (a || b) ≡ true → a ≡ true
    first a b h k = ground arith

    not_behind : (q : LeaseOwner) → (l.gpu_index == g) ≡ true → holds t q g ≡ false
    not_behind q e = elim (Bool-cases (holds t q g)) [
      | inr free ↦ free
      | inl behind ↦ absurd (
          false≢true (
            sym fresh
            ∙ elem-cards l.gpu_index t
            ∙ ap (is_leased t) (eq_of_beq {a = l.gpu_index} {b = g} e)
            ∙ holds→leased t q g behind))
    ]

    at_head :
        (q : LeaseOwner)
        → (l.gpu_index == g) ≡ true
        → holds (l ∷ t) q g ≡ true
        → is_held_by q l ≡ true
    at_head q e h = first _ (holds t q g) (not_behind q e) (rw e at h)

IsSafe-exclusive :
    (db : Database) (r s : Row) (g : ℤ)
    → IsSafe db
    → Memᴰ r db.rows
    → Memᴰ s db.rows
    → is_active r ≡ true
    → is_active s ≡ true
    → elem g (common r).gpu_ids ≡ true
    → elem g (common s).gpu_ids ≡ true
    → r ≡ s
IsSafe-exclusive db r s g safe mr ms on_r on_s gr gs = some_eq (
    sym (get_row-mem (any_owner (table s) (common s).id) db.rows r safe.keyed mr same)
    ∙ get_row-mem (any_owner (table s) (common s).id) db.rows s safe.keyed ms
        (rw (beq_refl (table s), beq_refl (common s).id)))
  where
    some_eq : ◌≡◌ {A = Option Row} (some r) (some s) → r ≡ s
    some_eq h = cc

    held :
        (k : Row)
        → Memᴰ k db.rows
        → is_active k ≡ true
        → elem g (common k).gpu_ids ≡ true
        → holds db.leases (row_owner k) g ≡ true
    held k m on h =
        All-elem (λ c. holds db.leases (row_owner k) c ≡ true) g (common k).gpu_ids
          (All-mem (IsBacked db.leases) db.rows k safe.backed m on) h

    same : is_row_of (any_owner (table s) (common s).id) r ≡ true
    same =
        one_holder db.leases (row_owner r) (row_owner s) g safe.exclusive (held r mr on_r gr)
          (held s ms on_s gs)

abbrev pub no_rows : Database
no_rows = record { rows = []; leases = [] }

pub no_rows-IsSafe : IsSafe no_rows
no_rows-IsSafe = record { exclusive = tt; keyed = tt; backed = tt }

-- Starting from empty tables, whatever transactions of the reconciler and of requests are
-- committed, in whatever order: two rows that are active and name a common card are one row. A
-- response of the agent, and a refused start, is taken to meet its row while that is active, or
-- gone; a created row is inactive and has a fresh key. Between the reading of a row by a request
-- to stop or update a deployment or to cancel an evaluation, which takes no lock, and its commit,
-- the row neither becomes active nor ceases to be.
pub Reach-exclusive :
    (db : Database) (r s : Row) (g : ℤ)
    → Reach no_rows db
    → Memᴰ r db.rows
    → Memᴰ s db.rows
    → is_active r ≡ true
    → is_active s ≡ true
    → elem g (common r).gpu_ids ≡ true
    → elem g (common s).gpu_ids ≡ true
    → r ≡ s
Reach-exclusive db r s g reach mr ms on_r on_s gr gs =
    IsSafe-exclusive db r s g (Reach-IsSafe no_rows db reach no_rows-IsSafe) mr ms on_r on_s gr gs
