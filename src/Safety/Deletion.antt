-- ===== src/Safety/Deletion.antt =====
-- The requests that delete a workload.
use mathlib.Core.Bool.{false≢true}
use open_llmops.Prelude.{
  ℕ, ◌≡◌, ◌↔◌, refl, sym, ◌∙◌, subst, String, Bool, true, false, not, ◌||◌, Option, some, none,
  List, [], ◌∷◌, nat_eq, ℤ, Bool-cases, inl, inr, arith, All, All-map, beq_refl, select, any,
  Result, ok, err, >>=-eq-ok, raise_if, ◌≤◌, if◌then◌else◌, ltb,
}
use open_llmops.Workloads.{
  Row, deployment, training, evaluation, table, common, of_training, of_evaluation, type_eq,
}
use open_llmops.Leases.{Leases, Lease, LeaseOwner, is_held_by, is_owned_by}
use open_llmops.Leases.Table.{IsExclusive-select, holds-select}
use open_llmops.Agent.{AgentCommandResponse, AgentWorkloadState}
use open_llmops.Cleanup.{
  Gateway, CleanupError, confirm_absent_and_release_leases, answered, unavailable, blocked,
  cleanup_command, is_absent,
}
use open_llmops.Reconciler.Database.{Database, get_row, is_terminal_job}
use open_llmops.Routes.Common.{
  HttpError, http, any_owner, delete_row, delete_confirmed, cleaned, cleanup_owner,
}
use open_llmops.Routes.Deployments.{find_deployment, delete_deployment, is_editable}
use open_llmops.Routes.Jobs.{as_training, as_evaluation, delete_training_job, delete_evaluation_run}
use open_llmops.Safety.Backing.{
  row_owner, IsCovered, IsBacked, IsSafe, same_key, IsKeyed, held_twice,
}

-- What the cleanup leaves when it succeeds, and what the agent has then said.
pub record IsConfirmed (agent : Gateway) (owner : LeaseOwner) (gpu_ids : List ℤ) (t t' : Leases)
    : Type 0 where
  pub response : AgentCommandResponse
  pub said : agent (cleanup_command owner gpu_ids) ≡ ok response
  pub accepted : response.accepted ≡ true
  pub absent : response.observed_state ≡ AgentWorkloadState.absent
  pub generation : 1 ≤ owner.generation
  pub remaining : t' ≡ select (λ l. not (is_owned_by owner l)) t

is_absent-eq : (s : AgentWorkloadState) → is_absent s ≡ true → s ≡ AgentWorkloadState.absent
is_absent-eq s h = ground arith

-- The cleanup succeeds exactly when the generation is at least 1 and the agent has accepted it
-- and seen the container absent; then the leases of every generation of the owner go, and no
-- other.
pub confirm_absent-IsConfirmed :
    (agent : Gateway) (owner : LeaseOwner) (gpu_ids : List ℤ) (t t' : Leases)
    → (confirm_absent_and_release_leases agent owner gpu_ids t ≡ ok t')
      ↔ IsConfirmed agent owner gpu_ids t t'
unfolding confirm_absent_and_release_leases
confirm_absent-IsConfirmed agent owner gpu_ids t t' = (to, from)
  where
    reply :
        (q : Result String AgentCommandResponse)
        → agent (cleanup_command owner gpu_ids) ≡ q
        → 1 ≤ owner.generation
        → answered owner t q ≡ ok t'
        → IsConfirmed agent owner gpu_ids t t'
    reply (err e) said g h = absurd (cc)
    reply (ok response) said g h = elim (Bool-cases response.accepted) [
      | inr refused ↦ absurd (cc (rw refused at h))
      | inl yes_accepted ↦ elim (Bool-cases (is_absent response.observed_state)) [
        | inr present ↦ absurd (cc (rw (yes_accepted, present) at h))
        | inl gone ↦ record {
          response = response;
          said = said;
          accepted = yes_accepted;
          absent = is_absent-eq response.observed_state gone;
          generation = g;
          remaining = sym (ok_eq (rw (yes_accepted, gone) at h));
        }
      ]
    ]
      where
        ok_eq : {u v : Leases} → ◌≡◌ {A = Result CleanupError Leases} (ok u) (ok v) → u ≡ v
        ok_eq h = cc

    to :
        (if ltb owner.generation 1
            then err (blocked "运行代次无效，拒绝清理")
            else answered owner t (agent (cleanup_command owner gpu_ids)))
          ≡ ok t'
        → IsConfirmed agent owner gpu_ids t t'
    to h = elim (Bool-cases (ltb owner.generation 1)) [
      | inl low ↦ absurd (cc (rw low at h))
      | inr high ↦ reply _ refl (ground arith) (rw high at h)
    ]

    from :
        IsConfirmed agent owner gpu_ids t t'
        → (if ltb owner.generation 1
            then err (blocked "运行代次无效，拒绝清理")
            else answered owner t (agent (cleanup_command owner gpu_ids)))
          ≡ ok t'
    from c = rw (high, c.said, c.accepted, c.absent, c.remaining)
      where
        high : ltb owner.generation 1 ≡ false
        high = let g : 1 ≤ owner.generation = c.generation in ground arith

delete_row-IsKeyed : (r : Row) (rows : List Row) → IsKeyed rows → IsKeyed (delete_row r rows)
unfolding delete_row
delete_row-IsKeyed r [] u = tt
delete_row-IsKeyed r (s ∷ rows) (new, u) = elim (Bool-cases (same_key s r)) [
  | inl same ↦ rw same (delete_row-IsKeyed r rows u)
  | inr other ↦ rw other (none rows new, delete_row-IsKeyed r rows u)
]
  where
    none :
        (xs : List Row)
        → any (same_key s) xs ≡ false
        → any (same_key s) (select (λ k. not (same_key k r)) xs) ≡ false
    none [] h = refl
    none (k ∷ xs) h = elim (Bool-cases (same_key k r)) [
      | inl same ↦ rw same (none xs (tail (same_key s k) _ h))
      | inr other ↦ rw other (join (same_key s k) _ h (none xs (tail (same_key s k) _ h)))
    ]
      where
        tail : (a b : Bool) → (a || b) ≡ false → b ≡ false
        tail a b h = ground arith

        join : (a b : Bool) {c : Bool} → (a || b) ≡ false → c ≡ false → (a || c) ≡ false
        join a b h k = ground arith

delete_row-All :
    (P Q : Row → Type 0) (r : Row) (rows : List Row)
    → ((s : Row) → same_key s r ≡ false → P s → Q s)
    → All P rows
    → All Q (delete_row r rows)
unfolding delete_row
delete_row-All P Q r [] f h = tt
delete_row-All P Q r (s ∷ rows) f h = elim (Bool-cases (same_key s r)) [
  | inl same ↦ rw same (delete_row-All P Q r rows f h.1)
  | inr other ↦ rw other (f s other h.0, delete_row-All P Q r rows f h.1)
]

-- Other rows keep their leases.
IsCovered-delete :
    (r s : Row) (t : Leases)
    → same_key s r ≡ false
    → IsCovered t s
    → IsCovered (select (λ l. not (is_owned_by (cleanup_owner r) l)) t) s
IsCovered-delete r s t other =
    All-map (λ g h. holds-select _ (row_owner s) g t spared ∙ h) (common s).gpu_ids
  where
    as_owner : Lease → LeaseOwner
    as_owner l = record { type = table r; id = (common r).id; name = ""; generation = l.generation }

    spared :
        (l : Lease)
        → is_held_by (row_owner s) l ≡ true
        → not (is_owned_by (cleanup_owner r) l) ≡ true
    spared l h = elim (Bool-cases (is_owned_by (cleanup_owner r) l)) [
      | inr free ↦ rw free
      | inl both ↦ absurd (
          false≢true (
            sym other
            ∙ held_twice (row_owner s) (as_owner l) l h (rw (both, beq_refl l.generation))))
    ]

cleaned-IsSafe :
    (agent : Gateway) (r : Row) (db db' : Database) (q : Result CleanupError Leases)
    → confirm_absent_and_release_leases agent (cleanup_owner r) (common r).gpu_ids db.leases ≡ q
    → cleaned r db q ≡ ok db'
    → IsSafe db
    → IsSafe db'
cleaned-IsSafe agent r db db' (err (unavailable m)) e h safe = absurd (cc)
cleaned-IsSafe agent r db db' (err (blocked m)) e h safe = absurd (cc)
cleaned-IsSafe agent r db db' (ok t) e h safe =
    let c =
      (confirm_absent-IsConfirmed agent (cleanup_owner r) (common r).gpu_ids db.leases t).0 e in
    subst IsSafe (ok_eq h) (
      subst (λ u. IsSafe (record { rows = delete_row r db.rows; leases = u })) (sym c.remaining)
        (record {
          exclusive = IsExclusive-select _ db.leases safe.exclusive;
          keyed = delete_row-IsKeyed r db.rows safe.keyed;
          backed =
              delete_row-All (IsBacked db.leases) _ r db.rows
                (λ s other b on. IsCovered-delete r s db.leases other (b on)) safe.backed;
        }))
  where
    ok_eq : {d d' : Database} → ◌≡◌ {A = Result HttpError Database} (ok d) (ok d') → d ≡ d'
    ok_eq h = cc

pub delete_confirmed-IsSafe :
    (agent : Option Gateway) (r : Row) (db db' : Database)
    → delete_confirmed agent r db ≡ ok db'
    → IsSafe db
    → IsSafe db'
unfolding delete_confirmed
delete_confirmed-IsSafe none r db db' h safe = absurd (cc)
delete_confirmed-IsSafe (some agent) r db db' h safe = cleaned-IsSafe agent r db db' _ refl h safe

pub delete_deployment-IsSafe :
    (agent : Option Gateway) (id : ℕ) (db db' : Database)
    → delete_deployment agent id db ≡ ok db'
    → IsSafe db
    → IsSafe db'
unfolding delete_deployment
delete_deployment-IsSafe agent id db db' h safe =
    let (d, _, h1) = >>=-eq-ok (find_deployment id db.rows) _ h in
    let (u, _, h2) =
      >>=-eq-ok (raise_if (not (is_editable d.actual_state)) (http 409 "请先停止部署再删除"))
        (λ _. delete_confirmed agent (deployment d) db) h1 in
    delete_confirmed-IsSafe agent (deployment d) db db' h2 safe

pub delete_training_job-IsSafe :
    (agent : Option Gateway) (id : ℕ) (db db' : Database)
    → delete_training_job agent id db ≡ ok db'
    → IsSafe db
    → IsSafe db'
unfolding delete_training_job
delete_training_job-IsSafe agent id db db' h safe =
    let (j, _, h1) = >>=-eq-ok (as_training (get_row (any_owner of_training id) db.rows)) _ h in
    let (u, _, h2) =
      >>=-eq-ok (raise_if (not (is_terminal_job j.job.actual_state)) (http 409 "只能删除已结束的训练任务"))
        (λ _. delete_confirmed agent (training j) db) h1 in
    delete_confirmed-IsSafe agent (training j) db db' h2 safe

pub delete_evaluation_run-IsSafe :
    (agent : Option Gateway) (id : ℕ) (db db' : Database)
    → delete_evaluation_run agent id db ≡ ok db'
    → IsSafe db
    → IsSafe db'
unfolding delete_evaluation_run
delete_evaluation_run-IsSafe agent id db db' h safe =
    let (r, _, h1) = >>=-eq-ok (as_evaluation (get_row (any_owner of_evaluation id) db.rows)) _ h in
    let (u, _, h2) =
      >>=-eq-ok (raise_if (not (is_terminal_job r.job.actual_state)) (http 409 "只能删除已结束的评测任务"))
        (λ _. delete_confirmed agent (evaluation r) db) h1 in
    delete_confirmed-IsSafe agent (evaluation r) db db' h2 safe
