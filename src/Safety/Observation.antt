-- ===== src/Safety/Observation.antt =====
-- A response of the node agent, an agent error and a refused start.
use mathlib.Core.Bool.{false≢true}
use open_llmops.Prelude.{
  ℕ, ◌≡◌, refl, sym, ◌∙◌, true, Option, some, none, List, ◌==◌, nat_eq, String, Bool-cases, inl,
  inr,
}
use open_llmops.Workloads.{Row, deployment, training, evaluation, common}
use open_llmops.Leases.{Leases, LeaseOwner, release, heartbeat, is_held_by}
use open_llmops.Leases.Exclusive.{release-IsExclusive}
use open_llmops.Agent.{AgentCommandResponse, is_live}
use open_llmops.Reconciler.Database.{Database, get_row, put_row, is_row_of, is_active}
use open_llmops.Reconciler.Observe.{Validators}
use open_llmops.Reconciler.ObserveJob.{
  apply_observation, observed, beat, with_error, record_agent_error, recorded, start_failed,
  start_refused, fail_start,
}
use open_llmops.Safety.Effect.{Effect, ended, kept, observe_row-Effect}
use open_llmops.Safety.Backing.{
  IsCovered, IsBacked, IsSafe, get_row-All, IsCovered-release, IsSameClaim, IsCovered-claim,
  other_row, row_of-key, IsSafe-renew, IsSafe-put,
}

-- The row that the response is about, if it is there, is active.
abbrev pub IsAwaited : LeaseOwner → Database → Type 0
IsAwaited owner db = (r : Row) → get_row owner db.rows ≡ some r → is_active r ≡ true

Effect-IsSafe :
    (owner : LeaseOwner) (r r' : Row) (rows : List Row) (t t' : Leases)
    → IsSafe (record { rows = rows; leases = t })
    → is_row_of owner r ≡ true
    → IsCovered t r
    → Effect owner r t r' t'
    → IsSafe (record { rows = put_row r' rows; leases = t' })
Effect-IsSafe owner r r' rows t t' safe found covered (ended off k i e) =
    let (kr, ir) = row_of-key owner r found in
    IsSafe-put r' rows t t' safe (rw e (release-IsExclusive owner t safe.exclusive))
      (λ s other c.
        rw e (IsCovered-release owner t s (other_row owner r' s (k ∙ kr) (i ∙ ir) other) c))
      (λ on. absurd (false≢true (sym off ∙ on)))
Effect-IsSafe owner r r' rows t t' safe found covered (kept claim e) =
    IsSafe-put r' rows t t' safe (rw e safe.exclusive) (λ s _ c. rw e c)
      (λ _. rw e (IsCovered-claim t r r' claim covered))

module _ (checks : Validators) (now : ℕ) (owner : LeaseOwner) (response : AgentCommandResponse)
    (ttl : ℕ) where
  beat-IsSafe :
      (rows : List Row) (t : Leases)
      → IsSafe (record { rows = rows; leases = t })
      → IsSafe (record { rows = rows; leases = beat checks now owner response ttl t })
  unfolding heartbeat
  beat-IsSafe rows t safe = elim (Bool-cases (is_live response.observed_state)) [
    | inl live ↦ rw live (IsSafe-renew (is_held_by owner) ttl now rows t safe)
    | inr over ↦ rw over safe
  ]

  observed-IsSafe :
      (o : Option Row) (db : Database)
      → get_row owner db.rows ≡ o
      → IsAwaited owner db
      → IsSafe db
      → IsSafe (observed checks now owner response ttl o db)
  observed-IsSafe none db e on safe = safe
  observed-IsSafe (some r) db e on safe =
      elim (Bool-cases ((common r).runtime_generation == owner.generation)) [
        | inr other ↦ rw other safe
        | inl same ↦
            let (backed, found) = get_row-All (IsBacked db.leases) owner db.rows r e safe.backed in
            rw same (
              beat-IsSafe _ _ (
                Effect-IsSafe owner r _ db.rows db.leases _ safe found (backed (on r e))
                  (observe_row-Effect checks now owner response r db.leases)))
      ]

  -- A response about a row that is active, or gone, leaves a safe database safe, whatever it
  -- says.
  pub apply_observation-IsSafe :
      (db : Database)
      → IsAwaited owner db
      → IsSafe db
      → IsSafe (apply_observation checks now owner response ttl db)
  unfolding apply_observation
  apply_observation-IsSafe db on safe = observed-IsSafe _ db refl on safe

with_error-claim : (m : String) (r : Row) → IsSameClaim r (with_error m r)
with_error-claim m (deployment d) = record { owner = refl; gpu_ids = refl }
with_error-claim m (training j) = record { owner = refl; gpu_ids = refl }
with_error-claim m (evaluation r) = record { owner = refl; gpu_ids = refl }

with_error-active : (m : String) (r : Row) → is_active (with_error m r) ≡ is_active r
unfolding is_active
with_error-active m (deployment d) = refl
with_error-active m (training j) = refl
with_error-active m (evaluation r) = refl

recorded-IsSafe :
    (owner : LeaseOwner) (m : String) (o : Option Row) (db : Database)
    → get_row owner db.rows ≡ o
    → IsSafe db
    → IsSafe (recorded owner m o db)
recorded-IsSafe owner m none db e safe = safe
recorded-IsSafe owner m (some r) db e safe =
    elim (Bool-cases ((common r).runtime_generation == owner.generation)) [
      | inr other ↦ rw other safe
      | inl same ↦
          let (backed, _) = get_row-All (IsBacked db.leases) owner db.rows r e safe.backed in
          rw same (
            IsSafe-put (with_error m r) db.rows db.leases db.leases safe safe.exclusive (λ _ _ c. c)
              (λ on.
                IsCovered-claim db.leases r (with_error m r) (with_error-claim m r)
                  (backed (sym (with_error-active m r) ∙ on))))
    ]

-- An agent error keeps all leases.
pub record_agent_error-IsSafe :
    (owner : LeaseOwner) (m : String) (db : Database)
    → IsSafe db
    → IsSafe (record_agent_error owner m db)
unfolding record_agent_error
record_agent_error-IsSafe owner m db safe = recorded-IsSafe owner m _ db refl safe

start_failed-Effect :
    (now : ℕ) (owner : LeaseOwner) (m : String) (r : Row) (t : Leases)
    → Effect owner r t (start_failed now m r) (release owner t).1
unfolding is_active
start_failed-Effect now owner m (deployment d) t = ended refl refl refl refl
start_failed-Effect now owner m (training j) t = ended refl refl refl refl
start_failed-Effect now owner m (evaluation r) t = ended refl refl refl refl

start_refused-IsSafe :
    (now : ℕ) (owner : LeaseOwner) (m : String) (o : Option Row) (db : Database)
    → get_row owner db.rows ≡ o
    → IsAwaited owner db
    → IsSafe db
    → IsSafe (start_refused now owner m o db)
start_refused-IsSafe now owner m none db e on safe = safe
start_refused-IsSafe now owner m (some r) db e on safe =
    elim (Bool-cases ((common r).runtime_generation == owner.generation)) [
      | inr other ↦ rw other safe
      | inl same ↦
          let (backed, found) = get_row-All (IsBacked db.leases) owner db.rows r e safe.backed in
          rw same (
            Effect-IsSafe owner r _ db.rows db.leases _ safe found (backed (on r e))
              (start_failed-Effect now owner m r db.leases))
    ]

pub fail_start-IsSafe :
    (now : ℕ) (owner : LeaseOwner) (m : String) (db : Database)
    → IsAwaited owner db
    → IsSafe db
    → IsSafe (fail_start now owner m db)
unfolding fail_start
fail_start-IsSafe now owner m db on safe = start_refused-IsSafe now owner m _ db refl on safe
