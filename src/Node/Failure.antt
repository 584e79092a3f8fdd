-- ===== src/Node/Failure.antt =====
-- When the node agent reports a container as failed, on which the control plane releases its cards.
use mathlib.Core.Bool.{false≢true}
use open_llmops.Prelude.{
  ℕ, ◌≡◌, ◌≢◌, ◌↔◌, ◌⊎◌, inl, inr, refl, sym, ◌∙◌, Bool, true, false, ◌&&◌, Option, some, none,
  Bool-cases, arith, Result, ok, err,
}
use open_llmops.Workloads.{LeaseOwnerType}
use open_llmops.Agent.{AgentWorkloadState, Metadata}
use open_llmops.Node.Commands.{Command, CommandResult, NodeError}
use open_llmops.Node.Inspect.{
  WorkloadInfo, state_from_info, FailureReason, Timeouts, inference_failure_reason,
}
use open_llmops.Node.Report.{
  Runner, is_inference, is_starting, quiesced, given_up, judge, is_succeeded, metadata_of, composed,
  response_from_info,
}

is_starting-eq : (s : AgentWorkloadState) → is_starting s ≡ true → s ≡ AgentWorkloadState.starting
is_starting-eq s h = ground arith

module _ {W : Type 0} (settings : Timeouts) (clock : W → ℕ) (runner : Runner W)
    (info : WorkloadInfo) (w : W) where
  -- An inference container that is not ready, that there is a reason to give up, and that the engine
  -- has confirmed to be stopped.
  pub record IsQuiesced : Type 0 where
    pub of_inference : is_inference info.kind ≡ true
    pub starts : state_from_info info ≡ AgentWorkloadState.starting
    pub reason : inference_failure_reason settings (clock w) info ≢ none
    pub stopped : (runner.quiesce_failed_inference info.workload_id info.generation w).0 ≡ true

  quiesced-failed :
      (r : FailureReason) (q : Bool × W)
      → (quiesced settings clock runner r q).0.state ≡ AgentWorkloadState.failed
      → q.0 ≡ true
  quiesced-failed r (true, u) h = refl
  quiesced-failed r (false, u) h = absurd (cc)

  failed-quiesced :
      (r : FailureReason) (q : Bool × W)
      → q.0 ≡ true
      → (quiesced settings clock runner r q).0.state ≡ AgentWorkloadState.failed
  failed-quiesced r (true, u) h = refl
  failed-quiesced r (false, u) h = absurd (false≢true h)

  given_up-IsQuiesced :
      (o : Option FailureReason)
      → inference_failure_reason settings (clock w) info ≡ o
      → is_inference info.kind ≡ true
      → state_from_info info ≡ AgentWorkloadState.starting
      → (given_up settings clock runner info o w).0.state ≡ AgentWorkloadState.failed
      → IsQuiesced
  given_up-IsQuiesced none e i s h = absurd (cc)
  given_up-IsQuiesced (some r) e i s h = record {
    of_inference = i;
    starts = s;
    reason = λ n. cc (sym e ∙ n);
    stopped = quiesced-failed r _ h;
  }

  given_up-failed :
      (o : Option FailureReason)
      → inference_failure_reason settings (clock w) info ≡ o
      → IsQuiesced
      → (given_up settings clock runner info o w).0.state ≡ AgentWorkloadState.failed
  given_up-failed none e q = absurd (q.reason e)
  given_up-failed (some r) e q = failed-quiesced r _ q.stopped

  judge-IsQuiesced :
      (judge settings clock runner info w).0.state ≡ AgentWorkloadState.failed
      → (state_from_info info ≡ AgentWorkloadState.failed) ⊎ IsQuiesced
  unfolding judge
  judge-IsQuiesced h =
      elim (Bool-cases (is_inference info.kind && is_starting (state_from_info info))) [
        | inr other ↦ inl (rw other at h)
        | inl both ↦ inr (
            given_up-IsQuiesced _ refl (left _ (is_starting (state_from_info info)) both)
              (is_starting-eq _ (right (is_inference info.kind) _ both)) (rw both at h))
      ]
    where
      left : (a b : Bool) → (a && b) ≡ true → a ≡ true
      left a b h = ground arith

      right : (a b : Bool) → (a && b) ≡ true → b ≡ true
      right a b h = ground arith

  judge-failed :
      (state_from_info info ≡ AgentWorkloadState.failed) ⊎ IsQuiesced
      → (judge settings clock runner info w).0.state ≡ AgentWorkloadState.failed
  unfolding judge
  judge-failed (inl h) = rw (h, no_more (is_inference info.kind))
    where
      no_more : (b : Bool) → (b && false) ≡ false
      no_more b = ground arith
  judge-failed (inr q) = rw (q.of_inference, q.starts) (given_up-failed _ refl q)

  -- The state of the container stands for failed, or it is given up and stopped.
  abbrev pub HasFailed : Type 0
  HasFailed = (state_from_info info ≡ AgentWorkloadState.failed) ⊎ IsQuiesced

  -- The results of a training, or of an evaluation that has succeeded, cannot be read.
  pub data IsUnread (c : Command) (x : NodeError) : Type 0 where
    of_training :
        c.body.owner.type ≡ LeaseOwnerType.of_training
        → (runner.training_metadata c.body.owner.id
            (is_succeeded (judge settings clock runner info w).0.state)
            (judge settings clock runner info w).1).0
          ≡ err x
        → IsUnread c x
    of_evaluation :
        c.body.owner.type ≡ LeaseOwnerType.of_evaluation
        → is_succeeded (judge settings clock runner info w).0.state ≡ true
        → (runner.evaluation_metadata c.body.owner.id (judge settings clock runner info w).1).0
          ≡ err x
        → IsUnread c x

  -- What a response says, and what an error stands for.
  abbrev pub IsReport : Command → Result NodeError CommandResult → Type 0
  IsReport c (ok r) = (r.response.observed_state ≡ AgentWorkloadState.failed) ↔ HasFailed
  IsReport c (err x) = IsUnread c x

  metadata-IsUnread :
      (c : Command) (type : LeaseOwnerType) (x : NodeError)
      → c.body.owner.type ≡ type
      → (metadata_of settings clock runner c.body.owner type
          (judge settings clock runner info w).0.state
          info
          (judge settings clock runner info w).1).0
        ≡ err x
      → IsUnread c x
  metadata-IsUnread c LeaseOwnerType.of_deployment x e h = absurd (cc)
  metadata-IsUnread c LeaseOwnerType.of_training x e h = IsUnread.of_training e h
  metadata-IsUnread c LeaseOwnerType.of_evaluation x e h =
      elim (Bool-cases (is_succeeded (judge settings clock runner info w).0.state)) [
        | inl done ↦ IsUnread.of_evaluation e done (rw done at h)
        | inr other ↦ absurd (cc (rw other at h))
      ]

  composed-IsReport :
      (c : Command) (accepted : Bool) (q : Result NodeError Metadata × W)
      → ((x : NodeError) → q.0 ≡ err x → IsUnread c x)
      → IsReport c
          (composed settings clock runner accepted info (judge settings clock runner info w).0 q).0
  composed-IsReport c accepted (err x, u) f = f x refl
  composed-IsReport c accepted (ok m, u) f = (judge-IsQuiesced, judge-failed)

-- A report on a container says failed exactly when its own state stands for failed, or it is an
-- inference container that is starting, there is a reason to give it up, and the engine has
-- confirmed that it is stopped. Instead of a report there is an error only if the results of a
-- training, or of an evaluation that has succeeded, could not be read; it is that error.
pub response_from_info-IsReport :
    {W : Type 0} (settings : Timeouts) (clock : W → ℕ) (runner : Runner W) (c : Command)
    (accepted : Bool) (info : WorkloadInfo) (w : W)
    → IsReport settings clock runner info w c
        (response_from_info settings clock runner c accepted info w).0
unfolding response_from_info
response_from_info-IsReport settings clock runner c accepted info w =
    composed-IsReport settings clock runner info w c accepted _
      (λ x h. metadata-IsUnread settings clock runner info w c c.body.owner.type x refl h)
