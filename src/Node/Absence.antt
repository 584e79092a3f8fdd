-- ===== src/Node/Absence.antt =====
-- When the node agent reports a container as absent, on which the control plane releases its cards
-- and deletes its row.
use open_llmops.Prelude.{
  ℕ, String, ◌≡◌, ◌≢◌, ◌⊎◌, inl, inr, refl, sym, subst, Bool, true, false, ◌&&◌, ◌||◌, ◌==◌, nat_eq,
  string_eq, Option, some, none, Bool-cases, Result, ok, err, ℤ,
}
use open_llmops.Agent.{AgentAction, absent, Execution, Metadata}
use open_llmops.Node.Commands.{Command, CommandResult, NodeError}
use open_llmops.Node.Inspect.{
  WorkloadKind, WorkloadInfo, state_from_info, state_of_kind, inference_state, job_state, is_text,
  is_zero, FailureReason, Timeouts,
}
use open_llmops.Node.Report.{
  Runner, RunnerError, not_found, raised, is_inference, is_starting, quiesced, given_up, judge,
  response_from_info, Verdict, composed, judge, after_start, after_stop, after_cleanup, observed,
  dispatch_stop, dispatch_status, dispatch_by, dispatch,
}

inference-present : (s : String) (h : Option String) → inference_state s h ≢ absent
inference-present s h = elim (Bool-cases (s == "created" || (s == "restarting" || s == "paused"))) [
  | inl made ↦ rw made (λ e. cc)
  | inr old ↦ elim (Bool-cases (s == "running")) [
    | inl up ↦ elim (Bool-cases (is_text "healthy" h)) [
      | inl well ↦ rw (old, up, well) (λ e. cc)
      | inr ill ↦ rw (old, up, ill) (λ e. cc)
    ]
    | inr down ↦ elim (Bool-cases (s == "removing")) [
      | inl going ↦ rw (old, down, going) (λ e. cc)
      | inr stays ↦ rw (old, down, stays) (λ e. cc)
    ]
  ]
]

job-present : (s : String) (code : Option ℤ) → job_state s code ≢ absent
job-present s code = elim (Bool-cases (s == "created" || s == "restarting")) [
  | inl made ↦ rw made (λ e. cc)
  | inr old ↦ elim (Bool-cases (s == "running" || s == "paused")) [
    | inl up ↦ rw (old, up) (λ e. cc)
    | inr down ↦ elim (Bool-cases (s == "removing")) [
      | inl going ↦ rw (old, down, going) (λ e. cc)
      | inr stays ↦ elim (Bool-cases (s == "exited" && is_zero code)) [
        | inl fine ↦ rw (old, down, stays, fine) (λ e. cc)
        | inr bad ↦ rw (old, down, stays, bad) (λ e. cc)
      ]
    ]
  ]
]

kind-present : (k : WorkloadKind) (info : WorkloadInfo) → state_of_kind k info ≢ absent
kind-present WorkloadKind.inference info = inference-present info.status info.health_status
kind-present WorkloadKind.training info = job-present info.status info.exit_code
kind-present WorkloadKind.evaluation info = job-present info.status info.exit_code

module _ {W : Type 0} (settings : Timeouts) (clock : W → ℕ) (runner : Runner W) where
  given_up-present :
      (info : WorkloadInfo) (o : Option FailureReason) (w : W)
      → (given_up settings clock runner info o w).0.state ≢ absent
  given_up-present info none w = λ e. cc
  given_up-present info (some r) w = by_answer _
    where
      by_answer : (q : Bool × W) → (quiesced settings clock runner r q).0.state ≢ absent
      by_answer (true, u) e = cc
      by_answer (false, u) e = cc

  judge-present :
      (info : WorkloadInfo) (w : W) → (judge settings clock runner info w).0.state ≢ absent
  unfolding judge state_from_info
  judge-present info w =
      elim (Bool-cases (is_inference info.kind && is_starting (state_from_info info))) [
        | inl both ↦ rw both (given_up-present info _ w)
        | inr other ↦ rw other (kind-present info.kind info)
      ]

  -- What the engine has said when a command is answered by `ABSENT`.
  pub data IsGone (c : Command) (w : W) : Type 0 where
    stopped :
        c.body.action ≡ AgentAction.stop
        → c.body.execution ≡ Execution.empty
        → ((runner.stop_contract_workload c.body.owner w).0 ≡ err not_found)
          ⊎ ((runner.stop_contract_workload c.body.owner w).0 ≡ ok none)
        → IsGone c w
    cleaned :
        c.body.action ≡ AgentAction.stop
        → c.body.execution ≡ Execution.cleanup_terminal
        → (runner.cleanup_contract_workload c.body.owner w).0 ≡ ok tt
        → IsGone c w
    missing :
        c.body.action ≡ AgentAction.status
        → c.body.execution ≡ Execution.empty
        → (runner.get_contract_workload c.body.owner w).0 ≡ err not_found
        → IsGone c w

  -- An answer that says `ABSENT`.
  abbrev SaysAbsent : Result NodeError CommandResult × W → Type 0
  SaysAbsent (ok r, w) = r.response.observed_state ≡ absent
  SaysAbsent (err e, w) = ⊥

  composed-present :
      (info : WorkloadInfo) (v : Verdict) (q : Result NodeError Metadata × W)
      → (v.state ≡ absent → ⊥)
      → SaysAbsent (composed settings clock runner true info v q)
      → ⊥
  composed-present info v (err e, u) f h = h
  composed-present info v (ok m, u) f h = f h

  from_info :
      (c : Command) (info : WorkloadInfo) (w : W)
      → SaysAbsent (response_from_info settings clock runner c true info w)
      → ⊥
  unfolding response_from_info
  from_info c info w =
      composed-present info (judge settings clock runner info w).0 _ (judge-present info w)

  after_start-present :
      (c : Command) (q : Result NodeError WorkloadInfo × W)
      → SaysAbsent (after_start settings clock runner c q)
      → ⊥
  after_start-present c (err e, u) h = h
  after_start-present c (ok info, u) h = from_info c info u h

  after_stop-gone :
      (c : Command) (q : Result RunnerError (Option WorkloadInfo) × W)
      → SaysAbsent (after_stop settings clock runner c q)
      → (q.0 ≡ err not_found) ⊎ (q.0 ≡ ok none)
  after_stop-gone c (err not_found, u) h = inl refl
  after_stop-gone c (err (raised e), u) h = absurd h
  after_stop-gone c (ok none, u) h = inr refl
  after_stop-gone c (ok (some info), u) h = absurd (from_info c info u h)

  after_cleanup-gone :
      (q : Result NodeError (Unit {0}) × W)
      → SaysAbsent (after_cleanup settings clock runner q)
      → q.0 ≡ ok tt
  after_cleanup-gone (err e, u) h = absurd h
  after_cleanup-gone (ok _, u) h = refl

  observed-gone :
      (c : Command) (q : Result RunnerError WorkloadInfo × W)
      → SaysAbsent (observed settings clock runner c q)
      → q.0 ≡ err not_found
  observed-gone c (err not_found, w) h = refl
  observed-gone c (err (raised e), w) h = absurd h
  observed-gone c (ok info, w) h = elim (Bool-cases (info.generation == c.body.owner.generation)) [
    | inl same ↦ absurd (from_info c info w (rw same at h))
    | inr other ↦ absurd (rw other at h)
  ]

  stop-gone :
      (c : Command) (x : Execution) (w : W)
      → c.body.action ≡ AgentAction.stop
      → c.body.execution ≡ x
      → SaysAbsent (dispatch_stop settings clock runner c x w)
      → IsGone c w
  stop-gone c Execution.empty w a e h = stopped a e (after_stop-gone c _ h)
  stop-gone c Execution.cleanup_terminal w a e h = cleaned a e (after_cleanup-gone _ h)
  stop-gone c (Execution.vllm _ _ _ _ _ _ _) w a e h = absurd h
  stop-gone c (Execution.prepared _) w a e h = absurd h

  status-gone :
      (c : Command) (x : Execution) (w : W)
      → c.body.action ≡ AgentAction.status
      → c.body.execution ≡ x
      → SaysAbsent (dispatch_status settings clock runner c x w)
      → IsGone c w
  status-gone c Execution.empty w a e h = missing a e (observed-gone c _ h)
  status-gone c Execution.cleanup_terminal w a e h = absurd h
  status-gone c (Execution.vllm _ _ _ _ _ _ _) w a e h = absurd h
  status-gone c (Execution.prepared _) w a e h = absurd h

  by-gone :
      (a : AgentAction) (c : Command) (w : W)
      → c.body.action ≡ a
      → SaysAbsent (dispatch_by settings clock runner a c w)
      → IsGone c w
  by-gone AgentAction.start c w e h = absurd (after_start-present c _ h)
  by-gone AgentAction.stop c w e h = stop-gone c c.body.execution w e refl h
  by-gone AgentAction.status c w e h = status-gone c c.body.execution w e refl h

  dispatch-gone :
      (c : Command) (w : W) → SaysAbsent (dispatch settings clock runner c w) → IsGone c w
  unfolding dispatch
  dispatch-gone c w h = by-gone c.body.action c w refl h

-- A dispatched command is answered with the state absent only if it is a stop without parameters
-- and the engine found no container or left none, or a cleanup that the engine completed, or a
-- status without parameters and the engine found no container.
pub dispatch-IsGone :
    {W : Type 0} (settings : Timeouts) (clock : W → ℕ) (runner : Runner W) (c : Command) (w : W)
    (r : CommandResult) (w' : W)
    → dispatch settings clock runner c w ≡ (ok r, w')
    → r.response.observed_state ≡ absent
    → IsGone settings clock runner c w
dispatch-IsGone settings clock runner c w r w' e h =
    dispatch-gone settings clock runner c w (subst (SaysAbsent settings clock runner) (sym e) h)
