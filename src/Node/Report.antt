-- ===== src/Node/Report.antt =====
-- What the node agent answers of a container, and how it dispatches a command: `_response_from_info`,
-- `_dispatch`, `_stop`, `_cleanup`, `_observe` and `_accepted_absent` of
-- agent/openllmops_agent/command_service.py. `W` is the state of the container engine, whose
-- operations (agent/openllmops_agent/docker_runner.py) are the fields of `Runner`.
use open_llmops.Prelude.{
  ℕ, String, Bool, true, false, ◌&&◌, Option, some, none, [], ◌∷◌, ◌++◌, ◌==◌, nat_eq, string_eq,
  if◌then◌else◌, ℤ, Result, ok, err,
}
use open_llmops.Workloads.{LeaseOwnerType, of_deployment, of_training, of_evaluation, str, int}
use open_llmops.Leases.{LeaseOwner}
use open_llmops.Agent.{
  AgentAction, AgentWorkloadState, Execution, Metadata, absent, starting, running, succeeded,
  failed, start, stop, status,
}
use open_llmops.Node.Commands.{
  Command, CommandResult, NodeError, validation_error, invalid_workload, workload_conflict,
}
use open_llmops.Node.Inspect.{
  WorkloadKind, WorkloadInfo, inference, is_text, state_from_info, FailureReason, too_many_restarts,
  no_failing_streak, unhealthy_too_long, no_start_time, startup_timeout, Timeouts,
  inference_failure_reason,
}

-- `WorkloadNotFound`, or another exception.
pub data RunnerError : Type 0 where
  not_found : RunnerError
  raised : NodeError → RunnerError

pub record Runner (W : Type 0) : Type 0 where
  -- `_start`, up to the information on the container that it starts or finds.
  pub start_workload : Command → W → Result NodeError WorkloadInfo × W
  pub stop_contract_workload : LeaseOwner → W → Result RunnerError (Option WorkloadInfo) × W
  pub cleanup_contract_workload : LeaseOwner → W → Result NodeError (Unit {0}) × W
  pub get_contract_workload : LeaseOwner → W → Result RunnerError WorkloadInfo × W
  pub quiesce_failed_inference : (workload_id generation : ℕ) → W → Bool × W
  -- The results that are read may be missing or invalid.
  pub training_metadata : (id : ℕ) (completed : Bool) → W → Result NodeError Metadata × W
  pub evaluation_metadata : (id : ℕ) → W → Result NodeError Metadata × W

abbrev pub is_inference : WorkloadKind → Bool
is_inference inference = true
is_inference _ = false

abbrev pub is_starting : AgentWorkloadState → Bool
is_starting starting = true
is_starting _ = false

abbrev pub is_running : AgentWorkloadState → Bool
is_running running = true
is_running _ = false

abbrev pub is_succeeded : AgentWorkloadState → Bool
is_succeeded succeeded = true
is_succeeded _ = false

-- The state that is reported, with `inference_failure` and `stop_uncertain`.
pub record Verdict : Type 0 where
  pub state : AgentWorkloadState
  pub inference_failure : Option FailureReason
  pub stop_uncertain : Bool

-- `{key: value}` without the values that are `None`.
abbrev pub text_entry : String → Option String → Metadata
text_entry key none = []
text_entry key (some s) = (key, str s) ∷ []

abbrev pub int_entry : String → Option ℤ → Metadata
int_entry key none = []
int_entry key (some n) = (key, int n) ∷ []

abbrev pub deployment_metadata : Bool → WorkloadInfo → Metadata
deployment_metadata false info = text_entry "health_status" info.health_status
deployment_metadata true info =
    text_entry "health_status" info.health_status
    ++ (text_entry "endpoint" info.endpoint
        ++ (int_entry "port" info.port ++ text_entry "service_type" info.service_type))

abbrev pub reason_text : FailureReason → String
reason_text too_many_restarts = "推理容器重启次数已达到上限"
reason_text no_failing_streak = "推理服务 unhealthy 状态缺少可信连续失败计数"
reason_text unhealthy_too_long = "推理服务连续健康检查失败达到上限"
reason_text no_start_time = "推理容器缺少可信启动时间，无法执行有界 readiness 探测"
reason_text startup_timeout = "推理服务启动超时仍未就绪"

abbrev pub failure_message : Option FailureReason → Option ℤ → String
failure_message (some r) code = reason_text r
failure_message none (some n) = "工作负载异常退出"
failure_message none none = "工作负载处于失败状态"

abbrev pub starting_message : Verdict → WorkloadInfo → String
starting_message v info =
    if v.stop_uncertain
    then "停止结果尚未确认，继续保留 GPU 并探测"
    else if info.status == "restarting"
    then "推理容器正在重启，继续保留 GPU 并探测"
    else if is_text "unhealthy" info.health_status
    then "推理服务健康检查未通过，继续保留 GPU 并探测"
    else if is_text "starting" info.health_status
    then "推理服务正在加载模型，等待 readiness"
    else "推理容器尚未提供可信健康状态，等待重建或后续探测"

abbrev pub message_of : AgentWorkloadState → Verdict → WorkloadInfo → Option String
message_of failed v info = some (failure_message v.inference_failure info.exit_code)
message_of starting v info = if is_inference info.kind then some (starting_message v info) else none
message_of _ v info = none

abbrev pub accepted_absent : CommandResult
accepted_absent = record {
  status_code = 200;
  response = record {
    accepted = true;
    observed_state = absent;
    message = none;
    error_code = none;
    metadata = [];
  };
}

module _ {W : Type 0} (settings : Timeouts) (clock : W → ℕ) (runner : Runner W) where
  abbrev pub quiesced : FailureReason → Bool × W → Verdict × W
  quiesced r (true, w) =
      (record { state = failed; inference_failure = some r; stop_uncertain = false }, w)
  quiesced r (false, w) =
      (record { state = starting; inference_failure = some r; stop_uncertain = true }, w)

  abbrev pub given_up : WorkloadInfo → Option FailureReason → W → Verdict × W
  given_up info none w =
      (record { state = starting; inference_failure = none; stop_uncertain = false }, w)
  given_up info (some r) w =
      quiesced r (runner.quiesce_failed_inference info.workload_id info.generation w)

  unfoldable pub judge : WorkloadInfo → W → Verdict × W
  unfolding state_from_info inference_failure_reason
  judge info w =
      if is_inference info.kind && is_starting (state_from_info info)
      then given_up info (inference_failure_reason settings (clock w) info) w
      else (
        record { state = state_from_info info; inference_failure = none; stop_uncertain = false },
        w,
      )

  abbrev pub metadata_of :
      LeaseOwner
      → LeaseOwnerType
      → AgentWorkloadState
      → WorkloadInfo
      → W
      → Result NodeError Metadata × W
  metadata_of owner of_deployment state info w =
      (ok (deployment_metadata (is_running state) info), w)
  metadata_of owner of_training state info w =
      runner.training_metadata owner.id (is_succeeded state) w
  metadata_of owner of_evaluation state info w =
      if is_succeeded state then runner.evaluation_metadata owner.id w else (ok [], w)

  -- The response with the metadata; an error of reading them is passed on.
  abbrev pub composed :
      Bool
      → WorkloadInfo
      → Verdict
      → Result NodeError Metadata × W
      → Result NodeError CommandResult × W
  composed accepted info v (err e, w) = (err e, w)
  composed accepted info v (ok metadata, w) = (
    ok (record {
      status_code = 200;
      response = record {
        accepted = accepted;
        observed_state = v.state;
        message = message_of v.state v info;
        error_code = none;
        metadata = metadata;
      };
    }),
    w,
  )

  abbrev pub reported :
      Command → Bool → WorkloadInfo → Verdict × W → Result NodeError CommandResult × W
  reported c accepted info (v, w) =
      composed accepted info v (metadata_of c.body.owner c.body.owner.type v.state info w)

  unfoldable pub response_from_info :
      Command → Bool → WorkloadInfo → W → Result NodeError CommandResult × W
  unfolding judge
  response_from_info c accepted info w = reported c accepted info (judge info w)

  abbrev pub after_start :
      Command → Result NodeError WorkloadInfo × W → Result NodeError CommandResult × W
  after_start c (err e, w) = (err e, w)
  after_start c (ok info, w) = response_from_info c true info w

  abbrev pub after_stop :
      Command → Result RunnerError (Option WorkloadInfo) × W → Result NodeError CommandResult × W
  after_stop c (err not_found, w) = (ok accepted_absent, w)
  after_stop c (err (raised e), w) = (err e, w)
  after_stop c (ok none, w) = (ok accepted_absent, w)
  after_stop c (ok (some info), w) = response_from_info c true info w

  abbrev pub after_cleanup : Result NodeError (Unit {0}) × W → Result NodeError CommandResult × W
  after_cleanup (err e, w) = (err e, w)
  after_cleanup (ok _, w) = (ok accepted_absent, w)

  abbrev pub observed :
      Command → Result RunnerError WorkloadInfo × W → Result NodeError CommandResult × W
  observed c (err not_found, w) = (ok accepted_absent, w)
  observed c (err (raised e), w) = (err e, w)
  observed c (ok info, w) =
      if info.generation == c.body.owner.generation
      then response_from_info c true info w
      else (err (workload_conflict "status generation 与节点容器不一致"), w)

  abbrev pub dispatch_stop : Command → Execution → W → Result NodeError CommandResult × W
  dispatch_stop c Execution.empty w = after_stop c (runner.stop_contract_workload c.body.owner w)
  dispatch_stop c Execution.cleanup_terminal w =
      after_cleanup (runner.cleanup_contract_workload c.body.owner w)
  dispatch_stop c _ w = (err (validation_error "TerminalCleanupExecution"), w)

  abbrev pub dispatch_status : Command → Execution → W → Result NodeError CommandResult × W
  dispatch_status c Execution.empty w = observed c (runner.get_contract_workload c.body.owner w)
  dispatch_status c _ w = (err (invalid_workload "status 命令的 execution 必须为空对象"), w)

  abbrev pub dispatch_by : AgentAction → Command → W → Result NodeError CommandResult × W
  dispatch_by start c w = after_start c (runner.start_workload c w)
  dispatch_by stop c w = dispatch_stop c c.body.execution w
  dispatch_by status c w = dispatch_status c c.body.execution w

  unfoldable pub dispatch : Command → W → Result NodeError CommandResult × W
  unfolding response_from_info
  dispatch c w = dispatch_by c.body.action c w
