-- ===== src/Node/Inspect.antt =====
-- What the node agent reads from a container: `_state_from_info`, `_inference_failure_reason` and
-- `_startup_timeout_reason` of agent/openllmops_agent/command_service.py, with `WorkloadInfo` of
-- agent/openllmops_agent/schemas.py. Times are in microseconds; both timestamps are read in UTC.
use open_llmops.Prelude.{
  ℕ, ◌*◌, ◌-◌, String, Bool, false, ◌&&◌, ◌||◌, Option, some, none, List, ◌==◌, nat_eq, string_eq,
  int_eq, leb, if◌then◌else◌, ℤ, pos,
}
use open_llmops.Agent.{AgentWorkloadState, starting, running, stopping, succeeded, failed}

pub data WorkloadKind : Type 0 where
  inference training evaluation : WorkloadKind

-- The fields that are read.
pub record WorkloadInfo : Type 0 where
  pub name : String
  pub workload_id : ℕ
  pub kind : WorkloadKind
  pub status : String
  pub gpu_ids : List ℤ
  pub service_type : Option String
  pub endpoint : Option String
  pub port : Option ℤ
  pub generation : ℕ
  pub exit_code : Option ℤ
  pub health_status : Option String
  pub health_failing_streak : ℕ
  pub restart_count : ℕ
  pub started_at : Option ℕ
  pub finished_at : Option ℕ
  pub created_at : Option ℕ

abbrev pub is_text : String → Option String → Bool
is_text s none = false
is_text s (some t) = t == s

abbrev pub is_zero : Option ℤ → Bool
is_zero none = false
is_zero (some n) = n == pos 0

abbrev pub inference_state : String → Option String → AgentWorkloadState
inference_state status health =
    if status == "created" || (status == "restarting" || status == "paused")
    then starting
    else if status == "running"
    then (if is_text "healthy" health then running else starting)
    else if status == "removing"
    then stopping
    else failed

abbrev pub job_state : String → Option ℤ → AgentWorkloadState
job_state status exit_code =
    if status == "created" || status == "restarting"
    then starting
    else if status == "running" || status == "paused"
    then running
    else if status == "removing"
    then stopping
    else if status == "exited" && is_zero exit_code
    then succeeded
    else failed

abbrev pub state_of_kind : WorkloadKind → WorkloadInfo → AgentWorkloadState
state_of_kind WorkloadKind.inference info = inference_state info.status info.health_status
state_of_kind WorkloadKind.training info = job_state info.status info.exit_code
state_of_kind WorkloadKind.evaluation info = job_state info.status info.exit_code

unfoldable pub state_from_info : WorkloadInfo → AgentWorkloadState
state_from_info info = state_of_kind info.kind info

-- The text of a failure, by what it says.
pub data FailureReason : Type 0 where
  too_many_restarts no_failing_streak unhealthy_too_long no_start_time startup_timeout :
      FailureReason

pub record Timeouts : Type 0 where
  pub inference_startup_timeout_seconds : ℕ
  pub inference_unhealthy_timeout_seconds : ℕ

abbrev pub inference_max_restarts : ℕ
inference_max_restarts = 3

abbrev pub inference_health_interval_seconds : ℕ
inference_health_interval_seconds = 5

abbrev pub microseconds : ℕ
microseconds = 1000000

-- `first or rest`, for a time that may be missing.
abbrev pub or_time : Option ℕ → Option ℕ → Option ℕ
or_time none rest = rest
or_time (some t) rest = some t

module _ (settings : Timeouts) (now : ℕ) where
  -- The elapsed time is not negative: the subtraction stops at 0.
  abbrev pub startup_timeout_reason : Option ℕ → Option FailureReason
  startup_timeout_reason none = some no_start_time
  startup_timeout_reason (some t) =
      if leb (settings.inference_startup_timeout_seconds * microseconds) (now - t)
      then some startup_timeout
      else none

  abbrev pub unhealthy_reason : ℕ → Option FailureReason
  unhealthy_reason streak =
      if streak == 0
      then some no_failing_streak
      else if leb settings.inference_unhealthy_timeout_seconds
          (streak * inference_health_interval_seconds)
      then some unhealthy_too_long
      else none

  unfoldable pub inference_failure_reason : WorkloadInfo → Option FailureReason
  inference_failure_reason info =
      if is_text "healthy" info.health_status && info.status == "running"
      then none
      else if leb inference_max_restarts info.restart_count
      then some too_many_restarts
      else if info.status == "restarting"
      then startup_timeout_reason (or_time info.finished_at info.created_at)
      else if is_text "unhealthy" info.health_status
      then unhealthy_reason info.health_failing_streak
      else startup_timeout_reason (or_time info.started_at info.created_at)
