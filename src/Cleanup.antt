-- ===== src/Cleanup.antt =====
-- Before a row is deleted, the node must confirm that its container is absent:
-- backend/app/services/workload_cleanup.py.
use Prim.Native.String.{◌++◌ as str_append}
use open_llmops.Prelude.{
  String, Bool, true, false, not, ◌||◌, Option, some, none, List, ◌==◌, nat_eq, string_eq, ltb,
  if◌then◌else◌, Result, ok, err, select, ℤ,
}
use open_llmops.Leases.{Leases, LeaseOwner, is_owned_by}
use open_llmops.Agent.{
  AgentCommand, AgentCommandResponse, AgentWorkloadState, absent, starting, running, stopping,
  succeeded, failed, stop, cleanup_terminal,
}

pub data CleanupError : Type 0 where
  unavailable blocked : String → CleanupError

-- The answer to a command, or the text of a `NodeAgentError`.
abbrev pub Gateway : Type 0
Gateway = AgentCommand → Result String AgentCommandResponse

abbrev pub state_value : AgentWorkloadState → String
state_value absent = "absent"
state_value starting = "starting"
state_value running = "running"
state_value stopping = "stopping"
state_value succeeded = "succeeded"
state_value failed = "failed"

abbrev pub is_absent : AgentWorkloadState → Bool
is_absent absent = true
is_absent _ = false

-- `first or rest`, for a text that may be missing.
abbrev or_next : Option String → String → String
or_next none rest = rest
or_next (some s) rest = if s == "" then rest else s

abbrev pub detail : AgentCommandResponse → String
detail response =
    or_next response.message (or_next response.error_code (state_value response.observed_state))

abbrev pub cleanup_command : LeaseOwner → List ℤ → AgentCommand
cleanup_command owner gpu_ids = record {
  action = stop;
  owner = owner;
  gpu_ids = gpu_ids;
  execution = cleanup_terminal;
}

-- The leases that remain: those of every generation of the owner are deleted.
abbrev pub answered :
    LeaseOwner → Leases → Result String AgentCommandResponse → Result CleanupError Leases
answered owner t (err e) = err (unavailable "node-agent 响应不确定，已保留记录与 GPU 租约")
answered owner t (ok response) =
    if not response.accepted || not (is_absent response.observed_state)
    then err (blocked (str_append "node-agent 尚未确认容器 absent：" (detail response)))
    else ok (select (λ l. not (is_owned_by owner l)) t)

unfoldable pub confirm_absent_and_release_leases :
    Gateway → LeaseOwner → List ℤ → Leases → Result CleanupError Leases
confirm_absent_and_release_leases agent owner gpu_ids t =
    if ltb owner.generation 1
    then err (blocked "运行代次无效，拒绝清理")
    else answered owner t (agent (cleanup_command owner gpu_ids))
