-- ===== src/Docker/Serve.antt =====
-- The runner as the node agent calls it: `CommandService` of
-- agent/openllmops_agent/command_service.py over the operations of
-- agent/openllmops_agent/docker_runner.py.
use open_llmops.Prelude.{ℕ, Bool, false, Option, some, none, if◌then◌else◌, Result, ok, err}
use open_llmops.Agent.{Metadata}
use open_llmops.Node.Commands.{Command, NodeError, other}
use open_llmops.Node.Inspect.{WorkloadInfo}
use open_llmops.Node.Report.{Runner, RunnerError, not_found, raised}
use open_llmops.Docker.Labels.{Texts}
use open_llmops.Docker.Engine.{
  Failure, workload_not_found, workload_conflict, invalid_workload, runner_error, unexpected,
  docker, Engine,
}
use open_llmops.Docker.Allocate.{Settings, Launch, launch}
use open_llmops.Docker.Operate.{
  get_contract_workload, prepare_contract_start, stop_contract_workload, cleanup_contract_workload,
  quiesce_failed_inference,
}

-- The handlers of the node agent tell these apart.
abbrev pub node_error : Failure → NodeError
node_error workload_not_found = other "WorkloadNotFound"
node_error workload_conflict = NodeError.workload_conflict "WorkloadConflict"
node_error invalid_workload = NodeError.invalid_workload "InvalidWorkload"
node_error runner_error = other "RunnerError"
node_error unexpected = other "Exception"
node_error (docker _) = other "DockerException"

module _ {S : Type 0} where
  abbrev pub as_node : {A : Type 0} → Result Failure A × S → Result NodeError A × S
  as_node (ok a, s) = (ok a, s)
  as_node (err f, s) = (err (node_error f), s)

  abbrev pub as_runner : {A : Type 0} → Result Failure A × S → Result RunnerError A × S
  as_runner (ok a, s) = (ok a, s)
  as_runner (err workload_not_found, s) = (err not_found, s)
  as_runner (err workload_conflict, s) = (err (raised (node_error workload_conflict)), s)
  as_runner (err invalid_workload, s) = (err (raised (node_error invalid_workload)), s)
  as_runner (err runner_error, s) = (err (raised (node_error runner_error)), s)
  as_runner (err unexpected, s) = (err (raised (node_error unexpected)), s)
  as_runner (err (docker x), s) = (err (raised (node_error (docker x))), s)

  -- An exception of `quiesce_failed_inference` that it does not catch is none of the engine's.
  abbrev pub as_answer : Result Failure Bool × S → Bool × S
  as_answer (ok b, s) = (b, s)
  as_answer (err f, s) = (false, s)

-- What is not modelled of the runner: what `_start` makes of a command before it launches (the
-- execution is validated, files are written), and the reading of results.
pub record Files (S : Type 0) : Type 0 where
  -- `execution.runner` is the one of the owner's type.
  pub names_runner : Command → Bool
  pub plan : Command → S → Result NodeError Launch × S
  pub training_metadata : (id : ℕ) (completed : Bool) → S → Result NodeError Metadata × S
  pub evaluation_metadata : (id : ℕ) → S → Result NodeError Metadata × S

module _ {S : Type 0} (t : Texts) (e : Engine S) (settings : Settings)
    (stop_timeout failure_stop_timeout : ℕ) (files : Files S) where
  abbrev pub launched : Result NodeError Launch × S → Result NodeError WorkloadInfo × S
  launched (err x, s) = (err x, s)
  launched (ok l, s) = as_node (launch t e settings l s)

  abbrev pub started :
      Command → Result NodeError (Option WorkloadInfo) × S → Result NodeError WorkloadInfo × S
  started c (err x, s) = (err x, s)
  started c (ok (some info), s) = (ok info, s)
  started c (ok none, s) = launched (files.plan c s)

  abbrev pub docker_runner : Runner S
  docker_runner = record {
    start_workload = λ c s.
        if files.names_runner c
        then started c (as_node (prepare_contract_start t e c.body.owner s))
        else (err (NodeError.invalid_workload "execution.runner"), s);
    stop_contract_workload = λ owner s. as_runner (stop_contract_workload t e owner stop_timeout s);
    cleanup_contract_workload = λ owner s. as_node (cleanup_contract_workload t e owner s);
    get_contract_workload = λ owner s. as_runner (get_contract_workload t e owner s);
    quiesce_failed_inference =
        λ id g s. as_answer (quiesce_failed_inference t e id g failure_stop_timeout s);
    training_metadata = files.training_metadata;
    evaluation_metadata = files.evaluation_metadata;
  }
