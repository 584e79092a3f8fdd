-- ===== src/Node/Tests.antt =====
-- The theorems on the node agent at concrete inputs: a deployment is started in generation 3, asked
-- for its state, and stopped by a late command of generation 2.
use Prim.Native.String.{◌++◌ as str_append, count}
use open_llmops.Prelude.{
  String, zero, ◌≢◌, ap, err, ◌≡◌, ◌↔◌, ◌&&◌, ◌==◌, string_eq, refl, ℕ, suc, ◌≤◌, true, none, some,
  [], ◌∷◌, pos, ok, arith,
}
use open_llmops.Workloads.{of_deployment}
use open_llmops.Agent.{AgentAction, AgentWorkloadState, empty}
use open_llmops.Node.Commands.{
  Command, CommandResult, Store, persist, Processor, admit, execute, stale, bind_start, owner_key,
  generation,
}
use open_llmops.Node.Inspect.{
  WorkloadKind, WorkloadInfo, Timeouts, is_text, inference_failure_reason,
}
use open_llmops.Node.Report.{Runner, not_found, accepted_absent, dispatch, response_from_info}
use open_llmops.Node.Failure.{IsReport, response_from_info-IsReport}
use open_llmops.Node.Absence.{IsGone, dispatch-IsGone}
use open_llmops.Node.Bounded.{inference_failure_reason-ready}
use open_llmops.Node.Fencing.{run, execute-fences}
use open_llmops.Node.Signing.{Primitives, signature_of, sign, verify_signature, verify}
use open_llmops.Node.Replays.{Request, verify_request, run_requests}
use open_llmops.Node.Once.{verify-once, verify-sign}
use open_llmops.Node.Durable.{IsSaved, admit-IsSaved_first}

abbrev running : CommandResult
running = record {
  status_code = 200;
  response = record {
    accepted = true;
    observed_state = AgentWorkloadState.running;
    message = none;
    error_code = none;
    metadata = [];
  };
}

-- The containers are the number of commands that were dispatched.
abbrev counting : Processor ℕ
counting = record {
  fingerprint = λ c. c.request_id;
  start_fingerprint = λ c. 11;
  dispatch = λ c n. (ok running, suc n);
}

abbrev ask : (request_id : ℕ) (action : AgentAction) (generation : ℕ) → Command
ask r a g = record {
  request_id = r;
  body = record {
    action = a;
    owner = record { type = of_deployment; id = 1; name = "chat"; generation = g };
    gpu_ids = pos 0 ∷ [];
    execution = empty;
  };
}

abbrev first_start : Command
first_start = ask 100 AgentAction.start 3

abbrev later_status : Command
later_status = ask 101 AgentAction.status 3

abbrev late_stop : Command
late_stop = ask 99 AgentAction.stop 2

abbrev new_store : Store
new_store = persist (record { generations = []; starts = []; requests = [] })

abbrev bound : Store
bound = persist (record {
  generations = (record { type = of_deployment; id = 1 }, 3) ∷ [];
  starts =
      (record { type = of_deployment; id = 1 }, record { generation = 3; fingerprint = 11 }) ∷ [];
  requests = [];
})

bound_now : admit counting first_start new_store ≡ some bound
unfolding admit bind_start
bound_now = refl

abbrev after : Store
after =
    persist (record bound.memory {
      requests = (100, record { fingerprint = 100; result = running }) ∷ [];
    })

execute-fences_example :
    let (s, n) = run counting (first_start ∷ later_status ∷ []) new_store 0 in
    execute counting late_stop s n ≡ (ok stale, s, n)
execute-fences_example =
    execute-fences counting first_start (later_status ∷ []) late_stop new_store bound 0 refl
      bound_now refl (omega arith)

admit-IsSaved_first_example :
    IsSaved bound × (3 ≤ generation (owner_key first_start.body.owner) bound.disk)
admit-IsSaved_first_example =
    admit-IsSaved_first counting first_start new_store bound bound_now refl

-- A container that has answered no health check since it was created.
abbrev silent : WorkloadInfo
silent = record {
  name = "openllmops-inference-1";
  workload_id = 1;
  kind = WorkloadKind.inference;
  status = "running";
  gpu_ids = pos 0 ∷ [];
  service_type = none;
  endpoint = none;
  port = none;
  generation = 3;
  exit_code = none;
  health_status = some "unhealthy";
  health_failing_streak = 12;
  restart_count = 0;
  started_at = some 2;
  finished_at = none;
  created_at = some 1;
}

abbrev timeouts : Timeouts
timeouts = record {
  inference_startup_timeout_seconds = 60;
  inference_unhealthy_timeout_seconds = 60;
}

inference_failure_reason-ready_example :
    (inference_failure_reason timeouts 60000002 silent ≡ none)
    ↔ ((is_text "healthy" silent.health_status && silent.status == "running") ≡ true)
inference_failure_reason-ready_example =
    inference_failure_reason-ready timeouts 60000002 silent (omega arith) (omega arith) tt
      (omega arith)

-- The engine stops what it is asked to stop, and finds nothing.
abbrev engine : Runner ℕ
engine = record {
  start_workload = λ c n. (ok silent, n);
  stop_contract_workload = λ owner n. (ok none, suc n);
  cleanup_contract_workload = λ owner n. (ok tt, suc n);
  get_contract_workload = λ owner n. (err not_found, n);
  quiesce_failed_inference = λ id g n. (true, suc n);
  training_metadata = λ id completed n. (ok [], n);
  evaluation_metadata = λ id n. (ok [], n);
}

abbrev late : ℕ → ℕ
late n = 60000002

response_from_info-IsReport_example :
    IsReport timeouts late engine silent 0 later_status
      (response_from_info timeouts late engine later_status true silent 0).0
response_from_info-IsReport_example =
    response_from_info-IsReport timeouts late engine later_status true silent 0

dispatched_now : dispatch timeouts late engine late_stop 0 ≡ (ok accepted_absent, 1)
unfolding dispatch
dispatched_now = refl

dispatch-IsGone_example : IsGone timeouts late engine late_stop 0
dispatch-IsGone_example =
    dispatch-IsGone timeouts late engine late_stop 0 accepted_absent 1 dispatched_now refl

-- The digest is the number of characters; the time is written in strokes.
abbrev strokes : ℕ → String
strokes zero = ""
strokes (suc n) = str_append "I" (strokes n)

abbrev primitives : Primitives
primitives = record {
  hmac_sha256 = λ s. strokes (count s);
  int_of = λ s. some (pos (count s));
  str_of = strokes;
}

abbrev signed : Request
signed = record {
  body = "{}";
  headers = record {
    timestamp = some "IIIII";
    nonce = some "nonce-12";
    signature = some (signature_of primitives 30 "{}" "IIIII" "nonce-12");
  };
  now = 20;
}

abbrev replayed : Request
replayed = record signed { now = 34 }

abbrev other_request : Request
other_request = record signed {
  now = 25;
  headers = record signed.headers { nonce = some "nonce-13" };
}

accepted_now : (verify_request primitives 30 signed []).0 ≡ ok tt
unfolding verify verify_signature
accepted_now = refl

verify-once_example :
    (verify_request primitives 30 replayed (
      run_requests primitives 30 (other_request ∷ []) (verify_request primitives 30 signed []).1)).0
    ≢ ok tt
verify-once_example =
    verify-once primitives 30 signed replayed (other_request ∷ []) [] accepted_now (omega arith)
      refl refl

verify-sign_example :
    (verify primitives 30 "{}" (sign primitives 30 "{}" 5 "nonce-12") 20 (("nonce-13", 90) ∷ [])).0
    ≡ ok tt
verify-sign_example =
    verify-sign primitives 30 "{}" "nonce-12" 5 20 (("nonce-13", 90) ∷ []) refl
      (λ h. omega (arith, ap count h)) (omega arith) (omega arith) refl
