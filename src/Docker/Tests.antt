-- ===== src/Docker/Tests.antt =====
-- The theorems on the runner at concrete inputs: an inference service is started on two cards, and ended.
use open_llmops.Prelude.{
  ◌≡◌, refl, subst, String, true, ◌&&◌, some, none, [], ◌∷◌, ok, pos, arith, split_commas,
  join_commas, elem, int_eq,
}
use open_llmops.Workloads.{of_deployment}
use open_llmops.Leases.{LeaseOwner}
use open_llmops.Agent.{AgentAction, Execution}
use open_llmops.Node.Commands.{Command}
use open_llmops.Node.Inspect.{WorkloadKind, Timeouts}
use open_llmops.Node.Report.{accepted_absent, dispatch}
use open_llmops.Docker.Labels.{
  gpu_ids_from_labels, is_managed, is_active_status, generation_from_labels,
}
use open_llmops.Docker.Info.{Container, info_of}
use open_llmops.Docker.Allocate.{
  Settings, Launch, labels_of, launch, managed_container, to_info, allocate, gpu_allocations,
  assert_gpus_available, run_container,
}
use open_llmops.Docker.Operate.{
  prepare_contract_start, stop_contract_workload, cleanup_contract_workload,
  quiesce_failed_inference,
}
use open_llmops.Docker.Moves.{IsExclusive}
use open_llmops.Docker.Readable.{gpu_ids_from_labels-labels_of}
use open_llmops.Docker.Exclusion.{Reach, Step, Reach-one_user}
use open_llmops.Docker.Halting.{IsUnused, IsEnded, stop_contract_workload-IsEnded}
use open_llmops.Docker.Quiesced.{quiesce_failed_inference-IsUnused}
use open_llmops.Docker.Preparing.{IsPrepared, prepare_contract_start-IsPrepared}
use open_llmops.Docker.Removal.{Cleanup, cleanup_contract_workload-Cleanup}
use open_llmops.Docker.Serve.{Files, docker_runner}
use open_llmops.Docker.Absent.{dispatch-IsUnused}
use open_llmops.Docker.Sample.{texts, texts-IsTexts, Slot, slot_name, slot_view, slot_engine, whole}
use open_llmops.Docker.SampleLaws.{slot_engine-IsDocker}

abbrev job : Launch
job = record {
  kind = WorkloadKind.inference;
  workload_id = 3;
  image = "sha256:1";
  command = "--host" ∷ "0.0.0.0" ∷ [];
  gpu_ids = pos 0 ∷ pos 1 ∷ [];
  generation = 2;
  owner_type = of_deployment;
  endpoint = some "http://openllmops-inference-III:8000";
  service_type = some "generate";
  output_path = none;
  dataset_manifest_path = none;
  base_template = none;
  candidate_template = none;
  training_algorithm = none;
  port = some (pos 8000);
}

abbrev settings : Settings
settings = record { gpu_count = 4; enforce_nvml_process_check = true }

abbrev running : Slot
running = some ("running", labels_of texts job)

abbrev owner : LeaseOwner
owner = record { type = of_deployment; id = 3; name = "chat"; generation = 2 }

launched : (launch texts slot_engine settings job none).1 ≡ running
unfolding launch assert_gpus_available gpu_allocations allocate run_container to_info info_of
    labels_of split_commas join_commas
launched = refl

nothing_there : IsExclusive slot_view texts none
nothing_there n m g (c, v, u) w = absurd (nowhere n c v)
  where
    nowhere : (n : String) (c : Container) → slot_view none n ≡ some c → ⊥
    nowhere n c v = ground arith

abbrev service : Container
service = whole ("running", labels_of texts job)

there : slot_view running slot_name ≡ some service
there = refl

reached : Reach texts slot_engine slot_view settings none running
reached =
    subst (Reach texts slot_engine slot_view settings none) launched
      (Reach.next Reach.here (Step.launches job (omega arith)))

uses_card : elem (pos 0) (gpu_ids_from_labels texts service.labels) ≡ true
unfolding labels_of split_commas join_commas
uses_card = refl

in_use : (is_active_status service.status && is_managed service.labels) ≡ true
unfolding labels_of
in_use = refl

Reach-one_user_example : slot_name ≡ slot_name
Reach-one_user_example =
    Reach-one_user texts slot_engine slot_view settings texts-IsTexts slot_engine-IsDocker none
      running slot_name slot_name service service (pos 0) nothing_there reached there there in_use
      in_use uses_card uses_card

gpu_ids_from_labels-labels_of_example :
    (gpu_ids_from_labels texts (labels_of texts job) ≡ job.gpu_ids)
    × (is_managed (labels_of texts job) ≡ true)
    × (generation_from_labels texts (labels_of texts job) ≡ 2)
gpu_ids_from_labels-labels_of_example =
    gpu_ids_from_labels-labels_of texts job texts-IsTexts (omega arith)

stopped_now : stop_contract_workload texts slot_engine owner 30 running ≡ (ok none, none)
unfolding stop_contract_workload managed_container to_info info_of labels_of split_commas
    join_commas
stopped_now = refl

stop_contract_workload-IsEnded_example :
    IsEnded texts slot_engine slot_view slot_engine-IsDocker slot_name of_deployment none none
stop_contract_workload-IsEnded_example =
    stop_contract_workload-IsEnded texts slot_engine slot_view slot_engine-IsDocker owner 30 running
      none none stopped_now

abbrev next_owner : LeaseOwner
next_owner = record owner { generation = 3 }

abbrev ended : Slot
ended = some ("exited", labels_of texts job)

prepared_now : prepare_contract_start texts slot_engine next_owner ended ≡ (ok none, none)
unfolding prepare_contract_start managed_container to_info info_of labels_of
prepared_now = refl

prepare_contract_start-IsPrepared_example :
    IsPrepared texts slot_engine slot_view slot_engine-IsDocker next_owner none none
prepare_contract_start-IsPrepared_example =
    prepare_contract_start-IsPrepared texts slot_engine slot_view slot_engine-IsDocker next_owner
      ended none none refl prepared_now

cleanup_contract_workload-Cleanup_example :
    Cleanup texts slot_engine slot_view slot_engine-IsDocker owner ended
      (cleanup_contract_workload texts slot_engine owner ended)
cleanup_contract_workload-Cleanup_example =
    cleanup_contract_workload-Cleanup texts slot_engine slot_view slot_engine-IsDocker owner ended

quiesced_now : quiesce_failed_inference texts slot_engine 3 2 30 running ≡ (ok true, ended)
unfolding quiesce_failed_inference managed_container labels_of
quiesced_now = refl

quiesce_failed_inference-IsUnused_example :
    IsUnused texts slot_engine slot_view slot_engine-IsDocker ended slot_name
quiesce_failed_inference-IsUnused_example =
    quiesce_failed_inference-IsUnused texts slot_engine slot_view slot_engine-IsDocker 3 2 30
      running ended refl quiesced_now

abbrev files : Files Slot
files = record {
  names_runner = λ c. true;
  plan = λ c s. (ok job, s);
  training_metadata = λ id completed s. (ok [], s);
  evaluation_metadata = λ id s. (ok [], s);
}

abbrev timeouts : Timeouts
timeouts = record {
  inference_startup_timeout_seconds = 60;
  inference_unhealthy_timeout_seconds = 60;
}

abbrev stop_command : Command
stop_command = record {
  request_id = 7;
  body = record {
    action = AgentAction.stop;
    owner = owner;
    gpu_ids = [];
    execution = Execution.empty;
  };
}

dispatched_now :
    dispatch timeouts
      (λ s. 0)
      (docker_runner texts slot_engine settings 30 30 files)
      stop_command
      running
    ≡ (ok accepted_absent, none)
unfolding dispatch stop_contract_workload managed_container to_info info_of labels_of split_commas
    join_commas
dispatched_now = refl

dispatch-IsUnused_example : IsUnused texts slot_engine slot_view slot_engine-IsDocker none slot_name
dispatch-IsUnused_example =
    dispatch-IsUnused texts slot_engine settings 30 30 files slot_view slot_engine-IsDocker timeouts
      (λ s. 0) stop_command running none accepted_absent refl dispatched_now refl
