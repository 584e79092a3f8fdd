-- ===== src/Safety/Tests.antt =====
-- The theorems on safety at concrete inputs: one deployment is created, claims the cards 1 and 0, and
-- is observed.
use open_llmops.Prelude.{
  arith, ap, sym, ◌∙◌, ◌≡◌, refl, ◌↔◌, true, none, some, [], ◌∷◌, map, pos, ok, err, Memᴰ, subst,
  Option,
}
use open_llmops.Workloads.{
  Deployment, Row, deployment, of_deployment, DeploymentState, DesiredServiceState,
  DeploymentTaskType, null,
}
use open_llmops.Leases.{
  lease_invariant, Leases, new_lease, try_acquire_locked, normalize_gpu_ids, insert_all,
}
use open_llmops.Agent.{AgentCommandResponse, AgentWorkloadState, Execution, vllm}
use open_llmops.Cleanup.{Gateway, confirm_absent_and_release_leases}
use open_llmops.Reconciler.Database.{
  Desired, Actual, Database, is_active, get_row, put_row, snapshot,
}
use open_llmops.Reconciler.Observe.{Validators}
use open_llmops.Reconciler.ObserveJob.{apply_observation}
use open_llmops.Reconciler.Claim.{
  lease, Catalog, claimed, claimant, set_starting, set_generation, claim_fifo_head, build_execution,
  candidates, is_queued, earliest_from, queued_before,
}
use open_llmops.Reconciler.Reap.{reap_terminal_expired_leases}
use open_llmops.Reconciler.Fifo.{FifoClaim, claim_fifo_head-FifoClaim}
use open_llmops.Routes.Common.{StateActionResponse}
use open_llmops.Routes.Deployments.{
  start_deployment, stop_deployment, find_deployment, committed, stored,
}
use open_llmops.Safety.Race.{overwritten, stop_deployment-race}
use open_llmops.Routes.Common.{any_owner}
use open_llmops.Safety.Requests.{IsStill}
use open_llmops.Safety.Restart.{restarted, restart-stale}
use open_llmops.Safety.Backing.{IsSafe}
use open_llmops.Safety.Observation.{IsAwaited, apply_observation-IsSafe}
use open_llmops.Safety.Claiming.{claim_fifo_head-IsSafe}
use open_llmops.Safety.Reaping.{reap-IsSafe}
use open_llmops.Safety.Deletion.{IsConfirmed, confirm_absent-IsConfirmed}
use open_llmops.Safety.Exclusion.{
  Reach, Step, no_rows, Reach-IsSafe, Reach-exclusive, no_rows-IsSafe,
}

abbrev chat_service : Deployment
chat_service = record {
  runtime = record {
    id = 1;
    name = "chat";
    gpu_ids = pos 1 ∷ pos 0 ∷ [];
    error_message = none;
    queued_at = some 3;
    created_at = 3;
    started_at = none;
    state_version = 1;
    runtime_generation = 0;
  };
  served_model_name = "chat";
  model_asset_id = 4;
  task_type = DeploymentTaskType.generate;
  desired_state = DesiredServiceState.running;
  actual_state = DeploymentState.queued;
  tensor_parallel_size = 2;
  port = none;
  internal_url = none;
  simplified_config = null;
  vllm_args = null;
  health_status = none;
}

abbrev chat : Row
chat = deployment chat_service

abbrev catalog : Catalog
catalog = record {
  model_asset = λ i. some (record { id = i; local_path = "/models/chat" });
  dataset = λ i. none;
  build_training_execution = λ j asset dataset. err "no training";
  build_evaluation_execution = λ r base candidate dataset. err "no evaluation";
}

abbrev checks : Validators
checks = record {
  validate_training_observation_metadata = λ j m b. err "no metadata";
  validate_successful_training_artifacts = λ j. ok tt;
  validate_evaluation_success_metadata = λ r m. err "no metadata";
}

abbrev created : Database
created = record { rows = chat ∷ []; leases = [] }

abbrev chat_running : Row
chat_running = set_starting (set_generation 1 chat)

abbrev chat_leases : Leases
chat_leases = map (new_lease 60 10 7 (claimant chat)) (pos 0 ∷ pos 1 ∷ [])

abbrev started : Database
started = record { rows = chat_running ∷ []; leases = chat_leases }

abbrev execution : Execution
execution = vllm DeploymentTaskType.generate "/models/chat" "chat" none 2 null null

chat_claimed :
    claim_fifo_head catalog 60 10 7 created
    ≡ ok (claimed (snapshot execution chat_running), started)
unfolding claim_fifo_head build_execution try_acquire_locked normalize_gpu_ids insert_all candidates
    is_queued earliest_from queued_before put_row snapshot
chat_claimed = refl

created_reached : Reach no_rows created
unfolding is_active
created_reached = Reach.next Reach.here (Step.create chat refl refl refl)

started_reached : Reach no_rows started
started_reached = Reach.next created_reached (Step.claim catalog 60 10 7 _ chat_claimed)

Reach-exclusive_example : chat_running ≡ chat_running
unfolding is_active
Reach-exclusive_example =
    Reach-exclusive started chat_running chat_running (pos 0) started_reached (Memᴰ.head refl)
      (Memᴰ.head refl) refl refl refl refl

created-IsSafe : IsSafe created
created-IsSafe = Reach-IsSafe no_rows created created_reached no_rows-IsSafe

started-IsSafe : IsSafe started
started-IsSafe = Reach-IsSafe no_rows started started_reached no_rows-IsSafe

claim_fifo_head-IsSafe_example : IsSafe started
claim_fifo_head-IsSafe_example =
    claim_fifo_head-IsSafe catalog 60 10 7 created (claimed (snapshot execution chat_running))
      started created-IsSafe chat_claimed

claim_fifo_head-FifoClaim_example :
    FifoClaim created (claimed (snapshot execution chat_running)) started
claim_fifo_head-FifoClaim_example =
    claim_fifo_head-FifoClaim catalog 60 10 7 created (claimed (snapshot execution chat_running))
      started chat_claimed

-- The agent finds no container.
abbrev gone : AgentCommandResponse
gone = record {
  accepted = true;
  observed_state = AgentWorkloadState.absent;
  message = none;
  error_code = none;
  metadata = [];
}

awaited : IsAwaited (claimant chat) started
unfolding get_row is_active
awaited r e = subst (λ k. is_active k ≡ true) (some_eq e) refl
  where
    some_eq : ◌≡◌ {A = Option Row} (some chat_running) (some r) → chat_running ≡ r
    some_eq h = cc

apply_observation-IsSafe_example :
    IsSafe (apply_observation checks 20 (claimant chat) gone 60 started)
apply_observation-IsSafe_example =
    apply_observation-IsSafe checks 20 (claimant chat) gone 60 started awaited started-IsSafe

reap-IsSafe_example : IsSafe (reap_terminal_expired_leases 70 started).1
reap-IsSafe_example = reap-IsSafe 70 started started-IsSafe

abbrev node : Gateway
node command = ok gone

confirm_absent-IsConfirmed_example :
    (confirm_absent_and_release_leases node (claimant chat) (pos 0 ∷ pos 1 ∷ []) chat_leases
      ≡ ok [])
    ↔ IsConfirmed node (claimant chat) (pos 0 ∷ pos 1 ∷ []) chat_leases []
confirm_absent-IsConfirmed_example =
    confirm_absent-IsConfirmed node (claimant chat) (pos 0 ∷ pos 1 ∷ []) chat_leases []

-- The deployment is stopped, and started again before the agent has answered.
abbrev stopping_service : Deployment
stopping_service = record chat_service {
  runtime = record chat_service.runtime {
    queued_at = none;
    state_version = 2;
    runtime_generation = 1;
  };
  desired_state = DesiredServiceState.stopped;
  actual_state = DeploymentState.stopping;
}

abbrev stopping : Database
stopping = record { rows = deployment stopping_service ∷ []; leases = chat_leases }

abbrev requeued : Database
requeued = record { rows = restarted 50 stopping_service ∷ []; leases = chat_leases }

abbrev stop_answer : StateActionResponse
stop_answer = record {
  id = 1;
  desired_state = Desired.service DesiredServiceState.stopped;
  actual_state = Actual.service DeploymentState.stopping;
  message = "部署停止指令已记录";
}

abbrev start_answer : StateActionResponse
start_answer = record {
  id = 1;
  desired_state = Desired.service DesiredServiceState.running;
  actual_state = Actual.service DeploymentState.queued;
  message = "部署已进入启动队列";
}

stop_now : stop_deployment 1 started started ≡ ok (stop_answer, stopping)
unfolding stop_deployment find_deployment committed get_row put_row
stop_now = refl

start_now : start_deployment 50 1 stopping stopping ≡ ok (start_answer, requeued)
unfolding start_deployment find_deployment committed get_row put_row
start_now = refl

-- Nothing is committed between the reading and the commit.
unchanged : IsStill (any_owner of_deployment 1) started started
unchanged r s h k = ap is_active (some_eq (sym h ∙ k))
  where
    some_eq : {r s : Row} → ◌≡◌ {A = Option Row} (some r) (some s) → r ≡ s
    some_eq h = cc

stopping-IsSafe : IsSafe stopping
stopping-IsSafe =
    Reach-IsSafe no_rows stopping
      (Reach.next started_reached (Step.stop 1 started stop_answer unchanged stop_now))
      no_rows-IsSafe

restart-stale_example : claim_fifo_head catalog 60 70 8 requeued ≡ err (lease lease_invariant)
unfolding get_row candidates is_queued earliest_from queued_before build_execution
restart-stale_example =
    restart-stale catalog 60 70 8 50 1 stopping_service execution stopping stopping requeued
      start_answer stopping-IsSafe refl refl
      (record { some_gpu = cc; non_negative = refl; no_repeat = (refl, (refl, tt)) }) (omega arith)
      start_now refl refl

abbrev seen_running : Deployment
seen_running = record chat_service { actual_state = DeploymentState.running }

abbrev since_failed : Deployment
since_failed = record chat_service { actual_state = DeploymentState.failed }

abbrev before_failure : Database
before_failure = record { rows = deployment seen_running ∷ []; leases = chat_leases }

-- The reconciler has ended the deployment and released its leases.
abbrev after_failure : Database
after_failure = record { rows = deployment since_failed ∷ []; leases = [] }

stopped_late :
    stop_deployment 1 before_failure after_failure
    ≡ ok (stop_answer, stored (overwritten seen_running since_failed) after_failure)
unfolding stop_deployment find_deployment committed get_row
stopped_late = refl

read_running : find_deployment 1 before_failure.rows ≡ ok seen_running
unfolding find_deployment get_row
read_running = refl

found_failed : committed 1 after_failure.rows ≡ ok since_failed
unfolding committed get_row
found_failed = refl

stop_deployment-race_example :
    ¬ IsSafe (stored (overwritten seen_running since_failed) after_failure)
stop_deployment-race_example =
    stop_deployment-race 1 before_failure after_failure
      (stored (overwritten seen_running since_failed) after_failure) stop_answer seen_running
      since_failed (pos 1) read_running refl found_failed refl refl stopped_late
