-- ===== src/Imports/Coordinator.antt =====
-- The coordinator of imports: ModelImportCoordinator of
-- backend/app/services/model_import_coordinator.py.
use open_llmops.Prelude.{
  ℕ, zero, suc, String, string_eq, Bool, true, false, not, Option, none, some, List, [], ◌∷◌, ◌++◌,
  map, ◌==◌, nat_eq, ltb, ◌&&◌, ◌||◌, if◌then◌else◌, Result, any, select, length,
}
use open_llmops.Imports.Table.{ModelImportJob, is_canceling, is_active_import}
use open_llmops.Imports.Jobs.{claim_next_model_import, Meanwhile}
use open_llmops.Imports.Recovery.{recover_stale_model_imports}
use open_llmops.Imports.Publish.{Store, Outcome, execute}

-- An entry of `_tasks` with the event of the same key in `_cancel_events`.
pub record Task : Type 0 where
  pub job_id : ℕ
  pub cancel_event : Bool
  pub is_done : Bool

pub record Coordinator : Type 0 where
  pub worker_id : String
  pub shutting_down : Bool
  pub tasks : List Task
  pub store : Store

-- What the coordinator is built with, and the world outside it: how removing the directories of a job
-- ends, and whether the lock for the recovery is free, at each call.
pub record Config : Type 0 where
  pub concurrency : ℕ
  pub claim_timeout : ℕ
  pub directory : ℕ → String
  pub resolve : String → String
  pub remove : ℕ → ℕ → Result String (Unit {0})
  pub is_locked : ℕ → Bool

-- A change of the jobs.
abbrev pub with_jobs : List ModelImportJob → Coordinator → Coordinator
with_jobs jobs c = record c { store = record c.store { jobs = jobs } }

abbrev pub cancels : ℕ → List ModelImportJob → Bool
cancels i jobs = any (λ j. j.id == i && is_canceling j.status) jobs

abbrev pub signaled : List ModelImportJob → Task → Task
signaled jobs t = record t { cancel_event = t.cancel_event || cancels t.job_id jobs }

abbrev pub signal_canceling_jobs : Coordinator → Coordinator
signal_canceling_jobs c = record c { tasks = map (signaled c.store.jobs) c.tasks }

abbrev pub collect_finished : Coordinator → Coordinator
collect_finished c = record c { tasks = select (λ t. not t.is_done) c.tasks }

abbrev pub is_own : String → Option String → Bool
is_own worker none = false
is_own worker (some w) = w == worker

abbrev pub has_task : ℕ → List Task → Bool
has_task i tasks = any (λ t. t.job_id == i) tasks

abbrev pub beaten : ℕ → Coordinator → ModelImportJob → ModelImportJob
beaten now c j =
    if has_task j.id c.tasks && (is_own c.worker_id j.claimed_by && is_active_import j.status)
    then record j { claimed_at = some now; updated_at = now }
    else j

abbrev pub heartbeat_active_jobs : ℕ → Coordinator → Coordinator
heartbeat_active_jobs now c = with_jobs (map (beaten now c) c.store.jobs) c

-- `self._tasks[job.id] = task`, with a fresh event.
abbrev pub put_task : ℕ → List Task → List Task
put_task i tasks =
    select (λ t. not (t.job_id == i)) tasks
    ++ record { job_id = i; cancel_event = false; is_done = false } ∷ []

abbrev pub added : Option ModelImportJob → List Task → List Task
added none tasks = tasks
added (some j) tasks = put_task j.id tasks

-- One claim: the job that was claimed, if there was one, gets a task.
abbrev pub claim_one : ℕ → Coordinator → Option ModelImportJob × Coordinator
claim_one now c =
    let (o, jobs) = claim_next_model_import now c.worker_id c.store.jobs in
    (o, record (with_jobs jobs c) { tasks = added o c.tasks })

module _ (config : Config) (clock : ℕ → ℕ) where
  abbrev pub recover_stale_jobs : ℕ → Coordinator → Coordinator
  recover_stale_jobs tick c =
      with_jobs
        (recover_stale_model_imports config.directory (config.remove tick) (config.is_locked tick)
          (clock tick) config.claim_timeout c.worker_id c.store.assets c.store.jobs).1
        c

  -- `while len(self._tasks) < self.concurrency`
  abbrev pub claimed_or_not :
      (Coordinator → Coordinator) → Option ModelImportJob × Coordinator → Coordinator
  claimed_or_not again (none, c) = c
  claimed_or_not again (some j, c) = again c

  unfoldable pub claim_while : ℕ → ℕ → Coordinator → Coordinator
  claim_while zero tick c = c
  claim_while (suc fuel) tick c =
      if ltb (length c.tasks) config.concurrency
      then claimed_or_not (claim_while fuel (suc tick)) (claim_one (clock tick) c)
      else c

  -- The loop goes on at most as often as there are free places.
  unfoldable pub run_once : ℕ → Coordinator → Coordinator
  run_once tick c = claim_while config.concurrency (suc (suc tick)) (
      recover_stale_jobs (suc tick)
        (heartbeat_active_jobs (clock tick) (collect_finished (signal_canceling_jobs c))))

-- An execution that ends.
abbrev pub mark_done : ℕ → Task → Task
mark_done i t = if t.job_id == i then record t { is_done = true } else t

abbrev pub finish_task : Config → ℕ → ℕ → ℕ → Outcome → Meanwhile → Coordinator → Coordinator
finish_task config now asset_id i outcome requests c = record c {
  store =
      execute config.directory config.resolve now asset_id i c.shutting_down outcome requests
        c.store;
  tasks = map (mark_done i) c.tasks;
}

-- `run_forever` is told to stop: the events of all tasks are set.
abbrev pub told : Task → Task
told t = record t { cancel_event = true }

abbrev pub shut_down : Coordinator → Coordinator
shut_down c = record c { shutting_down = true; tasks = map told c.tasks }
