-- ===== src/Imports/Lifecycle.antt =====
-- The life of the import jobs under all transactions of requests and of one coordinator after another.
use open_llmops.Prelude.{
  ℕ, String, string_eq, ◌≡◌, refl, Bool, true, false, not, ◌&&◌, Option, List, [], ◌∷◌, ◌==◌,
  nat_eq, ltb, map, Memᴰ, Bool-cases, inl, inr, arith, ℤ, any, select, length, All-map,
}
use open_llmops.Imports.Table.{ModelImportJob}
use open_llmops.Imports.Jobs.{
  ModelImportCreate, new_job, request_model_import_cancel, Meanwhile, record_progress,
}
use open_llmops.Imports.Recovery.{recover_stale_model_imports, recovered}
use open_llmops.Imports.Publish.{Outcome}
use open_llmops.Imports.Coordinator.{
  Task, Coordinator, Config, with_jobs, signaled, signal_canceling_jobs, collect_finished, beaten,
  heartbeat_active_jobs, claim_one, recover_stale_jobs, finish_task, told, shut_down,
}
use open_llmops.Imports.Sound.{
  Jobs, is_running, IsSound, AreKept, AreKept_trans, IsSame-touched, changed-AreSound,
  changed-AreKept, fewer-AreSound,
}
use open_llmops.Imports.Recovering.{
  is_active-finished, recovered-id, recovered-live, recovered-IsGood, beaten-id, beaten-live,
  beaten-IsGood,
}
use open_llmops.Imports.Changes.{same_jobs, request-Follows, record_progress-Follows}
use open_llmops.Imports.Endings.{execute-Follows}
use open_llmops.Imports.Claiming.{claim-Follows}

-- A key that no job and no task has.
abbrev pub is_new : ℕ → Coordinator → Bool
is_new i c = not (any (λ j. j.id == i) c.store.jobs) && not (any (λ t. t.job_id == i) c.tasks)

-- One committed transaction, an end of the coordinator, or the start of another one.
pub data Step (config : Config) (c : Coordinator) : Coordinator → Type 0 where
  create :
      (id now : ℕ) (payload : ModelImportCreate)
      → is_new id c ≡ true
      → Step config c (with_jobs (new_job id now payload ∷ c.store.jobs) c)
  cancel :
      (now id : ℕ) → Step config c (with_jobs (request_model_import_cancel now id c.store.jobs).1 c)
  signal : Step config c (signal_canceling_jobs c)
  collect : Step config c (collect_finished c)
  heartbeat : (now : ℕ) → Step config c (heartbeat_active_jobs now c)
  recover : (clock : ℕ → ℕ) (tick : ℕ) → Step config c (recover_stale_jobs config clock tick c)
  claim :
      (now : ℕ)
      → c.shutting_down ≡ false
      → ltb (length c.tasks) config.concurrency ≡ true
      → Step config c (claim_one now c).1
  progress :
      (now id : ℕ) (stage : String) (completed : ℤ) (total : Option ℤ) (requests : Meanwhile)
      → is_running id c.tasks ≡ true
      → Step config c
          (with_jobs (record_progress now id stage completed total requests c.store.jobs) c)
  finish :
      (now asset_id id : ℕ) (outcome : Outcome) (requests : Meanwhile)
      → is_running id c.tasks ≡ true
      → Step config c (finish_task config now asset_id id outcome requests c)
  shut : Step config c (shut_down c)
  restart :
      (worker : String)
      → Step config c (record c { worker_id = worker; shutting_down = false; tasks = [] })

-- What steps lead to.
pub data Reach (config : Config) (c : Coordinator) : Coordinator → Type 0 where
  here : Reach config c c
  then : (d e : Coordinator) → Reach config c d → Step config d e → Reach config c e

signaled-running :
    (i : ℕ) (jobs : Jobs) (tasks : List Task)
    → is_running i (map (signaled jobs) tasks) ≡ true
    → is_running i tasks ≡ true
signaled-running i jobs [] h = h
signaled-running i jobs (t ∷ tasks) h = ground (arith, signaled-running i jobs tasks)

told-running :
    (i : ℕ) (tasks : List Task) → is_running i (map told tasks) ≡ true → is_running i tasks ≡ true
told-running i [] h = h
told-running i (t ∷ tasks) h = ground (arith, told-running i tasks)

collected-running :
    (i : ℕ) (tasks : List Task)
    → is_running i (select (λ t. not t.is_done) tasks) ≡ true
    → is_running i tasks ≡ true
collected-running i [] h = h
collected-running i (t ∷ tasks) h = ground (arith, collected-running i tasks)

running-known :
    (i : ℕ) (tasks : List Task) → is_running i tasks ≡ true → any (λ t. t.job_id == i) tasks ≡ true
running-known i [] h = h
running-known i (t ∷ tasks) h = ground (arith, running-known i tasks)

elem-ids :
    (i : ℕ) (jobs : Jobs)
    → any (λ j. j.id == i) jobs ≡ false
    → any (λ k. k == i) (map (λ j. j.id) jobs) ≡ false
elem-ids i [] h = h
elem-ids i (j ∷ jobs) h = ground (arith, elem-ids i jobs)

unknown_task :
    (i : ℕ) (c : Coordinator) → is_new i c ≡ true → any (λ t. t.job_id == i) c.tasks ≡ false
unknown_task i c h = ground arith

-- One recovery.
recovering-AreSound :
    (config : Config) (clock : ℕ → ℕ) (tick : ℕ) (c : Coordinator)
    → IsSound c
    → IsSound (recover_stale_jobs config clock tick c)
      × AreKept c.store.jobs (recover_stale_jobs config clock tick c).store.jobs
unfolding recover_stale_model_imports
recovering-AreSound config clock tick c sound = elim (Bool-cases (config.is_locked tick)) [
  | inl locked ↦ rw locked (
    changed-AreSound g c.worker_id c.worker_id c.tasks c.tasks c.store.jobs
        (recovered-id config.directory (config.remove tick) (clock tick) c.store.assets
          config.claim_timeout c.worker_id)
        (λ j m good.
          recovered-IsGood config.directory (config.remove tick) (clock tick) c.store.assets
            config.claim_timeout c.worker_id c.tasks j good)
        sound,
    changed-AreKept g c.worker_id c.tasks c.store.jobs
        (λ j m good h. IsSame-touched j.updated_at j (g j) (
          recovered-live config.directory (config.remove tick) (clock tick) c.store.assets
            config.claim_timeout c.worker_id j (is_active-finished j.status h)))
        sound,
  )
  | inr other ↦ rw other (sound, same_jobs c.store.jobs)
]
  where
    g : ModelImportJob → ModelImportJob
    g =
        recovered config.directory (config.remove tick) (clock tick) config.claim_timeout
          c.worker_id c.store.assets

pub Step-kept :
    (config : Config) (c d : Coordinator)
    → Step config c d
    → IsSound c
    → IsSound d × AreKept c.store.jobs d.store.jobs
Step-kept config c _ (Step.create id now payload fresh) sound = (
  (
    (elem-ids id c.store.jobs (ground (arith, fresh)), sound.0),
    (
      ((λ run. absurd (cc (running-known id c.tasks run, unknown_task id c fresh))), (λ q. refl)),
      sound.1,
    ),
  ),
  (λ j m h. (j, Memᴰ.tail m, refl)),
)
Step-kept config c _ (Step.cancel now id) sound =
    request-Follows c.worker_id c.tasks now id c.store.jobs sound
Step-kept config c _ Step.signal sound = (
  fewer-AreSound c.worker_id c.tasks _ c.store.jobs
      (λ i run. signaled-running i c.store.jobs c.tasks run) sound,
  same_jobs c.store.jobs,
)
Step-kept config c _ Step.collect sound = (
  fewer-AreSound c.worker_id c.tasks _ c.store.jobs (λ i run. collected-running i c.tasks run)
      sound,
  same_jobs c.store.jobs,
)
Step-kept config c _ (Step.heartbeat now) sound = (
  changed-AreSound (beaten now c) c.worker_id c.worker_id c.tasks c.tasks c.store.jobs
      (beaten-id now c) (λ j m good. beaten-IsGood now c c.worker_id c.tasks j good) sound,
  changed-AreKept (beaten now c) c.worker_id c.tasks c.store.jobs
      (λ j m good h.
        IsSame-touched j.updated_at j (beaten now c j)
          (beaten-live now c j (is_active-finished j.status h)))
      sound,
)
Step-kept config c _ (Step.recover clock tick) sound = recovering-AreSound config clock tick c sound
Step-kept config c _ (Step.claim now running room) sound = claim-Follows now c sound
Step-kept config c _ (Step.progress now id stage completed total requests run) sound =
    record_progress-Follows c.worker_id c.tasks now id stage completed total requests c.store.jobs
      run sound
Step-kept config c _ (Step.finish now asset_id id outcome requests run) sound =
    execute-Follows c.worker_id c.tasks id run config.directory config.resolve now asset_id
      c.shutting_down requests c.store outcome sound
Step-kept config c _ Step.shut sound = (
  fewer-AreSound c.worker_id c.tasks _ c.store.jobs (λ i run. told-running i c.tasks run) sound,
  same_jobs c.store.jobs,
)
Step-kept config c _ (Step.restart worker) sound = (
  (sound.0, All-map (λ j good. ((λ run. absurd (cc)), good.1)) c.store.jobs sound.1),
  same_jobs c.store.jobs,
)

Reach-kept :
    (config : Config) (c d : Coordinator)
    → Reach config c d
    → IsSound c
    → IsSound d × AreKept c.store.jobs d.store.jobs
Reach-kept config c _ Reach.here sound = (sound, same_jobs c.store.jobs)
Reach-kept config c e (Reach.then d _ r s) sound =
    let (sound', k) = Reach-kept config c d r sound in
    let (sound'', k') = Step-kept config d e s sound' in
    (sound'', AreKept_trans c.store.jobs d.store.jobs e.store.jobs k k')

-- Whatever steps follow: no key stands twice in the table of import jobs, a job that is executed
-- is active and claimed by the coordinator, and only a job that is ready has a result, if it is
-- so at first.
pub Reach-IsSound : (config : Config) (c d : Coordinator) → Reach config c d → IsSound c → IsSound d
Reach-IsSound config c d r sound = (Reach-kept config c d r sound).0

-- Whatever steps of requests, executions and coordinators follow a sound state: an import job
-- that is ready, failed or canceled stays as it is, but for the time of its last update.
pub Reach-AreKept :
    (config : Config) (c d : Coordinator)
    → Reach config c d
    → IsSound c
    → AreKept c.store.jobs d.store.jobs
Reach-AreKept config c d r sound = (Reach-kept config c d r sound).1
