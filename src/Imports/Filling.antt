-- ===== src/Imports/Filling.antt =====
-- A round of the coordinator: it is a sequence of steps, and its loop of claims fills the free places.
use open_llmops.Prelude.{
  ℕ, zero, suc, ◌+◌, ◌≤◌, string_eq, ◌≡◌, refl, true, false, not, Option, some, none, List, [], ◌∷◌,
  ◌==◌, nat_eq, ltb, Bool-cases, inl, inr, ◌⊎◌, arith, All, All-mem, select, length,
}
use open_llmops.Imports.Table.{ModelImportJob, is_pending, is_active_import}
use open_llmops.Imports.Jobs.{claim_next_model_import, next_pending, take_job}
use open_llmops.Imports.Coordinator.{
  Task, Coordinator, Config, with_jobs, put_task, added, claim_one, claimed_or_not, claim_while,
  run_once, collect_finished, signal_canceling_jobs, heartbeat_active_jobs, recover_stale_jobs,
}
use open_llmops.Imports.Sound.{is_running, IsGood, IsSound}
use open_llmops.Imports.Claiming.{NextPending, next_pending-NextPending, taken-Follows}
use open_llmops.Imports.Lifecycle.{Step, Reach, Reach-IsSound}

pending-inactive :
    (j : ModelImportJob) → is_pending j.status ≡ true → is_active_import j.status ≡ false
pending-inactive j h = ground arith

module _ (config : Config) (clock : ℕ → ℕ) where
  again-Reach :
      (c : Coordinator) (again : Coordinator → Coordinator)
      → ((e : Coordinator) → e.shutting_down ≡ false → Reach config c e → Reach config c (again e))
      → (o : Option ModelImportJob) (e : Coordinator) → e.shutting_down ≡ false
      → Reach config c e
      → Reach config c (claimed_or_not config clock again (o, e))
  again-Reach c again f none e run r = r
  again-Reach c again f (some j) e run r = f e run r

  claims-Reach :
      (c : Coordinator) (fuel tick : ℕ) (d : Coordinator)
      → d.shutting_down ≡ false
      → Reach config c d
      → Reach config c (claim_while config clock fuel tick d)
  unfolding claim_while
  claims-Reach c zero tick d run r = r
  claims-Reach c (suc fuel) tick d run r =
      elim (Bool-cases (ltb (length d.tasks) config.concurrency)) [
        | inl room ↦ rw room (
            again-Reach c (claim_while config clock fuel (suc tick))
              (λ e. claims-Reach c fuel (suc tick) e) (claim_one (clock tick) d).0
              (claim_one (clock tick) d).1 run
              (Reach.then d _ r (Step.claim (clock tick) run room)))
        | inr full ↦ rw full r
      ]

  -- The coordinator before the loop of claims.
  abbrev before_claims : ℕ → Coordinator → Coordinator
  before_claims tick c =
      recover_stale_jobs config clock (suc tick)
        (heartbeat_active_jobs (clock tick) (collect_finished (signal_canceling_jobs c)))

  before_claims-Reach : (tick : ℕ) (c : Coordinator) → Reach config c (before_claims tick c)
  before_claims-Reach tick c =
      Reach.then _ _
        (Reach.then _ _ (Reach.then _ _ (Reach.then c _ Reach.here Step.signal) Step.collect)
          (Step.heartbeat (clock tick)))
        (Step.recover clock (suc tick))

  -- A round of an import coordinator that is not told to stop is a sequence of steps.
  pub run_once-Reach :
      (tick : ℕ) (c : Coordinator)
      → c.shutting_down ≡ false
      → Reach config c (run_once config clock tick c)
  unfolding run_once
  run_once-Reach tick c run =
      claims-Reach c config.concurrency (suc (suc tick)) _ run (before_claims-Reach tick c)

  -- Every place is taken, or no job is pending.
  abbrev pub IsFull : Coordinator → Type 0
  IsFull c =
      (config.concurrency ≤ length c.tasks) ⊎ All (λ j. is_pending j.status ≡ false) c.store.jobs

  -- The tasks that there are run.
  abbrev AreRunning : List Task → Type 0
  AreRunning tasks = All (λ t. t.is_done ≡ false) tasks

  select-AreRunning : (tasks : List Task) → AreRunning (select (λ t. not t.is_done) tasks)
  select-AreRunning [] = tt
  select-AreRunning (t ∷ tasks) = elim (Bool-cases t.is_done) [
    | inl done ↦ rw done (select-AreRunning tasks)
    | inr runs ↦ rw runs (refl, select-AreRunning tasks)
  ]

  put_task-AreRunning :
      (i : ℕ) (tasks : List Task) → AreRunning tasks → AreRunning (put_task i tasks)
  put_task-AreRunning i [] h = (refl, tt)
  put_task-AreRunning i (t ∷ tasks) h = elim (Bool-cases (t.job_id == i)) [
    | inl same ↦ rw same (put_task-AreRunning i tasks h.1)
    | inr other ↦ rw other (h.0, put_task-AreRunning i tasks h.1)
  ]

  -- A job that is not executed gets a task of its own.
  length-put_task :
      (i : ℕ) (tasks : List Task)
      → AreRunning tasks
      → is_running i tasks ≡ false
      → length (put_task i tasks) ≡ suc (length tasks)
  length-put_task i [] h idle = refl
  length-put_task i (t ∷ tasks) h idle = elim (Bool-cases (t.job_id == i)) [
    | inl same ↦ absurd (cc (rw (same, h.0) at idle))
    | inr other ↦ rw (other, length-put_task i tasks h.1 (rw other at idle)) refl
  ]

  -- What comes of one claim, by what the queue gives.
  abbrev taken : ℕ → Coordinator → Option ModelImportJob → Option ModelImportJob × Coordinator
  taken now c o =
      let (p, jobs) = take_job now c.worker_id o c.store.jobs in
      (p, record (with_jobs jobs c) { tasks = added p c.tasks })

  pending-idle :
      (c : Coordinator) (j : ModelImportJob)
      → IsSound c
      → NextPending c.store.jobs (some j)
      → is_running j.id c.tasks ≡ false
  pending-idle c j sound (m, p, f) = elim (Bool-cases (is_running j.id c.tasks)) [
    | inr idle ↦ idle
    | inl run ↦
        let good = All-mem (IsGood c.worker_id c.tasks) c.store.jobs j sound.1 m in
        absurd (cc (pending-inactive j p, (good.0 run).0))
  ]

  taken-IsFull :
      (fuel now : ℕ) (again : Coordinator → Coordinator) (c : Coordinator)
      → IsSound c
      → AreRunning c.tasks
      → config.concurrency ≤ length c.tasks + suc fuel
      → ((e : Coordinator)
          → IsSound e
          → AreRunning e.tasks
          → config.concurrency ≤ length e.tasks + fuel
          → IsFull (again e))
      → (o : Option ModelImportJob) → NextPending c.store.jobs o
      → IsFull (claimed_or_not config clock again (taken now c o))
  taken-IsFull fuel now again c sound runs le ih none f = inr f
  taken-IsFull fuel now again c sound runs le ih (some j) f =
      ih (taken now c (some j)).1
        (taken-Follows now c.worker_id c.tasks c.store.jobs (some j) f sound).0
        (put_task-AreRunning j.id c.tasks runs)
        (omega (arith, le, length-put_task j.id c.tasks runs (pending-idle c j sound f)))

  claims-IsFull :
      (fuel tick : ℕ) (c : Coordinator)
      → IsSound c
      → AreRunning c.tasks
      → config.concurrency ≤ length c.tasks + fuel
      → IsFull (claim_while config clock fuel tick c)
  unfolding claim_while claim_next_model_import
  claims-IsFull zero tick c sound runs le = inl (omega (arith, le))
  claims-IsFull (suc fuel) tick c sound runs le =
      elim (Bool-cases (ltb (length c.tasks) config.concurrency)) [
        | inl room ↦ rw room (
            taken-IsFull fuel (clock tick) (claim_while config clock fuel (suc tick)) c sound runs
              le (λ e s r l. claims-IsFull fuel (suc tick) e s r l) (next_pending c.store.jobs)
              (next_pending-NextPending c.store.jobs))
        | inr full ↦ rw full (inl (ground (arith, full)))
      ]

  -- If the table is sound, then after a round of the import coordinator every place is taken, or
  -- no job is pending.
  pub run_once-IsFull :
      (tick : ℕ) (c : Coordinator) → IsSound c → IsFull (run_once config clock tick c)
  unfolding run_once
  run_once-IsFull tick c sound =
      claims-IsFull config.concurrency (suc (suc tick)) (before_claims tick c)
        (Reach-IsSound config c _ (before_claims-Reach tick c) sound)
        (select-AreRunning (signal_canceling_jobs c).tasks) (omega arith)
