-- ===== src/Imports/Endings.antt =====
-- The end of an execution keeps the table sound and its finished jobs.
use open_llmops.Prelude.{
  ℕ, String, string_eq, ◌≡◌, refl, subst, Bool, true, false, ◌&&◌, Option, some, none, List, [],
  ◌∷◌, ◌==◌, nat_eq, map, Bool-cases, inl, inr, arith, any, Result, ok, err,
}
use open_llmops.Imports.Table.{ModelImportJob, ModelManifest, is_canceling, update_job, find_job}
use open_llmops.Imports.Jobs.{
  Meanwhile, others, is_retried, set_failed, written_failure, mark_failed, set_stopped,
  written_stop, mark_canceled_or_retry,
}
use open_llmops.Imports.Publish.{
  set_ready, Store, Outcome, is_online, differs, is_blank, publish, checked, finalize_ready,
  or_failed, execute, imported, import_cancelled, import_error,
}
use open_llmops.Imports.Coordinator.{Task, mark_done}
use open_llmops.Imports.Sound.{Jobs, is_running, IsGood, AreKept_trans, fewer-AreSound}
use open_llmops.Imports.Rows.{set_ready-IsGood, set_failed-IsGood, set_stopped-IsGood, active-other}
use open_llmops.Imports.Recovering.{row_id}
use open_llmops.Imports.Changes.{
  Follows, same_jobs, update_job-Follows, others-Follows, running-unfinished,
}

abbrev pub ended : ℕ → List Task → List Task
ended i tasks = map (mark_done i) tasks

running-ended :
    (i k : ℕ) (tasks : List Task) → is_running k (ended i tasks) ≡ true → is_running k tasks ≡ true
running-ended i k [] h = h
running-ended i k (t ∷ tasks) h = elim (Bool-cases (t.job_id == i)) [
  | inl here ↦ ground (arith, rw here at h, running-ended i k tasks)
  | inr other ↦ ground (arith, rw other at h, running-ended i k tasks)
]

ended-idle : (i : ℕ) (tasks : List Task) → is_running i (ended i tasks) ≡ false
ended-idle i [] = refl
ended-idle i (t ∷ tasks) = elim (Bool-cases (t.job_id == i)) [
  | inl here ↦ rw (here, ended-idle i tasks) (ground arith)
  | inr other ↦ rw (other, ended-idle i tasks) (ground arith)
]

set_failed-id :
    (now : ℕ) (m : String) (b : Bool) (j : ModelImportJob) → row_id (set_failed now m b j) ≡ j.id
set_failed-id now m true j = refl
set_failed-id now m false j = refl

set_stopped-id : (now : ℕ) (b : Bool) (j : ModelImportJob) → row_id (set_stopped now b j) ≡ j.id
set_stopped-id now true j = refl
set_stopped-id now false j = refl

ok-jobs : (a b : Store) → ◌≡◌ {A = Result String Store} (ok a) (ok b) → a.jobs ≡ b.jobs
ok-jobs a b h = cc

module _ (w : String) (tasks : List Task) (i : ℕ) (run : is_running i tasks ≡ true) where
  -- Nothing is written.
  unwritten-Follows : (jobs : Jobs) → Follows w tasks (ended i tasks) jobs jobs
  unwritten-Follows jobs sound = (
    fewer-AreSound w tasks (ended i tasks) jobs (λ k again. running-ended i k tasks again) sound,
    same_jobs jobs,
  )

  -- The row of the job is written, and its execution is over.
  ending-Follows :
      (f : ModelImportJob → ModelImportJob) (jobs : Jobs)
      → ((j : ModelImportJob) → row_id (f j) ≡ j.id)
      → ((j : ModelImportJob)
          → is_running j.id (ended i tasks) ≡ false
          → j.result_asset_id ≡ none
          → IsGood w (ended i tasks) (f j))
      → Follows w tasks (ended i tasks) jobs (update_job i f jobs)
  ending-Follows f jobs same good =
      update_job-Follows i f same w tasks (ended i tasks) jobs
        (λ k other again. running-ended i k tasks again)
        (λ j m e g.
          good j (rw e (ended-idle i tasks))
            (g.1 (active-other w tasks j.status (g.0 (rw e run)).0)))
        (λ j m e g h. absurd (cc (running-unfinished w tasks i j run e g, h)))

  written_failure-Follows :
      (now : ℕ) (m : String) (o : Option ModelImportJob) (jobs : Jobs)
      → Follows w tasks (ended i tasks) jobs (written_failure now i m o jobs)
  written_failure-Follows now m none jobs = unwritten-Follows jobs
  written_failure-Follows now m (some seen) jobs =
      ending-Follows (set_failed now m (is_canceling seen.status)) jobs
        (set_failed-id now m (is_canceling seen.status))
        (λ j idle h.
          set_failed-IsGood w tasks (ended i tasks) j idle now m (is_canceling seen.status) h)

  written_stop-Follows :
      (now : ℕ) (b : Bool) (o : Option ModelImportJob) (jobs : Jobs)
      → Follows w tasks (ended i tasks) jobs (written_stop now i b o jobs)
  written_stop-Follows now b none jobs = unwritten-Follows jobs
  written_stop-Follows now b (some seen) jobs =
      ending-Follows (set_stopped now (is_retried b seen.status)) jobs
        (set_stopped-id now (is_retried b seen.status))
        (λ j idle h.
          set_stopped-IsGood w tasks (ended i tasks) j idle now (is_retried b seen.status) h)

  mark_failed-Follows :
      (now : ℕ) (m : String) (requests : Meanwhile) (jobs : Jobs)
      → Follows w tasks (ended i tasks) jobs (mark_failed now i m requests jobs)
  unfolding mark_failed
  mark_failed-Follows now m requests jobs sound =
      let (s, k) = others-Follows w tasks requests jobs sound in
      let (s', k') = written_failure-Follows now m (find_job i jobs) (others requests jobs) s in
      (s', AreKept_trans jobs _ _ k k')

  mark_canceled_or_retry-Follows :
      (now : ℕ) (b : Bool) (requests : Meanwhile) (jobs : Jobs)
      → Follows w tasks (ended i tasks) jobs (mark_canceled_or_retry now i b requests jobs)
  unfolding mark_canceled_or_retry
  mark_canceled_or_retry-Follows now b requests jobs sound =
      let (s, k) = others-Follows w tasks requests jobs sound in
      let (s', k') = written_stop-Follows now b (find_job i jobs) (others requests jobs) s in
      (s', AreKept_trans jobs _ _ k k')

  module _ (now asset_id : ℕ) (final_path : String) (m : ModelManifest) where
    publish-Follows :
        (j : ModelImportJob) (s s' : Store)
        → publish now asset_id i final_path m j s ≡ ok s'
        → Follows w tasks (ended i tasks) s.jobs s'.jobs
    publish-Follows j s s' h = elim (Bool-cases (any (λ a. a.local_path == final_path) s.assets)) [
      | inl taken ↦ absurd (cc (rw taken at h))
      | inr free ↦ subst (Follows w tasks (ended i tasks) s.jobs) (ok-jobs _ s' (rw free at h)) (
          ending-Follows (set_ready now asset_id m) s.jobs (λ k. refl)
            (λ k idle e. set_ready-IsGood w tasks (ended i tasks) k idle now asset_id m))
    ]

    checked-Follows :
        (o : Option ModelImportJob) (s s' : Store)
        → checked now asset_id i final_path m o s ≡ ok s'
        → Follows w tasks (ended i tasks) s.jobs s'.jobs
    checked-Follows none s s' h = absurd (cc)
    checked-Follows (some j) s s' h =
        elim (Bool-cases (is_online j.source && differs m.requested_revision j.revision)) [
          | inl wrong ↦ absurd (cc (rw wrong at h))
          | inr right ↦ elim (Bool-cases (is_online j.source && is_blank m.resolved_revision)) [
            | inl blank ↦ absurd (cc (rw (right, blank) at h))
            | inr full ↦ publish-Follows j s s' (rw (right, full) at h)
          ]
        ]

    finalize_ready-Follows :
        (directory : ℕ → String) (resolve : String → String) (s s' : Store)
        → finalize_ready directory resolve now asset_id i final_path m s ≡ ok s'
        → Follows w tasks (ended i tasks) s.jobs s'.jobs
    unfolding finalize_ready
    finalize_ready-Follows directory resolve s s' h =
        elim (Bool-cases (resolve final_path == directory i)) [
          | inl inside ↦ checked-Follows (find_job i s.jobs) s s' (rw inside at h)
          | inr outside ↦ absurd (cc (rw outside at h))
        ]

  module _ (directory : ℕ → String) (resolve : String → String) (now asset_id : ℕ) (b : Bool)
      (requests : Meanwhile) (s : Store) where
    or_failed-Follows :
        (q : Result String Store)
        → ((s' : Store) → q ≡ ok s' → Follows w tasks (ended i tasks) s.jobs s'.jobs)
        → Follows w tasks
            (ended i tasks)
            s.jobs
            (or_failed directory resolve now i requests s q).jobs
    or_failed-Follows (ok s') f = f s' refl
    or_failed-Follows (err m) f = mark_failed-Follows now m requests s.jobs

    pub execute-Follows :
        (outcome : Outcome)
        → Follows w tasks
            (ended i tasks)
            s.jobs
            (execute directory resolve now asset_id i b outcome requests s).jobs
    unfolding execute
    execute-Follows (imported final_path m) =
        or_failed-Follows _
          (λ s' h. finalize_ready-Follows now asset_id final_path m directory resolve s s' h)
    execute-Follows import_cancelled = mark_canceled_or_retry-Follows now b requests s.jobs
    execute-Follows (import_error m) = mark_failed-Follows now m requests s.jobs
