-- ===== src/Imports/Changes.antt =====
-- The transactions on one import job keep the table sound and keep its finished jobs.
use open_llmops.Prelude.{
  ℕ, String, string_eq, ◌≡◌, refl, true, false, Option, some, none, List, [], ◌∷◌, ◌==◌, nat_eq,
  Memᴰ, Bool-cases, inl, inr, eq_of_beq, ℤ,
}
use open_llmops.Imports.Table.{ModelImportJob, is_finished, at_key, update_job, find_job}
use open_llmops.Imports.Jobs.{
  cancel_row, request_model_import_cancel, Meanwhile, others, progressed, written_progress,
  record_progress,
}
use open_llmops.Imports.Coordinator.{Task}
use open_llmops.Imports.Sound.{
  Jobs, is_running, IsGood, AreSound, AreKept, AreKept_trans, IsSame, IsSame-touched,
  changed-AreSound, changed-AreKept,
}
use open_llmops.Imports.Rows.{
  set_canceled-id, set_canceled-finished, set_canceled-IsGood, progressed-IsGood,
}
use open_llmops.Imports.Recovering.{row_id, is_active-finished}

-- From a sound table to a sound one, and every finished job is kept.
abbrev pub Follows : String → List Task → List Task → Jobs → Jobs → Type 0
Follows w tasks tasks' jobs jobs' =
    AreSound w tasks jobs → AreSound w tasks' jobs' × AreKept jobs jobs'

abbrev pub same_jobs : (jobs : Jobs) → AreKept jobs jobs
same_jobs jobs j m h = (j, m, refl)

module _ (i : ℕ) (f : ModelImportJob → ModelImportJob)
    (same : (j : ModelImportJob) → row_id (f j) ≡ j.id) where
  at_key-id : (j : ModelImportJob) → row_id (at_key i f j) ≡ j.id
  at_key-id j = elim (Bool-cases (j.id == i)) [
    | inl here ↦ rw here (same j)
    | inr other ↦ rw other refl
  ]

  -- The row of one key is changed: it stays good, the others stay good, and it was not finished or stays.
  pub update_job-Follows :
      (w : String) (tasks tasks' : List Task) (jobs : Jobs)
      → ((k : ℕ) → (k == i) ≡ false → is_running k tasks' ≡ true → is_running k tasks ≡ true)
      → ((j : ModelImportJob) → Memᴰ j jobs → j.id ≡ i → IsGood w tasks j → IsGood w tasks' (f j))
      → ((j : ModelImportJob)
          → Memᴰ j jobs
          → j.id ≡ i
          → IsGood w tasks j
          → is_finished j.status ≡ true
          → IsSame j (f j))
      → Follows w tasks tasks' jobs (update_job i f jobs)
  update_job-Follows w tasks tasks' jobs fewer good fixed sound = (
    changed-AreSound (at_key i f) w w tasks tasks' jobs at_key-id
        (λ j m g. elim (Bool-cases (j.id == i)) [
          | inl here ↦ rw here (good j m (eq_of_beq here) g)
          | inr other ↦ rw other ((λ run. g.0 (fewer j.id other run)), g.1)
        ])
        sound,
    changed-AreKept (at_key i f) w tasks jobs
        (λ j m g h. elim (Bool-cases (j.id == i)) [
          | inl here ↦ rw here (fixed j m (eq_of_beq here) g h)
          | inr other ↦ rw other refl
        ])
        sound,
  )

module _ (w : String) (tasks : List Task) where
  pub request-Follows :
      (now i : ℕ) (jobs : Jobs)
      → Follows w tasks tasks jobs (request_model_import_cancel now i jobs).1
  unfolding request_model_import_cancel
  request-Follows now i jobs =
      update_job-Follows i (cancel_row now) (λ j. set_canceled-id now j.status j) w tasks tasks jobs
        (λ k other run. run) (λ j m e g. set_canceled-IsGood w tasks now j.status j refl g)
        (λ j m e g h.
          IsSame-touched now j (cancel_row now j) (set_canceled-finished now j.status j h))

  pub others-Follows :
      (requests : Meanwhile) (jobs : Jobs) → Follows w tasks tasks jobs (others requests jobs)
  unfolding others
  others-Follows [] jobs sound = (sound, same_jobs jobs)
  others-Follows ((now, i) ∷ requests) jobs sound =
      let (s, k) = request-Follows now i jobs sound in
      let (s', k') = others-Follows requests _ s in (s', AreKept_trans jobs _ _ k k')

  -- A job that is executed is not finished.
  pub running-unfinished :
      (i : ℕ) (j : ModelImportJob)
      → is_running i tasks ≡ true
      → j.id ≡ i
      → IsGood w tasks j
      → is_finished j.status ≡ false
  running-unfinished i j run e g = elim (Bool-cases (is_finished j.status)) [
    | inr h ↦ h
    | inl h ↦ absurd (cc (is_active-finished j.status h, (g.0 (rw e run)).0))
  ]

  written_progress-Follows :
      (now i : ℕ) (stage : String) (completed : ℤ) (total : Option ℤ) (o : Option ModelImportJob)
      (jobs : Jobs)
      → is_running i tasks ≡ true
      → Follows w tasks tasks jobs (written_progress now i stage completed total o jobs)
  written_progress-Follows now i stage completed total none jobs run sound = (sound, same_jobs jobs)
  written_progress-Follows now i stage completed total (some seen) jobs run sound =
      elim (Bool-cases (is_finished seen.status)) [
        | inl over ↦ rw over (sound, same_jobs jobs)
        | inr goes_on ↦ rw goes_on (
            update_job-Follows i (progressed now stage completed total seen.status) (λ j. refl) w
              tasks tasks jobs (λ k other again. again)
              (λ j m e g.
                progressed-IsGood w tasks now stage completed total seen.status j (rw e run) g)
              (λ j m e g h. absurd (cc (running-unfinished i j run e g, h))) sound)
      ]

  pub record_progress-Follows :
      (now i : ℕ) (stage : String) (completed : ℤ) (total : Option ℤ) (requests : Meanwhile)
      (jobs : Jobs)
      → is_running i tasks ≡ true
      → Follows w tasks tasks jobs (record_progress now i stage completed total requests jobs)
  unfolding record_progress
  record_progress-Follows now i stage completed total requests jobs run sound =
      let (s, k) = others-Follows requests jobs sound in
      let (s', k') =
        written_progress-Follows now i stage completed total (find_job i jobs)
          (others requests jobs) run s in
      (s', AreKept_trans jobs _ _ k k')
