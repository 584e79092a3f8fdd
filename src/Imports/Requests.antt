-- ===== src/Imports/Requests.antt =====
-- Requests to cancel an import, and what a recovery leaves.
use open_llmops.Prelude.{
  ℕ, String, string_eq, ◌≡◌, refl, ◌∙◌, ap, Bool, true, false, Option, some, none, List, [], ◌∷◌,
  ◌==◌, nat_eq, if◌then◌else◌, Bool-cases, inl, inr, any, Result, ok, err, ℤ,
}
use mathlib.Core.Path.{ap₂}
use open_llmops.Imports.Table.{
  ModelImportJob, ModelImportStatus, pending, transferring, validating, ready, failed, canceling,
  canceled, is_active_import, is_canceling, at_key, update_job, find_job, touched,
}
use open_llmops.Imports.Jobs.{
  set_canceled, cancel_row, request_model_import_cancel, others, record_progress, progressed,
}
use open_llmops.Imports.Recovery.{
  ModelAsset, is_stale, recovered, recover_from, cleaned, set_recovered, with_size, size_of,
  find_asset, recover_stale_model_imports,
}
use open_llmops.Imports.Rows.{set_canceled-id}
use open_llmops.Imports.Sound.{Jobs}

canceled_again :
    (now later : ℕ) (s : ModelImportStatus) (j : ModelImportJob)
    → j.status ≡ s
    → cancel_row later (set_canceled now s j) ≡ touched later (set_canceled now s j)
canceled_again now later pending j e = refl
canceled_again now later transferring j e = refl
canceled_again now later validating j e = refl
canceled_again now later ready j e = ap (λ s. set_canceled later s (touched now j)) e
canceled_again now later failed j e = ap (λ s. set_canceled later s (touched now j)) e
canceled_again now later canceling j e = ap (λ s. set_canceled later s (touched now j)) e
canceled_again now later canceled j e = ap (λ s. set_canceled later s (touched now j)) e

row_again :
    (now later i : ℕ) (j : ModelImportJob)
    → at_key i (cancel_row later) (at_key i (cancel_row now) j)
      ≡ at_key i (touched later) (at_key i (cancel_row now) j)
row_again now later i j = elim (Bool-cases (j.id == i)) [
  | inl same ↦ rw same (here ((cancel_row now j).id == i))
  | inr other ↦ rw (other, other) refl
]
  where
    here :
        (b : Bool)
        → (if b then cancel_row later (cancel_row now j) else cancel_row now j)
          ≡ (if b then touched later (cancel_row now j) else cancel_row now j)
    here true = canceled_again now later j.status j refl
    here false = refl

jobs_again :
    (now later i : ℕ) (jobs : Jobs)
    → update_job i (cancel_row later) (update_job i (cancel_row now) jobs)
      ≡ update_job i (touched later) (update_job i (cancel_row now) jobs)
jobs_again now later i [] = refl
jobs_again now later i (j ∷ jobs) =
    ap₂ (λ k ks. k ∷ ks) (row_again now later i j) (jobs_again now later i jobs)

-- The answer to a request that changes the time of the last `UPDATE` only.
abbrev pub only_touched : ℕ → ℕ → Jobs → Option ModelImportJob × Jobs
only_touched later i jobs =
    let jobs' = update_job i (touched later) jobs in (find_job i jobs', jobs')

-- A request to cancel an import that is repeated, at whatever time, answers the same and changes
-- nothing, but for the time of the last update of the job.
pub request_model_import_cancel-twice :
    (now later i : ℕ) (jobs : Jobs)
    → request_model_import_cancel later i (request_model_import_cancel now i jobs).1
      ≡ only_touched later i (request_model_import_cancel now i jobs).1
unfolding request_model_import_cancel
request_model_import_cancel-twice now later i jobs =
    ap (λ js. (find_job i js, js)) (jobs_again now later i jobs)

module _ (directory : ℕ → String) (remove : ℕ → Result String (Unit {0})) (now timeout : ℕ)
    (worker : String) (assets : List ModelAsset) where
  set_recovered-inactive :
      (b : Bool) (j : ModelImportJob) → is_active_import (set_recovered now b j).status ≡ false
  set_recovered-inactive true j = refl
  set_recovered-inactive false j = refl

  cleaned-inactive :
      (q : Result String (Unit {0})) (j : ModelImportJob)
      → is_active_import (cleaned now q j).status ≡ false
  cleaned-inactive (err e) j = refl
  cleaned-inactive (ok u) j = set_recovered-inactive (is_canceling j.status) j

  with_size-status : (n : Option ℕ) (j : ModelImportJob) → (with_size n j).status ≡ j.status
  with_size-status none j = refl
  with_size-status (some n) j = refl

  recover_from-inactive :
      (o : Option ℕ) (j : ModelImportJob)
      → is_active_import (recover_from directory remove o now assets j).status ≡ false
  recover_from-inactive (some a) j =
      ap is_active_import (with_size-status (size_of (find_asset a assets)) _)
  recover_from-inactive none j =
      elim (Bool-cases (any (λ a. a.local_path == directory j.id) assets)) [
        | inl taken ↦ rw taken refl
        | inr free ↦ rw free (cleaned-inactive (remove j.id) j)
      ]

  inactive-fresh :
      (j : ModelImportJob)
      → is_active_import j.status ≡ false
      → is_stale now timeout worker j ≡ false
  inactive-fresh j h = rw h refl

  recovered-fresh :
      (j : ModelImportJob)
      → is_stale now timeout worker (recovered directory remove now timeout worker assets j) ≡ false
  recovered-fresh j = elim (Bool-cases (is_stale now timeout worker j)) [
    | inl stale ↦ rw stale (
        inactive-fresh (recover_from directory remove j.result_asset_id now assets j)
          (recover_from-inactive j.result_asset_id j))
    | inr fresh ↦ rw fresh fresh
  ]

  -- After a recovery that has the lock no import job is stale, however the removals of
  -- directories end.
  pub recover-none_stale :
      (jobs : Jobs)
      → any
          (is_stale now timeout worker)
          (recover_stale_model_imports directory remove true now timeout worker assets jobs).1
        ≡ false
  unfolding recover_stale_model_imports
  recover-none_stale [] = refl
  recover-none_stale (j ∷ jobs) = rw (recovered-fresh j, recover-none_stale jobs) refl

first : (b : Bool) (x y : Option ModelImportJob) → b ≡ true → (if b then x else y) ≡ x
first true x y h = refl
first false x y h = absurd (cc)

-- The row of a key after a change of it.
find-update :
    (i : ℕ) (f : ModelImportJob → ModelImportJob) (j : ModelImportJob) (jobs : Jobs)
    → ((k : ModelImportJob) → (f k).id ≡ k.id)
    → find_job i jobs ≡ some j
    → find_job i (update_job i f jobs) ≡ some (f j)
find-update i f j [] same h = absurd (cc)
find-update i f j (k ∷ jobs) same h = elim (Bool-cases (k.id == i)) [
  | inl here ↦ rw here (
      first ((f k).id == i) (some (f k)) (find_job i (update_job i f jobs))
        (ap (λ n. n == i) (same k) ∙ here)
      ∙ ap mapped (rw here at h))
  | inr other ↦ rw (other, other) (find-update i f j jobs same (rw other at h))
]
  where
    mapped : Option ModelImportJob → Option ModelImportJob
    mapped none = none
    mapped (some l) = some (f l)

-- A request to cancel that is committed while the progress of a transferring import is being
-- written as its validation is lost: the job is then validating, although the time of the request
-- is kept.
pub record_progress-lost :
    (now asked i : ℕ) (completed : ℤ) (total : Option ℤ) (j : ModelImportJob) (jobs : Jobs)
    → find_job i jobs ≡ some j
    → j.status ≡ transferring
    → (k : ModelImportJob) × (find_job i
          (record_progress now i "validating" completed total ((asked, i) ∷ []) jobs)
        ≡ some k)
      × (k.status ≡ validating)
      × (k.cancel_requested_at ≡ some asked)
unfolding record_progress others request_model_import_cancel
record_progress-lost now asked i completed total j jobs h e = (
  progressed now "validating" completed total transferring (set_canceled asked transferring j),
  rw (h, e)
      (find-update i (progressed now "validating" completed total transferring)
        (set_canceled asked transferring j) (update_job i (cancel_row asked) jobs) (λ k. refl)
        (find-update i (cancel_row asked) j jobs (λ k. set_canceled-id asked k.status k) h
          ∙ ap (λ s. some (set_canceled asked s j)) e)),
  refl,
  refl,
)
