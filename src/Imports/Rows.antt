-- ===== src/Imports/Rows.antt =====
-- What one transaction makes of one row keeps the row good: the cancellation, the progress, the end of
-- an execution, the sign of life and the recovery.
use open_llmops.Prelude.{
  ℕ, String, string_eq, ◌≡◌, refl, Bool, true, false, Option, none, List, nat_eq, if◌then◌else◌,
  Bool-cases, inl, inr, arith, ℤ,
}
use open_llmops.Imports.Table.{
  ModelImportJob, ModelImportStatus, touched, ModelManifest, pending, transferring, validating,
  ready, failed, canceling, canceled, is_active_import, is_finished, is_ready,
}
use open_llmops.Imports.Jobs.{
  set_canceled, keeps_status, staged, progressed, set_failed, set_stopped,
}
use open_llmops.Imports.Publish.{set_ready}
use open_llmops.Imports.Coordinator.{Task}
use open_llmops.Imports.Sound.{is_running, IsGood}

pub set_canceled-id :
    (now : ℕ) (s : ModelImportStatus) (j : ModelImportJob) → (set_canceled now s j).id ≡ j.id
set_canceled-id now pending j = refl
set_canceled-id now transferring j = refl
set_canceled-id now validating j = refl
set_canceled-id now ready j = refl
set_canceled-id now failed j = refl
set_canceled-id now canceling j = refl
set_canceled-id now canceled j = refl

pub set_canceled-finished :
    (now : ℕ) (s : ModelImportStatus) (j : ModelImportJob)
    → is_finished s ≡ true
    → set_canceled now s j ≡ touched now j
set_canceled-finished now pending j h = cc
set_canceled-finished now transferring j h = cc
set_canceled-finished now validating j h = cc
set_canceled-finished now ready j h = refl
set_canceled-finished now failed j h = refl
set_canceled-finished now canceling j h = refl
set_canceled-finished now canceled j h = refl

module _ (w : String) (tasks : List Task) where
  pub set_canceled-IsGood :
      (now : ℕ) (s : ModelImportStatus) (j : ModelImportJob)
      → j.status ≡ s
      → IsGood w tasks j
      → IsGood w tasks (set_canceled now s j)
  set_canceled-IsGood now pending j e (tended, settled) =
      ((λ run. absurd (cc (rw e at (tended run).0))), (λ other. settled (rw e refl)))
  set_canceled-IsGood now transferring j e (tended, settled) =
      ((λ run. (refl, (tended run).1)), (λ other. settled (rw e refl)))
  set_canceled-IsGood now validating j e (tended, settled) =
      ((λ run. (refl, (tended run).1)), (λ other. settled (rw e refl)))
  set_canceled-IsGood now ready j e good = good
  set_canceled-IsGood now failed j e good = good
  set_canceled-IsGood now canceling j e good = good
  set_canceled-IsGood now canceled j e good = good

  -- An active job is not ready.
  pub active-other : (s : ModelImportStatus) → is_active_import s ≡ true → is_ready s ≡ false
  active-other s a = ground arith

  staged-active :
      (v : Bool) (seen s : ModelImportStatus)
      → is_active_import s ≡ true
      → is_active_import (staged v seen s) ≡ true
  staged-active v seen s a = elim (Bool-cases (keeps_status v seen)) [
    | inl same ↦ rw same a
    | inr other ↦ rw other (chosen v)
  ]
    where
      chosen : (b : Bool) → is_active_import (if b then validating else transferring) ≡ true
      chosen true = refl
      chosen false = refl

  -- The progress of a job that is executed.
  pub progressed-IsGood :
      (now : ℕ) (stage : String) (completed : ℤ) (total : Option ℤ) (seen : ModelImportStatus)
      (j : ModelImportJob)
      → is_running j.id tasks ≡ true
      → IsGood w tasks j
      → IsGood w tasks (progressed now stage completed total seen j)
  progressed-IsGood now stage completed total seen j run (tended, settled) = (
    (λ again. (staged-active _ seen j.status (tended run).0, (tended run).1)),
    (λ other. settled (active-other j.status (tended run).0)),
  )

  -- The end of an execution of a job that was executed.
  module _ (later : List Task) (j : ModelImportJob) (over : is_running j.id later ≡ false) where
    pub set_ready-IsGood :
        (now asset_id : ℕ) (m : ModelManifest) → IsGood w later (set_ready now asset_id m j)
    set_ready-IsGood now asset_id m = ((λ run. absurd (cc)), (λ other. absurd (cc)))

    pub set_failed-IsGood :
        (now : ℕ) (message : String) (b : Bool)
        → j.result_asset_id ≡ none
        → IsGood w later (set_failed now message b j)
    set_failed-IsGood now message true h = ((λ run. absurd (cc)), (λ other. h))
    set_failed-IsGood now message false h = ((λ run. absurd (cc)), (λ other. h))

    pub set_stopped-IsGood :
        (now : ℕ) (b : Bool) → j.result_asset_id ≡ none → IsGood w later (set_stopped now b j)
    set_stopped-IsGood now true h = ((λ run. absurd (cc)), (λ other. h))
    set_stopped-IsGood now false h = ((λ run. absurd (cc)), (λ other. h))
