-- ===== src/Imports/Recovering.antt =====
-- What a recovery and a sign of life make of one row keeps the row good.
use open_llmops.Prelude.{
  ℕ, String, string_eq, ◌≡◌, refl, ◌∙◌, subst, Bool, true, false, ◌&&◌, Option, some, none, List,
  ◌==◌, nat_eq, Bool-cases, inl, inr, arith, beq_refl, any, Result, ok, err,
}
use open_llmops.Imports.Table.{
  ModelImportJob, ModelImportStatus, is_active_import, is_finished, is_canceling,
}
use open_llmops.Imports.Recovery.{
  ModelAsset, is_stale, recovered, recover_from, cleaned, set_recovered, with_size, size_of,
  find_asset,
}
use open_llmops.Imports.Coordinator.{Task, Coordinator, beaten, has_task, is_own}
use open_llmops.Imports.Sound.{is_running, IsGood}
use open_llmops.Imports.Rows.{active-other}

pub is_active-finished : (s : ModelImportStatus) → is_finished s ≡ true → is_active_import s ≡ false
is_active-finished s h = ground arith

abbrev pub row_id : ModelImportJob → ℕ
row_id j = j.id

-- The result is missing: the same after a choice.
set_recovered-result :
    (now : ℕ) (b : Bool) (j : ModelImportJob)
    → (set_recovered now b j).result_asset_id ≡ j.result_asset_id
set_recovered-result now true j = refl
set_recovered-result now false j = refl

cleaned-result :
    (now : ℕ) (q : Result String (Unit {0})) (j : ModelImportJob)
    → (cleaned now q j).result_asset_id ≡ j.result_asset_id
cleaned-result now (err e) j = refl
cleaned-result now (ok u) j = set_recovered-result now (is_canceling j.status) j

set_recovered-id : (now : ℕ) (b : Bool) (j : ModelImportJob) → row_id (set_recovered now b j) ≡ j.id
set_recovered-id now true j = refl
set_recovered-id now false j = refl

cleaned-id :
    (now : ℕ) (q : Result String (Unit {0})) (j : ModelImportJob) → row_id (cleaned now q j) ≡ j.id
cleaned-id now (err e) j = refl
cleaned-id now (ok u) j = set_recovered-id now (is_canceling j.status) j

with_size-id : (n : Option ℕ) (j : ModelImportJob) → row_id (with_size n j) ≡ j.id
with_size-id none j = refl
with_size-id (some n) j = refl

module _ (directory : ℕ → String) (remove : ℕ → Result String (Unit {0})) (now : ℕ)
    (assets : List ModelAsset) where
  recover_from-id :
      (o : Option ℕ) (j : ModelImportJob)
      → row_id (recover_from directory remove o now assets j) ≡ j.id
  recover_from-id (some a) j = with_size-id (size_of (find_asset a assets)) _
  recover_from-id none j = elim (Bool-cases (any (λ a. a.local_path == directory j.id) assets)) [
    | inl taken ↦ rw taken refl
    | inr free ↦ rw free (cleaned-id now (remove j.id) j)
  ]

  recover_from-result :
      (j : ModelImportJob)
      → j.result_asset_id ≡ none
      → (recover_from directory remove none now assets j).result_asset_id ≡ none
  recover_from-result j h = elim (Bool-cases (any (λ a. a.local_path == directory j.id) assets)) [
    | inl taken ↦ rw taken h
    | inr free ↦ rw free (cleaned-result now (remove j.id) j ∙ h)
  ]

  module _ (timeout : ℕ) (worker : String) where
    pub recovered-id :
        (j : ModelImportJob)
        → row_id (recovered directory remove now timeout worker assets j) ≡ j.id
    recovered-id j = elim (Bool-cases (is_stale now timeout worker j)) [
      | inl stale ↦ rw stale (recover_from-id j.result_asset_id j)
      | inr live ↦ rw live refl
    ]

    pub recovered-live :
        (j : ModelImportJob)
        → is_active_import j.status ≡ false
        → recovered directory remove now timeout worker assets j ≡ j
    recovered-live j h = rw h refl

    -- A job that the coordinator executes is its own, and so it is not stale.
    own-live :
        (j : ModelImportJob) → j.claimed_by ≡ some worker → is_stale now timeout worker j ≡ false
    own-live j h = rw (h, beq_refl worker) (ground arith)

    recover_from-IsGood :
        (tasks : List Task) (o : Option ℕ) (j : ModelImportJob)
        → o ≡ none
        → j.result_asset_id ≡ o
        → (is_running j.id tasks ≡ true → j.claimed_by ≡ some worker)
        → is_stale now timeout worker j ≡ true
        → IsGood worker tasks (recover_from directory remove o now assets j)
    recover_from-IsGood tasks (some a) j e h own stale = absurd (cc)
    recover_from-IsGood tasks none j e h own stale = (
      (λ run. absurd (
          cc (
            own-live j (own (subst (λ i. is_running i tasks ≡ true) (recover_from-id none j) run)),
            stale,
          ))),
      (λ other. recover_from-result j h),
    )

    pub recovered-IsGood :
        (tasks : List Task) (j : ModelImportJob)
        → IsGood worker tasks j
        → IsGood worker tasks (recovered directory remove now timeout worker assets j)
    recovered-IsGood tasks j (tended, settled) = elim (Bool-cases (is_stale now timeout worker j)) [
      | inr live ↦ rw live (tended, settled)
      | inl stale ↦ rw stale (
          recover_from-IsGood tasks j.result_asset_id j
            (settled (active-other worker tasks j.status (ground (arith, stale)))) refl
            (λ run. (tended run).1) stale)
    ]

module _ (now : ℕ) (c : Coordinator) where
  pub beaten-id : (j : ModelImportJob) → row_id (beaten now c j) ≡ j.id
  beaten-id j =
      elim (Bool-cases
        (has_task j.id c.tasks && (is_own c.worker_id j.claimed_by && is_active_import j.status))) [
          | inl own ↦ rw own refl
          | inr other ↦ rw other refl
        ]

  pub beaten-live : (j : ModelImportJob) → is_active_import j.status ≡ false → beaten now c j ≡ j
  beaten-live j h = rw h (ground arith)

  pub beaten-IsGood :
      (w : String) (tasks : List Task) (j : ModelImportJob)
      → IsGood w tasks j
      → IsGood w tasks (beaten now c j)
  beaten-IsGood w tasks j good =
      elim (Bool-cases
        (has_task j.id c.tasks && (is_own c.worker_id j.claimed_by && is_active_import j.status))) [
          | inl own ↦ rw own good
          | inr other ↦ rw other good
        ]
