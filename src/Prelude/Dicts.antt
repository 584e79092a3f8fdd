-- ===== src/Prelude/Dicts.antt =====
-- A Python `dict` as a list of its items, in the order of insertion.
use mathlib.Core.Path.{◌≡◌, refl}
use mathlib.Core.Logic.{inl, inr}
use mathlib.Core.Bool.{true, false}
use mathlib.Core.Option.{Option, none, some}
use mathlib.Core.List.{List, [], ◌∷◌, ◌++◌}
use open_llmops.Prelude.Equality.{Eq, ◌==◌, Bool-cases, if◌then◌else◌, beq_refl, eq_of_beq}

module _ {ℓ κ} {K : Type ℓ} {V : Type κ} ⦃e : Eq K⦄ where
  abbrev pub find : K → List (K × V) → Option V
  find k [] = none
  find k ((j, v) ∷ d) = if j == k then some v else find k d

  -- `d[k] = v`: a key that is there keeps its place.
  abbrev pub put : K → V → List (K × V) → List (K × V)
  put k v [] = (k, v) ∷ []
  put k v ((j, u) ∷ d) = if j == k then (j, v) ∷ d else (j, u) ∷ put k v d

  pub find-put : (k : K) (v : V) (d : List (K × V)) → find k (put k v d) ≡ some v
  find-put k v [] = rw (beq_refl k)
  find-put k v ((j, u) ∷ d) = elim (Bool-cases (j == k)) [
    | inl same ↦ rw (same, same)
    | inr other ↦ rw (other, other) (find-put k v d)
  ]

  pub find-put_other :
      (k l : K) (v : V) (d : List (K × V)) → (k == l) ≡ false → find l (put k v d) ≡ find l d
  find-put_other k l v [] h = rw h
  find-put_other k l v ((j, u) ∷ d) h = elim (Bool-cases (j == k)) [
    | inl same ↦ rw (same, other same)
    | inr differ ↦ rw (differ, find-put_other k l v d h)
  ]
    where
      other : (j == k) ≡ true → (j == l) ≡ false
      other s = rw (eq_of_beq {a = j} {b = k} s) h

  -- A new key stands last.
  pub put-new : (k : K) (v : V) (d : List (K × V)) → find k d ≡ none → put k v d ≡ d ++ (k, v) ∷ []
  put-new k v [] h = refl
  put-new k v ((j, u) ∷ d) h = elim (Bool-cases (j == k)) [
    | inl same ↦ absurd (cc (rw same at h))
    | inr other ↦ rw (other, put-new k v d (rw other at h))
  ]

  pub find-append :
      (k : K) (v : V) (d : List (K × V)) → find k d ≡ none → find k (d ++ (k, v) ∷ []) ≡ some v
  find-append k v [] h = rw (beq_refl k)
  find-append k v ((j, u) ∷ d) h = elim (Bool-cases (j == k)) [
    | inl same ↦ absurd (cc (rw same at h))
    | inr other ↦ rw other (find-append k v d (rw other at h))
  ]
