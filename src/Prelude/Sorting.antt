-- ===== src/Prelude/Sorting.antt =====
-- Sorting, and lists without repetition.
use Prim.Native.Nat.{suc, ◌≤◌}
use mathlib.Core.Path.{◌≡◌, refl, ap, sym, ◌∙◌}
use mathlib.Core.Logic.{◌↔◌, inl, inr}
use mathlib.Core.Bool.{Bool, false, ◌||◌}
use mathlib.Core.List.Perm
use mathlib.Core.List.{List, [], ◌∷◌, Perm}
use native.Mathlib.Omega.{arith}
use open_llmops.Prelude.Equality.{Eq, ◌==◌, Bool-cases, if◌then◌else◌}
use open_llmops.Prelude.Lists.{length, any, elem, distinct, IsDistinct}

-- Insertion sort by a test `before` that is total: stable, as `sorted` and `ORDER BY` are read.
module _ {ℓ} {A : Type ℓ} (before : A → A → Bool) where
  abbrev pub insert_by : A → List A → List A
  insert_by a [] = a ∷ []
  insert_by a (x ∷ xs) = if before a x then a ∷ x ∷ xs else x ∷ insert_by a xs

  abbrev pub sort_by : List A → List A
  sort_by [] = []
  sort_by (x ∷ xs) = insert_by x (sort_by xs)

  pub any-insert_by :
      (p : A → Bool) (a : A) (xs : List A) → any p (insert_by a xs) ≡ (p a || any p xs)
  any-insert_by p a [] = refl
  any-insert_by p a (x ∷ xs) = ground (arith, any-insert_by p a xs)

  pub any-sort_by : (p : A → Bool) (xs : List A) → any p (sort_by xs) ≡ any p xs
  any-sort_by p [] = refl
  any-sort_by p (x ∷ xs) = rw (any-insert_by p x (sort_by xs), any-sort_by p xs)

  pub length-insert_by : (a : A) (xs : List A) → length (insert_by a xs) ≡ suc (length xs)
  length-insert_by a [] = refl
  length-insert_by a (x ∷ xs) = ground (arith, length-insert_by a xs)

  pub length-sort_by : (xs : List A) → length (sort_by xs) ≡ length xs
  length-sort_by [] = refl
  length-sort_by (x ∷ xs) = rw (length-insert_by x (sort_by xs), length-sort_by xs)

  pub insert_by-perm : (a : A) (xs : List A) → Perm (insert_by a xs) (a ∷ xs)
  insert_by-perm a [] = Perm.rfl
  insert_by-perm a (x ∷ xs) = elim (Bool-cases (before a x)) [
    | inl le ↦ rw le Perm.rfl
    | inr gt ↦ rw gt (Perm.trans (Perm.cons x (insert_by-perm a xs)) (Perm.swap a x xs))
  ]

  pub sort_by-perm : (xs : List A) → Perm (sort_by xs) xs
  sort_by-perm [] = Perm.rfl
  sort_by-perm (x ∷ xs) = Perm.trans (insert_by-perm x (sort_by xs)) (Perm.cons x (sort_by-perm xs))

module _ {ℓ} {A : Type ℓ} ⦃e : Eq A⦄ where
  pub length-distinct : (xs : List A) → length (distinct xs) ≤ length xs
  length-distinct [] = omega arith
  length-distinct (x ∷ xs) = ground (arith, length-distinct xs)

  pub IsDistinct-of-length : (xs : List A) → length (distinct xs) ≡ length xs → IsDistinct xs
  IsDistinct-of-length [] h = tt
  IsDistinct-of-length (x ∷ xs) h = elim (Bool-cases (elem x xs)) [
    | inl again ↦ absurd (omega (arith, length-distinct xs, rw again at h))
    | inr fresh ↦ (fresh, IsDistinct-of-length xs (omega (arith, rw fresh at h)))
  ]

  pub length-distinct-of : (xs : List A) → IsDistinct xs → length (distinct xs) ≡ length xs
  length-distinct-of [] d = refl
  length-distinct-of (x ∷ xs) (fresh, d) = rw fresh (ap suc (length-distinct-of xs d))

  pub IsDistinct-insert_by :
      (before : A → A → Bool) (a : A) (xs : List A)
      → IsDistinct (insert_by before a xs) ↔ ((elem a xs ≡ false) × IsDistinct xs)
  IsDistinct-insert_by before a [] = ((λ d. d), λ d. d)
  IsDistinct-insert_by before a (x ∷ xs) = elim (Bool-cases (before a x)) [
    | inl le ↦ rw le ((λ d. d), λ d. d)
    | inr gt ↦
        let (to, from) = IsDistinct-insert_by before a xs in
        rw (gt, any-insert_by before (λ y. y == x) a xs)
          (ground (arith, to, from, e.decides a x, e.decides x a))
  ]

  pub IsDistinct-sort_by :
      (before : A → A → Bool) (xs : List A) → IsDistinct (sort_by before xs) ↔ IsDistinct xs
  IsDistinct-sort_by before [] = ((λ d. d), λ d. d)
  IsDistinct-sort_by before (x ∷ xs) =
      let (to, from) = IsDistinct-insert_by before x (sort_by before xs) in
      let (out, back) = IsDistinct-sort_by before xs in
      let same = any-sort_by before (λ y. y == x) xs in
      ((λ d. (sym same ∙ (to d).0, out (to d).1)), (λ d. from (same ∙ d.0, back d.1)))
