-- ===== src/Prelude/Lists.antt =====
-- Lists by Boolean tests, measured by native numbers, and predicates on their elements.
use Prim.Native.Nat.{ℕ, suc}
use mathlib.Core.Path.{◌≡◌, refl, sym, subst}
use mathlib.Core.Logic.{inl, inr}
use mathlib.Core.Bool.{Bool, true, false, ◌&&◌, ◌||◌, not}
use mathlib.Core.Option.{Option, none, some}
use mathlib.Core.List.{List, [], ◌∷◌, ◌++◌, map, Memᴰ}
use native.Mathlib.Omega.{arith}
use open_llmops.Prelude.Equality.{Eq, ◌==◌, Bool-cases, if◌then◌else◌, beq_refl, eq_of_beq}

module _ {ℓ} {A : Type ℓ} where
  abbrev pub length : List A → ℕ
  length [] = 0
  length (x ∷ xs) = suc (length xs)

  abbrev pub any : (A → Bool) → List A → Bool
  any p [] = false
  any p (x ∷ xs) = p x || any p xs

  abbrev pub all : (A → Bool) → List A → Bool
  all p [] = true
  all p (x ∷ xs) = p x && all p xs

  -- `[x for x in xs if p(x)]`
  abbrev pub select : (A → Bool) → List A → List A
  select p [] = []
  select p (x ∷ xs) = if p x then x ∷ select p xs else select p xs

  abbrev pub head? : List A → Option A
  head? [] = none
  head? (x ∷ xs) = some x

module _ {ℓ κ} {A : Type ℓ} where
  abbrev pub All : (A → Type κ) → List A → Type κ
  All P [] = Unit
  All P (x ∷ xs) = P x × All P xs

module _ {ℓ κ} {A : Type ℓ} (P : A → Type κ) where
  pub All-append : (xs ys : List A) → All P xs → All P ys → All P (xs ++ ys)
  All-append [] ys hx hy = hy
  All-append (x ∷ xs) ys hx hy = (hx.0, All-append xs ys hx.1 hy)

  pub All-select : (p : A → Bool) (xs : List A) → All P xs → All P (select p xs)
  All-select p [] h = tt
  All-select p (x ∷ xs) h = elim (Bool-cases (p x)) [
    | inl e ↦ rw e (h.0, All-select p xs h.1)
    | inr e ↦ rw e (All-select p xs h.1)
  ]

module _ {ℓ κ μ} {A : Type ℓ} {P : A → Type κ} {Q : A → Type μ} where
  pub All-map : ((x : A) → P x → Q x) → (xs : List A) → All P xs → All Q xs
  All-map f [] h = tt
  All-map f (x ∷ xs) h = (f x h.0, All-map f xs h.1)

module _ {ℓ} {A : Type ℓ} where
  pub any-append : (p : A → Bool) (xs ys : List A) → any p (xs ++ ys) ≡ (any p xs || any p ys)
  any-append p [] ys = refl
  any-append p (x ∷ xs) ys = ground (arith, any-append p xs ys)

  pub any-map {κ} :
      {B : Type κ} (p : B → Bool) (f : A → B) (xs : List A)
      → any p (map f xs) ≡ any (λ x. p (f x)) xs
  any-map p f [] = refl
  any-map p f (x ∷ xs) = rw (any-map p f xs)

  pub any-select : (p q : A → Bool) (xs : List A) → any q (select p xs) ≡ any (λ x. p x && q x) xs
  any-select p q [] = refl
  any-select p q (x ∷ xs) = ground (arith, any-select p q xs)

  pub any_mono :
      (p q : A → Bool) (f : (x : A) → p x ≡ true → q x ≡ true) (xs : List A)
      → any p xs ≡ true
      → any q xs ≡ true
  any_mono p q f [] h = h
  any_mono p q f (x ∷ xs) h = ground (arith, f x, any_mono p q f xs)

  pub any_congr : (p q : A → Bool) (f : (x : A) → p x ≡ q x) (xs : List A) → any p xs ≡ any q xs
  any_congr p q f [] = refl
  any_congr p q f (x ∷ xs) = rw (f x, any_congr p q f xs)

  pub any-and-all :
      (p q : A → Bool) (xs : List A)
      → any p xs ≡ true
      → all q xs ≡ true
      → any (λ x. p x && q x) xs ≡ true
  any-and-all p q [] h k = h
  any-and-all p q (x ∷ xs) h k = ground (arith, any-and-all p q xs)

  pub select_none : (p : A → Bool) (xs : List A) → any p xs ≡ false → select p xs ≡ []
  select_none p [] h = refl
  select_none p (x ∷ xs) h = ground (arith, select_none p xs)

  pub select_all : (p : A → Bool) (xs : List A) → any (λ x. not (p x)) xs ≡ false → select p xs ≡ xs
  select_all p [] h = refl
  select_all p (x ∷ xs) h = ground (arith, select_all p xs)

module _ {ℓ} {A : Type ℓ} ⦃e : Eq A⦄ where
  abbrev pub elem : A → List A → Bool
  elem a xs = any (λ x. x == a) xs

  abbrev pub list_beq : List A → List A → Bool
  list_beq [] [] = true
  list_beq (x ∷ xs) (y ∷ ys) = x == y && list_beq xs ys
  list_beq _ _ = false

  -- The elements of `set(xs)`, each once.
  abbrev pub distinct : List A → List A
  distinct [] = []
  distinct (x ∷ xs) = if elem x xs then distinct xs else x ∷ distinct xs

  -- No element stands twice.
  abbrev pub IsDistinct : List A → Type 0
  IsDistinct [] = Unit
  IsDistinct (x ∷ xs) = (elem x xs ≡ false) × IsDistinct xs

  pub eq_of_list_beq : (xs ys : List A) → list_beq xs ys ≡ true → xs ≡ ys
  eq_of_list_beq [] [] h = refl
  eq_of_list_beq [] (y ∷ ys) h = cc
  eq_of_list_beq (x ∷ xs) [] h = cc
  eq_of_list_beq (x ∷ xs) (y ∷ ys) h = elim (Bool-cases (x == y)) [
    | inl same ↦ cc ((e.decides x y).0 same, eq_of_list_beq xs ys (rw same at h))
    | inr other ↦ absurd (cc (rw other at h))
  ]

  pub IsDistinct-snoc :
      (xs : List A) (a : A) → IsDistinct xs → elem a xs ≡ false → IsDistinct (xs ++ a ∷ [])
  IsDistinct-snoc [] a d h = (refl, tt)
  IsDistinct-snoc (x ∷ xs) a (fresh, d) h = (
    rw (any-append (λ y. y == x) xs (a ∷ []), fresh) (ground (arith, e.decides x a, e.decides a x)),
    IsDistinct-snoc xs a d (ground arith),
  )

  pub All-elem {κ} : (P : A → Type κ) (a : A) (xs : List A) → All P xs → elem a xs ≡ true → P a
  All-elem P a [] h m = absurd (cc)
  All-elem P a (x ∷ xs) h m = elim (Bool-cases (x == a)) [
    | inl q ↦ subst P (eq_of_beq q) h.0
    | inr q ↦ All-elem P a xs h.1 (rw q at m)
  ]

  pub All-of-elem {κ} :
      (P : A → Type κ) (xs : List A) → ((a : A) → elem a xs ≡ true → P a) → All P xs
  All-of-elem P [] f = tt
  All-of-elem P (x ∷ xs) f =
      (f x (rw (beq_refl x)), All-of-elem P xs (λ a m. f a (ground (arith, Bool-cases (x == a)))))

-- Membership that shows the place.
module _ {ℓ} {A : Type ℓ} where
  pub All-of-mem {κ} : (P : A → Type κ) (xs : List A) → ((x : A) → Memᴰ x xs → P x) → All P xs
  All-of-mem P [] f = tt
  All-of-mem P (x ∷ xs) f = (f x (Memᴰ.head refl), All-of-mem P xs (λ y m. f y (Memᴰ.tail m)))

  pub All-mem {κ} : (P : A → Type κ) (xs : List A) (x : A) → All P xs → Memᴰ x xs → P x
  All-mem P [] x h m = elim m [ ]
  All-mem P (y ∷ xs) x h (Memᴰ.head e) = subst P (sym e) h.0
  All-mem P (y ∷ xs) x h (Memᴰ.tail m) = All-mem P xs x h.1 m

  pub select_congr :
      (p q : A → Bool) (xs : List A) → ((x : A) → Memᴰ x xs → p x ≡ q x) → select p xs ≡ select q xs
  select_congr p q [] f = refl
  select_congr p q (x ∷ xs) f =
      rw (f x (Memᴰ.head refl), select_congr p q xs (λ y m. f y (Memᴰ.tail m)))

  pub select-select :
      (p q : A → Bool) (xs : List A) → select q (select p xs) ≡ select (λ x. p x && q x) xs
  select-select p q [] = refl
  select-select p q (x ∷ xs) = ground (arith, select-select p q xs)

  pub any-mem : (p : A → Bool) (x : A) (xs : List A) → Memᴰ x xs → p x ≡ true → any p xs ≡ true
  any-mem p x [] m h = elim m [ ]
  any-mem p x (y ∷ xs) (Memᴰ.head e) h = rw (← e, h)
  any-mem p x (y ∷ xs) (Memᴰ.tail m) h = ground (arith, any-mem p x xs m h)
