-- ===== src/Reconciler/Order.antt =====
-- The head of the queue is the first in the order of `_queue_sort_key`.
use open_llmops.Prelude.{
  ℕ, ◌≡◌, refl, subst, Bool, true, false, ◌&&◌, ◌||◌, Option, some, none, List, [], ◌∷◌, ◌==◌,
  nat_eq, ltb, Bool-cases, inl, inr, arith, All, Memᴰ, if◌then◌else◌,
}
use open_llmops.Workloads.{Row, table, common}
use open_llmops.Reconciler.Claim.{queue_time, type_rank, queued_before, earliest_from, earliest}

-- The order of three numbers, the first that differs deciding.
abbrev lex : (a b c x y z : ℕ) → Bool
lex a b c x y z = ltb a x || (a == x && (ltb b y || (b == y && ltb c z)))

lex-asym : (a b c x y z : ℕ) → lex a b c x y z ≡ true → lex x y z a b c ≡ false
lex-asym a b c x y z h = ground arith

lex-total_trans :
    (a b c x y z u v w : ℕ)
    → lex a b c x y z ≡ false
    → lex x y z u v w ≡ false
    → lex a b c u v w ≡ false
lex-total_trans a b c x y z u v w h k = ground arith

before-asym : (r s : Row) → queued_before r s ≡ true → queued_before s r ≡ false
unfolding queued_before
before-asym r s h =
    lex-asym (queue_time (common r)) (type_rank (table r)) (common r).id (queue_time (common s))
      (type_rank (table s)) (common s).id h

not_before_trans :
    (r s k : Row)
    → queued_before r s ≡ false
    → queued_before s k ≡ false
    → queued_before r k ≡ false
unfolding queued_before
not_before_trans r s k h l =
    lex-total_trans (queue_time (common r)) (type_rank (table r)) (common r).id
      (queue_time (common s)) (type_rank (table s)) (common s).id (queue_time (common k))
      (type_rank (table k)) (common k).id h l

-- No row of the list comes before `r`.
abbrev pub IsFirst : Row → List Row → Type 0
IsFirst r rows = All (λ s. queued_before s r ≡ false) rows

not_before_refl : (r : Row) → queued_before r r ≡ false
not_before_refl r = elim (Bool-cases (queued_before r r)) [
  | inr other ↦ other
  | inl itself ↦ before-asym r r itself
]

earliest_from-step :
    (best r : Row) (rows : List Row) (b : Bool)
    → queued_before r best ≡ b
    → earliest_from (if b then r else best) rows ≡ earliest_from best (r ∷ rows)
unfolding earliest_from
earliest_from-step best r rows b e = rw e

earliest_from-IsFirst :
    (best : Row) (rows : List Row) → IsFirst (earliest_from best rows) (best ∷ rows)
unfolding earliest_from
earliest_from-IsFirst best [] = (not_before_refl best, tt)
earliest_from-IsFirst best (r ∷ rows) = elim (Bool-cases (queued_before r best)) [
  | inl first ↦
      let (r_late, late) = earliest_from-IsFirst r rows in
      subst (λ k. IsFirst k (best ∷ r ∷ rows)) (earliest_from-step best r rows true first)
        (not_before_trans best r _ (before-asym r best first) r_late, (r_late, late))
  | inr later ↦
      let (best_late, late) = earliest_from-IsFirst best rows in
      subst (λ k. IsFirst k (best ∷ r ∷ rows)) (earliest_from-step best r rows false later)
        (best_late, (not_before_trans r best _ later best_late, late))
]

earliest_from-mem : (best : Row) (rows : List Row) → Memᴰ (earliest_from best rows) (best ∷ rows)
unfolding earliest_from
earliest_from-mem best [] = Memᴰ.head refl
earliest_from-mem best (r ∷ rows) = elim (Bool-cases (queued_before r best)) [
  | inl first ↦ rw first (Memᴰ.tail (earliest_from-mem r rows))
  | inr later ↦ rw later (skip _ (earliest_from-mem best rows))
]
  where
    skip : (e : Row) → Memᴰ e (best ∷ rows) → Memᴰ e (best ∷ r ∷ rows)
    skip e (Memᴰ.head q) = Memᴰ.head q
    skip e (Memᴰ.tail m) = Memᴰ.tail (Memᴰ.tail m)

pub earliest-IsFirst :
    (rows : List Row) (r : Row) → earliest rows ≡ some r → Memᴰ r rows × IsFirst r rows
earliest-IsFirst [] r e = absurd (cc)
earliest-IsFirst (s ∷ rows) r e =
    subst (λ k. Memᴰ k (s ∷ rows) × IsFirst k (s ∷ rows)) (some_eq e)
      (earliest_from-mem s rows, earliest_from-IsFirst s rows)
  where
    some_eq : ◌≡◌ {A = Option Row} (some (earliest_from s rows)) (some r) → earliest_from s rows ≡ r
    some_eq h = cc

pub earliest-none : (rows : List Row) → earliest rows ≡ none → rows ≡ []
earliest-none [] e = refl
earliest-none (s ∷ rows) e = absurd (cc)
