-- ===== src/Reconciler/Waiting.antt =====
-- How many rows wait in the queue, and what a change of one row does to that number.
use mathlib.Core.Bool.{false≢true}
use open_llmops.Prelude.{
  ℕ, suc, ◌+◌, ◌≤◌, ◌≡◌, refl, sym, ◌∙◌, ap, Bool, true, false, ◌&&◌, some, List, [], ◌∷◌, ◌++◌,
  ◌==◌, nat_eq, if◌then◌else◌, select, length, Memᴰ, Bool-cases, inl, inr, arith, eq_of_beq,
  beq_refl, ◌⊎◌,
}
use open_llmops.Workloads.{
  Row, table, common, LeaseOwnerType, of_deployment, of_training, of_evaluation, type_eq,
}
use open_llmops.Leases.{LeaseOwner}
use open_llmops.Reconciler.Database.{get_row, put_row, is_row_of}
use open_llmops.Reconciler.Claim.{is_queued, queued_in, candidates}

abbrev pub waiting : List Row → ℕ
waiting [] = 0
waiting (r ∷ rows) = (if is_queued r then 1 else 0) + waiting rows

abbrev pub has_key : Row → Row → Bool
has_key s r = table s == table r && (common s).id == (common r).id

pub waiting-le : (rows : List Row) → waiting rows ≤ length rows
waiting-le [] = omega arith
waiting-le (r ∷ rows) = ground (arith, waiting-le rows)

pub length-put_row : (r : Row) (rows : List Row) → length (put_row r rows) ≡ length rows
unfolding put_row
length-put_row r [] = refl
length-put_row r (s ∷ rows) = ap suc (length-put_row r rows)

-- A row that does not wait takes the place of the rows with its key.
pub waiting-put_row :
    (r : Row) (rows : List Row) → is_queued r ≡ false → waiting (put_row r rows) ≤ waiting rows
unfolding put_row
waiting-put_row r [] h = omega arith
waiting-put_row r (s ∷ rows) h = elim (Bool-cases (has_key s r)) [
  | inl same ↦ rw (same, h) (omega (arith, waiting-put_row r rows h))
  | inr other ↦ rw other (omega (arith, waiting-put_row r rows h))
]

pub waiting-put_row_less :
    (r s : Row) (rows : List Row)
    → is_queued r ≡ false
    → is_queued s ≡ true
    → has_key s r ≡ true
    → Memᴰ s rows
    → suc (waiting (put_row r rows)) ≤ waiting rows
unfolding put_row
waiting-put_row_less r s [] h q k m = elim m [ ]
waiting-put_row_less r s (a ∷ rows) h q k (Memᴰ.head e) =
    rw (← e, k, h, q) (omega (arith, waiting-put_row r rows h))
waiting-put_row_less r s (a ∷ rows) h q k (Memᴰ.tail m) = elim (Bool-cases (has_key a r)) [
  | inl same ↦ rw (same, h) (omega (arith, waiting-put_row_less r s rows h q k m))
  | inr other ↦ rw other (omega (arith, waiting-put_row_less r s rows h q k m))
]

mem-select :
    (p : Row → Bool) (r : Row) (rows : List Row)
    → Memᴰ r (select p rows)
    → Memᴰ r rows × (p r ≡ true)
mem-select p r [] m = elim m [ ]
mem-select p r (s ∷ rows) m = elim (Bool-cases (p s)) [
  | inl keep ↦ kept keep (λ n. mem-select p r rows n) (rw keep at m)
  | inr drop ↦ let (n, h) = mem-select p r rows (rw drop at m) in (Memᴰ.tail n, h)
]
  where
    kept :
        p s ≡ true
        → (Memᴰ r (select p rows) → Memᴰ r rows × (p r ≡ true))
        → Memᴰ r (s ∷ select p rows)
        → Memᴰ r (s ∷ rows) × (p r ≡ true)
    kept keep rest (Memᴰ.head e) = (Memᴰ.head e, ap p e ∙ keep)
    kept keep rest (Memᴰ.tail n) = let (n', h) = rest n in (Memᴰ.tail n', h)

mem-append : (r : Row) (xs ys : List Row) → Memᴰ r (xs ++ ys) → Memᴰ r xs ⊎ Memᴰ r ys
mem-append r [] ys m = inr m
mem-append r (x ∷ xs) ys (Memᴰ.head e) = inl (Memᴰ.head e)
mem-append r (x ∷ xs) ys (Memᴰ.tail m) = elim (mem-append r xs ys m) [
  | inl n ↦ inl (Memᴰ.tail n)
  | inr n ↦ inr n
]

-- A candidate is a row that waits.
pub mem-candidates :
    (r : Row) (rows : List Row) → Memᴰ r (candidates rows) → Memᴰ r rows × (is_queued r ≡ true)
unfolding candidates
mem-candidates r rows m = elim (mem-append r (select (queued_in of_deployment) rows) _ m) [
  | inl n ↦ of_type of_deployment n
  | inr n ↦ elim (mem-append r (select (queued_in of_training) rows) _ n) [
    | inl k ↦ of_type of_training k
    | inr k ↦ of_type of_evaluation k
  ]
]
  where
    right : (a b : Bool) → (a && b) ≡ true → b ≡ true
    right a b h = ground arith

    of_type :
        (t : LeaseOwnerType)
        → Memᴰ r (select (queued_in t) rows)
        → Memᴰ r rows × (is_queued r ≡ true)
    of_type t n = let (k, h) = mem-select (queued_in t) r rows n in (k, right (table r == t) _ h)

same_owner-key :
    (owner : LeaseOwner) (s r : Row)
    → is_row_of owner s ≡ true
    → is_row_of owner r ≡ true
    → has_key s r ≡ true
same_owner-key owner s r h k =
    joined (eq_of_beq {a = table s} {b = owner.type} (left _ _ h))
      (eq_of_beq {a = table r} {b = owner.type} (left _ _ k))
      (eq_of_beq {a = (common s).id} {b = owner.id} (right (table s == owner.type) _ h))
      (eq_of_beq {a = (common r).id} {b = owner.id} (right (table r == owner.type) _ k))
  where
    left : (a b : Bool) → (a && b) ≡ true → a ≡ true
    left a b h = ground arith

    right : (a b : Bool) → (a && b) ≡ true → b ≡ true
    right a b h = ground arith

    joined :
        table s ≡ owner.type
        → table r ≡ owner.type
        → (common s).id ≡ owner.id
        → (common r).id ≡ owner.id
        → has_key s r ≡ true
    joined a b c d = rw (a, b, c, d, beq_refl owner.type, beq_refl owner.id) refl

-- The row that was stored is the row that is read.
pub get_row-put_row :
    (owner : LeaseOwner) (r x : Row) (rows : List Row)
    → is_row_of owner r ≡ true
    → get_row owner (put_row r rows) ≡ some x
    → x ≡ r
unfolding get_row put_row
get_row-put_row owner r x [] h e = absurd (cc)
get_row-put_row owner r x (s ∷ rows) h e = elim (Bool-cases (has_key s r)) [
  | inl same ↦ cc (rw (same, h) at e)
  | inr other ↦ elim (Bool-cases (is_row_of owner s)) [
    | inl found ↦ absurd (false≢true (sym other ∙ same_owner-key owner s r found h))
    | inr skip ↦ get_row-put_row owner r x rows h (rw (other, skip) at e)
  ]
]
