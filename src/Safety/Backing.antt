-- ===== src/Safety/Backing.antt =====
-- Which rows have their leases, and the facts on rows that every transaction's proof uses.
use open_llmops.Prelude.{
  ℕ, ◌≡◌, refl, sym, ◌∙◌, subst, any, any_congr, any-mem, Memᴰ, Bool, true, false, not, ◌&&◌,
  Option, some, List, [], ◌∷◌, ◌==◌, nat_eq, Bool-cases, inl, inr, arith, All, All-map, eq_of_beq,
  beq_refl,
}
use mathlib.Core.Path.{ap₂}
use mathlib.Core.Bool.{false≢true}
use open_llmops.Workloads.{Row, table, common, type_eq}
use open_llmops.Leases.{Lease, Leases, LeaseOwner, is_held_by, renew, release}
use open_llmops.Leases.Table.{holds, IsExclusive, holds-select, holds-renew, cards-renew}
use open_llmops.Reconciler.Database.{Database, get_row, put_row, is_row_of, is_active}

-- The owner of the leases that a row's current generation holds. (No query looks at the name.)
abbrev pub row_owner : Row → LeaseOwner
row_owner r = record {
  type = table r;
  id = (common r).id;
  name = "";
  generation = (common r).runtime_generation;
}

-- The row's generation holds a lease on every card of the row.
abbrev pub IsCovered : Leases → Row → Type 0
IsCovered t r = All (λ g. holds t (row_owner r) g ≡ true) (common r).gpu_ids

-- A workload that may be running has its cards.
abbrev pub IsBacked : Leases → Row → Type 0
IsBacked t r = is_active r ≡ true → IsCovered t r

-- The two rows are the same in their table.
abbrev pub same_key : Row → Row → Bool
same_key r s = table r == table s && (common r).id == (common s).id

-- The primary key: no two rows are the same in their table.
abbrev pub IsKeyed : List Row → Type 0
IsKeyed [] = Unit
IsKeyed (r ∷ rows) = (any (same_key r) rows ≡ false) × IsKeyed rows

pub record IsSafe (db : Database) : Type 0 where
  pub exclusive : IsExclusive db.leases
  pub keyed : IsKeyed db.rows
  pub backed : All (IsBacked db.leases) db.rows

pub row_of-key :
    (owner : LeaseOwner) (r : Row)
    → is_row_of owner r ≡ true
    → (table r ≡ owner.type) × ((common r).id ≡ owner.id)
row_of-key owner r h = (
  eq_of_beq {a = table r} {b = owner.type} (left _ _ h),
  eq_of_beq {a = (common r).id} {b = owner.id} (right (table r == owner.type) _ h),
)
  where
    left : (a b : Bool) → (a && b) ≡ true → a ≡ true
    left a b h = ground arith

    right : (a b : Bool) → (a && b) ≡ true → b ≡ true
    right a b h = ground arith

same_key-swap : (r s k : Row) → same_key s k ≡ true → same_key r k ≡ same_key r s
same_key-swap r s k h = ap₂ (λ x y. table r == x && (common r).id == y) (sym types) (sym ids)
  where
    left : (a b : Bool) → (a && b) ≡ true → a ≡ true
    left a b h = ground arith

    right : (a b : Bool) → (a && b) ≡ true → b ≡ true
    right a b h = ground arith

    types : table s ≡ table k
    types = eq_of_beq {a = table s} {b = table k} (left _ ((common s).id == (common k).id) h)

    ids : (common s).id ≡ (common k).id
    ids = eq_of_beq {a = (common s).id} {b = (common k).id} (right (table s == table k) _ h)

same_key-left : (r s k : Row) → same_key s k ≡ true → same_key k r ≡ same_key s r
same_key-left r s k h = ap₂ (λ x y. x == table r && y == (common r).id) (sym types) (sym ids)
  where
    left : (a b : Bool) → (a && b) ≡ true → a ≡ true
    left a b h = ground arith

    right : (a b : Bool) → (a && b) ≡ true → b ≡ true
    right a b h = ground arith

    types : table s ≡ table k
    types = eq_of_beq {a = table s} {b = table k} (left _ ((common s).id == (common k).id) h)

    ids : (common s).id ≡ (common k).id
    ids = eq_of_beq {a = (common s).id} {b = (common k).id} (right (table s == table k) _ h)

any-put_row :
    (k r : Row) (rows : List Row) → any (same_key k) (put_row r rows) ≡ any (same_key k) rows
unfolding put_row
any-put_row k r [] = refl
any-put_row k r (s ∷ rows) = elim (Bool-cases (same_key s r)) [
  | inl same ↦ rw (same, any-put_row k r rows, same_key-swap k s r same)
  | inr other ↦ rw (other, any-put_row k r rows)
]

put_row-IsKeyed : (r : Row) (rows : List Row) → IsKeyed rows → IsKeyed (put_row r rows)
unfolding put_row
put_row-IsKeyed r [] u = tt
put_row-IsKeyed r (s ∷ rows) (new, u) = elim (Bool-cases (same_key s r)) [
  | inl same ↦ rw same (
    rw
        (
          any-put_row r r rows,
          any_congr (same_key r) (same_key s) (λ k. same_key-left k s r same) rows,
        )
        new,
    put_row-IsKeyed r rows u,
  )
  | inr other ↦ rw other (rw (any-put_row s r rows) new, put_row-IsKeyed r rows u)
]

-- A row of the table is found by its key.
pub get_row-mem :
    (owner : LeaseOwner) (rows : List Row) (r : Row)
    → IsKeyed rows
    → Memᴰ r rows
    → is_row_of owner r ≡ true
    → get_row owner rows ≡ some r
unfolding get_row
get_row-mem owner [] r u m h = elim m [ ]
get_row-mem owner (s ∷ rows) r u (Memᴰ.head e) h = rw (← e, h)
get_row-mem owner (s ∷ rows) r (new, u) (Memᴰ.tail m) h = elim (Bool-cases (is_row_of owner s)) [
  | inl same ↦ absurd (false≢true (sym new ∙ any-mem (same_key s) r rows m (both same)))
  | inr other ↦ rw other (get_row-mem owner rows r u m h)
]
  where
    both : is_row_of owner s ≡ true → same_key s r ≡ true
    both same =
        let (ts, is) = row_of-key owner s same in
        let (tr, ir) = row_of-key owner r h in
        rw (ts ∙ sym tr, is ∙ sym ir, beq_refl (table r), beq_refl (common r).id)

pub put_row-All :
    (P Q : Row → Type 0) (r : Row) (rows : List Row)
    → ((s : Row) → same_key s r ≡ false → P s → Q s)
    → Q r
    → All P rows
    → All Q (put_row r rows)
unfolding put_row
put_row-All P Q r [] f q h = tt
put_row-All P Q r (s ∷ rows) f q h = elim (Bool-cases (same_key s r)) [
  | inl same ↦ rw same (q, put_row-All P Q r rows f q h.1)
  | inr other ↦ rw other (f s other h.0, put_row-All P Q r rows f q h.1)
]

pub get_row-All :
    (P : Row → Type 0) (owner : LeaseOwner) (rows : List Row) (r : Row)
    → get_row owner rows ≡ some r
    → All P rows
    → P r × (is_row_of owner r ≡ true)
unfolding get_row
get_row-All P owner [] r e h = absurd (cc)
get_row-All P owner (s ∷ rows) r e h = elim (Bool-cases (is_row_of owner s)) [
  | inl same ↦
      let found : s ≡ r = some_eq (rw same at e) in
      (subst P found h.0, subst (λ x. is_row_of owner x ≡ true) found same)
  | inr other ↦ get_row-All P owner rows r (rw other at e) h.1
]
  where
    some_eq : ◌≡◌ {A = Option Row} (some s) (some r) → s ≡ r
    some_eq h = cc

-- A lease that two owners hold tells that they are of one row.
pub held_twice :
    (o p : LeaseOwner) (l : Lease)
    → is_held_by o l ≡ true
    → is_held_by p l ≡ true
    → (o.type == p.type && o.id == p.id) ≡ true
held_twice o p l h k =
    both (o.type == p.type) (o.id == p.id) (rw types (beq_refl p.type)) (rw ids (beq_refl p.id))
  where
    first : (a b c : Bool) → ((a && b) && c) ≡ true → a ≡ true
    first a b c h = ground arith

    second : (a b c : Bool) → ((a && b) && c) ≡ true → b ≡ true
    second a b c h = ground arith

    both : (a b : Bool) → a ≡ true → b ≡ true → (a && b) ≡ true
    both a b h k = ground arith

    types : o.type ≡ p.type
    types =
        sym (
          eq_of_beq {a = l.owner_type} {b = o.type}
            (first _ (l.owner_id == o.id) (l.generation == o.generation) h))
        ∙ eq_of_beq {a = l.owner_type} {b = p.type}
            (first _ (l.owner_id == p.id) (l.generation == p.generation) k)

    ids : o.id ≡ p.id
    ids =
        sym (
          eq_of_beq {a = l.owner_id} {b = o.id}
            (second (l.owner_type == o.type) _ (l.generation == o.generation) h))
        ∙ eq_of_beq {a = l.owner_id} {b = p.id}
            (second (l.owner_type == p.type) _ (l.generation == p.generation) k)

-- Releasing one owner's leases takes none from a row of another key.
pub IsCovered-release :
    (owner : LeaseOwner) (t : Leases) (s : Row)
    → (table s == owner.type && (common s).id == owner.id) ≡ false
    → IsCovered t s
    → IsCovered (release owner t).1 s
unfolding release
IsCovered-release owner t s other =
    All-map (λ g h. holds-select (λ l. not (is_held_by owner l)) (row_owner s) g t spared ∙ h)
      (common s).gpu_ids
  where
    spared : (l : Lease) → is_held_by (row_owner s) l ≡ true → not (is_held_by owner l) ≡ true
    spared l h = elim (Bool-cases (is_held_by owner l)) [
      | inl both ↦ absurd (false≢true (sym other ∙ held_twice (row_owner s) owner l h both))
      | inr not_held ↦ rw not_held
    ]

-- The row keeps what it claims: its key, its generation and its cards.
pub record IsSameClaim (r r' : Row) : Type 0 where
  pub owner : row_owner r' ≡ row_owner r
  pub gpu_ids : (common r').gpu_ids ≡ (common r).gpu_ids

pub IsCovered-claim : (t : Leases) (r r' : Row) → IsSameClaim r r' → IsCovered t r → IsCovered t r'
IsCovered-claim t r r' c h =
    subst (λ gs. All (λ g. holds t (row_owner r') g ≡ true) gs) (sym c.gpu_ids)
      (subst (λ o. All (λ g. holds t o g ≡ true) (common r).gpu_ids) (sym c.owner) h)

-- The stored row stands for the owner's row, so that rows of other keys are not the owner's.
pub other_row :
    (owner : LeaseOwner) (r s : Row)
    → table r ≡ owner.type
    → (common r).id ≡ owner.id
    → same_key s r ≡ false
    → (table s == owner.type && (common s).id == owner.id) ≡ false
other_row owner r s t i h =
    subst (λ u. (table s == u && (common s).id == owner.id) ≡ false) t
      (subst (λ u. (table s == table r && (common s).id == u) ≡ false) i h)

-- Renewing leases changes nothing that matters here.
pub IsSafe-renew :
    (p : Lease → Bool) (ttl now : ℕ) (rows : List Row) (t : Leases)
    → IsSafe (record { rows = rows; leases = t })
    → IsSafe (record { rows = rows; leases = renew p ttl now t })
IsSafe-renew p ttl now rows t safe = record {
  exclusive = rw (cards-renew p ttl now t) safe.exclusive;
  keyed = safe.keyed;
  backed =
      All-map
        (λ r b on.
          All-map (λ g h. holds-renew p ttl now (row_owner r) g t ∙ h) (common r).gpu_ids (b on))
        rows safe.backed;
}

-- One row is stored anew, and the leases of rows of other keys are all there.
pub IsSafe-put :
    (r' : Row) (rows : List Row) (t t' : Leases)
    → IsSafe (record { rows = rows; leases = t })
    → IsExclusive t'
    → ((s : Row) → same_key s r' ≡ false → IsCovered t s → IsCovered t' s)
    → IsBacked t' r'
    → IsSafe (record { rows = put_row r' rows; leases = t' })
IsSafe-put r' rows t t' safe exclusive others new = record {
  exclusive = exclusive;
  keyed = put_row-IsKeyed r' rows safe.keyed;
  backed =
      put_row-All (IsBacked t) (IsBacked t') r' rows (λ s k b on. others s k (b on)) new
        safe.backed;
}
