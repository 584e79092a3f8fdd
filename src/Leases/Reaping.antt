-- ===== src/Leases/Reaping.antt =====
-- Which leases `GPULeaseManager.reap_expired_locked` deletes.
use open_llmops.Prelude.{
  ℕ, ◌≡◌, refl, sym, ◌∙◌, ap, subst, Bool, true, false, not, ◌&&◌, ◌||◌, List, [], ◌∷◌, ◌==◌,
  nat_eq, int_eq, Bool-cases, inl, inr, arith, any, select, select_congr, select-select, select_all,
  any-sort_by, any-select, any_congr, Memᴰ, any-mem, sort_by, beq_refl, eq_of_beq, if◌then◌else◌,
}
use mathlib.Core.Bool.{false≢true}
use open_llmops.Leases.{
  Lease, Leases, LeaseOwner, Key, key_of, key_in, reap_each, reap_expired_locked, delete_lease,
  is_expired, expiry_before, put_owner, owner_of,
}
use open_llmops.Leases.Table.{IsExclusive, is_leased, elem-cards}

-- Some listed lease with a confirmed key is on the card of `m`.
abbrev is_hit : List Key → Leases → Lease → Bool
is_hit confirmed ls m = any (λ l. key_in (key_of l) confirmed && m.gpu_index == l.gpu_index) ls

reap_each-select :
    (confirmed : List Key) (ls : Leases) (owners : List LeaseOwner) (t : Leases)
    → (reap_each confirmed ls (owners, t)).1 ≡ select (λ m. not (is_hit confirmed ls m)) t
unfolding reap_each
reap_each-select confirmed [] owners t = sym (select_all (λ m. true) t (none_false t))
  where
    none_false : (u : Leases) → any (λ (m : Lease). not true) u ≡ false
    none_false [] = refl
    none_false (m ∷ u) = none_false u
reap_each-select confirmed (l ∷ ls) owners t = elim (Bool-cases (key_in (key_of l) confirmed)) [
  | inl hit ↦
      ap step hit
      ∙ reap_each-select confirmed ls (put_owner (owner_of l) owners) (delete_lease l t)
      ∙ select-select (λ m. not (m.gpu_index == l.gpu_index)) (λ m. not (is_hit confirmed ls m)) t
      ∙ select_congr _ _ t
          (λ m _. rw hit (de_morgan (m.gpu_index == l.gpu_index) (is_hit confirmed ls m)))
  | inr miss ↦
      ap step miss ∙ reap_each-select confirmed ls owners t ∙ select_congr _ _ t (λ m _. rw miss)
]
  where
    step : Bool → Leases
    step b =
        (reap_each confirmed ls
          (if b then (put_owner (owner_of l) owners, delete_lease l t) else (owners, t))).1

    de_morgan : (a b : Bool) → (not a && not b) ≡ not (a || b)
    de_morgan a b = ground arith

-- On a card that is leased once, a test of its leases is a test of that lease.
any-exclusive :
    (q : Lease → Bool) (t : Leases) (m : Lease)
    → IsExclusive t
    → Memᴰ m t
    → any (λ l. q l && m.gpu_index == l.gpu_index) t ≡ q m
any-exclusive q [] m x i = elim i [ ]
any-exclusive q (l ∷ t) m (fresh, x) (Memᴰ.head e) =
    subst (λ k. any (λ l. q l && k.gpu_index == l.gpu_index) (l ∷ t) ≡ q k) (sym e)
      (rw (beq_refl l.gpu_index, others) (unit (q l)))
  where
    unit : (b : Bool) → (b && true || false) ≡ b
    unit b = ground arith

    none :
        (u : Leases)
        → is_leased u l.gpu_index ≡ false
        → any (λ k. q k && l.gpu_index == k.gpu_index) u ≡ false
    none [] h = refl
    none (k ∷ u) h = elim (Bool-cases (l.gpu_index == k.gpu_index)) [
      | inl same ↦ absurd (
          false≢true (
            sym h
            ∙ any-mem (λ (j : Lease). j.gpu_index == l.gpu_index) k (k ∷ u) (Memᴰ.head refl)
                (rw (eq_of_beq {a = l.gpu_index} {b = k.gpu_index} same) (beq_refl k.gpu_index))))
      | inr differ ↦ rw differ (both (q k) _ (none u (tail (k.gpu_index == l.gpu_index) _ h)))
    ]
      where
        tail : (a b : Bool) → (a || b) ≡ false → b ≡ false
        tail a b h = ground arith

        both : (a b : Bool) → b ≡ false → (a && false || b) ≡ false
        both a b h = ground arith

    others : any (λ k. q k && l.gpu_index == k.gpu_index) t ≡ false
    others = none t (sym (elem-cards l.gpu_index t) ∙ fresh)
any-exclusive q (l ∷ t) m (fresh, x) (Memᴰ.tail i) =
    elim (Bool-cases (m.gpu_index == l.gpu_index)) [
      | inl same ↦ absurd (
          false≢true (
            sym fresh
            ∙ elem-cards l.gpu_index t
            ∙ any-mem (λ (j : Lease). j.gpu_index == l.gpu_index) m t i same))
      | inr differ ↦ rw differ (skip (q l) _ ∙ any-exclusive q t m x i)
    ]
  where
    skip : (a b : Bool) → (a && false || b) ≡ b
    skip a b = ground arith

-- If no card is leased twice, the leases that are deleted are those that have expired and whose
-- owner and generation are confirmed; the others stay, in their order.
pub reap-select :
    (now : ℕ) (confirmed : List Key) (t : Leases)
    → IsExclusive t
    → (reap_expired_locked now confirmed t).1
      ≡ select (λ l. not (is_expired now l && key_in (key_of l) confirmed)) t
unfolding reap_expired_locked
reap-select now confirmed t x =
    reap_each-select confirmed (sort_by expiry_before (select (is_expired now) t)) [] t
    ∙ select_congr _ _ t (λ m i. ap not (hit m i))
  where
    assoc : (a b c : Bool) → (a && (b && c)) ≡ ((a && b) && c)
    assoc a b c = ground arith

    hit :
        (m : Lease)
        → Memᴰ m t
        → is_hit confirmed (sort_by expiry_before (select (is_expired now) t)) m
          ≡ (is_expired now m && key_in (key_of m) confirmed)
    hit m i =
        any-sort_by expiry_before _ (select (is_expired now) t)
        ∙ any-select (is_expired now) _ t
        ∙ any_congr _ _ (λ l. assoc (is_expired now l) (key_in (key_of l) confirmed) _) t
        ∙ any-exclusive (λ l. is_expired now l && key_in (key_of l) confirmed) t m x i
