-- ===== src/Leases/Stale.antt =====
-- An owner with leases of another generation cannot acquire any.
use open_llmops.Prelude.{
  ℕ, ◌≡◌, refl, ◌∙◌, Bool, true, false, ◌&&◌, not, List, [], ◌∷◌, map, ◌==◌, nat_eq, ℤ, int_eq,
  int_leb, arith, any, all, ok, err, select, sort_by, any-select, any-sort_by, list_beq,
  sort_by-perm,
}
use open_llmops.Leases.{
  Lease, Leases, LeaseOwner, lease_invariant, try_acquire_locked, acquire_owned, is_owned_by,
  gpu_before, normalize_gpu_ids,
}
use open_llmops.Leases.Normal.{IsRequest, normalize-IsRequest, sort-IsAscending}

-- The lease is of the owner, and of another generation.
abbrev pub is_stale : LeaseOwner → Lease → Bool
is_stale owner l = is_owned_by owner l && not (l.generation == owner.generation)

all-false : (q : Lease → Bool) (t : Leases) → any (λ l. not (q l)) t ≡ true → all q t ≡ false
all-false q [] h = absurd (cc)
all-false q (l ∷ t) h = ground (arith, all-false q t)

module _ (ttl now : ℕ) (owner : LeaseOwner) (others : Leases → Leases) (group : ℕ)
    (requested : List ℤ) (t : Leases) where
  owned-stale :
      (o : Leases)
      → any (λ l. not (l.generation == owner.generation)) o ≡ true
      → acquire_owned ttl now owner others group requested o t ≡ err lease_invariant
  owned-stale [] h = absurd (cc)
  owned-stale (l ∷ ls) h = rw (
    all-false (λ m. m.generation == owner.generation) (l ∷ ls) h,
    and_false (list_beq (map (λ m. m.gpu_index) (l ∷ ls)) requested),
  )
    where
      and_false : (b : Bool) → (b && false) ≡ false
      and_false b = ground arith

pub try_acquire-stale :
    (ttl now : ℕ) (owner : LeaseOwner) (others : Leases → Leases) (group : ℕ) (gpu_ids : List ℤ)
    (t : Leases)
    → IsRequest gpu_ids
    → any (is_stale owner) t ≡ true
    → try_acquire_locked ttl now owner others group gpu_ids t ≡ err lease_invariant
unfolding try_acquire_locked
try_acquire-stale ttl now owner others group gpu_ids t request h = rw accepted (
    owned-stale ttl now owner others group (sort_by int_leb gpu_ids) t
      (sort_by gpu_before (select (is_owned_by owner) t))
      (any-sort_by gpu_before _ (select (is_owned_by owner) t)
        ∙ any-select (is_owned_by owner) _ t
        ∙ h))
  where
    accepted : normalize_gpu_ids gpu_ids ≡ ok (sort_by int_leb gpu_ids)
    accepted =
        (normalize-IsRequest gpu_ids (sort_by int_leb gpu_ids)).1
          (request, refl, sort-IsAscending gpu_ids, sort_by-perm int_leb gpu_ids)
