-- ===== src/Leases/Outcome.antt =====
-- How `GPULeaseManager.try_acquire_locked` can end.
use open_llmops.Prelude.{
  ℕ, ◌≡◌, refl, ◌∙◌, true, false, Option, some, none, List, [], ◌∷◌, map, ◌==◌, nat_eq, ℤ, int_eq,
  int_leb, arith, ok, >>=-eq-ok, select, sort_by, list_beq, all, head?,
}
use open_llmops.Leases.{
  Lease, Leases, LeaseOwner, LeaseAcquisition, insert_all, acquire_again, acquire_new,
  acquire_owned, inserted, try_acquire_locked, is_owned_by, conflicts, new_lease, gpu_before,
  normalize_gpu_ids, granted, refused, renew,
}
use open_llmops.Leases.Normal.{normalize_lem, IsRequest}

module _ (ttl now : ℕ) (owner : LeaseOwner) (others : Leases → Leases) (group : ℕ) where
  -- With `requested` in order: the owner's leases are renewed, an earlier lease blocks it, a lease
  -- that another transaction committed blocks it, or its rows are inserted.
  pub data Outcome (requested : List ℤ) (t : Leases) (a : LeaseAcquisition) (t' : Leases)
      : Type 0 where
    again :
        (l : Lease) (ls : Leases)
        → sort_by gpu_before (select (is_owned_by owner) t) ≡ l ∷ ls
        → list_beq (map (λ m. m.gpu_index) (l ∷ ls)) requested ≡ true
        → all (λ m. m.generation == owner.generation) (l ∷ ls) ≡ true
        → a ≡ granted requested l.lease_group_id true
        → t' ≡ renew (is_owned_by owner) ttl now t
        → Outcome requested t a t'
    blocked :
        (l : Lease) (ls : Leases)
        → sort_by gpu_before (select (is_owned_by owner) t) ≡ []
        → conflicts requested t ≡ l ∷ ls
        → a ≡ refused requested (some l)
        → t' ≡ t
        → Outcome requested t a t'
    raced :
        sort_by gpu_before (select (is_owned_by owner) t) ≡ []
        → conflicts requested t ≡ []
        → insert_all (map (new_lease ttl now group owner) requested) (others t) ≡ none
        → a ≡ refused requested (head? (conflicts requested (others t)))
        → t' ≡ others t
        → Outcome requested t a t'
    fresh :
        sort_by gpu_before (select (is_owned_by owner) t) ≡ []
        → conflicts requested t ≡ []
        → insert_all (map (new_lease ttl now group owner) requested) (others t) ≡ some t'
        → a ≡ granted requested group false
        → Outcome requested t a t'

  module _ (requested : List ℤ) (t : Leases) (a : LeaseAcquisition) (t' : Leases) where
    again-Outcome :
        (l : Lease) (ls : Leases)
        → sort_by gpu_before (select (is_owned_by owner) t) ≡ l ∷ ls
        → acquire_again ttl now owner requested l ls t ≡ ok (a, t')
        → Outcome requested t a t'
    again-Outcome l ls owned e =
        again l ls owned (ground arith) (ground arith) (ground arith) (ground arith)

    inserted-Outcome :
        (o : Option Leases)
        → sort_by gpu_before (select (is_owned_by owner) t) ≡ []
        → conflicts requested t ≡ []
        → insert_all (map (new_lease ttl now group owner) requested) (others t) ≡ o
        → inserted ttl now owner group requested o (others t) ≡ ok (a, t')
        → Outcome requested t a t'
    inserted-Outcome (some u) owned free ins e = fresh owned free (ins ∙ cc) (cc)
    inserted-Outcome none owned free ins e = raced owned free ins (cc) (cc)

    new-Outcome :
        (c : Leases)
        → sort_by gpu_before (select (is_owned_by owner) t) ≡ []
        → conflicts requested t ≡ c
        → acquire_new ttl now owner others group requested c t ≡ ok (a, t')
        → Outcome requested t a t'
    new-Outcome (l ∷ ls) owned busy e = blocked l ls owned busy (cc) (cc)
    new-Outcome [] owned free e = inserted-Outcome _ owned free refl e

    owned-Outcome :
        (o : Leases)
        → sort_by gpu_before (select (is_owned_by owner) t) ≡ o
        → acquire_owned ttl now owner others group requested o t ≡ ok (a, t')
        → Outcome requested t a t'
    owned-Outcome (l ∷ ls) owned e = again-Outcome l ls owned e
    owned-Outcome [] owned e = new-Outcome _ owned refl e

  pub try_acquire-Outcome :
      (gpu_ids : List ℤ) (t : Leases) (a : LeaseAcquisition) (t' : Leases)
      → try_acquire_locked ttl now owner others group gpu_ids t ≡ ok (a, t')
      → IsRequest gpu_ids × Outcome (sort_by int_leb gpu_ids) t a t'
  unfolding try_acquire_locked
  try_acquire-Outcome gpu_ids t a t' e =
      let (r, normal, rest) = >>=-eq-ok (normalize_gpu_ids gpu_ids) _ e in
      let (same, request) = normalize_lem gpu_ids r normal in
      (request, owned-Outcome (sort_by int_leb gpu_ids) t a t' _ refl (rw same at rest))
