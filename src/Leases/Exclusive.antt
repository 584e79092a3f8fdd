-- ===== src/Leases/Exclusive.antt =====
-- No operation on leases gives a card to two of them.
use open_llmops.Prelude.{
  ℕ, ◌≡◌, ◌∙◌, not, int_leb, some, List, [], ◌∷◌, ◌++◌, ℤ, int_eq, Bool-cases, inl, inr, arith, ok,
  sort_by, IsDistinct-snoc,
}
use mathlib.Core.List.{append_assoc, map-append, append-nil}
use open_llmops.Leases.{
  Lease, Leases, LeaseOwner, LeaseAcquisition, insert_all, try_acquire_locked, heartbeat, release,
  is_owned_by, is_held_by,
}
use open_llmops.Leases.Outcome.{Outcome, again, blocked, raced, fresh, try_acquire-Outcome}
use open_llmops.Leases.Table.{
  IsExclusive, cards, is_leased, elem-cards, cards-renew, IsExclusive-select,
}

pub insert_all-append : (ls t t' : Leases) → insert_all ls t ≡ some t' → t' ≡ t ++ ls
unfolding insert_all
insert_all-append [] t t' e = rw append-nil (cc)
insert_all-append (l ∷ ls) t t' e = elim (Bool-cases (is_leased t l.gpu_index)) [
  | inl used ↦ absurd (cc (rw used at e))
  | inr free ↦ insert_all-append ls (t ++ l ∷ []) t' (rw free at e) ∙ append_assoc t (l ∷ []) ls
]

pub insert_all-IsExclusive :
    (ls t t' : Leases) → insert_all ls t ≡ some t' → IsExclusive t → IsExclusive t'
unfolding insert_all
insert_all-IsExclusive [] t t' e x = ground arith
insert_all-IsExclusive (l ∷ ls) t t' e x = elim (Bool-cases (is_leased t l.gpu_index)) [
  | inl used ↦ absurd (cc (rw used at e))
  | inr free ↦ insert_all-IsExclusive ls (t ++ l ∷ []) t' (rw free at e) (
      rw (map-append (λ (m : Lease). m.gpu_index) t (l ∷ []))
        (IsDistinct-snoc (cards t) l.gpu_index x (elem-cards l.gpu_index t ∙ free)))
]

-- If no card is leased twice, and the transactions that interleave keep it so (the table's unique
-- constraint), then no card is leased twice after an attempt to acquire that returns.
pub try_acquire-IsExclusive :
    (ttl now : ℕ) (owner : LeaseOwner) (others : Leases → Leases) (group : ℕ) (gpu_ids : List ℤ)
    (t : Leases) (a : LeaseAcquisition) (t' : Leases)
    → ((u : Leases) → IsExclusive u → IsExclusive (others u))
    → IsExclusive t
    → try_acquire_locked ttl now owner others group gpu_ids t ≡ ok (a, t')
    → IsExclusive t'
try_acquire-IsExclusive ttl now owner others group gpu_ids t a t' keep x e =
    end (try_acquire-Outcome ttl now owner others group gpu_ids t a t' e).1
  where
    end : Outcome ttl now owner others group (sort_by int_leb gpu_ids) t a t' → IsExclusive t'
    end (again _ _ _ _ _ _ e) = rw (e, cards-renew (is_owned_by owner) ttl now t) x
    end (blocked _ _ _ _ _ e) = rw e x
    end (raced _ _ _ _ e) = rw e (keep t x)
    end (fresh _ _ ins _) = insert_all-IsExclusive _ (others t) t' ins (keep t x)

pub heartbeat-IsExclusive :
    (ttl now : ℕ) (owner : LeaseOwner) (t : Leases)
    → IsExclusive t
    → IsExclusive (heartbeat ttl now owner t).1
unfolding heartbeat
heartbeat-IsExclusive ttl now owner t x = rw (cards-renew (is_held_by owner) ttl now t) x

pub release-IsExclusive :
    (owner : LeaseOwner) (t : Leases) → IsExclusive t → IsExclusive (release owner t).1
unfolding release
release-IsExclusive owner t x = IsExclusive-select (λ l. not (is_held_by owner l)) t x
