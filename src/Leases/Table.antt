-- ===== src/Leases/Table.antt =====
-- Which leases a table holds, and what renewing and deleting rows does to that.
use open_llmops.Prelude.{
  ℕ, ◌≡◌, refl, Bool, true, false, ◌&&◌, List, [], ◌∷◌, map, ◌==◌, nat_eq, ℤ, int_eq, Bool-cases,
  inl, inr, arith, any, select, any-select, any_mono, any_congr, elem, IsDistinct, any-map, ap,
}
use open_llmops.Workloads.{type_eq}
use open_llmops.Leases.{Lease, Leases, LeaseOwner, is_held_by, renew}

-- Some lease on the card belongs to the owner, of the owner's generation.
abbrev pub holds : Leases → LeaseOwner → ℤ → Bool
holds t owner g = any (λ l. l.gpu_index == g && is_held_by owner l) t

-- The card is leased.
abbrev pub is_leased : Leases → ℤ → Bool
is_leased t g = any (λ l. l.gpu_index == g) t

abbrev pub cards : Leases → List ℤ
cards t = map (λ l. l.gpu_index) t

-- No card is leased twice.
abbrev pub IsExclusive : Leases → Type 0
IsExclusive t = IsDistinct (cards t)

pub elem-cards : (g : ℤ) (t : Leases) → elem g (cards t) ≡ is_leased t g
elem-cards g t = any-map (λ x. x == g) (λ l. l.gpu_index) t

module _ (p : Lease → Bool) (ttl now : ℕ) where
  pub cards-renew : (t : Leases) → cards (renew p ttl now t) ≡ cards t
  cards-renew [] = refl
  cards-renew (l ∷ t) = elim (Bool-cases (p l)) [
    | inl e ↦ rw e (ap (λ xs. l.gpu_index ∷ xs) (cards-renew t))
    | inr e ↦ rw e (ap (λ xs. l.gpu_index ∷ xs) (cards-renew t))
  ]

  pub holds-renew :
      (owner : LeaseOwner) (g : ℤ) (t : Leases)
      → holds (renew p ttl now t) owner g ≡ holds t owner g
  holds-renew owner g [] = refl
  holds-renew owner g (l ∷ t) = elim (Bool-cases (p l)) [
    | inl e ↦ rw (e, holds-renew owner g t)
    | inr e ↦ rw (e, holds-renew owner g t)
  ]

-- A deletion by a test that spares the owner's leases.
pub holds-select :
    (p : Lease → Bool) (owner : LeaseOwner) (g : ℤ) (t : Leases)
    → ((l : Lease) → is_held_by owner l ≡ true → p l ≡ true)
    → holds (select p t) owner g ≡ holds t owner g
holds-select p owner g t keep =
    rw (any-select p (λ l. l.gpu_index == g && is_held_by owner l) t) (any_congr _ _ same t)
  where
    same :
        (l : Lease)
        → (p l && (l.gpu_index == g && is_held_by owner l))
          ≡ (l.gpu_index == g && is_held_by owner l)
    same l = elim (Bool-cases (is_held_by owner l)) [
      | inl e ↦ rw (e, keep l e)
      | inr e ↦ rw e (ground arith)
    ]

pub leased-select :
    (p : Lease → Bool) (g : ℤ) (t : Leases)
    → is_leased t g ≡ false
    → is_leased (select p t) g ≡ false
leased-select p g [] h = refl
leased-select p g (l ∷ t) h = elim (Bool-cases (p l)) [
  | inl e ↦ rw e (ground (arith, leased-select p g t))
  | inr e ↦ rw e (ground (arith, leased-select p g t))
]

pub IsExclusive-select : (p : Lease → Bool) (t : Leases) → IsExclusive t → IsExclusive (select p t)
IsExclusive-select p [] d = tt
IsExclusive-select p (l ∷ t) (fresh, d) = elim (Bool-cases (p l)) [
  | inl e ↦ rw e (
    rw (elem-cards l.gpu_index (select p t))
        (leased-select p l.gpu_index t (rw (elem-cards l.gpu_index t) at fresh)),
    IsExclusive-select p t d,
  )
  | inr e ↦ rw e (IsExclusive-select p t d)
]

pub holds→leased :
    (t : Leases) (owner : LeaseOwner) (g : ℤ) → holds t owner g ≡ true → is_leased t g ≡ true
holds→leased t owner g h = any_mono _ _ (λ l e. ground (arith, Bool-cases (l.gpu_index == g))) t h
