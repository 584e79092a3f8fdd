-- ===== src/Leases/Acquire.antt =====
-- What an attempt to acquire does to the leases that are there, and what it grants.
use mathlib.Core.Bool.{false≢true}
use mathlib.Core.List.{append-nil, append_assoc}
use open_llmops.Prelude.{
  ℕ, ◌≡◌, refl, sym, ◌∙◌, ap, ◌⊎◌, inl, inr, Bool, true, false, ◌&&◌, ◌||◌, some, List, [], ◌∷◌,
  ◌++◌, map, ◌==◌, nat_eq, ℤ, int_eq, int_leb, Bool-cases, arith, any, ok, select, sort_by, elem,
  any-append, any-map, any-select, any-sort_by, any_mono, any-and-all, all, beq_refl, eq_of_beq,
  eq_of_list_beq, list_beq, select_none, IsDistinct, All, All-of-elem, All-elem, All-map,
  IsDistinct-sort_by, sort_by-perm,
}
use open_llmops.Workloads.{type_eq}
use open_llmops.Leases.{
  Lease, Leases, LeaseOwner, LeaseAcquisition, insert_all, try_acquire_locked, is_owned_by,
  is_held_by, new_lease, gpu_before, granted, normalize_gpu_ids,
}
use open_llmops.Leases.Table.{holds, is_leased, holds-renew}
use open_llmops.Leases.Normal.{IsRequest, normalize-IsRequest, sort-IsAscending}
use open_llmops.Leases.Outcome.{Outcome, again, blocked, raced, fresh, try_acquire-Outcome}
use open_llmops.Leases.Exclusive.{insert_all-append}

held_new_lease :
    (ttl now group : ℕ) (owner : LeaseOwner) (g : ℤ)
    → is_held_by owner (new_lease ttl now group owner g) ≡ true
held_new_lease ttl now group owner g =
    rw (beq_refl owner.type, beq_refl owner.id, beq_refl owner.generation)

module _ (ttl now : ℕ) (owner : LeaseOwner) (others : Leases → Leases) (group : ℕ) where
  -- The rows that were inserted hold what was requested.
  holds_inserted :
      (requested : List ℤ) (g : ℤ) (t : Leases)
      → elem g requested ≡ true
      → holds (t ++ map (new_lease ttl now group owner) requested) owner g ≡ true
  holds_inserted requested g t m =
      rw
        (
          any-append (λ l. l.gpu_index == g && is_held_by owner l) t
              (map (new_lease ttl now group owner) requested),
          any-map (λ l. l.gpu_index == g && is_held_by owner l) (new_lease ttl now group owner)
              requested,
        )
        (or_right (holds t owner g) _ (any_mono (λ x. x == g) _ found requested m))
    where
      or_right : (b c : Bool) → c ≡ true → (b || c) ≡ true
      or_right b c h = ground arith

      found :
          (x : ℤ)
          → (x == g) ≡ true
          → (x == g && is_held_by owner (new_lease ttl now group owner x)) ≡ true
      found x e = rw (e, held_new_lease ttl now group owner x)

  -- Leases of one owner, all of the owner's generation, that cover the request.
  holds_owned :
      (requested : List ℤ) (g : ℤ) (t : Leases) (o : Leases)
      → sort_by gpu_before (select (is_owned_by owner) t) ≡ o
      → list_beq (map (λ l. l.gpu_index) o) requested ≡ true
      → all (λ l. l.generation == owner.generation) o ≡ true
      → elem g requested ≡ true
      → holds t owner g ≡ true
  holds_owned requested g t o owned covers same m = any_mono _ _ regroup t (
      sym (any-select (is_owned_by owner) here t)
      ∙ sym (any-sort_by gpu_before here (select (is_owned_by owner) t))
      ∙ ap (any here) owned
      ∙ any-and-all (λ l. l.gpu_index == g) (λ l. l.generation == owner.generation) o listed same)
    where
      here : Lease → Bool
      here l = l.gpu_index == g && l.generation == owner.generation

      listed : any (λ (l : Lease). l.gpu_index == g) o ≡ true
      listed =
          sym (any-map (λ x. x == g) (λ (l : Lease). l.gpu_index) o)
          ∙ ap (elem g) (eq_of_list_beq _ requested covers)
          ∙ m

      regroup :
          (l : Lease)
          → (is_owned_by owner l && here l) ≡ true
          → (l.gpu_index == g && is_held_by owner l) ≡ true
      regroup l h = bools (is_owned_by owner l) (l.gpu_index == g) _ h
        where
          bools : (a b c : Bool) → (a && (b && c)) ≡ true → (b && (a && c)) ≡ true
          bools a b c h = ground arith

  -- An attempt that succeeds leaves the owner with a lease on every card of the request.
  Outcome-holds :
      (requested : List ℤ) (t : Leases) (a : LeaseAcquisition) (t' : Leases)
      → Outcome ttl now owner others group requested t a t'
      → a.acquired ≡ true
      → (g : ℤ) → elem g requested ≡ true
      → holds t' owner g ≡ true
  Outcome-holds requested t a t' (again l ls owned covers same _ e) _ g m =
      rw (e, holds-renew (is_owned_by owner) ttl now owner g t)
        (holds_owned requested g t (l ∷ ls) owned covers same m)
  Outcome-holds requested t a t' (blocked l ls _ _ e _) q g m = absurd (cc)
  Outcome-holds requested t a t' (raced _ _ _ e _) q g m = absurd (cc)
  Outcome-holds requested t a t' (fresh _ _ ins _) _ g m =
      rw (insert_all-append _ (others t) t' ins) (holds_inserted requested g (others t) m)

  -- Nobody loses a lease, unless another transaction takes it.
  Outcome-keeps :
      (requested : List ℤ) (t : Leases) (a : LeaseAcquisition) (t' : Leases)
      → Outcome ttl now owner others group requested t a t'
      → (o : LeaseOwner) (g : ℤ) → (holds t o g ≡ true → holds (others t) o g ≡ true)
      → holds t o g ≡ true
      → holds t' o g ≡ true
  Outcome-keeps requested t a t' (again _ _ _ _ _ _ e) o g keep h =
      rw (e, holds-renew (is_owned_by owner) ttl now o g t) h
  Outcome-keeps requested t a t' (blocked _ _ _ _ _ e) o g keep h = rw e h
  Outcome-keeps requested t a t' (raced _ _ _ _ e) o g keep h = rw e (keep h)
  Outcome-keeps requested t a t' (fresh _ _ ins _) o g keep h = rw (
    insert_all-append _ (others t) t' ins,
    any-append (λ l. l.gpu_index == g && is_held_by o l) (others t)
        (map (new_lease ttl now group owner) requested),
    keep h,
  )

-- An attempt that succeeds leaves the owner with a lease on every card that it asked for, of its
-- own generation. One that fails inserts nothing: the table is as it was, or as other
-- transactions made it.
pub try_acquire-whole :
    (ttl now : ℕ) (owner : LeaseOwner) (others : Leases → Leases) (group : ℕ) (gpu_ids : List ℤ)
    (t : Leases) (a : LeaseAcquisition) (t' : Leases)
    → try_acquire_locked ttl now owner others group gpu_ids t ≡ ok (a, t')
    → (a.acquired ≡ true) × All (λ g. holds t' owner g ≡ true) gpu_ids
      ⊎ (a.acquired ≡ false) × ((t' ≡ t) ⊎ (t' ≡ others t))
try_acquire-whole ttl now owner others group gpu_ids t a t' e =
    let (_, o) = try_acquire-Outcome ttl now owner others group gpu_ids t a t' e in end o
  where
    all_held :
        a.acquired ≡ true
        → Outcome ttl now owner others group (sort_by int_leb gpu_ids) t a t'
        → All (λ g. holds t' owner g ≡ true) gpu_ids
    all_held q o =
        All-of-elem (λ g. holds t' owner g ≡ true) gpu_ids
          λ g m.
            Outcome-holds ttl now owner others group (sort_by int_leb gpu_ids) t a t' o q g
              (any-sort_by int_leb (λ x. x == g) gpu_ids ∙ m)

    end :
        Outcome ttl now owner others group (sort_by int_leb gpu_ids) t a t'
        → (a.acquired ≡ true) × All (λ g. holds t' owner g ≡ true) gpu_ids
          ⊎ (a.acquired ≡ false) × ((t' ≡ t) ⊎ (t' ≡ others t))
    end (again l ls owned covers same q e) =
        inl (rw q, all_held (rw q) (again l ls owned covers same q e))
    end (blocked _ _ _ _ q e) = inr (rw q, inl e)
    end (raced _ _ _ q e) = inr (rw q, inr e)
    end (fresh owned free ins q) = inl (rw q, all_held (rw q) (fresh owned free ins q))

-- The scheduler's own view: no other transaction writes between the query and the insertion.
abbrev pub alone : Leases → Leases
alone t = t

conflicts_none :
    (requested : List ℤ) (t : Leases)
    → All (λ g. is_leased t g ≡ false) requested
    → any (λ l. elem l.gpu_index requested) t ≡ false
conflicts_none requested [] h = refl
conflicts_none requested (l ∷ t) h = elim (Bool-cases (elem l.gpu_index requested)) [
  | inl m ↦
      absurd (false_here (All-elem (λ g. is_leased (l ∷ t) g ≡ false) l.gpu_index requested h m))
  | inr m ↦ rw m (conflicts_none requested t (All-map (λ g k. ground arith) requested h))
]
  where
    false_here : is_leased (l ∷ t) l.gpu_index ≡ false → ⊥
    false_here k = false≢true (sym (rw (beq_refl l.gpu_index) at k))

insert_all_free :
    (ttl now group : ℕ) (owner : LeaseOwner) (requested : List ℤ) (t : Leases)
    → IsDistinct requested
    → All (λ g. is_leased t g ≡ false) requested
    → insert_all (map (new_lease ttl now group owner) requested) t
      ≡ some (t ++ map (new_lease ttl now group owner) requested)
unfolding insert_all
insert_all_free ttl now group owner [] t d h = rw append-nil
insert_all_free ttl now group owner (g ∷ gs) t (new, d) (free, h) = rw free (
    insert_all_free ttl now group owner gs (t ++ new_lease ttl now group owner g ∷ []) d still
    ∙ ap some (append_assoc t (new_lease ttl now group owner g ∷ []) _))
  where
    still : All (λ k. is_leased (t ++ new_lease ttl now group owner g ∷ []) k ≡ false) gs
    still = All-of-elem _ gs λ k m.
        rw
          (
            any-append (λ l. l.gpu_index == k) t (new_lease ttl now group owner g ∷ []),
            All-elem (λ x. is_leased t x ≡ false) k gs h m,
          )
          (other k m)
      where
        other : (k : ℤ) → elem k gs ≡ true → (g == k || false) ≡ false
        other k m = elim (Bool-cases (g == k)) [
          | inl same ↦ absurd (false≢true (sym new ∙ ap (λ x. elem x gs) (eq_of_beq same) ∙ m))
          | inr differ ↦ rw differ
        ]

-- If the request names cards, none of them twice or negative and none of them leased, and the
-- owner has no lease yet, then the scheduler alone grants it: one new row for each card, in
-- ascending order, behind the rows that are there.
pub try_acquire-free :
    (ttl now : ℕ) (owner : LeaseOwner) (group : ℕ) (gpu_ids : List ℤ) (t : Leases)
    → IsRequest gpu_ids
    → All (λ g. is_leased t g ≡ false) gpu_ids
    → any (is_owned_by owner) t ≡ false
    → try_acquire_locked ttl now owner alone group gpu_ids t
      ≡ ok (
        granted (sort_by int_leb gpu_ids) group false,
        t ++ map (new_lease ttl now group owner) (sort_by int_leb gpu_ids),
      )
unfolding try_acquire_locked
try_acquire-free ttl now owner group gpu_ids t request free unowned = rw (
  accepted,
  select_none (is_owned_by owner) t unowned,
  select_none (λ l. elem l.gpu_index sorted) t (conflicts_none sorted t sorted_free),
  insert_all_free ttl now group owner sorted t
      ((IsDistinct-sort_by int_leb gpu_ids).1 request.no_repeat) sorted_free,
)
  where
    sorted : List ℤ
    sorted = sort_by int_leb gpu_ids

    accepted : normalize_gpu_ids gpu_ids ≡ ok sorted
    accepted =
        (normalize-IsRequest gpu_ids sorted).1
          (request, refl, sort-IsAscending gpu_ids, sort_by-perm int_leb gpu_ids)

    sorted_free : All (λ g. is_leased t g ≡ false) sorted
    sorted_free = All-of-elem _ sorted λ g m.
        All-elem (λ x. is_leased t x ≡ false) g gpu_ids free
          (sym (any-sort_by int_leb (λ x. x == g) gpu_ids) ∙ m)

-- A lease that the other transactions leave alone is still held after an attempt to acquire.
pub try_acquire-keeps :
    (ttl now : ℕ) (owner : LeaseOwner) (others : Leases → Leases) (group : ℕ) (gpu_ids : List ℤ)
    (t : Leases) (a : LeaseAcquisition) (t' : Leases) (o : LeaseOwner) (g : ℤ)
    → (holds t o g ≡ true → holds (others t) o g ≡ true)
    → try_acquire_locked ttl now owner others group gpu_ids t ≡ ok (a, t')
    → holds t o g ≡ true
    → holds t' o g ≡ true
try_acquire-keeps ttl now owner others group gpu_ids t a t' o g keep e h =
    Outcome-keeps ttl now owner others group (sort_by int_leb gpu_ids) t a t'
      (try_acquire-Outcome ttl now owner others group gpu_ids t a t' e).1 o g keep h
