-- ===== src/Leases/Normal.antt =====
-- What `GPULeaseManager._normalize_gpu_ids` accepts, and what it returns.
use mathlib.Core.List.{Perm}
use mathlib.Core.List.Perm
use open_llmops.Prelude.{
  ◌≡◌, refl, sym, subst, ◌∙◌, ◌≢◌, ◌↔◌, inl, inr, true, false, List, [], ◌∷◌, ◌==◌, nat_eq, ℤ,
  int_eq, int_leb, is_negative, Result, ok, arith, Bool-cases, length, any, All, All-map, pos,
  negsuc, distinct, IsDistinct, sort_by, insert_by, sort_by-perm, any-sort_by, length-distinct-of,
  IsDistinct-of-length, IsDistinct-sort_by, eq_of_beq, beq_refl,
}
use open_llmops.Leases.{LeaseError, check_gpu_ids, normalize_gpu_ids}

-- Each number is at most those behind it.
abbrev pub IsAscending : List ℤ → Type 0
IsAscending [] = Unit
IsAscending (g ∷ gs) = All (λ h. int_leb g h ≡ true) gs × IsAscending gs

leb_total : (a b : ℤ) → int_leb a b ≡ false → int_leb b a ≡ true
leb_total (pos a) (pos b) h = ground arith
leb_total (pos a) (negsuc b) h = refl
leb_total (negsuc a) (pos b) h = ground arith
leb_total (negsuc a) (negsuc b) h = ground arith

leb_trans : (a b c : ℤ) → int_leb a b ≡ true → int_leb b c ≡ true → int_leb a c ≡ true
leb_trans (pos a) (pos b) (pos c) h k = ground arith
leb_trans (pos a) (pos b) (negsuc c) h k = ground arith
leb_trans (pos a) (negsuc b) c h k = ground arith
leb_trans (negsuc a) b (pos c) h k = refl
leb_trans (negsuc a) (pos b) (negsuc c) h k = ground arith
leb_trans (negsuc a) (negsuc b) (negsuc c) h k = ground arith

All-insert :
    (P : ℤ → Type 0) (a : ℤ) (gs : List ℤ) → P a → All P gs → All P (insert_by int_leb a gs)
All-insert P a [] p h = (p, tt)
All-insert P a (g ∷ gs) p h = elim (Bool-cases (int_leb a g)) [
  | inl le ↦ rw le (p, h)
  | inr gt ↦ rw gt (h.0, All-insert P a gs p h.1)
]

insert-IsAscending : (a : ℤ) (gs : List ℤ) → IsAscending gs → IsAscending (insert_by int_leb a gs)
insert-IsAscending a [] s = (tt, tt)
insert-IsAscending a (g ∷ gs) s = elim (Bool-cases (int_leb a g)) [
  | inl le ↦ rw le ((le, All-map (λ h. leb_trans a g h le) gs s.0), s)
  | inr gt ↦ rw gt (
    All-insert (λ h. int_leb g h ≡ true) a gs (leb_total a g gt) s.0,
    insert-IsAscending a gs s.1,
  )
]

pub sort-IsAscending : (gs : List ℤ) → IsAscending (sort_by int_leb gs)
sort-IsAscending [] = tt
sort-IsAscending (g ∷ gs) = insert-IsAscending g (sort_by int_leb gs) (sort-IsAscending gs)

-- A request for cards: some card, none of them negative, none named twice.
pub record IsRequest (gpu_ids : List ℤ) : Type 0 where
  pub some_gpu : gpu_ids ≢ []
  pub non_negative : any is_negative gpu_ids ≡ false
  pub no_repeat : IsDistinct gpu_ids

none_negative :
    (g : ℤ) (gs : List ℤ)
    → is_negative g ≡ false
    → All (λ h. int_leb g h ≡ true) gs
    → any is_negative gs ≡ false
none_negative g [] h a = refl
none_negative (pos g) (pos k ∷ gs) h a = none_negative (pos g) gs h a.1
none_negative (pos g) (negsuc k ∷ gs) h a = absurd (cc)
none_negative (negsuc g) (k ∷ gs) h a = absurd (cc)

check-IsRequest :
    (gs : List ℤ)
    → IsAscending gs
    → (r : List ℤ) → check_gpu_ids gs ≡ ok r
    → (r ≡ gs) × IsRequest gs
check-IsRequest [] s r e = absurd (cc)
check-IsRequest (g ∷ gs) s r e = elim (Bool-cases (is_negative g)) [
  | inl low ↦ absurd (cc (rw low at e))
  | inr high ↦ elim (Bool-cases (length (g ∷ gs) == length (distinct (g ∷ gs)))) [
    | inl same ↦ (
      sym (ok-injective (rw (high, same) at e)),
      record {
        some_gpu = cc;
        non_negative = rw high (none_negative g gs high s.0);
        no_repeat = IsDistinct-of-length (g ∷ gs) (sym (eq_of_beq same));
      },
    )
    | inr other ↦ absurd (cc (rw (high, other) at e))
  ]
]
  where
    ok-injective : {a b : List ℤ} → ◌≡◌ {A = Result LeaseError (List ℤ)} (ok a) (ok b) → a ≡ b
    ok-injective h = cc

check-accepts : (gs : List ℤ) → IsRequest gs → check_gpu_ids gs ≡ ok gs
check-accepts [] r = absurd (r.some_gpu refl)
check-accepts (g ∷ gs) r = elim (Bool-cases (is_negative g)) [
  | inl low ↦ absurd (cc (rw low at r.non_negative))
  | inr high ↦ rw (high, length-distinct-of (g ∷ gs) r.no_repeat, beq_refl (length (g ∷ gs)))
]

sort-IsRequest : (gs : List ℤ) → IsRequest (sort_by int_leb gs) ↔ IsRequest gs
sort-IsRequest gs = (
  (λ r. record {
    some_gpu = λ e. r.some_gpu (rw e);
    non_negative = sym (any-sort_by int_leb is_negative gs) ∙ r.non_negative;
    no_repeat = (IsDistinct-sort_by int_leb gs).0 r.no_repeat;
  }),
  (λ r. record {
    some_gpu = λ e.
        r.some_gpu (Perm.eq-nil (subst (λ s. Perm gs s) e (Perm.symm (sort_by-perm int_leb gs))));
    non_negative = any-sort_by int_leb is_negative gs ∙ r.non_negative;
    no_repeat = (IsDistinct-sort_by int_leb gs).1 r.no_repeat;
  }),
)

pub normalize_lem :
    (gs r : List ℤ) → normalize_gpu_ids gs ≡ ok r → (r ≡ sort_by int_leb gs) × IsRequest gs
unfolding normalize_gpu_ids
normalize_lem gs r e =
    let (same, ok_sorted) = check-IsRequest (sort_by int_leb gs) (sort-IsAscending gs) r e in
    (same, (sort-IsRequest gs).0 ok_sorted)

-- A request is accepted exactly when it names some card, no negative number and no card twice.
-- What is returned then are the numbers of the request, in ascending order.
pub normalize-IsRequest :
    (gs r : List ℤ)
    → (normalize_gpu_ids gs ≡ ok r)
      ↔ (IsRequest gs × (r ≡ sort_by int_leb gs) × IsAscending r × Perm r gs)
unfolding normalize_gpu_ids
normalize-IsRequest gs r = (
  (λ e.
      let (same, req) = normalize_lem gs r e in
      (req, same, rw same (sort-IsAscending gs), rw same (sort_by-perm int_leb gs))),
  (λ (req, same, _, _). rw same (check-accepts (sort_by int_leb gs) ((sort-IsRequest gs).1 req))),
)
