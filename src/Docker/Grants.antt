-- ===== src/Docker/Grants.antt =====
-- What `gpu_allocations` finds, and what a passed check of free cards means.
use open_llmops.Prelude.{
  ◌≡◌, ◌⊎◌, inl, inr, refl, sym, ◌∙◌, ap, subst, String, Bool, true, false, ◌&&◌, ◌||◌, Option,
  some, none, List, [], ◌∷◌, Result, ok, ℤ, elem, int_eq, string_eq, nat_eq, ◌==◌, arith,
  Bool-cases, if◌then◌else◌, find, put, find-put, find-put_other, eq_of_beq, beq_refl, length,
  select,
}
use open_llmops.Docker.Labels.{Texts, is_active_status, is_managed, gpu_ids_from_labels}
use open_llmops.Docker.Info.{Container}
use open_llmops.Docker.Engine.{Failure, Engine, return, lifted}
use open_llmops.Docker.Allocate.{
  Settings, put_all, is_other, allocated, allocate, gpu_allocations, check_busy,
  assert_gpus_available,
}
use open_llmops.Docker.Moves.{
  IsQuiet, IsQuiet-refl, IsQuiet-trans, IsDocker, uses, Uses, IsExclusive, IsQuiet-Uses,
  IsQuiet-exclusive,
}
use open_llmops.Docker.Returns.{
  after-eq-ok, IsSeen, inspect-IsSeen, IsListed, IsListed-IsQuiet, list-IsListed,
}

find-put_if :
    (k l : ℤ) (v : String) (d : List (ℤ × String))
    → find l (put k v d) ≡ (if k == l then some v else find l d)
find-put_if k l v d = elim (Bool-cases (k == l)) [
  | inl same ↦ rw (same, ← eq_of_beq {a = k} {b = l} same) (find-put k v d)
  | inr other ↦ rw other (find-put_other k l v d other)
]

pub find-put_all :
    (g : ℤ) (gs : List ℤ) (name : String) (d : List (ℤ × String))
    → find g (put_all gs name d) ≡ (if elem g gs then some name else find g d)
find-put_all g [] name d = refl
find-put_all g (h ∷ gs) name d = find-put_all g gs name (put h name d) ∙ rest (elem g gs)
  where
    rest :
        (b : Bool)
        → (if b then some name else find g (put h name d))
          ≡ (if h == g || b then some name else find g d)
    rest b = rw (find-put_if h g name d) (ground arith)

without_middle : (a b r : Bool) → (a && (b && r)) ≡ true → (a && r) ≡ true
without_middle a b r h = ground arith

with_middle : (a b r : Bool) → b ≡ true → (a && r) ≡ true → (a && (b && r)) ≡ true
with_middle a b r p h = ground arith

managed_of : (a b r : Bool) → (a && (b && r)) ≡ true → b ≡ true
managed_of a b r h = ground arith

or_right : (a b : Bool) → b ≡ true → (a || b) ≡ true
or_right a b h = ground arith

module _ {S : Type 0} (t : Texts) (e : Engine S) (view : S → String → Option Container)
    (d : IsDocker view e) where
  find-allocated :
      (g : ℤ) (c : Container) (m : List (ℤ × String))
      → find g (allocated t e c m) ≡ (
          if is_active_status c.status && elem g (gpu_ids_from_labels t c.labels)
          then some c.name
          else find g m)
  find-allocated g c m = elim (Bool-cases (is_active_status c.status)) [
    | inl h ↦ rw h (find-put_all g (gpu_ids_from_labels t c.labels) c.name m)
    | inr h ↦ rw h refl
  ]

  -- Whatever uses a card is entered for it, or is still to be looked at.
  abbrev pub Knows : S → List (ℤ × String) → List String → Type 0
  Knows s m ns = (n : String) (g : ℤ) → Uses view t s n g → (find g m ≡ some n) ⊎ (elem n ns ≡ true)

  -- One container more is looked at.
  looked :
      (s s' : S) (name : String) (names : List String) (c : Container) (m : List (ℤ × String))
      → IsSeen e view d s name c s'
      → IsExclusive view t s
      → IsListed e view d s (name ∷ names)
      → Knows s m (name ∷ names)
      → Knows s' (allocated t e c m) names
  looked s s' name names c m look x listed k n g (b, v, used) = elim (Bool-cases (name == n)) [
    | inl same ↦ inl (
        find-allocated g c m
        ∙ entered c b (cc (look.seen, v, eq_of_beq {a = name} {b = n} same))
            (look.called ∙ eq_of_beq {a = name} {b = n} same) used)
    | inr other ↦
        elim (Bool-cases (is_active_status c.status && elem g (gpu_ids_from_labels t c.labels))) [
          | inl taken ↦ absurd (
              cc (
                rw
                  (
                    ← exclusive_now name n g
                        (
                          c,
                          look.seen,
                          in_use c
                              (IsListed-IsQuiet e view d s s' (name ∷ names) look.quiet listed name
                                c (rw (beq_refl name)) look.seen)
                              taken,
                        )
                        (b, v, used),
                    beq_refl name,
                  )
                  at other))
          | inr free ↦ elim (k n g (IsQuiet-Uses view t s s' n g look.quiet (b, v, used))) [
            | inl old ↦ inl (find-allocated g c m ∙ rw free old)
            | inr left ↦ inr (rw other at left)
          ]
        ]
  ]
    where
      exclusive_now : IsExclusive view t s'
      exclusive_now = IsQuiet-exclusive view t s s' look.quiet x

      entered :
          (c b : Container)
          → b ≡ c
          → c.name ≡ n
          → uses view t g b ≡ true
          → (if is_active_status c.status && elem g (gpu_ids_from_labels t c.labels)
              then some c.name
              else find g m)
            ≡ some n
      entered c b e q u =
          rw (without_middle _ (is_managed c.labels) _ (subst (λ z. uses view t g z ≡ true) e u))
            (ap some q)

      in_use :
          (c : Container)
          → is_managed c.labels ≡ true
          → (is_active_status c.status && elem g (gpu_ids_from_labels t c.labels)) ≡ true
          → uses view t g c ≡ true
      in_use c m h = with_middle (is_active_status c.status) (is_managed c.labels) _ m h

  pub allocate-Knows :
      (names : List String) (m out : List (ℤ × String)) (s s' : S)
      → IsExclusive view t s
      → IsListed e view d s names
      → Knows s m names
      → allocate t e names m s ≡ (ok out, s')
      → IsQuiet view s s' × Knows s' out []
  unfolding allocate
  allocate-Knows [] m out s s' x listed k h =
      (subst (IsQuiet view s) (state_eq h) (IsQuiet-refl view s), known)
    where
      state_eq : ◌≡◌ {A = Result Failure (List (ℤ × String)) × S} (ok m, s) (ok out, s') → s ≡ s'
      state_eq q = ap (λ p. p.1) q

      known : Knows s' out []
      known = subst (λ z. Knows z out []) (state_eq h) (subst (λ z. Knows s z []) (cc (h)) k)
  allocate-Knows (name ∷ names) m out s s' x listed k h =
      let (c, s1, q, rest) = after-eq-ok (lifted (e.inspect name s)) _ out s' h in
      let look = inspect-IsSeen e view d name s c s1 q in
      let (quiet, known) =
        allocate-Knows names (allocated t e c m) out s1 s'
          (IsQuiet-exclusive view t s s1 look.quiet x)
          (λ n b mem.
            IsListed-IsQuiet e view d s s1 (name ∷ names) look.quiet listed n b
              (or_right (name == n) _ mem))
          (looked s s1 name names c m look x listed k) rest in
      (IsQuiet-trans view s s1 s' look.quiet quiet, known)

  pub gpu_allocations-Knows :
      (out : List (ℤ × String)) (s s' : S)
      → IsExclusive view t s
      → gpu_allocations t e s ≡ (ok out, s')
      → IsQuiet view s s' × Knows s' out []
  unfolding gpu_allocations
  gpu_allocations-Knows out s s' x h =
      let (names, s1, q, rest) = after-eq-ok (lifted (e.list_managed s)) _ out s' h in
      let (quiet, listed) = list-IsListed e view d s names s1 q in
      let (later, known) =
        allocate-Knows names [] out s1 s' (IsQuiet-exclusive view t s s1 quiet x)
          (λ n c m v. listed n c v ∙ m)
          (λ n g u. inr (sym (listed n u.0 u.1) ∙ managed_of (is_active_status u.0.status) _ _ u.2))
          rest in
      (IsQuiet-trans view s s1 s' quiet later, known)

  check_busy-IsQuiet :
      (gs : List ℤ) (s s' : S)
      → check_busy t e (e.busy_gpu_ids gs s) ≡ (ok tt, s')
      → IsQuiet view s s'
  check_busy-IsQuiet gs s s' h =
      subst (IsQuiet view s) (by_answer (e.busy_gpu_ids gs s) h) (d.busy-IsQuiet gs s)
    where
      by_answer : (q : Option (List ℤ) × S) → check_busy t e q ≡ (ok tt, s') → q.1 ≡ s'
      by_answer (none, u) k = cc
      by_answer (some [], u) k = ap (λ p. p.1) k
      by_answer (some (b ∷ bs), u) k = cc

  -- No container but the one that is left out uses one of the cards.
  abbrev pub IsFree : S → List ℤ → Option String → Type 0
  IsFree s gs exclude =
      (n : String) (g : ℤ) → elem g gs ≡ true → Uses view t s n g → exclude ≡ some n

  IsFree-IsQuiet :
      (s s' : S) (gs : List ℤ) (x : Option String)
      → IsQuiet view s s'
      → IsFree s gs x
      → IsFree s' gs x
  IsFree-IsQuiet s s' gs x q f n g m u = f n g m (IsQuiet-Uses view t s s' n g q u)

  none_other :
      (g : ℤ) (gs : List ℤ) (m : List (ℤ × String)) (x : Option String)
      → (length (select (λ g. is_other (find g m) x) gs) == 0) ≡ true
      → elem g gs ≡ true
      → is_other (find g m) x ≡ false
  none_other g [] m x h k = cc
  none_other g (a ∷ gs) m x h k = elim (Bool-cases (is_other (find a m) x)) [
    | inl other ↦ absurd (ground (arith, rw other at h))
    | inr fine ↦ elim (Bool-cases (a == g)) [
      | inl same ↦ rw (← eq_of_beq {a = a} {b = g} same) fine
      | inr differ ↦ none_other g gs m x (rw fine at h) (rw differ at k)
    ]
  ]

  own : (n : String) (x : Option String) → is_other (some n) x ≡ false → x ≡ some n
  own n none h = cc
  own n (some y) h = ap some (sym (eq_of_beq {a = n} {b = y} (ground arith)))

  -- The check that is passed: the cards are free, but for the container that is left out.
  pub assert_gpus_available-IsFree :
      (settings : Settings) (gs : List ℤ) (exclude : Option String) (s s' : S)
      → IsExclusive view t s
      → assert_gpus_available t e settings gs exclude s ≡ (ok tt, s')
      → IsQuiet view s s' × IsFree s' gs exclude
  unfolding assert_gpus_available
  assert_gpus_available-IsFree settings gs exclude s s' x h =
      let (m, s1, q, rest) = after-eq-ok (gpu_allocations t e s) _ tt s' h in
      let (quiet, known) = gpu_allocations-Knows m s s1 x q in
      elim (Bool-cases (length (select (λ g. is_other (find g m) exclude) gs) == 0)) [
        | inr some_other ↦ absurd (cc (rw some_other at rest))
        | inl no_other ↦
            let later = checked s1 (rw no_other at rest) in
            (
              IsQuiet-trans view s s1 s' quiet later,
              IsFree-IsQuiet s1 s' gs exclude later (λ n g k u. own n exclude (
                  subst (λ o. is_other o exclude ≡ false) (entry g m n (known n g u))
                    (none_other g gs m exclude no_other k))),
            )
      ]
    where
      entry :
          (g : ℤ) (m : List (ℤ × String)) (n : String)
          → (find g m ≡ some n) ⊎ (false ≡ true)
          → find g m ≡ some n
      entry g m n (inl k) = k
      entry g m n (inr k) = cc

      checked :
          (s1 : S)
          → (if settings.enforce_nvml_process_check
                then (λ u. check_busy t e (e.busy_gpu_ids gs u))
                else return {S = S} tt)
              s1
            ≡ (ok tt, s')
          → IsQuiet view s1 s'
      checked s1 k = elim (Bool-cases settings.enforce_nvml_process_check) [
        | inl on ↦ check_busy-IsQuiet gs s1 s' (rw on at k)
        | inr off ↦ subst (IsQuiet view s1) (ap (λ p. p.1) (rw off at k)) (IsQuiet-refl view s1)
      ]
