-- ===== src/Docker/SampleLaws.antt =====
-- The laws of the engine with one slot.
use open_llmops.Prelude.{
  ◌≡◌, ◌⊎◌, inl, inr, refl, sym, ◌∙◌, ap, subst, String, Bool, true, false, not, ◌&&◌, Option, some,
  none, List, [], Result, ok, err, elem, string_eq, ◌==◌, find, Bool-cases, eq_of_beq,
}
use open_llmops.Docker.Labels.{is_active_status, is_managed}
use open_llmops.Docker.Info.{Container}
use open_llmops.Docker.Engine.{DockerError, not_found, api_error, Creation}
use open_llmops.Docker.Moves.{IsKept, IsQuiet, IsQuietBut, IsDocker, AreGiven}
use open_llmops.Docker.Sample.{
  Slot, slot_name, whole, shown, slot_view, listed, set_status, taken_away, put_in, at_slot,
  slot_engine, view-slot, still-IsQuiet, slot_named, answer-ok, answer-missing,
}

shown-IsQuiet :
    (s s' : Slot)
    → ((c : Container) → shown s' ≡ some c → IsKept (shown s) c)
    → IsQuiet slot_view s s'
shown-IsQuiet s s' f n c h = let (same, v) = view-slot s' n c h in rw same (f c v)

-- A call at a name: it acts on the slot, or not at all.
at_slot-IsQuiet :
    (n : String) (q : Result DockerError (Unit {0}) × Slot) (s : Slot) (x : DockerError)
    → IsQuiet slot_view s q.1
    → IsQuiet slot_view s (at_slot n q s x).1
at_slot-IsQuiet n q s x h = elim (Bool-cases (slot_name == n)) [
  | inl same ↦ rw same h
  | inr other ↦ rw other (still-IsQuiet s)
]

at_slot-others :
    (n : String) (q : Result DockerError (Unit {0}) × Slot) (s : Slot) (x : DockerError)
    → IsQuietBut slot_view n s (at_slot n q s x).1
at_slot-others n q s x m c differ v = elim (Bool-cases (slot_name == n)) [
  | inr other ↦ still-IsQuiet s m c (rw other at v)
  | inl same ↦ absurd (
      differ (
        sym (eq_of_beq {a = slot_name} {b = m} (view-slot (at_slot n q s x).1 m c v).0)
        ∙ eq_of_beq {a = slot_name} {b = n} same))
]

exited-IsKept :
    (s : Slot) (c : Container) → shown (set_status "exited" s).1 ≡ some c → IsKept (shown s) c
exited-IsKept none c h = absurd (cc)
exited-IsKept (some (status, labels)) c h =
    subst (IsKept (shown (some (status, labels)))) (some_eq h) (record {
      old = whole (status, labels);
      was = refl;
      same_labels = refl;
      was_active = λ a. absurd (cc);
    })
  where
    some_eq : {b : Container} → some b ≡ some c → b ≡ c
    some_eq k = cc

taken-IsKept :
    (force : Bool) (s : Slot) (c : Container)
    → shown (taken_away force s).1 ≡ some c
    → IsKept (shown s) c
taken-IsKept force none c h = absurd (cc)
taken-IsKept force (some (status, labels)) c h =
    elim (Bool-cases (is_active_status status && not force)) [
      | inl busy ↦ record { old = c; was = rw busy at h; same_labels = refl; was_active = λ a. a }
      | inr fine ↦ absurd (cc (rw fine at h))
    ]

taken-gone :
    (force : Bool) (s : Slot) → (taken_away force s).0 ≡ ok tt → (taken_away force s).1 ≡ none
taken-gone force none h = refl
taken-gone force (some (status, labels)) h =
    elim (Bool-cases (is_active_status status && not force)) [
      | inl busy ↦ absurd (cc (rw busy at h))
      | inr fine ↦ rw fine refl
    ]

taken-missing :
    (force : Bool) (s : Slot)
    → (taken_away force s).0 ≡ err not_found
    → (taken_away force s).1 ≡ none
taken-missing force none h = refl
taken-missing force (some (status, labels)) h =
    elim (Bool-cases (is_active_status status && not force)) [
      | inl busy ↦ absurd (cc (rw busy at h))
      | inr fine ↦ rw fine refl
    ]

remove-gone :
    (n : String) (force v : Bool) (s : Slot) (a : Result DockerError (Unit {0}))
    → ((taken_away force s).0 ≡ a → (taken_away force s).1 ≡ none)
    → (slot_engine.remove n force v s).0 ≡ a
    → slot_view (slot_engine.remove n force v s).1 n ≡ none
remove-gone n force v s a f h = elim (Bool-cases (slot_name == n)) [
  | inl same ↦ rw (same, f (rw same at h)) refl
  | inr other ↦ rw other refl
]

start-IsKept :
    (s : Slot) (c : Container)
    → shown (set_status "running" s).1 ≡ some c
    → (old : Container) × (shown s ≡ some old) × (old.labels ≡ c.labels)
start-IsKept none c h = absurd (cc)
start-IsKept (some (status, labels)) c h = (whole (status, labels), refl, labels_eq h)
  where
    labels_eq : some (whole ("running", labels)) ≡ some c → labels ≡ c.labels
    labels_eq k = ap (λ (o : Option Container). elim o [ some b ↦ b.labels | none ↦ [] ]) k

create-IsKept :
    (m : Creation) (s : Slot) (c : Container)
    → shown (put_in m s).1 ≡ some c
    → AreGiven m.labels c.labels ⊎ IsKept (shown s) c
create-IsKept m none c h = inl (λ k v f.
    subst (λ l. find k l ≡ some v)
      (ap (λ (o : Option Container). elim o [ some b ↦ b.labels | none ↦ [] ]) h) f)
create-IsKept m (some b) c h =
    inr (record { old = c; was = h; same_labels = refl; was_active = λ a. a })

listed-managed :
    (s : Slot) (n : String) (c : Container)
    → slot_view s n ≡ some c
    → is_managed c.labels ≡ elem n (listed s)
listed-managed s n c h = let (same, v) = view-slot s n c h in of_shown s v same
  where
    of_shown :
        (s : Slot)
        → shown s ≡ some c
        → (slot_name == n) ≡ true
        → is_managed c.labels ≡ elem n (listed s)
    of_shown none k same = absurd (cc)
    of_shown (some (status, labels)) k same =
        ap (λ (o : Option Container). elim o [ some b ↦ is_managed b.labels | none ↦ false ])
          (sym k)
        ∙ elim (Bool-cases (is_managed labels)) [ inl m ↦ rw (m, same) refl | inr m ↦ rw m refl ]

pub slot_engine-IsDocker : IsDocker slot_view slot_engine
slot_engine-IsDocker = record {
  named = slot_named;
  inspect-IsQuiet = λ n s. still-IsQuiet s;
  inspect-ok = λ n s c h. answer-ok (slot_view s n) c h;
  inspect-missing = λ n s h. answer-missing (slot_view s n) h;
  list-IsQuiet = λ s. still-IsQuiet s;
  list-ok = λ s ns n c h v. listed-managed s n c v ∙ ap (elem n) (listed_eq s ns h);
  busy-IsQuiet = λ gs s. still-IsQuiet s;
  stop-IsQuiet = λ n timeout s.
      at_slot-IsQuiet n (set_status "exited" s) s not_found (shown-IsQuiet s _ (exited-IsKept s));
  remove-IsQuiet = λ n force v s.
      at_slot-IsQuiet n (taken_away force s) s not_found (shown-IsQuiet s _ (taken-IsKept force s));
  remove-ok = λ n force v s h. remove-gone n force v s (ok tt) (taken-gone force s) h;
  remove-missing = λ n force v s h. missing n force s h;
  start-others = λ n s. at_slot-others n (set_status "running" s) s not_found;
  start-same = start-same_slot;
  create-others = λ m s. at_slot-others m.name (put_in m s) s api_error;
  create-same = create-same_slot;
}
  where
    listed_eq :
        (s : Slot) (ns : List String)
        → ◌≡◌ {A = Result DockerError (List String)} (ok (listed s)) (ok ns)
        → listed s ≡ ns
    listed_eq s ns h = cc

    missing :
        (n : String) (force : Bool) (s : Slot)
        → (slot_engine.remove n force true s).0 ≡ err not_found
        → slot_view (slot_engine.remove n force true s).1 n ≡ none
    missing n force s h = elim (Bool-cases (slot_name == n)) [
      | inl same ↦ rw (same, taken-missing force s (rw same at h)) refl
      | inr other ↦ rw other refl
    ]

    start-same_slot :
        (n : String) (s : Slot) (c : Container)
        → slot_view (slot_engine.start n s).1 n ≡ some c
        → (old : Container) × (slot_view s n ≡ some old) × (old.labels ≡ c.labels)
    start-same_slot n s c h = elim (Bool-cases (slot_name == n)) [
      | inl same ↦ rw same (start-IsKept s c (rw same at h))
      | inr other ↦ absurd (cc (rw other at h))
    ]

    create-same_slot :
        (m : Creation) (s : Slot) (c : Container)
        → slot_view (slot_engine.create m s).1 m.name ≡ some c
        → AreGiven m.labels c.labels ⊎ IsKept (slot_view s m.name) c
    create-same_slot m s c h = elim (Bool-cases (slot_name == m.name)) [
      | inl same ↦ rw same (create-IsKept m s c (rw same at h))
      | inr other ↦ absurd (cc (rw other at h))
    ]
