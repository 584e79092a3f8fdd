-- ===== src/Docker/Sample.antt =====
-- Texts and an engine at which the laws hold: numbers are written in strokes, and the engine has room
-- for one container.
use Prim.Native.String.{count, ◌∷◌ as ◌+∷◌}
use Prim.Native.String.count
use open_llmops.Prelude.{
  ℕ, zero, suc, ◌*◌, ◌-◌, ◌/◌, ◌%◌, ◌≡◌, inl, inr, refl, sym, ◌∙◌, ap, String, Bool, true, false,
  not, ◌&&◌, Option, some, none, List, [], ◌∷◌, Result, ok, err, ℤ, pos, negsuc, int_eq, string_eq,
  nat_eq, ◌==◌, arith, Bool-cases, if◌then◌else◌, is_plain, eq_of_beq,
}
use open_llmops.Workloads.{Json}
use open_llmops.Docker.Labels.{Dict, Texts, is_active_status, is_managed}
use open_llmops.Docker.Info.{Container}
use open_llmops.Docker.Engine.{DockerError, not_found, api_error, Creation, Engine}
use open_llmops.Docker.Moves.{IsKept, IsQuiet}
use open_llmops.Docker.Readable.{IsTexts}

abbrev strokes : ℕ → String
strokes zero = ""
strokes (suc n) = "I" +∷ strokes n

count-strokes : (n : ℕ) → count (strokes n) ≡ n
count-strokes zero = count.nil
count-strokes (suc n) = count.cons "I" (strokes n) ∙ ap suc (count-strokes n)

strokes-plain : (n : ℕ) → is_plain (strokes n) ≡ true
strokes-plain zero = refl
strokes-plain (suc n) = strokes-plain n

abbrev written : ℤ → ℕ
written (pos n) = suc (2 * n)
written (negsuc n) = suc (suc (2 * n))

abbrev number : ℕ → Option ℤ
number k = if k % 2 == 1 then some (pos (k / 2)) else some (negsuc (k / 2 - 1))

number-written : (n : ℤ) → number (written n) ≡ some n
number-written (pos n) = ground arith
number-written (negsuc n) = ground arith

abbrev pub texts : Texts
texts = record {
  int_of = λ s. number (count s);
  str_of = λ n. strokes (written n);
  uuid_of = λ s. some (count s);
  str_of_uuid = λ n. strokes n;
  is_digit = λ s. false;
  datetime_of = λ s. none;
  is_safe_name = λ s. true;
  is_positive = λ s. true;
}

str_filled : (n : ℤ) → (strokes (written n) == "") ≡ false
str_filled n = elim (Bool-cases (strokes (written n) == "")) [
  | inr h ↦ h
  | inl h ↦ absurd (
      some_stroke n (
        sym (count-strokes (written n))
        ∙ (ap count (eq_of_beq {a = strokes (written n)} {b = ""} h) ∙ count.nil)))
]
  where
    some_stroke : (n : ℤ) → written n ≡ 0 → ⊥
    some_stroke (pos m) k = omega (arith, k)
    some_stroke (negsuc m) k = omega (arith, k)

pub texts-IsTexts : IsTexts texts
texts-IsTexts = record {
  int-str = λ n. ap number (count-strokes (written n)) ∙ number-written n;
  str_filled = str_filled;
  str_plain = λ n. strokes-plain (written n);
}

-- The status and the labels of the one container.
abbrev pub Slot : Type 0
Slot = Option (String × Dict)

abbrev pub slot_name : String
slot_name = "openllmops-inference-III"

abbrev pub whole : String × Dict → Container
whole (status, labels) = record {
  name = slot_name;
  status = status;
  labels = labels;
  state = none;
  restart_count = Json.null;
  created = Json.null;
}

abbrev pub shown : Slot → Option Container
shown none = none
shown (some b) = some (whole b)

abbrev pub slot_view : Slot → String → Option Container
slot_view s n = if slot_name == n then shown s else none

abbrev pub listed : Slot → List String
listed none = []
listed (some (status, labels)) = if is_managed labels then slot_name ∷ [] else []

abbrev pub answer : Option Container → Result DockerError Container
answer none = err not_found
answer (some c) = ok c

abbrev pub set_status : String → Slot → Result DockerError (Unit {0}) × Slot
set_status status none = (err not_found, none)
set_status status (some (_, labels)) = (ok tt, some (status, labels))

abbrev pub taken_away : Bool → Slot → Result DockerError (Unit {0}) × Slot
taken_away force none = (err not_found, none)
taken_away force (some (status, labels)) =
    if is_active_status status && not force
    then (err api_error, some (status, labels))
    else (ok tt, none)

abbrev pub put_in : Creation → Slot → Result DockerError (Unit {0}) × Slot
put_in m none = (ok tt, some ("running", m.labels))
put_in m (some b) = (err api_error, some b)

abbrev pub at_slot :
    String
    → Result DockerError (Unit {0}) × Slot
    → Slot
    → DockerError
    → Result DockerError (Unit {0}) × Slot
at_slot n q s x = if slot_name == n then q else (err x, s)

abbrev pub slot_engine : Engine Slot
slot_engine = record {
  inspect = λ n s. (answer (slot_view s n), s);
  list_managed = λ s. (ok (listed s), s);
  stop = λ n timeout s. at_slot n (set_status "exited" s) s not_found;
  start = λ n s. at_slot n (set_status "running" s) s not_found;
  remove = λ n force v s. at_slot n (taken_away force s) s not_found;
  create = λ m s. at_slot m.name (put_in m s) s api_error;
  busy_gpu_ids = λ gs s. (some [], s);
}

pub same-IsKept : (c : Container) → IsKept (some c) c
same-IsKept c = record { old = c; was = refl; same_labels = refl; was_active = λ h. h }

-- What the view shows at the slot, and elsewhere.
pub view-slot :
    (s : Slot) (n : String) (c : Container)
    → slot_view s n ≡ some c
    → ((slot_name == n) ≡ true) × (shown s ≡ some c)
view-slot s n c h = elim (Bool-cases (slot_name == n)) [
  | inl same ↦ (same, rw same at h)
  | inr other ↦ absurd (cc (rw other at h))
]

pub still-IsQuiet : (s : Slot) → IsQuiet slot_view s s
still-IsQuiet s n c h = record { old = c; was = h; same_labels = refl; was_active = λ a. a }

pub slot_named : (s : Slot) (n : String) (c : Container) → slot_view s n ≡ some c → c.name ≡ n
slot_named s n c h =
    let (same, v) = view-slot s n c h in of_shown s c v ∙ eq_of_beq {a = slot_name} {b = n} same
  where
    of_shown : (s : Slot) (c : Container) → shown s ≡ some c → c.name ≡ slot_name
    of_shown none c h = absurd (cc)
    of_shown (some b) c h = cc

pub answer-ok : (o : Option Container) (c : Container) → answer o ≡ ok c → o ≡ some c
answer-ok none c h = absurd (cc)
answer-ok (some b) c h = cc

pub answer-missing : (o : Option Container) → answer o ≡ err not_found → o ≡ none
answer-missing none h = refl
answer-missing (some b) h = absurd (cc)
