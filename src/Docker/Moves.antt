-- ===== src/Docker/Moves.antt =====
-- How the containers move while the runner calls the engine: what the engine's documentation says of
-- its calls, as laws over the containers that there are.
use open_llmops.Prelude.{
  ℕ, ◌≡◌, ◌≢◌, ◌⊎◌, refl, sym, ◌∙◌, subst, String, Bool, true, ◌&&◌, Option, some, none, List,
  Result, ok, err, ℤ, elem, find, int_eq, string_eq, arith,
}
use open_llmops.Docker.Labels.{Dict, Texts, is_active_status, is_managed, gpu_ids_from_labels}
use open_llmops.Docker.Info.{Container}
use open_llmops.Docker.Engine.{
  DockerError, not_found, Failure, Creation, Engine, Call, after, ◌>>=◌, lifted, uncaught,
}

-- The container was there before, with the same labels, and active if it is active now.
pub record IsKept (before : Option Container) (now : Container) : Type 0 where
  pub old : Container
  pub was : before ≡ some old
  pub same_labels : old.labels ≡ now.labels
  pub was_active : is_active_status now.status ≡ true → is_active_status old.status ≡ true

-- A container that is created has the labels that it is given, beside those of its image.
abbrev pub AreGiven : Dict → Dict → Type 0
AreGiven given labels = (k v : String) → find k given ≡ some v → find k labels ≡ some v

module _ {S : Type 0} (view : S → String → Option Container) where
  -- From `s` to `s'` no container was created and none became active.
  abbrev pub IsQuiet : S → S → Type 0
  IsQuiet s s' = (n : String) (c : Container) → view s' n ≡ some c → IsKept (view s n) c

  -- The same of the containers other than `name`.
  abbrev pub IsQuietBut : String → S → S → Type 0
  IsQuietBut name s s' =
      (n : String) (c : Container) → n ≢ name → view s' n ≡ some c → IsKept (view s n) c

  -- The engine's documented behaviour. Containers are created and started by the runner alone; the
  -- engine itself restarts only what is active. A name is in use once, labels never change.
  pub record IsDocker (e : Engine S) : Type 0 where
    pub named : (s : S) (n : String) (c : Container) → view s n ≡ some c → c.name ≡ n
    pub inspect-IsQuiet : (n : String) (s : S) → IsQuiet s (e.inspect n s).1
    pub inspect-ok :
        (n : String) (s : S) (c : Container)
        → (e.inspect n s).0 ≡ ok c
        → view (e.inspect n s).1 n ≡ some c
    pub inspect-missing :
        (n : String) (s : S) → (e.inspect n s).0 ≡ err not_found → view (e.inspect n s).1 n ≡ none
    pub list-IsQuiet : (s : S) → IsQuiet s (e.list_managed s).1
    pub list-ok :
        (s : S) (ns : List String) (n : String) (c : Container)
        → (e.list_managed s).0 ≡ ok ns
        → view (e.list_managed s).1 n ≡ some c
        → is_managed c.labels ≡ elem n ns
    pub busy-IsQuiet : (gs : List ℤ) (s : S) → IsQuiet s (e.busy_gpu_ids gs s).1
    pub stop-IsQuiet : (n : String) (timeout : ℕ) (s : S) → IsQuiet s (e.stop n timeout s).1
    pub remove-IsQuiet : (n : String) (force v : Bool) (s : S) → IsQuiet s (e.remove n force v s).1
    pub remove-ok :
        (n : String) (force v : Bool) (s : S)
        → (e.remove n force v s).0 ≡ ok tt
        → view (e.remove n force v s).1 n ≡ none
    pub remove-missing :
        (n : String) (force v : Bool) (s : S)
        → (e.remove n force v s).0 ≡ err not_found
        → view (e.remove n force v s).1 n ≡ none
    pub start-others : (n : String) (s : S) → IsQuietBut n s (e.start n s).1
    pub start-same :
        (n : String) (s : S) (c : Container)
        → view (e.start n s).1 n ≡ some c
        → (old : Container) × (view s n ≡ some old) × (old.labels ≡ c.labels)
    pub create-others : (m : Creation) (s : S) → IsQuietBut m.name s (e.create m s).1
    pub create-same :
        (m : Creation) (s : S) (c : Container)
        → view (e.create m s).1 m.name ≡ some c
        → AreGiven m.labels c.labels ⊎ IsKept (view s m.name) c

  pub IsQuiet-refl : (s : S) → IsQuiet s s
  IsQuiet-refl s n c h = record { old = c; was = h; same_labels = refl; was_active = λ a. a }

  pub IsQuiet-trans : (s s' s'' : S) → IsQuiet s s' → IsQuiet s' s'' → IsQuiet s s''
  IsQuiet-trans s s' s'' f g n c h =
      let k = g n c h in
      let j = f n k.old k.was in
      record {
        old = j.old;
        was = j.was;
        same_labels = j.same_labels ∙ k.same_labels;
        was_active = λ a. j.was_active (k.was_active a);
      }

  -- A call that creates and activates nothing, however it ends.
  abbrev pub IsQuietCall : {A : Type 0} → Call S A → Type 0
  IsQuietCall call = (s : S) → IsQuiet s (call s).1

  pub after-IsQuiet :
      {A B : Type 0} (s : S) (q : Result Failure A × S) (next : A → Call S B)
      → IsQuiet s q.1
      → ((a : A) → IsQuietCall (next a))
      → IsQuiet s (after q next).1
  after-IsQuiet s (ok a, s') next h k = IsQuiet-trans s s' (next a s').1 h (k a s')
  after-IsQuiet s (err e, s') next h k = h

  pub >>=-IsQuiet :
      {A B : Type 0} (call : Call S A) (next : A → Call S B)
      → IsQuietCall call
      → ((a : A) → IsQuietCall (next a))
      → IsQuietCall (call >>= next)
  >>=-IsQuiet call next h k s = after-IsQuiet s (call s) next (h s) k

  lifted-state : {A : Type 0} (q : Result DockerError A × S) → (lifted q).1 ≡ q.1
  lifted-state (ok a, s) = refl
  lifted-state (err e, s) = refl

  pub uncaught-IsQuiet :
      {A : Type 0} (call : S → Result DockerError A × S)
      → ((s : S) → IsQuiet s (call s).1)
      → IsQuietCall (uncaught call)
  uncaught-IsQuiet call h s = subst (IsQuiet s) (sym (lifted-state (call s))) (h s)

  -- The container is active, managed, and has the card.
  abbrev pub uses : Texts → ℤ → Container → Bool
  uses t g c =
      is_active_status c.status && (is_managed c.labels && elem g (gpu_ids_from_labels t c.labels))

  abbrev pub Uses : Texts → S → String → ℤ → Type 0
  Uses t s n g = (c : Container) × (view s n ≡ some c) × (uses t g c ≡ true)

  -- No card is used twice.
  abbrev pub IsExclusive : Texts → S → Type 0
  IsExclusive t s = (n m : String) (g : ℤ) → Uses t s n g → Uses t s m g → n ≡ m

  pub IsKept-uses :
      (t : Texts) (g : ℤ) (o : Option Container) (c : Container) (k : IsKept o c)
      → uses t g c ≡ true
      → uses t g k.old ≡ true
  IsKept-uses t g o c k u = grow _ _ _ (k.was_active) (
      subst
        (λ l.
          (is_active_status c.status && (is_managed l && elem g (gpu_ids_from_labels t l))) ≡ true)
        (sym k.same_labels) u)
    where
      grow : (a b r : Bool) → (a ≡ true → b ≡ true) → (a && r) ≡ true → (b && r) ≡ true
      grow a b r f h = ground arith

  pub IsQuiet-Uses :
      (t : Texts) (s s' : S) (n : String) (g : ℤ) → IsQuiet s s' → Uses t s' n g → Uses t s n g
  IsQuiet-Uses t s s' n g q (c, h, u) =
      let k = q n c h in (k.old, k.was, IsKept-uses t g (view s n) c k u)

  pub IsQuiet-exclusive : (t : Texts) (s s' : S) → IsQuiet s s' → IsExclusive t s → IsExclusive t s'
  IsQuiet-exclusive t s s' q x n m g u v =
      x n m g (IsQuiet-Uses t s s' n g q u) (IsQuiet-Uses t s s' m g q v)
