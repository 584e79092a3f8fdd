-- ===== src/Node/Waterline.antt =====
-- The generations that `CommandStateStore` has seen, and what an executed command does to its state.
use open_llmops.Prelude.{
  ℕ, ◌≡◌, subst, inl, inr, false, Option, some, none, ◌==◌, nat_eq, ltb, find-put, find-put_other,
  eq_of_beq, Bool-cases, arith, ◌≤◌,
}
use open_llmops.Node.Commands.{
  OwnerKey, owner_eq, owner_key, StartBinding, CommandState, Store, generation, raise_generation,
  advance_generation, bind_anew, bind_over, bind_start, Command, Processor, is_start, admit,
}

-- A generation that is raised is raised to exactly `g`; no other generation changes.
pub raise-rises :
    (k : OwnerKey) (g : ℕ) (m : CommandState) (l : OwnerKey)
    → generation l m ≤ generation l (raise_generation k g m)
raise-rises k g m l = elim (Bool-cases (ltb (generation k m) g)) [
  | inr high ↦ rw high (omega arith)
  | inl low ↦ elim (Bool-cases (k == l)) [
    | inl same ↦
        subst (λ j. generation j m ≤ generation j (raise_generation k g m))
          (eq_of_beq {a = k} {b = l} same) (rw (low, find-put k g m.generations) (ground arith))
    | inr other ↦ rw (low, find-put_other k l g m.generations other) (omega arith)
  ]
]

pub raise-reaches :
    (k : OwnerKey) (g : ℕ) (m : CommandState) → g ≤ generation k (raise_generation k g m)
raise-reaches k g m = elim (Bool-cases (ltb (generation k m) g)) [
  | inl low ↦ rw (low, find-put k g m.generations) (omega arith)
  | inr high ↦ rw high (ground arith)
]

pub raise-bounded :
    (k : OwnerKey) (g : ℕ) (m : CommandState)
    → ltb g (generation k m) ≡ false
    → ltb g (generation k (raise_generation k g m)) ≡ false
raise-bounded k g m h = elim (Bool-cases (ltb (generation k m) g)) [
  | inl low ↦ rw (low, find-put k g m.generations) (ground arith)
  | inr high ↦ rw high h
]

-- What a state has seen, and what it has answered.
pub record IsRaised (k : OwnerKey) (g : ℕ) (s s' : Store) : Type 0 where
  pub generations : s'.memory.generations ≡ (raise_generation k g s.memory).generations
  pub requests : s'.memory.requests ≡ s.memory.requests

advance-IsRaised : (k : OwnerKey) (g : ℕ) (s : Store) → IsRaised k g s (advance_generation k g s)
unfolding advance_generation
advance-IsRaised k g s = elim (Bool-cases (ltb (generation k s.memory) g)) [
  | inl low ↦ record { generations = rw low; requests = rw low }
  | inr high ↦ record { generations = rw high; requests = rw high }
]

anew-IsRaised : (k : OwnerKey) (g f : ℕ) (s : Store) → IsRaised k g s (bind_anew k g f s.memory)
anew-IsRaised k g f s = elim (Bool-cases (ltb (generation k s.memory) g)) [
  | inl low ↦ record { generations = rw low; requests = rw low }
  | inr high ↦ record { generations = rw high; requests = rw high }
]

some_eq : {s t : Store} → ◌≡◌ {A = Option Store} (some s) (some t) → s ≡ t
some_eq h = cc

bind-IsRaised :
    (k : OwnerKey) (g f : ℕ) (o : Option StartBinding) (s s' : Store)
    → bind_over k g f o s ≡ some s'
    → IsRaised k g s s'
bind-IsRaised k g f none s s' e = subst (IsRaised k g s) (some_eq e) (anew-IsRaised k g f s)
bind-IsRaised k g f (some b) s s' e = elim (Bool-cases (b.generation == g)) [
  | inr other ↦ subst (IsRaised k g s) (some_eq (rw other at e)) (anew-IsRaised k g f s)
  | inl again ↦ elim (Bool-cases (b.fingerprint == f)) [
    | inl same ↦ subst (IsRaised k g s) (some_eq (rw (again, same) at e)) (advance-IsRaised k g s)
    | inr differ ↦ absurd (cc (rw (again, differ) at e))
  ]
]

module _ {W : Type 0} (p : Processor W) where
  pub admit-IsRaised :
      (c : Command) (s s' : Store)
      → admit p c s ≡ some s'
      → IsRaised (owner_key c.body.owner) c.body.owner.generation s s'
  unfolding admit bind_start
  admit-IsRaised c s s' e = elim (Bool-cases (is_start p c.body.action)) [
    | inl starts ↦ bind-IsRaised _ _ _ _ s s' (rw starts at e)
    | inr other ↦ subst (IsRaised _ _ s) (some_eq (rw other at e)) (advance-IsRaised _ _ s)
  ]
