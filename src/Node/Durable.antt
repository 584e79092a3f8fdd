-- ===== src/Node/Durable.antt =====
-- What the node agent has on its disk when it acts on a command.
use open_llmops.Prelude.{
  ℕ, ◌≡◌, refl, sym, subst, Option, some, none, ◌==◌, nat_eq, ltb, find, Bool-cases, inl, inr, ◌≤◌,
}
use open_llmops.Node.Commands.{
  OwnerKey, owner_eq, owner_key, StartBinding, Store, or_zero, generation, Command, Processor,
  admit, advance_generation, bind_start, bind_over, bind_anew, is_start,
}
use open_llmops.Node.Waterline.{admit-IsRaised, raise-reaches}

-- The file holds what is in memory.
abbrev pub IsSaved : Store → Type 0
IsSaved s = s.disk ≡ s.memory

some_eq : {s t : Store} → ◌≡◌ {A = Option Store} (some s) (some t) → s ≡ t
some_eq h = cc

advance-IsSaved :
    (k : OwnerKey) (g : ℕ) (s : Store) → IsSaved s → IsSaved (advance_generation k g s)
unfolding advance_generation
advance-IsSaved k g s h = elim (Bool-cases (ltb (generation k s.memory) g)) [
  | inl low ↦ rw low
  | inr high ↦ rw high h
]

bind-IsSaved :
    (k : OwnerKey) (g f : ℕ) (o : Option StartBinding) (s s' : Store)
    → bind_over k g f o s ≡ some s'
    → IsSaved s
    → IsSaved s'
bind-IsSaved k g f none s s' e h = subst IsSaved (some_eq e) refl
bind-IsSaved k g f (some b) s s' e h = elim (Bool-cases (b.generation == g)) [
  | inr other ↦ subst IsSaved (some_eq {s = bind_anew k g f s.memory} {t = s'} (rw other at e)) refl
  | inl again ↦ elim (Bool-cases (b.fingerprint == f)) [
    | inl same ↦ subst IsSaved (some_eq (rw (again, same) at e)) (advance-IsSaved k g s h)
    | inr differ ↦ absurd (cc (rw (again, differ) at e))
  ]
]

module _ {W : Type 0} (p : Processor W) where
  admit-IsSaved : (c : Command) (s s' : Store) → admit p c s ≡ some s' → IsSaved s → IsSaved s'
  unfolding admit bind_start
  admit-IsSaved c s s' e h = elim (Bool-cases (is_start p c.body.action)) [
    | inl starts ↦
        bind-IsSaved (owner_key c.body.owner) c.body.owner.generation (p.start_fingerprint c.body)
          (find (owner_key c.body.owner) s.memory.starts) s s' (rw starts at e) h
    | inr other ↦
        subst IsSaved (some_eq (rw other at e))
          (advance-IsSaved (owner_key c.body.owner) c.body.owner.generation s h)
  ]

-- If the file holds what is in memory, then a command that is admitted has its generation in the
-- file, and the file holds what is in memory again.
pub admit-IsSaved_first :
    {W : Type 0} (p : Processor W) (c : Command) (s s' : Store)
    → admit p c s ≡ some s'
    → IsSaved s
    → IsSaved s' × (c.body.owner.generation ≤ generation (owner_key c.body.owner) s'.disk)
admit-IsSaved_first p c s s' e h =
    let saved = admit-IsSaved p c s s' e h in
    (
      saved,
      subst (λ m. c.body.owner.generation ≤ generation (owner_key c.body.owner) m) (sym saved)
          (subst (λ gs. c.body.owner.generation ≤ or_zero (find (owner_key c.body.owner) gs))
            (sym (admit-IsRaised p c s s' e).generations)
            (raise-reaches (owner_key c.body.owner) c.body.owner.generation s.memory)),
    )
