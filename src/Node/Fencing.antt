-- ===== src/Node/Fencing.antt =====
-- A command of an older generation is not carried out once a newer one was, and what is carried out
-- is on the disk first.
use open_llmops.Prelude.{
  ℕ, ◌≡◌, refl, sym, ◌∙◌, subst, true, Option, some, none, List, [], ◌∷◌, nat_eq, ltb, Result, ok,
  err, find, Bool-cases, inl, inr, arith, ◌≤◌, ◌<◌,
}
use open_llmops.Node.Commands.{
  OwnerKey, owner_eq, owner_key, CommandResult, CachedCommand, Store, or_zero, generation,
  put_request, Command, NodeError, validation_error, invalid_workload, workload_conflict, other,
  Processor, dispatched, admit, admitted, unless_cached, execute, stale,
}
use open_llmops.Node.Waterline.{IsRaised, admit-IsRaised, raise-rises, raise-reaches}

-- Every generation seen in `s` is seen in `s'`.
abbrev pub IsAtLeast : Store → Store → Type 0
IsAtLeast s s' = (l : OwnerKey) → generation l s.memory ≤ generation l s'.memory

module _ {W : Type 0} (p : Processor W) where
  -- Commands executed one after the other; the answers are not kept.
  abbrev pub run : List Command → Store → W → Store × W
  run [] s w = (s, w)
  run (c ∷ cs) s w = let (r, s', w') = execute p c s w in run cs s' w'

  raised-IsAtLeast : (k : OwnerKey) (g : ℕ) (s s' : Store) → IsRaised k g s s' → IsAtLeast s s'
  raised-IsAtLeast k g s s' r l =
      subst (λ gs. generation l s.memory ≤ or_zero (find l gs)) (sym r.generations)
        (raise-rises k g s.memory l)

  -- A dispatched command leaves the generations as they were admitted.
  dispatched-generations :
      (c : Command) (s : Store) (q : Result NodeError CommandResult × W)
      → (dispatched p c s q).1.memory.generations ≡ s.memory.generations
  unfolding put_request
  dispatched-generations c s (ok r, w) = refl
  dispatched-generations c s (err (validation_error m), w) = refl
  dispatched-generations c s (err (invalid_workload m), w) = refl
  dispatched-generations c s (err (workload_conflict m), w) = refl
  dispatched-generations c s (err (other m), w) = refl

  dispatched-IsAtLeast :
      (c : Command) (s0 s : Store) (q : Result NodeError CommandResult × W)
      → IsAtLeast s0 s
      → IsAtLeast s0 (dispatched p c s q).1
  dispatched-IsAtLeast c s0 s q h l =
      subst (λ gs. generation l s0.memory ≤ or_zero (find l gs))
        (sym (dispatched-generations c s q)) (h l)

  admitted-IsAtLeast :
      (c : Command) (o : Option Store) (s : Store) (w : W)
      → admit p c s ≡ o
      → IsAtLeast s (admitted p c o s w).1
  unfolding put_request
  admitted-IsAtLeast c none s w e = λ l. omega arith
  admitted-IsAtLeast c (some s') s w e =
      dispatched-IsAtLeast c s s' _ (raised-IsAtLeast _ _ s s' (admit-IsRaised p c s s' e))

  cached-IsAtLeast :
      (c : Command) (o : Option CachedCommand) (s : Store) (w : W)
      → IsAtLeast s (unless_cached p c o s w).1
  cached-IsAtLeast c none s w = admitted-IsAtLeast c _ s w refl
  cached-IsAtLeast c (some cached) s w = λ l. omega arith

  execute-IsAtLeast : (c : Command) (s : Store) (w : W) → IsAtLeast s (execute p c s w).1
  unfolding execute
  execute-IsAtLeast c s w =
      elim (Bool-cases
        (ltb c.body.owner.generation (generation (owner_key c.body.owner) s.memory))) [
          | inl old ↦ rw old (λ l. omega arith)
          | inr current ↦ rw current (cached-IsAtLeast c _ s w)
        ]

  run-IsAtLeast : (cs : List Command) (s : Store) (w : W) → IsAtLeast s (run cs s w).0
  run-IsAtLeast [] s w l = omega arith
  run-IsAtLeast (c ∷ cs) s w l =
      omega (
        arith,
        execute-IsAtLeast c s w l,
        run-IsAtLeast cs (execute p c s w).1 (execute p c s w).2 l,
      )

  -- A command that is admitted is seen.
  execute-sees :
      (c : Command) (s s1 : Store) (w : W)
      → find c.request_id s.memory.requests ≡ none
      → admit p c s ≡ some s1
      → c.body.owner.generation ≤ generation (owner_key c.body.owner) (execute p c s w).1.memory
  unfolding execute
  execute-sees c s s1 w new e =
      elim (Bool-cases
        (ltb c.body.owner.generation (generation (owner_key c.body.owner) s.memory))) [
          | inl old ↦ rw old (ground arith)
          | inr current ↦
              rw (current, new, e)
                (subst (λ gs. c.body.owner.generation ≤ or_zero (find (owner_key c.body.owner) gs))
                  (sym (
                    dispatched-generations c s1 (p.dispatch c w)
                    ∙ (admit-IsRaised p c s s1 e).generations))
                  (raise-reaches (owner_key c.body.owner) c.body.owner.generation s.memory))
        ]

  stale_lem :
      (d : Command) (s : Store) (w : W)
      → d.body.owner.generation < generation (owner_key d.body.owner) s.memory
      → execute p d s w ≡ (ok stale, s, w)
  unfolding execute
  stale_lem d s w h = rw low
    where
      low : ltb d.body.owner.generation (generation (owner_key d.body.owner) s.memory) ≡ true
      low = ground arith

-- Once a new command was admitted, a command of the same owner and an older generation is refused
-- as stale, whatever commands come between, and it changes neither the store nor the containers.
pub execute-fences :
    {W : Type 0} (p : Processor W) (c : Command) (cs : List Command) (d : Command) (s s1 : Store)
    (w : W)
    → find c.request_id s.memory.requests ≡ none
    → admit p c s ≡ some s1
    → owner_key d.body.owner ≡ owner_key c.body.owner
    → d.body.owner.generation < c.body.owner.generation
    → let (s2, w2) = run p (c ∷ cs) s w in execute p d s2 w2 ≡ (ok stale, s2, w2)
execute-fences p c cs d s s1 w new e same older =
    let seen = execute-sees p c s s1 w new e in
    let later =
      run-IsAtLeast p cs (execute p c s w).1 (execute p c s w).2 (owner_key c.body.owner) in
    stale_lem p d (run p (c ∷ cs) s w).0 (run p (c ∷ cs) s w).1 (
      subst (λ k. d.body.owner.generation < generation k (run p (c ∷ cs) s w).0.memory) (sym same)
        (omega (arith, seen, later, older)))
