-- ===== src/Docker/Removal.antt =====
-- What is removed on the way to a start and by a cleanup: nothing that runs.
use open_llmops.Prelude.{
  ◌≡◌, inl, inr, refl, sym, ◌∙◌, ap, subst, String, true, false, Option, some, none, Result, ok,
  err, int_eq, string_eq, nat_eq, Bool-cases, find,
}
use open_llmops.Leases.{LeaseOwner}
use open_llmops.Docker.Labels.{Texts, is_terminal_status, contract_workload_name, generation_label}
use open_llmops.Docker.Info.{Container}
use open_llmops.Docker.Engine.{
  DockerError, not_found, api_error, unavailable, Failure, workload_conflict, docker, Engine, Call,
}
use open_llmops.Docker.Operate.{
  is_trusted, is_generation, removed, clean, unless_gone, cleanup_contract_workload,
}
use open_llmops.Docker.Moves.{IsDocker}

module _ {S : Type 0} (t : Texts) (e : Engine S) where
  -- The engine after it was asked, time and again, for the state of the container.
  pub data Asked (name : String) (s : S) : S → Type 0 where
    nothing : Asked name s s
    again : (s' : S) → Asked name s s' → Asked name s (e.inspect name s').1

  -- A container that the cleanup may remove.
  pub record IsRemovable (owner : LeaseOwner) (c : Container) : Type 0 where
    pub trusted : is_trusted t e owner c.labels ≡ true
    pub generation : is_generation t e owner.generation (find generation_label c.labels) ≡ true
    pub terminal : is_terminal_status c.status ≡ true

module _ {S : Type 0} (t : Texts) (e : Engine S) (view : S → String → Option Container)
    (d : IsDocker view e) (owner : LeaseOwner) (s : S) where
  -- How a cleanup ends. Nothing but the one call to remove changes anything.
  pub data Cleanup : Result Failure (Unit {0}) × S → Type 0 where
    absent :
        (s' : S)
        → Asked t e (contract_workload_name t owner.type owner.id) s s'
        → view s' (contract_workload_name t owner.type owner.id) ≡ none
        → Cleanup (ok tt, s')
    refused :
        (f : Failure) (s' : S)
        → Asked t e (contract_workload_name t owner.type owner.id) s s'
        → Cleanup (err f, s')
    removes :
        (c : Container) (s' : S)
        → Asked t e (contract_workload_name t owner.type owner.id) s s'
        → view s' (contract_workload_name t owner.type owner.id) ≡ some c
        → IsRemovable t e owner c
        → (q : Result Failure (Unit {0}) × S)
        → q ≡ removed t e (e.remove (contract_workload_name t owner.type owner.id) false false s')
        → Cleanup q

  abbrev target : String
  target = contract_workload_name t owner.type owner.id

  clean-Cleanup :
      (c : Container) (s' : S)
      → Asked t e target s s'
      → view s' target ≡ some c
      → Cleanup (clean t e owner c s')
  clean-Cleanup c s' asked seen = elim (Bool-cases (is_trusted t e owner c.labels)) [
    | inr no_trust ↦ rw no_trust (refused workload_conflict s' asked)
    | inl trust ↦
        elim (Bool-cases (is_generation t e owner.generation (find generation_label c.labels))) [
          | inr other ↦ rw (trust, other) (refused workload_conflict s' asked)
          | inl same ↦ elim (Bool-cases (is_terminal_status c.status)) [
            | inr lives ↦ rw (trust, same, lives) (refused workload_conflict s' asked)
            | inl ended ↦
                rw (trust, same, ended)
                  (removes c s' asked seen
                    (record { trusted = trust; generation = same; terminal = ended }) _
                    (ap (λ n. removed t e (e.remove n false false s')) (d.named s' target c seen)))
          ]
        ]
  ]

  -- One inspection, and what follows it where the container is there.
  inspected-Cleanup :
      (next : Container → Call S (Unit {0})) (s1 : S) (q : Result DockerError Container × S)
      → Asked t e target s s1
      → q ≡ e.inspect target s1
      → ((c : Container) (s' : S)
          → Asked t e target s s'
          → view s' target ≡ some c
          → Cleanup (next c s'))
      → Cleanup (unless_gone t e next q)
  inspected-Cleanup next s1 (q, s') asked h rest = by_answer q (ap (λ p. p.0) h)
    where
      asked_now : Asked t e target s s'
      asked_now = subst (Asked t e target s) (sym (ap (λ p. p.1) h)) (again s1 asked)

      by_answer :
          (q : Result DockerError Container)
          → q ≡ (e.inspect target s1).0
          → Cleanup (unless_gone t e next (q, s'))
      by_answer (err not_found) k = absent s' asked_now (
          subst (λ u. view u target ≡ none) (sym (ap (λ p. p.1) h))
            (d.inspect-missing target s1 (sym k)))
      by_answer (err api_error) k = refused (docker api_error) s' asked_now
      by_answer (err unavailable) k = refused (docker unavailable) s' asked_now
      by_answer (ok c) k = rest c s' asked_now (
          subst (λ u. view u target ≡ some c) (sym (ap (λ p. p.1) h))
            (d.inspect-ok target s1 c (sym k)))

  -- Let the engine behave as documented. A cleanup has found the container absent; or it has
  -- raised an error and only asked for the state of the container; or it has seen a container
  -- with the labels and the generation of the owner that has ended, and has then made one call to
  -- the engine, to remove it without force.
  pub cleanup_contract_workload-Cleanup : Cleanup (cleanup_contract_workload t e owner s)
  unfolding cleanup_contract_workload
  cleanup_contract_workload-Cleanup =
      inspected-Cleanup _ s (e.inspect target s) nothing refl (λ c s' asked seen.
        inspected-Cleanup (clean t e owner) s' (e.inspect c.name s') asked
          (ap (λ n. e.inspect n s') (d.named s' target c seen)) clean-Cleanup)

  removed-gone :
      (s' : S)
      → (removed t e (e.remove target false false s')).0 ≡ ok tt
      → view (removed t e (e.remove target false false s')).1 target ≡ none
  removed-gone s' h = by_answer (e.remove target false false s') refl h
    where
      by_answer :
          (q : Result DockerError (Unit {0}) × S)
          → q ≡ e.remove target false false s'
          → (removed t e q).0 ≡ ok tt
          → view (removed t e q).1 target ≡ none
      by_answer (err not_found, u) k h =
          subst (λ z. view z target ≡ none) (sym (ap (λ p. p.1) k))
            (d.remove-missing target false false s' (sym (ap (λ p. p.0) k)))
      by_answer (err api_error, u) k h = absurd (cc)
      by_answer (err unavailable, u) k h = absurd (cc)
      by_answer (ok _, u) k h =
          subst (λ z. view z target ≡ none) (sym (ap (λ p. p.1) k))
            (d.remove-ok target false false s' (sym (ap (λ p. p.0) k)))

  Cleanup-gone :
      (q : Result Failure (Unit {0}) × S) → Cleanup q → q.0 ≡ ok tt → view q.1 target ≡ none
  Cleanup-gone q (absent s' asked gone) h = gone
  Cleanup-gone q (refused f s' asked) h = absurd (cc)
  Cleanup-gone q (removes c s' asked seen may p k) h =
      subst (λ z. view z.1 target ≡ none) (sym k) (removed-gone s' (sym (ap (λ z. z.0) k) ∙ h))

  pub cleanup_contract_workload-gone :
      (cleanup_contract_workload t e owner s).0 ≡ ok tt
      → view (cleanup_contract_workload t e owner s).1 target ≡ none
  cleanup_contract_workload-gone h = Cleanup-gone _ cleanup_contract_workload-Cleanup h
