-- ===== src/Docker/Missing.antt =====
-- The runner says that a container is not there only where it looked for it.
use open_llmops.Prelude.{
  ℕ, ◌≡◌, ◌⊎◌, inl, inr, refl, String, Bool, true, false, Option, some, none, Result, ok, err,
  nat_eq, ◌==◌, if◌then◌else◌,
}
use open_llmops.Leases.{LeaseOwner}
use open_llmops.Workloads.{LeaseOwnerType}
use open_llmops.Node.Inspect.{WorkloadInfo}
use open_llmops.Docker.Labels.{
  Texts, is_active_status, contract_workload_name, generation_from_labels,
}
use open_llmops.Docker.Info.{Container, info_of}
use open_llmops.Docker.Engine.{
  DockerError, Failure, workload_not_found, Engine, Call, after, ◌>>=◌, lifted, uncaught,
}
use open_llmops.Docker.Allocate.{managed_container, informed, to_info}
use open_llmops.Docker.Operate.{
  get_workload, get_contract_workload, remove_old, discard, halt, stop_described,
  stop_contract_workload, is_completed,
}
use open_llmops.Docker.Moves.{IsDocker}
use open_llmops.Docker.Halting.{IsUnused, managed_container-missing}

module _ {S : Type 0} where
  -- The call does not raise `WorkloadNotFound`.
  abbrev NeverMissing : {A : Type 0} → Call S A → Type 0
  NeverMissing call = (s s' : S) → call s ≡ (err workload_not_found, s') → ⊥

  -- A sequence that raises has raised at its first call, or later.
  after-eq-err :
      {A B : Type 0} (q : Result Failure A × S) (next : A → Call S B) (f : Failure) (s' : S)
      → after q next ≡ (err f, s')
      → (q ≡ (err f, s')) ⊎ ((a : A) × (s : S) × (q ≡ (ok a, s)) × (next a s ≡ (err f, s')))
  after-eq-err (ok a, s) next f s' h = inr (a, s, refl, h)
  after-eq-err (err x, s) next f s' h = inl (cc)

  >>=-never :
      {A B : Type 0} (call : Call S A) (next : A → Call S B)
      → NeverMissing call
      → ((a : A) → NeverMissing (next a))
      → NeverMissing (call >>= next)
  >>=-never call next h k s s' r = elim (after-eq-err (call s) next workload_not_found s' r) [
    | inl first ↦ h s s' first
    | inr (a, u, q, later) ↦ k a u s' later
  ]

  if-never :
      {A : Type 0} (b : Bool) (x y : Call S A)
      → NeverMissing x
      → NeverMissing y
      → NeverMissing (if b then x else y)
  if-never true x y h k = h
  if-never false x y h k = k

  uncaught-never : {A : Type 0} (call : S → Result DockerError A × S) → NeverMissing (uncaught call)
  uncaught-never {A} call s s' h = by_answer (call s) h
    where
      by_answer : (q : Result DockerError A × S) → lifted q ≡ (err workload_not_found, s') → ⊥
      by_answer (ok a, u) k = cc
      by_answer (err x, u) k = cc

module _ {S : Type 0} (t : Texts) (e : Engine S) where
  to_info-never : (name : String) → NeverMissing (to_info t e name)
  unfolding to_info
  to_info-never name =
      >>=-never (uncaught (e.inspect name)) _ (uncaught-never (e.inspect name))
        (λ c. told (info_of t c))
    where
      told : (o : Option WorkloadInfo) → NeverMissing (informed t e o)
      told none s s' h = cc
      told (some info) s s' h = cc

  remove_old-never : (name : String) → NeverMissing (remove_old t e name)
  remove_old-never name =
      >>=-never (uncaught (e.remove name false true)) _ (uncaught-never (e.remove name false true))
        (λ _ s s' h. cc)

  discard-never :
      (o : LeaseOwnerType) (name : String) (info : WorkloadInfo)
      → NeverMissing (discard t e o name info)
  discard-never o name info =
      if-never (is_completed o info) _ _ (λ s s' h. cc) (remove_old-never name)

  halt-never :
      (o : LeaseOwnerType) (timeout : ℕ) (name : String) → NeverMissing (halt t e o timeout name)
  halt-never o timeout name =
      >>=-never (uncaught (e.stop name timeout)) _ (uncaught-never (e.stop name timeout))
        (λ _. >>=-never (to_info t e name) _ (to_info-never name) (discard-never o name))

  stop_described-never :
      (o : LeaseOwnerType) (timeout : ℕ) (info : WorkloadInfo)
      → NeverMissing (stop_described t e o timeout info)
  stop_described-never o timeout info =
      if-never (is_completed o info) _ _ (λ s s' h. cc)
        (if-never (is_active_status info.status) _ _ (halt-never o timeout info.name)
          (remove_old-never info.name))

  module _ (view : S → String → Option Container) (d : IsDocker view e) (owner : LeaseOwner) where
    after-missing :
        {A : Type 0} (next : Container → Call S A) (s s' : S)
        → t.is_safe_name (contract_workload_name t owner.type owner.id) ≡ true
        → ((c : Container) → NeverMissing (next c))
        → after (managed_container t e (contract_workload_name t owner.type owner.id) s) next
          ≡ (err workload_not_found, s')
        → IsUnused t e view d s' (contract_workload_name t owner.type owner.id)
    after-missing next s s' safe never h =
        elim (after-eq-err (managed_container t e (contract_workload_name t owner.type owner.id) s)
          next workload_not_found s' h) [
            | inl first ↦
                managed_container-missing t e view d (contract_workload_name t owner.type owner.id)
                  s s' safe first
            | inr (c, u, q, later) ↦ absurd (never c u s' later)
          ]

    pub stop_contract_workload-missing :
        (timeout : ℕ) (s s' : S)
        → t.is_safe_name (contract_workload_name t owner.type owner.id) ≡ true
        → stop_contract_workload t e owner timeout s ≡ (err workload_not_found, s')
        → IsUnused t e view d s' (contract_workload_name t owner.type owner.id)
    unfolding stop_contract_workload
    stop_contract_workload-missing timeout s s' safe h =
        after-missing _ s s' safe
          (λ f. >>=-never (uncaught (e.inspect f.name)) _ (uncaught-never (e.inspect f.name)) (λ c.
            if-never (generation_from_labels t c.labels == owner.generation) _ _
              (>>=-never (to_info t e c.name) _ (to_info-never c.name)
                (stop_described-never owner.type timeout))
              (λ u u' k. cc)))
          h

    pub get_contract_workload-missing :
        (s s' : S)
        → t.is_safe_name (contract_workload_name t owner.type owner.id) ≡ true
        → get_contract_workload t e owner s ≡ (err workload_not_found, s')
        → IsUnused t e view d s' (contract_workload_name t owner.type owner.id)
    unfolding get_contract_workload get_workload
    get_contract_workload-missing s s' safe h =
        after-missing _ s s' safe (λ c. to_info-never c.name) h
