-- ===== src/Docker/Preparing.antt =====
-- What stands when a start is prepared: the container of this generation, or none that runs.
use open_llmops.Prelude.{
  ◌≡◌, refl, sym, ◌∙◌, ap, subst, String, true, false, Option, some, none, Result, ok, err, ltb,
  nat_eq, ◌==◌, Bool-cases, inl, inr, eq_of_beq,
}
use open_llmops.Leases.{LeaseOwner}
use open_llmops.Node.Inspect.{WorkloadInfo}
use open_llmops.Docker.Labels.{
  Texts, is_active_status, contract_workload_name, generation_from_labels,
}
use open_llmops.Docker.Info.{Container}
use open_llmops.Docker.Engine.{
  Failure, workload_not_found, workload_conflict, invalid_workload, runner_error, unexpected,
  docker, Engine, lifted,
}
use open_llmops.Docker.Allocate.{managed_container, to_info}
use open_llmops.Docker.Operate.{reuse, remove_old, prepare, prepared, prepare_contract_start}
use open_llmops.Docker.Moves.{IsDocker}
use open_llmops.Docker.Returns.{after-eq-ok, inspect-IsSeen}
use open_llmops.Docker.Described.{IsOf, to_info-IsOf}
use open_llmops.Docker.Starting.{managed_container-named}
use open_llmops.Docker.Halting.{IsUnused, none-IsUnused, managed_container-missing, remove_old-gone}

module _ {S : Type 0} (t : Texts) (e : Engine S) (view : S → String → Option Container)
    (d : IsDocker view e) where
  -- What `prepare_contract_start` returns, against what is there.
  abbrev pub IsPrepared : LeaseOwner → Option WorkloadInfo → S → Type 0
  IsPrepared owner none s = IsUnused t e view d s (contract_workload_name t owner.type owner.id)
  IsPrepared owner (some info) s =
      (info.generation ≡ owner.generation)
      × ((c : Container) × (view s (contract_workload_name t owner.type owner.id) ≡ some c)
          × IsOf t c info)

  -- An answer with information, or without.
  some_answer :
      {q : Option WorkloadInfo} {s u : S} (r : Option WorkloadInfo)
      → ◌≡◌ {A = Result Failure (Option WorkloadInfo) × S} (ok q, s) (ok r, u)
      → (q ≡ r) × (s ≡ u)
  some_answer r h = (cc (ap (λ z. z.0) h), ap (λ z. z.1) h)

  reuse-IsPrepared :
      (owner : LeaseOwner) (name : String) (c : Container) (s s' : S) (r : Option WorkloadInfo)
      → name ≡ contract_workload_name t owner.type owner.id
      → view s name ≡ some c
      → generation_from_labels t c.labels ≡ owner.generation
      → reuse t e name s ≡ (ok r, s')
      → IsPrepared owner r s'
  reuse-IsPrepared owner name c s s' r named seen same h =
      let (info, u, q, k) = after-eq-ok (to_info t e name s) _ r s' h in
      let (b, look, of_b) = to_info-IsOf t e view d name s info u q in
      let kept = look.quiet name b look.seen in
      let (answer, state) = some_answer r k in
      let labels = sym kept.same_labels ∙ ap (λ z. z.labels) (unique kept.old kept.was) in
      subst (λ z. IsPrepared owner z s') answer
        (subst (IsPrepared owner (some info)) state (
          of_b.generation ∙ (ap (generation_from_labels t) labels ∙ same),
          (b, subst (λ n. view u n ≡ some b) named look.seen, of_b),
        ))
    where
      unique : (z : Container) → view s name ≡ some z → z ≡ c
      unique z w = cc (w, seen)

  remove_old-IsPrepared :
      (owner : LeaseOwner) (name : String) (s s' : S) (r : Option WorkloadInfo)
      → name ≡ contract_workload_name t owner.type owner.id
      → remove_old t e name s ≡ (ok r, s')
      → IsPrepared owner r s'
  remove_old-IsPrepared owner name s s' none named h =
      none-IsUnused t e view d s' _
        (subst (λ n. view s' n ≡ none) named (remove_old-gone t e view d name s s' none h))
  remove_old-IsPrepared owner name s s' (some info) named h =
      let (_, u, q, k) = after-eq-ok (lifted (e.remove name false true s)) _ (some info) s' h in
      absurd (cc (ap (λ z. z.0) k))

  prepare-IsPrepared :
      (owner : LeaseOwner) (c : Container) (s s' : S) (r : Option WorkloadInfo)
      → c.name ≡ contract_workload_name t owner.type owner.id
      → view s c.name ≡ some c
      → prepare t e owner.generation c s ≡ (ok r, s')
      → IsPrepared owner r s'
  prepare-IsPrepared owner c s s' r named seen h =
      elim (Bool-cases (ltb owner.generation (generation_from_labels t c.labels))) [
        | inl newer ↦ absurd (cc (rw newer at h))
        | inr old ↦ elim (Bool-cases (generation_from_labels t c.labels == owner.generation)) [
          | inl same ↦
              reuse-IsPrepared owner c.name c s s' r named seen
                (eq_of_beq {a = generation_from_labels t c.labels} {b = owner.generation} same)
                (rw (old, same) at h)
          | inr other ↦ elim (Bool-cases (is_active_status c.status)) [
            | inl active ↦ absurd (cc (rw (old, other, active) at h))
            | inr ended ↦
                remove_old-IsPrepared owner c.name s s' r named (rw (old, other, ended) at h)
          ]
        ]
      ]

  prepared-IsPrepared :
      (owner : LeaseOwner) (s s' : S) (r : Option WorkloadInfo) (q : Result Failure Container × S)
      → t.is_safe_name (contract_workload_name t owner.type owner.id) ≡ true
      → managed_container t e (contract_workload_name t owner.type owner.id) s ≡ q
      → prepared t e owner.generation q ≡ (ok r, s')
      → IsPrepared owner r s'
  prepared-IsPrepared owner s s' r (err workload_not_found, u) safe h k =
      let (answer, state) = some_answer r k in
      subst (λ z. IsPrepared owner z s') answer
        (subst (IsPrepared owner none) state (
          managed_container-missing t e view d (contract_workload_name t owner.type owner.id) s u
            safe h))
  prepared-IsPrepared owner s s' r (err workload_conflict, u) safe h k = absurd (cc)
  prepared-IsPrepared owner s s' r (err invalid_workload, u) safe h k = absurd (cc)
  prepared-IsPrepared owner s s' r (err runner_error, u) safe h k = absurd (cc)
  prepared-IsPrepared owner s s' r (err unexpected, u) safe h k = absurd (cc)
  prepared-IsPrepared owner s s' r (err (docker x), u) safe h k = absurd (cc)
  prepared-IsPrepared owner s s' r (ok f, u) safe h k =
      let (c, u1, q1, k1) = after-eq-ok (lifted (e.inspect f.name u)) _ r s' k in
      let look = inspect-IsSeen e view d f.name u c u1 q1 in
      prepare-IsPrepared owner c u1 s' r
        (look.called ∙ managed_container-named t e view d _ f s u h)
        (subst (λ n. view u1 n ≡ some c) (sym look.called) look.seen) k1

  -- Let the engine behave as documented, and let the runner accept the name of the workload. A
  -- prepared start that returns information has found a container of the generation that is asked
  -- for; one that returns nothing leaves no active managed container of that name.
  pub prepare_contract_start-IsPrepared :
      (owner : LeaseOwner) (s s' : S) (r : Option WorkloadInfo)
      → t.is_safe_name (contract_workload_name t owner.type owner.id) ≡ true
      → prepare_contract_start t e owner s ≡ (ok r, s')
      → IsPrepared owner r s'
  unfolding prepare_contract_start
  prepare_contract_start-IsPrepared owner s s' r safe h =
      prepared-IsPrepared owner s s' r _ safe refl h
