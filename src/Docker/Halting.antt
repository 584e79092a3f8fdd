-- ===== src/Docker/Halting.antt =====
-- When a container is said to be gone, or stopped, it uses no card.
use open_llmops.Prelude.{
  ℕ, ◌≡◌, inl, inr, refl, ◌∙◌, ap, subst, String, true, false, Option, some, none, Result, ok, err,
  int_eq, string_eq, nat_eq, ◌==◌, Bool-cases,
}
use open_llmops.Leases.{LeaseOwner}
use open_llmops.Workloads.{LeaseOwnerType}
use open_llmops.Node.Inspect.{WorkloadInfo}
use open_llmops.Docker.Labels.{
  Texts, is_active_status, is_managed, contract_workload_name, generation_from_labels,
}
use open_llmops.Docker.Info.{Container}
use open_llmops.Docker.Engine.{
  DockerError, not_found, api_error, unavailable, Failure, workload_not_found, Engine, lifted,
}
use open_llmops.Docker.Allocate.{found, managed_container, to_info}
use open_llmops.Docker.Operate.{
  remove_old, discard, halt, stop_described, stop_contract_workload, is_completed,
}
use open_llmops.Docker.Moves.{IsDocker}
use open_llmops.Docker.Returns.{after-eq-ok, lifted-eq-ok, inspect-IsSeen}
use open_llmops.Docker.Described.{IsOf, to_info-IsOf}
use open_llmops.Docker.Starting.{managed_container-named}

module _ {S : Type 0} (t : Texts) (e : Engine S) (view : S → String → Option Container)
    (d : IsDocker view e) where
  -- There is no managed container of this name that is active.
  abbrev pub IsUnused : S → String → Type 0
  IsUnused s name =
      (c : Container)
      → view s name ≡ some c
      → is_managed c.labels ≡ true
      → is_active_status c.status ≡ false

  pub none-IsUnused : (s : S) (name : String) → view s name ≡ none → IsUnused s name
  none-IsUnused s name h c v m = cc

  -- The state after a call is known by an equation.
  pub moved : {A : Type 0} {q p : A × S} → q ≡ p → q.1 ≡ p.1
  moved h = ap (λ z. z.1) h

  pub missing-IsUnused :
      (name : String) (s s' : S) → e.inspect name s ≡ (err not_found, s') → IsUnused s' name
  missing-IsUnused name s s' h =
      none-IsUnused s' name
        (subst (λ u. view u name ≡ none) (moved h) (d.inspect-missing name s (ap (λ z. z.0) h)))

  unmanaged-IsUnused :
      (name : String) (s s' : S) (c : Container)
      → e.inspect name s ≡ (ok c, s')
      → is_managed c.labels ≡ false
      → IsUnused s' name
  unmanaged-IsUnused name s s' c h m b v k =
      let seen =
        subst (λ u. view u name ≡ some c) (moved h) (d.inspect-ok name s c (ap (λ z. z.0) h)) in
      absurd (cc (m, k, ap (λ (o : Option Container). o) seen, v))

  found-missing :
      (name : String) (s s' : S) (q : Result DockerError Container × S)
      → e.inspect name s ≡ q
      → found t e q ≡ (err workload_not_found, s')
      → IsUnused s' name
  found-missing name s s' (err not_found, u) h k =
      subst (λ z. IsUnused z name) (moved k) (missing-IsUnused name s u h)
  found-missing name s s' (err api_error, u) h k = absurd (cc)
  found-missing name s s' (err unavailable, u) h k = absurd (cc)
  found-missing name s s' (ok c, u) h k = elim (Bool-cases (is_managed c.labels)) [
    | inl m ↦ absurd (cc (rw m at k))
    | inr m ↦ subst (λ z. IsUnused z name) (moved (rw m at k)) (unmanaged-IsUnused name s u c h m)
  ]

  pub managed_container-missing :
      (name : String) (s s' : S)
      → t.is_safe_name name ≡ true
      → managed_container t e name s ≡ (err workload_not_found, s')
      → IsUnused s' name
  unfolding managed_container
  managed_container-missing name s s' safe h =
      found-missing name s s' (e.inspect name s) refl (rw safe at h)

  -- A removal that returns has removed.
  pub remove_old-gone :
      (name : String) (s s' : S) (o : Option WorkloadInfo)
      → remove_old t e name s ≡ (ok o, s')
      → view s' name ≡ none
  remove_old-gone name s s' o h =
      let (_, u, q, k) = after-eq-ok (lifted (e.remove name false true s)) _ o s' h in
      let r = lifted-eq-ok (e.remove name false true s) tt u (rw_unit q) in
      subst (λ z. view z name ≡ none) (moved r ∙ moved k)
        (d.remove-ok name false true s (ap (λ z. z.0) r))
    where
      rw_unit :
          {a : Unit {0}} {u : S}
          → lifted (e.remove name false true s) ≡ (ok a, u)
          → lifted (e.remove name false true s) ≡ (ok tt, u)
      rw_unit q = q

  -- How a stop ends: nothing is left, or a job that has completed by itself.
  abbrev pub IsEnded : String → LeaseOwnerType → Option WorkloadInfo → S → Type 0
  IsEnded name o none s = view s name ≡ none
  IsEnded name o (some info) s =
      (is_completed o info ≡ true) × ((c : Container) × (view s name ≡ some c) × IsOf t c info)

  -- The container is as `info` tells.
  abbrev pub IsTold : String → WorkloadInfo → S → Type 0
  IsTold name info s = (c : Container) × (view s name ≡ some c) × IsOf t c info

  pub to_info-IsTold :
      (name : String) (s : S) (info : WorkloadInfo) (s' : S)
      → to_info t e name s ≡ (ok info, s')
      → IsTold name info s' × (info.name ≡ name)
  to_info-IsTold name s info s' h =
      let (c, look, of_c) = to_info-IsOf t e view d name s info s' h in
      ((c, look.seen, of_c), of_c.name ∙ look.called)

  remove_old-IsEnded :
      (name : String) (o : LeaseOwnerType) (s s' : S) (r : Option WorkloadInfo)
      → remove_old t e name s ≡ (ok r, s')
      → IsEnded name o r s'
  remove_old-IsEnded name o s s' none h = remove_old-gone name s s' none h
  remove_old-IsEnded name o s s' (some info) h =
      let (_, u, q, k) = after-eq-ok (lifted (e.remove name false true s)) _ (some info) s' h in
      absurd (cc (ap (λ z. z.0) k))

  kept-IsEnded :
      (name : String) (o : LeaseOwnerType) (info : WorkloadInfo) (s s' : S)
      (r : Option WorkloadInfo)
      → is_completed o info ≡ true
      → IsTold name info s
      → ◌≡◌ {A = Result Failure (Option WorkloadInfo) × S} (ok (some info), s) (ok r, s')
      → IsEnded name o r s'
  kept-IsEnded name o info s s' r done told h =
      subst (IsEnded name o r) (moved h)
        (subst (λ z. IsEnded name o z s) (same_answer (ap (λ z. z.0) h)) (done, told))
    where
      same_answer :
          ◌≡◌ {A = Result Failure (Option WorkloadInfo)} (ok (some info)) (ok r) → some info ≡ r
      same_answer k = cc

  discard-IsEnded :
      (name : String) (o : LeaseOwnerType) (info : WorkloadInfo) (s s' : S)
      (r : Option WorkloadInfo)
      → IsTold name info s
      → discard t e o name info s ≡ (ok r, s')
      → IsEnded name o r s'
  discard-IsEnded name o info s s' r told h = elim (Bool-cases (is_completed o info)) [
    | inl done ↦ kept-IsEnded name o info s s' r done told (rw done at h)
    | inr open_end ↦ remove_old-IsEnded name o s s' r (rw open_end at h)
  ]

  halt-IsEnded :
      (name : String) (o : LeaseOwnerType) (timeout : ℕ) (s s' : S) (r : Option WorkloadInfo)
      → halt t e o timeout name s ≡ (ok r, s')
      → IsEnded name o r s'
  halt-IsEnded name o timeout s s' r h =
      let (_, s1, q1, k1) = after-eq-ok (lifted (e.stop name timeout s)) _ r s' h in
      let (info, s2, q2, k2) = after-eq-ok (to_info t e name s1) _ r s' k1 in
      discard-IsEnded name o info s2 s' r (to_info-IsTold name s1 info s2 q2).0 k2

  stop_described-IsEnded :
      (name : String) (o : LeaseOwnerType) (timeout : ℕ) (info : WorkloadInfo) (s s' : S)
      (r : Option WorkloadInfo)
      → IsTold name info s
      → info.name ≡ name
      → stop_described t e o timeout info s ≡ (ok r, s')
      → IsEnded name o r s'
  stop_described-IsEnded name o timeout info s s' r told called h =
      elim (Bool-cases (is_completed o info)) [
        | inl done ↦ kept-IsEnded name o info s s' r done told (rw done at h)
        | inr open_end ↦ elim (Bool-cases (is_active_status info.status)) [
          | inl up ↦
              subst (λ n. IsEnded n o r s') called
                (halt-IsEnded info.name o timeout s s' r (rw (open_end, up) at h))
          | inr down ↦
              subst (λ n. IsEnded n o r s') called
                (remove_old-IsEnded info.name o s s' r (rw (open_end, down) at h))
        ]
      ]

  -- Let the engine behave as documented. A stop that returns nothing leaves no container of that
  -- name; one that returns information leaves the container as it is told, and that is a training
  -- or an evaluation that has exited with the code 0.
  pub stop_contract_workload-IsEnded :
      (owner : LeaseOwner) (timeout : ℕ) (s s' : S) (r : Option WorkloadInfo)
      → stop_contract_workload t e owner timeout s ≡ (ok r, s')
      → IsEnded (contract_workload_name t owner.type owner.id) owner.type r s'
  unfolding stop_contract_workload
  stop_contract_workload-IsEnded owner timeout s s' r h =
      let name = contract_workload_name t owner.type owner.id in
      let (f, s1, q1, k1) = after-eq-ok (managed_container t e name s) _ r s' h in
      let (c, s2, q2, k2) = after-eq-ok (lifted (e.inspect f.name s1)) _ r s' k1 in
      let called =
        (inspect-IsSeen e view d f.name s1 c s2 q2).called
        ∙ managed_container-named t e view d name f s s1 q1 in
      elim (Bool-cases (generation_from_labels t c.labels == owner.generation)) [
        | inr other ↦ absurd (cc (rw other at k2))
        | inl same ↦
            let (info, s3, q3, k3) = after-eq-ok (to_info t e c.name s2) _ r s' (rw same at k2) in
            let (told, named) = to_info-IsTold c.name s2 info s3 q3 in
            stop_described-IsEnded name owner.type timeout info s3 s' r
              (subst (λ n. IsTold n info s3) called told) (named ∙ called) k3
      ]
