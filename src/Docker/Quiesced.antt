-- ===== src/Docker/Quiesced.antt =====
-- An inference container that is confirmed to be stopped uses no card.
use open_llmops.Prelude.{
  ℕ, ◌≡◌, refl, sym, ◌∙◌, ap, subst, String, Bool, true, false, not, ◌&&◌, ◌||◌, Option, some, none,
  [], ◌∷◌, Result, ok, err, elem, string_eq, nat_eq, ◌==◌, arith, Bool-cases, inl, inr,
}
use open_llmops.Node.Inspect.{inference}
use open_llmops.Docker.Labels.{
  Texts, is_active_status, is_managed, workload_name, generation_from_labels,
}
use open_llmops.Docker.Info.{Container}
use open_llmops.Docker.Engine.{
  DockerError, not_found, api_error, unavailable, Failure, workload_not_found, workload_conflict,
  invalid_workload, runner_error, unexpected, docker, Engine,
}
use open_llmops.Docker.Allocate.{found, managed_container}
use open_llmops.Docker.Operate.{
  confirmed, removed_created, quiesce, reloaded, quiesced, quiesce_failed_inference,
}
use open_llmops.Docker.Moves.{IsDocker}
use open_llmops.Docker.Starting.{managed_container-named}
use open_llmops.Docker.Halting.{
  IsUnused, none-IsUnused, missing-IsUnused, managed_container-missing, moved,
}

module _ {S : Type 0} (t : Texts) (e : Engine S) (view : S → String → Option Container)
    (d : IsDocker view e) where
  confirmed-IsUnused :
      (name : String) (s s' : S) (q : Result DockerError Container × S)
      → e.inspect name s ≡ q
      → confirmed t e q ≡ (ok true, s')
      → IsUnused t e view d s' name
  confirmed-IsUnused name s s' (err not_found, u) h k =
      subst (λ z. IsUnused t e view d z name) (moved t e view d k)
        (missing-IsUnused t e view d name s u h)
  confirmed-IsUnused name s s' (err api_error, u) h k = absurd (cc)
  confirmed-IsUnused name s s' (err unavailable, u) h k = absurd (cc)
  confirmed-IsUnused name s s' (ok c, u) h k = λ b v m.
      let seen =
        subst (λ z. view z name ≡ some c) (moved t e view d h ∙ moved t e view d k)
          (d.inspect-ok name s c (ap (λ z. z.0) h)) in
      still b c (cc (seen, v)) (off (is_active_status c.status) _ (ap is_ok (ap (λ z. z.0) k)))
    where
      is_ok : Result Failure Bool → Bool
      is_ok r = elim r [ ok b ↦ b | err _ ↦ false ]

      off : (a b : Bool) → (not a && b) ≡ true → a ≡ false
      off a b h = ground arith

      still :
          (b c : Container)
          → b ≡ c
          → is_active_status c.status ≡ false
          → is_active_status b.status ≡ false
      still b c p h = subst (λ z. is_active_status z.status ≡ false) (sym p) h

  removed_created-IsUnused :
      (name : String) (s s' : S) (q : Result DockerError (Unit {0}) × S)
      → e.remove name false true s ≡ q
      → removed_created t e q ≡ (ok true, s')
      → IsUnused t e view d s' name
  removed_created-IsUnused name s s' (err x, u) h k = absurd (cc)
  removed_created-IsUnused name s s' (ok _, u) h k = none-IsUnused t e view d s' name (
      subst (λ z. view z name ≡ none) (moved t e view d h ∙ moved t e view d k)
        (d.remove-ok name false true s (ap (λ z. z.0) h)))

  quiesce-IsUnused :
      (name : String) (g timeout : ℕ) (c : Container) (s s' : S)
      → c.name ≡ name
      → quiesce t e g timeout c s ≡ (ok true, s')
      → IsUnused t e view d s' name
  quiesce-IsUnused name g timeout c s s' called h =
      elim (Bool-cases (not (generation_from_labels t c.labels == g) || c.status == "removing")) [
        | inl bad ↦ absurd (cc (rw bad at h))
        | inr fine ↦ elim (Bool-cases (c.status == "created")) [
          | inl made ↦
              subst (λ n. IsUnused t e view d s' n) called
                (removed_created-IsUnused c.name s s' _ refl (rw (fine, made) at h))
          | inr old ↦ elim (Bool-cases (elem c.status ("running" ∷ "restarting" ∷ "paused" ∷ []))) [
            | inl up ↦
                subst (λ n. IsUnused t e view d s' n) called
                  (confirmed-IsUnused c.name (e.stop c.name timeout s).1 s' _ refl
                    (rw (fine, old, up) at h))
            | inr down ↦
                subst (λ n. IsUnused t e view d s' n) called
                  (confirmed-IsUnused c.name s s' _ refl (rw (fine, old, down) at h))
          ]
        ]
      ]

  reloaded-IsUnused :
      (name : String) (g timeout : ℕ) (s s' : S) (q : Result DockerError Container × S)
      → e.inspect name s ≡ q
      → reloaded t e g timeout q ≡ (ok true, s')
      → IsUnused t e view d s' name
  reloaded-IsUnused name g timeout s s' (err not_found, u) h k =
      subst (λ z. IsUnused t e view d z name) (moved t e view d k)
        (missing-IsUnused t e view d name s u h)
  reloaded-IsUnused name g timeout s s' (err api_error, u) h k = absurd (cc)
  reloaded-IsUnused name g timeout s s' (err unavailable, u) h k = absurd (cc)
  reloaded-IsUnused name g timeout s s' (ok c, u) h k =
      quiesce-IsUnused name g timeout c u s'
        (d.named (e.inspect name s).1 name c (d.inspect-ok name s c (ap (λ z. z.0) h))) k

  found-caught :
      (q : Result DockerError Container × S) (u : S) → found t e q ≡ (err (docker not_found), u) → ⊥
  found-caught (err not_found, v) u h = absurd (cc)
  found-caught (err api_error, v) u h = absurd (cc)
  found-caught (err unavailable, v) u h = absurd (cc)
  found-caught (ok c, v) u h = elim (Bool-cases (is_managed c.labels)) [
    | inl m ↦ absurd (cc (rw m at h))
    | inr m ↦ absurd (cc (rw m at h))
  ]

  managed_container-caught :
      (name : String) (s u : S) → managed_container t e name s ≡ (err (docker not_found), u) → ⊥
  unfolding managed_container
  managed_container-caught name s u h = elim (Bool-cases (t.is_safe_name name)) [
    | inl safe ↦ found-caught (e.inspect name s) u (rw safe at h)
    | inr bad ↦ absurd (cc (rw bad at h))
  ]

  quiesced-IsUnused :
      (name : String) (g timeout : ℕ) (s s' : S) (q : Result Failure Container × S)
      → t.is_safe_name name ≡ true
      → managed_container t e name s ≡ q
      → quiesced t e g timeout q ≡ (ok true, s')
      → IsUnused t e view d s' name
  quiesced-IsUnused name g timeout s s' (err workload_not_found, u) safe h k =
      subst (λ z. IsUnused t e view d z name) (moved t e view d k)
        (managed_container-missing t e view d name s u safe h)
  quiesced-IsUnused name g timeout s s' (err workload_conflict, u) safe h k = absurd (cc)
  quiesced-IsUnused name g timeout s s' (err invalid_workload, u) safe h k = absurd (cc)
  quiesced-IsUnused name g timeout s s' (err runner_error, u) safe h k = absurd (cc)
  quiesced-IsUnused name g timeout s s' (err unexpected, u) safe h k = absurd (cc)
  quiesced-IsUnused name g timeout s s' (err (docker not_found), u) safe h k =
      absurd (managed_container-caught name s u h)
  quiesced-IsUnused name g timeout s s' (err (docker api_error), u) safe h k = absurd (cc)
  quiesced-IsUnused name g timeout s s' (err (docker unavailable), u) safe h k = absurd (cc)
  quiesced-IsUnused name g timeout s s' (ok c, u) safe h k =
      reloaded-IsUnused name g timeout u s' _ refl (
        subst (λ n. reloaded t e g timeout (e.inspect n u) ≡ (ok true, s'))
          (managed_container-named t e view d name c s u h) k)

  -- Let the engine behave as documented, and let the runner accept the name of the inference
  -- container. If the runner confirms that it is stopped, then no managed container of that name
  -- is active.
  pub quiesce_failed_inference-IsUnused :
      (id g timeout : ℕ) (s s' : S)
      → t.is_safe_name (workload_name t inference id) ≡ true
      → quiesce_failed_inference t e id g timeout s ≡ (ok true, s')
      → IsUnused t e view d s' (workload_name t inference id)
  unfolding quiesce_failed_inference
  quiesce_failed_inference-IsUnused id g timeout s s' safe h =
      quiesced-IsUnused (workload_name t inference id) g timeout s s' _ safe refl h
