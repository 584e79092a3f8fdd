-- ===== src/Docker/Quiet.antt =====
-- The operations of the runner that neither create nor activate a container.
use open_llmops.Prelude.{
  ℕ, ◌≡◌, inl, inr, refl, sym, subst, String, Bool, true, false, not, ◌&&◌, ◌||◌, Option, some,
  none, [], ◌∷◌, Result, ok, err, elem, int_eq, string_eq, nat_eq, ◌==◌, Bool-cases, if◌then◌else◌,
  find, ltb,
}
use open_llmops.Leases.{LeaseOwner}
use open_llmops.Workloads.{LeaseOwnerType}
use open_llmops.Node.Inspect.{WorkloadInfo}
use open_llmops.Docker.Labels.{
  Texts, is_active_status, is_managed, is_terminal_status, contract_workload_name,
  generation_from_labels, generation_label,
}
use open_llmops.Docker.Info.{Container, info_of}
use open_llmops.Docker.Engine.{
  DockerError, not_found, api_error, unavailable, Failure, workload_not_found, workload_conflict,
  invalid_workload, runner_error, unexpected, docker, Engine, Call, return, raise, uncaught,
}
use open_llmops.Docker.Allocate.{found, managed_container, informed, to_info}
use open_llmops.Docker.Operate.{
  get_workload, remove_old, reuse, prepare, prepared, prepare_contract_start, discard, halt,
  stop_described, stop_contract_workload, is_completed, is_trusted, is_generation, removed, clean,
  unless_gone, cleanup_contract_workload, confirmed, removed_created, quiesce, reloaded, quiesced,
  quiesce_failed_inference, stop, delete,
}
use open_llmops.Docker.Moves.{
  IsQuiet, IsDocker, IsQuiet-refl, IsQuiet-trans, IsQuietCall, >>=-IsQuiet, uncaught-IsQuiet,
}

module _ {S : Type 0} (t : Texts) (e : Engine S) (view : S → String → Option Container)
    (d : IsDocker view e) where
  -- A branch on a test.
  pub if-IsQuiet :
      {A : Type 0} (b : Bool) (x y : Call S A)
      → IsQuietCall view x
      → IsQuietCall view y
      → IsQuietCall view (if b then x else y)
  if-IsQuiet true x y h k = h
  if-IsQuiet false x y h k = k

  pub return-IsQuiet : {A : Type 0} (a : A) → IsQuietCall view (return {S = S} a)
  return-IsQuiet a s = IsQuiet-refl view s

  pub raise-IsQuiet : (A : Type 0) (x : Failure) → IsQuietCall view (raise {S = S} {A = A} x)
  raise-IsQuiet A x s = IsQuiet-refl view s

  pub inspect-IsQuiet : (n : String) → IsQuietCall view (uncaught (e.inspect n))
  inspect-IsQuiet n = uncaught-IsQuiet view (e.inspect n) (d.inspect-IsQuiet n)

  remove-IsQuiet : (n : String) (force v : Bool) → IsQuietCall view (uncaught (e.remove n force v))
  remove-IsQuiet n force v = uncaught-IsQuiet view (e.remove n force v) (d.remove-IsQuiet n force v)

  stop_call-IsQuiet : (n : String) (timeout : ℕ) → IsQuietCall view (uncaught (e.stop n timeout))
  stop_call-IsQuiet n timeout = uncaught-IsQuiet view (e.stop n timeout) (d.stop-IsQuiet n timeout)

  found-state : (q : Result DockerError Container × S) → (found t e q).1 ≡ q.1
  found-state (err not_found, s) = refl
  found-state (err api_error, s) = refl
  found-state (err unavailable, s) = refl
  found-state (ok c, s) = elim (Bool-cases (is_managed c.labels)) [
    | inl h ↦ rw h refl
    | inr h ↦ rw h refl
  ]

  pub managed_container-IsQuiet : (n : String) → IsQuietCall view (managed_container t e n)
  unfolding managed_container
  managed_container-IsQuiet n s = elim (Bool-cases (t.is_safe_name n)) [
    | inl h ↦ rw (h, found-state (e.inspect n s)) (d.inspect-IsQuiet n s)
    | inr h ↦ rw h (IsQuiet-refl view s)
  ]

  informed-IsQuiet : (o : Option WorkloadInfo) → IsQuietCall view (informed t e o)
  informed-IsQuiet none = raise-IsQuiet WorkloadInfo unexpected
  informed-IsQuiet (some info) = return-IsQuiet info

  pub to_info-IsQuiet : (n : String) → IsQuietCall view (to_info t e n)
  unfolding to_info
  to_info-IsQuiet n =
      >>=-IsQuiet view (uncaught (e.inspect n)) _ (inspect-IsQuiet n)
        (λ c. informed-IsQuiet (info_of t c))

  pub get_workload-IsQuiet : (n : String) → IsQuietCall view (get_workload t e n)
  unfolding get_workload
  get_workload-IsQuiet n =
      >>=-IsQuiet view (managed_container t e n) _ (managed_container-IsQuiet n)
        (λ c. to_info-IsQuiet c.name)

  pub remove_old-IsQuiet : (n : String) → IsQuietCall view (remove_old t e n)
  remove_old-IsQuiet n =
      >>=-IsQuiet view (uncaught (e.remove n false true)) _ (remove-IsQuiet n false true)
        (λ _. return-IsQuiet {A = Option WorkloadInfo} none)

  reuse-IsQuiet : (n : String) → IsQuietCall view (reuse t e n)
  reuse-IsQuiet n =
      >>=-IsQuiet view (to_info t e n) _ (to_info-IsQuiet n) (λ info. return-IsQuiet (some info))

  prepare-IsQuiet : (g : ℕ) (c : Container) → IsQuietCall view (prepare t e g c)
  prepare-IsQuiet g c =
      if-IsQuiet (ltb g (generation_from_labels t c.labels)) _ _
        (raise-IsQuiet (Option WorkloadInfo) workload_conflict)
        (if-IsQuiet (generation_from_labels t c.labels == g) _ _ (reuse-IsQuiet c.name) (
          if-IsQuiet (is_active_status c.status) _ _
            (raise-IsQuiet (Option WorkloadInfo) workload_conflict) (remove_old-IsQuiet c.name)))

  prepared-IsQuiet :
      (g : ℕ) (s : S) (q : Result Failure Container × S)
      → IsQuiet view s q.1
      → IsQuiet view s (prepared t e g q).1
  prepared-IsQuiet g s (err workload_not_found, s') h = h
  prepared-IsQuiet g s (err workload_conflict, s') h = h
  prepared-IsQuiet g s (err invalid_workload, s') h = h
  prepared-IsQuiet g s (err runner_error, s') h = h
  prepared-IsQuiet g s (err unexpected, s') h = h
  prepared-IsQuiet g s (err (docker x), s') h = h
  prepared-IsQuiet g s (ok c, s') h = IsQuiet-trans view s s' _ h (
      >>=-IsQuiet view (uncaught (e.inspect c.name)) (prepare t e g) (inspect-IsQuiet c.name)
        (prepare-IsQuiet g) s')

  pub prepare_contract_start-IsQuiet :
      (o : LeaseOwner) → IsQuietCall view (prepare_contract_start t e o)
  unfolding prepare_contract_start
  prepare_contract_start-IsQuiet o s =
      prepared-IsQuiet o.generation s _
        (managed_container-IsQuiet (contract_workload_name t o.type o.id) s)

  discard-IsQuiet :
      (o : LeaseOwnerType) (n : String) (info : WorkloadInfo)
      → IsQuietCall view (discard t e o n info)
  discard-IsQuiet o n info =
      if-IsQuiet (is_completed o info) _ _ (return-IsQuiet (some info)) (remove_old-IsQuiet n)

  halt-IsQuiet :
      (o : LeaseOwnerType) (timeout : ℕ) (n : String) → IsQuietCall view (halt t e o timeout n)
  halt-IsQuiet o timeout n =
      >>=-IsQuiet view (uncaught (e.stop n timeout)) _ (stop_call-IsQuiet n timeout) (λ _.
        >>=-IsQuiet view (to_info t e n) _ (to_info-IsQuiet n) (λ info. discard-IsQuiet o n info))

  stop_described-IsQuiet :
      (o : LeaseOwnerType) (timeout : ℕ) (info : WorkloadInfo)
      → IsQuietCall view (stop_described t e o timeout info)
  stop_described-IsQuiet o timeout info =
      if-IsQuiet (is_completed o info) _ _ (return-IsQuiet (some info)) (
        if-IsQuiet (is_active_status info.status) _ _ (halt-IsQuiet o timeout info.name)
          (remove_old-IsQuiet info.name))

  pub stop_contract_workload-IsQuiet :
      (o : LeaseOwner) (timeout : ℕ) → IsQuietCall view (stop_contract_workload t e o timeout)
  unfolding stop_contract_workload
  stop_contract_workload-IsQuiet o timeout =
      >>=-IsQuiet view (managed_container t e (contract_workload_name t o.type o.id)) _
        (managed_container-IsQuiet _)
        (λ f. >>=-IsQuiet view (uncaught (e.inspect f.name)) _ (inspect-IsQuiet f.name) (λ c.
          if-IsQuiet (generation_from_labels t c.labels == o.generation) _ _
            (>>=-IsQuiet view (to_info t e c.name) _ (to_info-IsQuiet c.name)
              (stop_described-IsQuiet o.type timeout))
            (raise-IsQuiet (Option WorkloadInfo) workload_conflict)))

  removed-state : (q : Result DockerError (Unit {0}) × S) → (removed t e q).1 ≡ q.1
  removed-state (err not_found, s) = refl
  removed-state (err api_error, s) = refl
  removed-state (err unavailable, s) = refl
  removed-state (ok _, s) = refl

  clean-IsQuiet : (o : LeaseOwner) (c : Container) → IsQuietCall view (clean t e o c)
  clean-IsQuiet o c s =
      elim (Bool-cases (
        is_trusted t e o c.labels
        && (is_generation t e o.generation (find generation_label c.labels)
            && is_terminal_status c.status))) [
              | inl h ↦
                  rw (h, removed-state (e.remove c.name false false s))
                    (d.remove-IsQuiet c.name false false s)
              | inr h ↦ rw h (IsQuiet-refl view s)
            ]

  unless_gone-IsQuiet :
      (next : Container → Call S (Unit {0})) (s : S) (q : Result DockerError Container × S)
      → IsQuiet view s q.1
      → ((c : Container) → IsQuietCall view (next c))
      → IsQuiet view s (unless_gone t e next q).1
  unless_gone-IsQuiet next s (err not_found, s') h k = h
  unless_gone-IsQuiet next s (err api_error, s') h k = h
  unless_gone-IsQuiet next s (err unavailable, s') h k = h
  unless_gone-IsQuiet next s (ok c, s') h k = IsQuiet-trans view s s' _ h (k c s')

  pub cleanup_contract_workload-IsQuiet :
      (o : LeaseOwner) → IsQuietCall view (cleanup_contract_workload t e o)
  unfolding cleanup_contract_workload
  cleanup_contract_workload-IsQuiet o s =
      unless_gone-IsQuiet (λ c s'. unless_gone t e (clean t e o) (e.inspect c.name s')) s
        (e.inspect (contract_workload_name t o.type o.id) s)
        (d.inspect-IsQuiet (contract_workload_name t o.type o.id) s)
        (λ c s'.
          unless_gone-IsQuiet (clean t e o) s' (e.inspect c.name s') (d.inspect-IsQuiet c.name s')
            (clean-IsQuiet o))

  confirmed-state : (q : Result DockerError Container × S) → (confirmed t e q).1 ≡ q.1
  confirmed-state (err not_found, s) = refl
  confirmed-state (err api_error, s) = refl
  confirmed-state (err unavailable, s) = refl
  confirmed-state (ok c, s) = refl

  removed_created-state : (q : Result DockerError (Unit {0}) × S) → (removed_created t e q).1 ≡ q.1
  removed_created-state (err x, s) = refl
  removed_created-state (ok _, s) = refl

  confirm-IsQuiet :
      (n : String) (s s' : S)
      → IsQuiet view s s'
      → IsQuiet view s (confirmed t e (e.inspect n s')).1
  confirm-IsQuiet n s s' h =
      subst (IsQuiet view s) (sym (confirmed-state (e.inspect n s')))
        (IsQuiet-trans view s s' (e.inspect n s').1 h (d.inspect-IsQuiet n s'))

  pub either-IsQuiet :
      {A : Type 0} (b : Bool) (s : S) (x y : Result Failure A × S)
      → IsQuiet view s x.1
      → IsQuiet view s y.1
      → IsQuiet view s (if b then x else y).1
  either-IsQuiet true s x y h k = h
  either-IsQuiet false s x y h k = k

  quiesce-IsQuiet : (g timeout : ℕ) (c : Container) → IsQuietCall view (quiesce t e g timeout c)
  quiesce-IsQuiet g timeout c s =
      either-IsQuiet (not (generation_from_labels t c.labels == g) || c.status == "removing") s _ _
        (IsQuiet-refl view s)
        (either-IsQuiet (c.status == "created") s _ _
          (subst (IsQuiet view s) (sym (removed_created-state (e.remove c.name false true s)))
            (d.remove-IsQuiet c.name false true s))
          (either-IsQuiet (elem c.status ("running" ∷ "restarting" ∷ "paused" ∷ [])) s _ _
            (confirm-IsQuiet c.name s (e.stop c.name timeout s).1 (d.stop-IsQuiet c.name timeout s))
            (confirm-IsQuiet c.name s s (IsQuiet-refl view s))))

  reloaded-IsQuiet :
      (g timeout : ℕ) (s : S) (q : Result DockerError Container × S)
      → IsQuiet view s q.1
      → IsQuiet view s (reloaded t e g timeout q).1
  reloaded-IsQuiet g timeout s (err not_found, s') h = h
  reloaded-IsQuiet g timeout s (err api_error, s') h = h
  reloaded-IsQuiet g timeout s (err unavailable, s') h = h
  reloaded-IsQuiet g timeout s (ok c, s') h =
      IsQuiet-trans view s s' _ h (quiesce-IsQuiet g timeout c s')

  quiesced-IsQuiet :
      (g timeout : ℕ) (s : S) (q : Result Failure Container × S)
      → IsQuiet view s q.1
      → IsQuiet view s (quiesced t e g timeout q).1
  quiesced-IsQuiet g timeout s (err workload_not_found, s') h = h
  quiesced-IsQuiet g timeout s (err workload_conflict, s') h = h
  quiesced-IsQuiet g timeout s (err invalid_workload, s') h = h
  quiesced-IsQuiet g timeout s (err runner_error, s') h = h
  quiesced-IsQuiet g timeout s (err unexpected, s') h = h
  quiesced-IsQuiet g timeout s (err (docker not_found), s') h = h
  quiesced-IsQuiet g timeout s (err (docker api_error), s') h = h
  quiesced-IsQuiet g timeout s (err (docker unavailable), s') h = h
  quiesced-IsQuiet g timeout s (ok c, s') h =
      IsQuiet-trans view s s' _ h (reloaded-IsQuiet g timeout s' _ (d.inspect-IsQuiet c.name s'))

  pub quiesce_failed_inference-IsQuiet :
      (id g timeout : ℕ) → IsQuietCall view (quiesce_failed_inference t e id g timeout)
  unfolding quiesce_failed_inference
  quiesce_failed_inference-IsQuiet id g timeout s =
      quiesced-IsQuiet g timeout s _ (managed_container-IsQuiet _ s)

  pub stop-IsQuiet : (n : String) (timeout : ℕ) → IsQuietCall view (stop t e n timeout)
  unfolding stop
  stop-IsQuiet n timeout =
      >>=-IsQuiet view (managed_container t e n) _ (managed_container-IsQuiet n) (λ c.
        >>=-IsQuiet view (to_info t e c.name) _ (to_info-IsQuiet c.name) (λ info.
          if-IsQuiet (is_active_status info.status) _ _
            (>>=-IsQuiet view (uncaught (e.stop info.name timeout)) _
              (stop_call-IsQuiet info.name timeout) (λ _. to_info-IsQuiet info.name))
            (return-IsQuiet info)))

  pub delete-IsQuiet : (n : String) (force : Bool) → IsQuietCall view (delete t e n force)
  unfolding delete
  delete-IsQuiet n force =
      >>=-IsQuiet view (managed_container t e n) _ (managed_container-IsQuiet n) (λ f.
        >>=-IsQuiet view (uncaught (e.inspect f.name)) _ (inspect-IsQuiet f.name) (λ c.
          if-IsQuiet (is_active_status c.status && not force) _ _
            (raise-IsQuiet (Unit {0}) workload_conflict) (remove-IsQuiet c.name force true)))
