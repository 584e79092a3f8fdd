-- ===== src/Docker/Checks.antt =====
-- The checks of free names and cards neither create nor activate a container, however they end.
use open_llmops.Prelude.{
  ◌≡◌, refl, sym, subst, String, Option, some, none, List, [], ◌∷◌, Result, ok, err, ℤ, ◌==◌,
  nat_eq, int_eq, length, select, find,
}
use open_llmops.Docker.Labels.{Texts}
use open_llmops.Docker.Info.{Container}
use open_llmops.Docker.Engine.{
  DockerError, not_found, api_error, unavailable, workload_conflict, Engine, uncaught,
}
use open_llmops.Docker.Allocate.{
  Settings, allocated, allocate, gpu_allocations, check_busy, is_other, assert_gpus_available,
  name_free,
}
use open_llmops.Docker.Moves.{IsQuiet, IsDocker, IsQuietCall, >>=-IsQuiet, uncaught-IsQuiet}
use open_llmops.Docker.Quiet.{inspect-IsQuiet, return-IsQuiet, raise-IsQuiet, if-IsQuiet}

module _ {S : Type 0} (t : Texts) (e : Engine S) (view : S → String → Option Container)
    (d : IsDocker view e) where
  allocate-IsQuiet :
      (names : List String) (m : List (ℤ × String)) → IsQuietCall view (allocate t e names m)
  unfolding allocate
  allocate-IsQuiet [] m = return-IsQuiet t e view d m
  allocate-IsQuiet (name ∷ names) m =
      >>=-IsQuiet view (uncaught (e.inspect name)) _ (inspect-IsQuiet t e view d name)
        (λ c. allocate-IsQuiet names (allocated t e c m))

  pub gpu_allocations-IsQuiet : IsQuietCall view (gpu_allocations t e)
  unfolding gpu_allocations
  gpu_allocations-IsQuiet =
      >>=-IsQuiet view (uncaught e.list_managed) _
        (uncaught-IsQuiet view e.list_managed d.list-IsQuiet) (λ names. allocate-IsQuiet names [])

  check_busy-state : (q : Option (List ℤ) × S) → (check_busy t e q).1 ≡ q.1
  check_busy-state (none, s) = refl
  check_busy-state (some [], s) = refl
  check_busy-state (some (g ∷ gs), s) = refl

  check_busy-IsQuiet : (gs : List ℤ) → IsQuietCall view (λ s. check_busy t e (e.busy_gpu_ids gs s))
  check_busy-IsQuiet gs s =
      subst (IsQuiet view s) (sym (check_busy-state (e.busy_gpu_ids gs s))) (d.busy-IsQuiet gs s)

  pub assert_gpus_available-IsQuiet :
      (settings : Settings) (gs : List ℤ) (exclude : Option String)
      → IsQuietCall view (assert_gpus_available t e settings gs exclude)
  unfolding assert_gpus_available
  assert_gpus_available-IsQuiet settings gs exclude =
      >>=-IsQuiet view (gpu_allocations t e) _ gpu_allocations-IsQuiet (λ m.
        if-IsQuiet t e view d (length (select (λ g. is_other (find g m) exclude) gs) == 0) _ _
          (if-IsQuiet t e view d settings.enforce_nvml_process_check _ _ (check_busy-IsQuiet gs)
            (return-IsQuiet t e view d tt))
          (raise-IsQuiet t e view d (Unit {0}) workload_conflict))

  pub name_free-IsQuiet :
      (s : S) (q : Result DockerError Container × S)
      → IsQuiet view s q.1
      → IsQuiet view s (name_free t e q).1
  name_free-IsQuiet s (err not_found, u) h = h
  name_free-IsQuiet s (err api_error, u) h = h
  name_free-IsQuiet s (err unavailable, u) h = h
  name_free-IsQuiet s (ok c, u) h = h
