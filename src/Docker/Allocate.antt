-- ===== src/Docker/Allocate.antt =====
-- Which cards are in use, and how a container is created on free ones: `gpu_allocations`,
-- `_validate_gpu_ids`, `_assert_gpus_available`, `_assert_name_available`, `_managed_container`,
-- `_run_container` and the common end of the three launches in
-- agent/openllmops_agent/docker_runner.py. The allocation lock is held throughout each of them: no
-- other call of the runner comes between.
use open_llmops.Prelude.{
  ℕ, String, Bool, true, false, not, ◌||◌, Option, some, none, List, [], ◌∷◌, ◌==◌, string_eq,
  nat_eq, int_eq, if◌then◌else◌, find, put, select, distinct, length, sort_by, int_leb, is_negative,
  ℤ, pos, Result, ok, err,
}
use open_llmops.Workloads.{LeaseOwnerType}
use open_llmops.Node.Inspect.{WorkloadKind, WorkloadInfo}
use open_llmops.Docker.Labels.{
  Dict, Texts, is_active_status, is_managed, workload_name, gpu_ids_from_labels, base_labels,
  put_text, endpoint_label, service_type_label, owner_type_label, owner_type_name, port_label,
  output_path_label, dataset_manifest_path_label, base_template_label, candidate_template_label,
  training_algorithm_label,
}
use open_llmops.Docker.Info.{Container, info_of}
use open_llmops.Docker.Engine.{
  DockerError, not_found, unavailable, Failure, workload_not_found, workload_conflict,
  invalid_workload, runner_error, unexpected, docker, Engine, Call, ◌>>=◌, ◌>>◌, return, raise,
  uncaught,
}

-- The settings that are read.
pub record Settings : Type 0 where
  pub gpu_count : ℕ
  pub enforce_nvml_process_check : Bool

-- `_validate_gpu_ids`, up to its text: the numbers in ascending order.
unfoldable pub validate_gpu_ids : ℕ → List ℤ → Result Failure (List ℤ)
validate_gpu_ids gpu_count submitted =
    let normalized = sort_by int_leb (distinct submitted) in
    if length normalized == 0 || not (length normalized == length submitted)
    then err invalid_workload
    else if length (select (λ n. is_negative n || int_leb (pos gpu_count) n) normalized) == 0
    then ok normalized
    else err invalid_workload

-- `for gpu_id in gpu_ids: allocations[gpu_id] = name`
abbrev pub put_all : List ℤ → String → List (ℤ × String) → List (ℤ × String)
put_all [] name d = d
put_all (g ∷ gs) name d = put_all gs name (put g name d)

-- The card is allocated, and not to the container `exclude`.
abbrev pub is_other : Option String → Option String → Bool
is_other none exclude = false
is_other (some m) none = true
is_other (some m) (some exclude) = not (m == exclude)

-- The parameters of `_run_container` that have a part here.
pub record Launch : Type 0 where
  pub kind : WorkloadKind
  pub workload_id : ℕ
  pub image : String
  pub command : List String
  pub gpu_ids : List ℤ
  pub generation : ℕ
  pub owner_type : LeaseOwnerType
  pub endpoint : Option String
  pub service_type : Option String
  pub output_path : Option String
  pub dataset_manifest_path : Option String
  pub base_template : Option String
  pub candidate_template : Option String
  pub training_algorithm : Option String
  pub port : Option ℤ

abbrev pub put_port : Texts → Option ℤ → Dict → Dict
put_port t none labels = labels
put_port t (some n) labels = put port_label (t.str_of n) labels

-- The labels that `_run_container` puts on.
unfoldable pub labels_of : Texts → Launch → Dict
labels_of t l = put_port t l.port (
    put_text training_algorithm_label l.training_algorithm (
      put_text candidate_template_label l.candidate_template (
        put_text base_template_label l.base_template (
          put_text dataset_manifest_path_label l.dataset_manifest_path (
            put_text output_path_label l.output_path (
              put_text service_type_label l.service_type (
                put_text endpoint_label l.endpoint (
                  put owner_type_label (owner_type_name l.owner_type)
                    (base_labels t l.kind l.workload_id l.gpu_ids l.generation)))))))))

module _ {S : Type 0} (t : Texts) (e : Engine S) where
  abbrev pub found : Result DockerError Container × S → Result Failure Container × S
  found (err not_found, s) = (err workload_not_found, s)
  found (err other, s) = (err (docker other), s)
  found (ok c, s) = if is_managed c.labels then (ok c, s) else (err workload_not_found, s)

  unfoldable pub managed_container : String → Call S Container
  managed_container name s =
      if t.is_safe_name name then found (e.inspect name s) else (err workload_not_found, s)

  abbrev pub informed : Option WorkloadInfo → Call S WorkloadInfo
  informed none = raise unexpected
  informed (some info) = return info

  unfoldable pub to_info : String → Call S WorkloadInfo
  unfolding info_of
  to_info name = do c ← uncaught (e.inspect name); informed (info_of t c)

  abbrev pub allocated : Container → List (ℤ × String) → List (ℤ × String)
  allocated c d =
      if is_active_status c.status then put_all (gpu_ids_from_labels t c.labels) c.name d else d

  -- The loop over the containers.
  unfoldable pub allocate : List String → List (ℤ × String) → Call S (List (ℤ × String))
  allocate [] d = return d
  allocate (name ∷ names) d = do c ← uncaught (e.inspect name); allocate names (allocated c d)

  unfoldable pub gpu_allocations : Call S (List (ℤ × String))
  unfolding allocate
  gpu_allocations = do names ← uncaught e.list_managed; allocate names []

  abbrev pub check_busy : Option (List ℤ) × S → Result Failure (Unit {0}) × S
  check_busy (none, s) = (err runner_error, s)
  check_busy (some [], s) = (ok tt, s)
  check_busy (some _, s) = (err workload_conflict, s)

  unfoldable pub assert_gpus_available : Settings → List ℤ → Option String → Call S (Unit {0})
  unfolding gpu_allocations
  assert_gpus_available settings gpu_ids exclude_name = do
    allocations ← gpu_allocations
    if length (select (λ g. is_other (find g allocations) exclude_name) gpu_ids) == 0
        then (if settings.enforce_nvml_process_check
            then (λ s. check_busy (e.busy_gpu_ids gpu_ids s))
            else return tt)
        else raise workload_conflict

  abbrev pub name_free : Result DockerError Container × S → Result Failure (Unit {0}) × S
  name_free (err not_found, s) = (ok tt, s)
  name_free (err other, s) = (err (docker other), s)
  name_free (ok _, s) = (err workload_conflict, s)

  abbrev pub assert_name_available : String → Call S (Unit {0})
  assert_name_available name s = name_free (e.inspect name s)

  -- `except APIError`: `NotFound` is one.
  abbrev pub created : Result DockerError (Unit {0}) × S → Result Failure (Unit {0}) × S
  created (ok _, s) = (ok tt, s)
  created (err unavailable, s) = (err (docker unavailable), s)
  created (err _, s) = (err runner_error, s)

  unfoldable pub run_container : Launch → Call S (Unit {0})
  run_container l s = created (
      e.create
        (record {
          name = workload_name t l.kind l.workload_id;
          image = l.image;
          command = l.command;
          labels = labels_of t l;
        })
        s)

  -- The end of `launch_inference`, `launch_training` and `launch_evaluation`.
  unfoldable pub launch : Settings → Launch → Call S WorkloadInfo
  unfolding assert_gpus_available run_container to_info
  launch settings l = do
    assert_name_available (workload_name t l.kind l.workload_id)
    assert_gpus_available settings l.gpu_ids none
    run_container l
    to_info (workload_name t l.kind l.workload_id)
