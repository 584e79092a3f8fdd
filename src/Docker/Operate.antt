-- ===== src/Docker/Operate.antt =====
-- The operations on one container: `get_workload`, `prepare_contract_start`,
-- `stop_contract_workload`, `cleanup_contract_workload`, `quiesce_failed_inference`, `start`, `stop`
-- and `delete` of agent/openllmops_agent/docker_runner.py. The allocation lock is held throughout.
use open_llmops.Prelude.{
  ℕ, String, Bool, true, false, not, ◌&&◌, ◌||◌, Option, some, none, [], ◌∷◌, ◌==◌, string_eq,
  nat_eq, int_eq, if◌then◌else◌, elem, find, ltb, ℤ, pos, Result, ok, err,
}
use open_llmops.Workloads.{LeaseOwnerType, of_deployment, of_training, of_evaluation}
use open_llmops.Leases.{LeaseOwner}
use open_llmops.Node.Inspect.{WorkloadInfo, inference, is_zero}
use open_llmops.Docker.Labels.{
  Dict, Texts, is_active_status, is_terminal_status, workload_name, contract_workload_name,
  generation_from_labels, has, managed_label, id_label, kind_label, kind_name, kind_of,
  owner_type_label, owner_type_name, generation_label,
}
use open_llmops.Docker.Info.{Container}
use open_llmops.Docker.Engine.{
  DockerError, not_found, Failure, workload_not_found, workload_conflict, docker, Engine, Call,
  after, ◌>>=◌, ◌>>◌, return, raise, lifted, uncaught,
}
use open_llmops.Docker.Allocate.{Settings, managed_container, to_info, assert_gpus_available}

-- A training or an evaluation, not a deployment.
abbrev pub is_job : LeaseOwnerType → Bool
is_job of_deployment = false
is_job of_training = true
is_job of_evaluation = true

-- A job that has ended by itself, with success.
abbrev pub is_completed : LeaseOwnerType → WorkloadInfo → Bool
is_completed owner_type info =
    is_job owner_type && (info.status == "exited" && is_zero info.exit_code)

abbrev pub is_number : ℕ → Option ℤ → Bool
is_number n none = false
is_number n (some m) = m == pos n

module _ {S : Type 0} (t : Texts) (e : Engine S) where
  unfoldable pub get_workload : String → Call S WorkloadInfo
  unfolding managed_container to_info
  get_workload name = do c ← managed_container t e name; to_info t e c.name

  unfoldable pub get_contract_workload : LeaseOwner → Call S WorkloadInfo
  unfolding get_workload
  get_contract_workload owner = get_workload (contract_workload_name t owner.type owner.id)

  abbrev pub remove_old : String → Call S (Option WorkloadInfo)
  remove_old name = do uncaught (e.remove name false true); return none

  abbrev pub reuse : String → Call S (Option WorkloadInfo)
  reuse name = do info ← to_info t e name; return (some info)

  -- What is there, against the generation that is to start.
  abbrev pub prepare : ℕ → Container → Call S (Option WorkloadInfo)
  prepare generation c =
      let existing_generation = generation_from_labels t c.labels in
      if ltb generation existing_generation
      then raise workload_conflict
      else if existing_generation == generation
      then reuse c.name
      else if is_active_status c.status
      then raise workload_conflict
      else remove_old c.name

  abbrev pub prepared : ℕ → Result Failure Container × S → Result Failure (Option WorkloadInfo) × S
  prepared generation (err workload_not_found, s) = (ok none, s)
  prepared generation (err other, s) = (err other, s)
  prepared generation (ok c, s) = after (lifted (e.inspect c.name s)) (prepare generation)

  unfoldable pub prepare_contract_start : LeaseOwner → Call S (Option WorkloadInfo)
  unfolding managed_container to_info
  prepare_contract_start owner s =
      prepared owner.generation
        (managed_container t e (contract_workload_name t owner.type owner.id) s)

  -- What is left is removed, unless the job has completed.
  abbrev pub discard : LeaseOwnerType → String → WorkloadInfo → Call S (Option WorkloadInfo)
  discard owner_type name info =
      if is_completed owner_type info then return (some info) else remove_old name

  abbrev pub halt : LeaseOwnerType → ℕ → String → Call S (Option WorkloadInfo)
  halt owner_type timeout_seconds name = do
    uncaught (e.stop name timeout_seconds)
    info ← to_info t e name
    discard owner_type name info

  -- `container.status` is as new as `info`: `_to_info` has read it again.
  abbrev pub stop_described : LeaseOwnerType → ℕ → WorkloadInfo → Call S (Option WorkloadInfo)
  stop_described owner_type timeout_seconds info =
      if is_completed owner_type info
      then return (some info)
      else if is_active_status info.status
      then halt owner_type timeout_seconds info.name
      else remove_old info.name

  unfoldable pub stop_contract_workload : LeaseOwner → ℕ → Call S (Option WorkloadInfo)
  unfolding managed_container to_info
  stop_contract_workload owner timeout_seconds = do
    found ← managed_container t e (contract_workload_name t owner.type owner.id)
    c ← uncaught (e.inspect found.name)
    if generation_from_labels t c.labels == owner.generation
        then (do info ← to_info t e c.name; stop_described owner.type timeout_seconds info)
        else raise workload_conflict

  -- The labels that a container must have to be removed by a cleanup.
  abbrev pub is_trusted : LeaseOwner → Dict → Bool
  is_trusted owner labels =
      has managed_label "true" labels
      && (has id_label (t.str_of_uuid owner.id) labels
          && (has kind_label (kind_name (kind_of owner.type)) labels
              && has owner_type_label (owner_type_name owner.type) labels))

  abbrev pub is_generation : ℕ → Option String → Bool
  is_generation generation none = false
  is_generation generation (some s) = t.is_positive s && is_number generation (t.int_of s)

  abbrev pub removed : Result DockerError (Unit {0}) × S → Result Failure (Unit {0}) × S
  removed (err not_found, s) = (ok tt, s)
  removed (err other, s) = (err (docker other), s)
  removed (ok _, s) = (ok tt, s)

  abbrev pub clean : LeaseOwner → Container → Call S (Unit {0})
  clean owner c s =
      if is_trusted owner c.labels
        && (is_generation owner.generation (find generation_label c.labels)
            && is_terminal_status c.status)
      then removed (e.remove c.name false false s)
      else (err workload_conflict, s)

  abbrev pub unless_gone :
      (Container → Call S (Unit {0}))
      → Result DockerError Container × S
      → Result Failure (Unit {0}) × S
  unless_gone next (err not_found, s) = (ok tt, s)
  unless_gone next (err other, s) = (err (docker other), s)
  unless_gone next (ok c, s) = next c s

  unfoldable pub cleanup_contract_workload : LeaseOwner → Call S (Unit {0})
  cleanup_contract_workload owner s =
      unless_gone (λ c s'. unless_gone (clean owner) (e.inspect c.name s'))
        (e.inspect (contract_workload_name t owner.type owner.id) s)

  -- A confirmation counts, whatever the call before it said.
  abbrev pub confirmed : Result DockerError Container × S → Result Failure Bool × S
  confirmed (err not_found, s) = (ok true, s)
  confirmed (err other, s) = (ok false, s)
  confirmed (ok c, s) = (ok (not (is_active_status c.status) && not (c.status == "removing")), s)

  abbrev pub removed_created : Result DockerError (Unit {0}) × S → Result Failure Bool × S
  removed_created (err other, s) = (ok false, s)
  removed_created (ok _, s) = (ok true, s)

  abbrev pub quiesce : ℕ → ℕ → Container → Call S Bool
  quiesce generation timeout_seconds c s =
      if not (generation_from_labels t c.labels == generation) || c.status == "removing"
      then (ok false, s)
      else if c.status == "created"
      then removed_created (e.remove c.name false true s)
      else if elem c.status ("running" ∷ "restarting" ∷ "paused" ∷ [])
      then confirmed (e.inspect c.name (e.stop c.name timeout_seconds s).1)
      else confirmed (e.inspect c.name s)

  abbrev pub reloaded : ℕ → ℕ → Result DockerError Container × S → Result Failure Bool × S
  reloaded generation timeout_seconds (err not_found, s) = (ok true, s)
  reloaded generation timeout_seconds (err other, s) = (ok false, s)
  reloaded generation timeout_seconds (ok c, s) = quiesce generation timeout_seconds c s

  abbrev pub quiesced : ℕ → ℕ → Result Failure Container × S → Result Failure Bool × S
  quiesced generation timeout_seconds (err workload_not_found, s) = (ok true, s)
  quiesced generation timeout_seconds (err (docker not_found), s) = (ok true, s)
  quiesced generation timeout_seconds (err (docker other), s) = (ok false, s)
  quiesced generation timeout_seconds (err other, s) = (err other, s)
  quiesced generation timeout_seconds (ok c, s) =
      reloaded generation timeout_seconds (e.inspect c.name s)

  unfoldable pub quiesce_failed_inference :
      (workload_id generation timeout_seconds : ℕ) → Call S Bool
  unfolding managed_container
  quiesce_failed_inference workload_id generation timeout_seconds s =
      quiesced generation timeout_seconds
        (managed_container t e (workload_name t inference workload_id) s)

  abbrev pub start_stopped : Settings → String → WorkloadInfo → Call S WorkloadInfo
  start_stopped settings name info = do
    assert_gpus_available t e settings info.gpu_ids (some name)
    uncaught (e.start info.name)
    to_info t e info.name

  unfoldable pub start : Settings → String → Call S WorkloadInfo
  unfolding managed_container to_info assert_gpus_available
  start settings name = do
    c ← managed_container t e name
    info ← to_info t e c.name
    if elem info.status ("running" ∷ "restarting" ∷ [])
        then return info
        else if info.status == "paused"
        then raise workload_conflict
        else start_stopped settings name info

  unfoldable pub stop : String → ℕ → Call S WorkloadInfo
  unfolding managed_container to_info
  stop name timeout_seconds = do
    c ← managed_container t e name
    info ← to_info t e c.name
    if is_active_status info.status
        then (do uncaught (e.stop info.name timeout_seconds); to_info t e info.name)
        else return info

  unfoldable pub delete : String → Bool → Call S (Unit {0})
  unfolding managed_container
  delete name force = do
    found ← managed_container t e name
    c ← uncaught (e.inspect found.name)
    if is_active_status c.status && not force
        then raise workload_conflict
        else uncaught (e.remove c.name force true)
