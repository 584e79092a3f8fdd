-- ===== src/Docker/Info.antt =====
-- What the runner tells of a container: `_to_info` and `_docker_datetime` of
-- agent/openllmops_agent/docker_runner.py. The image is left out.
use open_llmops.Prelude.{
  ℕ, String, Bool, true, Option, some, none, [], ◌∷◌, ◌==◌, string_eq, ltb, if◌then◌else◌, elem,
  find, ℤ, pos,
}
use open_llmops.Workloads.{Json, str, int}
use open_llmops.Node.Inspect.{WorkloadKind, inference, training, evaluation, WorkloadInfo}
use open_llmops.Docker.Labels.{
  Dict, Texts, id_label, kind_label, service_type_label, endpoint_label, port_label, get_or,
  gpu_ids_from_labels, generation_from_labels,
}

-- `attrs["State"]["Health"]`; a status that is missing is `null`, a streak 0.
pub record Health : Type 0 where
  pub status : Json
  pub failing_streak : Json

-- `attrs["State"]`
pub record State : Type 0 where
  pub exit_code : Option ℤ
  pub health : Option Health
  pub started_at : Json
  pub finished_at : Json

-- A container as the engine describes it; an attribute that is missing is `null`.
pub record Container : Type 0 where
  pub name : String
  pub status : String
  pub labels : Dict
  pub state : Option State
  pub restart_count : Json
  pub created : Json

-- An integer that is not negative, or 0.
abbrev pub natural : Json → ℕ
natural (int (pos n)) = n
natural _ = 0

abbrev pub health_text : Json → Option String
health_text (str s) = if elem s ("starting" ∷ "healthy" ∷ "unhealthy" ∷ []) then some s else none
health_text _ = none

abbrev pub health_status : Option Health → Option String
health_status none = none
health_status (some h) = health_text h.status

abbrev pub failing_streak : Option Health → ℕ
failing_streak none = 0
failing_streak (some h) = natural h.failing_streak

abbrev pub health_of : Option State → Option Health
health_of none = none
health_of (some s) = s.health

abbrev pub exit_code_of : Option State → Option ℤ
exit_code_of none = none
exit_code_of (some s) = s.exit_code

-- `Literal["inference", "training", "evaluation"]`
abbrev pub kind_of_name : Option String → Option WorkloadKind
kind_of_name none = none
kind_of_name (some s) =
    if s == "inference"
    then some inference
    else if s == "training"
    then some training
    else if s == "evaluation"
    then some evaluation
    else none

-- `Literal["generate", "embedding"] | None`
abbrev pub is_service_type : Option String → Bool
is_service_type none = true
is_service_type (some s) = elem s ("generate" ∷ "embedding" ∷ [])

module _ (t : Texts) where
  -- The engine reports the year 1 for a time that has not come.
  abbrev pub after_year_one : Option (ℕ × ℕ) → Option ℕ
  after_year_one none = none
  after_year_one (some (year, time)) = if ltb 1 year then some time else none

  abbrev pub docker_datetime : Json → Option ℕ
  docker_datetime (str s) = after_year_one (t.datetime_of s)
  docker_datetime _ = none

  abbrev pub started_at : Option State → Option ℕ
  started_at none = none
  started_at (some s) = docker_datetime s.started_at

  abbrev pub finished_at : Option State → Option ℕ
  finished_at none = none
  finished_at (some s) = docker_datetime s.finished_at

  abbrev pub uuid_label : Option String → Option ℕ
  uuid_label none = none
  uuid_label (some s) = t.uuid_of s

  abbrev pub some_port : Option ℤ → Option (Option ℤ)
  some_port none = none
  some_port (some n) = some (some n)

  -- The port, or `none` where `int` raises.
  abbrev pub port_of : Dict → Option (Option ℤ)
  port_of labels =
      let s = get_or port_label "" labels in
      if t.is_digit s then some_port (t.int_of s) else some none

  abbrev pub describe :
      Container → Option ℕ → Option WorkloadKind → Option (Option ℤ) → Option WorkloadInfo
  describe c (some id) (some kind) (some port) =
      if is_service_type (find service_type_label c.labels)
      then some (record {
        name = c.name;
        workload_id = id;
        kind = kind;
        status = c.status;
        gpu_ids = gpu_ids_from_labels t c.labels;
        service_type = find service_type_label c.labels;
        endpoint = find endpoint_label c.labels;
        port = port;
        generation = generation_from_labels t c.labels;
        exit_code = exit_code_of c.state;
        health_status = health_status (health_of c.state);
        health_failing_streak = failing_streak (health_of c.state);
        restart_count = natural c.restart_count;
        started_at = started_at c.state;
        finished_at = finished_at c.state;
        created_at = docker_datetime c.created;
      })
      else none
  describe c _ _ _ = none

  -- `_to_info` behind its `reload`; `none` where a label cannot be read and it raises.
  unfoldable pub info_of : Container → Option WorkloadInfo
  info_of c =
      describe c (uuid_label (find id_label c.labels)) (kind_of_name (find kind_label c.labels))
        (port_of c.labels)
