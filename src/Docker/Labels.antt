-- ===== src/Docker/Labels.antt =====
-- The labels of a container and what is read from them, and the names of containers:
-- agent/openllmops_agent/docker_runner.py. The texts in the errors are left out.
use Prim.Native.String.{◌++◌ as str_append}
use open_llmops.Prelude.{
  ℕ, String, Bool, false, not, Option, some, none, List, [], ◌∷◌, map, ◌==◌, string_eq,
  if◌then◌else◌, elem, find, put, max, ℤ, pos, negsuc, select, split_commas, join_commas,
}
use open_llmops.Workloads.{LeaseOwnerType, of_deployment, of_training, of_evaluation}
use open_llmops.Node.Inspect.{WorkloadKind, inference, training, evaluation}

abbrev pub Dict : Type 0
Dict = List (String × String)

-- What is called of the standard library: `int`, `str`, `UUID`, `str` of a UUID, `str.isdigit`,
-- and the match of `SAFE_NAME`.
pub record Texts : Type 0 where
  pub int_of : String → Option ℤ
  pub str_of : ℤ → String
  pub uuid_of : String → Option ℕ
  pub str_of_uuid : ℕ → String
  pub is_digit : String → Bool
  -- `datetime.fromisoformat`: the year, and the time.
  pub datetime_of : String → Option (ℕ × ℕ)
  pub is_safe_name : String → Bool
  -- The match of `[1-9][0-9]*`.
  pub is_positive : String → Bool

abbrev pub managed_label : String
managed_label = "com.openllmops.managed"

abbrev pub kind_label : String
kind_label = "com.openllmops.kind"

abbrev pub id_label : String
id_label = "com.openllmops.id"

abbrev pub gpu_label : String
gpu_label = "com.openllmops.gpus"

abbrev pub endpoint_label : String
endpoint_label = "com.openllmops.endpoint"

abbrev pub service_type_label : String
service_type_label = "com.openllmops.service-type"

abbrev pub generation_label : String
generation_label = "com.openllmops.generation"

abbrev pub owner_type_label : String
owner_type_label = "com.openllmops.owner-type"

abbrev pub output_path_label : String
output_path_label = "com.openllmops.output-path"

abbrev pub dataset_manifest_path_label : String
dataset_manifest_path_label = "com.openllmops.dataset-manifest-path"

abbrev pub base_template_label : String
base_template_label = "com.openllmops.base-template"

abbrev pub candidate_template_label : String
candidate_template_label = "com.openllmops.candidate-template"

abbrev pub training_algorithm_label : String
training_algorithm_label = "com.openllmops.training-algorithm"

abbrev pub port_label : String
port_label = "com.openllmops.port"

abbrev pub is_active_status : String → Bool
is_active_status s = elem s ("created" ∷ "running" ∷ "restarting" ∷ "paused" ∷ [])

abbrev pub is_terminal_status : String → Bool
is_terminal_status s = elem s ("exited" ∷ "dead" ∷ [])

-- `d.get(key, default)`
abbrev pub get_or : String → String → Dict → String
get_or key d labels = elim (find key labels) [ some v ↦ v | none ↦ d ]

-- `d.get(key) == value`
abbrev pub has : String → String → Dict → Bool
has key value labels = elim (find key labels) [ some v ↦ v == value | none ↦ false ]

abbrev pub is_managed : Dict → Bool
is_managed labels = has managed_label "true" labels

abbrev pub kind_name : WorkloadKind → String
kind_name inference = "inference"
kind_name training = "training"
kind_name evaluation = "evaluation"

abbrev pub owner_type_name : LeaseOwnerType → String
owner_type_name of_deployment = "deployment"
owner_type_name of_training = "training"
owner_type_name of_evaluation = "evaluation"

abbrev pub kind_of : LeaseOwnerType → WorkloadKind
kind_of of_deployment = inference
kind_of of_training = training
kind_of of_evaluation = evaluation

abbrev pub or_no_ids : Option (List ℤ) → List ℤ
or_no_ids none = []
or_no_ids (some ns) = ns

module _ (t : Texts) where
  abbrev pub workload_name : WorkloadKind → ℕ → String
  workload_name k id =
      str_append "openllmops-" (str_append (kind_name k) (str_append "-" (t.str_of_uuid id)))

  abbrev pub contract_workload_name : LeaseOwnerType → ℕ → String
  contract_workload_name owner_type id = workload_name (kind_of owner_type) id

  -- `[int(item) for item in items]`, where no item raises.
  abbrev pub ints : List String → Option (List ℤ)
  ints [] = some []
  ints (s ∷ ss) = elim (t.int_of s) [
    | none ↦ none
    | some n ↦ elim (ints ss) [ none ↦ none | some ns ↦ some (n ∷ ns) ]
  ]

  -- A text that cannot be read names no card.
  abbrev pub ids_of_text : String → List ℤ
  ids_of_text s = or_no_ids (ints (select (λ x. not (x == "")) (split_commas s)))

  abbrev pub gpu_ids_from_labels : Dict → List ℤ
  gpu_ids_from_labels labels = ids_of_text (get_or gpu_label "" labels)

  -- `max(1, n)`
  abbrev pub at_least_one : Option ℤ → ℕ
  at_least_one none = 1
  at_least_one (some (negsuc n)) = 1
  at_least_one (some (pos n)) = max 1 n

  abbrev pub generation_from_labels : Dict → ℕ
  generation_from_labels labels = at_least_one (t.int_of (get_or generation_label "1" labels))

  -- The labels that every container is created with.
  abbrev pub base_labels : WorkloadKind → ℕ → List ℤ → ℕ → Dict
  base_labels k id gpu_ids generation =
      (managed_label, "true")
      ∷ (kind_label, kind_name k)
      ∷ (id_label, t.str_of_uuid id)
      ∷ (gpu_label, join_commas (map t.str_of gpu_ids))
      ∷ (generation_label, t.str_of (pos generation))
      ∷ []

-- `if value: labels[key] = value`
abbrev pub put_text : String → Option String → Dict → Dict
put_text key none labels = labels
put_text key (some v) labels = if v == "" then labels else put key v labels
