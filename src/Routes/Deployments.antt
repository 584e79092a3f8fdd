-- ===== src/Routes/Deployments.antt =====
-- backend/app/api/routes/deployments.py
use open_llmops.Prelude.{
  ℕ, ◌+◌, String, Bool, true, false, not, ◌&&◌, Option, some, List, ◌==◌, nat_eq, string_eq,
  if◌then◌else◌, Result, ok, err, ◌>>=◌, ◌>>◌, raise_if, any, length, ℤ, pos, negsuc, leb, int_eq,
  list_beq, Eq,
}
use open_llmops.Workloads.{
  Row, deployment, Deployment, of_deployment, DeploymentState, DesiredServiceState, Json, null,
}
use open_llmops.Cleanup.{Gateway}
use open_llmops.Reconciler.Database.{Database, Desired, Actual, get_row, put_row}
use open_llmops.Routes.Common.{
  HttpError, http, StateActionResponse, any_owner, delete_confirmed, cleared,
}

-- The states named in `EDITABLE_STATES`.
abbrev pub is_editable : DeploymentState → Bool
is_editable DeploymentState.created = true
is_editable DeploymentState.stopped = true
is_editable DeploymentState.failed = true
is_editable _ = false

abbrev pub as_deployment : Option Row → Result HttpError Deployment
as_deployment (some (deployment d)) = ok d
as_deployment _ = err (http 404 "部署不存在")

unfoldable pub find_deployment : ℕ → List Row → Result HttpError Deployment
unfolding get_row
find_deployment id rows = as_deployment (get_row (any_owner of_deployment id) rows)

-- An `UPDATE` writes the columns whose value differs from the one that was read; the others keep what
-- is in the row at the commit.
abbrev pub changed {ℓ} : {A : Type ℓ} ⦃e : Eq A⦄ → (read new current : A) → A
changed ⦃e⦄ read new current = if e.test read new then current else new

-- The row at the commit: it may have been deleted since it was read (`StaleDataError`).
abbrev pub still_there : Option Row → Result HttpError Deployment
still_there (some (deployment d)) = ok d
still_there _ = err (http 500 "StaleDataError")

unfoldable pub committed : ℕ → List Row → Result HttpError Deployment
unfolding get_row
committed id rows = still_there (get_row (any_owner of_deployment id) rows)

-- The object in the session is reported, as it was read and changed.
abbrev pub reported :
    String → Deployment → DesiredServiceState → DeploymentState → StateActionResponse
reported message read desired actual = record {
  id = read.runtime.id;
  desired_state = Desired.service desired;
  actual_state = Actual.service actual;
  message = message;
}

abbrev pub stored : Deployment → Database → Database
stored d db = record db { rows = put_row (deployment d) db.rows }

-- The desired state is written if it is another one than was read.
abbrev pub want_running : DesiredServiceState → DesiredServiceState → DesiredServiceState
want_running DesiredServiceState.running current = current
want_running DesiredServiceState.stopped current = DesiredServiceState.running

abbrev pub want_stopped : DesiredServiceState → DesiredServiceState → DesiredServiceState
want_stopped DesiredServiceState.stopped current = current
want_stopped DesiredServiceState.running current = DesiredServiceState.stopped

-- `actual_state` is none of `RUNNING`, `STARTING` and `QUEUED`: a new round is queued.
abbrev pub is_enqueued : DeploymentState → Bool
is_enqueued DeploymentState.running = false
is_enqueued DeploymentState.starting = false
is_enqueued DeploymentState.queued = false
is_enqueued _ = true

abbrev pub enqueue : (now : ℕ) (read d : Deployment) → Deployment
enqueue now read d = record d {
  runtime = record d.runtime {
    queued_at = some now;
    started_at = cleared read.runtime.started_at d.runtime.started_at;
    error_message = cleared read.runtime.error_message d.runtime.error_message;
    state_version = read.runtime.state_version + 1;
  };
  actual_state = DeploymentState.queued;
  internal_url = cleared read.internal_url d.internal_url;
  health_status = cleared read.health_status d.health_status;
}

abbrev pub started : (now : ℕ) (read d : Deployment) → Deployment
started now read d =
    let wanted : Deployment = record d {
      desired_state = want_running read.desired_state d.desired_state;
    } in
    if is_enqueued read.actual_state then enqueue now read wanted else wanted

-- `before` is the database when the row is read, without a lock, and `db` the one at the commit.
unfoldable pub start_deployment :
    (now id : ℕ) (before db : Database) → Result HttpError (StateActionResponse × Database)
unfolding find_deployment committed put_row
start_deployment now id before db = do
  read ← find_deployment id before.rows
  d ← committed id db.rows
  ok (
    reported "部署已进入启动队列" read DesiredServiceState.running
        (if is_enqueued read.actual_state then DeploymentState.queued else read.actual_state),
    stored (started now read d) db,
  )

abbrev pub withdraw : (read d : Deployment) → Deployment
withdraw read d = record d {
  runtime = record d.runtime { queued_at = cleared read.runtime.queued_at d.runtime.queued_at };
  actual_state = DeploymentState.stopped;
  internal_url = cleared read.internal_url d.internal_url;
  health_status = cleared read.health_status d.health_status;
}

abbrev pub stopped : DeploymentState → (read d : Deployment) → Deployment
stopped DeploymentState.created read d = withdraw read d
stopped DeploymentState.queued read d = withdraw read d
stopped DeploymentState.failed read d = withdraw read d
stopped DeploymentState.stopped read d = d
stopped DeploymentState.stopping read d = d
stopped DeploymentState.starting read d = record d { actual_state = DeploymentState.stopping }
stopped DeploymentState.running read d = record d { actual_state = DeploymentState.stopping }

abbrev pub stopped_state : DeploymentState → DeploymentState
stopped_state DeploymentState.starting = DeploymentState.stopping
stopped_state DeploymentState.running = DeploymentState.stopping
stopped_state DeploymentState.stopping = DeploymentState.stopping
stopped_state _ = DeploymentState.stopped

-- The new version is one more than the one that was read.
abbrev pub bumped : (read d : Deployment) → Deployment
bumped read d = record d {
  runtime = record d.runtime { state_version = read.runtime.state_version + 1 };
}

abbrev pub want_stop : (read d : Deployment) → Deployment
want_stop read d = record d { desired_state = want_stopped read.desired_state d.desired_state }

unfoldable pub stop_deployment :
    (id : ℕ) (before db : Database) → Result HttpError (StateActionResponse × Database)
unfolding find_deployment committed put_row
stop_deployment id before db = do
  read ← find_deployment id before.rows
  d ← committed id db.rows
  ok (
    reported "部署停止指令已记录" read DesiredServiceState.stopped (stopped_state read.actual_state),
    stored (bumped read (stopped read.actual_state read (want_stop read d))) db,
  )

-- A field of a PATCH body: not given, `null`, or a value.
pub data Patch {ℓ} (A : Type ℓ) : Type ℓ where
  keep clear : Patch A
  assign : A → Patch A

pub record DeploymentUpdate : Type 0 where
  pub name : Patch String
  pub gpu_ids : Patch (List ℤ)
  pub tensor_parallel_size : Patch ℕ
  pub simplified_config : Patch Json
  pub vllm_args : Patch Json

-- `gpu_id >= settings.gpu_count`
abbrev pub out_of_range : ℕ → ℤ → Bool
out_of_range gpu_count (pos g) = leb gpu_count g
out_of_range gpu_count (negsuc g) = false

abbrev pub validate_gpu_ids : ℕ → List ℤ → Result HttpError (Unit {0})
validate_gpu_ids gpu_count gpu_ids =
    raise_if (any (out_of_range gpu_count) gpu_ids) (http 422 "GPU 编号超出本机范围")

-- `changes.get("gpu_ids", deployment.gpu_ids)`: iterating over `None` is a `TypeError`.
abbrev pub final_gpu_ids : Patch (List ℤ) → List ℤ → Result HttpError (List ℤ)
final_gpu_ids keep old = ok old
final_gpu_ids clear old = err (http 500 "TypeError")
final_gpu_ids (assign gs) old = ok gs

-- `None` differs from every number.
abbrev pub final_tp : Patch ℕ → ℕ → Result HttpError ℕ
final_tp keep old = ok old
final_tp clear old = err (http 422 "tensor_parallel_size 必须等于所选 GPU 数量")
final_tp (assign n) old = ok n

-- Documents are compared by their values.
abbrev pub bool_beq : Bool → Bool → Bool
bool_beq true b = b
bool_beq false b = not b

abbrev pub json_beq : Json → Json → Bool
json_beq null null = true
json_beq (Json.bool a) (Json.bool b) = bool_beq a b
json_beq (Json.int a) (Json.int b) = a == b
json_beq (Json.str a) (Json.str b) = a == b
json_beq (Json.opaque a) (Json.opaque b) = a == b
json_beq _ _ = false

abbrev pub patch_json : Patch Json → (read current : Json) → Json
patch_json keep read current = current
patch_json clear read current = if json_beq read null then current else null
patch_json (assign v) read current = if json_beq read v then current else v

-- The commit fails where a column that must not be null is, and where another row has the name.
abbrev pub has_name : String → ℕ → Row → Bool
has_name name id (deployment d) = d.runtime.name == name && not (d.runtime.id == id)
has_name name id _ = false

abbrev pub final_name : Patch String → Deployment → List Row → Result HttpError String
final_name keep d rows = ok d.runtime.name
final_name clear d rows = err (http 409 "部署名称已被占用")
final_name (assign n) d rows =
    if not (n == d.runtime.name) && any (has_name n d.runtime.id) rows
    then err (http 409 "部署名称已被占用")
    else ok n

-- The loop over the changes, and the new version.
abbrev pub edited : DeploymentUpdate → List ℤ → ℕ → String → (read d : Deployment) → Deployment
edited payload gpu_ids tp name read d = record d {
  runtime = record d.runtime {
    name = changed read.runtime.name name d.runtime.name;
    gpu_ids = if list_beq read.runtime.gpu_ids gpu_ids then d.runtime.gpu_ids else gpu_ids;
    state_version = read.runtime.state_version + 1;
  };
  tensor_parallel_size = changed read.tensor_parallel_size tp d.tensor_parallel_size;
  simplified_config =
      patch_json payload.simplified_config read.simplified_config d.simplified_config;
  vllm_args = patch_json payload.vllm_args read.vllm_args d.vllm_args;
}

unfoldable pub update_deployment :
    (gpu_count id : ℕ) → DeploymentUpdate → (before db : Database) → Result HttpError Database
unfolding find_deployment committed put_row
update_deployment gpu_count id payload before db = do
  read ← find_deployment id before.rows
  raise_if (not (is_editable read.actual_state)) (http 409 "仅停止或失败的部署可以编辑")
  gpu_ids ← final_gpu_ids payload.gpu_ids read.runtime.gpu_ids
  validate_gpu_ids gpu_count gpu_ids
  tp ← final_tp payload.tensor_parallel_size read.tensor_parallel_size
  raise_if (not (length gpu_ids == tp)) (http 422 "tensor_parallel_size 必须等于所选 GPU 数量")
  d ← committed id db.rows
  name ← final_name payload.name read db.rows
  ok (stored (edited payload gpu_ids tp name read d) db)

unfoldable pub delete_deployment : Option Gateway → ℕ → Database → Result HttpError Database
unfolding find_deployment delete_confirmed
delete_deployment agent id db = do
  d ← find_deployment id db.rows
  raise_if (not (is_editable d.actual_state)) (http 409 "请先停止部署再删除")
  delete_confirmed agent (deployment d) db
