-- ===== src/Routes/Common.antt =====
-- What the routes share: HTTP errors, `get_or_404`, and the deletion of a row whose container is
-- confirmed absent.
use open_llmops.Prelude.{
  ℕ, String, not, ◌&&◌, Option, some, none, List, ◌==◌, nat_eq, Result, ok, err, select,
}
use open_llmops.Workloads.{Row, table, common, LeaseOwnerType, type_eq}
use open_llmops.Leases.{Leases, LeaseOwner}
use open_llmops.Cleanup.{
  Gateway, CleanupError, unavailable, blocked, confirm_absent_and_release_leases,
}
use open_llmops.Reconciler.Database.{Database, Desired, Actual, generation_of}

-- An `HTTPException` with its status and detail; 500 stands for an exception that nothing handles.
pub data HttpError : Type 0 where
  http : ℕ → String → HttpError

pub record StateActionResponse : Type 0 where
  pub id : ℕ
  pub desired_state : Desired
  pub actual_state : Actual
  pub message : String

abbrev pub any_owner : LeaseOwnerType → ℕ → LeaseOwner
any_owner t i = record { type = t; id = i; name = ""; generation = 0 }

-- A request that reads a row without a lock writes the columns that differ from what it has read; the
-- others keep what is in the row at the commit. Here the column is set to `None`.
abbrev pub cleared {ℓ} : {A : Type ℓ} → (read current : Option A) → Option A
cleared none current = current
cleared (some x) current = none

unfoldable pub delete_row : Row → List Row → List Row
delete_row r rows = select (λ s. not (table s == table r && (common s).id == (common r).id)) rows

-- The owner in the cleanup command of a row.
abbrev pub cleanup_owner : Row → LeaseOwner
cleanup_owner r = record {
  type = table r;
  id = (common r).id;
  name = (common r).name;
  generation = generation_of (common r);
}

abbrev pub cleaned : Row → Database → Result CleanupError Leases → Result HttpError Database
cleaned r db (ok t) = ok (record { rows = delete_row r db.rows; leases = t })
cleaned r db (err (unavailable m)) = err (http 503 m)
cleaned r db (err (blocked m)) = err (http 409 m)

-- The end of the three `delete` routes.
unfoldable pub delete_confirmed : Option Gateway → Row → Database → Result HttpError Database
unfolding confirm_absent_and_release_leases delete_row
delete_confirmed none r db = err (http 503 "未配置 node-agent HMAC 密钥，无法确认容器 absent")
delete_confirmed (some agent) r db =
    cleaned r db
      (confirm_absent_and_release_leases agent (cleanup_owner r) (common r).gpu_ids db.leases)
