-- ===== src/Docker/Engine.antt =====
-- What the runner calls: the Docker engine, and the processes that NVML sees on the cards. `S` is the
-- state outside the runner; it may move on with every call, since containers end by themselves.
use open_llmops.Prelude.{ℕ, String, Bool, Option, List, Result, ok, err, ℤ}
use open_llmops.Docker.Labels.{Dict}
use open_llmops.Docker.Info.{Container}

-- `NotFound`, another `APIError`, another `DockerException`.
pub data DockerError : Type 0 where
  not_found api_error unavailable : DockerError

-- `WorkloadNotFound`, `WorkloadConflict`, `InvalidWorkload`, `RunnerError` itself, an exception of
-- the engine that is not caught, and any other exception.
pub data Failure : Type 0 where
  workload_not_found workload_conflict invalid_workload runner_error unexpected : Failure
  docker : DockerError → Failure

-- A container to be created; what else it is made of has no part here.
pub record Creation : Type 0 where
  pub name : String
  pub image : String
  pub command : List String
  pub labels : Dict

pub record Engine (S : Type 0) : Type 0 where
  -- `containers.get`, and `reload`.
  pub inspect : String → S → Result DockerError Container × S
  -- The names that `containers.list` finds of all containers with the managed label.
  pub list_managed : S → Result DockerError (List String) × S
  pub stop : (name : String) (timeout : ℕ) → S → Result DockerError (Unit {0}) × S
  pub start : String → S → Result DockerError (Unit {0}) × S
  pub remove : (name : String) (force v : Bool) → S → Result DockerError (Unit {0}) × S
  pub create : Creation → S → Result DockerError (Unit {0}) × S
  -- `read_busy_gpu_ids`; `none` where NVML is not available.
  pub busy_gpu_ids : List ℤ → S → Option (List ℤ) × S

-- A call that returns or raises, and moves the state on.
abbrev pub Call : (S A : Type 0) → Type 0
Call S A = S → Result Failure A × S

module _ {S : Type 0} where
  module _ {A B : Type 0} where
    abbrev pub after : Result Failure A × S → (A → Call S B) → Result Failure B × S
    after (ok a, s) next = next a s
    after (err e, s) next = (err e, s)

    infixl 5 ◌>>=◌
    abbrev pub ◌>>=◌ : Call S A → (A → Call S B) → Call S B
    ◌>>=◌ call next s = after (call s) next

  abbrev pub return : {A : Type 0} → A → Call S A
  return a s = (ok a, s)

  abbrev pub raise : {A : Type 0} → Failure → Call S A
  raise e s = (err e, s)

  -- An exception of the engine that nothing catches.
  abbrev pub lifted : {A : Type 0} → Result DockerError A × S → Result Failure A × S
  lifted (ok a, s) = (ok a, s)
  lifted (err e, s) = (err (docker e), s)

  abbrev pub uncaught : {A : Type 0} → (S → Result DockerError A × S) → Call S A
  uncaught call s = lifted (call s)

module _ {S : Type 0} {B : Type 0} where
  infixl 5 ◌>>◌
  abbrev pub ◌>>◌ : Call S (Unit {0}) → Call S B → Call S B
  call >> next = call >>= λ _. next
