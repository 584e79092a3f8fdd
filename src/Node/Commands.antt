-- ===== src/Node/Commands.antt =====
-- How the node agent executes a command: `CommandStateStore` and `CommandProcessor.execute` of
-- agent/openllmops_agent/command_service.py.
-- A request identifier is a number. A response's `request_id` and `observed_at` are left out, as in
-- the control plane's view of it. The state is in memory and in a file, which `_persist` replaces
-- by what is in memory.
use open_llmops.Prelude.{
  ℕ, String, ◌≡◌, ◌↔◌, Bool, true, false, ◌&&◌, Option, some, none, List, [], ◌∷◌, Eq, ◌==◌, nat_eq,
  ltb, if◌then◌else◌, Result, ok, err, length, find, put, eq_of_beq, beq_refl, arith,
}
use open_llmops.Workloads.{LeaseOwnerType, type_eq}
use open_llmops.Leases.{LeaseOwner}
use open_llmops.Agent.{AgentAction, start, AgentCommand, AgentCommandResponse, AgentWorkloadState}

-- The text `{owner_type}:{owner_id}`.
pub record OwnerKey : Type 0 where
  pub type : LeaseOwnerType
  pub id : ℕ

abbrev pub owner_beq : OwnerKey → OwnerKey → Bool
owner_beq a b = a.type == b.type && a.id == b.id

pub owner_beq_iff : (a b : OwnerKey) → (owner_beq a b ≡ true) ↔ (a ≡ b)
owner_beq_iff a b = (
  (λ h. λ i. record {
    type = eq_of_beq {a = a.type} {b = b.type} (left _ (a.id == b.id) h) i;
    id = eq_of_beq {a = a.id} {b = b.id} (right (a.type == b.type) _ h) i;
  }),
  (λ e. rw (← e, beq_refl a.type, beq_refl a.id)),
)
  where
    left : (x y : Bool) → (x && y) ≡ true → x ≡ true
    left x y h = ground arith

    right : (x y : Bool) → (x && y) ≡ true → y ≡ true
    right x y h = ground arith

instance abbrev pub owner_eq : Eq OwnerKey
owner_eq = record { test = owner_beq; decides = owner_beq_iff }

abbrev pub owner_key : LeaseOwner → OwnerKey
owner_key owner = record { type = owner.type; id = owner.id }

pub record CommandResult : Type 0 where
  pub status_code : ℕ
  pub response : AgentCommandResponse

pub record CachedCommand : Type 0 where
  pub fingerprint : ℕ
  pub result : CommandResult

pub record StartBinding : Type 0 where
  pub generation : ℕ
  pub fingerprint : ℕ

pub record CommandState : Type 0 where
  pub generations : List (OwnerKey × ℕ)
  pub starts : List (OwnerKey × StartBinding)
  pub requests : List (ℕ × CachedCommand)

pub record Store : Type 0 where
  pub memory : CommandState
  pub disk : CommandState

abbrev pub persist : CommandState → Store
persist m = record { memory = m; disk = m }

abbrev pub or_zero : Option ℕ → ℕ
or_zero none = 0
or_zero (some n) = n

abbrev pub generation : OwnerKey → CommandState → ℕ
generation k m = or_zero (find k m.generations)

abbrev pub raise_generation : OwnerKey → ℕ → CommandState → CommandState
raise_generation k g m =
    if ltb (generation k m) g then record m { generations = put k g m.generations } else m

unfoldable pub advance_generation : OwnerKey → ℕ → Store → Store
advance_generation k g s =
    if ltb (generation k s.memory) g then persist (raise_generation k g s.memory) else s

-- The binding is new, or of another generation.
abbrev pub bind_anew : OwnerKey → ℕ → (fingerprint : ℕ) → CommandState → Store
bind_anew k g f m = persist (
    raise_generation k g
      (record m { starts = put k (record { generation = g; fingerprint = f }) m.starts }))

abbrev pub bind_again : OwnerKey → ℕ → (fingerprint : ℕ) → StartBinding → Store → Option Store
bind_again k g f b s =
    if b.generation == g
    then (if b.fingerprint == f then some (advance_generation k g s) else none)
    else some (bind_anew k g f s.memory)

abbrev pub bind_over : OwnerKey → ℕ → (fingerprint : ℕ) → Option StartBinding → Store → Option Store
bind_over k g f none s = some (bind_anew k g f s.memory)
bind_over k g f (some b) s = bind_again k g f b s

-- `none` stands for the `WorkloadConflict`.
unfoldable pub bind_start : OwnerKey → ℕ → (fingerprint : ℕ) → Store → Option Store
unfolding advance_generation
bind_start k g f s = bind_over k g f (find k s.memory.starts) s

abbrev pub max_cached_requests : ℕ
max_cached_requests = 2048

-- The oldest requests are dropped while there are too many.
unfoldable pub trim : List (ℕ × CachedCommand) → List (ℕ × CachedCommand)
trim [] = []
trim (r ∷ rs) =
    let rest = trim rs in if ltb max_cached_requests (length (r ∷ rs)) then rest else r ∷ rs

unfoldable pub put_request : (id fingerprint : ℕ) → CommandResult → Store → Store
unfolding trim
put_request id f r s = persist (record s.memory {
  requests = trim (put id (record { fingerprint = f; result = r }) s.memory.requests);
})

pub record Command : Type 0 where
  pub request_id : ℕ
  pub body : AgentCommand

-- What `_dispatch` raises. `other` is an exception that `execute` lets through.
pub data NodeError : Type 0 where
  validation_error invalid_workload workload_conflict other : String → NodeError

-- The two hashes, and `_dispatch` with what it acts on: containers and files.
pub record Processor (W : Type 0) : Type 0 where
  pub fingerprint : Command → ℕ
  pub start_fingerprint : AgentCommand → ℕ
  pub dispatch : Command → W → Result NodeError CommandResult × W

abbrev pub rejected : (status_code : ℕ) (message error_code : String) → CommandResult
rejected n m c = record {
  status_code = n;
  response = record {
    accepted = false;
    observed_state = AgentWorkloadState.failed;
    message = some m;
    error_code = some c;
    metadata = [];
  };
}

abbrev pub stale : CommandResult
stale = rejected 409 "命令 generation 早于节点已观察到的 generation" "stale_generation"

abbrev pub reused : CommandResult
reused = rejected 409 "request_id 已绑定到不同命令" "request_id_reused"

abbrev pub rebound : CommandResult
rebound = rejected 409 "同一 generation 已绑定到不同启动参数" "generation_reused"

module _ {W : Type 0} (p : Processor W) where
  abbrev pub Executed : Type 0
  Executed = Result String CommandResult × Store × W

  abbrev pub answer : Command → CommandResult → Store → W → Executed
  answer c r s w = (ok r, put_request c.request_id (p.fingerprint c) r s, w)

  abbrev pub dispatched : Command → Store → Result NodeError CommandResult × W → Executed
  dispatched c s (ok r, w) = answer c r s w
  dispatched c s (err (validation_error m), w) = answer c (rejected 422 m "invalid_execution") s w
  dispatched c s (err (invalid_workload m), w) = answer c (rejected 422 m "invalid_workload") s w
  dispatched c s (err (workload_conflict m), w) = answer c (rejected 409 m "workload_conflict") s w
  dispatched c s (err (other m), w) = (err m, s, w)

  abbrev pub is_start : AgentAction → Bool
  is_start start = true
  is_start _ = false

  -- The generation, and the parameters of a start, are on the disk before anything is done.
  unfoldable pub admit : Command → Store → Option Store
  unfolding bind_start advance_generation
  admit c s =
      if is_start c.body.action
      then bind_start (owner_key c.body.owner) c.body.owner.generation (p.start_fingerprint c.body)
          s
      else some (advance_generation (owner_key c.body.owner) c.body.owner.generation s)

  abbrev pub admitted : Command → Option Store → Store → W → Executed
  admitted c none s w = answer c rebound s w
  admitted c (some s') s w = dispatched c s' (p.dispatch c w)

  abbrev pub unless_cached : Command → Option CachedCommand → Store → W → Executed
  unless_cached c (some cached) s w =
      (ok (if cached.fingerprint == p.fingerprint c then cached.result else reused), s, w)
  unless_cached c none s w = admitted c (admit c s) s w

  unfoldable pub execute : Command → Store → W → Executed
  unfolding admit put_request
  execute c s w =
      if ltb c.body.owner.generation (generation (owner_key c.body.owner) s.memory)
      then (ok stale, s, w)
      else unless_cached c (find c.request_id s.memory.requests) s w
