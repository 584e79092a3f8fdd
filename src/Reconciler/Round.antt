-- ===== src/Reconciler/Round.antt =====
-- One round of the reconciler: `run_once`. The agent, the clock and `uuid4` are asked at a tick that
-- moves on with every question. The loop over the queue takes fuel.
use open_llmops.Prelude.{
  ℕ, zero, suc, ◌+◌, String, Bool, true, false, ◌&&◌, List, [], ◌∷◌, ◌==◌, if◌then◌else◌, Result,
  ok, err,
}
use open_llmops.Workloads.{of_training, type_eq, DesiredJobState}
use open_llmops.Agent.{
  AgentAction, start, stop, status, AgentCommand, AgentCommandResponse, or_else, is_live,
}
use open_llmops.Reconciler.Database.{
  Database, WorkloadSnapshot, Desired, load_active_workloads, action_for_active, command,
}
use open_llmops.Reconciler.Observe.{Validators}
use open_llmops.Reconciler.ObserveJob.{apply_observation, record_agent_error, fail_start}
use open_llmops.Reconciler.Claim.{
  Catalog, Crash, ScheduleAttempt, empty, blocked, claimed, preflight_failed, claim_fifo_head,
}
use open_llmops.Reconciler.Reap.{reap_terminal_expired_leases}

pub record ReconcileReport : Type 0 where
  pub inspected : ℕ
  pub scheduled : ℕ
  pub blocked : ℕ
  pub agent_errors : ℕ
  pub terminal_leases_reaped : ℕ
  pub preflight_failed : ℕ

abbrev pub new_report : ReconcileReport
new_report = record {
  inspected = 0;
  scheduled = 0;
  blocked = 0;
  agent_errors = 0;
  terminal_leases_reaped = 0;
  preflight_failed = 0;
}

-- What the reconciler is built with, and the world outside it.
pub record Setting : Type 0 where
  pub ttl : ℕ
  pub checks : Validators
  pub catalog : Catalog
  pub agent : ℕ → AgentCommand → Result String AgentCommandResponse
  pub clock : ℕ → ℕ
  pub uuid : ℕ → ℕ

pub record World : Type 0 where
  pub db : Database
  pub report : ReconcileReport
  pub tick : ℕ

-- How a round ends: as it should, by an exception (the transactions before it stay committed), or
-- with its fuel used up.
pub data Round : Type 0 where
  done : World → Round
  crashed : Crash → World → Round
  out_of_fuel : World → Round

module _ (s : Setting) where
  -- The answer to a command, or the text of a `NodeAgentError`.
  abbrev pub ask : World → WorkloadSnapshot → AgentAction → Result String AgentCommandResponse
  ask w workload action = s.agent w.tick (command workload action)

  abbrev pub applied : WorkloadSnapshot → AgentCommandResponse → World → World
  applied workload response w = record w {
    db = apply_observation s.checks (s.clock w.tick) workload.owner response s.ttl w.db;
    tick = suc w.tick;
  }

  abbrev pub agent_error : WorkloadSnapshot → String → World → World
  agent_error workload message w = record {
    db = record_agent_error workload.owner message w.db;
    report = record w.report { agent_errors = w.report.agent_errors + 1 };
    tick = suc w.tick;
  }

  abbrev pub is_terminated : Desired → Bool
  is_terminated (Desired.job DesiredJobState.terminated) = true
  is_terminated _ = false

  -- Training is asked for its state before it is stopped.
  abbrev pub probe_before_stop : WorkloadSnapshot → Bool
  probe_before_stop workload =
      workload.owner.type == of_training && is_terminated workload.desired_state

  abbrev pub stopped : WorkloadSnapshot → Result String AgentCommandResponse → World → World
  stopped workload (err e) w = agent_error workload e w
  stopped workload (ok response) w = applied workload response w

  abbrev pub inspected : WorkloadSnapshot → Result String AgentCommandResponse → World → World
  inspected workload (err e) w = agent_error workload e w
  inspected workload (ok response) w =
      let w' = applied workload response w in
      if probe_before_stop workload && (response.accepted && is_live response.observed_state)
      then stopped workload (ask w' workload stop) w'
      else w'

  -- The body of the loop over the active workloads.
  unfoldable pub inspect : WorkloadSnapshot → World → World
  unfolding command action_for_active apply_observation record_agent_error
  inspect workload w =
      let w' : World = record w {
        report = record w.report { inspected = w.report.inspected + 1 };
      } in
      inspected workload
        (ask w' workload
          (if probe_before_stop workload then status else action_for_active workload))
        w'

  unfoldable pub inspect_all : List WorkloadSnapshot → World → World
  unfolding inspect
  inspect_all [] w = w
  inspect_all (workload ∷ ws) w = inspect_all ws (inspect workload w)

  abbrev pub start_answered : WorkloadSnapshot → Result String AgentCommandResponse → World → World
  start_answered workload (err e) w = agent_error workload e w
  start_answered workload (ok response) w =
      if response.accepted then applied workload response w else record w {
        db =
            fail_start (s.clock w.tick) workload.owner
              (or_else response.message (or_else response.error_code "node-agent 明确拒绝启动")) w.db;
        tick = suc w.tick;
      }

  -- One attempt, and the rest of the loop where it goes on.
  abbrev pub attempted : (World → Round) → Result Crash (ScheduleAttempt × Database) → World → Round
  attempted again (err c) w = crashed c w
  attempted again (ok (empty, db)) w = done (record w { db = db })
  attempted again (ok (blocked _, db)) w =
      done (record w { db = db; report = record w.report { blocked = w.report.blocked + 1 } })
  attempted again (ok (preflight_failed, db)) w = again (record w {
    db = db;
    report = record w.report { preflight_failed = w.report.preflight_failed + 1 };
  })
  attempted again (ok (claimed workload, db)) w =
      let w' : World = record w {
        db = db;
        report = record w.report { scheduled = w.report.scheduled + 1 };
      } in
      again (start_answered workload (ask w' workload start) w')

  unfoldable pub schedule : ℕ → World → Round
  unfolding claim_fifo_head command apply_observation record_agent_error fail_start
  schedule zero w = out_of_fuel w
  schedule (suc fuel) w =
      attempted (schedule fuel)
        (claim_fifo_head s.catalog s.ttl (s.clock w.tick) (s.uuid w.tick) w.db)
        (record w { tick = suc w.tick })

  abbrev pub reaped : World → World
  reaped w =
      let (n, db) = reap_terminal_expired_leases (s.clock w.tick) w.db in
      record { db = db; report = record w.report { terminal_leases_reaped = n }; tick = suc w.tick }

  unfoldable pub run_once : (fuel tick : ℕ) → Database → Round
  unfolding inspect_all schedule load_active_workloads reap_terminal_expired_leases
  run_once fuel tick db = schedule fuel (
      reaped (
        inspect_all (load_active_workloads db)
          (record { db = db; report = new_report; tick = tick })))
