-- ===== src/Reconciler/Termination.antt =====
-- Enough fuel for the loop over the queue, and for a whole round.
use open_llmops.Prelude.{
  ℕ, zero, suc, ◌+◌, ◌≤◌, ◌<◌, ◌≡◌, ◌≢◌, refl, ◌∙◌, String, Bool, true, false, ◌&&◌, Option, some,
  none, List, [], ◌∷◌, ◌==◌, nat_eq, if◌then◌else◌, length, Bool-cases, inl, inr, arith, Result, ok,
  err,
}
use open_llmops.Workloads.{Row, common, type_eq}
use open_llmops.Leases.{LeaseOwner}
use open_llmops.Agent.{AgentCommandResponse, absent, start, stop, is_live}
use open_llmops.Reconciler.Database.{
  Database, get_row, WorkloadSnapshot, command, load_active_workloads,
}
use open_llmops.Reconciler.ObserveJob.{
  observe_row, apply_observation, observed, with_error, recorded, record_agent_error,
}
use open_llmops.Reconciler.Claim.{
  Crash, ScheduleAttempt, claimed, preflight_failed, claim_fifo_head,
}
use open_llmops.Reconciler.Fifo.{claim_fifo_head-FifoClaim}
use open_llmops.Reconciler.Reap.{reap_terminal_expired_leases}
use open_llmops.Reconciler.Round.{
  Setting, World, new_report, ask, applied, agent_error, stopped, inspected, inspect, inspect_all,
  probe_before_stop, start_answered, attempted, schedule, reaped, run_once,
}
use open_llmops.Reconciler.Waiting.{waiting, waiting-le, length-put_row}
use open_llmops.Reconciler.Ends.{
  NeverAbsent, IsOver, ended, raised, start_answered-IsNoMore, claimed-less, failed-less,
}

module _ (s : Setting) where
  -- A start is never answered by `ABSENT`: the same for one question.
  asked :
      NeverAbsent s
      → (workload : WorkloadSnapshot) (w : World) (r : AgentCommandResponse)
      → ask s w workload start ≡ ok r
      → r.observed_state ≢ absent
  unfolding command
  asked never workload w r h = never w.tick (command workload start) r refl h

  attempted-IsOver :
      NeverAbsent s
      → (fuel group now : ℕ) (w : World) (q : Result Crash (ScheduleAttempt × Database))
      → claim_fifo_head s.catalog s.ttl now group w.db ≡ q
      → waiting w.db.rows ≤ fuel
      → ((u : World) → waiting u.db.rows < fuel → IsOver s (schedule s fuel u))
      → (tick : ℕ) → IsOver s (attempted s (schedule s fuel) q (record w { tick = tick }))
  attempted-IsOver never fuel group now w (err c) e le ih tick = raised c _
  attempted-IsOver never fuel group now w (ok (ScheduleAttempt.empty, db)) e le ih tick = ended _
  attempted-IsOver never fuel group now w (ok (ScheduleAttempt.blocked o, db)) e le ih tick =
      ended _
  attempted-IsOver never fuel group now w (ok (ScheduleAttempt.preflight_failed, db)) e le ih tick =
      ih _ (
        omega (
          arith,
          le,
          failed-less s w.db db
              (claim_fifo_head-FifoClaim s.catalog s.ttl now group w.db preflight_failed db e),
        ))
  attempted-IsOver never fuel group now w (ok (ScheduleAttempt.claimed workload, db)) e le ih tick =
      let (less, out) =
        claimed-less s workload w.db db
          (claim_fifo_head-FifoClaim s.catalog s.ttl now group w.db (claimed workload) db e) in
      let u : World = record w {
        db = db;
        report = record w.report { scheduled = w.report.scheduled + 1 };
        tick = tick;
      } in
      ih (start_answered s workload (ask s u workload start) u) (
        omega (
          arith,
          le,
          less,
          start_answered-IsNoMore s workload (ask s u workload start) u (asked never workload u)
              out,
        ))

  pub schedule-IsOver :
      NeverAbsent s
      → (fuel : ℕ) (w : World) → waiting w.db.rows < fuel
      → IsOver s (schedule s fuel w)
  unfolding schedule
  schedule-IsOver never zero w lt = absurd (omega (arith, lt))
  schedule-IsOver never (suc fuel) w lt =
      attempted-IsOver never fuel (s.uuid w.tick) (s.clock w.tick) w _ refl (omega (arith, lt))
        (schedule-IsOver never fuel) (suc w.tick)

-- The number of rows is the same.
abbrev IsAsLong : Database → Database → Type 0
IsAsLong db db' = length db'.rows ≡ length db.rows

module _ (s : Setting) where
  observed-IsAsLong :
      (now : ℕ) (owner : LeaseOwner) (r : AgentCommandResponse) (o : Option Row) (db : Database)
      → IsAsLong db (observed s.checks now owner r s.ttl o db)
  observed-IsAsLong now owner r none db = refl
  observed-IsAsLong now owner r (some x) db =
      elim (Bool-cases ((common x).runtime_generation == owner.generation)) [
        | inl same ↦
            rw same (length-put_row (observe_row s.checks now owner r x db.leases).0 db.rows)
        | inr other ↦ rw other refl
      ]

  applied-IsAsLong :
      (workload : WorkloadSnapshot) (r : AgentCommandResponse) (w : World)
      → IsAsLong w.db (applied s workload r w).db
  unfolding apply_observation
  applied-IsAsLong workload r w =
      observed-IsAsLong (s.clock w.tick) workload.owner r (get_row workload.owner w.db.rows) w.db

  recorded-IsAsLong :
      (owner : LeaseOwner) (m : String) (o : Option Row) (db : Database)
      → IsAsLong db (recorded owner m o db)
  recorded-IsAsLong owner m none db = refl
  recorded-IsAsLong owner m (some x) db =
      elim (Bool-cases ((common x).runtime_generation == owner.generation)) [
        | inl same ↦ rw same (length-put_row (with_error m x) db.rows)
        | inr other ↦ rw other refl
      ]

  agent_error-IsAsLong :
      (workload : WorkloadSnapshot) (m : String) (w : World)
      → IsAsLong w.db (agent_error s workload m w).db
  unfolding record_agent_error
  agent_error-IsAsLong workload m w =
      recorded-IsAsLong workload.owner m (get_row workload.owner w.db.rows) w.db

  stopped-IsAsLong :
      (workload : WorkloadSnapshot) (q : Result String AgentCommandResponse) (w : World)
      → IsAsLong w.db (stopped s workload q w).db
  stopped-IsAsLong workload (err m) w = agent_error-IsAsLong workload m w
  stopped-IsAsLong workload (ok r) w = applied-IsAsLong workload r w

  either-IsAsLong :
      (b : Bool) (db : Database) (x y : World)
      → IsAsLong db x.db
      → IsAsLong db y.db
      → IsAsLong db (if b then x else y).db
  either-IsAsLong true db x y h k = h
  either-IsAsLong false db x y h k = k

  inspected-IsAsLong :
      (workload : WorkloadSnapshot) (q : Result String AgentCommandResponse) (w : World)
      → IsAsLong w.db (inspected s workload q w).db
  inspected-IsAsLong workload (err m) w = agent_error-IsAsLong workload m w
  inspected-IsAsLong workload (ok r) w =
      let u = applied s workload r w in
      either-IsAsLong (probe_before_stop s workload && (r.accepted && is_live r.observed_state))
        w.db (stopped s workload (ask s u workload stop) u) u
        (stopped-IsAsLong workload (ask s u workload stop) u ∙ applied-IsAsLong workload r w)
        (applied-IsAsLong workload r w)

  inspect_all-IsAsLong :
      (ws : List WorkloadSnapshot) (w : World) → IsAsLong w.db (inspect_all s ws w).db
  unfolding inspect_all inspect
  inspect_all-IsAsLong [] w = refl
  inspect_all-IsAsLong (workload ∷ ws) w =
      inspect_all-IsAsLong ws (inspect s workload w) ∙ inspected-IsAsLong workload _ _

  -- A round with more fuel than there are rows is over, by its end or by an exception, and does
  -- not run out of fuel, if the agent never answers a start by the state absent.
  pub run_once-IsOver :
      NeverAbsent s
      → (fuel tick : ℕ) (db : Database) → length db.rows < fuel
      → IsOver s (run_once s fuel tick db)
  unfolding run_once reap_terminal_expired_leases
  run_once-IsOver never fuel tick db lt =
      let w : World = record { db = db; report = new_report; tick = tick } in
      let u = inspect_all s (load_active_workloads db) w in
      schedule-IsOver s never fuel (reaped s u)
        (omega (arith, lt, waiting-le u.db.rows, inspect_all-IsAsLong (load_active_workloads db) w))
