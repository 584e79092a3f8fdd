-- ===== src/Reconciler/Ends.antt =====
-- The loop over the queue ends: every attempt that goes on takes a row out of the queue.
use open_llmops.Prelude.{
  ℕ, suc, ◌≤◌, ◌≡◌, ◌≢◌, refl, sym, ◌∙◌, subst, String, Bool, true, false, Option, some, none, ◌==◌,
  nat_eq, if◌then◌else◌, Bool-cases, inl, inr, arith, Result, ok, err, beq_refl,
}
use open_llmops.Workloads.{Row, table, common, type_eq}
use open_llmops.Leases.{LeaseOwner}
use open_llmops.Agent.{AgentAction, AgentCommand, AgentCommandResponse, absent, Execution, or_else}
use open_llmops.Reconciler.Database.{Database, get_row, put_row, snapshot, WorkloadSnapshot}
use open_llmops.Reconciler.Observe.{Validators}
use open_llmops.Reconciler.ObserveJob.{
  observe_row, apply_observation, observed, with_error, recorded, record_agent_error, start_failed,
  start_refused, fail_start,
}
use open_llmops.Reconciler.Claim.{Crash, ScheduleAttempt}
use open_llmops.Reconciler.Fifo.{FifoClaim}
use open_llmops.Reconciler.Round.{Setting, World, Round, done, crashed, start_answered}
use open_llmops.Reconciler.Waiting.{
  waiting, waiting-put_row, waiting-put_row_less, mem-candidates, get_row-put_row,
}
use open_llmops.Reconciler.Leaving.{
  IsOut, observe_row-IsOut, with_error-waits, start_failed-IsOut, started, started-IsOut,
  started-key, terminal-IsOut, snapshot-owner,
}

-- A change of the rows that puts none into the queue.
abbrev pub IsNoMore : Database → Database → Type 0
IsNoMore db db' = waiting db'.rows ≤ waiting db.rows

module _ (checks : Validators) (now : ℕ) (owner : LeaseOwner) (response : AgentCommandResponse)
    (ttl : ℕ) where
  observed-IsNoMore :
      (o : Option Row) (db : Database)
      → response.observed_state ≢ absent
      → IsNoMore db (observed checks now owner response ttl o db)
  observed-IsNoMore none db a = omega arith
  observed-IsNoMore (some r) db a =
      elim (Bool-cases ((common r).runtime_generation == owner.generation)) [
        | inl same ↦ rw same (
            waiting-put_row (observe_row checks now owner response r db.leases).0 db.rows
              (observe_row-IsOut checks now owner response r db.leases a))
        | inr other ↦ rw other (omega arith)
      ]

  apply_observation-IsNoMore :
      (db : Database)
      → response.observed_state ≢ absent
      → IsNoMore db (apply_observation checks now owner response ttl db)
  unfolding apply_observation
  apply_observation-IsNoMore db a = observed-IsNoMore (get_row owner db.rows) db a

start_refused-IsNoMore :
    (now : ℕ) (owner : LeaseOwner) (m : String) (o : Option Row) (db : Database)
    → IsNoMore db (start_refused now owner m o db)
start_refused-IsNoMore now owner m none db = omega arith
start_refused-IsNoMore now owner m (some r) db =
    elim (Bool-cases ((common r).runtime_generation == owner.generation)) [
      | inl same ↦
          rw same (waiting-put_row (start_failed now m r) db.rows (start_failed-IsOut now m r))
      | inr other ↦ rw other (omega arith)
    ]

fail_start-IsNoMore :
    (now : ℕ) (owner : LeaseOwner) (m : String) (db : Database)
    → IsNoMore db (fail_start now owner m db)
unfolding fail_start
fail_start-IsNoMore now owner m db = start_refused-IsNoMore now owner m (get_row owner db.rows) db

-- The row that is marked is out of the queue.
recorded-IsNoMore :
    (owner : LeaseOwner) (m : String) (o : Option Row) (db : Database)
    → ((r : Row) → o ≡ some r → IsOut r)
    → IsNoMore db (recorded owner m o db)
recorded-IsNoMore owner m none db out = omega arith
recorded-IsNoMore owner m (some r) db out =
    elim (Bool-cases ((common r).runtime_generation == owner.generation)) [
      | inl same ↦
          rw same (waiting-put_row (with_error m r) db.rows (with_error-waits m r ∙ out r refl))
      | inr other ↦ rw other (omega arith)
    ]

record_agent_error-IsNoMore :
    (owner : LeaseOwner) (m : String) (db : Database)
    → ((r : Row) → get_row owner db.rows ≡ some r → IsOut r)
    → IsNoMore db (record_agent_error owner m db)
unfolding record_agent_error
record_agent_error-IsNoMore owner m db out =
    recorded-IsNoMore owner m (get_row owner db.rows) db out

either-IsNoMore :
    (b : Bool) (db : Database) (x y : World)
    → IsNoMore db x.db
    → IsNoMore db y.db
    → IsNoMore db (if b then x else y).db
either-IsNoMore true db x y h k = h
either-IsNoMore false db x y h k = k

module _ (s : Setting) where
  -- The agent does not answer a start by `ABSENT`.
  abbrev pub NeverAbsent : Type 0
  NeverAbsent =
      (tick : ℕ) (c : AgentCommand) (r : AgentCommandResponse)
      → c.action ≡ AgentAction.start
      → s.agent tick c ≡ ok r
      → r.observed_state ≢ absent

  -- A round that has not run out of fuel.
  pub data IsOver : Round → Type 0 where
    ended : (w : World) → IsOver (done w)
    raised : (c : Crash) (w : World) → IsOver (crashed c w)

  pub start_answered-IsNoMore :
      (workload : WorkloadSnapshot) (q : Result String AgentCommandResponse) (w : World)
      → ((r : AgentCommandResponse) → q ≡ ok r → r.observed_state ≢ absent)
      → ((r : Row) → get_row workload.owner w.db.rows ≡ some r → IsOut r)
      → IsNoMore w.db (start_answered s workload q w).db
  start_answered-IsNoMore workload (err m) w a out =
      record_agent_error-IsNoMore workload.owner m w.db out
  start_answered-IsNoMore workload (ok r) w a out =
      either-IsNoMore r.accepted w.db _ _
        (apply_observation-IsNoMore s.checks (s.clock w.tick) workload.owner r s.ttl w.db
          (a r refl))
        (fail_start-IsNoMore (s.clock w.tick) workload.owner
          (or_else r.message (or_else r.error_code "node-agent 明确拒绝启动")) w.db)

  -- What a claim leaves is out of the queue, and so one row fewer waits.
  put_started-IsOut :
      (x : Execution) (r : Row) (db : Database) (z : Row)
      → get_row (snapshot x (started r)).owner (put_row (started r) db.rows) ≡ some z
      → IsOut z
  put_started-IsOut x r db z h =
      subst IsOut
        (sym (
          get_row-put_row (snapshot x (started r)).owner (started r) z db.rows
            (snapshot-owner x (started r)) h))
        (started-IsOut r)

  -- A claim that starts a workload takes it out of the queue.
  pub claimed-less :
      (workload : WorkloadSnapshot) (db db' : Database)
      → FifoClaim db (ScheduleAttempt.claimed workload) db'
      → (suc (waiting db'.rows) ≤ waiting db.rows)
        × ((z : Row) → get_row workload.owner db'.rows ≡ some z → IsOut z)
  claimed-less workload db db' (FifoClaim.none_waits c a e) = absurd (cc)
  claimed-less workload db db' (FifoClaim.waits r b m f a e l) = absurd (cc)
  claimed-less workload db db' (FifoClaim.fails r r' m f a k e l) = absurd (cc)
  claimed-less workload db db' (FifoClaim.starts r x m f a e l) =
      let (there, queued) = mem-candidates r db.rows m in
      (
        subst (λ rows. suc (waiting rows) ≤ waiting db.rows) (sym e)
            (waiting-put_row_less (started r) r db.rows (started-IsOut r) queued (started-key r)
              there),
        λ z h. put_started-IsOut x r db z (of_snapshot (claimed_eq a) z h),
      )
    where
      claimed_eq :
          {x y : WorkloadSnapshot} → ScheduleAttempt.claimed x ≡ ScheduleAttempt.claimed y → x ≡ y
      claimed_eq h = cc

      of_snapshot :
          workload ≡ snapshot x (started r)
          → (z : Row) → get_row workload.owner db'.rows ≡ some z
          → get_row (snapshot x (started r)).owner (put_row (started r) db.rows) ≡ some z
      of_snapshot q z h = cc (q, e, h)

  pub failed-less :
      (db db' : Database)
      → FifoClaim db ScheduleAttempt.preflight_failed db'
      → suc (waiting db'.rows) ≤ waiting db.rows
  failed-less db db' (FifoClaim.none_waits c a e) = absurd (cc)
  failed-less db db' (FifoClaim.waits r b m f a e l) = absurd (cc)
  failed-less db db' (FifoClaim.starts r x m f a e l) = absurd (cc)
  failed-less db db' (FifoClaim.fails r r' m f a (types, ids, over) e l) =
      let (there, queued) = mem-candidates r db.rows m in
      subst (λ rows. suc (waiting rows) ≤ waiting db.rows) (sym e)
        (waiting-put_row_less r' r db.rows (terminal-IsOut r' over) queued
          (rw (types, ids, beq_refl (table r), beq_refl (common r).id) refl) there)
