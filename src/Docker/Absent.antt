-- ===== src/Docker/Absent.antt =====
-- The node agent over the Docker engine: where it answers that a container is absent, or gives an
-- inference container up, that container uses no card.
use open_llmops.Prelude.{
  ℕ, ◌≡◌, ◌⊎◌, inl, inr, refl, sym, ap, subst, String, true, Option, some, none, Result, ok, err,
}
use open_llmops.Agent.{absent}
use open_llmops.Node.Commands.{Command, CommandResult, NodeError}
use open_llmops.Node.Inspect.{WorkloadInfo, Timeouts}
use open_llmops.Node.Report.{
  Runner, RunnerError, not_found, raised, after_stop, after_cleanup, observed, dispatch,
}
use open_llmops.Node.Absence.{IsGone, dispatch-IsGone}
use open_llmops.Docker.Labels.{Texts, contract_workload_name}
use open_llmops.Docker.Info.{Container}
use open_llmops.Docker.Engine.{
  Failure, workload_not_found, workload_conflict, invalid_workload, runner_error, unexpected,
  docker, Engine,
}
use open_llmops.Docker.Allocate.{Settings}
use open_llmops.Docker.Operate.{
  get_contract_workload, stop_contract_workload, cleanup_contract_workload,
}
use open_llmops.Docker.Moves.{IsDocker}
use open_llmops.Docker.Halting.{IsUnused, none-IsUnused, stop_contract_workload-IsEnded}
use open_llmops.Docker.Missing.{stop_contract_workload-missing, get_contract_workload-missing}
use open_llmops.Docker.Removal.{cleanup_contract_workload-gone}
use open_llmops.Docker.Serve.{as_node, as_runner, Files, docker_runner}

module _ {S A : Type 0} where
  -- What the runner has answered, from what the node agent reads.
  as_runner-missing :
      (q : Result Failure A × S)
      → (as_runner q).0 ≡ err not_found
      → q ≡ (err workload_not_found, (as_runner q).1)
  as_runner-missing (ok a, s) h = absurd (cc)
  as_runner-missing (err workload_not_found, s) h = refl
  as_runner-missing (err workload_conflict, s) h = absurd (cc)
  as_runner-missing (err invalid_workload, s) h = absurd (cc)
  as_runner-missing (err runner_error, s) h = absurd (cc)
  as_runner-missing (err unexpected, s) h = absurd (cc)
  as_runner-missing (err (docker x), s) h = absurd (cc)

  as_runner-ok :
      (q : Result Failure A × S) (a : A) → (as_runner q).0 ≡ ok a → q ≡ (ok a, (as_runner q).1)
  as_runner-ok (ok b, s) a h = cc
  as_runner-ok (err workload_not_found, s) a h = absurd (cc)
  as_runner-ok (err workload_conflict, s) a h = absurd (cc)
  as_runner-ok (err invalid_workload, s) a h = absurd (cc)
  as_runner-ok (err runner_error, s) a h = absurd (cc)
  as_runner-ok (err unexpected, s) a h = absurd (cc)
  as_runner-ok (err (docker x), s) a h = absurd (cc)

  as_node-ok : (q : Result Failure A × S) (a : A) → (as_node q).0 ≡ ok a → q ≡ (ok a, (as_node q).1)
  as_node-ok (ok b, s) a h = cc
  as_node-ok (err f, s) a h = absurd (cc)

module _ {S : Type 0} (t : Texts) (e : Engine S) (settings : Settings)
    (stop_timeout failure_stop_timeout : ℕ) (files : Files S) (view : S → String → Option Container)
    (d : IsDocker view e) (timeouts : Timeouts) (clock : S → ℕ) where
  abbrev runner : Runner S
  runner = docker_runner t e settings stop_timeout failure_stop_timeout files

  abbrev target : Command → String
  target c = contract_workload_name t c.body.owner.type c.body.owner.id

  -- What the answer leaves behind.
  after_stop-state :
      (c : Command) (q : Result RunnerError (Option WorkloadInfo) × S)
      → (q.0 ≡ err not_found) ⊎ (q.0 ≡ ok none)
      → (after_stop timeouts clock runner c q).1 ≡ q.1
  after_stop-state c (err not_found, s) h = refl
  after_stop-state c (err (raised x), s) h = refl
  after_stop-state c (ok none, s) h = refl
  after_stop-state c (ok (some info), s) (inl h) = absurd (cc)
  after_stop-state c (ok (some info), s) (inr h) = absurd (cc)

  stopped :
      (c : Command) (s : S)
      → t.is_safe_name (target c) ≡ true
      → ((runner.stop_contract_workload c.body.owner s).0 ≡ err not_found)
        ⊎ ((runner.stop_contract_workload c.body.owner s).0 ≡ ok none)
      → IsUnused t e view d (runner.stop_contract_workload c.body.owner s).1 (target c)
  stopped c s safe (inl h) =
      stop_contract_workload-missing t e view d c.body.owner stop_timeout s _ safe
        (as_runner-missing (stop_contract_workload t e c.body.owner stop_timeout s) h)
  stopped c s safe (inr h) = none-IsUnused t e view d _ (target c) (
      stop_contract_workload-IsEnded t e view d c.body.owner stop_timeout s _ none
        (as_runner-ok (stop_contract_workload t e c.body.owner stop_timeout s) none h))

  after_cleanup-state :
      (q : Result NodeError (Unit {0}) × S) → (after_cleanup timeouts clock runner q).1 ≡ q.1
  after_cleanup-state (err x, s) = refl
  after_cleanup-state (ok _, s) = refl

  cleaned :
      (c : Command) (s : S)
      → (runner.cleanup_contract_workload c.body.owner s).0 ≡ ok tt
      → IsUnused t e view d (runner.cleanup_contract_workload c.body.owner s).1 (target c)
  cleaned c s h =
      let q = as_node-ok (cleanup_contract_workload t e c.body.owner s) tt h in
      none-IsUnused t e view d _ (target c) (
        subst (λ z. view z (target c) ≡ none) (ap (λ z. z.1) q)
          (cleanup_contract_workload-gone t e view d c.body.owner s (ap (λ z. z.0) q)))

  observed-state :
      (c : Command) (q : Result RunnerError WorkloadInfo × S)
      → q.0 ≡ err not_found
      → (observed timeouts clock runner c q).1 ≡ q.1
  observed-state c (err not_found, s) h = refl
  observed-state c (err (raised x), s) h = refl
  observed-state c (ok info, s) h = absurd (cc)

  missed :
      (c : Command) (s : S)
      → t.is_safe_name (target c) ≡ true
      → (runner.get_contract_workload c.body.owner s).0 ≡ err not_found
      → IsUnused t e view d (runner.get_contract_workload c.body.owner s).1 (target c)
  missed c s safe h =
      get_contract_workload-missing t e view d c.body.owner s _ safe
        (as_runner-missing (get_contract_workload t e c.body.owner s) h)

  IsGone-IsUnused :
      (c : Command) (s : S)
      → t.is_safe_name (target c) ≡ true
      → IsGone timeouts clock runner c s
      → IsUnused t e view d (dispatch timeouts clock runner c s).1 (target c)
  unfolding dispatch
  IsGone-IsUnused c s safe (IsGone.stopped a x h) =
      rw (a, x)
        (subst (λ z. IsUnused t e view d z (target c)) (sym (after_stop-state c _ h))
          (stopped c s safe h))
  IsGone-IsUnused c s safe (IsGone.cleaned a x h) =
      rw (a, x)
        (subst (λ z. IsUnused t e view d z (target c)) (sym (after_cleanup-state _))
          (cleaned c s h))
  IsGone-IsUnused c s safe (IsGone.missing a x h) =
      rw (a, x)
        (subst (λ z. IsUnused t e view d z (target c)) (sym (observed-state c _ h))
          (missed c s safe h))

  -- Let the engine behave as documented, and let the runner accept the name of the workload. When
  -- the node agent answers a command by the state absent, then no managed container with the name
  -- of that workload is active.
  pub dispatch-IsUnused :
      (c : Command) (s s' : S) (r : CommandResult)
      → t.is_safe_name (target c) ≡ true
      → dispatch timeouts clock runner c s ≡ (ok r, s')
      → r.response.observed_state ≡ absent
      → IsUnused t e view d s' (target c)
  dispatch-IsUnused c s s' r safe h a =
      subst (λ z. IsUnused t e view d z (target c)) (ap (λ z. z.1) h)
        (IsGone-IsUnused c s safe (dispatch-IsGone timeouts clock runner c s r s' h a))
