-- ===== src/Node/Bounded.antt =====
-- An inference container that does not become ready is given up in bounded time, and one that is
-- ready is not.
use open_llmops.Prelude.{
  ℕ, ◌+◌, ◌*◌, ◌-◌, ◌≤◌, ◌≡◌, ◌≢◌, true, ◌&&◌, Option, some, none, ◌==◌, nat_eq, string_eq, leb,
  Bool-cases, inl, inr, arith, ◌↔◌,
}
use open_llmops.Node.Inspect.{
  WorkloadInfo, is_text, Timeouts, or_time, microseconds, startup_timeout_reason, unhealthy_reason,
  inference_failure_reason, inference_health_interval_seconds, inference_max_restarts,
}

-- The time, where there is one, lies the startup timeout back.
abbrev pub IsOverdue : Timeouts → ℕ → Option ℕ → Type 0
IsOverdue settings now none = Unit
IsOverdue settings now (some t) =
    t + settings.inference_startup_timeout_seconds * microseconds ≤ now

startup-overdue :
    (settings : Timeouts) (now : ℕ) (o : Option ℕ)
    → IsOverdue settings now o
    → startup_timeout_reason settings now o ≢ none
startup-overdue settings now none h e = cc
startup-overdue settings now (some t) h e = cc (rw reached at e)
  where
    reached : leb (settings.inference_startup_timeout_seconds * microseconds) (now - t) ≡ true
    reached = ground arith

unhealthy-overdue :
    (settings : Timeouts) (now streak : ℕ)
    → settings.inference_unhealthy_timeout_seconds ≤ streak * inference_health_interval_seconds
    → unhealthy_reason settings now streak ≢ none
unhealthy-overdue settings now streak h e = elim (Bool-cases (streak == 0)) [
  | inl zero ↦ cc (rw zero at e)
  | inr more ↦ cc (rw (more, reached) at e)
]
  where
    reached :
        leb settings.inference_unhealthy_timeout_seconds
          (streak * inference_health_interval_seconds)
        ≡ true
    reached = ground arith

or_time-IsOverdue :
    (settings : Timeouts) (now : ℕ) (a b : Option ℕ)
    → IsOverdue settings now a
    → IsOverdue settings now b
    → IsOverdue settings now (or_time a b)
or_time-IsOverdue settings now none b h k = k
or_time-IsOverdue settings now (some t) b h k = h

-- Let the startup timeout have passed since every time that the container reports, and the checks
-- that failed in a row fill the timeout for unhealthy containers. Then no reason to give the
-- container up is found exactly when it is running and healthy.
pub inference_failure_reason-ready :
    (settings : Timeouts) (now : ℕ) (info : WorkloadInfo)
    → IsOverdue settings now info.created_at
    → IsOverdue settings now info.started_at
    → IsOverdue settings now info.finished_at
    → settings.inference_unhealthy_timeout_seconds
      ≤ info.health_failing_streak * inference_health_interval_seconds
    → (inference_failure_reason settings now info ≡ none)
      ↔ ((is_text "healthy" info.health_status && info.status == "running") ≡ true)
unfolding inference_failure_reason
inference_failure_reason-ready settings now info created started finished checks = (to, λ h. rw h)
  where
    last : startup_timeout_reason settings now (or_time info.started_at info.created_at) ≢ none
    last = startup-overdue settings now _ (or_time-IsOverdue settings now _ _ started created)

    to :
        inference_failure_reason settings now info ≡ none
        → (is_text "healthy" info.health_status && info.status == "running") ≡ true
    to e = elim (Bool-cases (is_text "healthy" info.health_status && info.status == "running")) [
      | inl ready ↦ ready
      | inr not_ready ↦ absurd (elim (Bool-cases (leb inference_max_restarts info.restart_count)) [
        | inl many ↦ cc (rw (not_ready, many) at e)
        | inr few ↦ elim (Bool-cases (info.status == "restarting")) [
          | inl again ↦
              startup-overdue settings now _ (or_time-IsOverdue settings now _ _ finished created)
                (rw (not_ready, few, again) at e)
          | inr other ↦ elim (Bool-cases (is_text "unhealthy" info.health_status)) [
            | inl ill ↦
                unhealthy-overdue settings now info.health_failing_streak checks
                  (rw (not_ready, few, other, ill) at e)
            | inr unknown ↦ last (rw (not_ready, few, other, unknown) at e)
          ]
        ]
      ])
    ]
