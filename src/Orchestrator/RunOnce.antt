-- ===== src/Orchestrator/RunOnce.antt =====
-- `RunOnce` of pkg/orchestrator/runner.go: one pass.
use clusterrebootd.Prelude.{
  ℕ, true, false, not, ◌&&◌, Option, none, some, ◌∷◌, if◌then◌else◌, is_nil,
}
use clusterrebootd.Orchestrator.Failure.{Failure, Context}
use clusterrebootd.Orchestrator.Types.{
  Phase, Status, Message, Outcome, empty_outcome, Call, Trace, Environment, Runner,
}
use clusterrebootd.Orchestrator.Flow.{State, Exit, M, pure, ◌>>=◌, ◌>>◌, modify, finish_if}
use clusterrebootd.Orchestrator.Gates.{
  kill_gate, window_gate, detect, health_gate, no_reboot, cluster_gate, cooldown_enabled,
  cooldown_gate, set_command, lock_enabled_gate,
}
use clusterrebootd.Orchestrator.Lock.{acquire_lock, release_lease}

module _ (env : Environment) (r : Runner) where
  -- A monitoring run ends the pass where no detector asks for a reboot.
  unfoldable pub detector_gate : M (Unit {0})
  detector_gate = do
    requires ← detect env r Phase.pre_lock Context.detector_evaluation
    if requires then pure tt else no_reboot env r

  -- Up to the lock.
  unfoldable pub before_lock : M (Unit {0})
  before_lock = do
    kill_gate env r Phase.pre_lock Context.check_kill_switch Message.kill_present
    window_gate env r
    detector_gate
    cluster_gate env r Phase.pre_lock Context.cluster_health_before_lock
    health_gate env r Phase.pre_lock false 0 Message.unhealthy_before_lock
    cooldown_gate env r
    lock_enabled_gate env r

  -- Acquires the lock: the number of attempts made.
  unfoldable pub lock_gate : M ℕ
  lock_gate = do
    (acquired, attempts) ← acquire_lock env r
    finish_if (not acquired) Status.lock_unavailable (Message.lock_not_acquired r.max_lock_tries)
    modify (λ o. record o { lock_acquired = true })
    pure attempts

  unfoldable pub recheck_gate : M (Unit {0})
  recheck_gate = do
    requires ← detect env r Phase.post_lock Context.post_lock_detector_evaluation
    finish_if (not requires) Status.recheck_cleared Message.detectors_cleared

  -- The closures of an outcome whose command is to be run: from here on the outcome holds the lock.
  unfoldable pub hand_over : Outcome → Outcome
  hand_over o = record o {
    lock_release = true;
    cooldown_start = if cooldown_enabled env r then some r.cooldown_window else none;
    cooldown_clear = cooldown_enabled env r;
  }

  unfoldable pub make_ready : Outcome → Outcome
  make_ready o =
      let ready =
        set_command env r
          (record o { status = some Status.ready; message = Message.prerequisites_satisfied }) in
      if not ready.dry_run && not (is_nil ready.command) then hand_over ready else ready

  -- The checks under the lock.
  unfoldable pub checks_under_lock : ℕ → M (Unit {0})
  checks_under_lock attempts = do
    kill_gate env r Phase.post_lock Context.check_kill_switch_after_lock
        Message.kill_present_after_lock
    cluster_gate env r Phase.post_lock Context.cluster_health_under_lock
    recheck_gate
    health_gate env r Phase.post_lock true attempts Message.unhealthy_under_lock

  unfoldable pub under_lock : ℕ → M (Unit {0})
  under_lock attempts = do checks_under_lock attempts; modify make_ready

  abbrev release_exit : Exit (Unit {0}) → Option Failure → Exit (Unit {0})
  release_exit (Exit.fail e) failure = Exit.fail e
  release_exit exit none = exit
  release_exit exit (some e) = Exit.fail e

  -- The deferred release: the lease is released unless it was handed over to the outcome, and its
  -- error is returned where there is no other.
  unfoldable pub release_unless_kept : Exit (Unit {0}) × State → Exit (Unit {0}) × State
  release_unless_kept (exit, s) =
      if s.out.lock_release
      then (exit, s)
      else (let (failure, trace) = release_lease env s.trace in
          (release_exit exit failure, record s { trace = trace }))

  unfoldable pub with_lock : ℕ → M (Unit {0})
  with_lock attempts s = release_unless_kept (under_lock attempts s)

  unfoldable pub pass : M (Unit {0})
  pass = do before_lock; attempts ← lock_gate; with_lock attempts

  -- The other deferred function: `recordOutcome` of an outcome with a status and no error.
  unfoldable pub settle : Exit (Unit {0}) × State → Outcome × Option Failure × Trace
  settle (Exit.fail e, s) = (s.out, some e, s.trace)
  settle (exit, s) = (
    s.out,
    none,
    elim s.out.status [ none ↦ s.trace | some status ↦ Call.outcome_recorded s.out ∷ s.trace ],
  )

  -- The outcome, the error and the trace.
  unfoldable pub run_once : Trace → Outcome × Option Failure × Trace
  run_once trace = settle (pass (record { trace = trace; out = empty_outcome }))
