-- ===== src/Daemon/Run.antt =====
-- cmd/clusterrebootd/main.go: the exit codes, and what `run` does with a pass or after the loop. What
-- it prints is left out.
use clusterrebootd.Prelude.{ℕ, Bool, true, false, Option, none, some, if◌then◌else◌}
use clusterrebootd.Orchestrator.Failure.{Failure, is_cancel}
use clusterrebootd.Orchestrator.Types.{Status, Outcome, Trace, Environment, Runner}
use clusterrebootd.Orchestrator.RunOnce.{run_once}
use clusterrebootd.Orchestrator.Loop.{release_outcome}

pub data ExitCode : Type 0 where
  exit_ok exit_usage exit_run_error exit_config_error exit_health_blocked : ExitCode
  exit_lock_unavailable exit_kill_switch exit_detector_error : ExitCode

unfoldable pub exit_number : ExitCode → ℕ
exit_number exit_ok = 0
exit_number exit_usage = 64
exit_number exit_run_error = 1
exit_number exit_config_error = 2
exit_number exit_health_blocked = 3
exit_number exit_lock_unavailable = 4
exit_number exit_kill_switch = 5
exit_number exit_detector_error = 6

abbrev exit_code_for_status : Option Status → ExitCode
exit_code_for_status (some Status.kill_switch) = exit_kill_switch
exit_code_for_status (some Status.health_blocked) = exit_health_blocked
exit_code_for_status (some Status.lock_unavailable) = exit_lock_unavailable
exit_code_for_status _ = exit_ok

-- `exitCodeForOutcome`
unfoldable pub exit_code_for_outcome : Outcome → ExitCode
exit_code_for_outcome o = exit_code_for_status o.status

-- A cancelled pass is no error.
abbrev pub exit_of_error : Failure → ExitCode
exit_of_error e = if is_cancel e then exit_ok else exit_run_error

module _ (env : Environment) where
  abbrev exit_of_release : Option Failure → Outcome → ExitCode
  exit_of_release none o = exit_code_for_outcome o
  exit_of_release (some e) o = exit_run_error

  -- The lock of an outcome is given up before the exit.
  unfoldable pub release_and_exit : Outcome → Trace → ExitCode × Trace
  release_and_exit o t =
      let (failure, _, t1) = release_outcome env o t in (exit_of_release failure o, t1)

  unfoldable pub after_once : Outcome × Option Failure × Trace → ExitCode × Trace
  unfolding release_and_exit
  after_once (o, some e, t) = (exit_of_error e, t)
  after_once (o, none, t) = release_and_exit o t

  -- `run --once`, after the set-up.
  unfoldable pub once : Runner → Trace → ExitCode × Trace
  unfolding after_once
  once r t = after_once (run_once env r t)

  -- `run` after `loop.Run`, of the error of the loop, the outcome of the last iteration, and whether
  -- the command was executed.
  unfoldable pub after_loop : Option Failure → Outcome → Bool → Trace → ExitCode × Trace
  unfolding release_and_exit
  after_loop (some e) last executed t =
      ((if is_cancel e then exit_code_for_outcome last else exit_run_error), t)
  after_loop none last true t = (exit_code_for_outcome last, t)
  after_loop none last false t = release_and_exit last t
