-- ===== src/Daemon/Programs.antt =====
-- cmd/clusterrebootd/main.go: the commands, from their flags to their exit. The answers of the flag
-- library are parameters, and so is what answers the calls of the runner that was made; the heartbeats
-- beside the loop (Daemon/Publisher.antt) are part of those answers. What is printed is left out.
use clusterrebootd.Prelude.{
  ℕ, Bool, true, false, Option, none, some, List, [], ◌∷◌, if◌then◌else◌, pos, Result, ok, err,
}
use clusterrebootd.Text.{Text, codes, text_eq}
use clusterrebootd.Config.Types.{Config}
use clusterrebootd.Config.Derived.{check_interval}
use clusterrebootd.Orchestrator.Failure.{Failure}
use clusterrebootd.Orchestrator.Types.{
  Outcome, empty_outcome, Call, Trace, Environment, Runner, HealthResult,
}
use clusterrebootd.Orchestrator.RunOnce.{run_once}
use clusterrebootd.Orchestrator.Loop.{Turn, LoopState, new_loop, turns}
use clusterrebootd.Detector.Probe.{Host}
use clusterrebootd.Detector.Engine.{Evaluation, evaluate}
use clusterrebootd.Daemon.Run.{
  ExitCode, exit_ok, exit_usage, exit_run_error, exit_config_error, exit_detector_error,
  release_and_exit, once, after_loop,
}
use clusterrebootd.Daemon.Setup.{Resources, no_resources, World, load}
use clusterrebootd.Daemon.Managers.{make_engine}
use clusterrebootd.Daemon.Commands.{RunFlags, StatusFlags, Prepared, set_up_run, set_up_status}

-- The exit code, which `none` leaves open, the calls, and the resources.
pub record Ended : Type 0 where
  pub code : Option ExitCode
  pub trace : Trace
  pub resources : Resources

-- An exit before any call.
abbrev pub exits : ExitCode → Resources → Ended
exits code s = record { code = some code; trace = []; resources = s }

-- The set-up, and then a command in what was made.
abbrev pub after_set_up :
    (Prepared → Option ExitCode × Trace) → Result ExitCode Prepared × Resources → Ended
after_set_up go (err code, s) = exits code s
after_set_up go (ok p, s) = let (code, t) = go p in record { code = code; trace = t; resources = s }

-- `trackingExecutor`: whether a command was executed without an error.
unfoldable pub was_executed : Trace → Bool
was_executed [] = false
was_executed (Call.executed _ none ∷ t) = true
was_executed (_ ∷ t) = was_executed t

abbrev pub exit_some : ExitCode × Trace → Option ExitCode × Trace
exit_some (code, t) = (some code, t)

-- The state of the loop before its first turn.
abbrev pub loop_start : LoopState
loop_start = record { trace = []; error_backoff = 0; last = empty_outcome }

module _ (env : Environment) where
  abbrev pub after_turns : Turn × LoopState → Option ExitCode × Trace
  after_turns (Turn.goes_on, s) = (none, s.trace)
  after_turns (Turn.returns e, s) =
      exit_some (after_loop env e s.last (was_executed s.trace) s.trace)

  -- `run` without `--once`: so many turns of the loop, and the exit if it returned.
  unfoldable pub run_loop : Config → Runner → ℕ → Option ExitCode × Trace
  run_loop c r fuel = after_turns (turns env r (new_loop (check_interval c) []) fuel loop_start)

  unfoldable pub run_prepared : Bool → Config → Runner → ℕ → Option ExitCode × Trace
  unfolding run_loop
  run_prepared true c r fuel = exit_some (once env r [])
  run_prepared false c r fuel = run_loop c r fuel

  abbrev pub after_status : Outcome × Option Failure × Trace → ExitCode × Trace
  after_status (o, some e, t) = (exit_run_error, t)
  after_status (o, none, t) = release_and_exit env o t

  -- `status`, after its set-up.
  unfoldable pub status_prepared : Runner → Option ExitCode × Trace
  status_prepared r = exit_some (after_status (run_once env r []))

-- `skipHealthRunner`, without its message.
abbrev pub skip_health_runner : HealthResult × Option Failure
skip_health_runner = (record { exit_code = pos 0 }, none)

-- `NoopManager.Acquire` and `noopLease.Release`: of the error of the context.
unfoldable pub noop_acquire : Option Failure → Option Failure
noop_acquire done = done

unfoldable pub noop_release : Option Failure
noop_release = none

abbrev without_health : Bool → Environment → Environment
without_health true env = record env { run_health = λ t e. skip_health_runner }
without_health false env = env

abbrev without_lock : Bool → Environment → Environment
without_lock true env = record env {
  acquire = λ t. noop_acquire (env.context_error t);
  release = λ t. noop_release;
}
without_lock false env = env

-- The collaborators of `status`.
unfoldable pub status_environment : StatusFlags → Environment → Environment
status_environment f env = without_lock f.skip_lock (without_health f.skip_health env)

module _ (w : World) (connect : Prepared → Environment) where
  abbrev pub run_with : ℕ → RunFlags → Ended
  run_with fuel f =
      after_set_up (λ p. run_prepared (connect p) f.once p.config p.runner fuel)
        (set_up_run w f no_resources)

  abbrev pub status_with : StatusFlags → Ended
  status_with f =
      after_set_up (λ p. status_prepared (status_environment f (connect p)) p.runner)
        (set_up_status w f no_resources)

  -- `commandRun`, of the flags that were parsed.
  unfoldable pub command_run : ℕ → Option RunFlags → Ended
  command_run fuel none = exits exit_usage no_resources
  command_run fuel (some f) = run_with fuel f

  -- `commandStatus`
  unfoldable pub command_status : Option StatusFlags → Ended
  command_status none = exits exit_usage no_resources
  command_status (some f) = status_with f

abbrev validated : {E A : Type 0} → Result E A → ExitCode
validated (ok c) = exit_ok
validated (err e) = exit_config_error

-- `commandValidate`, of the path that was parsed.
unfoldable pub command_validate : World → Option Text → ExitCode
command_validate w none = exit_usage
command_validate w (some path) = validated (load w path)

abbrev evaluation_code : Option Failure → ExitCode
evaluation_code none = exit_ok
evaluation_code (some e) = exit_detector_error

module _ (w : World) (host : Host) where
  abbrev simulated : Result ExitCode Evaluation → ExitCode
  simulated (err code) = code
  simulated (ok (requires, results, failure)) = evaluation_code failure

  abbrev evaluated : Config → Result ExitCode Evaluation
  evaluated c = elim (make_engine c no_resources).0 [
    | ok ds ↦ ok (evaluate host ds)
    | err code ↦ err code
  ]

  abbrev simulate_loaded : {E : Type 0} → Result E Config → ExitCode
  simulate_loaded (err e) = exit_config_error
  simulate_loaded (ok c) = simulated (evaluated c)

  -- `commandSimulate`
  unfoldable pub command_simulate : Option Text → ExitCode
  command_simulate none = exit_usage
  command_simulate (some path) = simulate_loaded (load w path)

-- What `run` does with its arguments.
pub data Command : Type 0 where
  runs validates simulates shows_status : List Text → Command
  shows_version : Command
  misused : Command

abbrev command_named : Text → List Text → Command
command_named name args =
    if text_eq name (codes "run")
    then runs args
    else if text_eq name (codes "validate-config")
    then validates args
    else if text_eq name (codes "simulate")
    then simulates args
    else if text_eq name (codes "status")
    then shows_status args
    else if text_eq name (codes "version")
    then shows_version
    else misused

unfoldable pub command_of : List Text → Command
command_of [] = misused
command_of (name ∷ args) = command_named name args
