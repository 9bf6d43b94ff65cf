-- ===== src/Orchestrator/Loop.antt =====
-- pkg/orchestrator/loop.go, with the closures of an outcome that it calls (`ReleaseLock` and
-- `startCooldown` of runner.go) and the executor (executor.go).
use clusterrebootd.Prelude.{
  ℕ, zero, suc, ◌*◌, Bool, true, false, not, ◌&&◌, ◌||◌, Option, none, some, List, [], ◌∷◌,
  if◌then◌else◌, is_nil, ℤ, pos, pos_part, leb_ℤ, ltb_ℤ,
}
use clusterrebootd.Text.{Text}
use clusterrebootd.Orchestrator.Failure.{Failure, Context, wrap, joined, is_cancel, empty_command}
use clusterrebootd.Orchestrator.Types.{
  Nanos, Status, is_ready, Outcome, Call, Trace, Environment, Runner,
}
use clusterrebootd.Orchestrator.Backoff.{next_error_backoff, next_error_delay}
use clusterrebootd.Orchestrator.Lock.{release_lease}
use clusterrebootd.Orchestrator.RunOnce.{run_once}
pub mod Laws
pub mod Reboots
pub mod DryRun
pub mod Once
pub mod Guarded

-- The fields of `Loop` that are durations.
pub record Loop : Type 0 where
  pub interval : Nanos
  pub error_min : Nanos
  pub error_max : Nanos

-- The options that change them.
pub data LoopOption : Type 0 where
  with_interval : Nanos → LoopOption
  with_error_backoff : Nanos → Nanos → LoopOption

unfoldable pub apply_option : Loop → LoopOption → Loop
apply_option l (with_interval d) = record l { interval = d }
apply_option l (with_error_backoff least most) = record l { error_min = least; error_max = most }

unfoldable pub apply_options : Loop → List LoopOption → Loop
unfolding apply_option
apply_options l [] = l
apply_options l (o ∷ os) = apply_options (apply_option l o) os

abbrev pub seconds : ℕ → Nanos
seconds n = pos (n * 1000000000)

-- `d` where it is positive.
abbrev pub or_else : Nanos → Nanos → Nanos
or_else d e = if leb_ℤ d (pos 0) then e else d

unfoldable pub normalise : Nanos → Loop → Loop
normalise check_interval l =
    let least = or_else l.error_min (seconds 5) in
    let most = or_else l.error_max least in
    record {
      interval = or_else (or_else l.interval check_interval) (seconds 60);
      error_min = least;
      error_max = if ltb_ℤ most least then least else most;
    }

-- `NewLoop`, of the interval of the configuration.
unfoldable pub new_loop : Nanos → List LoopOption → Loop
new_loop check_interval options = normalise check_interval (
    apply_options
      (record { interval = check_interval; error_min = seconds 5; error_max = seconds 60 }) options)

-- `ReleaseLock`: the error of the closure, if it is set, and that it is not set any more.
unfoldable pub release_outcome : Environment → Outcome → Trace → Option Failure × Outcome × Trace
release_outcome env o t =
    if o.lock_release
    then (let (failure, t2) = release_lease env t in
        (failure, record o { lock_release = false }, t2))
    else (none, o, t)

abbrev pub cooldown_error : Option Failure → Option Failure
cooldown_error none = none
cooldown_error (some e) = some (if is_cancel e then e else wrap Context.start_reboot_cooldown e)

abbrev pub started : Outcome → Option Failure → Outcome
started o none = record o { cooldown_start = none; cooldown_started = true }
started o (some e) = record o { cooldown_start = none }

unfoldable pub start_of :
    Environment → Outcome → Option Nanos → Trace → Option Failure × Outcome × Trace
start_of env o none t = (none, o, t)
start_of env o (some window) t =
    let failure = env.start_cooldown t window in
    (cooldown_error failure, started o failure, Call.cooldown_set window failure ∷ t)

-- `startCooldown`
unfoldable pub start_cooldown : Environment → Outcome → Trace → Option Failure × Outcome × Trace
unfolding start_of
start_cooldown env o t = start_of env o o.cooldown_start t

abbrev pub execute_error : Option Failure → Option Failure
execute_error none = none
execute_error (some e) = some (wrap Context.run_reboot_command e)

-- `ExecCommandExecutor.Execute`; the call is recorded with the error that it returns.
unfoldable pub execute : Environment → List Text → Trace → Option Failure × Trace
execute env [] t = (some empty_command, t)
execute env (word ∷ words) t =
    let failure = execute_error (env.execute t (word ∷ words)) in
    (failure, Call.executed (word ∷ words) failure ∷ t)

-- How one turn of the loop of `Run` ends: `Run` returns, or the next turn begins.
pub data Turn : Type 0 where
  returns : Option Failure → Turn
  goes_on : Turn

-- The state of the loop, with the last outcome that the iteration hook was given.
pub record LoopState : Type 0 where
  pub trace : Trace
  pub error_backoff : ℕ
  pub last : Outcome

-- `errors.Join` with an error that may be missing.
abbrev pub join_errors : Failure → Option Failure → Failure
join_errors e none = e
join_errors e (some f) = joined e f

abbrev pub returns_if : Option Failure → Turn
returns_if none = goes_on
returns_if (some e) = returns (some e)

module _ (env : Environment) (r : Runner) (l : Loop) where
  sleep_for : ℕ → Trace → Option Failure × Trace
  sleep_for zero t = (none, t)
  sleep_for (suc d) t =
      let failure = env.sleep t (suc d) in (failure, Call.slept (suc d) failure ∷ t)

  -- `sleepWithContext`
  unfoldable pub loop_sleep : Nanos → Trace → Option Failure × Trace
  unfolding sleep_for
  loop_sleep d t = sleep_for (pos_part d) t

  -- `RunOnce` failed: the lock is released, the error is reported, and the loop waits.
  unfoldable pub after_error : LoopState → Outcome → Failure → Trace → Turn × LoopState
  after_error s o e t =
      let (released, _, t0) = release_outcome env o t in
      let t1 = Call.errored (join_errors e released) ∷ t0 in
      let backoff =
        next_error_backoff s.error_backoff (pos_part l.error_min) (pos_part l.error_max) in
      let delay = next_error_delay (env.random t1) backoff (pos_part l.error_min) in
      let (failure, t2) = loop_sleep (pos delay) t1 in
      (returns_if failure, record s { trace = t2; error_backoff = backoff })

  -- `return err`, after the lock is released.
  unfoldable pub give_up : Outcome → Failure → Trace → Turn × Trace
  give_up o e t =
      let (released, _, t1) = release_outcome env o t in
      (returns (some (join_errors e released)), t1)

  unfoldable pub after_execution : Outcome → Option Failure × Trace → Turn × Trace
  unfolding give_up
  after_execution o (none, t) = (returns none, t)
  after_execution o (some e, t) = give_up o (wrap Context.execute_reboot_command e) t

  -- The cooldown is started, and then the command is run.
  unfoldable pub after_start : Option Failure × Outcome × Trace → Turn × Trace
  unfolding give_up after_execution
  after_start (some e, o, t) = give_up o e t
  after_start (none, o, t) = after_execution o (execute env o.command t)

  unfoldable pub reboot : Outcome → Trace → Turn × Trace
  unfolding after_start
  reboot o t = after_start (start_cooldown env o t)

  -- A ready outcome that has nothing to run.
  unfoldable pub nothing_to_run : Outcome → Trace → Turn × Trace
  nothing_to_run o t = let (released, _, t1) = release_outcome env o t in (returns released, t1)

  unfoldable pub wait_or_return : Option Failure → Trace → Turn × Trace
  wait_or_return (some e) t = (returns (some e), t)
  wait_or_return none t = let (failure, t1) = loop_sleep l.interval t in (returns_if failure, t1)

  -- An outcome that is not ready.
  unfoldable pub not_ready : Outcome → Trace → Turn × Trace
  unfolding wait_or_return
  not_ready o t = let (released, _, t1) = release_outcome env o t in wait_or_return released t1

  unfoldable pub after_pass : Outcome → Trace → Turn × Trace
  after_pass o t =
      if is_ready o.status
      then (if o.dry_run || is_nil o.command then nothing_to_run o t else reboot o t)
      else not_ready o t

  -- The outcome, without an error, is given to the hook, and the error backoff is reset.
  unfoldable pub after_success : LoopState → Outcome → Trace → Turn × LoopState
  after_success s o t =
      let (turn, t1) = after_pass o t in (turn, record { trace = t1; error_backoff = 0; last = o })

  unfoldable pub pass_turn : LoopState → Outcome × Option Failure × Trace → Turn × LoopState
  pass_turn s (o, some e, t) = after_error s o e t
  pass_turn s (o, none, t) = after_success s o t

  unfoldable pub turn_of : LoopState → Option Failure → Turn × LoopState
  unfolding pass_turn
  turn_of s (some e) = (returns (some e), s)
  turn_of s none = pass_turn s (run_once env r s.trace)

  -- One turn of the `for` of `Run`.
  unfoldable pub turn : LoopState → Turn × LoopState
  unfolding turn_of
  turn s = turn_of s (env.context_error s.trace)

  abbrev pub then_turns : (LoopState → Turn × LoopState) → Turn × LoopState → Turn × LoopState
  then_turns f (returns e, s) = (returns e, s)
  then_turns f (goes_on, s) = f s

  -- The first so many turns; `Run` itself has no bound.
  unfoldable pub turns : ℕ → LoopState → Turn × LoopState
  turns zero s = (goes_on, s)
  turns (suc n) s = then_turns (turns n) (turn s)
