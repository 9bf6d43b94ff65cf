-- ===== src/Daemon/RunReboots.antt =====
-- When `run` reboots (cmd/clusterrebootd/main.go, pkg/orchestrator).
use clusterrebootd.Prelude.{
  ℕ, suc, ◌≡◌, refl, ap, subst, Bool, true, false, Option, none, some, List, [], ◌∷◌, arith, is_nil,
  Result, ok, err, is_ok,
}
use clusterrebootd.Text.{Text}
use clusterrebootd.Config.Types.{Config}
use clusterrebootd.Config.Derived.{check_interval}
use clusterrebootd.Config.ValidateLaws.{IsValid}
use clusterrebootd.Orchestrator.Failure.{Failure}
use clusterrebootd.Orchestrator.Types.{Nanos, Outcome, Call, Trace, Environment, Runner, is_ready}
use clusterrebootd.Orchestrator.RunOnce.{run_once}
use clusterrebootd.Orchestrator.PassLock.{is_armed}
use clusterrebootd.Orchestrator.Favourable.{IsFavourable}
use clusterrebootd.Orchestrator.Progress.{run_once-armed}
use clusterrebootd.Orchestrator.Loop.{
  Loop, LoopState, Turn, new_loop, start_of, started, then_turns, start_cooldown, execute,
  after_execution, after_start, reboot, after_pass, after_success, pass_turn, turn_of, turn, turns,
}
use clusterrebootd.Orchestrator.Loop.Laws.{just_executed}
use clusterrebootd.Daemon.Run.{ExitCode, exit_ok, exit_code_for_outcome, after_loop}
use clusterrebootd.Daemon.Setup.{Resources, no_resources, World, load}
use clusterrebootd.Daemon.LoopLaws.{just-was_executed}
use clusterrebootd.Daemon.SetupLaws.{IsMadeOf, set_up_run-IsMadeOf}
use clusterrebootd.Daemon.Commands.{RunFlags, Prepared, enforce_dry_run, set_up_run}
use clusterrebootd.Daemon.Usable.{IsUsable, IsReachable, load-IsValid}
use clusterrebootd.Daemon.SetupProgress.{set_up_run-succeeds}
use clusterrebootd.Daemon.Programs.{
  after_set_up, run_prepared, command_run, loop_start, after_turns, run_loop,
}
use clusterrebootd.Daemon.Favours.{Favours, favourable_lem}

module _ (env : Environment) (c : Config) (fav : Favours env c) (r : Runner) (l : Loop) where
  -- The command was run with success as the last thing, of a ready outcome.
  abbrev Rebooted : Turn × LoopState → Type 0
  Rebooted (turn, s) =
      (turn ≡ Turn.returns none) × (just_executed s.trace ≡ true) × (is_ready s.last.status ≡ true)

  execute_lem :
      (command : List Text) (t : Trace)
      → is_nil command ≡ false
      → ((execute env command t).0 ≡ none) × (just_executed (execute env command t).1 ≡ true)
  unfolding execute
  execute_lem [] t h = cc
  execute_lem (word ∷ words) t h = rw (fav.executes t (word ∷ words)) (refl, refl)

  after_execution_lem :
      (o : Outcome) (x : Option Failure × Trace)
      → x.0 ≡ none
      → just_executed x.1 ≡ true
      → ((after_execution env r l o x).0 ≡ Turn.returns none)
        × (just_executed (after_execution env r l o x).1 ≡ true)
  unfolding after_execution
  after_execution_lem o (none, t) h k = (refl, k)
  after_execution_lem o (some e, t) h k = cc

  start_lem :
      (o : Outcome) (start : Option Nanos) (t : Trace)
      → is_nil o.command ≡ false
      → let x = after_start env r l (start_of env o start t) in
        (x.0 ≡ Turn.returns none) × (just_executed x.1 ≡ true)
  unfolding start_of after_start
  start_lem o none t h =
      let ran = execute_lem o.command t h in
      after_execution_lem o (execute env o.command t) ran.0 ran.1
  start_lem o (some window) t h =
      let begun = started o none in
      let ran = execute_lem o.command (Call.cooldown_set window none ∷ t) h in
      rw (fav.starts t window) (
        after_execution_lem begun (execute env o.command (Call.cooldown_set window none ∷ t)) ran.0
          ran.1)

  after_pass_lem :
      (o : Outcome) (t : Trace)
      → is_armed o ≡ true
      → let x = after_pass env r l o t in (x.0 ≡ Turn.returns none) × (just_executed x.1 ≡ true)
  unfolding after_pass reboot start_cooldown
  after_pass_lem o t h = ground (arith, h, start_lem o o.cooldown_start t (ground (arith, h)))

  pass_turn_lem :
      (s : LoopState) (o : Outcome) (e : Option Failure) (t : Trace)
      → is_armed o ≡ true
      → e ≡ none
      → Rebooted (pass_turn env r l s (o, e, t))
  unfolding pass_turn after_success
  pass_turn_lem s o none t h k = let x = after_pass_lem o t h in (x.0, x.1, ground (arith, h))
  pass_turn_lem s o (some e) t h k = cc

  turn-Rebooted : (s : LoopState) → IsFavourable env r → Rebooted (turn env r l s)
  unfolding turn turn_of
  turn-Rebooted s free =
      let (armed, _, fine) = run_once-armed env r free s.trace in
      rw (fav.runs_on s.trace) (
        pass_turn_lem s (run_once env r s.trace).0 (run_once env r s.trace).1
          (run_once env r s.trace).2 armed fine)

  then_lem :
      (n : ℕ) (x : Turn × LoopState)
      → Rebooted x
      → Rebooted (then_turns env r l (turns env r l n) x)
  then_lem n (Turn.returns e, s) h = h
  then_lem n (Turn.goes_on, s) h = cc

  turns-Rebooted : (n : ℕ) (s : LoopState) → IsFavourable env r → Rebooted (turns env r l (suc n) s)
  unfolding turns
  turns-Rebooted n s free = then_lem n (turn env r l s) (turn-Rebooted s free)

ready_lem : (o : Outcome) → is_ready o.status ≡ true → exit_code_for_outcome o ≡ exit_ok
unfolding exit_code_for_outcome
ready_lem o h = ground (arith, h)

after_turns_lem :
    (env : Environment) (x : Turn × LoopState)
    → (x.0 ≡ Turn.returns none)
      × (just_executed x.1.trace ≡ true)
      × (is_ready x.1.last.status ≡ true)
    → ((after_turns env x).0 ≡ some exit_ok) × (just_executed (after_turns env x).1 ≡ true)
unfolding after_loop
after_turns_lem env (Turn.goes_on, s) h = cc
after_turns_lem env (Turn.returns (some e), s) h = cc
after_turns_lem env (Turn.returns none, s) h =
    rw (just-was_executed s.trace h.1) (ap some (ready_lem s.last h.2), h.1)

module _ (w : World) (connect : Prepared → Environment) where
  run_lem :
      (only_once : Bool) (c : Config) (x : Result ExitCode Prepared × Resources) (fuel : ℕ)
      → only_once ≡ false
      → is_ok x.0 ≡ true
      → IsValid c
      → IsMadeOf c x
      → ((p : Prepared) → Favours (connect p) c)
      → let e =
          after_set_up (λ p. run_prepared (connect p) only_once p.config p.runner (suc fuel)) x in
        (e.code ≡ some exit_ok) × (just_executed e.trace ≡ true)
  unfolding run_prepared run_loop
  run_lem true c x fuel loops fine v made fav = cc
  run_lem false c (err code, s) fuel loops fine v made fav = cc
  run_lem false c (ok p, s) fuel loops fine v made fav =
      let free = fav p in
      let l = new_loop (check_interval p.config) [] in
      after_turns_lem (connect p) (turns (connect p) p.runner l (suc fuel) loop_start) (
        turns-Rebooted (connect p) c free p.runner l fuel loop_start
          (favourable_lem (connect p) c p.variables _ p.runner v free made.1))

  -- Where the configuration loads and the set-up goes through, neither `--once` nor `--dry-run` is
  -- given, and nothing stands against a reboot, `run` executes the reboot command in its first turn,
  -- makes no call after it, and exits with 0.
  pub command_run-reboots :
      (f : RunFlags) (c : Config) (fuel : ℕ)
      → load w f.config_path ≡ ok c
      → f.once ≡ false
      → f.dry_run ≡ false
      → IsUsable c
      → IsReachable w c
      → ((p : Prepared) → Favours (connect p) c)
      → let e = command_run w connect (suc fuel) (some f) in
        (e.code ≡ some exit_ok) × (just_executed e.trace ≡ true)
  unfolding command_run
  command_run-reboots f c fuel loaded loops real usable reachable fav =
      let x = set_up_run w f no_resources in
      let made = set_up_run-IsMadeOf w f c no_resources loaded in
      run_lem f.once c x fuel loops (set_up_run-succeeds w f c loaded usable reachable)
        (load-IsValid w f.config_path c loaded)
        (subst (λ b. IsMadeOf (enforce_dry_run b c) x) real made) fav
