-- ===== src/Daemon/RunCommand.antt =====
-- The `run` command from its flags to its exit (cmd/clusterrebootd/main.go).
use clusterrebootd.Prelude.{
  ℕ, ◌≤◌, ◌≡◌, refl, sym, Bool, true, false, Option, none, some, arith, inl, inr, ◌⊎◌, Result, ok,
  err, subst,
}
use clusterrebootd.Orchestrator.Types.{Environment}
use clusterrebootd.Orchestrator.Held.{held}
use clusterrebootd.Orchestrator.GateCalls.{inert}
use clusterrebootd.Orchestrator.NewRunnerLaws.{new_runner-Made}
use clusterrebootd.Orchestrator.Loop.Laws.{just_executed}
use clusterrebootd.Orchestrator.Loop.Once.{executions}
use clusterrebootd.Daemon.Run.{ExitCode}
use clusterrebootd.Daemon.Setup.{Resources, no_resources, World}
use clusterrebootd.Daemon.Commands.{RunFlags, Prepared, set_up_run}
use clusterrebootd.Daemon.SetupLaws.{
  Balanced, Makes, is_dry, options_of_run, set_up_run-Balanced, set_up_run-Makes,
}
use clusterrebootd.Daemon.Programs.{after_set_up, run_prepared, command_run}
use clusterrebootd.Daemon.LoopLaws.{
  Free, run_prepared-Free, run_prepared-inert, executions-run_prepared,
}

-- The flags were parsed, and have this property.
abbrev pub has : (RunFlags → Bool) → Option RunFlags → Bool
has property none = false
has property (some f) = property f

module _ (w : World) (connect : Prepared → Environment) where
  ended-Free :
      (x : Result ExitCode Prepared × Resources) (only_once : Bool) (fuel : ℕ)
      → Free (after_set_up (λ p. run_prepared (connect p) only_once p.config p.runner fuel) x).trace
  ended-Free (err code, s) only_once fuel = inl refl
  ended-Free (ok p, s) only_once fuel =
      run_prepared-Free (connect p) only_once p.config p.runner fuel

  ended-executions :
      (x : Result ExitCode Prepared × Resources) (only_once : Bool) (fuel : ℕ)
      → executions
          (after_set_up (λ p. run_prepared (connect p) only_once p.config p.runner fuel) x).trace
        ≤ 1
  ended-executions (err code, s) only_once fuel = omega arith
  ended-executions (ok p, s) only_once fuel =
      executions-run_prepared (connect p) only_once p.config p.runner fuel

  ended-resources :
      (x : Result ExitCode Prepared × Resources) (only_once : Bool) (fuel : ℕ)
      → (after_set_up (λ p. run_prepared (connect p) only_once p.config p.runner fuel) x).resources
        ≡ x.1
  ended-resources (err code, s) only_once fuel = refl
  ended-resources (ok p, s) only_once fuel = refl

  ended-inert :
      (dry only_once : Bool) (x : Result ExitCode Prepared × Resources) (fuel : ℕ)
      → Makes dry options_of_run x
      → (dry ≡ true) ⊎ (only_once ≡ true)
      → inert true
          (after_set_up (λ p. run_prepared (connect p) only_once p.config p.runner fuel) x).trace
        ≡ true
  ended-inert dry only_once (err code, s) fuel made h = refl
  ended-inert dry only_once (ok p, s) fuel made (inr once_) =
      run_prepared-inert (connect p) only_once p.config p.runner fuel (inr once_)
  ended-inert dry only_once (ok p, s) fuel made (inl dry_) =
      let same = (new_runner-Made p.config (options_of_run p) p.runner made.1).0 in
      run_prepared-inert (connect p) only_once p.config p.runner fuel
        (inl (ground (arith, made.0, dry_, same)))

  -- Whatever the configuration, the flags and the answers of the outside, and however long `run` has
  -- run, the lock is free, unless the last call ran the reboot command with success; no more than one
  -- command was run; and everything that was opened is closed at the exit, the last first.
  pub command_run-Free :
      (fuel : ℕ) (flags : Option RunFlags)
      → let e = command_run w connect fuel flags in
        ((held e.trace ≡ false) ⊎ (just_executed e.trace ≡ true))
        × (executions e.trace ≤ 1)
        × (e.resources.opened ≡ e.resources.deferred)
  unfolding command_run
  command_run-Free fuel none = (inl refl, omega arith, refl)
  command_run-Free fuel (some f) =
      let x = set_up_run w f no_resources in
      (
        ended-Free x f.once fuel,
        ended-executions x f.once fuel,
        subst Balanced (sym (ended-resources x f.once fuel))
            (set_up_run-Balanced w f no_resources refl),
      )

  -- With `--dry-run`, with a configuration that asks for a dry run, or with `--once`, no command is run
  -- and no cooldown is started, however long `run` has run.
  pub command_run-inert :
      (fuel : ℕ) (flags : Option RunFlags)
      → (has (is_dry w) flags ≡ true) ⊎ (has (λ f. f.once) flags ≡ true)
      → inert true (command_run w connect fuel flags).trace ≡ true
  unfolding command_run
  command_run-inert fuel none h = refl
  command_run-inert fuel (some f) h =
      ended-inert (is_dry w f) f.once (set_up_run w f no_resources) fuel
        (set_up_run-Makes w f no_resources) h
