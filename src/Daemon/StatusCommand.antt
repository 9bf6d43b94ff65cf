-- ===== src/Daemon/StatusCommand.antt =====
-- The `status` command from its flags to its exit (cmd/clusterrebootd/main.go).
use clusterrebootd.Prelude.{
  ◌∷◌, ◌≤◌, ◌≡◌, refl, Bool, true, false, not, ◌&&◌, Option, some, [], arith, inl, inr, ◌⊎◌, Result,
  ok, err, if◌then◌else◌,
}
use clusterrebootd.Config.Types.{Config}
use clusterrebootd.Config.Derived.{Variables}
use clusterrebootd.Windows.Error.{Parsed}
use clusterrebootd.Windows.Evaluator.{Evaluator}
use clusterrebootd.Orchestrator.Failure.{Failure}
use clusterrebootd.Orchestrator.Types.{Outcome, Trace, Environment, Runner}
use clusterrebootd.Orchestrator.Lock.{release_lease}
use clusterrebootd.Orchestrator.RunOnce.{run_once}
use clusterrebootd.Orchestrator.Held.{held}
use clusterrebootd.Orchestrator.PassLock.{is_failure, run_once-held}
use clusterrebootd.Orchestrator.GateCalls.{inert, tries}
use clusterrebootd.Orchestrator.PassCalls.{run_once-inert}
use clusterrebootd.Orchestrator.Loop.{release_outcome}
use clusterrebootd.Orchestrator.NewRunner.{
  apply_runner_option, apply_runner_options, initial_runner, with_windows, fill_runner, new_runner,
}
use clusterrebootd.Daemon.Run.{ExitCode, exit_run_error, release_and_exit}
use clusterrebootd.Daemon.Setup.{lock_client, Resources, no_resources, World}
use clusterrebootd.Daemon.Commands.{StatusFlags, Prepared, status_options, set_up_status}
use clusterrebootd.Daemon.SetupLaws.{
  Balanced, Leaks, Makes, options_of_status, set_up_status-Balanced, set_up_status-Makes,
}
use clusterrebootd.Daemon.Programs.{
  after_set_up, after_status, status_prepared, status_environment, command_status,
}

-- The runner of `status`: it reports no health, and tries the lock once or not at all.
abbrev IsStatusRunner : Bool → Runner → Type 0
IsStatusRunner skip_lock r =
    (r.health_reporting ≡ false) × (r.max_lock_tries ≡ 1) × (r.lock_enabled ≡ not skip_lock)

with_windows-IsStatusRunner :
    (skip_lock : Bool) (r s : Runner) (w : Parsed (Option Evaluator))
    → IsStatusRunner skip_lock r
    → with_windows r w ≡ ok s
    → IsStatusRunner skip_lock s
with_windows-IsStatusRunner skip_lock r s w p h = ground (arith, p, h)

new_runner-IsStatusRunner :
    (c : Config) (variables : Variables) (skip_lock has_cooldown : Bool) (r : Runner)
    → new_runner c (status_options variables skip_lock has_cooldown) ≡ ok r
    → IsStatusRunner skip_lock r
unfolding new_runner apply_runner_options apply_runner_option initial_runner fill_runner
new_runner-IsStatusRunner c variables skip_lock has_cooldown r h = ground (arith, h)

-- What `status` may do: look, and take the lock for a moment.
abbrev pub Looks : Bool → Trace → Type 0
Looks skip_lock t =
    (inert false t ≡ true) × (held t ≡ false) × (tries t ≤ (if skip_lock then 0 else 1))

module _ (env : Environment) (r : Runner) (skip_lock : Bool)
    (made : IsStatusRunner skip_lock r) where
  after_status-inert :
      (o : Outcome) (e : Option Failure) (t : Trace)
      → inert false t ≡ true
      → inert false (after_status env (o, e, t)).1 ≡ true
  unfolding release_and_exit release_outcome release_lease
  after_status-inert o e t h = ground (arith, h)

  after_status-held :
      (o : Outcome) (e : Option Failure) (t : Trace)
      → held t ≡ o.lock_release
      → (o.lock_release && is_failure e) ≡ false
      → held (after_status env (o, e, t)).1 ≡ false
  unfolding release_and_exit release_outcome release_lease
  after_status-held o e t kept fine = ground (arith, kept, fine)

  tries-after_status :
      (o : Outcome) (e : Option Failure) (t : Trace)
      → tries (after_status env (o, e, t)).1 ≡ tries t
  unfolding release_and_exit release_outcome release_lease
  tries-after_status o e t = ground arith

  status_prepared-Looks : Looks skip_lock (status_prepared env r).1
  unfolding status_prepared
  status_prepared-Looks =
      let (o, e, t) = run_once env r [] in
      let calls = run_once-inert env r false (ground (arith, made)) [] refl in
      let kept = run_once-held env r [] refl in
      (
        after_status-inert o e t calls.0,
        after_status-held o e t kept.0 kept.2,
        ground (arith, made, calls.1, tries-after_status o e t),
      )

module _ (w : World) (connect : Prepared → Environment) where
  ended-Looks :
      (f : StatusFlags) (x : Result ExitCode Prepared × Resources)
      → Makes true (options_of_status f.skip_lock) x
      → Looks f.skip_lock
          (after_set_up (λ p. status_prepared (status_environment f (connect p)) p.runner) x).trace
  ended-Looks f (err code, s) made = (refl, refl, omega arith)
  ended-Looks f (ok p, s) made =
      status_prepared-Looks (status_environment f (connect p)) p.runner f.skip_lock
        (new_runner-IsStatusRunner p.config p.variables f.skip_lock _ p.runner made.1)

  ended-closes :
      (f : StatusFlags) (x : Result ExitCode Prepared × Resources)
      → Balanced x.1 ⊎ ((f.skip_lock ≡ false) × Leaks x)
      → let e = after_set_up (λ p. status_prepared (status_environment f (connect p)) p.runner) x in
        (e.resources.opened ≡ e.resources.deferred)
        ⊎ ((f.skip_lock ≡ false)
            × (e.code ≡ some exit_run_error)
            × (e.resources.opened ≡ lock_client ∷ [])
            × (e.resources.deferred ≡ []))
  ended-closes f (err code, s) (inl same) = inl same
  ended-closes f (err code, s) (inr (asked, left)) =
      inr (asked, ground (arith, left), left.1, left.2)
  ended-closes f (ok p, s) (inl same) = inl same
  ended-closes f (ok p, s) (inr (asked, left)) = cc

  -- `status` runs no command, starts no cooldown and reports nothing to the cluster; it ends with the
  -- lock free, having tried it at most once, and never with `--skip-lock`.
  pub command_status-Looks :
      (f : StatusFlags) → Looks f.skip_lock (command_status w connect (some f)).trace
  unfolding command_status
  command_status-Looks f =
      ended-Looks f (set_up_status w f no_resources) (set_up_status-Makes w f no_resources)

  -- Everything that `status` opens is closed at the exit, the last first; or it was not skipping the
  -- lock, fails, and leaves just the client of the lock open.
  pub command_status-closes :
      (f : StatusFlags)
      → let e = command_status w connect (some f) in
        (e.resources.opened ≡ e.resources.deferred)
        ⊎ ((f.skip_lock ≡ false)
            × (e.code ≡ some exit_run_error)
            × (e.resources.opened ≡ lock_client ∷ [])
            × (e.resources.deferred ≡ []))
  unfolding command_status
  command_status-closes f =
      ended-closes f (set_up_status w f no_resources) (set_up_status-Balanced w f)
