-- ===== src/Orchestrator/NewRunnerLaws.antt =====
-- A runner made from a valid configuration (`NewRunner` of pkg/orchestrator/runner.go).
use clusterrebootd.Prelude.{
  ◌*◌, ◌<◌, ◌≤◌, ◌≡◌, refl, sym, subst, Bool, true, false, not, ◌&&◌, Option, List, [], ◌∷◌, arith,
  if◌then◌else◌, pos, pos_part, ltb_ℤ, Result, ok, err,
}
use clusterrebootd.Windows.Error.{Parsed}
use clusterrebootd.Windows.Evaluator.{Evaluator, new_evaluator}
use clusterrebootd.Config.Types.{Config}
use clusterrebootd.Config.Derived.{backoff_bounds}
use clusterrebootd.Config.Bounds.{HasBounds}
use clusterrebootd.Config.DurationLaws.{seconds_duration_exact}
use clusterrebootd.Orchestrator.Types.{Runner}
use clusterrebootd.Orchestrator.Lock.{min_backoff, max_backoff}
use clusterrebootd.Orchestrator.NewRunner.{
  RunnerOption, RunnerError, apply_runner_option, apply_runner_options, initial_runner,
  with_windows, fill_runner, new_runner,
}

-- What the options leave of a runner.
abbrev pub Made : Config → Runner → Type 0
Made c r =
    (r.backoff_min ≡ (backoff_bounds c).0)
    × (r.backoff_max ≡ (backoff_bounds c).1)
    × (r.node_name ≡ c.node_name)
    × (r.dry_run ≡ c.dry_run)
    × (r.reboot_command ≡ c.reboot_command)

option-Made :
    (c : Config) (r : Runner) (o : RunnerOption) → Made c r → Made c (apply_runner_option r o)
unfolding apply_runner_option
option-Made c r (RunnerOption.max_lock_attempts n) h = h
option-Made c r (RunnerOption.cluster_health_manager n) h = h
option-Made c r (RunnerOption.cluster_health_reporting n) h = h
option-Made c r (RunnerOption.cooldown_manager n) h = h
option-Made c r (RunnerOption.lock_acquisition n reason) h = h
option-Made c r (RunnerOption.command_environment env) h = h

options-Made :
    (c : Config) (r : Runner) (os : List RunnerOption)
    → Made c r
    → Made c (apply_runner_options r os)
unfolding apply_runner_options
options-Made c r [] h = h
options-Made c r (o ∷ os) h = options-Made c (apply_runner_option r o) os (option-Made c r o h)

initial-Made : (c : Config) → Made c (initial_runner c)
unfolding initial_runner
initial-Made c = (refl, refl, refl, refl, refl)

-- What is checked of a runner before it is returned.
abbrev pub Checked : Runner → Type 0
Checked r =
    (0 < r.max_lock_tries) × ((ltb_ℤ (pos 0) r.cooldown_window && not r.has_cooldown) ≡ false)

fill-Checked :
    (c : Config) (r : Runner)
    → (ltb_ℤ (pos 0) r.cooldown_window && not r.has_cooldown) ≡ false
    → Checked (fill_runner c r)
unfolding fill_runner
fill-Checked c r h = ground (arith, h)

windows_lem :
    (r s : Runner) (w : Parsed (Option Evaluator))
    → with_windows r w ≡ ok s
    → (windows : Option Evaluator) × (w ≡ ok windows) × (s ≡ record r { windows = windows })
windows_lem r s (ok windows) h = (windows, refl, cc)
windows_lem r s (err e) h = cc

tested_lem :
    {A : Type 0} (b : Bool) (e : RunnerError) (x : Result RunnerError A) (a : A)
    → (if b then err e else x) ≡ ok a
    → (b ≡ false) × (x ≡ ok a)
tested_lem true e x a h = cc
tested_lem false e x a h = (refl, h)

-- A runner that `NewRunner` makes has the node name, the dry-run flag and the command of the
-- configuration, its backoff bounds, and the windows that its lists parse to; it makes an attempt
-- at the lock, and it has a cooldown manager where there is a cooldown, whatever the options.
pub new_runner-Made :
    (c : Config) (options : List RunnerOption) (r : Runner)
    → new_runner c options ≡ ok r
    → Made c r × Checked r × (new_evaluator c.windows.allow c.windows.deny ≡ ok r.windows)
unfolding new_runner fill_runner
new_runner-Made c options r h =
    let given = apply_runner_options (initial_runner c) options in
    let filled = fill_runner c given in
    let tested = tested_lem _ _ _ r h in
    let parsed = windows_lem filled r (new_evaluator c.windows.allow c.windows.deny) tested.1 in
    subst
      (λ x. Made c x × Checked x × (new_evaluator c.windows.allow c.windows.deny ≡ ok x.windows))
      (sym parsed.2)
      (
        options-Made c (initial_runner c) options (initial-Made c),
        fill-Checked c given tested.0,
        parsed.1,
      )

-- The backoff of a runner of a valid configuration has the configured bounds, in nanoseconds, if the
-- larger is at most 9223372036 seconds.
pub new_runner-backoff :
    (c : Config) (options : List RunnerOption) (r : Runner)
    → HasBounds c
    → pos_part c.backoff_max_sec ≤ 9223372036
    → new_runner c options ≡ ok r
    → (min_backoff r ≡ pos_part c.backoff_min_sec * 1000000000)
      × (max_backoff r ≡ pos_part c.backoff_max_sec * 1000000000)
unfolding min_backoff max_backoff backoff_bounds
new_runner-backoff c options r b k h =
    let made = (new_runner-Made c options r h).0 in
    let least =
      seconds_duration_exact c.backoff_min_sec b.backoff_min (omega (arith, k, b.backoff_order)) in
    let most =
      seconds_duration_exact c.backoff_max_sec (omega (arith, b.backoff_min, b.backoff_order)) k in
    ground (arith, made, least, most, b.backoff_min, b.backoff_order)
