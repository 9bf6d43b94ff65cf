-- ===== src/Orchestrator/NewRunner.antt =====
-- `NewRunner` and the options of pkg/orchestrator/runner.go. The options that replace a
-- collaborator that the environment stands for (the kill switch, the sleep, the random source, the
-- reporter, the mutex, the clock) leave the fields of `Runner` as they are.
use clusterrebootd.Prelude.{
  ℕ, Bool, true, false, not, ◌&&◌, Option, none, some, List, [], ◌∷◌, if◌then◌else◌, is_nil, ℤ, pos,
  pos_part, ltb_ℤ, ◌==◌, Result, ok, err,
}
use clusterrebootd.Text.{Text, trim_space}
use clusterrebootd.Windows.Error.{Error, Parsed}
use clusterrebootd.Windows.Evaluator.{Evaluator, new_evaluator}
use clusterrebootd.Config.Types.{Fraction, PolicyConfig, Config}
use clusterrebootd.Config.Derived.{
  Variables, backoff_bounds, reboot_cooldown_interval, base_environment,
}
use clusterrebootd.Orchestrator.Types.{ClusterPolicies, Runner}

pub data RunnerOption : Type 0 where
  max_lock_attempts : ℤ → RunnerOption
  -- whether the manager that is given is there
  cluster_health_manager : Bool → RunnerOption
  cluster_health_reporting : Bool → RunnerOption
  cooldown_manager : Bool → RunnerOption
  lock_acquisition : Bool → Text → RunnerOption
  command_environment : Variables → RunnerOption

pub data RunnerError : Type 0 where
  no_cooldown_manager : RunnerError
  bad_windows : Error → RunnerError

unfoldable pub apply_runner_option : Runner → RunnerOption → Runner
apply_runner_option r (max_lock_attempts n) = record r {
  max_lock_tries = if ltb_ℤ (pos 0) n then pos_part n else r.max_lock_tries;
}
apply_runner_option r (cluster_health_manager there) = record r { has_cluster_health = there }
apply_runner_option r (cluster_health_reporting enabled) = record r { health_reporting = enabled }
apply_runner_option r (cooldown_manager there) = record r { has_cooldown = there }
apply_runner_option r (lock_acquisition enabled reason) = record r {
  lock_enabled = enabled;
  lock_skip_reason = if enabled then [] else trim_space reason;
}
apply_runner_option r (command_environment env) = record r { command_env = env }

unfoldable pub apply_runner_options : Runner → List RunnerOption → Runner
apply_runner_options r [] = r
apply_runner_options r (o ∷ os) = apply_runner_options (apply_runner_option r o) os

abbrev share_of : Option Fraction → Option (ℕ → ℤ)
share_of none = none
share_of (some f) = some f.share

-- The policies, as the checks read them.
unfoldable pub policies_of : PolicyConfig → ClusterPolicies
policies_of p = record {
  min_healthy_fraction = share_of p.min_healthy_fraction;
  min_healthy_absolute = p.min_healthy_absolute;
  forbid_if_only_fallback_left = p.forbid_if_only_fallback_left;
  fallback_nodes = p.fallback_nodes;
}

-- The runner before the options.
unfoldable pub initial_runner : Config → Runner
initial_runner c = record {
  node_name = c.node_name;
  dry_run = c.dry_run;
  reboot_command = c.reboot_command;
  policies = policies_of c.cluster_policies;
  backoff_min = (backoff_bounds c).0;
  backoff_max = (backoff_bounds c).1;
  windows = none;
  max_lock_tries = 5;
  lock_enabled = true;
  lock_skip_reason = [];
  cooldown_window = reboot_cooldown_interval c;
  has_cooldown = false;
  has_cluster_health = false;
  health_reporting = true;
  command_env = base_environment c;
}

abbrev pub with_windows : Runner → Parsed (Option Evaluator) → Result RunnerError Runner
with_windows r (ok windows) = ok (record r { windows = windows })
with_windows r (err e) = err (bad_windows e)

-- What is put right after the options. The map of no variables is the nil map.
unfoldable pub fill_runner : Config → Runner → Runner
fill_runner c r = record r {
  max_lock_tries = if r.max_lock_tries == 0 then 5 else r.max_lock_tries;
  command_env = if is_nil r.command_env then base_environment c else r.command_env;
}

unfoldable pub new_runner : Config → List RunnerOption → Result RunnerError Runner
new_runner c options =
    let r = fill_runner c (apply_runner_options (initial_runner c) options) in
    if ltb_ℤ (pos 0) r.cooldown_window && not r.has_cooldown
    then err no_cooldown_manager
    else with_windows r (new_evaluator c.windows.allow c.windows.deny)
