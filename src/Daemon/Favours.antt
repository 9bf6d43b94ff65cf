-- ===== src/Daemon/Favours.antt =====
-- What stands in favour of a reboot (cmd/clusterrebootd/main.go, pkg/orchestrator).
use clusterrebootd.Prelude.{
  ◌≡◌, ap, ◌∙◌, Bool, true, false, Option, none, List, [], arith, is_nil, ltb, ok,
}
use clusterrebootd.Text.{Text}
use clusterrebootd.Windows.Evaluator.{Evaluator, new_evaluator}
use clusterrebootd.Config.Types.{Config}
use clusterrebootd.Config.Derived.{Variables}
use clusterrebootd.Config.ValidateLaws.{IsValid}
use clusterrebootd.Orchestrator.Types.{Nanos, Trace, Environment, Runner, HealthEnv}
use clusterrebootd.Orchestrator.Policies.{policy_reasons}
use clusterrebootd.Orchestrator.Gates.{healthy_exit}
use clusterrebootd.Orchestrator.Favourable.{IsAllowing, IsFavourable}
use clusterrebootd.Orchestrator.NewRunner.{
  policies_of, apply_runner_option, apply_runner_options, initial_runner, with_windows, fill_runner,
  new_runner,
}
use clusterrebootd.Orchestrator.NewRunnerLaws.{new_runner-Made}
use clusterrebootd.Daemon.Commands.{run_options}

-- Nothing stands against a reboot: the kill switch is off, the windows allow, the detectors ask, no
-- policy blocks, the script is healthy and its result is stored, no cooldown is active, the lock is
-- free, and the cooldown and the command do not fail; and this is no dry run.
pub record Favours (env : Environment) (c : Config) : Type 0 where
  pub kill : (t : Trace) → env.check_kill t ≡ (false, none)
  pub windows :
      (w : Option Evaluator)
      → new_evaluator c.windows.allow c.windows.deny ≡ ok w
      → IsAllowing env w
  pub detectors : (t : Trace) → ((env.detect t).0 ≡ true) × ((env.detect t).2 ≡ none)
  pub cluster :
      (t : Trace)
      → ((env.cluster_status t).1 ≡ none)
        × (policy_reasons c.node_name (policies_of c.cluster_policies) (env.cluster_status t).0
            ≡ [])
  pub alone : policy_reasons c.node_name (policies_of c.cluster_policies) [] ≡ []
  pub health :
      (t : Trace) (e : HealthEnv)
      → (healthy_exit (env.run_health t e).0 ≡ true) × ((env.run_health t e).1 ≡ none)
  pub reported : (t : Trace) → env.report_healthy t ≡ none
  pub cooldown :
      (t : Trace) → ((env.cooldown_status t).0.active ≡ false) × ((env.cooldown_status t).1 ≡ none)
  pub free : (t : Trace) → env.acquire t ≡ none
  pub armed : c.dry_run ≡ false
  pub runs_on : (t : Trace) → env.context_error t ≡ none
  pub starts : (t : Trace) (d : Nanos) → env.start_cooldown t d ≡ none
  pub executes : (t : Trace) (command : List Text) → env.execute t command ≡ none

-- What is left of the configuration in the runner of `run`.
abbrev IsRunRunner : Config → Runner → Type 0
IsRunRunner c r =
    (r.policies ≡ policies_of c.cluster_policies)
    × (r.lock_enabled ≡ true)
    × (ltb 0 r.max_lock_tries ≡ true)

with_windows-IsRunRunner :
    (c : Config) (r s : Runner) (w : _)
    → IsRunRunner c r
    → with_windows r w ≡ ok s
    → IsRunRunner c s
with_windows-IsRunRunner c r s w p h = ground (arith, p, h)

new_runner-IsRunRunner :
    (c : Config) (variables : Variables) (has_cooldown : Bool) (r : Runner)
    → new_runner c (run_options variables has_cooldown) ≡ ok r
    → IsRunRunner c r
unfolding new_runner apply_runner_options apply_runner_option initial_runner fill_runner
new_runner-IsRunRunner c variables has_cooldown r h = ground (arith, h)

pub favourable_lem :
    (env : Environment) (c : Config) (variables : Variables) (has_cooldown : Bool) (r : Runner)
    → IsValid c
    → Favours env c
    → new_runner c (run_options variables has_cooldown) ≡ ok r
    → IsFavourable env r
favourable_lem env c variables has_cooldown r v f h =
    let (made, checked, parsed) = new_runner-Made c (run_options variables has_cooldown) r h in
    let (policies_, locks_, tries_) = new_runner-IsRunRunner c variables has_cooldown r h in
    record {
      kill = f.kill;
      windows = f.windows r.windows parsed;
      detectors = f.detectors;
      cluster = λ t. rw (made.2, policies_) (f.cluster t);
      alone = rw (made.2, policies_) f.alone;
      health = f.health;
      reported = f.reported;
      cooldown = f.cooldown;
      free = f.free;
      locks = locks_;
      tries = tries_;
      armed = made.3 ∙ f.armed;
      command = ap is_nil made.4 ∙ v.reboot_command;
    }
