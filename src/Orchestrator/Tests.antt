-- ===== src/Orchestrator/Tests.antt =====
-- Passes and turns of the loop (pkg/orchestrator) in a concrete environment.
use clusterrebootd.Prelude.{
  ℕ, ◌<◌, ◌≤◌, ◌≡◌, ◌≢◌, refl, ◌↔◌, ◌⊎◌, true, false, ◌&&◌, none, some, [], ◌∷◌, arith, pos,
  pos_part, ok, is_nil,
}
use clusterrebootd.Text.{codes, text_eq, trim_space, is_space}
use clusterrebootd.Windows.Evaluator.{new_evaluator, parse_entries}
use clusterrebootd.Config.Types.{Config}
use clusterrebootd.Config.Defaults.{apply_defaults, int_or}
use clusterrebootd.Config.Derived.{seconds_duration, backoff_bounds, reboot_cooldown_interval}
use clusterrebootd.Config.Bounds.{HasBounds}
use clusterrebootd.Config.ValidateLaws.{decode-IsValid}
use clusterrebootd.Config.Tests.{short_config, short_config_decoded}
use clusterrebootd.Orchestrator.KillSwitch.{run_once-kill}
use clusterrebootd.Orchestrator.Failure.{Failure, Context, wrap}
use clusterrebootd.Orchestrator.Types.{
  Phase, Status, Record, ClusterPolicies, empty_outcome, Call, Trace, Environment, Runner,
}
use clusterrebootd.Orchestrator.Flow.{State}
use clusterrebootd.Orchestrator.Policies.{
  policy_reasons, filter_records, fallback_set, cluster_counts, initial_counts, initial_seen,
  count_records,
}
use clusterrebootd.Orchestrator.PolicyLaws.{has_fraction_reason, policy_reasons-fraction}
use clusterrebootd.Orchestrator.Permission.{IsPermitted, policy_reasons-IsPermitted}
use clusterrebootd.Orchestrator.Backoff.{next_backoff_delay, next_error_backoff, next_error_delay}
use clusterrebootd.Orchestrator.BackoffLaws.{
  IsRandom, next_backoff_delay_bounds, next_error_delay_bounds,
}
use clusterrebootd.Orchestrator.Lock.{attempt_of, after_attempt, acquire_from, acquire_lock}
use clusterrebootd.Orchestrator.LockLaws.{Tried, acquire_lock-Tried}
use clusterrebootd.Orchestrator.RunOnce.{
  run_once, pass, settle, before_lock, detector_gate, lock_gate, with_lock, under_lock,
  checks_under_lock, recheck_gate, release_unless_kept, make_ready, hand_over,
}
use clusterrebootd.Orchestrator.Gates.{
  kill_gate, window_gate, detect, cluster_gate, inspect, policy_gate, health_gate, judge_health,
  run_health_and_update, update_cluster_health, cooldown_gate, cooldown_enabled, lock_enabled_gate,
  set_command,
}
use clusterrebootd.Orchestrator.Command.{expand_command, expand_with_env, or_getenv, lookup_env}
use clusterrebootd.Orchestrator.Command.Laws.{expand_with_env-braced}
use clusterrebootd.Prelude.{◌++◌}
use clusterrebootd.Orchestrator.Readiness.{Cleared, run_once-Cleared}
use clusterrebootd.Orchestrator.Held.{held}
use clusterrebootd.Orchestrator.PassLock.{is_armed, is_failure, run_once-held}
use clusterrebootd.Orchestrator.Favourable.{IsFavourable}
use clusterrebootd.Orchestrator.Progress.{run_once-armed}
use clusterrebootd.Orchestrator.NewRunner.{
  apply_runner_options, policies_of, initial_runner, fill_runner, new_runner,
}
use clusterrebootd.Orchestrator.NewRunnerLaws.{Made, Checked, new_runner-Made}
use clusterrebootd.Orchestrator.Loop.{Loop, LoopOption, new_loop, Turn, LoopState, turn, turns}
use clusterrebootd.Orchestrator.Loop.Laws.{just_executed, new_loop-bounds, turns-held}
use clusterrebootd.Orchestrator.Loop.Reboots.{Quiet, Ran, turn-Does}

-- The detectors ask for a reboot, nothing stands against it, and the first attempt at the lock
-- succeeds.
abbrev pub sample_environment : Environment
sample_environment = record {
  check_kill = λ t. (false, none);
  clock = λ t. record { weekday = 1; hour = 2; minute = 3; second = 4 };
  detect = λ t. (true, [], none);
  cluster_status = λ t. ([], none);
  run_health = λ t e. (record { exit_code = pos 0 }, none);
  report_healthy = λ t. none;
  report_unhealthy = λ t e. none;
  cooldown_status = λ t. (
    record { active = false; node = []; started_at = none; expires_at = none; remaining = pos 0 },
    none,
  );
  start_cooldown = λ t d. none;
  acquire = λ t. none;
  release = λ t. none;
  sleep = λ t d. none;
  context_error = λ t. none;
  execute = λ t c. none;
  time_until = λ t n. pos 0;
  random = λ t n. 0;
  getenv = λ t. [];
}

abbrev pub sample_policies : ClusterPolicies
sample_policies = record {
  min_healthy_fraction = some (λ n. pos n);
  min_healthy_absolute = some (pos 1);
  forbid_if_only_fallback_left = false;
  fallback_nodes = [];
}

abbrev pub sample_runner : Runner
sample_runner = record {
  node_name = codes "a";
  dry_run = false;
  reboot_command = codes "reboot" ∷ [];
  policies = sample_policies;
  backoff_min = pos 5000000000;
  backoff_max = pos 60000000000;
  windows = none;
  max_lock_tries = 5;
  lock_enabled = true;
  lock_skip_reason = [];
  cooldown_window = pos 1;
  has_cooldown = true;
  has_cluster_health = true;
  health_reporting = true;
  command_env = [];
}

abbrev sample_loop : Loop
sample_loop = record {
  interval = pos 60000000000;
  error_min = pos 5000000000;
  error_max = pos 60000000000;
}

abbrev start : LoopState
start = record { trace = []; error_backoff = 0; last = empty_outcome }

run_once-held_example :
    let (o, failure, t) = run_once sample_environment sample_runner [] in
    (held t ≡ o.lock_release)
    × (is_armed o ≡ o.lock_release)
    × ((o.lock_release && is_failure failure) ≡ false)
run_once-held_example = run_once-held sample_environment sample_runner [] refl

turn-Does_example :
    let u = (turn sample_environment sample_runner sample_loop start).1.trace in
    let (o, err, t) = run_once sample_environment sample_runner [] in
    (u ≡ []) ⊎ Quiet t u ⊎ ((err ≡ none) × (is_armed o ≡ true) × (held t ≡ true) × Ran o t u)
turn-Does_example = turn-Does sample_environment sample_runner sample_loop start refl

turns-held_example :
    let (tn, s2) = turns sample_environment sample_runner sample_loop 3 start in
    (held s2.trace ≡ false) ⊎ ((tn ≡ Turn.returns none) × (just_executed s2.trace ≡ true))
turns-held_example = turns-held sample_environment sample_runner sample_loop 3 start refl

abbrev fresh : State
fresh = record { trace = []; out = empty_outcome }

acquire_lock-Tried_example : Tried [] 5 (acquire_lock sample_environment sample_runner fresh)
acquire_lock-Tried_example = acquire_lock-Tried sample_environment sample_runner fresh

new_loop-bounds_example :
    let l = new_loop (pos 0) (LoopOption.with_error_backoff (pos 7) (pos 3) ∷ []) in
    (0 < pos_part l.interval)
    × (0 < pos_part l.error_min)
    × (pos_part l.error_min ≤ pos_part l.error_max)
new_loop-bounds_example =
    new_loop-bounds (pos 0) (LoopOption.with_error_backoff (pos 7) (pos 3) ∷ [])

abbrev own_record : Record
own_record = record {
  node = codes "a";
  healthy = false;
  stage = [];
  reason = [];
  reported_at = none;
}

abbrev sick_peer : Record
sick_peer = record own_record { node = codes "b" }

policy_reasons-IsPermitted_example :
    (policy_reasons (codes "a") sample_policies (own_record ∷ []) ≡ [])
    ↔ IsPermitted (codes "a") sample_policies (own_record ∷ [])
policy_reasons-IsPermitted_example =
    policy_reasons-IsPermitted (codes "a") sample_policies (own_record ∷ [])

own_name_not_blank : is_nil (trim_space (codes "a")) ≡ false
unfolding trim_space is_space
own_name_not_blank = refl

fraction_missed :
    has_fraction_reason (policy_reasons (codes "a") sample_policies (sick_peer ∷ [])) ≡ true
unfolding policy_reasons filter_records cluster_counts count_records initial_counts initial_seen
    fallback_set trim_space is_space text_eq
fraction_missed = refl

policy_reasons-fraction_example : filter_records (sick_peer ∷ []) (codes "a") ≢ []
policy_reasons-fraction_example =
    policy_reasons-fraction (codes "a") sample_policies (λ n. pos n) (sick_peer ∷ []) refl
      (λ n. omega arith) fraction_missed

abbrev no_jitter : ℕ → ℕ
no_jitter n = 0

no_jitter-IsRandom : IsRandom no_jitter
no_jitter-IsRandom n h = h

next_backoff_delay_bounds_example :
    (5 ≤ next_backoff_delay no_jitter 70 5 60) × (next_backoff_delay no_jitter 70 5 60 ≤ 60)
next_backoff_delay_bounds_example =
    next_backoff_delay_bounds no_jitter 70 5 60 no_jitter-IsRandom (omega arith) (omega arith)

next_error_delay_bounds_example :
    let next = next_error_backoff 10 5 60 in
    (5 ≤ next_error_delay no_jitter next 5)
    × (next_error_delay no_jitter next 5 ≤ next)
    × (next ≤ 60)
next_error_delay_bounds_example =
    next_error_delay_bounds no_jitter 10 5 60 no_jitter-IsRandom (omega arith) (omega arith)

abbrev given_config : Config
given_config = apply_defaults short_config

abbrev made_runner : Runner
made_runner = fill_runner given_config (initial_runner given_config)

runner_made : new_runner given_config [] ≡ ok made_runner
unfolding new_runner apply_runner_options fill_runner initial_runner policies_of
    reboot_cooldown_interval backoff_bounds seconds_duration apply_defaults int_or new_evaluator
    parse_entries
runner_made = refl

new_runner-Made_example :
    Made given_config made_runner
    × Checked made_runner
    × (new_evaluator given_config.windows.allow given_config.windows.deny ≡ ok made_runner.windows)
new_runner-Made_example = new_runner-Made given_config [] made_runner runner_made

given_bounds : HasBounds given_config
given_bounds = (decode-IsValid short_config given_config short_config_decoded).1.bounds

small_backoff : pos_part given_config.backoff_max_sec ≤ 9223372036
unfolding apply_defaults int_or
small_backoff = omega arith

sample_armed : is_armed (run_once sample_environment sample_runner []).0 ≡ true
unfolding run_once pass settle before_lock kill_gate window_gate detector_gate detect cluster_gate
    inspect policy_gate health_gate judge_health run_health_and_update update_cluster_health
    cooldown_gate cooldown_enabled lock_enabled_gate set_command lock_gate acquire_lock acquire_from
    after_attempt attempt_of with_lock under_lock checks_under_lock recheck_gate release_unless_kept
    make_ready hand_over expand_command expand_with_env policy_reasons filter_records cluster_counts
    count_records initial_counts initial_seen fallback_set trim_space is_space text_eq
sample_armed = refl

run_once-Cleared_example :
    let (o, _, t) = run_once sample_environment sample_runner [] in
    (v : Trace) × (t ≡ Call.outcome_recorded o ∷ v) × Cleared sample_environment sample_runner [] v
run_once-Cleared_example = run_once-Cleared sample_environment sample_runner [] refl sample_armed

-- The same, with the kill switch on.
abbrev blocked_environment : Environment
blocked_environment = record sample_environment { check_kill = λ t. (true, none) }

run_once-kill_example :
    let (active, unread) = blocked_environment.check_kill [] in
    let (o, failure, t) = run_once blocked_environment sample_runner [] in
    ((active ≡ false) × (unread ≡ none))
    ⊎ ((o.status ≡ some Status.kill_switch)
        × (failure ≡ none)
        × (t ≡ Call.outcome_recorded o ∷ Call.kill_checked Phase.pre_lock true none ∷ []))
    ⊎ ((e : Failure) × (unread ≡ some e)
        × (o ≡ empty_outcome)
        × (failure ≡ some (wrap Context.check_kill_switch e))
        × (t ≡ Call.kill_checked Phase.pre_lock active (some e) ∷ []))
run_once-kill_example = run_once-kill blocked_environment sample_runner []

sample_favours : IsFavourable sample_environment sample_runner
unfolding policy_reasons filter_records fallback_set cluster_counts initial_counts initial_seen
    count_records trim_space is_space text_eq
sample_favours = record {
  kill = λ t. refl;
  windows = tt;
  detectors = λ t. (refl, refl);
  cluster = λ t. (refl, refl);
  alone = refl;
  health = λ t e. (refl, refl);
  reported = λ t. refl;
  cooldown = λ t. (refl, refl);
  free = λ t. refl;
  locks = refl;
  tries = refl;
  armed = refl;
  command = refl;
}

run_once-armed_example :
    (is_armed (run_once sample_environment sample_runner []).0 ≡ true)
    × ((run_once sample_environment sample_runner []).0.lock_release ≡ true)
    × ((run_once sample_environment sample_runner []).1 ≡ none)
run_once-armed_example = run_once-armed sample_environment sample_runner sample_favours []

expand_with_env-braced_example :
    expand_with_env
      (λ key. codes "x")
      (codes "echo " ++ b'$' ∷ b'{' ∷ (codes "A" ++ b'}' ∷ codes " $B"))
      ((codes "A", codes "v") ∷ [])
    ≡ codes "echo "
      ++ (or_getenv
            (λ key. codes "x")
            (codes "A")
            (lookup_env ((codes "A", codes "v") ∷ []) (codes "A"))
          ++ expand_with_env (λ key. codes "x") (codes " $B") ((codes "A", codes "v") ∷ []))
expand_with_env-braced_example =
    expand_with_env-braced (λ key. codes "x") ((codes "A", codes "v") ∷ []) (codes "echo ")
      (codes "A") (codes " $B") refl refl refl
