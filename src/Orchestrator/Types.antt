-- ===== src/Orchestrator/Types.antt =====
-- The data of pkg/orchestrator/runner.go and of the interfaces that it calls, the calls that a
-- pass makes, and the environment that answers them.
use clusterrebootd.Prelude.{ℕ, Bool, true, false, Option, none, some, List, [], ℤ}
use clusterrebootd.Text.{Text}
use clusterrebootd.Windows.Evaluator.{Clock, Decision, Evaluator}
use clusterrebootd.Orchestrator.Failure.{Failure}

-- An instant or a duration, in nanoseconds.
abbrev pub Nanos : Type 0
Nanos = ℤ

-- `clusterhealth.Record`; the zero time is `none`.
pub record Record : Type 0 where
  pub node : Text
  pub healthy : Bool
  pub stage : Text
  pub reason : Text
  pub reported_at : Option Nanos

-- The phases of health runs and checks. The stages of the kill switch use the last two.
pub data Phase : Type 0 where
  monitor heartbeat pre_lock post_lock : Phase

-- `clusterhealth.Report`, its stage and reason given by the phase and the exit code.
pub record Report : Type 0 where
  pub stage : Phase
  pub exit_code : ℤ

-- `health.Result`, without the output that is only printed.
pub record HealthResult : Type 0 where
  pub exit_code : ℤ

-- The variables that `runHealthWithObservability` hands to the script.
pub record HealthEnv : Type 0 where
  pub phase : Phase
  pub node_name : Text
  pub lock_enabled : Bool
  pub lock_held : Bool
  pub lock_attempts : ℕ

-- `detector.Result`, without the duration and the output that are only printed.
pub record DetectorResult : Type 0 where
  pub name : Text
  pub requires_reboot : Bool
  pub failure : Option Failure

-- `cooldown.Status`; the zero time is `none`.
pub record CooldownStatus : Type 0 where
  pub active : Bool
  pub node : Text
  pub started_at : Option Nanos
  pub expires_at : Option Nanos
  pub remaining : Nanos

-- A configured `min_healthy_fraction`, as the number of healthy nodes that it asks for among so
-- many: `int(math.Ceil(fraction * float64(total)))`, the one thing that the program does with it.
abbrev pub Fraction : Type 0
Fraction = ℕ → ℤ

-- `config.ClusterPolicies`
pub record ClusterPolicies : Type 0 where
  pub min_healthy_fraction : Option Fraction
  pub min_healthy_absolute : Option ℤ
  pub forbid_if_only_fallback_left : Bool
  pub fallback_nodes : List Text

-- Why `evaluateClusterPolicies` blocks: a constructor for each message, with what it quotes.
pub data Reason : Type 0 where
  unhealthy_nodes : List Record → Reason
  below_minimum : ℕ → ℤ → Reason
  below_fraction : ℕ → ℤ → ℕ → Reason
  only_fallback_left : Reason

pub data Status : Type 0 where
  no_action kill_switch health_blocked window_denied window_outside : Status
  lock_unavailable lock_skipped recheck_cleared cooldown_active ready : Status

abbrev pub is_ready : Option Status → Bool
is_ready (some ready) = true
is_ready _ = false

-- `Outcome.Message`: a constructor for each message, with what it quotes.
pub data Message : Type 0 where
  no_message kill_present kill_present_after_lock outside_allow no_detectors : Message
  detectors_cleared prerequisites_satisfied : Message
  denied_by skipped_because : Text → Message
  unhealthy_monitoring unhealthy_before_lock unhealthy_under_lock : ℤ → Message
  policies_block : List Reason → Message
  -- the time left, if positive, and the node, if known
  cooling_down : Option Nanos → Option Text → Message
  lock_not_acquired : ℕ → Message

-- `Outcome`. A closure is the fact that it is set, with what it captured.
pub record Outcome : Type 0 where
  pub status : Option Status
  pub message : Message
  pub dry_run : Bool
  pub lock_acquired : Bool
  pub detector_results : List DetectorResult
  pub post_lock_detector_results : List DetectorResult
  pub pre_lock_health : Option HealthResult
  pub pre_lock_health_phase : Option Phase
  pub post_lock_health : Option HealthResult
  pub post_lock_health_phase : Option Phase
  pub command : List Text
  pub cluster_unhealthy : List Record
  pub lock_release : Bool
  pub cooldown_start : Option Nanos
  pub cooldown_clear : Bool
  pub cooldown_started : Bool

-- The named result `out` at the start of `RunOnce`.
abbrev pub empty_outcome : Outcome
empty_outcome = record {
  status = none;
  message = no_message;
  dry_run = false;
  lock_acquired = false;
  detector_results = [];
  post_lock_detector_results = [];
  pre_lock_health = none;
  pre_lock_health_phase = none;
  post_lock_health = none;
  post_lock_health_phase = none;
  command = [];
  cluster_unhealthy = [];
  lock_release = false;
  cooldown_start = none;
  cooldown_clear = false;
  cooldown_started = false;
}

-- A call of the runner or the loop to what lies outside, with the answer.
pub data Call : Type 0 where
  kill_checked : Phase → Bool → Option Failure → Call
  window_checked : Decision → Call
  detected : Phase → Bool → List DetectorResult → Option Failure → Call
  inspected : Phase → List Record → Option Failure → Call
  health_ran : HealthEnv → HealthResult → Option Failure → Call
  health_reported : Phase → Bool → ℤ → Option Failure → Call
  cooldown_checked : CooldownStatus → Option Failure → Call
  lock_tried : Option Failure → Call
  slept : ℕ → Option Failure → Call
  released : Option Failure → Call
  cooldown_set : Nanos → Option Failure → Call
  outcome_recorded : Outcome → Call
  errored : Failure → Call
  executed : List Text → Option Failure → Call

-- The calls so far, the last one first.
abbrev pub Trace : Type 0
Trace = List Call

-- What answers the calls. An answer may depend on all the calls before it, so every behaviour of
-- the outside, however it varies with time, is one of these.
pub record Environment : Type 0 where
  pub check_kill : Trace → Bool × Option Failure
  pub clock : Trace → Clock
  pub detect : Trace → Bool × List DetectorResult × Option Failure
  pub cluster_status : Trace → List Record × Option Failure
  pub run_health : Trace → HealthEnv → HealthResult × Option Failure
  pub report_healthy : Trace → Option Failure
  pub report_unhealthy : Trace → Report → Option Failure
  pub cooldown_status : Trace → CooldownStatus × Option Failure
  pub start_cooldown : Trace → Nanos → Option Failure
  pub acquire : Trace → Option Failure
  pub release : Trace → Option Failure
  -- `none` after the delay, or the error of the context that ended first
  pub sleep : Trace → ℕ → Option Failure
  -- `ctx.Err()` where the loop looks at it
  pub context_error : Trace → Option Failure
  pub execute : Trace → List Text → Option Failure
  -- the time left until an instant
  pub time_until : Trace → Nanos → Nanos
  -- `rand.Int63n`
  pub random : Trace → ℕ → ℕ
  -- `os.Getenv`
  pub getenv : Text → Text

-- `Runner`, with the fields of the configuration that it reads. `clusterHealth` and `cooldown` are
-- there or not; the other collaborators are the environment.
pub record Runner : Type 0 where
  pub node_name : Text
  pub dry_run : Bool
  pub reboot_command : List Text
  pub policies : ClusterPolicies
  pub backoff_min : Nanos
  pub backoff_max : Nanos
  pub windows : Option Evaluator
  pub max_lock_tries : ℕ
  pub lock_enabled : Bool
  pub lock_skip_reason : Text
  pub cooldown_window : Nanos
  pub has_cooldown : Bool
  pub has_cluster_health : Bool
  pub health_reporting : Bool
  pub command_env : List (Text × Text)
