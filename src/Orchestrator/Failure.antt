-- ===== src/Orchestrator/Failure.antt =====
-- Go `error` values: the sentinels that the program tests with `errors.Is`, errors of other code,
-- and what `fmt.Errorf` with `%w` and `errors.Join` build from them.
use clusterrebootd.Prelude.{ℕ, Bool, true, false, ◌||◌, List, if◌then◌else◌}
use clusterrebootd.Text.{Text}

-- The texts that the program puts before a wrapped error.
pub data Context : Type 0 where
  check_kill_switch check_kill_switch_after_lock detector_evaluation : Context
  post_lock_detector_evaluation cluster_health_before_lock cluster_health_under_lock : Context
  health_check record_cluster_health check_reboot_cooldown acquire_lock release_lock : Context
  start_reboot_cooldown clear_reboot_cooldown execute_reboot_command : Context
  run_reboot_command : Context
  stat_path run_detector_command run_health_script : Context
  create_session try_lock annotate_lock unlock close_session : Context
  read_cooldown query_cooldown_ttl clear_cooldown grant_cooldown store_cooldown : Context
  store_health list_health : Context

pub data Failure : Type 0 where
  canceled deadline_exceeded not_acquired : Failure
  -- "failed to acquire lock after %d attempts"
  attempts_used : Failure
  -- "reboot command is empty"
  empty_command : Failure
  -- of detectors: a blank path, no command, a command that ran too long, an unknown type, a blank
  -- name, a name that is taken, and `EvaluationError`, by the names of the detectors that failed
  empty_path no_detector_command command_timed_out no_detector_name no_detectors : Failure
  unsupported_type duplicate_name : Text → Failure
  evaluation_failed : List Text → Failure
  -- of the health script: no path, a path that is not absolute, a run that took too long
  empty_script_path relative_script_path script_timed_out : Failure
  -- of stored records: a payload and a time that cannot be read
  unreadable_payload unreadable_time : Failure
  other : ℕ → Failure
  wrap : Context → Failure → Failure
  joined : Failure → Failure → Failure

-- `errors.Is(err, context.Canceled) || errors.Is(err, context.DeadlineExceeded)`
unfoldable pub is_cancel : Failure → Bool
is_cancel canceled = true
is_cancel deadline_exceeded = true
is_cancel (wrap c e) = is_cancel e
is_cancel (joined e f) = is_cancel e || is_cancel f
is_cancel _ = false

-- `errors.Is(err, lock.ErrNotAcquired)`
unfoldable pub is_not_acquired : Failure → Bool
is_not_acquired not_acquired = true
is_not_acquired (wrap c e) = is_not_acquired e
is_not_acquired (joined e f) = is_not_acquired e || is_not_acquired f
is_not_acquired _ = false

-- An error that other code gave is wrapped, unless it is the end of a context.
unfoldable pub wrap_unless_cancel : Context → Failure → Failure
wrap_unless_cancel c e = if is_cancel e then e else wrap c e
