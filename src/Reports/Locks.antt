-- ===== src/Reports/Locks.antt =====
-- The reports of the lock (pkg/orchestrator/runner.go, from `recordLockAttempt` to `releaseLease`).
use clusterrebootd.Prelude.{ℕ, suc, Option, none, some, List, [], ◌∷◌, pos}
use clusterrebootd.Text.{Text, codes}
use clusterrebootd.Orchestrator.Failure.{Failure}
use clusterrebootd.Orchestrator.Types.{Nanos}
use clusterrebootd.Observability.Types.{
  Level, Recorded, milliseconds, in_labels, text_field, number_field,
}
use clusterrebootd.Reports.Checks.{
  Printed, node_event, count_metric, time_metric, error_field, result_or,
}

-- The results that `acquireLock` gives to an attempt.
pub data AttemptResult : Type 0 where
  success contended canceled error : AttemptResult

unfoldable pub tried_text : AttemptResult → Text
tried_text AttemptResult.success = codes "success"
tried_text AttemptResult.contended = codes "contended"
tried_text AttemptResult.canceled = codes "canceled"
tried_text AttemptResult.error = codes "error"

unfoldable pub tried_level : AttemptResult → Level
tried_level AttemptResult.success = Level.info
tried_level AttemptResult.contended = Level.warn
tried_level AttemptResult.canceled = Level.error
tried_level AttemptResult.error = Level.error

module _ (print : Printed) (node : Text) where
  unfoldable pub record_lock_attempt : ℕ → Nanos → AttemptResult → Option Failure → List Recorded
  record_lock_attempt attempt duration result failure =
      let labels = in_labels "result" (tried_text result) ∷ [] in
      count_metric (codes "lock_attempts_total")
        (codes "Number of lock acquisition attempts grouped by result.") labels
      ∷ time_metric (codes "lock_acquire_seconds")
          (codes "Duration of individual lock acquisition attempts.") duration labels
      ∷ node_event node (tried_level result) (codes "lock_attempt") (
          number_field "attempt" (pos (suc attempt))
          ∷ text_field "result" (tried_text result)
          ∷ number_field "duration_ms" (milliseconds duration)
          ∷ error_field print failure)
      ∷ []

  unfoldable pub record_lock_backoff : ℕ → Nanos → List Recorded
  record_lock_backoff attempt delay =
      node_event node Level.info (codes "lock_backoff") (
        number_field "attempt" (pos (suc attempt))
        ∷ number_field "delay_ms" (milliseconds delay)
        ∷ [])
      ∷ []

  unfoldable pub record_lock_acquired : ℕ → Nanos → List Recorded
  record_lock_acquired attempt wait =
      node_event node Level.info (codes "lock_acquired") (
        number_field "attempt" (pos (suc attempt))
        ∷ number_field "wait_ms" (milliseconds wait)
        ∷ [])
      ∷ []

  unfoldable pub record_lock_failure : ℕ → List Recorded
  record_lock_failure attempts =
      node_event node Level.warn (codes "lock_failed") (number_field "attempts" (pos attempts) ∷ [])
      ∷ []

  abbrev release_level : Option Failure → Level
  release_level none = Level.info
  release_level (some e) = Level.warn

  -- What `releaseLease` reports of a release.
  unfoldable pub record_release : Nanos → Option Failure → List Recorded
  record_release duration failure =
      let result = result_or failure (codes "success") in
      time_metric (codes "lock_release_seconds") (codes "Duration of lock release operations.")
        duration (in_labels "result" result ∷ [])
      ∷ node_event node (release_level failure) (codes "lock_released")
          (text_field "result" result ∷ number_field "duration_ms" (milliseconds duration) ∷ [])
      ∷ []
