-- ===== src/Orchestrator/Lock.antt =====
-- `acquireLock`, `releaseLease` and `sleepWithContext` of pkg/orchestrator/runner.go.
use clusterrebootd.Prelude.{
  ℕ, zero, suc, ◌+◌, Bool, true, false, Option, none, some, if◌then◌else◌, pos, pos_part, leb_ℤ,
  ltb_ℤ, ◌∷◌,
}
use clusterrebootd.Orchestrator.Failure.{
  Failure, Context, wrap, is_cancel, is_not_acquired, attempts_used,
}
use clusterrebootd.Orchestrator.Types.{Call, Environment, Runner, Trace}
use clusterrebootd.Orchestrator.Backoff.{next_backoff_delay}
use clusterrebootd.Orchestrator.Flow.{M, pure, ◌>>=◌, ◌>>◌, log, ask, throw, raise_raw}

-- How an attempt ended, in the order of the `switch`.
pub data Attempt : Type 0 where
  got contended : Attempt
  gave_up : Failure → Attempt

unfoldable pub attempt_of : Option Failure → Attempt
attempt_of none = Attempt.got
attempt_of (some e) =
    if is_cancel e
    then Attempt.gave_up e
    else if is_not_acquired e
    then Attempt.contended
    else Attempt.gave_up (wrap Context.acquire_lock e)

-- `BackoffBounds`, put right where they are not positive or not in order.
unfoldable pub min_backoff : Runner → ℕ
min_backoff r = if leb_ℤ r.backoff_min (pos 0) then 1000000000 else pos_part r.backoff_min

unfoldable pub max_backoff : Runner → ℕ
max_backoff r =
    if ltb_ℤ r.backoff_max (pos (min_backoff r)) then min_backoff r else pos_part r.backoff_max

module _ (env : Environment) (r : Runner) where
  -- A delay that is not positive is none.
  unfoldable pub sleep_with_context : ℕ → M (Unit {0})
  sleep_with_context zero = pure tt
  sleep_with_context (suc d) = do
    failure ← ask (λ t. env.sleep t (suc d))
    log (Call.slept (suc d) failure)
    raise_raw failure

  unfoldable pub back_off : ℕ → M (Unit {0})
  back_off attempt = do
    delay ← ask (λ t. next_backoff_delay (env.random t) attempt (min_backoff r) (max_backoff r))
    sleep_with_context delay

  -- The end of a contended attempt: the last one gives up, and the others wait and go `on`.
  unfoldable pub after_contention : ℕ → ℕ → M (Bool × ℕ) → M (Bool × ℕ)
  after_contention zero attempt on = pure (false, attempt + 1)
  after_contention (suc left) attempt on = do back_off attempt; on

  unfoldable pub after_attempt : ℕ → ℕ → Attempt → M (Bool × ℕ) → M (Bool × ℕ)
  after_attempt left attempt Attempt.got on = pure (true, attempt + 1)
  after_attempt left attempt Attempt.contended on = after_contention left attempt on
  after_attempt left attempt (Attempt.gave_up e) on = throw e

  -- The loop, with the attempts that are left and the number of this one, from 0. The results are
  -- `acquired` and the number of attempts made.
  unfoldable pub acquire_from : ℕ → ℕ → M (Bool × ℕ)
  acquire_from zero attempt = throw attempts_used
  acquire_from (suc left) attempt = do
    failure ← ask env.acquire
    log (Call.lock_tried failure)
    after_attempt left attempt (attempt_of failure) (λ s. acquire_from left (suc attempt) s)

  unfoldable pub acquire_lock : M (Bool × ℕ)
  acquire_lock = acquire_from r.max_lock_tries 0

abbrev pub release_error : Option Failure → Option Failure
release_error none = none
release_error (some e) = some (if is_cancel e then e else wrap Context.release_lock e)

-- `releaseLease`: the call, and the error to report.
unfoldable pub release_lease : Environment → Trace → Option Failure × Trace
release_lease env t =
    let failure = env.release t in (release_error failure, Call.released failure ∷ t)
