-- ===== src/Etcd/Lock.antt =====
-- `Acquire` and `Release` of pkg/lock/etcd_manager.go. The sessions and mutexes of the etcd client
-- are parameters.
use clusterrebootd.Prelude.{Option, none, some, List, ◌∷◌, Result, ok, err}
use clusterrebootd.Orchestrator.Failure.{Failure, Context, not_acquired, wrap_unless_cancel}

-- The error of `TryLock`: `concurrency.ErrLocked`, or another one.
pub data TryError : Type 0 where
  locked : TryError
  try_failed : Failure → TryError

-- The error of `Unlock`: `concurrency.ErrLockReleased`, or another one.
pub data UnlockError : Type 0 where
  lock_released : UnlockError
  unlock_failed : Failure → UnlockError

-- A call of the client, with its error.
pub data LockCall : Type 0 where
  session_opened : Option Failure → LockCall
  lock_tried : Option TryError → LockCall
  annotated : Option Failure → LockCall
  unlocked : Option UnlockError → LockCall
  session_closed : Option Failure → LockCall

-- The calls so far, the last one first.
abbrev pub LockTrace : Type 0
LockTrace = List LockCall

-- What the client answers, which may depend on all calls before.
pub record LockClient : Type 0 where
  pub new_session : LockTrace → Option Failure
  pub try_lock : LockTrace → Option TryError
  -- `Put` of the annotation under the lease of the session
  pub annotate : LockTrace → Option Failure
  pub unlock : LockTrace → Option UnlockError
  pub close : LockTrace → Option Failure

module _ (client : LockClient) where
  close_session : LockTrace → LockTrace
  close_session t = session_closed (client.close t) ∷ t

  unlock_mutex : LockTrace → LockTrace
  unlock_mutex t = unlocked (client.unlock t) ∷ t

  -- The steps of `Acquire`, each given the error of its call. A lease is the fact that it is there.
  unfoldable pub after_annotation : Option Failure → LockTrace → Result Failure Unit × LockTrace
  unfolding close_session unlock_mutex
  after_annotation none t = (ok tt, t)
  after_annotation (some e) t =
      (err (wrap_unless_cancel Context.annotate_lock e), close_session (unlock_mutex t))

  abbrev try_result : TryError → Failure
  try_result locked = not_acquired
  try_result (try_failed e) = wrap_unless_cancel Context.try_lock e

  unfoldable pub after_try : Option TryError → LockTrace → Result Failure Unit × LockTrace
  unfolding after_annotation close_session
  after_try none t =
      let failure = client.annotate t in after_annotation failure (annotated failure ∷ t)
  after_try (some e) t = (err (try_result e), close_session t)

  unfoldable pub after_session : Option Failure → LockTrace → Result Failure Unit × LockTrace
  unfolding after_try
  after_session none t =
      let failure = client.try_lock t in after_try failure (lock_tried failure ∷ t)
  after_session (some e) t = (err (wrap_unless_cancel Context.create_session e), t)

  -- `Acquire`
  unfoldable pub acquire : LockTrace → Result Failure Unit × LockTrace
  unfolding after_session
  acquire t =
      let failure = client.new_session t in after_session failure (session_opened failure ∷ t)

  abbrev close_error : Option Failure → Option Failure
  close_error none = none
  close_error (some e) = some (wrap_unless_cancel Context.close_session e)

  abbrev release_error : Option UnlockError → Option Failure → Option Failure
  release_error none closed = close_error closed
  release_error (some lock_released) closed = close_error closed
  release_error (some (unlock_failed e)) closed = some (wrap_unless_cancel Context.unlock e)

  -- `Release`
  unfoldable pub release : LockTrace → Option Failure × LockTrace
  release t =
      let unlock_failure = client.unlock t in
      let t1 = unlocked unlock_failure ∷ t in
      let close_failure = client.close t1 in
      (release_error unlock_failure close_failure, session_closed close_failure ∷ t1)
