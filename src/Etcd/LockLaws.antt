-- ===== src/Etcd/LockLaws.antt =====
-- The sessions and the mutex of the lock manager of pkg/lock/etcd_manager.go.
use clusterrebootd.Prelude.{
  ℕ, suc, ◌-◌, ◌≡◌, refl, subst, ◌∙◌, Bool, true, false, Option, none, some, [], ◌∷◌, arith, Result,
  ok, err,
}
use clusterrebootd.Orchestrator.Failure.{Failure, Context, is_not_acquired, wrap_unless_cancel}
use clusterrebootd.Etcd.Lock.{
  TryError, locked, try_failed, session_opened, lock_tried, annotated, unlocked, session_closed,
  LockTrace, LockClient, after_annotation, after_try, after_session, acquire, release,
}

-- Sessions that were opened and for which `Close` was not called.
abbrev pub open_sessions : LockTrace → ℕ
open_sessions [] = 0
open_sessions (session_opened none ∷ t) = suc (open_sessions t)
open_sessions (session_closed e ∷ t) = open_sessions t - 1
open_sessions (call ∷ t) = open_sessions t

-- The mutex was locked, and `Unlock` was not called.
abbrev pub is_held : LockTrace → Bool
is_held [] = false
is_held (lock_tried none ∷ t) = true
is_held (unlocked e ∷ t) = false
is_held (call ∷ t) = is_held t

-- A lease is there with its session open and the mutex held; or nothing is left behind.
abbrev pub Settled : LockTrace → Result Failure Unit × LockTrace → Type 0
Settled t (ok lease, after) = (open_sessions after ≡ suc (open_sessions t)) × (is_held after ≡ true)
Settled t (err e, after) = (open_sessions after ≡ open_sessions t) × (is_held after ≡ false)

module _ (client : LockClient) where
  annotation-Settled :
      (t : LockTrace) (failure : Option Failure)
      → Settled t (
          after_annotation client failure
            (annotated failure ∷ lock_tried none ∷ session_opened none ∷ t))
  unfolding after_annotation
  annotation-Settled t none = (refl, refl)
  annotation-Settled t (some e) = (omega arith, refl)

  try-Settled :
      (t : LockTrace) (failure : Option TryError)
      → is_held t ≡ false
      → Settled t (after_try client failure (lock_tried failure ∷ session_opened none ∷ t))
  unfolding after_try
  try-Settled t none free =
      annotation-Settled t (client.annotate (lock_tried none ∷ session_opened none ∷ t))
  try-Settled t (some e) free = (omega arith, free)

  session-Settled :
      (t : LockTrace) (failure : Option Failure)
      → is_held t ≡ false
      → Settled t (after_session client failure (session_opened failure ∷ t))
  unfolding after_session
  session-Settled t none free = try-Settled t (client.try_lock (session_opened none ∷ t)) free
  session-Settled t (some e) free = (refl, free)

  -- From a manager that holds nothing, `Acquire` returns a lease, with one more session open and the
  -- mutex held, or an error, and then every session that it opened was closed, and the mutex is not
  -- held: where the annotation failed, it was unlocked.
  pub acquire-Settled : (t : LockTrace) → is_held t ≡ false → Settled t (acquire client t)
  unfolding acquire
  acquire-Settled t free = session-Settled t (client.new_session t) free

  -- `Release` gives up the mutex and closes the session, also where it returns an error.
  pub release_lem :
      (t : LockTrace)
      → (open_sessions (release client t).1 ≡ open_sessions t - 1)
        × (is_held (release client t).1 ≡ false)
  unfolding release
  release_lem t = (refl, refl)

-- The client knows nothing of `ErrNotAcquired`.
pub record IsForeign (client : LockClient) : Type 0 where
  pub new_session :
      (t : LockTrace) (e : Failure) → client.new_session t ≡ some e → is_not_acquired e ≡ false
  pub try_lock :
      (t : LockTrace) (e : Failure)
      → client.try_lock t ≡ some (try_failed e)
      → is_not_acquired e ≡ false
  pub annotate :
      (t : LockTrace) (e : Failure) → client.annotate t ≡ some e → is_not_acquired e ≡ false

abbrev pub is_contended : Result Failure Unit → Bool
is_contended (ok lease) = false
is_contended (err e) = is_not_acquired e

-- The last attempt to lock the mutex met another holder.
abbrev pub met_holder : LockTrace → Bool
met_holder [] = false
met_holder (lock_tried (some locked) ∷ t) = true
met_holder (lock_tried _ ∷ t) = false
met_holder (session_opened (some e) ∷ t) = false
met_holder (call ∷ t) = met_holder t

wrapped_foreign :
    (c : Context) (e : Failure) → is_not_acquired (wrap_unless_cancel c e) ≡ is_not_acquired e
unfolding is_not_acquired wrap_unless_cancel
wrapped_foreign c e = ground arith

module _ (client : LockClient) (foreign : IsForeign client) where
  annotation-contended :
      (t s : LockTrace) (failure : Option Failure)
      → client.annotate s ≡ failure
      → is_contended (after_annotation client failure (annotated failure ∷ lock_tried none ∷ t)).0
        ≡ met_holder (after_annotation client failure (annotated failure ∷ lock_tried none ∷ t)).1
  unfolding after_annotation
  annotation-contended t s none e = refl
  annotation-contended t s (some x) e =
      wrapped_foreign Context.annotate_lock x ∙ foreign.annotate s x e

  try-contended :
      (t s : LockTrace) (failure : Option TryError)
      → client.try_lock s ≡ failure
      → is_contended (after_try client failure (lock_tried failure ∷ t)).0
        ≡ met_holder (after_try client failure (lock_tried failure ∷ t)).1
  unfolding after_try is_not_acquired
  try-contended t s none e =
      annotation-contended t (lock_tried none ∷ t) (client.annotate (lock_tried none ∷ t)) refl
  try-contended t s (some locked) e = refl
  try-contended t s (some (try_failed x)) e =
      wrapped_foreign Context.try_lock x ∙ foreign.try_lock s x e

  session-contended :
      (t : LockTrace) (failure : Option Failure)
      → client.new_session t ≡ failure
      → is_contended (after_session client failure (session_opened failure ∷ t)).0
        ≡ met_holder (after_session client failure (session_opened failure ∷ t)).1
  unfolding after_session
  session-contended t none e =
      try-contended (session_opened none ∷ t) (session_opened none ∷ t)
        (client.try_lock (session_opened none ∷ t)) refl
  session-contended t (some x) e =
      wrapped_foreign Context.create_session x ∙ foreign.new_session t x e

  -- `Acquire` returns an error that is `ErrNotAcquired`, the one that the runner tries again after,
  -- exactly if the mutex met another holder. The errors of the client are not that error.
  pub acquire-contended :
      (t : LockTrace) → is_contended (acquire client t).0 ≡ met_holder (acquire client t).1
  unfolding acquire
  acquire-contended t = session-contended t (client.new_session t) refl

-- A lease that is released leaves what was there before: the session that `Acquire` opened is closed,
-- and the mutex free, also where `Release` returns an error. The manager holds nothing before.
pub release-acquire :
    (client : LockClient) (t after : LockTrace)
    → is_held t ≡ false
    → acquire client t ≡ (ok tt, after)
    → (open_sessions (release client after).1 ≡ open_sessions t)
      × (is_held (release client after).1 ≡ false)
release-acquire client t after free acquired =
    let settled = subst (Settled t) acquired (acquire-Settled client t free) in
    let released = release_lem client after in (omega (arith, released.0, settled.0), released.1)
