-- ===== src/Orchestrator/LockLaws.antt =====
-- The attempts of `acquireLock`: how many are made, and what comes of them.
use clusterrebootd.Prelude.{
  ℕ, zero, suc, ◌+◌, ◌≤◌, ◌≡◌, refl, Bool, true, false, not, ◌&&◌, Option, none, some, List, [],
  ◌∷◌, ◌++◌, arith, Bool-cases, ◌⊎◌, inl, inr, All, subst,
}
use clusterrebootd.Orchestrator.Failure.{Failure, is_cancel, is_not_acquired}
use clusterrebootd.Orchestrator.Types.{Call, Trace, Environment, Runner}
use clusterrebootd.Orchestrator.Flow.{State, Exit, M, raise_raw, >>=-cases, Keeps-at, Keeps}
use clusterrebootd.Orchestrator.Lock.{
  attempt_of, sleep_with_context, back_off, after_contention, after_attempt, acquire_from,
  acquire_lock,
}

-- A call that leaves the lock where it is: an attempt that met another holder, or a wait.
abbrev pub is_wait : Call → Bool
is_wait (Call.lock_tried (some e)) = not (is_cancel e) && is_not_acquired e
is_wait (Call.slept _ _) = true
is_wait _ = false

abbrev pub Waits : List Call → Type 0
Waits = All (λ c. is_wait c ≡ true)

abbrev pub tries : Trace → ℕ
tries [] = 0
tries (Call.lock_tried _ ∷ t) = suc (tries t)
tries (_ ∷ t) = tries t

-- So many contended attempts since `base`.
abbrev pub Waited : Trace → ℕ → Trace → Type 0
Waited base k t = (waits : List Call) × Waits waits × (tries waits ≡ k) × (t ≡ waits ++ base)

-- What an error leaves: after contended attempts and waits, a last attempt failed with an error that
-- is no contention; or there was no such attempt, but a wait ended early or no attempt is allowed.
abbrev pub Broken : Trace → ℕ → Trace → Type 0
Broken base top t =
    ((k : ℕ) × Waited base k t × (k ≤ top))
    ⊎ ((earlier : Trace) × (k : ℕ) × (e : Failure) × Waited base k earlier
        × (suc k ≤ top)
        × (is_wait (Call.lock_tried (some e)) ≡ false)
        × (t ≡ Call.lock_tried (some e) ∷ earlier))

-- What `acquireLock` promises, of at most `top` attempts since `base`: it has the lock after some
-- contended attempts and the last, successful one, whose number it returns; or it has made all the
-- attempts, and each was contended; or it returns an error after no more attempts than that.
abbrev pub Tried : Trace → ℕ → Exit (Bool × ℕ) × State → Type 0
Tried base top (Exit.next (true, n), s) =
    (t : Trace) × (k : ℕ) × Waited base k t
    × (n ≡ suc k)
    × (n ≤ top)
    × (s.trace ≡ Call.lock_tried none ∷ t)
Tried base top (Exit.next (false, n), s) = Waited base n s.trace × (n ≡ top)
Tried base top (Exit.stop, s) = ⊥
Tried base top (Exit.fail e, s) = Broken base top s.trace

wait_slept :
    (base : Trace) (k d : ℕ) (e : Option Failure) (t : Trace)
    → Waited base k t
    → Waited base k (Call.slept d e ∷ t)
wait_slept base k d e t w = (Call.slept d e ∷ w.0, (refl, w.1), w.2, ground arith)

wait_tried :
    (base : Trace) (k : ℕ) (e : Failure) (t : Trace)
    → (not (is_cancel e) && is_not_acquired e) ≡ true
    → Waited base k t
    → Waited base (suc k) (Call.lock_tried (some e) ∷ t)
wait_tried base k e t h w = (Call.lock_tried (some e) ∷ w.0, (h, w.1), ground arith, ground arith)

module _ (env : Environment) (r : Runner) (base : Trace) where
  raise_raw-Waited :
      (k : ℕ) (failure : Option Failure) → Keeps (λ s. Waited base k s.trace) (raise_raw failure)
  raise_raw-Waited k none s w = w
  raise_raw-Waited k (some e) s w = w

  sleep-Waited : (k d : ℕ) → Keeps (λ s. Waited base k s.trace) (sleep_with_context env r d)
  unfolding sleep_with_context
  sleep-Waited k zero s w = w
  sleep-Waited k (suc d) s w =
      let failure = env.sleep s.trace (suc d) in
      raise_raw-Waited k failure (record s { trace = Call.slept (suc d) failure ∷ s.trace })
        (wait_slept base k (suc d) failure s.trace w)

  back_off-Waited : (k attempt : ℕ) → Keeps (λ s. Waited base k s.trace) (back_off env r attempt)
  unfolding back_off
  back_off-Waited k attempt s w = sleep-Waited k _ s w

  raise_raw-goes_on :
      (failure : Option Failure) (s t : State) → raise_raw failure s ≡ (Exit.stop, t) → ⊥
  raise_raw-goes_on none s t e = cc
  raise_raw-goes_on (some x) s t e = cc

  sleep-goes_on : (d : ℕ) (s t : State) → sleep_with_context env r d s ≡ (Exit.stop, t) → ⊥
  unfolding sleep_with_context
  sleep-goes_on zero s t e = cc
  sleep-goes_on (suc d) s t e = raise_raw-goes_on (env.sleep s.trace (suc d)) _ t e

  -- A wait never returns the outcome.
  back_off-goes_on : (attempt : ℕ) (s t : State) → back_off env r attempt s ≡ (Exit.stop, t) → ⊥
  unfolding back_off
  back_off-goes_on attempt s t e = sleep-goes_on _ s t e

  after_contention-Tried :
      (left attempt : ℕ) (on : M (Bool × ℕ))
      → ((s : State) → Waited base (suc attempt) s.trace → Tried base (suc attempt + left) (on s))
      → (s : State) → Waited base (suc attempt) s.trace
      → Tried base (attempt + suc left) (after_contention env r left attempt on s)
  unfolding after_contention
  after_contention-Tried zero attempt on h s w =
      let e : suc attempt ≡ attempt + 1 = ground arith in
      (subst (λ n. Waited base n s.trace) e w, refl)
  after_contention-Tried (suc left) attempt on h s w =
      >>=-cases (Tried base (attempt + suc (suc left))) (back_off env r attempt) (λ _. on) s
        (λ _ t e.
          subst (λ n. Tried base n (on t)) (ground arith)
            (h t (
              Keeps-at (λ u. Waited base (suc attempt) u.trace) (back_off env r attempt)
                (back_off-Waited (suc attempt) attempt) w e)))
        (λ t e. elim (back_off-goes_on attempt s t e) [ ])
        (λ _ t e. inl (
          suc attempt,
          Keeps-at (λ u. Waited base (suc attempt) u.trace) (back_off env r attempt)
              (back_off-Waited (suc attempt) attempt) w e,
          ground arith,
        ))

  -- An attempt that failed otherwise is the last one.
  gave_up-Tried :
      (left attempt : ℕ) (e : Failure) (on : M (Bool × ℕ)) (s : State)
      → Waited base attempt s.trace
      → (not (is_cancel e) && is_not_acquired e) ≡ false
      → Tried base (attempt + suc left) (
          after_attempt env r left attempt
            (attempt_of (some e))
            on
            (record s { trace = Call.lock_tried (some e) ∷ s.trace }))
  unfolding after_attempt attempt_of
  gave_up-Tried left attempt e on s w h =
      let broken : Broken base (attempt + suc left) (Call.lock_tried (some e) ∷ s.trace) =
        inr (s.trace, attempt, e, w, ground arith, h, refl) in
      elim (Bool-cases (is_cancel e)) [
        | inl ends ↦ rw ends broken
        | inr goes_on ↦ rw (goes_on, contention goes_on) broken
      ]
    where
      contention : is_cancel e ≡ false → is_not_acquired e ≡ false
      contention g = ground arith

  after_attempt-Tried :
      (left attempt : ℕ) (failure : Option Failure) (on : M (Bool × ℕ))
      → ((s : State) → Waited base (suc attempt) s.trace → Tried base (suc attempt + left) (on s))
      → (s : State) → Waited base attempt s.trace
      → Tried base (attempt + suc left) (
          after_attempt env r left attempt
            (attempt_of failure)
            on
            (record s { trace = Call.lock_tried failure ∷ s.trace }))
  unfolding after_attempt attempt_of
  after_attempt-Tried left attempt none on h s w =
      (s.trace, attempt, w, ground arith, ground arith, refl)
  after_attempt-Tried left attempt (some e) on h s w =
      elim (Bool-cases (not (is_cancel e) && is_not_acquired e)) [
        | inl yes_ ↦ ground (
          arith,
          after_contention-Tried left attempt on h
              (record s { trace = Call.lock_tried (some e) ∷ s.trace })
              (wait_tried base attempt e s.trace yes_ w),
        )
        | inr no_ ↦ gave_up-Tried left attempt e on s w no_
      ]

  acquire_from-Tried :
      (left attempt : ℕ) (s : State)
      → Waited base attempt s.trace
      → Tried base (attempt + left) (acquire_from env r left attempt s)
  unfolding acquire_from
  acquire_from-Tried zero attempt s w = inl (attempt, w, ground arith)
  acquire_from-Tried (suc left) attempt s w =
      after_attempt-Tried left attempt (env.acquire s.trace) _
        (acquire_from-Tried left (suc attempt)) s w

-- `acquireLock` makes at most as many attempts as it is allowed, an error or not. If it has the lock,
-- the last attempt succeeded, its number is returned, and every attempt before it met another holder;
-- if it returns without the lock and without an error, it made all the attempts and each of them met
-- another holder; if it returns an error, every attempt met another holder except, at most, the last
-- one, after which there is no other. Between the attempts it does nothing but wait.
pub acquire_lock-Tried :
    (env : Environment) (r : Runner) (s : State)
    → Tried s.trace r.max_lock_tries (acquire_lock env r s)
unfolding acquire_lock
acquire_lock-Tried env r s =
    subst (λ n. Tried s.trace n (acquire_lock env r s)) (ground arith)
      (acquire_from-Tried env r s.trace r.max_lock_tries 0 s ([], tt, refl, refl))
