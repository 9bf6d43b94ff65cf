-- ===== src/Orchestrator/LockCalls.antt =====
-- How often a pass tries the lock (`acquireLock` of pkg/orchestrator/runner.go).
use clusterrebootd.Prelude.{
  ℕ, zero, suc, ◌+◌, ◌≡◌, Bool, true, false, not, ◌&&◌, Option, none, some, ◌∷◌, arith, subst,
}
use clusterrebootd.Orchestrator.Failure.{Failure}
use clusterrebootd.Orchestrator.Types.{Status, Message, Call, Environment, Runner}
use clusterrebootd.Orchestrator.Flow.{
  State, M, pure, ◌>>=◌, modify, finish_if, Keeps, >>=-cases, Keeps-at,
}
use clusterrebootd.Orchestrator.Lock.{
  attempt_of, back_off, after_contention, after_attempt, acquire_from, acquire_lock,
}
use clusterrebootd.Orchestrator.RunOnce.{lock_gate}
use clusterrebootd.Orchestrator.GateCalls.{Calm, back_off-Calm}

module _ (env : Environment) (r : Runner) (reporting : Bool)
    (told : (r.health_reporting && not reporting) ≡ false) where
  -- A step that may add attempts.
  abbrev pub Tries : {A : Type 0} → ℕ → ℕ → M A → Type 0
  Tries n k m = (s : State) → Calm reporting n s → Calm reporting (n + k) (m s).1

  pub more-Calm : (n k : ℕ) (s : State) → Calm reporting n s → Calm reporting (n + k) s
  more-Calm n k s p = (p.0, omega (arith, p.1), p.2)

  then-Tries :
      {A B : Type 0} (n k : ℕ) (m : M A) (f : A → M B)
      → Keeps (Calm reporting n) m
      → ((a : A) → Tries n k (f a))
      → Tries n k (m >>= f)
  then-Tries n k m f keeps h s p =
      >>=-cases (λ x. Calm reporting (n + k) x.1) m f s
        (λ a t e. h a t (Keeps-at (Calm reporting n) m keeps p e))
        (λ t e. more-Calm n k t (Keeps-at (Calm reporting n) m keeps p e))
        (λ x t e. more-Calm n k t (Keeps-at (Calm reporting n) m keeps p e))

  after_contention-Tries :
      (n k left attempt : ℕ) (on : M (Bool × ℕ))
      → Tries n k on
      → Tries n k (after_contention env r left attempt on)
  unfolding after_contention
  after_contention-Tries n k zero attempt on h s p = more-Calm n k s p
  after_contention-Tries n k (suc left) attempt on h s p =
      then-Tries n k (back_off env r attempt) (λ _. on)
        (back_off-Calm env r reporting told n attempt) (λ _. h) s p

  after_attempt-Tries :
      (n k left attempt : ℕ) (failure : Option Failure) (on : M (Bool × ℕ))
      → Tries n k on
      → Tries n k (after_attempt env r left attempt (attempt_of failure) on)
  unfolding after_attempt attempt_of
  after_attempt-Tries n k left attempt none on h s p = more-Calm n k s p
  after_attempt-Tries n k left attempt (some e) on h s p =
      ground (arith, after_contention-Tries n k left attempt on h s p, more-Calm n k s p)

  acquire_from-Tries : (n left attempt : ℕ) → Tries n left (acquire_from env r left attempt)
  unfolding acquire_from
  acquire_from-Tries n zero attempt s p = more-Calm n 0 s p
  acquire_from-Tries n (suc left) attempt s p =
      let failure = env.acquire s.trace in
      let tried =
        after_attempt-Tries (suc n) left left attempt failure
          (λ t. acquire_from env r left (suc attempt) t)
          (acquire_from-Tries (suc n) left (suc attempt))
          (record s { trace = Call.lock_tried failure ∷ s.trace }) (p.0, omega (arith, p.1), p.2) in
      (tried.0, omega (arith, tried.1), tried.2)

  taken-Calm :
      (n : ℕ) (got : Bool) (attempts : ℕ)
      → Keeps (Calm reporting n) (
          finish_if (not got) Status.lock_unavailable (Message.lock_not_acquired r.max_lock_tries)
          >>= λ _. modify (λ o. record o { lock_acquired = true }) >>= λ _. pure attempts)
  taken-Calm n got attempts s p = ground arith

  pub lock_gate-Tries : (n : ℕ) → Tries n r.max_lock_tries (lock_gate env r)
  unfolding lock_gate acquire_lock
  lock_gate-Tries n s p =
      let m = n + r.max_lock_tries in
      let tried = acquire_from-Tries n r.max_lock_tries 0 s p in
      >>=-cases (λ x. Calm reporting m x.1) (acquire_lock env r) _ s
        (λ a t e. taken-Calm m a.0 a.1 t (subst (λ x. Calm reporting m x.1) e tried))
        (λ t e. subst (λ x. Calm reporting m x.1) e tried)
        (λ x t e. subst (λ x. Calm reporting m x.1) e tried)
