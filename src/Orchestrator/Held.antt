-- ===== src/Orchestrator/Held.antt =====
-- The lock over one pass: whatever happens, it is released or handed over to the outcome.
use clusterrebootd.Prelude.{
  ℕ, zero, suc, ℤ, ◌≡◌, refl, Bool, true, false, Option, none, some, List, [], ◌∷◌, arith,
  Bool-cases, inl, inr,
}
use clusterrebootd.Orchestrator.Failure.{Failure, Context}
use clusterrebootd.Orchestrator.Types.{
  Record, Phase, is_ready, Message, Call, Trace, Environment, Runner,
}
use clusterrebootd.Orchestrator.Flow.{State, Exit, M, Keeps, >>=-Keeps, >>=-cases, Keeps-at}
use clusterrebootd.Orchestrator.Gates.{
  kill_gate, window_gate, detect, run_health_and_update, health_gate, judge_health, no_reboot,
  inspect, policy_gate, cluster_gate, cooldown_gate, set_command, lock_enabled_gate,
}
use clusterrebootd.Orchestrator.Lock.{
  attempt_of, sleep_with_context, back_off, after_contention, after_attempt, acquire_from,
}
use clusterrebootd.Orchestrator.RunOnce.{
  detector_gate, before_lock, recheck_gate, checks_under_lock,
}

-- The lock was acquired, and no release was called since.
abbrev pub held : Trace → Bool
held [] = false
held (Call.lock_tried none ∷ t) = true
held (Call.released _ ∷ t) = false
held (_ ∷ t) = held t

-- The lock is held or not, the outcome does not hold it, and it is not ready.
abbrev pub Idle : Bool → State → Type 0
Idle b s = (held s.trace ≡ b) × (s.out.lock_release ≡ false) × (is_ready s.out.status ≡ false)

module _ (env : Environment) (r : Runner) (b : Bool) where
  pub kill_gate-Idle :
      (phase : Phase) (context : Context) (m : Message)
      → Keeps (Idle b) (kill_gate env r phase context m)
  unfolding kill_gate
  kill_gate-Idle phase context m s p = ground arith

  pub window_gate-Idle : Keeps (Idle b) (window_gate env r)
  unfolding window_gate
  window_gate-Idle s p = ground arith

  pub detect-Idle :
      (phase : Phase) (context : Context) → Keeps (Idle b) (detect env r phase context)
  unfolding detect
  detect-Idle phase context s p = ground arith

  pub run_health_and_update-Idle :
      (phase : Phase) (lock_held : Bool) (attempts : ℕ)
      → Keeps (Idle b) (run_health_and_update env r phase lock_held attempts)
  unfolding run_health_and_update
  run_health_and_update-Idle phase lock_held attempts s p = ground arith

  pub inspect-Idle :
      (phase : Phase) (context : Context) → Keeps (Idle b) (inspect env r phase context)
  unfolding inspect
  inspect-Idle phase context s p = ground arith

  pub cooldown_gate-Idle : Keeps (Idle b) (cooldown_gate env r)
  unfolding cooldown_gate
  cooldown_gate-Idle s p = ground arith

  pub lock_enabled_gate-Idle : Keeps (Idle b) (lock_enabled_gate env r)
  unfolding lock_enabled_gate set_command
  lock_enabled_gate-Idle s p = ground arith

  pub health_gate-Idle :
      (phase : Phase) (lock_held : Bool) (attempts : ℕ) (blocked : ℤ → Message)
      → Keeps (Idle b) (health_gate env r phase lock_held attempts blocked)
  unfolding health_gate judge_health
  health_gate-Idle phase lock_held attempts blocked =
      >>=-Keeps (Idle b) (run_health_and_update env r phase lock_held attempts) _
        (run_health_and_update-Idle phase lock_held attempts) λ result s p. ground arith

  pub no_reboot-Idle : Keeps (Idle b) (no_reboot env r)
  unfolding no_reboot
  no_reboot-Idle =
      >>=-Keeps (Idle b) (health_gate env r Phase.monitor false 0 Message.unhealthy_monitoring) _
        (health_gate-Idle Phase.monitor false 0 Message.unhealthy_monitoring) λ _ s p. ground arith

  pub policy_gate-Idle : (records : List Record) → Keeps (Idle b) (policy_gate env r records)
  unfolding policy_gate
  policy_gate-Idle records s p = ground arith

  pub cluster_gate-Idle :
      (phase : Phase) (context : Context) → Keeps (Idle b) (cluster_gate env r phase context)
  unfolding cluster_gate
  cluster_gate-Idle phase context =
      >>=-Keeps (Idle b) (inspect env r phase context) _ (inspect-Idle phase context)
        policy_gate-Idle

  pub detector_gate-Idle : Keeps (Idle b) (detector_gate env r)
  unfolding detector_gate
  detector_gate-Idle =
      >>=-Keeps (Idle b) (detect env r Phase.pre_lock Context.detector_evaluation) _
        (detect-Idle Phase.pre_lock Context.detector_evaluation)
        λ requires s p. elim (Bool-cases requires) [
          | inl yes_ ↦ rw yes_ p
          | inr no_ ↦ rw no_ (no_reboot-Idle s p)
        ]

  pub recheck_gate-Idle : Keeps (Idle b) (recheck_gate env r)
  unfolding recheck_gate
  recheck_gate-Idle =
      >>=-Keeps (Idle b) (detect env r Phase.post_lock Context.post_lock_detector_evaluation) _
        (detect-Idle Phase.post_lock Context.post_lock_detector_evaluation)
        λ requires s p. ground arith

  pub before_lock-Idle : Keeps (Idle b) (before_lock env r)
  unfolding before_lock
  before_lock-Idle =
      >>=-Keeps (Idle b)
        (kill_gate env r Phase.pre_lock Context.check_kill_switch Message.kill_present) _
        (kill_gate-Idle Phase.pre_lock Context.check_kill_switch Message.kill_present)
        λ _. >>=-Keeps (Idle b) (window_gate env r) _ window_gate-Idle λ _.
          >>=-Keeps (Idle b) (detector_gate env r) _ detector_gate-Idle λ _.
            >>=-Keeps (Idle b)
              (cluster_gate env r Phase.pre_lock Context.cluster_health_before_lock) _
              (cluster_gate-Idle Phase.pre_lock Context.cluster_health_before_lock)
              λ _.
                >>=-Keeps (Idle b)
                  (health_gate env r Phase.pre_lock false 0 Message.unhealthy_before_lock) _
                  (health_gate-Idle Phase.pre_lock false 0 Message.unhealthy_before_lock)
                  λ _.
                    >>=-Keeps (Idle b) (cooldown_gate env r) _ cooldown_gate-Idle
                      λ _. lock_enabled_gate-Idle

  pub checks_under_lock-Idle : (attempts : ℕ) → Keeps (Idle b) (checks_under_lock env r attempts)
  unfolding checks_under_lock
  checks_under_lock-Idle attempts =
      >>=-Keeps (Idle b)
        (kill_gate env r Phase.post_lock Context.check_kill_switch_after_lock
          Message.kill_present_after_lock)
        _
        (kill_gate-Idle Phase.post_lock Context.check_kill_switch_after_lock
          Message.kill_present_after_lock)
        λ _.
          >>=-Keeps (Idle b) (cluster_gate env r Phase.post_lock Context.cluster_health_under_lock)
            _ (cluster_gate-Idle Phase.post_lock Context.cluster_health_under_lock)
            λ _.
              >>=-Keeps (Idle b) (recheck_gate env r) _ recheck_gate-Idle
                λ _. health_gate-Idle Phase.post_lock true attempts Message.unhealthy_under_lock

-- What is known after the attempts to acquire the lock.
abbrev pub AfterAcquire : Exit (Bool × ℕ) × State → Type 0
AfterAcquire (Exit.next (got, n), s) = Idle got s
AfterAcquire (_, s) = Idle false s

module _ (env : Environment) (r : Runner) where
  sleep_with_context-Idle : (b : Bool) (d : ℕ) → Keeps (Idle b) (sleep_with_context env r d)
  unfolding sleep_with_context
  sleep_with_context-Idle b zero s p = p
  sleep_with_context-Idle b (suc d) s p = ground arith

  back_off-Idle : (b : Bool) (attempt : ℕ) → Keeps (Idle b) (back_off env r attempt)
  unfolding back_off
  back_off-Idle b attempt s p = sleep_with_context-Idle b _ s p

  after_contention-lem :
      (left attempt : ℕ) (on : M (Bool × ℕ))
      → ((s : State) → Idle false s → AfterAcquire (on s))
      → (s : State) → Idle false s
      → AfterAcquire (after_contention env r left attempt on s)
  unfolding after_contention
  after_contention-lem zero attempt on h s p = p
  after_contention-lem (suc left) attempt on h s p =
      >>=-cases AfterAcquire (back_off env r attempt) (λ _. on) s
        (λ _ t e.
          h t (Keeps-at (Idle false) (back_off env r attempt) (back_off-Idle false attempt) p e))
        (λ t e. Keeps-at (Idle false) (back_off env r attempt) (back_off-Idle false attempt) p e)
        (λ _ t e. Keeps-at (Idle false) (back_off env r attempt) (back_off-Idle false attempt) p e)

  after_attempt-lem :
      (left attempt : ℕ) (failure : Option Failure) (on : M (Bool × ℕ))
      → ((s : State) → Idle false s → AfterAcquire (on s))
      → (s : State) → Idle false s
      → AfterAcquire (
          after_attempt env r left attempt
            (attempt_of failure)
            on
            (record s { trace = Call.lock_tried failure ∷ s.trace }))
  unfolding after_attempt attempt_of
  after_attempt-lem left attempt none on h s p = (refl, p.1, p.2)
  after_attempt-lem left attempt (some e) on h s p = ground (
    arith,
    after_contention-lem left attempt on h (record s { trace = Call.lock_tried (some e) ∷ s.trace })
        p,
  )

  pub acquire_from-lem :
      (left attempt : ℕ) (s : State)
      → Idle false s
      → AfterAcquire (acquire_from env r left attempt s)
  unfolding acquire_from
  acquire_from-lem zero attempt s p = p
  acquire_from-lem (suc left) attempt s p =
      after_attempt-lem left attempt (env.acquire s.trace) _ (acquire_from-lem left (suc attempt)) s
        p
