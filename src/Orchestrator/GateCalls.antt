-- ===== src/Orchestrator/GateCalls.antt =====
-- Which calls the steps of a pass make (pkg/orchestrator/runner.go): no command, no cooldown, and a
-- report of the health only where the runner reports it.
use clusterrebootd.Prelude.{
  ℕ, zero, suc, ◌≤◌, ◌≡◌, Bool, true, false, not, ◌&&◌, List, [], ◌∷◌, arith, Bool-cases, inl, inr,
  ℤ,
}
use clusterrebootd.Orchestrator.Failure.{Context}
use clusterrebootd.Orchestrator.Types.{Record, Phase, Message, Call, Trace, Environment, Runner}
use clusterrebootd.Orchestrator.Flow.{State, Keeps, >>=-Keeps}
use clusterrebootd.Orchestrator.Gates.{
  kill_gate, window_gate, detect, run_health_and_update, health_gate, judge_health, no_reboot,
  inspect, policy_gate, cluster_gate, cooldown_gate, set_command, lock_enabled_gate,
}
use clusterrebootd.Orchestrator.Lock.{sleep_with_context, back_off}
use clusterrebootd.Orchestrator.RunOnce.{detector_gate, recheck_gate}

-- No command and no cooldown, and a report of the health only where that is allowed.
abbrev pub is_inert : Bool → Call → Bool
is_inert reporting (Call.executed _ _) = false
is_inert reporting (Call.cooldown_set _ _) = false
is_inert reporting (Call.health_reported _ _ _ _) = reporting
is_inert reporting _ = true

abbrev pub inert : Bool → Trace → Bool
inert reporting [] = true
inert reporting (c ∷ t) = is_inert reporting c && inert reporting t

-- How often the lock was tried.
abbrev pub tries : Trace → ℕ
tries [] = 0
tries (Call.lock_tried _ ∷ t) = suc (tries t)
tries (_ ∷ t) = tries t

-- Only such calls, at most so many attempts at the lock, and an outcome that does not hold it.
abbrev pub Calm : Bool → ℕ → State → Type 0
Calm reporting n s =
    (inert reporting s.trace ≡ true) × (tries s.trace ≤ n) × (s.out.lock_release ≡ false)

module _ (env : Environment) (r : Runner) (reporting : Bool)
    (told : (r.health_reporting && not reporting) ≡ false) where
  module _ (n : ℕ) where
    pub kill_gate-Calm :
        (phase : Phase) (context : Context) (m : Message)
        → Keeps (Calm reporting n) (kill_gate env r phase context m)
    unfolding kill_gate
    kill_gate-Calm phase context m s p = ground arith

    pub window_gate-Calm : Keeps (Calm reporting n) (window_gate env r)
    unfolding window_gate
    window_gate-Calm s p = ground arith

    pub detect-Calm :
        (phase : Phase) (context : Context) → Keeps (Calm reporting n) (detect env r phase context)
    unfolding detect
    detect-Calm phase context s p = ground arith

    pub run_health_and_update-Calm :
        (phase : Phase) (lock_held : Bool) (attempts : ℕ)
        → Keeps (Calm reporting n) (run_health_and_update env r phase lock_held attempts)
    unfolding run_health_and_update
    run_health_and_update-Calm phase lock_held attempts s p = ground (arith, told)

    pub inspect-Calm :
        (phase : Phase) (context : Context) → Keeps (Calm reporting n) (inspect env r phase context)
    unfolding inspect
    inspect-Calm phase context s p = ground arith

    pub cooldown_gate-Calm : Keeps (Calm reporting n) (cooldown_gate env r)
    unfolding cooldown_gate
    cooldown_gate-Calm s p = ground arith

    pub lock_enabled_gate-Calm : Keeps (Calm reporting n) (lock_enabled_gate env r)
    unfolding lock_enabled_gate set_command
    lock_enabled_gate-Calm s p = ground arith

    pub health_gate-Calm :
        (phase : Phase) (lock_held : Bool) (attempts : ℕ) (blocked : ℤ → Message)
        → Keeps (Calm reporting n) (health_gate env r phase lock_held attempts blocked)
    unfolding health_gate judge_health
    health_gate-Calm phase lock_held attempts blocked =
        >>=-Keeps (Calm reporting n) (run_health_and_update env r phase lock_held attempts) _
          (run_health_and_update-Calm phase lock_held attempts) λ result s p. ground arith

    pub no_reboot-Calm : Keeps (Calm reporting n) (no_reboot env r)
    unfolding no_reboot
    no_reboot-Calm =
        >>=-Keeps (Calm reporting n)
          (health_gate env r Phase.monitor false 0 Message.unhealthy_monitoring) _
          (health_gate-Calm Phase.monitor false 0 Message.unhealthy_monitoring)
          λ _ s p. ground arith

    pub policy_gate-Calm :
        (records : List Record) → Keeps (Calm reporting n) (policy_gate env r records)
    unfolding policy_gate
    policy_gate-Calm records s p = ground arith

    pub cluster_gate-Calm :
        (phase : Phase) (context : Context)
        → Keeps (Calm reporting n) (cluster_gate env r phase context)
    unfolding cluster_gate
    cluster_gate-Calm phase context =
        >>=-Keeps (Calm reporting n) (inspect env r phase context) _ (inspect-Calm phase context)
          policy_gate-Calm

    pub detector_gate-Calm : Keeps (Calm reporting n) (detector_gate env r)
    unfolding detector_gate
    detector_gate-Calm =
        >>=-Keeps (Calm reporting n) (detect env r Phase.pre_lock Context.detector_evaluation) _
          (detect-Calm Phase.pre_lock Context.detector_evaluation)
          λ requires s p. elim (Bool-cases requires) [
            | inl yes_ ↦ rw yes_ p
            | inr no_ ↦ rw no_ (no_reboot-Calm s p)
          ]

    pub recheck_gate-Calm : Keeps (Calm reporting n) (recheck_gate env r)
    unfolding recheck_gate
    recheck_gate-Calm =
        >>=-Keeps (Calm reporting n)
          (detect env r Phase.post_lock Context.post_lock_detector_evaluation) _
          (detect-Calm Phase.post_lock Context.post_lock_detector_evaluation)
          λ requires s p. ground arith

    pub sleep_with_context-Calm : (d : ℕ) → Keeps (Calm reporting n) (sleep_with_context env r d)
    unfolding sleep_with_context
    sleep_with_context-Calm zero s p = p
    sleep_with_context-Calm (suc d) s p = ground arith

    pub back_off-Calm : (attempt : ℕ) → Keeps (Calm reporting n) (back_off env r attempt)
    unfolding back_off
    back_off-Calm attempt s p = sleep_with_context-Calm _ s p
