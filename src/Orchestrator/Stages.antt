-- ===== src/Orchestrator/Stages.antt =====
-- The three stages of a pass that goes on (`RunOnce` of pkg/orchestrator/runner.go): the checks
-- before the lock, the lock, and the checks under it.
use clusterrebootd.Prelude.{
  ℕ, suc, ◌≤◌, ◌≡◌, sym, ap, subst, Bool, true, false, not, none, ◌∷◌, arith, if◌then◌else◌,
}
use clusterrebootd.Orchestrator.Failure.{Context}
use clusterrebootd.Orchestrator.Types.{Phase, Status, Message, Call, Trace, Environment, Runner}
use clusterrebootd.Orchestrator.Flow.{State, Exit, pure, ◌>>=◌, modify, finish_if}
use clusterrebootd.Orchestrator.Gates.{
  kill_gate, window_gate, detect, health_gate, no_reboot, cluster_gate, cooldown_gate,
}
use clusterrebootd.Orchestrator.Lock.{acquire_lock}
use clusterrebootd.Orchestrator.LockLaws.{Waited, Tried, acquire_lock-Tried}
use clusterrebootd.Orchestrator.RunOnce.{
  detector_gate, before_lock, lock_gate, recheck_gate, checks_under_lock,
}
use clusterrebootd.Orchestrator.Cleared.{
  >>=-next, KillClear, DetectClear, WindowClear, ClusterClear, HealthClear, CooldownClear,
  kill_gate-KillClear, window_gate-WindowClear, detect-DetectClear, cluster_gate-ClusterClear,
  health_gate-HealthClear, cooldown_gate-CooldownClear, lock_enabled_gate-next,
}

-- One check and then the next.
abbrev pub Then : (Trace → Trace → Type 0) → (Trace → Trace → Type 0) → Trace → Trace → Type 0
Then R S t u = (v : Trace) × R t v × S v u

module _ (env : Environment) (r : Runner) where
  -- Every check before the lock, in the order of the code.
  abbrev pub ClearBefore : Trace → Trace → Type 0
  ClearBefore = Then (KillClear Phase.pre_lock) (
      Then (WindowClear env r) (
        Then (DetectClear Phase.pre_lock) (
          Then (ClusterClear r Phase.pre_lock)
            (Then (HealthClear env r Phase.pre_lock false 0) (CooldownClear env r)))))

  -- The lock was acquired by the last of so many attempts.
  abbrev pub Acquired : ℕ → Trace → Trace → Type 0
  Acquired n t u =
      (v : Trace) × (k : ℕ) × Waited t k v
      × (n ≡ suc k)
      × (n ≤ r.max_lock_tries)
      × (u ≡ Call.lock_tried none ∷ v)

  -- Every check under the lock.
  abbrev pub ClearUnder : ℕ → Trace → Trace → Type 0
  ClearUnder n = Then (KillClear Phase.post_lock) (
      Then (ClusterClear r Phase.post_lock)
        (Then (DetectClear Phase.post_lock) (HealthClear env r Phase.post_lock true n)))

  no_reboot-stops : (s : State) {u : State} → no_reboot env r s ≡ (Exit.next tt, u) → ⊥
  unfolding no_reboot
  no_reboot-stops s h =
      let (_, t, e, k) =
        >>=-next (health_gate env r Phase.monitor false 0 Message.unhealthy_monitoring) _ s h in
      cc

  detected_lem :
      (requires : Bool) (s t : State) {u : State}
      → detect env r Phase.pre_lock Context.detector_evaluation s ≡ (Exit.next requires, t)
      → (if requires then pure tt else no_reboot env r) t ≡ (Exit.next tt, u)
      → DetectClear Phase.pre_lock s.trace u.trace
  detected_lem true s t h k =
      let same : t ≡ _ = ap (λ x. x.1) k in
      subst (λ x. DetectClear Phase.pre_lock s.trace x.trace) same
        (detect-DetectClear env r Phase.pre_lock Context.detector_evaluation s h)
  detected_lem false s t h k = elim (no_reboot-stops t k) [ ]

  detector_gate-DetectClear :
      (s : State) {u : State}
      → detector_gate env r s ≡ (Exit.next tt, u)
      → DetectClear Phase.pre_lock s.trace u.trace
  unfolding detector_gate
  detector_gate-DetectClear s h =
      let (requires, t, e, k) =
        >>=-next (detect env r Phase.pre_lock Context.detector_evaluation) _ s h in
      detected_lem requires s t e k

  pub before_lock-ClearBefore :
      (s : State) {u : State}
      → before_lock env r s ≡ (Exit.next tt, u)
      → ClearBefore s.trace u.trace
  unfolding before_lock
  before_lock-ClearBefore s h =
      let (_, a, ha, h₁) =
        >>=-next (kill_gate env r Phase.pre_lock Context.check_kill_switch Message.kill_present) _ s
          h in
      let (_, b, hb, h₂) = >>=-next (window_gate env r) _ a h₁ in
      let (_, c, hc, h₃) = >>=-next (detector_gate env r) _ b h₂ in
      let (_, d, hd, h₄) =
        >>=-next (cluster_gate env r Phase.pre_lock Context.cluster_health_before_lock) _ c h₃ in
      let (_, e, he, h₅) =
        >>=-next (health_gate env r Phase.pre_lock false 0 Message.unhealthy_before_lock) _ d h₄ in
      let (_, f, hf, h₆) = >>=-next (cooldown_gate env r) _ e h₅ in
      let last = (lock_enabled_gate-next env r f h₆).1 in
      (
        a.trace,
        kill_gate-KillClear env r Phase.pre_lock Context.check_kill_switch Message.kill_present s
            ha,
        (
          b.trace,
          window_gate-WindowClear env r a hb,
          (
            c.trace,
            detector_gate-DetectClear b hc,
            (
              d.trace,
              cluster_gate-ClusterClear env r Phase.pre_lock Context.cluster_health_before_lock c
                  hd,
              (
                e.trace,
                health_gate-HealthClear env r Phase.pre_lock false 0 Message.unhealthy_before_lock d
                    he,
                subst (λ x. CooldownClear env r e.trace x.trace) (sym last)
                    (cooldown_gate-CooldownClear env r e hf),
              ),
            ),
          ),
        ),
      )

  taken_lem :
      (got : Bool) (n : ℕ) (s t : State) {m : ℕ} {u : State}
      → Tried s.trace r.max_lock_tries (Exit.next (got, n), t)
      → (finish_if (not got) Status.lock_unavailable (Message.lock_not_acquired r.max_lock_tries)
            >>= λ _. modify (λ o. record o { lock_acquired = true }) >>= λ _. pure n)
          t
        ≡ (Exit.next m, u)
      → Acquired m s.trace u.trace
  taken_lem true n s t w h =
      (w.0, w.1, w.2, ground (arith, h, w.3), ground (arith, h, w.4), ground (arith, h, w.5))
  taken_lem false n s t w h = cc

  pub lock_gate-Acquired :
      (s : State) {n : ℕ} {u : State}
      → lock_gate env r s ≡ (Exit.next n, u)
      → Acquired n s.trace u.trace
  unfolding lock_gate
  lock_gate-Acquired s h =
      let (result, t, e, k) = >>=-next (acquire_lock env r) _ s h in
      taken_lem result.0 result.1 s t
        (subst (Tried s.trace r.max_lock_tries) e (acquire_lock-Tried env r s)) k

  rechecked_lem :
      (requires : Bool) (s t : State) {u : State}
      → detect env r Phase.post_lock Context.post_lock_detector_evaluation s
        ≡ (Exit.next requires, t)
      → finish_if (not requires) Status.recheck_cleared Message.detectors_cleared t
        ≡ (Exit.next tt, u)
      → DetectClear Phase.post_lock s.trace u.trace
  rechecked_lem true s t h k =
      let same : t ≡ _ = ap (λ x. x.1) k in
      subst (λ x. DetectClear Phase.post_lock s.trace x.trace) same
        (detect-DetectClear env r Phase.post_lock Context.post_lock_detector_evaluation s h)
  rechecked_lem false s t h k = cc

  recheck_gate-DetectClear :
      (s : State) {u : State}
      → recheck_gate env r s ≡ (Exit.next tt, u)
      → DetectClear Phase.post_lock s.trace u.trace
  unfolding recheck_gate
  recheck_gate-DetectClear s h =
      let (requires, t, e, k) =
        >>=-next (detect env r Phase.post_lock Context.post_lock_detector_evaluation) _ s h in
      rechecked_lem requires s t e k

  pub checks_under_lock-ClearUnder :
      (n : ℕ) (s : State) {u : State}
      → checks_under_lock env r n s ≡ (Exit.next tt, u)
      → ClearUnder n s.trace u.trace
  unfolding checks_under_lock
  checks_under_lock-ClearUnder n s h =
      let (_, a, ha, h₁) =
        >>=-next
          (kill_gate env r Phase.post_lock Context.check_kill_switch_after_lock
            Message.kill_present_after_lock)
          _ s h in
      let (_, b, hb, h₂) =
        >>=-next (cluster_gate env r Phase.post_lock Context.cluster_health_under_lock) _ a h₁ in
      let (_, c, hc, h₃) = >>=-next (recheck_gate env r) _ b h₂ in
      (
        a.trace,
        kill_gate-KillClear env r Phase.post_lock Context.check_kill_switch_after_lock
            Message.kill_present_after_lock s ha,
        (
          b.trace,
          cluster_gate-ClusterClear env r Phase.post_lock Context.cluster_health_under_lock a hb,
          (
            c.trace,
            recheck_gate-DetectClear b hc,
            health_gate-HealthClear env r Phase.post_lock true n Message.unhealthy_under_lock c h₃,
          ),
        ),
      )
