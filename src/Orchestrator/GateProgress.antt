-- ===== src/Orchestrator/GateProgress.antt =====
-- The steps of a pass go on where the answers are favourable (pkg/orchestrator/runner.go).
use clusterrebootd.Prelude.{
  ℕ, suc, ◌≡◌, refl, Bool, true, false, ◌&&◌, Option, none, some, [], inl, inr, Bool-cases, ltb,
  zero, ℤ,
}
use clusterrebootd.Windows.Evaluator.{Evaluator}
use clusterrebootd.Orchestrator.Failure.{Failure, Context}
use clusterrebootd.Orchestrator.Types.{Phase, Message, Environment, Runner, HealthResult}
use clusterrebootd.Orchestrator.Flow.{pure}
use clusterrebootd.Orchestrator.Policies.{policy_reasons}
use clusterrebootd.Orchestrator.Gates.{
  healthy_exit, kill_gate, decision_gate, window_of, window_gate, detect, update_cluster_health,
  after_health, run_health_and_update, judge_health, health_gate, inspect, policies_of, policy_gate,
  cluster_gate, cooldown_enabled, cooldown_gate, lock_enabled_gate, health_env_of,
}
use clusterrebootd.Orchestrator.Lock.{attempt_of, after_attempt, acquire_from, acquire_lock}
use clusterrebootd.Orchestrator.RunOnce.{
  detector_gate, before_lock, lock_gate, recheck_gate, checks_under_lock,
}
use clusterrebootd.Orchestrator.Favourable.{IsAllowing, IsFavourable, Goes, Any, >>=-Goes, >>-Goes}

module _ (env : Environment) (r : Runner) (fav : IsFavourable env r) where
  kill_gate-Goes :
      (phase : Phase) (c : Context) (present : Message) → Goes Any (kill_gate env r phase c present)
  unfolding kill_gate
  kill_gate-Goes phase c present s = rw (fav.kill s.trace) tt

  window_of-Goes : (w : Option Evaluator) → IsAllowing env w → Goes Any (window_of env r w)
  unfolding window_of decision_gate
  window_of-Goes none h s = tt
  window_of-Goes (some w) h s = rw (h s.trace) tt

  window_gate-Goes : Goes Any (window_gate env r)
  unfolding window_gate
  window_gate-Goes = window_of-Goes r.windows fav.windows

  detect-Goes : (phase : Phase) (c : Context) → Goes (λ b. b ≡ true) (detect env r phase c)
  unfolding detect
  detect-Goes phase c s = rw ((fav.detectors s.trace).1) ((fav.detectors s.trace).0)

  detector_gate-Goes : Goes Any (detector_gate env r)
  unfolding detector_gate
  detector_gate-Goes =
      >>=-Goes (λ b. b ≡ true) Any (detect env r Phase.pre_lock Context.detector_evaluation) _
        (detect-Goes Phase.pre_lock Context.detector_evaluation) (λ b asked s. rw asked tt)

  recheck_gate-Goes : Goes Any (recheck_gate env r)
  unfolding recheck_gate
  recheck_gate-Goes =
      >>=-Goes (λ b. b ≡ true) Any
        (detect env r Phase.post_lock Context.post_lock_detector_evaluation) _
        (detect-Goes Phase.post_lock Context.post_lock_detector_evaluation)
        (λ b asked s. rw asked tt)

  inspect-Goes :
      (phase : Phase) (c : Context)
      → Goes (λ records. policy_reasons r.node_name r.policies records ≡ []) (inspect env r phase c)
  unfolding inspect
  inspect-Goes phase c s = elim (Bool-cases r.has_cluster_health) [
    | inl there ↦ rw there (rw ((fav.cluster s.trace).0) ((fav.cluster s.trace).1))
    | inr missing ↦ rw missing fav.alone
  ]

  cluster_gate-Goes : (phase : Phase) (c : Context) → Goes Any (cluster_gate env r phase c)
  unfolding cluster_gate policy_gate policies_of
  cluster_gate-Goes phase c =
      >>=-Goes (λ records. policy_reasons r.node_name r.policies records ≡ []) Any
        (inspect env r phase c) _ (inspect-Goes phase c) (λ records allowed s. rw allowed tt)

  cooldown_gate-Goes : Goes Any (cooldown_gate env r)
  unfolding cooldown_gate
  cooldown_gate-Goes s = elim (Bool-cases (cooldown_enabled env r)) [
    | inl enabled ↦ rw enabled (rw ((fav.cooldown s.trace).1, (fav.cooldown s.trace).0) tt)
    | inr disabled ↦ rw disabled tt
  ]

  lock_enabled_gate-Goes : Goes Any (lock_enabled_gate env r)
  unfolding lock_enabled_gate
  lock_enabled_gate-Goes s = rw fav.locks tt

  after_health-Goes :
      (phase : Phase) (res : HealthResult)
      → healthy_exit res ≡ true
      → Goes (λ failure. failure ≡ none) (after_health env r phase res none)
  unfolding after_health update_cluster_health
  after_health-Goes phase res healthy s =
      elim (Bool-cases (r.has_cluster_health && r.health_reporting)) [
        | inl publishes ↦ rw publishes (rw healthy (rw (fav.reported s.trace) refl))
        | inr silent ↦ rw silent refl
      ]

  run_health-Goes :
      (phase : Phase) (held : Bool) (attempts : ℕ)
      → Goes
          (λ x. (healthy_exit x.0 ≡ true) × (x.1 ≡ none))
          (run_health_and_update env r phase held attempts)
  unfolding run_health_and_update
  run_health-Goes phase held attempts s =
      let given = health_env_of env r phase held attempts in
      let (healthy, fine) = fav.health s.trace given in
      let res = (env.run_health s.trace given).0 in
      rw fine (
        >>=-Goes (λ failure. failure ≡ none) (λ x. (healthy_exit x.0 ≡ true) × (x.1 ≡ none))
          (after_health env r phase res none) (λ failure. pure (res, failure))
          (after_health-Goes phase res healthy) (λ failure none_there s1. (healthy, none_there)) _)

  judge_health-Goes :
      (phase : Phase) (blocked : ℤ → Message) (x : HealthResult × Option Failure)
      → (healthy_exit x.0 ≡ true) × (x.1 ≡ none)
      → Goes Any (judge_health env r phase blocked x)
  unfolding judge_health
  judge_health-Goes phase blocked x h s = rw (h.1, h.0) tt

  health_gate-Goes :
      (phase : Phase) (held : Bool) (attempts : ℕ) (blocked : ℤ → Message)
      → Goes Any (health_gate env r phase held attempts blocked)
  unfolding health_gate
  health_gate-Goes phase held attempts blocked =
      >>=-Goes (λ x. (healthy_exit x.0 ≡ true) × (x.1 ≡ none)) Any
        (run_health_and_update env r phase held attempts) _ (run_health-Goes phase held attempts)
        (judge_health-Goes phase blocked)

  acquire_from-Goes :
      (left attempt : ℕ)
      → ltb 0 left ≡ true
      → Goes (λ x. x.0 ≡ true) (acquire_from env r left attempt)
  unfolding acquire_from attempt_of after_attempt
  acquire_from-Goes zero attempt h s = cc
  acquire_from-Goes (suc left) attempt h s = rw (fav.free s.trace) refl

  pub lock_gate-Goes : Goes Any (lock_gate env r)
  unfolding lock_gate acquire_lock
  lock_gate-Goes =
      >>=-Goes (λ x. x.0 ≡ true) Any (acquire_lock env r) _
        (acquire_from-Goes r.max_lock_tries 0 fav.tries) (λ x got s. rw got tt)

  pub before_lock-Goes : Goes Any (before_lock env r)
  unfolding before_lock
  before_lock-Goes =
      >>-Goes _ _ (kill_gate-Goes Phase.pre_lock Context.check_kill_switch Message.kill_present) (
        >>-Goes _ _ window_gate-Goes (
          >>-Goes _ _ detector_gate-Goes (
            >>-Goes _ _ (cluster_gate-Goes Phase.pre_lock Context.cluster_health_before_lock) (
              >>-Goes _ _ (health_gate-Goes Phase.pre_lock false 0 Message.unhealthy_before_lock)
                (>>-Goes _ _ cooldown_gate-Goes lock_enabled_gate-Goes)))))

  pub checks_under_lock-Goes : (attempts : ℕ) → Goes Any (checks_under_lock env r attempts)
  unfolding checks_under_lock
  checks_under_lock-Goes attempts =
      >>-Goes _ _
        (kill_gate-Goes Phase.post_lock Context.check_kill_switch_after_lock
          Message.kill_present_after_lock)
        (>>-Goes _ _ (cluster_gate-Goes Phase.post_lock Context.cluster_health_under_lock) (
          >>-Goes _ _ recheck_gate-Goes
            (health_gate-Goes Phase.post_lock true attempts Message.unhealthy_under_lock)))
