-- ===== src/Orchestrator/Cleared.antt =====
-- What the checks of a pass (`RunOnce` of pkg/orchestrator/runner.go) answered, where it went on
-- after them.
use clusterrebootd.Prelude.{
  ℕ, ◌≡◌, sym, subst, ◌∙◌, ℤ, ◌⊎◌, Bool, true, false, ◌&&◌, Option, none, some, List, [], ◌∷◌,
  arith, if◌then◌else◌, Bool-cases, inl, inr,
}
use clusterrebootd.Windows.Evaluator.{evaluate}
use clusterrebootd.Orchestrator.Failure.{Failure, Context}
use clusterrebootd.Orchestrator.Types.{
  Record, Phase, HealthResult, DetectorResult, CooldownStatus, Message, Call, Trace, Environment,
  Runner,
}
use clusterrebootd.Orchestrator.Policies.{policy_reasons}
use clusterrebootd.Orchestrator.Flow.{State, Exit, M, ◌>>=◌, >>=-cases}
use clusterrebootd.Orchestrator.Gates.{
  healthy_exit, kill_gate, window_gate, detect, update_cluster_health, health_env_of,
  run_health_and_update, health_gate, judge_health, inspect, policy_gate, cluster_gate,
  cooldown_enabled, cooldown_gate, lock_enabled_gate,
}

-- A chain that goes on has a first step that goes on.
pub >>=-next :
    {A B : Type 0} (m : M A) (f : A → M B) (s : State) {b : B} {u : State}
    → (m >>= f) s ≡ (Exit.next b, u)
    → (a : A) × (t : State) × (m s ≡ (Exit.next a, t)) × (f a t ≡ (Exit.next b, u))
>>=-next m f s {b} {u} =
    >>=-cases
      (λ x.
        x ≡ (Exit.next b, u)
        → (a : _) × (t : State) × (m s ≡ (Exit.next a, t)) × (f a t ≡ (Exit.next b, u)))
      m f s (λ a t e h. (a, t, e, h)) (λ t e h. cc) (λ x t e h. cc)

-- Of the trace before a check and the trace after it: the switch was off.
abbrev pub KillClear : Phase → Trace → Trace → Type 0
KillClear phase t u = u ≡ Call.kill_checked phase false none ∷ t

-- The detectors asked for a reboot.
abbrev pub DetectClear : Phase → Trace → Trace → Type 0
DetectClear phase t u =
    (results : List DetectorResult) × (u ≡ Call.detected phase true results none ∷ t)

-- The status of the cluster was read, and no policy blocks, where there is such a status.
abbrev pub ClusterClear : Runner → Phase → Trace → Trace → Type 0
ClusterClear r phase t u =
    (records : List Record) × (policy_reasons r.node_name r.policies records ≡ [])
    × (u ≡ (if r.has_cluster_health then Call.inspected phase records none ∷ t else t))

module _ (env : Environment) (r : Runner) where
  -- The health script ended with 0, which was reported where reporting is on.
  abbrev pub HealthClear : Phase → Bool → ℕ → Trace → Trace → Type 0
  HealthClear phase lock_held attempts t u =
      (res : HealthResult) × (healthy_exit res ≡ true)
      × (u ≡ (
          if r.has_cluster_health && r.health_reporting
          then Call.health_reported phase true res.exit_code none
            ∷ Call.health_ran (health_env_of env r phase lock_held attempts) res none
            ∷ t
          else Call.health_ran (health_env_of env r phase lock_held attempts) res none ∷ t))

  -- No cooldown is configured, or none was active.
  abbrev pub CooldownClear : Trace → Trace → Type 0
  CooldownClear t u =
      ((cooldown_enabled env r ≡ false) × (u ≡ t))
      ⊎ ((status : CooldownStatus) × (status.active ≡ false)
          × (u ≡ Call.cooldown_checked status none ∷ t))

  -- There are no windows, or they allow the instant of the check.
  abbrev pub WindowClear : Trace → Trace → Type 0
  WindowClear t u = elim r.windows [
    | none ↦ u ≡ t
    | some w ↦
        ((evaluate w (env.clock t)).allowed ≡ true)
        × (u ≡ Call.window_checked (evaluate w (env.clock t)) ∷ t)
  ]

  pub kill_gate-KillClear :
      (phase : Phase) (context : Context) (m : Message) (s : State) {u : State}
      → kill_gate env r phase context m s ≡ (Exit.next tt, u)
      → KillClear phase s.trace u.trace
  unfolding kill_gate
  kill_gate-KillClear phase context m s h = ground (arith, h)

  pub window_gate-WindowClear :
      (s : State) {u : State}
      → window_gate env r s ≡ (Exit.next tt, u)
      → WindowClear s.trace u.trace
  unfolding window_gate
  window_gate-WindowClear s h = ground (arith, h)

  pub detect-DetectClear :
      (phase : Phase) (context : Context) (s : State) {u : State}
      → detect env r phase context s ≡ (Exit.next true, u)
      → DetectClear phase s.trace u.trace
  unfolding detect
  detect-DetectClear phase context s h = ((env.detect s.trace).1, ground (arith, h))

  policy_gate-next :
      (records : List Record) (s : State) {u : State}
      → policy_gate env r records s ≡ (Exit.next tt, u)
      → (policy_reasons r.node_name r.policies records ≡ []) × (u ≡ s)
  unfolding policy_gate
  policy_gate-next records s h = ground (arith, h)

  inspect-next :
      (phase : Phase) (context : Context) (s : State) {records : List Record} {u : State}
      → inspect env r phase context s ≡ (Exit.next records, u)
      → u.trace
        ≡ (if r.has_cluster_health then Call.inspected phase records none ∷ s.trace else s.trace)
  unfolding inspect
  inspect-next phase context s h = ground (arith, h)

  pub cluster_gate-ClusterClear :
      (phase : Phase) (context : Context) (s : State) {u : State}
      → cluster_gate env r phase context s ≡ (Exit.next tt, u)
      → ClusterClear r phase s.trace u.trace
  unfolding cluster_gate
  cluster_gate-ClusterClear phase context s h =
      let (records, t, inspected_, passed_) = >>=-next (inspect env r phase context) _ s h in
      let clear = policy_gate-next records t passed_ in
      (
        records,
        clear.0,
        subst
            (λ x. x.trace ≡ (
              if r.has_cluster_health
              then Call.inspected phase records none ∷ s.trace
              else s.trace))
            (sym clear.1) (inspect-next phase context s inspected_),
      )

  run_health-next :
      (phase : Phase) (lock_held : Bool) (attempts : ℕ) (s : State) {res : HealthResult} {u : State}
      → run_health_and_update env r phase lock_held attempts s ≡ (Exit.next (res, none), u)
      → healthy_exit res ≡ true
      → u.trace ≡ (
          if r.has_cluster_health && r.health_reporting
          then Call.health_reported phase true res.exit_code none
            ∷ Call.health_ran (health_env_of env r phase lock_held attempts) res none
            ∷ s.trace
          else Call.health_ran (health_env_of env r phase lock_held attempts) res none ∷ s.trace)
  unfolding run_health_and_update update_cluster_health
  run_health-next phase lock_held attempts s h healthy_ = ground (arith, h, healthy_)

  judge_health-next :
      (phase : Phase) (blocked : ℤ → Message) (res : HealthResult) (failure : Option Failure)
      (s : State) {u : State}
      → judge_health env r phase blocked (res, failure) s ≡ (Exit.next tt, u)
      → (failure ≡ none) × (healthy_exit res ≡ true) × (u.trace ≡ s.trace)
  unfolding judge_health
  judge_health-next phase blocked res none s h = ground (arith, h)
  judge_health-next phase blocked res (some e) s h = ground (arith, h)

  judged-HealthClear :
      (phase : Phase) (lock_held : Bool) (attempts : ℕ) (blocked : ℤ → Message) (s t : State)
      (result : HealthResult × Option Failure) {u : State}
      → run_health_and_update env r phase lock_held attempts s ≡ (Exit.next result, t)
      → judge_health env r phase blocked result t ≡ (Exit.next tt, u)
      → HealthClear phase lock_held attempts s.trace u.trace
  judged-HealthClear phase lock_held attempts blocked s t (res, some e) ran_ passed_ =
      let impossible = (judge_health-next phase blocked res (some e) t passed_).0 in cc
  judged-HealthClear phase lock_held attempts blocked s t (res, none) ran_ passed_ =
      let (_, healthy_, same) = judge_health-next phase blocked res none t passed_ in
      (res, healthy_, same ∙ run_health-next phase lock_held attempts s ran_ healthy_)

  pub health_gate-HealthClear :
      (phase : Phase) (lock_held : Bool) (attempts : ℕ) (blocked : ℤ → Message) (s : State)
      {u : State}
      → health_gate env r phase lock_held attempts blocked s ≡ (Exit.next tt, u)
      → HealthClear phase lock_held attempts s.trace u.trace
  unfolding health_gate
  health_gate-HealthClear phase lock_held attempts blocked s h =
      let (result, t, ran_, passed_) =
        >>=-next (run_health_and_update env r phase lock_held attempts) _ s h in
      judged-HealthClear phase lock_held attempts blocked s t result ran_ passed_

  pub cooldown_gate-CooldownClear :
      (s : State) {u : State}
      → cooldown_gate env r s ≡ (Exit.next tt, u)
      → CooldownClear s.trace u.trace
  unfolding cooldown_gate
  cooldown_gate-CooldownClear s h = elim (Bool-cases (cooldown_enabled env r)) [
    | inl on ↦ inr ((env.cooldown_status s.trace).0, ground (arith, h, on), ground (arith, h, on))
    | inr off ↦ inl (off, ground (arith, h, off))
  ]

  pub lock_enabled_gate-next :
      (s : State) {u : State}
      → lock_enabled_gate env r s ≡ (Exit.next tt, u)
      → (r.lock_enabled ≡ true) × (u ≡ s)
  unfolding lock_enabled_gate
  lock_enabled_gate-next s h = ground (arith, h)
