-- ===== src/Orchestrator/Gates.antt =====
-- The steps of `RunOnce` (pkg/orchestrator/runner.go) that can end a pass, each with the call that
-- it makes. What a call records for the observers is a function of the trace.
use clusterrebootd.Prelude.{
  ℕ, Bool, false, not, ◌&&◌, Option, none, some, List, [], ◌∷◌, if◌then◌else◌, is_nil, ℤ, pos,
  ltb_ℤ, leb_ℤ,
}
use clusterrebootd.Text.{codes}
use clusterrebootd.Windows.Evaluator.{Evaluator, Decision, evaluate}
use clusterrebootd.Orchestrator.Command.{expand_command}
use clusterrebootd.Orchestrator.Failure.{Failure, Context, wrap}
use clusterrebootd.Orchestrator.Types.{
  Record, Phase, monitor, post_lock, HealthResult, HealthEnv, CooldownStatus, Reason, Status,
  Message, Outcome, Call, Environment, Runner, Nanos, Trace,
}
use clusterrebootd.Orchestrator.Policies.{policy_reasons, filter_records}
use clusterrebootd.Orchestrator.Flow.{
  M, pure, ◌>>=◌, ◌>>◌, log, ask, modify, raise, raise_raw, finish, finish_if,
}

-- `res.ExitCode == 0`
abbrev pub healthy_exit : HealthResult → Bool
healthy_exit res = leb_ℤ res.exit_code (pos 0) && leb_ℤ (pos 0) res.exit_code

module _ (env : Environment) (r : Runner) where
  -- The checks of the kill switch, before the lock and under it.
  unfoldable pub kill_gate : Phase → Context → Message → M (Unit {0})
  kill_gate phase context present = do
    (active, failure) ← ask env.check_kill
    log (Call.kill_checked phase active failure)
    raise context failure
    finish_if active Status.kill_switch present

  unfoldable pub decision_gate : Decision → M (Unit {0})
  decision_gate d = if d.allowed then pure tt else elim d.matched_deny [
    | some expr ↦ finish Status.window_denied (Message.denied_by expr)
    | none ↦ finish Status.window_outside Message.outside_allow
  ]

  unfoldable pub window_of : Option Evaluator → M (Unit {0})
  unfolding decision_gate
  window_of none = pure tt
  window_of (some w) = do
    now ← ask env.clock
    log (Call.window_checked (evaluate w now))
    decision_gate (evaluate w now)

  -- `if r.windows != nil`
  unfoldable pub window_gate : M (Unit {0})
  unfolding window_of
  window_gate = window_of r.windows

  -- `evaluateDetectorsWithObservability`, its results put into the outcome: whether they ask for a
  -- reboot.
  unfoldable pub detect : Phase → Context → M Bool
  detect phase context = do
    (requires, results, failure) ← ask env.detect
    log (Call.detected phase requires results failure)
    modify (elim phase [
      | post_lock ↦ λ o. record o { post_lock_detector_results = results }
      | _ ↦ λ o. record o { detector_results = results }
    ])
    raise context failure
    pure requires

  -- `updateClusterHealth`
  unfoldable pub update_cluster_health : Phase → HealthResult → M (Option Failure)
  update_cluster_health phase res =
      if r.has_cluster_health && r.health_reporting
      then (do
        failure ← ask (λ t.
            if healthy_exit res
            then env.report_healthy t
            else env.report_unhealthy t (record { stage = phase; exit_code = res.exit_code }))
        log (Call.health_reported phase (healthy_exit res) res.exit_code failure)
        pure failure)
      else pure none

  abbrev wrapped : Context → Option Failure → Option Failure
  wrapped context none = none
  wrapped context (some e) = some (wrap context e)

  unfoldable pub after_health : Phase → HealthResult → Option Failure → M (Option Failure)
  unfolding update_cluster_health
  after_health phase res (some e) = pure (some (wrap Context.health_check e))
  after_health phase res none = do
    failure ← update_cluster_health phase res
    pure (wrapped Context.record_cluster_health failure)

  abbrev pub health_env_of : Phase → Bool → ℕ → HealthEnv
  health_env_of phase lock_held lock_attempts = record {
    phase = phase;
    node_name = r.node_name;
    lock_enabled = r.lock_enabled;
    lock_held = lock_held;
    lock_attempts = lock_attempts;
  }

  -- `runHealthAndUpdate` and, inside it, `runHealthWithObservability`: the result and the error.
  unfoldable pub run_health_and_update : Phase → Bool → ℕ → M (HealthResult × Option Failure)
  unfolding after_health
  run_health_and_update phase lock_held lock_attempts = do
    let health_env = health_env_of phase lock_held lock_attempts
    (res, failure) ← ask (λ t. env.run_health t health_env)
    log (Call.health_ran health_env res failure)
    result ← after_health phase res failure
    pure (res, result)

  abbrev set_health : Phase → HealthResult → Outcome → Outcome
  set_health post_lock res o = record o {
    post_lock_health = some res;
    post_lock_health_phase = some post_lock;
  }
  set_health phase res o = record o {
    pre_lock_health = some res;
    pre_lock_health_phase = some phase;
  }

  -- What comes of a health run: its failure or its non-zero exit ends the pass.
  unfoldable pub judge_health : Phase → (ℤ → Message) → HealthResult × Option Failure → M (Unit {0})
  judge_health phase blocked (res, failure) = do
    modify (set_health phase res)
    raise_raw failure
    finish_if (not (healthy_exit res)) Status.health_blocked (blocked res.exit_code)

  unfoldable pub health_gate : Phase → Bool → ℕ → (ℤ → Message) → M (Unit {0})
  health_gate phase lock_held lock_attempts blocked = do
    result ← run_health_and_update phase lock_held lock_attempts
    judge_health phase blocked result

  -- `if !requires`: a monitoring run of the health script, and no reboot.
  unfoldable pub no_reboot : M (Unit {0})
  no_reboot = do
    health_gate monitor false 0 Message.unhealthy_monitoring
    finish Status.no_action Message.no_detectors

  -- `inspectClusterHealth`
  unfoldable pub inspect : Phase → Context → M (List Record)
  inspect phase context =
      if r.has_cluster_health
      then (do
        (records, failure) ← ask env.cluster_status
        log (Call.inspected phase records failure)
        raise context failure
        pure records)
      else pure []

  -- `evaluateClusterPolicies`, where it blocks.
  unfoldable pub policies_of : List Record → List Reason → M (Unit {0})
  policies_of records [] = pure tt
  policies_of records (reason ∷ reasons) = do
    modify (λ o. record o { cluster_unhealthy = filter_records records r.node_name })
    finish Status.health_blocked (Message.policies_block (reason ∷ reasons))

  unfoldable pub policy_gate : List Record → M (Unit {0})
  unfolding policies_of
  policy_gate records = policies_of records (policy_reasons r.node_name r.policies records)

  unfoldable pub cluster_gate : Phase → Context → M (Unit {0})
  cluster_gate phase context = do records ← inspect phase context; policy_gate records

  -- The time left that the message gives.
  time_left : Trace → CooldownStatus → Option Nanos
  time_left t status =
      let remaining =
        if leb_ℤ status.remaining (pos 0)
        then elim status.expires_at [
          | none ↦ status.remaining
          | some expiry ↦ env.time_until t expiry
        ]
        else status.remaining in
      if ltb_ℤ (pos 0) remaining then some remaining else none

  cooldown_message : Trace → CooldownStatus → Message
  unfolding time_left
  cooldown_message t status =
      Message.cooling_down (time_left t status)
        (if is_nil status.node then none else some status.node)

  unfoldable pub cooldown_enabled : Bool
  cooldown_enabled = ltb_ℤ (pos 0) r.cooldown_window && r.has_cooldown

  -- `if r.cooldownWindow > 0 && r.cooldown != nil`
  unfoldable pub cooldown_gate : M (Unit {0})
  unfolding cooldown_message
  cooldown_gate =
      if cooldown_enabled
      then (do
        (status, failure) ← ask env.cooldown_status
        log (Call.cooldown_checked status failure)
        raise Context.check_reboot_cooldown failure
        message ← ask (λ t. cooldown_message t status)
        finish_if status.active Status.cooldown_active message)
      else pure tt

  unfoldable pub set_command : Outcome → Outcome
  set_command o = record o {
    dry_run = r.dry_run;
    command = expand_command env.getenv r.reboot_command r.command_env;
  }

  -- `if !r.lockEnabled`
  unfoldable pub lock_enabled_gate : M (Unit {0})
  lock_enabled_gate = if r.lock_enabled then pure tt else do
    modify set_command
    finish Status.lock_skipped (
        Message.skipped_because (
          if is_nil r.lock_skip_reason
          then codes "lock acquisition disabled"
          else r.lock_skip_reason))
