-- ===== src/Daemon/Commands.antt =====
-- cmd/clusterrebootd/main.go: the set-up of `run` and of `status`. The flags are parsed by the library.
use clusterrebootd.Prelude.{
  Bool, true, false, not, Option, none, some, List, ◌∷◌, [], ◌++◌, if◌then◌else◌, pos,
}
use clusterrebootd.Text.{Text, codes}
use clusterrebootd.Config.Types.{Config}
use clusterrebootd.Config.Derived.{Variables, base_environment, set_if}
use clusterrebootd.Orchestrator.Types.{Runner}
use clusterrebootd.Orchestrator.NewRunner.{
  RunnerOption, max_lock_attempts, cluster_health_manager, cluster_health_reporting,
  cooldown_manager, lock_acquisition, command_environment, new_runner,
}
use clusterrebootd.Detector.Probe.{Detector}
use clusterrebootd.Etcd.Keys.{LockManager, CooldownManager}
use clusterrebootd.Etcd.Health.{HealthManager}
use clusterrebootd.Daemon.Run.{exit_run_error, exit_config_error}
use clusterrebootd.Daemon.Script.{ScriptRunner}
use clusterrebootd.Daemon.Setup.{
  lock_client, cooldown_client, metrics_server, World, Setup, pure, ◌>>=◌, ◌>>◌, or_exit, opens,
  closes, load, build_etcd_tls_config,
}
use clusterrebootd.Daemon.Managers.{
  make_engine, make_script, open_lock, open_cooldown, open_cluster_health, closes_some, is_some,
}

pub record RunFlags : Type 0 where
  pub config_path : Text
  pub dry_run : Bool
  pub once : Bool

pub record StatusFlags : Type 0 where
  pub config_path : Text
  pub skip_health : Bool
  pub skip_lock : Bool

-- What the runner is made of. A collaborator that is skipped is `none`.
pub record Prepared : Type 0 where
  pub config : Config
  pub engine : List Detector
  pub variables : Variables
  pub script : Option ScriptRunner
  pub locker : Option LockManager
  pub cooldown : Option CooldownManager
  pub cluster : Option HealthManager
  pub runner : Runner

-- `if *dryRun { cfg.DryRun = true }`
abbrev pub enforce_dry_run : Bool → Config → Config
enforce_dry_run true c = record c { dry_run = true }
enforce_dry_run false c = c

-- `append(options, orchestrator.WithCooldownManager(...))`, where there is one.
abbrev pub cooldown_option : Bool → List RunnerOption
cooldown_option true = cooldown_manager true ∷ []
cooldown_option false = []

abbrev pub run_options : Variables → Bool → List RunnerOption
run_options variables has_cooldown =
    command_environment variables
    ∷ (cooldown_option has_cooldown ++ cluster_health_manager true ∷ [])

abbrev pub status_options : Variables → Bool → Bool → List RunnerOption
status_options variables skip_lock has_cooldown =
    max_lock_attempts (pos 1)
    ∷ command_environment variables
    ∷ ((if skip_lock
          then lock_acquisition false (codes "lock acquisition skipped (--skip-lock)") ∷ []
          else [])
        ++ (cooldown_option has_cooldown
            ++ cluster_health_manager (not skip_lock) ∷ cluster_health_reporting false ∷ []))

module _ (w : World) where
  -- The metrics: the variables of the environment, with the address of the listener.
  unfoldable pub serve_metrics : Config → Setup Variables
  serve_metrics c =
      if c.metrics.enabled
      then (do
        address ← or_exit exit_run_error (w.listen c.metrics.listen)
        opens metrics_server
        closes metrics_server
        pure (base_environment c ++ (codes "RC_METRICS_ENDPOINT", address) ∷ []))
      else pure (base_environment c)

  unfoldable pub set_up_run : RunFlags → Setup Prepared
  set_up_run f = do
    loaded ← or_exit exit_config_error (load w f.config_path)
    let c = enforce_dry_run f.dry_run loaded
    engine ← make_engine c
    _ ← or_exit exit_config_error (build_etcd_tls_config w c.etcd_tls)
    locker ← open_lock w c
    closes lock_client
    cooldown ← open_cooldown w c
    closes_some cooldown_client cooldown
    cluster ← open_cluster_health w c
    variables ← serve_metrics c
    script ← make_script c variables
    runner ← or_exit exit_run_error (new_runner c (run_options variables (is_some cooldown)))
    pure (record {
      config = c;
      engine = engine;
      variables = variables;
      script = some script;
      locker = some locker;
      cooldown = cooldown;
      cluster = some cluster;
      runner = runner;
    })

  -- `if *skip { ... } else { ... }`
  abbrev unless : {A : Type 0} → Bool → Setup A → Setup (Option A)
  unless skip m = if skip then pure none else (do a ← m; pure (some a))

  unfoldable pub set_up_status : StatusFlags → Setup Prepared
  set_up_status f = do
    loaded ← or_exit exit_config_error (load w f.config_path)
    let c = enforce_dry_run true loaded
    engine ← make_engine c
    let variables =
        base_environment c
        ++ (set_if f.skip_health (codes "RC_SKIP_HEALTH") (codes "true")
            ++ set_if f.skip_lock (codes "RC_SKIP_LOCK") (codes "true"))
    script ← unless f.skip_health (make_script c variables)
    _ ← or_exit exit_config_error (build_etcd_tls_config w c.etcd_tls)
    locker ← unless f.skip_lock (open_lock w c)
    cooldown ← open_cooldown w c
    closes_some lock_client locker
    closes_some cooldown_client cooldown
    cluster ← unless f.skip_lock (open_cluster_health w c)
    runner ←
        or_exit exit_run_error
          (new_runner c (status_options variables f.skip_lock (is_some cooldown)))
    pure (record {
      config = c;
      engine = engine;
      variables = variables;
      script = script;
      locker = locker;
      cooldown = cooldown;
      cluster = cluster;
      runner = runner;
    })
