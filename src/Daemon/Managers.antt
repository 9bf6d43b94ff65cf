-- ===== src/Daemon/Managers.antt =====
-- cmd/clusterrebootd/main.go: the engine and the managers that `run` and `status` construct.
use clusterrebootd.Prelude.{
  Bool, true, false, Option, none, some, List, if◌then◌else◌, pos, ltb_ℤ, Result, ok, err,
}
use clusterrebootd.Text.{codes}
use clusterrebootd.Config.Types.{Config}
use clusterrebootd.Config.Derived.{Variables, lock_ttl, health_timeout}
use clusterrebootd.Orchestrator.Failure.{Failure}
use clusterrebootd.Detector.Probe.{Detector, new_all}
use clusterrebootd.Detector.Engine.{new_engine}
use clusterrebootd.Etcd.Keys.{
  OptionsError, LockOptions, LockManager, new_lock_manager, CooldownManager, new_cooldown_manager,
}
use clusterrebootd.Etcd.Health.{HealthManager, new_health_manager}
use clusterrebootd.Daemon.Run.{exit_run_error, exit_config_error}
use clusterrebootd.Daemon.Script.{ScriptRunner, new_script_runner}
use clusterrebootd.Daemon.Setup.{
  Resource, lock_client, cooldown_client, health_client, World, Setup, pure, ◌>>=◌, ◌>>◌, or_exit,
  opens, closes,
}

-- The detectors and the engine of a configuration.
unfoldable pub make_engine : Config → Setup (List Detector)
make_engine c = do
  detectors ← or_exit exit_config_error (new_all c.detectors)
  or_exit exit_config_error (new_engine detectors)

unfoldable pub make_script : Config → Variables → Setup ScriptRunner
make_script c variables =
    or_exit exit_config_error (new_script_runner c.health_script (health_timeout c) variables)

-- Why a manager is not constructed: its options, or its client.
pub data ManagerError : Type 0 where
  bad_options : OptionsError → ManagerError
  not_dialled : Failure → ManagerError

-- The client is dialled after the options are checked.
unfoldable pub dialled :
    {A : Type 0} → Option Failure → Result OptionsError A → Result ManagerError A
dialled failure (err e) = err (bad_options e)
dialled none (ok m) = ok m
dialled (some e) (ok m) = err (not_dialled e)

module _ (w : World) (c : Config) where
  abbrev pub lock_options : LockOptions
  lock_options = record {
    endpoints = c.etcd_endpoints;
    lock_key = c.lock_key;
    namespace = c.etcd_namespace;
    ttl = lock_ttl c;
    node_name = c.node_name;
    process_id = w.own_pid;
  }

  unfoldable pub open_lock : Setup LockManager
  open_lock = do
    m ←
        or_exit exit_run_error
          (dialled (w.dial lock_client) (new_lock_manager w.own_pid lock_options))
    opens lock_client
    pure m

  -- `if cfg.MinRebootIntervalSec > 0`
  unfoldable pub open_cooldown : Setup (Option CooldownManager)
  open_cooldown =
      if ltb_ℤ (pos 0) c.min_reboot_interval_sec
      then (do
        m ← or_exit exit_run_error (
            dialled (w.dial cooldown_client) (
              new_cooldown_manager c.etcd_endpoints c.etcd_namespace (codes "reboot_cooldown")
                c.node_name))
        opens cooldown_client
        pure (some m))
      else pure none

  unfoldable pub open_cluster_health : Setup HealthManager
  open_cluster_health = do
    m ← or_exit exit_run_error (
        dialled (w.dial health_client) (
          new_health_manager w.join_path c.etcd_endpoints (codes "cluster_health") c.etcd_namespace
            c.node_name))
    opens health_client
    closes health_client
    pure m

-- `if manager != nil { defer manager.Close() }`
abbrev pub closes_some : {A : Type 0} → Resource → Option A → Setup (Unit {0})
closes_some x none = pure tt
closes_some x (some m) = closes x

abbrev pub is_some : {A : Type 0} → Option A → Bool
is_some none = false
is_some (some a) = true
