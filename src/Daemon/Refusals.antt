-- ===== src/Daemon/Refusals.antt =====
-- A configuration that `validate-config` refuses (cmd/clusterrebootd/main.go).
use clusterrebootd.Prelude.{ℕ, ◌≡◌, Bool, some}
use clusterrebootd.Text.{Text}
use clusterrebootd.Config.Types.{Config}
use clusterrebootd.Orchestrator.Types.{Environment}
use clusterrebootd.Detector.Probe.{Host}
use clusterrebootd.Daemon.Run.{exit_config_error}
use clusterrebootd.Daemon.Setup.{World, no_resources}
use clusterrebootd.Daemon.Commands.{Prepared}
use clusterrebootd.Daemon.Programs.{exits, command_run, command_status, command_simulate}

module _ (w : World) (connect : Prepared → Environment) (host : Host) where
  abbrev pub Refused : Text → Type 0
  Refused path =
      ((fuel : ℕ) (dry_run once : Bool)
        → command_run w connect fuel
            (some (record { config_path = path; dry_run = dry_run; once = once }))
          ≡ exits exit_config_error no_resources)
      × ((skip_health skip_lock : Bool)
          → command_status w connect (
              some
                (record { config_path = path; skip_health = skip_health; skip_lock = skip_lock }))
            ≡ exits exit_config_error no_resources)
      × (command_simulate w host (some path) ≡ exit_config_error)
