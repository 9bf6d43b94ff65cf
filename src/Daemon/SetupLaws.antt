-- ===== src/Daemon/SetupLaws.antt =====
-- What the set-up of the commands opens and closes, and what it makes (cmd/clusterrebootd/main.go).
use clusterrebootd.Prelude.{
  ◌≡◌, Bool, true, false, not, ◌&&◌, ◌||◌, List, [], ◌∷◌, arith, Result, ok, err, ◌⊎◌,
}
use clusterrebootd.Config.Types.{Config}
use clusterrebootd.Orchestrator.NewRunner.{RunnerOption, new_runner}
use clusterrebootd.Daemon.Run.{ExitCode, exit_run_error}
use clusterrebootd.Daemon.Setup.{lock_client, Resources, no_resources, World, load}
use clusterrebootd.Daemon.Managers.{
  make_engine, make_script, open_lock, open_cooldown, open_cluster_health, is_some,
}
use clusterrebootd.Daemon.Commands.{
  RunFlags, StatusFlags, Prepared, enforce_dry_run, run_options, status_options, serve_metrics,
  set_up_run, set_up_status,
}

-- All that is opened is to be closed, the last first.
abbrev pub Balanced : Resources → Type 0
Balanced s = s.opened ≡ s.deferred

-- The configuration asks for a dry run, or the flag does.
abbrev dry_config : {E : Type 0} → Result E Config → Bool
dry_config (ok c) = c.dry_run
dry_config (err e) = false

abbrev pub is_dry : World → RunFlags → Bool
is_dry w f = f.dry_run || dry_config (load w f.config_path)

-- The client of the lock is left open, where the cooldown manager is not constructed.
abbrev pub Leaks : Result ExitCode Prepared × Resources → Type 0
Leaks (x, s) = (x ≡ err exit_run_error) × (s.opened ≡ lock_client ∷ []) × (s.deferred ≡ [])

-- The runner is made from the configuration that is used, with the options of the command.
abbrev pub Makes :
    Bool → (Prepared → List RunnerOption) → Result ExitCode Prepared × Resources → Type 0
Makes dry options (err code, s) = Unit
Makes dry options (ok p, s) =
    ((dry && not p.config.dry_run) ≡ false) × (new_runner p.config (options p) ≡ ok p.runner)

abbrev pub options_of_run : Prepared → List RunnerOption
options_of_run p = run_options p.variables (is_some p.cooldown)

abbrev pub options_of_status : Bool → Prepared → List RunnerOption
options_of_status skip_lock p = status_options p.variables skip_lock (is_some p.cooldown)

-- The runner of `run` is made from this configuration, with the options of the command.
abbrev pub IsMadeOf : Config → Result ExitCode Prepared × Resources → Type 0
IsMadeOf c (err code, s) = Unit
IsMadeOf c (ok p, s) = (p.config ≡ c) × (new_runner c (options_of_run p) ≡ ok p.runner)

module _ (w : World) where
  pub set_up_run-Balanced :
      (f : RunFlags) (s : Resources) → Balanced s → Balanced (set_up_run w f s).1
  unfolding set_up_run open_lock make_engine make_script open_cooldown open_cluster_health
      serve_metrics
  set_up_run-Balanced f s p = ground (arith, p)

  pub set_up_status-Balanced :
      (f : StatusFlags)
      → let x = set_up_status w f no_resources in Balanced x.1 ⊎ ((f.skip_lock ≡ false) × Leaks x)
  unfolding set_up_status open_lock make_engine make_script open_cooldown open_cluster_health
  set_up_status-Balanced f = ground arith

  pub set_up_run-Makes :
      (f : RunFlags) (s : Resources) → Makes (is_dry w f) options_of_run (set_up_run w f s)
  unfolding set_up_run open_lock make_engine make_script open_cooldown open_cluster_health
      serve_metrics
  set_up_run-Makes f s = ground arith

  pub set_up_status-Makes :
      (f : StatusFlags) (s : Resources)
      → Makes true (options_of_status f.skip_lock) (set_up_status w f s)
  unfolding set_up_status open_lock make_engine make_script open_cooldown open_cluster_health
  set_up_status-Makes f s = ground arith

  pub set_up_run-IsMadeOf :
      (f : RunFlags) (c : Config) (s : Resources)
      → load w f.config_path ≡ ok c
      → IsMadeOf (enforce_dry_run f.dry_run c) (set_up_run w f s)
  unfolding set_up_run open_lock make_engine make_script open_cooldown open_cluster_health
      serve_metrics
  set_up_run-IsMadeOf f c s loaded = ground (arith, loaded)
