-- ===== src/Daemon/SetupProgress.antt =====
-- When the set-up of `run` goes through (cmd/clusterrebootd/main.go).
use clusterrebootd.Prelude.{
  ◌++◌, Bool-cases, inl, inr, ◌≡◌, refl, sym, true, Option, none, some, [], ◌∷◌, pos, ltb_ℤ, Result,
  ok, err, is_ok,
}
use clusterrebootd.Text.{Text, codes}
use clusterrebootd.Config.Types.{Config}
use clusterrebootd.Config.ValidateLaws.{IsValid}
use clusterrebootd.Config.Derived.{base_environment}
use clusterrebootd.Etcd.Keys.{OptionsError}
use clusterrebootd.Orchestrator.NewRunner.{new_runner}
use clusterrebootd.Daemon.Setup.{
  Resources, Setup, ◌>>=◌, or_exit, Resource, lock_client, cooldown_client, health_client,
  metrics_server, World, no_resources, load, build_etcd_tls_config,
}
use clusterrebootd.Daemon.Run.{ExitCode, exit_run_error, exit_config_error}
use clusterrebootd.Orchestrator.Failure.{Failure}
use clusterrebootd.Daemon.Managers.{
  closes_some, make_engine, make_script, dialled, open_lock, open_cooldown, open_cluster_health,
  is_some,
}
use clusterrebootd.Daemon.Commands.{
  RunFlags, enforce_dry_run, run_options, serve_metrics, set_up_run,
}
use clusterrebootd.Daemon.Usable.{
  IsReachable, IsUsable, cooldown_manager-ok, dry-IsReachable, dry-IsUsable, dry-IsValid,
  engine_lem, health_manager-ok, load-IsValid, lock_manager-ok, runner-ok, script-ok,
}

-- A step goes on, with a value of which `Q` holds.
abbrev Gives : {A : Type 0} → (A → Type 0) → Setup A → Type 0
Gives Q m = (s : Resources) → (a : _) × (t : Resources) × (m s ≡ (ok a, t)) × Q a

abbrev Passes : {A : Type 0} → Setup A → Type 0
Passes m = (s : Resources) → is_ok (m s).0 ≡ true

then-Passes :
    {A B : Type 0} (Q : A → Type 0) (m : Setup A) (f : A → Setup B)
    → Gives Q m
    → ((a : A) → Q a → Passes (f a))
    → Passes (m >>= f)
then-Passes Q m f gives h s = let (a, t, e, q) = gives s in rw e (h a q t)

or_exit-Gives :
    {E A : Type 0} (code : ExitCode) (x : Result E A)
    → is_ok x ≡ true
    → Gives (λ _. Unit {0}) (or_exit code x)
or_exit-Gives code (ok a) h s = (a, s, refl, tt)
or_exit-Gives code (err e) h s = cc

abbrev opened_and_deferred : Resource → Resources → Resources
opened_and_deferred x s = record { opened = x ∷ s.opened; deferred = x ∷ s.deferred }

module _ (w : World) (c : Config) (v : IsValid c) (u : IsUsable c) (reach : IsReachable w c) where
  dialled-ok :
      {A : Type 0} (x : Resource) (m : Result OptionsError A)
      → is_ok m ≡ true
      → (a : A) × (dialled (w.dial x) m ≡ ok a)
  unfolding dialled
  dialled-ok x (ok m) h = (m, rw (reach.dials x) refl)
  dialled-ok x (err e) h = cc

  engine-Gives : Gives (λ _. Unit {0}) (make_engine c)
  unfolding make_engine
  engine-Gives s =
      let (ds, made, engine) = engine_lem c v u in (ds, s, rw made (rw engine refl), tt)

  lock-Gives : Gives (λ _. Unit {0}) (open_lock w c)
  unfolding open_lock
  lock-Gives s =
      let (m, made) = dialled-ok lock_client _ (lock_manager-ok w c v u) in
      (m, record s { opened = lock_client ∷ s.opened }, rw made refl, tt)

  cooldown-Gives :
      Gives (λ o. is_some o ≡ ltb_ℤ (pos 0) c.min_reboot_interval_sec) (open_cooldown w c)
  unfolding open_cooldown
  cooldown-Gives s =
      let (m, made) = dialled-ok cooldown_client _ (cooldown_manager-ok c v) in
      elim (Bool-cases (ltb_ℤ (pos 0) c.min_reboot_interval_sec)) [
        | inl yes_ ↦ (
          some m,
          record s { opened = cooldown_client ∷ s.opened },
          rw yes_ (rw made refl),
          sym yes_,
        )
        | inr no_ ↦ (none, s, rw no_ refl, sym no_)
      ]

  closes_some-Gives :
      {A : Type 0} (x : Resource) (o : Option A) → Gives (λ _. Unit {0}) (closes_some x o)
  closes_some-Gives x none s = (tt, s, refl, tt)
  closes_some-Gives x (some m) s = (tt, _, refl, tt)

  cluster_health-Gives : Gives (λ _. Unit {0}) (open_cluster_health w c)
  unfolding open_cluster_health
  cluster_health-Gives s =
      let (m, made) = dialled-ok health_client _ (health_manager-ok w c v) in
      (m, opened_and_deferred health_client s, rw made refl, tt)

  listen_lem : (x : Result Failure Text) → is_ok x ≡ true → (address : Text) × (x ≡ ok address)
  listen_lem (ok address) h = (address, refl)
  listen_lem (err e) h = cc

  metrics-Gives : Gives (λ _. Unit {0}) (serve_metrics w c)
  unfolding serve_metrics
  metrics-Gives s = elim (Bool-cases c.metrics.enabled) [
    | inl yes_ ↦
        let (address, heard) = listen_lem (w.listen c.metrics.listen) (reach.listens yes_) in
        (
          base_environment c ++ (codes "RC_METRICS_ENDPOINT", address) ∷ [],
          opened_and_deferred metrics_server s,
          rw yes_ (rw heard refl),
          tt,
        )
    | inr no_ ↦ (base_environment c, s, rw no_ refl, tt)
  ]

-- The set-up of the configuration that is used.
set_up_lem :
    (w : World) (f : RunFlags) (c : Config)
    → load w f.config_path ≡ ok c
    → let d = enforce_dry_run f.dry_run c in
      IsValid d → IsUsable d → IsReachable w d → Passes (set_up_run w f)
unfolding set_up_run make_script
set_up_lem w f c loaded v u reach s =
    let d = enforce_dry_run f.dry_run c in
    rw loaded (
      then-Passes (λ _. Unit {0}) (make_engine d) _ (engine-Gives w d v u reach)
        (λ ds _.
          then-Passes (λ _. Unit {0})
            (or_exit exit_config_error (build_etcd_tls_config w d.etcd_tls)) _
            (or_exit-Gives exit_config_error _ reach.tls)
            λ _ _.
              then-Passes (λ _. Unit {0}) (open_lock w d) _ (lock-Gives w d v u reach)
                λ locker _ s.
                  then-Passes (λ o. is_some o ≡ ltb_ℤ (pos 0) d.min_reboot_interval_sec)
                    (open_cooldown w d) _ (cooldown-Gives w d v u reach)
                    (λ cooldown known.
                      then-Passes (λ _. Unit {0}) (closes_some cooldown_client cooldown) _
                        (closes_some-Gives w d v u reach cooldown_client cooldown)
                        λ _ _.
                          then-Passes (λ _. Unit {0}) (open_cluster_health w d) _
                            (cluster_health-Gives w d v u reach)
                            λ cluster _.
                              then-Passes (λ _. Unit {0}) (serve_metrics w d) _
                                (metrics-Gives w d v u reach)
                                λ variables _.
                                  then-Passes (λ _. Unit {0}) (make_script d variables) _
                                    (or_exit-Gives exit_config_error _
                                      (script-ok d _ variables v u))
                                    λ script _.
                                      then-Passes (λ _. Unit {0})
                                        (or_exit exit_run_error
                                          (new_runner d (run_options variables (is_some cooldown))))
                                        _
                                        (or_exit-Gives exit_run_error _
                                          (runner-ok d variables (is_some cooldown) v u known))
                                        λ runner _ s. refl)
                    (record s { deferred = lock_client ∷ s.deferred }))
        s)

-- The set-up of `run` goes through for every configuration that loads, whose detectors have distinct
-- names that are not blank, whose script has an absolute path, whose windows can be read, and whose
-- TTL is at most 9223372036 seconds, where the files of TLS are good, every client is dialled, and the
-- metrics listener, if there is one, starts.
pub set_up_run-succeeds :
    (w : World) (f : RunFlags) (c : Config)
    → load w f.config_path ≡ ok c
    → IsUsable c
    → IsReachable w c
    → is_ok (set_up_run w f no_resources).0 ≡ true
set_up_run-succeeds w f c loaded u reach =
    set_up_lem w f c loaded (dry-IsValid f.dry_run c (load-IsValid w f.config_path c loaded))
      (dry-IsUsable f.dry_run c u) (dry-IsReachable w f.dry_run c reach) no_resources
