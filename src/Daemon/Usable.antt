-- ===== src/Daemon/Usable.antt =====
-- What the set-up of `run` asks of a configuration and of the outside (cmd/clusterrebootd/main.go), and
-- what the constructors make of it.
use clusterrebootd.Prelude.{
  ◌≤◌, ◌≡◌, refl, sym, ap, ◌∙◌, Bool, true, false, Option, none, some, List, [], ◌∷◌, map, arith,
  is_nil, any, pos, pos_part, ltb_ℤ, Result, ok, err, is_ok,
}
use clusterrebootd.Text.{Text, codes, trim_space, is_blank, is_space}
use clusterrebootd.Text.Laws.{is_blank-cons}
use clusterrebootd.Windows.Evaluator.{new_evaluator}
use clusterrebootd.Config.Types.{Config}
use clusterrebootd.Config.Validate.{Problem, decode}
use clusterrebootd.Config.Bounds.{is_nil-map}
use clusterrebootd.Config.ValidateLaws.{IsValid, decode-IsValid}
use clusterrebootd.Config.Derived.{Variables, lock_ttl, reboot_cooldown_interval, seconds_duration}
use clusterrebootd.Config.DurationLaws.{seconds_duration_exact}
use clusterrebootd.Detector.Probe.{Detector, detector_name, new_all}
use clusterrebootd.Detector.Engine.{new_engine}
use clusterrebootd.Detector.NameLaws.{trimmed_names, are_distinct, new_engine_iff}
use clusterrebootd.Detector.ConfigLaws.{new_all-IsValid}
use clusterrebootd.Etcd.Keys.{new_lock_manager, new_cooldown_manager}
use clusterrebootd.Etcd.Health.{new_health_manager}
use clusterrebootd.Orchestrator.NewRunner.{
  apply_runner_option, apply_runner_options, initial_runner, fill_runner, new_runner,
}
use clusterrebootd.Daemon.Setup.{Resource, World, load, load_of, decoded, build_etcd_tls_config}
use clusterrebootd.Daemon.Script.{is_absolute, new_script_runner}
use clusterrebootd.Daemon.Managers.{lock_options}
use clusterrebootd.Daemon.Commands.{enforce_dry_run, run_options}

-- What the set-up asks of a configuration beyond what `Validate` checks.
pub record IsUsable (c : Config) : Type 0 where
  pub no_blank_name : any is_nil (map (λ d. trim_space d.name) c.detectors) ≡ false
  pub distinct_names : are_distinct (map (λ d. trim_space d.name) c.detectors) ≡ true
  pub script : is_absolute (trim_space c.health_script) ≡ true
  pub windows : is_ok (new_evaluator c.windows.allow c.windows.deny) ≡ true
  pub lock_ttl : pos_part c.lock_ttl_sec ≤ 9223372036

-- What it asks of the outside: the files of TLS are good, the clients are dialled, and the listener
-- starts.
pub record IsReachable (w : World) (c : Config) : Type 0 where
  pub tls : is_ok (build_etcd_tls_config w c.etcd_tls) ≡ true
  pub dials : (x : Resource) → w.dial x ≡ none
  pub listens : c.metrics.enabled ≡ true → is_ok (w.listen c.metrics.listen) ≡ true

pub map_twice :
    {A : Type 0} (name : A → Text) (cs : List A)
    → map trim_space (map name cs) ≡ map (λ c. trim_space (name c)) cs
map_twice name [] = refl
map_twice name (c ∷ cs) = rw (map_twice name cs) refl

pub trimmed_lem :
    (c : Config) (ds : List Detector)
    → map detector_name ds ≡ map (λ d. d.name) c.detectors
    → trimmed_names ds ≡ map (λ d. trim_space d.name) c.detectors
trimmed_lem c ds h =
    sym (map_twice detector_name ds) ∙ ap (map trim_space) h ∙ map_twice (λ d. d.name) c.detectors

pub lock_manager-ok :
    (w : World) (c : Config)
    → IsValid c
    → IsUsable c
    → is_ok (new_lock_manager w.own_pid (lock_options w c)) ≡ true
unfolding new_lock_manager lock_ttl
lock_manager-ok w c v u =
    let ttl_ =
      seconds_duration_exact c.lock_ttl_sec (omega (arith, v.bounds.lock_ttl)) u.lock_ttl in
    ground (arith, ttl_, v.endpoints, v.lock_key, v.node_name, v.bounds.lock_ttl)

pub key_not_blank : is_blank (codes "reboot_cooldown") ≡ false
unfolding is_space
key_not_blank = is_blank-cons b'r' (codes "eboot_cooldown") refl

pub cooldown_manager-ok :
    (c : Config)
    → IsValid c
    → is_ok (
        new_cooldown_manager c.etcd_endpoints c.etcd_namespace
          (codes "reboot_cooldown")
          c.node_name)
      ≡ true
unfolding new_cooldown_manager
cooldown_manager-ok c v = ground (arith, key_not_blank, v.endpoints, v.node_name)

pub health_manager-ok :
    (w : World) (c : Config)
    → IsValid c
    → is_ok (
        new_health_manager w.join_path c.etcd_endpoints
          (codes "cluster_health")
          c.etcd_namespace
          c.node_name)
      ≡ true
unfolding new_health_manager
health_manager-ok w c v = ground (arith, v.endpoints, v.node_name)

pub script-ok :
    (c : Config) (t : _) (variables : Variables)
    → IsValid c
    → IsUsable c
    → is_ok (new_script_runner c.health_script t variables) ≡ true
unfolding new_script_runner
script-ok c t variables v u = ground (arith, v.health_script, u.script)

pub runner-ok :
    (c : Config) (variables : Variables) (has_cooldown : Bool)
    → IsValid c
    → IsUsable c
    → has_cooldown ≡ ltb_ℤ (pos 0) c.min_reboot_interval_sec
    → is_ok (new_runner c (run_options variables has_cooldown)) ≡ true
unfolding new_runner apply_runner_options apply_runner_option initial_runner fill_runner
    reboot_cooldown_interval seconds_duration
runner-ok c variables has_cooldown v u h = ground (arith, u.windows, h, v.bounds.reboot_interval)

pub engine_lem :
    (c : Config)
    → IsValid c
    → IsUsable c
    → (ds : List Detector) × (new_all c.detectors ≡ ok ds) × (new_engine ds ≡ ok ds)
engine_lem c v u =
    let (ds, made, named) = new_all-IsValid c v in
    let names = trimmed_lem c ds named in
    (
      ds,
      made,
      (new_engine_iff ds).1 (
        sym (is_nil-map detector_name ds)
            ∙ ap is_nil named
            ∙ is_nil-map (λ d. d.name) c.detectors
            ∙ v.some_detector,
        ap (any is_nil) names ∙ u.no_blank_name,
        ap are_distinct names ∙ u.distinct_names,
      ),
    )

-- A configuration that loads is valid.
pub result_lem : (x : Result (List Problem) Config) (c : Config) → decoded x ≡ ok c → x ≡ ok c
result_lem (ok d) c h = cc
result_lem (err ps) c h = cc

pub decoded_lem : (x : Option Config) (c : Config) → load_of x ≡ ok c → IsValid c
decoded_lem none c h = cc
decoded_lem (some raw) c h = (decode-IsValid raw c (result_lem (decode raw) c h)).1

pub load-IsValid : (w : World) (path : Text) (c : Config) → load w path ≡ ok c → IsValid c
unfolding load
load-IsValid w path c h = decoded_lem (w.read_config path) c h

-- The two tests of a flag and the configuration do not change what is asked.
pub dry-IsValid : (b : Bool) (c : Config) → IsValid c → IsValid (enforce_dry_run b c)
dry-IsValid false c v = v
dry-IsValid true c v = record {
  node_name = v.node_name;
  some_detector = v.some_detector;
  detectors = v.detectors;
  health_script = v.health_script;
  bounds = record {
    health_timeout = v.bounds.health_timeout;
    publish_interval = v.bounds.publish_interval;
    check_interval = v.bounds.check_interval;
    backoff_min = v.bounds.backoff_min;
    backoff_order = v.bounds.backoff_order;
    reboot_interval = v.bounds.reboot_interval;
    lock_ttl = v.bounds.lock_ttl;
  };
  lock_key = v.lock_key;
  endpoints = v.endpoints;
  tls = v.tls;
  reboot_command = v.reboot_command;
  fraction = v.fraction;
  absolute = v.absolute;
  metrics = v.metrics;
}

pub dry-IsUsable : (b : Bool) (c : Config) → IsUsable c → IsUsable (enforce_dry_run b c)
dry-IsUsable false c u = u
dry-IsUsable true c u = record {
  no_blank_name = u.no_blank_name;
  distinct_names = u.distinct_names;
  script = u.script;
  windows = u.windows;
  lock_ttl = u.lock_ttl;
}

pub dry-IsReachable :
    (w : World) (b : Bool) (c : Config) → IsReachable w c → IsReachable w (enforce_dry_run b c)
dry-IsReachable w false c h = h
dry-IsReachable w true c h = record { tls = h.tls; dials = h.dials; listens = h.listens }
