-- ===== src/Daemon/Tests.antt =====
-- The commands with a concrete configuration and outside.
use clusterrebootd.Prelude.{◌∷◌}
use clusterrebootd.Prelude.{
  ◌≤◌, ◌≡◌, refl, true, false, Option, none, some, [], ◌∷◌, ok, ◌⊎◌, inl, pos, arith,
}
use clusterrebootd.Text.{codes, trim_space, is_space, text_eq}
use clusterrebootd.Config.Defaults.{
  int_or, list_or, key_or, named_file, default_name, default_detector, default_detectors,
  apply_defaults,
}
use clusterrebootd.Config.Tests.{short_config, short_config_decoded}
use clusterrebootd.Windows.Error.{Parsed}
use clusterrebootd.Orchestrator.Favourable.{IsAllowing}
use clusterrebootd.Windows.Evaluator.{Evaluator, new_evaluator, parse_entries}
use clusterrebootd.Orchestrator.Types.{Environment}
use clusterrebootd.Orchestrator.Policies.{
  policy_reasons, filter_records, fallback_set, cluster_counts, initial_counts, initial_seen,
  count_records,
}
use clusterrebootd.Orchestrator.NewRunner.{policies_of}
use clusterrebootd.Orchestrator.Held.{held}
use clusterrebootd.Orchestrator.GateCalls.{inert}
use clusterrebootd.Orchestrator.Loop.Laws.{just_executed}
use clusterrebootd.Orchestrator.Loop.Once.{executions}
use clusterrebootd.Orchestrator.Tests.{sample_environment}
use clusterrebootd.Config.Validate.{
  kind_problems, detector_problems, detectors_problems, tls_problems, policy_problems,
  number_problems, problems, validate, decode,
}
use clusterrebootd.Config.Derived.{lock_ttl, seconds_duration, health_timeout}
use clusterrebootd.Orchestrator.Failure.{Failure}
use clusterrebootd.Detector.Probe.{Host, success, exists, new_all, new_from_config, detector_name}
use clusterrebootd.Detector.Engine.{new_engine, name_problem}
use clusterrebootd.Etcd.Keys.{new_lock_manager, new_cooldown_manager}
use clusterrebootd.Daemon.Script.{new_script_runner}
use clusterrebootd.Daemon.Managers.{make_engine, make_script, dialled, open_lock, open_cooldown}
use clusterrebootd.Daemon.Run.{exit_ok, exit_run_error}
use clusterrebootd.Daemon.Setup.{cooldown_client, lock_client, World, load, build_etcd_tls_config}
use clusterrebootd.Daemon.Commands.{RunFlags, StatusFlags, Prepared, set_up_status}
use clusterrebootd.Daemon.Usable.{IsUsable, IsReachable}
use clusterrebootd.Daemon.Programs.{command_run, command_status}
use clusterrebootd.Daemon.RunCommand.{command_run-Free, command_run-inert}
use clusterrebootd.Daemon.Favours.{Favours}
use clusterrebootd.Daemon.RunReboots.{command_run-reboots}
use clusterrebootd.Daemon.StatusCommand.{Looks, command_status-Looks, command_status-closes}

-- Every path reads as the short configuration, and every client is dialled.
abbrev pub sample_world : World
sample_world = record {
  read_config = λ path. some short_config;
  load_key_pair = λ cert key. none;
  read_file = λ path. ok [];
  append_certs = λ ca. true;
  dial = λ x. none;
  listen = λ address. ok address;
  own_pid = pos 7;
  join_path = λ a b. a;
}

abbrev pub connect : Prepared → Environment
connect p = sample_environment

abbrev pub flags : RunFlags
flags = record { config_path = codes "/c"; dry_run = false; once = false }

abbrev dry_flags : RunFlags
dry_flags = record { config_path = codes "/c"; dry_run = true; once = false }

abbrev pub status_flags : StatusFlags
status_flags = record { config_path = codes "/c"; skip_health = false; skip_lock = false }

command_run-Free_example :
    let e = command_run sample_world connect 3 (some flags) in
    ((held e.trace ≡ false) ⊎ (just_executed e.trace ≡ true))
    × (executions e.trace ≤ 1)
    × (e.resources.opened ≡ e.resources.deferred)
command_run-Free_example = command_run-Free sample_world connect 3 (some flags)

command_run-inert_example :
    inert true (command_run sample_world connect 3 (some dry_flags)).trace ≡ true
command_run-inert_example = command_run-inert sample_world connect 3 (some dry_flags) (inl refl)

command_status-Looks_example :
    Looks false (command_status sample_world connect (some status_flags)).trace
command_status-Looks_example = command_status-Looks sample_world connect status_flags

command_status-closes_example :
    let e = command_status sample_world connect (some status_flags) in
    (e.resources.opened ≡ e.resources.deferred)
    ⊎ ((false ≡ false)
        × (e.code ≡ some exit_run_error)
        × (e.resources.opened ≡ lock_client ∷ [])
        × (e.resources.deferred ≡ []))
command_status-closes_example = command_status-closes sample_world connect status_flags

short_loaded : load sample_world (codes "/c") ≡ ok (apply_defaults short_config)
unfolding load
short_loaded = rw short_config_decoded refl

short-IsUsable : IsUsable (apply_defaults short_config)
unfolding apply_defaults int_or list_or key_or default_detectors default_detector default_name
    named_file trim_space text_eq is_space new_evaluator parse_entries
short-IsUsable = record {
  no_blank_name = refl;
  distinct_names = refl;
  script = refl;
  windows = refl;
  lock_ttl = omega arith;
}

short-IsReachable : IsReachable sample_world (apply_defaults short_config)
unfolding apply_defaults build_etcd_tls_config
short-IsReachable = record { tls = refl; dials = λ x. refl; listens = λ h. refl }

no_windows :
    (w : Option Evaluator)
    → (let found : Parsed (Option Evaluator) = ok none in found ≡ ok w)
    → IsAllowing sample_environment w
no_windows none h = tt
no_windows (some e) h = cc

short-Favours : Favours sample_environment (apply_defaults short_config)
unfolding apply_defaults new_evaluator parse_entries policies_of policy_reasons filter_records
    fallback_set cluster_counts initial_counts initial_seen count_records
short-Favours = record {
  kill = λ t. refl;
  windows = no_windows;
  detectors = λ t. (refl, refl);
  cluster = λ t. (refl, refl);
  alone = refl;
  health = λ t e. (refl, refl);
  reported = λ t. refl;
  cooldown = λ t. (refl, refl);
  free = λ t. refl;
  armed = refl;
  runs_on = λ t. refl;
  starts = λ t d. refl;
  executes = λ t command. refl;
}

command_run-reboots_example :
    let e = command_run sample_world connect 3 (some flags) in
    (e.code ≡ some exit_ok) × (just_executed e.trace ≡ true)
command_run-reboots_example =
    command_run-reboots sample_world connect flags (apply_defaults short_config) 2 short_loaded refl
      refl short-IsUsable short-IsReachable (λ p. short-Favours)

-- A file that leaves out what must be there is refused.
abbrev empty_world : World
empty_world = record sample_world { read_config = λ path. none }

abbrev sample_host : Host
sample_host = record {
  context_error = λ results. none;
  check_error = λ results. none;
  stat = λ results path. exists;
  run = λ results command. (none, success);
}

-- The client of the cooldown is not dialled, when that of the lock is open.
abbrev leaking_world : World
leaking_world = record sample_world {
  read_config = λ path. some (record short_config { min_reboot_interval_sec = pos 60 });
  dial = λ x. elim x [ cooldown_client ↦ some Failure.deadline_exceeded | _ ↦ none ];
}

status_leaks :
    (command_status leaking_world connect (some status_flags)).resources
    ≡ record { opened = lock_client ∷ []; deferred = [] }
unfolding command_status set_up_status load decode validate problems detectors_problems
    detector_problems kind_problems tls_problems policy_problems number_problems apply_defaults
    int_or list_or key_or default_detectors default_detector default_name named_file trim_space
    text_eq is_space make_engine new_all new_from_config new_engine make_script new_script_runner
    build_etcd_tls_config open_lock dialled new_lock_manager lock_ttl seconds_duration open_cooldown
    new_cooldown_manager health_timeout name_problem detector_name
status_leaks = refl
