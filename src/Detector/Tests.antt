-- ===== src/Detector/Tests.antt =====
-- The detectors and the engine (pkg/detector) at concrete detectors and answers.
use clusterrebootd.Prelude.{
  ◌≡◌, ◌↔◌, ◌⊎◌, true, false, none, List, [], ◌∷◌, map, pos, ok, is_nil, any, if◌then◌else◌,
}
use clusterrebootd.Text.{codes}
use clusterrebootd.Config.Defaults.{apply_defaults}
use clusterrebootd.Config.Types.{Config}
use clusterrebootd.Config.Tests.{short_config, short_config_decoded}
use clusterrebootd.Config.ValidateLaws.{decode-IsValid}
use clusterrebootd.Orchestrator.Failure.{other}
use clusterrebootd.Detector.Probe.{Detector, file, command, detector_name, new_all, Stat, Ran, Host}
use clusterrebootd.Detector.Engine.{new_engine, evaluate}
use clusterrebootd.Detector.EngineLaws.{IsComplete, IsEnded, evaluate_lem}
use clusterrebootd.Detector.NameLaws.{trimmed_names, are_distinct, new_engine_iff}
use clusterrebootd.Detector.ConfigLaws.{new_all-IsValid}

-- The file is there, and the command ends with code 1, or cannot be run.
abbrev busy_host : Host
busy_host = record {
  context_error = λ history. none;
  check_error = λ history. none;
  stat = λ history path. Stat.exists;
  run = λ history d.
      (none, if is_nil d.exit_codes then Ran.exited (pos 1) else Ran.run_error (other 1));
}

abbrev two_detectors : List Detector
two_detectors =
    file (codes "marker") (codes "/run/x")
    ∷ command (record {
      name = codes "kernel";
      command = codes "/bin/check" ∷ [];
      exit_codes = pos 1 ∷ [];
      timeout = pos 0;
    })
    ∷ []

evaluate_lem_example :
    IsComplete busy_host [] two_detectors (evaluate busy_host two_detectors)
    ⊎ IsEnded busy_host [] two_detectors (evaluate busy_host two_detectors)
evaluate_lem_example = evaluate_lem busy_host two_detectors

new_engine_iff_example : (new_engine two_detectors ≡ ok two_detectors) ↔ (
    (is_nil two_detectors ≡ false)
    × (any is_nil (trimmed_names two_detectors) ≡ false)
    × (are_distinct (trimmed_names two_detectors) ≡ true))
new_engine_iff_example = new_engine_iff two_detectors

abbrev short_given : Config
short_given = apply_defaults short_config

new_all-IsValid_example :
    (ds : List Detector) × (new_all short_given.detectors ≡ ok ds)
    × (map detector_name ds ≡ map (λ d. d.name) short_given.detectors)
new_all-IsValid_example =
    new_all-IsValid short_given (decode-IsValid short_config short_given short_config_decoded).1
