-- ===== src/Detector/ConfigLaws.antt =====
-- The detectors of a valid configuration (`NewAll` of pkg/detector/detector.go).
use clusterrebootd.Prelude.{
  ◌≡◌, refl, true, false, List, [], ◌∷◌, map, arith, if◌then◌else◌, is_nil, inl, inr, All, ok, pos,
  ltb_ℤ,
}
use clusterrebootd.Text.{Text, codes, text_eq}
use clusterrebootd.Text.Laws.{text_eq_iff}
use clusterrebootd.Config.Derived.{seconds_duration}
use clusterrebootd.Config.Types.{DetectorConfig, Config}
use clusterrebootd.Config.ValidateLaws.{HasKind, IsSupported, IsValid}
use clusterrebootd.Detector.Probe.{
  CommandDetector, Detector, file, command, detector_name, new_command_detector, new_from_config,
  new_all,
}

-- The detector of an entry, under the entry's name.
abbrev Made : DetectorConfig → Type 0
Made c = (d : Detector) × (new_from_config c ≡ ok d) × (detector_name d ≡ c.name)

abbrev with_command : DetectorConfig → CommandDetector
with_command c = record {
  name = c.name;
  command = c.cmd;
  exit_codes = c.success_exit_codes;
  timeout = if ltb_ℤ (pos 0) c.timeout_sec then seconds_duration c.timeout_sec else pos 0;
}

kind_tests :
    (kind : Text)
    → kind ≡ codes "command"
    → (text_eq kind (codes "file") ≡ false) × (text_eq kind (codes "command") ≡ true)
unfolding text_eq
kind_tests kind h = (rw h refl, rw h refl)

made_command :
    (c : DetectorConfig)
    → (text_eq c.kind (codes "file") ≡ false) × (text_eq c.kind (codes "command") ≡ true)
    → is_nil c.cmd ≡ false
    → new_from_config c ≡ ok (command (with_command c))
unfolding new_from_config new_command_detector
made_command c h k = ground (arith, h, k)

made_file :
    (c : DetectorConfig)
    → text_eq c.kind (codes "file") ≡ true
    → new_from_config c ≡ ok (file c.name c.path)
unfolding new_from_config
made_file c h = ground (arith, h)

supported-Made : (c : DetectorConfig) → HasKind c → Made c
unfolding detector_name
supported-Made c (inl h) =
    (file c.name c.path, made_file c ((text_eq_iff c.kind (codes "file")).1 h.0), refl)
supported-Made c (inr h) =
    (command (with_command c), made_command c (kind_tests c.kind h.0) h.1, refl)

made_lem :
    (cs : List DetectorConfig)
    → All IsSupported cs
    → (ds : List Detector) × (new_all cs ≡ ok ds) × (map detector_name ds ≡ map (λ c. c.name) cs)
unfolding new_all
made_lem [] h = ([], refl, refl)
made_lem (c ∷ cs) h =
    let (d, made, named) = supported-Made c h.0.0 in
    let (ds, rest, names) = made_lem cs h.1 in
    (d ∷ ds, rw (made, rest) refl, rw (named, names) refl)

-- A valid configuration has a detector for each of its entries, in their order and under their
-- names.
pub new_all-IsValid :
    (c : Config)
    → IsValid c
    → (ds : List Detector) × (new_all c.detectors ≡ ok ds)
      × (map detector_name ds ≡ map (λ d. d.name) c.detectors)
new_all-IsValid c v = made_lem c.detectors v.detectors
