-- ===== src/Config/Validate.antt =====
-- `Validate` of pkg/config/config.go: the problems of a configuration.
use clusterrebootd.Prelude.{
  ℕ, suc, Bool, true, false, ◌&&◌, ◌||◌, Option, none, some, List, [], ◌∷◌, ◌++◌, map,
  if◌then◌else◌, is_nil, ℤ, pos, leb_ℤ, ltb_ℤ, Result, ok, err,
}
use clusterrebootd.Text.{Text, codes, is_blank, text_eq}
use clusterrebootd.Config.Types.{DetectorConfig, EtcdTlsConfig, PolicyConfig, Fraction, Config}
use clusterrebootd.Config.Defaults.{apply_defaults}

-- A constructor for each message of the validation of a detector.
pub data DetectorProblem : Type 0 where
  type_required path_required cmd_required negative_timeout : DetectorProblem
  not_supported : Text → DetectorProblem

-- A constructor for each message.
pub data Problem : Type 0 where
  no_node_name no_detectors no_health_script bad_health_timeout bad_publish_interval : Problem
  bad_check_interval bad_backoff_min bad_backoff_max backoff_out_of_order : Problem
  bad_reboot_interval bad_lock_ttl ttl_below_health_timeout no_lock_key no_endpoints : Problem
  no_ca_file no_cert_file no_key_file no_reboot_command bad_fraction bad_absolute : Problem
  no_metrics_listen : Problem
  of_detector : ℕ → DetectorProblem → Problem

-- `if cond { problems = append(problems, problem) }`
abbrev pub problem_if : {A : Type 0} → Bool → A → List A
problem_if true p = p ∷ []
problem_if false p = []

unfoldable pub kind_problems : DetectorConfig → List DetectorProblem
kind_problems d =
    if text_eq d.kind (codes "file")
    then problem_if (is_blank d.path) path_required
    else if text_eq d.kind (codes "command")
    then problem_if (is_nil d.cmd) cmd_required
    else not_supported d.kind ∷ []

-- `validate` of a detector
unfoldable pub detector_problems : DetectorConfig → List DetectorProblem
detector_problems d =
    if is_blank d.kind
    then type_required ∷ []
    else kind_problems d ++ problem_if (ltb_ℤ d.timeout_sec (pos 0)) negative_timeout

unfoldable pub detectors_problems : ℕ → List DetectorConfig → List Problem
detectors_problems index [] = []
detectors_problems index (d ∷ ds) =
    map (of_detector index) (detector_problems d) ++ detectors_problems (suc index) ds

unfoldable pub tls_problems : Option EtcdTlsConfig → List Problem
tls_problems none = []
tls_problems (some tls) =
    if tls.enabled
    then problem_if (is_blank tls.ca_file) no_ca_file
      ++ problem_if (is_blank tls.cert_file) no_cert_file
      ++ problem_if (is_blank tls.key_file) no_key_file
    else []

abbrev pub fraction_out : Option Fraction → Bool
fraction_out none = false
fraction_out (some f) = f.at_most_zero || f.above_one

abbrev pub absolute_out : Option ℤ → Bool
absolute_out none = false
absolute_out (some n) = ltb_ℤ n (pos 0)

-- `validate` of the policies
unfoldable pub policy_problems : PolicyConfig → List Problem
policy_problems p =
    problem_if (fraction_out p.min_healthy_fraction) bad_fraction
    ++ problem_if (absolute_out p.min_healthy_absolute) bad_absolute

-- The checks of the numbers.
unfoldable pub number_problems : Config → List Problem
number_problems c =
    problem_if (leb_ℤ c.health_timeout_sec (pos 0)) bad_health_timeout
    ++ problem_if (leb_ℤ c.health_publish_interval_sec (pos 0)) bad_publish_interval
    ++ problem_if (leb_ℤ c.check_interval_sec (pos 0)) bad_check_interval
    ++ problem_if (leb_ℤ c.backoff_min_sec (pos 0)) bad_backoff_min
    ++ problem_if (leb_ℤ c.backoff_max_sec (pos 0)) bad_backoff_max
    ++ problem_if (ltb_ℤ c.backoff_max_sec c.backoff_min_sec) backoff_out_of_order
    ++ problem_if (ltb_ℤ c.min_reboot_interval_sec (pos 0)) bad_reboot_interval
    ++ problem_if (leb_ℤ c.lock_ttl_sec (pos 0)) bad_lock_ttl
    ++ problem_if (leb_ℤ c.lock_ttl_sec c.health_timeout_sec) ttl_below_health_timeout

unfoldable pub problems : Config → List Problem
problems c =
    problem_if (is_blank c.node_name) no_node_name
    ++ problem_if (is_nil c.detectors) no_detectors
    ++ detectors_problems 0 c.detectors
    ++ problem_if (is_blank c.health_script) no_health_script
    ++ number_problems c
    ++ problem_if (is_blank c.lock_key) no_lock_key
    ++ problem_if (is_nil c.etcd_endpoints) no_endpoints
    ++ tls_problems c.etcd_tls
    ++ problem_if (is_nil c.reboot_command) no_reboot_command
    ++ policy_problems c.cluster_policies
    ++ problem_if (c.metrics.enabled && is_blank c.metrics.listen) no_metrics_listen

-- `Validate`
unfoldable pub validate : Config → Result (List Problem) (Unit {0})
validate c = if is_nil (problems c) then ok tt else err (problems c)

abbrev pub after_validation :
    Config → Result (List Problem) (Unit {0}) → Result (List Problem) Config
after_validation c (ok _) = ok c
after_validation c (err ps) = err ps

-- `decode`, after the decoder.
unfoldable pub decode : Config → Result (List Problem) Config
decode c = after_validation (apply_defaults c) (validate (apply_defaults c))
