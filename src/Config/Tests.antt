-- ===== src/Config/Tests.antt =====
-- The configuration (pkg/config/config.go) at a concrete file's content.
use clusterrebootd.Prelude.{◌≡◌, refl, false, none, [], ◌∷◌, pos, ok}
use clusterrebootd.Text.{codes, is_space, trim_space, text_eq}
use clusterrebootd.Config.Types.{DetectorConfig, Config}
use clusterrebootd.Config.Defaults.{
  int_or, list_or, key_or, named_file, default_name, default_detector, default_detectors,
  apply_defaults,
}
use clusterrebootd.Config.Validate.{
  kind_problems, detector_problems, detectors_problems, tls_problems, policy_problems,
  number_problems, problems, validate, decode,
}
use clusterrebootd.Config.ValidateLaws.{IsValid, decode-IsValid}

abbrev pub marker_file : DetectorConfig
marker_file = record {
  name = [];
  kind = codes "file";
  path = codes "/run/x";
  cmd = [];
  success_exit_codes = [];
  timeout_sec = pos 0;
}

-- What a short file decodes to: everything that has a default is left out.
abbrev pub short_config : Config
short_config = record {
  node_name = codes "a";
  detectors = marker_file ∷ [];
  health_script = codes "/h";
  health_timeout_sec = pos 0;
  health_publish_interval_sec = pos 0;
  check_interval_sec = pos 0;
  backoff_min_sec = pos 0;
  backoff_max_sec = pos 0;
  min_reboot_interval_sec = pos 0;
  lock_key = [];
  lock_ttl_sec = pos 0;
  etcd_endpoints = codes "e" ∷ [];
  etcd_namespace = [];
  etcd_tls = none;
  reboot_command = [];
  cluster_policies = record {
    min_healthy_fraction = none;
    min_healthy_absolute = none;
    forbid_if_only_fallback_left = false;
    fallback_nodes = [];
  };
  windows = record { deny = []; allow = [] };
  kill_switch_file = [];
  metrics = record { enabled = false; listen = [] };
  dry_run = false;
}

pub short_config_decoded : decode short_config ≡ ok (apply_defaults short_config)
unfolding decode validate problems detectors_problems detector_problems kind_problems tls_problems
    policy_problems number_problems apply_defaults int_or list_or key_or default_detectors
    default_detector default_name named_file trim_space text_eq is_space
short_config_decoded = refl

decode-IsValid_example :
    (apply_defaults short_config ≡ apply_defaults short_config)
    × IsValid (apply_defaults short_config)
decode-IsValid_example =
    decode-IsValid short_config (apply_defaults short_config) short_config_decoded
