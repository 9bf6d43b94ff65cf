-- ===== src/Config/Types.antt =====
-- The types of pkg/config/config.go.
use clusterrebootd.Prelude.{ℕ, Bool, Option, List, ℤ}
use clusterrebootd.Text.{Text}

pub record DetectorConfig : Type 0 where
  pub name : Text
  pub kind : Text
  pub path : Text
  pub cmd : List Text
  pub success_exit_codes : List ℤ
  pub timeout_sec : ℤ

pub record EtcdTlsConfig : Type 0 where
  pub enabled : Bool
  pub ca_file : Text
  pub cert_file : Text
  pub key_file : Text
  pub insecure : Bool

-- A `float64` that is a fraction, by what the program does with it: the comparisons `<= 0` and
-- `> 1`, the text that `strconv.FormatFloat` prints, and `int(math.Ceil(f * float64(n)))`.
pub record Fraction : Type 0 where
  pub at_most_zero : Bool
  pub above_one : Bool
  pub printed : Text
  pub share : ℕ → ℤ

-- `ClusterPolicies`
pub record PolicyConfig : Type 0 where
  pub min_healthy_fraction : Option Fraction
  pub min_healthy_absolute : Option ℤ
  pub forbid_if_only_fallback_left : Bool
  pub fallback_nodes : List Text

pub record WindowsConfig : Type 0 where
  pub deny : List Text
  pub allow : List Text

pub record MetricsConfig : Type 0 where
  pub enabled : Bool
  pub listen : Text

pub record Config : Type 0 where
  pub node_name : Text
  pub detectors : List DetectorConfig
  pub health_script : Text
  pub health_timeout_sec : ℤ
  pub health_publish_interval_sec : ℤ
  pub check_interval_sec : ℤ
  pub backoff_min_sec : ℤ
  pub backoff_max_sec : ℤ
  pub min_reboot_interval_sec : ℤ
  pub lock_key : Text
  pub lock_ttl_sec : ℤ
  pub etcd_endpoints : List Text
  pub etcd_namespace : Text
  pub etcd_tls : Option EtcdTlsConfig
  pub reboot_command : List Text
  pub cluster_policies : PolicyConfig
  pub windows : WindowsConfig
  pub kill_switch_file : Text
  pub metrics : MetricsConfig
  pub dry_run : Bool
