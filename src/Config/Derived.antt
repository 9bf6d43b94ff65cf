-- ===== src/Config/Derived.antt =====
-- What pkg/config/config.go derives from a configuration: durations, and `BaseEnvironment`.
use clusterrebootd.Prelude.{
  suc, ◌*◌, ◌-◌, ◌%◌, ◌^◌, Bool, true, false, Option, none, some, List, [], ◌∷◌, ◌++◌, is_nil, not,
  ℤ, pos, negsuc, to_int64,
}
use clusterrebootd.Text.{Text, codes, is_blank, join}
use clusterrebootd.Config.Types.{Config}
use clusterrebootd.Config.Defaults.{decimal}

-- `time.Duration(sec) * time.Second`, on 64-bit signed integers.
unfoldable pub seconds_duration : ℤ → ℤ
seconds_duration (pos n) = to_int64 (n * 1000000000)
seconds_duration (negsuc n) = to_int64 (2 ^ 64 - suc n * 1000000000 % 2 ^ 64)

unfoldable pub health_timeout : Config → ℤ
health_timeout c = seconds_duration c.health_timeout_sec

unfoldable pub health_publish_interval : Config → ℤ
health_publish_interval c = seconds_duration c.health_publish_interval_sec

unfoldable pub lock_ttl : Config → ℤ
lock_ttl c = seconds_duration c.lock_ttl_sec

unfoldable pub backoff_bounds : Config → ℤ × ℤ
backoff_bounds c = (seconds_duration c.backoff_min_sec, seconds_duration c.backoff_max_sec)

unfoldable pub check_interval : Config → ℤ
check_interval c = seconds_duration c.check_interval_sec

unfoldable pub reboot_cooldown_interval : Config → ℤ
reboot_cooldown_interval c = seconds_duration c.min_reboot_interval_sec

abbrev pub Variables : Type 0
Variables = List (Text × Text)

abbrev pub format_bool : Bool → Text
format_bool true = codes "true"
format_bool false = codes "false"

-- `strconv.Itoa`
abbrev pub itoa : ℤ → Text
itoa (pos n) = decimal n
itoa (negsuc n) = b'-' ∷ decimal (suc n)

abbrev pub set_if : Bool → Text → Text → Variables
set_if true name value = (name, value) ∷ []
set_if false name value = []

abbrev pub set_some : {A : Type 0} → (A → Text) → Text → Option A → Variables
set_some f name none = []
set_some f name (some a) = (name, f a) ∷ []

abbrev pub comma : Text
comma = b',' ∷ []

-- `BaseEnvironment`: every name is set at most once.
unfoldable pub base_environment : Config → Variables
base_environment c =
    let p = c.cluster_policies in
    (codes "RC_NODE_NAME", c.node_name)
      ∷ (codes "RC_DRY_RUN", format_bool c.dry_run)
      ∷ set_if (not (is_blank c.lock_key)) (codes "RC_LOCK_KEY") c.lock_key
    ++ set_if (not (is_nil c.etcd_endpoints)) (codes "RC_ETCD_ENDPOINTS")
        (join comma c.etcd_endpoints)
    ++ set_if (not (is_blank c.kill_switch_file)) (codes "RC_KILL_SWITCH_FILE") c.kill_switch_file
    ++ set_some (λ f. f.printed) (codes "RC_CLUSTER_MIN_HEALTHY_FRACTION") p.min_healthy_fraction
    ++ set_some itoa (codes "RC_CLUSTER_MIN_HEALTHY_ABSOLUTE") p.min_healthy_absolute
    ++ (codes "RC_CLUSTER_FORBID_IF_ONLY_FALLBACK_LEFT", format_bool p.forbid_if_only_fallback_left)
      ∷ set_if (not (is_nil p.fallback_nodes)) (codes "RC_CLUSTER_FALLBACK_NODES")
          (join comma p.fallback_nodes)
    ++ set_if (not (is_nil c.windows.allow)) (codes "RC_WINDOWS_ALLOW") (join comma c.windows.allow)
    ++ set_if (not (is_nil c.windows.deny)) (codes "RC_WINDOWS_DENY") (join comma c.windows.deny)
