-- ===== src/Config/Defaults.antt =====
-- `applyDefaults` of the configuration and of a detector (pkg/config/config.go).
use clusterrebootd.Prelude.{
  ℕ, zero, suc, ◌+◌, ◌/◌, ◌%◌, List, [], ◌∷◌, ◌++◌, if◌then◌else◌, ℤ, pos, leb_ℤ, ◌&&◌, ltb,
}
use clusterrebootd.Text.{Text, codes, is_blank, text_eq}
use clusterrebootd.Config.Types.{DetectorConfig, Config}

unfoldable pub digits : ℕ → ℕ → Text
digits zero n = []
digits (suc fuel) n =
    let rest = digits fuel (n / 10) in (if ltb n 10 then [] else rest) ++ (b'0' + n % 10) ∷ []

-- `%d` of a number that is not negative; it has at most as many digits as its value and one.
abbrev pub decimal : ℕ → Text
decimal n = digits (suc n) n

unfoldable pub named_file : Text → ℕ → Text
unfolding digits
named_file [] index = codes "file-detector-" ++ decimal index
named_file path index = codes "file:" ++ path

unfoldable pub named_command : List Text → ℕ → Text
unfolding digits
named_command [] index = codes "command-detector-" ++ decimal index
named_command (word ∷ words) index = codes "command:" ++ word

-- The name of the detector at a position that has none.
unfoldable pub default_name : DetectorConfig → ℕ → Text
unfolding named_file named_command digits
default_name d index =
    if text_eq d.kind (codes "file")
    then named_file d.path index
    else if text_eq d.kind (codes "command")
    then named_command d.cmd index
    else codes "detector-" ++ decimal index

unfoldable pub default_detector : ℕ → DetectorConfig → DetectorConfig
default_detector index d = if is_blank d.name then record d { name = default_name d index } else d

unfoldable pub default_detectors : ℕ → List DetectorConfig → List DetectorConfig
default_detectors index [] = []
default_detectors index (d ∷ ds) = default_detector index d ∷ default_detectors (suc index) ds

-- `n` where the value is 0.
unfoldable pub int_or : ℤ → ℕ → ℤ
int_or i n = if leb_ℤ i (pos 0) && leb_ℤ (pos 0) i then pos n else i

unfoldable pub list_or : {A : Type 0} → List A → List A → List A
list_or [] ys = ys
list_or xs ys = xs

-- The lock key, unless it is blank.
unfoldable pub key_or : Text → Text → Text
key_or key default = if is_blank key then default else key

abbrev pub default_reboot_command : List Text
default_reboot_command =
    codes "/sbin/shutdown" ∷ codes "-r" ∷ codes "now" ∷ codes "coordinated kernel reboot" ∷ []

abbrev pub default_key : Text
default_key = codes "/cluster/clusterrebootd/lock"

unfoldable pub apply_defaults : Config → Config
apply_defaults c = record c {
  health_timeout_sec = int_or c.health_timeout_sec 30;
  health_publish_interval_sec = int_or c.health_publish_interval_sec 15;
  check_interval_sec = int_or c.check_interval_sec 60;
  backoff_min_sec = int_or c.backoff_min_sec 5;
  backoff_max_sec = int_or c.backoff_max_sec 60;
  lock_key = key_or c.lock_key default_key;
  lock_ttl_sec = int_or c.lock_ttl_sec 90;
  reboot_command = list_or c.reboot_command default_reboot_command;
  kill_switch_file = list_or c.kill_switch_file (codes "/etc/clusterrebootd/disable");
  metrics = record c.metrics { listen = list_or c.metrics.listen (codes "127.0.0.1:9090") };
  detectors = default_detectors 0 c.detectors;
}
