-- ===== src/Reports/Texts.antt =====
-- The texts that events and labels are made of (pkg/orchestrator/runner.go), and `strconv.Itoa`.
use clusterrebootd.Prelude.{
  ℕ, zero, suc, ◌+◌, ◌/◌, ◌%◌, [], ◌∷◌, ◌++◌, ℤ, pos, negsuc, if◌then◌else◌, ltb,
}
use clusterrebootd.Text.{Text, codes}
use clusterrebootd.Orchestrator.Types.{Phase, Status}

-- `monitorHealthPhase`, `heartbeatHealthPhase`, and the literals of the calls.
unfoldable pub phase_text : Phase → Text
phase_text Phase.monitor = codes "monitor"
phase_text Phase.heartbeat = codes "heartbeat"
phase_text Phase.pre_lock = codes "pre-lock"
phase_text Phase.post_lock = codes "post-lock"

unfoldable pub status_text : Status → Text
status_text Status.no_action = codes "no_action"
status_text Status.kill_switch = codes "kill_switch_active"
status_text Status.health_blocked = codes "health_blocked"
status_text Status.window_denied = codes "window_denied"
status_text Status.window_outside = codes "window_outside_allow"
status_text Status.lock_unavailable = codes "lock_unavailable"
status_text Status.lock_skipped = codes "lock_skipped"
status_text Status.recheck_cleared = codes "recheck_cleared"
status_text Status.cooldown_active = codes "cooldown_active"
status_text Status.ready = codes "ready"

-- The decimal digits of a number of at most so many digits.
unfoldable pub digits_of : ℕ → ℕ → Text
digits_of zero n = []
digits_of (suc fuel) n =
    let rest = digits_of fuel (n / 10) in
    let last = n % 10 + b'0' in if ltb n 10 then last ∷ [] else rest ++ last ∷ []

abbrev pub show_nat : ℕ → Text
show_nat n = digits_of (suc n) n

-- `strconv.Itoa`, and `%d`
unfoldable pub itoa : ℤ → Text
itoa (pos n) = show_nat n
itoa (negsuc n) = b'-' ∷ show_nat (suc n)
