-- ===== src/Config/DurationLaws.antt =====
-- The durations of a valid configuration (pkg/config/config.go).
use clusterrebootd.Prelude.{◌*◌, ◌<◌, ◌≤◌, ◌≡◌, arith, ℤ, pos, negsuc, pos_part}
use clusterrebootd.Config.Derived.{seconds_duration}

-- Up to 9223372036 seconds the product does not wrap around.
pub seconds_duration_exact :
    (z : ℤ)
    → 0 < pos_part z
    → pos_part z ≤ 9223372036
    → seconds_duration z ≡ pos (pos_part z * 1000000000)
unfolding seconds_duration
seconds_duration_exact (pos n) h k = ground arith
seconds_duration_exact (negsuc n) h k = ground arith
