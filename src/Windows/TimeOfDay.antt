-- ===== src/Windows/TimeOfDay.antt =====
-- `parseTimeOfDay` of pkg/windows/windows.go: seconds since midnight.
use clusterrebootd.Prelude.{
  ℕ, ◌+◌, ◌*◌, Bool, ◌||◌, Option, none, some, List, [], ◌∷◌, if◌then◌else◌, ℤ, pos, pos_part,
  ltb_ℤ, ok, err,
}
use clusterrebootd.Text.{Text, split, atoi}
use clusterrebootd.Windows.Error.{
  Parsed, invalid_time, invalid_hour, invalid_minute, hour_range, minute_range,
}

abbrev outside : ℤ → ℕ → Bool
outside n top = ltb_ℤ n (pos 0) || ltb_ℤ (pos top) n

-- Hours and minutes that pass the range tests are not negative, so the sum is one of naturals.
clock_time : ℤ → ℤ → Parsed ℕ
clock_time hour minute =
    if outside hour 23
    then err hour_range
    else if outside minute 59
    then err minute_range
    else ok ((pos_part hour * 60 + pos_part minute) * 60)

with_minute : ℤ → Option ℤ → Parsed ℕ
with_minute hour none = err invalid_minute
with_minute hour (some minute) = clock_time hour minute

with_hour : Option ℤ → Text → Parsed ℕ
with_hour none minutes = err invalid_hour
with_hour (some hour) minutes = with_minute hour (atoi minutes)

time_of_parts : List Text → Parsed ℕ
time_of_parts (hours ∷ minutes ∷ []) = with_hour (atoi hours) minutes
time_of_parts _ = err invalid_time

unfoldable pub parse_time_of_day : Text → Parsed ℕ
unfolding clock_time with_minute with_hour time_of_parts
parse_time_of_day value = time_of_parts (split b':' value)
