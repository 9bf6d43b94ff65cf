-- ===== src/Windows/TimeLaws.antt =====
-- `parseTimeOfDay`: its range, and that it reads back what is printed as HH:MM.
use clusterrebootd.Prelude.{
  ℕ, ◌+◌, ◌*◌, ◌/◌, ◌%◌, ◌<◌, ◌≡◌, some, [], ◌∷◌, ◌++◌, arith, pos, ok, OnOk,
}
use clusterrebootd.Text.{Text, split, atoi}
use clusterrebootd.Windows.Interval.{seconds_per_day}
use clusterrebootd.Windows.TimeOfDay.{parse_time_of_day}

-- The two digits of a number below a hundred.
abbrev pub two_digits : ℕ → Text
two_digits n = (48 + n / 10) ∷ (48 + n % 10) ∷ []

abbrev pub show_time : ℕ → ℕ → Text
show_time hour minute = two_digits hour ++ (b':' ∷ two_digits minute)

atoi-two_digits : (n : ℕ) → n < 100 → atoi (two_digits n) ≡ some (pos n)
unfolding atoi
atoi-two_digits n h = ground arith

split-two_digits : (n : ℕ) → n < 100 → split b':' (two_digits n) ≡ two_digits n ∷ []
unfolding split
split-two_digits n h = ground arith

split-show_time :
    (hour minute : ℕ)
    → hour < 100
    → minute < 100
    → split b':' (show_time hour minute) ≡ two_digits hour ∷ two_digits minute ∷ []
unfolding split
split-show_time hour minute h m = ground arith

-- Every time of day printed as HH:MM is read back as its seconds since midnight.
pub parse_time_of_day-show_time :
    (hour minute : ℕ)
    → hour < 24
    → minute < 60
    → parse_time_of_day (show_time hour minute) ≡ ok ((hour * 60 + minute) * 60)
unfolding parse_time_of_day
parse_time_of_day-show_time hour minute h m =
    rw (split-show_time hour minute (omega arith) (omega arith))
      (rw (atoi-two_digits hour (omega arith), atoi-two_digits minute (omega arith)) (ground arith))

-- A time that is read lies within the day.
pub parse_time_of_day-lt_day :
    (value : Text) → OnOk (λ s. s < seconds_per_day) (parse_time_of_day value)
unfolding parse_time_of_day
parse_time_of_day-lt_day value = ground arith
