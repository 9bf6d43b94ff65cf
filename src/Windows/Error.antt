-- ===== src/Windows/Error.antt =====
-- The errors of pkg/windows/windows.go: a constructor for each message of `fmt.Errorf`. A message
-- quotes the text at hand; that text is left out, but for the position of the expression in its
-- list.
use clusterrebootd.Prelude.{ℕ, Result}

pub data Error : Type 0 where
  missing_time missing_dash invalid_expression many_start_days many_end_days : Error
  missing_day_time missing_end_time empty_day_spec invalid_day_spec unknown_day no_days : Error
  invalid_time invalid_hour invalid_minute hour_range minute_range : Error
  empty_deny empty_allow : ℕ → Error
  deny allow : ℕ → Error → Error

abbrev pub Parsed : Type 0 → Type 0
Parsed A = Result Error A
