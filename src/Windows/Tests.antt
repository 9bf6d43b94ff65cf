-- ===== src/Windows/Tests.antt =====
-- Runs of the window evaluation (pkg/windows/windows.go) on concrete expressions.
use clusterrebootd.Prelude.{
  ℕ, ◌+◌, ◌*◌, ◌<◌, ◌≡◌, refl, not, ◌&&◌, ◌||◌, some, List, [], ◌∷◌, arith, is_nil, All, ltb, ok,
  OnOk,
}
use clusterrebootd.Text.{
  Text, codes, is_space, trim_space, fields, index, text_eq, to_lower, split, join, atoi,
}
use clusterrebootd.Windows.Days.{
  day_name, add_day, add_part, add_parts, parse_day_spec, expand_day_range,
}
use clusterrebootd.Windows.TimeOfDay.{parse_time_of_day}
use clusterrebootd.Windows.Interval.{day_offset, covers, spans_of_day, spans_of_days, spans_to_day}
use clusterrebootd.Windows.IntervalLaws.{
  elapsed, week_length, in_daily_window, spans_of_days-covers, spans_to_day-covers,
}
use clusterrebootd.Windows.DayLaws.{
  IsDays, between, has_day, expand_day_range_lem, parse_day_spec-IsDays,
}
use clusterrebootd.Windows.Parse.{
  start_of_tokens, end_of_tokens, parse_day_and_time, parse_end_part, build, parse_parts, at_dash,
  at_colon, parse_expression,
}
use clusterrebootd.Windows.ParseLaws.{IsMeant, parse_expression-IsMeant}
use clusterrebootd.Windows.RoundTrip.{show_window, parse_expression-show_window}
use clusterrebootd.Windows.Evaluator.{
  Evaluator, label, label_error, parse_entry, parse_entries, new_evaluator, evaluate_at,
}
use clusterrebootd.Windows.EvaluatorLaws.{matches, evaluate_at-allowed}

-- Friday from 22:00 to 06:00 of the next day.
spans_of_days-covers_example :
    covers (spans_of_days (5 ∷ []) 79200 21600) 530000 ≡ in_daily_window (5 ∷ []) 79200 21600 530000
spans_of_days-covers_example =
    spans_of_days-covers (5 ∷ []) 79200 21600 530000 (omega arith, tt) (omega arith) (omega arith)
      (omega arith)

-- Saturday 23:00 to Sunday 01:00, past the end of the week.
spans_to_day-covers_example :
    covers (spans_to_day 6 82800 0 3600) 1800
    ≡ ltb
        (elapsed (day_offset 6 + 82800) 1800)
        (week_length (day_offset 6 + 82800) (day_offset 0 + 3600))
spans_to_day-covers_example =
    spans_to_day-covers 6 82800 0 3600 1800 (omega arith) (omega arith) (omega arith) (omega arith)
      (omega arith)

-- Friday to Monday.
expand_day_range_lem_example :
    (days : List ℕ) × (expand_day_range 5 1 ≡ some days)
    × (has_day days 0 ≡ between 5 1 0)
    × All (λ d. d < 7) days
expand_day_range_lem_example = expand_day_range_lem 5 1 0 (omega arith) (omega arith) (omega arith)

parse_day_spec-IsDays_example : OnOk IsDays (parse_day_spec (codes "Mon-Wed,Sat"))
parse_day_spec-IsDays_example = parse_day_spec-IsDays (codes "Mon-Wed,Sat")

parse_expression-IsMeant_example :
    OnOk (IsMeant (codes "Mon-Fri 22:00-06:00")) (parse_expression (codes "Mon-Fri 22:00-06:00"))
parse_expression-IsMeant_example = parse_expression-IsMeant (codes "Mon-Fri 22:00-06:00")

parse_expression-show_window_example :
    parse_expression (show_window 1 9 5 2 17 30)
    ≡ ok (spans_to_day 1 ((9 * 60 + 5) * 60) 2 ((17 * 60 + 30) * 60))
parse_expression-show_window_example =
    parse_expression-show_window 1 9 5 2 17 30 (omega arith) (omega arith) (omega arith)
      (omega arith) (omega arith) (omega arith)

abbrev saturday_night : List Text
saturday_night = codes "Sat 22:00-23:00" ∷ []

abbrev one_interval : Evaluator
one_interval = record {
  allow_list =
      record { span = record { start = 597600; end_ = 601200 }; expr = codes "Sat 22:00-23:00" }
      ∷ [];
  deny_list = [];
}

saturday_night_parsed : new_evaluator saturday_night [] ≡ ok (some one_interval)
unfolding new_evaluator parse_entries parse_entry label_error label parse_expression at_colon
    at_dash parse_parts build start_of_tokens end_of_tokens parse_day_and_time parse_end_part
    parse_day_spec add_parts add_part add_day day_name parse_time_of_day spans_of_days spans_of_day
    trim_space fields index text_eq to_lower split join is_space atoi
saturday_night_parsed = refl

evaluate_at-allowed_example :
    (evaluate_at one_interval 600000).allowed
    ≡ (not (matches [] 600000) && (is_nil saturday_night || matches saturday_night 600000))
evaluate_at-allowed_example =
    evaluate_at-allowed saturday_night [] one_interval 600000 saturday_night_parsed
