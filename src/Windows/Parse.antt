-- ===== src/Windows/Parse.antt =====
-- `parseDayAndTime`, `parseEndPart` and `parseExpression` of pkg/windows/windows.go.
use clusterrebootd.Prelude.{
  ℕ, suc, ◌+◌, Bool, true, false, ◌||◌, Option, none, some, List, [], ◌∷◌, if◌then◌else◌, take,
  drop, is_nil, ok, err, ◌>>=◌,
}
use clusterrebootd.Text.{Text, codes, trim_space, fields, join, index}
use clusterrebootd.Windows.Error.{
  Parsed, missing_time, missing_dash, invalid_expression, many_start_days, many_end_days,
  missing_day_time, missing_end_time,
}
use clusterrebootd.Windows.Days.{parse_day_spec}
use clusterrebootd.Windows.TimeOfDay.{parse_time_of_day}
use clusterrebootd.Windows.Interval.{Span, spans_to_day, spans_of_days}

-- The last token, behind those before it.
abbrev pub split_last : Text → List Text → List Text × Text
split_last w [] = ([], w)
split_last w (v ∷ ws) = let (before, last) = split_last v ws in (w ∷ before, last)

abbrev pub day_spec : List Text → Text
day_spec [] = codes "*"
day_spec (w ∷ ws) = join (codes " ") (w ∷ ws)

unfoldable pub start_of_tokens : List Text → Parsed (List ℕ × ℕ)
start_of_tokens [] = err missing_day_time
start_of_tokens (w ∷ ws) = parse_time_of_day (split_last w ws).1 >>= λ seconds.
    parse_day_spec (day_spec (split_last w ws).0) >>= λ days. ok (days, seconds)

unfoldable pub parse_day_and_time : Text → Parsed (List ℕ × ℕ)
parse_day_and_time part = start_of_tokens (fields part)

-- The days of the end, and whether it names any.
unfoldable pub end_of_tokens : List Text → List ℕ → Parsed (List ℕ × Bool × ℕ)
end_of_tokens [] default_days = err missing_end_time
end_of_tokens (w ∷ []) default_days =
    parse_time_of_day w >>= λ seconds. ok (default_days, false, seconds)
end_of_tokens (w ∷ v ∷ ws) default_days = parse_time_of_day (split_last w (v ∷ ws)).1 >>= λ seconds.
    parse_day_spec (day_spec (split_last w (v ∷ ws)).0) >>= λ days. ok (days, true, seconds)

unfoldable pub parse_end_part : Text → List ℕ → Parsed (List ℕ × Bool × ℕ)
parse_end_part part = end_of_tokens (fields part)

-- The tail of `parseExpression` for an end that names a day: both ends are a single day.
window_to_day : List ℕ → ℕ → List ℕ → ℕ → Parsed (List Span)
window_to_day (d ∷ []) start_seconds (e ∷ []) end_seconds =
    ok (spans_to_day d start_seconds e end_seconds)
window_to_day (d ∷ []) start_seconds _ end_seconds = err many_end_days
window_to_day _ start_seconds _ end_seconds = err many_start_days

unfoldable pub build : List ℕ → ℕ → List ℕ → Bool → ℕ → Parsed (List Span)
unfolding window_to_day
build start_days start_seconds end_days true end_seconds =
    window_to_day start_days start_seconds end_days end_seconds
build start_days start_seconds end_days false end_seconds =
    ok (spans_of_days start_days start_seconds end_seconds)

unfoldable pub parse_parts : Text → Text → Parsed (List Span)
parse_parts start_part end_part =
    if is_nil start_part || is_nil end_part
    then err invalid_expression
    else (parse_day_and_time start_part >>= λ start. parse_end_part end_part start.0 >>= λ finish.
        build start.0 start.1 finish.0 finish.1 finish.2)

unfoldable pub at_dash : Text → ℕ → Option ℕ → Parsed (List Span)
at_dash expr colon none = err missing_dash
at_dash expr colon (some dash) =
    parse_parts (trim_space (take (dash + colon) expr))
      (trim_space (drop (suc (dash + colon)) expr))

unfoldable pub at_colon : Text → Option ℕ → Parsed (List Span)
at_colon expr none = err missing_time
at_colon expr (some colon) = at_dash expr colon (index b'-' (drop colon expr))

unfoldable pub parse_expression : Text → Parsed (List Span)
parse_expression expr = at_colon expr (index b':' expr)
