-- ===== src/Windows/Interval.antt =====
-- Intervals of the week, in seconds since Sunday 00:00: `interval`, `contains`, and the two tails
-- of `parseExpression` that build intervals, of pkg/windows/windows.go.
use clusterrebootd.Prelude.{
  ℕ, zero, suc, ◌+◌, ◌-◌, ◌*◌, Bool, ◌&&◌, Option, none, some, List, [], ◌∷◌, ◌++◌, ltb, leb,
  if◌then◌else◌, any,
}
use clusterrebootd.Text.{Text}

abbrev pub seconds_per_day : ℕ
seconds_per_day = 86400

abbrev pub seconds_per_week : ℕ
seconds_per_week = 604800

-- `interval`, before its expression is filled in.
pub record Span : Type 0 where
  pub start : ℕ
  pub end_ : ℕ

pub record Interval : Type 0 where
  pub span : Span
  pub expr : Text

unfoldable pub contains : Span → ℕ → Bool
contains s seconds = leb s.start seconds && ltb seconds s.end_

abbrev pub day_offset : ℕ → ℕ
day_offset day = day * seconds_per_day

-- One interval, or two where the window runs past the end of the week.
abbrev cut_at_week : ℕ → ℕ → List Span
cut_at_week start end_ =
    if ltb seconds_per_week end_
    then record { start = start; end_ = seconds_per_week }
      ∷ record { start = 0; end_ = end_ - seconds_per_week }
      ∷ []
    else record { start = start; end_ = end_ } ∷ []

-- `for end <= start { end += secondsPerWeek }`, on fuel; `none` means that it ran out.
unfoldable pub after_start : ℕ → ℕ → ℕ → Option ℕ
after_start zero start end_ = none
after_start (suc fuel) start end_ =
    let rest = after_start fuel start (end_ + seconds_per_week) in
    if leb end_ start then rest else some end_

abbrev cut_option : ℕ → Option ℕ → List Span
cut_option start none = []
cut_option start (some end_) = cut_at_week start end_

-- The branch `hasEndDay`. Each round takes `end` a week further, so one more than `start` rounds
-- are enough.
unfoldable pub spans_to_day : ℕ → ℕ → ℕ → ℕ → List Span
unfolding after_start
spans_to_day start_day start_seconds end_day end_seconds =
    let start = day_offset start_day + start_seconds in
    cut_option start (after_start (suc (suc start)) start (day_offset end_day + end_seconds))

-- The body of the loop over the start days.
unfoldable pub spans_of_day : ℕ → ℕ → ℕ → List Span
spans_of_day start_seconds end_seconds day =
    let start = day_offset day + start_seconds in
    let end_ = day_offset day + end_seconds in
    cut_at_week start (if leb end_ start then end_ + seconds_per_day else end_)

unfoldable pub spans_of_days : List ℕ → ℕ → ℕ → List Span
unfolding spans_of_day
spans_of_days [] start_seconds end_seconds = []
spans_of_days (day ∷ days) start_seconds end_seconds =
    spans_of_day start_seconds end_seconds day ++ spans_of_days days start_seconds end_seconds

-- Some span contains the instant.
abbrev pub covers : List Span → ℕ → Bool
covers spans seconds = any (λ s. contains s seconds) spans
