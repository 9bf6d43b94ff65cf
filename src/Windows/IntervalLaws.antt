-- ===== src/Windows/IntervalLaws.antt =====
-- What the intervals of a window cover, against a reading of the window on the circle of the week.
use clusterrebootd.Prelude.{
  ℕ, zero, suc, ◌+◌, ◌-◌, ◌%◌, ◌≤◌, ◌<◌, ◌≡◌, refl, ◌≢◌, Bool, some, List, [], ◌∷◌, ◌++◌, arith,
  ltb, leb, if◌then◌else◌, any, any-append, All, All-append,
}
use clusterrebootd.Windows.Interval.{
  Span, contains, seconds_per_day, seconds_per_week, day_offset, after_start, spans_to_day,
  spans_of_day, spans_of_days, covers,
}

-- How far `t` lies behind `start` on the circle of the week.
abbrev pub elapsed : ℕ → ℕ → ℕ
elapsed start t = (t + (seconds_per_week - start)) % seconds_per_week

-- How long a window lasts that ends at `end_` seconds of a day, after starting at `start` of it:
-- an end that is not later is on the next day.
abbrev pub day_length : ℕ → ℕ → ℕ
day_length start end_ = if ltb start end_ then end_ - start else seconds_per_day + end_ - start

-- The same on the week; a window that ends where it starts lasts the whole week.
abbrev pub week_length : ℕ → ℕ → ℕ
week_length start end_ = if ltb start end_ then end_ - start else seconds_per_week + end_ - start

pub record IsProper (s : Span) : Type 0 where
  pub not_empty : s.start < s.end_
  pub within_week : s.end_ ≤ seconds_per_week

spans_of_day-covers :
    (start end_ day t : ℕ)
    → start < seconds_per_day
    → end_ < seconds_per_day
    → day < 7
    → t < seconds_per_week
    → covers (spans_of_day start end_ day) t
      ≡ ltb (elapsed (day_offset day + start) t) (day_length start end_)
unfolding spans_of_day contains
spans_of_day-covers start end_ day t hs he hd ht = ground arith

-- One of the days has a window that `t` lies in.
abbrev pub in_daily_window : List ℕ → ℕ → ℕ → ℕ → Bool
in_daily_window days start end_ t =
    any (λ day. ltb (elapsed (day_offset day + start) t) (day_length start end_)) days

-- A window with one time range for several days covers an instant of the week exactly if, for one
-- of the days, the instant is less than the window's length behind that day's start, on the circle
-- of the week.
pub spans_of_days-covers :
    (days : List ℕ) (start end_ t : ℕ)
    → All (λ d. d < 7) days
    → start < seconds_per_day
    → end_ < seconds_per_day
    → t < seconds_per_week
    → covers (spans_of_days days start end_) t ≡ in_daily_window days start end_ t
unfolding spans_of_days
spans_of_days-covers [] start end_ t hd hs he ht = refl
spans_of_days-covers (day ∷ days) start end_ t hd hs he ht = ground (
  arith,
  any-append (λ s. contains s t) (spans_of_day start end_ day) (spans_of_days days start end_),
  spans_of_day-covers start end_ day t hs he hd.0 ht,
  spans_of_days-covers days start end_ t hd.1 hs he ht,
)

after_start_lem :
    (start end_ : ℕ)
    → start < seconds_per_week
    → after_start (suc (suc start)) start end_
      ≡ some (if leb end_ start then end_ + seconds_per_week else end_)
unfolding after_start
after_start_lem zero end_ h = ground arith
after_start_lem (suc n) end_ h = ground arith

-- A window from one day and time to another covers an instant of the week exactly if the instant
-- is less than the window's length behind its start, on the circle of the week.
pub spans_to_day-covers :
    (start_day start end_day end_ t : ℕ)
    → start_day < 7
    → start < seconds_per_day
    → end_day < 7
    → end_ < seconds_per_day
    → t < seconds_per_week
    → covers (spans_to_day start_day start end_day end_) t
      ≡ ltb
          (elapsed (day_offset start_day + start) t)
          (week_length (day_offset start_day + start) (day_offset end_day + end_))
unfolding spans_to_day contains
spans_to_day-covers start_day start end_day end_ t hd hs hf he ht = ground (
  arith,
  after_start_lem (day_offset start_day + start) (day_offset end_day + end_) (omega arith),
)

spans_of_day-IsProper :
    (start end_ day : ℕ)
    → start < seconds_per_day
    → end_ < seconds_per_day
    → day < 7
    → All IsProper (spans_of_day start end_ day)
unfolding spans_of_day
spans_of_day-IsProper start end_ day hs he hd = ground arith

pub spans_of_days-IsProper :
    (days : List ℕ) (start end_ : ℕ)
    → All (λ d. d < 7) days
    → start < seconds_per_day
    → end_ < seconds_per_day
    → All IsProper (spans_of_days days start end_)
unfolding spans_of_days
spans_of_days-IsProper [] start end_ hd hs he = tt
spans_of_days-IsProper (day ∷ days) start end_ hd hs he =
    All-append IsProper (spans_of_day start end_ day) (spans_of_days days start end_)
      (spans_of_day-IsProper start end_ day hs he hd.0)
      (spans_of_days-IsProper days start end_ hd.1 hs he)

pub spans_to_day-IsProper :
    (start_day start end_day end_ : ℕ)
    → start_day < 7
    → start < seconds_per_day
    → end_day < 7
    → end_ < seconds_per_day
    → All IsProper (spans_to_day start_day start end_day end_)
unfolding spans_to_day
spans_to_day-IsProper start_day start end_day end_ hd hs hf he = ground (
  arith,
  after_start_lem (day_offset start_day + start) (day_offset end_day + end_) (omega arith),
)

spans_of_day-ne-nil : (start end_ day : ℕ) → spans_of_day start end_ day ≢ []
unfolding spans_of_day
spans_of_day-ne-nil start end_ day = ground arith

append-ne-nil : (xs ys : List Span) → xs ≢ [] → xs ++ ys ≢ []
append-ne-nil [] ys h = absurd (h refl)
append-ne-nil (x ∷ xs) ys h = λ e. cc

pub spans_of_days-ne-nil :
    (days : List ℕ) (start end_ : ℕ) → days ≢ [] → spans_of_days days start end_ ≢ []
unfolding spans_of_days
spans_of_days-ne-nil [] start end_ h = absurd (h refl)
spans_of_days-ne-nil (day ∷ days) start end_ h =
    append-ne-nil (spans_of_day start end_ day) (spans_of_days days start end_)
      (spans_of_day-ne-nil start end_ day)

pub spans_to_day-ne-nil :
    (start_day start end_day end_ : ℕ)
    → start_day < 7
    → start < seconds_per_day
    → spans_to_day start_day start end_day end_ ≢ []
unfolding spans_to_day
spans_to_day-ne-nil start_day start end_day end_ hd hs = ground (
  arith,
  after_start_lem (day_offset start_day + start) (day_offset end_day + end_) (omega arith),
)
