-- ===== src/Windows/ParseLaws.antt =====
-- Whatever `parseExpression` returns is a proper set of intervals: at least one, none empty, none
-- past the end of the week, and together they cover what the window reads as.
use clusterrebootd.Prelude.{
  ℕ, ◌+◌, ◌<◌, ◌≡◌, refl, ap, ◌∙◌, ◌≢◌, Bool, true, false, ◌||◌, inl, inr, Option, none, some, List,
  [], ◌∷◌, ◌++◌, ok, err, ◌>>=◌, ltb, drop, is_nil, All, Bool-cases, OnOk, >>=-OnOk,
}
use clusterrebootd.Text.{Text, fields, index}
use clusterrebootd.Windows.Days.{parse_day_spec}
use clusterrebootd.Windows.DayLaws.{IsDays, parse_day_spec-IsDays}
use clusterrebootd.Windows.TimeOfDay.{parse_time_of_day}
use clusterrebootd.Windows.TimeLaws.{parse_time_of_day-lt_day}
use clusterrebootd.Windows.Error.{Parsed}
use clusterrebootd.Windows.Reading.{
  Window, daily, stretch, Parts, NamesDays, Says, SaysStart, SaysTime, SaysEnd, ReadsAs,
  at_dash-Parts,
}
use clusterrebootd.Windows.Interval.{
  Span, seconds_per_day, seconds_per_week, day_offset, spans_to_day, spans_of_days, covers,
}
use clusterrebootd.Windows.IntervalLaws.{
  elapsed, week_length, in_daily_window, IsProper, spans_of_days-covers, spans_to_day-covers,
  spans_of_days-IsProper, spans_to_day-IsProper, spans_of_days-ne-nil, spans_to_day-ne-nil,
}
use clusterrebootd.Windows.Parse.{
  split_last, day_spec, start_of_tokens, end_of_tokens, parse_day_and_time, parse_end_part, build,
  parse_parts, at_dash, at_colon, parse_expression,
}

abbrev pub in_window : Window → ℕ → Bool
in_window (daily days start end_) t = in_daily_window days start end_ t
in_window (stretch start_day start end_day end_) t =
    ltb (elapsed (day_offset start_day + start) t)
      (week_length (day_offset start_day + start) (day_offset end_day + end_))

-- The intervals of a window.
pub record Means (w : Window) (spans : List Span) : Type 0 where
  pub proper : All IsProper spans
  pub not_nil : spans ≢ []
  pub covered : (t : ℕ) → t < seconds_per_week → covers spans t ≡ in_window w t

-- The intervals are those of a window that the expression says.
abbrev pub IsMeant : Text → List Span → Type 0
IsMeant expr spans = (w : Window) × ReadsAs expr w × Means w spans

daily-Means :
    (days : List ℕ) (start end_ : ℕ)
    → IsDays days
    → start < seconds_per_day
    → end_ < seconds_per_day
    → Means (daily days start end_) (spans_of_days days start end_)
daily-Means days start end_ d hs he = record {
  proper = spans_of_days-IsProper days start end_ d.0.in_week hs he;
  not_nil = spans_of_days-ne-nil days start end_ d.1;
  covered = λ t ht. spans_of_days-covers days start end_ t d.0.in_week hs he ht;
}

stretch-Means :
    (start_day start end_day end_ : ℕ)
    → start_day < 7
    → start < seconds_per_day
    → end_day < 7
    → end_ < seconds_per_day
    → Means (stretch start_day start end_day end_) (spans_to_day start_day start end_day end_)
stretch-Means sd s ed e hd hs hf he = record {
  proper = spans_to_day-IsProper sd s ed e hd hs hf he;
  not_nil = spans_to_day-ne-nil sd s ed e hd hs;
  covered = λ t ht. spans_to_day-covers sd s ed e t hd hs hf he ht;
}

-- What is read of the two sides.
abbrev IsStart : Text → List ℕ × ℕ → Type 0
IsStart part (days, seconds) =
    IsDays days × (seconds < seconds_per_day) × SaysStart part days seconds

abbrev SaysEither : List Text → List ℕ → Bool → ℕ → Type 0
SaysEither words days true seconds = SaysEnd words days seconds
SaysEither words days false seconds = SaysTime words seconds

abbrev IsEnd : List Text → List ℕ × Bool × ℕ → Type 0
IsEnd words (days, named, seconds) =
    IsDays days × (seconds < seconds_per_day) × SaysEither words days named seconds

build-IsMeant :
    (expr p q : Text) (start_days : List ℕ) (start : ℕ) (end_days : List ℕ) (named : Bool)
    (end_ : ℕ)
    → Parts expr p q
    → IsStart p (start_days, start)
    → IsEnd (fields q) (end_days, named, end_)
    → OnOk (IsMeant expr) (build start_days start end_days named end_)
unfolding build
build-IsMeant expr p q days s ends false e parts (d, hs, said) (f, he, end_said) =
    (daily days s e, (p, q, parts, said, end_said), daily-Means days s e d hs he)
build-IsMeant expr p q [] s ends true e parts hs he = tt
build-IsMeant expr p q (d₁ ∷ d₂ ∷ ds) s ends true e parts hs he = tt
build-IsMeant expr p q (d₁ ∷ []) s [] true e parts hs he = tt
build-IsMeant expr p q (d₁ ∷ []) s (e₁ ∷ e₂ ∷ es) true e parts hs he = tt
build-IsMeant expr p q (d₁ ∷ []) s (e₁ ∷ []) true e parts (d, hs, said) (f, he, end_said) = (
  stretch d₁ s e₁ e,
  (p, q, parts, said, end_said),
  stretch-Means d₁ s e₁ e d.0.in_week.0 hs f.0.in_week.0 he,
)

-- The value of a parser, with the equation.
at_value : {A : Type 0} (P : A → Type 0) (m : Parsed A) → OnOk P m → OnOk (λ a. P a × (m ≡ ok a)) m
at_value P (ok a) h = (h, refl)
at_value P (err e) h = tt

split_last-whole :
    (w : Text) (ws : List Text) → w ∷ ws ≡ (split_last w ws).0 ++ (split_last w ws).1 ∷ []
split_last-whole w [] = refl
split_last-whole w (v ∷ ws) = ap (λ xs. w ∷ xs) (split_last-whole v ws)

split_last-some : (w v : Text) (ws : List Text) → is_nil (split_last w (v ∷ ws)).0 ≡ false
split_last-some w v ws = refl

day_spec-NamesDays :
    (ws : List Text) (days : List ℕ) → parse_day_spec (day_spec ws) ≡ ok days → NamesDays ws days
day_spec-NamesDays [] days h = h
day_spec-NamesDays (w ∷ ws) days h = h

-- The words of a side that names days: its last word is the time.
words-OnOk :
    {B : Type 0} (Q : B → Type 0) (w : Text) (ws : List Text) (f : ℕ → List ℕ → B)
    → ((seconds : ℕ) (days : List ℕ)
        → IsDays days
        → seconds < seconds_per_day
        → Says (w ∷ ws) (split_last w ws).0 days seconds
        → Q (f seconds days))
    → OnOk Q (
        parse_time_of_day (split_last w ws).1 >>= λ seconds.
        parse_day_spec (day_spec (split_last w ws).0) >>= λ days. ok (f seconds days))
words-OnOk Q w ws f h =
    >>=-OnOk (λ s. (s < seconds_per_day) × (parse_time_of_day (split_last w ws).1 ≡ ok s)) Q
      (parse_time_of_day (split_last w ws).1) _
      (at_value (λ s. s < seconds_per_day) (parse_time_of_day (split_last w ws).1)
        (parse_time_of_day-lt_day (split_last w ws).1))
      λ s hs.
        >>=-OnOk (λ d. IsDays d × (parse_day_spec (day_spec (split_last w ws).0) ≡ ok d)) Q
          (parse_day_spec (day_spec (split_last w ws).0)) _
          (at_value IsDays (parse_day_spec (day_spec (split_last w ws).0))
            (parse_day_spec-IsDays (day_spec (split_last w ws).0)))
          λ days hd. h s days hd.0 hs.0 (
            (split_last w ws).1,
            split_last-whole w ws,
            hs.1,
            day_spec-NamesDays (split_last w ws).0 days hd.1,
          )

start_of_tokens-IsStart :
    (part : Text) (tokens : List Text)
    → fields part ≡ tokens
    → OnOk (IsStart part) (start_of_tokens tokens)
unfolding start_of_tokens
start_of_tokens-IsStart part [] e = tt
start_of_tokens-IsStart part (w ∷ ws) e =
    words-OnOk (IsStart part) w ws (λ seconds days. (days, seconds))
      λ seconds days d hs said. (d, hs, ((split_last w ws).0, (said.0, e ∙ said.1, said.2, said.3)))

end_of_tokens-IsEnd :
    (tokens : List Text) (default_days : List ℕ)
    → IsDays default_days
    → OnOk (IsEnd tokens) (end_of_tokens tokens default_days)
unfolding end_of_tokens
end_of_tokens-IsEnd [] default_days h = tt
end_of_tokens-IsEnd (w ∷ []) default_days h =
    >>=-OnOk (λ s. (s < seconds_per_day) × (parse_time_of_day w ≡ ok s)) (IsEnd (w ∷ []))
      (parse_time_of_day w) _
      (at_value (λ s. s < seconds_per_day) (parse_time_of_day w) (parse_time_of_day-lt_day w))
      λ s hs. (h, hs.0, (w, refl, hs.1))
end_of_tokens-IsEnd (w ∷ v ∷ ws) default_days h =
    words-OnOk (IsEnd (w ∷ v ∷ ws)) w (v ∷ ws) (λ seconds days. (days, true, seconds))
      λ seconds days d hs said. (d, hs, ((split_last w (v ∷ ws)).0, split_last-some w v ws, said))

parse_parts-IsMeant : (expr p q : Text) → Parts expr p q → OnOk (IsMeant expr) (parse_parts p q)
unfolding parse_parts parse_day_and_time parse_end_part
parse_parts-IsMeant expr p q parts = elim (Bool-cases (is_nil p || is_nil q)) [
  | inl blank ↦ rw blank tt
  | inr full ↦ rw full (
      >>=-OnOk (IsStart p) (IsMeant expr) (start_of_tokens (fields p)) _
        (start_of_tokens-IsStart p (fields p) refl)
        λ start hs.
          >>=-OnOk (IsEnd (fields q)) (IsMeant expr) (end_of_tokens (fields q) start.0) _
            (end_of_tokens-IsEnd (fields q) start.0 hs.0)
            λ finish he.
              build-IsMeant expr p q start.0 start.1 finish.0 finish.1 finish.2 parts hs he)
]

at_dash-IsMeant :
    (expr : Text) (colon : ℕ) (o : Option ℕ)
    → index b':' expr ≡ some colon
    → index b'-' (drop colon expr) ≡ o
    → OnOk (IsMeant expr) (at_dash expr colon o)
unfolding at_dash
at_dash-IsMeant expr colon none h k = tt
at_dash-IsMeant expr colon (some dash) h k =
    parse_parts-IsMeant expr _ _ (at_dash-Parts expr colon dash h k)

at_colon-IsMeant :
    (expr : Text) (o : Option ℕ) → index b':' expr ≡ o → OnOk (IsMeant expr) (at_colon expr o)
unfolding at_colon
at_colon-IsMeant expr none h = tt
at_colon-IsMeant expr (some colon) h =
    at_dash-IsMeant expr colon (index b'-' (drop colon expr)) h refl

-- Any expression that is read says a window: behind the colon a dash parts it into a start, days and
-- then a time, and an end, which is a time (the window is from the one time to the other on each of
-- the days) or a day and a time (the window is the stretch from the one day and time to the other,
-- and the start has one day). The intervals that it gives are at least one, each has a positive
-- length and ends within the week, and together they contain just the instants of that window on the
-- circle of the week.
pub parse_expression-IsMeant : (expr : Text) → OnOk (IsMeant expr) (parse_expression expr)
unfolding parse_expression
parse_expression-IsMeant expr = at_colon-IsMeant expr (index b':' expr) refl
