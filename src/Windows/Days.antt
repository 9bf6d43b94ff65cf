-- ===== src/Windows/Days.antt =====
-- Day specifications: `dayName`, `expandDayRange` and `parseDaySpec` of pkg/windows/windows.go.
-- A `time.Weekday` is its number, 0 for Sunday.
use clusterrebootd.Prelude.{
  ℕ, zero, suc, ◌+◌, ◌%◌, ◌||◌, Option, none, some, List, [], ◌∷◌, ◌++◌, ◌==◌, if◌then◌else◌,
  is_nil, any, ok, err, ◌>>=◌,
}
use clusterrebootd.Text.{Text, codes, text_eq, trim_space, to_lower, split, contains_char}
use clusterrebootd.Windows.Error.{
  Error, Parsed, empty_day_spec, invalid_day_spec, unknown_day, no_days,
}

-- The `switch` of `dayName`.
day_of : Text → Option ℕ
day_of t =
    if text_eq t (codes "sun") || text_eq t (codes "sunday")
    then some 0
    else if text_eq t (codes "mon") || text_eq t (codes "monday")
    then some 1
    else if text_eq t (codes "tue") || text_eq t (codes "tues") || text_eq t (codes "tuesday")
    then some 2
    else if text_eq t (codes "wed") || text_eq t (codes "weds") || text_eq t (codes "wednesday")
    then some 3
    else if text_eq t (codes "thu")
        || text_eq t (codes "thur")
        || text_eq t (codes "thurs")
        || text_eq t (codes "thursday")
    then some 4
    else if text_eq t (codes "fri") || text_eq t (codes "friday")
    then some 5
    else if text_eq t (codes "sat") || text_eq t (codes "saturday")
    then some 6
    else none

unfoldable pub day_name : Text → Option ℕ
unfolding day_of
day_name value = day_of (trim_space (to_lower value))

-- The `for` loop, with fuel for the days still to be visited; `none` means that it ran out.
unfoldable pub expand_from : ℕ → ℕ → ℕ → Option (List ℕ)
expand_from zero current end_ = none
expand_from (suc fuel) current end_ =
    let rest = expand_from fuel ((current + 1) % 7) end_ in
    if current == end_
    then some (current ∷ [])
    else elim rest [ none ↦ none | some days ↦ some (current ∷ days) ]

-- The loop comes to `end` within a week.
unfoldable pub expand_day_range : ℕ → ℕ → Option (List ℕ)
unfolding expand_from
expand_day_range start end_ = if start == end_ then some (start ∷ []) else expand_from 7 start end_

-- `days`, and `seen`, which holds the same days.
unfoldable pub add_day : List ℕ → ℕ → List ℕ
add_day days day = if any (λ d. d == day) days then days else days ++ (day ∷ [])

unfoldable pub add_days : List ℕ → List ℕ → List ℕ
unfolding add_day
add_days days [] = days
add_days days (day ∷ rest) = add_days (add_day days day) rest

abbrev pub or_error : {A : Type 0} → Option A → Error → Parsed A
or_error none e = err e
or_error (some a) e = ok a

-- `strings.SplitN(part, "-", 2)`, where the part holds a dash: the texts around the first one.
abbrev pub bounds : Text → Text × Text
bounds [] = ([], [])
bounds (c ∷ cs) = let (a, b) = bounds cs in if c == b'-' then ([], cs) else (c ∷ a, b)

-- One round of the loop over the parts: the days that it appends to.
unfoldable pub add_part : List ℕ → Text → Parsed (List ℕ)
add_part days part =
    let trimmed = trim_space part in
    if is_nil trimmed
    then err invalid_day_spec
    else if contains_char b'-' trimmed
    then (or_error (day_name (bounds trimmed).0) unknown_day >>= λ start.
        or_error (day_name (bounds trimmed).1) unknown_day >>= λ end_.
        or_error (expand_day_range start end_) no_days >>= λ range. ok (add_days days range))
    else or_error (day_name trimmed) unknown_day >>= λ day. ok (add_day days day)

unfoldable pub add_parts : List ℕ → List Text → Parsed (List ℕ)
add_parts days [] = ok days
add_parts days (part ∷ parts) = add_part days part >>= λ days'. add_parts days' parts

abbrev pub every_day : List ℕ
every_day = 0 ∷ 1 ∷ 2 ∷ 3 ∷ 4 ∷ 5 ∷ 6 ∷ []

abbrev pub some_days : List ℕ → Parsed (List ℕ)
some_days [] = err no_days
some_days (d ∷ ds) = ok (d ∷ ds)

unfoldable pub parse_day_spec : Text → Parsed (List ℕ)
parse_day_spec spec =
    let trimmed = to_lower (trim_space spec) in
    if is_nil trimmed
    then err empty_day_spec
    else if text_eq trimmed (codes "*")
    then ok every_day
    else add_parts [] (split b',' trimmed) >>= some_days
