-- ===== src/Windows/DayLaws.antt =====
-- Day ranges and day specifications: what they hold, and that no day is listed twice.
use clusterrebootd.Prelude.{
  ℕ, zero, suc, ◌+◌, ◌-◌, ◌%◌, ◌<◌, ◌≡◌, refl, ◌≢◌, Bool, true, false, ◌&&◌, inl, inr, Option, none,
  some, List, [], ◌∷◌, ◌++◌, arith, ltb, leb, ◌==◌, bool_eq, is_nil, any, any-append, All,
  All-append, Bool-cases, ok, OnOk, ◌>>=◌, >>=-OnOk,
}
use clusterrebootd.Text.{Text, codes, text_eq, trim_space, to_lower, split, contains_char}
use clusterrebootd.Windows.Error.{Error, unknown_day, no_days}
use clusterrebootd.Windows.Days.{
  or_error, bounds, some_days, day_name, expand_day_range, add_day, add_days, add_part, add_parts,
  every_day, parse_day_spec,
}

abbrev pub has_day : List ℕ → ℕ → Bool
has_day days day = any (λ d. d == day) days

-- No day twice.
abbrev pub IsDistinct : List ℕ → Type 0
IsDistinct [] = Unit
IsDistinct (d ∷ ds) = (has_day ds d ≡ false) × IsDistinct ds

-- Days of the week, none of them twice.
pub record IsWeekPart (days : List ℕ) : Type 0 where
  pub in_week : All (λ d. d < 7) days
  pub distinct : IsDistinct days

-- The test holds of the seven days.
on_each_day : (ℕ → Bool) → Bool
on_each_day p = p 0 && p 1 && p 2 && p 3 && p 4 && p 5 && p 6

on_each_day_lem : (p : ℕ → Bool) (day : ℕ) → on_each_day p ≡ true → day < 7 → p day ≡ true
unfolding on_each_day
on_each_day_lem p zero h lt = ground arith
on_each_day_lem p (suc zero) h lt = ground arith
on_each_day_lem p (suc (suc zero)) h lt = ground arith
on_each_day_lem p (suc (suc (suc zero))) h lt = ground arith
on_each_day_lem p (suc (suc (suc (suc zero)))) h lt = ground arith
on_each_day_lem p (suc (suc (suc (suc (suc zero))))) h lt = ground arith
on_each_day_lem p (suc (suc (suc (suc (suc (suc zero)))))) h lt = ground arith
on_each_day_lem p (suc (suc (suc (suc (suc (suc (suc d))))))) h lt = absurd (omega arith)

-- `day` is met on the way from `start` forward to `end_`.
abbrev pub between : ℕ → ℕ → ℕ → Bool
between start end_ day = leb ((day + 7 - start) % 7) ((end_ + 7 - start) % 7)

all_in_week : List ℕ → Bool
all_in_week [] = true
all_in_week (d ∷ ds) = ltb d 7 && all_in_week ds

range_agrees : ℕ → ℕ → ℕ → Option (List ℕ) → Bool
range_agrees start end_ day none = false
range_agrees start end_ day (some days) =
    bool_eq (has_day days day) (between start end_ day) && all_in_week days

range_table :
    on_each_day (λ start.
      on_each_day
        (λ end_. on_each_day (λ day. range_agrees start end_ day (expand_day_range start end_))))
    ≡ true
unfolding on_each_day range_agrees expand_day_range all_in_week
range_table = refl

range_agrees_at :
    (start end_ day : ℕ)
    → start < 7
    → end_ < 7
    → day < 7
    → range_agrees start end_ day (expand_day_range start end_) ≡ true
range_agrees_at start end_ day hs he hd =
    on_each_day_lem _ day (on_each_day_lem _ end_ (on_each_day_lem _ start range_table hs) he) hd

all_in_week_sound : (days : List ℕ) → all_in_week days ≡ true → All (λ d. d < 7) days
unfolding all_in_week
all_in_week_sound [] h = tt
all_in_week_sound (d ∷ ds) h = ground (arith, all_in_week_sound ds)

agrees_days :
    (start end_ day : ℕ) (o : Option (List ℕ))
    → range_agrees start end_ day o ≡ true
    → (days : List ℕ) × (o ≡ some days)
      × (has_day days day ≡ between start end_ day)
      × All (λ d. d < 7) days
unfolding range_agrees
agrees_days start end_ day none h = cc
agrees_days start end_ day (some days) h =
    (days, refl, ground arith, all_in_week_sound days (ground arith))

-- For days of the week the loop ends, all it lists is a day of the week, and a day is listed
-- exactly if it is met on the way forward from the first to the last.
pub expand_day_range_lem :
    (start end_ day : ℕ)
    → start < 7
    → end_ < 7
    → day < 7
    → (days : List ℕ) × (expand_day_range start end_ ≡ some days)
      × (has_day days day ≡ between start end_ day)
      × All (λ d. d < 7) days
expand_day_range_lem start end_ day hs he hd =
    agrees_days start end_ day (expand_day_range start end_)
      (range_agrees_at start end_ day hs he hd)

IsDistinct-concat :
    (days : List ℕ) (day : ℕ)
    → IsDistinct days
    → has_day days day ≡ false
    → IsDistinct (days ++ (day ∷ []))
IsDistinct-concat [] day h n = (refl, tt)
IsDistinct-concat (d ∷ ds) day h n = (
  ground (arith, any-append (λ x. x == d) ds (day ∷ [])),
  IsDistinct-concat ds day h.1 (ground arith),
)

add_day-IsWeekPart :
    (days : List ℕ) (day : ℕ) → IsWeekPart days → day < 7 → IsWeekPart (add_day days day)
unfolding add_day
add_day-IsWeekPart days day h d = elim (Bool-cases (has_day days day)) [
  | inl seen ↦ rw seen h
  | inr fresh ↦ rw fresh (record {
    in_week = All-append (λ x. x < 7) days (day ∷ []) h.in_week (d, tt);
    distinct = IsDistinct-concat days day h.distinct fresh;
  })
]

pub add_days-IsWeekPart :
    (range days : List ℕ)
    → IsWeekPart days
    → All (λ d. d < 7) range
    → IsWeekPart (add_days days range)
unfolding add_days
add_days-IsWeekPart [] days h r = h
add_days-IsWeekPart (d ∷ range) days h r =
    add_days-IsWeekPart range (add_day days d) (add_day-IsWeekPart days d h r.0) r.1

-- A day name stands for a day of the week.
pub day_name-lt : (value : Text) {day : ℕ} → day_name value ≡ some day → day < 7
unfolding day_name
day_name-lt value h = ground arith

or_error-OnOk :
    {A : Type 0} (P : A → Type 0) (o : Option A) (e : Error)
    → ((a : A) → o ≡ some a → P a)
    → OnOk P (or_error o e)
or_error-OnOk P none e h = tt
or_error-OnOk P (some a) e h = h a refl

day_name-OnOk : (value : Text) → OnOk (λ d. d < 7) (or_error (day_name value) unknown_day)
day_name-OnOk value =
    or_error-OnOk (λ d. d < 7) (day_name value) unknown_day (λ d e. day_name-lt value e)

range-OnOk :
    (start end_ : ℕ)
    → start < 7
    → end_ < 7
    → OnOk (All (λ d. d < 7)) (or_error (expand_day_range start end_) no_days)
range-OnOk start end_ hs he =
    let (days, e, _, week) = expand_day_range_lem start end_ 0 hs he (omega arith) in rw e week

range_part-IsWeekPart :
    (days : List ℕ) (from to : Text)
    → IsWeekPart days
    → OnOk IsWeekPart (
        or_error (day_name from) unknown_day >>= λ start.
        or_error (day_name to) unknown_day >>= λ end_.
        or_error (expand_day_range start end_) no_days >>= λ range. ok (add_days days range))
range_part-IsWeekPart days from to h =
    >>=-OnOk (λ d. d < 7) IsWeekPart (or_error (day_name from) unknown_day) _ (day_name-OnOk from)
      λ start hs.
        >>=-OnOk (λ d. d < 7) IsWeekPart (or_error (day_name to) unknown_day) _ (day_name-OnOk to)
          λ end_ he.
            >>=-OnOk (All (λ d. d < 7)) IsWeekPart (or_error (expand_day_range start end_) no_days)
              _ (range-OnOk start end_ hs he) λ range r. add_days-IsWeekPart range days h r

name_part-IsWeekPart :
    (days : List ℕ) (name : Text)
    → IsWeekPart days
    → OnOk IsWeekPart (or_error (day_name name) unknown_day >>= λ day. ok (add_day days day))
name_part-IsWeekPart days name h =
    >>=-OnOk (λ d. d < 7) IsWeekPart (or_error (day_name name) unknown_day) _ (day_name-OnOk name)
      λ day d. add_day-IsWeekPart days day h d

add_part-IsWeekPart :
    (days : List ℕ) (part : Text) → IsWeekPart days → OnOk IsWeekPart (add_part days part)
unfolding add_part
add_part-IsWeekPart days part h = elim (Bool-cases (is_nil (trim_space part))) [
  | inl blank ↦ rw blank tt
  | inr full ↦ rw full (elim (Bool-cases (contains_char b'-' (trim_space part))) [
    | inl dash ↦
        rw dash
          (range_part-IsWeekPart days (bounds (trim_space part)).0 (bounds (trim_space part)).1 h)
    | inr plain ↦ rw plain (name_part-IsWeekPart days (trim_space part) h)
  ])
]

add_parts-IsWeekPart :
    (parts : List Text) (days : List ℕ) → IsWeekPart days → OnOk IsWeekPart (add_parts days parts)
unfolding add_parts
add_parts-IsWeekPart [] days h = h
add_parts-IsWeekPart (part ∷ parts) days h =
    >>=-OnOk IsWeekPart IsWeekPart (add_part days part) _ (add_part-IsWeekPart days part h)
      λ days' h'. add_parts-IsWeekPart parts days' h'

-- The days of a specification: days of the week, at least one, none of them twice.
abbrev pub IsDays : List ℕ → Type 0
IsDays days = IsWeekPart days × (days ≢ [])

some_days-IsDays : (days : List ℕ) → IsWeekPart days → OnOk IsDays (some_days days)
some_days-IsDays [] h = tt
some_days-IsDays (d ∷ ds) h = (h, λ e. cc)

every_day-IsDays : IsDays every_day
every_day-IsDays = (record { in_week = omega arith; distinct = ground arith }, λ e. cc)

-- A day specification that is read names at least one day, only days of the week, and none twice.
pub parse_day_spec-IsDays : (spec : Text) → OnOk IsDays (parse_day_spec spec)
unfolding parse_day_spec
parse_day_spec-IsDays spec = elim (Bool-cases (is_nil (to_lower (trim_space spec)))) [
  | inl blank ↦ rw blank tt
  | inr full ↦ rw full (elim (Bool-cases (text_eq (to_lower (trim_space spec)) (codes "*"))) [
    | inl star ↦ rw star every_day-IsDays
    | inr plain ↦ rw plain (
        >>=-OnOk IsWeekPart IsDays (add_parts [] (split b',' (to_lower (trim_space spec)))) _
          (add_parts-IsWeekPart (split b',' (to_lower (trim_space spec))) []
            (record { in_week = tt; distinct = tt }))
          some_days-IsDays)
  ])
]
