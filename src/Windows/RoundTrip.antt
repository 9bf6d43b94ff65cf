-- ===== src/Windows/RoundTrip.antt =====
-- A window that is printed as `Mon 09:05-Tue 17:30` is read back as that window.
use clusterrebootd.Prelude.{
  ℕ, zero, suc, ◌+◌, ◌*◌, ◌/◌, ◌%◌, ◌<◌, ◌≡◌, refl, true, false, ◌||◌, some, List, [], ◌∷◌, ◌++◌,
  arith, ◌==◌, take, drop, is_nil, ok,
}
use clusterrebootd.Text.{
  Text, codes, is_space, trim_space, fields, index, text_eq, to_lower, split, join,
}
use clusterrebootd.Windows.Days.{day_name, add_day, add_part, add_parts, parse_day_spec}
use clusterrebootd.Windows.TimeLaws.{show_time, parse_time_of_day-show_time}
use clusterrebootd.Windows.Interval.{spans_to_day}
use clusterrebootd.Windows.Parse.{
  start_of_tokens, end_of_tokens, parse_day_and_time, parse_end_part, build, parse_parts, at_dash,
  at_colon, parse_expression,
}

-- The short name of a day of the week.
abbrev pub show_day : ℕ → Text
show_day zero = codes "Sun"
show_day (suc zero) = codes "Mon"
show_day (suc (suc zero)) = codes "Tue"
show_day (suc (suc (suc zero))) = codes "Wed"
show_day (suc (suc (suc (suc zero)))) = codes "Thu"
show_day (suc (suc (suc (suc (suc zero))))) = codes "Fri"
show_day (suc (suc (suc (suc (suc (suc d)))))) = codes "Sat"

abbrev pub show_day_time : ℕ → ℕ → ℕ → Text
show_day_time day hour minute = show_day day ++ (b' ' ∷ show_time hour minute)

abbrev pub show_window : ℕ → ℕ → ℕ → ℕ → ℕ → ℕ → Text
show_window day hour minute end_day end_hour end_minute =
    show_day_time day hour minute ++ (b'-' ∷ show_day_time end_day end_hour end_minute)

parse_day_spec-show_day : (day : ℕ) → day < 7 → parse_day_spec (show_day day) ≡ ok (day ∷ [])
unfolding parse_day_spec add_parts add_part add_day day_name trim_space to_lower split text_eq
    is_space
parse_day_spec-show_day zero h = refl
parse_day_spec-show_day (suc zero) h = refl
parse_day_spec-show_day (suc (suc zero)) h = refl
parse_day_spec-show_day (suc (suc (suc zero))) h = refl
parse_day_spec-show_day (suc (suc (suc (suc zero)))) h = refl
parse_day_spec-show_day (suc (suc (suc (suc (suc zero))))) h = refl
parse_day_spec-show_day (suc (suc (suc (suc (suc (suc zero)))))) h = refl
parse_day_spec-show_day (suc (suc (suc (suc (suc (suc (suc d))))))) h = absurd (omega arith)

is_space_digit : (n : ℕ) → n < 10 → is_space (48 + n) ≡ false
unfolding is_space
is_space_digit n h = ground arith

-- A character that is neither a space nor one of the marks that an expression is cut at.
record IsPlain (c : ℕ) : Type 0 where
  not_space : is_space c ≡ false
  not_colon : (c == b':') ≡ false
  not_dash : (c == b'-') ≡ false

digit-IsPlain : (n : ℕ) → n < 10 → IsPlain (48 + n)
digit-IsPlain n h = record {
  not_space = is_space_digit n h;
  not_colon = ground arith;
  not_dash = ground arith;
}

-- Three plain letters, as every short name has.
record IsName (name : Text) : Type 0 where
  a : ℕ
  b : ℕ
  c : ℕ
  spelled : name ≡ a ∷ b ∷ c ∷ []
  plain : IsPlain a × IsPlain b × IsPlain c

letters-IsName : (a b c : ℕ) → IsPlain a → IsPlain b → IsPlain c → IsName (a ∷ b ∷ c ∷ [])
letters-IsName a b c pa pb pc = record { a = a; b = b; c = c; spelled = refl; plain = (pa, pb, pc) }

letter : (c : ℕ) → (is_space c || c == b':' || c == b'-') ≡ false → IsPlain c
letter c h = ground arith

show_day-IsName : (day : ℕ) → IsName (show_day day)
unfolding is_space
show_day-IsName zero = letters-IsName _ _ _ (letter b'S' refl) (letter b'u' refl) (letter b'n' refl)
show_day-IsName (suc zero) =
    letters-IsName _ _ _ (letter b'M' refl) (letter b'o' refl) (letter b'n' refl)
show_day-IsName (suc (suc zero)) =
    letters-IsName _ _ _ (letter b'T' refl) (letter b'u' refl) (letter b'e' refl)
show_day-IsName (suc (suc (suc zero))) =
    letters-IsName _ _ _ (letter b'W' refl) (letter b'e' refl) (letter b'd' refl)
show_day-IsName (suc (suc (suc (suc zero)))) =
    letters-IsName _ _ _ (letter b'T' refl) (letter b'h' refl) (letter b'u' refl)
show_day-IsName (suc (suc (suc (suc (suc zero))))) =
    letters-IsName _ _ _ (letter b'F' refl) (letter b'r' refl) (letter b'i' refl)
show_day-IsName (suc (suc (suc (suc (suc (suc d)))))) =
    letters-IsName _ _ _ (letter b'S' refl) (letter b'a' refl) (letter b't' refl)

-- A name and a time, character by character.
module _ (a b c w x y z : ℕ) (pa : IsPlain a) (pb : IsPlain b) (pc : IsPlain c) (pw : IsPlain w)
    (px : IsPlain x) (py : IsPlain y) (pz : IsPlain z) where
  abbrev moment : Text
  moment = a ∷ b ∷ c ∷ b' ' ∷ w ∷ x ∷ b':' ∷ y ∷ z ∷ []

  fields-moment : fields moment ≡ (a ∷ b ∷ c ∷ []) ∷ (w ∷ x ∷ b':' ∷ y ∷ z ∷ []) ∷ []
  unfolding fields
  fields-moment = rw (
    pa.not_space, pb.not_space, pc.not_space, pw.not_space, px.not_space, py.not_space,
    pz.not_space,
  )

  trim_moment : trim_space moment ≡ moment
  unfolding trim_space
  trim_moment = rw (pa.not_space, pz.not_space)

  colon_of_moment : (rest : Text) → index b':' (moment ++ rest) ≡ some 6
  unfolding index
  colon_of_moment rest = rw (pa.not_colon, pb.not_colon, pc.not_colon, pw.not_colon, px.not_colon)

  dash_of_moment : (rest : Text) → index b'-' (drop 6 (moment ++ (b'-' ∷ rest))) ≡ some 3
  unfolding index
  dash_of_moment rest = rw (py.not_dash, pz.not_dash)

digits_of : (n : ℕ) → n < 100 → IsPlain (48 + n / 10) × IsPlain (48 + n % 10)
digits_of n h = (digit-IsPlain (n / 10) (omega arith), digit-IsPlain (n % 10) (omega arith))

module _ (day hour minute : ℕ) (hd : day < 7) (hh : hour < 24) (hm : minute < 60) where
  fields-show_day_time :
      fields (show_day_time day hour minute) ≡ show_day day ∷ show_time hour minute ∷ []
  fields-show_day_time =
      let n = show_day-IsName day in
      let (w, x) = digits_of hour (omega arith) in
      let (y, z) = digits_of minute (omega arith) in
      rw n.spelled (fields-moment _ _ _ _ _ _ _ n.plain.0 n.plain.1 n.plain.2 w x y z)

  trim-show_day_time : trim_space (show_day_time day hour minute) ≡ show_day_time day hour minute
  trim-show_day_time =
      let n = show_day-IsName day in
      let (w, x) = digits_of hour (omega arith) in
      let (y, z) = digits_of minute (omega arith) in
      rw n.spelled (trim_moment _ _ _ _ _ _ _ n.plain.0 n.plain.1 n.plain.2 w x y z)

  colon-show_day_time : (rest : Text) → index b':' (show_day_time day hour minute ++ rest) ≡ some 6
  colon-show_day_time rest =
      let n = show_day-IsName day in
      let (w, x) = digits_of hour (omega arith) in
      let (y, z) = digits_of minute (omega arith) in
      rw n.spelled (colon_of_moment _ _ _ _ _ _ _ n.plain.0 n.plain.1 n.plain.2 w x y z rest)

  dash-show_day_time :
      (rest : Text) → index b'-' (drop 6 (show_day_time day hour minute ++ (b'-' ∷ rest))) ≡ some 3
  dash-show_day_time rest =
      let n = show_day-IsName day in
      let (w, x) = digits_of hour (omega arith) in
      let (y, z) = digits_of minute (omega arith) in
      rw n.spelled (dash_of_moment _ _ _ _ _ _ _ n.plain.0 n.plain.1 n.plain.2 w x y z rest)

  take-show_day_time :
      (rest : Text) → take 9 (show_day_time day hour minute ++ rest) ≡ show_day_time day hour minute
  take-show_day_time rest = rw (show_day-IsName day).spelled

  drop-show_day_time :
      (c : ℕ) (rest : Text) → drop 10 (show_day_time day hour minute ++ (c ∷ rest)) ≡ rest
  drop-show_day_time c rest = rw (show_day-IsName day).spelled

  parse_day_and_time-show :
      parse_day_and_time (show_day_time day hour minute) ≡ ok (day ∷ [], (hour * 60 + minute) * 60)
  unfolding parse_day_and_time start_of_tokens join
  parse_day_and_time-show =
      rw fields-show_day_time
        (rw (parse_time_of_day-show_time hour minute hh hm) (rw (parse_day_spec-show_day day hd)))

  parse_end_part-show :
      (default_days : List ℕ)
      → parse_end_part (show_day_time day hour minute) default_days
        ≡ ok (day ∷ [], true, (hour * 60 + minute) * 60)
  unfolding parse_end_part end_of_tokens join
  parse_end_part-show default_days =
      rw fields-show_day_time
        (rw (parse_time_of_day-show_time hour minute hh hm) (rw (parse_day_spec-show_day day hd)))

  show_day_time-ne-nil : is_nil (show_day_time day hour minute) ≡ false
  show_day_time-ne-nil = rw (show_day-IsName day).spelled

-- Any window from one day of the week and time to another, printed with the short day names, is
-- read back as the intervals of that window.
pub parse_expression-show_window :
    (day hour minute end_day end_hour end_minute : ℕ)
    → day < 7
    → hour < 24
    → minute < 60
    → end_day < 7
    → end_hour < 24
    → end_minute < 60
    → parse_expression (show_window day hour minute end_day end_hour end_minute)
      ≡ ok
          (spans_to_day day ((hour * 60 + minute) * 60) end_day ((end_hour * 60 + end_minute) * 60))
unfolding parse_expression at_colon at_dash parse_parts build
parse_expression-show_window day hour minute end_day end_hour end_minute hd hh hm hf hg hn =
    let finish = show_day_time end_day end_hour end_minute in
    rw (colon-show_day_time day hour minute hd hh hm (b'-' ∷ finish)) (
      rw (dash-show_day_time day hour minute hd hh hm finish) (
        rw (take-show_day_time day hour minute hd hh hm (b'-' ∷ finish)) (
          rw (drop-show_day_time day hour minute hd hh hm b'-' finish) (
            rw (trim-show_day_time day hour minute hd hh hm) (
              rw (trim-show_day_time end_day end_hour end_minute hf hg hn) (
                rw (show_day_time-ne-nil day hour minute hd hh hm) (
                  rw (show_day_time-ne-nil end_day end_hour end_minute hf hg hn) (
                    rw (parse_day_and_time-show day hour minute hd hh hm)
                      (rw (parse_end_part-show end_day end_hour end_minute hf hg hn))))))))))
