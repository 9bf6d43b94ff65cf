-- ===== src/Windows/Reading.antt =====
-- What an expression of pkg/windows/windows.go says, apart from how it is parsed: the text around
-- its colon and dash, and the days and times that its words name.
use mathlib.Core.List.{append_assoc}
use clusterrebootd.Prelude.{
  ℕ, suc, ◌+◌, ◌≡◌, refl, sym, ap, ◌∙◌, false, Option, none, some, List, [], ◌∷◌, ◌++◌, arith, take,
  drop, length, length-append, is_nil, ok, ◌==◌, Bool-cases, inl, inr,
}
use clusterrebootd.Text.{Text, codes, trim_space, fields, join, index, contains_char}
use clusterrebootd.Windows.Days.{parse_day_spec}
use clusterrebootd.Windows.TimeOfDay.{parse_time_of_day}

-- What a window says, as text order apart: times for each of some days, or one stretch from a day
-- to a day.
pub data Window : Type 0 where
  daily : List ℕ → ℕ → ℕ → Window
  stretch : ℕ → ℕ → ℕ → ℕ → Window

-- The two sides of the first dash behind the first colon, trimmed.
abbrev pub Parts : Text → Text → Text → Type 0
Parts expr start finish =
    (before : Text) × (mid : Text) × (after : Text) × (expr
      ≡ before ++ b':' ∷ (mid ++ b'-' ∷ after))
    × (contains_char b':' before ≡ false)
    × (contains_char b'-' mid ≡ false)
    × (start ≡ trim_space (before ++ b':' ∷ mid))
    × (finish ≡ trim_space after)

-- The words name these days; no word is every day.
abbrev pub NamesDays : List Text → List ℕ → Type 0
NamesDays [] days = parse_day_spec (codes "*") ≡ ok days
NamesDays (w ∷ ws) days = parse_day_spec (join (codes " ") (w ∷ ws)) ≡ ok days

-- The words are days and then a time.
abbrev pub Says : List Text → List Text → List ℕ → ℕ → Type 0
Says words day_words days seconds =
    (time : Text) × (words ≡ day_words ++ time ∷ [])
    × (parse_time_of_day time ≡ ok seconds)
    × NamesDays day_words days

abbrev pub SaysStart : Text → List ℕ → ℕ → Type 0
SaysStart part days seconds = (ws : List Text) × Says (fields part) ws days seconds

-- An end without days is one word, a time.
abbrev pub SaysTime : List Text → ℕ → Type 0
SaysTime words seconds = (time : Text) × (words ≡ time ∷ []) × (parse_time_of_day time ≡ ok seconds)

abbrev pub SaysEnd : List Text → List ℕ → ℕ → Type 0
SaysEnd words days seconds = (ws : List Text) × (is_nil ws ≡ false) × Says words ws days seconds

-- The expression says the window: its start names the days and the time of a daily window and its
-- end the other time, or each of them names one day and a time.
abbrev pub ReadsAs : Text → Window → Type 0
ReadsAs expr (daily days start_ end_) =
    (p : Text) × (q : Text) × Parts expr p q × SaysStart p days start_ × SaysTime (fields q) end_
ReadsAs expr (stretch start_day start_ end_day end_) =
    (p : Text) × (q : Text) × Parts expr p q
    × SaysStart p (start_day ∷ []) start_
    × SaysEnd (fields q) (end_day ∷ []) end_

-- A text is cut at a character.
abbrev CutAt : ℕ → Text → ℕ → Type 0
CutAt c s i =
    (a : Text) × (b : Text) × (s ≡ a ++ c ∷ b) × (contains_char c a ≡ false) × (length a ≡ i)

later-CutAt :
    (c x : ℕ) (s : Text) (found : Option ℕ) {i : ℕ}
    → (x == c) ≡ false
    → ((j : ℕ) → found ≡ some j → CutAt c s j)
    → (elim found [ none ↦ none | some j ↦ some (suc j) ]) ≡ some i
    → CutAt c (x ∷ s) i
later-CutAt c x s none there rest h = cc
later-CutAt c x s (some j) there rest h =
    let (a, b, whole, without, long) = rest j refl in
    (x ∷ a, b, ap (λ y. x ∷ y) whole, ground (arith, there, without), ground (arith, long, h))

index-CutAt : (c : ℕ) (s : Text) {i : ℕ} → index c s ≡ some i → CutAt c s i
unfolding index
index-CutAt c [] h = cc
index-CutAt c (x ∷ s) {i} h = elim (Bool-cases (x == c)) [
  | inl here ↦
      let same : x ≡ c = ground (arith, here) in
      ([], s, ap (λ y. y ∷ s) same, refl, ground (arith, h, here))
  | inr there ↦ later-CutAt c x s (index c s) there (λ j e. index-CutAt c s e) (rw there at h)
]

take-length : (a b : Text) → take (length a) (a ++ b) ≡ a
take-length [] b = refl
take-length (x ∷ a) b = ap (λ y. x ∷ y) (take-length a b)

drop-length : (a b : Text) → drop (length a) (a ++ b) ≡ b
drop-length [] b = refl
drop-length (x ∷ a) b = drop-length a b

drop-suc-length : (a : Text) (c : ℕ) (b : Text) → drop (suc (length a)) (a ++ c ∷ b) ≡ b
drop-suc-length [] c b = refl
drop-suc-length (x ∷ a) c b = drop-suc-length a c b

-- Cut at the dash, the sides are as they stand.
cut-Parts :
    (expr a mid after : Text) (n : ℕ)
    → expr ≡ a ++ b':' ∷ (mid ++ b'-' ∷ after)
    → contains_char b':' a ≡ false
    → contains_char b'-' mid ≡ false
    → n ≡ length (a ++ b':' ∷ mid)
    → Parts expr (trim_space (take n expr)) (trim_space (drop (suc n) expr))
cut-Parts expr a mid after n e ha hm long =
    let whole : expr ≡ (a ++ b':' ∷ mid) ++ b'-' ∷ after =
      e ∙ sym (append_assoc a (b':' ∷ mid) (b'-' ∷ after)) in
    (
      a,
      mid,
      after,
      e,
      ha,
      hm,
      ap trim_space (
          ap (take n) whole
          ∙ ap (λ k. take k ((a ++ b':' ∷ mid) ++ b'-' ∷ after)) long
          ∙ take-length (a ++ b':' ∷ mid) (b'-' ∷ after)),
      ap trim_space (
          ap (drop (suc n)) whole
          ∙ ap (λ k. drop (suc k) ((a ++ b':' ∷ mid) ++ b'-' ∷ after)) long
          ∙ drop-suc-length (a ++ b':' ∷ mid) b'-' after),
    )

-- The dash is looked for from the colon on, and does not stand at it.
dash-Parts :
    (expr a b u v : Text) (colon dash : ℕ)
    → expr ≡ a ++ b':' ∷ b
    → contains_char b':' a ≡ false
    → length a ≡ colon
    → b':' ∷ b ≡ u ++ b'-' ∷ v
    → contains_char b'-' u ≡ false
    → length u ≡ dash
    → Parts expr
        (trim_space (take (dash + colon) expr))
        (trim_space (drop (suc (dash + colon)) expr))
dash-Parts expr a b [] v colon dash e ha la f hu lu =
    let clash : ◌≡◌ {A = ℕ} b':' b'-' = cc in ground (arith, clash)
dash-Parts expr a b (x ∷ mid) v colon dash e ha la f hu lu =
    let rest : b ≡ mid ++ b'-' ∷ v = cc in
    cut-Parts expr a mid v (dash + colon) (e ∙ ap (λ y. a ++ b':' ∷ y) rest) ha (ground (arith, hu))
      (omega (arith, la, lu, length-append a (b':' ∷ mid)))

pub at_dash-Parts :
    (expr : Text) (colon dash : ℕ)
    → index b':' expr ≡ some colon
    → index b'-' (drop colon expr) ≡ some dash
    → Parts expr
        (trim_space (take (dash + colon) expr))
        (trim_space (drop (suc (dash + colon)) expr))
at_dash-Parts expr colon dash h k =
    let (a, b, whole, without, long) = index-CutAt b':' expr h in
    let tail : drop colon expr ≡ b':' ∷ b =
      ap (drop colon) whole
      ∙ ap (λ n. drop n (a ++ b':' ∷ b)) (sym long)
      ∙ drop-length a (b':' ∷ b) in
    let (u, v, cut, clear, far) = index-CutAt b'-' (drop colon expr) k in
    dash-Parts expr a b u v colon dash whole without long (sym tail ∙ cut) clear far
