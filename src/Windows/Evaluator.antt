-- ===== src/Windows/Evaluator.antt =====
-- `NewEvaluator`, `Evaluate` and `secondsSinceWeekStart` of pkg/windows/windows.go.
use clusterrebootd.Prelude.{
  ℕ, suc, ◌+◌, ◌*◌, Bool, true, false, ◌&&◌, not, Option, none, some, List, [], ◌∷◌, ◌++◌, map,
  if◌then◌else◌, is_nil, ok, err, ◌>>=◌,
}
use clusterrebootd.Text.{Text, trim_space}
use clusterrebootd.Windows.Error.{Error, Parsed, empty_deny, empty_allow, deny, allow}
use clusterrebootd.Windows.Interval.{Span, Interval, contains, seconds_per_day}
use clusterrebootd.Windows.Parse.{parse_expression}

pub record Evaluator : Type 0 where
  pub allow_list : List Interval
  pub deny_list : List Interval

-- A match is the expression of the interval.
pub record Decision : Type 0 where
  pub allowed : Bool
  pub allow_configured : Bool
  pub matched_allow : Option Text
  pub matched_deny : Option Text

-- The fields of a `time.Time` that the program reads.
pub record Clock : Type 0 where
  pub weekday : ℕ
  pub hour : ℕ
  pub minute : ℕ
  pub second : ℕ

unfoldable pub seconds_since_week_start : Clock → ℕ
seconds_since_week_start t =
    t.weekday * seconds_per_day + t.hour * 60 * 60 + t.minute * 60 + t.second

unfoldable pub label : Text → List Span → List Interval
label expr = map (λ s. record { span = s; expr = expr })

unfoldable pub label_error : (Error → Error) → Text → Parsed (List Span) → Parsed (List Interval)
label_error wrap expr (ok spans) = ok (label expr spans)
label_error wrap expr (err e) = err (wrap e)

-- One expression of a list, whose errors are `empty` and `wrap`.
unfoldable pub parse_entry : Error → (Error → Error) → Text → Parsed (List Interval)
parse_entry empty wrap expr =
    let trimmed = trim_space expr in
    if is_nil trimmed then err empty else label_error wrap trimmed (parse_expression trimmed)

-- The loop over one list, from position `idx` on.
unfoldable pub parse_entries :
    (ℕ → Error) → (ℕ → Error → Error) → ℕ → List Text → Parsed (List Interval)
parse_entries empty wrap idx [] = ok []
parse_entries empty wrap idx (expr ∷ exprs) =
    parse_entry (empty idx) (wrap idx) expr >>= λ intervals.
    parse_entries empty wrap (suc idx) exprs >>= λ rest. ok (intervals ++ rest)

-- A nil evaluator where no interval is configured.
unfoldable pub new_evaluator : List Text → List Text → Parsed (Option Evaluator)
new_evaluator allow_exprs deny_exprs = parse_entries empty_deny deny 0 deny_exprs >>= λ denied.
    parse_entries empty_allow allow 0 allow_exprs >>= λ allowed. ok (
      if is_nil allowed && is_nil denied
      then none
      else some (record { allow_list = allowed; deny_list = denied }))

-- The expression of the first interval that contains the instant.
unfoldable pub first_match : List Interval → ℕ → Option Text
first_match [] seconds = none
first_match (i ∷ is) seconds =
    if contains i.span seconds then some i.expr else first_match is seconds

decide_allow : Bool → Option Text → Decision
decide_allow false _ = record {
  allowed = true;
  allow_configured = false;
  matched_allow = none;
  matched_deny = none;
}
decide_allow true none = record {
  allowed = false;
  allow_configured = true;
  matched_allow = none;
  matched_deny = none;
}
decide_allow true (some expr) = record {
  allowed = true;
  allow_configured = true;
  matched_allow = some expr;
  matched_deny = none;
}

decide : Bool → Option Text → Option Text → Decision
decide configured (some expr) allowed = record {
  allowed = false;
  allow_configured = configured;
  matched_allow = none;
  matched_deny = some expr;
}
decide configured none allowed = decide_allow configured allowed

unfoldable pub evaluate_at : Evaluator → ℕ → Decision
unfolding decide decide_allow
evaluate_at e seconds =
    decide (not (is_nil e.allow_list)) (first_match e.deny_list seconds)
      (first_match e.allow_list seconds)

unfoldable pub evaluate : Evaluator → Clock → Decision
evaluate e t = evaluate_at e (seconds_since_week_start t)
