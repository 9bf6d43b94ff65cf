-- ===== src/Windows/EvaluatorLaws.antt =====
-- The decision of a configured evaluator, against the expressions that it was built from.
use clusterrebootd.Prelude.{
  ℕ, suc, ◌≡◌, refl, ◌≢◌, Bool, true, false, not, ◌&&◌, ◌||◌, inl, inr, Option, none, some, List,
  [], ◌∷◌, ◌++◌, arith, is_nil, any, any-append, Bool-cases, ok, err, >>=-eq-ok, OnOk,
}
use clusterrebootd.Text.{Text, trim_space}
use clusterrebootd.Windows.Error.{Error, Parsed, empty_deny, empty_allow, deny, allow}
use clusterrebootd.Windows.Interval.{Span, Interval, contains, covers}
use clusterrebootd.Windows.Parse.{parse_expression}
use clusterrebootd.Windows.ParseLaws.{IsMeant, parse_expression-IsMeant}
use clusterrebootd.Windows.Evaluator.{
  Evaluator, label, label_error, parse_entry, parse_entries, new_evaluator, first_match,
  evaluate_at,
}

abbrev covers_parsed : Parsed (List Span) → ℕ → Bool
covers_parsed (ok spans) t = covers spans t
covers_parsed (err e) t = false

-- Some expression of the list covers the instant.
abbrev pub matches : List Text → ℕ → Bool
matches exprs t = any (λ expr. covers_parsed (parse_expression (trim_space expr)) t) exprs

abbrev hits : List Interval → ℕ → Bool
hits is t = any (λ i. contains i.span t) is

abbrev is_some : {A : Type 0} → Option A → Bool
is_some none = false
is_some (some a) = true

first_match-hits : (is : List Interval) (t : ℕ) → is_some (first_match is t) ≡ hits is t
unfolding first_match
first_match-hits [] t = refl
first_match-hits (i ∷ is) t = ground (arith, first_match-hits is t)

hits-label : (expr : Text) (spans : List Span) (t : ℕ) → hits (label expr spans) t ≡ covers spans t
unfolding label
hits-label expr [] t = refl
hits-label expr (s ∷ spans) t = ground (arith, hits-label expr spans t)

-- The decision in terms of the two lists of intervals.
evaluate_at-hits :
    (e : Evaluator) (t : ℕ)
    → (evaluate_at e t).allowed
      ≡ (not (hits e.deny_list t) && (is_nil e.allow_list || hits e.allow_list t))
unfolding evaluate_at
evaluate_at-hits e t =
    ground (arith, first_match-hits e.deny_list t, first_match-hits e.allow_list t)

label-ne-nil : (expr : Text) (spans : List Span) → spans ≢ [] → is_nil (label expr spans) ≡ false
unfolding label
label-ne-nil expr [] h = absurd (h refl)
label-ne-nil expr (s ∷ spans) h = refl

labelled :
    (wrap : Error → Error) (expr : Text) (r : Parsed (List Span)) {is : List Interval}
    → OnOk (IsMeant expr) r
    → label_error wrap expr r ≡ ok is
    → (is_nil is ≡ false) × ((t : ℕ) → hits is t ≡ covers_parsed r t)
unfolding label_error
labelled wrap expr (err e) m h = cc
labelled wrap expr (ok spans) {is} m h =
    let same : label expr spans ≡ is = cc in
    rw (← same) (label-ne-nil expr spans m.2.not_nil, λ t. hits-label expr spans t)

parse_entry_lem :
    (empty : Error) (wrap : Error → Error) (expr : Text) {is : List Interval}
    → parse_entry empty wrap expr ≡ ok is
    → (is_nil is ≡ false)
      × ((t : ℕ) → hits is t ≡ covers_parsed (parse_expression (trim_space expr)) t)
unfolding parse_entry
parse_entry_lem empty wrap expr h = elim (Bool-cases (is_nil (trim_space expr))) [
  | inl blank ↦ absurd (ground arith)
  | inr full ↦
      labelled wrap (trim_space expr) (parse_expression (trim_space expr))
        (parse_expression-IsMeant (trim_space expr)) (rw full at h)
]

-- What a list of expressions was read as.
abbrev IsRead : List Text → List Interval → Type 0
IsRead exprs is = (is_nil is ≡ is_nil exprs) × ((t : ℕ) → hits is t ≡ matches exprs t)

append-IsRead :
    (expr : Text) (exprs : List Text) (is js : List Interval)
    → is_nil is ≡ false
    → ((t : ℕ) → hits is t ≡ covers_parsed (parse_expression (trim_space expr)) t)
    → IsRead exprs js
    → IsRead (expr ∷ exprs) (is ++ js)
append-IsRead expr exprs [] js n h r = cc
append-IsRead expr exprs (i ∷ is) js n h r =
    (refl, λ t. ground (arith, any-append (λ i. contains i.span t) is js, h t, r.1 t))

parse_entries-IsRead :
    (empty : ℕ → Error) (wrap : ℕ → Error → Error) (idx : ℕ) (exprs : List Text)
    {is : List Interval}
    → parse_entries empty wrap idx exprs ≡ ok is
    → IsRead exprs is
unfolding parse_entries
parse_entries-IsRead empty wrap idx [] {is} h =
    let none_read : [] ≡ is = cc in rw (← none_read) (refl, λ t. refl)
parse_entries-IsRead empty wrap idx (expr ∷ exprs) {is} h =
    let (first, e₁, h₁) = >>=-eq-ok (parse_entry (empty idx) (wrap idx) expr) _ h in
    let (rest, e₂, h₂) = >>=-eq-ok (parse_entries empty wrap (suc idx) exprs) _ h₁ in
    let same : first ++ rest ≡ is = cc in
    let (full, covered) = parse_entry_lem (empty idx) (wrap idx) expr e₁ in
    rw (← same) (
      append-IsRead expr exprs first rest full covered
        (parse_entries-IsRead empty wrap (suc idx) exprs e₂))

-- An evaluator that was built from two lists of expressions allows an instant exactly if no deny
-- expression covers it and, where there are allow expressions, one of them does.
pub evaluate_at-allowed :
    (allow_exprs deny_exprs : List Text) (e : Evaluator) (t : ℕ)
    → new_evaluator allow_exprs deny_exprs ≡ ok (some e)
    → (evaluate_at e t).allowed
      ≡ (not (matches deny_exprs t) && (is_nil allow_exprs || matches allow_exprs t))
unfolding new_evaluator
evaluate_at-allowed allow_exprs deny_exprs e t h =
    let (denied, e₁, h₁) = >>=-eq-ok (parse_entries empty_deny deny 0 deny_exprs) _ h in
    let (allowed, e₂, h₂) = >>=-eq-ok (parse_entries empty_allow allow 0 allow_exprs) _ h₁ in
    let d = parse_entries-IsRead empty_deny deny 0 deny_exprs e₁ in
    let a = parse_entries-IsRead empty_allow allow 0 allow_exprs e₂ in
    ground (arith, evaluate_at-hits e t, d.0, d.1 t, a.0, a.1 t)
