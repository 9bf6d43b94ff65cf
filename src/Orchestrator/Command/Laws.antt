-- ===== src/Orchestrator/Command/Laws.antt =====
-- What the expansion of the reboot command does with variables (pkg/orchestrator/runner.go).
use clusterrebootd.Prelude.{
  suc, ◌+◌, ◌≡◌, refl, sym, subst, ap, ◌∙◌, false, some, List, [], ◌∷◌, ◌++◌, arith, length, is_nil,
  Bool-cases, inl, inr,
}
use mathlib.Core.List.{append_assoc}
use clusterrebootd.Text.{Text, contains_char}
use clusterrebootd.Orchestrator.Command.{
  to_brace, in_braces, shell_name, replaced, expand_from, expand, lookup_env, or_getenv,
  expand_with_env, expand_command,
}

to_brace_lem :
    (name after : Text)
    → contains_char b'}' name ≡ false
    → to_brace (name ++ b'}' ∷ after) ≡ some name
unfolding to_brace
to_brace_lem [] after h = refl
to_brace_lem (c ∷ name) after h = ground (arith, h, to_brace_lem name after)

skip_lem :
    (mapping : Text → Text) (xs ys : Text)
    → expand_from mapping (length xs) (xs ++ ys) ≡ expand_from mapping 0 ys
unfolding expand_from
skip_lem mapping [] ys = refl
skip_lem mapping (x ∷ xs) ys = skip_lem mapping xs ys

plain_lem :
    (mapping : Text → Text) (s : Text) → contains_char b'$' s ≡ false → expand_from mapping 0 s ≡ s
unfolding expand_from
plain_lem mapping [] h = refl
plain_lem mapping (c ∷ cs) h = ground (arith, h, plain_lem mapping cs)

before_lem :
    (mapping : Text → Text) (before s : Text)
    → contains_char b'$' before ≡ false
    → expand_from mapping 0 (before ++ s) ≡ before ++ expand_from mapping 0 s
unfolding expand_from
before_lem mapping [] s h = refl
before_lem mapping (c ∷ cs) s h = ground (arith, h, before_lem mapping cs s)

length_lem : (name : Text) → length (name ++ b'}' ∷ []) ≡ length name + 1
length_lem [] = refl
length_lem (c ∷ name) = ground (arith, length_lem name)

-- The braces and the name are passed over.
passed_lem :
    (mapping : Text → Text) (name after : Text)
    → expand_from mapping (length name + 2) (b'{' ∷ (name ++ b'}' ∷ after))
      ≡ expand_from mapping 0 after
passed_lem mapping name after =
    let inside = b'{' ∷ (name ++ b'}' ∷ []) in
    let count : length inside ≡ length name + 2 = ap suc (length_lem name) ∙ omega arith in
    let whole : inside ++ after ≡ b'{' ∷ (name ++ b'}' ∷ after) =
      ap (λ x. b'{' ∷ x) (append_assoc name (b'}' ∷ []) after) in
    subst (λ x. expand_from mapping (length name + 2) x ≡ expand_from mapping 0 after) whole
      (subst (λ n. expand_from mapping n (inside ++ after) ≡ expand_from mapping 0 after) count
        (skip_lem mapping inside after))

braced_lem :
    (mapping : Text → Text) (name after : Text)
    → contains_char b'}' name ≡ false
    → is_nil name ≡ false
    → expand_from mapping 0 (b'$' ∷ b'{' ∷ (name ++ b'}' ∷ after))
      ≡ mapping name ++ expand_from mapping 0 after
unfolding expand_from shell_name in_braces replaced
braced_lem mapping [] after h k = cc
braced_lem mapping (c ∷ name) after h k =
    rw (to_brace_lem (c ∷ name) after h)
      (ap (λ x. mapping (c ∷ name) ++ x) (passed_lem mapping (c ∷ name) after))

-- A text without a dollar sign is left as it is by either branch.
expand_lem :
    (getenv : Text → Text) (env : List (Text × Text)) (s : Text)
    → expand_with_env getenv s env
      ≡ expand_from (λ key. or_getenv getenv key (lookup_env env key)) 0 s
unfolding expand_with_env expand
expand_lem getenv env s = elim (Bool-cases (contains_char b'$' s)) [
  | inl yes_ ↦ rw yes_ refl
  | inr no_ ↦ rw no_ (sym (plain_lem (λ key. or_getenv getenv key (lookup_env env key)) s no_))
]

-- In an argument of the command, `${name}` behind a text without a dollar sign is replaced by the
-- value of that name in the runner's environment, or by `getenv` where it has none; the text before it
-- and the value are left as they are, and the text after it is expanded on its own.
pub expand_with_env-braced :
    (getenv : Text → Text) (env : List (Text × Text)) (before name after : Text)
    → contains_char b'$' before ≡ false
    → contains_char b'}' name ≡ false
    → is_nil name ≡ false
    → expand_with_env getenv (before ++ b'$' ∷ b'{' ∷ (name ++ b'}' ∷ after)) env
      ≡ before ++ (or_getenv getenv name (lookup_env env name) ++ expand_with_env getenv after env)
expand_with_env-braced getenv env before name after plain closed named =
    let mapping : Text → Text = λ key. or_getenv getenv key (lookup_env env key) in
    expand_lem getenv env (before ++ b'$' ∷ b'{' ∷ (name ++ b'}' ∷ after))
    ∙ before_lem mapping before (b'$' ∷ b'{' ∷ (name ++ b'}' ∷ after)) plain
    ∙ ap (λ x. before ++ x) (braced_lem mapping name after closed named)
    ∙ ap (λ x. before ++ (mapping name ++ x)) (sym (expand_lem getenv env after))

-- No argument is split, dropped or added.
pub length-expand_command :
    (getenv : Text → Text) (command : List Text) (env : List (Text × Text))
    → length (expand_command getenv command env) ≡ length command
unfolding expand_command
length-expand_command getenv [] env = refl
length-expand_command getenv (arg ∷ command) env = ap suc (length-expand_command getenv command env)
