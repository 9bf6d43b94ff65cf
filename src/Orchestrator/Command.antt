-- ===== src/Orchestrator/Command.antt =====
-- `expandCommand` and `expandWithEnv` of pkg/orchestrator/runner.go, with `os.Expand`.
use clusterrebootd.Prelude.{
  ℕ, zero, suc, ◌+◌, Bool, not, ◌&&◌, ◌||◌, Option, none, some, List, [], ◌∷◌, ◌++◌, leb, ◌==◌,
  if◌then◌else◌, is_nil, length,
}
use clusterrebootd.Text.{Text, text_eq, contains_char}
pub mod Laws

-- `isShellSpecialVar`: * # $ @ ! ? - and the digits.
is_special : ℕ → Bool
is_special c =
    c == b'*'
    || c == b'#'
    || c == b'$'
    || c == b'@'
    || c == b'!'
    || c == b'?'
    || c == b'-'
    || (leb b'0' c && leb c b'9')

-- `isAlphaNum`
is_alphanumeric : ℕ → Bool
is_alphanumeric c =
    c == b'_'
    || (leb b'0' c && leb c b'9')
    || (leb b'a' c && leb c b'z')
    || (leb b'A' c && leb c b'Z')

-- The name up to a closing brace, or none.
to_brace : Text → Option Text
to_brace [] = none
to_brace (c ∷ cs) =
    let rest = to_brace cs in
    if c == b'}' then some [] else elim rest [ none ↦ none | some name ↦ some (c ∷ name) ]

alphanumeric_prefix : Text → Text
alphanumeric_prefix [] = []
alphanumeric_prefix (c ∷ cs) =
    let rest = alphanumeric_prefix cs in if is_alphanumeric c then c ∷ rest else []

-- Behind an opening brace: bad syntax eats the brace, and the closing one after an empty name.
in_braces : Option Text → Text × ℕ
in_braces none = ([], 1)
in_braces (some []) = ([], 2)
in_braces (some (c ∷ name)) = (c ∷ name, length (c ∷ name) + 2)

-- `getShellName`: the name, and how many characters it takes.
shell_name : Text → Text × ℕ
unfolding is_special is_alphanumeric to_brace alphanumeric_prefix in_braces
shell_name [] = ([], 0)
shell_name (c ∷ cs) =
    if c == b'{'
    then in_braces (to_brace cs)
    else if is_special c
    then (c ∷ [], 1)
    else (alphanumeric_prefix (c ∷ cs), length (alphanumeric_prefix (c ∷ cs)))

-- What stands for a dollar sign and the name behind it.
replaced : (Text → Text) → Text × ℕ → Text
replaced mapping ([], zero) = b'$' ∷ []
replaced mapping ([], suc w) = []
replaced mapping (c ∷ name, w) = mapping (c ∷ name)

-- The loop of `os.Expand`, where `skip` characters are still to be passed over. A dollar sign at the
-- end is left as it is.
expand_from : (Text → Text) → ℕ → Text → Text
unfolding shell_name replaced
expand_from mapping skip [] = []
expand_from mapping (suc skip) (c ∷ cs) = expand_from mapping skip cs
expand_from mapping zero (c ∷ cs) =
    let name = shell_name cs in
    let is_name = c == b'$' && not (is_nil cs) in
    let rest = expand_from mapping (if is_name then name.1 else 0) cs in
    if is_name then replaced mapping name ++ rest else c ∷ rest

-- `os.Expand`
unfoldable pub expand : (Text → Text) → Text → Text
unfolding expand_from
expand mapping = expand_from mapping 0

unfoldable pub lookup_env : List (Text × Text) → Text → Option Text
lookup_env [] key = none
lookup_env ((k, v) ∷ env) key = if text_eq k key then some v else lookup_env env key

abbrev pub or_getenv : (Text → Text) → Text → Option Text → Text
or_getenv getenv key none = getenv key
or_getenv getenv key (some v) = v

unfoldable pub expand_with_env : (Text → Text) → Text → List (Text × Text) → Text
expand_with_env getenv input env =
    if contains_char b'$' input
    then expand (λ key. or_getenv getenv key (lookup_env env key)) input
    else input

unfoldable pub expand_command : (Text → Text) → List Text → List (Text × Text) → List Text
unfolding expand_with_env
expand_command getenv [] env = []
expand_command getenv (arg ∷ command) env =
    expand_with_env getenv arg env ∷ expand_command getenv command env
