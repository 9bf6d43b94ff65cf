-- ===== src/Text.antt =====
-- The functions of Go's `strings` and `strconv` that the program calls, over the code points of
-- a text (valid UTF-8).
pub mod Laws
use Prim.Native.Char.{code}
use Prim.Native.String.{String}
use clusterrebootd.Prelude.{
  ℕ, zero, suc, ◌+◌, ◌-◌, ◌*◌, ◌^◌, Bool, true, false, ◌&&◌, ◌||◌, Option, none, some, List, [],
  ◌∷◌, ◌++◌, ltb, leb, ◌==◌, if◌then◌else◌, is_nil, ℤ, pos, negsuc, any,
}

abbrev pub Text : Type 0
Text = List ℕ

-- The code points of a literal.
abbrev pub codes : String → Text
codes String.[] = []
codes (String.◌∷◌ c s) = code c ∷ codes s

unfoldable pub text_eq : Text → Text → Bool
text_eq [] [] = true
text_eq (x ∷ xs) (y ∷ ys) = x == y && text_eq xs ys
text_eq _ _ = false

-- `unicode.IsSpace`
unfoldable pub is_space : ℕ → Bool
is_space c =
    (leb 9 c && leb c 13)
    || c == 32
    || c == 0x85
    || c == 0xa0
    || c == 0x1680
    || (leb 0x2000 c && leb c 0x200a)
    || c == 0x2028
    || c == 0x2029
    || c == 0x202f
    || c == 0x205f
    || c == 0x3000

trim_left : Text → Text
trim_left [] = []
trim_left (c ∷ cs) = let rest = trim_left cs in if is_space c then rest else c ∷ cs

trim_right : Text → Text
trim_right [] = []
trim_right (c ∷ cs) = let rest = trim_right cs in if is_nil rest && is_space c then [] else c ∷ rest

-- `strings.TrimSpace`
unfoldable pub trim_space : Text → Text
unfolding trim_left trim_right is_space
trim_space s = trim_right (trim_left s)

-- `strings.TrimSpace(s) == ""`
abbrev pub is_blank : Text → Bool
is_blank s = is_nil (trim_space s)

-- `unicode.ToLower`, where its result is an ASCII letter; the other letters have lower-case forms
-- outside ASCII, which equal no name that the program compares with.
to_lower_rune : ℕ → ℕ
to_lower_rune c =
    if leb b'A' c && leb c b'Z'
    then c + 32
    else if c == 0x130
    then b'i'
    else if c == 0x212a
    then b'k'
    else c

unfoldable pub to_lower : Text → Text
unfolding to_lower_rune
to_lower [] = []
to_lower (c ∷ cs) = to_lower_rune c ∷ to_lower cs

abbrev flush : Text → List Text → List Text
flush [] words = words
flush word words = word ∷ words

fields_from : Text → Text → List Text
fields_from word [] = flush word []
fields_from word (c ∷ cs) =
    let rest = fields_from (if is_space c then [] else word ++ c ∷ []) cs in
    if is_space c then flush word rest else rest

-- `strings.Fields`
unfoldable pub fields : Text → List Text
unfolding fields_from is_space
fields = fields_from []

abbrev cons_head : ℕ → List Text → List Text
cons_head c [] = (c ∷ []) ∷ []
cons_head c (w ∷ ws) = (c ∷ w) ∷ ws

-- `strings.Split` at a separator of one character: one piece more than there are separators.
unfoldable pub split : ℕ → Text → List Text
split sep [] = [] ∷ []
split sep (c ∷ cs) = let rest = split sep cs in if c == sep then [] ∷ rest else cons_head c rest

-- `strings.Join`
unfoldable pub join : Text → List Text → Text
join sep [] = []
join sep (w ∷ []) = w
join sep (w ∷ v ∷ ws) = w ++ (sep ++ join sep (v ∷ ws))

-- `strings.Index` of one character; `none` is -1.
unfoldable pub index : ℕ → Text → Option ℕ
index sep [] = none
index sep (c ∷ cs) =
    let rest = index sep cs in
    if c == sep then some 0 else elim rest [ none ↦ none | some i ↦ some (suc i) ]

abbrev pub contains_char : ℕ → Text → Bool
contains_char sep = any (λ c. c == sep)

abbrev is_digit : ℕ → Bool
is_digit c = leb b'0' c && leb c b'9'

-- The value of a run of digits after `acc`; `none` at any other character.
digits_from : ℕ → Text → Option ℕ
digits_from acc [] = some acc
digits_from acc (c ∷ cs) =
    let rest = digits_from (10 * acc + (c - b'0')) cs in if is_digit c then rest else none

abbrev digits : Text → Option ℕ
digits [] = none
digits (c ∷ cs) = digits_from 0 (c ∷ cs)

-- A magnitude that the sign takes out of the 64-bit range is refused.
abbrev negative : Option ℕ → Option ℤ
negative none = none
negative (some zero) = some (pos 0)
negative (some (suc n)) = if ltb n (2 ^ 63) then some (negsuc n) else none

abbrev positive : Option ℕ → Option ℤ
positive none = none
positive (some n) = if ltb n (2 ^ 63) then some (pos n) else none

-- `strconv.Atoi`; `none` is an error.
unfoldable pub atoi : Text → Option ℤ
unfolding digits_from
atoi [] = none
atoi (c ∷ cs) =
    if c == b'-'
    then negative (digits cs)
    else if c == b'+'
    then positive (digits cs)
    else positive (digits (c ∷ cs))
