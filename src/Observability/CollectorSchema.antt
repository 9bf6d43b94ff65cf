-- ===== src/Observability/CollectorSchema.antt =====
-- What a collector knows, against a schema of metrics (pkg/observability/prometheus.go).
use clusterrebootd.Prelude.{
  ℕ, ◌≡◌, refl, sym, ap, ◌∙◌, Bool, true, false, not, ◌&&◌, ◌||◌, Option, none, some, List, [], ◌∷◌,
  ◌++◌, arith, is_nil, leb, ◌==◌, any, Bool-cases, inl, inr,
}
use clusterrebootd.Text.{Text, text_eq}
use clusterrebootd.Text.Laws.{text_eq_refl}
use clusterrebootd.Observability.Types.{MetricType, counter, histogram, Metric}
use clusterrebootd.Observability.Collector.{
  label_keys, sorted_keys, equal_slices, Vector, Measured, Collector, lookup, full_name, vector_of,
  clamp, measure, known, Registry,
}

abbrev pub is_word_char : ℕ → Bool
is_word_char c = (leb b'a' c && leb c b'z') || (leb b'0' c && leb c b'9') || c == b'_'

-- Lower-case letters, digits and underscores, after a letter.
abbrev pub is_word : Text → Bool
is_word [] = false
is_word (c ∷ cs) = leb b'a' c && leb c b'z' && not (any (λ x. not (is_word_char x)) cs)

abbrev pub all_different : List Text → Bool
all_different [] = true
all_different (t ∷ ts) = not (any (text_eq t) ts) && all_different ts

-- A vector that the client's documentation allows: plain names, and no label twice.
abbrev pub is_plain : Vector → Bool
is_plain v =
    let labels = label_keys v.constant_labels ++ v.label_names in
    is_word v.name && not (any (λ l. not (is_word l)) labels) && all_different labels

abbrev pub is_taken : Text → List Vector → Bool
is_taken name vectors = any (λ v. text_eq v.name name) vectors

-- `Register` accepts a plain vector whose name is not taken.
abbrev pub Accepts : Registry → Type 0
Accepts registry =
    (vectors : List Vector) (v : Vector)
    → is_taken v.name vectors ≡ false
    → is_plain v ≡ true
    → registry vectors v ≡ true

-- The type and the sorted label names of a metric's name.
abbrev pub Schema : Type 0
Schema = Text → Option (MetricType × List Text)

abbrev pub Fits : Schema → Metric → Type 0
Fits schema m =
    (is_nil m.name ≡ false)
    × (schema m.name ≡ some (m.kind, sorted_keys m.labels))
    × (is_plain (vector_of m) ≡ true)

-- A metric as it is measured.
abbrev pub measured_of : Metric → Measured
measured_of m = record {
  kind = m.kind;
  name = m.name;
  labels = m.labels;
  value = clamp m.kind m.value;
}

pub equal_slices_refl : (ts : List Text) → equal_slices ts ts ≡ true
unfolding equal_slices
equal_slices_refl [] = refl
equal_slices_refl (t ∷ ts) = ground (arith, text_eq_refl t, equal_slices_refl ts)

pub full_name_eq : (a b : Text) → text_eq (full_name a) (full_name b) ≡ text_eq a b
unfolding text_eq
full_name_eq a b = refl

-- What the collector knows is of the schema.
abbrev pub IsOfSchema : Schema → Collector → Type 0
IsOfSchema schema c =
    (kind : MetricType) (name : Text) (names : List Text)
    → lookup name (known kind c) ≡ some names
    → schema name ≡ some (kind, names)

-- It knows all names that are taken.
abbrev pub KnowsTaken : Collector → Type 0
KnowsTaken c =
    (name : Text)
    → is_taken (full_name name) c.registered ≡ true
    → (kind : MetricType) × (names : List Text) × (lookup name (known kind c) ≡ some names)

abbrev pub Sound : Schema → Collector → Type 0
Sound schema c = IsOfSchema schema c × KnowsTaken c

abbrev pub kind_in : MetricType → Option (MetricType × List Text) → MetricType
kind_in kind none = kind
kind_in kind (some row) = row.0

abbrev pub is_known_row : Option (List Text) → Bool
is_known_row none = false
is_known_row (some names) = true

abbrev pub names_in : Option (MetricType × List Text) → List Text
names_in none = []
names_in (some row) = row.1

not_known :
    (c : Collector) (name : Text) (other kind : MetricType) (names : List Text)
    → other ≡ kind
    → lookup name (known other c) ≡ some names
    → lookup name (known kind c) ≡ none
    → true ≡ false
not_known c name other kind names same found unknown =
    ap is_known_row (sym found ∙ (ap (λ k. lookup name (known k c)) same ∙ unknown))

-- A name that is not known for its own type is not taken.
pub free_name :
    (schema : Schema) (c : Collector) (kind : MetricType) (name : Text) (names : List Text)
    → Sound schema c
    → schema name ≡ some (kind, names)
    → lookup name (known kind c) ≡ none
    → is_taken (full_name name) c.registered ≡ false
free_name schema c kind name names sound fits unknown =
    elim (Bool-cases (is_taken (full_name name) c.registered)) [
      | inr free ↦ free
      | inl taken ↦
          let (other, others, found) = sound.1 name taken in
          let same = ap (kind_in kind) (sym (sound.0 other name others found) ∙ fits) in
          taken ∙ not_known c name other kind others same found unknown
    ]

module _ (m : Metric) (c : Collector) where
  known-measure : (kind : MetricType) → known kind (measure m c) ≡ known kind c
  unfolding measure
  known-measure counter = refl
  known-measure histogram = refl

  pub measured-measure : (measure m c).measured ≡ measured_of m ∷ c.measured
  unfolding measure
  measured-measure = refl

  pub Sound-measure : (schema : Schema) → Sound schema c → Sound schema (measure m c)
  unfolding measure
  Sound-measure schema sound = (
    (λ kind name names found.
        sound.0 kind name names (ap (lookup name) (sym (known-measure kind)) ∙ found)),
    λ name taken.
        let (kind, names, found) = sound.1 name taken in
        (kind, names, ap (lookup name) (known-measure kind) ∙ found),
  )
