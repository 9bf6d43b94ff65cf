-- ===== src/Observability/CollectorRows.antt =====
-- What a collector knows after a new vector (pkg/observability/prometheus.go).
use clusterrebootd.Prelude.{
  ◌≡◌, refl, sym, ap, ◌∙◌, Bool, true, false, ◌&&◌, Option, none, some, List, [], ◌∷◌, arith,
  if◌then◌else◌,
}
use clusterrebootd.Text.{Text, text_eq}
use clusterrebootd.Text.Laws.{text_eq_iff}
use clusterrebootd.Observability.Types.{MetricType, counter, histogram, Metric}
use clusterrebootd.Observability.Collector.{
  Vector, Collector, lookup, full_name, vector_of, known, remember,
}
use clusterrebootd.Observability.CollectorSchema.{is_taken, Schema, full_name_eq, Sound}

unfoldable pub kind_eq : MetricType → MetricType → Bool
kind_eq counter counter = true
kind_eq histogram histogram = true
kind_eq _ _ = false

-- The label names of a name of a type, after those of a new metric were remembered.
abbrev pub remembered :
    MetricType → Text × List Text → MetricType → Text → Option (List Text) → Option (List Text)
remembered kind row k name before =
    if kind_eq kind k && text_eq row.0 name then some row.1 else before

abbrev pub grown : Collector → Vector → MetricType → Text × List Text → Collector
grown c v kind row = remember kind row (record c { registered = v ∷ c.registered })

registered-grown :
    (c : Collector) (v : Vector) (kind : MetricType) (row : Text × List Text)
    → (grown c v kind row).registered ≡ v ∷ c.registered
unfolding remember
registered-grown c v counter row = refl
registered-grown c v histogram row = refl

pub measured-grown :
    (c : Collector) (v : Vector) (kind : MetricType) (row : Text × List Text)
    → (grown c v kind row).measured ≡ c.measured
unfolding remember
measured-grown c v counter row = refl
measured-grown c v histogram row = refl

pub name-vector_of : (m : Metric) → (vector_of m).name ≡ full_name m.name
unfolding vector_of
name-vector_of m = refl

lookup-grown :
    (c : Collector) (v : Vector) (kind : MetricType) (row : Text × List Text) (k : MetricType)
    (name : Text)
    → lookup name (known k (grown c v kind row))
      ≡ remembered kind row k name (lookup name (known k c))
unfolding remember kind_eq
lookup-grown c v counter row counter name = refl
lookup-grown c v counter row histogram name = refl
lookup-grown c v histogram row counter name = refl
lookup-grown c v histogram row histogram name = refl

abbrev pub or_empty : Option (List Text) → List Text
or_empty none = []
or_empty (some names) = names

matched_schema :
    (schema : Schema) (kind : MetricType) (row : Text × List Text) (name : Text) (names : List Text)
    (before : Option (List Text)) (same : Bool)
    → text_eq row.0 name ≡ same
    → schema row.0 ≡ some (kind, row.1)
    → (before ≡ some names → schema name ≡ some (kind, names))
    → (if same then some row.1 else before) ≡ some names
    → schema name ≡ some (kind, names)
matched_schema schema kind row name names before false e fits old found = old found
matched_schema schema kind row name names before true e fits old found =
    ap schema (sym ((text_eq_iff row.0 name).0 e))
    ∙ (fits ∙ ap (λ ns. some (kind, ns)) (ap or_empty found))

remembered-schema :
    (schema : Schema) (kind : MetricType) (row : Text × List Text) (k : MetricType) (name : Text)
    (names : List Text) (before : Option (List Text))
    → schema row.0 ≡ some (kind, row.1)
    → (before ≡ some names → schema name ≡ some (k, names))
    → remembered kind row k name before ≡ some names
    → schema name ≡ some (k, names)
unfolding kind_eq
remembered-schema schema counter row counter name names before fits old found =
    matched_schema schema counter row name names before (text_eq row.0 name) refl fits old found
remembered-schema schema counter row histogram name names before fits old found = old found
remembered-schema schema histogram row counter name names before fits old found = old found
remembered-schema schema histogram row histogram name names before fits old found =
    matched_schema schema histogram row name names before (text_eq row.0 name) refl fits old found

remembered-hit :
    (kind : MetricType) (row : Text × List Text) (name : Text) (before : Option (List Text))
    → text_eq row.0 name ≡ true
    → remembered kind row kind name before ≡ some row.1
unfolding kind_eq
remembered-hit counter row name before e = ground (arith, e)
remembered-hit histogram row name before e = ground (arith, e)

remembered-miss :
    (kind : MetricType) (row : Text × List Text) (k : MetricType) (name : Text)
    (before : Option (List Text))
    → text_eq row.0 name ≡ false
    → remembered kind row k name before ≡ before
remembered-miss kind row k name before e = ground (arith, e)

-- The new vector's name is known, and so are those before.
remembered-known :
    (c : Collector) (v : Vector) (kind : MetricType) (row : Text × List Text) (name : Text)
    (same : Bool)
    → text_eq row.0 name ≡ same
    → ((same ≡ false)
        → (k : MetricType) × (names : List Text) × (lookup name (known k c) ≡ some names))
    → (k : MetricType) × (names : List Text) × (lookup name (known k (grown c v kind row))
        ≡ some names)
remembered-known c v kind row name true e before = (
  kind,
  row.1,
  lookup-grown c v kind row kind name ∙ remembered-hit kind row name (lookup name (known kind c)) e,
)
remembered-known c v kind row name false e before =
    let (k, names, found) = before refl in
    (
      k,
      names,
      lookup-grown c v kind row k name
          ∙ (remembered-miss kind row k name (lookup name (known k c)) e ∙ found),
    )

taken_before :
    (c : Collector) (v : Vector) (kind : MetricType) (row : Text × List Text) (name : Text)
    → v.name ≡ full_name row.0
    → is_taken (full_name name) (grown c v kind row).registered ≡ true
    → text_eq row.0 name ≡ false
    → is_taken (full_name name) c.registered ≡ true
taken_before c v kind row name named taken other =
    let taken_now = sym (ap (is_taken (full_name name)) (registered-grown c v kind row)) ∙ taken in
    let free = ap (λ n. text_eq n (full_name name)) named ∙ (full_name_eq row.0 name ∙ other) in
    ground (arith, taken_now, free)

pub Sound-grown :
    (schema : Schema) (c : Collector) (v : Vector) (kind : MetricType) (row : Text × List Text)
    → v.name ≡ full_name row.0
    → schema row.0 ≡ some (kind, row.1)
    → Sound schema c
    → Sound schema (grown c v kind row)
Sound-grown schema c v kind row named fits sound = (
  (λ k name names found.
      remembered-schema schema kind row k name names (lookup name (known k c)) fits
        (sound.0 k name names) (sym (lookup-grown c v kind row k name) ∙ found)),
  λ name taken.
      remembered-known c v kind row name (text_eq row.0 name) refl
        (λ other. sound.1 name (taken_before c v kind row name named taken other)),
)
