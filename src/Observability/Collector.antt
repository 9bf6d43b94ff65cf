-- ===== src/Observability/Collector.antt =====
-- pkg/observability/prometheus.go: the collector. The registry of the Prometheus client is a parameter.
use clusterrebootd.Prelude.{
  Bool, true, false, ◌&&◌, ◌||◌, not, Option, none, some, List, [], ◌∷◌, ◌++◌, map, if◌then◌else◌,
  is_nil, ltb_ℤ, pos, ltb, ◌==◌,
}
use clusterrebootd.Text.{Text, codes, text_eq, is_blank}
use clusterrebootd.Observability.Types.{
  MetricType, counter, histogram, Measure, whole, seconds, Labels, Metric,
}

-- The order of texts by their code points, which is that of their bytes.
unfoldable pub text_le : Text → Text → Bool
text_le [] t = true
text_le (x ∷ s) [] = false
text_le (x ∷ s) (y ∷ t) = let rest = text_le s t in ltb x y || (x == y && rest)

unfoldable pub insert_sorted : Text → List Text → List Text
insert_sorted s [] = s ∷ []
insert_sorted s (t ∷ ts) =
    let rest = insert_sorted s ts in if text_le s t then s ∷ t ∷ ts else t ∷ rest

-- `sort.Strings`
unfoldable pub sort_texts : List Text → List Text
sort_texts [] = []
sort_texts (t ∷ ts) = insert_sorted t (sort_texts ts)

abbrev pub label_keys : Labels → List Text
label_keys = map (λ l. l.0)

unfoldable pub sorted_keys : Labels → List Text
sorted_keys labels = sort_texts (label_keys labels)

unfoldable pub equal_slices : List Text → List Text → Bool
equal_slices [] [] = true
equal_slices (x ∷ xs) (y ∷ ys) = let rest = equal_slices xs ys in text_eq x y && rest
equal_slices _ _ = false

unfoldable pub help_text : Metric → Text
help_text m =
    if not (is_blank m.description)
    then m.description
    else if not (is_nil m.unit)
    then m.name ++ (codes " (" ++ (m.unit ++ codes ")"))
    else m.name

-- A `CounterVec` or `HistogramVec`, by its options.
pub record Vector : Type 0 where
  pub kind : MetricType
  pub name : Text
  pub help : Text
  pub constant_labels : Labels
  pub label_names : List Text

-- A call of `With` and of `Add` or `Observe`.
pub record Measured : Type 0 where
  pub kind : MetricType
  pub name : Text
  pub labels : Labels
  pub value : Measure

-- The two maps of label names, which have the keys of the maps of vectors; the vectors that the
-- registry accepted; and the measurements, the last one first.
pub record Collector : Type 0 where
  pub counters : List (Text × List Text)
  pub histograms : List (Text × List Text)
  pub registered : List Vector
  pub measured : List Measured

-- `NewPrometheusCollector`
unfoldable pub new_collector : Collector
new_collector = record { counters = []; histograms = []; registered = []; measured = [] }

abbrev pub lookup {ℓ} : {A : Type ℓ} → Text → List (Text × A) → Option A
lookup key [] = none
lookup key ((k, a) ∷ rest) = if text_eq k key then some a else lookup key rest

abbrev prometheus_namespace : Text
prometheus_namespace = codes "clusterrebootd"

abbrev pub full_name : Text → Text
full_name name = prometheus_namespace ++ (codes "_" ++ name)

-- The vector of a metric that has none.
unfoldable pub vector_of : Metric → Vector
vector_of m = record {
  kind = m.kind;
  name = full_name m.name;
  help = help_text m;
  constant_labels = elim m.kind [
    | counter ↦ []
    | histogram ↦ if is_nil m.unit then [] else (codes "unit", m.unit) ∷ []
  ];
  label_names = sorted_keys m.labels;
}

is_negative : Measure → Bool
is_negative (whole z) = ltb_ℤ z (pos 0)
is_negative (seconds d) = ltb_ℤ d (pos 0)

-- A counter is not lowered.
unfoldable pub clamp : MetricType → Measure → Measure
unfolding is_negative
clamp counter v = if is_negative v then whole (pos 0) else v
clamp histogram v = v

unfoldable pub measure : Metric → Collector → Collector
measure m c = record c {
  measured =
      record { kind = m.kind; name = m.name; labels = m.labels; value = clamp m.kind m.value }
      ∷ c.measured;
}

abbrev pub known : MetricType → Collector → List (Text × List Text)
known counter c = c.counters
known histogram c = c.histograms

abbrev pub row_of : Metric → Text × List Text
row_of m = (m.name, sorted_keys m.labels)

unfoldable pub remember : MetricType → Text × List Text → Collector → Collector
remember counter row c = record c { counters = row ∷ c.counters }
remember histogram row c = record c { histograms = row ∷ c.histograms }

-- What the registry answers to a vector, after those that it accepted.
abbrev pub Registry : Type 0
Registry = List Vector → Vector → Bool

module _ (registry : Registry) where
  -- `collectCounter` and `collectHistogram`
  unfoldable pub collect_known : Option (List Text) → Metric → Collector → Collector
  collect_known (some names) m c =
      if equal_slices names (sorted_keys m.labels) then measure m c else c
  collect_known none m c =
      let vector = vector_of m in
      if registry c.registered vector
      then measure m (remember m.kind (row_of m) (record c { registered = vector ∷ c.registered }))
      else c

  -- `Collect`
  unfoldable pub collect : Metric → Collector → Collector
  collect m c = if is_nil m.name then c else collect_known (lookup m.name (known m.kind c)) m c

  unfoldable pub collect_all : List Metric → Collector → Collector
  collect_all [] c = c
  collect_all (m ∷ ms) c = collect_all ms (collect m c)
