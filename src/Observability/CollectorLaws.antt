-- ===== src/Observability/CollectorLaws.antt =====
-- A collector that meets metrics of one schema drops none (pkg/observability/prometheus.go).
use clusterrebootd.Prelude.{
  ◌≡◌, refl, sym, ap, ◌∙◌, Option, none, some, List, [], ◌∷◌, map, reverse_onto, All,
}
use clusterrebootd.Text.{Text}
use clusterrebootd.Observability.Types.{MetricType, counter, histogram, Metric}
use clusterrebootd.Observability.Collector.{
  sorted_keys, equal_slices, Collector, new_collector, lookup, vector_of, known, row_of, Registry,
  collect_known, collect, collect_all,
}
use clusterrebootd.Observability.CollectorSchema.{
  is_taken, Accepts, Schema, Fits, measured_of, equal_slices_refl, Sound, names_in, free_name,
  measured-measure, Sound-measure,
}
use clusterrebootd.Observability.CollectorRows.{grown, measured-grown, name-vector_of, Sound-grown}

known-new : (kind : MetricType) → known kind new_collector ≡ []
unfolding new_collector
known-new counter = refl
known-new histogram = refl

Sound-new : (schema : Schema) → Sound schema new_collector
unfolding new_collector
Sound-new schema = (
  (λ kind name names found.
      let nothing : none ≡ some names = ap (lookup name) (sym (known-new kind)) ∙ found in cc),
  λ name taken. cc,
)

module _ (registry : Registry) (schema : Schema) (accepts : Accepts registry) where
  -- A metric of the schema is measured, and the collector stays sound.
  abbrev Kept : Metric → Collector → Collector → Type 0
  Kept m c d = (d.measured ≡ measured_of m ∷ c.measured) × Sound schema d

  known_lem :
      (m : Metric) (c : Collector) (names : List Text)
      → lookup m.name (known m.kind c) ≡ some names
      → Fits schema m
      → Sound schema c
      → Kept m c (collect_known registry (some names) m c)
  unfolding collect_known
  known_lem m c names found fits sound =
      let same = ap names_in (sym (sound.0 m.kind m.name names found) ∙ fits.1) in
      rw
        (ap (λ ns. equal_slices ns (sorted_keys m.labels)) same
          ∙ equal_slices_refl (sorted_keys m.labels))
        (measured-measure m c, Sound-measure m c schema sound)

  unknown_lem :
      (m : Metric) (c : Collector)
      → lookup m.name (known m.kind c) ≡ none
      → Fits schema m
      → Sound schema c
      → Kept m c (collect_known registry none m c)
  unfolding collect_known
  unknown_lem m c unknown fits sound =
      let d = grown c (vector_of m) m.kind (row_of m) in
      let named = name-vector_of m in
      let free = free_name schema c m.kind m.name (sorted_keys m.labels) sound fits.1 unknown in
      rw
        (accepts c.registered (vector_of m) (ap (λ n. is_taken n c.registered) named ∙ free) fits.2)
        (
          measured-measure m d
              ∙ ap (λ ms. measured_of m ∷ ms) (measured-grown c (vector_of m) m.kind (row_of m)),
          Sound-measure m d schema
              (Sound-grown schema c (vector_of m) m.kind (row_of m) named fits.1 sound),
        )

  collect_row_lem :
      (m : Metric) (c : Collector) (row : Option (List Text))
      → lookup m.name (known m.kind c) ≡ row
      → Fits schema m
      → Sound schema c
      → Kept m c (collect_known registry row m c)
  collect_row_lem m c none found fits sound = unknown_lem m c found fits sound
  collect_row_lem m c (some names) found fits sound = known_lem m c names found fits sound

  collect_lem :
      (m : Metric) (c : Collector)
      → Fits schema m
      → Sound schema c
      → Kept m c (collect registry m c)
  unfolding collect
  collect_lem m c fits sound =
      rw fits.0 (collect_row_lem m c (lookup m.name (known m.kind c)) refl fits sound)

  -- A collector that is sound measures every metric of the schema, in their order.
  collect_all_lem :
      (ms : List Metric) (c : Collector)
      → All (Fits schema) ms
      → Sound schema c
      → (collect_all registry ms c).measured ≡ reverse_onto (map measured_of ms) c.measured
  unfolding collect_all
  collect_all_lem [] c fits sound = refl
  collect_all_lem (m ∷ ms) c fits sound =
      let kept = collect_lem m c fits.0 sound in
      collect_all_lem ms (collect registry m c) fits.1 kept.1
      ∙ ap (reverse_onto (map measured_of ms)) kept.0

  -- The new collector.
  pub collect_all-new :
      (ms : List Metric)
      → All (Fits schema) ms
      → (collect_all registry ms new_collector).measured ≡ reverse_onto (map measured_of ms) []
  unfolding new_collector
  collect_all-new ms fits = collect_all_lem ms new_collector fits (Sound-new schema)
