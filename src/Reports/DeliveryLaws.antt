-- ===== src/Reports/DeliveryLaws.antt =====
-- What becomes of the reports of a runner: its reporter hands the metrics to the collector and the
-- events to the logger.
use clusterrebootd.Prelude.{◌≡◌, refl, ap, ◌∙◌, List, [], ◌∷◌, map, All, reverse_onto}
use clusterrebootd.Text.{Text}
use clusterrebootd.Observability.Types.{Metric, Event, Recorded}
use clusterrebootd.Observability.Collector.{new_collector, Registry, collect_all}
use clusterrebootd.Observability.CollectorSchema.{Accepts, Fits, measured_of}
use clusterrebootd.Observability.CollectorLaws.{collect_all-new}
use clusterrebootd.Observability.Reporter.{
  StructuredReporter, new_structured_reporter, record_event, Sink, deliver, deliver_all,
}
use clusterrebootd.Reports.Checks.{Printed}
use clusterrebootd.Reports.Messages.{Printing}
use clusterrebootd.Reports.Recorder.{Recording, report_all, initial_reports}
use clusterrebootd.Reports.MetricLaws.{runner_schema, FitsSchema, report_all-Fits}

abbrev pub metrics_of : List Recorded → List Metric
metrics_of [] = []
metrics_of (Recorded.metric m ∷ xs) = m ∷ metrics_of xs
metrics_of (Recorded.event e ∷ xs) = metrics_of xs

abbrev pub events_of : List Recorded → List Event
events_of [] = []
events_of (Recorded.metric m ∷ xs) = events_of xs
events_of (Recorded.event e ∷ xs) = e ∷ events_of xs

metrics_of-Fits :
    (xs : List Recorded) → All FitsSchema xs → All (Fits runner_schema) (metrics_of xs)
metrics_of-Fits [] h = tt
metrics_of-Fits (Recorded.metric m ∷ xs) h = (h.0, metrics_of-Fits xs h.1)
metrics_of-Fits (Recorded.event e ∷ xs) h = metrics_of-Fits xs h.1

module _ (registry : Registry) (r : StructuredReporter) where
  collector-deliver_all :
      (xs : List Recorded) (s : Sink)
      → (deliver_all registry r xs s).collector ≡ collect_all registry (metrics_of xs) s.collector
  unfolding deliver_all deliver collect_all
  collector-deliver_all [] s = refl
  collector-deliver_all (Recorded.metric m ∷ xs) s =
      collector-deliver_all xs (deliver registry r (Recorded.metric m) s)
  collector-deliver_all (Recorded.event e ∷ xs) s =
      collector-deliver_all xs (deliver registry r (Recorded.event e) s)

  logged-deliver_all :
      (xs : List Recorded) (s : Sink)
      → (deliver_all registry r xs s).logged
        ≡ reverse_onto (map (record_event r) (events_of xs)) s.logged
  unfolding deliver_all deliver
  logged-deliver_all [] s = refl
  logged-deliver_all (Recorded.metric m ∷ xs) s =
      logged-deliver_all xs (deliver registry r (Recorded.metric m) s)
  logged-deliver_all (Recorded.event e ∷ xs) s =
      logged-deliver_all xs (deliver registry r (Recorded.event e) s)

abbrev pub new_sink : Sink
new_sink = record { collector = new_collector; logged = [] }

-- Every metric was measured and every event logged, in their order.
abbrev pub Delivered : StructuredReporter → List Recorded → Sink → Type 0
Delivered r xs s =
    (s.collector.measured ≡ reverse_onto (map measured_of (metrics_of xs)) [])
    × (s.logged ≡ reverse_onto (map (record_event r) (events_of xs)) [])

-- Whatever a runner reports, in any order and however often, its reporter has every metric measured and
-- every event logged, each once and in order: the labels of a metric never differ from those of its
-- first measurement, so the collector drops none. The registry accepts a vector with plain names
-- whose name is not taken.
pub deliver_all-report_all :
    (registry : Registry)
    → Accepts registry
    → (print : Printed) (printing : Printing) (node : Text) (rs : List Recording)
    → Delivered
        (new_structured_reporter node)
        (report_all print printing node rs initial_reports).1
        (deliver_all registry
          (new_structured_reporter node)
          (report_all print printing node rs initial_reports).1
          new_sink)
deliver_all-report_all registry accepts print printing node rs =
    let r = new_structured_reporter node in
    let xs = (report_all print printing node rs initial_reports).1 in
    let fits = metrics_of-Fits xs (report_all-Fits print printing node rs initial_reports) in
    (
      ap (λ c. c.measured) (collector-deliver_all registry r xs new_sink)
          ∙ collect_all-new registry runner_schema accepts (metrics_of xs) fits,
      logged-deliver_all registry r xs new_sink,
    )
