-- ===== src/Observability/Reporter.antt =====
-- `StructuredReporter` of pkg/orchestrator/reporter.go: events to a logger, metrics to a collector.
use clusterrebootd.Prelude.{List, [], ◌∷◌, if◌then◌else◌, is_nil}
use clusterrebootd.Text.{Text, codes}
use clusterrebootd.Observability.Types.{Event, Recorded}
use clusterrebootd.Observability.Collector.{Collector, Registry, collect}

-- The reporter, by the fields that it fills in. It has a logger and a collector.
pub record StructuredReporter : Type 0 where
  pub node : Text
  pub component : Text

-- `NewStructuredReporter`
unfoldable pub new_structured_reporter : Text → StructuredReporter
new_structured_reporter node = record { node = node; component = codes "orchestrator" }

abbrev pub or_default : Text → Text → Text
or_default value default = if is_nil value then default else value

-- What the logger is handed for an event.
unfoldable pub record_event : StructuredReporter → Event → Event
record_event r e = record e {
  node = or_default e.node r.node;
  component = or_default e.component r.component;
}

-- The collector, and the events that were logged, the last one first.
pub record Sink : Type 0 where
  pub collector : Collector
  pub logged : List Event

module _ (registry : Registry) (r : StructuredReporter) where
  -- `RecordMetric` and `RecordEvent`
  unfoldable pub deliver : Recorded → Sink → Sink
  unfolding record_event
  deliver (Recorded.metric m) s = record s { collector = collect registry m s.collector }
  deliver (Recorded.event e) s = record s { logged = record_event r e ∷ s.logged }

  unfoldable pub deliver_all : List Recorded → Sink → Sink
  unfolding deliver
  deliver_all [] s = s
  deliver_all (x ∷ xs) s = deliver_all xs (deliver x s)
