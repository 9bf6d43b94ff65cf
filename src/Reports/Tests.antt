-- ===== src/Reports/Tests.antt =====
-- The reports of a runner at concrete arguments, to a registry that refuses names that are taken.
use clusterrebootd.Prelude.{◌≡◌, refl, true, false, none, some, List, [], ◌∷◌, pos, not}
use clusterrebootd.Text.{codes, trim_space, text_eq, is_space}
use clusterrebootd.Orchestrator.Failure.{other}
use clusterrebootd.Orchestrator.Types.{Phase, Status, Record, empty_outcome, Outcome}
use clusterrebootd.Observability.Collector.{Registry}
use clusterrebootd.Observability.CollectorSchema.{Accepts, is_taken, all_different}
use clusterrebootd.Observability.Reporter.{new_structured_reporter, deliver_all}
use clusterrebootd.Reports.Checks.{Printed}
use clusterrebootd.Reports.Locks.{AttemptResult}
use clusterrebootd.Reports.Cluster.{record_cluster_health_status}
use clusterrebootd.Reports.Messages.{Printing}
use clusterrebootd.Reports.Recorder.{Recording, report_all, initial_reports}
use clusterrebootd.Reports.DeliveryLaws.{new_sink, Delivered, events_of, deliver_all-report_all}
use clusterrebootd.Reports.ClusterLaws.{peer_names, record_cluster_health_status-again}

abbrev simple_registry : Registry
simple_registry = λ vectors v. not (is_taken v.name vectors)

simple_registry-Accepts : Accepts simple_registry
simple_registry-Accepts vectors v free plain = rw free refl

abbrev printed_error : Printed
printed_error = λ e. codes "failed"

abbrev printing : Printing
printing = record {
  quoted = λ t. t;
  fraction = codes "0.50";
  duration = λ d. codes "1ms";
  kill_switch_path = codes "/etc/kill";
}

abbrev peer_records : List Record
peer_records =
    record {
      node = codes " b";
      healthy = true;
      stage = [];
      reason = [];
      reported_at = some (pos 5);
    }
    ∷ record {
      node = codes "c";
      healthy = false;
      stage = codes "monitor";
      reason = [];
      reported_at = none;
    }
    ∷ []

abbrev done_outcome : Outcome
done_outcome = record empty_outcome { status = some Status.no_action }

abbrev some_recordings : List Recording
some_recordings =
    Recording.kill_switch Phase.pre_lock false none
    ∷ Recording.cluster_status Phase.pre_lock true peer_records none
    ∷ Recording.lock_attempt 0 (pos 7) AttemptResult.contended (some (other 1))
    ∷ Recording.kill_switch Phase.post_lock true none
    ∷ Recording.outcome done_outcome
    ∷ Recording.outcome done_outcome
    ∷ []

deliver_all-report_all_example :
    Delivered
      (new_structured_reporter (codes "a"))
      (report_all printed_error printing (codes "a") some_recordings initial_reports).1
      (deliver_all simple_registry
        (new_structured_reporter (codes "a"))
        (report_all printed_error printing (codes "a") some_recordings initial_reports).1
        new_sink)
deliver_all-report_all_example =
    deliver_all-report_all simple_registry simple_registry-Accepts printed_error printing
      (codes "a") some_recordings

peers_differ : all_different (peer_names (codes "a") peer_records) ≡ true
unfolding trim_space text_eq is_space
peers_differ = refl

record_cluster_health_status-again_example :
    events_of
      (record_cluster_health_status printed_error
        (codes "a")
        Phase.pre_lock
        true
        peer_records
        none
        (record_cluster_health_status printed_error
          (codes "a")
          Phase.pre_lock
          true
          peer_records
          none
          initial_reports.cluster).0).1
    ≡ []
record_cluster_health_status-again_example =
    record_cluster_health_status-again printed_error (codes "a") Phase.pre_lock true peer_records
      none initial_reports.cluster peers_differ
