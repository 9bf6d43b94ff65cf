-- ===== src/Reports/Recorder.antt =====
-- The calls of the functions of pkg/orchestrator/runner.go that report, and what a runner keeps between
-- them.
use clusterrebootd.Prelude.{ℕ, Bool, Option, none, List, [], ◌∷◌, ◌++◌, ℤ}
use clusterrebootd.Text.{Text}
use clusterrebootd.Windows.Evaluator.{Decision}
use clusterrebootd.Orchestrator.Failure.{Failure}
use clusterrebootd.Orchestrator.Types.{Nanos, Phase, Record, CooldownStatus, HealthResult, Outcome}
use clusterrebootd.Observability.Types.{Recorded}
use clusterrebootd.Reports.Checks.{
  Printed, Evaluated, record_cooldown_status, record_cooldown_activation, record_cooldown_clear,
  record_window_decision, record_kill_switch, record_detector_evaluation, record_health,
}
use clusterrebootd.Reports.Locks.{
  AttemptResult, record_lock_attempt, record_lock_backoff, record_lock_acquired,
  record_lock_failure, record_release,
}
use clusterrebootd.Reports.Cluster.{
  ClusterState, record_cluster_health_status, record_cluster_health_update, update_reason,
}
use clusterrebootd.Reports.Messages.{Printing}
use clusterrebootd.Reports.Outcomes.{OutcomeSummary, record_outcome}

-- The calls, with their arguments.
pub data Recording : Type 0 where
  kill_switch : Phase → Bool → Option Failure → Recording
  window_decision : Decision → Recording
  detector_evaluation : Phase → Nanos → Bool → List Evaluated → Option Failure → Recording
  health : Phase → Nanos → HealthResult → Option Failure → Recording
  cluster_status : Phase → Bool → List Record → Option Failure → Recording
  cluster_update : Phase → Bool → ℤ → Bool → Option Failure → Recording
  cooldown_status : Phase → CooldownStatus → Option Failure → Recording
  cooldown_activation : Nanos → Option Failure → Recording
  cooldown_clear : Option Failure → Recording
  lock_attempt : ℕ → Nanos → AttemptResult → Option Failure → Recording
  lock_backoff lock_acquired : ℕ → Nanos → Recording
  lock_failure : ℕ → Recording
  lease_release : Nanos → Option Failure → Recording
  outcome : Outcome → Recording

-- `lastOutcome`, `clusterSummaries` and `clusterPeers`
pub record ReportState : Type 0 where
  pub last_outcome : Option OutcomeSummary
  pub cluster : ClusterState

module _ (print : Printed) (printing : Printing) (node : Text) where
  abbrev keep : ReportState → List Recorded → ReportState × List Recorded
  keep s reports = (s, reports)

  abbrev keep_cluster : ReportState → ClusterState × List Recorded → ReportState × List Recorded
  keep_cluster s (cluster, reports) = (record s { cluster = cluster }, reports)

  abbrev keep_outcome :
      ReportState → Option OutcomeSummary × List Recorded → ReportState × List Recorded
  keep_outcome s (last, reports) = (record s { last_outcome = last }, reports)

  unfoldable pub report : Recording → ReportState → ReportState × List Recorded
  report (kill_switch stage active failure) s =
      keep s (record_kill_switch print node stage active failure)
  report (window_decision decision) s = keep s (record_window_decision print node decision)
  report (detector_evaluation phase duration requires results failure) s =
      keep s (record_detector_evaluation print node phase duration requires results failure)
  report (health phase duration res failure) s =
      keep s (record_health print node phase duration res failure)
  report (cluster_status phase attempted records failure) s =
      keep_cluster s
        (record_cluster_health_status print node phase attempted records failure s.cluster)
  report (cluster_update phase healthy code attempted failure) s = keep s (
      record_cluster_health_update print node phase healthy (update_reason phase healthy code)
        attempted failure)
  report (cooldown_status phase status failure) s =
      keep s (record_cooldown_status print node phase status failure)
  report (cooldown_activation duration failure) s =
      keep s (record_cooldown_activation print node duration failure)
  report (cooldown_clear failure) s = keep s (record_cooldown_clear print node failure)
  report (lock_attempt attempt duration result failure) s =
      keep s (record_lock_attempt print node attempt duration result failure)
  report (lock_backoff attempt delay) s = keep s (record_lock_backoff print node attempt delay)
  report (lock_acquired attempt wait) s = keep s (record_lock_acquired print node attempt wait)
  report (lock_failure attempts) s = keep s (record_lock_failure print node attempts)
  report (lease_release duration failure) s = keep s (record_release print node duration failure)
  report (outcome out) s = keep_outcome s (record_outcome printing node out s.last_outcome)

  -- A sequence of calls, with the reports in their order.
  unfoldable pub report_all : List Recording → ReportState → ReportState × List Recorded
  report_all [] s = (s, [])
  report_all (r ∷ rs) s =
      let (s1, reports) = report r s in let (s2, rest) = report_all rs s1 in (s2, reports ++ rest)

-- The maps and the last outcome of a new runner.
unfoldable pub initial_reports : ReportState
initial_reports = record { last_outcome = none; cluster = record { summaries = []; peers = [] } }
