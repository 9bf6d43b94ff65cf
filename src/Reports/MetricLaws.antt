-- ===== src/Reports/MetricLaws.antt =====
-- The metrics that a runner reports are of one schema, so a collector drops none.
use Prim.Native.String.{String}
use clusterrebootd.Prelude.{
  refl, Bool, true, false, not, Option, none, some, List, [], ◌∷◌, if◌then◌else◌, All, All-append,
}
use clusterrebootd.Text.{Text, codes, text_eq, trim_space}
use clusterrebootd.Orchestrator.Types.{Phase, Record, Outcome, Status}
use clusterrebootd.Observability.Types.{MetricType, counter, histogram, Recorded}
use clusterrebootd.Observability.Collector.{
  lookup, sort_texts, insert_sorted, text_le, sorted_keys, vector_of,
}
use clusterrebootd.Observability.CollectorSchema.{Schema, Fits}
use clusterrebootd.Reports.Checks.{
  Printed, opt, record_kill_switch, record_window_decision, record_detector_evaluation,
  record_health, record_cooldown_status, record_cooldown_activation, record_cooldown_clear,
}
use clusterrebootd.Reports.Peers.{
  PeerState, peer_states_equal, Peers, has_key, state_of, emit_peer_status_change,
  emit_peer_missing_event, compare_peer, is_no_peer, current_peers, peer_changes, missing_peers,
  update_cluster_peer_states,
}
use clusterrebootd.Reports.Cluster.{
  peers_after, record_cluster_health_status, record_cluster_health_update, status_event,
}
use clusterrebootd.Reports.Messages.{Printing}
use clusterrebootd.Reports.Outcomes.{
  OutcomeSummary, repeats, outcome_summary, outcome_event, record_status, recorded_status,
  record_outcome,
}
use clusterrebootd.Reports.Locks.{
  record_lock_attempt, record_lock_backoff, record_lock_acquired, record_lock_failure,
  record_release,
}
use clusterrebootd.Reports.Recorder.{Recording, ReportState, report, report_all}

abbrev pub MetricRow : Type 0
MetricRow = MetricType × List Text

abbrev pub row : String → MetricType → List Text → Text × MetricRow
row name kind labels = (codes name, (kind, labels))

abbrev phase_result : List Text
phase_result = codes "phase" ∷ codes "result" ∷ []

abbrev only_result : List Text
only_result = codes "result" ∷ []

-- The metrics, with their types and their labels, sorted.
unfoldable pub rows : List (Text × MetricRow)
rows =
    row "cluster_health_checks_total" counter phase_result
    ∷ row "cluster_health_updates_total" counter
        (codes "phase" ∷ codes "result" ∷ codes "status" ∷ [])
    ∷ row "cooldown_checks_total" counter phase_result
    ∷ row "cooldown_activations_total" counter only_result
    ∷ row "cooldown_clears_total" counter only_result
    ∷ row "window_evaluations_total" counter only_result
    ∷ row "kill_switch_checks_total" counter (codes "result" ∷ codes "stage" ∷ [])
    ∷ row "detector_evaluations_total" counter phase_result
    ∷ row "detector_evaluation_seconds" histogram phase_result
    ∷ row "health_checks_total" counter phase_result
    ∷ row "health_check_seconds" histogram phase_result
    ∷ row "lock_attempts_total" counter only_result
    ∷ row "lock_acquire_seconds" histogram only_result
    ∷ row "lock_release_seconds" histogram only_result
    ∷ row "orchestration_outcomes_total" counter (codes "status" ∷ [])
    ∷ []

abbrev pub runner_schema : Schema
runner_schema name = lookup name rows

-- What is recorded fits the schema, if it is a metric.
abbrev pub FitsSchema : Recorded → Type 0
FitsSchema (Recorded.metric m) = Fits runner_schema m
FitsSchema (Recorded.event e) = Unit

opt-FitsSchema : (b : Bool) (x : Recorded) → FitsSchema x → All FitsSchema (opt b x)
opt-FitsSchema true x h = (h, tt)
opt-FitsSchema false x h = tt

if-FitsSchema :
    (b : Bool) (xs ys : List Recorded)
    → All FitsSchema xs
    → All FitsSchema ys
    → All FitsSchema (if b then xs else ys)
if-FitsSchema true xs ys h k = h
if-FitsSchema false xs ys h k = k

module _ (name : Text) (phase : Phase) where
  compare_peer-Fits :
      (node : Text) (state : PeerState) (previous : Option PeerState)
      → All FitsSchema (compare_peer name phase node state previous)
  unfolding compare_peer emit_peer_status_change
  compare_peer-Fits node state none = (tt, tt)
  compare_peer-Fits node state (some previous) =
      if-FitsSchema (peer_states_equal previous state) [] _ tt (tt, tt)

  peer_changes-Fits :
      (peers : Peers) (records : List Record)
      → All FitsSchema (peer_changes name phase peers records)
  unfolding peer_changes
  peer_changes-Fits peers [] = tt
  peer_changes-Fits peers (rec ∷ recs) =
      let changes =
        compare_peer name phase (trim_space rec.node) (state_of rec)
          (lookup (trim_space rec.node) peers) in
      let rest = peer_changes-Fits peers recs in
      if-FitsSchema (is_no_peer name rec) (peer_changes name phase peers recs) _ rest (
        All-append FitsSchema changes (peer_changes name phase peers recs)
          (compare_peer-Fits (trim_space rec.node) (state_of rec)
            (lookup (trim_space rec.node) peers))
          rest)

  missing_peers-Fits :
      (current peers : Peers) → All FitsSchema (missing_peers name phase current peers)
  unfolding missing_peers emit_peer_missing_event
  missing_peers-Fits current [] = tt
  missing_peers-Fits current ((node, previous) ∷ peers) =
      let rest = missing_peers-Fits current peers in
      if-FitsSchema (has_key node current) _ _ rest (tt, rest)

  peers_after-Fits :
      (attempted : Bool) (records : List Record) (peers : Peers)
      → All FitsSchema (peers_after name phase attempted records peers).1
  unfolding peers_after update_cluster_peer_states
  peers_after-Fits true records peers =
      All-append FitsSchema (peer_changes name phase peers records) _
        (peer_changes-Fits peers records) (missing_peers-Fits (current_peers name [] records) peers)
  peers_after-Fits false records peers = tt

outcome-Fits :
    (printing : Printing) (name : Text) (status : Option Status) (out : Outcome)
    (last : Option OutcomeSummary)
    → All FitsSchema (recorded_status printing name status out last).1
unfolding record_status outcome_event rows text_eq sorted_keys sort_texts insert_sorted vector_of
outcome-Fits printing name none out last = tt
outcome-Fits printing name (some status) out last = (
  (refl, refl, refl),
  opt-FitsSchema (not (repeats last (outcome_summary printing name status out)))
      (outcome_event printing name status out) tt,
)

module _ (print : Printed) (printing : Printing) (node : Text) where
  report-Fits :
      (r : Recording) (s : ReportState) → All FitsSchema (report print printing node r s).1
  unfolding report rows text_eq sorted_keys sort_texts insert_sorted text_le vector_of
      record_kill_switch record_window_decision record_detector_evaluation record_health
      record_cluster_health_status record_cluster_health_update record_cooldown_status
      record_cooldown_activation record_cooldown_clear record_lock_attempt record_lock_backoff
      record_lock_acquired record_lock_failure record_release record_outcome status_event
  report-Fits (Recording.kill_switch stage active failure) s = ((refl, refl, refl), (tt, tt))
  report-Fits (Recording.window_decision decision) s = ((refl, refl, refl), (tt, tt))
  report-Fits (Recording.detector_evaluation phase duration requires results failure) s =
      ((refl, refl, refl), ((refl, refl, refl), (tt, tt)))
  report-Fits (Recording.health phase duration res failure) s =
      ((refl, refl, refl), ((refl, refl, refl), (tt, tt)))
  report-Fits (Recording.cluster_status phase attempted records failure) s =
      let changes = (peers_after node phase attempted records s.cluster.peers).1 in
      let event = status_event print node phase attempted records failure in
      (
        (refl, refl, refl),
        All-append FitsSchema changes _
            (peers_after-Fits node phase attempted records s.cluster.peers)
            (opt-FitsSchema _ event tt),
      )
  report-Fits (Recording.cluster_update phase healthy code attempted failure) s =
      ((refl, refl, refl), (tt, tt))
  report-Fits (Recording.cooldown_status phase status failure) s = ((refl, refl, refl), (tt, tt))
  report-Fits (Recording.cooldown_activation duration failure) s = ((refl, refl, refl), (tt, tt))
  report-Fits (Recording.cooldown_clear failure) s = ((refl, refl, refl), (tt, tt))
  report-Fits (Recording.lock_attempt attempt duration result failure) s =
      ((refl, refl, refl), ((refl, refl, refl), (tt, tt)))
  report-Fits (Recording.lock_backoff attempt delay) s = (tt, tt)
  report-Fits (Recording.lock_acquired attempt wait) s = (tt, tt)
  report-Fits (Recording.lock_failure attempts) s = (tt, tt)
  report-Fits (Recording.lease_release duration failure) s = ((refl, refl, refl), (tt, tt))
  report-Fits (Recording.outcome out) s = outcome-Fits printing node out.status out s.last_outcome

  pub report_all-Fits :
      (rs : List Recording) (s : ReportState)
      → All FitsSchema (report_all print printing node rs s).1
  unfolding report_all
  report_all-Fits [] s = tt
  report_all-Fits (r ∷ rs) s =
      let after = report print printing node r s in
      All-append FitsSchema after.1 (report_all print printing node rs after.0).1 (report-Fits r s)
        (report_all-Fits rs after.0)
