-- ===== src/Reports/Cluster.antt =====
-- The reports of the health of the cluster, with the summaries that a runner keeps
-- (pkg/orchestrator/runner.go, from `recordClusterHealthStatus` to `summarizeClusterRecords`).
use clusterrebootd.Prelude.{
  ℕ, ◌+◌, Bool, true, false, not, ◌&&◌, bool_eq, Option, none, some, List, [], ◌∷◌, ◌++◌, map,
  length, ◌==◌, ℤ, pos, if◌then◌else◌, is_nil,
}
use clusterrebootd.Text.{Text, codes, text_eq, trim_space, join}
use clusterrebootd.Orchestrator.Failure.{Failure}
use clusterrebootd.Orchestrator.Types.{Nanos, Phase, Record}
use clusterrebootd.Observability.Types.{
  Level, Scalar, Entry, Value, Fields, Recorded, in_labels, text_field, number_field, flag_field,
}
use clusterrebootd.Observability.Collector.{lookup, sort_texts}
use clusterrebootd.Reports.Texts.{phase_text, itoa}
use clusterrebootd.Reports.Checks.{
  Printed, node_event, count_metric, error_field, level_or, result_or, level_if, opt, opt_text,
}
use clusterrebootd.Reports.Peers.{Peers, put, update_cluster_peer_states}

-- `clusterStatusSummary`
pub record StatusSummary : Type 0 where
  pub attempted : Bool
  pub result : Text
  pub total : ℕ
  pub healthy : ℕ
  pub unhealthy : ℕ
  pub error : Text
  pub unhealthy_key : Text

-- `clusterStatusSummary.equal`
unfoldable pub summary_eq : StatusSummary → StatusSummary → Bool
summary_eq s t =
    bool_eq s.attempted t.attempted
    && text_eq s.result t.result
    && s.total == t.total
    && s.healthy == t.healthy
    && s.unhealthy == t.unhealthy
    && text_eq s.error t.error
    && text_eq s.unhealthy_key t.unhealthy_key

abbrev entry_text : Text → Text → Entry
entry_text name value = if is_nil value then [] else (name, Scalar.text value) ∷ []

abbrev entry_instant : Text → Option Nanos → Entry
entry_instant name none = []
entry_instant name (some t) = (name, Scalar.instant t) ∷ []

unfoldable pub summarize_cluster_records : List Record → List Entry
summarize_cluster_records [] = []
summarize_cluster_records (rec ∷ recs) =
    ((codes "node", Scalar.text rec.node) ∷ entry_text (codes "stage") rec.stage
      ++ (entry_text (codes "reason") rec.reason
          ++ entry_instant (codes "reported_at") rec.reported_at))
    ∷ summarize_cluster_records recs

abbrev key_entry : Record → Text
key_entry rec = join (codes "|") (trim_space rec.node ∷ rec.stage ∷ rec.reason ∷ [])

unfoldable pub cluster_records_key : List Record → Text
cluster_records_key records = join (codes ";") (sort_texts (map key_entry records))

unfoldable pub healthy_count : List Record → ℕ
healthy_count [] = 0
healthy_count (rec ∷ recs) = let rest = healthy_count recs in if rec.healthy then rest + 1 else rest

unfoldable pub unhealthy_records : List Record → List Record
unhealthy_records [] = []
unhealthy_records (rec ∷ recs) =
    let rest = unhealthy_records recs in if rec.healthy then rest else rec ∷ rest

-- The result where there is no error: of an inspection that was not attempted, or of its records.
abbrev status_result : Bool → List Record → Text
status_result attempted unhealthy =
    if not attempted
    then codes "skipped"
    else if is_nil unhealthy
    then codes "healthy"
    else codes "unhealthy"

abbrev error_text : Printed → Option Failure → Text
error_text print none = []
error_text print (some e) = print e

-- The fields of an inspection that was attempted.
abbrev status_counts : List Record → List Record → Fields
status_counts records unhealthy =
    number_field "total_nodes" (pos (length records))
    ∷ number_field "healthy_count" (pos (healthy_count records))
    ∷ number_field "unhealthy_count" (pos (length unhealthy))
    ∷ opt (not (is_nil unhealthy))
        (codes "unhealthy_nodes", Value.entries (summarize_cluster_records unhealthy))

abbrev no_summary : StatusSummary
no_summary = record {
  attempted = false;
  result = [];
  total = 0;
  healthy = 0;
  unhealthy = 0;
  error = [];
  unhealthy_key = [];
}

-- `clusterSummaries` and `clusterPeers`
pub record ClusterState : Type 0 where
  pub summaries : List (Text × StatusSummary)
  pub peers : Peers

abbrev pub previous_summary : Option StatusSummary → StatusSummary
previous_summary none = no_summary
previous_summary (some s) = s

-- `updateClusterPeerStates` where the health was asked for; else the peers are forgotten.
unfoldable pub peers_after : Text → Phase → Bool → List Record → Peers → Peers × List Recorded
peers_after node phase true records peers = update_cluster_peer_states node phase records peers
peers_after node phase false records peers = ([], [])

-- The reason that `updateClusterHealth` gives.
unfoldable pub update_reason : Phase → Bool → ℤ → Text
update_reason phase healthy exit_code =
    if healthy then [] else phase_text phase ++ (codes " exit " ++ itoa exit_code)

module _ (print : Printed) (node : Text) where
  unfoldable pub summary_of : Bool → List Record → Option Failure → StatusSummary
  unfolding healthy_count unhealthy_records cluster_records_key
  summary_of attempted records failure =
      let unhealthy = unhealthy_records records in
      record {
        attempted = attempted;
        result = result_or failure (status_result attempted unhealthy);
        total = if attempted then length records else 0;
        healthy = if attempted then healthy_count records else 0;
        unhealthy = if attempted then length unhealthy else 0;
        error = error_text print failure;
        unhealthy_key = if attempted then cluster_records_key unhealthy else [];
      }

  unfoldable pub status_event : Phase → Bool → List Record → Option Failure → Recorded
  unfolding healthy_count unhealthy_records summarize_cluster_records
  status_event phase attempted records failure =
      let unhealthy = unhealthy_records records in
      node_event node (level_or failure (level_if (attempted && not (is_nil unhealthy))))
        (codes "cluster_health_status")
        (text_field "phase" (phase_text phase)
            ∷ (if attempted
                then status_counts records unhealthy
                else flag_field "skipped" true ∷ [])
          ++ error_field print failure)

  -- `recordClusterHealthStatus`
  unfoldable pub record_cluster_health_status :
      Phase → Bool → List Record → Option Failure → ClusterState → ClusterState × List Recorded
  unfolding summary_of peers_after
  record_cluster_health_status phase attempted records failure s =
      let summary = summary_of attempted records failure in
      let (peers, changes) = peers_after node phase attempted records s.peers in
      let previous = previous_summary (lookup (phase_text phase) s.summaries) in
      let after : ClusterState = record {
        summaries = put (phase_text phase) summary s.summaries;
        peers = peers;
      } in
      (
        after,
        count_metric (codes "cluster_health_checks_total")
                (codes "Number of cluster health inspections grouped by phase and result.")
                (in_labels "phase" (phase_text phase) ∷ in_labels "result" summary.result ∷ [])
              ∷ changes
            ++ opt (not (is_nil changes && summary_eq summary previous))
                (status_event phase attempted records failure),
      )

  -- `recordClusterHealthUpdate`
  unfoldable pub record_cluster_health_update :
      Phase → Bool → Text → Bool → Option Failure → List Recorded
  record_cluster_health_update phase healthy reason attempted failure =
      let status = if healthy then codes "healthy" else codes "unhealthy" in
      let result = result_or failure (if attempted then codes "success" else codes "skipped") in
      count_metric (codes "cluster_health_updates_total")
        (codes "Number of cluster health update attempts grouped by phase, status, and result.")
        (in_labels "phase" (phase_text phase)
          ∷ in_labels "status" status
          ∷ in_labels "result" result
          ∷ [])
      ∷ node_event node (level_or failure Level.info) (codes "cluster_health_update") (
          text_field "phase" (phase_text phase)
            ∷ text_field "status" status
            ∷ opt_text "reason" reason
          ++ (opt (not attempted) (flag_field "skipped" true) ++ error_field print failure))
      ∷ []
