-- ===== src/Reports/Outcomes.antt =====
-- `recordOutcome` (pkg/orchestrator/runner.go), with the summary of the last outcome that a runner
-- keeps.
use clusterrebootd.Prelude.{
  Bool, false, not, ◌&&◌, bool_eq, Option, none, some, List, [], ◌∷◌, ◌++◌, is_nil,
}
use clusterrebootd.Text.{Text, codes, text_eq, join}
use clusterrebootd.Orchestrator.Types.{Status, Outcome}
use clusterrebootd.Observability.Types.{Level, Value, Recorded, in_labels, text_field, flag_field}
use clusterrebootd.Reports.Texts.{status_text}
use clusterrebootd.Reports.Checks.{node_event, count_metric, opt, opt_text}
use clusterrebootd.Reports.Cluster.{summarize_cluster_records}
use clusterrebootd.Reports.Messages.{Printing, message_text}

-- `outcomeSummary`
pub record OutcomeSummary : Type 0 where
  pub status : Text
  pub message : Text
  pub dry_run : Bool
  pub lock_acquired : Bool

-- `outcomeSummary.equal`
unfoldable pub outcome_summary_eq : OutcomeSummary → OutcomeSummary → Bool
outcome_summary_eq s t =
    text_eq s.status t.status
    && text_eq s.message t.message
    && bool_eq s.dry_run t.dry_run
    && bool_eq s.lock_acquired t.lock_acquired

unfoldable pub outcome_level : Status → Level
outcome_level Status.kill_switch = Level.warn
outcome_level Status.health_blocked = Level.warn
outcome_level Status.window_denied = Level.warn
outcome_level Status.window_outside = Level.warn
outcome_level Status.lock_unavailable = Level.warn
outcome_level Status.lock_skipped = Level.warn
outcome_level Status.cooldown_active = Level.warn
outcome_level Status.no_action = Level.info
outcome_level Status.recheck_cleared = Level.info
outcome_level Status.ready = Level.info

-- A summary that repeats the last one.
abbrev pub repeats : Option OutcomeSummary → OutcomeSummary → Bool
repeats none s = false
repeats (some last) s = outcome_summary_eq last s

module _ (printing : Printing) (node : Text) where
  unfoldable pub outcome_summary : Status → Outcome → OutcomeSummary
  outcome_summary status out = record {
    status = status_text status;
    message = message_text printing out.message;
    dry_run = out.dry_run;
    lock_acquired = out.lock_acquired;
  }

  unfoldable pub outcome_event : Status → Outcome → Recorded
  outcome_event status out = node_event node (outcome_level status) (codes "run_outcome") (
      text_field "status" (status_text status)
        ∷ flag_field "dry_run" out.dry_run
        ∷ flag_field "lock_acquired" out.lock_acquired
        ∷ opt_text "message" (message_text printing out.message)
      ++ (opt (not (is_nil out.command)) (text_field "command" (join (codes " ") out.command))
          ++ opt (not (is_nil out.cluster_unhealthy)) (
            codes "cluster_unhealthy",
            Value.entries (summarize_cluster_records out.cluster_unhealthy),
          )))

  -- An outcome with a status.
  unfoldable pub record_status :
      Status → Outcome → Option OutcomeSummary → Option OutcomeSummary × List Recorded
  unfolding outcome_summary
  record_status status out last =
      let summary = outcome_summary status out in
      (
        some summary,
        count_metric (codes "orchestration_outcomes_total")
              (codes "Number of orchestration passes grouped by outcome status.")
              (in_labels "status" (status_text status) ∷ [])
            ∷ opt (not (repeats last summary)) (outcome_event status out),
      )

  abbrev pub recorded_status :
      Option Status → Outcome → Option OutcomeSummary → Option OutcomeSummary × List Recorded
  recorded_status none out last = (last, [])
  recorded_status (some status) out last = record_status status out last

  -- `recordOutcome`; no status is the empty one.
  unfoldable pub record_outcome :
      Outcome → Option OutcomeSummary → Option OutcomeSummary × List Recorded
  record_outcome out last = recorded_status out.status out last
