-- ===== src/Reports/Messages.antt =====
-- The messages of outcomes (`RunOnce`, `evaluateClusterPolicies`, `formatClusterHealthMessage` and
-- `formatDuration` of pkg/orchestrator/runner.go).
use clusterrebootd.Prelude.{
  ℕ, ◌*◌, ◌/◌, ◌%◌, ◌^◌, not, Option, none, some, List, [], ◌∷◌, ◌++◌, map, ◌==◌, ℤ, pos, negsuc,
  leb, if◌then◌else◌, is_nil,
}
use clusterrebootd.Text.{Text, codes, join}
use clusterrebootd.Orchestrator.Types.{
  Nanos, Record, Reason, unhealthy_nodes, below_minimum, below_fraction, only_fallback_left,
  Message,
}
use clusterrebootd.Reports.Texts.{itoa, show_nat}
use clusterrebootd.Reports.Checks.{opt}

-- What `fmt` prints, and the path of the kill switch.
pub record Printing : Type 0 where
  -- `%q`
  pub quoted : Text → Text
  -- `%.2f` of the configured fraction
  pub fraction : Text
  -- `Duration.String`
  pub duration : Nanos → Text
  pub kill_switch_path : Text

abbrev second : ℕ
second = 10 ^ 9

module _ (printing : Printing) where
  format_positive : ℕ → Text
  format_positive d =
      let minutes = d / (60 * second) in
      let seconds = d % (60 * second) / second in
      if leb (60 * second) d
      then (if seconds == 0
          then show_nat minutes ++ codes "m"
          else show_nat minutes ++ (codes "m" ++ (show_nat seconds ++ codes "s")))
      else if leb second d
      then show_nat (d / second) ++ codes "s"
      else if d == 0
      then codes "0s"
      else printing.duration (pos d)

  -- `formatDuration`
  unfoldable pub format_duration : Nanos → Text
  unfolding format_positive
  format_duration (pos d) = format_positive d
  format_duration (negsuc d) = codes "0s"

  abbrev in_brackets : Text → Text → Text
  in_brackets text extras = text ++ (codes " (" ++ (extras ++ codes ")"))

  abbrev or_nothing : Text → List Text
  or_nothing text = opt (not (is_nil text)) text

  unfoldable pub blocker_text : Record → Text
  blocker_text rec =
      let extras = or_nothing rec.stage ++ or_nothing rec.reason in
      if is_nil extras then rec.node else in_brackets rec.node (join (codes ", ") extras)

  -- `formatClusterHealthMessage`
  unfoldable pub format_cluster_health_message : List Record → Text
  unfolding blocker_text
  format_cluster_health_message records =
      if is_nil records
      then codes "cluster health blocked by unhealthy nodes"
      else codes "cluster health blocked by unhealthy nodes: "
        ++ join (codes ", ") (map blocker_text records)

  unfoldable pub reason_text : Reason → Text
  reason_text (unhealthy_nodes records) = format_cluster_health_message records
  reason_text (below_minimum healthy minimum) =
      codes "healthy nodes " ++ (show_nat healthy ++ (codes " below minimum " ++ itoa minimum))
  reason_text (below_fraction healthy required total) =
      codes "healthy nodes "
      ++ (show_nat healthy
          ++ (codes " below "
              ++ (printing.fraction
                  ++ (codes " requirement ("
                      ++ (itoa required ++ (codes " of " ++ (show_nat total ++ codes ")")))))))
  reason_text only_fallback_left = codes "only fallback nodes remain healthy"

  abbrev remaining_text : Option Nanos → List Text
  remaining_text none = []
  remaining_text (some d) = (codes "remaining " ++ format_duration d) ∷ []

  abbrev starter_text : Option Text → List Text
  starter_text none = []
  starter_text (some node) = (codes "started by " ++ node) ∷ []

  abbrev exit_message : Text → ℤ → Text
  exit_message text code = in_brackets text (codes "exit " ++ itoa code)

  unfoldable pub message_text : Message → Text
  unfolding reason_text
  message_text Message.no_message = []
  message_text Message.kill_present =
      codes "kill switch " ++ (printing.kill_switch_path ++ codes " present")
  message_text Message.kill_present_after_lock =
      codes "kill switch " ++ (printing.kill_switch_path ++ codes " present after lock")
  message_text Message.outside_allow = codes "outside configured allow windows"
  message_text Message.no_detectors = codes "no detectors require a reboot"
  message_text Message.detectors_cleared = codes "detectors cleared after lock acquisition"
  message_text Message.prerequisites_satisfied = codes "reboot prerequisites satisfied"
  message_text (Message.denied_by expression) =
      codes "blocked by deny window " ++ printing.quoted expression
  message_text (Message.skipped_because reason) = reason
  message_text (Message.unhealthy_monitoring code) =
      exit_message (codes "health script reported unhealthy during monitoring") code
  message_text (Message.unhealthy_before_lock code) =
      exit_message (codes "health script blocked reboot before lock") code
  message_text (Message.unhealthy_under_lock code) =
      exit_message (codes "health script blocked reboot under lock") code
  message_text (Message.policies_block reasons) = join (codes "; ") (map reason_text reasons)
  message_text (Message.cooling_down remaining starter) =
      let details = remaining_text remaining ++ starter_text starter in
      if is_nil details
      then codes "reboot cooldown active"
      else in_brackets (codes "reboot cooldown active") (join (codes ", ") details)
  message_text (Message.lock_not_acquired attempts) =
      codes "failed to acquire lock after " ++ (show_nat attempts ++ codes " attempts")
