-- ===== src/Reports/Checks.antt =====
-- The reports of the checks of a pass (pkg/orchestrator/runner.go): the cooldown, the windows, the kill
-- switch, the detectors, the health script.
use clusterrebootd.Prelude.{
  Bool, true, false, Option, none, some, List, [], ◌∷◌, ◌++◌, not, if◌then◌else◌, is_nil, ℤ, pos,
  ltb_ℤ,
}
use clusterrebootd.Text.{Text, codes}
use Prim.Native.String.{String}
use clusterrebootd.Detector.Probe.{eq_ℤ}
use clusterrebootd.Windows.Evaluator.{Decision}
use clusterrebootd.Orchestrator.Failure.{Failure}
use clusterrebootd.Orchestrator.Types.{Nanos, Phase, HealthResult, CooldownStatus, DetectorResult}
use clusterrebootd.Observability.Types.{
  Level, MetricType, Measure, Labels, Metric, Scalar, Entry, Value, Fields, Event, Recorded,
  milliseconds, in_labels, text_field, number_field, flag_field, instant_field,
}
use clusterrebootd.Reports.Texts.{phase_text}

abbrev pub node_event : Text → Level → Text → Fields → Recorded
node_event node level name fields =
    let e : Event = record {
      level = level;
      node = node;
      component = [];
      event = name;
      fields = fields;
    } in
    Recorded.event e

abbrev pub count_metric : Text → Text → Labels → Recorded
count_metric name description labels =
    let m : Metric = record {
      name = name;
      kind = MetricType.counter;
      value = Measure.whole (pos 1);
      labels = labels;
      description = description;
      unit = [];
    } in
    Recorded.metric m

abbrev pub time_metric : Text → Text → Nanos → Labels → Recorded
time_metric name description duration labels =
    let m : Metric = record {
      name = name;
      kind = MetricType.histogram;
      value = Measure.seconds duration;
      labels = labels;
      description = description;
      unit = codes "seconds";
    } in
    Recorded.metric m

abbrev pub opt {ℓ} : {A : Type ℓ} → Bool → A → List A
opt true a = a ∷ []
opt false a = []

abbrev pub opt_text : String → Text → Fields
opt_text name value = opt (not (is_nil value)) (text_field name value)

abbrev pub opt_instant : String → Option Nanos → Fields
opt_instant name none = []
opt_instant name (some t) = instant_field name t ∷ []

-- `err.Error()`: the text of an error, which other code gives in part.
abbrev pub Printed : Type 0
Printed = Failure → Text

abbrev pub error_field : Printed → Option Failure → Fields
error_field print none = []
error_field print (some e) = text_field "error" (print e) ∷ []

-- The level and the result where an error stands above what was found.
abbrev pub level_or : Option Failure → Level → Level
level_or none level = level
level_or (some e) level = Level.error

abbrev pub result_or : Option Failure → Text → Text
result_or none result = result
result_or (some e) result = codes "error"

abbrev pub level_if : Bool → Level
level_if b = if b then Level.warn else Level.info

-- `detector.Result`, with the duration and the exit code that are printed.
pub record Evaluated : Type 0 where
  pub result : DetectorResult
  pub duration : Nanos
  pub exit_code : Option ℤ

module _ (print : Printed) (node : Text) where
  unfoldable pub cooldown_details : CooldownStatus → Fields
  cooldown_details s =
      if s.active
      then opt_text "node" s.node
        ++ (opt_instant "started_at" s.started_at
            ++ opt (ltb_ℤ (pos 0) s.remaining)
                (number_field "remaining_ms" (milliseconds s.remaining)))
      else []

  abbrev pub cooldown_more : CooldownStatus → Option Failure → Fields
  cooldown_more s none = cooldown_details s
  cooldown_more s (some e) = error_field print (some e)

  unfoldable pub record_cooldown_status : Phase → CooldownStatus → Option Failure → List Recorded
  unfolding cooldown_details
  record_cooldown_status phase s failure =
      let result = result_or failure (if s.active then codes "active" else codes "inactive") in
      count_metric (codes "cooldown_checks_total")
        (codes "Number of reboot cooldown inspections grouped by phase and result.")
        (in_labels "phase" (phase_text phase) ∷ in_labels "result" result ∷ [])
      ∷ node_event node (level_or failure (level_if s.active)) (codes "cooldown_status") (
          text_field "phase" (phase_text phase)
          ∷ flag_field "active" s.active
          ∷ cooldown_more s failure)
      ∷ []

  unfoldable pub record_cooldown_activation : Nanos → Option Failure → List Recorded
  record_cooldown_activation duration failure =
      count_metric (codes "cooldown_activations_total")
        (codes "Number of reboot cooldown activations grouped by result.")
        (in_labels "result" (result_or failure (codes "success")) ∷ [])
      ∷ node_event node (level_or failure Level.info) (codes "cooldown_started")
          (number_field "duration_ms" (milliseconds duration) ∷ error_field print failure)
      ∷ []

  unfoldable pub record_cooldown_clear : Option Failure → List Recorded
  record_cooldown_clear failure =
      count_metric (codes "cooldown_clears_total")
        (codes "Number of reboot cooldown clear attempts grouped by result.")
        (in_labels "result" (result_or failure (codes "success")) ∷ [])
      ∷ node_event node (level_or failure Level.info) (codes "cooldown_cleared")
          (error_field print failure)
      ∷ []

  -- The result, the level and the matched expression of a decision.
  unfoldable pub window_result : Option Text → Option Text → Bool → Text × Level × Fields
  window_result (some deny) allow configured =
      (codes "deny", Level.warn, text_field "matched_expression" deny ∷ [])
  window_result none allow false = (codes "allowed", Level.info, [])
  window_result none (some expression) true =
      (codes "allowed", Level.info, text_field "matched_expression" expression ∷ [])
  window_result none none true = (codes "outside_allow", Level.warn, [])

  unfoldable pub record_window_decision : Decision → List Recorded
  unfolding window_result
  record_window_decision d =
      let (result, level, matched) =
        window_result d.matched_deny d.matched_allow d.allow_configured in
      count_metric (codes "window_evaluations_total")
        (codes "Number of maintenance window evaluations grouped by result.")
        (in_labels "result" result ∷ [])
      ∷ node_event node level (codes "maintenance_window") (
          flag_field "allowed" d.allowed
            ∷ opt d.allow_configured (flag_field "allow_configured" true)
          ++ matched)
      ∷ []

  unfoldable pub record_kill_switch : Phase → Bool → Option Failure → List Recorded
  record_kill_switch stage active failure =
      let result = result_or failure (if active then codes "active" else codes "inactive") in
      count_metric (codes "kill_switch_checks_total")
        (codes "Number of kill switch evaluations grouped by stage and result.")
        (in_labels "stage" (phase_text stage) ∷ in_labels "result" result ∷ [])
      ∷ node_event node (level_or failure (level_if active)) (codes "kill_switch") (
          text_field "stage" (phase_text stage)
          ∷ flag_field "active" active
          ∷ error_field print failure)
      ∷ []

  abbrev error_entry : Option Failure → Entry
  error_entry none = []
  error_entry (some e) = (codes "error", Scalar.text (print e)) ∷ []

  -- An exit code is there if a command was run.
  abbrev exit_entry : Option ℤ → Entry
  exit_entry none = []
  exit_entry (some code) = (codes "exit_code", Scalar.number code) ∷ []

  unfoldable pub summarise_detector_results : List Evaluated → List Entry
  summarise_detector_results [] = []
  summarise_detector_results (e ∷ es) =
      ((codes "name", Scalar.text e.result.name)
          ∷ (codes "requires", Scalar.flag e.result.requires_reboot)
          ∷ (codes "duration_ms", Scalar.number (milliseconds e.duration))
          ∷ error_entry e.result.failure
        ++ exit_entry e.exit_code)
      ∷ summarise_detector_results es

  unfoldable pub record_detector_evaluation :
      Phase → Nanos → Bool → List Evaluated → Option Failure → List Recorded
  unfolding summarise_detector_results
  record_detector_evaluation phase duration requires results failure =
      let outcome = result_or failure (if requires then codes "requires" else codes "clear") in
      let labels = in_labels "phase" (phase_text phase) ∷ in_labels "result" outcome ∷ [] in
      count_metric (codes "detector_evaluations_total")
        (codes "Number of detector evaluations grouped by phase and result.") labels
      ∷ time_metric (codes "detector_evaluation_seconds") (codes "Latency of detector evaluations.")
          duration labels
      ∷ node_event node (level_or failure Level.info) (codes "detectors_evaluated") (
          text_field "phase" (phase_text phase)
          ∷ number_field "duration_ms" (milliseconds duration)
          ∷ flag_field "requires_reboot" requires
          ∷ (codes "detector_summaries", Value.entries (summarise_detector_results results))
          ∷ error_field print failure)
      ∷ []

  abbrev health_more : HealthResult → Option Failure → Fields
  health_more res none = number_field "exit_code" res.exit_code ∷ []
  health_more res (some e) = error_field print (some e)

  unfoldable pub record_health : Phase → Nanos → HealthResult → Option Failure → List Recorded
  record_health phase duration res failure =
      let blocked = not (eq_ℤ res.exit_code (pos 0)) in
      let status = result_or failure (if blocked then codes "blocked" else codes "pass") in
      let labels = in_labels "phase" (phase_text phase) ∷ in_labels "result" status ∷ [] in
      count_metric (codes "health_checks_total")
        (codes "Number of health script executions grouped by phase and result.") labels
      ∷ time_metric (codes "health_check_seconds") (codes "Execution time of the health script.")
          duration labels
      ∷ node_event node (level_or failure (level_if blocked)) (codes "health_check") (
          text_field "phase" (phase_text phase)
          ∷ number_field "duration_ms" (milliseconds duration)
          ∷ health_more res failure)
      ∷ []
