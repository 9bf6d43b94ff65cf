-- ===== src/Detector/Engine.antt =====
-- pkg/detector/engine.go: the engine that asks all detectors.
use clusterrebootd.Prelude.{
  Bool, false, ◌||◌, Option, none, some, List, [], ◌∷◌, ◌++◌, if◌then◌else◌, is_nil, any, Result,
  ok, err,
}
use clusterrebootd.Text.{Text, trim_space, text_eq}
use clusterrebootd.Orchestrator.Failure.{
  Failure, is_cancel, no_detectors, no_detector_name, duplicate_name, evaluation_failed,
}
use clusterrebootd.Orchestrator.Types.{DetectorResult}
use clusterrebootd.Detector.Probe.{Detector, detector_name, Host, check}

-- The loop of `NewEngine`, with the names that were seen.
unfoldable pub name_problem : List Text → List Detector → Option Failure
name_problem seen [] = none
name_problem seen (d ∷ ds) =
    let name = trim_space (detector_name d) in
    let rest = name_problem (name ∷ seen) ds in
    if is_nil name
    then some no_detector_name
    else if any (text_eq name) seen
    then some (duplicate_name name)
    else rest

abbrev pub engine_of : List Detector → Option Failure → Result Failure (List Detector)
engine_of ds none = ok ds
engine_of ds (some e) = err e

-- `NewEngine`: the engine is its detectors.
unfoldable pub new_engine : List Detector → Result Failure (List Detector)
new_engine ds = if is_nil ds then err no_detectors else engine_of ds (name_problem [] ds)

-- Whether a detector asks for a reboot, the results, the last one first, and the error.
abbrev pub Evaluation : Type 0
Evaluation = Bool × List DetectorResult × Option Failure

abbrev pub error_of : List Text → Option Failure
error_of [] = none
error_of names = some (evaluation_failed names)

-- The names of the detectors that failed are collected in their order.
abbrev pub Rest : Type 0
Rest = Bool → List DetectorResult → List Text → Evaluation

-- The results of the detectors so far, the last one first, to those of one more.
abbrev pub result_of : Text → Bool × Option Failure → DetectorResult
result_of name (required, failure) = record {
  name = name;
  requires_reboot = required;
  failure = failure;
}

-- What the body of the loop does with a result.
abbrev pub collect :
    Rest → Bool → List DetectorResult → List Text → DetectorResult → Option Failure → Evaluation
collect on requires results problems r (some e) =
    if is_cancel e
    then (false, r ∷ results, some e)
    else on requires (r ∷ results) (problems ++ r.name ∷ [])
collect on requires results problems r none =
    on (requires || r.requires_reboot) (r ∷ results) problems

module _ (host : Host) where
  unfoldable pub step :
      Rest → Bool → List DetectorResult → List Text → Detector → Option Failure → Evaluation
  step on requires results problems d (some e) = (false, results, some e)
  step on requires results problems d none =
      let r = result_of (detector_name d) (check host results d) in
      collect on requires results problems r r.failure

  -- The loop of `Evaluate`.
  unfoldable pub evaluate_from : List Detector → Rest
  unfolding step
  evaluate_from [] requires results problems = (requires, results, error_of problems)
  evaluate_from (d ∷ ds) requires results problems =
      step (λ a b c. evaluate_from ds a b c) requires results problems d
        (host.context_error results)

  -- `Evaluate`
  unfoldable pub evaluate : List Detector → Evaluation
  evaluate ds = evaluate_from ds false [] []
