-- ===== src/Detector/EngineLaws.antt =====
-- What the engine reports (pkg/detector/engine.go), against the results of the detectors.
use clusterrebootd.Prelude.{
  ◌≡◌, refl, ap, Bool, true, false, not, ◌&&◌, ◌||◌, Option, none, some, List, [], ◌∷◌, ◌++◌, arith,
  if◌then◌else◌, any, Bool-cases, inl, inr, ◌⊎◌, ◌↔◌, is_nil, reverse_onto,
}
use clusterrebootd.Text.{Text}
use clusterrebootd.Orchestrator.Failure.{Failure, is_cancel}
use clusterrebootd.Orchestrator.Types.{DetectorResult}
use clusterrebootd.Detector.Probe.{Detector, detector_name, Host, check}
use clusterrebootd.Detector.ProbeLaws.{Wants, Decides, check-Wants, check-Decides}
use clusterrebootd.Detector.Engine.{
  Evaluation, Rest, result_of, collect, error_of, step, evaluate_from, evaluate,
}

abbrev pub failed : DetectorResult → Bool
failed r = elim r.failure [ none ↦ false | some _ ↦ true ]

-- The detectors that failed, in the order in which they were asked.
abbrev pub failures : List DetectorResult → List Text
failures [] = []
failures (r ∷ rs) = if failed r then failures rs ++ r.name ∷ [] else failures rs

-- Some detector that did not fail asks for a reboot.
abbrev pub asked : List DetectorResult → Bool
asked = any (λ r. not (failed r) && r.requires_reboot)

abbrev pub ends_it : DetectorResult → Bool
ends_it r = elim r.failure [ none ↦ false | some e ↦ is_cancel e ]

-- No error that a detector gave ends the evaluation.
abbrev pub Collected : List DetectorResult → Type 0
Collected rs = any ends_it rs ≡ false

-- The result of a detector, of what the host answers after the results before: the context had not
-- ended, a reboot is asked for exactly if the detector finds it required, and there is no failure
-- exactly if it comes to a verdict.
abbrev pub IsAnswer : Host → Detector → List DetectorResult → DetectorResult → Type 0
IsAnswer host d history r =
    (host.context_error history ≡ none)
    × (r.name ≡ detector_name d)
    × ((r.requires_reboot, r.failure) ≡ check host history d)
    × ((r.requires_reboot ≡ true) ↔ Wants host history d)
    × ((r.failure ≡ none) ↔ Decides host history d)

-- The results are the answers of the detectors, both with the last one first.
abbrev pub Answered : Host → List Detector → List DetectorResult → Type 0
Answered host [] [] = Unit
Answered host (d ∷ ds) (r ∷ rs) = IsAnswer host d rs r × Answered host ds rs
Answered host _ _ = ⊥

-- An evaluation that asked all detectors and reports just what they answered, of the detectors that
-- were asked before, the last one first, and those that were left.
abbrev pub IsComplete : Host → List Detector → List Detector → Evaluation → Type 0
IsComplete host done ds (required, results, error) =
    Answered host (reverse_onto ds done) results
    × Collected results
    × (required ≡ asked results)
    × (error ≡ error_of (failures results))

-- The last detector that was asked gave an error that ends the evaluation.
abbrev pub LastEnds : Failure → List DetectorResult → Type 0
LastEnds e [] = ⊥
LastEnds e (r ∷ rs) = (r.failure ≡ some e) × (is_cancel e ≡ true) × Collected rs

-- An evaluation that was ended: the first detectors were asked, no reboot is asked for, and the error
-- is that of the context before the next detector, or that of the last detector that was asked.
abbrev pub IsEnded : Host → List Detector → List Detector → Evaluation → Type 0
IsEnded host done ds (required, results, error) =
    (required ≡ false)
    × (first : List Detector) × (left : List Detector) × (reverse_onto left first
        ≡ reverse_onto ds done)
    × Answered host first results
    × (e : Failure) × (error ≡ some e)
    × (((host.context_error results ≡ some e) × (is_nil left ≡ false) × Collected results)
        ⊎ LastEnds e results)

abbrev Spec : Host → List Detector → List Detector → Evaluation → Type 0
Spec host done ds x = IsComplete host done ds x ⊎ IsEnded host done ds x

-- What is left to do after some results were collected.
abbrev Continues : Host → List Detector → List Detector → Rest → Type 0
Continues host done ds on =
    (required : Bool) (results : List DetectorResult) (problems : List Text)
    → Answered host done results
    → Collected results
    → required ≡ asked results
    → problems ≡ failures results
    → Spec host done ds (on required results problems)

module _ (host : Host) where
  collect_lem :
      (d : Detector) (done ds : List Detector) (on : Rest) (required : Bool)
      (results : List DetectorResult) (problems : List Text) (r : DetectorResult)
      (failure : Option Failure)
      → r.failure ≡ failure
      → Continues host (d ∷ done) ds on
      → Answered host (d ∷ done) (r ∷ results)
      → Collected results
      → required ≡ asked results
      → problems ≡ failures results
      → Spec host (d ∷ done) ds (collect on required results problems r failure)
  collect_lem d done ds on required results problems r none e h w c q p =
      h (required || r.requires_reboot) (r ∷ results) problems w (ground arith) (ground arith)
        (ground arith)
  collect_lem d done ds on required results problems r (some x) e h w c q p =
      elim (Bool-cases (is_cancel x)) [
        | inl ends ↦ rw ends (inr (refl, d ∷ done, ds, refl, w, x, refl, inr (e, ends, c)))
        | inr goes_on ↦ rw goes_on (
            h required (r ∷ results) (problems ++ r.name ∷ []) w (ground arith) (ground arith)
              (ground arith))
      ]

  step_lem :
      (d : Detector) (done ds : List Detector) (on : Rest) (required : Bool)
      (results : List DetectorResult) (problems : List Text) (ended : Option Failure)
      → host.context_error results ≡ ended
      → Continues host (d ∷ done) ds on
      → Answered host done results
      → Collected results
      → required ≡ asked results
      → problems ≡ failures results
      → Spec host done (d ∷ ds) (step host on required results problems d ended)
  unfolding step
  step_lem d done ds on required results problems (some e) x h w c q p =
      inr (refl, done, d ∷ ds, refl, w, e, refl, inl (x, refl, c))
  step_lem d done ds on required results problems none x h w c q p =
      let r = result_of (detector_name d) (check host results d) in
      collect_lem d done ds on required results problems r r.failure refl h
        ((x, refl, refl, check-Wants host results d, check-Decides host results d), w) c q p

  evaluate_from_lem : (ds done : List Detector) → Continues host done ds (evaluate_from host ds)
  unfolding evaluate_from
  evaluate_from_lem [] done required results problems w c q p = inl (w, c, q, ap error_of p)
  evaluate_from_lem (d ∷ ds) done required results problems w c q p =
      step_lem d done ds (evaluate_from host ds) required results problems
        (host.context_error results) refl (evaluate_from_lem ds (d ∷ done)) w c q p

  -- However the host answers, the results are the answers of the first detectors, in their order: each
  -- asks for a reboot exactly if its file is there or its command ended with a code that says so, and
  -- fails exactly if neither the presence nor the absence of its file, or no exit code of its command
  -- in time, is known. Either every detector was asked, no error among the results is the end
  -- of a context, a reboot is asked for exactly if a detector that did not fail does, and the failed
  -- detectors are the error if there are any; or the evaluation was ended by a context before the
  -- next detector or by the error of the last one for one, returns that error, and asks for no reboot.
  pub evaluate_lem :
      (ds : List Detector)
      → IsComplete host [] ds (evaluate host ds) ⊎ IsEnded host [] ds (evaluate host ds)
  unfolding evaluate
  evaluate_lem ds = evaluate_from_lem ds [] false [] [] tt refl refl refl
