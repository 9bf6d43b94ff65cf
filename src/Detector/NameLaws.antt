-- ===== src/Detector/NameLaws.antt =====
-- Which detectors `NewEngine` accepts (pkg/detector/engine.go).
use clusterrebootd.Prelude.{
  ◌≡◌, refl, Bool, true, false, not, ◌&&◌, Option, none, some, List, [], ◌∷◌, map, arith, is_nil,
  any, ◌↔◌, ok,
}
use clusterrebootd.Text.{Text, trim_space, text_eq}
use clusterrebootd.Text.Laws.{text_eq_sym}
use clusterrebootd.Orchestrator.Failure.{Failure}
use clusterrebootd.Detector.Probe.{Detector, detector_name}
use clusterrebootd.Detector.Engine.{name_problem, engine_of, new_engine}

abbrev pub trimmed_names : List Detector → List Text
trimmed_names = map (λ d. trim_space (detector_name d))

abbrev pub are_distinct : List Text → Bool
are_distinct [] = true
are_distinct (n ∷ ns) = not (any (text_eq n) ns) && are_distinct ns

abbrev none_blank : List Text → Bool
none_blank ns = not (any is_nil ns)

-- No name is one of those that were seen.
abbrev unseen : List Text → List Text → Bool
unseen seen ns = not (any (λ n. any (text_eq n) seen) ns)

unseen-cons :
    (name : Text) (seen ns : List Text)
    → unseen (name ∷ seen) ns ≡ (not (any (text_eq name) ns) && unseen seen ns)
unseen-cons name seen [] = refl
unseen-cons name seen (n ∷ ns) = ground (arith, text_eq_sym n name, unseen-cons name seen ns)

unseen-nil : (ns : List Text) → unseen [] ns ≡ true
unseen-nil [] = refl
unseen-nil (n ∷ ns) = unseen-nil ns

is_none : Option Failure → Bool
is_none none = true
is_none (some e) = false

name_problem_lem :
    (seen : List Text) (ds : List Detector)
    → is_none (name_problem seen ds) ≡ (
        none_blank (trimmed_names ds)
        && are_distinct (trimmed_names ds)
        && unseen seen (trimmed_names ds))
unfolding name_problem is_none
name_problem_lem seen [] = refl
name_problem_lem seen (d ∷ ds) = ground (
  arith,
  name_problem_lem (trim_space (detector_name d) ∷ seen) ds,
  unseen-cons (trim_space (detector_name d)) seen (trimmed_names ds),
)

engine_lem :
    (ds : List Detector) (problem : Option Failure)
    → (engine_of ds problem ≡ ok ds) ↔ (is_none problem ≡ true)
unfolding is_none
engine_lem ds none = ground arith
engine_lem ds (some e) = ground arith

-- An engine is made, with just the given detectors, exactly if there are some and their names, space
-- around them apart, are neither blank nor equal.
pub new_engine_iff :
    (ds : List Detector)
    → (new_engine ds ≡ ok ds) ↔ (
        (is_nil ds ≡ false)
        × (any is_nil (trimmed_names ds) ≡ false)
        × (are_distinct (trimmed_names ds) ≡ true))
unfolding new_engine
new_engine_iff ds = ground (
  arith,
  engine_lem ds (name_problem [] ds),
  name_problem_lem [] ds,
  unseen-nil (trimmed_names ds),
)
