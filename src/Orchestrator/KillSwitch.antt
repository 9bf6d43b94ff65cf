-- ===== src/Orchestrator/KillSwitch.antt =====
-- A pass with the kill switch on (`RunOnce` of pkg/orchestrator/runner.go).
use clusterrebootd.Prelude.{◌≡◌, refl, Bool, true, false, Option, none, some, ◌∷◌, ◌⊎◌, inl, inr}
use clusterrebootd.Orchestrator.Failure.{Failure, Context, wrap}
use clusterrebootd.Orchestrator.Types.{
  Phase, Status, empty_outcome, Call, Trace, Environment, Runner,
}
use clusterrebootd.Orchestrator.Gates.{kill_gate}
use clusterrebootd.Orchestrator.RunOnce.{before_lock, pass, settle, run_once}

-- The pass after the answer of the first check.
abbrev After : Environment → Runner → Trace → Bool × Option Failure → Type 0
After env r trace (active, unread) =
    env.check_kill trace ≡ (active, unread)
    → let (o, failure, t) = run_once env r trace in
      ((active ≡ false) × (unread ≡ none))
      ⊎ ((o.status ≡ some Status.kill_switch)
          × (failure ≡ none)
          × (t ≡ Call.outcome_recorded o ∷ Call.kill_checked Phase.pre_lock true none ∷ trace))
      ⊎ ((e : Failure) × (unread ≡ some e)
          × (o ≡ empty_outcome)
          × (failure ≡ some (wrap Context.check_kill_switch e))
          × (t ≡ Call.kill_checked Phase.pre_lock active (some e) ∷ trace))

after_lem :
    (env : Environment) (r : Runner) (trace : Trace) (answer : Bool × Option Failure)
    → After env r trace answer
unfolding run_once pass before_lock kill_gate settle
after_lem env r trace (false, none) h = inl (refl, refl)
after_lem env r trace (true, none) h = inr (inl (rw h (refl, refl, refl)))
after_lem env r trace (active, some e) h = inr (inr (e, refl, rw h refl, rw h refl, rw h refl))

-- Where the switch is on at the start of a pass, or cannot be read, the pass makes no other call: no
-- detector, no script and no lock is touched. If it is on, the outcome says so and is recorded; if it
-- cannot be read, the pass returns that error, and the outcome is empty.
pub run_once-kill :
    (env : Environment) (r : Runner) (trace : Trace)
    → let (active, unread) = env.check_kill trace in
      let (o, failure, t) = run_once env r trace in
      ((active ≡ false) × (unread ≡ none))
      ⊎ ((o.status ≡ some Status.kill_switch)
          × (failure ≡ none)
          × (t ≡ Call.outcome_recorded o ∷ Call.kill_checked Phase.pre_lock true none ∷ trace))
      ⊎ ((e : Failure) × (unread ≡ some e)
          × (o ≡ empty_outcome)
          × (failure ≡ some (wrap Context.check_kill_switch e))
          × (t ≡ Call.kill_checked Phase.pre_lock active (some e) ∷ trace))
run_once-kill env r trace = after_lem env r trace (env.check_kill trace) refl
