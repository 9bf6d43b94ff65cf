-- ===== src/Orchestrator/Progress.antt =====
-- A pass of `RunOnce` that nothing stands against (pkg/orchestrator/runner.go).
use clusterrebootd.Prelude.{
  ℕ, ◌≡◌, refl, Bool, true, false, none, List, [], ◌∷◌, arith, if◌then◌else◌, is_nil,
}
use clusterrebootd.Orchestrator.Types.{Outcome, empty_outcome, Trace, Environment, Runner}
use clusterrebootd.Orchestrator.Flow.{State, Exit, M, modify, continue}
use clusterrebootd.Orchestrator.Gates.{set_command}
use clusterrebootd.Orchestrator.RunOnce.{
  before_lock, lock_gate, hand_over, make_ready, checks_under_lock, under_lock, release_unless_kept,
  with_lock, pass, settle, run_once,
}
use clusterrebootd.Text.{Text}
use clusterrebootd.Orchestrator.PassLock.{is_armed}
use clusterrebootd.Orchestrator.Command.{expand_command}
use clusterrebootd.Orchestrator.Favourable.{IsFavourable, OnNext, Any}
use clusterrebootd.Orchestrator.GateProgress.{
  lock_gate-Goes, before_lock-Goes, checks_under_lock-Goes,
}

first_branch :
    {A : Type 0} (P : A → Type 0) (b : Bool) (x y : A) → b ≡ true → P x → P (if b then x else y)
first_branch P true x y e h = h
first_branch P false x y e h = cc

command_expands :
    (env : Environment) (command : List Text) (variables : List (Text × Text))
    → is_nil command ≡ false
    → is_nil (expand_command env.getenv command variables) ≡ false
unfolding expand_command
command_expands env [] variables h = cc
command_expands env (arg ∷ command) variables h = refl

module _ (env : Environment) (r : Runner) (fav : IsFavourable env r) where
  -- The end of a pass with an outcome whose command is to be run.
  abbrev EndsArmed : Exit (Unit {0}) × State → Type 0
  EndsArmed (x, s) = OnNext Any x × (is_armed s.out ≡ true) × (s.out.lock_release ≡ true)

  make_ready-armed :
      (o : Outcome)
      → (is_armed (make_ready env r o) ≡ true) × ((make_ready env r o).lock_release ≡ true)
  unfolding make_ready hand_over set_command
  make_ready-armed o =
      let expands = command_expands env r.reboot_command r.command_env fav.command in
      (ground (arith, fav.armed, expands), ground (arith, fav.armed, expands))

  armed_after :
      (x : Exit (Unit {0})) (s : State)
      → OnNext Any x
      → EndsArmed (continue (λ _. modify (make_ready env r)) (x, s))
  armed_after (Exit.next a) s h = (tt, (make_ready-armed s.out).0, (make_ready-armed s.out).1)
  armed_after Exit.stop s h = elim h [ ]
  armed_after (Exit.fail e) s h = elim h [ ]

  kept_armed : (x : Exit (Unit {0}) × State) → EndsArmed x → EndsArmed (release_unless_kept env r x)
  unfolding release_unless_kept
  kept_armed (x, s) h = first_branch EndsArmed s.out.lock_release (x, s) _ h.2 h

  with_lock-armed : (attempts : ℕ) (s : State) → EndsArmed (with_lock env r attempts s)
  unfolding with_lock under_lock
  with_lock-armed attempts s =
      let checked = checks_under_lock env r attempts s in
      kept_armed _ (armed_after checked.0 checked.1 (checks_under_lock-Goes env r fav attempts s))

  then_armed :
      {A : Type 0} (f : A → M (Unit {0})) (x : Exit A) (s : State)
      → OnNext Any x
      → ((a : A) (after : State) → EndsArmed (f a after))
      → EndsArmed (continue f (x, s))
  then_armed f (Exit.next a) s h rest = rest a s
  then_armed f Exit.stop s h rest = elim h [ ]
  then_armed f (Exit.fail e) s h rest = elim h [ ]

  settle-armed :
      (x : Exit (Unit {0})) (s : State)
      → EndsArmed (x, s)
      → (is_armed (settle env r (x, s)).0 ≡ true)
        × ((settle env r (x, s)).0.lock_release ≡ true)
        × ((settle env r (x, s)).1 ≡ none)
  unfolding settle
  settle-armed (Exit.next a) s h = (h.1, h.2, refl)
  settle-armed Exit.stop s h = (h.1, h.2, refl)
  settle-armed (Exit.fail e) s h = elim h.0 [ ]

  pass-armed : (s : State) → EndsArmed (pass env r s)
  unfolding pass
  pass-armed s =
      let prepared = before_lock env r s in
      then_armed _ prepared.0 prepared.1 (before_lock-Goes env r fav s) (λ a after.
        let locked = lock_gate env r after in
        then_armed _ locked.0 locked.1 (lock_gate-Goes env r fav after) with_lock-armed)

  -- Where nothing stands against a reboot, a pass ends with an outcome that is ready, holds the lock and
  -- has a command to run, and without an error, whatever was called before. Nothing stands against
  -- one: the kill switch is off, the windows allow the instant, the detectors ask, the policies do
  -- not block, the script is healthy and its result stored, no cooldown is active, the lock is
  -- enabled and free; and the runner makes at least one attempt, is no dry run, and has a command.
  pub run_once-armed :
      (t : Trace)
      → (is_armed (run_once env r t).0 ≡ true)
        × ((run_once env r t).0.lock_release ≡ true)
        × ((run_once env r t).1 ≡ none)
  unfolding run_once
  run_once-armed t =
      let ended = pass env r (record { trace = t; out = empty_outcome }) in
      settle-armed ended.0 ended.1 (pass-armed (record { trace = t; out = empty_outcome }))
