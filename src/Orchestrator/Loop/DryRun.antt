-- ===== src/Orchestrator/Loop/DryRun.antt =====
-- The loop (pkg/orchestrator/loop.go) of a runner in a dry run.
use clusterrebootd.Prelude.{
  ℕ, zero, suc, ◌≡◌, true, false, Option, none, some, [], ◌∷◌, arith, Bool-cases, inl, inr, pos,
  negsuc,
}
use clusterrebootd.Orchestrator.Failure.{Failure}
use clusterrebootd.Orchestrator.Types.{Nanos, Outcome, Call, Trace, Environment, Runner}
use clusterrebootd.Orchestrator.Lock.{release_lease}
use clusterrebootd.Orchestrator.RunOnce.{run_once}
use clusterrebootd.Orchestrator.Held.{held}
use clusterrebootd.Orchestrator.PassLock.{is_armed, run_once-held}
use clusterrebootd.Orchestrator.GateCalls.{inert}
use clusterrebootd.Orchestrator.PassCalls.{run_once-inert}
use clusterrebootd.Orchestrator.Loop.{
  Loop, release_outcome, LoopState, Turn, loop_sleep, after_error, nothing_to_run, not_ready,
  after_pass, after_success, turn, pass_turn, turn_of, wait_or_return, turns, then_turns,
}
use clusterrebootd.Orchestrator.Loop.Laws.{just_executed, Safe, turn-Safe}

pub release-inert :
    (env : Environment) (o : Outcome) (t : Trace)
    → inert true t ≡ true
    → inert true (release_outcome env o t).2 ≡ true
unfolding release_outcome release_lease
release-inert env o t h = ground (arith, h)

-- The command is not the last call.
pub inert-just_executed : (t : Trace) → inert true t ≡ true → just_executed t ≡ true → ⊥
inert-just_executed [] h k = cc
inert-just_executed (Call.executed c none ∷ t) h k = cc
inert-just_executed (c ∷ t) h k = ground (arith, h, k)

module _ (env : Environment) (r : Runner) (l : Loop) where
  pub sleep-inert :
      (d : Nanos) (t : Trace) → inert true t ≡ true → inert true (loop_sleep env r l d t).1 ≡ true
  unfolding loop_sleep
  sleep-inert (pos zero) t h = h
  sleep-inert (pos (suc n)) t h = h
  sleep-inert (negsuc n) t h = h

  pub after_error-inert :
      (s : LoopState) (o : Outcome) (e : Failure) (t : Trace)
      → inert true t ≡ true
      → inert true (after_error env r l s o e t).1.trace ≡ true
  unfolding after_error
  after_error-inert s o e t h = sleep-inert _ _ (release-inert env o t h)

  pub wait-inert :
      (failure : Option Failure) (t : Trace)
      → inert true t ≡ true
      → inert true (wait_or_return env r l failure t).1 ≡ true
  unfolding wait_or_return
  wait-inert none t h = sleep-inert l.interval t h
  wait-inert (some e) t h = h

  pub not_ready-inert :
      (o : Outcome) (t : Trace) → inert true t ≡ true → inert true (not_ready env r l o t).1 ≡ true
  unfolding not_ready
  not_ready-inert o t h =
      let (released, _, t1) = release_outcome env o t in
      wait-inert released t1 (release-inert env o t h)

  pub nothing-inert :
      (o : Outcome) (t : Trace)
      → inert true t ≡ true
      → inert true (nothing_to_run env r l o t).1 ≡ true
  unfolding nothing_to_run
  nothing-inert o t h = release-inert env o t h

  after_pass-inert :
      (o : Outcome) (t : Trace)
      → is_armed o ≡ false
      → inert true t ≡ true
      → inert true (after_pass env r l o t).1 ≡ true
  unfolding after_pass
  after_pass-inert o t unarmed h =
      ground (arith, unarmed, not_ready-inert o t h, nothing-inert o t h)

  pass_turn-inert :
      (s : LoopState) (x : Outcome × Option Failure × Trace)
      → is_armed x.0 ≡ false
      → inert true x.2 ≡ true
      → inert true (pass_turn env r l s x).1.trace ≡ true
  unfolding pass_turn after_success
  pass_turn-inert s (o, some e, t) unarmed h = after_error-inert s o e t h
  pass_turn-inert s (o, none, t) unarmed h = after_pass-inert o t unarmed h

module _ (env : Environment) (r : Runner) (l : Loop) (dry : r.dry_run ≡ true) where
  turn_of-inert :
      (s : LoopState) (failure : Option Failure)
      → held s.trace ≡ false
      → inert true s.trace ≡ true
      → inert true (turn_of env r l s failure).1.trace ≡ true
  unfolding turn_of
  turn_of-inert s (some e) free h = h
  turn_of-inert s none free h =
      let calls = run_once-inert env r true (ground arith) s.trace h in
      let kept = run_once-held env r s.trace free in
      pass_turn-inert env r l s (run_once env r s.trace) (ground (arith, dry, calls.2, kept.1))
        calls.0

  turn-inert :
      (s : LoopState)
      → held s.trace ≡ false
      → inert true s.trace ≡ true
      → inert true (turn env r l s).1.trace ≡ true
  unfolding turn
  turn-inert s free h = turn_of-inert s (env.context_error s.trace) free h

  then_turns-inert :
      (n : ℕ) (x : Turn × LoopState)
      → ((s : LoopState)
          → held s.trace ≡ false
          → inert true s.trace ≡ true
          → inert true (turns env r l n s).1.trace ≡ true)
      → Safe x.0 x.1.trace
      → inert true x.1.trace ≡ true
      → inert true (then_turns env r l (turns env r l n) x).1.trace ≡ true
  then_turns-inert n (Turn.returns e, s) on safe h = h
  then_turns-inert n (Turn.goes_on, s) on safe h = elim (Bool-cases (held s.trace)) [
    | inl held_ ↦ elim (inert-just_executed s.trace h (safe held_).1) [ ]
    | inr free ↦ on s free h
  ]

  -- In a dry run no number of turns runs a command or starts a cooldown.
  pub turns-inert :
      (n : ℕ) (s : LoopState)
      → held s.trace ≡ false
      → inert true s.trace ≡ true
      → inert true (turns env r l n s).1.trace ≡ true
  unfolding turns
  turns-inert zero s free h = h
  turns-inert (suc n) s free h =
      then_turns-inert n (turn env r l s) (turns-inert n) (turn-Safe env r l s free)
        (turn-inert s free h)
