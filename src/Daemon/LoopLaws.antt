-- ===== src/Daemon/LoopLaws.antt =====
-- `run` after its set-up (cmd/clusterrebootd/main.go), with `--once` and without.
use clusterrebootd.Prelude.{
  ℕ, ◌≤◌, ◌≡◌, refl, Bool, true, false, Option, none, [], ◌∷◌, arith, inl, inr, ◌⊎◌,
}
use clusterrebootd.Config.Types.{Config}
use clusterrebootd.Config.Derived.{check_interval}
use clusterrebootd.Orchestrator.Failure.{Failure}
use clusterrebootd.Orchestrator.Types.{Outcome, Call, Trace, Environment, Runner}
use clusterrebootd.Orchestrator.Lock.{release_lease}
use clusterrebootd.Orchestrator.RunOnce.{run_once}
use clusterrebootd.Orchestrator.Held.{held}
use clusterrebootd.Orchestrator.GateCalls.{inert}
use clusterrebootd.Orchestrator.PassCalls.{run_once-inert}
use clusterrebootd.Orchestrator.Loop.{Turn, LoopState, new_loop, turns, release_outcome}
use clusterrebootd.Orchestrator.Loop.Laws.{just_executed, turns-held}
use clusterrebootd.Orchestrator.Loop.DryRun.{turns-inert}
use clusterrebootd.Orchestrator.Loop.Once.{executions, inert-executions, executions-turns}
use clusterrebootd.Daemon.Run.{release_and_exit, after_once, once, after_loop}
use clusterrebootd.Daemon.RunLaws.{once-held}
use clusterrebootd.Daemon.Programs.{was_executed, loop_start, after_turns, run_loop, run_prepared}

-- The lock is free, or the reboot command was the last thing done, with success.
abbrev pub Free : Trace → Type 0
Free t = (held t ≡ false) ⊎ (just_executed t ≡ true)

pub just-was_executed : (t : Trace) → just_executed t ≡ true → was_executed t ≡ true
unfolding was_executed
just-was_executed [] h = cc
just-was_executed (Call.executed c none ∷ t) h = refl
just-was_executed (c ∷ t) h = ground (arith, h)

module _ (env : Environment) where
  after_loop-Free :
      (e : Option Failure) (last : Outcome) (t : Trace)
      → (held t ≡ false) ⊎ (just_executed t ≡ true)
      → Free (after_loop env e last (was_executed t) t).1
  unfolding after_loop release_and_exit release_outcome release_lease
  after_loop-Free e last t h = ground (arith, h, just-was_executed t)

  after_loop-executions :
      (e : Option Failure) (last : Outcome) (executed : Bool) (t : Trace)
      → executions (after_loop env e last executed t).1 ≡ executions t
  unfolding after_loop release_and_exit release_outcome release_lease
  after_loop-executions e last executed t = ground arith

  after_loop-inert :
      (e : Option Failure) (last : Outcome) (executed : Bool) (t : Trace)
      → inert true t ≡ true
      → inert true (after_loop env e last executed t).1 ≡ true
  unfolding after_loop release_and_exit release_outcome release_lease
  after_loop-inert e last executed t h = ground (arith, h)

  after_turns-Free :
      (x : Turn × LoopState)
      → (held x.1.trace ≡ false) ⊎ (just_executed x.1.trace ≡ true)
      → Free (after_turns env x).1
  after_turns-Free (Turn.goes_on, s) h = h
  after_turns-Free (Turn.returns e, s) h = after_loop-Free e s.last s.trace h

  after_turns-executions :
      (x : Turn × LoopState) → executions (after_turns env x).1 ≡ executions x.1.trace
  after_turns-executions (Turn.goes_on, s) = refl
  after_turns-executions (Turn.returns e, s) =
      after_loop-executions e s.last (was_executed s.trace) s.trace

  after_turns-inert :
      (x : Turn × LoopState) → inert true x.1.trace ≡ true → inert true (after_turns env x).1 ≡ true
  after_turns-inert (Turn.goes_on, s) h = h
  after_turns-inert (Turn.returns e, s) h =
      after_loop-inert e s.last (was_executed s.trace) s.trace h

  pub run_prepared-Free :
      (only_once : Bool) (c : Config) (r : Runner) (fuel : ℕ)
      → Free (run_prepared env only_once c r fuel).1
  unfolding run_prepared run_loop
  run_prepared-Free true c r fuel = inl (once-held env r [] refl).0
  run_prepared-Free false c r fuel =
      let l = new_loop (check_interval c) [] in
      after_turns-Free (turns env r l fuel loop_start)
        (elim (turns-held env r l fuel loop_start refl) [
          | inl free ↦ inl free
          | inr (_, ran) ↦ inr ran
        ])

  -- After the pass, `run --once` makes no call but the release.
  after_once-inert :
      (reporting : Bool) (o : Outcome) (e : Option Failure) (t : Trace)
      → inert reporting t ≡ true
      → inert reporting (after_once env (o, e, t)).1 ≡ true
  unfolding after_once release_and_exit release_outcome release_lease
  after_once-inert reporting o e t h = ground (arith, h)

  pub once-inert : (r : Runner) → inert true (once env r []).1 ≡ true
  unfolding once
  once-inert r =
      let (o, e, t) = run_once env r [] in
      after_once-inert true o e t (run_once-inert env r true (ground arith) [] refl).0

  pub run_prepared-inert :
      (only_once : Bool) (c : Config) (r : Runner) (fuel : ℕ)
      → (r.dry_run ≡ true) ⊎ (only_once ≡ true)
      → inert true (run_prepared env only_once c r fuel).1 ≡ true
  unfolding run_prepared run_loop
  run_prepared-inert true c r fuel h = once-inert r
  run_prepared-inert false c r fuel (inr h) = cc
  run_prepared-inert false c r fuel (inl dry) =
      let l = new_loop (check_interval c) [] in
      after_turns-inert (turns env r l fuel loop_start)
        (turns-inert env r l dry fuel loop_start refl refl)

  pub executions-run_prepared :
      (only_once : Bool) (c : Config) (r : Runner) (fuel : ℕ)
      → executions (run_prepared env only_once c r fuel).1 ≤ 1
  unfolding run_prepared run_loop
  executions-run_prepared true c r fuel =
      omega (arith, inert-executions (once env r []).1 (once-inert r))
  executions-run_prepared false c r fuel =
      let l = new_loop (check_interval c) [] in
      omega (
        arith,
        after_turns-executions (turns env r l fuel loop_start),
        executions-turns env r l fuel loop_start refl,
      )
