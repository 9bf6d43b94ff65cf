-- ===== src/Daemon/Exclusion.antt =====
-- Processes of several nodes (cmd/clusterrebootd/main.go), with a lock that only one of them holds at a
-- time.
use clusterrebootd.Prelude.{
  ℕ, ◌≡◌, ◌≢◌, refl, sym, subst, ◌∙◌, Bool, true, false, Option, none, some, [], ◌∷◌, ◌++◌, not,
  ◌&&◌, ◌||◌, arith, inl, inr, Bool-cases, ◌==◌, ==_iff, Result, ok, err,
}
use mathlib.Core.List.{append_assoc}
use clusterrebootd.Config.Types.{Config}
use clusterrebootd.Config.Derived.{check_interval}
use clusterrebootd.Orchestrator.Failure.{Failure}
use clusterrebootd.Orchestrator.Types.{Outcome, Call, Trace, Environment, Runner}
use clusterrebootd.Orchestrator.Lock.{release_lease}
use clusterrebootd.Orchestrator.Held.{held}
use clusterrebootd.Orchestrator.Loop.{Turn, LoopState, new_loop, turns, release_outcome}
use clusterrebootd.Orchestrator.Loop.Guarded.{guarded, inert-guarded, turns-guarded}
use clusterrebootd.Daemon.Run.{ExitCode, release_and_exit, once, after_loop}
use clusterrebootd.Daemon.Setup.{Resources, no_resources, World}
use clusterrebootd.Daemon.Commands.{RunFlags, Prepared, set_up_run}
use clusterrebootd.Daemon.Programs.{
  was_executed, loop_start, after_turns, run_loop, run_prepared, after_set_up, command_run,
  command_status,
}
use clusterrebootd.Daemon.LoopLaws.{once-inert}
use clusterrebootd.Daemon.StatusCommand.{command_status-Looks}
use clusterrebootd.Daemon.History.{
  releases, History, calls_of, is_gone, acquires, holds, Exclusive, NodeCommand, Node, trace_of,
  IsRunOf, runs_command, Alone, made, lapsed, running, looking,
}

module _ (env : Environment) where
  after_loop-guarded :
      (e : Option Failure) (last : Outcome) (executed : Bool) (t : Trace)
      → guarded t ≡ true
      → guarded (after_loop env e last executed t).1 ≡ true
  unfolding after_loop release_and_exit release_outcome release_lease
  after_loop-guarded e last executed t h = ground (arith, h)

  after_turns-guarded :
      (x : Turn × LoopState) → guarded x.1.trace ≡ true → guarded (after_turns env x).1 ≡ true
  after_turns-guarded (Turn.goes_on, s) h = h
  after_turns-guarded (Turn.returns e, s) h =
      after_loop-guarded e s.last (was_executed s.trace) s.trace h

  run_prepared-guarded :
      (only_once : Bool) (c : Config) (r : Runner) (fuel : ℕ)
      → guarded (run_prepared env only_once c r fuel).1 ≡ true
  unfolding run_prepared run_loop
  run_prepared-guarded true c r fuel = inert-guarded true (once env r []).1 (once-inert env r)
  run_prepared-guarded false c r fuel =
      let l = new_loop (check_interval c) [] in
      after_turns-guarded (turns env r l fuel loop_start)
        (turns-guarded env r l fuel loop_start refl refl)

ended-guarded :
    (connect : Prepared → Environment) (x : Result ExitCode Prepared × Resources) (only_once : Bool)
    (fuel : ℕ)
    → guarded
        (after_set_up (λ p. run_prepared (connect p) only_once p.config p.runner fuel) x).trace
      ≡ true
ended-guarded connect (err code, s) only_once fuel = refl
ended-guarded connect (ok p, s) only_once fuel =
    run_prepared-guarded (connect p) only_once p.config p.runner fuel

command_run-guarded :
    (w : World) (connect : Prepared → Environment) (fuel : ℕ) (flags : Option RunFlags)
    → guarded (command_run w connect fuel flags).trace ≡ true
unfolding command_run
command_run-guarded w connect fuel none = refl
command_run-guarded w connect fuel (some f) =
    ended-guarded connect (set_up_run w f no_resources) f.once fuel

trace_of-guarded :
    (w : World) (connect : Prepared → Environment) (command : NodeCommand) (fuel : ℕ)
    → guarded (trace_of w connect command fuel) ≡ true
trace_of-guarded w connect (running flags) fuel = command_run-guarded w connect fuel flags
trace_of-guarded w connect (looking flags) fuel =
    inert-guarded false (command_status w connect (some flags)).trace
      (command_status-Looks w connect flags).0

guarded-part : (later t : Trace) → guarded (later ++ t) ≡ true → guarded t ≡ true
guarded-part [] t h = h
guarded-part (c ∷ later) t h = guarded-part later t (ground (arith, h))

run-guarded : (n : Node) (t : Trace) → IsRunOf n t → guarded t ≡ true
run-guarded n t (fuel, later, e) =
    guarded-part later t
      (subst (λ u. guarded u ≡ true) e (trace_of-guarded n.world n.connect n.command fuel))

held-cons : (c : Call) (t : Trace) → held (c ∷ t) ≡ (acquires c || (held t && not (releases c)))
held-cons c t = ground arith

-- While its lease has not ended, a process holds the lock as its calls say.
holds-held : (i : ℕ) (h : History) → is_gone i h ≡ false → holds i h ≡ held (calls_of i h)
holds-held i [] here = refl
holds-held i (made j c ∷ h) here = ground (arith, holds-held i h here, held-cons c (calls_of i h))
holds-held i (lapsed j ∷ h) here = ground (arith, here, holds-held i h)

-- Of a call by `k`, where `j` is not `i`, and `i` holds the lock after it.
step_lem :
    (k i j : ℕ) (c : Call) (h : History)
    → (acquires c ≡ true → (m : ℕ) → m ≢ k → holds m h ≡ false)
    → (holds i h ≡ true → holds j h ≡ false)
    → holds i (made k c ∷ h) ≡ true
    → j ≢ i
    → holds j (made k c ∷ h) ≡ false
step_lem k i j c h given before p differ = elim (Bool-cases (acquires c)) [
  | inl taken ↦ elim (Bool-cases (k == j)) [
    | inl same ↦ ground (arith, same, p, differ, ==_iff k j, ==_iff k i, given taken i)
    | inr apart ↦
        let differs : j ≢ k = λ e. ground (arith, apart, ==_iff k j, e) in
        rw apart (given taken j differs)
  ]
  | inr other ↦ ground (arith, other, p, differ, before, ==_iff k j, ==_iff k i)
]

-- No two processes hold the lock.
one_holder : (h : History) (i j : ℕ) → Exclusive h → holds i h ≡ true → j ≢ i → holds j h ≡ false
one_holder [] i j x p differ = refl
one_holder (made k c ∷ h) i j x p differ =
    step_lem k i j c h x.1 (λ q. one_holder h i j x.2 q differ) p differ
one_holder (lapsed k ∷ h) i j x p differ =
    ground (arith, p, one_holder h i j x (ground (arith, p)) differ)

-- A command among the calls of a process was run with the lock held.
run_lem :
    (i : ℕ) (c : Call) (h : History)
    → guarded (calls_of i (made i c ∷ h)) ≡ true
    → runs_command c ≡ true
    → held (calls_of i h) ≡ true
run_lem i c h p r = ground (arith, p, r, ==_iff i i)

-- The calls of a process before one more call are an earlier part of its run.
before-IsRunOf :
    (n : Node) (i k : ℕ) (c : Call) (h : History)
    → IsRunOf n (calls_of i (made k c ∷ h))
    → IsRunOf n (calls_of i h)
before-IsRunOf n i k c h (fuel, later, e) = elim (Bool-cases (k == i)) [
  | inl own ↦ (
    fuel,
    later ++ c ∷ [],
    let own_ = rw own at e in own_ ∙ sym (append_assoc later (c ∷ []) (calls_of i h)),
  )
  | inr other ↦ (fuel, later, rw other at e)
]

-- Among processes that run `run` or `status`, each with a configuration and an outside of its own,
-- whose calls are made in any order: if the lock is given to one only while no other holds it, and a
-- process whose lease has ended makes no more calls, then whenever one runs a command, it holds the
-- lock and no other does.
pub runs-Alone :
    (nodes : ℕ → Node) (h : History)
    → Exclusive h
    → ((i : ℕ) → IsRunOf (nodes i) (calls_of i h))
    → Alone h
runs-Alone nodes [] x runs = tt
runs-Alone nodes (made i c ∷ h) x runs = (
  (λ r.
      let holder = holds-held i h x.0 ∙ run_lem i c h (run-guarded (nodes i) _ (runs i)) r in
      (holder, λ j differ. one_holder h i j x.2 holder differ)),
  runs-Alone nodes h x.2 (λ j. before-IsRunOf (nodes j) j i c h (runs j)),
)
runs-Alone nodes (lapsed i ∷ h) x runs = runs-Alone nodes h x runs
