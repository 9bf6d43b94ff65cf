-- ===== src/Orchestrator/Loop/Once.antt =====
-- How often the loop (pkg/orchestrator/loop.go) runs the reboot command.
use clusterrebootd.Prelude.{
  ℕ, zero, suc, ◌≤◌, ◌≡◌, refl, true, ◌||◌, Option, none, some, List, [], ◌∷◌, arith, is_nil,
  Bool-cases, inl, inr,
}
use clusterrebootd.Text.{Text}
use clusterrebootd.Orchestrator.Failure.{Failure, Context, wrap}
use clusterrebootd.Orchestrator.Types.{is_ready, Nanos, Outcome, Call, Trace, Environment, Runner}
use clusterrebootd.Orchestrator.Lock.{release_lease}
use clusterrebootd.Orchestrator.RunOnce.{run_once}
use clusterrebootd.Orchestrator.GateCalls.{inert}
use clusterrebootd.Orchestrator.PassCalls.{run_once-inert}
use clusterrebootd.Orchestrator.Loop.{
  Loop, LoopState, Turn, give_up, after_pass, after_success, turn, pass_turn, turn_of, turns,
  then_turns, release_outcome, start_cooldown, start_of, execute, after_execution, after_start,
  reboot,
}
use clusterrebootd.Orchestrator.Loop.DryRun.{after_error-inert, not_ready-inert, nothing-inert}

-- How often a command was run, with success or not.
abbrev pub executions : Trace → ℕ
executions [] = 0
executions (Call.executed _ _ ∷ t) = suc (executions t)
executions (_ ∷ t) = executions t

pub inert-executions : (t : Trace) → inert true t ≡ true → executions t ≡ 0
inert-executions [] h = refl
inert-executions (c ∷ t) h = ground (arith, h, inert-executions t)

-- As long as the loop goes on, no command was run; when it returns, at most one.
abbrev pub Once : Turn → Trace → Type 0
Once Turn.goes_on t = inert true t ≡ true
Once (Turn.returns e) t = executions t ≤ 1

inert-Once : (turn : Turn) (t : Trace) → inert true t ≡ true → Once turn t
inert-Once Turn.goes_on t h = h
inert-Once (Turn.returns e) t h = omega (arith, inert-executions t h)

module _ (env : Environment) (r : Runner) (l : Loop) where
  give_up-executions :
      (o : Outcome) (e : Failure) (t : Trace) → executions (give_up env r l o e t).1 ≡ executions t
  unfolding give_up release_outcome release_lease
  give_up-executions o e t = ground arith

  give_up-Once :
      (o : Outcome) (e : Failure) (t : Trace)
      → executions t ≤ 1
      → Once (give_up env r l o e t).0 (give_up env r l o e t).1
  unfolding give_up
  give_up-Once o e t h = omega (arith, h, give_up-executions o e t)

  after_execution-Once :
      (o : Outcome) (x : Option Failure × Trace)
      → executions x.1 ≤ 1
      → Once (after_execution env r l o x).0 (after_execution env r l o x).1
  unfolding after_execution
  after_execution-Once o (none, t) h = h
  after_execution-Once o (some e, t) h = give_up-Once o (wrap Context.execute_reboot_command e) t h

  execute-executions :
      (command : List Text) (t : Trace)
      → executions t ≡ 0
      → executions (execute env command t).1 ≤ 1
  unfolding execute
  execute-executions [] t h = omega (arith, h)
  execute-executions (word ∷ words) t h = omega (arith, h)

  after_start-Once :
      (x : Option Failure × Outcome × Trace)
      → executions x.2 ≡ 0
      → Once (after_start env r l x).0 (after_start env r l x).1
  unfolding after_start
  after_start-Once (some e, o, t) h = give_up-Once o e t (omega (arith, h))
  after_start-Once (none, o, t) h =
      after_execution-Once o (execute env o.command t) (execute-executions o.command t h)

  start_of-executions :
      (o : Outcome) (start : Option Nanos) (t : Trace)
      → executions (start_of env o start t).2 ≡ executions t
  unfolding start_of
  start_of-executions o none t = refl
  start_of-executions o (some window) t = refl

  reboot-Once :
      (o : Outcome) (t : Trace)
      → executions t ≡ 0
      → Once (reboot env r l o t).0 (reboot env r l o t).1
  unfolding reboot start_cooldown
  reboot-Once o t h =
      after_start-Once (start_of env o o.cooldown_start t)
        (omega (arith, h, start_of-executions o o.cooldown_start t))

  after_pass-Once :
      (o : Outcome) (t : Trace)
      → inert true t ≡ true
      → Once (after_pass env r l o t).0 (after_pass env r l o t).1
  unfolding after_pass
  after_pass-Once o t h = elim (Bool-cases (is_ready o.status)) [
    | inl ready_ ↦ elim (Bool-cases (o.dry_run || is_nil o.command)) [
      | inl yes_ ↦ rw ready_ (rw yes_ (inert-Once _ _ (nothing-inert env r l o t h)))
      | inr no_ ↦ rw ready_ (rw no_ (reboot-Once o t (inert-executions t h)))
    ]
    | inr not_ ↦ rw not_ (inert-Once _ _ (not_ready-inert env r l o t h))
  ]

  pass_turn-Once :
      (s : LoopState) (x : Outcome × Option Failure × Trace)
      → inert true x.2 ≡ true
      → Once (pass_turn env r l s x).0 (pass_turn env r l s x).1.trace
  unfolding pass_turn after_success
  pass_turn-Once s (o, some e, t) h = inert-Once _ _ (after_error-inert env r l s o e t h)
  pass_turn-Once s (o, none, t) h = after_pass-Once o t h

  turn_of-Once :
      (s : LoopState) (failure : Option Failure)
      → inert true s.trace ≡ true
      → Once (turn_of env r l s failure).0 (turn_of env r l s failure).1.trace
  unfolding turn_of
  turn_of-Once s (some e) h = inert-Once (Turn.returns (some e)) s.trace h
  turn_of-Once s none h =
      pass_turn-Once s (run_once env r s.trace)
        (run_once-inert env r true (ground arith) s.trace h).0

  pub turn-Once :
      (s : LoopState) → inert true s.trace ≡ true → Once (turn env r l s).0 (turn env r l s).1.trace
  unfolding turn
  turn-Once s h = turn_of-Once s (env.context_error s.trace) h

  then_turns-Once :
      (n : ℕ) (x : Turn × LoopState)
      → ((s : LoopState)
          → inert true s.trace ≡ true
          → Once (turns env r l n s).0 (turns env r l n s).1.trace)
      → Once x.0 x.1.trace
      → let y = then_turns env r l (turns env r l n) x in Once y.0 y.1.trace
  then_turns-Once n (Turn.returns e, s) on h = h
  then_turns-Once n (Turn.goes_on, s) on h = on s h

  -- As long as a loop that began without a command or a cooldown goes on, it has run no command and
  -- tried to start no cooldown; when it returns, it has run at most one command.
  pub turns-Once :
      (n : ℕ) (s : LoopState)
      → inert true s.trace ≡ true
      → Once (turns env r l n s).0 (turns env r l n s).1.trace
  unfolding turns
  turns-Once zero s h = h
  turns-Once (suc n) s h = then_turns-Once n (turn env r l s) (turns-Once n) (turn-Once s h)

  -- However long it runs, it runs at most one command.
  pub executions-turns :
      (n : ℕ) (s : LoopState)
      → inert true s.trace ≡ true
      → executions (turns env r l n s).1.trace ≤ 1
  executions-turns n s h = go (turns env r l n s).0 _ (turns-Once n s h)
    where
      go : (turn : Turn) (t : Trace) → Once turn t → executions t ≤ 1
      go Turn.goes_on t p = omega (arith, inert-executions t p)
      go (Turn.returns e) t p = p
