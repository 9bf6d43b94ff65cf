-- ===== src/Orchestrator/Loop/Laws.antt =====
-- The lock over the turns of `Run` (pkg/orchestrator/loop.go), and what is done before a command
-- is run.
use clusterrebootd.Prelude.{
  ℕ, zero, suc, ◌<◌, ◌≤◌, ◌≡◌, refl, Bool, true, false, Option, none, some, List, [], ◌∷◌, arith,
  if◌then◌else◌, Bool-cases, inl, inr, pos, negsuc, pos_part, ltb_ℤ, ◌⊎◌,
}
use clusterrebootd.Text.{Text}
use clusterrebootd.Orchestrator.Failure.{Failure, Context, wrap}
use clusterrebootd.Orchestrator.Types.{Nanos, Outcome, Call, Trace, Environment, Runner}
use clusterrebootd.Orchestrator.Lock.{release_lease}
use clusterrebootd.Orchestrator.RunOnce.{run_once}
use clusterrebootd.Orchestrator.Held.{held}
use clusterrebootd.Orchestrator.PassLock.{run_once-held}
use clusterrebootd.Orchestrator.Loop.{
  Loop, LoopOption, or_else, seconds, normalise, new_loop, release_outcome, start_cooldown, execute,
  Turn, LoopState, loop_sleep, after_error, give_up, reboot, nothing_to_run, not_ready, after_pass,
  after_success, turn, turns, after_execution, after_start, pass_turn, turn_of, then_turns,
}

or_else_lem : (d e : Nanos) → 0 < pos_part e → 0 < pos_part (or_else d e)
or_else_lem (pos zero) e h = ground arith
or_else_lem (pos (suc n)) e h = ground arith
or_else_lem (negsuc n) e h = ground arith

ordered_lem :
    (least most : Nanos)
    → 0 < pos_part least
    → pos_part least ≤ pos_part (if ltb_ℤ most least then least else most)
ordered_lem (pos least) (pos most) h = ground arith
ordered_lem (pos least) (negsuc most) h = ground arith
ordered_lem (negsuc least) most h = ground arith

normalise-bounds :
    (check_interval : Nanos) (l : Loop)
    → let n = normalise check_interval l in
      (0 < pos_part n.interval)
      × (0 < pos_part n.error_min)
      × (pos_part n.error_min ≤ pos_part n.error_max)
unfolding normalise
normalise-bounds check_interval l =
    let positive = or_else_lem l.error_min (seconds 5) (ground arith) in
    (
      or_else_lem (or_else l.interval check_interval) (seconds 60) (ground arith),
      positive,
      ordered_lem (or_else l.error_min (seconds 5))
          (or_else l.error_max (or_else l.error_min (seconds 5))) positive,
    )

-- Whatever the interval of the configuration and the options, a loop waits between its turns, and
-- its error backoff has positive bounds that are in order.
pub new_loop-bounds :
    (check_interval : Nanos) (options : List LoopOption)
    → let l = new_loop check_interval options in
      (0 < pos_part l.interval)
      × (0 < pos_part l.error_min)
      × (pos_part l.error_min ≤ pos_part l.error_max)
unfolding new_loop
new_loop-bounds check_interval options = normalise-bounds check_interval _

-- The last call ran the command, and it did not fail.
abbrev pub just_executed : Trace → Bool
just_executed (Call.executed _ none ∷ _) = true
just_executed _ = false

-- The lock is held at the end of a turn only if `Run` returns after the command.
abbrev pub Safe : Turn → Trace → Type 0
Safe turn t = held t ≡ true → (turn ≡ Turn.returns none) × (just_executed t ≡ true)

-- What `run_once-held` says of an outcome and the trace.
abbrev Kept : Outcome → Trace → Type 0
Kept o t = held t ≡ o.lock_release

module _ (env : Environment) (r : Runner) (l : Loop) where
  release_outcome-held :
      (o : Outcome) (t : Trace) → Kept o t → held (release_outcome env o t).2 ≡ false
  unfolding release_outcome release_lease
  release_outcome-held o t k = ground arith

  loop_sleep-held : (d : Nanos) (t : Trace) → held (loop_sleep env r l d t).1 ≡ held t
  unfolding loop_sleep
  loop_sleep-held (pos zero) t = refl
  loop_sleep-held (pos (suc n)) t = refl
  loop_sleep-held (negsuc n) t = refl

  give_up-Safe :
      (o : Outcome) (e : Failure) (t : Trace) → Kept o t → held (give_up env r l o e t).1 ≡ false
  unfolding give_up
  give_up-Safe o e t k = release_outcome-held o t k

  not_ready-Safe : (o : Outcome) (t : Trace) → Kept o t → held (not_ready env r l o t).1 ≡ false
  unfolding not_ready
  not_ready-Safe o t k =
      ground
        (arith, release_outcome-held o t k, loop_sleep-held l.interval (release_outcome env o t).2)

  start_cooldown-Kept :
      (o : Outcome) (t : Trace)
      → Kept o t
      → let (failure, o2, t2) = start_cooldown env o t in Kept o2 t2
  unfolding start_cooldown
  start_cooldown-Kept o t k = ground arith

  after_execution-Safe :
      (o : Outcome) (x : Option Failure × Trace)
      → Kept o x.1
      → (x.0 ≡ none → just_executed x.1 ≡ true)
      → let (turn, t) = after_execution env r l o x in Safe turn t
  unfolding after_execution
  after_execution-Safe o (none, t) k ran h = (refl, ran refl)
  after_execution-Safe o (some e, t) k ran h =
      ground (arith, give_up-Safe o (wrap Context.execute_reboot_command e) t k)

  execute-lem :
      (o : Outcome) (command : List Text) (t : Trace)
      → Kept o t
      → let (failure, t2) = execute env command t in
        Kept o t2 × (failure ≡ none → just_executed t2 ≡ true)
  unfolding execute
  execute-lem o [] t k = (k, λ h. ground arith)
  execute-lem o (word ∷ words) t k = (k, λ h. ground arith)

  after_start-Safe :
      (x : Option Failure × Outcome × Trace)
      → Kept x.1 x.2
      → let (turn, t) = after_start env r l x in Safe turn t
  unfolding after_start
  after_start-Safe (some e, o, t) k = λ h. ground (arith, give_up-Safe o e t k)
  after_start-Safe (none, o, t) k =
      let ran = execute-lem o o.command t k in
      after_execution-Safe o (execute env o.command t) ran.0 ran.1

  reboot-Safe :
      (o : Outcome) (t : Trace) → Kept o t → let (turn, t2) = reboot env r l o t in Safe turn t2
  unfolding reboot
  reboot-Safe o t k = after_start-Safe (start_cooldown env o t) (start_cooldown-Kept o t k)

  after_pass-Safe :
      (o : Outcome) (t : Trace) → Kept o t → let (turn, t2) = after_pass env r l o t in Safe turn t2
  unfolding after_pass nothing_to_run
  after_pass-Safe o t k =
      ground (arith, release_outcome-held o t k, not_ready-Safe o t k, reboot-Safe o t k)

  slept-free : (d : Nanos) (t : Trace) → held t ≡ false → held (loop_sleep env r l d t).1 ≡ false
  slept-free d t h = ground (arith, loop_sleep-held d t)

  after_error-free :
      (s : LoopState) (o : Outcome) (e : Failure) (t : Trace)
      → Kept o t
      → held (after_error env r l s o e t).1.trace ≡ false
  unfolding after_error
  after_error-free s o e t k = slept-free _ _ (release_outcome-held o t k)

  after_error-Safe :
      (s : LoopState) (o : Outcome) (e : Failure) (t : Trace)
      → Kept o t
      → let (turn, s2) = after_error env r l s o e t in Safe turn s2.trace
  after_error-Safe s o e t k h = ground (arith, after_error-free s o e t k)

  pass_turn-Safe :
      (s : LoopState) (x : Outcome × Option Failure × Trace)
      → Kept x.0 x.2
      → let (turn, s2) = pass_turn env r l s x in Safe turn s2.trace
  unfolding pass_turn after_success
  pass_turn-Safe s (o, some e, t) k = after_error-Safe s o e t k
  pass_turn-Safe s (o, none, t) k = after_pass-Safe o t k

  turn_of-Safe :
      (s : LoopState) (failure : Option Failure)
      → held s.trace ≡ false
      → let (turn, s2) = turn_of env r l s failure in Safe turn s2.trace
  unfolding turn_of
  turn_of-Safe s (some e) h = λ k. ground arith
  turn_of-Safe s none h =
      pass_turn-Safe s (run_once env r s.trace) (run_once-held env r s.trace h).0

  pub turn-Safe :
      (s : LoopState) → held s.trace ≡ false → let (tn, s2) = turn env r l s in Safe tn s2.trace
  unfolding turn
  turn-Safe s h = turn_of-Safe s (env.context_error s.trace) h

  then_turns-Safe :
      (n : ℕ) (x : Turn × LoopState)
      → ((s : LoopState)
          → held s.trace ≡ false
          → let (tn, s2) = turns env r l n s in Safe tn s2.trace)
      → Safe x.0 x.1.trace
      → let (tn, s2) = then_turns env r l (turns env r l n) x in Safe tn s2.trace
  then_turns-Safe n (Turn.returns e, s) h safe = safe
  then_turns-Safe n (Turn.goes_on, s) h safe = h s (ground (arith, safe))

  turns-Safe :
      (n : ℕ) (s : LoopState)
      → held s.trace ≡ false
      → let (tn, s2) = turns env r l n s in Safe tn s2.trace
  unfolding turns
  turns-Safe zero s h = λ k. ground arith
  turns-Safe (suc n) s h = then_turns-Safe n (turn env r l s) (turns-Safe n) (turn-Safe s h)

  -- After so many turns of a loop that began without the lock, the lock is held only if `Run` has
  -- returned without an error and the command was the last thing it did, with success.
  pub turns-held :
      (n : ℕ) (s : LoopState)
      → held s.trace ≡ false
      → let (tn, s2) = turns env r l n s in
        (held s2.trace ≡ false) ⊎ ((tn ≡ Turn.returns none) × (just_executed s2.trace ≡ true))
  turns-held n s h = elim (Bool-cases (held (turns env r l n s).1.trace)) [
    | inl held_ ↦ inr (turns-Safe n s h held_)
    | inr free ↦ inl free
  ]
