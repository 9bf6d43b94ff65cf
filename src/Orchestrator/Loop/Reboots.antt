-- ===== src/Orchestrator/Loop/Reboots.antt =====
-- What the loop (pkg/orchestrator/loop.go) does after a pass: when the reboot command is run.
use clusterrebootd.Prelude.{
  zero, suc, ◌≡◌, refl, Bool, true, false, ◌||◌, Option, none, some, List, [], ◌∷◌, ◌++◌, arith,
  is_nil, Bool-cases, inl, inr, pos, negsuc, ◌⊎◌, subst,
}
use clusterrebootd.Text.{Text}
use clusterrebootd.Orchestrator.Failure.{Failure}
use clusterrebootd.Orchestrator.Types.{Nanos, is_ready, Outcome, Call, Trace, Environment, Runner}
use clusterrebootd.Orchestrator.Lock.{release_lease}
use clusterrebootd.Orchestrator.RunOnce.{run_once}
use clusterrebootd.Orchestrator.Held.{held}
use clusterrebootd.Orchestrator.PassLock.{is_armed, run_once-held}
use clusterrebootd.Orchestrator.Loop.{
  Loop, release_outcome, start_cooldown, execute, LoopState, loop_sleep, after_error, give_up,
  reboot, nothing_to_run, not_ready, after_pass, after_success, turn, after_execution, after_start,
  pass_turn, turn_of, wait_or_return, start_of, started, cooldown_error,
}

-- A call of the loop that runs nothing, and leaves no new marker of a cooldown.
abbrev pub is_quiet : Call → Bool
is_quiet (Call.released _) = true
is_quiet (Call.slept _ _) = true
is_quiet (Call.errored _) = true
is_quiet (Call.cooldown_set _ (some _)) = true
is_quiet _ = false

-- Only such calls between two traces.
pub data Quiet (t : Trace) : Trace → Type 0 where
  done : Quiet t t
  more : {c : Call} {u : Trace} → is_quiet c ≡ true → Quiet t u → Quiet t (c ∷ u)

then-Quiet : {t u v : Trace} → Quiet t u → Quiet u v → Quiet t v
then-Quiet p Quiet.done = p
then-Quiet p (Quiet.more h q) = Quiet.more h (then-Quiet p q)

-- The calls that start the cooldown of an outcome, with success.
abbrev pub started_calls : Option Nanos → List Call
started_calls none = []
started_calls (some window) = Call.cooldown_set window none ∷ []

-- The command of an outcome was run, after the cooldown was started.
abbrev pub Ran : Outcome → Trace → Trace → Type 0
Ran o t u =
    (result : Option Failure) × Quiet
      (Call.executed o.command result ∷ started_calls o.cooldown_start ++ t) u

abbrev Does : Outcome → Trace → Trace → Type 0
Does o t u = Quiet t u ⊎ ((is_armed o ≡ true) × Ran o t u)

pub release-Quiet :
    (env : Environment) (o : Outcome) (t : Trace) → Quiet t (release_outcome env o t).2
unfolding release_outcome release_lease
release-Quiet env o t = elim (Bool-cases o.lock_release) [
  | inl yes_ ↦ rw yes_ (Quiet.more refl Quiet.done)
  | inr no_ ↦ rw no_ Quiet.done
]

module _ (env : Environment) (r : Runner) (l : Loop) where
  sleep-Quiet : (d : Nanos) (t : Trace) → Quiet t (loop_sleep env r l d t).1
  unfolding loop_sleep
  sleep-Quiet (pos zero) t = Quiet.done
  sleep-Quiet (pos (suc n)) t = Quiet.more refl Quiet.done
  sleep-Quiet (negsuc n) t = Quiet.done

  after_error-Quiet :
      (s : LoopState) (o : Outcome) (e : Failure) (t : Trace)
      → Quiet t (after_error env r l s o e t).1.trace
  unfolding after_error
  after_error-Quiet s o e t =
      then-Quiet (release-Quiet env o t) (then-Quiet (Quiet.more refl Quiet.done) (sleep-Quiet _ _))

  wait-Quiet : (failure : Option Failure) (t : Trace) → Quiet t (wait_or_return env r l failure t).1
  unfolding wait_or_return
  wait-Quiet none t = sleep-Quiet l.interval t
  wait-Quiet (some e) t = Quiet.done

  not_ready-Quiet : (o : Outcome) (t : Trace) → Quiet t (not_ready env r l o t).1
  unfolding not_ready
  not_ready-Quiet o t = then-Quiet (release-Quiet env o t) (wait-Quiet _ _)

  nothing-Quiet : (o : Outcome) (t : Trace) → Quiet t (nothing_to_run env r l o t).1
  unfolding nothing_to_run
  nothing-Quiet o t = release-Quiet env o t

  execute_nonempty :
      (command : List Text) (t : Trace)
      → is_nil command ≡ false
      → let (result, u) = execute env command t in u ≡ Call.executed command result ∷ t
  unfolding execute
  execute_nonempty [] t h = cc
  execute_nonempty (word ∷ words) t h = refl

  after_execution-Quiet :
      (o : Outcome) (x : Option Failure × Trace) → Quiet x.1 (after_execution env r l o x).1
  unfolding after_execution give_up
  after_execution-Quiet o (none, t) = Quiet.done
  after_execution-Quiet o (some e, t) = release-Quiet env o t

  ran-lem :
      (o : Outcome) (t : Trace)
      → is_nil o.command ≡ false
      → (result : Option Failure) × Quiet
          (Call.executed o.command result ∷ t)
          (after_start env r l (none, o, t)).1
  unfolding after_start
  ran-lem o t h =
      let x = execute env o.command t in
      (
        x.0,
        subst (λ u. Quiet u (after_execution env r l o x).1) (execute_nonempty o.command t h)
            (after_execution-Quiet o x),
      )

  start-Does :
      (o : Outcome) (window : Nanos) (failure : Option Failure) (t : Trace)
      → is_nil o.command ≡ false
      → let u =
          (after_start env r l
            (cooldown_error failure, started o failure, Call.cooldown_set window failure ∷ t)).1 in
        Quiet t u
        ⊎ ((result : Option Failure) × Quiet
              (Call.executed o.command result ∷ Call.cooldown_set window none ∷ t)
              u)
  unfolding after_start give_up
  start-Does o window none t h =
      inr (ran-lem (started o none) (Call.cooldown_set window none ∷ t) h)
  start-Does o window (some e) t h =
      inl (then-Quiet (Quiet.more refl Quiet.done) (release-Quiet env (started o (some e)) _))

  start_of-Does :
      (o : Outcome) (start : Option Nanos) (t : Trace)
      → is_nil o.command ≡ false
      → let u = (after_start env r l (start_of env o start t)).1 in
        Quiet t u
        ⊎ ((result : Option Failure) × Quiet
              (Call.executed o.command result ∷ started_calls start ++ t)
              u)
  unfolding start_of
  start_of-Does o none t h = inr (ran-lem o t h)
  start_of-Does o (some window) t h = start-Does o window (env.start_cooldown t window) t h

  reboot-Does :
      (o : Outcome) (t : Trace)
      → is_nil o.command ≡ false
      → Quiet t (reboot env r l o t).1 ⊎ Ran o t (reboot env r l o t).1
  unfolding reboot start_cooldown
  reboot-Does o t h = start_of-Does o o.cooldown_start t h

  after_pass-Does : (o : Outcome) (t : Trace) → Does o t (after_pass env r l o t).1
  unfolding after_pass
  after_pass-Does o t = elim (Bool-cases (is_ready o.status)) [
    | inl ready_ ↦ elim (Bool-cases (o.dry_run || is_nil o.command)) [
      | inl yes_ ↦ rw ready_ (rw yes_ (inl (nothing-Quiet o t)))
      | inr no_ ↦ elim (reboot-Does o t (ground (arith, no_))) [
        | inl quiet ↦ rw ready_ (rw no_ (inl quiet))
        | inr ran ↦ rw ready_ (rw no_ (inr (ground (arith, no_), ran)))
      ]
    ]
    | inr not_ ↦ rw not_ (inl (not_ready-Quiet o t))
  ]

  pass_turn-Does :
      (s : LoopState) (x : Outcome × Option Failure × Trace)
      → let u = (pass_turn env r l s x).1.trace in
        Quiet x.2 u ⊎ ((x.1 ≡ none) × (is_armed x.0 ≡ true) × Ran x.0 x.2 u)
  unfolding pass_turn after_success
  pass_turn-Does s (o, some e, t) = inl (after_error-Quiet s o e t)
  pass_turn-Does s (o, none, t) = elim (after_pass-Does o t) [
    | inl quiet ↦ inl quiet
    | inr ran ↦ inr (refl, ran.0, ran.1)
  ]

  turn_of-Does :
      (s : LoopState) (failure : Option Failure)
      → held s.trace ≡ false
      → let u = (turn_of env r l s failure).1.trace in
        let (o, err, t) = run_once env r s.trace in
        (u ≡ s.trace)
        ⊎ Quiet t u
        ⊎ ((err ≡ none) × (is_armed o ≡ true) × (held t ≡ true) × Ran o t u)
  unfolding turn_of
  turn_of-Does s (some e) h = inl refl
  turn_of-Does s none h = elim (pass_turn-Does s (run_once env r s.trace)) [
    | inl quiet ↦ inr (inl quiet)
    | inr (ok, armed, ran) ↦
        let kept = run_once-held env r s.trace h in
        inr (inr (ok, armed, ground (arith, kept, armed), ran))
  ]

  -- In a turn that begins without the lock, the loop does nothing, or makes one pass after which no
  -- command is run and no cooldown is started with success, or makes one pass that returns, without an error and
  -- with the lock held, an outcome that is ready, no dry run, and has a command; then the cooldown
  -- of the outcome, if it has one, is started with success before anything else, the command is run
  -- next and once, and after it no command is run and no cooldown is started with success.
  pub turn-Does :
      (s : LoopState)
      → held s.trace ≡ false
      → let u = (turn env r l s).1.trace in
        let (o, err, t) = run_once env r s.trace in
        (u ≡ s.trace)
        ⊎ Quiet t u
        ⊎ ((err ≡ none) × (is_armed o ≡ true) × (held t ≡ true) × Ran o t u)
  unfolding turn
  turn-Does s h = turn_of-Does s (env.context_error s.trace) h
