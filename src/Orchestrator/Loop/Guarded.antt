-- ===== src/Orchestrator/Loop/Guarded.antt =====
-- The reboot command and the lock, over the whole loop (pkg/orchestrator/loop.go).
use clusterrebootd.Prelude.{
  ℕ, zero, suc, ◌≡◌, refl, Bool, true, false, ◌&&◌, Option, none, some, [], ◌∷◌, ◌++◌, arith, inl,
  inr, Bool-cases,
}
use clusterrebootd.Orchestrator.Types.{Nanos, Call, Trace, Environment, Runner}
use clusterrebootd.Orchestrator.RunOnce.{run_once}
use clusterrebootd.Orchestrator.Held.{held}
use clusterrebootd.Orchestrator.GateCalls.{inert}
use clusterrebootd.Orchestrator.PassCalls.{run_once-inert}
use clusterrebootd.Orchestrator.Loop.{Loop, LoopState, Turn, turn, turns, then_turns}
use clusterrebootd.Orchestrator.Loop.Laws.{Safe, turn-Safe}
use clusterrebootd.Orchestrator.Loop.Reboots.{Quiet, started_calls, turn-Does}
use clusterrebootd.Orchestrator.Loop.DryRun.{inert-just_executed}
use clusterrebootd.Orchestrator.Loop.Once.{Once, turn-Once}

-- Every command was run with the lock held.
abbrev pub guarded : Trace → Bool
guarded [] = true
guarded (Call.executed _ _ ∷ t) = held t && guarded t
guarded (_ ∷ t) = guarded t

pub inert-guarded : (reporting : Bool) (t : Trace) → inert reporting t ≡ true → guarded t ≡ true
inert-guarded reporting [] h = refl
inert-guarded reporting (c ∷ t) h = ground (arith, h, inert-guarded reporting t)

Quiet-guarded : {t u : Trace} → Quiet t u → guarded t ≡ true → guarded u ≡ true
Quiet-guarded Quiet.done h = h
Quiet-guarded (Quiet.more {c = c} {u = u} quiet rest) h =
    ground (arith, quiet, Quiet-guarded rest h)

started-guarded :
    (start : Option Nanos) (t : Trace)
    → held t ≡ true
    → guarded t ≡ true
    → (held (started_calls start ++ t) ≡ true) × (guarded (started_calls start ++ t) ≡ true)
started-guarded none t h k = (h, k)
started-guarded (some window) t h k = (h, k)

module _ (env : Environment) (r : Runner) (l : Loop) where
  turn-guarded :
      (s : LoopState)
      → held s.trace ≡ false
      → inert true s.trace ≡ true
      → guarded (turn env r l s).1.trace ≡ true
  turn-guarded s free calm =
      let (o, e, t) = run_once env r s.trace in
      let after = inert-guarded true t (run_once-inert env r true (ground arith) s.trace calm).0 in
      elim (turn-Does env r l s free) [
        | inl same ↦ rw same (inert-guarded true s.trace calm)
        | inr (inl quiet) ↦ Quiet-guarded quiet after
        | inr (inr (_, _, kept, (result, rest))) ↦
            let begun = started-guarded o.cooldown_start t kept after in
            Quiet-guarded rest (ground (arith, begun))
      ]

  then_turns-guarded :
      (n : ℕ) (x : Turn × LoopState)
      → ((s : LoopState)
          → held s.trace ≡ false
          → inert true s.trace ≡ true
          → guarded (turns env r l n s).1.trace ≡ true)
      → Safe x.0 x.1.trace
      → Once x.0 x.1.trace
      → guarded x.1.trace ≡ true
      → guarded (then_turns env r l (turns env r l n) x).1.trace ≡ true
  then_turns-guarded n (Turn.returns e, s) on safe once_ h = h
  then_turns-guarded n (Turn.goes_on, s) on safe once_ h = elim (Bool-cases (held s.trace)) [
    | inl held_ ↦ elim (inert-just_executed s.trace once_ (safe held_).1) [ ]
    | inr free ↦ on s free once_
  ]

  -- A loop that began without the lock, a command or a cooldown runs a command only while it holds
  -- the lock.
  pub turns-guarded :
      (n : ℕ) (s : LoopState)
      → held s.trace ≡ false
      → inert true s.trace ≡ true
      → guarded (turns env r l n s).1.trace ≡ true
  unfolding turns
  turns-guarded zero s free calm = inert-guarded true s.trace calm
  turns-guarded (suc n) s free calm =
      then_turns-guarded n (turn env r l s) (turns-guarded n) (turn-Safe env r l s free)
        (turn-Once env r l s calm) (turn-guarded s free calm)
