-- ===== src/Orchestrator/Readiness.antt =====
-- What a pass that ends with a command to run went through (`RunOnce` of
-- pkg/orchestrator/runner.go).
use clusterrebootd.Prelude.{ℕ, ◌≡◌, refl, sym, ap, subst, ◌∙◌, true, false, ◌∷◌, arith}
use clusterrebootd.Orchestrator.Types.{empty_outcome, Call, Trace, Environment, Runner}
use clusterrebootd.Orchestrator.Flow.{State, Exit, modify}
use clusterrebootd.Orchestrator.Lock.{release_lease}
use clusterrebootd.Orchestrator.RunOnce.{
  before_lock, lock_gate, make_ready, checks_under_lock, under_lock, release_unless_kept, with_lock,
  pass, settle, run_once,
}
use clusterrebootd.Orchestrator.Held.{held}
use clusterrebootd.Orchestrator.PassLock.{is_armed, Settled, pass-Settled}
use clusterrebootd.Orchestrator.Stages.{
  Then, ClearBefore, Acquired, ClearUnder, before_lock-ClearBefore, lock_gate-Acquired,
  checks_under_lock-ClearUnder,
}
use clusterrebootd.Orchestrator.Cleared.{>>=-next}

pair_lem : {A B : Type 0} (p : A × B) {a : A} {b : B} → p.0 ≡ a → p.1 ≡ b → p ≡ (a, b)
pair_lem (x, y) h k = cc

module _ (env : Environment) (r : Runner) where
  -- A pass that keeps the lock released nothing.
  kept_lem :
      (x : Exit (Unit {0})) (s : State) {u : State}
      → release_unless_kept env r (x, s) ≡ (Exit.next tt, u)
      → u.out.lock_release ≡ true
      → (x ≡ Exit.next tt) × (s ≡ u)
  unfolding release_unless_kept release_lease
  kept_lem x s h k = ground (arith, h, k)

  with_lock-ClearUnder :
      (n : ℕ) (s : State) {u : State}
      → with_lock env r n s ≡ (Exit.next tt, u)
      → u.out.lock_release ≡ true
      → ClearUnder env r n s.trace u.trace
  unfolding with_lock under_lock
  with_lock-ClearUnder n s h k =
      let whole = kept_lem (under_lock env r n s).0 (under_lock env r n s).1 h k in
      let (_, t, e, last) =
        >>=-next (checks_under_lock env r n) (λ _. modify (make_ready env r)) s
          (pair_lem (under_lock env r n s) whole.0 whole.1) in
      subst (ClearUnder env r n s.trace) (ap (λ x. x.1.trace) last)
        (checks_under_lock-ClearUnder env r n s e)

  -- Every check of a pass that hands its lock over.
  abbrev pub Cleared : Trace → Trace → Type 0
  Cleared t u =
      (n : ℕ) × Then (ClearBefore env r) (Then (Acquired env r n) (ClearUnder env r n)) t u

  pass-Cleared :
      (s : State) {u : State}
      → pass env r s ≡ (Exit.next tt, u)
      → u.out.lock_release ≡ true
      → Cleared s.trace u.trace
  unfolding pass
  pass-Cleared s h k =
      let (_, a, ha, h₁) = >>=-next (before_lock env r) _ s h in
      let (n, b, hb, h₂) = >>=-next (lock_gate env r) _ a h₁ in
      (
        n,
        (
          a.trace,
          before_lock-ClearBefore env r s ha,
          (b.trace, lock_gate-Acquired env r a hb, with_lock-ClearUnder n b h₂ k),
        ),
      )

  recorded_lem :
      (u : State)
      → is_armed u.out ≡ true
      → (settle env r (Exit.next tt, u)).2 ≡ Call.outcome_recorded u.out ∷ u.trace
  unfolding settle
  recorded_lem u armed = ground (arith, armed)

  armed-next :
      (x : Exit (Unit {0})) (u : State)
      → Settled (x, u)
      → is_armed u.out ≡ true
      → (x ≡ Exit.next tt) × (u.out.lock_release ≡ true)
  armed-next x u p armed = let kept = sym p.1 ∙ armed in (p.2 kept, kept)

  settled_out : (x : Exit (Unit {0})) (u : State) → (settle env r (x, u)).0 ≡ u.out
  unfolding settle
  settled_out (Exit.next tt) u = refl
  settled_out Exit.stop u = refl
  settled_out (Exit.fail e) u = refl

  -- A pass that ended as `x` in `u`, with a command to run.
  settled_lem :
      (s : State) (x : Exit (Unit {0})) (u : State)
      → pass env r s ≡ (x, u)
      → x ≡ Exit.next tt
      → u.out.lock_release ≡ true
      → is_armed u.out ≡ true
      → (v : Trace) × ((settle env r (x, u)).2 ≡ Call.outcome_recorded (settle env r (x, u)).0 ∷ v)
        × Cleared s.trace v
  settled_lem s (Exit.next tt) u h ended kept armed = (
    u.trace,
    recorded_lem u armed
        ∙ ap (λ o. Call.outcome_recorded o ∷ u.trace) (sym (settled_out (Exit.next tt) u)),
    pass-Cleared s h kept,
  )
  settled_lem s Exit.stop u h ended kept armed = cc
  settled_lem s (Exit.fail e) u h ended kept armed = cc

  -- Whenever the outcome of a pass has a command to run, the trace shows every check, in this
  -- order: the kill switch was off, the windows, if any, allowed the instant, the detectors asked for
  -- a reboot, no cluster policy blocked, the health script ended with 0, and no cooldown was active,
  -- if one is configured;
  -- then the lock was acquired by the last of at most the allowed attempts; then, under the lock,
  -- the switch was off, no policy blocked, the detectors asked again, and the script ended with 0,
  -- told of the lock and of the attempts. After that the outcome was recorded, and nothing else.
  pub run_once-Cleared :
      (trace : Trace)
      → held trace ≡ false
      → is_armed (run_once env r trace).0 ≡ true
      → let (o, _, t) = run_once env r trace in
        (v : Trace) × (t ≡ Call.outcome_recorded o ∷ v) × Cleared trace v
  unfolding run_once
  run_once-Cleared trace h armed =
      let s : State = record { trace = trace; out = empty_outcome } in
      let x = (pass env r s).0 in
      let u = (pass env r s).1 in
      let ready_ : is_armed u.out ≡ true = ap is_armed (sym (settled_out x u)) ∙ armed in
      let ended = armed-next x u (pass-Settled env r s (h, refl, refl)) ready_ in
      settled_lem s x u refl ended.0 ended.1 ready_
