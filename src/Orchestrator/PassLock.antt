-- ===== src/Orchestrator/PassLock.antt =====
-- The lock over one pass: whatever happens, it is released or handed over to the outcome.
use clusterrebootd.Prelude.{
  ℕ, ◌≡◌, refl, Bool, true, false, not, ◌&&◌, Option, none, some, arith, is_nil, subst,
}
use clusterrebootd.Orchestrator.Failure.{Failure}
use clusterrebootd.Orchestrator.Types.{
  Status, is_ready, Message, Outcome, empty_outcome, Trace, Environment, Runner,
}
use clusterrebootd.Orchestrator.Flow.{
  State, Exit, pure, ◌>>=◌, modify, finish_if, >>=-cases, Keeps-at,
}
use clusterrebootd.Orchestrator.Gates.{set_command}
use clusterrebootd.Orchestrator.Lock.{acquire_lock, release_lease}
use clusterrebootd.Orchestrator.RunOnce.{
  before_lock, lock_gate, hand_over, make_ready, checks_under_lock, under_lock, release_unless_kept,
  with_lock, pass, settle, run_once,
}
use clusterrebootd.Orchestrator.Held.{
  held, Idle, AfterAcquire, before_lock-Idle, checks_under_lock-Idle, acquire_from-lem,
}

-- The outcome is ready, is no dry run, and has a command.
abbrev pub is_armed : Outcome → Bool
is_armed o = is_ready o.status && not o.dry_run && not (is_nil o.command)

abbrev pub is_failure : Option Failure → Bool
is_failure none = false
is_failure (some e) = true

-- The lock is held exactly if the outcome holds it, which it does if its command is to be run; and
-- then the pass ended without an error.
abbrev pub Settled : Exit (Unit {0}) × State → Type 0
Settled (x, s) =
    (held s.trace ≡ s.out.lock_release)
    × (is_armed s.out ≡ s.out.lock_release)
    × (s.out.lock_release ≡ true → x ≡ Exit.next tt)

module _ (env : Environment) (r : Runner) where
  -- With the lock held, a failed or finished check leaves the release to be done.
  release-Settled :
      (x : Exit (Unit {0})) (s : State) → Idle true s → Settled (release_unless_kept env r (x, s))
  unfolding release_unless_kept release_lease
  release-Settled x s p = ground arith

  made_ready-Settled :
      (s : State)
      → Idle true s
      → Settled
          (release_unless_kept env r (Exit.next tt, record s { out = make_ready env r s.out }))
  unfolding release_unless_kept release_lease make_ready hand_over set_command
  made_ready-Settled s p = ground arith

  with_lock-Settled :
      (attempts : ℕ) (s : State) → Idle true s → Settled (with_lock env r attempts s)
  unfolding with_lock under_lock
  with_lock-Settled attempts s p =
      let checks = checks_under_lock env r attempts in
      let keeps = checks_under_lock-Idle env r true attempts in
      >>=-cases (λ x. Settled (release_unless_kept env r x)) checks (λ _. modify (make_ready env r))
        s (λ _ t e. made_ready-Settled t (Keeps-at (Idle true) checks keeps p e))
        (λ t e. release-Settled Exit.stop t (Keeps-at (Idle true) checks keeps p e))
        (λ x t e. release-Settled (Exit.fail x) t (Keeps-at (Idle true) checks keeps p e))

  free-Settled : (x : Exit (Unit {0})) (s : State) → Idle false s → Settled (x, s)
  free-Settled x s p = ground arith

  abbrev AfterLock : Exit ℕ × State → Type 0
  AfterLock (Exit.next n, s) = Idle true s
  AfterLock (_, s) = Idle false s

  acquire_lock-lem : (s : State) → Idle false s → AfterAcquire (acquire_lock env r s)
  unfolding acquire_lock
  acquire_lock-lem s p = acquire_from-lem env r r.max_lock_tries 0 s p

  taken-AfterLock :
      (got : Bool) (n : ℕ) (s : State)
      → Idle got s
      → AfterLock (
          (finish_if (not got) Status.lock_unavailable (Message.lock_not_acquired r.max_lock_tries)
              >>= λ _. modify (λ o. record o { lock_acquired = true }) >>= λ _. pure n)
            s)
  taken-AfterLock true n s p = p
  taken-AfterLock false n s p = (p.0, p.1, refl)

  lock_gate-AfterLock : (s : State) → Idle false s → AfterLock (lock_gate env r s)
  unfolding lock_gate
  lock_gate-AfterLock s p =
      >>=-cases AfterLock (acquire_lock env r) _ s
        (λ a t e. taken-AfterLock a.0 a.1 t (subst AfterAcquire e (acquire_lock-lem s p)))
        (λ t e. subst AfterAcquire e (acquire_lock-lem s p))
        (λ x t e. subst AfterAcquire e (acquire_lock-lem s p))

  after_lock-Settled :
      (s : State) → Idle false s → Settled ((lock_gate env r >>= with_lock env r) s)
  after_lock-Settled s p =
      >>=-cases Settled (lock_gate env r) (with_lock env r) s
        (λ n t e. with_lock-Settled n t (subst AfterLock e (lock_gate-AfterLock s p)))
        (λ t e. free-Settled Exit.stop t (subst AfterLock e (lock_gate-AfterLock s p)))
        (λ x t e. free-Settled (Exit.fail x) t (subst AfterLock e (lock_gate-AfterLock s p)))

  pub pass-Settled : (s : State) → Idle false s → Settled (pass env r s)
  unfolding pass
  pass-Settled s p =
      let keeps = before_lock-Idle env r false in
      >>=-cases Settled (before_lock env r) (λ _. lock_gate env r >>= with_lock env r) s
        (λ _ t e. after_lock-Settled t (Keeps-at (Idle false) (before_lock env r) keeps p e))
        (λ t e. free-Settled Exit.stop t (Keeps-at (Idle false) (before_lock env r) keeps p e))
        (λ x t e.
          free-Settled (Exit.fail x) t (Keeps-at (Idle false) (before_lock env r) keeps p e))

  settle-Settled :
      (x : Exit (Unit {0})) (s : State)
      → Settled (x, s)
      → let (o, failure, t) = settle env r (x, s) in
        (held t ≡ o.lock_release)
        × (is_armed o ≡ o.lock_release)
        × (o.lock_release ≡ true → failure ≡ none)
  unfolding settle
  settle-Settled x s p = ground arith

  kept-lem :
      (trace : Trace)
      → held trace ≡ false
      → let (o, failure, t) = run_once env r trace in
        (held t ≡ o.lock_release)
        × (is_armed o ≡ o.lock_release)
        × (o.lock_release ≡ true → failure ≡ none)
  unfolding run_once
  kept-lem trace h =
      let s : State = record { trace = trace; out = empty_outcome } in
      settle-Settled (pass env r s).0 (pass env r s).1 (pass-Settled s (h, refl, refl))

  -- A pass that begins without the lock ends, on every path and errors included, with the lock held
  -- exactly if the outcome that it returns holds it, which is exactly if the outcome is ready, no dry
  -- run, and has a command; and then the pass returns no error.
  pub run_once-held :
      (trace : Trace)
      → held trace ≡ false
      → let (o, failure, t) = run_once env r trace in
        (held t ≡ o.lock_release)
        × (is_armed o ≡ o.lock_release)
        × ((o.lock_release && is_failure failure) ≡ false)
  run_once-held trace h = ground (arith, kept-lem trace h)
