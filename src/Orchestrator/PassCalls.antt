-- ===== src/Orchestrator/PassCalls.antt =====
-- Which calls a pass makes (`RunOnce` of pkg/orchestrator/runner.go): it runs no command, starts no
-- cooldown, and reports its health and tries the lock only as it was told to.
use clusterrebootd.Prelude.{
  ℕ, ◌+◌, ◌≤◌, ◌≡◌, refl, Bool, true, false, not, ◌&&◌, arith, if◌then◌else◌, subst,
}
use clusterrebootd.Orchestrator.Failure.{Context}
use clusterrebootd.Orchestrator.Types.{Phase, Message, empty_outcome, Trace, Environment, Runner}
use clusterrebootd.Orchestrator.Flow.{
  State, Exit, ◌>>=◌, modify, Keeps, >>=-Keeps, >>=-cases, Keeps-at,
}
use clusterrebootd.Orchestrator.Gates.{
  kill_gate, window_gate, health_gate, cluster_gate, cooldown_gate, set_command,
}
use clusterrebootd.Orchestrator.Lock.{release_lease}
use clusterrebootd.Orchestrator.RunOnce.{
  detector_gate, before_lock, lock_gate, recheck_gate, hand_over, make_ready, checks_under_lock,
  under_lock, release_unless_kept, with_lock, pass, settle, run_once,
}
use clusterrebootd.Orchestrator.Cleared.{>>=-next, lock_enabled_gate-next}
use clusterrebootd.Orchestrator.GateCalls.{
  inert, tries, Calm, kill_gate-Calm, window_gate-Calm, cooldown_gate-Calm, lock_enabled_gate-Calm,
  health_gate-Calm, cluster_gate-Calm, detector_gate-Calm, recheck_gate-Calm,
}
use clusterrebootd.Orchestrator.LockCalls.{more-Calm, lock_gate-Tries}

module _ (env : Environment) (r : Runner) (reporting : Bool)
    (told : (r.health_reporting && not reporting) ≡ false) where
  before_lock-Calm : (n : ℕ) → Keeps (Calm reporting n) (before_lock env r)
  unfolding before_lock
  before_lock-Calm n =
      let P = Calm reporting n in
      >>=-Keeps P (kill_gate env r Phase.pre_lock Context.check_kill_switch Message.kill_present) _
        (kill_gate-Calm env r reporting told n Phase.pre_lock Context.check_kill_switch
          Message.kill_present)
        λ _. >>=-Keeps P (window_gate env r) _ (window_gate-Calm env r reporting told n) λ _.
          >>=-Keeps P (detector_gate env r) _ (detector_gate-Calm env r reporting told n) λ _.
            >>=-Keeps P (cluster_gate env r Phase.pre_lock Context.cluster_health_before_lock) _
              (cluster_gate-Calm env r reporting told n Phase.pre_lock
                Context.cluster_health_before_lock)
              λ _.
                >>=-Keeps P (health_gate env r Phase.pre_lock false 0 Message.unhealthy_before_lock)
                  _
                  (health_gate-Calm env r reporting told n Phase.pre_lock false 0
                    Message.unhealthy_before_lock)
                  λ _.
                    >>=-Keeps P (cooldown_gate env r) _ (cooldown_gate-Calm env r reporting told n)
                      λ _. lock_enabled_gate-Calm env r reporting told n

  checks_under_lock-Calm :
      (n attempts : ℕ) → Keeps (Calm reporting n) (checks_under_lock env r attempts)
  unfolding checks_under_lock
  checks_under_lock-Calm n attempts =
      let P = Calm reporting n in
      >>=-Keeps P
        (kill_gate env r Phase.post_lock Context.check_kill_switch_after_lock
          Message.kill_present_after_lock)
        _
        (kill_gate-Calm env r reporting told n Phase.post_lock Context.check_kill_switch_after_lock
          Message.kill_present_after_lock)
        λ _.
          >>=-Keeps P (cluster_gate env r Phase.post_lock Context.cluster_health_under_lock) _
            (cluster_gate-Calm env r reporting told n Phase.post_lock
              Context.cluster_health_under_lock)
            λ _. >>=-Keeps P (recheck_gate env r) _ (recheck_gate-Calm env r reporting told n) λ _.
              health_gate-Calm env r reporting told n Phase.post_lock true attempts
                Message.unhealthy_under_lock

  -- At the end of the pass the outcome may hold the lock, if this is no dry run.
  abbrev Ended : ℕ → State → Type 0
  Ended n s =
      (inert reporting s.trace ≡ true)
      × (tries s.trace ≤ n)
      × ((r.dry_run && s.out.lock_release) ≡ false)

  calm-Ended : (n : ℕ) (s : State) → Calm reporting n s → Ended n s
  calm-Ended n s p = ground arith

  release-Ended :
      (n : ℕ) (x : Exit (Unit {0})) (s : State)
      → Ended n s
      → Ended n (release_unless_kept env r (x, s)).1
  unfolding release_unless_kept release_lease
  release-Ended n x s p = ground arith

  make_ready-Ended :
      (n : ℕ) (s : State) → Calm reporting n s → Ended n (record s { out = make_ready env r s.out })
  unfolding make_ready hand_over set_command
  make_ready-Ended n s p = ground arith

  with_lock-Ended :
      (n attempts : ℕ) (s : State) → Calm reporting n s → Ended n (with_lock env r attempts s).1
  unfolding with_lock under_lock
  with_lock-Ended n attempts s p =
      let checks = checks_under_lock env r attempts in
      let keeps = checks_under_lock-Calm n attempts in
      >>=-cases (λ x. Ended n (release_unless_kept env r x).1) checks
        (λ _. modify (make_ready env r)) s
        (λ _ t e.
          release-Ended n (Exit.next tt) (record t { out = make_ready env r t.out })
            (make_ready-Ended n t (Keeps-at (Calm reporting n) checks keeps p e)))
        (λ t e.
          release-Ended n Exit.stop t
            (calm-Ended n t (Keeps-at (Calm reporting n) checks keeps p e)))
        (λ x t e.
          release-Ended n (Exit.fail x) t
            (calm-Ended n t (Keeps-at (Calm reporting n) checks keeps p e)))

  after_lock-Ended :
      (n : ℕ) (s : State)
      → Calm reporting n s
      → Ended (n + r.max_lock_tries) ((lock_gate env r >>= with_lock env r) s).1
  after_lock-Ended n s p =
      let m = n + r.max_lock_tries in
      let locked = lock_gate-Tries env r reporting told n s p in
      >>=-cases (λ x. Ended m x.1) (lock_gate env r) (with_lock env r) s
        (λ a t e. with_lock-Ended m a t (subst (λ x. Calm reporting m x.1) e locked))
        (λ t e. calm-Ended m t (subst (λ x. Calm reporting m x.1) e locked))
        (λ x t e. calm-Ended m t (subst (λ x. Calm reporting m x.1) e locked))

  -- The attempts that a pass may make.
  abbrev pub allowed_tries : ℕ
  allowed_tries = if r.lock_enabled then r.max_lock_tries else 0

  -- Where a pass goes on to the lock, taking it is enabled.
  before_lock-enabled :
      (s t : State) → before_lock env r s ≡ (Exit.next tt, t) → r.lock_enabled ≡ true
  unfolding before_lock
  before_lock-enabled s t h =
      let (_, a, _, h₁) =
        >>=-next (kill_gate env r Phase.pre_lock Context.check_kill_switch Message.kill_present) _ s
          h in
      let (_, b, _, h₂) = >>=-next (window_gate env r) _ a h₁ in
      let (_, c, _, h₃) = >>=-next (detector_gate env r) _ b h₂ in
      let (_, d, _, h₄) =
        >>=-next (cluster_gate env r Phase.pre_lock Context.cluster_health_before_lock) _ c h₃ in
      let (_, e, _, h₅) =
        >>=-next (health_gate env r Phase.pre_lock false 0 Message.unhealthy_before_lock) _ d h₄ in
      let (_, f, _, h₆) = >>=-next (cooldown_gate env r) _ e h₅ in
      (lock_enabled_gate-next env r f h₆).0

  enabled-Ended :
      (n : ℕ) (s : State)
      → r.lock_enabled ≡ true
      → Ended (n + r.max_lock_tries) s
      → Ended (n + allowed_tries) s
  enabled-Ended n s e p = ground (arith, e, p)

  pass-Ended : (n : ℕ) (s : State) → Calm reporting n s → Ended (n + allowed_tries) (pass env r s).1
  unfolding pass
  pass-Ended n s p =
      let keeps = before_lock-Calm n in
      let m = n + allowed_tries in
      >>=-cases (λ x. Ended m x.1) (before_lock env r) (λ _. lock_gate env r >>= with_lock env r) s
        (λ _ t e.
          enabled-Ended n ((lock_gate env r >>= with_lock env r) t).1 (before_lock-enabled s t e)
            (after_lock-Ended n t (Keeps-at (Calm reporting n) (before_lock env r) keeps p e)))
        (λ t e. calm-Ended m t (
          more-Calm env r reporting told n allowed_tries t
            (Keeps-at (Calm reporting n) (before_lock env r) keeps p e)))
        (λ x t e. calm-Ended m t (
          more-Calm env r reporting told n allowed_tries t
            (Keeps-at (Calm reporting n) (before_lock env r) keeps p e)))

  settle-Ended :
      (n : ℕ) (x : Exit (Unit {0})) (s : State)
      → Ended n s
      → let (o, failure, t) = settle env r (x, s) in
        (inert reporting t ≡ true) × (tries t ≤ n) × ((r.dry_run && o.lock_release) ≡ false)
  unfolding settle
  settle-Ended n x s p = ground arith

  -- After calls that are inert, so are those of a pass, which tries the lock at most as often as the
  -- runner may, and not at all where its lock is disabled; in a dry run the outcome never holds the
  -- lock.
  pub run_once-inert :
      (t : Trace)
      → inert reporting t ≡ true
      → let (o, failure, u) = run_once env r t in
        (inert reporting u ≡ true)
        × (tries u ≤ tries t + allowed_tries)
        × ((r.dry_run && o.lock_release) ≡ false)
  unfolding run_once
  run_once-inert t h =
      let s : State = record { trace = t; out = empty_outcome } in
      settle-Ended (tries t + allowed_tries) (pass env r s).0 (pass env r s).1
        (pass-Ended (tries t) s (h, omega arith, refl))
