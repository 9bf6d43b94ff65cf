-- ===== src/Daemon/RunLaws.antt =====
-- `run --once` (cmd/clusterrebootd/main.go) and the lock.
use clusterrebootd.Prelude.{
  ◌≡◌, refl, ◌∙◌, false, ◌&&◌, Option, none, some, arith, Bool-cases, inl, inr,
}
use clusterrebootd.Orchestrator.Failure.{Failure}
use clusterrebootd.Orchestrator.Types.{Outcome, Trace, Environment, Runner}
use clusterrebootd.Orchestrator.RunOnce.{run_once}
use clusterrebootd.Orchestrator.Lock.{release_lease}
use clusterrebootd.Orchestrator.Held.{held}
use clusterrebootd.Orchestrator.PassLock.{is_failure, run_once-held}
use clusterrebootd.Orchestrator.Loop.{release_outcome}
use clusterrebootd.Orchestrator.Loop.Reboots.{Quiet, release-Quiet}
use clusterrebootd.Daemon.Run.{release_and_exit, after_once, once}

held-release :
    (env : Environment) (o : Outcome) (t : Trace)
    → held t ≡ o.lock_release
    → held (release_and_exit env o t).1 ≡ false
unfolding release_and_exit release_outcome release_lease
held-release env o t kept = elim (Bool-cases o.lock_release) [
  | inl holds ↦ rw holds refl
  | inr free ↦ rw free (kept ∙ free)
]

held-after_once :
    (env : Environment) (o : Outcome) (failure : Option Failure) (t : Trace)
    → held t ≡ o.lock_release
    → (o.lock_release && is_failure failure) ≡ false
    → held (after_once env (o, failure, t)).1 ≡ false
unfolding after_once
held-after_once env o none t kept fine = held-release env o t kept
held-after_once env o (some e) t kept fine = ground (arith, kept, fine)

after_once-Quiet :
    (env : Environment) (o : Outcome) (failure : Option Failure) (t : Trace)
    → Quiet t (after_once env (o, failure, t)).1
unfolding after_once release_and_exit
after_once-Quiet env o none t = release-Quiet env o t
after_once-Quiet env o (some e) t = Quiet.done

-- `run --once` that begins without the lock ends without it, on every path, errors included; and after
-- its pass it makes no call but the release, so it runs no command.
pub once-held :
    (env : Environment) (r : Runner) (t : Trace)
    → held t ≡ false
    → (held (once env r t).1 ≡ false) × Quiet (run_once env r t).2 (once env r t).1
unfolding once
once-held env r t free =
    let (o, failure, after) = run_once env r t in
    let kept = run_once-held env r t free in
    (held-after_once env o failure after kept.0 kept.2, after_once-Quiet env o failure after)
