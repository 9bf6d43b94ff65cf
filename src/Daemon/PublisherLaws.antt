-- ===== src/Daemon/PublisherLaws.antt =====
-- The heartbeats (pkg/orchestrator/health_publisher.go) and the lock.
use clusterrebootd.Prelude.{◌≡◌, ◌∙◌, refl, false, Option, none, some, choose, leb_ℤ, pos}
use clusterrebootd.Orchestrator.Failure.{Failure, is_cancel}
use clusterrebootd.Orchestrator.Types.{
  Nanos, Phase, Trace, Environment, Runner, empty_outcome, HealthResult,
}
use clusterrebootd.Orchestrator.Flow.{State, Exit}
use clusterrebootd.Orchestrator.Gates.{run_health_and_update}
use clusterrebootd.Orchestrator.Held.{held, run_health_and_update-Idle}
use clusterrebootd.Daemon.Publisher.{
  health_publishing_enabled, publish_heartbeat, publisher_sleep, after_heartbeat, publisher_turn,
  heartbeat_of, turn_of_context,
}

module _ (env : Environment) (r : Runner) where
  held-heartbeat_of :
      (x : Exit (HealthResult × Option Failure) × State)
      → held (heartbeat_of env r x).1 ≡ held x.1.trace
  held-heartbeat_of (Exit.next x, s) = refl
  held-heartbeat_of (Exit.stop, s) = refl
  held-heartbeat_of (Exit.fail e, s) = refl

  held-publish_heartbeat : (t : Trace) → held (publish_heartbeat env r t).1 ≡ held t
  unfolding publish_heartbeat
  held-publish_heartbeat t =
      let s : State = record { trace = t; out = empty_outcome } in
      choose (λ (x : Option Failure × Trace). held x.1 ≡ held t) (health_publishing_enabled r) _ _
        (λ enabled.
          held-heartbeat_of (run_health_and_update env r Phase.heartbeat false 0 s)
          ∙ (run_health_and_update-Idle env r (held t) Phase.heartbeat false 0 s
              (refl, refl, refl)).0)
        refl

  held-publisher_sleep : (d : Nanos) (t : Trace) → held (publisher_sleep env r d t).1 ≡ held t
  unfolding publisher_sleep
  held-publisher_sleep d t =
      choose (λ (x : Option Failure × Trace). held x.1 ≡ held t) (leb_ℤ d (pos 0)) _ _
        (λ none_left. refl) refl

  held-after_heartbeat :
      (d : Nanos) (x : Option Failure × Trace) → held (after_heartbeat env r d x).1 ≡ held x.1
  unfolding after_heartbeat
  held-after_heartbeat d (none, t) = held-publisher_sleep d t
  held-after_heartbeat d (some e, t) =
      choose (λ (x : Option Failure × Trace). held x.1 ≡ held t) (is_cancel e) _ _ (λ ended. refl)
        (held-publisher_sleep d t)

  held-turn_of_context :
      (d : Nanos) (ended : Option Failure) (t : Trace)
      → held (turn_of_context env r d ended t).1 ≡ held t
  held-turn_of_context d (some e) t = refl
  held-turn_of_context d none t =
      choose (λ (x : Option Failure × Trace). held x.1 ≡ held t) (health_publishing_enabled r) _ _
        (λ enabled. held-after_heartbeat d (publish_heartbeat env r t) ∙ held-publish_heartbeat t)
        (held-publisher_sleep d t)

  -- A turn of the publisher neither takes nor gives up the lock, so it can run beside the loop.
  pub publisher_turn-held : (d : Nanos) (t : Trace) → held (publisher_turn env r d t).1 ≡ held t
  unfolding publisher_turn
  publisher_turn-held d t = held-turn_of_context d (env.context_error t) t
