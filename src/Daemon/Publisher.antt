-- ===== src/Daemon/Publisher.antt =====
-- pkg/orchestrator/health_publisher.go: the loop of the heartbeats, and `PublishHeartbeat` of runner.go.
-- An error handler only observes.
use clusterrebootd.Prelude.{
  Bool, false, ◌&&◌, Option, none, some, if◌then◌else◌, ◌∷◌, pos, leb_ℤ, pos_part,
}
use clusterrebootd.Orchestrator.Failure.{Failure, is_cancel}
use clusterrebootd.Orchestrator.Types.{
  Nanos, Phase, Call, Trace, Environment, Runner, HealthResult, empty_outcome,
}
use clusterrebootd.Orchestrator.Flow.{State, Exit}
use clusterrebootd.Orchestrator.Gates.{run_health_and_update}

-- `HealthPublishingEnabled`
unfoldable pub health_publishing_enabled : Runner → Bool
health_publishing_enabled r = r.has_cluster_health && r.health_reporting

-- `NewHealthPublisher`: the interval.
unfoldable pub new_health_publisher : Nanos → Option Nanos
new_health_publisher interval = if leb_ℤ interval (pos 0) then none else some interval

module _ (env : Environment) (r : Runner) where
  abbrev pub heartbeat_of : Exit (HealthResult × Option Failure) × State → Option Failure × Trace
  heartbeat_of (Exit.next x, s) = (x.1, s.trace)
  heartbeat_of (Exit.stop, s) = (none, s.trace)
  heartbeat_of (Exit.fail e, s) = (some e, s.trace)

  -- `PublishHeartbeat`
  unfoldable pub publish_heartbeat : Trace → Option Failure × Trace
  publish_heartbeat t =
      if health_publishing_enabled r
      then heartbeat_of (
          run_health_and_update env r Phase.heartbeat false 0
            (record { trace = t; out = empty_outcome }))
      else (none, t)

  -- `sleepWithContext`
  unfoldable pub publisher_sleep : Nanos → Trace → Option Failure × Trace
  publisher_sleep d t =
      if leb_ℤ d (pos 0)
      then (none, t)
      else (let failure = env.sleep t (pos_part d) in
          (failure, Call.slept (pos_part d) failure ∷ t))

  -- How a turn of the loop ends: with another, or with the error that `Run` returns.
  abbrev pub PublisherTurn : Type 0
  PublisherTurn = Option Failure × Trace

  -- A heartbeat's error ends the loop if it is the end of a context.
  unfoldable pub after_heartbeat : Nanos → Option Failure × Trace → PublisherTurn
  unfolding publisher_sleep
  after_heartbeat interval (none, t) = publisher_sleep interval t
  after_heartbeat interval (some e, t) =
      let slept = publisher_sleep interval t in if is_cancel e then (some e, t) else slept

  abbrev pub turn_of_context : Nanos → Option Failure → Trace → PublisherTurn
  turn_of_context interval (some e) t = (some e, t)
  turn_of_context interval none t =
      if health_publishing_enabled r
      then after_heartbeat interval (publish_heartbeat t)
      else publisher_sleep interval t

  -- A turn of `Run`.
  unfoldable pub publisher_turn : Nanos → Trace → PublisherTurn
  unfolding publish_heartbeat publisher_sleep health_publishing_enabled after_heartbeat
  publisher_turn interval t = turn_of_context interval (env.context_error t) t
