-- ===== src/Etcd/Health.antt =====
-- pkg/clusterhealth/etcd.go: the health of the nodes, a key for each. The client of etcd, with its
-- state, `encoding/json`, `path.Join`, the clock and the printing of times are parameters.
use clusterrebootd.Prelude.{
  Bool, true, false, Option, none, some, List, [], ◌∷◌, ◌++◌, if◌then◌else◌, is_nil, ◌==◌, Result,
  ok, err, ◌>>=◌,
}
use clusterrebootd.Text.{Text, codes, trim_space, is_blank}
use clusterrebootd.Orchestrator.Failure.{
  Failure, Context, wrap_unless_cancel, unreadable_payload, unreadable_time,
}
use clusterrebootd.Orchestrator.Types.{Nanos, Record}
use clusterrebootd.Etcd.Cooldown.{instant}
use clusterrebootd.Etcd.Keys.{
  OptionsError, no_endpoint, blank_node, trim_right_slashes, apply_namespace,
}

-- `recordPayload`
pub record Payload : Type 0 where
  pub node : Text
  pub healthy : Bool
  pub stage : Text
  pub reason : Text
  pub reported_at : Text

-- Each call gives the state after it, and the answer.
pub record HealthClient (S : Type 0) : Type 0 where
  pub put : S → Text → Text → S × Option Failure
  -- `Get` with a prefix: the keys and their values
  pub list : S → Text → S × Result Failure (List (Text × Text))
  pub now : S → Nanos
  pub encode : Payload → Text
  pub decode : Text → Option Payload
  pub format_time : Nanos → Text
  pub parse_time : Text → Option Nanos

-- `EtcdManager`, without the client and the clock.
pub record HealthManager : Type 0 where
  pub prefix : Text
  pub node : Text
  pub node_path : Text

-- `NewEtcdManager`, as far as the client: of the endpoints, the prefix, the namespace, the node.
unfoldable pub new_health_manager :
    (Text → Text → Text) → List Text → Text → Text → Text → Result OptionsError HealthManager
new_health_manager join_path endpoints prefix namespace node_name =
    let trimmed = if is_blank prefix then codes "cluster_health" else trim_space prefix in
    let normalized = trim_right_slashes (apply_namespace namespace trimmed) in
    if is_nil endpoints
    then err no_endpoint
    else if is_blank node_name
    then err blank_node
    else ok (record {
      prefix = normalized;
      node = trim_space node_name;
      node_path = join_path normalized (trim_space node_name);
    })

-- The rest of a text after a prefix; `none` if it does not begin so.
after_prefix : Text → Text → Option Text
after_prefix [] s = some s
after_prefix (p ∷ ps) [] = none
after_prefix (p ∷ ps) (c ∷ s) = let rest = after_prefix ps s in if p == c then rest else none

abbrev or_whole : Text → Option Text → Text
or_whole s none = s
or_whole s (some rest) = rest

-- `strings.TrimPrefix`
unfoldable pub trim_prefix : Text → Text → Text
unfolding after_prefix
trim_prefix prefix s = or_whole s (after_prefix prefix s)

-- `strings.HasSuffix` of a slash.
unfoldable pub ends_in_slash : Text → Bool
ends_in_slash [] = false
ends_in_slash (c ∷ []) = c == b'/'
ends_in_slash (c ∷ d ∷ s) = ends_in_slash (d ∷ s)

-- The prefix as `Status` lists it.
unfoldable pub listed_prefix : Text → Text
unfolding ends_in_slash
listed_prefix prefix =
    if is_nil prefix
    then codes "/"
    else if ends_in_slash prefix
    then prefix
    else prefix ++ codes "/"

module _ {S : Type 0} (client : HealthClient S) (m : HealthManager) where
  abbrev pub stored : S × Option Failure → S × Option Failure
  stored (s, none) = (s, none)
  stored (s, some e) = (s, some (wrap_unless_cancel Context.store_health e))

  unfoldable pub store_report : Bool → Text → Text → S → S × Option Failure
  store_report healthy stage reason s =
      let payload : Payload = record {
        node = m.node;
        healthy = healthy;
        stage = stage;
        reason = reason;
        reported_at = client.format_time (client.now s);
      } in
      stored (client.put s m.node_path (client.encode payload))

  -- `ReportHealthy`
  unfoldable pub report_healthy : S → S × Option Failure
  unfolding store_report
  report_healthy s = store_report true [] [] s

  -- `ReportUnhealthy`
  unfoldable pub report_unhealthy : Text → Text → S → S × Option Failure
  unfolding store_report
  report_unhealthy stage reason s = store_report false (trim_space stage) (trim_space reason) s

  unfoldable pub record_of : Text → Payload → Nanos → Record
  record_of key p t = record {
    node = if is_nil p.node then trim_prefix (listed_prefix m.prefix) key else p.node;
    healthy = p.healthy;
    stage = p.stage;
    reason = p.reason;
    reported_at = instant t;
  }

  abbrev pub or_failure : {A : Type 0} → Failure → Option A → Result Failure A
  or_failure e none = err e
  or_failure e (some a) = ok a

  -- A row of the loop of `Status`.
  unfoldable pub read_row : Text × Text → Result Failure Record
  unfolding record_of
  read_row (key, value) = or_failure unreadable_payload (client.decode value) >>= λ p.
      or_failure unreadable_time (client.parse_time p.reported_at) >>= λ t. ok (record_of key p t)

  unfoldable pub read_rows : List (Text × Text) → Result Failure (List Record)
  unfolding read_row
  read_rows [] = ok []
  read_rows (row ∷ rows) = read_row row >>= λ r. read_rows rows >>= λ rs. ok (r ∷ rs)

  abbrev pub listed : Result Failure (List (Text × Text)) → Result Failure (List Record)
  listed (err e) = err (wrap_unless_cancel Context.list_health e)
  listed (ok rows) = read_rows rows

  -- `Status`
  unfoldable pub health_status : S → S × Result Failure (List Record)
  unfolding read_rows listed_prefix
  health_status s = let (s1, answer) = client.list s (listed_prefix m.prefix) in (s1, listed answer)
