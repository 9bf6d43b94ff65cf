-- ===== src/Etcd/Keys.antt =====
-- `applyNamespace` of the three managers, and `NewEtcdManager` of pkg/lock/etcd_manager.go and
-- pkg/cooldown/etcd.go as far as the client.
use clusterrebootd.Prelude.{
  ℕ, ◌+◌, ◌/◌, ◌-◌, ◌^◌, ◌&&◌, List, [], ◌∷◌, ◌++◌, ◌==◌, if◌then◌else◌, is_nil, ℤ, pos, negsuc,
  leb_ℤ, Result, ok, err,
}
use clusterrebootd.Text.{Text, trim_space, is_blank}
use clusterrebootd.Orchestrator.Types.{Nanos}

-- `strings.TrimLeft` and `strings.TrimRight` of slashes.
unfoldable pub trim_left_slashes : Text → Text
trim_left_slashes [] = []
trim_left_slashes (c ∷ cs) = let rest = trim_left_slashes cs in if c == b'/' then rest else c ∷ cs

unfoldable pub trim_right_slashes : Text → Text
trim_right_slashes [] = []
trim_right_slashes (c ∷ cs) =
    let rest = trim_right_slashes cs in if is_nil rest && c == b'/' then [] else c ∷ rest

abbrev pub trim_slashes : Text → Text
trim_slashes s = trim_right_slashes (trim_left_slashes s)

-- `applyNamespace`
unfoldable pub apply_namespace : Text → Text → Text
apply_namespace namespace key =
    let normalized_key = b'/' ∷ trim_left_slashes key in
    let trimmed_namespace = trim_slashes namespace in
    if is_nil trimmed_namespace
    then normalized_key
    else b'/' ∷ (trimmed_namespace ++ normalized_key)

-- `EtcdManagerOptions`, without what only the client is given.
pub record LockOptions : Type 0 where
  pub endpoints : List Text
  pub lock_key : Text
  pub namespace : Text
  pub ttl : Nanos
  pub node_name : Text
  pub process_id : ℤ

-- `EtcdManager`, without the client and the clock.
pub record LockManager : Type 0 where
  pub key : Text
  pub ttl_seconds : ℕ
  pub node_name : Text
  pub pid : ℤ

pub data OptionsError : Type 0 where
  no_endpoint blank_key no_ttl blank_node : OptionsError

-- `math.Ceil` of `Seconds()`, without the rounding of a `float64`: exact for the whole seconds that
-- a configuration gives.
unfoldable pub ceil_seconds : ℕ → ℕ
ceil_seconds n = (n + (10 ^ 9 - 1)) / 10 ^ 9

unfoldable pub positive_nanos : Nanos → ℕ
positive_nanos (pos n) = n
positive_nanos (negsuc n) = 0

-- `NewEtcdManager`; the last argument is `os.Getpid()`. A positive TTL has at least one second, so
-- the second test of it never fails.
unfoldable pub new_lock_manager : ℤ → LockOptions → Result OptionsError LockManager
unfolding positive_nanos
new_lock_manager own_pid o =
    if is_nil o.endpoints
    then err no_endpoint
    else if is_blank o.lock_key
    then err blank_key
    else if leb_ℤ o.ttl (pos 0)
    then err no_ttl
    else if is_blank o.node_name
    then err blank_node
    else ok (record {
      key = apply_namespace o.namespace (trim_space o.lock_key);
      ttl_seconds = ceil_seconds (positive_nanos o.ttl);
      node_name = trim_space o.node_name;
      pid = if leb_ℤ o.process_id (pos 0) then own_pid else o.process_id;
    })

-- `EtcdManager` of the cooldown, without the client and the clock.
pub record CooldownManager : Type 0 where
  pub key : Text
  pub node : Text

-- `NewEtcdManager` of the cooldown: of the endpoints, the namespace, the key, the node.
unfoldable pub new_cooldown_manager :
    List Text → Text → Text → Text → Result OptionsError CooldownManager
new_cooldown_manager endpoints namespace key node_name =
    if is_nil endpoints
    then err no_endpoint
    else if is_blank key
    then err blank_key
    else if is_blank node_name
    then err blank_node
    else ok
        (record { key = apply_namespace namespace (trim_space key); node = trim_space node_name })
