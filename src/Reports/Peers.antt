-- ===== src/Reports/Peers.antt =====
-- The states of the peers that a runner keeps, and the events of their changes
-- (pkg/orchestrator/runner.go, from `updateClusterPeerStates` to `emitPeerMissingEvent`).
use Prim.Native.String.{String}
use clusterrebootd.Prelude.{
  Bool, true, false, not, ◌&&◌, ◌||◌, bool_eq, Option, none, some, List, [], ◌∷◌, ◌++◌,
  if◌then◌else◌, is_nil,
}
use clusterrebootd.Text.{Text, codes, text_eq, trim_space}
use clusterrebootd.Orchestrator.Types.{Nanos, Phase, Record}
use clusterrebootd.Detector.Probe.{eq_ℤ}
use clusterrebootd.Observability.Types.{Level, Fields, Recorded, text_field}
use clusterrebootd.Observability.Collector.{lookup}
use clusterrebootd.Reports.Texts.{phase_text}
use clusterrebootd.Reports.Checks.{node_event, level_if, opt_text, opt_instant}

-- `clusterPeerState`
pub record PeerState : Type 0 where
  pub healthy : Bool
  pub stage : Text
  pub reason : Text
  pub reported_at : Option Nanos

-- `peerStatesEqual`
unfoldable pub peer_states_equal : PeerState → PeerState → Bool
peer_states_equal a b =
    bool_eq a.healthy b.healthy && text_eq a.stage b.stage && text_eq a.reason b.reason

unfoldable pub peer_status : PeerState → Text
peer_status s = if s.healthy then codes "healthy" else codes "unhealthy"

-- A map, as an association list without a key twice.
abbrev pub Peers : Type 0
Peers = List (Text × PeerState)

unfoldable pub put {ℓ} : {A : Type ℓ} → Text → A → List (Text × A) → List (Text × A)
put key a [] = (key, a) ∷ []
put key a ((k, b) ∷ rest) =
    let after = put key a rest in if text_eq k key then (k, a) ∷ rest else (k, b) ∷ after

abbrev pub has_key {ℓ} : {A : Type ℓ} → Text → List (Text × A) → Bool
has_key key rows = elim (lookup key rows) [ none ↦ false | some _ ↦ true ]

abbrev pub state_of : Record → PeerState
state_of rec = record {
  healthy = rec.healthy;
  stage = rec.stage;
  reason = rec.reason;
  reported_at = rec.reported_at;
}

abbrev instant_eq : Option Nanos → Option Nanos → Bool
instant_eq none none = true
instant_eq (some a) (some b) = eq_ℤ a b
instant_eq _ _ = false

-- A previous instant that another one has replaced.
abbrev replaced_instant : Option Nanos → Option Nanos → Option Nanos
replaced_instant previous current = if instant_eq previous current then none else previous

abbrev replaced_text : String → Text → Text → Fields
replaced_text name previous current =
    if text_eq previous current then [] else opt_text name previous

previous_fields : PeerState → Option PeerState → Fields
previous_fields current none = []
previous_fields current (some previous) =
    replaced_text "previous_stage" previous.stage current.stage
    ++ (replaced_text "previous_reason" previous.reason current.reason
        ++ opt_instant "previous_reported_at"
            (replaced_instant previous.reported_at current.reported_at))

abbrev previous_status : Option PeerState → Text
previous_status none = codes "unknown"
previous_status (some previous) = peer_status previous

-- `emitPeerStatusChange`; the previous state is there if there is one.
unfoldable pub emit_peer_status_change :
    Text → Phase → Text → PeerState → Option PeerState → Recorded
unfolding peer_status previous_fields
emit_peer_status_change local phase node current previous =
    node_event local (level_if (not current.healthy)) (codes "cluster_peer_status") (
      text_field "phase" (phase_text phase)
        ∷ text_field "node" node
        ∷ text_field "status" (peer_status current)
        ∷ text_field "previous_status" (previous_status previous)
        ∷ opt_instant "reported_at" current.reported_at
      ++ (opt_text "stage" current.stage
          ++ (opt_text "reason" current.reason ++ previous_fields current previous)))

unfoldable pub emit_peer_missing_event : Text → Phase → Text → PeerState → Recorded
emit_peer_missing_event local phase node previous =
    node_event local Level.warn (codes "cluster_peer_status") (
      text_field "phase" (phase_text phase)
        ∷ text_field "node" node
        ∷ text_field "status" (codes "missing")
        ∷ text_field "previous_status" (peer_status previous)
        ∷ opt_text "previous_stage" previous.stage
      ++ (opt_text "previous_reason" previous.reason
          ++ opt_instant "previous_reported_at" previous.reported_at))

-- The loop over the records: the current peers, and the events, of which there is one for each change.
unfoldable pub compare_peer : Text → Phase → Text → PeerState → Option PeerState → List Recorded
compare_peer local phase node state none = emit_peer_status_change local phase node state none ∷ []
compare_peer local phase node state (some previous) =
    if peer_states_equal previous state
    then []
    else emit_peer_status_change local phase node state (some previous) ∷ []

-- The record is of no peer.
abbrev pub is_no_peer : Text → Record → Bool
is_no_peer name rec =
    is_nil (trim_space rec.node) || text_eq (trim_space rec.node) (trim_space name)

unfoldable pub current_peers : Text → Peers → List Record → Peers
current_peers name current [] = current
current_peers name current (rec ∷ recs) =
    current_peers name
      (if is_no_peer name rec then current else put (trim_space rec.node) (state_of rec) current)
      recs

unfoldable pub peer_changes : Text → Phase → Peers → List Record → List Recorded
unfolding compare_peer
peer_changes name phase peers [] = []
peer_changes name phase peers (rec ∷ recs) =
    let rest = peer_changes name phase peers recs in
    let node = trim_space rec.node in
    if is_no_peer name rec
    then rest
    else compare_peer name phase node (state_of rec) (lookup node peers) ++ rest

-- The loop over the peers that were known.
unfoldable pub missing_peers : Text → Phase → Peers → Peers → List Recorded
missing_peers name phase current [] = []
missing_peers name phase current ((node, previous) ∷ peers) =
    let rest = missing_peers name phase current peers in
    if has_key node current then rest else emit_peer_missing_event name phase node previous ∷ rest

-- `updateClusterPeerStates`: the peers, and the events; a change is one that has an event.
unfoldable pub update_cluster_peer_states :
    Text → Phase → List Record → Peers → Peers × List Recorded
unfolding current_peers peer_changes missing_peers
update_cluster_peer_states name phase records peers =
    let current = current_peers name [] records in
    (current, peer_changes name phase peers records ++ missing_peers name phase current peers)
