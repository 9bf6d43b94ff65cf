-- ===== src/Reports/ClusterLaws.antt =====
-- A cluster whose health has not changed is not reported again (`recordClusterHealthStatus` and
-- `updateClusterPeerStates` of pkg/orchestrator/runner.go).
use clusterrebootd.Prelude.{
  ◌≡◌, refl, ◌∙◌, Bool, true, false, bool_eq, Option, some, List, [], ◌∷◌, arith, if◌then◌else◌,
  any, All, Bool-cases, inl, inr,
}
use clusterrebootd.Text.{Text, text_eq, trim_space}
use clusterrebootd.Text.Laws.{text_eq_iff, text_eq_refl, text_eq_sym}
use clusterrebootd.Orchestrator.Failure.{Failure}
use clusterrebootd.Orchestrator.Types.{Phase, Record}
use clusterrebootd.Observability.Collector.{lookup}
use clusterrebootd.Observability.CollectorSchema.{all_different}
use clusterrebootd.Reports.Texts.{phase_text}
use clusterrebootd.Reports.Checks.{Printed}
use clusterrebootd.Reports.Peers.{
  PeerState, peer_states_equal, Peers, put, has_key, state_of, compare_peer, is_no_peer,
  current_peers, peer_changes, missing_peers, update_cluster_peer_states,
}
use clusterrebootd.Reports.Cluster.{
  StatusSummary, summary_eq, ClusterState, peers_after, summary_of, record_cluster_health_status,
}
use clusterrebootd.Reports.DeliveryLaws.{events_of}

bool_eq_refl : (b : Bool) → bool_eq b b ≡ true
bool_eq_refl true = refl
bool_eq_refl false = refl

summary_eq_refl : (s : StatusSummary) → summary_eq s s ≡ true
unfolding summary_eq
summary_eq_refl s = ground (
  arith,
  bool_eq_refl s.attempted,
  text_eq_refl s.result,
  text_eq_refl s.error,
  text_eq_refl s.unhealthy_key,
)

peer_states_equal_refl : (s : PeerState) → peer_states_equal s s ≡ true
unfolding peer_states_equal
peer_states_equal_refl s =
    ground (arith, bool_eq_refl s.healthy, text_eq_refl s.stage, text_eq_refl s.reason)

module _ {A : Type 0} (key : Text) (a : A) where
  lookup-put : (rows : List (Text × A)) → lookup key (put key a rows) ≡ some a
  unfolding put
  lookup-put [] = ground (arith, text_eq_refl key)
  lookup-put ((k, b) ∷ rest) = ground (arith, lookup-put rest)

  lookup-put-other :
      (other : Text) (rows : List (Text × A))
      → text_eq key other ≡ false
      → lookup other (put key a rows) ≡ lookup other rows
  unfolding put
  lookup-put-other other [] e = ground (arith, e)
  lookup-put-other other ((k, b) ∷ rest) e =
      ground (arith, e, lookup-put-other other rest e, text_eq_iff k key)

module _ (name : Text) where
  -- The trimmed names of the peers among the records.
  abbrev pub peer_names : List Record → List Text
  peer_names [] = []
  peer_names (rec ∷ recs) =
      let rest = peer_names recs in if is_no_peer name rec then rest else trim_space rec.node ∷ rest

  -- What the loop does with a record, given whether it is skipped.
  abbrev put_unless : Bool → Record → Peers → Peers
  put_unless skip rec current =
      if skip then current else put (trim_space rec.node) (state_of rec) current

  put_unless-other :
      (node : Text) (rec : Record) (names : List Text) (on : Peers → Peers) (current : Peers)
      (skip : Bool)
      → (any (text_eq node) names ≡ false → (p : Peers) → lookup node (on p) ≡ lookup node p)
      → any (text_eq node) (if skip then names else trim_space rec.node ∷ names) ≡ false
      → lookup node (on (put_unless skip rec current)) ≡ lookup node current
  put_unless-other node rec names on current true rest e = rest e current
  put_unless-other node rec names on current false rest e =
      rest (ground (arith, e)) (put (trim_space rec.node) (state_of rec) current)
      ∙ lookup-put-other (trim_space rec.node) (state_of rec) node current
          (ground (arith, e, text_eq_sym node (trim_space rec.node)))

  current_peers-other :
      (node : Text) (recs : List Record) (current : Peers)
      → any (text_eq node) (peer_names recs) ≡ false
      → lookup node (current_peers name current recs) ≡ lookup node current
  unfolding current_peers
  current_peers-other node [] current e = refl
  current_peers-other node (rec ∷ recs) current e =
      put_unless-other node rec (peer_names recs) (λ p. current_peers name p recs) current
        (is_no_peer name rec) (λ other p. current_peers-other node recs p other) e

  -- The record is skipped, or the peers have its state.
  abbrev IsKnown : Peers → Record → Type 0
  IsKnown peers rec =
      is_no_peer name rec ≡ false → lookup (trim_space rec.node) peers ≡ some (state_of rec)

  current_peers-IsKnown :
      (recs : List Record) (current : Peers)
      → all_different (peer_names recs) ≡ true
      → All (IsKnown (current_peers name current recs)) recs
  unfolding current_peers
  current_peers-IsKnown [] current e = tt
  current_peers-IsKnown (rec ∷ recs) current e = (
    (λ peer. rw peer (
        current_peers-other (trim_space rec.node) recs
          (put (trim_space rec.node) (state_of rec) current) (ground (arith, e, peer))
        ∙ lookup-put (trim_space rec.node) (state_of rec) current)),
    current_peers-IsKnown recs (put_unless (is_no_peer name rec) rec current) (ground (arith, e)),
  )

  known_unchanged :
      (phase : Phase) (peers : Peers) (recs : List Record)
      → All (IsKnown peers) recs
      → peer_changes name phase peers recs ≡ []
  unfolding peer_changes compare_peer
  known_unchanged phase peers [] known = refl
  known_unchanged phase peers (rec ∷ recs) known = elim (Bool-cases (is_no_peer name rec)) [
    | inl skipped ↦ rw skipped (known_unchanged phase peers recs known.1)
    | inr peer ↦
        rw (peer, known.0 peer, peer_states_equal_refl (state_of rec))
          (known_unchanged phase peers recs known.1)
  ]

HasKeys : Peers → Peers → Type 0
HasKeys peers = All (λ row. has_key row.0 peers ≡ true)

HasKeys-cons :
    (row : Text × PeerState) (peers rows : Peers) → HasKeys peers rows → HasKeys (row ∷ peers) rows
unfolding HasKeys
HasKeys-cons row peers [] h = tt
HasKeys-cons row peers (r ∷ rows) h = (ground (arith, h.0), HasKeys-cons row peers rows h.1)

HasKeys-self : (peers : Peers) → HasKeys peers peers
unfolding HasKeys
HasKeys-self [] = tt
HasKeys-self (row ∷ peers) =
    (ground (arith, text_eq_refl row.0), HasKeys-cons row peers peers (HasKeys-self peers))

none_missing :
    (name : Text) (phase : Phase) (peers rows : Peers)
    → HasKeys peers rows
    → missing_peers name phase peers rows ≡ []
unfolding missing_peers HasKeys
none_missing name phase peers [] h = refl
none_missing name phase peers (row ∷ rows) h = rw h.0 (none_missing name phase peers rows h.1)

-- Peers that were just taken from the records have no change.
peers_after-again :
    (name : Text) (phase : Phase) (attempted : Bool) (records : List Record) (peers : Peers)
    → all_different (peer_names name records) ≡ true
    → (peers_after name phase attempted records
        (peers_after name phase attempted records peers).0).1
      ≡ []
unfolding peers_after update_cluster_peer_states
peers_after-again name phase false records peers e = refl
peers_after-again name phase true records peers e =
    let current = current_peers name [] records in
    rw
      (
        known_unchanged name phase current records (current_peers-IsKnown name records [] e),
        none_missing name phase current current (HasKeys-self current),
      )
      refl

-- Once an inspection of the cluster is reported, the same one makes no event again, whatever was
-- reported before the first: not for a peer, and not for the cluster. The names of the peers in
-- the records differ.
pub record_cluster_health_status-again :
    (print : Printed) (name : Text) (phase : Phase) (attempted : Bool) (records : List Record)
    (failure : Option Failure) (s : ClusterState)
    → all_different (peer_names name records) ≡ true
    → events_of
        (record_cluster_health_status print name phase attempted records failure
          (record_cluster_health_status print name phase attempted records failure s).0).1
      ≡ []
unfolding record_cluster_health_status
record_cluster_health_status-again print name phase attempted records failure s e =
    let summary = summary_of print name attempted records failure in
    rw
      (
        peers_after-again name phase attempted records s.peers e,
        lookup-put (phase_text phase) summary s.summaries,
        summary_eq_refl summary,
      )
      refl
