-- ===== src/Etcd/CooldownRoundTrip.antt =====
-- `Status` after `Start` (pkg/cooldown/etcd.go).
use clusterrebootd.Prelude.{
  ℕ, suc, ◌≡◌, refl, true, false, Option, none, some, arith, ◌==◌, ℤ, pos, leb_ℤ, Result, ok, err,
  choose,
}
use clusterrebootd.Text.{Text}
use clusterrebootd.Config.Derived.{seconds_duration}
use clusterrebootd.Orchestrator.Failure.{Failure}
use clusterrebootd.Orchestrator.Types.{Nanos, CooldownStatus}
use clusterrebootd.Etcd.Keys.{ceil_seconds}
use clusterrebootd.Etcd.Cooldown.{
  CooldownRecord, Row, CooldownClient, instant, stored_status, after_ttl, after_time, after_payload,
  after_get, status, after_put, after_grant, start, time_left, not_negative,
}

-- What the manager relies on, of an etcd that answers: a value that was put is read back, its lease
-- lives, and no lease has the number 0; and what is encoded or printed is decoded or parsed again.
pub record IsStore {S : Type 0} (client : CooldownClient S) : Type 0 where
  pub reads_back :
      (s : S) (key : Text) (row : Row)
      → (client.put s key row).1 ≡ none
      → (client.get (client.put s key row).0 key).1 ≡ ok (some row)
  pub lives :
      (s : S) (key : Text) (row : Row)
      → (client.put s key row).1 ≡ none
      → (row.lease == 0) ≡ false
      → (ttl : ℕ) × ((client.time_to_live (client.get (client.put s key row).0 key).0 row.lease).1
          ≡ ok (pos (suc ttl)))
  pub numbered :
      (s : S) (seconds lease : ℕ) → (client.grant s seconds).1 ≡ ok lease → (lease == 0) ≡ false
  pub decodes : (r : CooldownRecord) → client.decode (client.encode r) ≡ some r
  pub parses : (t : Nanos) → client.parse_time (client.format_time t) ≡ some t

-- An active status by this node, since this time.
abbrev pub IsSince : Text → Nanos → CooldownStatus → Type 0
IsSince node t st = (st.active ≡ true) × (st.node ≡ node) × (st.started_at ≡ instant t)

positive_ttl : (ttl : ℕ) → leb_ℤ (pos (suc ttl)) (pos 0) ≡ false
positive_ttl ttl = ground arith

module _ {S : Type 0} (client : CooldownClient S) where
  time_left-IsSince :
      (s : S) (st : CooldownStatus) (expires : Option Nanos) (node : Text) (t : Nanos)
      → IsSince node t st
      → IsSince node t (time_left client s st expires)
  time_left-IsSince s st none node t h = h
  time_left-IsSince s st (some expires) node t h =
      choose (IsSince node t) _ (record st { remaining = client.until s expires }) st
        (λ positive. h) h

  -- A chain that ends with such a status.
  abbrev pub EndsSince : Text → Nanos → S × Result Failure CooldownStatus → Type 0
  EndsSince node t answer = (st : CooldownStatus) × (answer.1 ≡ ok st) × IsSince node t st

  after_ttl-Since :
      (st : CooldownStatus) (answer : S × Result Failure ℤ) (ttl : ℕ) (node : Text) (t : Nanos)
      → answer.1 ≡ ok (pos (suc ttl))
      → IsSince node t st
      → EndsSince node t (after_ttl client st answer)
  unfolding after_ttl
  after_ttl-Since st (s, answer) ttl node t e h =
      let live = record st { remaining = not_negative (seconds_duration (pos (suc ttl))) } in
      rw (e, positive_ttl ttl)
        (
          time_left client s live live.expires_at,
          refl,
          time_left-IsSince s live live.expires_at node t h,
        )

  after_time-Since :
      (s : S) (r : CooldownRecord) (lease ttl : ℕ) (t : Nanos)
      → (lease == 0) ≡ false
      → (client.time_to_live s lease).1 ≡ ok (pos (suc ttl))
      → EndsSince r.node t (after_time client s r lease (some t))
  unfolding after_time stored_status
  after_time-Since s r lease ttl t numbered lives = rw numbered (
      after_ttl-Since (stored_status r t) (client.time_to_live s lease) ttl r.node t lives
        (refl, refl, refl))

  after_get-Since :
      (answer : S × Result Failure (Option Row)) (row : Row)
      → answer.1 ≡ ok (some row)
      → after_get client answer ≡ after_payload client answer.0 row.lease (client.decode row.value)
  unfolding after_get
  after_get-Since (s, answer) row e = rw e refl

  after_put-none :
      (lease : ℕ) (answer : S × Option Failure)
      → (after_put client lease answer).1 ≡ none
      → (answer.1 ≡ none) × ((after_put client lease answer).0 ≡ answer.0)
  unfolding after_put
  after_put-none lease (s, none) h = (refl, refl)
  after_put-none lease (s, some e) h = cc

module _ {S : Type 0} (client : CooldownClient S) (store : IsStore client) (key node : Text) where
  -- The state when the time is taken.
  abbrev pub granted : S → ℕ → S
  granted s n = (client.grant s (ceil_seconds (suc n))).0

  abbrev record_at : S → ℕ → CooldownRecord
  record_at s seconds = record {
    node = node;
    started_at = client.format_time (client.now s);
    duration_sec = pos seconds;
  }

  stored-Since :
      (s : S) (seconds lease : ℕ)
      → (lease == 0) ≡ false
      → (client.put s key (record { value = client.encode (record_at s seconds); lease = lease })).1
        ≡ none
      → EndsSince client node (client.now s) (
          status client key
            (client.put s key
              (record { value = client.encode (record_at s seconds); lease = lease })).0)
  unfolding status after_payload
  stored-Since s seconds lease numbered put =
      let row : Row = record { value = client.encode (record_at s seconds); lease = lease } in
      let after = (client.put s key row).0 in
      let (ttl, lives) = store.lives s key row put numbered in
      rw
        (
          after_get-Since client (client.get after key) row (store.reads_back s key row put),
          store.decodes (record_at s seconds),
          store.parses (client.now s),
        )
        (after_time-Since client (client.get after key).0 (record_at s seconds) lease ttl
          (client.now s) numbered lives)

  after_grant-Since :
      (seconds : ℕ) (answer : S × Result Failure ℕ)
      → ((lease : ℕ) → answer.1 ≡ ok lease → (lease == 0) ≡ false)
      → (after_grant client key node seconds answer).1 ≡ none
      → EndsSince client node
          (client.now answer.0)
          (status client key (after_grant client key node seconds answer).0)
  unfolding after_grant
  after_grant-Since seconds (s, err e) numbered h = cc
  after_grant-Since seconds (s, ok lease) numbered h =
      let row : Row = record { value = client.encode (record_at s seconds); lease = lease } in
      let (put, same) = after_put-none client lease (client.put s key row) h in
      rw same (stored-Since s seconds lease (numbered lease refl) put)

  -- Once `Start` has succeeded with a positive duration, `Status` finds an active cooldown by this node,
  -- started at the time that `Start` took. Etcd answers, and reads back what was put.
  pub start-status :
      (n : ℕ) (s : S)
      → (start client key node (pos (suc n)) s).1 ≡ none
      → EndsSince client node
          (client.now (granted s n))
          (status client key (start client key node (pos (suc n)) s).0)
  unfolding start
  start-status n s h =
      let seconds = ceil_seconds (suc n) in
      after_grant-Since seconds (client.grant s seconds) (store.numbered s seconds) h
