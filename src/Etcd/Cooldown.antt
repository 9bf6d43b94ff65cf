-- ===== src/Etcd/Cooldown.antt =====
-- pkg/cooldown/etcd.go: the cooldown, kept under a key with a lease. The client of etcd, with its
-- state, `encoding/json`, the clock and the printing of times are parameters.
use clusterrebootd.Prelude.{
  ℕ, suc, ◌+◌, ◌-◌, ◌*◌, ◌^◌, [], pos_part, neg_part, ltb, true, false, Option, none, some,
  if◌then◌else◌, ◌==◌, ℤ, pos, negsuc, ltb_ℤ, leb_ℤ, Result, ok, err,
}
use clusterrebootd.Text.{Text}
use clusterrebootd.Config.Derived.{seconds_duration}
use clusterrebootd.Orchestrator.Failure.{
  Failure, Context, wrap_unless_cancel, unreadable_payload, unreadable_time,
}
use clusterrebootd.Orchestrator.Types.{Nanos, CooldownStatus}
use clusterrebootd.Detector.Probe.{eq_ℤ}
use clusterrebootd.Etcd.Keys.{ceil_seconds}

-- `cooldownRecord`
pub record CooldownRecord : Type 0 where
  pub node : Text
  pub started_at : Text
  pub duration_sec : ℤ

-- A value, and the number of its lease; 0 is none.
pub record Row : Type 0 where
  pub value : Text
  pub lease : ℕ

-- Each call gives the state after it, and the answer.
pub record CooldownClient (S : Type 0) : Type 0 where
  pub get : S → Text → S × Result Failure (Option Row)
  pub delete : S → Text → S × Option Failure
  pub grant : S → ℕ → S × Result Failure ℕ
  pub put : S → Text → Row → S × Option Failure
  pub revoke : S → ℕ → S
  pub time_to_live : S → ℕ → S × Result Failure ℤ
  pub now : S → Nanos
  -- `time.Until`
  pub until : S → Nanos → Nanos
  pub encode : CooldownRecord → Text
  pub decode : Text → Option CooldownRecord
  pub format_time : Nanos → Text
  pub parse_time : Text → Option Nanos

-- The zero `time.Time`, the first of January of the year 1.
abbrev zero_time : Nanos
zero_time = negsuc (62135596800 * 10 ^ 9 - 1)

-- A `time.Time` that is not zero.
abbrev pub instant : Nanos → Option Nanos
instant t = if eq_ℤ t zero_time then none else some t

abbrev sub_nat : ℕ → ℕ → ℤ
sub_nat a b = if ltb a b then negsuc (b - a - 1) else pos (a - b)

abbrev pub add_ℤ : Nanos → Nanos → Nanos
add_ℤ a b = sub_nat (pos_part a + pos_part b) (neg_part a + neg_part b)

abbrev pub inactive : CooldownStatus
inactive = record {
  active = false;
  node = [];
  started_at = none;
  expires_at = none;
  remaining = pos 0;
}

-- The status of a record before its lease was looked at.
unfoldable pub stored_status : CooldownRecord → Nanos → CooldownStatus
stored_status r started = record {
  active = true;
  node = r.node;
  started_at = instant started;
  expires_at =
      if ltb_ℤ (pos 0) r.duration_sec
      then instant (add_ℤ started (seconds_duration r.duration_sec))
      else none;
  remaining = pos 0;
}

abbrev pub not_negative : Nanos → Nanos
not_negative d = if ltb_ℤ d (pos 0) then pos 0 else d

module _ {S : Type 0} (client : CooldownClient S) where
  abbrev pub time_left : S → CooldownStatus → Option Nanos → CooldownStatus
  time_left s status none = status
  time_left s status (some expires) =
      let remaining = client.until s expires in
      if ltb_ℤ (pos 0) remaining then record status { remaining = remaining } else status

  -- An answer of `TimeToLive`.
  unfoldable pub after_ttl :
      CooldownStatus → S × Result Failure ℤ → S × Result Failure CooldownStatus
  after_ttl status (s, err e) = (s, err (wrap_unless_cancel Context.query_cooldown_ttl e))
  after_ttl status (s, ok ttl) =
      let live = record status { remaining = not_negative (seconds_duration ttl) } in
      (s, ok (if leb_ℤ ttl (pos 0) then inactive else time_left s live live.expires_at))

  unfoldable pub after_time :
      S → CooldownRecord → ℕ → Option Nanos → S × Result Failure CooldownStatus
  unfolding after_ttl stored_status
  after_time s r lease none = (s, err unreadable_time)
  after_time s r lease (some started) =
      let status = stored_status r started in
      let checked = after_ttl status (client.time_to_live s lease) in
      if lease == 0 then (s, ok (time_left s status status.expires_at)) else checked

  unfoldable pub after_payload : S → ℕ → Option CooldownRecord → S × Result Failure CooldownStatus
  unfolding after_time
  after_payload s lease none = (s, err unreadable_payload)
  after_payload s lease (some r) = after_time s r lease (client.parse_time r.started_at)

  unfoldable pub after_get : S × Result Failure (Option Row) → S × Result Failure CooldownStatus
  unfolding after_payload
  after_get (s, err e) = (s, err (wrap_unless_cancel Context.read_cooldown e))
  after_get (s, ok none) = (s, ok inactive)
  after_get (s, ok (some row)) = after_payload s row.lease (client.decode row.value)

  -- `Status`
  unfoldable pub status : Text → S → S × Result Failure CooldownStatus
  unfolding after_get
  status key s = after_get (client.get s key)

  abbrev wrapped : Context → Option Failure → Option Failure
  wrapped c none = none
  wrapped c (some e) = some (wrap_unless_cancel c e)

  unfoldable pub after_put : ℕ → S × Option Failure → S × Option Failure
  after_put lease (s, none) = (s, none)
  after_put lease (s, some e) =
      (client.revoke s lease, some (wrap_unless_cancel Context.store_cooldown e))

  unfoldable pub after_grant : Text → Text → ℕ → S × Result Failure ℕ → S × Option Failure
  unfolding after_put
  after_grant key node seconds (s, err e) = (s, some (wrap_unless_cancel Context.grant_cooldown e))
  after_grant key node seconds (s, ok lease) =
      let r : CooldownRecord = record {
        node = node;
        started_at = client.format_time (client.now s);
        duration_sec = pos seconds;
      } in
      after_put lease (client.put s key (record { value = client.encode r; lease = lease }))

  -- `Start`, of a manager with this key and node. A positive duration has at least one second.
  unfoldable pub start : Text → Text → Nanos → S → S × Option Failure
  unfolding after_grant
  start key node (pos (suc n)) s =
      after_grant key node (ceil_seconds (suc n)) (client.grant s (ceil_seconds (suc n)))
  start key node d s =
      let (s1, failure) = client.delete s key in (s1, wrapped Context.clear_cooldown failure)
