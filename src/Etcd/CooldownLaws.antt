-- ===== src/Etcd/CooldownLaws.antt =====
-- What `Status` of pkg/cooldown/etcd.go can return.
use clusterrebootd.Prelude.{
  ℕ, ◌≡◌, refl, true, false, ◌⊎◌, inl, inr, Option, none, some, arith, ◌==◌, ℤ, pos, negsuc, ltb_ℤ,
  leb_ℤ, Result, ok, err, OnOk, choose,
}
use clusterrebootd.Text.{Text}
use clusterrebootd.Config.Derived.{seconds_duration}
use clusterrebootd.Orchestrator.Failure.{Failure}
use clusterrebootd.Orchestrator.Types.{Nanos, CooldownStatus}
use clusterrebootd.Etcd.Cooldown.{
  CooldownRecord, Row, CooldownClient, inactive, stored_status, after_ttl, after_time,
  after_payload, after_get, status, time_left, not_negative,
}

-- A status that is clean where there is no cooldown, and never has a negative time left.
abbrev pub IsSane : CooldownStatus → Type 0
IsSane st = (ltb_ℤ st.remaining (pos 0) ≡ false) × ((st.active ≡ true) ⊎ (st ≡ inactive))

-- An active status with a time left that is not negative.
abbrev IsLive : CooldownStatus → Type 0
IsLive st = (ltb_ℤ st.remaining (pos 0) ≡ false) × (st.active ≡ true)

live-IsSane : (st : CooldownStatus) → IsLive st → IsSane st
live-IsSane st h = (h.0, inl h.1)

not_both_signs : (d : Nanos) → ltb_ℤ (pos 0) d ≡ true → ltb_ℤ d (pos 0) ≡ false
not_both_signs (pos n) h = ground (arith, h)
not_both_signs (negsuc n) h = ground (arith, h)

not_negative_lem : (d : Nanos) → ltb_ℤ (not_negative d) (pos 0) ≡ false
not_negative_lem (pos n) = ground arith
not_negative_lem (negsuc n) = ground arith

module _ {S : Type 0} (client : CooldownClient S) where
  time_left-IsLive :
      (s : S) (st : CooldownStatus) (expires : Option Nanos)
      → IsLive st
      → IsLive (time_left client s st expires)
  time_left-IsLive s st none h = h
  time_left-IsLive s st (some expires) h =
      let remaining = client.until s expires in
      choose IsLive (ltb_ℤ (pos 0) remaining) (record st { remaining = remaining }) st
        (λ positive. (not_both_signs remaining positive, h.1)) h

  after_ttl-IsSane :
      (st : CooldownStatus) (answer : S × Result Failure ℤ)
      → st.active ≡ true
      → OnOk IsSane (after_ttl client st answer).1
  unfolding after_ttl
  after_ttl-IsSane st (s, err e) h = tt
  after_ttl-IsSane st (s, ok ttl) h =
      let live = record st { remaining = not_negative (seconds_duration ttl) } in
      choose IsSane (leb_ℤ ttl (pos 0)) inactive (time_left client s live live.expires_at)
        (λ expired. (refl, inr refl))
        (live-IsSane _
          (time_left-IsLive s live live.expires_at (not_negative_lem (seconds_duration ttl), h)))

  after_time-IsSane :
      (s : S) (r : CooldownRecord) (lease : ℕ) (started : Option Nanos)
      → OnOk IsSane (after_time client s r lease started).1
  unfolding after_time stored_status
  after_time-IsSane s r lease none = tt
  after_time-IsSane s r lease (some started) =
      let st = stored_status r started in
      choose (λ (answer : S × Result Failure CooldownStatus). OnOk IsSane answer.1) (lease == 0) _ _
        (λ no_lease. live-IsSane _ (time_left-IsLive s st st.expires_at (refl, refl)))
        (after_ttl-IsSane st (client.time_to_live s lease) refl)

  after_payload-IsSane :
      (s : S) (lease : ℕ) (r : Option CooldownRecord)
      → OnOk IsSane (after_payload client s lease r).1
  unfolding after_payload
  after_payload-IsSane s lease none = tt
  after_payload-IsSane s lease (some r) =
      after_time-IsSane s r lease (client.parse_time r.started_at)

  after_get-IsSane :
      (answer : S × Result Failure (Option Row)) → OnOk IsSane (after_get client answer).1
  unfolding after_get
  after_get-IsSane (s, err e) = tt
  after_get-IsSane (s, ok none) = (refl, inr refl)
  after_get-IsSane (s, ok (some row)) = after_payload-IsSane s row.lease (client.decode row.value)

  -- Whatever is stored and whatever the client answers, a status that `Status` returns has no negative
  -- time left, and is active or the empty status.
  pub status-IsSane : (key : Text) (s : S) → OnOk IsSane (status client key s).1
  unfolding status
  status-IsSane key s = after_get-IsSane (client.get s key)
