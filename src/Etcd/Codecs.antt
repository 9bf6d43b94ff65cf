-- ===== src/Etcd/Codecs.antt =====
-- Codecs of the records of etcd that are simple functions: texts are printed with a mark at the end
-- of each.
use clusterrebootd.Prelude.{
  zero, suc, ◌≡◌, refl, Bool, true, false, Option, none, some, [], ◌∷◌, ℤ, pos, negsuc,
  if◌then◌else◌, ◌==◌,
}
use clusterrebootd.Text.{Text}
use clusterrebootd.Orchestrator.Types.{Nanos}
use clusterrebootd.Etcd.Cooldown.{CooldownRecord}
use clusterrebootd.Etcd.Health.{Payload}

unfoldable pub print_field : Text → Text → Text
print_field [] rest = zero ∷ rest
print_field (c ∷ cs) rest = suc c ∷ print_field cs rest

unfoldable pub read_field : Text → Text × Text
read_field [] = ([], [])
read_field (zero ∷ rest) = ([], rest)
read_field (suc c ∷ rest) = let (field, after) = read_field rest in (c ∷ field, after)

read-print : (field rest : Text) → read_field (print_field field rest) ≡ (field, rest)
unfolding print_field read_field
read-print [] rest = refl
read-print (c ∷ cs) rest = rw (read-print cs rest) refl

unfoldable pub print_time : Nanos → Text
print_time (pos n) = 0 ∷ n ∷ []
print_time (negsuc n) = 1 ∷ n ∷ []

unfoldable pub read_time : Text → Option Nanos
read_time (zero ∷ n ∷ []) = some (pos n)
read_time (suc zero ∷ n ∷ []) = some (negsuc n)
read_time _ = none

pub read-print_time : (t : Nanos) → read_time (print_time t) ≡ some t
unfolding print_time read_time
read-print_time (pos n) = refl
read-print_time (negsuc n) = refl

unfoldable pub print_record : CooldownRecord → Text
print_record r = print_field r.node (print_field r.started_at (print_time r.duration_sec))

unfoldable pub with_duration : Text → Text → Option ℤ → Option CooldownRecord
with_duration node started none = none
with_duration node started (some d) =
    some (record { node = node; started_at = started; duration_sec = d })

unfoldable pub read_record : Text → Option CooldownRecord
read_record text =
    let (node, after_node) = read_field text in
    let (started, after_started) = read_field after_node in
    with_duration node started (read_time after_started)

pub read-print_record : (r : CooldownRecord) → read_record (print_record r) ≡ some r
unfolding read_record print_record with_duration
read-print_record r =
    rw
      (
        read-print r.node (print_field r.started_at (print_time r.duration_sec)),
        read-print r.started_at (print_time r.duration_sec),
        read-print_time r.duration_sec,
      )
      refl

unfoldable pub print_payload : Payload → Text
print_payload p =
    (if p.healthy then 1 else 0)
    ∷ print_field p.node (print_field p.stage (print_field p.reason p.reported_at))

unfoldable pub read_payload : Text → Option Payload
read_payload [] = none
read_payload (flag ∷ text) =
    let (node, after_node) = read_field text in
    let (stage, after_stage) = read_field after_node in
    let (reason, after_reason) = read_field after_stage in
    some (record {
      node = node;
      healthy = flag == 1;
      stage = stage;
      reason = reason;
      reported_at = after_reason;
    })

flag_read : (b : Bool) → ((if b then 1 else 0) == 1) ≡ b
flag_read true = refl
flag_read false = refl

pub read-print_payload : (p : Payload) → read_payload (print_payload p) ≡ some p
unfolding read_payload print_payload
read-print_payload p =
    rw
      (
        read-print p.node (print_field p.stage (print_field p.reason p.reported_at)),
        read-print p.stage (print_field p.reason p.reported_at),
        read-print p.reason p.reported_at,
        flag_read p.healthy,
      )
      refl
