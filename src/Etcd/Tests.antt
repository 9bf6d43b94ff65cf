-- ===== src/Etcd/Tests.antt =====
-- The managers that use etcd, with clients that are simple functions.
use clusterrebootd.Prelude.{
  Result, ap, subst, inl, any, err, List, ◌≡◌, refl, Bool, true, false, Option, none, some, [], ◌∷◌,
  ◌++◌, pos, ok, OnOk, if◌then◌else◌, ◌==◌, length, arith,
}
use clusterrebootd.Text.{Text, codes, text_eq, split, trim_space}
use clusterrebootd.Orchestrator.Types.{Record}
use clusterrebootd.Orchestrator.Failure.{Failure, other, is_not_acquired}
use clusterrebootd.Etcd.Lock.{
  locked, try_failed, LockTrace, session_opened, lock_tried, annotated, LockClient, after_session,
  after_try, after_annotation, acquire,
}
use clusterrebootd.Etcd.LockLaws.{
  Settled, IsForeign, is_contended, met_holder, acquire-Settled, acquire-contended,
}
use clusterrebootd.Etcd.Cooldown.{Row, CooldownClient, status, start, after_grant, after_put}
use clusterrebootd.Etcd.CooldownLaws.{IsSane, status-IsSane}
use clusterrebootd.Etcd.Codecs.{
  print_field, read_field, print_time, read_time, print_record, read_record, print_payload,
  read_payload, read-print_time, read-print_record, read-print_payload,
}
use clusterrebootd.Etcd.Health.{
  HealthClient, HealthManager, new_health_manager, listed_prefix, store_report, health_status,
  read_rows, read_row, record_of,
}
use clusterrebootd.Etcd.Keys.{apply_namespace, trim_left_slashes, trim_right_slashes}
use clusterrebootd.Etcd.HealthKeys.{is_clean, starts_with}
use clusterrebootd.Etcd.HealthLaws.{Has, IsHealthStore, is_report, store_report-health_status}
use clusterrebootd.Etcd.CooldownRoundTrip.{IsStore, EndsSince, start-status}

-- The lock is free at first; later it is held by another.
abbrev first_free : LockClient
first_free = record {
  new_session = λ t. none;
  try_lock = λ t. if 3 == length t then some locked else none;
  annotate = λ t. none;
  unlock = λ t. none;
  close = λ t. some (other 1);
}

acquire-Settled_example : Settled [] (acquire first_free [])
acquire-Settled_example = acquire-Settled first_free [] refl

abbrev after_acquire : LockTrace
after_acquire = annotated none ∷ lock_tried none ∷ session_opened none ∷ []

first_acquired : acquire first_free [] ≡ (ok tt, after_acquire)
unfolding acquire after_session after_try after_annotation
first_acquired = refl

locked_or_free :
    (b : Bool) (e : Failure)
    → (if b then some locked else none) ≡ some (try_failed e)
    → is_not_acquired e ≡ false
locked_or_free true e h = cc
locked_or_free false e h = cc

first_free-IsForeign : IsForeign first_free
first_free-IsForeign = record {
  new_session = λ t e h. cc;
  try_lock = λ t e h. locked_or_free (3 == length t) e h;
  annotate = λ t e h. cc;
}

acquire-contended_example :
    is_contended (acquire first_free []).0 ≡ met_holder (acquire first_free []).1
acquire-contended_example = acquire-contended first_free first_free-IsForeign []

-- An etcd with one key.
abbrev one_key : CooldownClient (Option Row)
one_key = record {
  get = λ s key. (s, ok s);
  delete = λ s key. (none, none);
  grant = λ s seconds. (s, ok 7);
  put = λ s key row. (some row, none);
  revoke = λ s lease. s;
  time_to_live = λ s lease. (s, ok (pos 60));
  now = λ s. pos 1000;
  until = λ s t. pos 59;
  encode = print_record;
  decode = read_record;
  format_time = print_time;
  parse_time = read_time;
}

one_key-IsStore : IsStore one_key
one_key-IsStore = record {
  reads_back = λ s key row e. refl;
  lives = λ s key row e numbered. (59, refl);
  numbered = λ s seconds lease e. ground (arith, e);
  decodes = read-print_record;
  parses = read-print_time;
}

one_key_started : (start one_key (codes "/c") (codes "a") (pos 60000000000) none).1 ≡ none
unfolding start after_grant after_put
one_key_started = refl

start-status_example :
    EndsSince one_key (codes "a") (pos 1000) (
      status one_key (codes "/c") (start one_key (codes "/c") (codes "a") (pos 60000000000) none).0)
start-status_example =
    start-status one_key one_key-IsStore (codes "/c") (codes "a") 59999999999 none one_key_started

status-IsSane_example : OnOk IsSane (status one_key (codes "/c") none).1
status-IsSane_example = status-IsSane one_key (codes "/c") none

-- The rows with the prefix.
abbrev under : Text → List (Text × Text) → List (Text × Text)
under prefix [] = []
under prefix (row ∷ rows) =
    let rest = under prefix rows in if starts_with prefix row.0 then row ∷ rest else rest

-- An etcd with the key of one node.
abbrev node_client : HealthClient (List (Text × Text))
node_client = record {
  put = λ s key value. ((key, value) ∷ [], none);
  list = λ s prefix. (s, ok (under prefix s));
  now = λ s. pos 1000;
  encode = print_payload;
  decode = read_payload;
  format_time = print_time;
  parse_time = read_time;
}

abbrev node_manager : HealthManager
node_manager = record { prefix = codes "/h"; node = codes "a"; node_path = codes "/h/a" }

-- Joined as they are.
abbrev join_plain : Text → Text → Text
join_plain a b = a ++ b'/' ∷ b

listed_lem :
    (row : Text × Text) (prefix : Text) (rows : List (Text × Text))
    → starts_with prefix row.0 ≡ true
    → ◌≡◌ {A = Result Failure (List (Text × Text))} (ok (under prefix (row ∷ []))) (ok rows)
    → Has row rows
listed_lem row prefix rows h e =
    subst (Has row) (ap (λ x. elim x [ ok r ↦ r | err e ↦ [] ]) e) (rw h (inl refl))

node_client-IsHealthStore : IsHealthStore node_client
node_client-IsHealthStore = record {
  lists = λ s key value prefix rows h put found. listed_lem (key, value) prefix rows h found;
  decodes = read-print_payload;
  parses = read-print_time;
}

node_made :
    new_health_manager join_plain (codes "e" ∷ []) (codes "h") [] (codes "a") ≡ ok node_manager
unfolding new_health_manager apply_namespace trim_left_slashes trim_right_slashes trim_space
node_made = refl

node_clean : is_clean (codes "/h/a") ≡ true
unfolding is_clean split text_eq
node_clean = refl

abbrev node_records : List Record
node_records =
    record {
      node = codes "a";
      healthy = false;
      stage = codes "monitor";
      reason = codes "exit 1";
      reported_at = some (pos 1000);
    }
    ∷ []

report_stored :
    (store_report node_client node_manager false (codes "monitor") (codes "exit 1") []).1 ≡ none
unfolding store_report
report_stored = refl

report_read :
    (health_status node_client node_manager
      (store_report node_client node_manager false (codes "monitor") (codes "exit 1") []).0).1
    ≡ ok node_records
unfolding store_report health_status listed_prefix starts_with read_rows read_row record_of
    print_payload read_payload print_field read_field print_time read_time
report_read = refl

store_report-health_status_example :
    any (is_report (codes "a") false (codes "monitor") (codes "exit 1")) node_records ≡ true
store_report-health_status_example =
    store_report-health_status node_client node_manager join_plain (codes "e" ∷ []) (codes "h") []
      (codes "a") (λ a b some_prefix clean. refl) node_client-IsHealthStore false (codes "monitor")
      (codes "exit 1") [] node_records node_made refl node_clean report_stored report_read
