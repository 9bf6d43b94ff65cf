-- ===== src/Etcd/HealthLaws.antt =====
-- What peers read after a report (pkg/clusterhealth/etcd.go).
use clusterrebootd.Prelude.{
  ◌≡◌, refl, sym, ap, ◌∙◌, Bool, true, false, ◌&&◌, ◌⊎◌, inl, inr, bool_eq, Option, none, some,
  List, [], ◌∷◌, ◌++◌, arith, is_nil, any, Result, ok, err, ◌>>=◌, >>=-eq-ok,
}
use clusterrebootd.Text.{Text, text_eq}
use clusterrebootd.Text.Laws.{text_eq_refl}
use clusterrebootd.Orchestrator.Failure.{Failure}
use clusterrebootd.Orchestrator.Types.{Nanos, Record}
use clusterrebootd.Etcd.Health.{
  Payload, HealthClient, HealthManager, new_health_manager, listed_prefix, store_report, record_of,
  read_row, stored, listed, read_rows, health_status,
}
use clusterrebootd.Etcd.HealthKeys.{JoinsPaths, is_clean, starts_with, new_health_manager-listed}

-- A row is among the rows.
abbrev pub Has : Text × Text → List (Text × Text) → Type 0
Has row [] = ⊥
Has row (r ∷ rs) = (row ≡ r) ⊎ Has row rs

-- What the manager relies on: where a list is answered after a value was put at a key that begins
-- with the prefix, the value is in it, and what is encoded or printed is decoded or parsed again.
pub record IsHealthStore {S : Type 0} (client : HealthClient S) : Type 0 where
  pub lists :
      (s : S) (key value prefix : Text) (rows : List (Text × Text))
      → starts_with prefix key ≡ true
      → (client.put s key value).1 ≡ none
      → (client.list (client.put s key value).0 prefix).1 ≡ ok rows
      → Has (key, value) rows
  pub decodes : (p : Payload) → client.decode (client.encode p) ≡ some p
  pub parses : (t : Nanos) → client.parse_time (client.format_time t) ≡ some t

-- The record is of the node, with this state.
abbrev pub is_report : Text → Bool → Text → Text → Record → Bool
is_report node healthy stage reason rec =
    text_eq rec.node node
    && bool_eq rec.healthy healthy
    && text_eq rec.stage stage
    && text_eq rec.reason reason

abbrev ok_and : (Record → Bool) → Result Failure Record → Bool
ok_and test (ok rec) = test rec
ok_and test (err e) = false

abbrev any_in : (Record → Bool) → Result Failure (List Record) → Bool
any_in test (ok recs) = any test recs
any_in test (err e) = false

flag_refl : (b : Bool) → bool_eq b b ≡ true
flag_refl true = refl
flag_refl false = refl

module _ {S : Type 0} (client : HealthClient S) (m : HealthManager) where
  read_rows-Has :
      (test : Record → Bool) (row : Text × Text) (rows : List (Text × Text)) (records : List Record)
      → ok_and test (read_row client m row) ≡ true
      → Has row rows
      → read_rows client m rows ≡ ok records
      → any test records ≡ true
  unfolding read_rows
  read_rows-Has test row [] records h has read = elim has [ ]
  read_rows-Has test row (r ∷ rows) records h has read =
      let (rec, first, then_rest) =
        >>=-eq-ok (read_row client m r) (λ x. read_rows client m rows >>= λ xs. ok (x ∷ xs)) read in
      let (recs, rest, whole) =
        >>=-eq-ok (read_rows client m rows) (λ xs. ok (rec ∷ xs)) then_rest in
      let tests : any test (rec ∷ recs) ≡ true = elim has [
        | inl here ↦
            let passes = sym (ap (ok_and test) (ap (read_row client m) here ∙ first)) ∙ h in
            ground (arith, passes)
        | inr there ↦ ground (arith, read_rows-Has test row rows recs h there rest)
      ] in
      sym (ap (any_in test) whole) ∙ tests

  stored-none :
      (answer : S × Option Failure)
      → (stored client m answer).1 ≡ none
      → (answer.1 ≡ none) × ((stored client m answer).0 ≡ answer.0)
  stored-none (s, none) h = (refl, refl)
  stored-none (s, some e) h = cc

  listed-ok :
      (answer : Result Failure (List (Text × Text))) (records : List Record)
      → listed client m answer ≡ ok records
      → (rows : List (Text × Text)) × (answer ≡ ok rows) × (read_rows client m rows ≡ ok records)
  listed-ok (ok rows) records h = (rows, refl, h)
  listed-ok (err e) records h = cc

  -- The row of a payload of this node is read as a record of it.
  read_row-is_report :
      (laws : IsHealthStore client) (p : Payload) (t : Nanos)
      → is_nil m.node ≡ false
      → p.node ≡ m.node
      → p.reported_at ≡ client.format_time t
      → ok_and
          (is_report m.node p.healthy p.stage p.reason)
          (read_row client m (m.node_path, client.encode p))
        ≡ true
  unfolding read_row record_of
  read_row-is_report laws p t named own timed =
      rw (laws.decodes p, timed, laws.parses t, own, named)
        (ground (
          arith,
          text_eq_refl m.node,
          flag_refl p.healthy,
          text_eq_refl p.stage,
          text_eq_refl p.reason,
        ))

  -- Of a manager that `NewEtcdManager` made, with a prefix that is not empty and a node whose path
  -- `path.Join` does not have to clean: once a report has succeeded, any records that `Status` then
  -- returns have one of this node with the health, the stage and the reason that were reported.
  -- etcd lists what was put under the prefix.
  pub store_report-health_status :
      (join_path : Text → Text → Text) (endpoints : List Text) (prefix namespace name : Text)
      (joins : JoinsPaths join_path) (laws : IsHealthStore client) (healthy : Bool)
      (stage reason : Text) (s : S) (records : List Record)
      → new_health_manager join_path endpoints prefix namespace name ≡ ok m
      → is_nil m.prefix ≡ false
      → is_clean (m.prefix ++ b'/' ∷ m.node) ≡ true
      → (store_report client m healthy stage reason s).1 ≡ none
      → (health_status client m (store_report client m healthy stage reason s).0).1 ≡ ok records
      → any (is_report m.node healthy stage reason) records ≡ true
  unfolding store_report health_status
  store_report-health_status join_path endpoints prefix namespace name joins laws healthy stage
        reason s records made some_prefix clean stored_it read =
      let (named, under) =
        new_health_manager-listed join_path endpoints prefix namespace name m joins made some_prefix
          clean in
      let p : Payload = record {
        node = m.node;
        healthy = healthy;
        stage = stage;
        reason = reason;
        reported_at = client.format_time (client.now s);
      } in
      let answer = client.put s m.node_path (client.encode p) in
      let (put, same) = stored-none answer stored_it in
      let (rows, found, rows_read) =
        listed-ok (client.list answer.0 (listed_prefix m.prefix)).1 records
          (sym (ap (λ s1. (health_status client m s1).1) same) ∙ read) in
      read_rows-Has (is_report m.node healthy stage reason) (m.node_path, client.encode p) rows
        records (read_row-is_report laws p (client.now s) named refl refl)
        (laws.lists s m.node_path (client.encode p) (listed_prefix m.prefix) rows under put found)
        rows_read
