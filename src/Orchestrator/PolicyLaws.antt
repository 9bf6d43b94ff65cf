-- ===== src/Orchestrator/PolicyLaws.antt =====
-- What the cluster policies let through.
use clusterrebootd.Prelude.{
  ℕ, ◌≤◌, ◌<◌, ◌≡◌, ◌↔◌, refl, ◌≢◌, Bool, true, false, ◌||◌, ◌⊎◌, inl, inr, some, List, [], ◌∷◌,
  ◌++◌, arith, if◌then◌else◌, is_nil, any, All, ltb_ℤ, ◌↔◌, ℤ, pos, pos_part,
}
use clusterrebootd.Text.{Text, trim_space}
use clusterrebootd.Text.Laws.{text_eq_iff, text_eq_refl}
use clusterrebootd.Orchestrator.Types.{Record, ClusterPolicies, Fraction, Reason, below_fraction}
use clusterrebootd.Orchestrator.Policies.{
  filter_records, has_name, fallback_set, Counts, count_node, count_records, initial_seen,
  initial_counts, cluster_counts, policy_reasons,
}

-- The node's own record, wherever it stands, has no part in the filter.
filter_records-own :
    (before : List Record) (own : Record) (after : List Record) (name : Text)
    → own.node ≡ name
    → is_nil name ≡ false
    → filter_records (before ++ (own ∷ after)) name ≡ filter_records (before ++ after) name
unfolding filter_records
filter_records-own [] own after name e n = rw e (rw (n, text_eq_refl name))
filter_records-own (rec ∷ before) own after name e n =
    ground (arith, filter_records-own before own after name e n)

-- A name that was seen stays seen.
abbrev step_seen : List Text → Text → List Text
step_seen seen node = if is_nil node || has_name seen node then seen else node ∷ seen

step_seen-has :
    (seen : List Text) (node name : Text)
    → has_name seen name ≡ true
    → has_name (step_seen seen node) name ≡ true
step_seen-has seen node name h = ground arith

count_records-own :
    (fallback seen : List Text) (c : Counts) (before : List Record) (own : Record)
    (after : List Record)
    → has_name seen (trim_space own.node) ≡ true
    → count_records fallback seen c (before ++ (own ∷ after))
      ≡ count_records fallback seen c (before ++ after)
unfolding count_records
count_records-own fallback seen c [] own after h = ground arith
count_records-own fallback seen c (rec ∷ before) own after h =
    count_records-own fallback (step_seen seen (trim_space rec.node)) _ before own after
      (step_seen-has seen (trim_space rec.node) (trim_space own.node) h)

initial_seen-has :
    (name : Text)
    → is_nil (trim_space name) ≡ false
    → has_name (initial_seen name) (trim_space name) ≡ true
unfolding initial_seen
initial_seen-has name h = rw h (rw (text_eq_refl (trim_space name)))

-- A record of the node itself, healthy or not and wherever it stands among the others, changes
-- nothing about the decision, where the node's name is not blank.
pub policy_reasons-own :
    (name : Text) (policies : ClusterPolicies) (before : List Record) (own : Record)
    (after : List Record)
    → own.node ≡ name
    → is_nil name ≡ false
    → is_nil (trim_space name) ≡ false
    → policy_reasons name policies (before ++ (own ∷ after))
      ≡ policy_reasons name policies (before ++ after)
unfolding policy_reasons cluster_counts
policy_reasons-own name policies before own after e n t =
    rw (filter_records-own before own after name e n) (
      rw (
        count_records-own (fallback_set policies.fallback_nodes) (initial_seen name)
          (initial_counts (fallback_set policies.fallback_nodes) name) before own after
          (rw e (initial_seen-has name t))))

-- The local name is among those seen, or blank: either way its records are passed over.
abbrev IsKnown : List Text → Text → Type 0
IsKnown seen name = (is_nil (trim_space name) || has_name seen (trim_space name)) ≡ true

step_seen-IsKnown :
    (seen : List Text) (node name : Text) → IsKnown seen name → IsKnown (step_seen seen node) name
step_seen-IsKnown seen node name h = ground arith

filter_records-nil :
    (rec : Record) (records : List Record) (name : Text)
    → filter_records (rec ∷ records) name ≡ []
    → ((rec.healthy ≡ true) ⊎ (rec.node ≡ name)) × (filter_records records name ≡ [])
unfolding filter_records
filter_records-nil rec records name h = ground (arith, text_eq_iff rec.node name)

abbrev step_counts : List Text → List Text → Counts → Record → Counts
step_counts fallback seen c rec =
    if is_nil (trim_space rec.node) || has_name seen (trim_space rec.node)
    then c
    else count_node fallback (trim_space rec.node) rec.healthy c

step_counts-healthy :
    (fallback seen : List Text) (c : Counts) (rec : Record) (name : Text)
    → (rec.healthy ≡ true) ⊎ (rec.node ≡ name)
    → IsKnown seen name
    → c.healthy ≡ c.total
    → (step_counts fallback seen c rec).healthy ≡ (step_counts fallback seen c rec).total
unfolding count_node
step_counts-healthy fallback seen c rec name (inl h) s e = ground arith
step_counts-healthy fallback seen c rec name (inr n) s e = rw n (rw s e)

-- While no unhealthy peer is met, every node that is counted is healthy.
count_records-healthy :
    (fallback seen : List Text) (c : Counts) (records : List Record) (name : Text)
    → filter_records records name ≡ []
    → IsKnown seen name
    → c.healthy ≡ c.total
    → (count_records fallback seen c records).healthy
      ≡ (count_records fallback seen c records).total
unfolding count_records
count_records-healthy fallback seen c [] name f s e = e
count_records-healthy fallback seen c (rec ∷ records) name f s e =
    let (passed, rest) = filter_records-nil rec records name f in
    count_records-healthy fallback (step_seen seen (trim_space rec.node))
      (step_counts fallback seen c rec) records name rest
      (step_seen-IsKnown seen (trim_space rec.node) name s)
      (step_counts-healthy fallback seen c rec name passed s e)

initial_seen-IsKnown : (name : Text) → IsKnown (initial_seen name) name
unfolding initial_seen
initial_seen-IsKnown name = ground (arith, text_eq_refl (trim_space name))

initial_counts-healthy :
    (fallback : List Text) (name : Text)
    → (initial_counts fallback name).healthy ≡ (initial_counts fallback name).total
unfolding initial_counts
initial_counts-healthy fallback name = ground arith

pub cluster_counts-healthy :
    (fallback : List Text) (name : Text) (records : List Record)
    → filter_records records name ≡ []
    → (cluster_counts fallback name records).healthy ≡ (cluster_counts fallback name records).total
unfolding cluster_counts
cluster_counts-healthy fallback name records f =
    count_records-healthy fallback (initial_seen name) (initial_counts fallback name) records name f
      (initial_seen-IsKnown name) (initial_counts-healthy fallback name)

-- A fraction of at most one asks for no more nodes than there are.
abbrev pub IsFraction : Fraction → Type 0
IsFraction required = (n : ℕ) → pos_part (required n) ≤ n

abbrev pub has_fraction_reason : List Reason → Bool
has_fraction_reason = any (λ r. elim r [ below_fraction _ _ _ ↦ true | _ ↦ false ])

-- The fraction policy never blocks on its own: with a fraction of at most one, wherever its reason
-- is given there is an unhealthy peer as well, which blocks already.
pub policy_reasons-fraction :
    (name : Text) (policies : ClusterPolicies) (required : Fraction) (records : List Record)
    → policies.min_healthy_fraction ≡ some required
    → IsFraction required
    → has_fraction_reason (policy_reasons name policies records) ≡ true
    → filter_records records name ≢ []
unfolding policy_reasons
policy_reasons-fraction name policies required records e f r none_unhealthy =
    let fallback = fallback_set policies.fallback_nodes in
    ground (
      arith,
      cluster_counts-healthy fallback name records none_unhealthy,
      f (cluster_counts fallback name records).total,
    )

-- Healthy, or the node's own record.
abbrev pub IsHarmless : Text → Record → Type 0
IsHarmless name rec = (rec.healthy ≡ true) ⊎ ((is_nil name ≡ false) × (rec.node ≡ name))

filter_records_iff :
    (records : List Record) (name : Text)
    → (filter_records records name ≡ []) ↔ All (IsHarmless name) records
unfolding filter_records
filter_records_iff [] name = (λ _. tt, λ _. refl)
filter_records_iff (rec ∷ records) name =
    ground (arith, text_eq_iff rec.node name, filter_records_iff records name)

-- What the policies test, on the counters.
pub record PassesTests (name : Text) (policies : ClusterPolicies) (records : List Record)
    : Type 0 where
  pub peers_healthy : All (IsHarmless name) records
  pub enough :
      (minimum : ℤ)
      → policies.min_healthy_absolute ≡ some minimum
      → ltb_ℤ
          (pos (cluster_counts (fallback_set policies.fallback_nodes) name records).healthy)
          minimum
        ≡ false
  pub enough_of_all :
      (required : Fraction)
      → policies.min_healthy_fraction ≡ some required
      → let c = cluster_counts (fallback_set policies.fallback_nodes) name records in
        0 < c.total → ltb_ℤ (pos c.healthy) (required c.total) ≡ false
  pub other_than_fallback :
      policies.forbid_if_only_fallback_left ≡ true
      → is_nil (fallback_set policies.fallback_nodes) ≡ false
      → let c = cluster_counts (fallback_set policies.fallback_nodes) name records in
        0 < c.healthy → 0 < c.healthy_non_fallback

policy_reasons_sound :
    (name : Text) (policies : ClusterPolicies) (records : List Record)
    → policy_reasons name policies records ≡ []
    → PassesTests name policies records
unfolding policy_reasons
policy_reasons_sound name policies records h = record {
  peers_healthy = (filter_records_iff records name).0 (ground arith);
  enough = λ minimum e. ground arith;
  enough_of_all = λ required e t. ground arith;
  other_than_fallback = λ forbid some_fallback t. ground arith;
}

policy_reasons_complete :
    (name : Text) (policies : ClusterPolicies) (records : List Record)
    → PassesTests name policies records
    → policy_reasons name policies records ≡ []
unfolding policy_reasons
policy_reasons_complete name policies records h = grind (
  arith,
  (filter_records_iff records name).1 h.peers_healthy,
  h.enough,
  h.enough_of_all,
  h.other_than_fallback,
)

pub policy_reasons-PassesTests :
    (name : Text) (policies : ClusterPolicies) (records : List Record)
    → (policy_reasons name policies records ≡ []) ↔ PassesTests name policies records
policy_reasons-PassesTests name policies records =
    (policy_reasons_sound name policies records, policy_reasons_complete name policies records)
