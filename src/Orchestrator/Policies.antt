-- ===== src/Orchestrator/Policies.antt =====
-- `filterClusterRecords` and `evaluateClusterPolicies` of pkg/orchestrator/runner.go.
use clusterrebootd.Prelude.{
  ℕ, ◌+◌, Bool, true, false, not, ◌&&◌, ◌||◌, Option, none, some, List, [], ◌∷◌, ◌++◌, ltb, ◌==◌,
  if◌then◌else◌, is_nil, any, ℤ, pos, ltb_ℤ,
}
use clusterrebootd.Text.{Text, text_eq, trim_space}
use clusterrebootd.Orchestrator.Types.{
  Record, ClusterPolicies, Fraction, Reason, unhealthy_nodes, below_minimum, below_fraction,
  only_fallback_left,
}

-- The record is passed over: it is the excluded node's, or healthy.
abbrev pub is_passed : Text → Record → Bool
is_passed exclude rec = (not (is_nil exclude) && text_eq rec.node exclude) || rec.healthy

unfoldable pub filter_records : List Record → Text → List Record
filter_records [] exclude = []
filter_records (rec ∷ recs) exclude =
    let rest = filter_records recs exclude in if is_passed exclude rec then rest else rec ∷ rest

abbrev pub has_name : List Text → Text → Bool
has_name names name = any (λ n. text_eq n name) names

-- `fallbackSet`: the trimmed names, blank ones left out.
unfoldable pub fallback_set : List Text → List Text
fallback_set [] = []
fallback_set (node ∷ nodes) =
    let rest = fallback_set nodes in
    if is_nil (trim_space node) then rest else trim_space node ∷ rest

pub record Counts : Type 0 where
  pub healthy : ℕ
  pub total : ℕ
  pub healthy_non_fallback : ℕ

abbrev pub one_if : Bool → ℕ
one_if true = 1
one_if false = 0

-- A node that was not seen before.
unfoldable pub count_node : List Text → Text → Bool → Counts → Counts
count_node fallback node healthy c = record {
  healthy = c.healthy + one_if healthy;
  total = c.total + 1;
  healthy_non_fallback = c.healthy_non_fallback + one_if (healthy && not (has_name fallback node));
}

-- The loop over the records, with `seen` and the three counters.
unfoldable pub count_records : List Text → List Text → Counts → List Record → Counts
count_records fallback seen c [] = c
count_records fallback seen c (rec ∷ recs) =
    let node = trim_space rec.node in
    let skip = is_nil node || has_name seen node in
    count_records fallback (if skip then seen else node ∷ seen)
      (if skip then c else count_node fallback node rec.healthy c) recs

-- The local node is counted first, as healthy, unless its name is blank.
unfoldable pub initial_seen : Text → List Text
initial_seen name = if is_nil (trim_space name) then [] else trim_space name ∷ []

unfoldable pub initial_counts : List Text → Text → Counts
unfolding count_node
initial_counts fallback name =
    let none_yet : Counts = record { healthy = 0; total = 0; healthy_non_fallback = 0 } in
    if is_nil (trim_space name)
    then none_yet
    else count_node fallback (trim_space name) true none_yet

unfoldable pub cluster_counts : List Text → Text → List Record → Counts
cluster_counts fallback name records =
    count_records fallback (initial_seen name) (initial_counts fallback name) records

unhealthy_reason : List Record → List Reason
unhealthy_reason [] = []
unhealthy_reason (r ∷ rs) = unhealthy_nodes (r ∷ rs) ∷ []

absolute_reason : Option ℤ → Counts → List Reason
absolute_reason none c = []
absolute_reason (some minimum) c =
    if ltb_ℤ (pos c.healthy) minimum then below_minimum c.healthy minimum ∷ [] else []

fraction_reason : Option Fraction → Counts → List Reason
fraction_reason none c = []
fraction_reason (some required) c =
    if ltb 0 c.total && ltb_ℤ (pos c.healthy) (required c.total)
    then below_fraction c.healthy (required c.total) c.total ∷ []
    else []

fallback_reason : Bool → List Text → Counts → List Reason
fallback_reason forbid fallback c =
    if forbid && not (is_nil fallback) && ltb 0 c.healthy && c.healthy_non_fallback == 0
    then only_fallback_left ∷ []
    else []

-- The reasons to block; the records in `unhealthy_nodes` are the blockers.
unfoldable pub policy_reasons : Text → ClusterPolicies → List Record → List Reason
unfolding unhealthy_reason absolute_reason fraction_reason fallback_reason
policy_reasons name policies records =
    let fallback = fallback_set policies.fallback_nodes in
    let c = cluster_counts fallback name records in
    unhealthy_reason (filter_records records name)
    ++ (absolute_reason policies.min_healthy_absolute c
        ++ (fraction_reason policies.min_healthy_fraction c
            ++ fallback_reason policies.forbid_if_only_fallback_left fallback c))
