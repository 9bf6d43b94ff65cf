-- ===== src/Orchestrator/Permission.antt =====
-- What the cluster policies let through, in terms of the nodes of the cluster.
use clusterrebootd.Prelude.{
  ℕ, ◌≤◌, ◌<◌, ◌≡◌, sym, ap, subst, ◌∙◌, ◌↔◌, true, false, not, some, List, [], All, any, length, ℤ,
  pos, negsuc, pos_part, ltb_ℤ, arith,
}
use clusterrebootd.Text.{Text, is_blank}
use clusterrebootd.Orchestrator.Types.{Record, ClusterPolicies, Fraction}
use clusterrebootd.Orchestrator.Policies.{fallback_set, cluster_counts, policy_reasons}
use clusterrebootd.Orchestrator.PolicyLaws.{IsHarmless, PassesTests, policy_reasons-PassesTests}
use clusterrebootd.Orchestrator.ClusterNodes.{
  Node, cluster_nodes, how_many, is_healthy, is_mainstay, how_many-any, is_nil-fallback_set,
  CountsNodes, cluster_counts-CountsNodes,
}

-- What the policies ask for, of the nodes of the cluster.
pub record IsPermitted (name : Text) (policies : ClusterPolicies) (records : List Record)
    : Type 0 where
  -- every record is of a healthy node or of the node itself
  pub peers_healthy : All (IsHarmless name) records
  -- the healthy nodes reach the least number
  pub enough :
      (minimum : ℤ)
      → policies.min_healthy_absolute ≡ some minimum
      → pos_part minimum ≤ how_many is_healthy (cluster_nodes name records)
  -- they reach the fraction of all nodes, where there are any
  pub enough_of_all :
      (required : Fraction)
      → policies.min_healthy_fraction ≡ some required
      → 0 < length (cluster_nodes name records)
      → pos_part (required (length (cluster_nodes name records)))
        ≤ how_many is_healthy (cluster_nodes name records)
  -- where that is asked for and a fallback node is named, a healthy node besides the fallback nodes
  -- is left, if any healthy node is
  pub other_than_fallback :
      policies.forbid_if_only_fallback_left ≡ true
      → any (λ f. not (is_blank f)) policies.fallback_nodes ≡ true
      → any is_healthy (cluster_nodes name records) ≡ true
      → any (is_mainstay policies.fallback_nodes) (cluster_nodes name records) ≡ true

reaches_iff : (n : ℕ) (z : ℤ) → (ltb_ℤ (pos n) z ≡ false) ↔ (pos_part z ≤ n)
reaches_iff n (pos m) = ground arith
reaches_iff n (negsuc m) = ground arith

module _ (name : Text) (policies : ClusterPolicies) (records : List Record) where
  abbrev nodes : List Node
  nodes = cluster_nodes name records

  counted :
      CountsNodes policies.fallback_nodes nodes
        (cluster_counts (fallback_set policies.fallback_nodes) name records)
  counted = cluster_counts-CountsNodes policies.fallback_nodes name records

  IsPermitted-of : PassesTests name policies records → IsPermitted name policies records
  IsPermitted-of h =
      let c = cluster_counts (fallback_set policies.fallback_nodes) name records in
      let (healthy, total, mainstays) = counted in
      record {
        peers_healthy = h.peers_healthy;
        enough = λ minimum e.
            subst (λ n. pos_part minimum ≤ n) healthy
              ((reaches_iff c.healthy minimum).0 (h.enough minimum e));
        enough_of_all = λ required e some_node.
            subst (λ n. pos_part (required (length nodes)) ≤ n) healthy
              (subst (λ n. pos_part (required n) ≤ c.healthy) total
                ((reaches_iff c.healthy (required c.total)).0
                  (h.enough_of_all required e (subst (λ n. 0 < n) (sym total) some_node))));
        other_than_fallback = λ forbid named some_healthy.
            (how_many-any (is_mainstay policies.fallback_nodes) nodes).0 (
              subst (λ n. 0 < n) mainstays
                (h.other_than_fallback forbid
                  (is_nil-fallback_set policies.fallback_nodes ∙ ap not named)
                  (subst (λ n. 0 < n) (sym healthy)
                    ((how_many-any is_healthy nodes).1 some_healthy))));
      }

  IsPermitted-tests : IsPermitted name policies records → PassesTests name policies records
  IsPermitted-tests h =
      let c = cluster_counts (fallback_set policies.fallback_nodes) name records in
      let (healthy, total, mainstays) = counted in
      record {
        peers_healthy = h.peers_healthy;
        enough = λ minimum e.
            (reaches_iff c.healthy minimum).1
              (subst (λ n. pos_part minimum ≤ n) (sym healthy) (h.enough minimum e));
        enough_of_all = λ required e some_node. (reaches_iff c.healthy (required c.total)).1 (
            subst (λ n. pos_part (required n) ≤ c.healthy) (sym total)
              (subst (λ n. pos_part (required (length nodes)) ≤ n) (sym healthy)
                (h.enough_of_all required e (subst (λ n. 0 < n) total some_node))));
        other_than_fallback = λ forbid named some_healthy.
            subst (λ n. 0 < n) (sym mainstays)
              ((how_many-any (is_mainstay policies.fallback_nodes) nodes).1 (
                h.other_than_fallback forbid
                  (ground (arith, named, is_nil-fallback_set policies.fallback_nodes))
                  ((how_many-any is_healthy nodes).0 (subst (λ n. 0 < n) healthy some_healthy))));
      }

  -- No reason is given exactly if the reboot is permitted: every record that is not the node's own is
  -- of a healthy node; of the nodes of the cluster, each name taken once and the node itself as
  -- healthy, the healthy ones are enough by number and by fraction; and where that is asked for, a
  -- fallback node is named and some healthy node is left, one is left that is no fallback node.
  pub policy_reasons-IsPermitted :
      (policy_reasons name policies records ≡ []) ↔ IsPermitted name policies records
  policy_reasons-IsPermitted =
      let (sound, complete) = policy_reasons-PassesTests name policies records in
      ((λ h. IsPermitted-of (sound h)), λ h. complete (IsPermitted-tests h))
