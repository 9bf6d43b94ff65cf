-- ===== src/Orchestrator/ClusterNodes.antt =====
-- The nodes of the cluster, as `evaluateClusterPolicies` of pkg/orchestrator/runner.go counts them,
-- apart from its loop: each name once, the node itself healthy.
use clusterrebootd.Prelude.{
  ℕ, suc, ◌+◌, ◌≡◌, refl, ap, sym, ◌∙◌, Bool, true, not, ◌&&◌, List, [], ◌∷◌, ◌<◌, arith,
  if◌then◌else◌, is_nil, any, length, Bool-cases, inl, inr, ◌↔◌,
}
use clusterrebootd.Text.{Text, text_eq, trim_space, is_blank}
use clusterrebootd.Text.Laws.{text_eq_iff}
use clusterrebootd.Orchestrator.Types.{Record}
use clusterrebootd.Orchestrator.Policies.{
  has_name, fallback_set, Counts, count_node, count_records, initial_seen, initial_counts,
  cluster_counts,
}

-- A name, and whether the node is healthy.
abbrev pub Node : Type 0
Node = Text × Bool

-- The records that name a node.
unfoldable pub reported : List Record → List Node
reported [] = []
reported (rec ∷ recs) =
    if is_blank rec.node then reported recs else (trim_space rec.node, rec.healthy) ∷ reported recs

unfoldable pub others_than : Text → List Node → List Node
others_than name [] = []
others_than name (n ∷ ns) =
    if text_eq name n.0 then others_than name ns else n ∷ others_than name ns

-- Of each name, the first node.
unfoldable pub firsts : List Node → List Node
firsts [] = []
firsts (n ∷ ns) = n ∷ others_than n.0 (firsts ns)

-- The node itself stands first, and is healthy; the others are as they are reported.
unfoldable pub cluster_nodes : Text → List Record → List Node
cluster_nodes name records =
    if is_blank name
    then firsts (reported records)
    else firsts ((trim_space name, true) ∷ reported records)

abbrev pub how_many : (Node → Bool) → List Node → ℕ
how_many test [] = 0
how_many test (n ∷ ns) = if test n then suc (how_many test ns) else how_many test ns

abbrev pub is_healthy : Node → Bool
is_healthy n = n.1

-- The name is in the list of fallback nodes, which may hold blank names.
abbrev pub is_fallback : List Text → Text → Bool
is_fallback nodes name = any (λ f. not (is_blank f) && text_eq (trim_space f) name) nodes

-- Healthy, and no fallback node.
abbrev pub is_mainstay : List Text → Node → Bool
is_mainstay fallback_nodes n = n.1 && not (is_fallback fallback_nodes n.0)

pub has_name-fallback_set :
    (nodes : List Text) (name : Text) → has_name (fallback_set nodes) name ≡ is_fallback nodes name
unfolding fallback_set
has_name-fallback_set [] name = refl
has_name-fallback_set (f ∷ nodes) name = ground (arith, has_name-fallback_set nodes name)

pub is_nil-fallback_set :
    (nodes : List Text) → is_nil (fallback_set nodes) ≡ not (any (λ f. not (is_blank f)) nodes)
unfolding fallback_set
is_nil-fallback_set [] = refl
is_nil-fallback_set (f ∷ nodes) = ground (arith, is_nil-fallback_set nodes)

pub how_many-any :
    (test : Node → Bool) (ns : List Node) → (0 < how_many test ns) ↔ (any test ns ≡ true)
how_many-any test [] = ground arith
how_many-any test (n ∷ ns) = ground (arith, how_many-any test ns)

-- The nodes whose names were not seen.
abbrev unseen : List Text → List Node → List Node
unseen seen [] = []
unseen seen (n ∷ ns) = if has_name seen n.0 then unseen seen ns else n ∷ unseen seen ns

unseen-nil : (ns : List Node) → unseen [] ns ≡ ns
unseen-nil [] = refl
unseen-nil (n ∷ ns) = ap (λ ms. n ∷ ms) (unseen-nil ns)

unseen-cons :
    (name : Text) (seen : List Text) (ns : List Node)
    → unseen (name ∷ seen) ns ≡ unseen seen (others_than name ns)
unfolding others_than
unseen-cons name seen [] = refl
unseen-cons name seen (n ∷ ns) = elim (Bool-cases (text_eq name n.0)) [
  | inl same ↦ rw same (unseen-cons name seen ns)
  | inr other ↦ rw (other, unseen-cons name seen ns)
]

-- A name that was seen is left out in any case.
unseen-others_than :
    (name : Text) (seen : List Text) (ns : List Node)
    → has_name seen name ≡ true
    → unseen seen (others_than name ns) ≡ unseen seen ns
unfolding others_than
unseen-others_than name seen [] h = refl
unseen-others_than name seen (n ∷ ns) h = elim (Bool-cases (text_eq name n.0)) [
  | inl same ↦
      let left_out : has_name seen n.0 ≡ true =
        ap (has_name seen) (sym ((text_eq_iff name n.0).0 same)) ∙ h in
      rw (same, left_out, unseen-others_than name seen ns h)
  | inr other ↦ rw (other, unseen-others_than name seen ns h)
]

-- The counters after some more nodes.
abbrev added : List Text → Counts → List Node → Counts
added fallback c ns = record {
  healthy = c.healthy + how_many is_healthy ns;
  total = c.total + length ns;
  healthy_non_fallback =
      c.healthy_non_fallback + how_many (λ n. n.1 && not (has_name fallback n.0)) ns;
}

added-cons :
    (fallback : List Text) (name : Text) (healthy : Bool) (c : Counts) (ns : List Node)
    → added fallback (count_node fallback name healthy c) ns
      ≡ added fallback c ((name, healthy) ∷ ns)
unfolding count_node
added-cons fallback name healthy c ns = ground arith

count_records-added :
    (fallback seen : List Text) (c : Counts) (records : List Record)
    → count_records fallback seen c records
      ≡ added fallback c (unseen seen (firsts (reported records)))
unfolding count_records firsts reported
count_records-added fallback seen c [] = ground arith
count_records-added fallback seen c (rec ∷ records) = elim (Bool-cases (is_blank rec.node)) [
  | inl blank ↦ rw blank (count_records-added fallback seen c records)
  | inr named ↦
      let name = trim_space rec.node in
      elim (Bool-cases (has_name seen name)) [
        | inl known ↦
            rw (named, known, unseen-others_than name seen (firsts (reported records)) known)
              (count_records-added fallback seen c records)
        | inr new ↦
            rw (named, new)
              (count_records-added fallback (name ∷ seen) (count_node fallback name rec.healthy c)
                  records
                ∙ ap (added fallback (count_node fallback name rec.healthy c))
                    (unseen-cons name seen (firsts (reported records)))
                ∙ added-cons fallback name rec.healthy c
                    (unseen seen (others_than name (firsts (reported records)))))
      ]
]

abbrev no_counts : Counts
no_counts = record { healthy = 0; total = 0; healthy_non_fallback = 0 }

cluster_counts-added :
    (fallback : List Text) (name : Text) (records : List Record)
    → cluster_counts fallback name records ≡ added fallback no_counts (cluster_nodes name records)
unfolding cluster_counts cluster_nodes initial_seen initial_counts firsts
cluster_counts-added fallback name records = elim (Bool-cases (is_blank name)) [
  | inl blank ↦ rw blank (
      count_records-added fallback [] no_counts records
      ∙ ap (added fallback no_counts) (unseen-nil (firsts (reported records))))
  | inr named ↦
      let own = trim_space name in
      let rest = firsts (reported records) in
      rw named (
        count_records-added fallback (own ∷ []) (count_node fallback own true no_counts) records
        ∙ ap (added fallback (count_node fallback own true no_counts))
            (unseen-cons own [] rest ∙ unseen-nil (others_than own rest))
        ∙ added-cons fallback own true no_counts (others_than own rest))
]

how_many-ext :
    (f g : Node → Bool) (ns : List Node) → ((n : Node) → f n ≡ g n) → how_many f ns ≡ how_many g ns
how_many-ext f g [] h = refl
how_many-ext f g (n ∷ ns) h = ground (arith, h n, how_many-ext f g ns h)

-- The three counters count the nodes of the cluster: the healthy ones, all, and the healthy ones that
-- are no fallback nodes.
abbrev pub CountsNodes : List Text → List Node → Counts → Type 0
CountsNodes fallback_nodes ns c =
    (c.healthy ≡ how_many is_healthy ns)
    × (c.total ≡ length ns)
    × (c.healthy_non_fallback ≡ how_many (is_mainstay fallback_nodes) ns)

pub cluster_counts-CountsNodes :
    (fallback_nodes : List Text) (name : Text) (records : List Record)
    → CountsNodes fallback_nodes
        (cluster_nodes name records)
        (cluster_counts (fallback_set fallback_nodes) name records)
cluster_counts-CountsNodes fallback_nodes name records =
    let same = cluster_counts-added (fallback_set fallback_nodes) name records in
    let mainstays =
      how_many-ext (λ n. n.1 && not (has_name (fallback_set fallback_nodes) n.0))
        (is_mainstay fallback_nodes) (cluster_nodes name records)
        (λ n. ap (λ b. n.1 && not b) (has_name-fallback_set fallback_nodes n.0)) in
    rw same (ground arith, ground arith, ground (arith, mainstays))
