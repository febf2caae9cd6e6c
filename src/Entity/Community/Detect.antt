-- ===== src/Entity/Community/Detect.antt =====
-- entity/community.rs: the sparse graph of the entities, and `detect_communities` on it.
pub mod Whole
use wend_rag.Base.{
  ℕ, zero, suc, ◌+◌, ◌-◌, ◌/◌, ◌%◌, List, [], ◌∷◌, ◌++◌, Option, none, some, Bool, ◌&&◌, ◌==◌, leb,
  ltb, if◌then◌else◌, length, is_empty, get_elem?, any, filter, map, ◌>>=◌,
}
use wend_rag.Base.Float.{Float}
use wend_rag.Base.Text.{Text, codes, text_eq, join}
use wend_rag.Entity.Graph.{EntityEdge}
use wend_rag.Entity.Document.{EntityNode}
use wend_rag.Entity.Community.{
  update_at, replicate, index_of, SparseGraph, CommunityDetectionConfig, louvain_clustering,
}

-- A number in decimal, by divisions of which `n` are enough.
unfoldable pub decimal_from : ℕ → ℕ → Text → Text
decimal_from zero n digits = digits
decimal_from (suc fuel) n digits =
    let rest = decimal_from fuel (n / 10) ((48 + n % 10) ∷ digits) in
    if ltb n 10 then (48 + n) ∷ digits else rest

abbrev pub decimal : ℕ → Text
decimal n = decimal_from (n + 1) n []

unfoldable pub generate_community_name : List Text → Text
generate_community_name [] = codes "Empty Community"
generate_community_name (a ∷ []) = a
generate_community_name (a ∷ b ∷ ids) =
    if leb (length ids) 1
    then join (codes " + ") (a ∷ b ∷ ids)
    else a ++ codes " + " ++ b ++ codes " and " ++ decimal (length ids) ++ codes " others"

-- `node_indices.iter().filter_map(|&idx| entities.get(idx))`
unfoldable pub names_at : List Text → List ℕ → List Text
names_at names [] = []
names_at names (i ∷ is) =
    let rest = names_at names is in
    elim (get_elem? names i) [ none ↦ rest | some name ↦ name ∷ rest ]

module _ (f32 f64 : Float) (widen : f32.F → f64.F) where
  pub record EntityCommunity : Type 0 where
    pub name : Text
    pub entity_ids : List Text
    pub importance : f32.F

  -- The edges of a name that stands among the entities, and the weights.
  pub record Gathered : Type 0 where
    pub adjacency : List (List (ℕ × f32.F))
    pub node_degrees : List f64.F
    pub total_weight : f64.F

  unfoldable pub connect : ℕ → ℕ → f32.F → Gathered → Option Gathered
  connect src tgt weight g = do
    one_way ← update_at src (λ ns. ns ++ (tgt, weight) ∷ []) g.adjacency
    both ← update_at tgt (λ ns. ns ++ (src, weight) ∷ []) one_way
    first ← update_at src (λ d. f64.add d (widen weight)) g.node_degrees
    degrees ← update_at tgt (λ d. f64.add d (widen weight)) first
    some record {
      adjacency = both;
      node_degrees = degrees;
      total_weight = f64.add g.total_weight (f64.mul (f64.of_ℕ 2) (widen weight));
    }

  unfoldable pub connect_found : Option ℕ → Option ℕ → f32.F → Gathered → Option Gathered
  connect_found none t weight g = some g
  connect_found (some src) none weight g = some g
  connect_found (some src) (some tgt) weight g =
      if src == tgt then some g else connect src tgt weight g

  unfoldable pub edge_loop : List Text → List (EntityEdge f32.F) → Gathered → Option Gathered
  edge_loop names [] g = some g
  edge_loop names (e ∷ es) g = do
    next ← connect_found (index_of e.source.0 0 names) (index_of e.target.0 0 names) e.weight g
    edge_loop names es next

  -- `*aggregated.entry(neighbor).or_insert(0.0) += weight`
  unfoldable pub add_neighbor : ℕ → f32.F → List (ℕ × f32.F) → List (ℕ × f32.F)
  add_neighbor i weight [] = (i, f32.add (f32.of_ℕ 0) weight) ∷ []
  add_neighbor i weight (n ∷ ns) =
      let rest = add_neighbor i weight ns in
      if n.0 == i then (n.0, f32.add n.1 weight) ∷ ns else n ∷ rest

  unfoldable pub aggregate : List (ℕ × f32.F) → List (ℕ × f32.F) → List (ℕ × f32.F)
  aggregate [] found = found
  aggregate (n ∷ ns) found = aggregate ns (add_neighbor n.0 n.1 found)

  module _ (order_neighbors : List (ℕ × f32.F) → List (ℕ × f32.F))
      (order : List (ℕ × f64.F) → List (ℕ × f64.F)) where
    unfoldable pub deduplicate : List (ℕ × f32.F) → List (ℕ × f32.F)
    deduplicate ns = if ltb 1 (length ns) then order_neighbors (aggregate ns []) else ns

    unfoldable pub build_sparse_graph :
        List Text → List (EntityEdge f32.F) → Option (SparseGraph f32 f64 widen)
    build_sparse_graph names relationships = do
      g ← edge_loop names relationships record {
        adjacency = replicate (length names) [];
        node_degrees = replicate (length names) (f64.of_ℕ 0);
        total_weight = f64.of_ℕ 0;
      }
      some record {
        adjacency = map deduplicate g.adjacency;
        total_weight = g.total_weight;
        node_degrees = g.node_degrees;
      }

    unfoldable pub weight_within : List Text → List (EntityEdge f32.F) → f32.F → f32.F
    weight_within ids [] sum = sum
    weight_within ids (e ∷ es) sum =
        let next =
          if any (text_eq e.source.0) ids && any (text_eq e.target.0) ids
          then f32.add sum e.weight
          else sum in
        weight_within ids es next

    -- `max(1.0)` and `min(10.0)` of `f32`
    unfoldable pub calculate_community_importance : List Text → List (EntityEdge f32.F) → f32.F
    calculate_community_importance ids relationships =
        let count = f32.of_ℕ (length ids) in
        let internal = weight_within ids relationships (f32.of_ℕ 0) in
        let density = f32.div internal (if f32.le (f32.of_ℕ 1) count then count else f32.of_ℕ 1) in
        let importance = f32.mul (f32.sqrt count) density in
        if is_empty ids
        then f32.of_ℕ 0
        else if f32.le importance (f32.of_ℕ 10)
        then importance
        else f32.of_ℕ 10

    unfoldable pub community_of : List Text → List (EntityEdge f32.F) → List ℕ → EntityCommunity
    community_of names relationships indices =
        let ids = names_at names indices in
        record {
          name = generate_community_name ids;
          entity_ids = ids;
          importance = calculate_community_importance ids relationships;
        }

    unfoldable pub detect_communities :
        List (EntityNode f32.F)
        → List (EntityEdge f32.F)
        → CommunityDetectionConfig f32 f64 widen
        → Option (List EntityCommunity)
    detect_communities entities relationships config =
        let names = map (λ e. e.normalized_name) entities in
        if is_empty entities
        then some []
        else (build_sparse_graph names relationships >>= λ graph.
            louvain_clustering f32 f64 widen order graph config >>= λ groups.
            some (map (community_of names relationships) groups))
