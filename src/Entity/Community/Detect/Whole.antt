-- ===== src/Entity/Community/Detect/Whole.antt =====
-- `detect_communities` of entity/community.rs from the entities to the communities.
use wend_rag.Base.{
  ℕ, zero, suc, ◌+◌, ◌<◌, List, [], ◌∷◌, ◌++◌, Option, none, some, ◌==◌, ltb, map, if◌then◌else◌,
  length, length-map, All, All-append, ◌≡◌, refl, sym, ◌∙◌, subst, arith, Bool-cases, inl, inr,
}
use wend_rag.Base.Float.{Float}
use wend_rag.Base.Text.{Text, text_eq}
use wend_rag.Entity.Graph.{EntityEdge}
use wend_rag.Entity.Document.{EntityNode}
use wend_rag.Entity.Community.{replicate, index_of, SparseGraph, CommunityDetectionConfig}
use wend_rag.Entity.Community.Sizes.{
  get_elem?-some, get_elem?-All, update_at-IsUpdated, All-IsUpdated,
}
use wend_rag.Entity.Community.Moves.{IsGraph}
use wend_rag.Entity.Community.Partition.{IsPartition, louvain_clustering-IsPartition}
use wend_rag.Entity.Community.Detect.{
  Gathered, connect, connect_found, edge_loop, add_neighbor, aggregate, deduplicate,
  build_sparse_graph, community_of, detect_communities,
}

-- An index that is found lies in the list.
abbrev IsBelow : ℕ → Option ℕ → Type 0
IsBelow n none = Unit
IsBelow n (some i) = i < n

index_of-IsBelow :
    (name : Text) (i : ℕ) (ns : List Text) → IsBelow (i + length ns) (index_of name i ns)
unfolding index_of
index_of-IsBelow name i [] = tt
index_of-IsBelow name i (n ∷ ns) =
    from (index_of name (i + 1) ns) (index_of-IsBelow name (i + 1) ns)
  where
    from :
        (o : Option ℕ)
        → IsBelow (i + 1 + length ns) o
        → IsBelow
            (i + length (n ∷ ns))
            (elim o [ some j ↦ some j | none ↦ if text_eq n name then some i else none ])
    from (some j) h = omega (arith, h)
    from none h = elim (Bool-cases (text_eq n name)) [
      | inl q ↦ rw q (omega arith)
      | inr q ↦ rw q tt
    ]

replicate-All : {A : Type 0} (P : A → Type 0) (n : ℕ) (a : A) → P a → All P (replicate n a)
unfolding replicate
replicate-All P zero a h = tt
replicate-All P (suc n) a h = (h, replicate-All P n a h)

length-replicate : {A : Type 0} (n : ℕ) (a : A) → length (replicate n a) ≡ n
unfolding replicate
length-replicate zero a = refl
length-replicate (suc n) a = omega (arith, length-replicate n a)

module _ (f32 f64 : Float) (widen : f32.F → f64.F) where
  abbrev IsGathered : ℕ → Gathered f32 f64 widen → Type 0
  IsGathered n g =
      (length g.adjacency ≡ n) × (length g.node_degrees ≡ n) × All (All (λ e. e.0 < n)) g.adjacency

  abbrev Gathers : ℕ → Option (Gathered f32 f64 widen) → Type 0
  Gathers n o = (g : Gathered f32 f64 widen) × (o ≡ some g) × IsGathered n g

  connect-Gathers :
      (n src tgt : ℕ) (weight : f32.F) (g : Gathered f32 f64 widen)
      → src < n
      → tgt < n
      → IsGathered n g
      → Gathers n (connect f32 f64 widen src tgt weight g)
  unfolding connect
  connect-Gathers n src tgt weight g s t h =
      let low : List (ℕ × f32.F) → Type 0 = All (λ e. e.0 < n) in
      let (a1, is_a1) = get_elem?-some g.adjacency src (omega (arith, s, h.0)) in
      let (one_way, is_one, u1) =
        update_at-IsUpdated src (λ ns. ns ++ (tgt, weight) ∷ []) g.adjacency a1 is_a1 in
      let low1 =
        All-append (λ e. e.0 < n) a1 ((tgt, weight) ∷ [])
          (get_elem?-All low g.adjacency src h.2 is_a1) (t, tt) in
      let all1 = All-IsUpdated low src (a1 ++ (tgt, weight) ∷ []) g.adjacency one_way low1 h.2 u1 in
      let (a2, is_a2) = get_elem?-some one_way tgt (omega (arith, t, h.0, u1.0)) in
      let (both, is_both, u2) =
        update_at-IsUpdated tgt (λ ns. ns ++ (src, weight) ∷ []) one_way a2 is_a2 in
      let low2 =
        All-append (λ e. e.0 < n) a2 ((src, weight) ∷ []) (get_elem?-All low one_way tgt all1 is_a2)
          (s, tt) in
      let all2 = All-IsUpdated low tgt (a2 ++ (src, weight) ∷ []) one_way both low2 all1 u2 in
      let (d1, is_d1) = get_elem?-some g.node_degrees src (omega (arith, s, h.1)) in
      let (first, is_first, v1) =
        update_at-IsUpdated src (λ d. f64.add d (widen weight)) g.node_degrees d1 is_d1 in
      let (d2, is_d2) = get_elem?-some first tgt (omega (arith, t, h.1, v1.0)) in
      let (degrees, is_degrees, v2) =
        update_at-IsUpdated tgt (λ d. f64.add d (widen weight)) first d2 is_d2 in
      (
        record {
          adjacency = both;
          node_degrees = degrees;
          total_weight = f64.add g.total_weight (f64.mul (f64.of_ℕ 2) (widen weight));
        },
        rw (is_one, is_both, is_first, is_degrees) refl,
        (omega (arith, h.0, u1.0, u2.0), omega (arith, h.1, v1.0, v2.0), all2),
      )

  connect_found-Gathers :
      (n : ℕ) (s t : Option ℕ) (weight : f32.F) (g : Gathered f32 f64 widen)
      → IsBelow n s
      → IsBelow n t
      → IsGathered n g
      → Gathers n (connect_found f32 f64 widen s t weight g)
  unfolding connect_found
  connect_found-Gathers n none t weight g a b h = (g, refl, h)
  connect_found-Gathers n (some s) none weight g a b h = (g, refl, h)
  connect_found-Gathers n (some s) (some t) weight g a b h = elim (Bool-cases (s == t)) [
    | inl q ↦ (g, rw q refl, h)
    | inr q ↦ let (next, e, ok) = connect-Gathers n s t weight g a b h in (next, rw q e, ok)
  ]

  edge_loop-Gathers :
      (names : List Text) (es : List (EntityEdge f32.F)) (g : Gathered f32 f64 widen)
      → IsGathered (length names) g
      → Gathers (length names) (edge_loop f32 f64 widen names es g)
  unfolding edge_loop
  edge_loop-Gathers names [] g h = (g, refl, h)
  edge_loop-Gathers names (e ∷ es) g h =
      let (next, is_next, ok) =
        connect_found-Gathers (length names) (index_of e.source.0 0 names)
          (index_of e.target.0 0 names) e.weight g (below e.source.0) (below e.target.0) h in
      let (last, is_last, still) = edge_loop-Gathers names es next ok in
      (last, rw is_next is_last, still)
    where
      below : (name : Text) → IsBelow (length names) (index_of name 0 names)
      below name =
          let zero_left : 0 + length names ≡ length names = omega arith in
          subst (λ n. IsBelow n (index_of name 0 names)) zero_left (index_of-IsBelow name 0 names)

  add_neighbor-below :
      (n i : ℕ) (weight : f32.F) (ns : List (ℕ × f32.F))
      → i < n
      → All (λ e. e.0 < n) ns
      → All (λ e. e.0 < n) (add_neighbor f32 f64 widen i weight ns)
  unfolding add_neighbor
  add_neighbor-below n i weight [] k h = (k, tt)
  add_neighbor-below n i weight (e ∷ ns) k h =
      let rest = add_neighbor-below n i weight ns k h.1 in
      elim (Bool-cases (e.0 == i)) [ inl q ↦ rw q (h.0, h.1) | inr q ↦ rw q (h.0, rest) ]

  aggregate-below :
      (n : ℕ) (ns found : List (ℕ × f32.F))
      → All (λ e. e.0 < n) ns
      → All (λ e. e.0 < n) found
      → All (λ e. e.0 < n) (aggregate f32 f64 widen ns found)
  unfolding aggregate
  aggregate-below n [] found h k = k
  aggregate-below n (e ∷ ns) found h k =
      aggregate-below n ns (add_neighbor f32 f64 widen e.0 e.1 found) h.1
        (add_neighbor-below n e.0 e.1 found h.0 k)

  module _ (order_neighbors : List (ℕ × f32.F) → List (ℕ × f32.F))
      (order : List (ℕ × f64.F) → List (ℕ × f64.F))
      (neighbors_keep : (P : ℕ × f32.F → Type 0) (es : List (ℕ × f32.F))
        → All P es
        → All P (order_neighbors es))
      (order_keeps : (P : ℕ × f64.F → Type 0) (es : List (ℕ × f64.F))
        → All P es
        → All P (order es)) where
    deduplicate-below :
        (n : ℕ) (ns : List (ℕ × f32.F))
        → All (λ e. e.0 < n) ns
        → All (λ e. e.0 < n) (deduplicate f32 f64 widen order_neighbors order ns)
    unfolding deduplicate
    deduplicate-below n ns h =
        let less =
          neighbors_keep (λ e. e.0 < n) (aggregate f32 f64 widen ns [])
            (aggregate-below n ns [] h tt) in
        elim (Bool-cases (ltb 1 (length ns))) [ inl q ↦ rw q less | inr q ↦ rw q h ]

    build_sparse_graph-IsGraph :
        (names : List Text) (es : List (EntityEdge f32.F))
        → (graph : SparseGraph f32 f64 widen) × (build_sparse_graph f32 f64 widen order_neighbors
              order names es
            ≡ some graph)
          × IsGraph f32 f64 widen (length names) graph
    unfolding build_sparse_graph
    build_sparse_graph-IsGraph names es =
        let n = length names in
        let (g, is_g, ok) =
          edge_loop-Gathers names es
            (record {
              adjacency = replicate n [];
              node_degrees = replicate n (f64.of_ℕ 0);
              total_weight = f64.of_ℕ 0;
            })
            (
              length-replicate n [],
              length-replicate n (f64.of_ℕ 0),
              replicate-All (All (λ e. e.0 < n)) n [] tt,
            ) in
        (
          record {
            adjacency = map (deduplicate f32 f64 widen order_neighbors order) g.adjacency;
            total_weight = g.total_weight;
            node_degrees = g.node_degrees;
          },
          rw is_g refl,
          (
            length-map (deduplicate f32 f64 widen order_neighbors order) g.adjacency ∙ ok.0,
            ok.1,
            map-below n g.adjacency ok.2,
          ),
        )
      where
        map-below :
            (n : ℕ) (ls : List (List (ℕ × f32.F)))
            → All (All (λ e. e.0 < n)) ls
            → All (All (λ e. e.0 < n)) (map (deduplicate f32 f64 widen order_neighbors order) ls)
        map-below n [] h = tt
        map-below n (l ∷ ls) h = (deduplicate-below n l h.0, map-below n ls h.1)

    -- The detection returns for any entities and relationships: no index is out of bounds and no size
    -- falls below zero. It returns one community for each part of a partition of the entities' places
    -- into parts that are not empty, whatever the rounding, the limits and the order in which the hash
    -- maps are read, and none where there are no entities.
    pub detect_communities-IsPartition :
        (entities : List (EntityNode f32.F)) (relationships : List (EntityEdge f32.F))
        (config : CommunityDetectionConfig f32 f64 widen)
        → (groups : List (List ℕ)) × IsPartition (length entities) groups
          × (detect_communities f32 f64 widen order_neighbors order entities relationships config
              ≡ some (
                  map
                    (community_of f32 f64 widen order_neighbors order
                      (map (λ e. e.normalized_name) entities)
                      relationships)
                    groups))
    unfolding detect_communities
    detect_communities-IsPartition [] relationships config =
        ([], ((λ v h. absurd (omega (arith, h))), (λ v h. refl), tt), refl)
    detect_communities-IsPartition (e ∷ es) relationships config =
        let names = map (λ e. e.normalized_name) (e ∷ es) in
        let (graph, is_graph, ok) = build_sparse_graph-IsGraph names relationships in
        let same : length names ≡ length (e ∷ es) = length-map (λ e. e.normalized_name) (e ∷ es) in
        let whole : IsGraph f32 f64 widen (length graph.adjacency) graph =
          subst (λ n. IsGraph f32 f64 widen n graph) (sym ok.0) ok in
        let (groups, is_groups, parts) =
          louvain_clustering-IsPartition f32 f64 widen order order_keeps graph config whole in
        (
          groups,
          subst (λ n. IsPartition n groups) (ok.0 ∙ same) parts,
          rw (is_graph, is_groups) refl,
        )
