-- ===== src/Entity/Community/Passes.antt =====
-- The passes and iterations of entity/community.rs return.
use wend_rag.Base.{
  ℕ, zero, suc, ◌+◌, ◌≤◌, ◌<◌, List, [], ◌∷◌, Option, some, Bool, true, false, ◌==◌, if◌then◌else◌,
  length, All, ◌≡◌, refl, arith, Bool-cases, inl, inr,
}
use wend_rag.Base.Float.{Float}
use wend_rag.Entity.Community.{
  range_from, SparseGraph, CommunityDetectionConfig, Assignment, gt, settle, visit_node, node_loop,
  pass_loop, internal_weight, modularity_loop, calculate_modularity, iterate,
}
use wend_rag.Entity.Community.Sizes.{get_elem?-some, get_elem?-All, range_from-below}
use wend_rag.Entity.Community.Moves.{
  IsGraph, IsCounted, find_best_community-below, move_node-IsCounted,
}

module _ (f32 f64 : Float) (widen : f32.F → f64.F) (order : List (ℕ × f64.F) → List (ℕ × f64.F))
    (order_keeps : (P : ℕ × f64.F → Type 0) (es : List (ℕ × f64.F))
      → All P es
      → All P (order es)) where
  -- A step returns, and keeps the invariant.
  abbrev Steps : ℕ → Option (Assignment f32 f64 widen × Bool) → Type 0
  Steps n o = (b : Assignment f32 f64 widen × Bool) × (o ≡ some b) × IsCounted f32 f64 widen n b.0

  visit_node-Steps :
      (n node : ℕ) (a : Assignment f32 f64 widen × Bool) (graph : SparseGraph f32 f64 widen)
      (resolution : f64.F)
      → IsGraph f32 f64 widen n graph
      → IsCounted f32 f64 widen n a.0
      → node < n
      → Steps n (visit_node f32 f64 widen order graph resolution node a)
  unfolding visit_node settle
  visit_node-Steps n node a graph resolution g h low =
      let (current, is_current) = get_elem?-some (a.0).community node (omega (arith, low, h.0)) in
      let (best, is_best, below) =
        find_best_community-below f32 f64 widen order order_keeps n node a.0 graph resolution g h
          low in
      elim (Bool-cases (best == current)) [
        | inl q ↦ (a, rw (is_current, is_best, q) refl, h)
        | inr q ↦
            let (b, is_b, ok) =
              move_node-IsCounted f32 f64 widen order order_keeps n node current best a.0 graph g h
                low is_current below (λ e. absurd (ground (arith, q, e))) in
            ((b, true), rw (is_current, is_best, q, is_b) refl, ok)
      ]

  node_loop-Steps :
      (n : ℕ) (nodes : List ℕ) (a : Assignment f32 f64 widen × Bool)
      (graph : SparseGraph f32 f64 widen) (resolution : f64.F)
      → IsGraph f32 f64 widen n graph
      → IsCounted f32 f64 widen n a.0
      → All (λ k. k < n) nodes
      → Steps n (node_loop f32 f64 widen order graph resolution nodes a)
  unfolding node_loop
  node_loop-Steps n [] a graph resolution g h low = (a, refl, h)
  node_loop-Steps n (node ∷ nodes) a graph resolution g h low =
      let (b, is_b, ok) = visit_node-Steps n node a graph resolution g h low.0 in
      let (c, is_c, still) = node_loop-Steps n nodes b graph resolution g ok low.1 in
      (c, rw is_b is_c, still)

  -- The same of a step without a flag.
  abbrev pub Returns : ℕ → Option (Assignment f32 f64 widen) → Type 0
  Returns n o = (b : Assignment f32 f64 widen) × (o ≡ some b) × IsCounted f32 f64 widen n b

  pass_loop-Returns :
      (n passes : ℕ) (a : Assignment f32 f64 widen) (graph : SparseGraph f32 f64 widen)
      (resolution : f64.F)
      → IsGraph f32 f64 widen n graph
      → IsCounted f32 f64 widen n a
      → Returns n (pass_loop f32 f64 widen order graph resolution passes a)
  unfolding pass_loop
  pass_loop-Returns n zero a graph resolution g h = (a, refl, h)
  pass_loop-Returns n (suc passes) a graph resolution g h =
      let all = range_from-below 0 (length graph.adjacency) n (omega (arith, g.0)) in
      let (b, is_b, ok) =
        node_loop-Steps n (range_from 0 (length graph.adjacency)) (a, false) graph resolution g h
          all in
      let (c, is_c, still) = pass_loop-Returns n passes b.0 graph resolution g ok in
      elim (Bool-cases b.1) [
        | inl q ↦ (c, rw (is_b, q) is_c, still)
        | inr q ↦ (b.0, rw (is_b, q) refl, ok)
      ]

  internal_weight-some :
      (n own : ℕ) (community : List ℕ) (ns : List (ℕ × f32.F)) (sum : f64.F)
      → length community ≡ n
      → All (λ e. e.0 < n) ns
      → (t : f64.F) × (internal_weight f32 f64 widen order community own ns sum ≡ some t)
  unfolding internal_weight
  internal_weight-some n own community [] sum l h = (sum, refl)
  internal_weight-some n own community (x ∷ ns) sum l h =
      let (c, at) = get_elem?-some community x.0 (omega (arith, l, h.0)) in
      let (t, e) =
        internal_weight-some n own community ns (if c == own then f64.add sum (widen x.1) else sum)
          l h.1 in
      (t, rw at e)

  modularity_loop-some :
      (n node : ℕ) (community cs : List ℕ) (graph : SparseGraph f32 f64 widen)
      (resolution sum : f64.F)
      → IsGraph f32 f64 widen n graph
      → length community ≡ n
      → node + length cs ≤ n
      → (t : f64.F) × (modularity_loop f32 f64 widen order graph resolution community node cs sum
          ≡ some t)
  unfolding modularity_loop
  modularity_loop-some n node community [] graph resolution sum g l h = (sum, refl)
  modularity_loop-some n node community (c ∷ cs) graph resolution sum g l h =
      let (degree, is_degree) = get_elem?-some graph.node_degrees node (omega (arith, g.1, h)) in
      let (ns, is_ns) = get_elem?-some graph.adjacency node (omega (arith, g.0, h)) in
      let near = get_elem?-All (All (λ e. e.0 < n)) graph.adjacency node g.2 is_ns in
      let (weight, is_weight) = internal_weight-some n c community ns (f64.of_ℕ 0) l near in
      let (t, e) =
        modularity_loop-some n (node + 1) community cs graph resolution
          (f64.sub (f64.add sum (f64.div weight graph.total_weight)) (
            f64.div (f64.mul resolution (f64.mul degree degree))
              (f64.mul graph.total_weight graph.total_weight)))
          g l (omega (arith, h)) in
      (t, rw (is_degree, is_ns, is_weight) e)

  calculate_modularity-some :
      (n : ℕ) (community : List ℕ) (graph : SparseGraph f32 f64 widen) (resolution : f64.F)
      → IsGraph f32 f64 widen n graph
      → length community ≡ n
      → (t : f64.F) × (calculate_modularity f32 f64 widen order community graph resolution ≡ some t)
  unfolding calculate_modularity
  calculate_modularity-some n community graph resolution g l =
      let (t, e) =
        modularity_loop-some n 0 community community graph resolution (f64.of_ℕ 0) g l
          (omega (arith, l)) in
      elim (Bool-cases (f64.eq graph.total_weight (f64.of_ℕ 0))) [
        | inl q ↦ (f64.of_ℕ 0, rw q refl)
        | inr q ↦ (t, rw q e)
      ]

  pub iterate-Returns :
      (n iterations : ℕ) (best : f64.F) (a : Assignment f32 f64 widen)
      (graph : SparseGraph f32 f64 widen) (config : CommunityDetectionConfig f32 f64 widen)
      → IsGraph f32 f64 widen n graph
      → IsCounted f32 f64 widen n a
      → Returns n (iterate f32 f64 widen order graph config iterations best a)
  unfolding iterate
  iterate-Returns n zero best a graph config g h = (a, refl, h)
  iterate-Returns n (suc iterations) best a graph config g h =
      let (b, is_b, ok) = pass_loop-Returns n 10 a graph config.resolution g h in
      let (q, is_q) = calculate_modularity-some n b.community graph config.resolution g ok.0 in
      let (c, is_c, still) = iterate-Returns n iterations q b graph config g ok in
      elim (Bool-cases (gt f32 f64 widen q (f64.add best config.min_modularity_gain))) [
        | inl k ↦ (c, rw (is_b, is_q, k) is_c, still)
        | inr k ↦ (b, rw (is_b, is_q, k) refl, ok)
      ]
