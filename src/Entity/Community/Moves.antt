-- ===== src/Entity/Community/Moves.antt =====
-- The moves of entity/community.rs keep the sizes of the communities right, and so never panic.
use wend_rag.Base.{
  ℕ, zero, suc, ◌+◌, ◌≤◌, ◌<◌, List, [], ◌∷◌, some, ◌==◌, ==_iff, if◌then◌else◌, length, get_elem?,
  All, ◌≡◌, ◌≢◌, refl, ap, ◌∙◌, arith, Bool-cases, inl, inr,
}
use wend_rag.Base.Float.{Float}
use wend_rag.Entity.Community.{
  SparseGraph, Assignment, gt, add_to, connections_of, gain_of, best_loop, find_best_community,
  move_node,
}
use wend_rag.Entity.Community.Sizes.{
  tally, tally-pos, get_elem?-some, get_elem?-All, IsUpdated, update_at-IsUpdated, All-IsUpdated,
  decrement_at-IsUpdated, tally-IsUpdated,
}

-- The sizes after a move are the tallies after it.
sizes_after :
    (n node current best m : ℕ) (old fewer sizes : List ℕ) (before after : List ℕ)
    → get_elem? before node ≡ some current
    → tally current before ≡ suc m
    → best ≢ current
    → IsUpdated node best before after
    → IsUpdated current m old fewer
    → IsUpdated best (tally best before + 1) fewer sizes
    → ((c : ℕ) → c < n → get_elem? old c ≡ some (tally c before))
    → (c : ℕ) → c < n
    → get_elem? sizes c ≡ some (tally c after)
sizes_after n node current best m old fewer sizes before after at is_m differs u v1 v2 h c k =
    let moved = tally-IsUpdated c node current best before after at u in
    elim (Bool-cases (c == best)) [
      | inl q ↦
          let same : c ≡ best = (==_iff c best).0 q in
          let count : tally best before + 1 ≡ tally c after =
            ground (arith, moved, same, differs) in
          ap (get_elem? sizes) same ∙ v2.1 ∙ ap some count
      | inr q ↦
          let off_best : c ≢ best = λ e. absurd (ground (arith, q, e)) in
          elim (Bool-cases (c == current)) [
            | inl r ↦
                let same : c ≡ current = (==_iff c current).0 r in
                let count : m ≡ tally c after = ground (arith, moved, same, is_m, differs) in
                v2.2 c off_best ∙ ap (get_elem? fewer) same ∙ v1.1 ∙ ap some count
            | inr r ↦
                let off_current : c ≢ current = λ e. absurd (ground (arith, r, e)) in
                let count : tally c before ≡ tally c after =
                  ground (arith, moved, off_best, off_current) in
                v2.2 c off_best ∙ v1.2 c off_current ∙ h c k ∙ ap some count
          ]
    ]

module _ (f32 f64 : Float) (widen : f32.F → f64.F) where
  -- A graph on `n` nodes.
  abbrev pub IsGraph : ℕ → SparseGraph f32 f64 widen → Type 0
  IsGraph n g =
      (length g.adjacency ≡ n) × (length g.node_degrees ≡ n) × All (All (λ e. e.0 < n)) g.adjacency

  -- Each node is in one of `n` communities, and the size of a community is how many nodes it has.
  abbrev pub IsCounted : ℕ → Assignment f32 f64 widen → Type 0
  IsCounted n a =
      (length a.community ≡ n)
      × (length a.degrees ≡ n)
      × All (λ c. c < n) a.community
      × ((c : ℕ) → c < n → get_elem? a.sizes c ≡ some (tally c a.community))

  add_to-below :
      (n key : ℕ) (weight : f64.F) (es : List (ℕ × f64.F))
      → key < n
      → All (λ e. e.0 < n) es
      → All (λ e. e.0 < n) (add_to f32 f64 widen key weight es)
  unfolding add_to
  add_to-below n key weight [] k h = (k, tt)
  add_to-below n key weight (e ∷ es) k h =
      let rest = add_to-below n key weight es k h.1 in
      elim (Bool-cases (e.0 == key)) [ inl q ↦ rw q (h.0, h.1) | inr q ↦ rw q (h.0, rest) ]

  connections_of-below :
      (n : ℕ) (community : List ℕ) (ns : List (ℕ × f32.F)) (es : List (ℕ × f64.F))
      → length community ≡ n
      → All (λ c. c < n) community
      → All (λ e. e.0 < n) ns
      → All (λ e. e.0 < n) es
      → (found : List (ℕ × f64.F)) × (connections_of f32 f64 widen community ns es ≡ some found)
        × All (λ e. e.0 < n) found
  unfolding connections_of
  connections_of-below n community [] es l b m h = (es, refl, h)
  connections_of-below n community (x ∷ ns) es l b m h =
      let (c, at) = get_elem?-some community x.0 (omega (arith, l, m.0)) in
      let low = get_elem?-All (λ c. c < n) community x.0 b at in
      let (found, e, all) =
        connections_of-below n community ns (add_to f32 f64 widen c (widen x.1) es) l b m.1
          (add_to-below n c (widen x.1) es low h) in
      (found, rw at e, all)

  best_loop-below :
      (n : ℕ) (graph : SparseGraph f32 f64 widen) (resolution : f64.F) (degrees : List f64.F)
      (node_degree : f64.F) (current : ℕ) (cs : List (ℕ × f64.F)) (best : ℕ × f64.F)
      → length degrees ≡ n
      → All (λ e. e.0 < n) cs
      → best.0 < n
      → (c : ℕ) × (best_loop f32 f64 widen graph resolution degrees node_degree current cs best
          ≡ some c)
        × (c < n)
  unfolding best_loop
  best_loop-below n graph resolution degrees node_degree current [] best l h b = (best.0, refl, b)
  best_loop-below n graph resolution degrees node_degree current (c ∷ cs) best l h b =
      elim (Bool-cases (c.0 == current)) [
        | inl q ↦
            rw q (best_loop-below n graph resolution degrees node_degree current cs best l h.1 b)
        | inr q ↦
            let (d, at) = get_elem?-some degrees c.0 (omega (arith, l, h.0)) in
            let gain = gain_of f32 f64 widen graph resolution node_degree d c.1 in
            let next : ℕ × f64.F = if gt f32 f64 widen gain best.1 then (c.0, gain) else best in
            let low : next.0 < n = elim (Bool-cases (gt f32 f64 widen gain best.1)) [
              | inl g ↦ rw g h.0
              | inr g ↦ rw g b
            ] in
            let (k, e, below) =
              best_loop-below n graph resolution degrees node_degree current cs next l h.1 low in
            (k, rw (q, at) e, below)
      ]

  module _ (order : List (ℕ × f64.F) → List (ℕ × f64.F))
      (order_keeps : (P : ℕ × f64.F → Type 0) (es : List (ℕ × f64.F))
        → All P es
        → All P (order es)) where
    pub find_best_community-below :
        (n node : ℕ) (a : Assignment f32 f64 widen) (graph : SparseGraph f32 f64 widen)
        (resolution : f64.F)
        → IsGraph n graph
        → IsCounted n a
        → node < n
        → (c : ℕ) × (find_best_community f32 f64 widen order node a graph resolution ≡ some c)
          × (c < n)
    unfolding find_best_community
    find_best_community-below n node a graph resolution g h b =
        let (current, is_current) = get_elem?-some a.community node (omega (arith, b, h.0)) in
        let low = get_elem?-All (λ c. c < n) a.community node h.2 is_current in
        let (degree, is_degree) = get_elem?-some graph.node_degrees node (omega (arith, b, g.1)) in
        let (ns, is_ns) = get_elem?-some graph.adjacency node (omega (arith, b, g.0)) in
        let near = get_elem?-All (All (λ e. e.0 < n)) graph.adjacency node g.2 is_ns in
        let (found, is_found, below) = connections_of-below n a.community ns [] h.0 h.2 near tt in
        let (c, e, k) =
          best_loop-below n graph resolution a.degrees degree current (order found)
            (current, f64.of_ℕ 0) h.1 (order_keeps (λ e. e.0 < n) found below) low in
        (c, rw (is_current, is_degree, is_ns, is_found) e, k)

    pub move_node-IsCounted :
        (n node current best : ℕ) (a : Assignment f32 f64 widen) (graph : SparseGraph f32 f64 widen)
        → IsGraph n graph
        → IsCounted n a
        → node < n
        → get_elem? a.community node ≡ some current
        → best < n
        → best ≢ current
        → (b : Assignment f32 f64 widen) × (move_node f32 f64 widen order graph node current best a
            ≡ some b)
          × IsCounted n b
    unfolding move_node
    move_node-IsCounted n node current best a graph g h low is_current below differs =
        let cur_low = get_elem?-All (λ c. c < n) a.community node h.2 is_current in
        let pos = tally-pos current node a.community is_current in
        let (degree, is_degree) =
          get_elem?-some graph.node_degrees node (omega (arith, low, g.1)) in
        let (m, is_m) = suc_of (tally current a.community) pos in
        let (fewer, is_fewer, u1) =
          decrement_at-IsUpdated current a.sizes m (h.3 current cur_low ∙ ap some is_m) in
        let (sizes, is_sizes, u2) =
          update_at-IsUpdated best (λ k. k + 1) fewer (tally best a.community)
            (u1.2 best differs ∙ h.3 best below) in
        let (d, is_d) = get_elem?-some a.degrees current (omega (arith, cur_low, h.1)) in
        let (less, is_less, u3) =
          update_at-IsUpdated current (λ d. f64.sub d degree) a.degrees d is_d in
        let (d2, is_d2) = get_elem?-some less best (omega (arith, below, h.1, u3.0)) in
        let (degrees, is_degrees, u4) =
          update_at-IsUpdated best (λ d. f64.add d degree) less d2 is_d2 in
        let (community, is_community, u5) =
          update_at-IsUpdated node (λ c. best) a.community current is_current in
        (
          record { community = community; sizes = sizes; degrees = degrees },
          rw (is_fewer, is_sizes, is_degree, is_less, is_degrees, is_community) refl,
          (
            omega (arith, h.0, u5.0),
            omega (arith, h.1, u3.0, u4.0),
            All-IsUpdated (λ c. c < n) node best a.community community below h.2 u5,
            sizes_after n node current best m a.sizes fewer sizes a.community community is_current
                is_m differs u5 u1 u2 h.3,
          ),
        )
      where
        suc_of : (t : ℕ) → 1 ≤ t → (m : ℕ) × (t ≡ suc m)
        suc_of zero p = absurd (omega (arith, p))
        suc_of (suc m) p = (m, refl)
