-- ===== src/Entity/Community/Partition.antt =====
-- The communities that entity/community.rs returns.
use wend_rag.Base.{
  ℕ, zero, suc, ◌+◌, ◌≤◌, ◌<◌, List, [], ◌∷◌, ◌++◌, some, false, ◌==◌, ==_iff, map, length,
  get_elem?, is_empty, All, ◌≡◌, refl, sym, ap, ◌∙◌, arith, Bool-cases, inl, inr,
}
use wend_rag.Base.Float.{Float}
use wend_rag.Entity.Community.{
  replicate, range_from, push_to, group_from, SparseGraph, CommunityDetectionConfig,
  louvain_clustering,
}
use wend_rag.Entity.Community.Sizes.{
  tally, hit, range_from-below, length-range_from, get_elem?-replicate,
}
use wend_rag.Entity.Community.Moves.{IsGraph, IsCounted}
use wend_rag.Entity.Community.Passes.{iterate-Returns}

-- How often a node stands in the communities.
abbrev pub members : ℕ → List (List ℕ) → ℕ
members v [] = 0
members v (g ∷ gs) = tally v g + members v gs

-- Each node below `n` is in one community and once, no other number is in any, and none is empty.
abbrev pub IsPartition : ℕ → List (List ℕ) → Type 0
IsPartition n gs =
    ((v : ℕ) → v < n → members v gs ≡ 1)
    × ((v : ℕ) → n ≤ v → members v gs ≡ 0)
    × All (λ g. is_empty g ≡ false) gs

tally-append : (v : ℕ) (xs ys : List ℕ) → tally v (xs ++ ys) ≡ tally v xs + tally v ys
tally-append v [] ys = omega arith
tally-append v (x ∷ xs) ys = omega (arith, tally-append v xs ys)

members-push_to :
    (v c node : ℕ) (gs : List (ℕ × List ℕ))
    → members v (map (λ g. g.1) (push_to c node gs)) ≡ members v (map (λ g. g.1) gs) + hit v node
unfolding push_to
members-push_to v c node [] = omega arith
members-push_to v c node (g ∷ gs) =
    let rest = members-push_to v c node gs in
    let grown = tally-append v g.1 (node ∷ []) in
    elim (Bool-cases (g.0 == c)) [
      | inl q ↦ rw q (omega (arith, grown))
      | inr q ↦ rw q (omega (arith, rest))
    ]

push_to-filled :
    (c node : ℕ) (gs : List (ℕ × List ℕ))
    → All (λ g. is_empty g ≡ false) (map (λ g. g.1) gs)
    → All (λ g. is_empty g ≡ false) (map (λ g. g.1) (push_to c node gs))
unfolding push_to
push_to-filled c node [] h = (refl, tt)
push_to-filled c node (g ∷ gs) h =
    let rest = push_to-filled c node gs h.1 in
    elim (Bool-cases (g.0 == c)) [ inl q ↦ rw q (filled g.1, h.1) | inr q ↦ rw q (h.0, rest) ]
  where
    filled : (xs : List ℕ) → is_empty (xs ++ node ∷ []) ≡ false
    filled [] = refl
    filled (x ∷ xs) = refl

-- Grouping adds each node once.
group_from-members :
    (v node : ℕ) (cs : List ℕ) (gs : List (ℕ × List ℕ))
    → members v (map (λ g. g.1) (group_from node cs gs))
      ≡ members v (map (λ g. g.1) gs) + tally v (range_from node (length cs))
unfolding group_from range_from
group_from-members v node [] gs = omega arith
group_from-members v node (c ∷ cs) gs =
    let rest = group_from-members v (node + 1) cs (push_to c node gs) in
    let pushed = members-push_to v c node gs in omega (arith, rest, pushed)

group_from-filled :
    (node : ℕ) (cs : List ℕ) (gs : List (ℕ × List ℕ))
    → All (λ g. is_empty g ≡ false) (map (λ g. g.1) gs)
    → All (λ g. is_empty g ≡ false) (map (λ g. g.1) (group_from node cs gs))
unfolding group_from
group_from-filled node [] gs h = h
group_from-filled node (c ∷ cs) gs h =
    group_from-filled (node + 1) cs (push_to c node gs) (push_to-filled c node gs h)

-- A number stands in a range once or not at all.
tally-range_from :
    (v lo n : ℕ)
    → ((v < lo → tally v (range_from lo n) ≡ 0)
        × (lo ≤ v → v < lo + n → tally v (range_from lo n) ≡ 1)
        × (lo + n ≤ v → tally v (range_from lo n) ≡ 0))
unfolding range_from
tally-range_from v lo zero = ((λ h. refl), (λ h k. absurd (omega (arith, h, k))), λ h. refl)
tally-range_from v lo (suc n) =
    let rest = tally-range_from v (lo + 1) n in
    elim (Bool-cases (lo == v)) [
      | inl q ↦
          let same : lo ≡ v = (==_iff lo v).0 q in
          let none_left = rest.0 (omega (arith, same)) in
          (
            (λ h. absurd (omega (arith, h, same))),
            (λ h k. rw q (omega (arith, none_left))),
            (λ h. absurd (omega (arith, h, same))),
          )
      | inr q ↦
          let apart : (lo ≡ v) → ⊥ = λ e. absurd (ground (arith, q, e)) in
          (
            (λ h. rw q (omega (arith, rest.0 (omega (arith, h))))),
            (λ h k.
                let above : lo + 1 ≤ v = ground (arith, h, apart) in
                rw q (omega (arith, rest.1 above (omega (arith, k))))),
            (λ h. rw q (omega (arith, rest.2 (omega (arith, h))))),
          )
    ]

module _ (f32 f64 : Float) (widen : f32.F → f64.F) (order : List (ℕ × f64.F) → List (ℕ × f64.F))
    (order_keeps : (P : ℕ × f64.F → Type 0) (es : List (ℕ × f64.F))
      → All P es
      → All P (order es)) where
  start-IsCounted :
      (n : ℕ) (graph : SparseGraph f32 f64 widen)
      → IsGraph f32 f64 widen n graph
      → IsCounted f32 f64 widen n (record {
        community = range_from 0 n;
        sizes = replicate n 1;
        degrees = graph.node_degrees;
      })
  start-IsCounted n graph g =
      (length-range_from 0 n, g.1, range_from-below 0 n n (omega arith), sizes)
    where
      sizes : (c : ℕ) → c < n → get_elem? (replicate n 1) c ≡ some (tally c (range_from 0 n))
      sizes c h =
          get_elem?-replicate n c 1 h
          ∙ ap some (sym ((tally-range_from c 0 n).1 (omega arith) (omega (arith, h))))

  -- On a graph whose edges lead to nodes, the clustering returns: no index is out of bounds and no
  -- size falls below zero. The communities partition the nodes, and none is empty. This holds for
  -- any rounding, any limits and any order in which the hash maps are read.
  pub louvain_clustering-IsPartition :
      (graph : SparseGraph f32 f64 widen) (config : CommunityDetectionConfig f32 f64 widen)
      → IsGraph f32 f64 widen (length graph.adjacency) graph
      → (gs : List (List ℕ)) × (louvain_clustering f32 f64 widen order graph config ≡ some gs)
        × IsPartition (length graph.adjacency) gs
  unfolding louvain_clustering
  louvain_clustering-IsPartition graph config g =
      let n = length graph.adjacency in
      let (a, is_a, ok) =
        iterate-Returns f32 f64 widen order order_keeps n config.max_iterations
          (f64.sub (f64.of_ℕ 0) (f64.of_ℕ 1))
          (record {
            community = range_from 0 n;
            sizes = replicate n 1;
            degrees = graph.node_degrees;
          })
          graph config g (start-IsCounted n graph g) in
      let gs = map (λ g. g.1) (group_from 0 a.community []) in
      let counted : (v : ℕ) → members v gs ≡ tally v (range_from 0 n) = λ v.
        let grouped = group_from-members v 0 a.community [] in
        let all = ap (λ k. tally v (range_from 0 k)) ok.0 in omega (arith, grouped, all) in
      (
        gs,
        rw is_a refl,
        (
          (λ v h. counted v ∙ (tally-range_from v 0 n).1 (omega arith) (omega (arith, h))),
          (λ v h. counted v ∙ (tally-range_from v 0 n).2 (omega (arith, h))),
          group_from-filled 0 a.community [] tt,
        ),
      )
