-- ===== src/Entity/Community.antt =====
-- entity/community.rs: the communities of an entity graph. `none` stands for a panic: an index out of
-- bounds or a count below zero. A hash map is an association list in the order of first insertion, and
-- `order` is the order in which it is read; a community's own identifier is left out.
pub mod Sizes
pub mod Moves
pub mod Passes
pub mod Partition
pub mod Detect
use wend_rag.Base.{
  ℕ, zero, suc, ◌+◌, ◌-◌, List, [], ◌∷◌, ◌++◌, Option, none, some, Bool, true, false, not, ◌&&◌,
  ◌||◌, ◌==◌, leb, if◌then◌else◌, length, is_empty, get_elem?, any, filter, map, ◌>>=◌,
}
use wend_rag.Base.Float.{Float}
use wend_rag.Base.Text.{Text, codes, text_eq}
use wend_rag.Entity.Graph.{EntityEdge}
use wend_rag.Entity.Document.{EntityNode}

module _ {A : Type 0} where
  -- `xs[i] = f(xs[i])`
  unfoldable pub update_at : ℕ → (A → A) → List A → Option (List A)
  update_at i f [] = none
  update_at zero f (x ∷ xs) = some (f x ∷ xs)
  update_at (suc i) f (x ∷ xs) = do rest ← update_at i f xs; some (x ∷ rest)

  unfoldable pub replicate : ℕ → A → List A
  replicate zero a = []
  replicate (suc n) a = a ∷ replicate n a

-- `lo..lo + n`
unfoldable pub range_from : ℕ → ℕ → List ℕ
range_from lo zero = []
range_from lo (suc n) = lo ∷ range_from (lo + 1) n

-- `communities.entry(community).or_default().push(node)`
unfoldable pub push_to : ℕ → ℕ → List (ℕ × List ℕ) → List (ℕ × List ℕ)
push_to community node [] = (community, node ∷ []) ∷ []
push_to community node (g ∷ gs) =
    let rest = push_to community node gs in
    if g.0 == community then (g.0, g.1 ++ node ∷ []) ∷ gs else g ∷ rest

unfoldable pub group_from : ℕ → List ℕ → List (ℕ × List ℕ) → List (ℕ × List ℕ)
group_from node [] gs = gs
group_from node (community ∷ cs) gs = group_from (node + 1) cs (push_to community node gs)

-- `node_index.get(name)`: the last entity of the name.
unfoldable pub index_of : Text → ℕ → List Text → Option ℕ
index_of name i [] = none
index_of name i (n ∷ ns) =
    let rest = index_of name (i + 1) ns in
    elim rest [ some j ↦ some j | none ↦ if text_eq n name then some i else none ]

-- `decrement`, which panics at zero
unfoldable pub decrement_at : ℕ → List ℕ → Option (List ℕ)
decrement_at i [] = none
decrement_at zero (x ∷ xs) = if x == 0 then none else some ((x - 1) ∷ xs)
decrement_at (suc i) (x ∷ xs) = do rest ← decrement_at i xs; some (x ∷ rest)

module _ (f32 f64 : Float) (widen : f32.F → f64.F) where
  -- Without the map from names, which only the log reads after the graph is built.
  pub record SparseGraph : Type 0 where
    pub adjacency : List (List (ℕ × f32.F))
    pub total_weight : f64.F
    pub node_degrees : List f64.F

  pub record CommunityDetectionConfig : Type 0 where
    pub resolution : f64.F
    pub max_iterations : ℕ
    pub min_modularity_gain : f64.F

  pub record Assignment : Type 0 where
    pub community : List ℕ
    pub sizes : List ℕ
    pub degrees : List f64.F

  abbrev pub gt : f64.F → f64.F → Bool
  gt a b = f64.le b a && not (f64.le a b)

  -- `*map.entry(key).or_insert(0.0) += weight`
  unfoldable pub add_to : ℕ → f64.F → List (ℕ × f64.F) → List (ℕ × f64.F)
  add_to key weight [] = (key, f64.add (f64.of_ℕ 0) weight) ∷ []
  add_to key weight (e ∷ es) =
      let rest = add_to key weight es in
      if e.0 == key then (e.0, f64.add e.1 weight) ∷ es else e ∷ rest

  unfoldable pub connections_of :
      List ℕ → List (ℕ × f32.F) → List (ℕ × f64.F) → Option (List (ℕ × f64.F))
  connections_of community [] found = some found
  connections_of community (n ∷ ns) found = do
    c ← get_elem? community n.0
    connections_of community ns (add_to c (widen n.1) found)

  unfoldable pub gain_of : SparseGraph → f64.F → f64.F → f64.F → f64.F → f64.F
  gain_of graph resolution node_degree community_degree connections =
      if gt graph.total_weight (f64.of_ℕ 0)
      then f64.sub (f64.div connections graph.total_weight) (
          f64.div (f64.mul resolution (f64.mul node_degree community_degree))
            (f64.mul graph.total_weight graph.total_weight))
      else f64.of_ℕ 0

  -- The loop over the neighboring communities, with the best so far.
  unfoldable pub best_loop :
      SparseGraph → f64.F → List f64.F → f64.F → ℕ → List (ℕ × f64.F) → ℕ × f64.F → Option ℕ
  best_loop graph resolution degrees node_degree current [] best = some best.0
  best_loop graph resolution degrees node_degree current (c ∷ cs) best =
      if c.0 == current
      then best_loop graph resolution degrees node_degree current cs best
      else (get_elem? degrees c.0 >>= λ community_degree.
          let gain = gain_of graph resolution node_degree community_degree c.1 in
          best_loop graph resolution degrees node_degree current cs
            (if gt gain best.1 then (c.0, gain) else best))

  module _ (order : List (ℕ × f64.F) → List (ℕ × f64.F)) where
    unfoldable pub find_best_community : ℕ → Assignment → SparseGraph → f64.F → Option ℕ
    find_best_community node a graph resolution = do
      current ← get_elem? a.community node
      node_degree ← get_elem? graph.node_degrees node
      neighbors ← get_elem? graph.adjacency node
      found ← connections_of a.community neighbors []
      best_loop graph resolution a.degrees node_degree current (order found) (current, f64.of_ℕ 0)

    -- A node is taken from its community to the best one.
    unfoldable pub move_node : SparseGraph → ℕ → ℕ → ℕ → Assignment → Option Assignment
    move_node graph node current best a = do
      fewer ← decrement_at current a.sizes
      sizes ← update_at best (λ n. n + 1) fewer
      node_degree ← get_elem? graph.node_degrees node
      less ← update_at current (λ d. f64.sub d node_degree) a.degrees
      degrees ← update_at best (λ d. f64.add d node_degree) less
      community ← update_at node (λ c. best) a.community
      some record { community = community; sizes = sizes; degrees = degrees }

    unfoldable pub settle : SparseGraph → ℕ → ℕ → ℕ → Assignment × Bool → Option (Assignment × Bool)
    settle graph node current best a =
        if best == current
        then some a
        else (move_node graph node current best a.0 >>= λ moved. some (moved, true))

    unfoldable pub visit_node :
        SparseGraph → f64.F → ℕ → Assignment × Bool → Option (Assignment × Bool)
    visit_node graph resolution node a = do
      current ← get_elem? (a.0).community node
      best ← find_best_community node a.0 graph resolution
      settle graph node current best a

    unfoldable pub node_loop :
        SparseGraph → f64.F → List ℕ → Assignment × Bool → Option (Assignment × Bool)
    node_loop graph resolution [] a = some a
    node_loop graph resolution (node ∷ nodes) a = do
      visited ← visit_node graph resolution node a
      node_loop graph resolution nodes visited

    -- At most so many passes over the nodes, until one makes no move.
    unfoldable pub pass_loop : SparseGraph → f64.F → ℕ → Assignment → Option Assignment
    pass_loop graph resolution zero a = some a
    pass_loop graph resolution (suc passes) a =
        node_loop graph resolution (range_from 0 (length graph.adjacency)) (a, false) >>= λ pass.
        if pass.1 then pass_loop graph resolution passes pass.0 else some pass.0

    unfoldable pub internal_weight : List ℕ → ℕ → List (ℕ × f32.F) → f64.F → Option f64.F
    internal_weight community own [] sum = some sum
    internal_weight community own (n ∷ ns) sum = do
      c ← get_elem? community n.0
      internal_weight community own ns (if c == own then f64.add sum (widen n.1) else sum)

    unfoldable pub modularity_loop :
        SparseGraph → f64.F → List ℕ → ℕ → List ℕ → f64.F → Option f64.F
    modularity_loop graph resolution community node [] sum = some sum
    modularity_loop graph resolution community node (c ∷ cs) sum = do
      node_degree ← get_elem? graph.node_degrees node
      neighbors ← get_elem? graph.adjacency node
      internal ← internal_weight community c neighbors (f64.of_ℕ 0)
      modularity_loop graph resolution community (node + 1) cs (
          f64.sub (f64.add sum (f64.div internal graph.total_weight)) (
            f64.div (f64.mul resolution (f64.mul node_degree node_degree))
              (f64.mul graph.total_weight graph.total_weight)))

    unfoldable pub calculate_modularity : List ℕ → SparseGraph → f64.F → Option f64.F
    calculate_modularity community graph resolution =
        if f64.eq graph.total_weight (f64.of_ℕ 0)
        then some (f64.of_ℕ 0)
        else modularity_loop graph resolution community 0 community (f64.of_ℕ 0)

    -- At most so many iterations, until the modularity gains too little.
    unfoldable pub iterate :
        SparseGraph → CommunityDetectionConfig → ℕ → f64.F → Assignment → Option Assignment
    iterate graph config zero best a = some a
    iterate graph config (suc iterations) best a =
        pass_loop graph config.resolution 10 a >>= λ moved.
        calculate_modularity moved.community graph config.resolution >>= λ modularity.
        if gt modularity (f64.add best config.min_modularity_gain)
        then iterate graph config iterations modularity moved
        else some moved

    -- The communities, numbered by their places.
    unfoldable pub louvain_clustering :
        SparseGraph → CommunityDetectionConfig → Option (List (List ℕ))
    louvain_clustering graph config =
        let n = length graph.adjacency in
        iterate graph config config.max_iterations (f64.sub (f64.of_ℕ 0) (f64.of_ℕ 1)) (record {
          community = range_from 0 n;
          sizes = replicate n 1;
          degrees = graph.node_degrees;
        })
        >>= λ a. some (map (λ g. g.1) (group_from 0 a.community []))
