-- ===== src/Entity/Document/Closed.antt =====
-- The graph that `build_document_entity_graph` of entity/graph_build.rs returns.
use wend_rag.Base.{
  List, [], ◌∷◌, Bool, true, false, ◌==◌, ==_iff, length, is_empty, All, All-map, All-zip, Any, inl,
  inr, ◌≡◌, ◌≢◌, map, refl, ap, ◌∙◌, sym, ◌⊎◌, arith, Bool-cases,
}
use wend_rag.Base.Float.{Float}
use wend_rag.Base.Outcome.{Outcome, done, failed, stuck}
use wend_rag.Base.Sort.{sort, All-sort, Any-sort, length-sort}
use wend_rag.Base.Text.{Text}
use wend_rag.Base.Unicode.{Unicode}
use wend_rag.Entity.Graph.{Key, key_eq, AggregatedEntity, key_of}
use wend_rag.Entity.Graph.Endpoints.{IsStored}
use wend_rag.Entity.Document.{
  ChunkEntityExtraction, EntityNode, DocumentEntityGraph, EntityGraphBuildError, key_le, mention_le,
  nodes_of, Merged, extraction_loop, with_embeddings, of_merged, build_document_entity_graph,
}
use wend_rag.Entity.Document.{render_entity_embedding_text}
use wend_rag.Entity.Document.Merged.{IsWitnessed, IsMerged, extraction_loop-IsMerged}

module _ (u : Unicode) (f32 : Float) (tenth : f32.F) where
  -- The nodes of a finished graph.
  abbrev pub IsNode : List (EntityNode f32.F) → Key → Type 0
  IsNode ns k = Any (λ n. key_eq (n.normalized_name, n.entity_type) k ≡ true) ns

  nodes_of-IsNode :
      (k : Key) (es : List AggregatedEntity) (vs : List (List f32.F))
      → length vs ≡ length es
      → IsStored es k
      → IsNode (nodes_of es vs) k
  unfolding nodes_of
  nodes_of-IsNode k [] vs e h = absurd h
  nodes_of-IsNode k (d ∷ es) [] e h = absurd (ground (arith, e))
  nodes_of-IsNode k (d ∷ es) (v ∷ vs) e (inl h) = inl (unfold key_of in h)
  nodes_of-IsNode k (d ∷ es) (v ∷ vs) e (inr h) = inr (nodes_of-IsNode k es vs (omega (arith, e)) h)

  -- Each relationship joins two different entities of the graph, both mentioned in the chunk that it
  -- comes from, and each mention is of an entity of the graph.
  abbrev pub IsClosed : DocumentEntityGraph f32.F → Type 0
  IsClosed g =
      All
        (λ e.
          IsNode g.entities e.source
          × IsNode g.entities e.target
          × (key_eq e.source e.target ≡ false)
          × IsWitnessed u f32 tenth g.mentions e)
        g.relationships
      × All (λ n. IsNode g.entities n.key) g.mentions

  map-nodes_of :
      (es : List AggregatedEntity) (vs : List (List f32.F))
      → length vs ≡ length es
      → map (λ n. n.embedding) (nodes_of es vs) ≡ vs
  unfolding nodes_of
  map-nodes_of [] [] e = refl
  map-nodes_of [] (v ∷ vs) e = absurd (ground (arith, e))
  map-nodes_of (d ∷ es) [] e = absurd (ground (arith, e))
  map-nodes_of (d ∷ es) (v ∷ vs) e = ap (λ t. v ∷ t) (map-nodes_of es vs (omega (arith, e)))

  abbrev in_order : AggregatedEntity → AggregatedEntity → Bool
  in_order d e = key_le (key_of d) (key_of e)

  -- The texts of the entities that merging gathers, in the order of their keys.
  abbrev pub texts_of : Merged u f32 tenth → List Text
  texts_of m = map render_entity_embedding_text (sort in_order m.0)

  module _ {E : Type 0} (embed : List Text → Outcome E (List (List f32.F))) where
    -- What an outcome is: without entities an empty graph, and else a closed graph of the embedder's
    -- vectors, the embedder's error or a count that differs.
    abbrev pub IsBuilt :
        Merged u f32 tenth → Outcome (EntityGraphBuildError E) (DocumentEntityGraph f32.F) → Type 0
    IsBuilt m (done g) =
        IsClosed g
        × (((m.0 ≡ []) × (g.entities ≡ []))
            ⊎ ((m.0 ≢ [])
                × (vs : List (List f32.F)) × (embed (texts_of m) ≡ done vs)
                × (length vs ≡ length m.0)
                × (map (λ n. n.embedding) g.entities ≡ vs)))
    IsBuilt m (failed (EntityGraphBuildError.embedding e)) =
        (m.0 ≢ []) × (embed (texts_of m) ≡ failed e)
    IsBuilt m (failed (EntityGraphBuildError.embedding_count_mismatch expected actual)) =
        (m.0 ≢ [])
        × (vs : List (List f32.F)) × (embed (texts_of m) ≡ done vs)
        × (length m.0 ≡ expected)
        × (length vs ≡ actual)
        × (expected ≢ actual)
    IsBuilt m stuck = (m.0 ≢ []) × (embed (texts_of m) ≡ stuck)

    with_embeddings-IsBuilt :
        (m : Merged u f32 tenth) (r : Outcome E (List (List f32.F)))
        → IsMerged u f32 tenth m
        → m.0 ≢ []
        → embed (texts_of m) ≡ r
        → IsBuilt m (with_embeddings u f32 tenth embed m r)
    unfolding with_embeddings
    with_embeddings-IsBuilt m (failed e) h some_are call = (some_are, call)
    with_embeddings-IsBuilt m stuck h some_are call = (some_are, call)
    with_embeddings-IsBuilt m (done vs) h some_are call =
        let ns = nodes_of (sort in_order m.0) vs in
        elim (Bool-cases (length vs == length m.0)) [
          | inl e ↦
              let same : length vs ≡ length m.0 = (==_iff (length vs) (length m.0)).0 e in
              let count = same ∙ sym (length-sort in_order m.0) in
              let node : (k : Key) → IsStored m.0 k → IsNode ns k = λ k p.
                nodes_of-IsNode k (sort in_order m.0) vs count
                  (Any-sort in_order (λ d. key_eq (key_of d) k ≡ true) m.0 p) in
              rw e (
                (
                  All-zip
                      (λ d p q. (
                        node d.source p.0,
                        node d.target p.1,
                        p.2,
                        (Any-sort mention_le _ m.2 q.0, Any-sort mention_le _ m.2 q.1),
                      ))
                      m.1 h.0 h.1,
                  All-sort mention_le (λ q. IsNode ns q.key) m.2
                      (All-map (λ q p. node q.key p) m.2 h.2),
                ),
                inr (some_are, vs, call, same, map-nodes_of (sort in_order m.0) vs count),
              )
          | inr e ↦ rw e (some_are, vs, call, refl, refl, ground (arith, e))
        ]

    of_merged-IsBuilt :
        (m : Merged u f32 tenth)
        → IsMerged u f32 tenth m
        → IsBuilt m (of_merged u f32 tenth embed m)
    unfolding of_merged
    of_merged-IsBuilt m h = elim (Bool-cases (is_empty m.0)) [
      | inl e ↦ rw e ((tt, tt), inl (nil_of m.0 e, refl))
      | inr e ↦ rw e (with_embeddings-IsBuilt m (embed (texts_of m)) h (some_of m.0 e) refl)
    ]
      where
        nil_of : (es : List AggregatedEntity) → is_empty es ≡ true → es ≡ []
        nil_of [] e = refl
        nil_of (d ∷ es) e = cc

        some_of : (es : List AggregatedEntity) → is_empty es ≡ false → es ≢ []
        some_of [] e k = cc
        some_of (d ∷ es) e k = cc

    -- The graph of a document is closed: each relationship joins two different entities of the
    -- graph, which the relationship's chunk mentions, and each mention is of an entity of the graph.
    -- It has no entity where merging the extractions gathers none, and else the vectors that the
    -- embedder returns for the texts of the gathered entities. There is no graph exactly where there
    -- are entities and the embedder fails on those texts, with its error, or returns another number
    -- of vectors, which the error counts, or does not return.
    pub build_document_entity_graph-IsBuilt :
        (xs : List (ChunkEntityExtraction f32.F))
        → IsBuilt
            (extraction_loop u f32 tenth xs ([], [], []))
            (build_document_entity_graph u f32 tenth embed xs)
    unfolding build_document_entity_graph
    build_document_entity_graph-IsBuilt xs =
        of_merged-IsBuilt (extraction_loop u f32 tenth xs ([], [], []))
          (extraction_loop-IsMerged u f32 tenth xs ([], [], []) (tt, tt, tt))
