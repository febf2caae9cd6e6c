-- ===== src/Retrieve/Hybrid/Answers.antt =====
-- What the search of retrieve/hybrid.rs answers, and why it fails.
use wend_rag.Base.{
  ℕ, List, [], ◌∷◌, ◌++◌, Bool, true, false, if◌then◌else◌, All, ◌⊎◌, inl, inr, ◌≡◌, refl, ap, ◌∙◌,
}
use wend_rag.Base.Int.{ℤ}
use wend_rag.Base.Text.{Text}
use wend_rag.Base.Float.{Float}
use wend_rag.Base.Result.{Result, ok, err, ◌>>=◌, map_err}
use wend_rag.Retrieve.Fusion.{Chunk, reciprocal_rank_fusion}
use wend_rag.Retrieve.Fusion.Merged.{IsFused, IsOrder, rrf_with_k-IsFused}
use wend_rag.Retrieve.Branches.{
  SearchFilters, SearchBackend, dense_search, sparse_search, community_search,
}
use wend_rag.Retrieve.Hybrid.{
  HybridSearchError, embedding, empty_embedding, storage_failed, GraphSettings, as_usize, or_empty,
  push_unless_empty, try_join, pop_embedding, embed_query, seeds_of, with_graph, all_branches,
  merge_from, search,
}
use wend_rag.Retrieve.Hybrid.Steps.{
  found, push_unless_empty-found, pop_embedding-last, pop_embedding-none,
}

module _ {D E F : Type 0} (f64 : Float) (storage : SearchBackend E F (Chunk f64))
    (embed : List Text → Result D (List (List F)))
    (seed_order order : List (Chunk f64) → List (Chunk f64)) (id_order : List ℕ → List ℕ)
    (sparse_fails_first : Bool) where
  module _ (query : Text) (top_k : ℤ) (filters : SearchFilters) (settings : GraphSettings) where
    -- The query's embedding is the last that the embedder returned.
    abbrev Embeds : List F → Type 0
    Embeds v = (us : List (List F)) × (embed (query ∷ []) ≡ ok (us ++ (v ∷ [])))

    -- What the first two branches found.
    abbrev Seeds : List F → List (Chunk f64) → List (Chunk f64) → Type 0
    Seeds v dense sparse =
        Embeds v
        × (storage.search_dense v top_k filters ≡ ok dense)
        × (storage.search_sparse query top_k filters ≡ ok sparse)

    abbrev seeds : List (Chunk f64) → List (Chunk f64) → List ℕ
    seeds dense sparse =
        seeds_of f64 storage embed seed_order order id_order sparse_fails_first
          (dense ∷ sparse ∷ []) top_k

    abbrev graph_of : List (Chunk f64) → List (Chunk f64) → Result E (List (Chunk f64))
    graph_of dense sparse =
        storage.search_graph (seeds dense sparse) top_k filters settings.traversal_depth

    -- The branches behind the first two; the error of the communities counts as nothing found.
    abbrev IsExtra : List F → List (Chunk f64) → List (Chunk f64) → List (List (Chunk f64)) → Type 0
    IsExtra v dense sparse extra =
        ((settings.enabled ≡ false) × (extra ≡ []))
        ⊎ ((settings.enabled ≡ true)
            × (graph : List (Chunk f64)) × (graph_of dense sparse ≡ ok graph)
            × (extra
                ≡ found graph
                  ++ found (
                      or_empty (
                        community_search storage id_order v (seeds dense sparse) top_k filters
                          settings.traversal_depth))))

    abbrev IsCause : HybridSearchError D E → Type 0
    IsCause (embedding d) = embed (query ∷ []) ≡ err d
    IsCause empty_embedding = embed (query ∷ []) ≡ ok []
    IsCause (storage_failed e) =
        (storage.search_sparse query top_k filters ≡ err e)
        ⊎ ((v : List F) × Embeds v × (storage.search_dense v top_k filters ≡ err e))
        ⊎ ((settings.enabled ≡ true)
            × (v : List F) × (dense : List (Chunk f64)) × (sparse : List (Chunk f64)) × Seeds v
                dense sparse
            × (graph_of dense sparse ≡ err e))

    abbrev pub IsAnswer : Result (HybridSearchError D E) (List (Chunk f64)) → Type 0
    IsAnswer (err x) = IsCause x
    IsAnswer (ok cs) =
        (v : List F) × (dense : List (Chunk f64)) × (sparse : List (Chunk f64)) × (extra : List
          (List (Chunk f64)))
        × Seeds v dense sparse
        × IsExtra v dense sparse extra
        × All (IsFused f64 (f64.of_ℕ 60) (dense ∷ sparse ∷ extra)) cs

    answer :
        IsOrder f64 order
        → (branches : List (List (Chunk f64)))
        → All
            (IsFused f64 (f64.of_ℕ 60) branches)
            (reciprocal_rank_fusion f64 order branches (as_usize top_k))
    unfolding reciprocal_rank_fusion
    answer is_order branches =
        rrf_with_k-IsFused f64 order (f64.of_ℕ 60) branches (as_usize top_k) is_order

    abbrev branches_of :
        List F
        → List (Chunk f64)
        → List (Chunk f64)
        → Result (HybridSearchError D E) (List (List (Chunk f64)))
    branches_of v dense sparse =
        all_branches f64 storage embed seed_order order id_order sparse_fails_first v top_k filters
          settings (dense ∷ sparse ∷ [])

    -- All the branches, or the error of the graph's.
    abbrev AreBranches :
        List F
        → List (Chunk f64)
        → List (Chunk f64)
        → Result (HybridSearchError D E) (List (List (Chunk f64)))
        → Type 0
    AreBranches v dense sparse (ok bs) =
        (extra : List (List (Chunk f64))) × (bs ≡ dense ∷ sparse ∷ extra)
        × IsExtra v dense sparse extra
    AreBranches v dense sparse (err x) =
        (e : E) × (x ≡ storage_failed e)
        × (settings.enabled ≡ true)
        × (graph_of dense sparse ≡ err e)

    with_graph-AreBranches :
        (v : List F) (dense sparse : List (Chunk f64))
        → settings.enabled ≡ true
        → (r : Result E (List (Chunk f64))) → graph_of dense sparse ≡ r
        → AreBranches v dense sparse (
            map_err storage_failed r >>= λ graph. ok (
              push_unless_empty
                (or_empty (
                  community_search storage id_order v
                    (seeds dense sparse)
                    top_k
                    filters
                    settings.traversal_depth))
                (push_unless_empty graph (dense ∷ sparse ∷ []))))
    with_graph-AreBranches v dense sparse on (err e) is_r = (e, refl, on, is_r)
    with_graph-AreBranches v dense sparse on (ok graph) is_r =
        let near = or_empty (
          community_search storage id_order v (seeds dense sparse) top_k filters
            settings.traversal_depth) in
        (
          found graph ++ found near,
          push_unless_empty-found near (push_unless_empty graph (dense ∷ sparse ∷ []))
              ∙ ap (λ bs. bs ++ found near) (push_unless_empty-found graph (dense ∷ sparse ∷ [])),
          inr (on, graph, is_r, refl),
        )

    toggled-AreBranches :
        (v : List F) (dense sparse : List (Chunk f64)) (b : Bool)
        → settings.enabled ≡ b
        → AreBranches v dense sparse (
            if b
            then with_graph f64 storage embed seed_order order id_order sparse_fails_first v top_k
                filters settings.traversal_depth
                (dense ∷ sparse ∷ [])
            else ok (dense ∷ sparse ∷ []))
    unfolding with_graph
    toggled-AreBranches v dense sparse true on =
        with_graph-AreBranches v dense sparse on (graph_of dense sparse) refl
    toggled-AreBranches v dense sparse false off = ([], refl, inl (off, refl))

    all_branches-AreBranches :
        (v : List F) (dense sparse : List (Chunk f64))
        → AreBranches v dense sparse (branches_of v dense sparse)
    unfolding all_branches
    all_branches-AreBranches v dense sparse =
        toggled-AreBranches v dense sparse settings.enabled refl

    fused-IsAnswer :
        IsOrder f64 order
        → (v : List F) (dense sparse : List (Chunk f64)) → Seeds v dense sparse
        → (r : Result (HybridSearchError D E) (List (List (Chunk f64))))
        → AreBranches v dense sparse r
        → IsAnswer (r >>= λ bs. ok (reciprocal_rank_fusion f64 order bs (as_usize top_k)))
    fused-IsAnswer is_order v dense sparse h (ok bs) (extra, e, is_extra) =
        (v, dense, sparse, extra, h, is_extra, rw e (answer is_order (dense ∷ sparse ∷ extra)))
    fused-IsAnswer is_order v dense sparse h (err x) (e, q, on, failed) =
        rw q (inr (inr (on, v, dense, sparse, h, failed)))

    abbrev merged : List F → List (Chunk f64) → Result (HybridSearchError D E) (List (Chunk f64))
    merged v sparse =
        merge_from f64 storage embed seed_order order id_order sparse_fails_first top_k filters
          settings (v, sparse)

    merge_from-IsAnswer :
        IsOrder f64 order
        → (v : List F) (sparse : List (Chunk f64)) → Embeds v
        → storage.search_sparse query top_k filters ≡ ok sparse
        → IsAnswer (merged v sparse)
    unfolding merge_from dense_search
    merge_from-IsAnswer is_order v sparse is_v is_sparse =
        go (storage.search_dense v top_k filters) refl
      where
        go :
            (r : Result E (List (Chunk f64)))
            → storage.search_dense v top_k filters ≡ r
            → IsAnswer (
                map_err storage_failed r >>= λ dense. branches_of v dense sparse >>= λ bs.
                ok (reciprocal_rank_fusion f64 order bs (as_usize top_k)))
        go (err e) h = inr (inl (v, is_v, h))
        go (ok dense) h =
            fused-IsAnswer is_order v dense sparse (is_v, h, is_sparse) (branches_of v dense sparse)
              (all_branches-AreBranches v dense sparse)

    -- The embedding, or why there is none.
    abbrev IsEmbedded : Result (HybridSearchError D E) (List F) → Type 0
    IsEmbedded (ok v) = Embeds v
    IsEmbedded (err x) = IsCause x

    embed_query-IsEmbedded : IsEmbedded (embed_query embed query)
    unfolding embed_query
    embed_query-IsEmbedded = go (embed (query ∷ [])) refl
      where
        popped :
            (vs : List (List F))
            → embed (query ∷ []) ≡ ok vs
            → (r : Result (HybridSearchError D E) (List F)) → pop_embedding vs ≡ r
            → IsEmbedded r
        popped vs h (ok v) e = let (us, q) = pop_embedding-last vs v e in (us, h ∙ ap ok q)
        popped vs h (err x) e = let (q, is_x) = pop_embedding-none vs x e in rw is_x (h ∙ ap ok q)

        go :
            (r : Result D (List (List F)))
            → embed (query ∷ []) ≡ r
            → IsEmbedded (map_err embedding r >>= pop_embedding)
        go (err d) h = h
        go (ok vs) h = popped vs h (pop_embedding vs) refl

    -- Going through the map of the merged chunks brings in none and loses none. A search that returns
    -- has the embedding that the embedder returned last, both its first branches answered, and, with
    -- the graph enabled, the graph's: what it returns are chunks of the branches found, each as it
    -- stands where its identifier comes first and with the sum of 1 / (60 + rank) over all its
    -- places. A search that fails names what failed, the embedder or one of the three searches, and
    -- the communities are never the cause.
    pub search-IsAnswer :
        IsOrder f64 order
        → IsAnswer (
            search f64 storage embed seed_order order id_order sparse_fails_first query top_k
              filters settings)
    unfolding search sparse_search try_join
    search-IsAnswer is_order =
        go (embed_query embed query) embed_query-IsEmbedded
          (storage.search_sparse query top_k filters) refl
      where
        either :
            (b : Bool) (x y : HybridSearchError D E)
            → IsCause x
            → IsCause y
            → IsCause (if b then y else x)
        either true x y h k = k
        either false x y h k = h

        go :
            (a : Result (HybridSearchError D E) (List F))
            → IsEmbedded a
            → (r : Result E (List (Chunk f64))) → storage.search_sparse query top_k filters ≡ r
            → IsAnswer (
                try_join sparse_fails_first a (map_err storage_failed r)
                >>= merge_from f64 storage embed seed_order order id_order sparse_fails_first top_k
                    filters settings)
        go (ok v) h (ok sparse) k = merge_from-IsAnswer is_order v sparse h k
        go (ok v) h (err e) k = inl k
        go (err x) h (ok sparse) k = h
        go (err x) h (err e) k = either sparse_fails_first x (storage_failed e) h (inl k)
