-- ===== src/Retrieve/Hybrid.antt =====
-- retrieve/hybrid.rs: the search that merges all the branches. The embedder is a parameter, and so is
-- which of two failed tasks failed first.
pub mod Steps
pub mod Answers
use wend_rag.Base.{ℕ, suc, ◌-◌, List, [], ◌∷◌, ◌++◌, Bool, if◌then◌else◌, map}
use wend_rag.Base.Int.{ℤ, pos, negsuc}
use wend_rag.Base.Text.{Text}
use wend_rag.Base.Float.{Float}
use wend_rag.Base.Result.{Result, ok, err, ◌>>=◌, map_err}
use wend_rag.Retrieve.Fusion.{Chunk, reciprocal_rank_fusion}
use wend_rag.Retrieve.Branches.{
  SearchFilters, SearchBackend, dense_search, sparse_search, community_search,
}

-- D is the error of the embedder, E that of the database.
pub data HybridSearchError (D E : Type 0) : Type 0 where
  embedding : D → HybridSearchError D E
  empty_embedding : HybridSearchError D E
  storage_failed : E → HybridSearchError D E

pub record GraphSettings : Type 0 where
  pub enabled : Bool
  pub traversal_depth : ℕ

-- `top_k as usize`
unfoldable pub as_usize : ℤ → ℕ
as_usize (pos n) = n
as_usize (negsuc n) = 18446744073709551616 - suc n

-- `unwrap_or_default()`
unfoldable pub or_empty : {E A : Type 0} → Result E (List A) → List A
or_empty (ok a) = a
or_empty (err e) = []

unfoldable pub push_unless_empty : {A : Type 0} → List A → List (List A) → List (List A)
push_unless_empty [] branches = branches
push_unless_empty (b ∷ bs) branches = branches ++ ((b ∷ bs) ∷ [])

-- `tokio::try_join!`; where both tasks fail, the error is that of the one which fails first.
unfoldable pub try_join : {E A B : Type 0} → Bool → Result E A → Result E B → Result E (A × B)
try_join second_first (ok a) (ok b) = ok (a, b)
try_join second_first (ok a) (err e) = err e
try_join second_first (err e) (ok b) = err e
try_join second_first (err d) (err e) = err (if second_first then e else d)

module _ {D E F : Type 0} where
  -- `embeddings.pop().ok_or(…)`
  unfoldable pub pop_embedding : List (List F) → Result (HybridSearchError D E) (List F)
  pop_embedding [] = err empty_embedding
  pop_embedding (v ∷ []) = ok v
  pop_embedding (v ∷ w ∷ vs) = pop_embedding (w ∷ vs)

  unfoldable pub embed_query :
      (List Text → Result D (List (List F))) → Text → Result (HybridSearchError D E) (List F)
  embed_query embed query = map_err embedding (embed (query ∷ [])) >>= pop_embedding

-- The parameters of one search: the embedder, the orders of three hash maps, and which task is faster.
module _ {D E F : Type 0} (f64 : Float) (storage : SearchBackend E F (Chunk f64))
    (embed : List Text → Result D (List (List F)))
    (seed_order order : List (Chunk f64) → List (Chunk f64)) (id_order : List ℕ → List ℕ)
    (sparse_fails_first : Bool) where
  unfoldable pub seeds_of : List (List (Chunk f64)) → ℤ → List ℕ
  seeds_of branches top_k =
      map (λ c. c.chunk_id) (reciprocal_rank_fusion f64 seed_order branches (as_usize top_k))

  unfoldable pub with_graph :
      List F
      → ℤ
      → SearchFilters
      → ℕ
      → List (List (Chunk f64))
      → Result (HybridSearchError D E) (List (List (Chunk f64)))
  with_graph dense_embedding top_k filters depth branches =
      let seeds = seeds_of branches top_k in
      let found = community_search storage id_order dense_embedding seeds top_k filters depth in
      map_err storage_failed (storage.search_graph seeds top_k filters depth) >>= λ graph.
      ok (push_unless_empty (or_empty found) (push_unless_empty graph branches))

  unfoldable pub all_branches :
      List F
      → ℤ
      → SearchFilters
      → GraphSettings
      → List (List (Chunk f64))
      → Result (HybridSearchError D E) (List (List (Chunk f64)))
  all_branches dense_embedding top_k filters graph_settings branches =
      if graph_settings.enabled
      then with_graph dense_embedding top_k filters graph_settings.traversal_depth branches
      else ok branches

  unfoldable pub merge_from :
      ℤ
      → SearchFilters
      → GraphSettings
      → List F × List (Chunk f64)
      → Result (HybridSearchError D E) (List (Chunk f64))
  merge_from top_k filters graph_settings both =
      map_err storage_failed (dense_search storage both.0 top_k filters) >>= λ dense.
      all_branches both.0 top_k filters graph_settings (dense ∷ both.1 ∷ []) >>= λ branches.
      ok (reciprocal_rank_fusion f64 order branches (as_usize top_k))

  unfoldable pub search :
      Text → ℤ → SearchFilters → GraphSettings → Result (HybridSearchError D E) (List (Chunk f64))
  search query top_k filters graph_settings =
      try_join sparse_fails_first (embed_query embed query)
        (map_err storage_failed (sparse_search storage query top_k filters))
      >>= merge_from top_k filters graph_settings
