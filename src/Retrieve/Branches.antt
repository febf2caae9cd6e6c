-- ===== src/Retrieve/Branches.antt =====
-- retrieve/dense.rs, retrieve/sparse.rs and retrieve/community.rs: the branches of a search, over the
-- searches of a storage backend (store/mod.rs). A UUID is a number. The order in which the set of
-- communities is gone through is not specified, and a parameter.
use wend_rag.Base.{ℕ, List, [], ◌∷◌, ◌++◌, Option, ◌==◌, if◌then◌else◌}
use wend_rag.Base.Int.{ℤ, pos}
use wend_rag.Base.Text.{Text}
use wend_rag.Base.Result.{Result, ok, ◌>>=◌}

pub record SearchFilters : Type 0 where
  pub project : Option Text
  pub file_types : Option (List Text)
  pub tags : Option (List Text)

pub record StoredCommunity (F : Type 0) : Type 0 where
  pub id : ℕ
  pub name : Text
  pub summary : Option Text
  pub project : Option Text
  pub importance : F
  pub entity_count : ℤ

-- The calls of `StorageBackend` that the search makes, on a store that nobody changes meanwhile.
-- E is the error of the database, F `f32`, and C a chunk with its score.
pub record SearchBackend (E F C : Type 0) : Type 0 where
  pub search_dense : List F → ℤ → SearchFilters → Result E (List C)
  pub search_sparse : Text → ℤ → SearchFilters → Result E (List C)
  pub search_graph : List ℕ → ℤ → SearchFilters → ℕ → Result E (List C)
  pub get_communities_for_entities : Option Text → List ℕ → Result E (List (StoredCommunity F))
  pub search_communities_by_embedding :
      Option Text → List F → ℤ → Result E (List (StoredCommunity F))

-- `all_community_ids.insert(c.id)`
unfoldable pub insert_id : ℕ → List ℕ → List ℕ
insert_id id [] = id ∷ []
insert_id id (i ∷ ids) = if i == id then i ∷ ids else i ∷ insert_id id ids

module _ {F : Type 0} where
  unfoldable pub insert_ids : List (StoredCommunity F) → List ℕ → List ℕ
  insert_ids [] ids = ids
  insert_ids (c ∷ cs) ids = insert_ids cs (insert_id c.id ids)

module _ {E F C : Type 0} (storage : SearchBackend E F C) where
  unfoldable pub dense_search : List F → ℤ → SearchFilters → Result E (List C)
  dense_search query_embedding top_k filters = storage.search_dense query_embedding top_k filters

  unfoldable pub sparse_search : Text → ℤ → SearchFilters → Result E (List C)
  sparse_search query top_k filters = storage.search_sparse query top_k filters

  unfoldable pub graph_of_communities :
      (List ℕ → List ℕ) → ℤ → SearchFilters → ℕ → List ℕ → Result E (List C)
  graph_of_communities order top_k filters depth [] = ok []
  graph_of_communities order top_k filters depth (id ∷ ids) =
      storage.search_graph (order (id ∷ ids)) top_k filters depth

  unfoldable pub community_search :
      (List ℕ → List ℕ) → List F → List ℕ → ℤ → SearchFilters → ℕ → Result E (List C)
  community_search order query_embedding seed_chunk_ids top_k filters depth =
      storage.get_communities_for_entities filters.project seed_chunk_ids >>= λ near.
      storage.search_communities_by_embedding filters.project query_embedding (pos 5) >>= λ alike.
      graph_of_communities order top_k filters depth (insert_ids (near ++ alike) [])
