-- ===== src/Tests/Search.antt =====
-- retrieve/router.rs, retrieve/fusion.rs and retrieve/hybrid.rs on small inputs.
use wend_rag.Base.{ℕ, List, [], ◌∷◌, none, true, false, refl, All, arith}
use wend_rag.Base.Int.{pos}
use wend_rag.Base.Result.{Result, ok, err}
use wend_rag.Base.Float.{naturals, IsOrdered}
use wend_rag.Base.Unicode.{ascii}
use wend_rag.Base.Text.{Text, codes}
use wend_rag.Base.Sort.{leb_total, leb_trans}
use wend_rag.Retrieve.Router.{default_config, scope_for, route}
use wend_rag.Retrieve.Router.Scopes.{
  IsVerdict, scope_for-IsVerdict, FollowsScope, route-FollowsScope,
}
use wend_rag.Retrieve.Fusion.{Chunk, rrf_with_k}
use wend_rag.Retrieve.Fusion.Merged.{IsFused, IsOrder, rrf_with_k-IsFused}
use wend_rag.Retrieve.Fusion.Ranked.{IsRanked, rrf_with_k-IsRanked}
use wend_rag.Retrieve.Branches.{SearchFilters, SearchBackend}
use wend_rag.Retrieve.Hybrid.{HybridSearchError, GraphSettings, search}
use wend_rag.Retrieve.Hybrid.Answers.{IsAnswer, search-IsAnswer}

scope_for-IsVerdict_example : IsVerdict 5 4 (scope_for 5 4)
scope_for-IsVerdict_example = scope_for-IsVerdict 5 4

route-FollowsScope_example :
    FollowsScope (route ascii default_config (codes "What is the overview?"))
route-FollowsScope_example = route-FollowsScope ascii (codes "What is the overview?")

abbrev chunk : ℕ → Chunk naturals
chunk id = record {
  chunk_id = id;
  content = codes "text";
  section_title = none;
  file_path = codes "/a.md";
  file_name = codes "a.md";
  chunk_index = pos 0;
  score = 0;
}

abbrev branches : List (List (Chunk naturals))
branches = (chunk 1 ∷ chunk 2 ∷ []) ∷ (chunk 2 ∷ chunk 3 ∷ []) ∷ []

abbrev as_stored : List (Chunk naturals) → List (Chunk naturals)
as_stored ds = ds

is_order : IsOrder naturals as_stored
is_order = record { keeps = λ P ds h. h; as_many = λ ds. refl }

rrf_with_k-IsFused_example :
    All (IsFused naturals 0 branches) (rrf_with_k naturals as_stored 0 branches 2)
rrf_with_k-IsFused_example = rrf_with_k-IsFused naturals as_stored 0 branches 2 is_order

naturals_ordered : IsOrdered naturals
naturals_ordered = record {
  le_total = leb_total;
  le_trans = leb_trans;
  le_antisym = λ a b h k. ground (arith, h, k);
  eq_le = λ a b h. ground (arith, h);
}

rrf_with_k-IsRanked_example :
    IsRanked naturals 0 branches 2 (rrf_with_k naturals as_stored 0 branches 2)
rrf_with_k-IsRanked_example =
    rrf_with_k-IsRanked naturals naturals_ordered as_stored 0 branches 2 (λ P ds h. h)

-- A store whose searches each find something, but for that of the communities, which fails.
abbrev shop : SearchBackend ℕ ℕ (Chunk naturals)
shop = record {
  search_dense = λ v top_k filters. ok (chunk 1 ∷ chunk 2 ∷ []);
  search_sparse = λ query top_k filters. ok (chunk 2 ∷ chunk 3 ∷ []);
  search_graph = λ seeds top_k filters depth. ok (chunk 4 ∷ []);
  get_communities_for_entities = λ project ids. err 7;
  search_communities_by_embedding = λ project v top_k. ok [];
}

abbrev embed : List Text → Result ℕ (List (List ℕ))
embed texts = ok ((1 ∷ []) ∷ (2 ∷ []) ∷ [])

abbrev everything : SearchFilters
everything = record { project = none; file_types = none; tags = none }

abbrev one_step : GraphSettings
one_step = record { enabled = true; traversal_depth = 1 }

abbrev searched : Result (HybridSearchError ℕ ℕ) (List (Chunk naturals))
searched =
    search naturals shop embed as_stored as_stored (λ ids. ids) false (codes "q") (pos 10)
      everything one_step

search-IsAnswer_example :
    IsAnswer naturals shop embed as_stored as_stored
      (λ ids. ids)
      false
      (codes "q")
      (pos 10)
      everything
      one_step
      searched
search-IsAnswer_example =
    search-IsAnswer naturals shop embed as_stored as_stored (λ ids. ids) false (codes "q") (pos 10)
      everything one_step is_order
