-- ===== src/Retrieve/Fusion.antt =====
-- retrieve/mod.rs, retrieve/fusion.rs: ranked lists of chunks, and merging them by their ranks. The
-- two hash maps are association lists in the order of first insertion; the order in which a map
-- is gone through at the end is not specified, and a parameter. A chunk's identifier is a number.
pub mod Scores
pub mod Merged
pub mod Ranked
use wend_rag.Base.{
  ℕ, suc, ◌+◌, List, [], ◌∷◌, ◌++◌, Option, none, some, Bool, true, false, ◌&&◌, not, ◌==◌,
  if◌then◌else◌, take, map,
}
use wend_rag.Base.Int.{ℤ}
use wend_rag.Base.Text.{Text}
use wend_rag.Base.Sort.{sort}
use wend_rag.Base.Float.{Float}

pub record ScoredChunk (F : Type 0) : Type 0 where
  pub chunk_id : ℕ
  pub content : Text
  pub section_title : Option Text
  pub file_path : Text
  pub file_name : Text
  pub chunk_index : ℤ
  pub score : F

module _ (f : Float) where
  abbrev pub Chunk : Type 0
  Chunk = ScoredChunk f.F

  -- `*scores.entry(id).or_default() += c`
  unfoldable pub add_score : ℕ → f.F → List (ℕ × f.F) → List (ℕ × f.F)
  add_score id c [] = (id, f.add (f.of_ℕ 0) c) ∷ []
  add_score id c (p ∷ ps) = if p.0 == id then (p.0, f.add p.1 c) ∷ ps else p ∷ add_score id c ps

  -- `scores.get(&id).copied().unwrap_or(0.0)`
  unfoldable pub score_of : ℕ → List (ℕ × f.F) → f.F
  score_of id [] = f.of_ℕ 0
  score_of id (p ∷ ps) = if p.0 == id then p.1 else score_of id ps

  -- `chunk_data.entry(id).or_insert_with(|| chunk.clone())`
  unfoldable pub add_chunk : Chunk → List Chunk → List Chunk
  add_chunk chunk [] = chunk ∷ []
  add_chunk chunk (d ∷ ds) = if d.chunk_id == chunk.chunk_id then d ∷ ds else d ∷ add_chunk chunk ds

  abbrev pub Maps : Type 0
  Maps = List (ℕ × f.F) × List Chunk

  -- `1.0 / (k + (rank + 1) as f64)`
  unfoldable pub contribution : f.F → ℕ → f.F
  contribution k rank = f.div (f.of_ℕ 1) (f.add k (f.of_ℕ (rank + 1)))

  unfoldable pub branch_loop : f.F → ℕ → List Chunk → Maps → Maps
  branch_loop k rank [] m = m
  branch_loop k rank (c ∷ cs) m =
      branch_loop k (suc rank) cs (add_score c.chunk_id (contribution k rank) m.0, add_chunk c m.1)

  unfoldable pub branches_loop : f.F → List (List Chunk) → Maps → Maps
  branches_loop k [] m = m
  branches_loop k (b ∷ bs) m = branches_loop k bs (branch_loop k 0 b m)

  unfoldable pub with_score : List (ℕ × f.F) → Chunk → Chunk
  with_score scores chunk = record chunk { score = score_of chunk.chunk_id scores }

  -- `b.score.partial_cmp(&a.score)` is not `Greater`.
  unfoldable pub precedes : Chunk → Chunk → Bool
  precedes a b = not (f.le a.score b.score && not (f.eq a.score b.score))

  unfoldable pub rrf_with_k : (List Chunk → List Chunk) → f.F → List (List Chunk) → ℕ → List Chunk
  rrf_with_k order k branches top_k =
      let maps = branches_loop k branches ([], []) in
      take top_k (sort precedes (map (with_score maps.0) (order maps.1)))

  unfoldable pub reciprocal_rank_fusion :
      (List Chunk → List Chunk) → List (List Chunk) → ℕ → List Chunk
  reciprocal_rank_fusion order branches top_k = rrf_with_k order (f.of_ℕ 60) branches top_k
