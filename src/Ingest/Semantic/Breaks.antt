-- ===== src/Ingest/Semantic/Breaks.antt =====
-- `find_breakpoints_maxmin` and `cosine_similarity` of ingest/chunker_semantic.rs.
pub mod Forced
use wend_rag.Base.{
  ℕ, zero, suc, ◌+◌, ◌-◌, List, [], ◌∷◌, ◌++◌, Option, none, some, Bool, true, false, ◌&&◌, ◌||◌,
  leb, ltb, if◌then◌else◌, ◌>>=◌, length, is_empty, any, get_elem?, min,
}
use wend_rag.Base.Float.{Float}
use wend_rag.Base.Sort.{sort, dedup}
use wend_rag.Ingest.Semantic.Groups.{sentence_group_size}

module _ (f32 : Float) where
  -- `a.iter().zip(b).map(|(x, y)| x * y).sum()`, summed from `acc` on
  unfoldable pub dot_from : f32.F → List f32.F → List f32.F → f32.F
  dot_from acc [] ys = acc
  dot_from acc (x ∷ xs) [] = acc
  dot_from acc (x ∷ xs) (y ∷ ys) = dot_from (f32.add acc (f32.mul x y)) xs ys

  unfoldable pub cosine_similarity : List f32.F → List f32.F → f32.F
  unfolding dot_from
  cosine_similarity a b =
      let zero_f = f32.of_ℕ 0 in
      let dot = dot_from zero_f a b in
      let norm_a = f32.sqrt (dot_from zero_f a a) in
      let norm_b = f32.sqrt (dot_from zero_f b b) in
      if f32.eq norm_a zero_f || f32.eq norm_b zero_f
      then zero_f
      else f32.div dot (f32.mul norm_a norm_b)

  -- The indices, from `i` on, of the similarities that are at most `threshold`.
  pub semantic_breaks : f32.F → List f32.F → ℕ → List ℕ
  semantic_breaks threshold [] i = []
  semantic_breaks threshold (sim ∷ sims) i =
      let rest = semantic_breaks threshold sims (i + 1) in
      if f32.le sim threshold then i ∷ rest else rest

-- `(*bp).abs_diff(forced_break) < SENTENCE_GROUP_SIZE`
unfoldable pub is_near : ℕ → ℕ → Bool
is_near forced_break bp =
    ltb (if leb bp forced_break then forced_break - bp else bp - forced_break) sentence_group_size

-- Adds a forced break where none is near.
unfoldable pub add_unless_near : ℕ → List ℕ → List ℕ
unfolding is_near
add_unless_near forced_break breakpoints =
    if any (is_near forced_break) breakpoints then breakpoints else breakpoints ++ forced_break ∷ []

-- The `while` loop that adds the forced breaks; `none` when the fuel runs out.
pub forced_loop : ℕ → ℕ → ℕ → ℕ → List ℕ → Option (List ℕ)
forced_loop zero len interval forced_break breakpoints = none
forced_loop (suc fuel) len interval forced_break breakpoints =
    let rest =
      forced_loop fuel len interval (forced_break + interval)
        (add_unless_near forced_break breakpoints) in
    if ltb forced_break len then rest else some breakpoints

-- The forced breaks, where the interval is positive.
unfoldable pub add_forced : ℕ → ℕ → List ℕ → Option (List ℕ)
unfolding forced_loop add_unless_near
add_forced max_sentences len breakpoints =
    let interval = max_sentences - sentence_group_size in
    if ltb 0 interval
    then forced_loop (suc len) len interval interval breakpoints
    else some breakpoints

module _ (f32 f64 : Float) where
  -- `sorted[percentile_idx.min(sorted.len() - 1)]`; the similarities hold no NaN, so that the sort is
  -- one by a total order.
  unfoldable pub threshold_of : List f32.F → f64.F → Option f32.F
  unfolding sort
  threshold_of similarities threshold_percentile =
      let sorted = sort f32.le similarities in
      let percentile_idx = f64.ceil (f64.mul (f64.of_ℕ (length sorted)) threshold_percentile) in
      get_elem? sorted (min percentile_idx (length sorted - 1))

  -- `none` stands for an index out of bounds or a loop that does not end.
  unfoldable pub find_breakpoints_maxmin : List f32.F → f64.F → ℕ → Option (List ℕ)
  find_breakpoints_maxmin similarities threshold_percentile max_sentences =
      if is_empty similarities then some [] else do
        threshold ← threshold_of similarities threshold_percentile
        breakpoints ←
            add_forced max_sentences (length similarities)
              (semantic_breaks f32 threshold similarities 0)
        some (dedup (sort leb breakpoints))
