-- ===== src/Ingest/Semantic/Groups.antt =====
-- `split_into_max_sentences` and `group_sentences_at_breaks_maxmin`. The sentences are cut and never
-- read, so they are items of any type.
pub mod Partition
use wend_rag.Base.{
  ℕ, zero, suc, ◌+◌, ◌-◌, ◌/◌, List, [], ◌∷◌, ◌++◌, Option, none, some, Bool, ◌&&◌, ◌||◌, leb, ltb,
  if◌then◌else◌, length, is_empty, drop, map, min,
}
use wend_rag.Base.Sort.{sort, dedup}
use wend_rag.Ingest.Window.{slice}
use mathlib.Core.Option

abbrev pub sentence_group_size : ℕ
sentence_group_size = 3

module _ {ℓ} {A : Type ℓ} where
  -- `while pos < brk { groups.push(sentences[pos..end]); pos = end }`, which both functions contain;
  -- `none` when the fuel runs out.
  pub max_loop : ℕ → List A → ℕ → ℕ → ℕ → Option (List (List A))
  max_loop zero sentences max_sentences brk pos = none
  max_loop (suc fuel) sentences max_sentences brk pos =
      let end = min (pos + max_sentences) brk in
      let rest = max_loop fuel sentences max_sentences brk end in
      if ltb pos brk then Option.map (λ groups. slice sentences pos end ∷ groups) rest else some []

  unfoldable pub split_into_max_sentences : List A → ℕ → Option (List (List A))
  unfolding max_loop
  split_into_max_sentences sentences max_sentences =
      if leb (length sentences) max_sentences
      then some (sentences ∷ [])
      else max_loop (suc (length sentences)) sentences max_sentences (length sentences) 0

  -- The group, or the groups, of the sentences from `start` to `brk`.
  unfoldable pub groups_to : List A → ℕ → ℕ → ℕ → Option (List (List A))
  unfolding max_loop
  groups_to sentences max_sentences start brk =
      if ltb max_sentences (brk - start)
      then max_loop (suc brk) sentences max_sentences brk start
      else some (slice sentences start brk ∷ [])

  abbrev append? : Option (List (List A)) → Option (List (List A)) → Option (List (List A))
  append? none more = none
  append? (some groups) none = none
  append? (some groups) (some more) = some (groups ++ more)

  -- The `for` loop over the break indices, and what follows it for the sentences left.
  pub break_loop : List A → ℕ → List ℕ → ℕ → Option (List (List A))
  break_loop sentences max_sentences [] start =
      if ltb start (length sentences)
      then split_into_max_sentences (drop start sentences) max_sentences
      else some []
  break_loop sentences max_sentences (brk ∷ brks) start =
      let cut =
        append? (groups_to sentences max_sentences start brk)
          (break_loop sentences max_sentences brks brk) in
      let skip = break_loop sentences max_sentences brks start in
      if ltb start brk && leb brk (length sentences) then cut else skip

  -- `break_sentence_indices`: a break between windows as one between sentences
  unfoldable pub break_indices : List A → List ℕ → List ℕ
  unfolding sort dedup
  break_indices sentences breakpoints =
      dedup (
        sort leb
          (map (λ bp. min (bp + sentence_group_size / 2 + 1) (length sentences)) breakpoints))

  unfoldable pub group_sentences_at_breaks_maxmin :
      List A → List ℕ → List (List A) → ℕ → Option (List (List A))
  unfolding break_loop split_into_max_sentences groups_to break_indices
  group_sentences_at_breaks_maxmin sentences breakpoints windows max_sentences =
      if is_empty breakpoints || is_empty windows
      then split_into_max_sentences sentences max_sentences
      else break_loop sentences max_sentences (break_indices sentences breakpoints) 0
