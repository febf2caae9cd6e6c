-- ===== src/Ingest/Semantic/Split/Sizes.antt =====
-- The sizes of the chunks that a semantic split returns.
use wend_rag.Base.{
  ℕ, ◌≤◌, ◌<◌, List, [], ◌∷◌, ◌++◌, some, true, false, leb, ltb, if◌then◌else◌, length, is_empty,
  map, All, All-append, ◌⊎◌, Bool, length-map, ◌≡◌, ◌≢◌, refl, arith, Bool-cases, inl, inr, leb→le,
}
use native.Mathlib.Nat.{le_trans}
use wend_rag.Base.Float.{Float}
use wend_rag.Base.Outcome.{Outcome, done}
use wend_rag.Base.Text.{Text, codes, byte_len, trim, join}
use wend_rag.Base.Text.Laws.{length-le-byte_len}
use wend_rag.Base.Unicode.{Unicode}
use wend_rag.Ingest.Window.{push_unless_blank}
use wend_rag.Ingest.Window.Coverage.{IsWindow, split_with_overlap_covers}
use wend_rag.Ingest.Sentences.{split_sentences, filter_garbage_sentences}
use wend_rag.Ingest.Semantic.Groups.{sentence_group_size}
use wend_rag.Ingest.Semantic.Groups.Partition.{group_sentences-Partitions}
use wend_rag.Ingest.Semantic.Breaks.{find_breakpoints_maxmin}
use wend_rag.Ingest.Semantic.Breaks.Forced.{find_breakpoints-AreBreaks}
use wend_rag.Ingest.Semantic.Split.{
  build_sentence_windows, windows_of, pack_groups, similarities_of, split_at_topics, semantic_split,
  text_window_overlap,
}

push_unless_blank-IsWindow :
    (n : ℕ) (chunk : Text) (rest : List Text)
    → length chunk ≤ n
    → All (IsWindow n) rest
    → All (IsWindow n) (push_unless_blank chunk rest)
unfolding push_unless_blank
push_unless_blank-IsWindow n chunk rest h all = elim (Bool-cases (is_empty (trim chunk))) [
  | inl e ↦ rw e all
  | inr e ↦ rw e ((h, ne_of_is_empty (trim chunk) e), all)
]
  where
    ne_of_is_empty : (t : Text) → is_empty t ≡ false → t ≢ []
    ne_of_is_empty [] e k = cc
    ne_of_is_empty (c ∷ t) e k = cc

pack_groups-IsWindow :
    (n : ℕ) (groups : List (List Text))
    → 1 ≤ n
    → (chunks : List Text) × (pack_groups n groups ≡ some chunks) × All (IsWindow n) chunks
unfolding pack_groups
pack_groups-IsWindow n [] h = ([], refl, tt)
pack_groups-IsWindow n (group ∷ groups) h =
    let joined = join (codes " ") group in
    let (rest, e, sizes) = pack_groups-IsWindow n groups h in
    elim (Bool-cases (leb (byte_len joined) n)) [
      | inl small ↦ (
        push_unless_blank joined rest,
        rw (e, small),
        push_unless_blank-IsWindow n joined rest
            (le_trans (length-le-byte_len joined) (leb→le _ _ small)) sizes,
      )
      | inr big ↦
          let (windows, we, wsizes, _) = split_with_overlap_covers joined n text_window_overlap h in
          (windows ++ rest, rw (e, big, we), All-append (IsWindow n) windows rest wsizes sizes)
    ]

length-windows_of {ℓ} :
    {A : Type ℓ} (xs : List A) → 3 < length xs → 1 < length (windows_of sentence_group_size xs)
unfolding windows_of
length-windows_of [] h = absurd (omega arith)
length-windows_of (a ∷ []) h = absurd (omega arith)
length-windows_of (a ∷ b ∷ []) h = absurd (omega arith)
length-windows_of (a ∷ b ∷ c ∷ []) h = absurd (omega arith)
length-windows_of (a ∷ b ∷ c ∷ d ∷ xs) h = ground arith

-- Four sentences or more make at least two windows.
build_sentence_windows-many {ℓ} :
    {A : Type ℓ} (xs : List A)
    → 3 < length xs
    → leb (length (build_sentence_windows xs sentence_group_size)) 1 ≡ false
unfolding build_sentence_windows
build_sentence_windows-many xs h = ground (arith, length-windows_of xs h)

-- Three or fewer make one.
build_sentence_windows-few {ℓ} :
    {A : Type ℓ} (xs : List A)
    → length xs ≤ 3
    → build_sentence_windows xs sentence_group_size ≡ xs ∷ []
unfolding build_sentence_windows
build_sentence_windows-few xs h = ground arith

module _ (u : Unicode) (f32 f64 : Float) where
  find_breakpoints-some :
      (sims : List f32.F) (p : f64.F) (n : ℕ)
      → (breaks : List ℕ) × (find_breakpoints_maxmin f32 f64 sims p n ≡ some breaks)
  find_breakpoints-some [] p n = ([], unfold find_breakpoints_maxmin in refl)
  find_breakpoints-some (s ∷ sims) p n =
      let (t, breaks, _, e, _) = find_breakpoints-AreBreaks f32 f64 (s ∷ sims) p n (omega arith) in
      (breaks, e)

  module _ {E : Type 0} (embed : List Text → Outcome E (List (List f32.F))) where
    pub split_at_topics-IsWindow :
        (sentences : List Text) (max_chunk_chars : ℕ) (threshold : f64.F) (max_sentences : ℕ)
        (embeddings : List (List f32.F))
        → 3 < length sentences
        → 1 ≤ max_chunk_chars
        → 1 ≤ max_sentences
        → embed (map (join (codes " ")) (build_sentence_windows sentences sentence_group_size))
          ≡ done embeddings
        → 2 ≤ length embeddings
        → (chunks : List Text) × (split_at_topics u f32 f64 embed sentences max_chunk_chars
              threshold max_sentences
            ≡ done chunks)
          × All (IsWindow max_chunk_chars) chunks
    unfolding split_at_topics
    split_at_topics-IsWindow sentences max_chars threshold n embeddings many h k embedded two =
        let sims = similarities_of u f32 f64 embeddings in
        let windows = build_sentence_windows sentences sentence_group_size in
        let (breaks, be) = find_breakpoints-some sims threshold n in
        let (groups, ge, _, _) =
          group_sentences-Partitions sentences breaks windows n k (omega arith) in
        let (chunks, ce, sizes) = pack_groups-IsWindow max_chars groups h in
        let enough : ltb (length embeddings) 2 ≡ false = ground arith in
        (
          chunks,
          rw (build_sentence_windows-many sentences many, embedded, enough, be, ge, ce),
          sizes,
        )

    -- The sentences that are left of a text.
    abbrev pub kept : Text → Bool → List Text
    kept text filter_garbage =
        let sentences = split_sentences u text in
        if filter_garbage then filter_garbage_sentences u sentences else sentences

    -- A text with one sentence or none left comes back whole, one to three sentences joined, and of
    -- more sentences all the chunks keep the limit.
    abbrev pub IsSplit : Text → ℕ → Bool → List Text → Type 0
    IsSplit text max_chunk_chars filter_garbage chunks =
        let sentences = split_sentences u text in
        (((length sentences ≤ 1) ⊎ (kept text filter_garbage ≡ [])) × (chunks ≡ text ∷ []))
        ⊎ ((1 < length sentences)
            × (1 ≤ length (kept text filter_garbage))
            × (length (kept text filter_garbage) ≤ 3)
            × (chunks ≡ join (codes " ") (kept text filter_garbage) ∷ []))
        ⊎ ((1 < length sentences)
            × (3 < length (kept text filter_garbage))
            × All (IsWindow max_chunk_chars) chunks)

    -- With an embedder that gives a vector for each text, and positive limits, a semantic split ends.
    -- A text of at most one sentence, or of which the filter leaves none, comes back whole, one to
    -- three sentences that are left come back as one chunk, however long, and of more sentences no
    -- chunk is blank or has more than `max_chunk_chars` characters.
    pub semantic_split-IsSplit :
        (text : Text) (max_chunk_chars : ℕ) (threshold : f64.F) (max_sentences : ℕ)
        (filter_garbage : Bool)
        → 1 ≤ max_chunk_chars
        → 1 ≤ max_sentences
        → ((ts : List Text)
            → (vs : List (List f32.F)) × (embed ts ≡ done vs) × (length vs ≡ length ts))
        → (chunks : List Text) × (semantic_split u f32 f64 embed text max_chunk_chars threshold
              max_sentences filter_garbage
            ≡ done chunks)
          × IsSplit text max_chunk_chars filter_garbage chunks
    unfolding semantic_split
    semantic_split-IsSplit text max_chars threshold n filter_garbage h k embeds =
        let ss = split_sentences u text in
        let left = kept text filter_garbage in
        elim (Bool-cases (leb (length ss) 1)) [
          | inl one ↦ (text ∷ [], rw one refl, inl (inl (leb→le _ _ one), refl))
          | inr more ↦ elim (Bool-cases (is_empty left)) [
            | inl none_left ↦
                (text ∷ [], rw (more, none_left) refl, inl (inr (nil_of left none_left), refl))
            | inr some_left ↦ elim (Bool-cases (leb (length left) 3)) [
              | inl few ↦ (
                join (codes " ") left ∷ [],
                rw (more, some_left) (few_lem left (leb→le _ _ few)),
                inr (inl (ground (arith, more), positive left some_left, leb→le _ _ few, refl)),
              )
              | inr many ↦
                  let windows = build_sentence_windows left sentence_group_size in
                  let (vs, called, count) = embeds (map (join (codes " ")) windows) in
                  let above : 3 < length left = ground (arith, many) in
                  let several = build_sentence_windows-many left above in
                  let (chunks, e, sizes) =
                    split_at_topics-IsWindow left max_chars threshold n vs above h k called
                      (ground (arith, several, count, length-map (join (codes " ")) windows)) in
                  (chunks, rw (more, some_left) e, inr (inr (ground (arith, more), above, sizes)))
            ]
          ]
        ]
      where
        nil_of : (ts : List Text) → is_empty ts ≡ true → ts ≡ []
        nil_of [] e = refl
        nil_of (t ∷ ts) e = cc

        positive : (ts : List Text) → is_empty ts ≡ false → 1 ≤ length ts
        positive [] e = cc
        positive (t ∷ ts) e = omega arith

        few_lem :
            (ts : List Text)
            → length ts ≤ 3
            → split_at_topics u f32 f64 embed ts max_chars threshold n
              ≡ done (join (codes " ") ts ∷ [])
        few_lem ts few = unfold split_at_topics in rw (build_sentence_windows-few ts few) refl
