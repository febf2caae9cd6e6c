-- ===== src/Ingest/Semantic/Groups/Partition.antt =====
-- The groups are the sentences, in order and none twice, cut into runs of bounded length.
use wend_rag.Base.{
  ℕ, zero, suc, ◌+◌, ◌-◌, ◌≤◌, ◌<◌, List, [], ◌∷◌, ◌++◌, Option, none, some, ◌||◌, length, is_empty,
  take, drop, min, concat, All, All-append, concat-append, ◌≡◌, refl, sym, ap, ◌∙◌, append-nil,
  arith, length-take, length-drop, Bool-cases, inl, inr,
}
use wend_rag.Ingest.Window.{slice}
use wend_rag.Ingest.Semantic.Groups.{
  break_indices, max_loop, split_into_max_sentences, groups_to, break_loop,
  group_sentences_at_breaks_maxmin,
}
use native.Mathlib.Decide.{dec_lt, dec_le}

module _ {ℓ} {A : Type ℓ} where
  drop_nil : (n : ℕ) → drop {A = A} n [] ≡ []
  drop_nil zero = refl
  drop_nil (suc n) = refl

  take_nil : (n : ℕ) → take {A = A} n [] ≡ []
  take_nil zero = refl
  take_nil (suc n) = refl

  drop-drop : (a b : ℕ) (xs : List A) → drop a (drop b xs) ≡ drop (b + a) xs
  drop-drop a zero xs = ap (λ n. drop n xs) (omega arith)
  drop-drop a (suc b) [] = drop_nil a ∙ sym (drop_nil (suc b + a))
  drop-drop a (suc b) (x ∷ xs) =
      let e : suc (b + a) ≡ suc b + a = omega arith in
      drop-drop a b xs ∙ ap (λ n. drop n (x ∷ xs)) e

  take-append : (a b : ℕ) (xs : List A) → take a xs ++ take b (drop a xs) ≡ take (a + b) xs
  take-append zero b xs = ap (λ n. take n xs) (omega arith)
  take-append (suc a) b [] = take_nil b ∙ sym (take_nil (suc a + b))
  take-append (suc a) b (x ∷ xs) =
      let e : suc (a + b) ≡ suc a + b = omega arith in
      ap (λ t. x ∷ t) (take-append a b xs) ∙ ap (λ n. take n (x ∷ xs)) e

  -- `sentences[a..c]` in one piece and cut at `b`.
  slice-append :
      (xs : List A) (a b c : ℕ) → a ≤ b → b ≤ c → slice xs a b ++ slice xs b c ≡ slice xs a c
  slice-append xs a b c h k =
      ap (λ t. slice xs a b ++ take (c - b) t)
        (ap (λ n. drop n xs) (omega arith) ∙ sym (drop-drop (b - a) a xs))
      ∙ take-append (b - a) (c - b) (drop a xs)
      ∙ ap (λ n. take n (drop a xs)) (omega arith)

  take_all : (n : ℕ) (xs : List A) → length xs ≤ n → take n xs ≡ xs
  take_all zero [] h = refl
  take_all zero (x ∷ xs) h = absurd (omega arith)
  take_all (suc n) [] h = refl
  take_all (suc n) (x ∷ xs) h = ap (λ t. x ∷ t) (take_all n xs (omega arith))

  drop_all : (n : ℕ) (xs : List A) → length xs ≤ n → drop n xs ≡ []
  drop_all n [] h = drop_nil n
  drop_all zero (x ∷ xs) h = absurd (omega arith)
  drop_all (suc n) (x ∷ xs) h = drop_all n xs (omega arith)

  -- A slice up to the end is what is left.
  slice_to_end : (xs : List A) (a : ℕ) → slice xs a (length xs) ≡ drop a xs
  slice_to_end xs a = take_all (length xs - a) (drop a xs) (omega (arith, length-drop a xs))

  length-slice : (xs : List A) (a b : ℕ) → b ≤ length xs → length (slice xs a b) ≡ b - a
  length-slice xs a b h = omega (arith, length-take (b - a) (drop a xs), length-drop a xs)

  module _ (max_sentences : ℕ) where
    -- A group is not empty and has at most `max_sentences` sentences.
    abbrev pub IsGroup : List A → Type 0
    IsGroup g = (1 ≤ length g) × (length g ≤ max_sentences)

    -- The call returns groups that make up `part`.
    abbrev pub Partitions : Option (List (List A)) → List A → Type ℓ
    Partitions result part =
        (groups : List (List A)) × (result ≡ some groups)
        × (concat groups ≡ part)
        × All IsGroup groups

    module _ (sentences : List A) (max_pos : 1 ≤ max_sentences) where
      max_loop-Partitions :
          (fuel brk pos : ℕ)
          → brk ≤ length sentences
          → pos ≤ brk
          → brk < pos + fuel
          → Partitions (max_loop fuel sentences max_sentences brk pos) (slice sentences pos brk)
      unfolding max_loop
      max_loop-Partitions zero brk pos h k l = absurd (omega arith)
      max_loop-Partitions (suc fuel) brk pos h k l = elim (dec_lt pos brk) [
        | no out ↦
            let e : 0 ≡ brk - pos = omega arith in
            ([], ground arith, ap (λ n. take n (drop pos sentences)) e, tt)
        | yes more ↦
            let end = min (pos + max_sentences) brk in
            let (groups, e, flat, sizes) =
              max_loop-Partitions fuel brk end h (omega arith) (omega arith) in
            (
              slice sentences pos end ∷ groups,
              ground (arith, e),
              ap (λ t. slice sentences pos end ++ t) flat
                  ∙ slice-append sentences pos end brk (omega arith) (omega arith),
              (
                (
                  omega (arith, length-slice sentences pos end (omega arith)),
                  omega (arith, length-slice sentences pos end (omega arith)),
                ),
                sizes,
              ),
            )
      ]

      groups_to-Partitions :
          (start brk : ℕ)
          → start < brk
          → brk ≤ length sentences
          → Partitions (groups_to sentences max_sentences start brk) (slice sentences start brk)
      unfolding groups_to
      groups_to-Partitions start brk h k = elim (dec_lt max_sentences (brk - start)) [
        | yes long ↦
            let (groups, e, flat, sizes) =
              max_loop-Partitions (suc brk) brk start k (omega arith) (omega arith) in
            (groups, ground (arith, e), flat, sizes)
        | no short ↦ (
          slice sentences start brk ∷ [],
          ground arith,
          append-nil _,
          (
            (
              omega (arith, length-slice sentences start brk k),
              omega (arith, length-slice sentences start brk k),
            ),
            tt,
          ),
        )
      ]

    split_into-Partitions :
        (sentences : List A)
        → 1 ≤ max_sentences
        → 1 ≤ length sentences
        → Partitions (split_into_max_sentences sentences max_sentences) sentences
    unfolding split_into_max_sentences
    split_into-Partitions sentences h k = elim (dec_le (length sentences) max_sentences) [
      | yes short ↦ (sentences ∷ [], ground arith, append-nil sentences, ((k, short), tt))
      | no long ↦
          let (groups, e, flat, sizes) =
            max_loop-Partitions sentences h (suc (length sentences)) (length sentences) 0
              (omega arith) (omega arith) (omega arith) in
          (groups, ground (arith, e), flat ∙ slice_to_end sentences 0, sizes)
    ]

    module _ (sentences : List A) (max_pos : 1 ≤ max_sentences) where
      break_loop-Partitions :
          (brks : List ℕ) (start : ℕ)
          → start ≤ length sentences
          → Partitions (break_loop sentences max_sentences brks start) (drop start sentences)
      unfolding break_loop
      break_loop-Partitions [] start h = elim (dec_lt start (length sentences)) [
        | yes more ↦
            let (groups, e, flat, sizes) =
              split_into-Partitions (drop start sentences) max_pos
                (omega (arith, length-drop start sentences)) in
            (groups, ground (arith, e), flat, sizes)
        | no out ↦ ([], ground arith, sym (drop_all start sentences (omega arith)), tt)
      ]
      break_loop-Partitions (brk ∷ brks) start h = elim (dec_lt start brk) [
        | no back ↦
            let (groups, e, flat, sizes) = break_loop-Partitions brks start h in
            (groups, ground (arith, e), flat, sizes)
        | yes ahead ↦ elim (dec_le brk (length sentences)) [
          | no past ↦
              let (groups, e, flat, sizes) = break_loop-Partitions brks start h in
              (groups, ground (arith, e), flat, sizes)
          | yes inside ↦
              let (groups, e, flat, sizes) =
                groups_to-Partitions sentences max_pos start brk ahead inside in
              let (more, e', flat', sizes') = break_loop-Partitions brks brk inside in
              (
                groups ++ more,
                ground (arith, e, e'),
                concat-append groups more
                    ∙ ap (λ t. t ++ concat more) flat
                    ∙ ap (λ t. slice sentences start brk ++ t)
                        (flat' ∙ sym (slice_to_end sentences brk))
                    ∙ slice-append sentences start brk (length sentences) (omega arith) inside
                    ∙ slice_to_end sentences start,
                All-append IsGroup groups more sizes sizes',
              )
        ]
      ]

-- For a positive `max_sentences` and at least one sentence, whatever the break points and the
-- windows: the grouping ends, the groups are the sentences in their order, and each has between 1
-- and `max_sentences` sentences.
pub group_sentences-Partitions {ℓ} :
    {A : Type ℓ} (sentences : List A) (breakpoints : List ℕ) (windows : List (List A))
    (max_sentences : ℕ)
    → 1 ≤ max_sentences
    → 1 ≤ length sentences
    → Partitions max_sentences
        (group_sentences_at_breaks_maxmin sentences breakpoints windows max_sentences)
        sentences
unfolding group_sentences_at_breaks_maxmin
group_sentences-Partitions sentences breakpoints windows max_sentences h k =
    elim (Bool-cases (is_empty breakpoints || is_empty windows)) [
      | inl e ↦ rw e (split_into-Partitions max_sentences sentences h k)
      | inr e ↦ rw e (
          break_loop-Partitions max_sentences sentences h (break_indices sentences breakpoints) 0
            (omega arith))
    ]

-- With `max_sentences = 0` the loop never moves: however many rounds it is given, it does not end.
pub max_loop_zero_diverges {ℓ} :
    {A : Type ℓ} (fuel : ℕ) (sentences : List A) (brk pos : ℕ)
    → pos < brk
    → max_loop fuel sentences 0 brk pos ≡ none
unfolding max_loop
max_loop_zero_diverges zero sentences brk pos h = refl
max_loop_zero_diverges (suc fuel) sentences brk pos h =
    let stay : min (pos + 0) brk ≡ pos = omega arith in
    ground (arith, stay, max_loop_zero_diverges fuel sentences brk pos h)
