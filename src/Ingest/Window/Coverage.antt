-- ===== src/Ingest/Window/Coverage.antt =====
-- What the windows hold: no character but white space is lost, and no window is too long.
use wend_rag.Base.{
  ℕ, zero, suc, ◌+◌, ◌-◌, ◌≤◌, ◌<◌, List, [], ◌∷◌, some, false, min, length, is_empty, take, drop,
  get_elem?, ◌≡◌, ◌≢◌, refl, sym, ◌∙◌, ap, All, Any, length-take, length-drop, get_elem?-take,
  get_elem?-drop, get_elem?-lt, arith, inl, inr, ◌⊎◌,
}
use wend_rag.Base.Text.{Text, trim, is_whitespace}
use wend_rag.Base.Text.Laws.{ink, ink-trim}
use wend_rag.Ingest.Window.{push_unless_blank, slice, window_loop, window_step, split_with_overlap}
use native.Mathlib.Decide.{dec_lt}

-- A chunk that is a contiguous part of the text, and holds its position `i`.
pub record CoversAt (text : Text) (i : ℕ) (chunk : Text) : Type 0 where
  pub start : ℕ
  pub start_le : start ≤ i
  pub lt_end : i < start + length chunk
  pub is_slice : chunk ≡ take (length chunk) (drop start text)

ink-ne-nil :
    (s : Text) (j : ℕ) (c : ℕ) → get_elem? s j ≡ some c → is_whitespace c ≡ false → ink s ≢ []
ink-ne-nil [] j c h w = cc
ink-ne-nil (d ∷ s) zero c h w = ground arith
ink-ne-nil (d ∷ s) (suc j) c h w = ground (arith, ink-ne-nil s j c h w)

empty-cases : (s : Text) → (s ≡ []) ⊎ (s ≢ [])
empty-cases [] = inl refl
empty-cases (c ∷ s) = inr (λ e. cc e)

is_empty-false : (s : Text) → s ≢ [] → is_empty s ≡ false
is_empty-false [] h = absurd (h refl)
is_empty-false (c ∷ s) h = refl

-- Every chunk has between 1 and `window` characters and is not blank.
abbrev pub IsWindow : ℕ → Text → Type 0
IsWindow window chunk = (length chunk ≤ window) × (trim chunk ≢ [])

module _ (text : Text) (window : ℕ) where
  abbrev slice_from : ℕ → Text
  slice_from pos = slice text pos (min (pos + window) (length text))

  length-slice_from :
      (pos : ℕ) → pos < length text → length (slice_from pos) ≡ min window (length text - pos)
  length-slice_from pos h = omega (
    arith,
    length-take (min (pos + window) (length text) - pos) (drop pos text),
    length-drop pos text,
  )

  slice_from-CoversAt :
      (pos i : ℕ) → pos ≤ i → i < pos + window → i < length text → CoversAt text i (slice_from pos)
  slice_from-CoversAt pos i h k l = record {
    start = pos;
    start_le = h;
    lt_end = omega (arith, length-slice_from pos (omega arith));
    is_slice =
        ap (λ n. take n (drop pos text)) (omega (arith, length-slice_from pos (omega arith)));
  }

  slice_from-ne-blank :
      (pos i c : ℕ)
      → pos ≤ i
      → i < pos + window
      → get_elem? text i ≡ some c
      → is_whitespace c ≡ false
      → trim (slice_from pos) ≢ []
  slice_from-ne-blank pos i c h k e w blank =
      ink-ne-nil (slice_from pos) (i - pos) c
        (get_elem?-take _ (i - pos) (drop pos text) (omega (arith, get_elem?-lt text i e))
          ∙ get_elem?-drop pos (i - pos) text
          ∙ ap (get_elem? text) (omega arith)
          ∙ e)
        w (sym (ink-trim (slice_from pos)) ∙ ap ink blank)

  push-IsWindow :
      (pos : ℕ) (rest : List Text)
      → pos < length text
      → All (IsWindow window) rest
      → All (IsWindow window) (push_unless_blank (slice_from pos) rest)
  unfolding push_unless_blank
  push-IsWindow pos rest h all = elim (empty-cases (trim (slice_from pos))) [
    | inl e ↦ rw e all
    | inr e ↦ rw (is_empty-false _ e) ((omega (arith, length-slice_from pos h), e), all)
  ]

  push-Any :
      (P : Text → Type 0) (chunk : Text) (rest : List Text)
      → Any P rest
      → Any P (push_unless_blank chunk rest)
  unfolding push_unless_blank
  push-Any P chunk rest h = elim (empty-cases (trim chunk)) [
    | inl e ↦ rw e h
    | inr e ↦ rw (is_empty-false _ e) (inr h)
  ]

  push-Any_self :
      (P : Text → Type 0) (chunk : Text) (rest : List Text)
      → trim chunk ≢ []
      → P chunk
      → Any P (push_unless_blank chunk rest)
  unfolding push_unless_blank
  push-Any_self P chunk rest e h = rw (is_empty-false _ e) (inl h)

  -- What a run of the loop from `pos` returns.
  record Covered (pos : ℕ) (chunks : List Text) : Type 0 where
    windows : All (IsWindow window) chunks
    covers :
        (i c : ℕ)
        → pos ≤ i
        → get_elem? text i ≡ some c
        → is_whitespace c ≡ false
        → Any (CoversAt text i) chunks

  module _ (step : ℕ) (step_pos : 1 ≤ step) (step_le : step ≤ window) where
    window_loop-Covered :
        (fuel pos : ℕ)
        → pos ≤ length text
        → length text < pos + fuel
        → (chunks : List Text) × (window_loop fuel text window step pos ≡ some chunks)
          × Covered pos chunks
    unfolding window_loop
    window_loop-Covered zero pos h k = absurd (omega arith)
    window_loop-Covered (suc fuel) pos h k = elim (dec_lt pos (length text)) [
      | no out ↦ (
        [],
        ground arith,
        record {
          windows = tt;
          covers = λ i c le e w. absurd (omega (arith, get_elem?-lt text i e));
        },
      )
      | yes inside ↦ elim (dec_lt (pos + window) (length text)) [
        | no last ↦ (
          push_unless_blank (slice_from pos) [],
          ground arith,
          record {
            windows = push-IsWindow pos [] inside tt;
            covers = λ i c le e w.
                let lt : i < length text = get_elem?-lt text i e in
                push-Any_self _ _ _ (slice_from-ne-blank pos i c le (omega arith) e w)
                  (slice_from-CoversAt pos i le (omega arith) lt);
          },
        )
        | yes more ↦
            let (rest, e, r) = window_loop-Covered fuel (pos + step) (omega arith) (omega arith) in
            (
              push_unless_blank (slice_from pos) rest,
              ground (arith, e),
              record {
                windows = push-IsWindow pos rest inside r.windows;
                covers = λ i c le at w. elim (dec_lt i (pos + step)) [
                  | yes here ↦
                      push-Any_self _ _ _ (slice_from-ne-blank pos i c le (omega arith) at w)
                        (slice_from-CoversAt pos i le (omega arith) (omega arith))
                  | no later ↦ push-Any _ _ _ (r.covers i c (omega arith) at w)
                ];
              },
            )
      ]
    ]

-- For a window of at least one character and any overlap, the split ends, every chunk has at most
-- `window` characters and is not blank, and each character of the text that is no white space
-- stands, at its own position, in some chunk that is a contiguous part of the text.
pub split_with_overlap_covers :
    (text : Text) (window overlap : ℕ)
    → 1 ≤ window
    → (chunks : List Text) × (split_with_overlap text window overlap ≡ some chunks)
      × All (IsWindow window) chunks
      × ((i c : ℕ)
          → get_elem? text i ≡ some c
          → is_whitespace c ≡ false
          → Any (CoversAt text i) chunks)
unfolding split_with_overlap
split_with_overlap_covers text window overlap h =
    let (chunks, e, r) =
      window_loop-Covered text window (window_step window overlap) (omega arith) (omega arith)
        (suc (length text)) 0 (omega arith) (omega arith) in
    (chunks, e, r.windows, λ i c at w. r.covers i c (omega arith) at w)
