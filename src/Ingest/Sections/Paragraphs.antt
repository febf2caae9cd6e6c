-- ===== src/Ingest/Sections/Paragraphs.antt =====
-- The sections of a plain text: no paragraph is lost, and none but a long paragraph is too long.
use wend_rag.Base.{
  ◌+◌, ◌≤◌, List, [], ◌∷◌, ◌++◌, Option, none, true, false, not, if◌then◌else◌, is_empty, map,
  filter, All, Any, ◌≡◌, ◌≢◌, refl, sym, ap, ◌∙◌, append_assoc, arith, inl, inr, ◌⊎◌, Bool-cases,
}
use wend_rag.Base.Text.{Text, byte_len, trim, join}
use wend_rag.Base.Text.Laws.{byte_len-append}
use wend_rag.Ingest.Sections.{
  is_full, push_paragraph, text_window_size, paragraph_break, split_paragraphs, merge_paragraphs,
  extract_text_sections,
}

ne_of_is_empty : (t : Text) → is_empty t ≡ false → t ≢ []
ne_of_is_empty [] e k = cc
ne_of_is_empty (c ∷ t) e k = cc

-- The paragraphs that are not blank, trimmed.
abbrev pub kept_paragraphs : List Text → List Text
kept_paragraphs paras = filter (λ p. not (is_empty p)) (map trim paras)

join-cons :
    (sep t u : Text) (us : List Text) → join sep (t ∷ u ∷ us) ≡ t ++ (sep ++ join sep (u ∷ us))
unfolding join
join-cons sep t u us = append_assoc t sep (join sep (u ∷ us))

join_glue :
    (sep t u : Text) (us : List Text) → join sep ((t ++ sep ++ u) ∷ us) ≡ join sep (t ∷ u ∷ us)
join_glue sep t u [] = unfold join in refl
join_glue sep t u (v ∷ vs) = simp (join-cons, append_assoc)

-- A buffer in front of the paragraphs to come, unless it is empty.
abbrev with_buffer : Text → List Text → List Text
with_buffer buf ts = if is_empty buf then ts else buf ∷ ts

join-cons_ne :
    (sep t : Text) (us : List Text) → us ≢ [] → join sep (t ∷ us) ≡ t ++ (sep ++ join sep us)
join-cons_ne sep t [] h = absurd (h refl)
join-cons_ne sep t (u ∷ us) h = join-cons sep t u us

push_paragraph-ne_nil : (buf p : Text) → p ≢ [] → push_paragraph buf p ≢ []
unfolding push_paragraph
push_paragraph-ne_nil [] p h e = h e
push_paragraph-ne_nil (c ∷ buf) p h e = cc

push_paragraph-nil : (p : Text) → push_paragraph [] p ≡ p
unfolding push_paragraph
push_paragraph-nil p = refl

break_bytes : byte_len paragraph_break ≡ 2
unfolding byte_len
break_bytes = refl

merge_paragraphs-ne_nil :
    (paras : List Text) (buf : Text) → buf ≢ [] → merge_paragraphs paras buf ≢ []
unfolding merge_paragraphs
merge_paragraphs-ne_nil [] [] h e = h refl
merge_paragraphs-ne_nil [] (c ∷ buf) h e = cc
merge_paragraphs-ne_nil (p ∷ ps) buf h e = elim (Bool-cases (is_empty (trim p))) [
  | inl blank ↦ merge_paragraphs-ne_nil ps buf h (rw blank at e)
  | inr full ↦ elim (Bool-cases (is_full buf (trim p))) [
    | inl flush ↦ cc (rw (full, flush) at e)
    | inr grow ↦
        merge_paragraphs-ne_nil ps (push_paragraph buf (trim p))
          (push_paragraph-ne_nil buf (trim p) (ne_of_is_empty (trim p) full)) (rw (full, grow) at e)
  ]
]

is_full-buffer : (buf p : Text) → is_full buf p ≡ true → is_empty buf ≡ false
unfolding is_full
is_full-buffer buf p h = ground arith

join_push :
    (buf p : Text) (ts : List Text)
    → p ≢ []
    → join paragraph_break (with_buffer (push_paragraph buf p) ts)
      ≡ join paragraph_break (with_buffer buf (p ∷ ts))
unfolding push_paragraph
join_push [] [] ts h = absurd (h refl)
join_push [] (c ∷ p) ts h = refl
join_push (b ∷ buf) p ts h = join_glue paragraph_break (b ∷ buf) p ts

join-merge_paragraphs :
    (paras : List Text) (buf : Text)
    → join paragraph_break (merge_paragraphs paras buf)
      ≡ join paragraph_break (with_buffer buf (kept_paragraphs paras))
unfolding merge_paragraphs
join-merge_paragraphs [] buf = ground arith
join-merge_paragraphs (p ∷ ps) buf = elim (Bool-cases (is_empty (trim p))) [
  | inl blank ↦ rw blank (join-merge_paragraphs ps buf)
  | inr full ↦ rw full (elim (Bool-cases (is_full buf (trim p))) [
    | inl flush ↦ rw flush (
        flushed (ne_of_is_empty (trim p) full) flush
          (join-merge_paragraphs ps (push_paragraph [] (trim p))))
    | inr grow ↦ rw grow (
        join-merge_paragraphs ps (push_paragraph buf (trim p))
        ∙ join_push buf (trim p) (kept_paragraphs ps) (ne_of_is_empty (trim p) full))
  ])
]
  where
    flushed :
        trim p ≢ []
        → is_full buf (trim p) ≡ true
        → join paragraph_break (merge_paragraphs ps (push_paragraph [] (trim p)))
          ≡ join paragraph_break (with_buffer (push_paragraph [] (trim p)) (kept_paragraphs ps))
        → join paragraph_break (buf ∷ merge_paragraphs ps (push_paragraph [] (trim p)))
          ≡ join paragraph_break (with_buffer buf (trim p ∷ kept_paragraphs ps))
    flushed ne full ih =
        let next = push_paragraph [] (trim p) in
        rw (is_full-buffer buf (trim p) full) (
          join-cons_ne paragraph_break buf (merge_paragraphs ps next)
            (merge_paragraphs-ne_nil ps next (push_paragraph-ne_nil [] (trim p) ne))
          ∙ ap (λ r. buf ++ (paragraph_break ++ r))
              (ih ∙ join_push [] (trim p) (kept_paragraphs ps) ne)
          ∙ sym (join-cons paragraph_break buf (trim p) (kept_paragraphs ps)))

module _ (Q : Text → Type 0) where
  -- At most a window, or one of the paragraphs.
  abbrev Fits : Text → Type 0
  Fits s = (byte_len s ≤ text_window_size) ⊎ Q s

  push_paragraph-Fits :
      (buf p : Text) → is_full buf p ≡ false → Fits p → Fits (push_paragraph buf p)
  unfolding push_paragraph
  push_paragraph-Fits [] p h fits = fits
  push_paragraph-Fits (c ∷ buf) p h fits = inl (small (unfold is_full in ground arith))
    where
      small :
          byte_len (c ∷ buf) + byte_len p + 2 ≤ text_window_size
          → byte_len (((c ∷ buf) ++ paragraph_break) ++ p) ≤ text_window_size
      small le = omega (
        arith,
        byte_len-append ((c ∷ buf) ++ paragraph_break) p,
        byte_len-append (c ∷ buf) paragraph_break,
        break_bytes,
      )

  merge_paragraphs-Fits :
      (paras : List Text) (buf : Text)
      → All (λ p. Q (trim p)) paras
      → (buf ≢ [] → Fits buf)
      → All Fits (merge_paragraphs paras buf)
  unfolding merge_paragraphs
  merge_paragraphs-Fits [] [] all fits = tt
  merge_paragraphs-Fits [] (c ∷ buf) all fits = (fits (λ e. cc e), tt)
  merge_paragraphs-Fits (p ∷ ps) buf all fits = elim (Bool-cases (is_empty (trim p))) [
    | inl blank ↦ rw blank (merge_paragraphs-Fits ps buf all.1 fits)
    | inr full ↦ rw full (elim (Bool-cases (is_full buf (trim p))) [
      | inl flush ↦ rw flush (
        fits (ne_of_is_empty buf (is_full-buffer buf (trim p) flush)),
        merge_paragraphs-Fits ps (push_paragraph [] (trim p)) all.1
            (λ _. inr (rw push_paragraph-nil all.0)),
      )
      | inr grow ↦ rw grow (
          merge_paragraphs-Fits ps (push_paragraph buf (trim p)) all.1
            (λ _. push_paragraph-Fits buf (trim p) grow (inr all.0)))
    ])
  ]

All-of_self : (ps : List Text) → All (λ p. Any (λ q. trim p ≡ trim q) ps) ps
All-of_self ps = go ps (λ p h. h)
  where
    go :
        (qs : List Text)
        → ((p : Text) → Any (λ q. trim p ≡ trim q) qs → Any (λ q. trim p ≡ trim q) ps)
        → All (λ p. Any (λ q. trim p ≡ trim q) ps) qs
    go [] f = tt
    go (q ∷ qs) f = (f q (inl refl), go qs (λ p h. f p (inr h)))

bodies-map : (ss : List Text) → map (λ (s : Option Text × Text). s.1) (map (λ t. (none, t)) ss) ≡ ss
bodies-map [] = refl
bodies-map (s ∷ ss) = ap (λ r. s ∷ r) (bodies-map ss)

abbrev pub bodies : List (Option Text × Text) → List Text
bodies = map (λ (s : Option Text × Text). s.1)

-- Joining the sections gives the paragraphs that are not blank, trimmed and in order; and a section
-- has at most `TEXT_WINDOW_SIZE` bytes, or is a single paragraph.
pub extract_text_sections_keeps :
    (text : Text)
    → (join paragraph_break (bodies (extract_text_sections text))
        ≡ join paragraph_break (kept_paragraphs (split_paragraphs text [])))
      × All
          (λ s. (byte_len s ≤ text_window_size) ⊎ Any (λ p. s ≡ trim p) (split_paragraphs text []))
          (bodies (extract_text_sections text))
unfolding extract_text_sections
extract_text_sections_keeps text =
    let paras = split_paragraphs text [] in
    rw (bodies-map (merge_paragraphs paras [])) (
      join-merge_paragraphs paras [],
      merge_paragraphs-Fits (λ s. Any (λ p. s ≡ trim p) paras) paras [] (All-of_self paras)
          (λ h. absurd (h refl)),
    )
