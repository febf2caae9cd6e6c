-- ===== src/Ingest/Sentences/Ink.antt =====
-- The sentences hold every character of the text but white space, in order.
use wend_rag.Base.{
  ℕ, List, [], ◌∷◌, ◌++◌, true, false, is_empty, concat, All, ◌≡◌, ◌≢◌, refl, sym, ap, ◌∙◌,
  append_assoc, arith, Bool-cases, inl, inr,
}
use wend_rag.Base.Text.{Text, trim, is_whitespace}
use wend_rag.Base.Text.Laws.{ink, ink-append, ink-trim, trim-nil_of_ink-nil}
use wend_rag.Base.Unicode.{Unicode}
use wend_rag.Ingest.Sentences.{push_trimmed, sentence_loop, split_sentences}

ink-push_trimmed :
    (current : Text) (sentences : List Text)
    → ink (concat (push_trimmed current sentences)) ≡ ink current ++ ink (concat sentences)
unfolding push_trimmed
ink-push_trimmed current sentences = elim (Bool-cases (is_empty (trim current))) [
  | inl e ↦
      rw e (ap (λ t. t ++ ink (concat sentences)) (sym (blank (trim current) e) ∙ ink-trim current))
  | inr e ↦ rw e (
      ink-append (trim current) (concat sentences)
      ∙ ap (λ t. t ++ ink (concat sentences)) (ink-trim current))
]
  where
    blank : (t : Text) → is_empty t ≡ true → ink t ≡ []
    blank [] e = refl
    blank (c ∷ t) e = cc

ink_of_white : (c : ℕ) (s : Text) → is_whitespace c ≡ true → ink (c ∷ s) ≡ ink s
ink_of_white c s h = ground arith

-- What one more character does to the sentences of the rest.
grow-ink :
    (c : ℕ) (s current t : Text)
    → t ≡ ink (current ++ c ∷ []) ++ ink s
    → t ≡ ink current ++ ink (c ∷ s)
grow-ink c s current t h =
    h
    ∙ ap (λ i. i ++ ink s) (ink-append current (c ∷ []))
    ∙ append_assoc (ink current) (ink (c ∷ [])) (ink s)
    ∙ ap (λ i. ink current ++ i) (sym (ink-append (c ∷ []) s))

abbrev pub NonEmpty : Text → Type 0
NonEmpty s = s ≢ []

module _ (u : Unicode) where
  pub ink-sentence_loop :
      (rest current : Text) → ink (concat (sentence_loop u rest current)) ≡ ink current ++ ink rest
  unfolding sentence_loop
  ink-sentence_loop [] current = ink-push_trimmed current []
  ink-sentence_loop (c ∷ []) current =
      let grown = current ++ c ∷ [] in
      let go = ink-sentence_loop [] grown in
      let cut =
        ink-push_trimmed grown (sentence_loop u [] [])
        ∙ ap (λ i. ink grown ++ i) (ink-sentence_loop [] []) in
      grow-ink c [] current _ (ground (arith, go, cut))
  ink-sentence_loop (c ∷ d ∷ rest) current =
      let grown = current ++ c ∷ [] in
      let go = ink-sentence_loop (d ∷ rest) grown in
      let cut =
        ink-push_trimmed grown (sentence_loop u (d ∷ rest) [])
        ∙ ap (λ i. ink grown ++ i) (ink-sentence_loop (d ∷ rest) []) in
      let skip =
        ink-push_trimmed grown (sentence_loop u rest [])
        ∙ ap (λ i. ink grown ++ i) (ink-sentence_loop rest []) in
      grow-ink c (d ∷ rest) current _ (ground (arith, go, cut, skip, ink_of_white d rest))

  push_trimmed-NonEmpty :
      (current : Text) (sentences : List Text)
      → All NonEmpty sentences
      → All NonEmpty (push_trimmed current sentences)
  unfolding push_trimmed
  push_trimmed-NonEmpty current sentences h = elim (Bool-cases (is_empty (trim current))) [
    | inl e ↦ rw e h
    | inr e ↦ rw e (ne_of_is_empty (trim current) e, h)
  ]
    where
      ne_of_is_empty : (t : Text) → is_empty t ≡ false → t ≢ []
      ne_of_is_empty [] e k = cc
      ne_of_is_empty (c ∷ t) e k = cc

  sentence_loop-NonEmpty : (rest current : Text) → All NonEmpty (sentence_loop u rest current)
  unfolding sentence_loop
  sentence_loop-NonEmpty [] current = push_trimmed-NonEmpty current [] tt
  sentence_loop-NonEmpty (c ∷ []) current =
      let grown = current ++ c ∷ [] in
      let go = sentence_loop-NonEmpty [] grown in
      let cut = push_trimmed-NonEmpty grown _ (sentence_loop-NonEmpty [] []) in
      ground (arith, go, cut)
  sentence_loop-NonEmpty (c ∷ d ∷ rest) current =
      let grown = current ++ c ∷ [] in
      let go = sentence_loop-NonEmpty (d ∷ rest) grown in
      let skip = push_trimmed-NonEmpty grown _ (sentence_loop-NonEmpty rest []) in
      let cut = push_trimmed-NonEmpty grown _ (sentence_loop-NonEmpty (d ∷ rest) []) in
      ground (arith, go, skip, cut)

  -- The list of sentences is empty for a blank text alone, so the last test of the code never adds.
  split_sentences-eq-loop : (text : Text) → split_sentences u text ≡ sentence_loop u text []
  unfolding split_sentences
  split_sentences-eq-loop text = elim (Bool-cases (is_empty (sentence_loop u text []))) [
    | inl e ↦ rw (
      e,
      trim-nil_of_ink-nil text (no_ink (sentence_loop u text []) e (ink-sentence_loop text [])),
    )
    | inr e ↦ rw e
  ]
    where
      no_ink : (ss : List Text) → is_empty ss ≡ true → ink (concat ss) ≡ ink text → ink text ≡ []
      no_ink [] e h = sym h
      no_ink (s ∷ ss) e h = cc

  -- The sentences hold the characters of the text that are no white space, all of them and in their
  -- order; no sentence is empty.
  pub split_sentences_keeps_ink :
      (text : Text)
      → (ink (concat (split_sentences u text)) ≡ ink text) × All NonEmpty (split_sentences u text)
  split_sentences_keeps_ink text =
      rw split_sentences-eq-loop (ink-sentence_loop text [], sentence_loop-NonEmpty text [])
