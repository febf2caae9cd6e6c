-- ===== src/Ingest/Sentences.antt =====
-- `split_sentences`, `is_abbreviation` and `filter_garbage_sentences` of
-- ingest/chunker_semantic.rs, and `filter_garbage_from_text` of ingest/chunker.rs.
pub mod Ink
use wend_rag.Base.{
  ℕ, zero, suc, ◌+◌, ◌-◌, ◌/◌, List, [], ◌∷◌, ◌++◌, Bool, true, false, not, ◌&&◌, ◌||◌, leb, ltb,
  ◌==◌, if◌then◌else◌, length, is_empty, filter, any,
}
use wend_rag.Base.Text.{Text, codes, byte_len, trim, is_whitespace, contains, ends_with, join}
use wend_rag.Base.Unicode.{Unicode}

abbrev pub abbrevs : List Text
abbrevs =
    codes "mr."
    ∷ codes "mrs."
    ∷ codes "ms."
    ∷ codes "dr."
    ∷ codes "prof."
    ∷ codes "sr."
    ∷ codes "jr."
    ∷ codes "e.g."
    ∷ codes "i.e."
    ∷ codes "vs."
    ∷ codes "etc."
    ∷ codes "approx."
    ∷ codes "dept."
    ∷ codes "est."
    ∷ codes "inc."
    ∷ codes "ltd."
    ∷ codes "no."
    ∷ codes "vol."
    ∷ codes "fig."
    ∷ []

-- `GARBAGE_PATTERNS`, the same list in both files
unfoldable pub garbage_patterns : List Text
garbage_patterns =
    codes "click here"
    ∷ codes "read more"
    ∷ codes "learn more"
    ∷ codes "sign up"
    ∷ codes "subscribe now"
    ∷ codes "copyright ©"
    ∷ codes "all rights reserved"
    ∷ codes "terms of service"
    ∷ codes "privacy policy"
    ∷ codes "cookie policy"
    ∷ codes "advertisement"
    ∷ codes "sponsored"
    ∷ codes "share this"
    ∷ codes "follow us"
    ∷ codes "home"
    ∷ codes "next page"
    ∷ codes "previous page"
    ∷ codes "page 1 of"
    ∷ codes "loading..."
    ∷ codes "please wait"
    ∷ []

abbrev pub min_sentence_length : ℕ
min_sentence_length = 10

abbrev pub max_sentence_length : ℕ
max_sentence_length = 1000

-- '.', '!' and '?'
unfoldable pub is_end_mark : ℕ → Bool
is_end_mark c = c == b'.' || c == b'!' || c == b'?'

-- `{ let t = current.trim(); if !t.is_empty() { sentences.push(t) } }`
unfoldable pub push_trimmed : Text → List Text → List Text
push_trimmed current sentences =
    if is_empty (trim current) then sentences else trim current ∷ sentences

module _ (u : Unicode) where
  unfoldable pub is_abbreviation : Text → Bool
  is_abbreviation text = let lower = u.to_lowercase text in any (λ a. ends_with lower a) abbrevs

  -- Whether what stands behind an end mark makes it the end of a sentence.
  unfoldable pub next_is_boundary : Text → Bool
  next_is_boundary [] = true
  next_is_boundary (c ∷ []) = is_whitespace c
  next_is_boundary (c ∷ d ∷ rest) = is_whitespace c && (u.is_uppercase d || d == b'"')

  -- The `while` loop at the characters from `i` on, with the sentences that it pushes. The last
  -- clause skips the white space behind a boundary.
  unfoldable pub sentence_loop : Text → Text → List Text
  sentence_loop [] current = push_trimmed current []
  sentence_loop (c ∷ []) current =
      let grown = current ++ c ∷ [] in
      let go = sentence_loop [] grown in
      let cut = push_trimmed grown (sentence_loop [] []) in
      if is_end_mark c
      then if is_abbreviation grown then go else if next_is_boundary [] then cut else go
      else go
  sentence_loop (c ∷ d ∷ rest) current =
      let grown = current ++ c ∷ [] in
      let go = sentence_loop (d ∷ rest) grown in
      let skip = push_trimmed grown (sentence_loop rest []) in
      let cut = push_trimmed grown (sentence_loop (d ∷ rest) []) in
      if is_end_mark c
      then if is_abbreviation grown
        then go
        else if next_is_boundary (d ∷ rest)
        then if is_whitespace d then skip else cut
        else go
      else go

  unfoldable pub split_sentences : Text → List Text
  unfolding sentence_loop
  split_sentences text =
      let sentences = sentence_loop text [] in
      if is_empty sentences && not (is_empty (trim text)) then trim text ∷ [] else sentences

  -- The tests on a trimmed sentence, which both garbage filters make.
  unfoldable pub is_meaningful : Text → Bool
  is_meaningful trimmed =
      let len = byte_len trimmed in
      let lower = u.to_lowercase trimmed in
      leb min_sentence_length len
      && leb len max_sentence_length
      && not (any (λ pattern. contains lower pattern) garbage_patterns)
      && leb (len / 3) (length (filter u.is_alphanumeric trimmed))

  unfoldable pub filter_garbage_sentences : List Text → List Text
  filter_garbage_sentences = filter (λ s. is_meaningful (trim s))

-- `text.split(['.', '!', '?'])`, with the part before the first mark under way
unfoldable pub split_at_marks : Text → Text → List Text
split_at_marks [] part = part ∷ []
split_at_marks (c ∷ s) part =
    let cut = part ∷ split_at_marks s [] in
    let grow = split_at_marks s (part ++ c ∷ []) in if is_end_mark c then cut else grow

module _ (u : Unicode) where
  -- The loop over the parts: the trimmed ones that are kept.
  unfoldable pub kept_parts : List Text → List Text
  kept_parts [] = []
  kept_parts (part ∷ parts) =
      let trimmed = trim part in
      let rest = kept_parts parts in
      if is_empty trimmed then rest else if is_meaningful u trimmed then trimmed ∷ rest else rest

  unfoldable pub filter_garbage_from_text : Text → Text
  unfolding split_at_marks kept_parts
  filter_garbage_from_text text = join (codes ". ") (kept_parts (split_at_marks text []))
