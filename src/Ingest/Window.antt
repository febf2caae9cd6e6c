-- ===== src/Ingest/Window.antt =====
-- `split_with_overlap` of ingest/chunker_semantic.rs: windows of a fixed number of characters.
pub mod Coverage
use wend_rag.Base.{
  ℕ, zero, suc, ◌+◌, ◌-◌, List, [], ◌∷◌, Option, none, some, Bool, true, false, not, min, max, ltb,
  ◌==◌, if◌then◌else◌, length, is_empty, take, drop, ◌≡◌,
}
use wend_rag.Base.Text.{Text, trim}
use mathlib.Core.Option

-- `if !chunk.trim().is_empty() { result.push(chunk) }`
unfoldable pub push_unless_blank : Text → List Text → List Text
push_unless_blank chunk result = if is_empty (trim chunk) then result else chunk ∷ result

-- `chars[pos..end]`
abbrev pub slice {ℓ} : {A : Type ℓ} → List A → ℕ → ℕ → List A
slice xs pos end = take (end - pos) (drop pos xs)

-- The `while` loop from `pos`, with the chunks that it pushes; `none` when the fuel runs out.
pub window_loop : ℕ → Text → ℕ → ℕ → ℕ → Option (List Text)
window_loop zero chars window step pos = none
window_loop (suc fuel) chars window step pos =
    let rest = window_loop fuel chars window step (pos + step) in
    let end = min (pos + window) (length chars) in
    let chunk = slice chars pos end in
    if ltb pos (length chars)
    then if end == length chars
      then some (push_unless_blank chunk [])
      else Option.map (push_unless_blank chunk) rest
    else some []

-- `window.saturating_sub(overlap).max(1)`
abbrev pub window_step : ℕ → ℕ → ℕ
window_step window overlap = max (window - overlap) 1

-- The position grows in every round, so one round more than there are characters is enough fuel.
unfoldable pub split_with_overlap : Text → ℕ → ℕ → Option (List Text)
unfolding window_loop
split_with_overlap text window overlap =
    window_loop (suc (length text)) text window (window_step window overlap) 0
