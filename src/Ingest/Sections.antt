-- ===== src/Ingest/Sections.antt =====
-- ingest/chunker_sections.rs: a document as sections with an optional title. The Markdown parser is
-- a library: the model starts from the events that it yields.
pub mod Paragraphs
pub mod Outline
pub mod Markdown
use wend_rag.Base.{
  ℕ, ◌+◌, List, [], ◌∷◌, ◌++◌, Option, none, some, Bool, true, false, not, ◌&&◌, ◌||◌, ltb, leb,
  ◌==◌, if◌then◌else◌, is_empty, map,
}
use wend_rag.Base.Text.{Text, codes, byte_len, trim}

abbrev pub text_window_size : ℕ
text_window_size = 1000

abbrev pub paragraph_break : Text
paragraph_break = codes "\n\n"

-- `text.split("\n\n")`, with the part before the first break under way
unfoldable pub split_paragraphs : Text → Text → List Text
split_paragraphs [] part = part ∷ []
split_paragraphs (c ∷ []) part = (part ++ c ∷ []) ∷ []
split_paragraphs (c ∷ d ∷ s) part =
    let cut = part ∷ split_paragraphs s [] in
    let grow = split_paragraphs (d ∷ s) (part ++ c ∷ []) in
    if c == b'\n' && d == b'\n' then cut else grow

-- `buf.len() + para.len() + 2 > TEXT_WINDOW_SIZE && !buf.is_empty()`
unfoldable pub is_full : Text → Text → Bool
is_full buf para = ltb text_window_size (byte_len buf + byte_len para + 2) && not (is_empty buf)

-- `if !buf.is_empty() { buf.push_str("\n\n") } buf.push_str(para)`
unfoldable pub push_paragraph : Text → Text → Text
push_paragraph buf para = (if is_empty buf then buf else buf ++ paragraph_break) ++ para

-- The `for` loop over the paragraphs and the push behind it: the sections, from the buffer `buf` on.
unfoldable pub merge_paragraphs : List Text → Text → List Text
merge_paragraphs [] buf = if is_empty buf then [] else buf ∷ []
merge_paragraphs (para ∷ paras) buf =
    let p = trim para in
    let skip = merge_paragraphs paras buf in
    let flush = buf ∷ merge_paragraphs paras (push_paragraph [] p) in
    let grow = merge_paragraphs paras (push_paragraph buf p) in
    if is_empty p then skip else if is_full buf p then flush else grow

unfoldable pub extract_text_sections : Text → List (Option Text × Text)
unfolding split_paragraphs merge_paragraphs is_full push_paragraph
extract_text_sections text = map (λ s. (none, s)) (merge_paragraphs (split_paragraphs text []) [])

-- The events of `pulldown_cmark` that the code tells apart; the level of a heading is 1 to 6.
pub data Event : Type 0 where
  start_heading : ℕ → Event
  end_heading : Event
  text : Text → Event
  code_span : Text → Event
  soft_break hard_break start_paragraph end_paragraph start_item end_item other : Event

-- The variables of the loop.
pub record Extractor : Type 0 where
  pub sections : List (Option Text × Text)
  pub current_title : Option Text
  pub current_body : Text
  pub in_heading : Bool
  pub heading_text : Text

abbrev pub is_some {ℓ} : {A : Type ℓ} → Option A → Bool
is_some none = false
is_some (some a) = true

-- `!current_body.trim().is_empty() || current_title.is_some()`
unfoldable pub has_section : Extractor → Bool
has_section x = not (is_empty (trim x.current_body)) || is_some x.current_title

unfoldable pub push_section : Extractor → Extractor
unfolding has_section
push_section x =
    if has_section x
    then record x {
      sections = x.sections ++ (x.current_title, x.current_body) ∷ [];
      current_title = none;
      current_body = [];
    }
    else x

-- Text goes to the heading under way, or to the body.
unfoldable pub push_text : Extractor → Text → Text → Extractor
push_text x in_title in_body =
    if x.in_heading
    then record x { heading_text = x.heading_text ++ in_title }
    else record x { current_body = x.current_body ++ in_body }

unfoldable pub on_event : Extractor → Event → Extractor
unfolding push_section push_text
on_event x (start_heading level) =
    if leb level 3
    then (let y = push_section x in record y { in_heading = true; heading_text = [] })
    else x
on_event x end_heading =
    if x.in_heading
    then record x { in_heading = false; current_title = some (trim x.heading_text) }
    else x
on_event x (text t) = push_text x t t
on_event x (code_span t) = push_text x t t
on_event x soft_break = push_text x (codes " ") (codes "\n")
on_event x hard_break = push_text x (codes " ") (codes "\n")
on_event x start_paragraph = x
on_event x end_paragraph = record x { current_body = x.current_body ++ codes "\n\n" }
on_event x start_item = record x { current_body = x.current_body ++ codes "- " }
on_event x end_item = record x { current_body = x.current_body ++ codes "\n" }
on_event x other = x

unfoldable pub run_events : Extractor → List Event → Extractor
unfolding on_event
run_events x [] = x
run_events x (e ∷ es) = run_events (on_event x e) es

abbrev pub new_extractor : Extractor
new_extractor = record {
  sections = [];
  current_title = none;
  current_body = [];
  in_heading = false;
  heading_text = [];
}

-- What `extract_markdown_sections` does with the events of its parser.
unfoldable pub extract_markdown_sections : List Event → List (Option Text × Text)
extract_markdown_sections events = (push_section (run_events new_extractor events)).sections
