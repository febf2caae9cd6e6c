-- ===== src/Ingest/Sections/Outline.antt =====
-- What a document's text and headings are, told from the events alone.
use wend_rag.Base.{
  List, [], ◌∷◌, ◌++◌, Option, none, some, Bool, true, false, ◌||◌, leb, if◌then◌else◌, map, concat,
  ◌≡◌, ◌≢◌, ◌⊎◌,
}
use wend_rag.Base.Text.{Text, codes, trim}
use wend_rag.Ingest.Sections.{
  Event, start_heading, end_heading, text, code_span, soft_break, hard_break, end_paragraph,
  start_item, end_item, is_some,
}

-- Whether a heading of level 1 to 3 is open after the event, where `is_open` says so before it.
unfoldable pub heading_after : Bool → Event → Bool
heading_after is_open (start_heading level) = leb level 3 || is_open
heading_after is_open end_heading = false
heading_after is_open e = is_open

-- The text outside the headings that one event stands for.
unfoldable pub text_of : Bool → Event → Text
text_of is_open (text t) = if is_open then [] else t
text_of is_open (code_span t) = if is_open then [] else t
text_of is_open soft_break = if is_open then [] else codes "\n"
text_of is_open hard_break = if is_open then [] else codes "\n"
text_of is_open end_paragraph = codes "\n\n"
text_of is_open start_item = codes "- "
text_of is_open end_item = codes "\n"
text_of is_open e = []

-- The text of a document outside its headings.
unfoldable pub body_text : Bool → List Event → Text
body_text is_open [] = []
body_text is_open (e ∷ es) = text_of is_open e ++ body_text (heading_after is_open e) es

-- The heading text behind an event.
unfoldable pub heading_text_after : Bool → Text → Event → Text
heading_text_after is_open t (start_heading level) = if leb level 3 then [] else t
heading_text_after is_open t (text s) = if is_open then t ++ s else t
heading_text_after is_open t (code_span s) = if is_open then t ++ s else t
heading_text_after is_open t soft_break = if is_open then t ++ codes " " else t
heading_text_after is_open t hard_break = if is_open then t ++ codes " " else t
heading_text_after is_open t e = t

-- The heading that an event ends.
unfoldable pub title_of : Bool → Text → Event → List Text
title_of is_open t end_heading = if is_open then trim t ∷ [] else []
title_of is_open t e = []

-- The headings of a document, trimmed.
unfoldable pub headings : Bool → Text → List Event → List Text
headings is_open t [] = []
headings is_open t (e ∷ es) =
    title_of is_open t e ++ headings (heading_after is_open e) (heading_text_after is_open t e) es

abbrev pub title_list : Option Text → List Text
title_list none = []
title_list (some t) = t ∷ []

abbrev pub titles : List (Option Text × Text) → List Text
titles ss = concat (map (λ (s : Option Text × Text). title_list s.0) ss)

-- A section has a title or a body that is not blank.
abbrev pub IsSection : Option Text × Text → Type 0
IsSection s = (is_some s.0 ≡ true) ⊎ (trim s.1 ≢ [])
