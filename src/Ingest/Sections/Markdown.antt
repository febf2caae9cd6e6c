-- ===== src/Ingest/Sections/Markdown.antt =====
-- The sections of a Markdown document: what becomes of its texts and its headings.
use mathlib.Core.List.{append_assoc, append-nil}
use mathlib.Core.Path.{ap₂}
use wend_rag.Base.{
  ℕ, List, [], ◌∷◌, ◌++◌, Option, none, some, Bool, true, false, leb, is_empty, concat, All,
  All-append, ◌≡◌, refl, sym, ap, ◌∙◌, arith, inl, inr, Bool-cases,
}
use wend_rag.Base.Text.{Text, trim}
use wend_rag.Ingest.Sections.{
  Event, start_heading, end_heading, text, code_span, soft_break, hard_break, start_paragraph,
  end_paragraph, start_item, end_item, other, Extractor, is_some, has_section, push_section,
  on_event, run_events, new_extractor, extract_markdown_sections,
}
use wend_rag.Ingest.Sections.Paragraphs.{bodies}
use wend_rag.Ingest.Sections.Outline.{
  heading_after, text_of, body_text, heading_text_after, title_of, headings, title_list, titles,
  IsSection,
}

abbrev all_bodies : Extractor → Text
all_bodies x = concat (bodies x.sections) ++ x.current_body

abbrev all_titles : Extractor → List Text
all_titles x = titles x.sections ++ title_list x.current_title

record IsValid (x : Extractor) : Type 0 where
  sections : All IsSection x.sections
  no_title : x.in_heading ≡ true → x.current_title ≡ none

titles-append : (ss ts : List (Option Text × Text)) → titles (ss ++ ts) ≡ titles ss ++ titles ts
titles-append [] ts = refl
titles-append (s ∷ ss) ts = rw (titles-append ss ts, append_assoc)

bodies-append :
    (ss ts : List (Option Text × Text))
    → concat (bodies (ss ++ ts)) ≡ concat (bodies ss) ++ concat (bodies ts)
bodies-append [] ts = refl
bodies-append (s ∷ ss) ts = rw (bodies-append ss ts, append_assoc)

has_section-IsSection :
    (x : Extractor) → has_section x ≡ true → IsSection (x.current_title, x.current_body)
unfolding has_section
has_section-IsSection x h = elim (Bool-cases (is_some x.current_title)) [
  | inl e ↦ inl e
  | inr e ↦ inr (λ b. cc (rw (b, e) at h))
]

has_section-none :
    (x : Extractor) → has_section x ≡ false → (x.current_title ≡ none) × (trim x.current_body ≡ [])
unfolding has_section
has_section-none x h =
    (no_title x.current_title (ground arith), no_body (trim x.current_body) (ground arith))
  where
    no_title : (t : Option Text) → is_some t ≡ false → t ≡ none
    no_title none e = refl
    no_title (some t) e = cc

    no_body : (b : Text) → is_empty b ≡ true → b ≡ []
    no_body [] e = refl
    no_body (c ∷ b) e = cc

-- Pushing a section keeps all texts and titles, and leaves no title open.
record Pushes (x y : Extractor) : Type 0 where
  bodies_same : all_bodies y ≡ all_bodies x
  titles_same : all_titles y ≡ all_titles x
  valid : All IsSection x.sections → All IsSection y.sections
  closed : y.current_title ≡ none
  blank : trim y.current_body ≡ []
  in_heading_same : y.in_heading ≡ x.in_heading

push_section-Pushes : (x : Extractor) → Pushes x (push_section x)
unfolding push_section
push_section-Pushes x = elim (Bool-cases (has_section x)) [
  | inl e ↦ rw e (record {
    bodies_same = simp (bodies-append, append-nil);
    titles_same = simp (titles-append, append-nil);
    valid = λ h. All-append IsSection x.sections _ h (has_section-IsSection x e, tt);
    closed = refl;
    blank = unfold trim in refl;
    in_heading_same = refl;
  })
  | inr e ↦ rw e (record {
    bodies_same = refl;
    titles_same = refl;
    valid = λ h. h;
    closed = (has_section-none x e).0;
    blank = (has_section-none x e).1;
    in_heading_same = refl;
  })
]

-- What one event does to the texts, the titles and the state.
record Handles (x : Extractor) (e : Event) (y : Extractor) : Type 0 where
  bodies_grow : all_bodies y ≡ all_bodies x ++ text_of x.in_heading e
  titles_grow : all_titles y ≡ all_titles x ++ title_of x.in_heading x.heading_text e
  open_next : y.in_heading ≡ heading_after x.in_heading e
  heading_next : y.heading_text ≡ heading_text_after x.in_heading x.heading_text e
  valid : IsValid x → IsValid y

abbrev mk : List (Option Text × Text) → Option Text → Text → Bool → Text → Extractor
mk ss t b o h = record {
  sections = ss;
  current_title = t;
  current_body = b;
  in_heading = o;
  heading_text = h;
}

-- An event that changes nothing but the body, by what stands for it.
body-Handles :
    (ss : List (Option Text × Text)) (t : Option Text) (b : Text) (o : Bool) (h : Text) (e : Event)
    (s : Text)
    → text_of o e ≡ s
    → title_of o h e ≡ []
    → heading_after o e ≡ o
    → heading_text_after o h e ≡ h
    → Handles (mk ss t b o h) e (mk ss t (b ++ s) o h)
body-Handles ss t b o h e s es et eo eh = record {
  bodies_grow = rw es (sym (append_assoc (concat (bodies ss)) b s));
  titles_grow = rw (et, append-nil);
  open_next = sym eo;
  heading_next = sym eh;
  valid = λ v. record { sections = v.sections; no_title = v.no_title };
}

-- An event that changes nothing.
skip-Handles :
    (x : Extractor) (e : Event)
    → text_of x.in_heading e ≡ []
    → title_of x.in_heading x.heading_text e ≡ []
    → heading_after x.in_heading e ≡ x.in_heading
    → heading_text_after x.in_heading x.heading_text e ≡ x.heading_text
    → Handles x e x
skip-Handles x e es et eo eh = record {
  bodies_grow = rw (es, append-nil);
  titles_grow = rw (et, append-nil);
  open_next = sym eo;
  heading_next = sym eh;
  valid = λ v. v;
}

-- Text in a heading.
title-Handles :
    (ss : List (Option Text × Text)) (t : Option Text) (b : Text) (h : Text) (e : Event) (s : Text)
    → text_of true e ≡ []
    → title_of true h e ≡ []
    → heading_after true e ≡ true
    → heading_text_after true h e ≡ h ++ s
    → Handles (mk ss t b true h) e (mk ss t b true (h ++ s))
title-Handles ss t b h e s es et eo eh = record {
  bodies_grow = rw (es, append-nil);
  titles_grow = rw (et, append-nil);
  open_next = sym eo;
  heading_next = sym eh;
  valid = λ v. record { sections = v.sections; no_title = v.no_title };
}

start_heading-Handles :
    (x y : Extractor) (level : ℕ) (high : leb level 3 ≡ true)
    → Pushes x y
    → Handles x (start_heading level) (record y { in_heading = true; heading_text = [] })
unfolding text_of title_of heading_after heading_text_after
start_heading-Handles x y level high p = record {
  bodies_grow = rw append-nil p.bodies_same;
  titles_grow = rw append-nil p.titles_same;
  open_next = rw high;
  heading_next = rw high;
  valid = λ v. record { sections = p.valid v.sections; no_title = λ _. p.closed };
}

end_heading-Handles :
    (ss : List (Option Text × Text)) (t : Option Text) (b : Text) (h : Text)
    → t ≡ none
    → Handles (mk ss t b true h) end_heading (mk ss (some (trim h)) b false h)
unfolding text_of title_of heading_after heading_text_after
end_heading-Handles ss t b h e = rw e (record {
  bodies_grow = rw append-nil;
  titles_grow = rw append-nil;
  open_next = refl;
  heading_next = refl;
  valid = λ v. record { sections = v.sections; no_title = λ f. cc };
})

fields-Handles :
    (ss : List (Option Text × Text)) (t : Option Text) (b : Text) (o : Bool) (h : Text) (e : Event)
    → IsValid (mk ss t b o h)
    → Handles (mk ss t b o h) e (on_event (mk ss t b o h) e)
unfolding on_event text_of title_of heading_after heading_text_after
fields-Handles ss t b o h (start_heading level) v = elim (Bool-cases (leb level 3)) [
  | inl e ↦
      rw e (start_heading-Handles (mk ss t b o h) _ level e (push_section-Pushes (mk ss t b o h)))
  | inr e ↦ rw e (skip-Handles _ _ refl refl (rw e) (rw e))
]
fields-Handles ss t b true h end_heading v = end_heading-Handles ss t b h (v.no_title refl)
fields-Handles ss t b false h end_heading v = skip-Handles _ _ refl refl refl refl
fields-Handles ss t b true h (text s) v = title-Handles ss t b h (text s) s refl refl refl refl
fields-Handles ss t b false h (text s) v =
    body-Handles ss t b false h (text s) s refl refl refl refl
fields-Handles ss t b true h (code_span s) v =
    title-Handles ss t b h (code_span s) s refl refl refl refl
fields-Handles ss t b false h (code_span s) v =
    body-Handles ss t b false h (code_span s) s refl refl refl refl
fields-Handles ss t b true h soft_break v = title-Handles ss t b h soft_break _ refl refl refl refl
fields-Handles ss t b false h soft_break v =
    body-Handles ss t b false h soft_break _ refl refl refl refl
fields-Handles ss t b true h hard_break v = title-Handles ss t b h hard_break _ refl refl refl refl
fields-Handles ss t b false h hard_break v =
    body-Handles ss t b false h hard_break _ refl refl refl refl
fields-Handles ss t b o h start_paragraph v = skip-Handles _ _ refl refl refl refl
fields-Handles ss t b o h end_paragraph v =
    body-Handles ss t b o h end_paragraph _ refl refl refl refl
fields-Handles ss t b o h start_item v = body-Handles ss t b o h start_item _ refl refl refl refl
fields-Handles ss t b o h end_item v = body-Handles ss t b o h end_item _ refl refl refl refl
fields-Handles ss t b o h other v = skip-Handles _ _ refl refl refl refl

on_event-Handles : (x : Extractor) (e : Event) → IsValid x → Handles x e (on_event x e)
on_event-Handles x e v =
    fields-Handles x.sections x.current_title x.current_body x.in_heading x.heading_text e v

record Runs (x : Extractor) (es : List Event) (y : Extractor) : Type 0 where
  bodies_run : all_bodies y ≡ all_bodies x ++ body_text x.in_heading es
  titles_run : all_titles y ≡ all_titles x ++ headings x.in_heading x.heading_text es
  valid : IsValid y

run_events-Runs : (es : List Event) (x : Extractor) → IsValid x → Runs x es (run_events x es)
unfolding run_events body_text headings
run_events-Runs [] x v = record {
  bodies_run = sym (append-nil (all_bodies x));
  titles_run = sym (append-nil (all_titles x));
  valid = v;
}
run_events-Runs (e ∷ es) x v =
    let step = on_event-Handles x e v in
    let run = run_events-Runs es (on_event x e) (step.valid v) in
    record {
      bodies_run =
          run.bodies_run
          ∙ ap₂ (λ a o. a ++ body_text o es) step.bodies_grow step.open_next
          ∙ append_assoc (all_bodies x) _ _;
      titles_run =
          run.titles_run
          ∙ (λ i. step.titles_grow i ++ headings (step.open_next i) (step.heading_next i) es)
          ∙ append_assoc (all_titles x) _ _;
      valid = run.valid;
    }

-- The bodies of the sections are the text outside the headings, in order and without a loss but of
-- white space at the very end; the titles are the headings of level 1 to 3, trimmed and in order; and
-- no section has neither a title nor a body.
pub extract_markdown_sections_keeps :
    (events : List Event)
    → (tail : Text) × (concat (bodies (extract_markdown_sections events)) ++ tail
        ≡ body_text false events)
      × (trim tail ≡ [])
      × (titles (extract_markdown_sections events) ≡ headings false [] events)
      × All IsSection (extract_markdown_sections events)
unfolding extract_markdown_sections
extract_markdown_sections_keeps events =
    let start : IsValid new_extractor = record { sections = tt; no_title = λ e. refl } in
    let y = run_events new_extractor events in
    let run = run_events-Runs events new_extractor start in
    let push = push_section-Pushes y in
    (
      (push_section y).current_body,
      push.bodies_same ∙ run.bodies_run,
      push.blank,
      sym (append-nil _)
          ∙ ap (λ t. titles (push_section y).sections ++ title_list t) (sym push.closed)
          ∙ push.titles_same
          ∙ run.titles_run,
      push.valid run.valid.sections,
    )
