-- ===== src/Store/Sqlite/Rows.antt =====
-- The rows of the table of documents that store/sqlite/mod.rs finds and upserts.
use wend_rag.Base.{
  ℕ, ◌<◌, List, [], ◌∷◌, Option, none, some, true, false, All, All-map, Bool, All-filter, filter,
  not, ◌==◌, ==_iff, ◌≡◌, ◌≢◌, inl, inr, refl, sym, ◌∙◌, arith, Bool-cases,
}
use wend_rag.Base.Text.{Text}
use wend_rag.Base.Text.Laws.{text_eq_iff, text_eq_refl}
use wend_rag.Store.Backend.{DocumentUpsert}
use wend_rag.Store.Sqlite.{DocumentRow, has_path, find_document, new_row, update_row, upsert_rows}

-- The documents' identifiers differ.
abbrev pub HasUniqueIds : List DocumentRow → Type 0
HasUniqueIds [] = Unit
HasUniqueIds (d ∷ ds) = All (λ e. e.id ≢ d.id) ds × HasUniqueIds ds

-- What holds of the row that a lookup finds, if it finds one.
abbrev pub Found : (DocumentRow → Type 0) → Option DocumentRow → Type 0
Found P none = Unit
Found P (some d) = P d

pub find-Found :
    (P : DocumentRow → Type 0) (path : Text) (ds : List DocumentRow)
    → All P ds
    → Found P (find_document path ds)
unfolding find_document
find-Found P path [] h = tt
find-Found P path (x ∷ ds) h = elim (Bool-cases (has_path path x)) [
  | inl q ↦ rw q h.0
  | inr q ↦ rw q (find-Found P path ds h.1)
]

-- Two lookups do not find rows of one identifier.
abbrev pub Apart : Option DocumentRow → Option DocumentRow → Type 0
Apart none b = Unit
Apart (some d) b = Found (λ e. e.id ≢ d.id) b

pub Found-Apart :
    (x : DocumentRow) (o : Option DocumentRow) → Found (λ e. e.id ≢ x.id) o → Apart o (some x)
Found-Apart x none h = tt
Found-Apart x (some d) h = λ e. h (sym e)

pub path_of : (path : Text) (d : DocumentRow) → has_path path d ≡ true → d.file_path ≡ path
unfolding has_path
path_of path d h = (text_eq_iff d.file_path path).0 h

pub find-Apart :
    (p q : Text) (ds : List DocumentRow)
    → p ≢ q
    → HasUniqueIds ds
    → Apart (find_document p ds) (find_document q ds)
unfolding find_document
find-Apart p q [] n h = tt
find-Apart p q (x ∷ ds) n h = elim (Bool-cases (has_path p x)) [
  | inl a ↦ elim (Bool-cases (has_path q x)) [
    | inl b ↦ absurd (n (sym (path_of p x a) ∙ path_of q x b))
    | inr b ↦ rw (a, b) (find-Found (λ e. e.id ≢ x.id) q ds h.0)
  ]
  | inr a ↦ elim (Bool-cases (has_path q x)) [
    | inl b ↦
        rw (a, b) (Found-Apart x (find_document p ds) (find-Found (λ e. e.id ≢ x.id) p ds h.0))
    | inr b ↦ rw (a, b) (find-Apart p q ds n h.1)
  ]
]

-- The row that an upsert leaves, after the row that was there.
abbrev pub Upserted : DocumentUpsert → ℕ → ℕ → Option DocumentRow → Option DocumentRow → Type 0
Upserted d new_id id old none = ⊥
Upserted d new_id id none (some row) =
    (row.id ≡ id) × (row.content_hash ≡ d.content_hash) × (id ≡ new_id)
Upserted d new_id id (some e) (some row) =
    (row.id ≡ id) × (row.content_hash ≡ d.content_hash) × (id ≡ e.id)

pub update_row_keeps :
    (d : DocumentUpsert) (now : ℕ) (x : DocumentRow) (path : Text)
    → (has_path path (update_row d now x) ≡ has_path path x)
      × ((update_row d now x).id ≡ x.id)
      × ((update_row d now x).content_hash ≡ d.content_hash)
unfolding update_row has_path
update_row_keeps d now x path = (refl, refl, refl)

pub upsert-Upserted :
    (d : DocumentUpsert) (new_id now : ℕ) (ds : List DocumentRow)
    → Upserted d new_id
        (upsert_rows d new_id now ds).1
        (find_document d.file_path ds)
        (find_document d.file_path (upsert_rows d new_id now ds).0)
unfolding upsert_rows find_document
upsert-Upserted d new_id now [] =
    let own : has_path d.file_path (new_row d new_id now) ≡ true =
      unfold has_path in unfold new_row in text_eq_refl d.file_path in
    rw own ((unfold new_row in refl), (unfold new_row in refl), refl)
upsert-Upserted d new_id now (x ∷ ds) =
    let k = update_row_keeps d now x d.file_path in
    elim (Bool-cases (has_path d.file_path x)) [
      | inl q ↦
          let own : has_path d.file_path (update_row d now x) ≡ true = k.0 ∙ q in
          rw (q, own) (k.1, k.2, refl)
      | inr q ↦ rw (q, q) (upsert-Upserted d new_id now ds)
    ]

pub find-upsert_rows :
    (d : DocumentUpsert) (new_id now : ℕ) (p : Text) (ds : List DocumentRow)
    → p ≢ d.file_path
    → find_document p (upsert_rows d new_id now ds).0 ≡ find_document p ds
unfolding upsert_rows find_document
find-upsert_rows d new_id now p [] n = elim (Bool-cases (has_path p (new_row d new_id now))) [
  | inl q ↦ absurd (n (sym (unfold new_row in path_of p (new_row d new_id now) q)))
  | inr q ↦ rw q refl
]
find-upsert_rows d new_id now p (x ∷ ds) n =
    let k = update_row_keeps d now x p in
    let rest = find-upsert_rows d new_id now p ds n in
    elim (Bool-cases (has_path d.file_path x)) [
      | inl q ↦ elim (Bool-cases (has_path p x)) [
        | inl a ↦ absurd (n (sym (path_of p x a) ∙ path_of d.file_path x q))
        | inr a ↦ let b : has_path p (update_row d now x) ≡ false = k.0 ∙ a in rw (q, a, b) refl
      ]
      | inr q ↦ rw (q, rest) refl
    ]

-- The identifiers after an upsert: a fresh one at most is new.
pub upsert_rows-All :
    (P : DocumentRow → Type 0) (d : DocumentUpsert) (new_id now : ℕ) (ds : List DocumentRow)
    → P (new_row d new_id now)
    → ((x : DocumentRow) → P x → P (update_row d now x))
    → All P ds
    → All P (upsert_rows d new_id now ds).0
unfolding upsert_rows
upsert_rows-All P d new_id now [] a f h = (a, tt)
upsert_rows-All P d new_id now (x ∷ ds) a f h =
    let rest = upsert_rows-All P d new_id now ds a f h.1 in
    elim (Bool-cases (has_path d.file_path x)) [
      | inl q ↦ rw q (f x h.0, h.1)
      | inr q ↦ rw q (h.0, rest)
    ]

pub upsert_rows-HasUniqueIds :
    (d : DocumentUpsert) (new_id now : ℕ) (ds : List DocumentRow)
    → All (λ x. x.id < new_id) ds
    → HasUniqueIds ds
    → HasUniqueIds (upsert_rows d new_id now ds).0
unfolding upsert_rows
upsert_rows-HasUniqueIds d new_id now [] b h = (tt, tt)
upsert_rows-HasUniqueIds d new_id now (x ∷ ds) b h =
    let rest = upsert_rows-HasUniqueIds d new_id now ds b.1 h.1 in
    let k = update_row_keeps d now x d.file_path in
    elim (Bool-cases (has_path d.file_path x)) [
      | inl q ↦ rw q (All-map (λ e n m. n (m ∙ k.1)) ds h.0, h.1)
      | inr q ↦
          let fresh : (new_row d new_id now).id ≢ x.id =
            unfold new_row in λ e. absurd (omega (arith, b.0, e)) in
          rw q (
            upsert_rows-All (λ e. e.id ≢ x.id) d new_id now ds fresh
                (λ e n m. n (sym (update_row_keeps d now e d.file_path).1 ∙ m)) h.0,
            rest,
          )
    ]

-- Of the rows, only one of the found row's path has its identifier.
abbrev pub Only : Text → Option DocumentRow → List DocumentRow → Type 0
Only path none ds = Unit
Only path (some d) ds = All (λ x. x.id ≡ d.id → x.file_path ≡ path) ds

Only-push :
    (path : Text) (x : DocumentRow) (o : Option DocumentRow) (ds : List DocumentRow)
    → Found (λ e. e.id ≢ x.id) o
    → Only path o ds
    → Only path o (x ∷ ds)
Only-push path x none ds h k = tt
Only-push path x (some d) ds h k = ((λ e. absurd (h (sym e))), k)

pub find-Only :
    (path : Text) (ds : List DocumentRow) → HasUniqueIds ds → Only path (find_document path ds) ds
unfolding find_document
find-Only path [] h = tt
find-Only path (x ∷ ds) h = elim (Bool-cases (has_path path x)) [
  | inl q ↦ rw q ((λ e. path_of path x q), All-map (λ e n m. absurd (n m)) ds h.0)
  | inr q ↦
      let rest = find-Only path ds h.1 in
      let other = find-Found (λ e. e.id ≢ x.id) path ds h.0 in
      rw q (Only-push path x (find_document path ds) ds other rest)
]

pub find-filter :
    (p path : Text) (id : ℕ) (ds : List DocumentRow)
    → p ≢ path
    → All (λ x. x.id ≡ id → x.file_path ≡ path) ds
    → find_document p (filter (λ x. not (x.id == id)) ds) ≡ find_document p ds
unfolding find_document
find-filter p path id [] n h = refl
find-filter p path id (x ∷ ds) n h =
    let rest = find-filter p path id ds n h.1 in
    elim (Bool-cases (x.id == id)) [
      | inl q ↦ elim (Bool-cases (has_path p x)) [
        | inl a ↦ absurd (n (sym (path_of p x a) ∙ h.0 ((==_iff x.id id).0 q)))
        | inr a ↦ rw (q, a) rest
      ]
      | inr q ↦ elim (Bool-cases (has_path p x)) [ inl a ↦ rw (q, a) refl | inr a ↦ rw (q, a) rest ]
    ]

pub filter-HasUniqueIds :
    (keep : DocumentRow → Bool) (ds : List DocumentRow)
    → HasUniqueIds ds
    → HasUniqueIds (filter keep ds)
filter-HasUniqueIds keep [] h = tt
filter-HasUniqueIds keep (x ∷ ds) h =
    let rest = filter-HasUniqueIds keep ds h.1 in
    elim (Bool-cases (keep x)) [
      | inl q ↦ rw q (All-filter (λ e. e.id ≢ x.id) keep ds h.0, rest)
      | inr q ↦ rw q rest
    ]
