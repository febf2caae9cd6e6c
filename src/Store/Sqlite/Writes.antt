-- ===== src/Store/Sqlite/Writes.antt =====
-- The upsert and the replacement of store/sqlite/mod.rs against what stands under each path.
use wend_rag.Base.{
  ℕ, ◌+◌, ◌<◌, List, ◌++◌, Option, none, some, not, ◌&&◌, ◌||◌, ◌==◌, is_empty, any, filter, All,
  All-map, All-append, All-filter, ◌≡◌, inl, inr, refl, sym, ap, ◌∙◌, subst, arith, Bool-cases,
}
use wend_rag.Base.Action.{Ends}
use wend_rag.Base.Text.{Text}
use wend_rag.Store.Backend.{ChunkInsert, DocumentUpsert, Entry, KeepsId, chunks_of, Same, SameBut}
use wend_rag.Store.EntityTables.{forget_chunks}
use wend_rag.Store.EntityTables.References.{forget_chunks-HasReferences}
use wend_rag.Store.Sqlite.{
  DocumentRow, ChunkRow, Tables, find_document, is_storable_type, new_row, update_row, upsert_rows,
  is_of, has_dimensions, repeats_index, rows_for, insert_document, upsert_document, insert_chunks,
  replace_document_chunks,
}
use wend_rag.Store.Sqlite.Rows.{
  Found, find-Found, Apart, find-Apart, Upserted, upsert-Upserted, find-upsert_rows,
  upsert_rows-All, upsert_rows-HasUniqueIds,
}
use wend_rag.Store.Sqlite.Chunks.{
  stored_chunks, stored_chunks-fresh, stored_chunks-replaced, All-rows_for,
}
use wend_rag.Store.Sqlite.Index.{entry_for, index, IsWellFormed, reach-Ends, Entry_eq}

module _ {F : Type 0} where
  -- The entry of the row that an upsert leaves.
  pub Upserted-KeepsId :
      (d : DocumentUpsert) (new_id id : ℕ) (rows : List (ChunkRow F)) (old new : Option DocumentRow)
      → All (λ c. c.document_id < new_id) rows
      → Upserted d new_id id old new
      → KeepsId (entry_for rows old) id
        × (entry_for rows new
            ≡ some record {
              id = id;
              content_hash = d.content_hash;
              chunks = chunks_of (entry_for rows old);
            })
  Upserted-KeepsId d new_id id rows old none b h = absurd h
  Upserted-KeepsId d new_id id rows none (some row) b h = (
    tt,
    Entry_eq _ _ h.0 h.1 (
        ap (λ i. stored_chunks i rows) (h.0 ∙ h.2)
        ∙ stored_chunks-fresh new_id rows b
        ∙ sym (unfold chunks_of in refl)),
  )
  Upserted-KeepsId d new_id id rows (some e) (some row) b h = (
    h.2,
    Entry_eq _ _ h.0 h.1
        (ap (λ i. stored_chunks i rows) (h.0 ∙ h.2) ∙ sym (unfold chunks_of in refl)),
  )

  abbrev pub IsUpsert : DocumentUpsert → Tables F → ℕ → Tables F → Type 0
  IsUpsert d s id t =
      IsWellFormed t
      × SameBut d.file_path (index s) (index t)
      × KeepsId (index s d.file_path) id
      × (index t d.file_path
          ≡ some record {
            id = id;
            content_hash = d.content_hash;
            chunks = chunks_of (index s d.file_path);
          })

  pub rows-IsUpsert :
      (d : DocumentUpsert) (s : Tables F)
      → IsWellFormed s
      → IsUpsert d s (upsert_rows d s.next_id s.clock s.documents).1 (record s {
        documents = (upsert_rows d s.next_id s.clock s.documents).0;
        next_id = s.next_id + 1;
        clock = s.clock + 1;
      })
  rows-IsUpsert d s v =
      let out = upsert_rows d s.next_id s.clock s.documents in
      let entry =
        Upserted-KeepsId d s.next_id out.1 s.chunks (find_document d.file_path s.documents)
          (find_document d.file_path out.0) v.1 (upsert-Upserted d s.next_id s.clock s.documents) in
      let fresh : (new_row d s.next_id s.clock).id < s.next_id + 1 =
        unfold new_row in omega arith in
      let kept : (y : DocumentRow)
          → y.id < s.next_id + 1
          → (update_row d s.clock y).id < s.next_id + 1 =
        λ y h. unfold update_row in h in
      (
        (
          upsert_rows-All (λ y. y.id < s.next_id + 1) d s.next_id s.clock s.documents fresh kept
              (All-map (λ y h. omega (arith, h)) s.documents v.0),
          All-map (λ c h. omega (arith, h)) s.chunks v.1,
          upsert_rows-HasUniqueIds d s.next_id s.clock s.documents v.0 v.2,
          v.3,
        ),
        (λ p n. ap (entry_for s.chunks) (find-upsert_rows d s.next_id s.clock p s.documents n)),
        entry.0,
        entry.1,
      )

  pub upserts_lem :
      (d : DocumentUpsert) (s : Tables F)
      → IsWellFormed s
      → Ends (IsUpsert d s) (λ e t. IsWellFormed t × Same (index s) (index t)) (upsert_document d s)
  unfolding upsert_document insert_document
  upserts_lem d s v = elim (Bool-cases (is_storable_type d.file_type)) [
    | inl q ↦
        reach-Ends _ _ _ s s.reached (rw q (rows-IsUpsert d s v)) (λ cs. rw q (rows-IsUpsert d s v))
          (λ cs. (v, λ p. refl))
    | inr q ↦
        reach-Ends _ _ _ s s.reached (rw q (v, λ p. refl)) (λ cs. rw q (v, λ p. refl))
          (λ cs. (v, λ p. refl))
  ]

  abbrev pub IsReplaced : Text → Entry F → List (ChunkInsert F) → Tables F → Tables F → Type 0
  IsReplaced path e cs s t =
      IsWellFormed t
      × SameBut path (index s) (index t)
      × (index t path ≡ some record { id = e.id; content_hash = e.content_hash; chunks = cs })

  -- The row of an entry.
  abbrev pub IsRowOf : Entry F → Option DocumentRow → Type 0
  IsRowOf e none = ⊥
  IsRowOf e (some d) = (d.id ≡ e.id) × (d.content_hash ≡ e.content_hash)

  pub entry_for-IsRowOf :
      (rows : List (ChunkRow F)) (o : Option DocumentRow) (e : Entry F)
      → entry_for rows o ≡ some e
      → IsRowOf e o
  entry_for-IsRowOf rows none e h = cc
  entry_for-IsRowOf rows (some d) e h = subst Fields h (refl, refl)
    where
      Fields : Option (Entry F) → Type 0
      Fields none = ⊥
      Fields (some f) = (d.id ≡ f.id) × (d.content_hash ≡ f.content_hash)

  pub at_path :
      (e : Entry F) (cs : List (ChunkInsert F)) (rows : List (ChunkRow F)) (o : Option DocumentRow)
      → IsRowOf e o
      → entry_for (filter (λ row. not (is_of e.id row)) rows ++ rows_for e.id cs) o
        ≡ some record { id = e.id; content_hash = e.content_hash; chunks = cs }
  at_path e cs rows none h = absurd h
  at_path e cs rows (some d) h =
      Entry_eq _ _ h.0 h.1 ((stored_chunks-replaced d.id e.id cs rows).0 h.0)

  pub at_other :
      (e : Entry F) (cs : List (ChunkInsert F)) (rows : List (ChunkRow F))
      (o p : Option DocumentRow)
      → IsRowOf e o
      → Apart o p
      → entry_for (filter (λ row. not (is_of e.id row)) rows ++ rows_for e.id cs) p
        ≡ entry_for rows p
  at_other e cs rows none p h a = absurd h
  at_other e cs rows (some d) none h a = refl
  at_other e cs rows (some d) (some f) h a =
      Entry_eq _ _ refl refl
        ((stored_chunks-replaced f.id e.id cs rows).1 (λ same. a (same ∙ sym h.0)))

  pub below_next :
      (n : ℕ) (e : Entry F) (o : Option DocumentRow)
      → IsRowOf e o
      → Found (λ d. d.id < n) o
      → e.id < n
  below_next n e none h k = absurd h
  below_next n e (some d) h k = omega (arith, h.0, k)

  pub rows-IsReplaced :
      (path : Text) (e : Entry F) (cs : List (ChunkInsert F)) (s : Tables F)
      → IsWellFormed s
      → index s path ≡ some e
      → IsReplaced path e cs s (record s {
        chunks = filter (λ row. not (is_of e.id row)) s.chunks ++ rows_for e.id cs;
        graph = forget_chunks e.id s.graph;
      })
  rows-IsReplaced path e cs s v at =
      let row = entry_for-IsRowOf s.chunks (find_document path s.documents) e at in
      let below =
        below_next s.next_id e (find_document path s.documents) row
          (find-Found (λ d. d.id < s.next_id) path s.documents v.0) in
      (
        (
          v.0,
          All-append (λ c. c.document_id < s.next_id) (filter (λ c. not (is_of e.id c)) s.chunks)
              (rows_for e.id cs) (All-filter _ (λ c. not (is_of e.id c)) s.chunks v.1)
              (All-rows_for s.next_id e.id cs below),
          v.2,
          forget_chunks-HasReferences e.id s.graph v.3,
        ),
        (λ p n.
            at_other e cs s.chunks (find_document path s.documents) (find_document p s.documents)
              row (find-Apart path p s.documents (λ q. n (sym q)) v.2)),
        at_path e cs s.chunks (find_document path s.documents) row,
      )

  pub replaces_lem :
      (path : Text) (e : Entry F) (cs : List (ChunkInsert F)) (s : Tables F)
      → IsWellFormed s
      → index s path ≡ some e
      → Ends
          (λ u t. IsReplaced path e cs s t)
          (λ x t. IsWellFormed t × Same (index s) (index t))
          (replace_document_chunks e.id cs s)
  unfolding replace_document_chunks insert_chunks
  replaces_lem path e cs s v at =
      let new = rows-IsReplaced path e cs s v at in
      let old : IsWellFormed s × Same (index s) (index s) = (v, λ p. refl) in
      elim (Bool-cases (any (λ c. not (has_dimensions c)) cs)) [
        | inl a ↦ reach-Ends _ _ _ s s.reached (rw a old) (λ bs. rw a old) (λ bs. old)
        | inr a ↦
            elim (Bool-cases (
              repeats_index cs
              || (not (is_empty cs) && not (any (λ d. d.id == e.id) s.documents)))) [
                | inl b ↦
                    reach-Ends _ _ _ s s.reached (rw (a, b) old) (λ bs. rw (a, b) old) (λ bs. old)
                | inr b ↦
                    reach-Ends _ _ _ s s.reached (rw (a, b) new) (λ bs. rw (a, b) new) (λ bs. old)
              ]
      ]
