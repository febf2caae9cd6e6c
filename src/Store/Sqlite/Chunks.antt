-- ===== src/Store/Sqlite/Chunks.antt =====
-- The rows of the table of chunks that store/sqlite/mod.rs replaces.
use wend_rag.Base.{
  ℕ, ◌<◌, List, [], ◌∷◌, ◌++◌, true, false, not, ◌==◌, filter, filter-append, map, map-append, All,
  append-nil, ◌≡◌, ◌≢◌, inl, inr, refl, sym, ap, ◌∙◌, subst, arith, Bool-cases,
}
use wend_rag.Store.Backend.{ChunkInsert}
use wend_rag.Store.Sqlite.{ChunkRow, is_of, rows_for}

module _ {F : Type 0} where
  unfoldable pub stored_chunks : ℕ → List (ChunkRow F) → List (ChunkInsert F)
  stored_chunks id rows = map (λ row. row.chunk) (filter (is_of id) rows)

  pub stored_chunks-fresh :
      (id : ℕ) (rows : List (ChunkRow F))
      → All (λ c. c.document_id < id) rows
      → stored_chunks id rows ≡ []
  unfolding stored_chunks is_of
  stored_chunks-fresh id [] h = refl
  stored_chunks-fresh id (c ∷ rows) h =
      let other : (c.document_id == id) ≡ false = ground (arith, h.0) in
      rw other (stored_chunks-fresh id rows h.1)

  pub stored_chunks-others :
      (id : ℕ) (rows : List (ChunkRow F))
      → stored_chunks id (filter (λ row. not (is_of id row)) rows) ≡ []
  unfolding stored_chunks is_of
  stored_chunks-others id [] = refl
  stored_chunks-others id (c ∷ rows) = elim (Bool-cases (c.document_id == id)) [
    | inl q ↦ rw q (stored_chunks-others id rows)
    | inr q ↦ rw (q, q) (stored_chunks-others id rows)
  ]

  pub stored_chunks-kept :
      (i id : ℕ) (rows : List (ChunkRow F))
      → i ≢ id
      → stored_chunks i (filter (λ row. not (is_of id row)) rows) ≡ stored_chunks i rows
  unfolding stored_chunks is_of
  stored_chunks-kept i id [] n = refl
  stored_chunks-kept i id (c ∷ rows) n =
      let rest = stored_chunks-kept i id rows n in
      elim (Bool-cases (c.document_id == id)) [
        | inl q ↦
            let other : (c.document_id == i) ≡ false = ground (arith, q, n) in rw (q, other) rest
        | inr q ↦ elim (Bool-cases (c.document_id == i)) [
          | inl a ↦ rw (q, a) (ap (λ cs. c.chunk ∷ cs) rest)
          | inr a ↦ rw (q, a) rest
        ]
      ]

  pub stored_chunks-rows_for :
      (id : ℕ) (cs : List (ChunkInsert F)) → stored_chunks id (rows_for id cs) ≡ cs
  unfolding stored_chunks is_of rows_for
  stored_chunks-rows_for id [] = refl
  stored_chunks-rows_for id (c ∷ cs) =
      let own : (id == id) ≡ true = ground arith in
      rw own (ap (λ ds. c ∷ ds) (stored_chunks-rows_for id cs))

  pub stored_chunks-rows_of_other :
      (i id : ℕ) (cs : List (ChunkInsert F)) → i ≢ id → stored_chunks i (rows_for id cs) ≡ []
  unfolding stored_chunks is_of rows_for
  stored_chunks-rows_of_other i id [] n = refl
  stored_chunks-rows_of_other i id (c ∷ cs) n =
      let other : (id == i) ≡ false = ground (arith, n) in
      rw other (stored_chunks-rows_of_other i id cs n)

  pub stored_chunks-append :
      (i : ℕ) (rows more : List (ChunkRow F))
      → stored_chunks i (rows ++ more) ≡ stored_chunks i rows ++ stored_chunks i more
  unfolding stored_chunks
  stored_chunks-append i rows more =
      ap (map (λ row. row.chunk)) (filter-append (is_of i) rows more)
      ∙ map-append (λ row. row.chunk) (filter (is_of i) rows) (filter (is_of i) more)

  -- The chunks of each document after a replacement.
  pub stored_chunks-replaced :
      (i id : ℕ) (cs : List (ChunkInsert F)) (rows : List (ChunkRow F))
      → ((i ≡ id)
          → stored_chunks i (filter (λ row. not (is_of id row)) rows ++ rows_for id cs) ≡ cs)
        × ((i ≢ id)
            → stored_chunks i (filter (λ row. not (is_of id row)) rows ++ rows_for id cs)
              ≡ stored_chunks i rows)
  stored_chunks-replaced i id cs rows =
      let others = filter (λ row. not (is_of id row)) rows in
      let split = stored_chunks-append i others (rows_for id cs) in
      (
        (λ e.
            subst (λ j. stored_chunks j (others ++ rows_for id cs) ≡ cs) (sym e)
              (stored_chunks-append id others (rows_for id cs)
                ∙ ap (λ t. t ++ stored_chunks id (rows_for id cs)) (stored_chunks-others id rows)
                ∙ stored_chunks-rows_for id cs)),
        (λ n.
            split
            ∙ ap (λ t. t ++ stored_chunks i (rows_for id cs)) (stored_chunks-kept i id rows n)
            ∙ ap (λ t. stored_chunks i rows ++ t) (stored_chunks-rows_of_other i id cs n)
            ∙ append-nil (stored_chunks i rows)),
      )

  pub All-rows_for :
      (n id : ℕ) (cs : List (ChunkInsert F))
      → id < n
      → All (λ c. c.document_id < n) (rows_for id cs)
  unfolding rows_for
  All-rows_for n id [] h = tt
  All-rows_for n id (c ∷ cs) h = (h, All-rows_for n id cs h)
