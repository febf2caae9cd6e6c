-- ===== src/Retrieve/Fusion/Scores.antt =====
-- The merged list of retrieve/fusion.rs against the places where its chunks stand in the branches.
use wend_rag.Base.{
  ℕ, suc, List, [], ◌∷◌, ◌++◌, Option, none, some, ◌==◌, if◌then◌else◌, map, All, inl, inr, ◌≡◌,
  refl, sym, ap, ◌∙◌, arith, Bool-cases, concat,
}
use wend_rag.Base.Float.{Float}
use wend_rag.Retrieve.Fusion.{
  Chunk, Maps, add_score, score_of, add_chunk, contribution, branch_loop, branches_loop,
}

module _ (f : Float) where
  -- The places of a branch from a rank on: each chunk with its contribution.
  abbrev pub places : f.F → ℕ → List (Chunk f) → List (Chunk f × f.F)
  places k rank [] = []
  places k rank (c ∷ cs) = (c, contribution f k rank) ∷ places k (suc rank) cs

  abbrev pub all_places : f.F → List (List (Chunk f)) → List (Chunk f × f.F)
  all_places k bs = concat (map (places k 0) bs)

  -- The sum of the contributions of the places of an identifier, in their order.
  abbrev pub total : ℕ → List (Chunk f × f.F) → f.F → f.F
  total id [] sum = sum
  total id (p ∷ ps) sum = total id ps (if p.0.chunk_id == id then f.add sum p.1 else sum)

  -- The chunk at the first place of an identifier.
  abbrev pub first : ℕ → List (Chunk f × f.F) → Option (Chunk f)
  first id [] = none
  first id (p ∷ ps) = if p.0.chunk_id == id then some p.0 else first id ps

  score_of-add_score :
      (i id : ℕ) (c : f.F) (ps : List (ℕ × f.F))
      → score_of f i (add_score f id c ps)
        ≡ (if id == i then f.add (score_of f i ps) c else score_of f i ps)
  unfolding score_of add_score
  score_of-add_score i id c [] = ground arith
  score_of-add_score i id c (p ∷ ps) = ground (arith, score_of-add_score i id c ps)

  total-append :
      (id : ℕ) (ps qs : List (Chunk f × f.F)) (sum : f.F)
      → total id (ps ++ qs) sum ≡ total id qs (total id ps sum)
  total-append id [] qs sum = refl
  total-append id (p ∷ ps) qs sum =
      total-append id ps qs (if p.0.chunk_id == id then f.add sum p.1 else sum)

  score_of-branch_loop :
      (k : f.F) (i rank : ℕ) (cs : List (Chunk f)) (m : Maps f)
      → score_of f i (branch_loop f k rank cs m).0 ≡ total i (places k rank cs) (score_of f i m.0)
  unfolding branch_loop
  score_of-branch_loop k i rank [] m = refl
  score_of-branch_loop k i rank (c ∷ cs) m =
      let next : Maps f = (add_score f c.chunk_id (contribution f k rank) m.0, add_chunk f c m.1) in
      score_of-branch_loop k i (suc rank) cs next
      ∙ ap (total i (places k (suc rank) cs))
          (score_of-add_score i c.chunk_id (contribution f k rank) m.0)

  pub score_of-branches_loop :
      (k : f.F) (i : ℕ) (bs : List (List (Chunk f))) (m : Maps f)
      → score_of f i (branches_loop f k bs m).0 ≡ total i (all_places k bs) (score_of f i m.0)
  unfolding branches_loop
  score_of-branches_loop k i [] m = refl
  score_of-branches_loop k i (b ∷ bs) m =
      score_of-branches_loop k i bs (branch_loop f k 0 b m)
      ∙ ap (total i (all_places k bs)) (score_of-branch_loop k i 0 b m)
      ∙ sym (total-append i (places k 0 b) (all_places k bs) (score_of f i m.0))

  -- The stored chunk of an identifier.
  abbrev pub stored : ℕ → List (Chunk f) → Option (Chunk f)
  stored i [] = none
  stored i (d ∷ ds) = if d.chunk_id == i then some d else stored i ds

  abbrev pub or_else : Option (Chunk f) → Option (Chunk f) → Option (Chunk f)
  or_else none o = o
  or_else (some d) o = some d

  pub stored-add_chunk :
      (i : ℕ) (c : Chunk f) (ds : List (Chunk f))
      → stored i (add_chunk f c ds)
        ≡ or_else (stored i ds) (if c.chunk_id == i then some c else none)
  unfolding add_chunk
  stored-add_chunk i c [] = refl
  stored-add_chunk i c (d ∷ ds) = ground (arith, stored-add_chunk i c ds)

  All-add_chunk :
      (P : Chunk f → Type 0) (c : Chunk f) (ds : List (Chunk f))
      → All P ds
      → (stored c.chunk_id ds ≡ none → P c)
      → All P (add_chunk f c ds)
  unfolding add_chunk
  All-add_chunk P c [] h new_c = (new_c refl, tt)
  All-add_chunk P c (d ∷ ds) h new_c = elim (Bool-cases (d.chunk_id == c.chunk_id)) [
    | inl e ↦ rw e h
    | inr e ↦ let rest = All-add_chunk P c ds h.1 (λ q. new_c (rw e q)) in rw e (h.0, rest)
  ]

  -- Every stored chunk is the one found under its identifier.
  abbrev pub IsKeyed : List (Chunk f) → Type 0
  IsKeyed ds = All (λ d. stored d.chunk_id ds ≡ some d) ds

  All-map_of :
      (P Q : Chunk f → Type 0)
      → ((d : Chunk f) → P d → Q d)
      → (ds : List (Chunk f)) → All P ds
      → All Q ds
  All-map_of P Q g [] h = tt
  All-map_of P Q g (d ∷ ds) h = (g d h.0, All-map_of P Q g ds h.1)

  pub add_chunk-IsKeyed :
      (c : Chunk f) (ds : List (Chunk f)) → IsKeyed ds → IsKeyed (add_chunk f c ds)
  add_chunk-IsKeyed c ds h =
      let Q = λ (d : Chunk f). stored d.chunk_id (add_chunk f c ds) ≡ some d in
      All-add_chunk Q c ds
        (All-map_of (λ d. stored d.chunk_id ds ≡ some d) Q
          (λ d e.
            stored-add_chunk d.chunk_id c ds
            ∙ ap (λ o. or_else o (if c.chunk_id == d.chunk_id then some c else none)) e)
          ds h)
        (λ e.
          stored-add_chunk c.chunk_id c ds
          ∙ ap (λ o. or_else o (if c.chunk_id == c.chunk_id then some c else none)) e
          ∙ ground arith)
