-- ===== src/Retrieve/Fusion/Merged.antt =====
-- What the merged list of retrieve/fusion.rs holds, and its order.
use wend_rag.Base.{
  ℕ, zero, suc, List, [], ◌∷◌, ◌++◌, Option, none, some, ◌==◌, if◌then◌else◌, take, map, length,
  All, ◌≡◌, refl, sym, ap, ◌∙◌, arith,
}
use wend_rag.Base.Sort.{sort, All-sort}
use wend_rag.Base.Float.{Float}
use wend_rag.Retrieve.Fusion.{
  Chunk, Maps, add_score, score_of, add_chunk, contribution, branch_loop, branches_loop, with_score,
  precedes, rrf_with_k,
}
use wend_rag.Retrieve.Fusion.Scores.{
  places, all_places, total, first, stored, or_else, stored-add_chunk, IsKeyed, add_chunk-IsKeyed,
  score_of-branches_loop,
}

module _ (f : Float) where
  or_else_assoc :
      (o p q : Option (Chunk f)) → or_else f (or_else f o p) q ≡ or_else f o (or_else f p q)
  or_else_assoc none p q = refl
  or_else_assoc (some d) p q = refl

  first-append :
      (i : ℕ) (ps qs : List (Chunk f × f.F))
      → first f i (ps ++ qs) ≡ or_else f (first f i ps) (first f i qs)
  first-append i [] qs = refl
  first-append i (p ∷ ps) qs = ground (arith, first-append i ps qs)

  first-cons :
      (i : ℕ) (p : Chunk f × f.F) (ps : List (Chunk f × f.F))
      → first f i (p ∷ ps) ≡ or_else f (if p.0.chunk_id == i then some p.0 else none) (first f i ps)
  first-cons i p ps = ground arith

  stored-branch_loop :
      (k : f.F) (i rank : ℕ) (cs : List (Chunk f)) (m : Maps f)
      → stored f i (branch_loop f k rank cs m).1
        ≡ or_else f (stored f i m.1) (first f i (places f k rank cs))
  unfolding branch_loop
  stored-branch_loop k i rank [] m = elim (stored f i m.1) as (λ o. o ≡ or_else f o none) [
    | none ↦ refl
    | some d ↦ refl
  ]
  stored-branch_loop k i rank (c ∷ cs) m =
      let next : Maps f = (add_score f c.chunk_id (contribution f k rank) m.0, add_chunk f c m.1) in
      let own = if c.chunk_id == i then some c else none in
      let behind = first f i (places f k (suc rank) cs) in
      stored-branch_loop k i (suc rank) cs next
      ∙ ap (λ o. or_else f o behind) (stored-add_chunk f i c m.1)
      ∙ or_else_assoc (stored f i m.1) own behind
      ∙ ap (or_else f (stored f i m.1))
          (sym (first-cons i (c, contribution f k rank) (places f k (suc rank) cs)))

  stored-branches_loop :
      (k : f.F) (i : ℕ) (bs : List (List (Chunk f))) (m : Maps f)
      → stored f i (branches_loop f k bs m).1
        ≡ or_else f (stored f i m.1) (first f i (all_places f k bs))
  unfolding branches_loop
  stored-branches_loop k i [] m = elim (stored f i m.1) as (λ o. o ≡ or_else f o none) [
    | none ↦ refl
    | some d ↦ refl
  ]
  stored-branches_loop k i (b ∷ bs) m =
      stored-branches_loop k i bs (branch_loop f k 0 b m)
      ∙ ap (λ o. or_else f o (first f i (all_places f k bs))) (stored-branch_loop k i 0 b m)
      ∙ or_else_assoc (stored f i m.1) (first f i (places f k 0 b)) (first f i (all_places f k bs))
      ∙ ap (or_else f (stored f i m.1)) (sym (first-append i (places f k 0 b) (all_places f k bs)))

  branch_loop-IsKeyed :
      (k : f.F) (rank : ℕ) (cs : List (Chunk f)) (m : Maps f)
      → IsKeyed f m.1
      → IsKeyed f (branch_loop f k rank cs m).1
  unfolding branch_loop
  branch_loop-IsKeyed k rank [] m h = h
  branch_loop-IsKeyed k rank (c ∷ cs) m h =
      let next : Maps f = (add_score f c.chunk_id (contribution f k rank) m.0, add_chunk f c m.1) in
      branch_loop-IsKeyed k (suc rank) cs next (add_chunk-IsKeyed f c m.1 h)

  branches_loop-IsKeyed :
      (k : f.F) (bs : List (List (Chunk f))) (m : Maps f)
      → IsKeyed f m.1
      → IsKeyed f (branches_loop f k bs m).1
  unfolding branches_loop
  branches_loop-IsKeyed k [] m h = h
  branches_loop-IsKeyed k (b ∷ bs) m h =
      branches_loop-IsKeyed k bs (branch_loop f k 0 b m) (branch_loop-IsKeyed k 0 b m h)

  -- The chunk of the first place with its identifier, with the sum of the contributions of all the
  -- places with its identifier for a score.
  abbrev pub IsFused : f.F → List (List (Chunk f)) → Chunk f → Type 0
  IsFused k branches c =
      (d : Chunk f) × (first f d.chunk_id (all_places f k branches) ≡ some d)
      × (c ≡ record d { score = total f d.chunk_id (all_places f k branches) (f.of_ℕ 0) })

  -- The order in which the map is gone through brings in nothing and loses nothing.
  pub record IsOrder (order : List (Chunk f) → List (Chunk f)) : Type 1 where
    pub keeps : (P : Chunk f → Type 0) (ds : List (Chunk f)) → All P ds → All P (order ds)
    pub as_many : (ds : List (Chunk f)) → length (order ds) ≡ length ds

  All-take : (P : Chunk f → Type 0) (n : ℕ) (cs : List (Chunk f)) → All P cs → All P (take n cs)
  All-take P zero cs h = tt
  All-take P (suc n) [] h = tt
  All-take P (suc n) (c ∷ cs) h = (h.0, All-take P n cs h.1)

  All-map :
      (P Q : Chunk f → Type 0) (g : Chunk f → Chunk f)
      → ((d : Chunk f) → P d → Q (g d))
      → (ds : List (Chunk f)) → All P ds
      → All Q (map g ds)
  All-map P Q g h [] k = tt
  All-map P Q g h (d ∷ ds) k = (h d k.0, All-map P Q g h ds k.1)

  with_score-IsFused :
      (k : f.F) (bs : List (List (Chunk f))) (d : Chunk f)
      → let maps = branches_loop f k bs ([], []) in
        stored f d.chunk_id maps.1 ≡ some d → IsFused k bs (with_score f maps.0 d)
  unfolding with_score
  with_score-IsFused k bs d h = (
    d,
    sym (stored-branches_loop k d.chunk_id bs ([], [])) ∙ h,
    ap (λ s. record d { score = s })
        (score_of-branches_loop f k d.chunk_id bs ([], [])
          ∙ ap (total f d.chunk_id (all_places f k bs)) (score_nil d.chunk_id)),
  )
    where
      score_nil : (i : ℕ) → score_of f i [] ≡ f.of_ℕ 0
      score_nil i = unfold score_of in refl

  -- Each chunk of the merged list is one of the branches', as it stands where its identifier comes
  -- first, and its score is the sum of 1 / (k + rank) over all the places of its identifier.
  pub rrf_with_k-IsFused :
      (order : List (Chunk f) → List (Chunk f)) (k : f.F) (branches : List (List (Chunk f)))
      (top_k : ℕ)
      → IsOrder order
      → All (IsFused k branches) (rrf_with_k f order k branches top_k)
  unfolding rrf_with_k
  rrf_with_k-IsFused order k branches top_k is_order =
      let maps = branches_loop f k branches ([], []) in
      let P = λ (d : Chunk f). stored f d.chunk_id maps.1 ≡ some d in
      let keyed = is_order.keeps P maps.1 (branches_loop-IsKeyed k branches ([], []) tt) in
      let fused =
        All-map P (IsFused k branches) (with_score f maps.0)
          (λ d e. with_score-IsFused k branches d e) (order maps.1) keyed in
      All-take (IsFused k branches) top_k
        (sort (precedes f) (map (with_score f maps.0) (order maps.1)))
        (All-sort (precedes f) (IsFused k branches) (map (with_score f maps.0) (order maps.1))
          fused)
