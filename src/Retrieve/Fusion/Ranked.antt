-- ===== src/Retrieve/Fusion/Ranked.antt =====
-- The order of the merged list of retrieve/fusion.rs, and which chunks it leaves out.
use wend_rag.Base.{
  ℕ, suc, ◌≤◌, List, [], ◌∷◌, Bool, true, ◌==◌, ==_iff, take, map, length, All, All-map, Any,
  Any-mono, Bool-cases, ◌⊎◌, inl, inr, ◌≡◌, refl, ap, subst, ◌∙◌, arith,
}
use wend_rag.Base.Sort.{sort, Any-sort, IsSorted, sort-IsSorted}
use wend_rag.Base.Float.{Float, IsOrdered}
use wend_rag.Retrieve.Fusion.{
  Chunk, Maps, score_of, add_chunk, branch_loop, branches_loop, with_score, precedes, rrf_with_k,
}
use wend_rag.Retrieve.Fusion.Scores.{all_places, total, score_of-branches_loop}
use wend_rag.Base.TakeSorted.{Any-map, take-ahead, take-IsSorted, IsSorted-mono, length-take-le}

module _ (f : Float) where
  module _ (P : Chunk f → Type 0) where
    Any-add_chunk : (c : Chunk f) (ds : List (Chunk f)) → Any P ds → Any P (add_chunk f c ds)
    unfolding add_chunk
    Any-add_chunk c [] h = absurd h
    Any-add_chunk c (d ∷ ds) h = ground (arith, Any-add_chunk c ds)

    Any-branch_loop :
        (k : f.F) (rank : ℕ) (cs : List (Chunk f)) (m : Maps f)
        → Any P m.1
        → Any P (branch_loop f k rank cs m).1
    unfolding branch_loop
    Any-branch_loop k rank [] m h = h
    Any-branch_loop k rank (c ∷ cs) m h = Any-branch_loop k (suc rank) cs _ (Any-add_chunk c m.1 h)

    Any-branches_loop :
        (k : f.F) (bs : List (List (Chunk f))) (m : Maps f)
        → Any P m.1
        → Any P (branches_loop f k bs m).1
    unfolding branches_loop
    Any-branches_loop k [] m h = h
    Any-branches_loop k (b ∷ bs) m h = Any-branches_loop k bs _ (Any-branch_loop k 0 b m h)

  -- A chunk of the list has the identifier.
  abbrev pub HasId : List (Chunk f) → Chunk f → Type 0
  HasId ds c = Any (λ d. d.chunk_id ≡ c.chunk_id) ds

  add_chunk-HasId : (c : Chunk f) (ds : List (Chunk f)) → HasId (add_chunk f c ds) c
  unfolding add_chunk
  add_chunk-HasId c [] = inl refl
  add_chunk-HasId c (d ∷ ds) = elim (Bool-cases (d.chunk_id == c.chunk_id)) [
    | inl e ↦ rw e (inl ((==_iff d.chunk_id c.chunk_id).0 e))
    | inr e ↦ rw e (inr (add_chunk-HasId c ds))
  ]

  branch_loop-HasId :
      (k : f.F) (rank : ℕ) (cs : List (Chunk f)) (m : Maps f)
      → All (HasId (branch_loop f k rank cs m).1) cs
  unfolding branch_loop
  branch_loop-HasId k rank [] m = tt
  branch_loop-HasId k rank (c ∷ cs) m = (
    Any-branch_loop (λ d. d.chunk_id ≡ c.chunk_id) k (suc rank) cs _ (add_chunk-HasId c m.1),
    branch_loop-HasId k (suc rank) cs _,
  )

  branches_loop-HasId :
      (k : f.F) (bs : List (List (Chunk f))) (m : Maps f)
      → All (All (HasId (branches_loop f k bs m).1)) bs
  unfolding branches_loop
  branches_loop-HasId k [] m = tt
  branches_loop-HasId k (b ∷ bs) m = (
    All-map (λ c h. Any-branches_loop (λ d. d.chunk_id ≡ c.chunk_id) k bs (branch_loop f k 0 b m) h)
        b (branch_loop-HasId k 0 b m),
    branches_loop-HasId k bs (branch_loop f k 0 b m),
  )

  -- Going through the map loses no chunk.
  abbrev pub LosesNone : (List (Chunk f) → List (Chunk f)) → Type 1
  LosesNone order = (P : Chunk f → Type 0) (ds : List (Chunk f)) → Any P ds → Any P (order ds)

  -- The sum of the contributions of all the places of a chunk's identifier.
  abbrev pub score_in : f.F → List (List (Chunk f)) → Chunk f → f.F
  score_in k branches c = total f c.chunk_id (all_places f k branches) (f.of_ℕ 0)

  -- The identifier of a branch's chunk is in the list, or the list is full of scores at least its.
  abbrev pub IsPlaced : f.F → List (List (Chunk f)) → ℕ → List (Chunk f) → Chunk f → Type 0
  IsPlaced k branches top_k r c =
      HasId r c ⊎ ((length r ≡ top_k) × All (λ x. f.le (score_in k branches c) x.score ≡ true) r)

  abbrev pub IsRanked : f.F → List (List (Chunk f)) → ℕ → List (Chunk f) → Type 0
  IsRanked k branches top_k r =
      IsSorted (λ a b. f.le b.score a.score) r
      × (length r ≤ top_k)
      × All (All (IsPlaced k branches top_k r)) branches

  module _ (ordered : IsOrdered f) where
    precedes-le : (a b : Chunk f) → precedes f a b ≡ true → f.le b.score a.score ≡ true
    unfolding precedes
    precedes-le a b h = elim (Bool-cases (f.le a.score b.score)) [
      | inl e ↦ elim (Bool-cases (f.eq a.score b.score)) [
        | inl d ↦ ordered.eq_le a.score b.score d
        | inr d ↦ absurd (ground (arith, h, e, d))
      ]
      | inr e ↦ elim (ordered.le_total a.score b.score) [
        | inl d ↦ absurd (ground (arith, e, d))
        | inr d ↦ d
      ]
    ]

    le-precedes : (a b : Chunk f) → f.le b.score a.score ≡ true → precedes f a b ≡ true
    unfolding precedes
    le-precedes a b h = elim (Bool-cases (f.le a.score b.score)) [
      | inl e ↦ rw (e, ordered.le_antisym a.score b.score e h) refl
      | inr e ↦ rw e refl
    ]

    precedes_total : (a b : Chunk f) → (precedes f a b ≡ true) ⊎ (precedes f b a ≡ true)
    precedes_total a b = elim (ordered.le_total a.score b.score) [
      | inl h ↦ inr (le-precedes b a h)
      | inr h ↦ inl (le-precedes a b h)
    ]

    precedes_trans :
        (a b c : Chunk f) → precedes f a b ≡ true → precedes f b c ≡ true → precedes f a c ≡ true
    precedes_trans a b c h k =
        le-precedes a c
          (ordered.le_trans c.score b.score a.score (precedes-le b c k) (precedes-le a b h))

    with_score-keeps :
        (k : f.F) (branches : List (List (Chunk f))) (c d : Chunk f)
        → d.chunk_id ≡ c.chunk_id
        → let e = with_score f (branches_loop f k branches ([], [])).0 d in
          (e.chunk_id ≡ c.chunk_id) × (e.score ≡ score_in k branches c)
    unfolding with_score
    with_score-keeps k branches c d same = (
      same,
      ap (λ i. score_of f i (branches_loop f k branches ([], [])).0) same
          ∙ score_of-branches_loop f k c.chunk_id branches ([], [])
          ∙ ap (total f c.chunk_id (all_places f k branches)) (unfold score_of in refl),
    )

    -- Where scores compare as numbers that are no NaN do, and going through the map loses no chunk:
    -- the merged list runs from the highest score to the lowest and has at most `top_k` chunks. Of
    -- every chunk of every branch the list holds the identifier, or it has `top_k` chunks and
    -- none scores less than the sum of the contributions of that identifier's places.
    pub rrf_with_k-IsRanked :
        (order : List (Chunk f) → List (Chunk f)) (k : f.F) (branches : List (List (Chunk f)))
        (top_k : ℕ)
        → LosesNone order
        → IsRanked k branches top_k (rrf_with_k f order k branches top_k)
    unfolding rrf_with_k
    rrf_with_k-IsRanked order k branches top_k loses_none =
        let maps = branches_loop f k branches ([], []) in
        let scored = map (with_score f maps.0) (order maps.1) in
        let sorted = sort-IsSorted (precedes f) precedes_total precedes_trans scored in
        let le : Chunk f → Chunk f → Bool = λ a b. f.le b.score a.score in
        let downwards =
          IsSorted-mono (precedes f) le precedes-le (sort (precedes f) scored) sorted in
        (
          take-IsSorted le top_k (sort (precedes f) scored) downwards,
          length-take-le top_k (sort (precedes f) scored),
          All-map (λ b hs. All-map (λ c h. placed c downwards h) b hs) branches
              (branches_loop-HasId k branches ([], [])),
        )
      where
        placed :
            (c : Chunk f)
            → IsSorted
                (λ a b. f.le b.score a.score)
                (sort (precedes f) (
                  map
                    (with_score f (branches_loop f k branches ([], [])).0)
                    (order (branches_loop f k branches ([], [])).1)))
            → HasId (branches_loop f k branches ([], [])).1 c
            → IsPlaced k branches top_k
                (take top_k (
                  sort (precedes f) (
                    map
                      (with_score f (branches_loop f k branches ([], [])).0)
                      (order (branches_loop f k branches ([], [])).1))))
                c
        placed c downwards h =
            let maps = branches_loop f k branches ([], []) in
            let scored = map (with_score f maps.0) (order maps.1) in
            let Is : Chunk f → Type 0 =
              λ x. (x.chunk_id ≡ c.chunk_id) × (x.score ≡ score_in k branches c) in
            let there = Any-sort (precedes f) Is scored (
              Any-map (λ d. d.chunk_id ≡ c.chunk_id) Is (with_score f maps.0)
                (with_score-keeps k branches c) (order maps.1)
                (loses_none (λ d. d.chunk_id ≡ c.chunk_id) maps.1 h)) in
            elim (take-ahead (λ a b. f.le b.score a.score) Is top_k (sort (precedes f) scored)
              downwards there) [
                | inl found ↦ inl (
                    Any-mono Is (λ d. d.chunk_id ≡ c.chunk_id) (λ x q. q.0)
                      (take top_k (sort (precedes f) scored)) found)
                | inr full ↦ inr (
                  full.0,
                  All-map (λ y q. subst (λ t. f.le t y.score ≡ true) full.2.1 q)
                      (take top_k (sort (precedes f) scored)) full.3,
                )
              ]
