-- ===== src/Retrieve/Hybrid/Steps.antt =====
-- Branches that are empty, and the last embedding, of retrieve/hybrid.rs.
use wend_rag.Base.{List, [], ◌∷◌, ◌++◌, ◌≡◌, refl, sym, ap, append-nil}
use wend_rag.Base.Result.{ok, err}
use wend_rag.Retrieve.Hybrid.{HybridSearchError, empty_embedding, push_unless_empty, pop_embedding}

-- A branch that found something.
abbrev pub found : {A : Type 0} → List A → List (List A)
found [] = []
found (a ∷ bs) = (a ∷ bs) ∷ []

pub push_unless_empty-found :
    {A : Type 0} → (b : List A) (bs : List (List A)) → push_unless_empty b bs ≡ bs ++ found b
unfolding push_unless_empty
push_unless_empty-found [] bs = sym (append-nil bs)
push_unless_empty-found (a ∷ b) bs = refl

module _ {D E F : Type 0} where
  pub pop_embedding-last :
      (vs : List (List F)) (v : List F)
      → pop_embedding {D = D} {E = E} vs ≡ ok v
      → (us : List (List F)) × (vs ≡ us ++ (v ∷ []))
  unfolding pop_embedding
  pop_embedding-last [] v h = cc
  pop_embedding-last (u ∷ []) v h = ([], cc)
  pop_embedding-last (u ∷ w ∷ vs) v h =
      let (us, e) = pop_embedding-last (w ∷ vs) v h in (u ∷ us, ap (λ ws. u ∷ ws) e)

  pub pop_embedding-none :
      (vs : List (List F)) (x : HybridSearchError D E)
      → pop_embedding vs ≡ err x
      → (vs ≡ []) × (x ≡ empty_embedding)
  unfolding pop_embedding
  pop_embedding-none [] x h = (refl, cc)
  pop_embedding-none (u ∷ []) x h = cc
  pop_embedding-none (u ∷ w ∷ vs) x h = absurd (let (e, q) = pop_embedding-none (w ∷ vs) x h in cc)
