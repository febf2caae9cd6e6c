-- ===== src/Entity/Graph/Endpoints.antt =====
-- The edges that entity/graph_build.rs collects, against the entities it stores.
use wend_rag.Base.{
  ℕ, List, [], ◌∷◌, Option, none, some, true, false, is_empty, All, All-append, Any, inl, inr, ◌≡◌,
  refl, ap, ◌∙◌, subst, arith, Bool-cases,
}
use wend_rag.Base.Float.{Float}
use wend_rag.Base.Text.{Text, trim}
use wend_rag.Base.Text.Laws.{text_eq_refl}
use wend_rag.Base.Unicode.{Unicode}
use wend_rag.Entity.Normalize.{normalize_entity_name, normalize_entity_type, clean_optional_text}
use wend_rag.Entity.Graph.{
  Key, key_eq, AggregatedEntity, key_of, merge_entity, enter, ExtractedRelationship, EntityEdge,
  upsert_aggregated_entity, Graph, edge_of, add_edge, add_target, relationship_loop,
}

-- An entity is stored under the key.
abbrev pub IsStored : List AggregatedEntity → Key → Type 0
IsStored entities key = Any (λ e. key_eq (key_of e) key ≡ true) entities

pub key_eq_refl : (k : Key) → key_eq k k ≡ true
unfolding key_eq
key_eq_refl k = ground (arith, text_eq_refl k.0, text_eq_refl k.1)

enter-IsStored :
    (key : Key) (name : Text) (d : Option Text) (es : List AggregatedEntity)
    → IsStored (enter key name d es) key
unfolding enter
enter-IsStored key name d [] = inl (unfold key_of in key_eq_refl key)
enter-IsStored key name d (e ∷ es) = elim (Bool-cases (key_eq (key_of e) key)) [
  | inl h ↦ rw h (inl (unfold merge_entity in unfold key_of in unfold key_of in h))
  | inr h ↦ rw h (inr (enter-IsStored key name d es))
]

enter_keeps :
    (key : Key) (name : Text) (d : Option Text) (es : List AggregatedEntity) (k : Key)
    → IsStored es k
    → IsStored (enter key name d es) k
unfolding enter
enter_keeps key name d [] k h = absurd h
enter_keeps key name d (e ∷ es) k h =
    let rest = enter_keeps key name d es k in
    let same : key_of (merge_entity name d e) ≡ key_of e =
      unfold merge_entity in unfold key_of in refl in
    elim (Bool-cases (key_eq (key_of e) key)) [
      | inl q ↦ rw q (elim h [ inl p ↦ inl (ap (λ t. key_eq t k) same ∙ p) | inr p ↦ inr p ])
      | inr q ↦ rw q (elim h [ inl p ↦ inl p | inr p ↦ inr (rest p) ])
    ]

-- What an upsert leaves: the key it returns is stored, and so is every key that was.
abbrev pub Upserts : List AggregatedEntity → List AggregatedEntity × Option Key → Type 0
Upserts es out =
    ((k : Key) → out.1 ≡ some k → IsStored out.0 k) × ((k : Key) → IsStored es k → IsStored out.0 k)

pub upsert-Upserts :
    (u : Unicode) (es : List AggregatedEntity) (name type_name : Text) (d : Option Text)
    → Upserts es (upsert_aggregated_entity u es name type_name d)
unfolding upsert_aggregated_entity
upsert-Upserts u es name type_name d =
    let key : Key = (normalize_entity_name u name, normalize_entity_type type_name) in
    elim (Bool-cases (is_empty (normalize_entity_name u name))) [
      | inl e ↦ rw e ((λ k h. absurd (none-some k h)), (λ k h. h))
      | inr e ↦ rw e (
        (λ k h.
            subst (IsStored (enter key (trim name) (clean_optional_text d) es)) (some-injective h)
              (enter-IsStored key (trim name) (clean_optional_text d) es)),
        (λ k h. enter_keeps key (trim name) (clean_optional_text d) es k h),
      )
    ]
  where
    none-some : (k : Key) → none ≡ some k → ⊥
    none-some k h = cc

    some-injective : {k l : Key} → some k ≡ some l → k ≡ l
    some-injective h = cc

module _ (u : Unicode) (f32 : Float) (tenth : f32.F) where
  -- Both ends are stored entities, and not one entity.
  abbrev pub IsEdge : List AggregatedEntity → EntityEdge f32.F → Type 0
  IsEdge es e = IsStored es e.source × IsStored es e.target × (key_eq e.source e.target ≡ false)

  abbrev pub IsConsistent : Graph u f32 tenth → Type 0
  IsConsistent g = All (IsEdge g.0) g.1

  pub IsConsistent_keeps :
      (es fs : List AggregatedEntity) (edges : List (EntityEdge f32.F))
      → ((k : Key) → IsStored es k → IsStored fs k)
      → All (IsEdge es) edges
      → All (IsEdge fs) edges
  IsConsistent_keeps es fs [] more h = tt
  IsConsistent_keeps es fs (e ∷ edges) more h =
      ((more e.source h.0.0, more e.target h.0.1, h.0.2), IsConsistent_keeps es fs edges more h.1)

  pub add_edge-IsConsistent :
      (chunk_index : ℕ) (r : ExtractedRelationship f32.F) (source : Key)
      (edges : List (EntityEdge f32.F)) (mentioned : List Key) (es : List AggregatedEntity)
      (out : List AggregatedEntity × Option Key)
      → Upserts es out
      → IsStored es source
      → All (IsEdge es) edges
      → IsConsistent (add_edge u f32 tenth chunk_index r source edges mentioned out)
  unfolding add_edge
  add_edge-IsConsistent chunk_index r source edges mentioned es (fs, none) up at h =
      IsConsistent_keeps es fs edges up.1 h
  add_edge-IsConsistent chunk_index r source edges mentioned es (fs, some target) up at h =
      let kept = IsConsistent_keeps es fs edges up.1 h in
      elim (Bool-cases (key_eq source target)) [
        | inl e ↦ rw e kept
        | inr e ↦
            let own : IsEdge fs (edge_of u f32 tenth chunk_index r source target) =
              unfold edge_of in (up.1 source at, up.0 target refl, e) in
            rw e (
              All-append (IsEdge fs) edges (edge_of u f32 tenth chunk_index r source target ∷ [])
                kept (own, tt))
      ]

  add_target-IsConsistent :
      (chunk_index : ℕ) (r : ExtractedRelationship f32.F) (edges : List (EntityEdge f32.F))
      (mentioned : List Key) (es : List AggregatedEntity) (out : List AggregatedEntity × Option Key)
      → Upserts es out
      → All (IsEdge es) edges
      → IsConsistent (add_target u f32 tenth chunk_index r edges mentioned out)
  unfolding add_target
  add_target-IsConsistent chunk_index r edges mentioned es (fs, none) up h =
      IsConsistent_keeps es fs edges up.1 h
  add_target-IsConsistent chunk_index r edges mentioned es (fs, some source) up h =
      add_edge-IsConsistent chunk_index r source edges mentioned fs
        (upsert_aggregated_entity u fs r.target_name r.target_type none)
        (upsert-Upserts u fs r.target_name r.target_type none) (up.0 source refl)
        (IsConsistent_keeps es fs edges up.1 h)

  -- Merging the relationships of a chunk into a graph keeps it consistent: each edge joins two
  -- different entities, and both are stored.
  pub relationship_loop-IsConsistent :
      (chunk_index : ℕ) (rs : List (ExtractedRelationship f32.F)) (g : Graph u f32 tenth)
      → IsConsistent g
      → IsConsistent (relationship_loop u f32 tenth chunk_index rs g)
  unfolding relationship_loop
  relationship_loop-IsConsistent chunk_index [] g h = h
  relationship_loop-IsConsistent chunk_index (r ∷ rs) g h =
      let out = upsert_aggregated_entity u g.0 r.source_name r.source_type none in
      relationship_loop-IsConsistent chunk_index rs
        (add_target u f32 tenth chunk_index r g.1 g.2 out)
        (add_target-IsConsistent chunk_index r g.1 g.2 g.0 out
          (upsert-Upserts u g.0 r.source_name r.source_type none) h)
