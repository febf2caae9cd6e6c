-- ===== src/Entity/Document/Merged.antt =====
-- The parts of a graph that entity/graph_build.rs gathers, chunk by chunk.
use wend_rag.Base.{
  ℕ, List, [], ◌∷◌, Option, none, some, ◌⊎◌, All, All-append, All-map, inl, inr, ◌≡◌, refl, sym,
  subst, Bool-cases,
}
use wend_rag.Base.Float.{Float}
use wend_rag.Base.Unicode.{Unicode}
use wend_rag.Entity.Graph.{
  Key, key_eq, mention, AggregatedEntity, ExtractedRelationship, EntityEdge,
  upsert_aggregated_entity, Graph, edge_of, add_edge, add_target, relationship_loop,
}
use wend_rag.Entity.Graph.Endpoints.{IsStored, IsEdge, Upserts, upsert-Upserts, IsConsistent_keeps}
use wend_rag.Entity.Document.{
  ExtractedEntity, ChunkEntityExtraction, EntityMention, insert_mentions, mention_upserted, Merged,
  entity_loop, add_extraction, extraction_loop,
}
use wend_rag.Entity.Document.Mentions.{
  HasKey, IsMentioned, mention-HasKey, mention_keeps, All-mention, insert_mentions_keeps,
  insert_mentions-IsMentioned, All-insert_mentions,
}

module _ (u : Unicode) (f32 : Float) (tenth : f32.F) where
  -- Both ends are mentioned by the chunk that the edge comes from.
  abbrev pub IsWitnessed : List EntityMention → EntityEdge f32.F → Type 0
  IsWitnessed ms e =
      IsMentioned ms e.evidence_chunk_index e.source
      × IsMentioned ms e.evidence_chunk_index e.target

  -- The same while the chunk `c` is read, whose mentions are still in `keys`.
  abbrev IsPending : List EntityMention → ℕ → List Key → EntityEdge f32.F → Type 0
  IsPending ms c keys e =
      IsWitnessed ms e
      ⊎ ((e.evidence_chunk_index ≡ c) × HasKey keys e.source × HasKey keys e.target)

  IsPending-mention :
      (ms : List EntityMention) (c : ℕ) (k : Key) (keys : List Key) (e : EntityEdge f32.F)
      → IsPending ms c keys e
      → IsPending ms c (mention k keys) e
  IsPending-mention ms c k keys e (inl h) = inl h
  IsPending-mention ms c k keys e (inr h) =
      inr (h.0, mention_keeps k e.source keys h.1, mention_keeps k e.target keys h.2)

  abbrev IsChunkGraph : List EntityMention → ℕ → Graph u f32 tenth → Type 0
  IsChunkGraph ms c g =
      All (IsEdge u f32 tenth g.0) g.1
      × All (IsStored g.0) g.2
      × All (IsPending ms c g.2) g.1
      × All (λ n. IsStored g.0 n.key) ms

  grow-IsChunkGraph :
      (ms : List EntityMention) (c : ℕ) (es fs : List AggregatedEntity)
      (edges : List (EntityEdge f32.F)) (keys : List Key)
      → ((k : Key) → IsStored es k → IsStored fs k)
      → IsChunkGraph ms c (es, edges, keys)
      → IsChunkGraph ms c (fs, edges, keys)
  grow-IsChunkGraph ms c es fs edges keys more h = (
    IsConsistent_keeps u f32 tenth es fs edges more h.0,
    All-map more keys h.1,
    h.2,
    All-map (λ n p. more n.key p) ms h.3,
  )

  add_edge-IsChunkGraph :
      (ms : List EntityMention) (c : ℕ) (r : ExtractedRelationship f32.F) (source : Key)
      (edges : List (EntityEdge f32.F)) (keys : List Key) (es : List AggregatedEntity)
      (out : List AggregatedEntity × Option Key)
      → Upserts es out
      → IsStored es source
      → IsChunkGraph ms c (es, edges, keys)
      → IsChunkGraph ms c (add_edge u f32 tenth c r source edges keys out)
  unfolding add_edge
  add_edge-IsChunkGraph ms c r source edges keys es (fs, none) up at h =
      grow-IsChunkGraph ms c es fs edges keys up.1 h
  add_edge-IsChunkGraph ms c r source edges keys es (fs, some target) up at h =
      let old = grow-IsChunkGraph ms c es fs edges keys up.1 h in
      let new : EntityEdge f32.F = edge_of u f32 tenth c r source target in
      let both : List Key = mention target (mention source keys) in
      elim (Bool-cases (key_eq source target)) [
        | inl e ↦ rw e old
        | inr e ↦
            let own : IsEdge u f32 tenth fs new =
              unfold edge_of in (up.1 source at, up.0 target refl, e) in
            let seen : IsPending ms c both new =
              unfold edge_of in
              inr (
                refl,
                mention_keeps target source (mention source keys) (mention-HasKey source keys),
                mention-HasKey target (mention source keys),
              ) in
            rw e (
              All-append (IsEdge u f32 tenth fs) edges (new ∷ []) old.0 (own, tt),
              All-mention (IsStored fs) target (mention source keys) (up.0 target refl)
                  (All-mention (IsStored fs) source keys (up.1 source at) old.1),
              All-append (IsPending ms c both) edges (new ∷ [])
                  (All-map
                    (λ d p.
                      IsPending-mention ms c target (mention source keys) d
                        (IsPending-mention ms c source keys d p))
                    edges old.2)
                  (seen, tt),
              old.3,
            )
      ]

  add_target-IsChunkGraph :
      (ms : List EntityMention) (c : ℕ) (r : ExtractedRelationship f32.F)
      (edges : List (EntityEdge f32.F)) (keys : List Key) (es : List AggregatedEntity)
      (out : List AggregatedEntity × Option Key)
      → Upserts es out
      → IsChunkGraph ms c (es, edges, keys)
      → IsChunkGraph ms c (add_target u f32 tenth c r edges keys out)
  unfolding add_target
  add_target-IsChunkGraph ms c r edges keys es (fs, none) up h =
      grow-IsChunkGraph ms c es fs edges keys up.1 h
  add_target-IsChunkGraph ms c r edges keys es (fs, some source) up h =
      add_edge-IsChunkGraph ms c r source edges keys fs
        (upsert_aggregated_entity u fs r.target_name r.target_type none)
        (upsert-Upserts u fs r.target_name r.target_type none) (up.0 source refl)
        (grow-IsChunkGraph ms c es fs edges keys up.1 h)

  relationship_loop-IsChunkGraph :
      (ms : List EntityMention) (c : ℕ) (rs : List (ExtractedRelationship f32.F))
      (g : Graph u f32 tenth)
      → IsChunkGraph ms c g
      → IsChunkGraph ms c (relationship_loop u f32 tenth c rs g)
  unfolding relationship_loop
  relationship_loop-IsChunkGraph ms c [] g h = h
  relationship_loop-IsChunkGraph ms c (r ∷ rs) g h =
      let out = upsert_aggregated_entity u g.0 r.source_name r.source_type none in
      relationship_loop-IsChunkGraph ms c rs (add_target u f32 tenth c r g.1 g.2 out) (
        add_target-IsChunkGraph ms c r g.1 g.2 g.0 out
          (upsert-Upserts u g.0 r.source_name r.source_type none) h)

  -- What the entities of a chunk leave: every key stored before is stored, and the mentioned ones are.
  abbrev Stores : List AggregatedEntity → List AggregatedEntity × List Key → Type 0
  Stores es out = ((k : Key) → IsStored es k → IsStored out.0 k) × All (IsStored out.0) out.1

  mention_upserted-Stores :
      (es : List AggregatedEntity) (keys : List Key) (out : List AggregatedEntity × Option Key)
      → Upserts es out
      → All (IsStored es) keys
      → Stores es (mention_upserted keys out)
  unfolding mention_upserted
  mention_upserted-Stores es keys (fs, none) up h = (up.1, All-map up.1 keys h)
  mention_upserted-Stores es keys (fs, some k) up h =
      (up.1, All-mention (IsStored fs) k keys (up.0 k refl) (All-map up.1 keys h))

  entity_loop-Stores :
      (xs : List ExtractedEntity) (g : List AggregatedEntity × List Key)
      → All (IsStored g.0) g.1
      → Stores g.0 (entity_loop u f32 tenth xs g)
  unfolding entity_loop
  entity_loop-Stores [] g h = ((λ k p. p), h)
  entity_loop-Stores (x ∷ xs) g h =
      let out = upsert_aggregated_entity u g.0 x.name x.entity_type x.description in
      let first =
        mention_upserted-Stores g.0 g.1 out
          (upsert-Upserts u g.0 x.name x.entity_type x.description) h in
      let rest = entity_loop-Stores xs (mention_upserted g.1 out) first.1 in
      ((λ k p. rest.0 k (first.0 k p)), rest.1)

  -- Of the parts gathered so far: the ends of each edge are entities, not one entity, and mentioned,
  -- and each mention is of an entity.
  abbrev pub IsMerged : Merged u f32 tenth → Type 0
  IsMerged m =
      All (IsEdge u f32 tenth m.0) m.1
      × All (IsWitnessed m.2) m.1
      × All (λ n. IsStored m.0 n.key) m.2

  witness_pending :
      (ms : List EntityMention) (c : ℕ) (keys : List Key) (e : EntityEdge f32.F)
      → IsPending ms c keys e
      → IsWitnessed (insert_mentions c keys ms) e
  witness_pending ms c keys e (inl h) =
      (insert_mentions_keeps _ c keys ms h.0, insert_mentions_keeps _ c keys ms h.1)
  witness_pending ms c keys e (inr h) =
      let at : ℕ → Type 0 = λ i.
        IsMentioned (insert_mentions c keys ms) i e.source
        × IsMentioned (insert_mentions c keys ms) i e.target in
      subst at (sym h.0) (
        insert_mentions-IsMentioned c e.source keys ms h.1,
        insert_mentions-IsMentioned c e.target keys ms h.2,
      )

  add_extraction-IsMerged :
      (x : ChunkEntityExtraction f32.F) (m : Merged u f32 tenth)
      → IsMerged m
      → IsMerged (add_extraction u f32 tenth x m)
  unfolding add_extraction
  add_extraction-IsMerged x m h =
      let c = x.chunk_index in
      let stored = entity_loop u f32 tenth x.entities (m.0, []) in
      let first = entity_loop-Stores x.entities (m.0, []) tt in
      let start : Graph u f32 tenth = (stored.0, m.1, stored.1) in
      let g = relationship_loop u f32 tenth c x.relationships start in
      let ok = relationship_loop-IsChunkGraph m.2 c x.relationships start (
        IsConsistent_keeps u f32 tenth m.0 stored.0 m.1 first.0 h.0,
        first.1,
        All-map (λ e p. inl p) m.1 h.1,
        All-map (λ n p. first.0 n.key p) m.2 h.2,
      ) in
      (
        ok.0,
        All-map (witness_pending m.2 c g.2) g.1 ok.2,
        All-insert_mentions (IsStored g.0) c g.2 m.2 ok.1 ok.3,
      )

  pub extraction_loop-IsMerged :
      (xs : List (ChunkEntityExtraction f32.F)) (m : Merged u f32 tenth)
      → IsMerged m
      → IsMerged (extraction_loop u f32 tenth xs m)
  unfolding extraction_loop
  extraction_loop-IsMerged [] m h = h
  extraction_loop-IsMerged (x ∷ xs) m h =
      extraction_loop-IsMerged xs (add_extraction u f32 tenth x m) (add_extraction-IsMerged x m h)
