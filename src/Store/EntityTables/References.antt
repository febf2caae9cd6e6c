-- ===== src/Store/EntityTables/References.antt =====
-- What the rows of store/sqlite/entity_graph.rs and store/sqlite/community.rs refer to.
use wend_rag.Base.{
  ℕ, ◌+◌, ◌≢◌, List, [], ◌∷◌, Option, none, some, Bool, true, false, not, ◌&&◌, ◌==◌, ==_iff,
  length, any, Any-any, filter, map, All, All-map, All-append, All-filter, All-zip, ◌>>=◌, Any,
  Any-mono, Any-filter, filter-All, Bool-cases, inl, inr, ◌≡◌, refl, sym, ◌∙◌, arith,
}
use wend_rag.Entity.Graph.{Key, key_eq}
use wend_rag.Entity.Document.{EntityNode, EntityMention}
use wend_rag.Store.EntityTables.{
  ChunkId, EntityRow, RelationshipRow, CommunityRow, EntityTables, id_of, is_evidence_of,
  is_same_mention, add_mention, chunk_at, resolve_mention, insert_mention, store_mentions,
  is_storable_embedding, embedding_of, has_key, upsert_entity, store_entities, counted,
  prune_orphan_entities, forget_chunks,
}

-- What an option holds, if anything.
abbrev pub OnSome : {A : Type 0} → (A → Type 0) → Option A → Type 0
OnSome P none = Unit
OnSome P (some a) = P a

mentioned-counted :
    (i : ℕ) (ms : List (ChunkId × ℕ))
    → Any (λ m. m.1 ≡ i) ms
    → length (filter (λ m. m.1 == i) ms) ≢ 0
mentioned-counted i ms h e =
    none_left (filter (λ m. m.1 == i) ms) e
      (Any-filter (λ m. m.1 ≡ i) (λ m. m.1 == i) (λ m q. (==_iff m.1 i).1 q) ms h)
  where
    none_left : (xs : List (ChunkId × ℕ)) → length xs ≡ 0 → Any (λ m. m.1 ≡ i) xs → ⊥
    none_left [] k a = a
    none_left (x ∷ xs) k a = ground (arith, k)

-- Each mention is among the mentions of its entity.
mentioned : (ms : List (ChunkId × ℕ)) → All (λ m. Any (λ n. n.1 ≡ m.1) ms) ms
mentioned [] = tt
mentioned (m ∷ ms) = (inl refl, All-map (λ n h. inr h) ms (mentioned ms))

and-true : (a b : Bool) → (a && b) ≡ true → (a ≡ true) × (b ≡ true)
and-true true b h = (refl, h)
and-true false b h = cc

module _ {F : Type 0} where
  -- An entity has the identifier.
  abbrev pub HasEntity : List (EntityRow F) → ℕ → Type 0
  HasEntity es i = Any (λ e. e.id ≡ i) es

  abbrev pub HasCommunity : List (CommunityRow F) → ℕ → Type 0
  HasCommunity cs i = Any (λ c. c.id ≡ i) cs

  abbrev pub AreLinked : List (EntityRow F) → List (ChunkId × ℕ) → Type 0
  AreLinked es ms = All (λ m. HasEntity es m.1) ms

  abbrev pub AreJoined : List (EntityRow F) → List (RelationshipRow F) → Type 0
  AreJoined es rs = All (λ r. HasEntity es r.source_entity_id × HasEntity es r.target_entity_id) rs

  abbrev pub AreMembers : List (EntityRow F) → List (CommunityRow F) → List (ℕ × ℕ) → Type 0
  AreMembers es cs ms = All (λ m. HasCommunity cs m.0 × HasEntity es m.1) ms

  -- Mentions, relationships and members refer to rows that are there.
  abbrev pub HasReferences : EntityTables F → Type 0
  HasReferences t =
      AreLinked t.entities t.mentions
      × AreJoined t.entities t.relationships
      × AreMembers t.entities t.communities t.members

  pub forget_chunks-HasReferences :
      (id : ℕ) (t : EntityTables F) → HasReferences t → HasReferences (forget_chunks id t)
  unfolding forget_chunks
  forget_chunks-HasReferences id t h = (
    All-filter _ (λ m. not (m.0.0 == id)) t.mentions h.0,
    All-filter _ (λ r. not (is_evidence_of id r.evidence_chunk_id)) t.relationships h.1,
    h.2,
  )

  -- The rows that pruning leaves.
  abbrev left_of : EntityTables F → List (EntityRow F)
  left_of t = filter (λ e. not (e.mention_count == 0)) (map (counted t.mentions) t.entities)

  pub any-HasEntity :
      (es : List (EntityRow F)) (i : ℕ) → any (λ e. e.id == i) es ≡ true → HasEntity es i
  any-HasEntity es i h =
      Any-mono (λ e. (e.id == i) ≡ true) (λ e. e.id ≡ i) (λ e q. (==_iff e.id i).0 q) es
        (Any-any (λ e. e.id == i) es h)

  counted-HasEntity :
      (ms : List (ChunkId × ℕ)) (i : ℕ) (es : List (EntityRow F))
      → HasEntity es i
      → Any (λ m. m.1 ≡ i) ms
      → HasEntity (filter (λ e. not (e.mention_count == 0)) (map (counted ms) es)) i
  unfolding counted
  counted-HasEntity ms i [] h m = absurd h
  counted-HasEntity ms i (e ∷ es) (inl p) m =
      let many : length (filter (λ n. n.1 == e.id) ms) ≢ 0 =
        mentioned-counted e.id ms (Any-mono _ (λ n. n.1 ≡ e.id) (λ n q. q ∙ sym p) ms m) in
      elim (Bool-cases (length (filter (λ n. n.1 == e.id) ms) == 0)) [
        | inl q ↦ absurd (many ((==_iff _ 0).0 q))
        | inr q ↦ rw q (inl p)
      ]
  counted-HasEntity ms i (e ∷ es) (inr h) m =
      let rest = counted-HasEntity ms i es h m in
      elim (Bool-cases (length (filter (λ n. n.1 == e.id) ms) == 0)) [
        | inl q ↦ rw q rest
        | inr q ↦ rw q (inr rest)
      ]

  pub prune_orphan_entities-HasReferences :
      (t : EntityTables F) → HasReferences t → HasReferences (prune_orphan_entities t)
  unfolding prune_orphan_entities
  prune_orphan_entities-HasReferences t h =
      let is_left : ℕ → Bool = λ id. any (λ e. e.id == id) (left_of t) in
      (
        All-zip (λ m p q. counted-HasEntity t.mentions m.1 t.entities p q) t.mentions h.0
            (mentioned t.mentions),
        All-map
            (λ r q.
              let both = and-true (is_left r.source_entity_id) (is_left r.target_entity_id) q.1 in
              (
                any-HasEntity (left_of t) r.source_entity_id both.0,
                any-HasEntity (left_of t) r.target_entity_id both.1,
              ))
            (filter (λ r. is_left r.source_entity_id && is_left r.target_entity_id) t.relationships)
            (filter-All _ (λ r. is_left r.source_entity_id && is_left r.target_entity_id)
              t.relationships h.1),
        All-map (λ m q. (q.0.0, any-HasEntity (left_of t) m.1 q.1))
            (filter (λ m. is_left m.1) t.members) (filter-All _ (λ m. is_left m.1) t.members h.2),
      )

  upsert_entity-HasEntity :
      (n : EntityNode F) (new_id now : ℕ) (es : List (EntityRow F))
      → ((i : ℕ) → HasEntity es i → HasEntity (upsert_entity n new_id now es).0 i)
        × HasEntity (upsert_entity n new_id now es).0 (upsert_entity n new_id now es).1
  unfolding upsert_entity
  upsert_entity-HasEntity n new_id now [] = ((λ i h. absurd h), inl refl)
  upsert_entity-HasEntity n new_id now (e ∷ es) =
      let rest = upsert_entity-HasEntity n new_id now es in
      elim (Bool-cases (has_key n e)) [
        | inl q ↦ rw q ((λ i h. h), inl refl)
        | inr q ↦ rw q ((λ i h. elim h [ inl p ↦ inl p | inr k ↦ inr (rest.0 i k) ]), inr rest.1)
      ]

  -- More entities keep what is there.
  grown :
      (t : EntityTables F) (es : List (EntityRow F)) (next : ℕ)
      → ((i : ℕ) → HasEntity t.entities i → HasEntity es i)
      → HasReferences t
      → HasReferences (record t { entities = es; next_id = next })
  grown t es next f h = (
    All-map (λ m p. f m.1 p) t.mentions h.0,
    All-map (λ r p. (f r.source_entity_id p.0, f r.target_entity_id p.1)) t.relationships h.1,
    All-map (λ m p. (p.0, f m.1 p.1)) t.members h.2,
  )

  -- The tables refer to rows that are there, and so do the identifiers by key.
  abbrev pub AreStored : EntityTables F × List (Key × ℕ) → Type 0
  AreStored g = HasReferences g.0 × All (λ p. HasEntity (g.0).entities p.1) g.1

  pub store_entities-AreStored :
      (now : ℕ) (ns : List (EntityNode F)) (g : EntityTables F × List (Key × ℕ))
      → AreStored g
      → OnSome AreStored (store_entities now ns g)
  unfolding store_entities
  store_entities-AreStored now [] g h = h
  store_entities-AreStored now (n ∷ ns) g h =
      let out = upsert_entity n (g.0).next_id now (g.0).entities in
      let (keeps, there) = upsert_entity-HasEntity n (g.0).next_id now (g.0).entities in
      let rest = store_entities-AreStored now ns _ (
        grown g.0 out.0 ((g.0).next_id + 1) keeps h.0,
        (there, All-map (λ p q. keeps p.1 q) g.1 h.1),
      ) in
      elim (Bool-cases (is_storable_embedding (embedding_of n))) [
        | inl q ↦ rw q rest
        | inr q ↦ rw q tt
      ]

  module _ (es : List (EntityRow F)) where
    pub id_of-HasEntity :
        (key : Key) (ids : List (Key × ℕ))
        → All (λ p. HasEntity es p.1) ids
        → OnSome (HasEntity es) (id_of key ids)
    unfolding id_of
    id_of-HasEntity key [] h = tt
    id_of-HasEntity key (p ∷ ps) h = elim (Bool-cases (key_eq p.0 key)) [
      | inl q ↦ rw q h.0
      | inr q ↦ rw q (id_of-HasEntity key ps h.1)
    ]

    module _ (has_chunk : ℕ → Bool) (document_id : ℕ) (ids : List (Key × ℕ))
        (there : All (λ p. HasEntity es p.1) ids) where
      insert_mention-AreLinked :
          (m : EntityMention) (ms : List (ChunkId × ℕ))
          → AreLinked es ms
          → AreLinked es (insert_mention (resolve_mention has_chunk document_id ids m) ms)
      unfolding resolve_mention insert_mention
      insert_mention-AreLinked m ms h =
          go (chunk_at has_chunk document_id m.chunk_index) (id_of m.key ids)
            (id_of-HasEntity m.key ids there)
        where
          added : (n : ChunkId × ℕ) → HasEntity es n.1 → AreLinked es (add_mention n ms)
          added n k = elim (Bool-cases (any (is_same_mention n) ms)) [
            | inl q ↦ unfold add_mention in rw q h
            | inr q ↦ unfold add_mention in rw q (All-append _ ms (n ∷ []) h (k, tt))
          ]

          go :
              (c : Option ChunkId) (o : Option ℕ)
              → OnSome (HasEntity es) o
              → AreLinked es (insert_mention (c >>= λ chunk. o >>= λ e. some (chunk, e)) ms)
          go none o k = h
          go (some c) none k = h
          go (some c) (some e) k = added (c, e) k

      pub store_mentions-AreLinked :
          (ns : List EntityMention) (ms : List (ChunkId × ℕ))
          → AreLinked es ms
          → AreLinked es (store_mentions has_chunk document_id ids ns ms)
      unfolding store_mentions
      store_mentions-AreLinked [] ms h = h
      store_mentions-AreLinked (n ∷ ns) ms h =
          store_mentions-AreLinked ns _ (insert_mention-AreLinked n ms h)
