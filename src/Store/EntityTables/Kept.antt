-- ===== src/Store/EntityTables/Kept.antt =====
-- Every write on the tables of entities and communities keeps the rows that others refer to.
use wend_rag.Base.{
  ℕ, List, [], ◌∷◌, ◌++◌, Option, none, some, ◌>>=◌, Bool, not, ◌==◌, ==_iff, any, Any-any, filter,
  map, All, All-map, All-append, Any-mono, Any-append-left, Any-append-right, filter-All, true,
  Bool-cases, inl, inr, ◌≡◌, refl,
}
use wend_rag.Base.Text.{Text, text_eq}
use wend_rag.Entity.Graph.{Key, EntityEdge}
use wend_rag.Entity.Document.{DocumentEntityGraph}
use wend_rag.Store.EntityTables.{
  EntityRow, RelationshipRow, CommunityRow, CommunityWithSummary, EntityTables, id_of, chunk_at,
  is_storable_embedding, store_entities, store_mentions, resolve_relationship, insert_relationship,
  store_relationships, prune_orphan_entities, is_empty_graph, write_graph, resolve_entity_ids,
  insert_community, store_all_communities, remove_communities, is_same_project,
}
use wend_rag.Store.EntityTables.References.{
  OnSome, HasEntity, AreMembers, HasReferences, AreStored, store_entities-AreStored,
  id_of-HasEntity, store_mentions-AreLinked, prune_orphan_entities-HasReferences,
}

module _ {F : Type 0} where
  module _ (has_chunk : ℕ → Bool) (document_id : ℕ) (ids : List (Key × ℕ)) (now : ℕ) where
    insert_relationship-AreStored :
        (e : EntityEdge F) (t : EntityTables F)
        → AreStored (t, ids)
        → AreStored (
          insert_relationship (resolve_relationship has_chunk document_id ids now t.next_id e) t,
          ids,
        )
    unfolding resolve_relationship insert_relationship
    insert_relationship-AreStored e t h =
        go (id_of e.source ids) (id_of e.target ids) (id_of-HasEntity t.entities e.source ids h.1)
          (id_of-HasEntity t.entities e.target ids h.1)
      where
        row : ℕ → ℕ → RelationshipRow F
        row source target = record {
          id = t.next_id;
          source_entity_id = source;
          target_entity_id = target;
          relationship_type = e.relationship_type;
          description = e.description;
          weight = e.weight;
          evidence_chunk_id = chunk_at has_chunk document_id e.evidence_chunk_index;
          created_at = now;
        }

        go :
            (a b : Option ℕ)
            → OnSome (HasEntity t.entities) a
            → OnSome (HasEntity t.entities) b
            → AreStored (
              insert_relationship (a >>= λ source. b >>= λ target. some (row source target)) t,
              ids,
            )
        go none b k l = h
        go (some a) none k l = h
        go (some a) (some b) k l =
            ((h.0.0, All-append _ t.relationships (row a b ∷ []) h.0.1 ((k, l), tt), h.0.2), h.1)

    store_relationships-AreStored :
        (es : List (EntityEdge F)) (t : EntityTables F)
        → AreStored (t, ids)
        → AreStored (store_relationships has_chunk document_id ids now es t, ids)
    unfolding store_relationships
    store_relationships-AreStored [] t h = h
    store_relationships-AreStored (e ∷ es) t h =
        store_relationships-AreStored es _ (insert_relationship-AreStored e t h)

  pub write_graph-HasReferences :
      (has_chunk : ℕ → Bool) (document_id now : ℕ) (graph : DocumentEntityGraph F)
      (t : EntityTables F)
      → HasReferences t
      → OnSome HasReferences (write_graph has_chunk document_id now graph t)
  unfolding write_graph
  write_graph-HasReferences has_chunk document_id now graph t h =
      elim (Bool-cases (is_empty_graph graph)) [
        | inl q ↦ rw q (prune_orphan_entities-HasReferences t h)
        | inr q ↦ rw q (
            go (store_entities now graph.entities (t, []))
              (store_entities-AreStored now graph.entities (t, []) (h, tt)))
      ]
    where
      go :
          (o : Option (EntityTables F × List (Key × ℕ)))
          → OnSome AreStored o
          → OnSome HasReferences (
              o >>= λ stored. some (
                prune_orphan_entities (
                  store_relationships has_chunk document_id stored.1 now graph.relationships
                    (record (stored.0) {
                      mentions =
                          store_mentions has_chunk document_id stored.1 graph.mentions
                            (stored.0).mentions;
                    }))))
      go none k = tt
      go (some g) k =
          prune_orphan_entities-HasReferences _
            (store_relationships-AreStored has_chunk document_id g.1 now graph.relationships _ (
              (
                store_mentions-AreLinked (g.0).entities has_chunk document_id g.1 k.1 graph.mentions
                    (g.0).mentions k.0.0,
                k.0.1,
                k.0.2,
              ),
              k.1,
            )).0

  -- The identifiers found by name are entities'.
  resolve_entity_ids-HasEntity :
      (names : List Text) (es : List (EntityRow F))
      → All (HasEntity es) (resolve_entity_ids names es)
  unfolding resolve_entity_ids
  resolve_entity_ids-HasEntity names [] = tt
  resolve_entity_ids-HasEntity names (e ∷ es) =
      let rest =
        All-map (λ i h. inr h) (resolve_entity_ids names es)
          (resolve_entity_ids-HasEntity names es) in
      elim (Bool-cases (any (text_eq e.normalized_name) names)) [
        | inl q ↦ rw q (inl refl, rest)
        | inr q ↦ rw q rest
      ]

  insert_community-HasReferences :
      (project : Option Text) (now : ℕ) (c : CommunityWithSummary F) (t : EntityTables F)
      → HasReferences t
      → HasReferences (insert_community project now c t)
  unfolding insert_community
  insert_community-HasReferences project now c t h = (
    h.0,
    h.1,
    All-append _ t.members (map (λ e. (t.next_id, e)) (resolve_entity_ids c.entity_ids t.entities))
        (All-map (λ m p. (Any-append-left _ t.communities _ p.0, p.1)) t.members h.2)
        (paired (resolve_entity_ids c.entity_ids t.entities)
          (resolve_entity_ids-HasEntity c.entity_ids t.entities)),
  )
    where
      row : CommunityRow F
      row = record {
        id = t.next_id;
        name = c.name;
        summary = c.summary;
        project = project;
        importance = c.importance;
        embedding = c.summary_embedding;
        created_at = now;
      }

      paired :
          (is : List ℕ)
          → All (HasEntity t.entities) is
          → AreMembers t.entities (t.communities ++ row ∷ []) (map (λ e. (t.next_id, e)) is)
      paired [] k = tt
      paired (i ∷ is) k =
          ((Any-append-right _ t.communities (row ∷ []) (inl refl), k.0), paired is k.1)

  pub store_all_communities-HasReferences :
      (project : Option Text) (now : ℕ) (cs : List (CommunityWithSummary F)) (t : EntityTables F)
      → HasReferences t
      → OnSome HasReferences (store_all_communities project now cs t)
  unfolding store_all_communities
  store_all_communities-HasReferences project now [] t h = h
  store_all_communities-HasReferences project now (c ∷ cs) t h =
      let rest =
        store_all_communities-HasReferences project now cs _
          (insert_community-HasReferences project now c t h) in
      elim (Bool-cases (is_storable_embedding c.summary_embedding)) [
        | inl q ↦ rw q rest
        | inr q ↦ rw q tt
      ]

  pub remove_communities-HasReferences :
      (project : Option Text) (t : EntityTables F)
      → HasReferences t
      → HasReferences (remove_communities project t)
  unfolding remove_communities
  remove_communities-HasReferences project t h =
      let left = filter (λ c. not (is_same_project c.project project)) t.communities in
      (
        h.0,
        h.1,
        All-map
            (λ m q. (
              Any-mono (λ c. (c.id == m.0) ≡ true) (λ c. c.id ≡ m.0) (λ c e. (==_iff c.id m.0).0 e)
                  left (Any-any (λ c. c.id == m.0) left q.1),
              q.0.1,
            ))
            (filter (λ m. any (λ c. c.id == m.0) left) t.members)
            (filter-All _ (λ m. any (λ c. c.id == m.0) left) t.members h.2),
      )
