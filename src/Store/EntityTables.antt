-- ===== src/Store/EntityTables.antt =====
-- store/sqlite/entity_graph.rs and the writes of store/sqlite/community.rs: the tables of entities and
-- communities of the SQLite backend, with the constraints of migrations/sqlite/. A chunk's identifier
-- is its document's with its index, which are unique together. Where a constraint refuses a row the
-- whole transaction is taken back, which `none` stands for.
pub mod References
pub mod Kept
use wend_rag.Base.{
  ℕ, ◌+◌, List, [], ◌∷◌, ◌++◌, Option, none, some, ◌>>=◌, Bool, true, false, not, ◌&&◌, ◌==◌,
  if◌then◌else◌, length, is_empty, any, filter, map,
}
use wend_rag.Base.Text.{Text, text_eq}
use wend_rag.Entity.Graph.{Key, key_eq, EntityEdge}
use wend_rag.Entity.Document.{EntityNode, EntityMention, DocumentEntityGraph}

abbrev pub embedding_dimensions : ℕ
embedding_dimensions = 1024

abbrev pub ChunkId : Type 0
ChunkId = ℕ × ℕ

pub record EntityRow (F : Type 0) : Type 0 where
  pub id : ℕ
  pub normalized_name : Text
  pub name : Text
  pub entity_type : Text
  pub description : Option Text
  pub embedding : Option (List F)
  pub mention_count : ℕ
  pub created_at : ℕ

pub record RelationshipRow (F : Type 0) : Type 0 where
  pub id : ℕ
  pub source_entity_id : ℕ
  pub target_entity_id : ℕ
  pub relationship_type : Text
  pub description : Option Text
  pub weight : F
  pub evidence_chunk_id : Option ChunkId
  pub created_at : ℕ

pub record CommunityRow (F : Type 0) : Type 0 where
  pub id : ℕ
  pub name : Text
  pub summary : Option Text
  pub project : Option Text
  pub importance : F
  pub embedding : Option (List F)
  pub created_at : ℕ

-- The fields of `community` are its own; that one's identifier is left out, which is not stored.
pub record CommunityWithSummary (F : Type 0) : Type 0 where
  pub name : Text
  pub entity_ids : List Text
  pub importance : F
  pub summary : Option Text
  pub summary_embedding : Option (List F)

-- A mention is a chunk and an entity, a member a community and an entity. The next UUID of these tables.
pub record EntityTables (F : Type 0) : Type 0 where
  pub entities : List (EntityRow F)
  pub mentions : List (ChunkId × ℕ)
  pub relationships : List (RelationshipRow F)
  pub communities : List (CommunityRow F)
  pub members : List (ℕ × ℕ)
  pub next_id : ℕ

-- `HashMap::get` on what was entered, the newest first
unfoldable pub id_of : Key → List (Key × ℕ) → Option ℕ
id_of key [] = none
id_of key (p ∷ ps) = let rest = id_of key ps in if key_eq p.0 key then some p.1 else rest

-- `COALESCE`
unfoldable pub coalesce : Option Text → Option Text → Option Text
coalesce none old = old
coalesce (some d) old = some d

unfoldable pub is_same_project : Option Text → Option Text → Bool
is_same_project none none = true
is_same_project none (some q) = false
is_same_project (some p) none = false
is_same_project (some p) (some q) = text_eq p q

unfoldable pub is_evidence_of : ℕ → Option ChunkId → Bool
is_evidence_of document_id none = false
is_evidence_of document_id (some chunk) = chunk.0 == document_id

unfoldable pub is_same_mention : ChunkId × ℕ → ChunkId × ℕ → Bool
is_same_mention m n = m.0.0 == n.0.0 && m.0.1 == n.0.1 && m.1 == n.1

-- `ON CONFLICT DO NOTHING`
unfoldable pub add_mention : ChunkId × ℕ → List (ChunkId × ℕ) → List (ChunkId × ℕ)
add_mention m ms = if any (is_same_mention m) ms then ms else ms ++ m ∷ []

-- `chunk_ids_by_index.get(…)` in a document: whether it has a chunk of an index is `has_chunk`.
unfoldable pub chunk_at : (ℕ → Bool) → ℕ → ℕ → Option ChunkId
chunk_at has_chunk document_id index = if has_chunk index then some (document_id, index) else none

unfoldable pub resolve_mention :
    (ℕ → Bool) → ℕ → List (Key × ℕ) → EntityMention → Option (ChunkId × ℕ)
resolve_mention has_chunk document_id ids m =
    chunk_at has_chunk document_id m.chunk_index >>= λ chunk.
    id_of m.key ids >>= λ entity. some (chunk, entity)

unfoldable pub insert_mention : Option (ChunkId × ℕ) → List (ChunkId × ℕ) → List (ChunkId × ℕ)
insert_mention none ms = ms
insert_mention (some m) ms = add_mention m ms

unfoldable pub store_mentions :
    (ℕ → Bool) → ℕ → List (Key × ℕ) → List EntityMention → List (ChunkId × ℕ) → List (ChunkId × ℕ)
store_mentions has_chunk document_id ids [] stored = stored
store_mentions has_chunk document_id ids (m ∷ ms) stored =
    store_mentions has_chunk document_id ids ms
      (insert_mention (resolve_mention has_chunk document_id ids m) stored)

module _ {F : Type 0} where
  -- The `CHECK` on a column `embedding`
  unfoldable pub is_storable_embedding : Option (List F) → Bool
  is_storable_embedding none = true
  is_storable_embedding (some e) = length e == embedding_dimensions

  unfoldable pub embedding_of : EntityNode F → Option (List F)
  embedding_of n = if is_empty n.embedding then none else some n.embedding

  unfoldable pub has_key : EntityNode F → EntityRow F → Bool
  has_key n row = key_eq (row.normalized_name, row.entity_type) (n.normalized_name, n.entity_type)

  -- `INSERT INTO entities … ON CONFLICT … DO UPDATE … RETURNING id`
  unfoldable pub upsert_entity : EntityNode F → ℕ → ℕ → List (EntityRow F) → List (EntityRow F) × ℕ
  upsert_entity n new_id now [] = (
    record {
      id = new_id;
      normalized_name = n.normalized_name;
      name = n.display_name;
      entity_type = n.entity_type;
      description = n.description;
      embedding = embedding_of n;
      mention_count = 0;
      created_at = now;
    }
        ∷ [],
    new_id,
  )
  upsert_entity n new_id now (row ∷ rows) =
      let rest = upsert_entity n new_id now rows in
      if has_key n row
      then (
        record row {
          name = n.display_name;
          description = coalesce n.description row.description;
          embedding = embedding_of n;
        }
            ∷ rows,
        row.id,
      )
      else (row ∷ rest.0, rest.1)

  -- `for entity in &graph.entities`: the tables, and the identifiers by key.
  unfoldable pub store_entities :
      ℕ
      → List (EntityNode F)
      → EntityTables F × List (Key × ℕ)
      → Option (EntityTables F × List (Key × ℕ))
  store_entities now [] g = some g
  store_entities now (n ∷ ns) g =
      let out = upsert_entity n g.0.next_id now g.0.entities in
      let rest = store_entities now ns (
        record (g.0) { entities = out.0; next_id = g.0.next_id + 1 },
        ((n.normalized_name, n.entity_type), out.1) ∷ g.1,
      ) in
      if is_storable_embedding (embedding_of n) then rest else none

  unfoldable pub resolve_relationship :
      (ℕ → Bool) → ℕ → List (Key × ℕ) → ℕ → ℕ → EntityEdge F → Option (RelationshipRow F)
  resolve_relationship has_chunk document_id ids now new_id e = id_of e.source ids >>= λ source.
      id_of e.target ids >>= λ target. some record {
        id = new_id;
        source_entity_id = source;
        target_entity_id = target;
        relationship_type = e.relationship_type;
        description = e.description;
        weight = e.weight;
        evidence_chunk_id = chunk_at has_chunk document_id e.evidence_chunk_index;
        created_at = now;
      }

  unfoldable pub insert_relationship : Option (RelationshipRow F) → EntityTables F → EntityTables F
  insert_relationship none t = t
  insert_relationship (some row) t = record t {
    relationships = t.relationships ++ row ∷ [];
    next_id = t.next_id + 1;
  }

  unfoldable pub store_relationships :
      (ℕ → Bool) → ℕ → List (Key × ℕ) → ℕ → List (EntityEdge F) → EntityTables F → EntityTables F
  store_relationships has_chunk document_id ids now [] t = t
  store_relationships has_chunk document_id ids now (e ∷ es) t =
      store_relationships has_chunk document_id ids now es
        (insert_relationship (resolve_relationship has_chunk document_id ids now t.next_id e) t)

  unfoldable pub counted : List (ChunkId × ℕ) → EntityRow F → EntityRow F
  counted mentions e = record e { mention_count = length (filter (λ m. m.1 == e.id) mentions) }

  -- What refers to an entity goes with it.
  unfoldable pub prune_orphan_entities : EntityTables F → EntityTables F
  prune_orphan_entities t =
      let left = filter (λ e. not (e.mention_count == 0)) (map (counted t.mentions) t.entities) in
      let is_left : ℕ → Bool = λ id. any (λ e. e.id == id) left in
      record t {
        entities = left;
        relationships =
            filter (λ r. is_left r.source_entity_id && is_left r.target_entity_id) t.relationships;
        members = filter (λ m. is_left m.1) t.members;
      }

  unfoldable pub is_empty_graph : DocumentEntityGraph F → Bool
  is_empty_graph g = is_empty g.entities && is_empty g.mentions && is_empty g.relationships

  unfoldable pub write_graph :
      (ℕ → Bool) → ℕ → ℕ → DocumentEntityGraph F → EntityTables F → Option (EntityTables F)
  write_graph has_chunk document_id now graph t =
      if is_empty_graph graph
      then some (prune_orphan_entities t)
      else store_entities now graph.entities (t, []) >>= λ stored.
          let mentions =
            store_mentions has_chunk document_id stored.1 graph.mentions stored.0.mentions in
          some (
            prune_orphan_entities (
              store_relationships has_chunk document_id stored.1 now graph.relationships
                (record (stored.0) { mentions = mentions })))

  -- The chunks of a document go: so do the relationships that they prove, and their mentions.
  unfoldable pub forget_chunks : ℕ → EntityTables F → EntityTables F
  forget_chunks document_id t = record t {
    mentions = filter (λ m. not (m.0.0 == document_id)) t.mentions;
    relationships =
        filter (λ r. not (is_evidence_of document_id r.evidence_chunk_id)) t.relationships;
  }

  -- `SELECT id FROM entities WHERE normalized_name IN (…)`
  unfoldable pub resolve_entity_ids : List Text → List (EntityRow F) → List ℕ
  resolve_entity_ids names entities =
      map (λ e. e.id) (filter (λ e. any (text_eq e.normalized_name) names) entities)

  unfoldable pub insert_community :
      Option Text → ℕ → CommunityWithSummary F → EntityTables F → EntityTables F
  insert_community project now c t = record t {
    communities =
        t.communities
        ++ record {
          id = t.next_id;
          name = c.name;
          summary = c.summary;
          project = project;
          importance = c.importance;
          embedding = c.summary_embedding;
          created_at = now;
        }
          ∷ [];
    members = t.members ++ map (λ e. (t.next_id, e)) (resolve_entity_ids c.entity_ids t.entities);
    next_id = t.next_id + 1;
  }

  unfoldable pub store_all_communities :
      Option Text → ℕ → List (CommunityWithSummary F) → EntityTables F → Option (EntityTables F)
  store_all_communities project now [] t = some t
  store_all_communities project now (c ∷ cs) t =
      let rest = store_all_communities project now cs (insert_community project now c t) in
      if is_storable_embedding c.summary_embedding then rest else none

  unfoldable pub remove_communities : Option Text → EntityTables F → EntityTables F
  remove_communities project t =
      let left = filter (λ c. not (is_same_project c.project project)) t.communities in
      record t { communities = left; members = filter (λ m. any (λ c. c.id == m.0) left) t.members }
