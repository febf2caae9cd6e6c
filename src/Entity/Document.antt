-- ===== src/Entity/Document.antt =====
-- entity/graph_build.rs: `build_document_entity_graph`, which makes one graph of the extractions of a
-- document's chunks. A sorted map or set is a list in the order of insertion, sorted where it is read.
pub mod Mentions
pub mod Merged
pub mod Closed
use wend_rag.Base.{
  ℕ, ◌+◌, ◌%◌, ◌^◌, List, [], ◌∷◌, ◌++◌, Option, none, some, Bool, true, false, ◌&&◌, ◌||◌, ◌==◌,
  ltb, if◌then◌else◌, is_empty, length, any, map,
}
use wend_rag.Base.Float.{Float}
use wend_rag.Base.Outcome.{Outcome, done, failed, stuck}
use wend_rag.Base.Sort.{sort}
use wend_rag.Base.Text.{Text, codes}
use wend_rag.Base.Unicode.{Unicode}
use wend_rag.Entity.Graph.{
  Key, key_eq, mention, AggregatedEntity, key_of, ExtractedRelationship, EntityEdge,
  upsert_aggregated_entity, relationship_loop,
}

pub record ExtractedEntity : Type 0 where
  pub name : Text
  pub entity_type : Text
  pub description : Option Text

pub record ChunkEntityExtraction (F : Type 0) : Type 0 where
  pub chunk_index : ℕ
  pub entities : List ExtractedEntity
  pub relationships : List (ExtractedRelationship F)

pub record EntityNode (F : Type 0) : Type 0 where
  pub normalized_name : Text
  pub display_name : Text
  pub entity_type : Text
  pub description : Option Text
  pub embedding : List F

-- The key is the pair of the fields `normalized_name` and `entity_type`.
pub record EntityMention : Type 0 where
  pub chunk_index : ℕ
  pub key : Key

pub record DocumentEntityGraph (F : Type 0) : Type 0 where
  pub entities : List (EntityNode F)
  pub mentions : List EntityMention
  pub relationships : List (EntityEdge F)

pub data EntityGraphBuildError (E : Type 0) : Type 0 where
  embedding : E → EntityGraphBuildError E
  embedding_count_mismatch : ℕ → ℕ → EntityGraphBuildError E

-- The order of `String`
unfoldable pub text_le : Text → Text → Bool
text_le [] t = true
text_le (c ∷ s) [] = false
text_le (c ∷ s) (d ∷ t) = let rest = text_le s t in ltb c d || (c == d && rest)

-- The order of a pair, and of the mentions: the first field that differs decides.
unfoldable pub key_le : Key → Key → Bool
key_le k l = if text_le k.0 l.0 && text_le l.0 k.0 then text_le k.1 l.1 else text_le k.0 l.0

-- `Ord` on an `i32` given as its bit pattern
unfoldable pub index_lt : ℕ → ℕ → Bool
index_lt i j = ltb ((i + 2 ^ 31) % 2 ^ 32) ((j + 2 ^ 31) % 2 ^ 32)

unfoldable pub mention_le : EntityMention → EntityMention → Bool
mention_le m n =
    index_lt m.chunk_index n.chunk_index || (m.chunk_index == n.chunk_index && key_le m.key n.key)

unfoldable pub mention_eq : EntityMention → EntityMention → Bool
mention_eq m n = m.chunk_index == n.chunk_index && key_eq m.key n.key

-- `mentions.insert(…)` for each key
unfoldable pub insert_mentions : ℕ → List Key → List EntityMention → List EntityMention
insert_mentions chunk_index [] mentions = mentions
insert_mentions chunk_index (key ∷ keys) mentions =
    let m : EntityMention = record { chunk_index = chunk_index; key = key } in
    insert_mentions chunk_index keys
      (if any (mention_eq m) mentions then mentions else mentions ++ m ∷ [])

unfoldable pub mention_upserted :
    List Key → List AggregatedEntity × Option Key → List AggregatedEntity × List Key
mention_upserted keys (entities, none) = (entities, keys)
mention_upserted keys (entities, some key) = (entities, mention key keys)

unfoldable pub render_entity_embedding_text : AggregatedEntity → Text
render_entity_embedding_text e =
    let head = e.display_name ++ codes " [" ++ e.entity_type ++ codes "]" in
    elim e.description [ none ↦ head | some description ↦ head ++ 10 ∷ description ]

-- `into_values().zip(embeddings).map(…)`
unfoldable pub nodes_of : {F : Type 0} → List AggregatedEntity → List (List F) → List (EntityNode F)
nodes_of [] embeddings = []
nodes_of (e ∷ es) [] = []
nodes_of (e ∷ es) (v ∷ embeddings) =
    record {
      normalized_name = e.normalized_name;
      display_name = e.display_name;
      entity_type = e.entity_type;
      description = e.description;
      embedding = v;
    }
    ∷ nodes_of es embeddings

module _ (u : Unicode) (f32 : Float) (tenth : f32.F) where
  -- The entities, the relationships and the mentions so far.
  abbrev pub Merged : Type 0
  Merged = List AggregatedEntity × List (EntityEdge f32.F) × List EntityMention

  unfoldable pub entity_loop :
      List ExtractedEntity → List AggregatedEntity × List Key → List AggregatedEntity × List Key
  entity_loop [] g = g
  entity_loop (e ∷ es) g =
      entity_loop es
        (mention_upserted g.1 (upsert_aggregated_entity u g.0 e.name e.entity_type e.description))

  unfoldable pub add_extraction : ChunkEntityExtraction f32.F → Merged → Merged
  add_extraction x m =
      let stored = entity_loop x.entities (m.0, []) in
      let g =
        relationship_loop u f32 tenth x.chunk_index x.relationships (stored.0, m.1, stored.1) in
      (g.0, g.1, insert_mentions x.chunk_index g.2 m.2)

  unfoldable pub extraction_loop : List (ChunkEntityExtraction f32.F) → Merged → Merged
  extraction_loop [] m = m
  extraction_loop (x ∷ xs) m = extraction_loop xs (add_extraction x m)

  module _ {E : Type 0} (embed : List Text → Outcome E (List (List f32.F))) where
    -- The entities are in the order of their keys.
    unfoldable pub with_embeddings :
        Merged
        → Outcome E (List (List f32.F))
        → Outcome (EntityGraphBuildError E) (DocumentEntityGraph f32.F)
    with_embeddings m (failed e) = failed (embedding e)
    with_embeddings m stuck = stuck
    with_embeddings m (done embeddings) =
        if length embeddings == length m.0
        then done record {
          entities = nodes_of (sort (λ d e. key_le (key_of d) (key_of e)) m.0) embeddings;
          mentions = sort mention_le m.2;
          relationships = m.1;
        }
        else failed (embedding_count_mismatch (length m.0) (length embeddings))

    unfoldable pub of_merged :
        Merged → Outcome (EntityGraphBuildError E) (DocumentEntityGraph f32.F)
    of_merged m =
        if is_empty m.0
        then done record { entities = []; mentions = []; relationships = [] }
        else with_embeddings m (
            embed
              (map render_entity_embedding_text (sort (λ d e. key_le (key_of d) (key_of e)) m.0)))

    unfoldable pub build_document_entity_graph :
        List (ChunkEntityExtraction f32.F)
        → Outcome (EntityGraphBuildError E) (DocumentEntityGraph f32.F)
    build_document_entity_graph extractions = of_merged (extraction_loop extractions ([], [], []))
