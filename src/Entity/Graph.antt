-- ===== src/Entity/Graph.antt =====
-- entity/graph_build.rs: merging the entities and relationships extracted from a document's chunks. The
-- sorted map of entities is an association list in the order of first insertion.
pub mod Endpoints
use wend_rag.Base.{
  ℕ, List, [], ◌∷◌, ◌++◌, Option, none, some, Bool, true, false, ◌&&◌, ltb, if◌then◌else◌, is_empty,
  any,
}
use wend_rag.Base.Float.{Float}
use wend_rag.Base.Text.{Text, byte_len, trim, text_eq}
use wend_rag.Base.Unicode.{Unicode}
use wend_rag.Entity.Normalize.{
  normalize_entity_name, normalize_entity_type, normalize_relationship_type, clean_optional_text,
}

-- The normalized name and the type.
abbrev pub Key : Type 0
Key = Text × Text

unfoldable pub key_eq : Key → Key → Bool
key_eq k l = text_eq k.0 l.0 && text_eq k.1 l.1

-- `mentioned_keys.insert(key)`, of a set
unfoldable pub mention : Key → List Key → List Key
unfolding key_eq
mention key keys = if any (key_eq key) keys then keys else keys ++ key ∷ []

pub record AggregatedEntity : Type 0 where
  pub normalized_name : Text
  pub display_name : Text
  pub entity_type : Text
  pub description : Option Text

unfoldable pub key_of : AggregatedEntity → Key
key_of e = (e.normalized_name, e.entity_type)

unfoldable pub should_replace_description : Option Text → Option Text → Bool
should_replace_description none none = false
should_replace_description none (some candidate) = true
should_replace_description (some current) none = false
should_replace_description (some current) (some candidate) =
    ltb (byte_len current) (byte_len candidate)

unfoldable pub merge_entity : Text → Option Text → AggregatedEntity → AggregatedEntity
unfolding should_replace_description
merge_entity display_name description e = record e {
  display_name =
      if ltb (byte_len e.display_name) (byte_len display_name)
      then display_name
      else e.display_name;
  description =
      if should_replace_description e.description description then description else e.description;
}

-- `entry(key).and_modify(…).or_insert_with(…)`
unfoldable pub enter : Key → Text → Option Text → List AggregatedEntity → List AggregatedEntity
enter key display_name description [] =
    record {
      normalized_name = key.0;
      display_name = display_name;
      entity_type = key.1;
      description = description;
    }
    ∷ []
enter key display_name description (e ∷ es) =
    if key_eq (key_of e) key
    then merge_entity display_name description e ∷ es
    else e ∷ enter key display_name description es

pub record ExtractedRelationship (F : Type 0) : Type 0 where
  pub source_name : Text
  pub source_type : Text
  pub target_name : Text
  pub target_type : Text
  pub relationship_type : Text
  pub description : Option Text
  pub weight : F

-- The two ends of an edge are keys, as pairs.
pub record EntityEdge (F : Type 0) : Type 0 where
  pub source : Key
  pub target : Key
  pub relationship_type : Text
  pub description : Option Text
  pub weight : F
  pub evidence_chunk_index : ℕ

module _ (u : Unicode) where
  -- The display name is trimmed in either case; it is not blank where the normalized name is not.
  unfoldable pub upsert_aggregated_entity :
      List AggregatedEntity → Text → Text → Option Text → List AggregatedEntity × Option Key
  upsert_aggregated_entity entities display_name entity_type description =
      let key : Key = (normalize_entity_name u display_name, normalize_entity_type entity_type) in
      if is_empty (normalize_entity_name u display_name)
      then (entities, none)
      else (enter key (trim display_name) (clean_optional_text description) entities, some key)

  module _ (f32 : Float) (tenth : f32.F) where
    abbrev pub Graph : Type 0
    Graph = List AggregatedEntity × List (EntityEdge f32.F) × List Key

    -- `f32::max`, which ignores a NaN
    unfoldable pub max_of : f32.F → f32.F → f32.F
    max_of a b = if f32.eq a a then (if f32.le a b then b else a) else b

    unfoldable pub edge_of : ℕ → ExtractedRelationship f32.F → Key → Key → EntityEdge f32.F
    unfolding max_of
    edge_of chunk_index r source target = record {
      source = source;
      target = target;
      relationship_type = normalize_relationship_type r.relationship_type;
      description = clean_optional_text r.description;
      weight = max_of r.weight tenth;
      evidence_chunk_index = chunk_index;
    }

    -- A relationship whose source is stored: the target, and the edge and the mentions unless both are
    -- one.
    unfoldable pub add_edge :
        ℕ
        → ExtractedRelationship f32.F
        → Key
        → List (EntityEdge f32.F)
        → List Key
        → List AggregatedEntity × Option Key
        → Graph
    add_edge chunk_index r source edges mentioned (entities, none) = (entities, edges, mentioned)
    add_edge chunk_index r source edges mentioned (entities, some target) =
        if key_eq source target then (entities, edges, mentioned) else (
          entities,
          edges ++ edge_of chunk_index r source target ∷ [],
          mention target (mention source mentioned),
        )

    unfoldable pub add_target :
        ℕ
        → ExtractedRelationship f32.F
        → List (EntityEdge f32.F)
        → List Key
        → List AggregatedEntity × Option Key
        → Graph
    add_target chunk_index r edges mentioned (entities, none) = (entities, edges, mentioned)
    add_target chunk_index r edges mentioned (entities, some source) =
        add_edge chunk_index r source edges mentioned
          (upsert_aggregated_entity entities r.target_name r.target_type none)

    -- The relationships of one chunk; the third part is the chunk's mentioned keys.
    unfoldable pub relationship_loop : ℕ → List (ExtractedRelationship f32.F) → Graph → Graph
    relationship_loop chunk_index [] g = g
    relationship_loop chunk_index (r ∷ rs) g = relationship_loop chunk_index rs (
        add_target chunk_index r g.1 g.2
          (upsert_aggregated_entity g.0 r.source_name r.source_type none))
