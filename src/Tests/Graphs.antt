-- ===== src/Tests/Graphs.antt =====
-- entity/graph_build.rs and entity/community.rs on a chunk with an entity and two relationships, one of an entity to itself.
use wend_rag.Base.{ℕ, List, [], ◌∷◌, none, some, map, ◌≡◌}
use wend_rag.Base.Outcome.{Outcome, done}
use wend_rag.Base.Float.{naturals}
use wend_rag.Base.Unicode.{ascii}
use wend_rag.Base.Text.{Text, codes, byte_len}
use wend_rag.Entity.Graph.{ExtractedRelationship, EntityEdge}
use wend_rag.Entity.Document.{
  ChunkEntityExtraction, EntityNode, build_document_entity_graph, extraction_loop,
}
use wend_rag.Entity.Community.{CommunityDetectionConfig}
use wend_rag.Entity.Community.Partition.{IsPartition}
use wend_rag.Entity.Community.Detect.{community_of, detect_communities}
use wend_rag.Entity.Community.Detect.Whole.{detect_communities-IsPartition}
use wend_rag.Entity.Document.Closed.{IsBuilt, build_document_entity_graph-IsBuilt}

abbrev relationship : Text → Text → ExtractedRelationship ℕ
relationship source target = record {
  source_name = source;
  source_type = codes "tool";
  target_name = target;
  target_type = codes "tool";
  relationship_type = codes "uses";
  description = none;
  weight = 1;
}

abbrev chunk : ChunkEntityExtraction ℕ
chunk = record {
  chunk_index = 4;
  entities =
      record { name = codes "Rust"; entity_type = codes "language"; description = none } ∷ [];
  relationships =
      relationship (codes "Cargo") (codes "rustc")
      ∷ relationship (codes "Cargo") (codes " cargo")
      ∷ [];
}

abbrev embed : List Text → Outcome Text (List (List ℕ))
embed texts = done (map (λ t. byte_len t ∷ []) texts)

build_document_entity_graph-IsBuilt_example :
    IsBuilt ascii naturals 0 embed
      (extraction_loop ascii naturals 0 (chunk ∷ []) ([], [], []))
      (build_document_entity_graph ascii naturals 0 embed (chunk ∷ []))
build_document_entity_graph-IsBuilt_example =
    build_document_entity_graph-IsBuilt ascii naturals 0 embed (chunk ∷ [])

-- Two entities of one name and different types: the edge leads to the second.
abbrev node : Text → EntityNode ℕ
node name = record {
  normalized_name = name;
  display_name = name;
  entity_type = codes "tool";
  description = none;
  embedding = [];
}

abbrev edge : EntityEdge ℕ
edge = record {
  source = (codes "cargo", codes "tool");
  target = (codes "rustc", codes "tool");
  relationship_type = codes "uses";
  description = none;
  weight = 3;
  evidence_chunk_index = 0;
}

abbrev limits : CommunityDetectionConfig naturals naturals (λ a. a)
limits = record { resolution = 1; max_iterations = 2; min_modularity_gain = 0 }

detect_communities-IsPartition_example :
    (groups : List (List ℕ)) × IsPartition 3 groups
    × (detect_communities naturals naturals
          (λ a. a)
          (λ es. es)
          (λ es. es)
          (node (codes "cargo") ∷ node (codes "rustc") ∷ node (codes "cargo") ∷ [])
          (edge ∷ [])
          limits
        ≡ some (
            map
              (community_of naturals naturals
                (λ a. a)
                (λ es. es)
                (λ es. es)
                (map
                  (λ e. e.normalized_name)
                  (node (codes "cargo") ∷ node (codes "rustc") ∷ node (codes "cargo") ∷ []))
                (edge ∷ []))
              groups))
detect_communities-IsPartition_example =
    detect_communities-IsPartition naturals naturals (λ a. a) (λ es. es) (λ es. es) (λ P es h. h)
      (λ P es h. h) (node (codes "cargo") ∷ node (codes "rustc") ∷ node (codes "cargo") ∷ [])
      (edge ∷ []) limits
