-- ===== src/Tests/Pipeline.antt =====
-- ingest/pipeline.rs and ingest/directory.rs on SQLite tables with one document, where the third call
-- does not reach the database.
use wend_rag.Base.{ℕ, List, [], ◌∷◌, none, some, true, false, map, ◌≡◌, ◌≢◌, refl, arith}
use wend_rag.Base.Action.{Ends}
use wend_rag.Base.Float.{naturals}
use wend_rag.Base.Unicode.{ascii}
use wend_rag.Base.Outcome.{Outcome, done, stuck}
use wend_rag.Base.Text.{Text, codes}
use wend_rag.Ingest.Chunker.{fixed}
use wend_rag.Ingest.Chunker.FixedSize.{chunk_document-HasShortContent}
use wend_rag.Ingest.Types.{External, ContentIngestRequest, IngestOptions, Services}
use wend_rag.Ingest.Pipeline.{chunking_of, chunks_for, document_graph, ingest_content}
use wend_rag.Ingest.Pipeline.Refines.{Returns, Ingested, Failed, ingest_content-Refines}
use wend_rag.Ingest.Pipeline.Repeated.{IsSettled, StopsShort, ingest_content-Settles}
use wend_rag.Ingest.Output.{DirectoryIngestRequest, GlobEntry, file, unreadable, empty_output}
use wend_rag.Ingest.Directory.{Surroundings, delete_orphaned_documents}
use wend_rag.Ingest.Directory.Orphans.{Spares, delete_orphaned_documents-Spares}
use wend_rag.Store.Backend.{StorageBackend, IsBackend}
use wend_rag.Store.Sqlite.{SqlxError, Tables, sqlite_backend}
use wend_rag.Store.EntityTables.{embedding_dimensions, CommunityWithSummary}
use wend_rag.Store.Sqlite.Index.{index, IsWellFormed}
use wend_rag.Store.Sqlite.Contract.{sqlite_backend-IsBackend}

abbrev world : External
world = record {
  u = ascii;
  f32 = naturals;
  f64 = naturals;
  tenth = 1;
  Read = Text;
  Embedding = Text;
  Database = SqlxError;
  Extraction = Text;
  Analysis = Text;
  Community = CommunityWithSummary ℕ;
}

abbrev db : StorageBackend (Tables ℕ) SqlxError ℕ (CommunityWithSummary ℕ)
db = sqlite_backend ℕ

abbrev ones : ℕ → List ℕ
ones ℕ.zero = []
ones (ℕ.suc n) = 1 ∷ ones n

abbrev services : Services world
services = record {
  embed = λ texts. done (map (λ t. ones embedding_dimensions) texts);
  parse_markdown = λ t. [];
  sha256 = λ bytes. bytes;
  analyze_graph = λ c g. done [];
}

abbrev options : IngestOptions world
options = record {
  project = none;
  tags = [];
  entity_extractor = none;
  community_config = none;
  chunking_strategy = fixed;
  semantic_threshold = 1;
  max_sentences = 20;
  filter_garbage = false;
}

abbrev request : ContentIngestRequest
request = record {
  file_path = codes "/docs/a.md";
  file_name = codes "a.md";
  file_type = codes "text";
  text = codes "new words";
}

abbrev tables : Tables ℕ
tables = record {
  documents =
      record {
        id = 0;
        file_path = codes "/docs/a.md";
        file_name = codes "a.md";
        file_type = codes "text";
        content_hash = codes "00";
        project = none;
        tags = [];
        created_at = 1;
        updated_at = 1;
      }
      ∷ [];
  chunks = [];
  graph = record {
    entities = [];
    mentions = [];
    relationships = [];
    communities = [];
    members = [];
    next_id = 0;
  };
  next_id = 1;
  clock = 2;
  reached = true ∷ true ∷ false ∷ [];
}

tables-IsWellFormed : IsWellFormed tables
tables-IsWellFormed = ((omega arith, tt), tt, (tt, tt), (tt, tt, tt))

done-stuck : {E A : Type 0} (m : Outcome E A) {a : A} → m ≡ done a → m ≢ stuck
done-stuck m e h = cc

returns : (r : ContentIngestRequest) → Returns world db services options r
unfolding chunks_for document_graph
returns r =
    let (cs, e, short) =
      chunk_document-HasShortContent ascii naturals naturals (chunking_of world db services options)
        (unfold chunking_of in refl) r.text r.file_type in
    record {
      chunks_return = done-stuck _ e;
      embed_returns = λ texts h. cc;
      graph_returns = λ cs h. cc;
      analysis_returns = λ c g h. cc;
    }

ingest_content-Refines_example :
    Ends
      (Ingested world db services options request IsWellFormed index sqlite_backend-IsBackend
        (returns request)
        tables)
      (Failed world db services options request IsWellFormed index sqlite_backend-IsBackend
        (returns request)
        tables)
      (ingest_content world db services options request tables)
ingest_content-Refines_example =
    ingest_content-Refines world db services options request IsWellFormed index
      sqlite_backend-IsBackend (returns request) tables tables-IsWellFormed

ingest_content-Settles_example :
    Ends
      (λ res t.
        IsSettled world db services options request IsWellFormed index sqlite_backend-IsBackend
          (returns request)
          res.document_id
          t)
      (λ e t.
        StopsShort world db services options request IsWellFormed index sqlite_backend-IsBackend
          (returns request)
          tables
          t)
      (ingest_content world db services options request tables)
ingest_content-Settles_example =
    ingest_content-Settles world db services options request IsWellFormed index
      sqlite_backend-IsBackend (returns request) tables tables-IsWellFormed

sqlite_backend-IsBackend_example : IsBackend db IsWellFormed index
sqlite_backend-IsBackend_example = sqlite_backend-IsBackend

-- The first file is joined last, and one task panics.
abbrev surroundings : Surroundings world
surroundings = record {
  scheme = λ p. none;
  glob = λ p. done (file (codes "/docs/a.md") ∷ unreadable ∷ file (codes "/docs/b.md") ∷ []);
  read_source = λ p. done record { file_name = p; file_type = codes "text"; text = codes "words" };
  show = λ e. codes "failed";
  show_database = λ e. codes "database";
  is_file = λ p. false;
  is_dir = λ p. true;
  schedule = λ tasks. none ∷ map some tasks;
}

abbrev directory : DirectoryIngestRequest
directory = record {
  directory_path = codes "/docs";
  recursive = true;
  glob_pattern = none;
  delete_removed = true;
}

abbrev entries : List GlobEntry
entries = file (codes "/docs/a.md") ∷ unreadable ∷ file (codes "/docs/b.md") ∷ []

delete_orphaned_documents-Spares_example :
    Ends
      (λ r t.
        Spares world db services options surroundings IsWellFormed index sqlite_backend-IsBackend
          (codes "/docs")
          (codes "/docs/b.md" ∷ [])
          tables
          t)
      (λ e t.
        Spares world db services options surroundings IsWellFormed index sqlite_backend-IsBackend
          (codes "/docs")
          (codes "/docs/b.md" ∷ [])
          tables
          t)
      (delete_orphaned_documents world db services options surroundings
        (codes "/docs")
        (codes "/docs/b.md" ∷ [])
        (empty_output 0)
        tables)
delete_orphaned_documents-Spares_example =
    delete_orphaned_documents-Spares world db services options surroundings IsWellFormed index
      sqlite_backend-IsBackend (codes "/docs") (codes "/docs/b.md" ∷ []) (empty_output 0) tables
      tables-IsWellFormed
