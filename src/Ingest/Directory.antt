-- ===== src/Ingest/Directory.antt =====
-- ingest/directory.rs: the files of a directory, ingested and counted. Up to four of them overlap in
-- the program; here one ends before the next begins, in whatever order `schedule` gives.
pub mod Counts
pub mod Orphans
use wend_rag.Base.{
  ℕ, ◌+◌, List, [], ◌∷◌, ◌++◌, Option, none, some, Bool, true, false, not, ◌&&◌, ◌||◌, ◌==◌, leb,
  any, map, if◌then◌else◌, inl, inr, ◌⊎◌,
}
use wend_rag.Base.Action.{Action, pure, lift, on_error, map_err, catch, ◌>>=◌}
use wend_rag.Base.Outcome.{Outcome, done, failed, stuck}
use wend_rag.Base.Sort.{sort}
use wend_rag.Base.Text.{Text, codes, text_eq, starts_with, ends_with}
use wend_rag.Ingest.Types.{
  External, IngestError, invalid_glob_pattern, invalid_path, read, database, IngestStatus, created,
  updated, unchanged, status_text, IngestResult, ContentIngestRequest, IngestOptions, Services,
}
use wend_rag.Ingest.Pipeline.{ingest_content}
use wend_rag.Ingest.Reader.{detect_file_type}
use wend_rag.Store.Backend.{StorageBackend}
use wend_rag.Ingest.Output.{
  IngestDocumentStatus, IngestPathResult, DirectoryIngestRequest, GlobEntry, Joined,
  build_directory_pattern, discover, enumerate_from, empty_output, push_document, count_status,
  forward_slashes, normalize_dir_prefix, is_orphan, push_ingest_status, panics, results_of,
  push_all, output_of, returned, panicked,
}

-- What reads a source into text: the functions of reader.rs behind `read_source_with_options`.
pub record ReadDocument : Type 0 where
  pub file_name : Text
  pub file_type : Text
  pub text : Text

-- What the ingestion of a directory calls besides: the scheme of a URL, `glob`, the readers, the texts of errors, and the
-- order in which the tasks come to be joined; a task that panics is `none`.
pub record Surroundings (w : External) : Type 0 where
  pub scheme : Text → Option Text
  pub glob : Text → Outcome Text (List GlobEntry)
  pub read_source : Text → Outcome w.Read ReadDocument
  pub show : IngestError w → Text
  pub show_database : w.Database → Text
  pub is_file : Text → Bool
  pub is_dir : Text → Bool
  pub schedule : List (ℕ × Text) → List (Option (ℕ × Text))

-- The options of a file, which do not take over the configuration of the communities.
abbrev pub file_options : (w : External) → IngestOptions w → IngestOptions w
file_options w o = record o { community_config = none }

module _ (w : External) {S : Type 0} (db : StorageBackend S w.Database w.f32.F w.Community)
    (x : Services w) (o : IngestOptions w) (env : Surroundings w) where
  unfoldable pub ingest_file : Text → Action S (IngestError w) IngestResult
  ingest_file file_path = do
    source ← lift (map_err read (env.read_source file_path))
    ingest_content w db x (file_options w o) record {
      file_path = file_path;
      file_name = source.file_name;
      file_type = source.file_type;
      text = source.text;
    }

  unfoldable pub run_tasks :
      List (Option (ℕ × Text)) → Action S (IngestError w) (List (Joined (IngestError w)))
  run_tasks [] = pure []
  run_tasks (none ∷ tasks) = do rest ← run_tasks tasks; pure (panicked ∷ rest)
  run_tasks (some task ∷ tasks) = do
    result ← catch (ingest_file task.1)
    rest ← run_tasks tasks
    pure (returned task.0 task.1 result ∷ rest)

  -- After a deletion, whose error is recorded.
  unfoldable pub record_deletion :
      Text → Option (Text × ℕ) ⊎ w.Database → IngestPathResult × ℕ → IngestPathResult × ℕ
  record_deletion path (inl none) out = out
  record_deletion path (inl (some removed)) out =
      (push_document path (codes "deleted") out.0, out.1 + 1)
  record_deletion path (inr error) out = (
    push_document path (codes "error: " ++ env.show_database error)
        (record out.0 { failed = (out.0).failed + 1 }),
    out.1,
  )

  -- The loop over the stored documents, with the output and the number of deletions so far.
  unfoldable pub orphan_loop :
      Text
      → List Text
      → List Text
      → IngestPathResult × ℕ
      → Action S (IngestError w) (IngestPathResult × ℕ)
  orphan_loop directory_path discovered [] out = pure out
  orphan_loop directory_path discovered (path ∷ paths) out =
      if is_orphan directory_path discovered path
      then (catch (db.delete_document path) >>= λ removed.
          orphan_loop directory_path discovered paths (record_deletion path removed out))
      else orphan_loop directory_path discovered paths out

  unfoldable pub delete_orphaned_documents :
      Text → List Text → IngestPathResult → Action S (IngestError w) (IngestPathResult × ℕ)
  delete_orphaned_documents directory_path discovered output = do
    existing_docs ← on_error database db.list_documents
    orphan_loop directory_path discovered existing_docs (output, 0)

  unfoldable pub after_tasks :
      DirectoryIngestRequest
      → List Text
      → IngestPathResult
      → Action S (IngestError w) IngestPathResult
  after_tasks r files output =
      if r.delete_removed
      then (delete_orphaned_documents r.directory_path files output >>= λ out.
          pure (record out.0 { deleted = out.1 }))
      else pure output

  unfoldable pub ingest_found :
      DirectoryIngestRequest → List Text × ℕ → Action S (IngestError w) IngestPathResult
  ingest_found r found = do
    joined ← run_tasks (env.schedule (enumerate_from 0 found.0))
    after_tasks r found.0 (output_of env.show found.1 joined)

  unfoldable pub ingest_directory :
      DirectoryIngestRequest → Action S (IngestError w) IngestPathResult
  ingest_directory r = do
    entries ← lift (
        map_err invalid_glob_pattern
          (env.glob (build_directory_pattern r.directory_path r.recursive r.glob_pattern)))
    ingest_found r (discover (detect_file_type w.u env.scheme) entries)

  unfoldable pub ingest_single_path : Text → Action S (IngestError w) IngestPathResult
  ingest_single_path file_path = do
    result ← ingest_file file_path
    pure (push_ingest_status env.show file_path (inl result) (empty_output 0))

  -- `ingest_path` of pipeline.rs
  unfoldable pub ingest_path : Text → Action S (IngestError w) IngestPathResult
  ingest_path path =
      if is_url (detect_file_type w.u env.scheme path) || env.is_file path
      then ingest_single_path path
      else if env.is_dir path
      then ingest_directory record {
        directory_path = path;
        recursive = true;
        glob_pattern = none;
        delete_removed = false;
      }
      else lift (failed (invalid_path path))
    where
      is_url : Option Text → Bool
      is_url none = false
      is_url (some t) = text_eq t (codes "url")
