-- ===== src/Ingest/Directory/Counts.antt =====
-- The counters of ingest/directory.rs against the statuses that it lists.
use wend_rag.Base.{ℕ, ◌+◌, List, [], ◌∷◌, Option, none, some, length, ◌≡◌, ◌≢◌}
use wend_rag.Base.Outcome.{Outcome, failed, stuck}
use wend_rag.Base.Text.{Text}
use wend_rag.Ingest.Types.{
  External, IngestError, database, updated, unchanged, ContentIngestRequest, IngestOptions,
  Services,
}
use wend_rag.Ingest.Pipeline.Refines.{Returns}
use wend_rag.Ingest.Output.{IngestPathResult}
use wend_rag.Ingest.Directory.{file_options, Surroundings}
use wend_rag.Store.Backend.{StorageBackend, Index, IsBackend}

abbrev pub total : IngestPathResult → ℕ
total out = out.added + out.updated + out.unchanged + out.deleted + out.failed

-- The counters count the listed documents and `n` more.
abbrev pub Balances : ℕ → IngestPathResult → Type 0
Balances n out = total out ≡ length out.documents + n

-- The scheduled tasks that panic.
abbrev pub lost : List (Option (ℕ × Text)) → ℕ
lost [] = 0
lost (none ∷ ts) = lost ts + 1
lost (some t ∷ ts) = lost ts

module _ (w : External) {S : Type 0} (db : StorageBackend S w.Database w.f32.F w.Community)
    (x : Services w) (o : IngestOptions w) (env : Surroundings w) (Valid : S → Type 0)
    (index : S → Index w.f32.F) (law : IsBackend db Valid index)
    (returns : (r : ContentIngestRequest) → Returns w db x (file_options w o) r)
    (reads : (path : Text) → env.read_source path ≢ stuck) where
  -- The counters while documents are deleted, the deletions still apart.
  abbrev Deleting : ℕ → IngestPathResult × ℕ → Type 0
  Deleting n out = (total out.0 + out.1 ≡ length (out.0).documents + n) × ((out.0).deleted ≡ 0)

  -- The documents were to be listed, and could not be.
  abbrev pub NotListed : IngestError w → S → Type 0
  NotListed e t = Valid t × ((d : w.Database) × (e ≡ database d))
