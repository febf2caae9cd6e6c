-- ===== src/Ingest/Output.antt =====
-- ingest/directory.rs: the files that are found, the counters and statuses of a run, and which documents
-- are orphans.
use wend_rag.Base.{
  ℕ, ◌+◌, List, [], ◌∷◌, ◌++◌, Option, none, some, Bool, not, ◌&&◌, ◌==◌, leb, any, map,
  if◌then◌else◌, inl, inr, ◌⊎◌,
}
use wend_rag.Base.Sort.{sort}
use wend_rag.Base.Text.{Text, codes, text_eq, starts_with, ends_with}
use wend_rag.Ingest.Types.{IngestStatus, created, updated, unchanged, status_text, IngestResult}

pub record IngestDocumentStatus : Type 0 where
  pub file_path : Text
  pub status : Text

pub record IngestPathResult : Type 0 where
  pub added : ℕ
  pub updated : ℕ
  pub unchanged : ℕ
  pub deleted : ℕ
  pub failed : ℕ
  pub documents : List IngestDocumentStatus

pub record DirectoryIngestRequest : Type 0 where
  pub directory_path : Text
  pub recursive : Bool
  pub glob_pattern : Option Text
  pub delete_removed : Bool

-- An entry that `glob` yields.
pub data GlobEntry : Type 0 where
  file : Text → GlobEntry
  other : GlobEntry
  unreadable : GlobEntry

-- A task that was joined: its index, its path and its result, unless it panicked.
pub data Joined (E : Type 0) : Type 0 where
  returned : ℕ → Text → IngestResult ⊎ E → Joined E
  panicked : Joined E

unfoldable pub build_directory_pattern : Text → Bool → Option Text → Text
build_directory_pattern directory_path recursive none =
    directory_path ++ (if recursive then codes "/**/*" else codes "/*")
build_directory_pattern directory_path recursive (some pattern) =
    directory_path ++ (if recursive then codes "/**/" else codes "/") ++ pattern

-- The files of a supported type, and how many entries were unreadable.
unfoldable pub discover : (Text → Option Text) → List GlobEntry → List Text × ℕ
discover detect [] = ([], 0)
discover detect (file path ∷ entries) =
    let rest = discover detect entries in
    elim (detect path) [ none ↦ rest | some t ↦ (path ∷ rest.0, rest.1) ]
discover detect (other ∷ entries) = discover detect entries
discover detect (unreadable ∷ entries) = let rest = discover detect entries in (rest.0, rest.1 + 1)

unfoldable pub enumerate_from : ℕ → List Text → List (ℕ × Text)
enumerate_from i [] = []
enumerate_from i (p ∷ ps) = (i, p) ∷ enumerate_from (i + 1) ps

abbrev pub empty_output : ℕ → IngestPathResult
empty_output glob_failures = record {
  added = 0;
  updated = 0;
  unchanged = 0;
  deleted = 0;
  failed = glob_failures;
  documents = [];
}

abbrev pub push_document : Text → Text → IngestPathResult → IngestPathResult
push_document file_path status output = record output {
  documents = output.documents ++ record { file_path = file_path; status = status } ∷ [];
}

unfoldable pub count_status : IngestStatus → IngestPathResult → IngestPathResult
count_status created output = record output { added = output.added + 1 }
count_status updated output = record output { updated = output.updated + 1 }
count_status unchanged output = record output { unchanged = output.unchanged + 1 }

-- `'\\'` becomes `'/'`.
unfoldable pub forward_slashes : Text → Text
forward_slashes s = map (λ c. if c == 92 then 47 else c) s

unfoldable pub normalize_dir_prefix : Text → Text
normalize_dir_prefix directory_path =
    let normalized = forward_slashes directory_path in
    if ends_with normalized (codes "/") then normalized else normalized ++ codes "/"

-- Below the directory, and not among the files that were found.
unfoldable pub is_orphan : Text → List Text → Text → Bool
is_orphan directory_path discovered path =
    let normalized = forward_slashes path in
    starts_with normalized (normalize_dir_prefix directory_path)
    && not (any (λ f. text_eq (forward_slashes f) normalized) discovered)

module _ {E : Type 0} (show : E → Text) where
  unfoldable pub push_ingest_status : Text → IngestResult ⊎ E → IngestPathResult → IngestPathResult
  push_ingest_status path (inl result) output =
      push_document path (status_text result.status) (count_status result.status output)
  push_ingest_status path (inr error) output =
      push_document path (codes "error: " ++ show error)
        (record output { failed = output.failed + 1 })

  unfoldable pub panics : List (Joined E) → ℕ
  panics [] = 0
  panics (returned i p r ∷ js) = panics js
  panics (panicked ∷ js) = panics js + 1

  unfoldable pub results_of : List (Joined E) → List (ℕ × Text × (IngestResult ⊎ E))
  results_of [] = []
  results_of (returned i p r ∷ js) = (i, p, r) ∷ results_of js
  results_of (panicked ∷ js) = results_of js

  unfoldable pub push_all :
      List (ℕ × Text × (IngestResult ⊎ E)) → IngestPathResult → IngestPathResult
  push_all [] output = output
  push_all (r ∷ rs) output = push_all rs (push_ingest_status r.1 r.2 output)

  -- The output for the joined tasks, in the order of their indices.
  unfoldable pub output_of : ℕ → List (Joined E) → IngestPathResult
  output_of glob_failures joined =
      push_all (sort (λ a b. leb a.0 b.0) (results_of joined))
        (empty_output (glob_failures + panics joined))
