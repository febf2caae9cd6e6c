-- ===== src/Lib.antt =====
-- wendRAG, a retrieval service: documents are read, cut into chunks, embedded and stored; a query is
-- routed, searched in several ways and its ranked lists merged; sessions and memories are kept
-- beside it, and bearer tokens guard its HTTP transport. The library models the pure core of these
-- parts, each function as the source has it.
--
-- Ingest (src/ingest): Sections is chunker_sections.rs, from the events of the Markdown parser and
-- from plain text; Sentences, Window and Semantic are chunker_semantic.rs: sentence boundaries,
-- overlapping windows of characters, and the split at gaps of low similarity with its forced breaks;
-- Chunker is chunker.rs, which calls all of them on every section and numbers the chunks; UrlGuard
-- is the address check of url.rs. Types is types.rs, Pipeline is `ingest_content` of pipeline.rs as calls
-- on a storage backend that may each fail, Output and Directory are directory.rs with `ingest_file` and
-- `ingest_path` of pipeline.rs, and Reader the path check and the type detection of reader.rs.
-- Memory (src/memory): Types is types.rs, Buffer is buffer.rs, the messages of one session.
-- Auth (src/auth.rs): Keys makes, hashes and compares keys, Store is `KeyStore`, Access is
-- `Authenticator`.
-- Retrieve (src/retrieve): Router is router.rs, Fusion is fusion.rs, Branches is dense.rs, sparse.rs
-- and community.rs, and Hybrid is hybrid.rs, which merges the branches that the store found.
-- Store (src/store): TextUtil is sqlite/text_util.rs, Backend is the trait of mod.rs with the
-- contract that the ingestion relies on, Sqlite the tables of documents and chunks of
-- sqlite/mod.rs, and EntityTables those of entities and communities, sqlite/entity_graph.rs and
-- sqlite/community.rs.
-- Entity (src/entity): Normalize is normalize.rs, Graph and Document are graph_build.rs, the merging
-- of relationships and the graph of a whole document, and Community is community.rs, the clustering
-- of that graph.
-- The ingestion and the storage meet in `StorageBackend`: Pipeline and Directory take one as a parameter
-- with its laws `IsBackend`, and Sqlite fills both. The hybrid search asks a `SearchBackend`, merges
-- with Fusion and leaves the searches themselves to the database.
-- Base holds what they share: lists and Boolean tests over the native numbers, texts as lists of code
-- points with the methods of `str`, sorting, integers, and interfaces for character tables and
-- floating-point numbers; Action is a call that changes a state and may fail. Tests applies the
-- theorems to concrete inputs.
--
-- Parameters, since they are not part of the program or only reach a service: the embedder and the
-- entity extractor, the Markdown parser, SHA-256 and the system's random generator, the tables of
-- Unicode, the textual form of IP addresses, which of two failed tasks failed first, the file
-- system and JSON, the order in which a hash map is gone through, and the arithmetic of
-- floating-point numbers, but for the router, whose `f32` scores are computed exactly. The clock is
-- an argument.
--
-- Loops run on fuel where their position is computed: `window_loop` and `max_loop` get one round more
-- than there are characters or sentences, `forced_loop` one more than there are similarities; the
-- theorems that say such a function returns show that this is enough. `round` doubles its unit at
-- most forty times, enough for numbers below 2 ^ 64.
--
-- The passes and iterations of the clustering are bounded in the source; the model counts them down.
--
-- Not modelled: the second database, the searches in SQL, the HTTP clients and
-- servers, the parsers of file formats, the command line and logging, which only move data; the
-- overlap of tasks that run at one time; and, so far, the memory manager, the summaries of
-- communities and the configuration.
pub mod Base
pub mod Ingest
pub mod Memory
pub mod Auth
pub mod Retrieve
pub mod Store
pub mod Entity
pub mod Tests
