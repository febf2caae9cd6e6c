-- ===== src/Store/Sqlite/Contract.antt =====
-- The tables of store/sqlite/mod.rs keep the contract of a storage backend.
use wend_rag.Base.{
  ℕ, List, [], ◌∷◌, Option, none, some, not, ◌==◌, filter, All-filter, ◌≡◌, refl, sym, ap, ◌∙◌,
  subst,
}
use wend_rag.Base.Action.{Ends}
use wend_rag.Base.Text.{Text}
use wend_rag.Store.Backend.{Matches, Same, SameBut, IsBackend}
use wend_rag.Entity.Document.{DocumentEntityGraph}
use wend_rag.Store.EntityTables.{
  EntityTables, CommunityWithSummary, write_graph, store_all_communities, remove_communities,
}
use wend_rag.Store.EntityTables.{forget_chunks}
use wend_rag.Store.EntityTables.References.{
  OnSome, HasReferences, forget_chunks-HasReferences, prune_orphan_entities-HasReferences,
}
use wend_rag.Store.EntityTables.Kept.{
  write_graph-HasReferences, store_all_communities-HasReferences, remove_communities-HasReferences,
}
use wend_rag.Store.Sqlite.{
  DocumentRow, Tables, find_document, map_document_row, map_found, is_of, get_document_by_path,
  sqlite_backend, reach, commit_graph, has_chunk, replace_document_entity_graph,
  delete_project_communities, save_communities, remove_document, delete_document, list_documents,
}
use wend_rag.Store.Sqlite.Rows.{
  find-Only, find-filter, filter-HasUniqueIds, Only, Apart, find-Apart,
}
use wend_rag.Store.Sqlite.Chunks.{stored_chunks-kept}
use wend_rag.Store.Sqlite.Index.{entry_for, index, IsWellFormed, reach-Ends, Entry_eq}
use wend_rag.Store.Sqlite.Writes.{upserts_lem, replaces_lem}

module _ {F : Type 0} where
  looks_up_lem :
      (path : Text) (s : Tables F)
      → IsWellFormed s
      → Ends
          (λ d t. IsWellFormed t × Same (index s) (index t) × Matches (index s path) d)
          (λ e t. IsWellFormed t × Same (index s) (index t))
          (get_document_by_path path s)
  unfolding get_document_by_path
  looks_up_lem path s v =
      reach-Ends _ _ _ s s.reached (v, (λ p. refl), found (find_document path s.documents))
        (λ cs. (v, (λ p. refl), found (find_document path s.documents))) (λ cs. (v, λ p. refl))
    where
      found : (o : Option DocumentRow) → Matches (entry_for s.chunks o) (map_found o)
      found none = unfold map_found in tt
      found (some d) = unfold map_found in unfold map_document_row in (refl, refl)

  removed_lem :
      (path : Text) (o : Option DocumentRow) (s : Tables F)
      → IsWellFormed s
      → find_document path s.documents ≡ o
      → Ends
          (λ r t. IsWellFormed t × SameBut path (index s) (index t))
          (λ e t. IsWellFormed t × Same (index s) (index t))
          (remove_document s o)
  unfolding remove_document
  removed_lem path none s v at = (v, λ p n. refl)
  removed_lem path (some d) s v at =
      let only = subst (λ o. Only path o s.documents) at (find-Only path s.documents v.2) in
      (
        (
          All-filter _ (λ e. not (e.id == d.id)) s.documents v.0,
          All-filter _ (λ c. not (is_of d.id c)) s.chunks v.1,
          filter-HasUniqueIds (λ e. not (e.id == d.id)) s.documents v.2,
          prune_orphan_entities-HasReferences (forget_chunks d.id s.graph)
              (forget_chunks-HasReferences d.id s.graph v.3),
        ),
        (λ p n.
            let apart =
              subst (λ o. Apart o (find_document p s.documents)) at
                (find-Apart path p s.documents (λ q. n (sym q)) v.2) in
            ap (entry_for _) (find-filter p path d.id s.documents n only)
            ∙ kept (find_document p s.documents) apart),
      )
    where
      kept :
          (o : Option DocumentRow)
          → Apart (some d) o
          → entry_for (filter (λ c. not (is_of d.id c)) s.chunks) o ≡ entry_for s.chunks o
      kept none a = refl
      kept (some f) a = Entry_eq _ _ refl refl (stored_chunks-kept f.id d.id s.chunks a)

  deletes_lem :
      (path : Text) (s : Tables F)
      → IsWellFormed s
      → Ends
          (λ r t. IsWellFormed t × SameBut path (index s) (index t))
          (λ e t. IsWellFormed t × Same (index s) (index t))
          (delete_document path s)
  unfolding delete_document
  deletes_lem path s v =
      let found = find_document path s.documents in
      reach-Ends _ _ _ s s.reached (removed_lem path found s v refl)
        (λ cs. removed_lem path found (record s { reached = cs }) v refl) (λ cs. (v, λ p. refl))

  lists_lem :
      (s : Tables F)
      → IsWellFormed s
      → Ends
          (λ ps t. IsWellFormed t × Same (index s) (index t))
          (λ e t. IsWellFormed t × Same (index s) (index t))
          (list_documents s)
  unfolding list_documents
  lists_lem s v =
      reach-Ends _ _ _ s s.reached (v, λ p. refl) (λ cs. (v, λ p. refl)) (λ cs. (v, λ p. refl))

  -- A transaction on the tables of entities and communities changes no document and no chunk.
  commit_graph-Ends :
      {A : Type 0} (a : A) (g : Option (EntityTables F)) (s : Tables F)
      → IsWellFormed s
      → OnSome HasReferences g
      → Ends
          (λ b t. IsWellFormed t × Same (index s) (index t))
          (λ e t. IsWellFormed t × Same (index s) (index t))
          (commit_graph a g s)
  unfolding commit_graph
  commit_graph-Ends a none s v r = (v, λ p. refl)
  commit_graph-Ends a (some g) s v r = ((v.0, v.1, v.2, r), λ p. refl)

  reach-commit_graph :
      {A : Type 0} (a : A) (g : Tables F → Option (EntityTables F)) (s : Tables F)
      → IsWellFormed s
      → ((t : Tables F) → HasReferences t.graph → OnSome HasReferences (g t))
      → Ends
          (λ b t. IsWellFormed t × Same (index s) (index t))
          (λ e t. IsWellFormed t × Same (index s) (index t))
          (reach (λ t. commit_graph a (g t) t) s s.reached)
  reach-commit_graph a g s v keeps =
      reach-Ends _ _ (λ t. commit_graph a (g t) t) s s.reached
        (commit_graph-Ends a (g s) s v (keeps s v.3))
        (λ cs. let t = record s { reached = cs } in commit_graph-Ends a (g t) t v (keeps t v.3))
        (λ cs. (v, λ p. refl))

  stores_graph_lem :
      (id : ℕ) (graph : DocumentEntityGraph F) (s : Tables F)
      → IsWellFormed s
      → Ends
          (λ g t. IsWellFormed t × Same (index s) (index t))
          (λ e t. IsWellFormed t × Same (index s) (index t))
          (replace_document_entity_graph id graph s)
  unfolding replace_document_entity_graph
  stores_graph_lem id graph s v =
      reach-commit_graph graph (λ t. write_graph (has_chunk t.chunks id) id t.clock graph t.graph) s
        v (λ t h. write_graph-HasReferences (has_chunk t.chunks id) id t.clock graph t.graph h)

  clears_communities_lem :
      (project : Option Text) (s : Tables F)
      → IsWellFormed s
      → Ends
          (λ u t. IsWellFormed t × Same (index s) (index t))
          (λ e t. IsWellFormed t × Same (index s) (index t))
          (delete_project_communities project s)
  unfolding delete_project_communities
  clears_communities_lem project s v =
      reach-commit_graph tt (λ t. some (remove_communities project t.graph)) s v
        (λ t h. remove_communities-HasReferences project t.graph h)

  saves_communities_lem :
      (project : Option Text) (cs : List (CommunityWithSummary F)) (s : Tables F)
      → IsWellFormed s
      → Ends
          (λ u t. IsWellFormed t × Same (index s) (index t))
          (λ e t. IsWellFormed t × Same (index s) (index t))
          (save_communities project cs s)
  unfolding save_communities
  saves_communities_lem project [] s v = (v, λ p. refl)
  saves_communities_lem project (c ∷ cs) s v =
      reach-commit_graph tt (λ t. store_all_communities project t.clock (c ∷ cs) t.graph) s v
        (λ t h. store_all_communities-HasReferences project t.clock (c ∷ cs) t.graph h)

  -- The SQLite tables implement the map from paths to entries that the ingestion relies on: from a
  -- well-formed state every call of the contract ends in a well-formed state, does to the entries
  -- what the contract says when it succeeds, and changes none when it fails. In a well-formed state
  -- the documents have distinct identifiers, and the mentions, the relationships and the members of
  -- communities refer to entities and communities that are there.
  pub sqlite_backend-IsBackend : IsBackend (sqlite_backend F) IsWellFormed index
  sqlite_backend-IsBackend = record {
    looks_up = looks_up_lem;
    upserts = upserts_lem;
    replaces = replaces_lem;
    stores_graph = stores_graph_lem;
    clears_communities = clears_communities_lem;
    saves_communities = saves_communities_lem;
    lists = lists_lem;
    deletes = deletes_lem;
  }
