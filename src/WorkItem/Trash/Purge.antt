-- ===== src/WorkItem/Trash/Purge.antt =====
-- src/modules/project/usecases/work-item.usecase.ts: the permanent deletion of trashed work items,
-- with the documents that they brought (src/modules/document/repository/document.repository.ts)
-- and the queue of stored objects. The key of a queued deletion is an argument, by its document.
pub mod Kept
pub mod UseCase
pub mod Requests
use prism_nestjs.Prelude.{
  ℕ, Bool, true, false, not, ◌&&◌, Option, none, some, List, [], ◌∷◌, ◌++◌, map, any, filter, ◌==◌,
  if◌then◌else◌,
}
use prism_nestjs.Prelude.Text.{Text, codes}
use prism_nestjs.ObjectStorage.Deletion.{Deletion, enqueue}
use prism_nestjs.WorkItem.Trash.{
  ItemRow, in_project, is_trashed, mem, subtree, seeds, find_trashed_root_by_id,
}

-- The columns of prism_documents_l; `from_item` is `source_kind = 'work_item'`.
pub record DocumentRow : Type 0 where
  pub document_id : ℕ
  pub workspace_id : ℕ
  pub project_id : ℕ
  pub from_item : Bool
  pub source_work_item_id_snapshot : Option ℕ
  pub storage_object_name : Text
  pub storage_version_id : Option Text

pub record Stored : Type 0 where
  pub items : List ItemRow
  pub documents : List DocumentRow
  pub deletions : List Deletion

-- The tables with what `deleteTrashedWorkItemRoots` collects.
pub record Progress : Type 0 where
  pub stored : Stored
  pub removed : List ℕ
  pub deletion_ids : List ℕ

-- `findTrashedWorkItemSubtreeIds`. From a root, UNION ALL finds each item once, as UNION does: an
-- item has one parent, and that of the root is not in the trash.
unfoldable pub find_trashed_subtree_ids : ℕ → ℕ → ℕ → List ItemRow → List ℕ
unfolding subtree
find_trashed_subtree_ids id project item rows =
    subtree (is_trashed id project) rows (seeds (is_trashed id project) rows (item ∷ []))

-- The rows that the deletion of an item takes along: fk_work_items_parent, ON DELETE CASCADE.
unfoldable pub cascade_ids : ℕ → ℕ → ℕ → List ItemRow → List ℕ
unfolding subtree
cascade_ids id project item rows =
    subtree (in_project id project) rows (seeds (in_project id project) rows (item ∷ []))

unfoldable pub delete_item : ℕ → ℕ → ℕ → List ItemRow → List ItemRow
unfolding cascade_ids
delete_item id project item rows =
    filter (λ w. not (mem w.item_id (cascade_ids id project item rows))) rows

abbrev pub source_in : List ℕ → Option ℕ → Bool
source_in ids none = false
source_in ids (some i) = mem i ids

abbrev pub is_source : ℕ → ℕ → List ℕ → DocumentRow → Bool
is_source id project ids d =
    (d.workspace_id == id)
    && (d.project_id == project)
    && d.from_item
    && source_in ids d.source_work_item_id_snapshot

-- The rows returned, and those that are left.
unfoldable pub delete_documents_by_source :
    ℕ → ℕ → List ℕ → List DocumentRow → List DocumentRow × List DocumentRow
delete_documents_by_source id project ids documents = (
  filter (is_source id project ids) documents,
  filter (λ d. not (is_source id project ids d)) documents,
)

module _ (fresh : ℕ → ℕ) (now : ℕ) where
  unfoldable pub enqueue_documents : List DocumentRow → List Deletion → List Deletion
  unfolding enqueue
  enqueue_documents [] rows = rows
  enqueue_documents (d ∷ documents) rows = enqueue_documents documents (
      enqueue (fresh d.document_id) now
        (record {
          bucket_kind = codes "documents";
          object_name = d.storage_object_name;
          storage_version_id = d.storage_version_id;
          reason = codes "work_item_permanently_deleted";
        })
        rows)

  -- The body of the loop of `deleteTrashedWorkItemRoots`, for a root.
  unfoldable pub purge : ℕ → ℕ → ℕ → Stored → Stored
  unfolding find_trashed_subtree_ids delete_documents_by_source enqueue_documents delete_item
  purge id project item s =
      let ids = find_trashed_subtree_ids id project item s.items in
      let (deleted, kept) = delete_documents_by_source id project ids s.documents in
      record {
        items = delete_item id project item s.items;
        documents = kept;
        deletions = enqueue_documents deleted s.deletions;
      }

  -- The keys of the deletions that it queues.
  unfoldable pub queued_by : ℕ → ℕ → ℕ → Stored → List ℕ
  unfolding find_trashed_subtree_ids delete_documents_by_source
  queued_by id project item s =
      let ids = find_trashed_subtree_ids id project item s.items in
      map (λ d. fresh d.document_id) (delete_documents_by_source id project ids s.documents).0

  abbrev pub purge_if_root : ℕ → ℕ → ℕ → Option ItemRow → Progress → Progress
  purge_if_root id project item none g = g
  purge_if_root id project item (some r) g = record {
    stored = purge id project item g.stored;
    removed = g.removed ++ item ∷ [];
    deletion_ids = g.deletion_ids ++ queued_by id project item g.stored;
  }

  -- The loop over the distinct ids; `seen` are those before.
  unfoldable pub purge_all : ℕ → ℕ → List ℕ → List ℕ → Progress → Progress
  unfolding purge queued_by
  purge_all id project seen [] g = g
  purge_all id project seen (i ∷ ids) g =
      let root = find_trashed_root_by_id id project i g.stored.items in
      let next = purge_if_root id project i root g in
      if mem i seen
      then purge_all id project seen ids g
      else purge_all id project (i ∷ seen) ids next
