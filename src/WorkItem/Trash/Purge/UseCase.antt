-- ===== src/WorkItem/Trash/Purge/UseCase.antt =====
-- src/modules/project/usecases/work-item.usecase.ts: the requests that delete trashed work items
-- for good, and the run of the queued deletions after the transaction. `delete_object` and `clock`
-- are those of ObjectStorage/Deletion.antt.
use mathlib.Core.List.{reverse}
use prism_nestjs.Prelude.{
  ℕ, ◌+◌, ◌*◌, Bool, false, not, ◌&&◌, leb, if◌then◌else◌, Option, none, some, List, [], ◌∷◌,
  filter, ltb, map, length, ◌==◌,
}
use prism_nestjs.Prelude.Text.{Text}
use prism_nestjs.Prelude.Action.{
  Action, App, pure, throw, gets, or_throw, modify, run, publish, ◌>>=◌, ◌>>◌,
}
use prism_nestjs.ObjectStorage.Deletion.{Deletion, ObjectDeletionRow, process_deletion}
use prism_nestjs.WorkItem.Trash.{ItemRow, item_ids, is_trashed, has_no_trashed_parent}
use prism_nestjs.WorkItem.Trash.UseCase.{
  Db, Error, Event, project_not_found, work_item_not_found, work_item_deleted,
  find_project_by_id_and_member_user_id,
}
use prism_nestjs.WorkItem.Trash.Purge.{
  DocumentRow, Stored, Progress, purge_all, find_trashed_subtree_ids,
}

-- The tables of a purge; the items are those of the board.
pub record PurgeDb : Type 0 where
  pub board : Db
  pub documents : List DocumentRow
  pub deletions : List Deletion

abbrev pub PurgeApp : Type 0
PurgeApp = App PurgeDb Event

abbrev pub stored_of : PurgeDb → Stored
stored_of s = record { items = s.board.items; documents = s.documents; deletions = s.deletions }

abbrev pub with_stored : Stored → PurgeDb → PurgeDb
with_stored t s = record s {
  board = record s.board { items = t.items };
  documents = t.documents;
  deletions = t.deletions;
}

abbrev pub progress_of : (ℕ → ℕ) → ℕ → ℕ → ℕ → List ℕ → PurgeDb → Progress
progress_of fresh now id project ids s =
    purge_all fresh now id project [] ids
      (record { stored = stored_of s; removed = []; deletion_ids = [] })

module _ (fresh : ℕ → ℕ) (now : ℕ) where
  -- `deleteTrashedWorkItemRoots`.
  unfoldable pub delete_trashed_roots : ℕ → ℕ → List ℕ → Action PurgeDb Error Progress
  delete_trashed_roots id project ids = do
    g ← gets (progress_of fresh now id project ids)
    modify (with_stored g.stored)
    pure g

  -- The transaction of `permanentlyDeleteAuthorizedTrashedWorkItemRoots`.
  unfoldable pub delete_authorized_in : ℕ → ℕ → List ℕ → Action PurgeDb Error Progress
  unfolding delete_trashed_roots
  delete_authorized_in user project ids = do
    p ←
        or_throw (← gets (λ s. find_project_by_id_and_member_user_id project user s.board))
          project_not_found
    delete_trashed_roots p.workspace_id p.project_id ids

-- `wi.deleted_at < NOW() - make_interval(days => $3)`.
abbrev pub has_expired : ℕ → ℕ → Option ℕ → Bool
has_expired now days none = false
has_expired now days (some t) = ltb (t + days * 86400000) now

abbrev pub deleted_time : ItemRow → ℕ
deleted_time w = elim w.deleted_at [ none ↦ 0 | some t ↦ t ]

-- `ORDER BY wi.deleted_at, wi.item_id`, of trashed rows.
unfoldable pub comes_first : ItemRow → ItemRow → Bool
comes_first v w =
    if deleted_time v == deleted_time w
    then leb v.item_id w.item_id
    else ltb (deleted_time v) (deleted_time w)

unfoldable pub insert_item : ItemRow → List ItemRow → List ItemRow
unfolding comes_first
insert_item v [] = v ∷ []
insert_item v (w ∷ rows) = if comes_first v w then v ∷ w ∷ rows else w ∷ insert_item v rows

unfoldable pub sort_items : List ItemRow → List ItemRow
unfolding insert_item
sort_items [] = []
sort_items (v ∷ rows) = insert_item v (sort_items rows)

unfoldable pub find_expired_root_ids : ℕ → ℕ → ℕ → ℕ → List ItemRow → List ℕ
unfolding sort_items
find_expired_root_ids now days id project rows = item_ids (
    sort_items (
      filter
        (λ w.
          is_trashed id project w
          && has_expired now days w.deleted_at
          && has_no_trashed_parent rows w)
        rows))

-- A root of the trash as it is listed; the other columns are those of its row, its labels and its
-- assignees.
pub record TrashedItem : Type 0 where
  pub item : ItemRow
  pub descendant_count : ℕ

abbrev pub trashed_item : ℕ → ℕ → List ItemRow → ItemRow → TrashedItem
trashed_item id project rows w = record {
  item = w;
  descendant_count =
      length
        (filter (λ i. not (i == w.item_id)) (find_trashed_subtree_ids id project w.item_id rows));
}

-- `searchTrashedWorkItems` of the repository, `ORDER BY wi.deleted_at DESC, wi.item_id DESC`.
unfoldable pub list_trashed : ℕ → ℕ → List ItemRow → List TrashedItem
unfolding sort_items find_trashed_subtree_ids
list_trashed id project rows = map (trashed_item id project rows) (
    reverse
      (sort_items (filter (λ w. is_trashed id project w && has_no_trashed_parent rows w) rows)))

abbrev pub work_item_trash_retention_days : ℕ
work_item_trash_retention_days = 30

module _ (delete_object : ℕ → ObjectDeletionRow → Option Text) (clock : ℕ → ℕ) where
  -- `processObjectDeletions`.
  unfoldable pub process_deletions : List ℕ → List Deletion → List Deletion
  unfolding process_deletion
  process_deletions [] rows = rows
  process_deletions (d ∷ ids) rows =
      process_deletions ids (process_deletion delete_object clock d rows)

  abbrev pub processed : List ℕ → PurgeApp → PurgeApp
  processed ids app = record app {
    db = record app.db { deletions = process_deletions ids app.db.deletions };
  }

  module _ (fresh : ℕ → ℕ) (now : ℕ) where
    -- `permanentlyDeleteAuthorizedTrashedWorkItemRoots`.
    unfoldable pub delete_authorized : ℕ → ℕ → List ℕ → Action PurgeApp Error (List ℕ)
    unfolding delete_authorized_in process_deletions
    delete_authorized user project ids = do
      g ← run (delete_authorized_in fresh now user project ids)
      modify (processed g.deletion_ids)
      pure g.removed

    -- `permanentlyDeleteTrashedWorkItemRoots`.
    unfoldable pub delete_roots : ℕ → ℕ → List ℕ → Action PurgeApp Error (List ℕ)
    unfolding delete_trashed_roots process_deletions
    delete_roots id project [] = pure []
    delete_roots id project (i ∷ ids) = do
      g ← run (delete_trashed_roots fresh now id project (i ∷ ids))
      modify (processed g.deletion_ids)
      pure g.removed

    abbrev pub publish_removed : ℕ → List ℕ → Action PurgeApp Error (Unit {0})
    publish_removed project [] = pure tt
    publish_removed project (i ∷ ids) =
        publish (work_item_deleted project i) >>= λ _. publish_removed project ids

    abbrev pub publish_one : ℕ → ℕ → List ℕ → Action PurgeApp Error (Unit {0})
    publish_one project item [] = throw work_item_not_found
    publish_one project item (i ∷ ids) = publish (work_item_deleted project item)

    unfoldable pub permanently_delete_work_item : ℕ → ℕ → ℕ → Action PurgeApp Error (Unit {0})
    unfolding delete_authorized
    permanently_delete_work_item user project item =
        delete_authorized user project (item ∷ []) >>= publish_one project item

    unfoldable pub bulk_permanently_delete_work_items :
        ℕ → ℕ → List ℕ → Action PurgeApp Error (Unit {0})
    unfolding delete_authorized
    bulk_permanently_delete_work_items user project ids =
        delete_authorized user project ids >>= publish_removed project

    unfoldable pub search_trashed_work_items : ℕ → ℕ → Action PurgeApp Error (List TrashedItem)
    unfolding delete_roots find_expired_root_ids list_trashed
    search_trashed_work_items user project = do
      p ←
          or_throw (← gets (λ app. find_project_by_id_and_member_user_id project user app.db.board))
            project_not_found
      expired ← gets (λ app.
          find_expired_root_ids now work_item_trash_retention_days p.workspace_id p.project_id
            app.db.board.items)
      delete_roots p.workspace_id p.project_id expired
      gets (λ app. list_trashed p.workspace_id p.project_id app.db.board.items)
