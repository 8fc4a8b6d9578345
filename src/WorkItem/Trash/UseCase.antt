-- ===== src/WorkItem/Trash/UseCase.antt =====
-- src/modules/project/usecases/work-item.usecase.ts: the requests that move work items to the trash
-- and back. The detail of a restored item is its row.
use prism_nestjs.Prelude.{ℕ, Bool, not, ◌&&◌, Option, none, some, List, [], ◌∷◌, any, find, ◌==◌}
use prism_nestjs.Prelude.Action.{
  Action, App, pure, throw, gets, or_throw, modify, run, publish, ◌>>=◌, ◌>>◌,
}
use prism_nestjs.Tables.{WorkspaceRow, MemberRow, is_live, is_membership}
use prism_nestjs.WorkItem.Trash.{
  ItemRow, soft_delete_with_descendants, restore_with_descendants, find_trashed_root_by_id,
  find_work_item_by_id,
}

pub record ProjectRow : Type 0 where
  pub project_id : ℕ
  pub workspace_id : ℕ
  pub is_archived : Bool

pub record Db : Type 0 where
  pub projects : List ProjectRow
  pub workspaces : List WorkspaceRow
  pub members : List MemberRow
  pub items : List ItemRow

pub data Error : Type 0 where
  project_not_found work_item_not_found : Error

-- `publishWorkItemDeleted` and `publishWorkItemCreated`.
pub data Event : Type 0 where
  work_item_deleted : ℕ → ℕ → Event
  work_item_created : ItemRow → Event

abbrev pub TrashApp : Type 0
TrashApp = App Db Event

abbrev pub is_open_to : ℕ → ℕ → Db → ProjectRow → Bool
is_open_to project user db p =
    (p.project_id == project)
    && not p.is_archived
    && any (is_live p.workspace_id) db.workspaces
    && any (is_membership p.workspace_id user) db.members

unfoldable pub find_project_by_id_and_member_user_id : ℕ → ℕ → Db → Option ProjectRow
find_project_by_id_and_member_user_id project user db =
    find (is_open_to project user db) db.projects

-- The requested ids that are live.
abbrev pub live_ids : ProjectRow → List ℕ → Db → List ℕ
live_ids p [] db = []
live_ids p (i ∷ ids) db =
    let rest = live_ids p ids db in
    elim (find_work_item_by_id p.workspace_id p.project_id i db.items) [
      | none ↦ rest
      | some w ↦ w.item_id ∷ rest
    ]

abbrev pub soft_delete_roots : ℕ → ProjectRow → List ℕ → Action Db Error (List ℕ)
soft_delete_roots now p [] = pure []
soft_delete_roots now p (i ∷ ids) = do
  modify (λ db. record db {
    items = soft_delete_with_descendants now p.workspace_id p.project_id (i ∷ ids) db.items;
  })
  pure (i ∷ ids)

-- `trashWorkItems`, the function given to its transaction.
unfoldable pub trash_work_items : ℕ → ℕ → ℕ → List ℕ → Action Db Error (List ℕ)
trash_work_items now user project ids = do
  p ← or_throw (← gets (find_project_by_id_and_member_user_id project user)) project_not_found
  roots ← gets (live_ids p ids)
  soft_delete_roots now p roots

abbrev pub publish_deleted : ℕ → List ℕ → Action TrashApp Error (Unit {0})
publish_deleted project [] = pure tt
publish_deleted project (i ∷ ids) =
    publish (work_item_deleted project i) >>= λ _. publish_deleted project ids

-- What `deleteWorkItem` and `bulkDeleteWorkItems` do with the roots.
abbrev pub announce_deleted : ℕ → List ℕ → Action TrashApp Error (Unit {0})
announce_deleted project [] = throw work_item_not_found
announce_deleted project (i ∷ ids) = publish_deleted project (i ∷ ids)

unfoldable pub bulk_delete_work_items : ℕ → ℕ → ℕ → List ℕ → Action TrashApp Error (Unit {0})
unfolding trash_work_items
bulk_delete_work_items now user project ids =
    run (trash_work_items now user project ids) >>= announce_deleted project

abbrev pub delete_work_item : ℕ → ℕ → ℕ → ℕ → Action TrashApp Error (Unit {0})
delete_work_item now user project item = bulk_delete_work_items now user project (item ∷ [])

abbrev pub restore_items : ProjectRow → ℕ → Action Db Error (Unit {0})
restore_items p item =
    modify
      λ db. record db { items = restore_with_descendants p.workspace_id p.project_id item db.items }

-- The function that `restoreWorkItem` gives to its transaction.
unfoldable pub restore_in : ℕ → ℕ → ℕ → Action Db Error ItemRow
restore_in user project item = do
  p ← or_throw (← gets (find_project_by_id_and_member_user_id project user)) project_not_found
  root ←
      or_throw (← gets (λ db. find_trashed_root_by_id p.workspace_id p.project_id item db.items))
        work_item_not_found
  restore_items p item
  or_throw (← gets (λ db. find_work_item_by_id p.workspace_id p.project_id item db.items))
      work_item_not_found

unfoldable pub restore_work_item : ℕ → ℕ → ℕ → Action TrashApp Error ItemRow
unfolding restore_in
restore_work_item user project item = do
  restored ← run (restore_in user project item)
  publish (work_item_created restored)
  pure restored

abbrev pub push_detail : Option ItemRow → List ItemRow → List ItemRow
push_detail none rest = rest
push_detail (some w) rest = w ∷ rest

abbrev pub details :
    ProjectRow → ℕ → Action Db Error (List ItemRow) → Action Db Error (List ItemRow)
details p item next = do
  restore_items p item
  detail ← gets (λ db. find_work_item_by_id p.workspace_id p.project_id item db.items)
  rest ← next
  pure (push_detail detail rest)

abbrev pub restore_if_root :
    ProjectRow
    → ℕ
    → Option ItemRow
    → Action Db Error (List ItemRow)
    → Action Db Error (List ItemRow)
restore_if_root p item none next = next
restore_if_root p item (some w) next = details p item next

-- The loop of `bulkRestoreWorkItems`: an id that is no root is passed over.
unfoldable pub restore_all : ProjectRow → List ℕ → Action Db Error (List ItemRow)
restore_all p [] = pure []
restore_all p (i ∷ ids) =
    gets (λ db. find_trashed_root_by_id p.workspace_id p.project_id i db.items) >>= λ root.
    restore_if_root p i root (restore_all p ids)

unfoldable pub bulk_restore_in : ℕ → ℕ → List ℕ → Action Db Error (List ItemRow)
unfolding restore_all
bulk_restore_in user project ids = do
  p ← or_throw (← gets (find_project_by_id_and_member_user_id project user)) project_not_found
  restore_all p ids

abbrev pub publish_created : List ItemRow → Action TrashApp Error (Unit {0})
publish_created [] = pure tt
publish_created (w ∷ rows) = publish (work_item_created w) >>= λ _. publish_created rows

unfoldable pub bulk_restore_work_items : ℕ → ℕ → List ℕ → Action TrashApp Error (List ItemRow)
unfolding bulk_restore_in
bulk_restore_work_items user project ids = do
  restored ← run (bulk_restore_in user project ids)
  publish_created restored
  pure restored
