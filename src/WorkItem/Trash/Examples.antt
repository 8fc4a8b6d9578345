-- ===== src/WorkItem/Trash/Examples.antt =====
-- The theorems on the trash at concrete inputs, and runs of the code.
use prism_nestjs.Prelude.{
  ℕ, ◌≡◌, refl, ◌↔◌, true, false, Option, none, some, List, [], ◌∷◌, ◌+◌, ◌*◌, map, arith,
}
use prism_nestjs.Prelude.Text.{Text, codes}
use prism_nestjs.Tables.{Role}
use prism_nestjs.WorkItem.Trash.{
  ItemRow, mem, is_live, subtree, soft_delete_with_descendants, find_trashed_root_by_id,
}
use prism_nestjs.WorkItem.Trash.Exact.{Below, Moved, moves_exactly}
use prism_nestjs.WorkItem.Trash.{restore_with_descendants}
use prism_nestjs.WorkItem.Trash.UseCase.{Db, TrashApp}
use prism_nestjs.WorkItem.Trash.Purge.{
  Stored, Progress, purge_all, cascade_ids, find_trashed_subtree_ids,
}
use prism_nestjs.WorkItem.Trash.Purge.Kept.{Spared, cascade_iff}
use prism_nestjs.WorkItem.Trash.Purge.UseCase.{
  PurgeApp, list_trashed, find_expired_root_ids, work_item_trash_retention_days,
}
use prism_nestjs.WorkItem.Trash.Purge.Requests.{act-Spared}
use prism_nestjs.WorkItem.Trash.Purge
use prism_nestjs.ObjectStorage.Deletion.{ObjectDeletionRow}
use prism_nestjs.WorkItem.Trash.Requests.{delete, act, TidyApp, act-IsTidy}
use prism_nestjs.WorkItem.Trash.Tidy.{IsTidy}

abbrev item : ℕ → Option ℕ → ItemRow
item i parent = record {
  item_id = i;
  workspace_id = 1;
  project_id = 5;
  parent_id = parent;
  deleted_at = none;
}

-- 20 has the children 21 and 22; 23 stands alone.
abbrev board : List ItemRow
board = item 20 none ∷ item 21 (some 20) ∷ item 22 (some 20) ∷ item 23 none ∷ []

abbrev db : List ItemRow → Db
db rows = record {
  projects = record { project_id = 5; workspace_id = 1; is_archived = false } ∷ [];
  workspaces = record { workspace_id = 1; deleted_at = none; is_active = true } ∷ [];
  members = record { workspace_id = 1; user_id = 7; role = Role.member } ∷ [];
  items = rows;
}

abbrev app : TrashApp
app = record { db = db board; published = [] }

board-IsTidy : IsTidy board
board-IsTidy = ((refl, (refl, (refl, (refl, tt)))), λ id project. ground arith)

act-IsTidy_example : TidyApp (act (delete 900 7 5 (20 ∷ [])) app).1
act-IsTidy_example = act-IsTidy (delete 900 7 5 (20 ∷ [])) app board-IsTidy

moves_exactly_example :
    Moved
      (Below false 1 5 board (20 ∷ []))
      (some 900)
      board
      (soft_delete_with_descendants 900 1 5 (20 ∷ []) board)
    × Moved (Below true 1 5 board (20 ∷ [])) none board (restore_with_descendants 1 5 20 board)
moves_exactly_example = moves_exactly 900 1 5 20 (20 ∷ []) board

descendants : subtree (is_live 1 5) board (20 ∷ []) ≡ 20 ∷ 21 ∷ 22 ∷ []
unfolding subtree
descendants = refl

-- The same items, those with 20 on top in the trash; 21 has brought a document.
abbrev stored : Stored
stored = record {
  items =
      record (item 20 none) { deleted_at = some 900 }
      ∷ record (item 21 (some 20)) { deleted_at = some 900 }
      ∷ item 23 none
      ∷ [];
  documents =
      record {
        document_id = 50;
        workspace_id = 1;
        project_id = 5;
        from_item = true;
        source_work_item_id_snapshot = some 21;
        storage_object_name = codes "docs/50";
        storage_version_id = none;
      }
      ∷ [];
  deletions = [];
}

stored-IsTidy : IsTidy stored.items
stored-IsTidy = ((refl, (refl, (refl, tt))), λ id project. ground arith)

abbrev key : ℕ → ℕ
key document = document + 1000

abbrev untouched : Progress
untouched = record { stored = stored; removed = []; deletion_ids = [] }

abbrev app_stored : PurgeApp
app_stored = record {
  db = record { board = db stored.items; documents = stored.documents; deletions = [] };
  published = [];
}

abbrev gone : ℕ → ObjectDeletionRow → Option Text
gone now d = none

abbrev request : Purge.Requests.Request
request = Purge.Requests.delete 7 5 (20 ∷ 23 ∷ [])

act-Spared_example :
    Spared stored.items (Purge.Requests.act gone key key 1000 request app_stored).1.db.board.items
act-Spared_example = act-Spared gone key key 1000 request app_stored stored-IsTidy

-- The listing of the trash purges the root thirty days later, and no earlier.
expired :
    (find_expired_root_ids (900 + 30 * 86400000 + 1) work_item_trash_retention_days 1 5 stored.items
      ≡ 20 ∷ [])
    × (find_expired_root_ids (900 + 30 * 86400000) work_item_trash_retention_days 1 5 stored.items
        ≡ [])
unfolding find_expired_root_ids
expired = (refl, refl)

-- A root is listed with the number of items below it.
listed :
    list_trashed 1 5 stored.items
    ≡ record { item = record (item 20 none) { deleted_at = some 900 }; descendant_count = 1 } ∷ []
unfolding list_trashed
listed = refl

cascade_iff_example :
    (mem 21 (cascade_ids 1 5 20 stored.items) ≡ true)
    ↔ (mem 21 (find_trashed_subtree_ids 1 5 20 stored.items) ≡ true)
unfolding find_trashed_root_by_id
cascade_iff_example =
    cascade_iff 1 5 20 stored.items (record (item 20 none) { deleted_at = some 900 }) refl
      (stored-IsTidy.1 1 5) 21

-- The root goes once, and the object of the document is queued.
purged :
    let g = purge_all key 1000 1 5 [] (20 ∷ 23 ∷ 20 ∷ []) untouched in
    (g.removed ≡ 20 ∷ [])
    × (g.stored.items ≡ item 23 none ∷ [])
    × (g.stored.documents ≡ [])
    × (map (λ d. d.deletion_id) g.stored.deletions ≡ 1050 ∷ [])
    × (g.deletion_ids ≡ 1050 ∷ [])
unfolding purge_all find_trashed_root_by_id
purged = (refl, refl, refl, refl, refl)
