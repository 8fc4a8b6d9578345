-- ===== src/WorkItem/Trash/Requests.antt =====
-- Every request on the trash keeps the board tidy.
use prism_nestjs.Prelude.{ℕ, ◌≡◌, refl, Option, none, some, List, [], ◌∷◌}
use prism_nestjs.Prelude.Action.{
  Action, Keeps, or_throw-Keeps, bind-Keeps, run-Keeps, found_cases, pure, run, publish, ◌>>=◌,
}
use prism_nestjs.WorkItem.Trash.{
  ItemRow, restore_with_descendants, find_trashed_root_by_id, find_work_item_by_id,
}
use prism_nestjs.WorkItem.Trash.UseCase.{
  ProjectRow, Db, Error, TrashApp, work_item_created, project_not_found, work_item_not_found,
  find_project_by_id_and_member_user_id, live_ids, soft_delete_roots, trash_work_items,
  publish_deleted, announce_deleted, bulk_delete_work_items, restore_in, restore_work_item,
  restore_if_root, restore_all, bulk_restore_in, publish_created, bulk_restore_work_items,
  push_detail,
}
use prism_nestjs.WorkItem.Trash.Tidy.{IsTidy, soft_delete-IsTidy, restore-IsTidy}

abbrev Tidy : Db → Type 0
Tidy db = IsTidy db.items

trash_work_items-Keeps :
    (now user project : ℕ) (ids : List ℕ) → Keeps Tidy (trash_work_items now user project ids)
unfolding trash_work_items
trash_work_items-Keeps now user project ids db v =
    found_cases (λ p. Tidy p.1) db (find_project_by_id_and_member_user_id project user)
      project_not_found _ (λ _. v) λ p hp. trashed p (live_ids p ids db)
  where
    trashed : (p : ProjectRow) (roots : List ℕ) → Tidy (soft_delete_roots now p roots db).1
    trashed p [] = v
    trashed p (i ∷ roots) =
        soft_delete-IsTidy now p.workspace_id p.project_id (i ∷ roots) db.items v

restore_in-Keeps : (user project item : ℕ) → Keeps Tidy (restore_in user project item)
unfolding restore_in
restore_in-Keeps user project item db v =
    found_cases (λ p. Tidy p.1) db (find_project_by_id_and_member_user_id project user)
      project_not_found _ (λ _. v)
      λ p hp.
        found_cases (λ p. Tidy p.1) db
          (λ db. find_trashed_root_by_id p.workspace_id p.project_id item db.items)
          work_item_not_found _ (λ _. v)
          λ r hr.
            or_throw-Keeps Tidy
              (find_work_item_by_id p.workspace_id p.project_id item
                (restore_with_descendants p.workspace_id p.project_id item db.items))
              work_item_not_found
              (record db {
                items = restore_with_descendants p.workspace_id p.project_id item db.items;
              })
              (restore-IsTidy p.workspace_id p.project_id item db.items r hr v)

-- One round of the loop.
restore_if_root-Keeps :
    (p : ProjectRow) (i : ℕ) (next : Action Db Error (List ItemRow)) (o : Option ItemRow) (db : Db)
    → Keeps Tidy next
    → find_trashed_root_by_id p.workspace_id p.project_id i db.items ≡ o
    → Tidy db
    → Tidy (restore_if_root p i o next db).1
restore_if_root-Keeps p i next none db k h v = k db v
restore_if_root-Keeps p i next (some r) db k h v =
    bind-Keeps Tidy next
      (λ rest. pure (
        push_detail
          (find_work_item_by_id p.workspace_id p.project_id i
            (restore_with_descendants p.workspace_id p.project_id i db.items))
          rest))
      k (λ rest db v. v)
      (record db { items = restore_with_descendants p.workspace_id p.project_id i db.items })
      (restore-IsTidy p.workspace_id p.project_id i db.items r h v)

restore_all-Keeps : (p : ProjectRow) (ids : List ℕ) → Keeps Tidy (restore_all p ids)
unfolding restore_all
restore_all-Keeps p [] db v = v
restore_all-Keeps p (i ∷ ids) db v =
    restore_if_root-Keeps p i (restore_all p ids)
      (find_trashed_root_by_id p.workspace_id p.project_id i db.items) db (restore_all-Keeps p ids)
      refl v

bulk_restore_in-Keeps :
    (user project : ℕ) (ids : List ℕ) → Keeps Tidy (bulk_restore_in user project ids)
unfolding bulk_restore_in
bulk_restore_in-Keeps user project ids db v =
    found_cases (λ p. Tidy p.1) db (find_project_by_id_and_member_user_id project user)
      project_not_found _ (λ _. v) λ p hp. restore_all-Keeps p ids db v

abbrev pub TidyApp : TrashApp → Type 0
TidyApp app = IsTidy app.db.items

publish_deleted-Keeps : (project : ℕ) (ids : List ℕ) → Keeps TidyApp (publish_deleted project ids)
publish_deleted-Keeps project [] app v = v
publish_deleted-Keeps project (i ∷ ids) app v = publish_deleted-Keeps project ids _ v

announce_deleted-Keeps : (project : ℕ) (ids : List ℕ) → Keeps TidyApp (announce_deleted project ids)
announce_deleted-Keeps project [] app v = v
announce_deleted-Keeps project (i ∷ ids) app v = publish_deleted-Keeps project (i ∷ ids) app v

publish_created-Keeps : (rows : List ItemRow) → Keeps TidyApp (publish_created rows)
publish_created-Keeps [] app v = v
publish_created-Keeps (w ∷ rows) app v = publish_created-Keeps rows _ v

bulk_restore-Keeps :
    (user project : ℕ) (ids : List ℕ) → Keeps TidyApp (bulk_restore_work_items user project ids)
unfolding bulk_restore_work_items
bulk_restore-Keeps user project ids =
    bind-Keeps TidyApp (run (bulk_restore_in user project ids))
      (λ rows. publish_created rows >>= λ _. pure rows)
      (run-Keeps Tidy (bulk_restore_in user project ids) (bulk_restore_in-Keeps user project ids))
      λ rows.
        bind-Keeps TidyApp (publish_created rows) (λ _. pure rows) (publish_created-Keeps rows)
          λ _ app v. v

restore_one-Keeps : (user project item : ℕ) → Keeps TidyApp (restore_work_item user project item)
unfolding restore_work_item
restore_one-Keeps user project item =
    bind-Keeps TidyApp (run (restore_in user project item))
      (λ w. publish (work_item_created w) >>= λ _. pure w)
      (run-Keeps Tidy (restore_in user project item) (restore_in-Keeps user project item))
      λ w app v. v

pub data Request : Type 0 where
  delete : ℕ → ℕ → ℕ → List ℕ → Request
  restore : ℕ → ℕ → List ℕ → Request
  restore_one : ℕ → ℕ → ℕ → Request

unfoldable pub act : Request → Action TrashApp Error (Unit {0})
unfolding bulk_delete_work_items restore_work_item bulk_restore_work_items
act (delete now user project ids) = bulk_delete_work_items now user project ids
act (restore user project ids) = bulk_restore_work_items user project ids >>= λ _. pure tt
act (restore_one user project item) = restore_work_item user project item >>= λ _. pure tt

-- Every request that moves work items to the trash or back, done or refused, keeps ids unique and
-- leaves no live item below one in the trash of its project.
pub act-IsTidy : (r : Request) → Keeps TidyApp (act r)
unfolding act
act-IsTidy (delete now user project ids) =
    bind-Keeps TidyApp (run (trash_work_items now user project ids)) (announce_deleted project)
      (run-Keeps Tidy (trash_work_items now user project ids)
        (trash_work_items-Keeps now user project ids))
      (announce_deleted-Keeps project)
act-IsTidy (restore user project ids) =
    bind-Keeps TidyApp (bulk_restore_work_items user project ids) (λ _. pure tt)
      (bulk_restore-Keeps user project ids) λ _ app v. v
act-IsTidy (restore_one user project item) =
    bind-Keeps TidyApp (restore_work_item user project item) (λ _. pure tt)
      (restore_one-Keeps user project item) λ _ app v. v
