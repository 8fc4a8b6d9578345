-- ===== src/WorkItem/Trash/Purge/Requests.antt =====
-- Permanent deletions, by any of the requests that make them.
use prism_nestjs.Prelude.{ℕ, refl, ◌∙◌, Option, List, [], ◌∷◌}
use prism_nestjs.Prelude.Text.{Text}
use prism_nestjs.Prelude.Action.{
  Action, Keeps, bind-Keeps, run-Keeps, found_cases, pure, gets, run, modify, ◌>>=◌,
}
use prism_nestjs.ObjectStorage.Deletion.{ObjectDeletionRow}
use prism_nestjs.WorkItem.Trash.{ItemRow}
use prism_nestjs.WorkItem.Trash.UseCase.{
  Error, project_not_found, find_project_by_id_and_member_user_id,
}
use prism_nestjs.WorkItem.Trash.Tidy.{IsTidy}
use prism_nestjs.WorkItem.Trash.Purge.{Progress}
use prism_nestjs.WorkItem.Trash.Purge.Kept.{Spared, purge_all-Spared}
use prism_nestjs.WorkItem.Trash.Purge.UseCase.{
  PurgeDb, PurgeApp, stored_of, delete_trashed_roots, delete_authorized_in, find_expired_root_ids,
  work_item_trash_retention_days, processed, delete_authorized, delete_roots, list_trashed,
  publish_removed, publish_one, permanently_delete_work_item, bulk_permanently_delete_work_items,
  search_trashed_work_items,
}

pub data Request : Type 0 where
  delete_one : ℕ → ℕ → ℕ → Request
  delete : ℕ → ℕ → List ℕ → Request
  list : ℕ → ℕ → Request

module _ (delete_object : ℕ → ObjectDeletionRow → Option Text) (clock : ℕ → ℕ) where
  module _ (fresh : ℕ → ℕ) (now : ℕ) where
    unfoldable pub act : Request → Action PurgeApp Error (Unit {0})
    unfolding permanently_delete_work_item bulk_permanently_delete_work_items
        search_trashed_work_items
    act (delete_one user project item) =
        permanently_delete_work_item delete_object clock fresh now user project item
    act (delete user project ids) =
        bulk_permanently_delete_work_items delete_object clock fresh now user project ids
    act (list user project) =
        search_trashed_work_items delete_object clock fresh now user project >>= λ _. pure tt

    module _ (rows : List ItemRow) where
      abbrev Safe : PurgeDb → Type 0
      Safe s = Spared rows s.board.items

      abbrev SafeApp : PurgeApp → Type 0
      SafeApp app = Safe app.db

      delete_trashed_roots-Keeps :
          (id project : ℕ) (ids : List ℕ)
          → Keeps Safe (delete_trashed_roots fresh now id project ids)
      unfolding delete_trashed_roots
      delete_trashed_roots-Keeps id project ids s v =
          let (tidy, kept) =
            purge_all-Spared fresh now id project [] ids
              (record { stored = stored_of s; removed = []; deletion_ids = [] }) v.0 in
          (tidy, kept ∙ v.1)

      delete_authorized_in-Keeps :
          (user project : ℕ) (ids : List ℕ)
          → Keeps Safe (delete_authorized_in fresh now user project ids)
      unfolding delete_authorized_in
      delete_authorized_in-Keeps user project ids s v =
          found_cases (λ p. Safe p.1) s
            (λ s. find_project_by_id_and_member_user_id project user s.board) project_not_found _
            (λ _. v) λ p hp. delete_trashed_roots-Keeps p.workspace_id p.project_id ids s v

      -- A transaction and the run of what it queued.
      settled-Keeps :
          (m : Action PurgeDb Error Progress)
          → Keeps Safe m
          → Keeps SafeApp (
              run m >>= λ g.
              modify (processed delete_object clock g.deletion_ids) >>= λ _. pure g.removed)
      settled-Keeps m k =
          bind-Keeps SafeApp (run m)
            (λ g. modify (processed delete_object clock g.deletion_ids) >>= λ _. pure g.removed)
            (run-Keeps Safe m k) λ g app v. v

      delete_authorized-Keeps :
          (user project : ℕ) (ids : List ℕ)
          → Keeps SafeApp (delete_authorized delete_object clock fresh now user project ids)
      unfolding delete_authorized
      delete_authorized-Keeps user project ids =
          settled-Keeps (delete_authorized_in fresh now user project ids)
            (delete_authorized_in-Keeps user project ids)

      delete_roots-Keeps :
          (id project : ℕ) (ids : List ℕ)
          → Keeps SafeApp (delete_roots delete_object clock fresh now id project ids)
      unfolding delete_roots
      delete_roots-Keeps id project [] app v = v
      delete_roots-Keeps id project (i ∷ ids) app v =
          settled-Keeps (delete_trashed_roots fresh now id project (i ∷ ids))
            (delete_trashed_roots-Keeps id project (i ∷ ids)) app v

      publish_removed-Keeps :
          (project : ℕ) (ids : List ℕ)
          → Keeps SafeApp (publish_removed delete_object clock fresh now project ids)
      publish_removed-Keeps project [] app v = v
      publish_removed-Keeps project (i ∷ ids) app v = publish_removed-Keeps project ids _ v

      publish_one-Keeps :
          (project item : ℕ) (ids : List ℕ)
          → Keeps SafeApp (publish_one delete_object clock fresh now project item ids)
      publish_one-Keeps project item [] app v = v
      publish_one-Keeps project item (i ∷ ids) app v = v

      search_trashed_work_items-Keeps :
          (user project : ℕ)
          → Keeps SafeApp (search_trashed_work_items delete_object clock fresh now user project)
      unfolding search_trashed_work_items
      search_trashed_work_items-Keeps user project app v =
          found_cases (λ p. SafeApp p.1) app
            (λ app. find_project_by_id_and_member_user_id project user app.db.board)
            project_not_found _ (λ _. v)
            λ p hp.
              let expired =
                find_expired_root_ids now work_item_trash_retention_days p.workspace_id p.project_id
                  app.db.board.items in
              bind-Keeps SafeApp
                (delete_roots delete_object clock fresh now p.workspace_id p.project_id expired)
                (λ _. gets (λ app. list_trashed p.workspace_id p.project_id app.db.board.items))
                (delete_roots-Keeps p.workspace_id p.project_id expired) (λ _ app v. v) app v

      act-Keeps : (r : Request) → Keeps SafeApp (act r)
      unfolding act
      act-Keeps (delete_one user project item) =
          bind-Keeps SafeApp
            (delete_authorized delete_object clock fresh now user project (item ∷ []))
            (publish_one delete_object clock fresh now project item)
            (delete_authorized-Keeps user project (item ∷ [])) (publish_one-Keeps project item)
      act-Keeps (delete user project ids) =
          bind-Keeps SafeApp (delete_authorized delete_object clock fresh now user project ids)
            (publish_removed delete_object clock fresh now project)
            (delete_authorized-Keeps user project ids) (publish_removed-Keeps project)
      act-Keeps (list user project) =
          bind-Keeps SafeApp (search_trashed_work_items delete_object clock fresh now user project)
            (λ _. pure tt) (search_trashed_work_items-Keeps user project) λ _ app v. v

    -- Where ids are unique and no live item is below a trashed one, every request that deletes
    -- trashed items for good, done or refused, keeps it so and keeps every item on the board.
    pub act-Spared :
        (r : Request) (app : PurgeApp)
        → IsTidy app.db.board.items
        → Spared app.db.board.items (act r app).1.db.board.items
    act-Spared r app tidy = act-Keeps app.db.board.items r app (tidy, refl)
