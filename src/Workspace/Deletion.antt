-- ===== src/Workspace/Deletion.antt =====
-- The deletion of a workspace and its restoration.
use prism_nestjs.Prelude.{
  ℕ, ◌≡◌, refl, ap, subst, Bool, true, false, not, some, List, [], ◌∷◌, map, any, find, filter,
  update, ◌==◌, arith, Bool-cases, inl, inr,
}
use prism_nestjs.Prelude.Unique.{UniqueBy}
use prism_nestjs.Prelude.Driver.{Driver, rows_alone, rows_and_count, Element, row, first_element}
use prism_nestjs.Prelude.Action.{ok, found_cases, test_cases}
use prism_nestjs.Workspace.{WorkspaceRecord, Db, workspace_not_found, owner_required}
use prism_nestjs.Workspace.Repository.{
  is_live, is_owned, is_restorable, marked_deleted, marked_active,
  find_workspace_by_id_and_member_user_id, mark_workspace_deleted_by_id_and_owner_id,
  restore_workspace_by_id_and_owner_id,
}
use prism_nestjs.Workspace.Members.{delete_in, restore_in}
use prism_nestjs.Workspace.Ownership.{same_workspace, find-absent}

abbrev marked : ℕ → ℕ → ℕ → List WorkspaceRecord → List WorkspaceRecord
marked now id user ws = update (is_owned id user) (marked_deleted now) ws

-- Rows of other workspaces are left alone.
mark-absent :
    (now id user : ℕ) (v : WorkspaceRecord) (ws : List WorkspaceRecord)
    → v.workspace_id ≡ id
    → any (same_workspace v) ws ≡ false
    → update (is_restorable id user) marked_active (marked now id user ws) ≡ ws
mark-absent now id user v [] e h = refl
mark-absent now id user v (w ∷ ws) e h = ground (arith, mark-absent now id user v ws)

unmarked :
    (now id : ℕ) (w : WorkspaceRecord)
    → is_live id w ≡ true
    → marked_active (marked_deleted now w) ≡ w
unmarked now id w h = ground arith

restore-mark :
    (now id user : ℕ) (w : WorkspaceRecord) (ws : List WorkspaceRecord)
    → UniqueBy same_workspace ws
    → find (is_live id) ws ≡ some w
    → w.owner_id ≡ user
    → (update (is_restorable id user) marked_active (marked now id user ws) ≡ ws)
      × (any (is_restorable id user) (marked now id user ws) ≡ true)
restore-mark now id user w [] u h o = cc
restore-mark now id user w (v ∷ ws) u h o = elim (Bool-cases (is_live id v)) [
  | inl l ↦ (
    ground (arith, mark-absent now id user v ws (ground arith) u.0, unmarked now id v l),
    ground arith,
  )
  | inr l ↦ (
    ground (arith, restore-mark now id user w ws u.1, find-absent v ws u.0),
    ground (arith, restore-mark now id user w ws u.1),
  )
]

first-some :
    (driver : Driver) (p : WorkspaceRecord → Bool) (ws : List WorkspaceRecord)
    → any p ws ≡ true
    → (e : Element WorkspaceRecord) × (first_element driver (map marked_active (filter p ws))
        ≡ some e)
first-some rows_and_count p ws h = (_, refl)
first-some rows_alone p [] h = cc
first-some rows_alone p (w ∷ ws) h = elim (Bool-cases (p w)) [
  | inl y ↦ (row (marked_active w), rw y refl)
  | inr n ↦ let (e, q) = first-some rows_alone p ws (ground arith) in (e, rw n q)
]

restored :
    (driver : Driver) (now user id : ℕ) (w : WorkspaceRecord) (db : Db)
    → UniqueBy same_workspace db.workspaces
    → find (is_live id) db.workspaces ≡ some w
    → w.owner_id ≡ user
    → (e : Element WorkspaceRecord) × (restore_in driver user id
          (record db { workspaces = marked now id user db.workspaces })
        ≡ (ok e, db))
unfolding restore_in restore_workspace_by_id_and_owner_id
restored driver now user id w db u hw o =
    let (same, found) = restore-mark now id user w db.workspaces u hw o in
    let (e, q) =
      first-some driver (is_restorable id user) (marked now id user db.workspaces) found in
    (e, rw (q, same) refl)

-- Where ids of workspaces are unique, the restoration by the user who deleted a workspace gives back
-- the tables as they were before.
pub restore-delete :
    (driver : Driver) (now user id : ℕ) (db t : Db)
    → UniqueBy same_workspace db.workspaces
    → delete_in driver now user id db ≡ (ok tt, t)
    → (e : Element WorkspaceRecord) × (restore_in driver user id t ≡ (ok e, db))
unfolding delete_in find_workspace_by_id_and_member_user_id
    mark_workspace_deleted_by_id_and_owner_id
restore-delete driver now user id db t u =
    found_cases (λ p. p ≡ (ok tt, t) → Goal) db (find_workspace_by_id_and_member_user_id id user)
      workspace_not_found _ (λ _ h. cc)
      λ w hw.
        test_cases (λ p. p ≡ (ok tt, t) → Goal) db (not (w.owner_id == user)) owner_required _
          (λ _ h. cc)
          λ ho h.
            let marked_db : Db = record db { workspaces = marked now id user db.workspaces } in
            let e : marked_db ≡ t = ap (λ p. p.1) h in
            subst (λ s. (e : Element WorkspaceRecord) × (restore_in driver user id s ≡ (ok e, db)))
              e (restored driver now user id w db u (ground arith) (ground arith))
  where
    Goal : Type 0
    Goal = (e : Element WorkspaceRecord) × (restore_in driver user id t ≡ (ok e, db))
