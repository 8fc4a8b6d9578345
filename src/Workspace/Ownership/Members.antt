-- ===== src/Workspace/Ownership/Members.antt =====
-- The transactions on members and workspaces keep owners and roles in agreement.
use prism_nestjs.Prelude.{
  ℕ, ◌≡◌, refl, Bool, true, false, not, ◌&&◌, Option, filter, update, ◌==◌, is_some, arith,
}
use prism_nestjs.Prelude.Unique.{UniqueBy-update}
use prism_nestjs.Prelude.Driver.{Driver, first_element}
use prism_nestjs.Prelude.Action.{
  Result, Keeps, found_cases, test_cases, or_throw-Keeps, bind-Keeps, or_throw, pure, throw_if,
  ◌>>=◌,
}
use prism_nestjs.Tables.{is_membership}
use prism_nestjs.Workspace.{
  AssignableRole, to_role, WorkspaceRecord, Db, Error, workspace_not_found, member_not_found,
  owner_removal, owner_role_update, owner_required,
}
use prism_nestjs.Workspace.Repository.{
  is_owned, marked_deleted, is_restorable, marked_active, find_workspace_by_id,
  find_workspace_by_id_and_admin_user_id, find_workspace_by_id_and_member_user_id,
  find_workspace_member, delete_workspace_member_by_user_id, update_workspace_member_role,
  update_workspace_owner, mark_workspace_deleted_by_id_and_owner_id,
  restore_workspace_by_id_and_owner_id,
}
use prism_nestjs.Workspace.Members.{
  find_removing, remove_member_in, update_role_in, transfer_in, delete_in, restore_in,
}
use prism_nestjs.Workspace.Ownership.{
  is_user, same_workspace, IsValid, Owned, owner_at-update, owner_at-kept, owner_at-live,
  find-role_at, assignable,
}
use prism_nestjs.Workspace.Ownership.Writes.{
  removing-live, admin-live, removed-IsValid, role_set-IsValid, not_owner, transferred-IsValid,
}

abbrev Valid : {A : Type 0} → Result Error A × Db → Type 0
Valid p = IsValid p.1

pub transfer_in-IsValid :
    (driver : Driver) (user id new : ℕ) → Keeps IsValid (transfer_in driver user id new)
unfolding transfer_in find_workspace_by_id find_workspace_member update_workspace_member_role
    update_workspace_owner
transfer_in-IsValid driver user id new db v =
    found_cases Valid db (find_workspace_by_id id) workspace_not_found _ (λ _. v)
      λ w hw.
        test_cases Valid db (not (w.owner_id == user)) owner_required _ (λ _. v)
          λ ho.
            found_cases Valid db (find_workspace_member w.workspace_id new) member_not_found _
              (λ _. v)
              λ m hm.
                transferred-IsValid w.workspace_id w.owner_id m.user_id m.role db v
                  (ground (arith, owner_at-live id w db.workspaces v.0 hw))
                  (ground (arith, find-role_at w.workspace_id new m db.members hm))

-- A change of workspaces that keeps ids and owners.
marked-IsValid :
    (p : WorkspaceRecord → Bool) (f : WorkspaceRecord → WorkspaceRecord)
    → ((w : WorkspaceRecord) → (f w).workspace_id ≡ w.workspace_id)
    → ((w : WorkspaceRecord) → (f w).owner_id ≡ w.owner_id)
    → (db : Db) → IsValid db
    → IsValid (record db { workspaces = update p f db.workspaces })
marked-IsValid p f k o db v = (
  UniqueBy-update same_workspace p f (λ a b. ground (arith, k a)) (λ a b. ground (arith, k b))
      db.workspaces v.0,
  λ i u. rw (owner_at-kept p f k o i db.workspaces, v.1 i u),
)

module _ (at : ℕ) (by : Option ℕ) where
  abbrev Kept : {A : Type 0} → Result Error A × Db → Type 0
  Kept p = Owned at by p.1

  -- A test of what a statement returned, at the end.
  last_test :
      {A : Type 0} (b : Bool) (e : Error) (a : A) (db : Db)
      → Owned at by db
      → Owned at by ((throw_if (not b) e >>= λ _. pure a) db).1
  last_test true e a db v = v
  last_test false e a db v = v

  pub remove_member_in-Keeps :
      (driver : Driver) (user id target : ℕ)
      → Keeps (Owned at by) (remove_member_in driver user id target)
  unfolding remove_member_in find_workspace_member delete_workspace_member_by_user_id
  remove_member_in-Keeps driver user id target db v =
      found_cases Kept db (find_removing user id target) workspace_not_found _ (λ _. v)
        λ w hw.
          found_cases Kept db (find_workspace_member w.workspace_id target) member_not_found _
            (λ _. v)
            λ m hm.
              test_cases Kept db (w.owner_id == m.user_id) owner_removal _ (λ _. v)
                λ ho.
                  last_test
                    (is_some (
                      first_element driver
                        (filter (is_membership w.workspace_id m.user_id) db.members)))
                    member_not_found (w, m) _
                    (
                      removed-IsValid w.workspace_id m.user_id db v.0 (
                          not_owner id m.user_id w db v.0.0 (removing-live user id target db w hw)
                            ho),
                      v.1,
                    )

  pub update_role_in-Keeps :
      (driver : Driver) (user id target : ℕ) (role : AssignableRole)
      → Keeps (Owned at by) (update_role_in driver user id target role)
  unfolding update_role_in find_workspace_member update_workspace_member_role
  update_role_in-Keeps driver user id target role db v =
      found_cases Kept db (find_workspace_by_id_and_admin_user_id id user) workspace_not_found _
        (λ _. v)
        λ w hw.
          found_cases Kept db (find_workspace_member w.workspace_id target) member_not_found _
            (λ _. v)
            λ m hm.
              test_cases Kept db (w.owner_id == m.user_id) owner_role_update _ (λ _. v)
                λ ho. (
                  role_set-IsValid w.workspace_id m.user_id (to_role role) db v.0
                      (not_owner id m.user_id w db v.0.0 (admin-live user id db w hw) ho)
                      (assignable role),
                  v.1,
                )

  -- A transfer by someone else, or of another workspace.
  pub transfer_in-Keeps :
      (driver : Driver) (user id new : ℕ)
      → (at == id) && is_user by user ≡ false
      → Keeps (Owned at by) (transfer_in driver user id new)
  unfolding transfer_in find_workspace_by_id find_workspace_member update_workspace_member_role
      update_workspace_owner
  transfer_in-Keeps driver user id new c db v =
      found_cases Kept db (find_workspace_by_id id) workspace_not_found _ (λ _. v)
        λ w hw.
          test_cases Kept db (not (w.owner_id == user)) owner_required _ (λ _. v)
            λ ho.
              found_cases Kept db (find_workspace_member w.workspace_id new) member_not_found _
                (λ _. v)
                λ m hm. (
                  transferred-IsValid w.workspace_id w.owner_id m.user_id m.role db v.0
                      (ground (arith, owner_at-live id w db.workspaces v.0.0 hw))
                      (ground (arith, find-role_at w.workspace_id new m db.members hm)),
                  ground (
                    arith,
                    owner_at-update at w.workspace_id m.user_id db.workspaces,
                    owner_at-live id w db.workspaces v.0.0 hw,
                    v.1,
                  ),
                )

  marked-Owned :
      (p : WorkspaceRecord → Bool) (f : WorkspaceRecord → WorkspaceRecord)
      → ((w : WorkspaceRecord) → (f w).workspace_id ≡ w.workspace_id)
      → ((w : WorkspaceRecord) → (f w).owner_id ≡ w.owner_id)
      → (db : Db) → Owned at by db
      → Owned at by (record db { workspaces = update p f db.workspaces })
  marked-Owned p f k o db v =
      (marked-IsValid p f k o db v.0, rw (owner_at-kept p f k o at db.workspaces) v.1)

  pub delete_in-Keeps :
      (driver : Driver) (now user id : ℕ) → Keeps (Owned at by) (delete_in driver now user id)
  unfolding delete_in find_workspace_by_id_and_member_user_id
      mark_workspace_deleted_by_id_and_owner_id
  delete_in-Keeps driver now user id db v =
      found_cases Kept db (find_workspace_by_id_and_member_user_id id user) workspace_not_found _
        (λ _. v)
        λ w hw.
          test_cases Kept db (not (w.owner_id == user)) owner_required _ (λ _. v)
            λ ho. marked-Owned (is_owned id user) (marked_deleted now) (λ w. refl) (λ w. refl) db v

  pub restore_in-Keeps :
      (driver : Driver) (user id : ℕ) → Keeps (Owned at by) (restore_in driver user id)
  unfolding restore_in restore_workspace_by_id_and_owner_id
  restore_in-Keeps driver user id db v =
      bind-Keeps (Owned at by) (restore_workspace_by_id_and_owner_id driver id user)
        (λ o. or_throw {E = Error} o workspace_not_found)
        (λ db v. marked-Owned (is_restorable id user) marked_active (λ w. refl) (λ w. refl) db v)
        (λ o. or_throw-Keeps (Owned at by) o workspace_not_found) db v
