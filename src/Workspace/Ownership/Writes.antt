-- ===== src/Workspace/Ownership/Writes.antt =====
-- What the writes on members and workspaces keep of owners and roles.
use prism_nestjs.Prelude.{ℕ, ◌≡◌, refl, false, not, some, find, filter, update, ◌==◌, arith}
use prism_nestjs.Prelude.Unique.{UniqueBy, UniqueBy-update}
use prism_nestjs.Tables.{Role, is_membership}
use prism_nestjs.Workspace.{WorkspaceRecord, Db}
use prism_nestjs.Workspace.Repository.{
  is_live, has_id, with_role, with_owner, find_workspace_by_id_and_admin_user_id,
  find_workspace_by_id_and_member_user_id,
}
use prism_nestjs.Workspace.Members.{find_removing}
use prism_nestjs.Workspace.Ownership.{
  is_owner_role, role_at, owner_at, same_workspace, IsValid, role_at-filter, role_at-update,
  owner_at-update, owner_at-live,
}

pub removing-live :
    (user id target : ℕ) (db : Db) (w : WorkspaceRecord)
    → find_removing user id target db ≡ some w
    → find (is_live id) db.workspaces ≡ some w
unfolding find_workspace_by_id_and_admin_user_id find_workspace_by_id_and_member_user_id
removing-live user id target db w h = ground arith

pub admin-live :
    (user id : ℕ) (db : Db) (w : WorkspaceRecord)
    → find_workspace_by_id_and_admin_user_id id user db ≡ some w
    → find (is_live id) db.workspaces ≡ some w
unfolding find_workspace_by_id_and_admin_user_id
admin-live user id db w h = ground arith

pub removed-IsValid :
    (id user : ℕ) (db : Db)
    → IsValid db
    → (owner_at id db.workspaces ≡ some user → ⊥)
    → IsValid (record db { members = filter (λ m. not (is_membership id user m)) db.members })
removed-IsValid id user db v n =
    (v.0, λ i u. ground (arith, role_at-filter i u id user db.members, v.1 i u))

pub role_set-IsValid :
    (id user : ℕ) (r : Role) (db : Db)
    → IsValid db
    → (owner_at id db.workspaces ≡ some user → ⊥)
    → is_owner_role r ≡ false
    → IsValid (record db { members = update (is_membership id user) (with_role r) db.members })
role_set-IsValid id user r db v n e =
    (v.0, λ i u. ground (arith, role_at-update i u id user r db.members, v.1 i u))

-- A user who is not the owner of a live workspace.
pub not_owner :
    (id user : ℕ) (w : WorkspaceRecord) (db : Db)
    → UniqueBy same_workspace db.workspaces
    → find (is_live id) db.workspaces ≡ some w
    → (w.owner_id == user) ≡ false
    → owner_at w.workspace_id db.workspaces ≡ some user
    → ⊥
not_owner id user w db u h n o = ground (arith, owner_at-live id w db.workspaces u h)

-- What a transfer writes.
abbrev transferred : ℕ → ℕ → ℕ → Db → Db
transferred id old new db = record db {
  members =
      update (is_membership id new) (with_role Role.owner)
        (update (is_membership id old) (with_role Role.admin) db.members);
  workspaces = update (has_id id) (with_owner new) db.workspaces;
}

pub transferred-IsValid :
    (id old new : ℕ) (r : Role) (db : Db)
    → IsValid db
    → owner_at id db.workspaces ≡ some old
    → role_at id new db.members ≡ some r
    → IsValid (transferred id old new db)
transferred-IsValid id old new r db v o n = (
  UniqueBy-update same_workspace (has_id id) (with_owner new) (λ a b. refl) (λ a b. refl)
      db.workspaces v.0,
  λ i u. ground (
    arith,
    role_at-update i u id new Role.owner
        (update (is_membership id old) (with_role Role.admin) db.members),
    role_at-update i u id old Role.admin db.members,
    owner_at-update i id new db.workspaces,
    v.1 i u,
  ),
)
