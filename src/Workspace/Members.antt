-- ===== src/Workspace/Members.antt =====
-- src/modules/workspace/usecases/workspace.usecase.ts: the requests on members and on the workspace
-- as a whole. The record of the removal's notification is the notification service's.
use prism_nestjs.Prelude.{ℕ, Bool, true, false, not, Option, none, some, ◌==◌, if◌then◌else◌}
use prism_nestjs.Prelude.Driver.{Driver, Element, row, all_rows}
use prism_nestjs.Prelude.Action.{
  Action, pure, throw, gets, or_throw, throw_if, run, query, publish, ◌>>=◌, ◌>>◌,
}
use prism_nestjs.Tables.{Role, MemberRow}
use prism_nestjs.Workspace.{
  AssignableRole, to_role, WorkspaceRecord, Db, Error, WorkspaceApp, workspace_not_found,
  member_not_found, owner_removal, owner_role_update, owner_required, type_error, member_removed,
  member_updated, workspace_updated, workspace_deleted, removal_notified,
}
use prism_nestjs.Workspace.Repository.{
  find_workspace_by_id, find_workspace_by_id_and_admin_user_id,
  find_workspace_by_id_and_member_user_id, find_workspace_member,
  delete_workspace_member_by_user_id, update_workspace_member_role, update_workspace_owner,
  mark_workspace_deleted_by_id_and_owner_id, restore_workspace_by_id_and_owner_id,
}

-- The gate of a removal: members may leave, admins remove others.
abbrev pub find_removing : ℕ → ℕ → ℕ → Db → Option WorkspaceRecord
find_removing user id target db =
    if user == target
    then find_workspace_by_id_and_member_user_id id user db
    else find_workspace_by_id_and_admin_user_id id user db

module _ (driver : Driver) where
  -- The transaction of `removeWorkspaceMember`.
  unfoldable pub remove_member_in : ℕ → ℕ → ℕ → Action Db Error (WorkspaceRecord × MemberRow)
  remove_member_in user id target = do
    workspace ← or_throw (← gets (find_removing user id target)) workspace_not_found
    member ←
        or_throw (← gets (find_workspace_member workspace.workspace_id target)) member_not_found
    throw_if (workspace.owner_id == member.user_id) owner_removal
    deleted ← delete_workspace_member_by_user_id driver workspace.workspace_id member.user_id
    throw_if (not deleted) member_not_found
    pure (workspace, member)

  abbrev pub notify_removed :
      ℕ → ℕ → WorkspaceRecord × MemberRow → Action WorkspaceApp Error (Unit {0})
  notify_removed user target (workspace, member) =
      if user == target
      then pure tt
      else publish (removal_notified member.user_id user workspace.workspace_id)

  unfoldable pub remove_workspace_member : ℕ → ℕ → ℕ → Action WorkspaceApp Error (Unit {0})
  unfolding remove_member_in
  remove_workspace_member user id target = do
    result ← run (remove_member_in user id target)
    publish (member_removed id target)
    notify_removed user target result

  -- The transaction of `updateWorkspaceMemberRole`.
  unfoldable pub update_role_in :
      ℕ → ℕ → ℕ → AssignableRole → Action Db Error (Option (Element MemberRow))
  update_role_in user id target role = do
    workspace ←
        or_throw (← gets (find_workspace_by_id_and_admin_user_id id user)) workspace_not_found
    member ←
        or_throw (← gets (find_workspace_member workspace.workspace_id target)) member_not_found
    throw_if (workspace.owner_id == member.user_id) owner_role_update
    update_workspace_member_role driver workspace.workspace_id member.user_id (to_role role)

  unfoldable pub update_member_role :
      ℕ → ℕ → ℕ → AssignableRole → Action WorkspaceApp Error (Option (Element MemberRow))
  unfolding update_role_in
  update_member_role user id target role = do
    updated ← run (update_role_in user id target role)
    publish (member_updated id updated)
    pure updated

  -- What `transferWorkspaceOwner` takes out of its transaction.
  abbrev pub Transferred : Type 0
  Transferred =
      Option (Element WorkspaceRecord) × Option (Element MemberRow) × Option (Element MemberRow)

  -- The transaction of `transferWorkspaceOwner`.
  unfoldable pub transfer_in : ℕ → ℕ → ℕ → Action Db Error Transferred
  transfer_in user id new_owner = do
    workspace ← or_throw (← gets (find_workspace_by_id id)) workspace_not_found
    throw_if (not (workspace.owner_id == user)) owner_required
    member ←
        or_throw (← gets (find_workspace_member workspace.workspace_id new_owner)) member_not_found
    previous ←
        update_workspace_member_role driver workspace.workspace_id workspace.owner_id Role.admin
    next ← update_workspace_member_role driver workspace.workspace_id member.user_id Role.owner
    updated ← update_workspace_owner driver workspace.workspace_id member.user_id
    pure (updated, previous, next)

  -- `publishWorkspaceUpdated` reads the id of the workspace, which fails on `undefined`.
  abbrev pub publish_updated :
      Option (Element WorkspaceRecord) → Action WorkspaceApp Error (Unit {0})
  publish_updated none = throw type_error
  publish_updated (some w) = publish (workspace_updated (some w))

  -- `member.userId`: `undefined` of a list.
  abbrev pub user_id_of : Option (Element MemberRow) → Action WorkspaceApp Error (Option ℕ)
  user_id_of none = throw type_error
  user_id_of (some (row m)) = pure (some m.user_id)
  user_id_of (some (all_rows ms)) = pure none

  -- `!==`.
  abbrev pub differ : Option ℕ → Option ℕ → Bool
  differ (some a) (some b) = not (a == b)
  differ none none = false
  differ _ _ = true

  abbrev pub announce_transfer :
      ℕ → Transferred → Action WorkspaceApp Error (Option (Element WorkspaceRecord))
  announce_transfer id (updated, previous, next) = do
    publish_updated updated
    a ← user_id_of previous
    b ← user_id_of next
    if differ a b then publish (member_updated id previous) else pure tt
    publish (member_updated id next)
    pure updated

  unfoldable pub transfer_workspace_owner :
      ℕ → ℕ → ℕ → Action WorkspaceApp Error (Option (Element WorkspaceRecord))
  unfolding transfer_in
  transfer_workspace_owner user id new_owner = do
    result ← run (transfer_in user id new_owner)
    announce_transfer id result

  -- The queries of `deleteWorkspace`, which is no transaction.
  unfoldable pub delete_in : ℕ → ℕ → ℕ → Action Db Error (Unit {0})
  delete_in now user id = do
    workspace ←
        or_throw (← gets (find_workspace_by_id_and_member_user_id id user)) workspace_not_found
    throw_if (not (workspace.owner_id == user)) owner_required
    deleted ← mark_workspace_deleted_by_id_and_owner_id driver now id user
    throw_if (not deleted) workspace_not_found

  unfoldable pub delete_workspace : ℕ → ℕ → ℕ → Action WorkspaceApp Error (Unit {0})
  unfolding delete_in
  delete_workspace now user id = do query (delete_in now user id); publish (workspace_deleted id)

  -- The query of `restoreWorkspace`.
  unfoldable pub restore_in : ℕ → ℕ → Action Db Error (Element WorkspaceRecord)
  restore_in user id = do
    restored ← restore_workspace_by_id_and_owner_id driver id user
    or_throw restored workspace_not_found

  unfoldable pub restore_workspace : ℕ → ℕ → Action WorkspaceApp Error (Element WorkspaceRecord)
  unfolding restore_in
  restore_workspace user id = query (restore_in user id)
