-- ===== src/Workspace/Requests.antt =====
-- The requests on a workspace that is there, as one function.
pub mod Owners
use prism_nestjs.Prelude.{
  ℕ, ◌≡◌, refl, ◌&&◌, Bool, true, false, Option, not, none, some, ◌==◌, if◌then◌else◌, if_cases,
}
use prism_nestjs.Prelude.Text.{Text}
use prism_nestjs.Prelude.Driver.{Driver, Element, row, all_rows}
use prism_nestjs.Prelude.Action.{
  Result, Action, Keeps, bind-Keeps, run-Keeps, query-Keeps, pure, throw, run, query, publish,
  throw_if, ◌>>=◌, ◌>>◌,
}
use prism_nestjs.Tables.{MemberRow}
use prism_nestjs.Workspace.{
  AssignableRole, WorkspaceRecord, InvitationRow, InvitationEventType, Db, Error, Event,
  WorkspaceApp, CreateInvitationDto, member_removed, member_updated, removal_notified,
  workspace_deleted, delivery_failed,
}
use prism_nestjs.Workspace.Repository.{create_workspace_invitation_event}
use prism_nestjs.Workspace.Members.{
  remove_member_in, remove_workspace_member, notify_removed, update_role_in, update_member_role,
  transfer_in, transfer_workspace_owner, announce_transfer, publish_updated, user_id_of, differ,
  delete_in, delete_workspace, restore_in, restore_workspace,
}
use prism_nestjs.Workspace.Invitations.{
  Receiver, accept_in, accept_workspace_invitation, announce_acceptance, decline_in,
  decline_workspace_invitation, invite_in, create_invitation, notify_invited,
}
use prism_nestjs.Workspace.Ownership.{IsValid, Owned, owner_at, is_user}
use prism_nestjs.Workspace.Ownership.Members.{
  remove_member_in-Keeps, update_role_in-Keeps, transfer_in-Keeps, transfer_in-IsValid,
  delete_in-Keeps, restore_in-Keeps,
}
use prism_nestjs.Workspace.Ownership.Invitations.{
  accept_in-Keeps, decline_in-Keeps, invite_in-Keeps, event-Keeps,
}

-- A request, with the values that it takes from outside: the time, the new id and token of an
-- invitation, and whether its e-mail is delivered.
pub data Request : Type 0 where
  remove : ℕ → ℕ → ℕ → Request
  set_role : ℕ → ℕ → ℕ → AssignableRole → Request
  transfer : ℕ → ℕ → ℕ → Request
  delete : ℕ → ℕ → ℕ → Request
  restore : ℕ → ℕ → Request
  invite : Bool → ℕ → ℕ → ℕ → ℕ → ℕ → CreateInvitationDto → Request
  accept : ℕ → ℕ → Request
  decline : ℕ → ℕ → Request

abbrev pub ended : {A : Type 0} → Action WorkspaceApp Error A → Action WorkspaceApp Error (Unit {0})
ended m = m >>= λ _. pure tt

module _ (driver : Driver) (lower : Text → Text) (lifetime : ℕ) where
  unfoldable pub serve : Request → Action WorkspaceApp Error (Unit {0})
  unfolding remove_workspace_member update_member_role transfer_workspace_owner delete_workspace
      restore_workspace create_invitation accept_workspace_invitation decline_workspace_invitation
  serve (remove user id target) = remove_workspace_member driver user id target
  serve (set_role user id target role) = ended (update_member_role driver user id target role)
  serve (transfer user id target) = ended (transfer_workspace_owner driver user id target)
  serve (delete now user id) = delete_workspace driver now user id
  serve (restore user id) = ended (restore_workspace driver user id)
  serve (invite delivered now fresh token user id dto) =
      ended (create_invitation lower lifetime delivered now fresh token user id dto)
  serve (accept now token) = ended (accept_workspace_invitation lower now token)
  serve (decline now token) = decline_workspace_invitation lower now token
