-- ===== src/Workspace/Examples.antt =====
-- The theorems on workspaces at concrete inputs, and runs of the code.
use prism_nestjs.Prelude.{◌≡◌, refl, Bool, true, false, none, some, [], ◌∷◌, if◌then◌else◌, arith}
use prism_nestjs.Prelude.Text.{Text, codes}
use prism_nestjs.Prelude.Field.{given}
use prism_nestjs.Prelude.Driver.{Element, rows_alone, rows_and_count}
use prism_nestjs.Prelude.Action.{ok, err}
use prism_nestjs.Tables.{Role}
use prism_nestjs.Workspace.{
  AssignableRole, Db, WorkspaceRecord, InvitationEventType, WorkspaceApp, CreateInvitationDto,
  workspace_not_found, owner_removal, invitation_already_declined, invitation_already_accepted,
}
use prism_nestjs.Workspace.Repository.{
  find_workspace_by_id, find_workspace_by_id_and_member_user_id,
  find_workspace_by_id_and_admin_user_id, find_workspace_member, find_user_by_email,
  update_workspace_member_role, update_workspace_owner, find_workspace_invitation_by_token,
  find_latest_workspace_invitation_event, create_workspace_membership,
  attach_workspace_invitation_receiver, create_workspace_invitation_event,
  create_workspace_invitation, mark_workspace_deleted_by_id_and_owner_id,
}
use prism_nestjs.Workspace.Members.{delete_in, restore_in}
use prism_nestjs.Workspace.Invitations.{
  accept_in, decline_in, create_invitation, resolve_invitation_status,
}
use prism_nestjs.Workspace.Ownership.{IsValid, Owned, owner_at, role_at}
use prism_nestjs.Workspace.Acceptance.{accept-once}
use prism_nestjs.Workspace.Deletion.{restore-delete}
use prism_nestjs.Workspace.Requests.{Request, transfer, remove, set_role, serve}
use prism_nestjs.Workspace.Requests.Owners.{serve-IsValid, serve-Owned}
use prism_nestjs.Workspace.Access.{serve-not_admin}

abbrev as_is : Text → Text
as_is s = s

-- 7 owns the workspace 1, 8 is a member of it, 9 is invited as an admin; 9 has declined where the
-- argument says so.
abbrev db : Bool → Db
db declined = record {
  users =
      record { user_id = 7; email = codes "a@x.org"; is_verified = true }
      ∷ record { user_id = 8; email = codes "b@x.org"; is_verified = true }
      ∷ record { user_id = 9; email = codes "c@x.org"; is_verified = true }
      ∷ [];
  workspaces =
      record {
        workspace_id = 1;
        owner_id = 7;
        name = codes "Prism";
        slug = codes "prism-1";
        description = none;
        item_code_prefix = codes "PRIS";
        is_active = true;
        deleted_at = none;
      }
      ∷ [];
  members =
      record { workspace_id = 1; user_id = 7; role = Role.owner }
      ∷ record { workspace_id = 1; user_id = 8; role = Role.member }
      ∷ [];
  invitations =
      record {
        invitation_id = 20;
        workspace_id = 1;
        sender_id = 7;
        receiver_id = none;
        receiver_email = codes "c@x.org";
        role = AssignableRole.admin;
        token = 33;
        expires_at = 5000;
      }
      ∷ [];
  leads = λ e f. true;
  invitation_events =
      record {
        invitation_id = 20;
        actor_id = some 7;
        event_type = if declined then InvitationEventType.denied else InvitationEventType.sent;
        created_at = 1000;
      }
      ∷ [];
}

abbrev app : Bool → WorkspaceApp
app declined = record { db = db declined; published = [] }

db-IsValid : IsValid (db false)
unfolding role_at owner_at
db-IsValid = ((refl, tt), λ i u. ground arith)

-- The new state of a request.
abbrev after : Request → WorkspaceApp
after r = (serve rows_alone as_is 86400 r (app false)).1

serve-IsValid_example : IsValid (after (transfer 7 1 8)).db
serve-IsValid_example = serve-IsValid rows_alone as_is 86400 (transfer 7 1 8) (app false) db-IsValid

serve-Owned_example : Owned 1 (some 7) (after (transfer 8 1 8)).db
unfolding owner_at
serve-Owned_example =
    serve-Owned rows_alone as_is 86400 1 (some 7) (transfer 8 1 8) refl (app false)
      (db-IsValid, refl)

transferred : owner_at 1 (after (transfer 7 1 8)).db.workspaces ≡ some 8
unfolding serve owner_at find_workspace_by_id find_workspace_member update_workspace_member_role
    update_workspace_owner
transferred = refl

serve-not_admin_example :
    serve rows_alone as_is 86400 (set_role 8 1 7 AssignableRole.viewer) (app false)
    ≡ (err workspace_not_found, app false)
serve-not_admin_example =
    serve-not_admin rows_alone as_is 86400 1 8 (app false) refl
      (set_role 8 1 7 AssignableRole.viewer) refl

owner_stays :
    serve rows_alone as_is 86400 (remove 7 1 7) (app false) ≡ (err owner_removal, app false)
unfolding serve find_workspace_by_id_and_member_user_id find_workspace_member
owner_stays = refl

accept-once_example :
    let t = (accept_in as_is 2000 33 (db false)).1 in
    (accept_in as_is 3000 33 (record t { members = [] })
      ≡ (err invitation_already_accepted, record t { members = [] }))
    × (decline_in as_is 3000 33 (record t { members = [] })
        ≡ (err invitation_already_accepted, record t { members = [] }))
unfolding accept_in find_workspace_invitation_by_token find_workspace_by_id find_user_by_email
    find_workspace_member resolve_invitation_status find_latest_workspace_invitation_event
    create_workspace_membership attach_workspace_invitation_receiver
    create_workspace_invitation_event
accept-once_example =
    accept-once as_is 2000 33 (db false) (accept_in as_is 2000 33 (db false)).1 _ (ground arith, tt)
      refl 3000 []

restore-delete_example :
    (e : Element WorkspaceRecord) × (restore_in rows_and_count 7 1
        (delete_in rows_and_count 4000 7 1 (db false)).1
      ≡ (ok e, db false))
unfolding delete_in find_workspace_by_id_and_member_user_id
    mark_workspace_deleted_by_id_and_owner_id
restore-delete_example =
    restore-delete rows_and_count 4000 7 1 (db false)
      (delete_in rows_and_count 4000 7 1 (db false)).1 (refl, tt) refl

-- A second invitation whose e-mail is not delivered has a new token, and it is still declined.
abbrev again : CreateInvitationDto
again = record { receiver_id = none; email = given (codes "c@x.org"); role = AssignableRole.member }

declined_again :
    let t = (create_invitation as_is 86400 false 2000 21 34 7 1 again (app true)).1 in
    decline_in as_is 2500 34 t.db ≡ (err invitation_already_declined, t.db)
unfolding create_invitation decline_in find_workspace_by_id_and_admin_user_id find_workspace_by_id
    find_user_by_email find_workspace_member create_workspace_invitation
    find_workspace_invitation_by_token find_latest_workspace_invitation_event
    resolve_invitation_status
declined_again = refl
