-- ===== src/Workspace/Invitations.antt =====
-- src/modules/workspace/usecases/workspace.usecase.ts: invitations to a workspace. `lower` is SQL's
-- LOWER; the token and the id of a new invitation, the time and whether the e-mail is delivered are
-- arguments. The record of the receiver's notification is the notification service's.
use prism_nestjs.Prelude.{
  ℕ, ◌+◌, ◌*◌, Bool, false, not, Option, none, some, ltb, is_some, if◌then◌else◌,
}
use prism_nestjs.Prelude.Text.{Text}
use prism_nestjs.Prelude.Field.{Field, truthy}
use prism_nestjs.Prelude.Action.{
  Action, pure, throw, gets, or_throw, throw_if, run, query, publish, ◌>>=◌, ◌>>◌,
}
use prism_nestjs.Tables.{MemberRow}
use prism_nestjs.Workspace.{
  to_role, WorkspaceRecord, UserRow, InvitationRow, InvitationEventType, InvitationEventRow,
  InvitationStatus, Db, Error, WorkspaceApp, CreateInvitationDto, workspace_not_found,
  member_not_found, member_already_exists, member_user_not_found, recipient_required,
  signup_required, invitation_not_found, invitation_already_accepted, invitation_already_declined,
  invitation_expired, invitation_cancelled, delivery_failed, member_created, workspace_added,
  invitation_notified,
}
use prism_nestjs.Workspace.Repository.{
  find_workspace_by_id, find_workspace_by_id_and_admin_user_id, find_workspace_member,
  find_user_by_id, find_user_by_email, create_workspace_membership, create_workspace_invitation,
  find_workspace_invitation_by_token, attach_workspace_invitation_receiver,
  find_latest_workspace_invitation_event, create_workspace_invitation_event,
}

-- `resolveWorkspaceInvitationStatus`.
unfoldable pub resolve_invitation_status :
    ℕ → InvitationRow → Option InvitationEventRow → InvitationStatus
resolve_invitation_status now invitation latest =
    let by_time : InvitationStatus =
      if ltb invitation.expires_at now
      then InvitationStatus.expired
      else InvitationStatus.pending in
    elim latest [
      | none ↦ by_time
      | some e ↦ elim e.event_type [
        | InvitationEventType.accepted ↦ InvitationStatus.accepted
        | InvitationEventType.denied ↦ InvitationStatus.declined
        | InvitationEventType.expired ↦ InvitationStatus.expired
        | InvitationEventType.cancelled ↦ InvitationStatus.cancelled
        | InvitationEventType.sent ↦ by_time
      ]
    ]

-- `ensurePendingWorkspaceInvitation`.
unfoldable pub ensure_pending : InvitationStatus → Action Db Error (Unit {0})
ensure_pending InvitationStatus.accepted = throw invitation_already_accepted
ensure_pending InvitationStatus.declined = throw invitation_already_declined
ensure_pending InvitationStatus.expired = throw invitation_expired
ensure_pending InvitationStatus.cancelled = throw invitation_cancelled
ensure_pending InvitationStatus.pending = pure tt

abbrev pub id_of : Option UserRow → Option ℕ
id_of none = none
id_of (some u) = some u.user_id

-- `WorkspaceInvitationReceiver`: an address that may have no user.
pub record Receiver : Type 0 where
  pub user_id : Option ℕ
  pub email : Text

abbrev pub receiver_of : UserRow → Receiver
receiver_of u = record { user_id = some u.user_id; email = u.email }

-- The user of an address, or the address alone.
abbrev pub addressed : Text → Option UserRow → Receiver
addressed email (some u) = receiver_of u
addressed email none = record { user_id = none; email = email }

pub record Context : Type 0 where
  pub invitation : InvitationRow
  pub workspace : WorkspaceRecord
  pub status : InvitationStatus
  pub requires_signup : Bool

-- The member that a resolved receiver is already.
abbrev pub member_of : ℕ → Option ℕ → Db → Option MemberRow
member_of id none db = none
member_of id (some user) db = find_workspace_member id user db

-- The end of `getWorkspaceInvitationContext`.
abbrev pub context_of :
    ℕ → InvitationRow → WorkspaceRecord → Option ℕ → Option MemberRow → Db → Context
context_of now i workspace receiver (some m) db = record {
  invitation = i;
  workspace = workspace;
  status = InvitationStatus.accepted;
  requires_signup = false;
}
context_of now i workspace receiver none db = record {
  invitation = i;
  workspace = workspace;
  status =
      resolve_invitation_status now i (find_latest_workspace_invitation_event i.invitation_id db);
  requires_signup = not (is_some receiver);
}

-- What `acceptWorkspaceInvitation` writes for a receiver.
unfoldable pub accept_as :
    ℕ → InvitationRow → WorkspaceRecord → UserRow → Action Db Error (MemberRow × WorkspaceRecord)
accept_as now i workspace receiver = do
  existing ← gets (find_workspace_member i.workspace_id receiver.user_id)
  throw_if (is_some existing) member_already_exists
  create_workspace_membership i.workspace_id receiver.user_id (to_role i.role)
  attach_workspace_invitation_receiver i.invitation_id receiver.user_id
  create_workspace_invitation_event now i.invitation_id (some receiver.user_id)
      InvitationEventType.accepted
  member ←
      or_throw (← gets (find_workspace_member i.workspace_id receiver.user_id)) member_not_found
  pure (member, workspace)

abbrev pub announce_acceptance :
    MemberRow × WorkspaceRecord → Action WorkspaceApp Error WorkspaceRecord
announce_acceptance (member, workspace) = do
  publish (member_created member)
  publish (workspace_added workspace member.user_id)
  pure workspace

abbrev pub notify_invited : InvitationRow → Option ℕ → Action WorkspaceApp Error (Unit {0})
notify_invited i none = pure tt
notify_invited i (some user) = publish (invitation_notified i user)

module _ (lower : Text → Text) where
  abbrev pub resolved_receiver : InvitationRow → Db → Option ℕ
  resolved_receiver i db = elim i.receiver_id [
    | some user ↦ some user
    | none ↦ id_of (find_user_by_email lower i.receiver_email db)
  ]

  -- `getWorkspaceInvitationContext`.
  unfoldable pub get_invitation_context : ℕ → ℕ → Action Db Error Context
  get_invitation_context now token = do
    i ← or_throw (← gets (find_workspace_invitation_by_token token)) invitation_not_found
    workspace ← or_throw (← gets (find_workspace_by_id i.workspace_id)) workspace_not_found
    receiver ← gets (resolved_receiver i)
    existing ← gets (member_of i.workspace_id receiver)
    gets (context_of now i workspace receiver existing)

  -- `resolveWorkspaceInvitationReceiver`, for the e-mail and the receiver of the invitation.
  unfoldable pub resolve_receiver : Text → Option ℕ → Action Db Error UserRow
  resolve_receiver email (some user) =
      gets (find_user_by_id user) >>= λ u. or_throw u member_user_not_found
  resolve_receiver email none =
      gets (find_user_by_email lower email) >>= λ u. or_throw u signup_required

  -- The transaction of `acceptWorkspaceInvitation`.
  unfoldable pub accept_in : ℕ → ℕ → Action Db Error (MemberRow × WorkspaceRecord)
  unfolding get_invitation_context ensure_pending resolve_receiver accept_as
  accept_in now token = do
    context ← get_invitation_context now token
    ensure_pending context.status
    receiver ← resolve_receiver context.invitation.receiver_email context.invitation.receiver_id
    accept_as now context.invitation context.workspace receiver

  unfoldable pub accept_workspace_invitation : ℕ → ℕ → Action WorkspaceApp Error WorkspaceRecord
  unfolding accept_in
  accept_workspace_invitation now token = run (accept_in now token) >>= announce_acceptance

  -- The transaction of `declineWorkspaceInvitation`.
  unfoldable pub decline_in : ℕ → ℕ → Action Db Error (Unit {0})
  unfolding get_invitation_context ensure_pending
  decline_in now token = do
    context ← get_invitation_context now token
    ensure_pending context.status
    create_workspace_invitation_event now context.invitation.invitation_id
        context.invitation.receiver_id InvitationEventType.denied

  unfoldable pub decline_workspace_invitation : ℕ → ℕ → Action WorkspaceApp Error (Unit {0})
  unfolding decline_in
  decline_workspace_invitation now token = run (decline_in now token)

  -- `resolveWorkspaceInvitationCreateReceiver`.
  unfoldable pub resolve_create_receiver : Option ℕ → Field Text → Action Db Error Receiver
  resolve_create_receiver (some user) email = do
    u ← or_throw (← gets (find_user_by_id user)) member_user_not_found
    pure (receiver_of u)
  resolve_create_receiver none email = do
    address ← or_throw (truthy email) recipient_required
    found ← gets (find_user_by_email lower address)
    pure (addressed address found)

  -- The row that is proposed; `lifetime` is the configured one, in seconds.
  abbrev pub proposed : ℕ → ℕ → ℕ → ℕ → ℕ → ℕ → CreateInvitationDto → Receiver → InvitationRow
  proposed lifetime now fresh token user id dto receiver = record {
    invitation_id = fresh;
    workspace_id = id;
    sender_id = user;
    receiver_id = receiver.user_id;
    receiver_email = lower receiver.email;
    role = dto.role;
    token = token;
    expires_at = now + lifetime * 1000;
  }

  -- The transaction of `createWorkspaceInvitation`.
  unfoldable pub invite_in :
      ℕ → ℕ → ℕ → ℕ → ℕ → ℕ → CreateInvitationDto → Action Db Error (InvitationRow × Receiver)
  unfolding resolve_create_receiver
  invite_in lifetime now fresh token user id dto = do
    workspace ←
        or_throw (← gets (find_workspace_by_id_and_admin_user_id id user)) workspace_not_found
    receiver ← resolve_create_receiver dto.receiver_id dto.email
    existing ← gets (member_of id receiver.user_id)
    throw_if (is_some existing) member_already_exists
    i ← create_workspace_invitation (proposed lifetime now fresh token user id dto receiver)
    pure (i, receiver)

  -- The e-mail and the event come after the transaction.
  unfoldable pub create_invitation :
      ℕ → Bool → ℕ → ℕ → ℕ → ℕ → ℕ → CreateInvitationDto → Action WorkspaceApp Error InvitationRow
  unfolding invite_in
  create_invitation lifetime delivered now fresh token user id dto = do
    result ← run (invite_in lifetime now fresh token user id dto)
    throw_if (not delivered) delivery_failed
    query (
        create_workspace_invitation_event now result.0.invitation_id (some user)
          InvitationEventType.sent)
    notify_invited result.0 result.1.user_id
    pure result.0
