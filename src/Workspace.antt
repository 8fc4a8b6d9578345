-- ===== src/Workspace.antt =====
-- src/modules/workspace: the tables of workspaces, their members and invitations (.sql/ddl_v2.sql),
-- the errors (errors/workspace.errors.ts), the request bodies (dto/workspace.dto.ts) and the events
-- of the publishers. Ids and tokens (UUID columns) are natural numbers, times milliseconds. The
-- foreign key of a member gives it its user, so a join with the users keeps every row; the names
-- and jobs of a member and the time it joined are left out.
mod Examples
pub mod Inversion
pub mod Repository
pub mod Members
pub mod Access
pub mod Deletion
pub mod Acceptance
pub mod Requests
pub mod Ownership
pub mod Invitations
use prism_nestjs.Prelude.{ℕ, Bool, Option, List}
use prism_nestjs.Prelude.Text.{Text}
use prism_nestjs.Prelude.Field.{Field}
use prism_nestjs.Prelude.Driver.{Element}
use prism_nestjs.Prelude.Action.{App}
use prism_nestjs.Tables.{Role, MemberRow}

-- WORKSPACE_ASSIGNABLE_MEMBER_ROLES, which the CHECK of the invitations allows too.
pub data AssignableRole : Type 0 where
  admin member viewer : AssignableRole

abbrev pub to_role : AssignableRole → Role
to_role AssignableRole.admin = Role.admin
to_role AssignableRole.member = Role.member
to_role AssignableRole.viewer = Role.viewer

-- A row of prism_workspaces_l; `is_active` is `status = 'active'`, the other status is 'deleted'.
pub record WorkspaceRecord : Type 0 where
  pub workspace_id : ℕ
  pub owner_id : ℕ
  pub name : Text
  pub slug : Text
  pub description : Option Text
  pub item_code_prefix : Text
  pub is_active : Bool
  pub deleted_at : Option ℕ

-- A user, with whether one of its rows of prism_user_auths_l is verified.
pub record UserRow : Type 0 where
  pub user_id : ℕ
  pub email : Text
  pub is_verified : Bool

pub record InvitationRow : Type 0 where
  pub invitation_id : ℕ
  pub workspace_id : ℕ
  pub sender_id : ℕ
  pub receiver_id : Option ℕ
  pub receiver_email : Text
  pub role : AssignableRole
  pub token : ℕ
  pub expires_at : ℕ

pub data InvitationEventType : Type 0 where
  sent accepted denied expired cancelled : InvitationEventType

pub record InvitationEventRow : Type 0 where
  pub invitation_id : ℕ
  pub actor_id : Option ℕ
  pub event_type : InvitationEventType
  pub created_at : ℕ

-- `leads` is the order that PostgreSQL gives events of one time, where `ORDER BY created_at DESC`
-- says nothing.
pub record Db : Type 0 where
  pub users : List UserRow
  pub workspaces : List WorkspaceRecord
  pub members : List MemberRow
  pub invitations : List InvitationRow
  pub invitation_events : List InvitationEventRow
  pub leads : InvitationEventRow → InvitationEventRow → Bool

pub data InvitationStatus : Type 0 where
  pending accepted declined expired cancelled : InvitationStatus

-- `query_failed` is an error of the database, `type_error` a property of `undefined` that is read,
-- `delivery_failed` what sending the e-mail throws.
pub data Error : Type 0 where
  workspace_not_found member_not_found owner_removal owner_role_update owner_required : Error
  name_already_exists member_already_exists member_user_not_found recipient_required : Error
  signup_required invitation_not_found invitation_already_accepted : Error
  invitation_already_declined invitation_expired invitation_cancelled : Error
  query_failed type_error delivery_failed : Error

-- What the realtime publisher and the notification service are given. A row that an UPDATE returns
-- is what the query's result holds at index 0.
pub data Event : Type 0 where
  member_removed : ℕ → ℕ → Event
  member_updated : ℕ → Option (Element MemberRow) → Event
  member_created : MemberRow → Event
  workspace_added : WorkspaceRecord → ℕ → Event
  workspace_updated : Option (Element WorkspaceRecord) → Event
  workspace_deleted : ℕ → Event
  removal_notified : ℕ → ℕ → ℕ → Event
  invitation_notified : InvitationRow → ℕ → Event

abbrev pub WorkspaceApp : Type 0
WorkspaceApp = App Db Event

pub record CreateInvitationDto : Type 0 where
  pub receiver_id : Option ℕ
  pub email : Field Text
  pub role : AssignableRole
