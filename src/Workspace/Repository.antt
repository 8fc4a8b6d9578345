-- ===== src/Workspace/Repository.antt =====
-- src/modules/workspace/repository/workspace.repository.ts: the queries on workspaces, members and
-- invitations. `lower` is SQL's LOWER, NOW() and gen_random_uuid() are arguments; a statement that
-- breaks a constraint of its table changes nothing and throws.
use prism_nestjs.Prelude.{
  ℕ, Bool, true, false, not, ◌&&◌, ◌||◌, Option, none, some, List, [], ◌∷◌, ◌++◌, map, any, find,
  filter, update, ltb, ◌==◌, is_some, if◌then◌else◌,
}
use prism_nestjs.Prelude.Text.{Text, text_eq}
use prism_nestjs.Prelude.Driver.{Driver, Element, first_element}
use prism_nestjs.Prelude.Action.{ok, err, Action}
use prism_nestjs.Tables.{Role, MemberRow, is_membership}
use prism_nestjs.Workspace.{
  WorkspaceRecord, UserRow, InvitationRow, InvitationEventType, InvitationEventRow, Db, Error,
  query_failed,
}

-- `workspace_id = $1 AND deleted_at IS NULL AND status = 'active'`.
abbrev pub is_live : ℕ → WorkspaceRecord → Bool
is_live id w = (w.workspace_id == id) && not (is_some w.deleted_at) && w.is_active

-- `wm.role IN ('owner', 'admin')`.
abbrev pub administers : Role → Bool
administers Role.owner = true
administers Role.admin = true
administers _ = false

abbrev pub is_admin_membership : ℕ → ℕ → MemberRow → Bool
is_admin_membership id user m = is_membership id user m && administers m.role

unfoldable pub find_workspace_by_id : ℕ → Db → Option WorkspaceRecord
find_workspace_by_id id db = find (is_live id) db.workspaces

unfoldable pub find_workspace_by_id_and_admin_user_id : ℕ → ℕ → Db → Option WorkspaceRecord
find_workspace_by_id_and_admin_user_id id user db =
    if any (is_admin_membership id user) db.members then find (is_live id) db.workspaces else none

unfoldable pub find_workspace_by_id_and_member_user_id : ℕ → ℕ → Db → Option WorkspaceRecord
find_workspace_by_id_and_member_user_id id user db =
    if any (is_membership id user) db.members then find (is_live id) db.workspaces else none

unfoldable pub find_workspace_member : ℕ → ℕ → Db → Option MemberRow
find_workspace_member id user db = find (is_membership id user) db.members

unfoldable pub find_user_by_id : ℕ → Db → Option UserRow
find_user_by_id user db = find (λ u. (u.user_id == user) && u.is_verified) db.users

-- `const [deletedMember] = ...; return Boolean(deletedMember)`: lists are truthy.
unfoldable pub delete_workspace_member_by_user_id : Driver → ℕ → ℕ → Action Db Error Bool
delete_workspace_member_by_user_id driver id user db = (
  ok (is_some (first_element driver (filter (is_membership id user) db.members))),
  record db { members = filter (λ m. not (is_membership id user m)) db.members },
)

abbrev pub with_role : Role → MemberRow → MemberRow
with_role role m = record m { role = role }

unfoldable pub update_workspace_member_role :
    Driver → ℕ → ℕ → Role → Action Db Error (Option (Element MemberRow))
update_workspace_member_role driver id user role db =
    let rows = update (is_membership id user) (with_role role) db.members in
    (ok (first_element driver (filter (is_membership id user) rows)), record db { members = rows })

abbrev pub has_id : ℕ → WorkspaceRecord → Bool
has_id id w = w.workspace_id == id

abbrev pub with_owner : ℕ → WorkspaceRecord → WorkspaceRecord
with_owner user w = record w { owner_id = user }

unfoldable pub update_workspace_owner :
    Driver → ℕ → ℕ → Action Db Error (Option (Element WorkspaceRecord))
update_workspace_owner driver id user db =
    let rows = update (has_id id) (with_owner user) db.workspaces in
    (ok (first_element driver (filter (has_id id) rows)), record db { workspaces = rows })

-- The primary key (workspace_id, user_id) and the foreign keys.
abbrev pub may_join : ℕ → ℕ → Db → Bool
may_join id user db =
    not (any (is_membership id user) db.members)
    && any (has_id id) db.workspaces
    && any (λ u. u.user_id == user) db.users

unfoldable pub create_workspace_membership : ℕ → ℕ → Role → Action Db Error (Unit {0})
create_workspace_membership id user role db =
    let added : MemberRow = record { workspace_id = id; user_id = user; role = role } in
    if may_join id user db
    then (ok tt, record db { members = db.members ++ added ∷ [] })
    else (err query_failed, db)

unfoldable pub find_workspace_invitation_by_token : ℕ → Db → Option InvitationRow
find_workspace_invitation_by_token token db = find (λ i. i.token == token) db.invitations

abbrev pub same_option : Option ℕ → Option ℕ → Bool
same_option (some a) (some b) = a == b
same_option _ _ = false

-- A row that keeps another out: uq_workspace_invitation_token and the unique index on receivers.
abbrev pub clashes : InvitationRow → InvitationRow → Bool
clashes i j =
    (i.token == j.token)
    || (i.workspace_id == j.workspace_id) && same_option i.receiver_id j.receiver_id

-- The conflict target (workspace_id, receiver_email).
abbrev pub same_target : InvitationRow → InvitationRow → Bool
same_target i j = (i.workspace_id == j.workspace_id) && text_eq i.receiver_email j.receiver_email

-- DO UPDATE SET.
abbrev pub renewed : InvitationRow → InvitationRow → InvitationRow
renewed i j = record j {
  sender_id = i.sender_id;
  receiver_id = i.receiver_id;
  role = i.role;
  token = i.token;
  expires_at = i.expires_at;
}

-- The row given is the proposed one, with its new id and its e-mail in lower case.
unfoldable pub create_workspace_invitation : InvitationRow → Action Db Error InvitationRow
create_workspace_invitation i db =
    if any (λ j. clashes i j && not (same_target i j)) db.invitations
    then (err query_failed, db)
    else elim (find (same_target i) db.invitations) [
      | some j ↦ (
        ok (renewed i j),
        record db { invitations = update (same_target i) (renewed i) db.invitations },
      )
      | none ↦ (ok i, record db { invitations = db.invitations ++ i ∷ [] })
    ]

abbrev pub is_unattached : ℕ → InvitationRow → Bool
is_unattached id i = (i.invitation_id == id) && not (is_some i.receiver_id)

abbrev pub with_receiver : ℕ → InvitationRow → InvitationRow
with_receiver user i = record i { receiver_id = some user }

-- Another invitation of the workspace has the receiver.
abbrev pub receiver_taken : ℕ → ℕ → List InvitationRow → Bool
receiver_taken id user rows =
    any
      (λ i.
        is_unattached id i
        && any (λ j. (j.workspace_id == i.workspace_id) && same_option j.receiver_id (some user))
            rows)
      rows

unfoldable pub attach_workspace_invitation_receiver : ℕ → ℕ → Action Db Error (Unit {0})
attach_workspace_invitation_receiver id user db =
    if receiver_taken id user db.invitations then (err query_failed, db) else (
      ok tt,
      record db { invitations = update (is_unattached id) (with_receiver user) db.invitations },
    )

module _ (leads : InvitationEventRow → InvitationEventRow → Bool) where
  -- The later of two events by `created_at`; of two at the same time, the one that leads.
  abbrev pub later : InvitationEventRow → Option InvitationEventRow → InvitationEventRow
  later e none = e
  later e (some f) =
      if e.created_at == f.created_at
      then if leads e f then e else f
      else if ltb f.created_at e.created_at
      then e
      else f

  abbrev pub latest_of : ℕ → List InvitationEventRow → Option InvitationEventRow
  latest_of id [] = none
  latest_of id (e ∷ events) =
      let rest = latest_of id events in if e.invitation_id == id then some (later e rest) else rest

unfoldable pub find_latest_workspace_invitation_event : ℕ → Db → Option InvitationEventRow
find_latest_workspace_invitation_event id db = latest_of db.leads id db.invitation_events

unfoldable pub create_workspace_invitation_event :
    ℕ → ℕ → Option ℕ → InvitationEventType → Action Db Error (Unit {0})
create_workspace_invitation_event now id actor kind db =
    let added : InvitationEventRow = record {
      invitation_id = id;
      actor_id = actor;
      event_type = kind;
      created_at = now;
    } in
    (ok tt, record db { invitation_events = db.invitation_events ++ added ∷ [] })

abbrev pub is_owned : ℕ → ℕ → WorkspaceRecord → Bool
is_owned id user w = is_live id w && (w.owner_id == user)

abbrev pub marked_deleted : ℕ → WorkspaceRecord → WorkspaceRecord
marked_deleted now w = record w { is_active = false; deleted_at = some now }

unfoldable pub mark_workspace_deleted_by_id_and_owner_id : Driver → ℕ → ℕ → ℕ → Action Db Error Bool
mark_workspace_deleted_by_id_and_owner_id driver now id user db = (
  ok (is_some (first_element driver (filter (is_owned id user) db.workspaces))),
  record db { workspaces = update (is_owned id user) (marked_deleted now) db.workspaces },
)

abbrev pub is_restorable : ℕ → ℕ → WorkspaceRecord → Bool
is_restorable id user w =
    (w.workspace_id == id) && (w.owner_id == user) && is_some w.deleted_at && not w.is_active

abbrev pub marked_active : WorkspaceRecord → WorkspaceRecord
marked_active w = record w { is_active = true; deleted_at = none }

unfoldable pub restore_workspace_by_id_and_owner_id :
    Driver → ℕ → ℕ → Action Db Error (Option (Element WorkspaceRecord))
restore_workspace_by_id_and_owner_id driver id user db = (
  ok (first_element driver (map marked_active (filter (is_restorable id user) db.workspaces))),
  record db { workspaces = update (is_restorable id user) marked_active db.workspaces },
)

module _ (lower : Text → Text) where
  unfoldable pub find_user_by_email : Text → Db → Option UserRow
  find_user_by_email email db =
      find (λ u. text_eq (lower u.email) (lower email) && u.is_verified) db.users
