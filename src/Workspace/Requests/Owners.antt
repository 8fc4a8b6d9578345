-- ===== src/Workspace/Requests/Owners.antt =====
-- Every request keeps owners and roles in agreement, and ownership moves by a transfer only.
use prism_nestjs.Prelude.{
  ℕ, ◌≡◌, refl, ◌&&◌, Bool, true, false, Option, not, none, some, ◌==◌, if◌then◌else◌, if_cases,
}
use prism_nestjs.Prelude.Text.{Text}
use prism_nestjs.Prelude.Driver.{Driver, Element, row, all_rows}
use prism_nestjs.Prelude.Action.{
  Action, Keeps, bind-Keeps, run-Keeps, query-Keeps, pure, run, query, publish, throw_if, ◌>>=◌,
  ◌>>◌,
}
use prism_nestjs.Tables.{MemberRow}
use prism_nestjs.Workspace.{
  WorkspaceRecord, InvitationRow, InvitationEventType, Db, Error, WorkspaceApp, member_removed,
  member_updated, workspace_deleted, delivery_failed,
}
use prism_nestjs.Workspace.Repository.{create_workspace_invitation_event}
use prism_nestjs.Workspace.Members.{
  remove_member_in, remove_workspace_member, notify_removed, update_role_in, update_member_role,
  transfer_in, transfer_workspace_owner, announce_transfer, publish_updated, user_id_of, differ,
  delete_in, delete_workspace, restore_in, restore_workspace,
}
use prism_nestjs.Workspace.Invitations.{
  Receiver, accept_in, accept_workspace_invitation, announce_acceptance,
  decline_workspace_invitation, invite_in, create_invitation, notify_invited,
}
use prism_nestjs.Workspace.Ownership.{IsValid, Owned, owner_at, is_user}
use prism_nestjs.Workspace.Ownership.Members.{
  remove_member_in-Keeps, update_role_in-Keeps, transfer_in-Keeps, transfer_in-IsValid,
  delete_in-Keeps, restore_in-Keeps,
}
use prism_nestjs.Workspace.Ownership.Invitations.{
  accept_in-Keeps, decline_in-Keeps, invite_in-Keeps, event-Keeps,
}
use prism_nestjs.Workspace.Requests.{
  Request, remove, set_role, transfer, delete, restore, invite, accept, decline, ended, serve,
}

abbrev pub OnDb : (Db → Type 0) → WorkspaceApp → Type 0
OnDb P app = P app.db

-- The end of the announcement of a transfer.
abbrev announced_members :
    Driver
    → ℕ
    → Option (Element WorkspaceRecord)
    → Option (Element MemberRow)
    → Option (Element MemberRow)
    → Option ℕ
    → Option ℕ
    → Action WorkspaceApp Error (Option (Element WorkspaceRecord))
announced_members driver id updated previous next a b = do
  if differ driver a b then publish (member_updated id previous) else pure tt
  publish (member_updated id next)
  pure updated

-- What follows the transaction of an invitation.
abbrev invitation_sent :
    Bool → ℕ → ℕ → InvitationRow × Receiver → Action WorkspaceApp Error InvitationRow
invitation_sent delivered now user result = do
  throw_if (not delivered) delivery_failed
  query (
      create_workspace_invitation_event now result.0.invitation_id (some user)
        InvitationEventType.sent)
  notify_invited result.0 result.1.user_id
  pure result.0

-- What comes after the queries.
module _ (P : Db → Type 0) where
  ended-Keeps :
      {A : Type 0} (m : Action WorkspaceApp Error A) → Keeps (OnDb P) m → Keeps (OnDb P) (ended m)
  ended-Keeps m k = bind-Keeps (OnDb P) m _ k λ a app v. v

  notify_removed-Keeps :
      (driver : Driver) (user target : ℕ) (r : WorkspaceRecord × MemberRow)
      → Keeps (OnDb P) (notify_removed driver user target r)
  notify_removed-Keeps driver user target r app v =
      if_cases {A = Action WorkspaceApp Error (Unit {0})} (λ m. OnDb P (m app).1) (user == target) _
        _ (λ _. v) (λ _. v)

  publish_updated-Keeps :
      (driver : Driver) (w : Option (Element WorkspaceRecord))
      → Keeps (OnDb P) (publish_updated driver w)
  publish_updated-Keeps driver none app v = v
  publish_updated-Keeps driver (some w) app v = v

  user_id_of-Keeps :
      (driver : Driver) (m : Option (Element MemberRow)) → Keeps (OnDb P) (user_id_of driver m)
  user_id_of-Keeps driver none app v = v
  user_id_of-Keeps driver (some (row m)) app v = v
  user_id_of-Keeps driver (some (all_rows ms)) app v = v

  announced_members-Keeps :
      (driver : Driver) (id : ℕ) (updated : Option (Element WorkspaceRecord))
      (previous next : Option (Element MemberRow)) (a b : Option ℕ)
      → Keeps (OnDb P) (announced_members driver id updated previous next a b)
  announced_members-Keeps driver id updated previous next a b =
      if_cases {A = Action WorkspaceApp Error (Unit {0})}
        (λ m. Keeps (OnDb P) (m >>= λ _. publish (member_updated id next) >>= λ _. pure updated))
        (differ driver a b) _ _ (λ _ app v. v) (λ _ app v. v)

  announce_transfer-Keeps :
      (driver : Driver) (id : ℕ) (updated : Option (Element WorkspaceRecord))
      (previous next : Option (Element MemberRow))
      → Keeps (OnDb P) (announce_transfer driver id (updated, previous, next))
  announce_transfer-Keeps driver id updated previous next =
      bind-Keeps (OnDb P) (publish_updated driver updated) _ (publish_updated-Keeps driver updated)
        λ _.
          bind-Keeps (OnDb P) (user_id_of driver previous) _ (user_id_of-Keeps driver previous) λ a.
            bind-Keeps (OnDb P) (user_id_of driver next) _ (user_id_of-Keeps driver next)
              λ b. announced_members-Keeps driver id updated previous next a b

  notify_invited-Keeps : (i : InvitationRow) (o : Option ℕ) → Keeps (OnDb P) (notify_invited i o)
  notify_invited-Keeps i none app v = v
  notify_invited-Keeps i (some user) app v = v

  invitation_sent-Keeps :
      ((now id : ℕ) (actor : Option ℕ) (kind : InvitationEventType)
        → Keeps P (create_workspace_invitation_event now id actor kind))
      → (delivered : Bool) (now user : ℕ) (r : InvitationRow × Receiver)
      → Keeps (OnDb P) (invitation_sent delivered now user r)
  invitation_sent-Keeps k true now user r app v =
      bind-Keeps (OnDb P)
        (query (
          create_workspace_invitation_event now r.0.invitation_id (some user)
            InvitationEventType.sent))
        (λ _. notify_invited r.0 r.1.user_id >>= λ _. pure r.0)
        (query-Keeps P
          (create_workspace_invitation_event now r.0.invitation_id (some user)
            InvitationEventType.sent)
          (k now r.0.invitation_id (some user) InvitationEventType.sent))
        (λ _.
          bind-Keeps (OnDb P) (notify_invited r.0 r.1.user_id) (λ _. pure r.0)
            (notify_invited-Keeps r.0 r.1.user_id) (λ _ app v. v))
        app v
  invitation_sent-Keeps k false now user r app v = v

  transfer-Keeps :
      (driver : Driver) (user id target : ℕ)
      → Keeps P (transfer_in driver user id target)
      → Keeps (OnDb P) (transfer_workspace_owner driver user id target)
  unfolding transfer_workspace_owner
  transfer-Keeps driver user id target k =
      bind-Keeps (OnDb P) (run (transfer_in driver user id target)) (announce_transfer driver id)
        (run-Keeps P (transfer_in driver user id target) k)
        λ (updated, previous, next). announce_transfer-Keeps driver id updated previous next

-- The owner of the workspace hands it over.
abbrev pub hands_over : ℕ → Option ℕ → Request → Bool
hands_over at by (transfer user id target) = (at == id) && is_user by user
hands_over at by _ = false

module _ (driver : Driver) (lower : Text → Text) (lifetime : ℕ) (at : ℕ) (by : Option ℕ) where
  abbrev P : Db → Type 0
  P = Owned at by

  -- In such tables, every request but a transfer by the owner keeps the owner of a workspace, and so
  -- the one member of it with that role.
  pub serve-Owned :
      (r : Request)
      → hands_over at by r ≡ false
      → Keeps (OnDb (Owned at by)) (serve driver lower lifetime r)
  unfolding serve remove_workspace_member update_member_role delete_workspace restore_workspace
      create_invitation accept_workspace_invitation decline_workspace_invitation
  serve-Owned (remove user id target) n =
      bind-Keeps (OnDb P) (run (remove_member_in driver user id target))
        (λ r. publish (member_removed id target) >>= λ _. notify_removed driver user target r)
        (run-Keeps P _ (remove_member_in-Keeps at by driver user id target))
        (λ r app v. notify_removed-Keeps (Owned at by) driver user target r _ v)
  serve-Owned (set_role user id target role) n = ended-Keeps P _ (
      bind-Keeps (OnDb P) (run (update_role_in driver user id target role))
        (λ u. publish (member_updated id u) >>= λ _. pure u)
        (run-Keeps P _ (update_role_in-Keeps at by driver user id target role)) (λ u app v. v))
  serve-Owned (transfer user id target) n =
      ended-Keeps P _
        (transfer-Keeps P driver user id target (transfer_in-Keeps at by driver user id target n))
  serve-Owned (delete now user id) n =
      bind-Keeps (OnDb P) (query (delete_in driver now user id))
        (λ _. publish (workspace_deleted id))
        (query-Keeps P (delete_in driver now user id) (delete_in-Keeps at by driver now user id))
        (λ _ app v. v)
  serve-Owned (restore user id) n =
      ended-Keeps P _
        (query-Keeps P (restore_in driver user id) (restore_in-Keeps at by driver user id))
  serve-Owned (invite delivered now fresh token user id dto) n = ended-Keeps P _ (
      bind-Keeps (OnDb P) (run (invite_in lower lifetime now fresh token user id dto))
        (invitation_sent delivered now user)
        (run-Keeps P _ (invite_in-Keeps at by lower lifetime now fresh token user id dto))
        (invitation_sent-Keeps P (event-Keeps at by) delivered now user))
  serve-Owned (accept now token) n = ended-Keeps P _ (
      bind-Keeps (OnDb P) (run (accept_in lower now token)) announce_acceptance
        (run-Keeps P _ (accept_in-Keeps at by lower now token)) (λ r app v. v))
  serve-Owned (decline now token) n = run-Keeps P _ (decline_in-Keeps at by lower now token)

module _ (driver : Driver) (lower : Text → Text) (lifetime : ℕ) where
  -- Every request on a workspace, done or refused, keeps the ids of workspaces unique, and keeps the
  -- members with the role of an owner exactly the users that `owner_id` names.
  pub serve-IsValid : (r : Request) → Keeps (OnDb IsValid) (serve driver lower lifetime r)
  unfolding serve
  serve-IsValid (transfer user id target) app v =
      ended-Keeps IsValid (transfer_workspace_owner driver user id target)
        (transfer-Keeps IsValid driver user id target (transfer_in-IsValid driver user id target))
        app v
  serve-IsValid (remove user id target) app v =
      (serve-Owned driver lower lifetime 0 (owner_at 0 app.db.workspaces) (remove user id target)
        refl app (v, refl)).0
  serve-IsValid (set_role user id target role) app v =
      (serve-Owned driver lower lifetime 0 (owner_at 0 app.db.workspaces)
        (set_role user id target role) refl app (v, refl)).0
  serve-IsValid (delete now user id) app v =
      (serve-Owned driver lower lifetime 0 (owner_at 0 app.db.workspaces) (delete now user id) refl
        app (v, refl)).0
  serve-IsValid (restore user id) app v =
      (serve-Owned driver lower lifetime 0 (owner_at 0 app.db.workspaces) (restore user id) refl app
        (v, refl)).0
  serve-IsValid (invite delivered now fresh token user id dto) app v =
      (serve-Owned driver lower lifetime 0 (owner_at 0 app.db.workspaces)
        (invite delivered now fresh token user id dto) refl app (v, refl)).0
  serve-IsValid (accept now token) app v =
      (serve-Owned driver lower lifetime 0 (owner_at 0 app.db.workspaces) (accept now token) refl
        app (v, refl)).0
  serve-IsValid (decline now token) app v =
      (serve-Owned driver lower lifetime 0 (owner_at 0 app.db.workspaces) (decline now token) refl
        app (v, refl)).0
