-- ===== src/Workspace/Ownership/Invitations.antt =====
-- The transactions on invitations keep owners and roles in agreement.
use prism_nestjs.Prelude.{
  ℕ, ◌≡◌, false, not, ◌&&◌, Option, none, some, [], ◌∷◌, ◌++◌, any, find, update, is_some, arith,
  if_cases,
}
use prism_nestjs.Prelude.Text.{Text}
use prism_nestjs.Prelude.Field.{Field, truthy}
use prism_nestjs.Prelude.Action.{
  Result, ok, Action, Keeps, or_throw-Keeps, bind-Keeps, found_cases, test_cases, pure, gets,
  or_throw, throw_if, ◌>>=◌, ◌>>◌,
}
use prism_nestjs.Tables.{MemberRow, is_membership}
use prism_nestjs.Workspace.{
  AssignableRole, to_role, WorkspaceRecord, UserRow, InvitationRow, InvitationEventType, Db, Error,
  CreateInvitationDto, member_already_exists, member_not_found, workspace_not_found,
  member_user_not_found, recipient_required,
}
use prism_nestjs.Workspace.Repository.{
  may_join, find_workspace_member, find_user_by_id, find_user_by_email, create_workspace_membership,
  create_workspace_invitation, clashes, same_target, renewed,
  find_workspace_by_id_and_admin_user_id, attach_workspace_invitation_receiver, receiver_taken,
  create_workspace_invitation_event,
}
use prism_nestjs.Workspace.Invitations.{
  get_invitation_context, member_of, ensure_pending, resolve_receiver, accept_as, accept_in,
  decline_in, resolve_create_receiver, receiver_of, addressed, Receiver, invite_in, proposed,
}
use prism_nestjs.Workspace.Ownership.{
  is_owner, IsValid, Owned, role_at-append, role_at-none, assignable,
}
use prism_nestjs.Workspace.Ownership.Queries.{
  ensure_pending-Keeps, get_invitation_context-Keeps, resolve_receiver-Keeps,
}

joined-IsValid :
    (m : MemberRow) (db : Db)
    → IsValid db
    → any (is_membership m.workspace_id m.user_id) db.members ≡ false
    → is_owner (some m.role) ≡ false
    → IsValid (record db { members = db.members ++ m ∷ [] })
joined-IsValid m db v h e = (
  v.0,
  λ i u. ground (
    arith,
    role_at-append i u db.members m h,
    role_at-none m.workspace_id m.user_id db.members h,
    v.1 i u,
  ),
)

module _ (at : ℕ) (by : Option ℕ) where
  create_workspace_membership-Keeps :
      (id user : ℕ) (r : AssignableRole)
      → Keeps (Owned at by) (create_workspace_membership id user (to_role r))
  unfolding create_workspace_membership
  create_workspace_membership-Keeps id user r db v =
      if_cases {A = Result Error (Unit {0}) × Db} (λ p. Owned at by p.1) (may_join id user db) _ _
        (λ h. (
          joined-IsValid (record { workspace_id = id; user_id = user; role = to_role r }) db v.0
              (ground arith) (assignable r),
          v.1,
        ))
        (λ _. v)

  attach-Keeps : (id user : ℕ) → Keeps (Owned at by) (attach_workspace_invitation_receiver id user)
  unfolding attach_workspace_invitation_receiver
  attach-Keeps id user db v =
      if_cases {A = Result Error (Unit {0}) × Db} (λ p. Owned at by p.1)
        (receiver_taken id user db.invitations) _ _ (λ _. v) (λ _. v)

  -- What follows the membership.
  abbrev attached :
      ℕ → InvitationRow → WorkspaceRecord → UserRow → Action Db Error (MemberRow × WorkspaceRecord)
  attached now i w u = do
    attach_workspace_invitation_receiver i.invitation_id u.user_id
    create_workspace_invitation_event now i.invitation_id (some u.user_id)
        InvitationEventType.accepted
    member ← or_throw (← gets (find_workspace_member i.workspace_id u.user_id)) member_not_found
    pure (member, w)

  pub event-Keeps :
      (now id : ℕ) (actor : Option ℕ) (kind : InvitationEventType)
      → Keeps (Owned at by) (create_workspace_invitation_event now id actor kind)
  unfolding create_workspace_invitation_event
  event-Keeps now id actor kind db v = v

  -- The last steps.
  abbrev answered :
      InvitationRow → WorkspaceRecord → UserRow → Action Db Error (MemberRow × WorkspaceRecord)
  answered i w u = do
    member ← or_throw (← gets (find_workspace_member i.workspace_id u.user_id)) member_not_found
    pure (member, w)

  answered-Keeps :
      (i : InvitationRow) (w : WorkspaceRecord) (u : UserRow) → Keeps (Owned at by) (answered i w u)
  answered-Keeps i w u db v =
      found_cases (λ p. Owned at by p.1) db (find_workspace_member i.workspace_id u.user_id)
        member_not_found (λ m. pure (m, w)) (λ _. v) (λ m hm. v)

  attached-Keeps :
      (now : ℕ) (i : InvitationRow) (w : WorkspaceRecord) (u : UserRow)
      → Keeps (Owned at by) (attached now i w u)
  attached-Keeps now i w u =
      bind-Keeps (Owned at by) (attach_workspace_invitation_receiver i.invitation_id u.user_id)
        (λ _.
          create_workspace_invitation_event now i.invitation_id (some u.user_id)
            InvitationEventType.accepted
          >>= λ _. answered i w u)
        (attach-Keeps i.invitation_id u.user_id)
        λ _.
          bind-Keeps (Owned at by)
            (create_workspace_invitation_event now i.invitation_id (some u.user_id)
              InvitationEventType.accepted)
            (λ _. answered i w u)
            (event-Keeps now i.invitation_id (some u.user_id) InvitationEventType.accepted)
            (λ _. answered-Keeps i w u)

  accept_as-Keeps :
      (now : ℕ) (i : InvitationRow) (w : WorkspaceRecord) (u : UserRow)
      → Keeps (Owned at by) (accept_as now i w u)
  unfolding accept_as
  accept_as-Keeps now i w u db v =
      test_cases (λ p. Owned at by p.1) db
        (is_some (find_workspace_member i.workspace_id u.user_id db)) member_already_exists _
        (λ _. v)
        λ _.
          bind-Keeps (Owned at by)
            (create_workspace_membership i.workspace_id u.user_id (to_role i.role))
            (λ _. attached now i w u)
            (create_workspace_membership-Keeps i.workspace_id u.user_id i.role)
            (λ _. attached-Keeps now i w u) db v

  pub accept_in-Keeps :
      (lower : Text → Text) (now token : ℕ) → Keeps (Owned at by) (accept_in lower now token)
  unfolding accept_in
  accept_in-Keeps lower now token =
      bind-Keeps (Owned at by) (get_invitation_context lower now token) _
        (get_invitation_context-Keeps (Owned at by) lower now token)
        λ c.
          bind-Keeps (Owned at by) (ensure_pending c.status) _
            (ensure_pending-Keeps (Owned at by) c.status)
            λ _.
              bind-Keeps (Owned at by)
                (resolve_receiver lower c.invitation.receiver_email c.invitation.receiver_id) _
                (resolve_receiver-Keeps (Owned at by) lower c.invitation.receiver_email
                  c.invitation.receiver_id)
                λ u. accept_as-Keeps now c.invitation c.workspace u

  pub decline_in-Keeps :
      (lower : Text → Text) (now token : ℕ) → Keeps (Owned at by) (decline_in lower now token)
  unfolding decline_in
  decline_in-Keeps lower now token =
      bind-Keeps (Owned at by) (get_invitation_context lower now token) _
        (get_invitation_context-Keeps (Owned at by) lower now token)
        λ c.
          bind-Keeps (Owned at by) (ensure_pending c.status) _
            (ensure_pending-Keeps (Owned at by) c.status)
            λ _.
              event-Keeps now c.invitation.invitation_id c.invitation.receiver_id
                InvitationEventType.denied

  create_receiver-Keeps :
      (lower : Text → Text) (user : Option ℕ) (email : Field Text)
      → Keeps (Owned at by) (resolve_create_receiver lower user email)
  unfolding resolve_create_receiver
  create_receiver-Keeps lower (some user) email db v =
      found_cases (λ p. Owned at by p.1) db (find_user_by_id user) member_user_not_found
        (λ u. pure (receiver_of u)) (λ _. v) (λ u hu. v)
  create_receiver-Keeps lower none email db v =
      bind-Keeps (Owned at by) (or_throw {E = Error} (truthy email) recipient_required)
        (λ a. gets (find_user_by_email lower a) >>= λ found. pure (addressed a found))
        (or_throw-Keeps (Owned at by) (truthy email) recipient_required) (λ a db v. v) db v

  create_workspace_invitation-Keeps :
      (i : InvitationRow) → Keeps (Owned at by) (create_workspace_invitation i)
  unfolding create_workspace_invitation
  create_workspace_invitation-Keeps i db v =
      if_cases {A = Result Error InvitationRow × Db} (λ p. Owned at by p.1)
        (any (λ j. clashes i j && not (same_target i j)) db.invitations) _ _ (λ _. v)
        (λ _. go (find (same_target i) db.invitations))
    where
      go :
          (o : Option InvitationRow)
          → Owned at by
              (elim o as (λ _. Result Error InvitationRow × Db) [
                | some j ↦ (
                  ok (renewed i j),
                  record db { invitations = update (same_target i) (renewed i) db.invitations },
                )
                | none ↦ (ok i, record db { invitations = db.invitations ++ i ∷ [] })
              ]).1
      go none = v
      go (some j) = v

  -- What follows the choice of the receiver.
  abbrev invited :
      (Text → Text)
      → ℕ
      → ℕ
      → ℕ
      → ℕ
      → ℕ
      → ℕ
      → CreateInvitationDto
      → Receiver
      → Action Db Error (InvitationRow × Receiver)
  invited lower lifetime now fresh token user id dto receiver = do
    existing ← gets (member_of id receiver.user_id)
    throw_if (is_some existing) member_already_exists
    i ← create_workspace_invitation (proposed lower lifetime now fresh token user id dto receiver)
    pure (i, receiver)

  invited-Keeps :
      (lower : Text → Text) (lifetime now fresh token user id : ℕ) (dto : CreateInvitationDto)
      (receiver : Receiver)
      → Keeps (Owned at by) (invited lower lifetime now fresh token user id dto receiver)
  invited-Keeps lower lifetime now fresh token user id dto receiver db v =
      test_cases (λ p. Owned at by p.1) db (is_some (member_of id receiver.user_id db))
        member_already_exists _ (λ _. v)
        λ _.
          bind-Keeps (Owned at by)
            (create_workspace_invitation
              (proposed lower lifetime now fresh token user id dto receiver))
            (λ i. pure (i, receiver))
            (create_workspace_invitation-Keeps
              (proposed lower lifetime now fresh token user id dto receiver))
            (λ i db v. v) db v

  pub invite_in-Keeps :
      (lower : Text → Text) (lifetime now fresh token user id : ℕ) (dto : CreateInvitationDto)
      → Keeps (Owned at by) (invite_in lower lifetime now fresh token user id dto)
  unfolding invite_in
  invite_in-Keeps lower lifetime now fresh token user id dto db v =
      found_cases (λ p. Owned at by p.1) db (find_workspace_by_id_and_admin_user_id id user)
        workspace_not_found _ (λ _. v)
        λ w hw.
          bind-Keeps (Owned at by) (resolve_create_receiver lower dto.receiver_id dto.email)
            (invited lower lifetime now fresh token user id dto)
            (create_receiver-Keeps lower dto.receiver_id dto.email)
            (invited-Keeps lower lifetime now fresh token user id dto) db v
