-- ===== src/Workspace/Access.antt =====
-- Who may change members and send invitations.
use prism_nestjs.Prelude.{ℕ, ◌≡◌, refl, sym, ◌&&◌, Bool, true, false, not, none, ◌==◌, any, arith}
use mathlib.Core.Bool.{false≢true}
use prism_nestjs.Prelude.Text.{Text}
use prism_nestjs.Prelude.Driver.{Driver}
use prism_nestjs.Prelude.Action.{err, run-missing}
use prism_nestjs.Workspace.{
  AssignableRole, CreateInvitationDto, WorkspaceApp, Db, workspace_not_found,
}
use prism_nestjs.Workspace.Repository.{is_admin_membership, find_workspace_by_id_and_admin_user_id}
use prism_nestjs.Workspace.Members.{
  find_removing, remove_member_in, remove_workspace_member, update_role_in, update_member_role,
}
use prism_nestjs.Workspace.Invitations.{invite_in, create_invitation}
use prism_nestjs.Workspace.Requests.{
  Request, remove, set_role, invite, transfer, delete, restore, accept, decline, serve,
}

-- The requests that only an owner or an admin of a workspace may make, with the user and the
-- workspace: the removal of someone else, the change of a role, an invitation.
abbrev pub needs_admin : ℕ → ℕ → Request → Bool
needs_admin user id (remove u i target) = (u == user) && (i == id) && not (user == target)
needs_admin user id (set_role u i target role) = (u == user) && (i == id)
needs_admin user id (invite delivered now fresh token u i dto) = (u == user) && (i == id)
needs_admin user id _ = false

no_admin :
    (id user : ℕ) (db : Db)
    → any (is_admin_membership id user) db.members ≡ false
    → find_workspace_by_id_and_admin_user_id id user db ≡ none
unfolding find_workspace_by_id_and_admin_user_id
no_admin id user db h = rw h refl

module _ (driver : Driver) (lower : Text → Text) (lifetime : ℕ) (id user : ℕ) (app : WorkspaceApp)
    (h : any (is_admin_membership id user) app.db.members ≡ false) where
  remove-denied :
      (target : ℕ)
      → (user == target) ≡ false
      → remove_workspace_member driver user id target app ≡ (err workspace_not_found, app)
  unfolding remove_workspace_member remove_member_in
  remove-denied target n =
      run-missing (find_removing user id target) workspace_not_found _ _ app
        (rw n (no_admin id user app.db h))

  set_role-denied :
      (target : ℕ) (role : AssignableRole)
      → update_member_role driver user id target role app ≡ (err workspace_not_found, app)
  unfolding update_member_role update_role_in
  set_role-denied target role =
      run-missing (find_workspace_by_id_and_admin_user_id id user) workspace_not_found _ _ app
        (no_admin id user app.db h)

  invite-denied :
      (delivered : Bool) (now fresh token : ℕ) (dto : CreateInvitationDto)
      → create_invitation lower lifetime delivered now fresh token user id dto app
        ≡ (err workspace_not_found, app)
  unfolding create_invitation invite_in
  invite-denied delivered now fresh token dto =
      run-missing (find_workspace_by_id_and_admin_user_id id user) workspace_not_found _ _ app
        (no_admin id user app.db h)

  -- A user who is neither owner nor admin of a workspace removes nobody else from it, changes no role
  -- and invites nobody: the error is workspace_not_found, and nothing is changed or published.
  pub serve-not_admin :
      (r : Request)
      → needs_admin user id r ≡ true
      → serve driver lower lifetime r app ≡ (err workspace_not_found, app)
  unfolding serve
  serve-not_admin (remove u i target) n =
      let e : user ≡ u = ground arith in
      let f : id ≡ i = ground arith in rw (sym e, sym f) (remove-denied target (ground arith))
  serve-not_admin (set_role u i target role) n =
      let e : user ≡ u = ground arith in
      let f : id ≡ i = ground arith in rw (sym e, sym f, set_role-denied target role) refl
  serve-not_admin (invite delivered now fresh token u i dto) n =
      let e : user ≡ u = ground arith in
      let f : id ≡ i = ground arith in
      rw (sym e, sym f, invite-denied delivered now fresh token dto) refl
  serve-not_admin (transfer u i target) n = absurd (false≢true n)
  serve-not_admin (delete now u i) n = absurd (false≢true n)
  serve-not_admin (restore u i) n = absurd (false≢true n)
  serve-not_admin (accept now token) n = absurd (false≢true n)
  serve-not_admin (decline now token) n = absurd (false≢true n)
