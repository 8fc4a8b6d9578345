-- ===== src/Workspace/Ownership/Queries.antt =====
-- The queries of the transactions on invitations change nothing.
use prism_nestjs.Prelude.{ℕ, Option, none, some}
use prism_nestjs.Prelude.Text.{Text}
use prism_nestjs.Prelude.Action.{Result, Keeps, or_throw-Keeps, found_cases}
use prism_nestjs.Workspace.{
  InvitationStatus, Db, Error, invitation_not_found, workspace_not_found, member_user_not_found,
  signup_required,
}
use prism_nestjs.Workspace.Repository.{
  find_workspace_by_id, find_user_by_id, find_user_by_email, find_workspace_invitation_by_token,
}
use prism_nestjs.Workspace.Invitations.{get_invitation_context, ensure_pending, resolve_receiver}

-- Queries keep every property of the state.
module _ (P : Db → Type 0) where
  pub ensure_pending-Keeps : (s : InvitationStatus) → Keeps P (ensure_pending s)
  unfolding ensure_pending
  ensure_pending-Keeps InvitationStatus.pending db v = v
  ensure_pending-Keeps InvitationStatus.accepted db v = v
  ensure_pending-Keeps InvitationStatus.declined db v = v
  ensure_pending-Keeps InvitationStatus.expired db v = v
  ensure_pending-Keeps InvitationStatus.cancelled db v = v

  abbrev Same : {A : Type 0} → Result Error A × Db → Type 0
  Same p = P p.1

  pub get_invitation_context-Keeps :
      (lower : Text → Text) (now token : ℕ) → Keeps P (get_invitation_context lower now token)
  unfolding get_invitation_context
  get_invitation_context-Keeps lower now token db v =
      found_cases Same db (find_workspace_invitation_by_token token) invitation_not_found _ (λ _. v)
        λ i hi.
          found_cases Same db (find_workspace_by_id i.workspace_id) workspace_not_found _ (λ _. v)
            λ w hw. v

  pub resolve_receiver-Keeps :
      (lower : Text → Text) (email : Text) (o : Option ℕ) → Keeps P (resolve_receiver lower email o)
  unfolding resolve_receiver
  resolve_receiver-Keeps lower email none db v =
      or_throw-Keeps P (find_user_by_email lower email db) signup_required db v
  resolve_receiver-Keeps lower email (some user) db v =
      or_throw-Keeps P (find_user_by_id user db) member_user_not_found db v
