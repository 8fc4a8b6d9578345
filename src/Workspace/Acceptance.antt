-- ===== src/Workspace/Acceptance.antt =====
-- An invitation is accepted once.
use prism_nestjs.Prelude.{ℕ, ◌<◌, ◌≡◌, refl, Option, none, some, List, All}
use prism_nestjs.Prelude.Text.{Text}
use prism_nestjs.Prelude.Action.{Result, ok, err}
use prism_nestjs.Tables.{MemberRow}
use prism_nestjs.Workspace.{
  WorkspaceRecord, InvitationRow, InvitationEventType, InvitationEventRow, InvitationStatus, Db,
  Error, invitation_already_accepted,
}
use prism_nestjs.Workspace.Repository.{
  find_workspace_invitation_by_token, find_workspace_by_id, find_latest_workspace_invitation_event,
}
use prism_nestjs.Workspace.Invitations.{
  Context, context_of, get_invitation_context, ensure_pending, accept_in, decline_in,
  resolved_receiver, member_of, resolve_invitation_status,
}
use prism_nestjs.Workspace.Inversion.{
  latest_of-append, find-attached, accepted_event, accept_in-inv,
}

latest-status :
    (now : ℕ) (j : InvitationRow) (w : WorkspaceRecord) (r : Option ℕ) (m : Option MemberRow)
    (e : InvitationEventRow) (s : Db)
    → find_latest_workspace_invitation_event j.invitation_id s ≡ some e
    → e.event_type ≡ InvitationEventType.accepted
    → (context_of now j w r m s).status ≡ InvitationStatus.accepted
unfolding resolve_invitation_status
latest-status now j w r (some m) e s h a = refl
latest-status now j w r none e s h a = rw (h, a) refl

context-accepted :
    (lower : Text → Text) (now token : ℕ) (j : InvitationRow) (w : WorkspaceRecord)
    (e : InvitationEventRow) (s : Db)
    → find_workspace_invitation_by_token token s ≡ some j
    → find_workspace_by_id j.workspace_id s ≡ some w
    → find_latest_workspace_invitation_event j.invitation_id s ≡ some e
    → e.event_type ≡ InvitationEventType.accepted
    → (c : Context) × ◌≡◌ {A = Result Error Context × Db}
        (get_invitation_context lower now token s)
        (ok c, s)
      × (c.status ≡ InvitationStatus.accepted)
unfolding get_invitation_context
context-accepted lower now token j w e s hj hw he ha =
    let r = resolved_receiver lower j s in
    let m = member_of j.workspace_id r s in
    (context_of now j w r m s, rw (hj, hw) refl, latest-status now j w r m e s he ha)

refused :
    (lower : Text → Text) (now token : ℕ) (c : Context) (s : Db)
    → get_invitation_context lower now token s ≡ (ok c, s)
    → c.status ≡ InvitationStatus.accepted
    → (accept_in lower now token s ≡ (err invitation_already_accepted, s))
      × (decline_in lower now token s ≡ (err invitation_already_accepted, s))
unfolding accept_in decline_in ensure_pending
refused lower now token c s h a = (rw (h, a) refl, rw (h, a) refl)

-- Where every event is earlier than the acceptance, an invitation that was accepted is accepted or
-- declined no more: at any time, and whatever members have left or joined since, both are refused as
-- already accepted and change nothing.
pub accept-once :
    (lower : Text → Text) (now token : ℕ) (db t : Db) (r : MemberRow × WorkspaceRecord)
    → All (λ e. e.created_at < now) db.invitation_events
    → accept_in lower now token db ≡ (ok r, t)
    → (at : ℕ) (ms : List MemberRow)
    → (accept_in lower at token (record t { members = ms })
        ≡ (err invitation_already_accepted, record t { members = ms }))
      × (decline_in lower at token (record t { members = ms })
          ≡ (err invitation_already_accepted, record t { members = ms }))
unfolding find_workspace_invitation_by_token find_workspace_by_id
    find_latest_workspace_invitation_event
accept-once lower now token db t r past h at ms =
    let (i, w, user, hi, hw, (ew, ei, ee, eu)) = accept_in-inv lower now token db t r h in
    let (j, hj, id, ws) = find-attached token i.invitation_id user i db.invitations hi in
    let s : Db = record t { members = ms } in
    let (c, hc, st) =
      context-accepted lower at token j w (accepted_event now i.invitation_id user) s (rw ei hj)
        (rw (ew, ws) hw)
        (rw (ee, id)
          (latest_of-append t.leads i.invitation_id (accepted_event now i.invitation_id user)
            db.invitation_events refl past))
        refl in
    refused lower at token c s hc st
