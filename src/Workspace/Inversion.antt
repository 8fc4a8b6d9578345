-- ===== src/Workspace/Inversion.antt =====
-- What an acceptance of an invitation that is done tells of its steps.
use prism_nestjs.Prelude.{
  Bool, ℕ, ◌<◌, ◌≡◌, sym, ap, subst, ◌∙◌, if_cases, Option, none, some, List, [], ◌∷◌, ◌++◌, find,
  update, All, ◌==◌, is_some, if◌then◌else◌, arith, Bool-cases, inl, inr,
}
use prism_nestjs.Prelude.Text.{Text}
use prism_nestjs.Prelude.Action.{
  Result, ok, Action, bind-inv, found_cases, test_cases, or_throw, gets, pure, ◌>>=◌, ◌>>◌,
}
use prism_nestjs.Tables.{Role, MemberRow}
use prism_nestjs.Workspace.{
  to_role, WorkspaceRecord, UserRow, InvitationRow, InvitationEventType, InvitationEventRow,
  InvitationStatus, Db, Error, invitation_not_found, workspace_not_found, signup_required,
  member_user_not_found, member_already_exists, member_not_found,
}
use prism_nestjs.Workspace.Repository.{
  is_unattached, with_receiver, latest_of, find_workspace_invitation_by_token, find_workspace_by_id,
  find_user_by_id, find_user_by_email, find_workspace_member, create_workspace_membership,
  attach_workspace_invitation_receiver, create_workspace_invitation_event, may_join, receiver_taken,
}
use prism_nestjs.Workspace.Invitations.{
  Context, context_of, get_invitation_context, ensure_pending, resolve_receiver, accept_as,
  accept_in, resolved_receiver, member_of,
}

-- An event that is written later than all others is the latest.
pub latest_of-append :
    (leads : InvitationEventRow → InvitationEventRow → Bool) (id : ℕ) (e : InvitationEventRow)
    (events : List InvitationEventRow)
    → e.invitation_id ≡ id
    → All (λ f. f.created_at < e.created_at) events
    → latest_of leads id (events ++ e ∷ []) ≡ some e
latest_of-append leads id e [] h a = ground arith
latest_of-append leads id e (f ∷ events) h a =
    ground (arith, latest_of-append leads id e events h a.1)

abbrev attached : ℕ → ℕ → InvitationRow → InvitationRow
attached id user k = if is_unattached id k then with_receiver user k else k

-- The attached invitation is found by the same token, under the same id.
pub find-attached :
    (token id user : ℕ) (i : InvitationRow) (rows : List InvitationRow)
    → find (λ j. j.token == token) rows ≡ some i
    → (j : InvitationRow) × (find
          (λ k. k.token == token)
          (update (is_unattached id) (with_receiver user) rows)
        ≡ some j)
      × (j.invitation_id ≡ i.invitation_id)
      × (j.workspace_id ≡ i.workspace_id)
find-attached token id user i [] h = cc
find-attached token id user i (k ∷ rows) h = elim (Bool-cases (k.token == token)) [
  | inl e ↦ (attached id user k, ground arith, ground arith, ground arith)
  | inr e ↦
      let (j, f, g, w) = find-attached token id user i rows (ground arith) in
      (j, ground arith, g, w)
]

context_of-inv :
    (now : ℕ) (i : InvitationRow) (w : WorkspaceRecord) (r : Option ℕ) (m : Option MemberRow)
    (db t : Db) (c : Context)
    → ◌≡◌ {A = Result Error Context × Db} (ok (context_of now i w r m db), db) (ok c, t)
    → (t ≡ db) × (i ≡ c.invitation) × (w ≡ c.workspace)
context_of-inv now i w r none db t c h = (cc, cc, cc)
context_of-inv now i w r (some m) db t c h = (cc, cc, cc)

or_throw-inv :
    {A : Type 0} (o : Option A) (e : Error) (db t : Db) (a : A)
    → or_throw {E = Error} o e db ≡ (ok a, t)
    → t ≡ db
or_throw-inv none e db t a h = cc
or_throw-inv (some b) e db t a h = cc

context-inv :
    (lower : Text → Text) (now token : ℕ) (db t : Db) (c : Context)
    → get_invitation_context lower now token db ≡ (ok c, t)
    → (t ≡ db)
      × (find_workspace_invitation_by_token token db ≡ some c.invitation)
      × (find_workspace_by_id c.invitation.workspace_id db ≡ some c.workspace)
unfolding get_invitation_context
context-inv lower now token db t c =
    found_cases (λ p. p ≡ (ok c, t) → Goal) db (find_workspace_invitation_by_token token)
      invitation_not_found _ (λ _ h. cc)
      λ i hi.
        found_cases (λ p. p ≡ (ok c, t) → Goal) db (find_workspace_by_id i.workspace_id)
          workspace_not_found _ (λ _ h. cc)
          λ w hw h.
            let (e, f, g) =
              context_of-inv now i w (resolved_receiver lower i db)
                (member_of i.workspace_id (resolved_receiver lower i db) db) db t c h in
            (e, cc, cc)
  where
    Goal : Type 0
    Goal =
        (t ≡ db)
        × (find_workspace_invitation_by_token token db ≡ some c.invitation)
        × (find_workspace_by_id c.invitation.workspace_id db ≡ some c.workspace)

ensure_pending-inv :
    (s : InvitationStatus) (db t : Db) (x : Unit {0}) → ensure_pending s db ≡ (ok x, t) → t ≡ db
unfolding ensure_pending
ensure_pending-inv InvitationStatus.pending db t x h = cc
ensure_pending-inv InvitationStatus.accepted db t x h = cc
ensure_pending-inv InvitationStatus.declined db t x h = cc
ensure_pending-inv InvitationStatus.expired db t x h = cc
ensure_pending-inv InvitationStatus.cancelled db t x h = cc

resolve_receiver-inv :
    (lower : Text → Text) (email : Text) (o : Option ℕ) (db t : Db) (u : UserRow)
    → resolve_receiver lower email o db ≡ (ok u, t)
    → t ≡ db
unfolding resolve_receiver
resolve_receiver-inv lower email none db t u h =
    or_throw-inv (find_user_by_email lower email db) signup_required db t u h
resolve_receiver-inv lower email (some user) db t u h =
    or_throw-inv (find_user_by_id user db) member_user_not_found db t u h

-- What an acceptance writes, the new member aside.
abbrev pub accepted_event : ℕ → ℕ → ℕ → InvitationEventRow
accepted_event now id user = record {
  invitation_id = id;
  actor_id = some user;
  event_type = InvitationEventType.accepted;
  created_at = now;
}

abbrev Accepted : ℕ → ℕ → ℕ → Db → Db → Type 0
Accepted now id user db t =
    (t.workspaces ≡ db.workspaces)
    × (t.invitations ≡ update (is_unattached id) (with_receiver user) db.invitations)
    × (t.invitation_events ≡ db.invitation_events ++ accepted_event now id user ∷ [])
    × (t.users ≡ db.users)

membership-inv :
    (id user : ℕ) (r : Role) (db t : Db) (x : Unit {0})
    → create_workspace_membership id user r db ≡ (ok x, t)
    → (ms : List MemberRow) × (t ≡ record db { members = ms })
unfolding create_workspace_membership
membership-inv id user r db t x =
    if_cases {A = Result Error (Unit {0}) × Db}
      (λ p. p ≡ (ok x, t) → (ms : List MemberRow) × (t ≡ record db { members = ms }))
      (may_join id user db) _ _ (λ _ h. (_, sym (ap (λ p. p.1) h))) (λ _ h. cc)

attach-inv :
    (id user : ℕ) (db t : Db) (x : Unit {0})
    → attach_workspace_invitation_receiver id user db ≡ (ok x, t)
    → t ≡ record db { invitations = update (is_unattached id) (with_receiver user) db.invitations }
unfolding attach_workspace_invitation_receiver
attach-inv id user db t x =
    if_cases {A = Result Error (Unit {0}) × Db}
      (λ p.
        p ≡ (ok x, t)
        → t ≡ record db {
          invitations = update (is_unattached id) (with_receiver user) db.invitations;
        })
      (receiver_taken id user db.invitations) _ _ (λ _ h. cc) (λ _ h. sym (ap (λ p. p.1) h))

answered-inv :
    {A : Type 0} (o : Option MemberRow) (k : MemberRow → A) (db t : Db) (r : A)
    → (or_throw {E = Error} o member_not_found >>= λ m. λ s. (ok (k m), s)) db ≡ (ok r, t)
    → t ≡ db
answered-inv none k db t r h = cc
answered-inv (some m) k db t r h = sym (ap (λ p. p.1) h)

abbrev answered_steps :
    ℕ → InvitationRow → WorkspaceRecord → UserRow → Action Db Error (MemberRow × WorkspaceRecord)
answered_steps now i w u = do
  create_workspace_invitation_event now i.invitation_id (some u.user_id)
      InvitationEventType.accepted
  member ← or_throw (← gets (find_workspace_member i.workspace_id u.user_id)) member_not_found
  pure (member, w)

abbrev attached_steps :
    ℕ → InvitationRow → WorkspaceRecord → UserRow → Action Db Error (MemberRow × WorkspaceRecord)
attached_steps now i w u = do
  attach_workspace_invitation_receiver i.invitation_id u.user_id
  answered_steps now i w u

chain-Accepted :
    (now id user : ℕ) (ms : List MemberRow) (db a b t : Db)
    → a ≡ record db { members = ms }
    → b ≡ record a { invitations = update (is_unattached id) (with_receiver user) a.invitations }
    → t ≡ record b { invitation_events = b.invitation_events ++ accepted_event now id user ∷ [] }
    → Accepted now id user db t
chain-Accepted now id user ms db a b t ea eb et = (
  ap (λ d. d.workspaces) et ∙ ap (λ d. d.workspaces) eb ∙ ap (λ d. d.workspaces) ea,
  ap (λ d. d.invitations) et
      ∙ ap (λ d. d.invitations) eb
      ∙ ap (λ d. update (is_unattached id) (with_receiver user) d.invitations) ea,
  ap (λ d. d.invitation_events) et
      ∙ ap (λ d. d.invitation_events ++ accepted_event now id user ∷ []) eb
      ∙ ap (λ d. d.invitation_events ++ accepted_event now id user ∷ []) ea,
  ap (λ d. d.users) et ∙ ap (λ d. d.users) eb ∙ ap (λ d. d.users) ea,
)

accept_as-inv :
    (now : ℕ) (i : InvitationRow) (w : WorkspaceRecord) (u : UserRow) (db t : Db)
    (r : MemberRow × WorkspaceRecord)
    → accept_as now i w u db ≡ (ok r, t)
    → Accepted now i.invitation_id u.user_id db t
unfolding accept_as create_workspace_invitation_event
accept_as-inv now i w u db t r =
    test_cases (λ p. p ≡ (ok r, t) → Accepted now i.invitation_id u.user_id db t) db
      (is_some (find_workspace_member i.workspace_id u.user_id db)) member_already_exists _
      (λ _ h. cc)
      λ _ h.
        let (x, a, ha, h) =
          bind-inv (create_workspace_membership i.workspace_id u.user_id (to_role i.role))
            (λ _. attached_steps now i w u) db t r h in
        let (ms, ea) = membership-inv i.workspace_id u.user_id (to_role i.role) db a x ha in
        let (y, b, hb, h) =
          bind-inv (attach_workspace_invitation_receiver i.invitation_id u.user_id)
            (λ _. answered_steps now i w u) a t r h in
        let eb = attach-inv i.invitation_id u.user_id a b y hb in
        let c : Db = record b {
          invitation_events =
              b.invitation_events ++ accepted_event now i.invitation_id u.user_id ∷ [];
        } in
        let et =
          answered-inv (find_workspace_member i.workspace_id u.user_id c) (λ m. (m, w)) c t r h in
        chain-Accepted now i.invitation_id u.user_id ms db a b t ea eb et

abbrev receiving : (Text → Text) → ℕ → Context → Action Db Error (MemberRow × WorkspaceRecord)
receiving lower now context = do
  receiver ← resolve_receiver lower context.invitation.receiver_email context.invitation.receiver_id
  accept_as now context.invitation context.workspace receiver

abbrev accepting : (Text → Text) → ℕ → Context → Action Db Error (MemberRow × WorkspaceRecord)
accepting lower now context = do ensure_pending context.status; receiving lower now context

-- What an acceptance that is done tells.
pub accept_in-inv :
    (lower : Text → Text) (now token : ℕ) (db t : Db) (r : MemberRow × WorkspaceRecord)
    → accept_in lower now token db ≡ (ok r, t)
    → (i : InvitationRow) × (w : WorkspaceRecord) × (user : ℕ) × (find_workspace_invitation_by_token
          token db
        ≡ some i)
      × (find_workspace_by_id i.workspace_id db ≡ some w)
      × Accepted now i.invitation_id user db t
unfolding accept_in
accept_in-inv lower now token db t r h =
    let (c, a, ha, h) =
      bind-inv (get_invitation_context lower now token) (λ c. accepting lower now c) db t r h in
    let (x, b, hb, h) = bind-inv (ensure_pending c.status) (λ _. receiving lower now c) a t r h in
    let (u, d, hd, h) =
      bind-inv (resolve_receiver lower c.invitation.receiver_email c.invitation.receiver_id)
        (λ u. accept_as now c.invitation c.workspace u) b t r h in
    let (ea, f, g) = context-inv lower now token db a c ha in
    let eb = ensure_pending-inv c.status a b x hb in
    let ed =
      resolve_receiver-inv lower c.invitation.receiver_email c.invitation.receiver_id b d u hd in
    (
      c.invitation,
      c.workspace,
      u.user_id,
      f,
      g,
      subst (λ s. Accepted now c.invitation.invitation_id u.user_id s t) (ed ∙ eb ∙ ea)
          (accept_as-inv now c.invitation c.workspace u d t r h),
    )
