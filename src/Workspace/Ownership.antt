-- ===== src/Workspace/Ownership.antt =====
-- Who owns a workspace: by the role of a member, and by the column `owner_id`.
pub mod Queries
pub mod Writes
pub mod Members
pub mod Invitations
use prism_nestjs.Prelude.{
  ℕ, ◌≡◌, refl, Bool, true, false, not, ◌&&◌, Option, none, some, List, [], ◌∷◌, ◌++◌, any, find,
  filter, update, ◌==◌, if◌then◌else◌, arith,
}
use prism_nestjs.Prelude.Unique.{UniqueBy}
use prism_nestjs.Tables.{Role, MemberRow, is_membership}
use prism_nestjs.Workspace.{AssignableRole, to_role, WorkspaceRecord, Db}
use prism_nestjs.Workspace.Repository.{is_live, has_id, with_role, with_owner}

abbrev pub is_owner_role : Role → Bool
is_owner_role Role.owner = true
is_owner_role _ = false

unfoldable pub role_at : ℕ → ℕ → List MemberRow → Option Role
role_at id user [] = none
role_at id user (m ∷ members) =
    if is_membership id user m then some m.role else role_at id user members

unfoldable pub owner_at : ℕ → List WorkspaceRecord → Option ℕ
owner_at id [] = none
owner_at id (w ∷ workspaces) = if has_id id w then some w.owner_id else owner_at id workspaces

abbrev pub is_owner : Option Role → Bool
is_owner none = false
is_owner (some r) = is_owner_role r

abbrev pub is_user : Option ℕ → ℕ → Bool
is_user none user = false
is_user (some o) user = o == user

-- The members with the role `owner` are the owners of their workspaces, deleted ones included.
abbrev pub OwnersAgree : Db → Type 0
OwnersAgree db =
    (id user : ℕ) → is_owner (role_at id user db.members) ≡ is_user (owner_at id db.workspaces) user

abbrev pub same_workspace : WorkspaceRecord → WorkspaceRecord → Bool
same_workspace a b = a.workspace_id == b.workspace_id

abbrev pub IsValid : Db → Type 0
IsValid db = UniqueBy same_workspace db.workspaces × OwnersAgree db

-- In a valid database, a workspace has the given owner.
abbrev pub Owned : ℕ → Option ℕ → Db → Type 0
Owned at by db = IsValid db × (owner_at at db.workspaces ≡ by)

pub role_at-filter :
    (i u id user : ℕ) (ms : List MemberRow)
    → role_at i u (filter (λ m. not (is_membership id user m)) ms)
      ≡ (if (i == id) && (u == user) then none else role_at i u ms)
unfolding role_at
role_at-filter i u id user [] = ground arith
role_at-filter i u id user (m ∷ ms) = ground (arith, role_at-filter i u id user ms)

abbrev pub replaced : Role → Option Role → Option Role
replaced r none = none
replaced r (some _) = some r

pub role_at-update :
    (i u id user : ℕ) (r : Role) (ms : List MemberRow)
    → role_at i u (update (is_membership id user) (with_role r) ms)
      ≡ (if (i == id) && (u == user) then replaced r (role_at i u ms) else role_at i u ms)
unfolding role_at
role_at-update i u id user r [] = ground arith
role_at-update i u id user r (m ∷ ms) = ground (arith, role_at-update i u id user r ms)

pub role_at-none :
    (i u : ℕ) (ms : List MemberRow) → any (is_membership i u) ms ≡ false → role_at i u ms ≡ none
unfolding role_at
role_at-none i u [] h = refl
role_at-none i u (m ∷ ms) h = ground (arith, role_at-none i u ms)

pub role_at-append :
    (i u : ℕ) (ms : List MemberRow) (m : MemberRow)
    → any (is_membership m.workspace_id m.user_id) ms ≡ false
    → role_at i u (ms ++ m ∷ []) ≡ (if is_membership i u m then some m.role else role_at i u ms)
unfolding role_at
role_at-append i u [] m h = ground arith
role_at-append i u (n ∷ ms) m h = ground (arith, role_at-append i u ms m)

pub owner_at-update :
    (i id user : ℕ) (ws : List WorkspaceRecord)
    → owner_at i (update (has_id id) (with_owner user) ws)
      ≡ elim (owner_at i ws) [ none ↦ none | some o ↦ if i == id then some user else some o ]
unfolding owner_at
owner_at-update i id user [] = refl
owner_at-update i id user (w ∷ ws) = ground (arith, owner_at-update i id user ws)

-- A change of other columns.
pub owner_at-kept :
    (p : WorkspaceRecord → Bool) (f : WorkspaceRecord → WorkspaceRecord)
    → ((w : WorkspaceRecord) → (f w).workspace_id ≡ w.workspace_id)
    → ((w : WorkspaceRecord) → (f w).owner_id ≡ w.owner_id)
    → (i : ℕ) (ws : List WorkspaceRecord) → owner_at i (update p f ws) ≡ owner_at i ws
unfolding owner_at
owner_at-kept p f k o i [] = refl
owner_at-kept p f k o i (w ∷ ws) = ground (arith, k w, o w, owner_at-kept p f k o i ws)

-- The live workspace that a query finds.
pub find-absent :
    (w : WorkspaceRecord) (ws : List WorkspaceRecord)
    → any (same_workspace w) ws ≡ false
    → find (is_live w.workspace_id) ws ≡ none
find-absent w [] h = refl
find-absent w (v ∷ ws) h = ground (arith, find-absent w ws)

pub owner_at-live :
    (id : ℕ) (w : WorkspaceRecord) (ws : List WorkspaceRecord)
    → UniqueBy same_workspace ws
    → find (is_live id) ws ≡ some w
    → (w.workspace_id ≡ id) × (owner_at id ws ≡ some w.owner_id)
unfolding owner_at
owner_at-live id w [] u h = ground arith
owner_at-live id w (v ∷ ws) u h = ground (arith, owner_at-live id w ws u.1, find-absent v ws u.0)

pub find-role_at :
    (id user : ℕ) (m : MemberRow) (ms : List MemberRow)
    → find (is_membership id user) ms ≡ some m
    → (m.workspace_id ≡ id) × (m.user_id ≡ user) × (role_at id user ms ≡ some m.role)
unfolding role_at
find-role_at id user m [] h = ground arith
find-role_at id user m (n ∷ ms) h = ground (arith, find-role_at id user m ms)

-- No role that a request may give is that of an owner.
pub assignable : (r : AssignableRole) → is_owner_role (to_role r) ≡ false
assignable AssignableRole.admin = refl
assignable AssignableRole.member = refl
assignable AssignableRole.viewer = refl
