-- ===== src/Tables.antt =====
-- The tables that several repositories read: workspaces and their members. Ids (UUID columns) are
-- natural numbers, since the code only compares and orders them. Times are milliseconds.
use prism_nestjs.Prelude.{ℕ, Bool, ◌&&◌, not, Option, ◌==◌, is_some}

-- A row of prism_workspaces_l; `is_active` is `status = 'active'`.
pub record WorkspaceRow : Type 0 where
  pub workspace_id : ℕ
  pub deleted_at : Option ℕ
  pub is_active : Bool

pub data Role : Type 0 where
  owner admin member viewer : Role

-- A row of prism_workspace_members_l.
pub record MemberRow : Type 0 where
  pub workspace_id : ℕ
  pub user_id : ℕ
  pub role : Role

-- `w.workspace_id = $1 AND w.deleted_at IS NULL AND w.status = 'active'`.
abbrev pub is_live : ℕ → WorkspaceRow → Bool
is_live id w = (w.workspace_id == id) && not (is_some w.deleted_at) && w.is_active

-- `wm.workspace_id = $1 AND wm.user_id = $2`.
abbrev pub is_membership : ℕ → ℕ → MemberRow → Bool
is_membership id user m = (m.workspace_id == id) && (m.user_id == user)
