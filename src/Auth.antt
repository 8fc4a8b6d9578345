-- ===== src/Auth.antt =====
-- Sessions and passwords of accounts: the statements of
-- src/modules/auth/repository/auth.repository.ts on the tables of credentials, reset tokens and
-- refresh tokens. Rows of tokens stand newest first, as `ORDER BY created_at DESC` reads them.
pub mod Password
pub mod Rows
pub mod Recovery
mod Examples
use prism_nestjs.Prelude.{
  ℕ, Bool, true, false, not, ◌&&◌, Option, none, some, List, [], ◌∷◌, any, find, filter, update,
  ltb, ◌==◌, is_some, if◌then◌else◌,
}
use prism_nestjs.Prelude.Text.{Text, text_eq}
use prism_nestjs.Prelude.Action.{Action, pure, throw, modify}

-- A row of prism_user_auths_l; `by_email` is `provider = 'email'`, and only such rows have a hash.
pub record AuthRow : Type 0 where
  pub auth_id : ℕ
  pub user_id : ℕ
  pub by_email : Bool
  pub email : Text
  pub password_hash : Text
  pub is_verified : Bool

-- A row of prism_password_reset_tokens_l.
pub record ResetTokenRow : Type 0 where
  pub password_reset_token_id : ℕ
  pub auth_id : ℕ
  pub password_reset_token_hash : Text
  pub expires_at : ℕ
  pub used_at : Option ℕ

-- A row of prism_refresh_tokens_l.
pub record RefreshTokenRow : Type 0 where
  pub refresh_token_id : ℕ
  pub user_id : ℕ
  pub refresh_token_hash : Text
  pub expires_at : ℕ
  pub revoked_at : Option ℕ

pub record Db : Type 0 where
  pub users : List ℕ
  pub auths : List AuthRow
  pub reset_tokens : List ResetTokenRow
  pub refresh_tokens : List RefreshTokenRow

unfoldable pub find_email_auth_credential_by_email : Text → Db → Option AuthRow
find_email_auth_credential_by_email email db =
    find (λ a. a.by_email && text_eq a.email email) db.auths

abbrev pub has_auth_id : ℕ → AuthRow → Bool
has_auth_id id a = a.by_email && (a.auth_id == id)

unfoldable pub find_email_auth_credential_by_auth_id : ℕ → Db → Option AuthRow
find_email_auth_credential_by_auth_id id db = find (has_auth_id id) db.auths

unfoldable pub find_email_auth_credential_by_user_id : ℕ → Db → Option AuthRow
find_email_auth_credential_by_user_id user db =
    find (λ a. a.by_email && (a.user_id == user)) db.auths

unfoldable pub update_email_auth_password : ℕ → Text → Db → Db
update_email_auth_password id hash db = record db {
  auths = update (has_auth_id id) (λ a. record a { password_hash = hash }) db.auths;
}

abbrev pub is_unused_of : ℕ → ResetTokenRow → Bool
is_unused_of id t = (t.auth_id == id) && not (is_some t.used_at)

unfoldable pub delete_unused_password_reset_tokens_by_auth_id : ℕ → Db → Db
delete_unused_password_reset_tokens_by_auth_id id db = record db {
  reset_tokens = filter (λ t. not (is_unused_of id t)) db.reset_tokens;
}

abbrev pub same_hash : ResetTokenRow → ResetTokenRow → Bool
same_hash t u = text_eq t.password_reset_token_hash u.password_reset_token_hash

-- The row goes in unless its hash is taken.
unfoldable pub with_reset_token : ResetTokenRow → Db → Option Db
with_reset_token t db =
    if any (same_hash t) db.reset_tokens
    then none
    else some (record db { reset_tokens = t ∷ db.reset_tokens })

abbrev pub is_valid_reset_token : Text → ℕ → ResetTokenRow → Bool
is_valid_reset_token hash now t =
    text_eq t.password_reset_token_hash hash && not (is_some t.used_at) && ltb now t.expires_at

unfoldable pub find_valid_password_reset_token_by_hash : Text → ℕ → Db → Option ResetTokenRow
find_valid_password_reset_token_by_hash hash now db =
    find (is_valid_reset_token hash now) db.reset_tokens

unfoldable pub mark_password_reset_token_as_used : ℕ → ℕ → Db → Db
mark_password_reset_token_as_used now id db = record db {
  reset_tokens =
      update (λ t. (t.password_reset_token_id == id) && not (is_some t.used_at))
        (λ t. record t { used_at = some now }) db.reset_tokens;
}

abbrev pub is_active_of : ℕ → RefreshTokenRow → Bool
is_active_of user t = (t.user_id == user) && not (is_some t.revoked_at)

unfoldable pub find_valid_refresh_token_by_user_id : ℕ → ℕ → Db → Option RefreshTokenRow
find_valid_refresh_token_by_user_id user now db =
    find (λ t. is_active_of user t && ltb now t.expires_at) db.refresh_tokens

unfoldable pub invalidate_refresh_tokens_by_user_id : ℕ → ℕ → Db → Db
invalidate_refresh_tokens_by_user_id now user db = record db {
  refresh_tokens =
      update (is_active_of user) (λ t. record t { revoked_at = some now }) db.refresh_tokens;
}
