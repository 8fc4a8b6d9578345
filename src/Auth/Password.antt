-- ===== src/Auth/Password.antt =====
-- src/modules/auth/services/password-reset.service.ts and the requests of
-- src/modules/auth/usecases/auth.usecase.ts on passwords and refresh tokens. The two hashes and the
-- check of a hash are parameters; `user` in `refresh` and `logout` is the subject of the verified
-- token.
use prism_nestjs.Prelude.{ℕ, ◌+◌, ◌*◌, ◌==◌, Bool, not, Option, none, some, any}
use prism_nestjs.Prelude.Text.{Text}
use prism_nestjs.Prelude.Action.{
  Action, App, pure, throw_if, gets, or_throw, modify, run, publish, ◌>>=◌, ◌>>◌,
}
use prism_nestjs.Auth.{
  AuthRow, Db, find_email_auth_credential_by_email, find_email_auth_credential_by_auth_id,
  find_email_auth_credential_by_user_id, update_email_auth_password,
  delete_unused_password_reset_tokens_by_auth_id, with_reset_token,
  find_valid_password_reset_token_by_hash, mark_password_reset_token_as_used,
  find_valid_refresh_token_by_user_id, invalidate_refresh_tokens_by_user_id,
}

pub data Error : Type 0 where
  invalid_password_reset_token invalid_current_password invalid_refresh_token query_failed
        delivery_failed :
      Error

-- An e-mail with the token of a reset.
pub data Event : Type 0 where
  reset_mailed : Text → Text → Event

abbrev pub AuthApp : Type 0
AuthApp = App Db Event

module _ (hash_token : Text → Text) where
  abbrev pub token_ttl_minutes : ℕ
  token_ttl_minutes = 10

  -- `PasswordResetService.issue` up to the e-mail; `fresh` and `token` are random UUIDs.
  unfoldable pub issue : ℕ → ℕ → Text → ℕ → Action Db Error (Unit {0})
  unfolding delete_unused_password_reset_tokens_by_auth_id with_reset_token
  issue now fresh token auth = do
    modify (delete_unused_password_reset_tokens_by_auth_id auth)
    db ←
        or_throw
          (← gets (
            with_reset_token (record {
              password_reset_token_id = fresh;
              auth_id = auth;
              password_reset_token_hash = hash_token token;
              expires_at = now + token_ttl_minutes * 60 * 1000;
              used_at = none;
            })))
          query_failed
    modify (λ _. db)

  -- The function that `requestPasswordReset` gives to its transaction; an e-mail that cannot be
  -- sent throws in it.
  unfoldable pub issue_to :
      (Text → Bool) → ℕ → ℕ → Text → Option AuthRow → Action Db Error (Option Text)
  unfolding issue
  issue_to delivers now fresh token none = pure none
  issue_to delivers now fresh token (some a) = do
    issue now fresh token a.auth_id
    throw_if (not (delivers a.email)) delivery_failed
    pure (some a.email)

  abbrev pub mailed : Text → Option Text → Action AuthApp Error (Unit {0})
  mailed token none = pure tt
  mailed token (some email) = publish (reset_mailed email token)

  -- The answer is the same whether the account is there or not.
  unfoldable pub request_password_reset :
      (Text → Bool) → ℕ → ℕ → Text → Text → Action AuthApp Error (Unit {0})
  unfolding issue_to find_email_auth_credential_by_email
  request_password_reset delivers now fresh token email = do
    sent ←
        run (gets (find_email_auth_credential_by_email email) >>= issue_to delivers now fresh token)
    mailed token sent

  module _ (hash : Text → Text) where
    -- `PasswordResetService.resetPassword`.
    unfoldable pub reset_password : ℕ → Text → Text → Action Db Error (Unit {0})
    unfolding find_valid_password_reset_token_by_hash find_email_auth_credential_by_auth_id
        mark_password_reset_token_as_used delete_unused_password_reset_tokens_by_auth_id
        update_email_auth_password invalidate_refresh_tokens_by_user_id
    reset_password now payload new_password = do
      token ←
          or_throw (← gets (find_valid_password_reset_token_by_hash (hash_token payload) now))
            invalid_password_reset_token
      auth ←
          or_throw (← gets (find_email_auth_credential_by_auth_id token.auth_id))
            invalid_password_reset_token
      modify (mark_password_reset_token_as_used now token.password_reset_token_id)
      modify (delete_unused_password_reset_tokens_by_auth_id token.auth_id)
      modify (update_email_auth_password auth.auth_id (hash new_password))
      modify (invalidate_refresh_tokens_by_user_id now auth.user_id)

module _ (verify : Text → Text → Bool) where
  unfoldable pub change_password : (Text → Text) → ℕ → ℕ → Text → Text → Action Db Error (Unit {0})
  unfolding find_email_auth_credential_by_user_id update_email_auth_password
      invalidate_refresh_tokens_by_user_id
  change_password hash now user current_password new_password = do
    auth ← or_throw (← gets (find_email_auth_credential_by_user_id user)) invalid_current_password
    throw_if (not (verify current_password auth.password_hash)) invalid_current_password
    modify (update_email_auth_password auth.auth_id (hash new_password))
    modify (invalidate_refresh_tokens_by_user_id now user)

  -- The user that the new access token is for.
  unfoldable pub refresh : ℕ → ℕ → Text → Action Db Error ℕ
  unfolding find_valid_refresh_token_by_user_id
  refresh now user refresh_token = do
    throw_if (← gets (λ db. not (any (λ u. u == user) db.users))) invalid_refresh_token
    stored ← or_throw (← gets (find_valid_refresh_token_by_user_id user now)) invalid_refresh_token
    throw_if (not (verify refresh_token stored.refresh_token_hash)) invalid_refresh_token
    pure user

unfoldable pub logout : ℕ → ℕ → Action Db Error (Unit {0})
unfolding invalidate_refresh_tokens_by_user_id
logout now user = modify (invalidate_refresh_tokens_by_user_id now user)
