-- ===== src/Auth/Recovery.antt =====
-- What a reset of a password leaves.
use prism_nestjs.Prelude.{ℕ, ◌≡◌, refl, sym, ◌==◌, Bool, not, none, some, any, find, update, subst}
use prism_nestjs.Prelude.Text.{Text}
use prism_nestjs.Prelude.Unique.{UniqueBy}
use prism_nestjs.Prelude.Action.{ok, err, test_cases}
use prism_nestjs.Auth.{
  AuthRow, ResetTokenRow, Db, has_auth_id, same_hash, find_email_auth_credential_by_auth_id,
  find_valid_password_reset_token_by_hash, mark_password_reset_token_as_used,
  delete_unused_password_reset_tokens_by_auth_id, update_email_auth_password,
  invalidate_refresh_tokens_by_user_id, find_valid_refresh_token_by_user_id,
}
use prism_nestjs.Auth.Password.{
  invalid_password_reset_token, invalid_refresh_token, reset_password, refresh,
}
use prism_nestjs.Auth.Rows.{spent, of_account, revoked, found-id, replaced}

-- A query whose row is missing, and a refused refresh.
refused :
    (verify : Text → Text → Bool) (now user : ℕ) (token : Text) (db : Db)
    → find_valid_refresh_token_by_user_id user now db ≡ none
    → refresh verify now user token db ≡ (err invalid_refresh_token, db)
unfolding refresh
refused verify now user token db h =
    test_cases (λ p. p ≡ (err invalid_refresh_token, db)) db (not (any (λ u. u == user) db.users))
      invalid_refresh_token _ (λ _. refl) λ _. rw h refl

module _ (hash_token hash : Text → Text) (verify : Text → Text → Bool) where
  not_reset :
      (now : ℕ) (payload password : Text) (db : Db)
      → find_valid_password_reset_token_by_hash (hash_token payload) now db ≡ none
      → reset_password hash_token hash now payload password db
        ≡ (err invalid_password_reset_token, db)
  unfolding reset_password
  not_reset now payload password db h = rw h refl

  abbrev after : ℕ → Text → ResetTokenRow → AuthRow → Db → Db
  after now password t a db = invalidate_refresh_tokens_by_user_id now a.user_id (
      update_email_auth_password a.auth_id (hash password) (
        delete_unused_password_reset_tokens_by_auth_id t.auth_id
          (mark_password_reset_token_as_used now t.password_reset_token_id db)))

  reset :
      (now : ℕ) (payload password : Text) (db : Db) (t : ResetTokenRow) (a : AuthRow)
      → find_valid_password_reset_token_by_hash (hash_token payload) now db ≡ some t
      → find_email_auth_credential_by_auth_id t.auth_id db ≡ some a
      → reset_password hash_token hash now payload password db ≡ (ok tt, after now password t a db)
  unfolding reset_password
  reset now payload password db t a h k = rw (h, k) refl

  module _ (now : ℕ) (payload password : Text) (db : Db) (t : ResetTokenRow) (a : AuthRow) where
    credential_after :
        find_email_auth_credential_by_auth_id t.auth_id db ≡ some a
        → find_email_auth_credential_by_auth_id t.auth_id (after now password t a db)
          ≡ some (record a { password_hash = hash password })
    unfolding find_email_auth_credential_by_auth_id invalidate_refresh_tokens_by_user_id
        update_email_auth_password delete_unused_password_reset_tokens_by_auth_id
        mark_password_reset_token_as_used
    credential_after k =
        subst
          (λ i.
            find (has_auth_id t.auth_id)
              (update (has_auth_id i) (λ a. record a { password_hash = hash password }) db.auths)
            ≡ some (record a { password_hash = hash password }))
          (sym (found-id t.auth_id a db.auths k)) (replaced t.auth_id (hash password) a db.auths k)

    token_after :
        (later : ℕ)
        → UniqueBy same_hash db.reset_tokens
        → find_valid_password_reset_token_by_hash (hash_token payload) now db ≡ some t
        → find_valid_password_reset_token_by_hash
            (hash_token payload)
            later
            (after now password t a db)
          ≡ none
    unfolding find_valid_password_reset_token_by_hash invalidate_refresh_tokens_by_user_id
        update_email_auth_password delete_unused_password_reset_tokens_by_auth_id
        mark_password_reset_token_as_used
    token_after later u h =
        spent (hash_token payload) now later t.password_reset_token_id t.auth_id db.reset_tokens
          (of_account (hash_token payload) now t db.reset_tokens u h)

    session_after :
        (later : ℕ)
        → find_valid_refresh_token_by_user_id a.user_id later (after now password t a db) ≡ none
    unfolding find_valid_refresh_token_by_user_id invalidate_refresh_tokens_by_user_id
        update_email_auth_password delete_unused_password_reset_tokens_by_auth_id
        mark_password_reset_token_as_used
    session_after later = revoked now later a.user_id db.refresh_tokens

  -- Where hashes of reset tokens are unique, a reset with a valid token of an account by e-mail
  -- succeeds. In the tables that it leaves, the account has the new password, and at any time the
  -- token resets nothing more and no refresh token of the account's user is accepted.
  pub reset_password-spent :
      (now later : ℕ) (payload password other token : Text) (db : Db) (t : ResetTokenRow)
      (a : AuthRow)
      → UniqueBy same_hash db.reset_tokens
      → find_valid_password_reset_token_by_hash (hash_token payload) now db ≡ some t
      → find_email_auth_credential_by_auth_id t.auth_id db ≡ some a
      → let (result, done) = reset_password hash_token hash now payload password db in
        (result ≡ ok tt)
        × (find_email_auth_credential_by_auth_id t.auth_id done
            ≡ some (record a { password_hash = hash password }))
        × (reset_password hash_token hash later payload other done
            ≡ (err invalid_password_reset_token, done))
        × (refresh verify later a.user_id token done ≡ (err invalid_refresh_token, done))
  reset_password-spent now later payload password other token db t a u h k =
      rw (reset now payload password db t a h k) (
        refl,
        credential_after now payload password db t a k,
        not_reset later payload other (after now password t a db)
            (token_after now payload password db t a later u h),
        refused verify later a.user_id token (after now password t a db)
            (session_after now payload password db t a later),
      )
