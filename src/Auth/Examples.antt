-- ===== src/Auth/Examples.antt =====
-- The theorem on resets at a concrete input, and runs of the requests.
use prism_nestjs.Prelude.{◌≡◌, refl, Bool, true, none, some, List, [], ◌∷◌}
use prism_nestjs.Prelude.Text.{Text, codes, text_eq}
use prism_nestjs.Prelude.Action.{ok, err}
use prism_nestjs.Auth.{
  AuthRow, ResetTokenRow, RefreshTokenRow, Db, find_email_auth_credential_by_auth_id,
  find_valid_password_reset_token_by_hash,
}
use prism_nestjs.Auth.Password.{
  AuthApp, reset_mailed, invalid_password_reset_token, invalid_refresh_token,
  request_password_reset, reset_password, refresh,
}
use prism_nestjs.Auth.Recovery.{reset_password-spent}

abbrev hashed : Text → Text
hashed s = 35 ∷ s

abbrev verify : Text → Text → Bool
verify s h = text_eq (hashed s) h

abbrev credential : AuthRow
credential = record {
  auth_id = 3;
  user_id = 7;
  by_email = true;
  email = codes "a@b";
  password_hash = hashed (codes "old");
  is_verified = true;
}

abbrev session : RefreshTokenRow
session = record {
  refresh_token_id = 60;
  user_id = 7;
  refresh_token_hash = hashed (codes "session");
  expires_at = 900000;
  revoked_at = none;
}

abbrev reset_token : ResetTokenRow
reset_token = record {
  password_reset_token_id = 41;
  auth_id = 3;
  password_reset_token_hash = hashed (codes "t");
  expires_at = 600100;
  used_at = none;
}

abbrev db : List ResetTokenRow → Db
db rows = record {
  users = 7 ∷ [];
  auths = credential ∷ [];
  reset_tokens = rows;
  refresh_tokens = session ∷ [];
}

reset_password-spent_example :
    let (result, done) =
      reset_password hashed hashed 200 (codes "t") (codes "new") (db (reset_token ∷ [])) in
    (result ≡ ok tt)
    × (find_email_auth_credential_by_auth_id 3 done
        ≡ some (record credential { password_hash = hashed (codes "new") }))
    × (reset_password hashed hashed 300 (codes "t") (codes "again") done
        ≡ (err invalid_password_reset_token, done))
    × (refresh verify 300 7 (codes "session") done ≡ (err invalid_refresh_token, done))
unfolding find_valid_password_reset_token_by_hash find_email_auth_credential_by_auth_id
reset_password-spent_example =
    reset_password-spent hashed hashed verify 200 300 (codes "t") (codes "new") (codes "again")
      (codes "session") (db (reset_token ∷ [])) reset_token credential (refl, tt) refl refl

-- Before, the session is good; the token is mailed to an account that is there, and a stranger gets
-- the same answer.
before : refresh verify 300 7 (codes "session") (db []) ≡ (ok 7, db [])
unfolding refresh
before = refl

abbrev delivers : Text → Bool
delivers email = true

requested :
    let app : AuthApp = record { db = db []; published = [] } in
    (request_password_reset hashed delivers 100 41 (codes "t") (codes "a@b") app ≡ (
      ok tt,
      record {
        db = db (reset_token ∷ []);
        published = reset_mailed (codes "a@b") (codes "t") ∷ [];
      },
    ))
    × (request_password_reset hashed delivers 100 41 (codes "t") (codes "x@y") app ≡ (ok tt, app))
unfolding request_password_reset
requested = (refl, refl)
