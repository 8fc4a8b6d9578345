-- ===== src/Auth/Rows.antt =====
-- Reset tokens, refresh tokens and credentials after the statements of a reset.
use prism_nestjs.Prelude.{
  ℕ, ◌≡◌, refl, ◌==◌, Bool, true, false, not, ◌&&◌, none, some, List, [], ◌∷◌, any, find, filter,
  update, All, arith, ltb, subst, Bool-cases, inl, inr, is_some,
}
use prism_nestjs.Prelude.Text.{Text, text_eq, text_eq_iff}
use prism_nestjs.Prelude.Unique.{UniqueBy}
use prism_nestjs.Auth.{
  AuthRow, ResetTokenRow, RefreshTokenRow, has_auth_id, is_unused_of, same_hash,
  is_valid_reset_token, is_active_of,
}

-- A row that is found is the first one, or it is found after it.
module _ {A : Type 0} (p : A → Bool) (x t : A) (rows : List A)
    (h : find p (x ∷ rows) ≡ some t) where
  find-head : p x ≡ true → x ≡ t
  find-head e = ground arith

  find-tail : p x ≡ false → find p rows ≡ some t
  find-tail e = ground arith

module _ (hash : Text) where
  -- A row with a hash that is in the table.
  valid-same :
      (now : ℕ) (x t : ResetTokenRow) (rows : List ResetTokenRow)
      → text_eq x.password_reset_token_hash hash ≡ true
      → find (is_valid_reset_token hash now) rows ≡ some t
      → any (same_hash x) rows ≡ true
  valid-same now x t [] e h = cc
  valid-same now x t (y ∷ rows) e h = ground (
    arith,
    text_eq_iff x.password_reset_token_hash hash,
    text_eq_iff y.password_reset_token_hash hash,
    text_eq_iff x.password_reset_token_hash y.password_reset_token_hash,
    valid-same now x t rows e,
  )

  abbrev OfAccount : ℕ → ResetTokenRow → Type 0
  OfAccount id x = text_eq x.password_reset_token_hash hash ≡ true → x.auth_id ≡ id

  others :
      (x : ResetTokenRow) (rows : List ResetTokenRow)
      → text_eq x.password_reset_token_hash hash ≡ true
      → any (same_hash x) rows ≡ false
      → All (OfAccount x.auth_id) rows
  others x [] e h = tt
  others x (y ∷ rows) e h = (
    λ k. ground (
      arith,
      text_eq_iff x.password_reset_token_hash hash,
      text_eq_iff y.password_reset_token_hash hash,
      text_eq_iff x.password_reset_token_hash y.password_reset_token_hash,
    ),
    others x rows e (ground arith),
  )

  -- Where hashes are unique, the rows with the hash of a valid token are of its account.
  pub of_account :
      (now : ℕ) (t : ResetTokenRow) (rows : List ResetTokenRow)
      → UniqueBy same_hash rows
      → find (is_valid_reset_token hash now) rows ≡ some t
      → All (OfAccount t.auth_id) rows
  of_account now t [] u h = tt
  of_account now t (x ∷ rows) u h = elim (Bool-cases (is_valid_reset_token hash now x)) [
    | inl e ↦
        subst (λ t. All (OfAccount t.auth_id) (x ∷ rows))
          (find-head (is_valid_reset_token hash now) x t rows h e)
          ((λ _. refl), others x rows (ground arith) u.0)
    | inr e ↦
        let k = find-tail (is_valid_reset_token hash now) x t rows h e in
        ((λ same. ground (arith, valid-same now x t rows same k)), of_account now t rows u.1 k)
  ]

  pub spent :
      (now later id account : ℕ) (rows : List ResetTokenRow)
      → All (OfAccount account) rows
      → find (is_valid_reset_token hash later) (
          filter
            (λ t. not (is_unused_of account t))
            (update
              (λ t. (t.password_reset_token_id == id) && not (is_some t.used_at))
              (λ t. record t { used_at = some now })
              rows))
        ≡ none
  spent now later id account [] k = refl
  spent now later id account (x ∷ rows) k = ground (arith, k.0, spent now later id account rows k.1)

pub revoked :
    (now later user : ℕ) (rows : List RefreshTokenRow)
    → find
        (λ t. is_active_of user t && ltb later t.expires_at)
        (update (is_active_of user) (λ t. record t { revoked_at = some now }) rows)
      ≡ none
revoked now later user [] = refl
revoked now later user (x ∷ rows) = ground (arith, revoked now later user rows)

pub found-id :
    (id : ℕ) (a : AuthRow) (rows : List AuthRow)
    → find (has_auth_id id) rows ≡ some a
    → a.auth_id ≡ id
found-id id a [] h = cc
found-id id a (x ∷ rows) h = elim (Bool-cases (has_auth_id id x)) [
  | inl e ↦ subst (λ a. a.auth_id ≡ id) (find-head (has_auth_id id) x a rows h e) (ground arith)
  | inr e ↦ found-id id a rows (find-tail (has_auth_id id) x a rows h e)
]

pub replaced :
    (id : ℕ) (hash : Text) (a : AuthRow) (rows : List AuthRow)
    → find (has_auth_id id) rows ≡ some a
    → find (has_auth_id id) (update (has_auth_id id) (λ a. record a { password_hash = hash }) rows)
      ≡ some (record a { password_hash = hash })
replaced id hash a [] h = cc
replaced id hash a (x ∷ rows) h = elim (Bool-cases (has_auth_id id x)) [
  | inl e ↦
      subst
        (λ a.
          find (has_auth_id id)
            (update (has_auth_id id) (λ a. record a { password_hash = hash }) (x ∷ rows))
          ≡ some (record a { password_hash = hash }))
        (find-head (has_auth_id id) x a rows h e) (ground arith)
  | inr e ↦ ground (arith, replaced id hash a rows (find-tail (has_auth_id id) x a rows h e))
]
