-- ===== src/Admin/Guard.antt =====
-- src/modules/admin/guards/admin-authentication.guard.ts: the guard of the admin endpoints, over
-- the limiter. `createHash('sha256')` is the parameter `digest`; the digests have one length, and
-- `timingSafeEqual` compares them.
pub mod Laws
use prism_nestjs.Prelude.{
  ℕ, Bool, true, false, not, ◌||◌, Option, none, some, List, [], ◌∷◌, if◌then◌else◌,
}
use prism_nestjs.Prelude.Text.{Text, text_eq, trim}
use prism_nestjs.Admin.Limiter.{
  Config, Limiter, get_retry_after_seconds, record_failure, record_success, get_client_key,
}

-- `request.headers['x-admin-password']`.
pub data Header : Type 0 where
  absent : Header
  single : Text → Header
  repeated : List Text → Header

-- What the guard reads of a request, with the clock at its two readings.
pub record Request : Type 0 where
  pub ip : Option Text
  pub remote_address : Option Text
  pub password : Header
  pub checked_at : ℕ
  pub failed_at : ℕ

pub data Outcome : Type 0 where
  allowed : Outcome
  unauthorized : Outcome
  rate_limited : ℕ → Outcome

abbrev pub is_empty : Text → Bool
is_empty [] = true
is_empty (_ ∷ _) = false

-- The supplied password, with `hasInvalidHeaderFormat`.
unfoldable pub extract_admin_password : Header → Option Text × Bool
extract_admin_password absent = (none, false)
extract_admin_password (single s) = (if is_empty (trim s) then none else some (trim s), false)
extract_admin_password (repeated _) = (none, true)

unfoldable pub client_of : Request → Text
client_of r = get_client_key r.ip r.remote_address

module _ (digest : Text → Text) where
  abbrev pub matches_password : Text → Text → Bool
  matches_password supplied configured = text_eq (digest supplied) (digest configured)

  -- The disjunction of `canActivate` that makes an attempt a failure; the configured password is
  -- trimmed.
  unfoldable pub rejects : Text → Header → Bool
  unfolding extract_admin_password
  rejects configured h =
      let (supplied, invalid) = extract_admin_password h in
      invalid
      || is_empty (trim configured)
      || elim supplied [ none ↦ true | some s ↦ not (matches_password s (trim configured)) ]

  abbrev pub fail_outcome : Option ℕ × Limiter → Outcome × Limiter
  fail_outcome (none, l) = (unauthorized, l)
  fail_outcome (some n, l) = (rate_limited n, l)

  -- `canActivate` after the first check of the limiter.
  unfoldable pub judge : Config → Text → Request → Option ℕ × Limiter → Outcome × Limiter
  judge c configured r (some n, l) = (rate_limited n, l)
  judge c configured r (none, l) =
      if rejects configured r.password
      then fail_outcome (record_failure c (client_of r) r.failed_at l)
      else (allowed, record_success (client_of r) l)

  unfoldable pub can_activate : Config → Text → Request → Limiter → Outcome × Limiter
  unfolding judge
  can_activate c configured r l =
      judge c configured r (get_retry_after_seconds c (client_of r) r.checked_at l)
