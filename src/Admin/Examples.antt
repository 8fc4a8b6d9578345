-- ===== src/Admin/Examples.antt =====
-- The theorems on the limiter and the guard at concrete inputs, and runs of the code.
use mathlib.Core.Bool.{false≢true}
use prism_nestjs.Prelude.{◌+◌, ◌≡◌, refl, ◌≢◌, ◌↔◌, none, some, [], ◌∷◌, arith, ltb, if◌then◌else◌}
use prism_nestjs.Prelude.Text.{Text, codes, text_eq_iff}
use prism_nestjs.Prelude.Map.{get, text_instance}
use prism_nestjs.Admin.Limiter.{
  Config, Limiter, get_failure_limit, get_failure_window_ms, get_ban_ms, get_retry_after_seconds,
  to_retry_after_seconds, get_client_key, normalize_client_address,
}
use prism_nestjs.Admin.Limiter.Invariant.{IsValid, Op, step, step-IsValid}
use prism_nestjs.Admin.Limiter.Isolation.{check-step}
use prism_nestjs.Admin.Limiter.Lockout.{fails, fails_at_limit, fails_below_limit}
use prism_nestjs.Admin.Guard.{Request, single, allowed, client_of, can_activate}
use prism_nestjs.Admin.Guard.Laws.{IsCorrect, can_activate-allowed, check-can_activate}

abbrev twice : Config
twice = record { failure_limit = some 2; failure_window_ms = none; ban_ms = some 1000 }

abbrev empty : Limiter
empty = record { attempts_by_client = []; last_pruned_at = 0 }

abbrev local_client : Text
local_client = codes "10.0.0.1"

abbrev other_client : Text
other_client = codes "10.0.0.2"

other_client-ne-local_client : other_client ≢ local_client
other_client-ne-local_client e = absurd (false≢true ((text_eq_iff other_client local_client).1 e))

mapped_address : get_client_key (some (codes " ::ffff:10.0.0.1 ")) none ≡ local_client
unfolding get_client_key normalize_client_address
mapped_address = refl

empty-IsValid : IsValid twice empty
empty-IsValid = record { distinct = tt; counted = tt }

step-IsValid_example : IsValid twice (step twice (Op.failure local_client 70000) empty)
step-IsValid_example = step-IsValid twice (Op.failure local_client 70000) empty empty-IsValid

check-step_example :
    (get_retry_after_seconds twice other_client 80000
      (step twice (Op.failure local_client 70000) empty)).0
    ≡ (get_retry_after_seconds twice other_client 80000 empty).0
check-step_example =
    check-step twice (Op.failure local_client 70000) other_client 80000 empty empty-IsValid
      (other_client-ne-local_client, omega arith)

fails_at_limit_example :
    (get_retry_after_seconds twice local_client 70100
      (fails twice local_client (70000 ∷ 70050 ∷ []) empty)).0
    ≡ (if ltb 70100 (70050 + get_ban_ms twice)
        then some (to_retry_after_seconds (70050 + get_ban_ms twice) 70100)
        else none)
unfolding get get_failure_limit get_failure_window_ms
fails_at_limit_example =
    fails_at_limit twice local_client 70000 (70050 ∷ []) 70100 empty empty-IsValid refl
      (omega arith) refl

fails_below_limit_example :
    (get_retry_after_seconds twice local_client 70100
      (fails twice local_client (70000 ∷ []) empty)).0
    ≡ none
unfolding get get_failure_limit
fails_below_limit_example =
    fails_below_limit twice local_client (70000 ∷ []) 70100 empty empty-IsValid refl (omega arith)

-- The digest of this example is the text itself.
abbrev plain : Text → Text
plain s = s

abbrev attempt : Text → Request
attempt password = record {
  ip = some local_client;
  remote_address = none;
  password = single password;
  checked_at = 70000;
  failed_at = 70001;
}

can_activate-allowed_example :
    ((can_activate plain twice (codes "secret") (attempt (codes "secret ")) empty).0 ≡ allowed) ↔ (
      ((get_retry_after_seconds twice (client_of (attempt (codes "secret "))) 70000 empty).0 ≡ none)
      × IsCorrect plain (codes "secret") (single (codes "secret ")))
can_activate-allowed_example =
    can_activate-allowed plain twice (codes "secret") (attempt (codes "secret ")) empty

check-can_activate_example :
    (get_retry_after_seconds twice other_client 80000
      (can_activate plain twice (codes "secret") (attempt (codes "guess")) empty).1).0
    ≡ (get_retry_after_seconds twice other_client 80000 empty).0
unfolding client_of get_client_key normalize_client_address
check-can_activate_example =
    check-can_activate plain twice (codes "secret") (attempt (codes "guess")) other_client 80000
      empty empty-IsValid other_client-ne-local_client (omega arith) (omega arith)
