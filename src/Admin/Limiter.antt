-- ===== src/Admin/Limiter.antt =====
-- src/modules/admin/services/admin-password-attempt-limiter.service.ts: the limiter of wrong admin
-- passwords, one entry for each client. Times are milliseconds. A difference of times that is
-- compared with a span, `now - start <= span`, is written `now ≤ start + span`.
pub mod Invariant
pub mod Isolation
pub mod Lockout
use prism_nestjs.Prelude.{
  ℕ, ◌+◌, ◌-◌, ◌*◌, ◌/◌, max, Bool, ◌&&◌, ◌||◌, not, Option, none, some, [], ◌∷◌, ltb, leb, ◌==◌,
  if◌then◌else◌,
}
use prism_nestjs.Prelude.Text.{Text, codes, trim, starts_with, drop}
use prism_nestjs.Prelude.Map.{Dict, get, set, delete, retain, text_instance}

abbrev pub default_failure_limit : ℕ
default_failure_limit = 5

abbrev pub default_failure_window_ms : ℕ
default_failure_window_ms = 5 * 60 * 1000

abbrev pub default_ban_ms : ℕ
default_ban_ms = 15 * 60 * 1000

abbrev pub min_prune_interval_ms : ℕ
min_prune_interval_ms = 60 * 1000

-- What `Number(configService.get(key))` reads at the three keys; `none` is a value that is not
-- finite. The validation of the environment admits integers only.
pub record Config : Type 0 where
  pub failure_limit : Option ℕ
  pub failure_window_ms : Option ℕ
  pub ban_ms : Option ℕ

pub record AttemptState : Type 0 where
  pub attempts : ℕ
  pub window_started_at : ℕ
  pub banned_until : Option ℕ

pub record Limiter : Type 0 where
  pub attempts_by_client : Dict Text AttemptState
  pub last_pruned_at : ℕ

abbrev pub number_config : Option ℕ → ℕ → ℕ
number_config none fallback = fallback
number_config (some n) fallback = if ltb 0 n then n else fallback

unfoldable pub get_failure_limit : Config → ℕ
get_failure_limit c = number_config c.failure_limit default_failure_limit

unfoldable pub get_failure_window_ms : Config → ℕ
get_failure_window_ms c = number_config c.failure_window_ms default_failure_window_ms

unfoldable pub get_ban_ms : Config → ℕ
get_ban_ms c = number_config c.ban_ms default_ban_ms

-- `bannedUntil && bannedUntil > now`, with the time: 0 and null are falsy.
abbrev pub active_ban : Option ℕ → ℕ → Option ℕ
active_ban none now = none
active_ban (some u) now = if not (u == 0) && ltb now u then some u else none

-- `bannedUntil && bannedUntil <= now`.
abbrev pub ban_over : Option ℕ → ℕ → Bool
ban_over none now = Bool.false
ban_over (some u) now = not (u == 0) && leb u now

-- `Math.max(1, Math.ceil((until - now) / 1000))`.
unfoldable pub to_retry_after_seconds : ℕ → ℕ → ℕ
to_retry_after_seconds until now = max 1 ((until - now + 999) / 1000)

-- Whether the loop of `pruneExpiredAttempts` leaves the entry.
abbrev pub kept : ℕ → ℕ → AttemptState → Bool
kept window now s =
    if elim (active_ban s.banned_until now) [ some _ ↦ Bool.true | none ↦ Bool.false ]
    then Bool.true
    else leb now (s.window_started_at + window)

unfoldable pub prune_expired_attempts : Config → ℕ → Limiter → Limiter
prune_expired_attempts c now l =
    if ltb now (l.last_pruned_at + min_prune_interval_ms) then l else record {
      attempts_by_client = retain (kept (get_failure_window_ms c) now) l.attempts_by_client;
      last_pruned_at = now;
    }

-- `this.attemptsByClient.delete(clientKey)`; it is `recordSuccess` too.
abbrev pub forget : Text → Limiter → Limiter
forget k l = record l { attempts_by_client = delete k l.attempts_by_client }

-- The part of `getRetryAfterSeconds` after the pruning.
retry_after_of : Text → ℕ → Limiter → Option ℕ → Option ℕ × Limiter
retry_after_of k now l none = (none, l)
retry_after_of k now l (some u) =
    if u == 0
    then (none, l)
    else if leb u now
    then (none, forget k l)
    else (some (to_retry_after_seconds u now), l)

unfoldable pub get_retry_after_seconds : Config → Text → ℕ → Limiter → Option ℕ × Limiter
unfolding retry_after_of
get_retry_after_seconds c k now l =
    let l' = prune_expired_attempts c now l in
    elim (get k l'.attempts_by_client) [
      | none ↦ (none, l')
      | some s ↦ retry_after_of k now l' s.banned_until
    ]

-- The state that a failure is counted on.
abbrev pub counted_state : Config → ℕ → Option AttemptState → AttemptState
counted_state c now none = record { attempts = 0; window_started_at = now; banned_until = none }
counted_state c now (some s) =
    if leb now (s.window_started_at + get_failure_window_ms c)
    then s
    else record { attempts = 0; window_started_at = now; banned_until = none }

-- `state.attempts += 1`, and the ban where that reaches the limit.
abbrev pub bump : Config → ℕ → AttemptState → AttemptState
bump c now s =
    if leb (get_failure_limit c) (s.attempts + 1)
    then record {
      attempts = s.attempts + 1;
      window_started_at = now;
      banned_until = some (now + get_ban_ms c);
    }
    else record s { attempts = s.attempts + 1 }

abbrev pub retry_of : Option ℕ → ℕ → Option ℕ
retry_of o now = elim (active_ban o now) [
  | none ↦ none
  | some u ↦ some (to_retry_after_seconds u now)
]

-- The second half of `recordFailure`, from the choice of the window on.
count_failure : Config → Text → ℕ → Option AttemptState → Limiter → Option ℕ × Limiter
count_failure c k now existing l =
    let s = bump c now (counted_state c now existing) in
    (retry_of s.banned_until now, record l { attempts_by_client = set k s l.attempts_by_client })

-- The tests of `recordFailure` on an entry that is there.
record_existing : Config → Text → ℕ → AttemptState → Limiter → Option ℕ × Limiter
unfolding count_failure
record_existing c k now s l = elim (active_ban s.banned_until now) [
  | some u ↦ (some (to_retry_after_seconds u now), l)
  | none ↦
      if ban_over s.banned_until now
      then count_failure c k now none (forget k l)
      else count_failure c k now (some s) l
]

unfoldable pub record_failure : Config → Text → ℕ → Limiter → Option ℕ × Limiter
unfolding record_existing count_failure
record_failure c k now l =
    let l' = prune_expired_attempts c now l in
    elim (get k l'.attempts_by_client) [
      | none ↦ count_failure c k now none l'
      | some s ↦ record_existing c k now s l'
    ]

unfoldable pub record_success : Text → Limiter → Limiter
record_success k l = forget k l

-- `if (!normalized) return 'unknown'`, and the prefix of a mapped IPv4 address.
strip_mapped : Text → Text
strip_mapped [] = codes "unknown"
strip_mapped (ch ∷ rest) =
    if starts_with (ch ∷ rest) (codes "::ffff:") then drop 7 (ch ∷ rest) else ch ∷ rest

-- `address?.trim()`, "unknown" where nothing is left, and the IPv4 prefix taken off.
unfoldable pub normalize_client_address : Option Text → Text
unfolding strip_mapped trim
normalize_client_address none = codes "unknown"
normalize_client_address (some address) = strip_mapped (trim address)

-- `request.ip ?? request.socket.remoteAddress`.
unfoldable pub get_client_key : Option Text → Option Text → Text
get_client_key (some ip) remote = normalize_client_address (some ip)
get_client_key none remote = normalize_client_address remote
