-- ===== src/Admin/Limiter/Lockout.antt =====
-- When a client is banned: at the configured number of failures in one window, and not before.
use prism_nestjs.Prelude.{
  ℕ, suc, ◌+◌, ◌≤◌, ◌<◌, ◌≡◌, refl, ◌∙◌, ap, subst, Option, none, some, List, [], ◌∷◌, arith,
  Option-cases, inl, inr, ltb, if◌then◌else◌, length, All,
}
use prism_nestjs.Prelude.Text.{Text}
use prism_nestjs.Prelude.Map.{get, Distinct, get-retain, get-set_self, text_instance}
use prism_nestjs.Admin.Limiter.{
  Config, AttemptState, Limiter, get_failure_limit, get_failure_window_ms, get_ban_ms,
  prune_expired_attempts, kept, get_retry_after_seconds, count_failure, record_existing,
  record_failure, counted_state, bump, active_ban, ban_over, to_retry_after_seconds,
}
use prism_nestjs.Admin.Limiter.Invariant.{IsValid, record_failure-IsValid, ban_pos}
use prism_nestjs.Admin.Limiter.Isolation.{get_retry_after_seconds-result}

-- Failures of one client at the given times.
pub fails : Config → Text → List ℕ → Limiter → Limiter
fails c k [] l = l
fails c k (t ∷ ts) l = fails c k ts (record_failure c k t l).1

abbrev pub last : ℕ → List ℕ → ℕ
last t [] = t
last t (u ∷ ts) = last u ts

abbrev fresh : ℕ → AttemptState
fresh now = record { attempts = 0; window_started_at = now; banned_until = none }

prune-in_window :
    (c : Config) (k : Text) (now : ℕ) (s : AttemptState) (l : Limiter)
    → Distinct l.attempts_by_client
    → get k l.attempts_by_client ≡ some s
    → now ≤ s.window_started_at + get_failure_window_ms c
    → get k (prune_expired_attempts c now l).attempts_by_client ≡ some s
unfolding prune_expired_attempts
prune-in_window c k now s l d e h =
    ground (arith, get-retain (kept (get_failure_window_ms c) now) k l.attempts_by_client d)

prune-absent :
    (c : Config) (k : Text) (now : ℕ) (l : Limiter)
    → Distinct l.attempts_by_client
    → get k l.attempts_by_client ≡ none
    → get k (prune_expired_attempts c now l).attempts_by_client ≡ none
unfolding prune_expired_attempts
prune-absent c k now l d e =
    ground (arith, get-retain (kept (get_failure_window_ms c) now) k l.attempts_by_client d)

record_existing-unbanned :
    (c : Config) (k : Text) (now : ℕ) (s : AttemptState) (l : Limiter)
    → s.banned_until ≡ none
    → record_existing c k now s l ≡ count_failure c k now (some s) l
unfolding record_existing
record_existing-unbanned c k now s l b =
    let inactive = ap (λ o. active_ban o now) b in
    let not_over = ap (λ o. ban_over o now) b in rw (inactive, record_existing) (rw not_over)

counted_state-in_window :
    (c : Config) (now : ℕ) (s : AttemptState)
    → now ≤ s.window_started_at + get_failure_window_ms c
    → counted_state c now (some s) ≡ s
counted_state-in_window c now s h = ground arith

get-count_failure :
    (c : Config) (k : Text) (now : ℕ) (o : Option AttemptState) (l : Limiter)
    → get k (count_failure c k now o l).1.attempts_by_client
      ≡ some (bump c now (counted_state c now o))
unfolding count_failure
get-count_failure c k now o l =
    get-set_self k (bump c now (counted_state c now o)) l.attempts_by_client

-- A failure within the window counts on the entry that is there.
failure_counts :
    (c : Config) (k : Text) (now : ℕ) (s : AttemptState) (l : Limiter)
    → Distinct l.attempts_by_client
    → get k l.attempts_by_client ≡ some s
    → s.banned_until ≡ none
    → now ≤ s.window_started_at + get_failure_window_ms c
    → get k (record_failure c k now l).1.attempts_by_client ≡ some (bump c now s)
unfolding record_failure
failure_counts c k now s l d e b h =
    let l' = prune_expired_attempts c now l in
    rw (prune-in_window c k now s l d e h, record_failure)
      (ap (λ r. get k r.1.attempts_by_client) (record_existing-unbanned c k now s l' b)
        ∙ get-count_failure c k now (some s) l'
        ∙ ap (λ r. some (bump c now r)) (counted_state-in_window c now s h))

failure_starts :
    (c : Config) (k : Text) (now : ℕ) (l : Limiter)
    → Distinct l.attempts_by_client
    → get k l.attempts_by_client ≡ none
    → get k (record_failure c k now l).1.attempts_by_client ≡ some (bump c now (fresh now))
unfolding record_failure
failure_starts c k now l d e =
    let l' = prune_expired_attempts c now l in
    rw (prune-absent c k now l d e, record_failure) (get-count_failure c k now none l')

abbrev banned_state : Config → ℕ → AttemptState
banned_state c t = record {
  attempts = get_failure_limit c;
  window_started_at = t;
  banned_until = some (t + get_ban_ms c);
}

bump-at_limit :
    (c : Config) (now : ℕ) (s : AttemptState)
    → s.attempts + 1 ≡ get_failure_limit c
    → bump c now s ≡ banned_state c now
bump-at_limit c now s h = ground arith

bump-below :
    (c : Config) (now : ℕ) (s : AttemptState)
    → s.attempts + 1 < get_failure_limit c
    → bump c now s ≡ record s { attempts = s.attempts + 1 }
bump-below c now s h = ground arith

fails-banned :
    (c : Config) (k : Text) (s : AttemptState) (t : ℕ) (ts : List ℕ) (l : Limiter)
    → IsValid c l
    → get k l.attempts_by_client ≡ some s
    → s.banned_until ≡ none
    → All (λ u. u ≤ s.window_started_at + get_failure_window_ms c) (t ∷ ts)
    → s.attempts + suc (length ts) ≡ get_failure_limit c
    → get k (fails c k (t ∷ ts) l).attempts_by_client ≡ some (banned_state c (last t ts))
unfolding fails
fails-banned c k s t [] l v e b w n =
    failure_counts c k t s l v.distinct e b w.0 ∙ ap some (bump-at_limit c t s (omega arith))
fails-banned c k s t (u ∷ ts) l v e b w n =
    fails-banned c k (record s { attempts = s.attempts + 1 }) u ts (record_failure c k t l).1
      (record_failure-IsValid c k t l v)
      (failure_counts c k t s l v.distinct e b w.0 ∙ ap some (bump-below c t s (omega arith))) b w.1
      (omega arith)

fails-from_none :
    (c : Config) (k : Text) (t : ℕ) (ts : List ℕ) (l : Limiter)
    → IsValid c l
    → get k l.attempts_by_client ≡ none
    → All (λ u. u ≤ t + get_failure_window_ms c) ts
    → suc (length ts) ≡ get_failure_limit c
    → get k (fails c k (t ∷ ts) l).attempts_by_client ≡ some (banned_state c (last t ts))
unfolding fails
fails-from_none c k t [] l v e w n =
    failure_starts c k t l v.distinct e ∙ ap some (bump-at_limit c t (fresh t) (omega arith))
fails-from_none c k t (u ∷ ts) l v e w n =
    fails-banned c k (record { attempts = 1; window_started_at = t; banned_until = none }) u ts
      (record_failure c k t l).1 (record_failure-IsValid c k t l v)
      (failure_starts c k t l v.distinct e
        ∙ ap some (bump-below c t (fresh t) (omega arith) ∙ ground arith))
      refl w (omega arith)

fails-IsValid :
    (c : Config) (k : Text) (ts : List ℕ) (l : Limiter) → IsValid c l → IsValid c (fails c k ts l)
unfolding fails
fails-IsValid c k [] l v = v
fails-IsValid c k (t ∷ ts) l v =
    fails-IsValid c k ts (record_failure c k t l).1 (record_failure-IsValid c k t l v)

-- In a valid limiter with no entry for a client, as many failures of it as the limit, all within
-- the window of the first, ban it: a check at any time before the last failure plus the length of
-- a ban reports the seconds left, and a check from then on reports no ban.
pub fails_at_limit :
    (c : Config) (k : Text) (t : ℕ) (ts : List ℕ) (now : ℕ) (l : Limiter)
    → IsValid c l
    → get k l.attempts_by_client ≡ none
    → All (λ u. u ≤ t + get_failure_window_ms c) ts
    → suc (length ts) ≡ get_failure_limit c
    → let until = last t ts + get_ban_ms c in
      (get_retry_after_seconds c k now (fails c k (t ∷ ts) l)).0
      ≡ (if ltb now until then some (to_retry_after_seconds until now) else none)
fails_at_limit c k t ts now l v e w n =
    get_retry_after_seconds-result c k now (fails c k (t ∷ ts) l)
      (fails-IsValid c k (t ∷ ts) l v).distinct
    ∙ rw (fails-from_none c k t ts l v e w n) (ground (arith, ban_pos c))

-- At most so many failures are counted, and there is no ban.
abbrev Under : ℕ → Option AttemptState → Type 0
Under n none = Unit
Under n (some s) = (s.banned_until ≡ none) × (s.attempts ≤ n)

prune-Under :
    (c : Config) (k : Text) (now n : ℕ) (l : Limiter)
    → Distinct l.attempts_by_client
    → Under n (get k l.attempts_by_client)
    → Under n (get k (prune_expired_attempts c now l).attempts_by_client)
unfolding prune_expired_attempts
prune-Under c k now n l d h =
    ground (arith, get-retain (kept (get_failure_window_ms c) now) k l.attempts_by_client d)

count_failure-Under :
    (c : Config) (k : Text) (now n : ℕ) (o : Option AttemptState) (l : Limiter)
    → n + 1 < get_failure_limit c
    → Under n o
    → Under (n + 1) (get k (count_failure c k now o l).1.attempts_by_client)
count_failure-Under c k now n o l lt h = rw (get-count_failure c k now o l) (ground arith)

record_failure-Under :
    (c : Config) (k : Text) (now n : ℕ) (l : Limiter)
    → Distinct l.attempts_by_client
    → n + 1 < get_failure_limit c
    → Under n (get k l.attempts_by_client)
    → Under (n + 1) (get k (record_failure c k now l).1.attempts_by_client)
unfolding record_failure
record_failure-Under c k now n l d lt h =
    let l' = prune_expired_attempts c now l in
    let h' = prune-Under c k now n l d h in
    elim (Option-cases (get k l'.attempts_by_client)) [
      | inl e ↦ rw (e, record_failure) (count_failure-Under c k now n none l' lt tt)
      | inr (s, e) ↦
          let hs : Under n (some s) = subst (Under n) e h' in
          rw (e, record_failure)
            (rw (record_existing-unbanned c k now s l' hs.0)
              (count_failure-Under c k now n (some s) l' lt hs))
    ]

fails-Under :
    (c : Config) (k : Text) (n : ℕ) (ts : List ℕ) (l : Limiter)
    → IsValid c l
    → n + length ts < get_failure_limit c
    → Under n (get k l.attempts_by_client)
    → Under (n + length ts) (get k (fails c k ts l).attempts_by_client)
unfolding fails
fails-Under c k n [] l v lt h = subst (λ m. Under m (get k l.attempts_by_client)) (omega arith) h
fails-Under c k n (t ∷ ts) l v lt h =
    subst (λ m. Under m (get k (fails c k (t ∷ ts) l).attempts_by_client)) (omega arith)
      (fails-Under c k (n + 1) ts (record_failure c k t l).1 (record_failure-IsValid c k t l v)
        (omega arith) (record_failure-Under c k t n l v.distinct (omega arith) h))

-- In a valid limiter with no entry for a client, fewer failures of it than the limit, at whatever
-- times, ban it at no time.
pub fails_below_limit :
    (c : Config) (k : Text) (ts : List ℕ) (now : ℕ) (l : Limiter)
    → IsValid c l
    → get k l.attempts_by_client ≡ none
    → length ts < get_failure_limit c
    → (get_retry_after_seconds c k now (fails c k ts l)).0 ≡ none
fails_below_limit c k ts now l v e lt =
    let u = fails-Under c k 0 ts l v (omega arith) (rw e tt) in
    get_retry_after_seconds-result c k now (fails c k ts l) (fails-IsValid c k ts l v).distinct
    ∙ ground (arith, u)
