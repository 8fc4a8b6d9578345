-- ===== src/Admin/Limiter/Invariant.antt =====
-- The limiter's invariant: what every entry and the map of entries keep through any operation.
use prism_nestjs.Prelude.{
  ℕ, ◌+◌, ◌≤◌, ◌<◌, ◌≡◌, ◌⊎◌, Option, none, some, arith, Option-cases, Bool-cases, inl, inr, false,
}
use prism_nestjs.Prelude.Text.{Text}
use prism_nestjs.Prelude.Map.{
  get, Distinct, Values, set-Distinct, delete-Distinct, retain-Distinct, set-Values, delete-Values,
  retain-Values, get-Values, text_instance,
}
use prism_nestjs.Admin.Limiter.{
  Config, AttemptState, Limiter, get_failure_limit, get_failure_window_ms, get_ban_ms,
  prune_expired_attempts, kept, forget, retry_after_of, get_retry_after_seconds, count_failure,
  record_existing, record_failure, record_success, counted_state, bump, active_ban, ban_over,
}

pub limit_pos : (c : Config) → 1 ≤ get_failure_limit c
unfolding get_failure_limit
limit_pos c = ground arith

pub ban_pos : (c : Config) → 1 ≤ get_ban_ms c
unfolding get_ban_ms
ban_pos c = ground arith

-- An entry counts failures below the limit, or stands at the limit with a ban of the full length
-- from its last failure.
abbrev pub IsCounted : Config → AttemptState → Type 0
IsCounted c s =
    (1 ≤ s.attempts)
    × (((s.banned_until ≡ none) × (s.attempts < get_failure_limit c))
        ⊎ ((s.banned_until ≡ some (s.window_started_at + get_ban_ms c))
            × (s.attempts ≡ get_failure_limit c)))

pub record IsValid (c : Config) (l : Limiter) : Type 0 where
  pub distinct : Distinct l.attempts_by_client
  pub counted : Values (IsCounted c) l.attempts_by_client

pub prune-IsValid :
    (c : Config) (now : ℕ) (l : Limiter) → IsValid c l → IsValid c (prune_expired_attempts c now l)
unfolding prune_expired_attempts
prune-IsValid c now l v =
    let keep = kept (get_failure_window_ms c) now in
    let d = retain-Distinct keep l.attempts_by_client v.distinct in
    let w = retain-Values (IsCounted c) keep l.attempts_by_client v.counted in
    record { distinct = ground (arith, d, v.distinct); counted = ground (arith, w, v.counted) }

pub forget-IsValid : (c : Config) (k : Text) (l : Limiter) → IsValid c l → IsValid c (forget k l)
forget-IsValid c k l v = record {
  distinct = delete-Distinct k l.attempts_by_client v.distinct;
  counted = delete-Values (IsCounted c) k l.attempts_by_client v.counted;
}

-- Counting one more failure on a state with no ban and below the limit.
bump-IsCounted :
    (c : Config) (now : ℕ) (s : AttemptState)
    → s.banned_until ≡ none
    → s.attempts < get_failure_limit c
    → IsCounted c (bump c now s)
bump-IsCounted c now s e h = ground arith

-- An entry whose ban neither holds nor is over has none.
pub eq-none_of_counted :
    (c : Config) (now : ℕ) (s : AttemptState)
    → IsCounted c s
    → active_ban s.banned_until now ≡ none
    → ban_over s.banned_until now ≡ false
    → (s.banned_until ≡ none) × (s.attempts < get_failure_limit c)
eq-none_of_counted c now s h p q = ground (arith, ban_pos c)

count_failure-IsValid :
    (c : Config) (k : Text) (now : ℕ) (existing : Option AttemptState) (l : Limiter)
    → (counted_state c now existing).banned_until ≡ none
    → (counted_state c now existing).attempts < get_failure_limit c
    → IsValid c l
    → IsValid c (count_failure c k now existing l).1
unfolding count_failure
count_failure-IsValid c k now existing l e h v =
    let s = counted_state c now existing in
    record {
      distinct = set-Distinct k (bump c now s) l.attempts_by_client v.distinct;
      counted =
          set-Values (IsCounted c) k (bump c now s) l.attempts_by_client v.counted
            (bump-IsCounted c now s e h);
    }

record_existing-IsValid :
    (c : Config) (k : Text) (now : ℕ) (s : AttemptState) (l : Limiter)
    → IsCounted c s
    → IsValid c l
    → IsValid c (record_existing c k now s l).1
unfolding record_existing
record_existing-IsValid c k now s l h v = elim (Option-cases (active_ban s.banned_until now)) [
  | inr (u, e) ↦ rw (e, record_existing) v
  | inl e ↦ elim (Bool-cases (ban_over s.banned_until now)) [
    | inl over ↦
        rw (e, over, record_existing)
          (count_failure-IsValid c k now none (forget k l) (ground arith)
            (omega (arith, limit_pos c)) (forget-IsValid c k l v))
    | inr fresh ↦
        let (unbanned, below) = eq-none_of_counted c now s h e fresh in
        rw (e, fresh, record_existing)
          (count_failure-IsValid c k now (some s) l (ground arith) (ground (arith, limit_pos c)) v)
  ]
]

pub record_failure-IsValid :
    (c : Config) (k : Text) (now : ℕ) (l : Limiter)
    → IsValid c l
    → IsValid c (record_failure c k now l).1
unfolding record_failure
record_failure-IsValid c k now l v =
    let l' = prune_expired_attempts c now l in
    let v' = prune-IsValid c now l v in
    elim (Option-cases (get k l'.attempts_by_client)) [
      | inl e ↦
          rw (e, record_failure)
            (count_failure-IsValid c k now none l' (ground arith) (omega (arith, limit_pos c)) v')
      | inr (s, e) ↦
          rw (e, record_failure)
            (record_existing-IsValid c k now s l'
              (get-Values (IsCounted c) k s l'.attempts_by_client v'.counted e) v')
    ]

retry_after_of-IsValid :
    (c : Config) (k : Text) (now : ℕ) (l : Limiter) (o : Option ℕ)
    → IsValid c l
    → IsValid c (retry_after_of k now l o).1
unfolding retry_after_of
retry_after_of-IsValid c k now l none v = v
retry_after_of-IsValid c k now l (some u) v = ground (arith, forget-IsValid c k l v)

pub get_retry_after_seconds-IsValid :
    (c : Config) (k : Text) (now : ℕ) (l : Limiter)
    → IsValid c l
    → IsValid c (get_retry_after_seconds c k now l).1
unfolding get_retry_after_seconds
get_retry_after_seconds-IsValid c k now l v =
    let l' = prune_expired_attempts c now l in
    let v' = prune-IsValid c now l v in
    elim (Option-cases (get k l'.attempts_by_client)) [
      | inl e ↦ rw (e, get_retry_after_seconds) v'
      | inr (s, e) ↦
          rw (e, get_retry_after_seconds) (retry_after_of-IsValid c k now l' s.banned_until v')
    ]

pub record_success-IsValid :
    (c : Config) (k : Text) (l : Limiter) → IsValid c l → IsValid c (record_success k l)
unfolding record_success
record_success-IsValid c k l v = forget-IsValid c k l v

-- The public operations of the service.
pub data Op : Type 0 where
  check failure : Text → ℕ → Op
  success : Text → Op

unfoldable pub step : Config → Op → Limiter → Limiter
step c (Op.check k now) l = (get_retry_after_seconds c k now l).1
step c (Op.failure k now) l = (record_failure c k now l).1
step c (Op.success k) l = record_success k l

-- Every operation keeps the invariant: one entry for a client, each below the limit with no ban,
-- or at the limit with a ban of the full length.
pub step-IsValid : (c : Config) (op : Op) (l : Limiter) → IsValid c l → IsValid c (step c op l)
unfolding step record_success
step-IsValid c (Op.check k now) l v = get_retry_after_seconds-IsValid c k now l v
step-IsValid c (Op.failure k now) l v = record_failure-IsValid c k now l v
step-IsValid c (Op.success k) l v = forget-IsValid c k l v
