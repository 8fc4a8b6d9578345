-- ===== src/Admin/Limiter/Isolation.antt =====
-- What a check reports, whatever has been pruned, and that clients do not affect one another.
use prism_nestjs.Prelude.{
  ℕ, ◌≤◌, ◌≡◌, refl, ◌≢◌, ◌∙◌, sym, ap, Option, none, some, arith, Option-cases, Bool-cases, inl,
  inr, leb, leb→le, ◌==◌,
}
use prism_nestjs.Prelude.Text.{Text, text_eq, text_eq_iff}
use prism_nestjs.Prelude.Map.{
  get, Distinct, get-retain, get-set_ne, get-delete_ne, get-delete_self, text_instance,
}
use prism_nestjs.Admin.Limiter.{
  Config, AttemptState, Limiter, get_failure_window_ms, prune_expired_attempts, kept, forget,
  retry_after_of, get_retry_after_seconds, count_failure, record_existing, record_failure,
  record_success, counted_state, bump, active_ban, to_retry_after_seconds, ban_over,
}
use prism_nestjs.Admin.Limiter.Invariant.{IsValid, Op, step, step-IsValid}

abbrev pub ban_in : Option AttemptState → ℕ → Option ℕ
ban_in none now = none
ban_in (some s) now = active_ban s.banned_until now

-- The ban of a client at a time, read from the map alone.
abbrev pub ban_of : Text → ℕ → Limiter → Option ℕ
ban_of k now l = ban_in (get k l.attempts_by_client) now

-- Pruning removes no ban that holds now or later.
pub ban_of-prune :
    (c : Config) (k : Text) (now later : ℕ) (l : Limiter)
    → now ≤ later
    → Distinct l.attempts_by_client
    → ban_of k later (prune_expired_attempts c now l) ≡ ban_of k later l
unfolding prune_expired_attempts
ban_of-prune c k now later l h d =
    ground (arith, get-retain (kept (get_failure_window_ms c) now) k l.attempts_by_client d)

-- What a check reports of a ban.
abbrev pub seconds_left : Option ℕ → ℕ → Option ℕ
seconds_left none now = none
seconds_left (some u) now = some (to_retry_after_seconds u now)

retry_after_of-result :
    (k : Text) (now : ℕ) (l : Limiter) (o : Option ℕ)
    → (retry_after_of k now l o).0 ≡ seconds_left (active_ban o now) now
unfolding retry_after_of
retry_after_of-result k now l none = refl
retry_after_of-result k now l (some u) = ground arith

-- A check reports the ban that the map holds, and pruning is not seen.
pub get_retry_after_seconds-result :
    (c : Config) (k : Text) (now : ℕ) (l : Limiter)
    → Distinct l.attempts_by_client
    → (get_retry_after_seconds c k now l).0 ≡ seconds_left (ban_of k now l) now
unfolding get_retry_after_seconds
get_retry_after_seconds-result c k now l d =
    let l' = prune_expired_attempts c now l in
    let same = ban_of-prune c k now now l (omega arith) d in
    elim (Option-cases (get k l'.attempts_by_client)) [
      | inl e ↦ rw (e, get_retry_after_seconds) (rw (← same) (rw (e, ban_of, ban_in)))
      | inr (s, e) ↦
          rw (e, get_retry_after_seconds)
            (retry_after_of-result k now l' s.banned_until ∙ rw (← same) (rw (e, ban_of, ban_in)))
    ]

ban_of-count_failure :
    (c : Config) (j k : Text) (now later : ℕ) (existing : Option AttemptState) (l : Limiter)
    → j ≢ k
    → ban_of j later (count_failure c k now existing l).1 ≡ ban_of j later l
unfolding count_failure
ban_of-count_failure c j k now later existing l h =
    let s = bump c now (counted_state c now existing) in
    rw (get-set_ne j k s l.attempts_by_client h, ban_of)

pub ban_of-forget :
    (j k : Text) (later : ℕ) (l : Limiter) → j ≢ k → ban_of j later (forget k l) ≡ ban_of j later l
ban_of-forget j k later l h = rw (get-delete_ne j k l.attempts_by_client h, ban_of)

ban_of-record_existing :
    (c : Config) (j k : Text) (now later : ℕ) (s : AttemptState) (l : Limiter)
    → j ≢ k
    → ban_of j later (record_existing c k now s l).1 ≡ ban_of j later l
unfolding record_existing
ban_of-record_existing c j k now later s l h = elim (Option-cases (active_ban s.banned_until now)) [
  | inr (u, e) ↦ rw (e, record_existing)
  | inl e ↦ elim (Bool-cases (ban_over s.banned_until now)) [
    | inl over ↦
        rw (e, over, record_existing)
          (ban_of-count_failure c j k now later none (forget k l) h ∙ ban_of-forget j k later l h)
    | inr fresh ↦ rw (e, fresh, record_existing) (ban_of-count_failure c j k now later (some s) l h)
  ]
]

ban_of-record_failure :
    (c : Config) (j k : Text) (now later : ℕ) (l : Limiter)
    → j ≢ k
    → now ≤ later
    → Distinct l.attempts_by_client
    → ban_of j later (record_failure c k now l).1 ≡ ban_of j later l
unfolding record_failure
ban_of-record_failure c j k now later l h le d =
    let l' = prune_expired_attempts c now l in
    let same = ban_of-prune c j now later l le d in
    elim (Option-cases (get k l'.attempts_by_client)) [
      | inl e ↦ rw (e, record_failure) (ban_of-count_failure c j k now later none l' h ∙ same)
      | inr (s, e) ↦ rw (e, record_failure) (ban_of-record_existing c j k now later s l' h ∙ same)
    ]

-- A check drops only an entry whose ban is over, also the checked client's.
ban_of-forget_over :
    (j k : Text) (now later u : ℕ) (s : AttemptState) (l : Limiter)
    → now ≤ later
    → get k l.attempts_by_client ≡ some s
    → s.banned_until ≡ some u
    → u ≤ now
    → ban_of j later (forget k l) ≡ ban_of j later l
ban_of-forget_over j k now later u s l le e b over = elim (Bool-cases (text_eq j k)) [
  | inl same ↦
      rw ((text_eq_iff j k).0 same) (ground (arith, get-delete_self k l.attempts_by_client))
  | inr other ↦ ban_of-forget j k later l (λ p. ground (arith, text_eq_iff j k))
]

ban_of-retry_after_of :
    (j k : Text) (now later : ℕ) (s : AttemptState) (l : Limiter) (o : Option ℕ)
    → now ≤ later
    → get k l.attempts_by_client ≡ some s
    → s.banned_until ≡ o
    → ban_of j later (retry_after_of k now l o).1 ≡ ban_of j later l
unfolding retry_after_of
ban_of-retry_after_of j k now later s l none le e b = refl
ban_of-retry_after_of j k now later s l (some u) le e b = elim (Bool-cases (u == 0)) [
  | inl z ↦ rw z
  | inr nz ↦ elim (Bool-cases (leb u now)) [
    | inl over ↦ rw (nz, over) (ban_of-forget_over j k now later u s l le e b (leb→le u now over))
    | inr holds ↦ rw (nz, holds)
  ]
]

ban_of-check :
    (c : Config) (j k : Text) (now later : ℕ) (l : Limiter)
    → now ≤ later
    → Distinct l.attempts_by_client
    → ban_of j later (get_retry_after_seconds c k now l).1 ≡ ban_of j later l
unfolding get_retry_after_seconds
ban_of-check c j k now later l le d =
    let l' = prune_expired_attempts c now l in
    let same = ban_of-prune c j now later l le d in
    elim (Option-cases (get k l'.attempts_by_client)) [
      | inl e ↦ rw (e, get_retry_after_seconds) same
      | inr (s, e) ↦
          rw (e, get_retry_after_seconds)
            (ban_of-retry_after_of j k now later s l' s.banned_until le e refl ∙ same)
    ]

-- Whether an operation at a time may come before a check at a later time of a client, and not
-- change it: a check of any client, or anything that is done for another.
abbrev pub IsForeign : Op → Text → ℕ → Type 0
IsForeign (Op.check k now) j later = now ≤ later
IsForeign (Op.failure k now) j later = (j ≢ k) × (now ≤ later)
IsForeign (Op.success k) j later = j ≢ k

ban_of-step :
    (c : Config) (op : Op) (j : Text) (later : ℕ) (l : Limiter)
    → Distinct l.attempts_by_client
    → IsForeign op j later
    → ban_of j later (step c op l) ≡ ban_of j later l
unfolding step record_success
ban_of-step c (Op.check k now) j later l d le = ban_of-check c j k now later l le d
ban_of-step c (Op.failure k now) j later l d (h, le) =
    ban_of-record_failure c j k now later l h le d
ban_of-step c (Op.success k) j later l d h = ban_of-forget j k later l h

-- In a valid limiter, a check of one client reports the same after any earlier check, and after
-- any earlier failure or success of another client.
pub check-step :
    (c : Config) (op : Op) (j : Text) (later : ℕ) (l : Limiter)
    → IsValid c l
    → IsForeign op j later
    → (get_retry_after_seconds c j later (step c op l)).0 ≡ (get_retry_after_seconds c j later l).0
check-step c op j later l v f =
    get_retry_after_seconds-result c j later (step c op l) (step-IsValid c op l v).distinct
    ∙ ap (λ o. seconds_left o later) (ban_of-step c op j later l v.distinct f)
    ∙ sym (get_retry_after_seconds-result c j later l v.distinct)

-- The same for each operation by its name.
pub check-check :
    (c : Config) (k : Text) (now : ℕ) (j : Text) (later : ℕ) (l : Limiter)
    → IsValid c l
    → now ≤ later
    → (get_retry_after_seconds c j later (get_retry_after_seconds c k now l).1).0
      ≡ (get_retry_after_seconds c j later l).0
unfolding step
check-check c k now j later l v le = check-step c (Op.check k now) j later l v le

pub check-failure :
    (c : Config) (k : Text) (now : ℕ) (j : Text) (later : ℕ) (l : Limiter)
    → IsValid c l
    → j ≢ k
    → now ≤ later
    → (get_retry_after_seconds c j later (record_failure c k now l).1).0
      ≡ (get_retry_after_seconds c j later l).0
unfolding step
check-failure c k now j later l v ne le = check-step c (Op.failure k now) j later l v (ne, le)

pub check-success :
    (c : Config) (k j : Text) (later : ℕ) (l : Limiter)
    → IsValid c l
    → j ≢ k
    → (get_retry_after_seconds c j later (record_success k l)).0
      ≡ (get_retry_after_seconds c j later l).0
unfolding step
check-success c k j later l v ne = check-step c (Op.success k) j later l v ne
