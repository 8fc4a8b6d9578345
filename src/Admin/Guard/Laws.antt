-- ===== src/Admin/Guard/Laws.antt =====
-- Who the guard lets in, and that one client's attempts do not count against another.
use prism_nestjs.Prelude.{
  ℕ, ◌≤◌, ◌≡◌, refl, ◌≢◌, ◌↔◌, ◌∙◌, Bool-cases, inl, inr, true, false, Option, none, some, [],
  arith,
}
use prism_nestjs.Prelude.Text.{Text, text_eq_iff, trim}
use prism_nestjs.Admin.Limiter.{Config, Limiter, get_retry_after_seconds, record_failure}
use prism_nestjs.Admin.Limiter.Invariant.{
  IsValid, record_failure-IsValid, record_success-IsValid, get_retry_after_seconds-IsValid,
}
use prism_nestjs.Admin.Limiter.Isolation.{check-failure, check-success, check-check}
use prism_nestjs.Admin.Guard.{
  Header, single, absent, repeated, Request, allowed, is_empty, client_of, rejects, fail_outcome,
  judge, can_activate,
}

module _ (digest : Text → Text) where
  -- The header holds one password that is not blank, and its digest is that of the configured one.
  abbrev pub IsCorrect : Text → Header → Type 0
  IsCorrect configured absent = ⊥
  IsCorrect configured (repeated _) = ⊥
  IsCorrect configured (single s) =
      (trim configured ≢ []) × (trim s ≢ []) × (digest (trim s) ≡ digest (trim configured))

  is_empty_iff : (s : Text) → (is_empty s ≡ true) ↔ (s ≡ [])
  is_empty_iff s = ground arith

  rejects_iff :
      (configured : Text) (h : Header)
      → (rejects digest configured h ≡ false) ↔ IsCorrect configured h
  unfolding rejects
  rejects_iff configured absent = ground arith
  rejects_iff configured (repeated _) = ground arith
  rejects_iff configured (single s) = ground (
    arith,
    is_empty_iff (trim s),
    is_empty_iff (trim configured),
    text_eq_iff (digest (trim s)) (digest (trim configured)),
  )

  fail_outcome-ne-allowed : (p : Option ℕ × Limiter) → (fail_outcome digest p).0 ≢ allowed
  fail_outcome-ne-allowed (none, l) = cc
  fail_outcome-ne-allowed (some n, l) = cc

  judge-allowed :
      (c : Config) (configured : Text) (r : Request) (o : Option ℕ) (l : Limiter)
      → ((judge digest c configured r (o, l)).0 ≡ allowed)
        ↔ ((o ≡ none) × IsCorrect configured r.password)
  unfolding judge
  judge-allowed c configured r (some n) l = ground arith
  judge-allowed c configured r none l = ground (
    arith,
    rejects_iff configured r.password,
    fail_outcome-ne-allowed (record_failure c (client_of r) r.failed_at l),
  )

  -- A request is let in exactly if its client is not banned at the check and its header holds one
  -- password, not blank, whose digest is that of the configured password, which is not blank.
  pub can_activate-allowed :
      (c : Config) (configured : Text) (r : Request) (l : Limiter)
      → ((can_activate digest c configured r l).0 ≡ allowed) ↔ (
          ((get_retry_after_seconds c (client_of r) r.checked_at l).0 ≡ none)
          × IsCorrect configured r.password)
  unfolding can_activate
  can_activate-allowed c configured r l =
      judge-allowed c configured r (get_retry_after_seconds c (client_of r) r.checked_at l).0
        (get_retry_after_seconds c (client_of r) r.checked_at l).1

  judge-IsValid :
      (c : Config) (configured : Text) (r : Request) (p : Option ℕ × Limiter)
      → IsValid c p.1
      → IsValid c (judge digest c configured r p).1
  unfolding judge
  judge-IsValid c configured r (some n, l) v = v
  judge-IsValid c configured r (none, l) v =
      elim (Bool-cases (rejects digest configured r.password)) [
        | inl wrong ↦
            rw (wrong, judge)
              (failed (record_failure c (client_of r) r.failed_at l)
                (record_failure-IsValid c (client_of r) r.failed_at l v))
        | inr right ↦ rw (right, judge) (record_success-IsValid c (client_of r) l v)
      ]
    where
      failed : (p : Option ℕ × Limiter) → IsValid c p.1 → IsValid c (fail_outcome digest p).1
      failed (none, m) w = w
      failed (some n, m) w = w

  -- A request keeps the limiter valid.
  pub can_activate-IsValid :
      (c : Config) (configured : Text) (r : Request) (l : Limiter)
      → IsValid c l
      → IsValid c (can_activate digest c configured r l).1
  unfolding can_activate
  can_activate-IsValid c configured r l v =
      judge-IsValid c configured r (get_retry_after_seconds c (client_of r) r.checked_at l)
        (get_retry_after_seconds-IsValid c (client_of r) r.checked_at l v)

  judge-check :
      (c : Config) (configured : Text) (r : Request) (j : Text) (later : ℕ) (p : Option ℕ × Limiter)
      → IsValid c p.1
      → j ≢ client_of r
      → r.failed_at ≤ later
      → (get_retry_after_seconds c j later (judge digest c configured r p).1).0
        ≡ (get_retry_after_seconds c j later p.1).0
  unfolding judge
  judge-check c configured r j later (some n, l) v ne le = refl
  judge-check c configured r j later (none, l) v ne le =
      elim (Bool-cases (rejects digest configured r.password)) [
        | inl wrong ↦
            rw (wrong, judge)
              (failed (record_failure c (client_of r) r.failed_at l)
                ∙ check-failure c (client_of r) r.failed_at j later l v ne le)
        | inr right ↦ rw (right, judge) (check-success c (client_of r) j later l v ne)
      ]
    where
      failed :
          (q : Option ℕ × Limiter)
          → (get_retry_after_seconds c j later (fail_outcome digest q).1).0
            ≡ (get_retry_after_seconds c j later q.1).0
      failed (none, m) = refl
      failed (some n, m) = refl

  -- In a valid limiter, a request of one client, right or wrong, changes nothing in what a check of
  -- another client reports at any time from then on.
  pub check-can_activate :
      (c : Config) (configured : Text) (r : Request) (j : Text) (later : ℕ) (l : Limiter)
      → IsValid c l
      → j ≢ client_of r
      → r.checked_at ≤ later
      → r.failed_at ≤ later
      → (get_retry_after_seconds c j later (can_activate digest c configured r l).1).0
        ≡ (get_retry_after_seconds c j later l).0
  unfolding can_activate
  check-can_activate c configured r j later l v ne le le' =
      judge-check c configured r j later (get_retry_after_seconds c (client_of r) r.checked_at l)
        (get_retry_after_seconds-IsValid c (client_of r) r.checked_at l v) ne le'
      ∙ check-check c (client_of r) r.checked_at j later l v le
