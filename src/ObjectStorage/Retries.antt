-- ===== src/ObjectStorage/Retries.antt =====
-- How often a deletion is tried, and when again.
use prism_nestjs.Prelude.{
  ap, ℕ, ◌+◌, ◌*◌, ◌≤◌, ◌≡◌, refl, min, Bool, true, not, ◌&&◌, Option, none, some, List, [], ◌∷◌,
  any, find, update, arith, All, All-append, leb, ◌==◌, is_some, Bool-cases, Option-cases, inl, inr,
}
use prism_nestjs.Prelude.Unique.{UniqueBy, UniqueBy-update, UniqueBy-append}
use prism_nestjs.Prelude.Text.{Text}
use prism_nestjs.Prelude.Driver.{Driver, resolved}
use prism_nestjs.ObjectStorage.Deletion.{
  max_attempts, Deletion, ObjectDeletionRow, row_of, EnqueueParams, enqueue, has_id, new_deletion,
  power_of_two, retry_delay_seconds, completed, failed_attempt, is_pending, claimed_rows, leased,
  is_among, claim_pending, rows_of, execute_deletion, execute_all, execute_found, process_deletion,
  process_pending,
}
use prism_nestjs.ObjectStorage.Claims.{same_id, Has, claimed-pending}

power_of_two-pos : (n : ℕ) → 1 ≤ power_of_two n
unfolding power_of_two
power_of_two-pos ℕ.zero = omega arith
power_of_two-pos (ℕ.suc n) = omega (arith, power_of_two-pos n)

delay_early : (n : ℕ) → 1 ≤ n → 60 ≤ min 3600 (30 * power_of_two n)
unfolding power_of_two
delay_early ℕ.zero h = ground arith
delay_early (ℕ.suc n) h = omega (arith, power_of_two-pos n)

-- The delay before the next attempt is between one minute and one hour, and an hour from the
-- seventh failure on.
pub retry_delay_seconds-le :
    (attempts : ℕ)
    → 1 ≤ attempts
    → (60 ≤ retry_delay_seconds attempts)
      × (retry_delay_seconds attempts ≤ 3600)
      × (7 ≤ attempts → retry_delay_seconds attempts ≡ 3600)
unfolding retry_delay_seconds power_of_two
retry_delay_seconds-le attempts h = elim (Bool-cases (leb 7 attempts)) [
  | inl late ↦
      let e : min attempts 7 ≡ 7 = ground arith in rw e (omega arith, omega arith, λ _. refl)
  | inr early ↦
      let e : min attempts 7 ≡ attempts = ground arith in
      rw e (delay_early attempts h, omega arith, λ k. absurd (ground arith))
]

-- A row that has failed as often as is allowed waits forever.
abbrev pub IsParked : Deletion → Type 0
IsParked d = max_attempts ≤ d.attempts → d.next_attempt_at ≡ none

All-update :
    (p : Deletion → Bool) (f : Deletion → Deletion)
    → ((d : Deletion) → IsParked d → IsParked (f d))
    → (rows : List Deletion) → All IsParked rows
    → All IsParked (update p f rows)
All-update p f k [] h = tt
All-update p f k (d ∷ rows) h = elim (Bool-cases (p d)) [
  | inl hit ↦ rw (hit, update) (k d h.0, All-update p f k rows h.1)
  | inr missed ↦ rw (missed, update) (h.0, All-update p f k rows h.1)
]

failed_attempt_keeps_id :
    (now : ℕ) (message : Text) (attempts : ℕ) (d : Deletion)
    → (failed_attempt now message attempts d).deletion_id ≡ d.deletion_id
unfolding failed_attempt
failed_attempt_keeps_id now message attempts d = ground arith

failed_attempt-IsParked :
    (now : ℕ) (message : Text) (attempts : ℕ) (d : Deletion)
    → IsParked (failed_attempt now message attempts d)
unfolding failed_attempt
failed_attempt-IsParked now message attempts d = ground arith

pub record IsValid (rows : List Deletion) : Type 0 where
  pub unique : UniqueBy same_id rows
  pub parked : All IsParked rows

-- A change of rows that keeps their ids.
update-IsValid :
    (p : Deletion → Bool) (f : Deletion → Deletion)
    → ((d : Deletion) → (f d).deletion_id ≡ d.deletion_id)
    → ((d : Deletion) → IsParked d → IsParked (f d))
    → (rows : List Deletion) → IsValid rows
    → IsValid (update p f rows)
update-IsValid p f i k rows v = record {
  unique =
      UniqueBy-update same_id p f (λ a b. ap (λ n. has_id n b) (i a))
        (λ a b. ap (λ n. n == a.deletion_id) (i b)) rows v.unique;
  parked = All-update p f k rows v.parked;
}

enqueue-IsValid :
    (fresh now : ℕ) (p : EnqueueParams) (rows : List Deletion)
    → IsValid rows
    → IsValid (enqueue fresh now p rows)
unfolding enqueue
enqueue-IsValid fresh now p rows v = elim (Bool-cases (any (has_id fresh) rows)) [
  | inl taken ↦ rw (taken, enqueue) v
  | inr free ↦
      rw (free, enqueue)
        (record {
          unique =
              UniqueBy-append same_id (λ a b. ground arith) rows (new_deletion fresh now p) v.unique
                free;
          parked =
              All-append IsParked rows (new_deletion fresh now p ∷ []) v.parked
                ((λ h. absurd (ground arith)), tt);
        })
]

-- A pending row has attempts left, so that a lease keeps the invariant.
pending-leased :
    (now : ℕ) (d : Deletion) → is_pending now d ≡ true → IsParked d → IsParked (leased now d)
unfolding is_pending
pending-leased now d h k = λ m. absurd (clash (k m))
  where
    clash : d.next_attempt_at ≡ none → ⊥
    clash e = ground arith

update-claimed :
    (now : ℕ) (claimed rows : List Deletion)
    → ((d : Deletion) → Has d rows → is_among claimed d ≡ true → is_pending now d ≡ true)
    → All IsParked rows
    → All IsParked (update (is_among claimed) (leased now) rows)
update-claimed now claimed [] h k = tt
update-claimed now claimed (d ∷ rows) h k = elim (Bool-cases (is_among claimed d)) [
  | inl hit ↦
      rw (hit, update)
        (
          pending-leased now d (h d (inl refl) hit) k.0,
          update-claimed now claimed rows (λ e m. h e (inr m)) k.1,
        )
  | inr missed ↦ rw (missed, update) (k.0, update-claimed now claimed rows (λ e m. h e (inr m)) k.1)
]

claim_pending-IsValid :
    (now : ℕ) (locked : ℕ → Bool) (rows : List Deletion)
    → IsValid rows
    → IsValid (claim_pending now locked rows).1
unfolding claim_pending
claim_pending-IsValid now locked rows v = record {
  unique =
      UniqueBy-update same_id (is_among (claimed_rows now locked rows)) (leased now) (λ a b. refl)
        (λ a b. refl) rows v.unique;
  parked =
      update-claimed now (claimed_rows now locked rows) rows
        (λ d m e. claimed-pending now locked d rows v.unique m e) v.parked;
}

pub data Op : Type 0 where
  enqueued : ℕ → ℕ → EnqueueParams → Op
  deletion : ℕ → Op
  pending : Driver → ℕ → (ℕ → Bool) → Op

module _ (delete_object : ℕ → ObjectDeletionRow → Option Text) (clock : ℕ → ℕ) where
  execute_deletion-IsValid :
      (d : ObjectDeletionRow) (rows : List Deletion)
      → IsValid rows
      → IsValid (execute_deletion delete_object clock d rows)
  unfolding execute_deletion
  execute_deletion-IsValid d rows v = elim (Option-cases (delete_object (clock d.deletion_id) d)) [
    | inl done ↦
        rw (done, execute_deletion)
          (update-IsValid (has_id d.deletion_id) (completed (clock d.deletion_id)) (λ e. refl)
            (λ e k. k) rows v)
    | inr (message, failed) ↦
        rw (failed, execute_deletion)
          (update-IsValid (has_id d.deletion_id)
            (failed_attempt (clock d.deletion_id) message (d.attempts + 1))
            (failed_attempt_keeps_id (clock d.deletion_id) message (d.attempts + 1))
            (λ e _. failed_attempt-IsParked (clock d.deletion_id) message (d.attempts + 1) e) rows
            v)
  ]

  execute_all-IsValid :
      (ds : List ObjectDeletionRow) (rows : List Deletion)
      → IsValid rows
      → IsValid (execute_all delete_object clock ds rows)
  unfolding execute_all
  execute_all-IsValid [] rows v = v
  execute_all-IsValid (d ∷ ds) rows v =
      execute_all-IsValid ds (execute_deletion delete_object clock d rows)
        (execute_deletion-IsValid d rows v)

  execute_found-IsValid :
      (o : Option Deletion) (rows : List Deletion)
      → IsValid rows
      → IsValid (execute_found delete_object clock o rows)
  execute_found-IsValid none rows v = v
  execute_found-IsValid (some d) rows v = execute_deletion-IsValid (row_of d) rows v

  unfoldable pub perform : Op → List Deletion → List Deletion
  perform (enqueued fresh now p) rows = enqueue fresh now p rows
  perform (deletion id) rows = process_deletion delete_object clock id rows
  perform (pending driver now locked) rows =
      process_pending delete_object clock driver now locked rows

  -- Whatever the store answers, every operation keeps ids unique and a deletion that has failed
  -- ten times parked: no run claims it again.
  pub perform-IsValid : (op : Op) (rows : List Deletion) → IsValid rows → IsValid (perform op rows)
  unfolding perform process_deletion process_pending
  perform-IsValid (enqueued fresh now p) rows v = enqueue-IsValid fresh now p rows v
  perform-IsValid (deletion id) rows v =
      execute_found-IsValid (find (λ d. has_id id d && not (is_some d.completed_at)) rows) rows v
  perform-IsValid (pending driver now locked) rows v =
      execute_all-IsValid (rows_of (resolved driver (claim_pending now locked rows).0))
        (claim_pending now locked rows).1 (claim_pending-IsValid now locked rows v)
