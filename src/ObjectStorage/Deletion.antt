-- ===== src/ObjectStorage/Deletion.antt =====
-- src/core/object-storage/object-storage-deletion.service.ts: a queue of objects to delete, with
-- leases and retries. The store is a parameter: what deleting an object at a time ends in, `none`
-- or the message of an error. The clock is a parameter too.
use prism_nestjs.Prelude.{
  ℕ, zero, suc, ◌+◌, ◌*◌, min, Bool, true, false, not, ◌&&◌, Option, none, some, List, [], ◌∷◌,
  ◌++◌, map, any, find, filter, update, take, ltb, leb, ◌==◌, is_some, if◌then◌else◌,
}
use prism_nestjs.Prelude.Text.{Text}
use prism_nestjs.Prelude.Driver.{Driver, Resolved, alone, counted, resolved}

abbrev pub max_attempts : ℕ
max_attempts = 10

abbrev pub lease_seconds : ℕ
lease_seconds = 300

-- A row of prism_object_deletion_queue_l; `none` for the next attempt is 'infinity'.
pub record Deletion : Type 0 where
  pub deletion_id : ℕ
  pub bucket_kind : Text
  pub object_name : Text
  pub storage_version_id : Option Text
  pub reason : Text
  pub attempts : ℕ
  pub next_attempt_at : Option ℕ
  pub last_error : Option Text
  pub created_at : ℕ
  pub completed_at : Option ℕ

-- `ObjectDeletionRow`, what the queries return.
pub record ObjectDeletionRow : Type 0 where
  pub deletion_id : ℕ
  pub bucket_kind : Text
  pub object_name : Text
  pub storage_version_id : Option Text
  pub attempts : ℕ

abbrev pub row_of : Deletion → ObjectDeletionRow
row_of d = record {
  deletion_id = d.deletion_id;
  bucket_kind = d.bucket_kind;
  object_name = d.object_name;
  storage_version_id = d.storage_version_id;
  attempts = d.attempts;
}

pub record EnqueueParams : Type 0 where
  pub bucket_kind : Text
  pub object_name : Text
  pub storage_version_id : Option Text
  pub reason : Text

abbrev pub has_id : ℕ → Deletion → Bool
has_id id d = d.deletion_id == id

abbrev pub new_deletion : ℕ → ℕ → EnqueueParams → Deletion
new_deletion fresh now p = record {
  deletion_id = fresh;
  bucket_kind = p.bucket_kind;
  object_name = p.object_name;
  storage_version_id = p.storage_version_id;
  reason = p.reason;
  attempts = 0;
  next_attempt_at = some now;
  last_error = none;
  created_at = now;
  completed_at = none;
}

-- The INSERT; a key that is taken is refused.
unfoldable pub enqueue : ℕ → ℕ → EnqueueParams → List Deletion → List Deletion
enqueue fresh now p rows =
    if any (has_id fresh) rows then rows else rows ++ new_deletion fresh now p ∷ []

-- `2 ** n`.
unfoldable pub power_of_two : ℕ → ℕ
power_of_two zero = 1
power_of_two (suc n) = 2 * power_of_two n

-- `Math.min(3600, 30 * 2 ** Math.min(attempts, 7))`.
unfoldable pub retry_delay_seconds : ℕ → ℕ
unfolding power_of_two
retry_delay_seconds attempts = min 3600 (30 * power_of_two (min attempts 7))

abbrev pub completed : ℕ → Deletion → Deletion
completed now d = record d { completed_at = some now; last_error = none }

-- What the row becomes after a failure, by the attempts that the caller has read.
unfoldable pub failed_attempt : ℕ → Text → ℕ → Deletion → Deletion
unfolding retry_delay_seconds
failed_attempt now message attempts d =
    if leb max_attempts attempts
    then record d {
      attempts = attempts;
      next_attempt_at = none;
      last_error = some (take 2000 message);
    }
    else record d {
      attempts = attempts;
      next_attempt_at = some (now + retry_delay_seconds attempts * 1000);
      last_error = some (take 2000 message);
    }

-- `next_attempt_at <= NOW()`.
abbrev pub is_due : ℕ → Option ℕ → Bool
is_due now none = false
is_due now (some t) = leb t now

unfoldable pub is_pending : ℕ → Deletion → Bool
is_pending now d = not (is_some d.completed_at) && is_due now d.next_attempt_at

-- ORDER BY next_attempt_at, created_at.
abbrev pub time_before : Option ℕ → Option ℕ → Bool → Bool
time_before (some a) (some b) tie = if a == b then tie else ltb a b
time_before (some a) none tie = true
time_before none (some b) tie = false
time_before none none tie = tie

abbrev pub comes_first : Deletion → Deletion → Bool
comes_first a b = time_before a.next_attempt_at b.next_attempt_at (leb a.created_at b.created_at)

unfoldable pub insert_row : Deletion → List Deletion → List Deletion
insert_row a [] = a ∷ []
insert_row a (b ∷ rows) = if comes_first a b then a ∷ b ∷ rows else b ∷ insert_row a rows

unfoldable pub sort_rows : List Deletion → List Deletion
sort_rows [] = []
sort_rows (a ∷ rows) = insert_row a (sort_rows rows)

-- The rows of `claimed`, without those that other transactions hold locked.
unfoldable pub claimed_rows : ℕ → (ℕ → Bool) → List Deletion → List Deletion
unfolding sort_rows insert_row is_pending
claimed_rows now locked rows =
    take 25 (sort_rows (filter (λ d. is_pending now d && not (locked d.deletion_id)) rows))

abbrev pub leased : ℕ → Deletion → Deletion
leased now d = record d { next_attempt_at = some (now + lease_seconds * 1000) }

abbrev pub is_among : List Deletion → Deletion → Bool
is_among claimed d = any (has_id d.deletion_id) claimed

-- The UPDATE, and the rows that it returns.
unfoldable pub claim_pending :
    ℕ → (ℕ → Bool) → List Deletion → List ObjectDeletionRow × List Deletion
unfolding claimed_rows
claim_pending now locked rows =
    let claimed = claimed_rows now locked rows in
    (map row_of (filter (is_among claimed) rows), update (is_among claimed) (leased now) rows)

-- `Array.isArray(result[0]) ? result[0] : result`.
abbrev pub rows_of : Resolved ObjectDeletionRow → List ObjectDeletionRow
rows_of (alone rows) = rows
rows_of (counted rows n) = rows

module _ (delete_object : ℕ → ObjectDeletionRow → Option Text) (clock : ℕ → ℕ) where
  -- `executeDeletion` at the time that the clock gives for the deletion.
  unfoldable pub execute_deletion : ObjectDeletionRow → List Deletion → List Deletion
  unfolding failed_attempt
  execute_deletion d rows =
      let now = clock d.deletion_id in
      elim (delete_object now d) [
        | none ↦ update (has_id d.deletion_id) (completed now) rows
        | some message ↦
            update (has_id d.deletion_id) (failed_attempt now message (d.attempts + 1)) rows
      ]

  unfoldable pub execute_all : List ObjectDeletionRow → List Deletion → List Deletion
  unfolding execute_deletion
  execute_all [] rows = rows
  execute_all (d ∷ ds) rows = execute_all ds (execute_deletion d rows)

  abbrev pub execute_found : Option Deletion → List Deletion → List Deletion
  execute_found none rows = rows
  execute_found (some d) rows = execute_deletion (row_of d) rows

  unfoldable pub process_deletion : ℕ → List Deletion → List Deletion
  unfolding execute_deletion
  process_deletion id rows =
      execute_found (find (λ d. has_id id d && not (is_some d.completed_at)) rows) rows

  -- A run that is not already going on.
  unfoldable pub process_pending : Driver → ℕ → (ℕ → Bool) → List Deletion → List Deletion
  unfolding claim_pending execute_all
  process_pending driver now locked rows =
      let (returned, rows') = claim_pending now locked rows in
      execute_all (rows_of (resolved driver returned)) rows'
