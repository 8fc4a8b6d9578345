-- ===== src/ObjectStorage/Examples.antt =====
-- The theorems on the deletion queue at concrete inputs, and runs of the code.
use prism_nestjs.Prelude.{
  ℕ, ◌≤◌, ◌≡◌, refl, Bool, false, Option, none, some, [], ◌∷◌, arith, any, ◌==◌,
}
use prism_nestjs.Prelude.Text.{Text, codes}
use prism_nestjs.Prelude.Driver.{rows_alone, rows_and_count}
use prism_nestjs.ObjectStorage.Deletion.{
  Deletion, ObjectDeletionRow, claim_pending, process_pending, retry_delay_seconds,
}
use prism_nestjs.ObjectStorage.Claims.{claim_pending-leased}
use prism_nestjs.ObjectStorage.Retries.{
  IsValid, Op, perform, perform-IsValid, retry_delay_seconds-le,
}

-- An object that has failed nine times.
abbrev row : Deletion
row = record {
  deletion_id = 1;
  bucket_kind = codes "private";
  object_name = codes "a.png";
  storage_version_id = none;
  reason = codes "replaced";
  attempts = 9;
  next_attempt_at = some 1000;
  last_error = none;
  created_at = 0;
  completed_at = none;
}

abbrev broken : ℕ → ObjectDeletionRow → Option Text
broken _ _ = some (codes "timeout")

abbrev clock : ℕ → ℕ
clock _ = 5000

abbrev unlocked : ℕ → Bool
unlocked _ = false

row-IsValid : IsValid (row ∷ [])
row-IsValid = record { unique = (refl, tt); parked = ((λ h. absurd (omega arith)), tt) }

tenth_failure_parks :
    process_pending broken clock rows_and_count 4000 unlocked (row ∷ [])
    ≡ record row { attempts = 10; next_attempt_at = none; last_error = some (codes "timeout") } ∷ []
unfolding process_pending
tenth_failure_parks = refl

perform-IsValid_example :
    IsValid (perform broken clock (Op.pending rows_alone 4000 unlocked) (row ∷ []))
perform-IsValid_example =
    perform-IsValid broken clock (Op.pending rows_alone 4000 unlocked) (row ∷ []) row-IsValid

claim_pending-leased_example :
    any
      (λ r. r.deletion_id == 1)
      (claim_pending 90000 unlocked (claim_pending 4000 unlocked (row ∷ [])).1).0
    ≡ false
unfolding claim_pending
claim_pending-leased_example =
    claim_pending-leased 4000 90000 1 unlocked unlocked (row ∷ []) (omega arith) refl

retry_delay_seconds-le_example :
    (60 ≤ retry_delay_seconds 3)
    × (retry_delay_seconds 3 ≤ 3600)
    × (7 ≤ 3 → retry_delay_seconds 3 ≡ 3600)
retry_delay_seconds-le_example = retry_delay_seconds-le 3 (omega arith)
