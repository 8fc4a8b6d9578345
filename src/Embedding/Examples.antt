-- ===== src/Embedding/Examples.antt =====
-- The theorems on embedding jobs at concrete inputs, and runs of the code.
use prism_nestjs.Prelude.{
  ℕ, ◌+◌, ◌*◌, ◌≤◌, ◌≡◌, refl, ◌⊎◌, ◌↔◌, inl, Bool, true, false, Option, none, some, List, [], ◌∷◌,
  ◌++◌, arith, any, length, All,
}
use prism_nestjs.Prelude.Text.{Text, codes}
use prism_nestjs.Prelude.Field.{undefined, null, given}
use prism_nestjs.Prelude.Driver.{rows_and_count}
use prism_nestjs.Prelude.Action.{err}
use prism_nestjs.Tables.{Role, is_live, is_membership}
use prism_nestjs.Embedding.{
  Db, EmbeddingJobRow, ClaimEmbeddingJobsParams, UpdateEmbeddingJobParams, JobType, JobStatus,
  ReportStatus,
}
use prism_nestjs.Embedding.Repository.{
  exists_embedding_target, claim_rows, candidate_jobs, is_candidate, is_among, update_embedding_job,
  find_workspace_by_id_and_member_user_id, find_project_by_workspace_id_and_id,
  create_embedding_job, admits,
}
use prism_nestjs.Embedding.Repository.Rows.{UniqueIds}
use prism_nestjs.Embedding.UseCase.{
  CreateEmbeddingJobDto, UpdateEmbeddingJobDto, query_failed, create_embedding_job_for,
  update_workspace_embedding_job, ensure_project_in_workspace,
}
use prism_nestjs.Embedding.Claiming.{
  claim_fills, claim_rows-IsTaken, claim_priority, IsTaken, IsEarlier,
}
use prism_nestjs.Embedding.Due.{IsDue}
use prism_nestjs.Embedding.Lifecycle.{IsConsistent, IsValid, Event, apply, apply-IsValid}
use prism_nestjs.Embedding.Lifecycle.Attempts.{claims_of, claims_bounded}
use prism_nestjs.Embedding.Lifecycle.Exclusive.{claim-claim_disjoint}
use prism_nestjs.Embedding.Lifecycle.Draining.{due, claims, claims-due}
use prism_nestjs.Embedding.Missing.{missing_report, update_workspace_embedding_job_missing}
use prism_nestjs.Embedding.Scope.{
  create_embedding_job_for-ok, requeue_null_fails, update_embedding_job-elsewhere, elsewhere,
}

abbrev job : ℕ → ℕ → EmbeddingJobRow
job id at = record {
  embedding_job_id = id;
  workspace_id = 1;
  project_id = some 5;
  job_type = JobType.document;
  target_id = 30;
  status = JobStatus.queued;
  model = codes "small";
  dimensions = 1536;
  content_hash = none;
  object_name = none;
  attempts = 0;
  max_attempts = 2;
  error_message = none;
  scheduled_at = at;
  started_at = none;
  completed_at = none;
  created_at = 0;
}

abbrev jobs : List EmbeddingJobRow
jobs = job 11 20 ∷ job 12 10 ∷ []

abbrev db : Db
db = record {
  workspaces = record { workspace_id = 1; deleted_at = none; is_active = true } ∷ [];
  members = record { workspace_id = 1; user_id = 7; role = Role.member } ∷ [];
  projects = record { workspace_id = 1; project_id = 5; is_archived = false } ∷ [];
  documents = record { workspace_id = 1; project_id = 5; id = 30 } ∷ [];
  document_chunks = [];
  work_items = [];
  comments = [];
  memories = [];
  jobs = jobs;
}

db-UniqueIds : UniqueIds db.jobs
db-UniqueIds = ground arith

job-IsConsistent : (id at : ℕ) → IsConsistent (job id at)
job-IsConsistent id at = record {
  bounded = omega arith;
  positive = omega arith;
  sized = refl;
  scoped = refl;
  timed = (refl, refl);
}

db-IsValid : IsValid db
db-IsValid = record {
  unique = db-UniqueIds;
  consistent = (job-IsConsistent 11 20, (job-IsConsistent 12 10, tt));
}

abbrev one : ClaimEmbeddingJobsParams
one = record { workspace_id = 1; project_id = none; job_types = none; model = none; limit = 1 }

abbrev unlocked : ℕ → Bool
unlocked _ = false

-- The job that is due first is claimed, with its attempt counted.
claims_the_first_due :
    (claim_rows 50 unlocked one db).0
    ≡ record (job 12 10) { status = JobStatus.running; attempts = 1; started_at = some 50 } ∷ []
unfolding claim_rows
claims_the_first_due = refl

job_11-IsDue : IsDue 50 unlocked one (job 11 20)
job_11-IsDue = (refl, inl refl, refl, omega arith, omega arith, inl refl, tt, refl)

claim_fills_example :
    (length (claim_rows 50 unlocked one db).0 ≤ 1)
    × ((length (claim_rows 50 unlocked one db).0 ≡ 1)
        ⊎ ((is_among (claim_rows 50 unlocked one db).0 (job 11 20) ≡ true)
            ↔ IsDue 50 unlocked one (job 11 20)))
claim_fills_example = claim_fills 50 unlocked one db (job 11 20) db-UniqueIds (inl refl)

due_bound : due 50 unlocked one db ≤ 3 * 1
unfolding is_candidate
due_bound = ground arith

claims-due_example : due 50 unlocked one (claims 50 unlocked one 3 db) ≡ 0
claims-due_example = claims-due 50 unlocked one 3 db db-UniqueIds (due_bound)

claim_rows-IsTaken_example : All (IsTaken 50 unlocked one db.jobs) (claim_rows 50 unlocked one db).0
claim_rows-IsTaken_example = claim_rows-IsTaken 50 unlocked one db db-UniqueIds

claim_priority_example : All (λ c. IsEarlier c (job 11 20)) (candidate_jobs 50 unlocked one db.jobs)
unfolding candidate_jobs is_candidate
claim_priority_example = claim_priority 50 unlocked one db (job 11 20) (inl refl) job_11-IsDue refl

apply-IsValid_example : IsValid (apply (Event.claim 50 unlocked one) db)
apply-IsValid_example = apply-IsValid (Event.claim 50 unlocked one) db db-IsValid

abbrev requeued : UpdateEmbeddingJobParams
requeued = record {
  workspace_id = 1;
  embedding_job_id = 12;
  status = ReportStatus.queued;
  error_message = none;
  scheduled_at = some 60;
}

abbrev history : List Event
history =
    Event.claim 50 unlocked one
    ∷ Event.report rows_and_count 55 requeued
    ∷ Event.claim 70 unlocked one
    ∷ []

claims_bounded_example : claims_of 12 history db + 0 ≤ 2
claims_bounded_example = claims_bounded 12 history db (job 12 10) db-IsValid refl

claim-claim_disjoint_example :
    is_among
      (claim_rows 60 unlocked one (claim_rows 50 unlocked one db).1).0
      (record (job 12 10) { status = JobStatus.running; attempts = 1; started_at = some 50 })
    ≡ false
unfolding claim_rows
claim-claim_disjoint_example =
    claim-claim_disjoint 50 60 unlocked unlocked one one db
      (record (job 12 10) { status = JobStatus.running; attempts = 1; started_at = some 50 })
      db-IsValid (inl refl)

abbrev no_date : Text → Option ℕ
no_date _ = none

abbrev new_dto : CreateEmbeddingJobDto
new_dto = record {
  project_id = given 5;
  job_type = JobType.document;
  target_id = 30;
  model = codes "small";
  dimensions = undefined;
  content_hash = undefined;
  object_name = null;
  max_attempts = given 2;
  scheduled_at = undefined;
}

abbrev new_row : EmbeddingJobRow
new_row = record (job 13 50) { created_at = 50 }

create_embedding_job_for-ok_example :
    (any (is_live 1) db.workspaces ≡ true)
    × (any (is_membership 1 7) db.members ≡ true)
    × (exists_embedding_target 1 (some 5) JobType.document 30 db ≡ true)
    × (db.jobs ++ new_row ∷ [] ≡ db.jobs ++ new_row ∷ [])
    × (new_row.workspace_id ≡ 1)
    × (new_row.status ≡ JobStatus.queued)
    × (new_row.attempts ≡ 0)
unfolding create_embedding_job_for find_workspace_by_id_and_member_user_id create_embedding_job
    ensure_project_in_workspace find_project_by_workspace_id_and_id exists_embedding_target admits
create_embedding_job_for-ok_example =
    create_embedding_job_for-ok no_date 50 13 7 1 new_dto db
      (record db { jobs = db.jobs ++ new_row ∷ [] }) new_row refl

abbrev report : ReportStatus → UpdateEmbeddingJobDto
report s = record { status = s; error_message = undefined; scheduled_at = null }

requeue_null_fails_example :
    update_workspace_embedding_job no_date 50 rows_and_count 1 12 (report ReportStatus.queued) db
    ≡ (err query_failed, db)
requeue_null_fails_example =
    requeue_null_fails no_date 50 rows_and_count 1 12 (report ReportStatus.queued) db refl refl refl

update_embedding_job-elsewhere_example :
    elsewhere 1 (update_embedding_job rows_and_count 50 requeued db).1.jobs ≡ elsewhere 1 db.jobs
update_embedding_job-elsewhere_example =
    update_embedding_job-elsewhere rows_and_count 50 requeued db

update_workspace_embedding_job_missing_example :
    update_workspace_embedding_job no_date 50 rows_and_count 1 19
      (record { status = ReportStatus.completed; error_message = null; scheduled_at = undefined })
      db
    ≡ (missing_report rows_and_count, db)
update_workspace_embedding_job_missing_example =
    update_workspace_embedding_job_missing no_date 50 rows_and_count 1 19
      (record { status = ReportStatus.completed; error_message = null; scheduled_at = undefined })
      db refl refl refl
