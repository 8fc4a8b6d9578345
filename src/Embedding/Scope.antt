-- ===== src/Embedding/Scope.antt =====
-- What the requests on embedding jobs guard: membership, the target, the project, and the
-- workspace whose jobs they touch.
use prism_nestjs.Prelude.{
  ℕ, ◌≡◌, refl, true, not, ◌&&◌, Option, none, some, List, [], ◌∷◌, ◌++◌, arith, any, filter,
  update, ◌==◌,
}
use prism_nestjs.Prelude.Text.{Text}
use prism_nestjs.Prelude.Field.{undefined, null}
use prism_nestjs.Prelude.Driver.{Driver}
use prism_nestjs.Prelude.Action.{ok, err}
use prism_nestjs.Tables.{is_live, is_membership}
use prism_nestjs.Embedding.{EmbeddingJobRow, UpdateEmbeddingJobParams, Db, JobStatus, ReportStatus}
use prism_nestjs.Embedding.Repository.{
  find_workspace_by_id_and_member_user_id, find_project_by_workspace_id_and_id,
  exists_embedding_target, create_embedding_job, is_target, update_scheduled, update_embedding_job,
  reported_job,
}
use prism_nestjs.Embedding.UseCase.{
  requeue_scheduled_at_required, query_failed, CreateEmbeddingJobDto, UpdateEmbeddingJobDto,
  ensure_project_in_workspace, create_embedding_job_for, update_workspace_embedding_job,
}

module _ (parse_date : Text → Option ℕ) (now : ℕ) where
  -- A job is created only in a live workspace that the user is a member of, and only for a target
  -- that is there. It is then the one new row of the table, queued with no attempt made.
  pub create_embedding_job_for-ok :
      (fresh user id : ℕ) (dto : CreateEmbeddingJobDto) (db db' : Db) (row : EmbeddingJobRow)
      → create_embedding_job_for parse_date now fresh user id dto db ≡ (ok row, db')
      → (any (is_live id) db.workspaces ≡ true)
        × (any (is_membership id user) db.members ≡ true)
        × (exists_embedding_target id row.project_id row.job_type row.target_id db ≡ true)
        × (db'.jobs ≡ db.jobs ++ row ∷ [])
        × (row.workspace_id ≡ id)
        × (row.status ≡ JobStatus.queued)
        × (row.attempts ≡ 0)
  unfolding create_embedding_job_for find_workspace_by_id_and_member_user_id create_embedding_job
      ensure_project_in_workspace find_project_by_workspace_id_and_id
  create_embedding_job_for-ok fresh user id dto db db' row h = ground arith

  -- Re-queueing a job with no scheduled time is refused before any statement.
  pub requeue_needs_time :
      (driver : Driver) (id job : ℕ) (dto : UpdateEmbeddingJobDto) (db : Db)
      → dto.status ≡ ReportStatus.queued
      → dto.scheduled_at ≡ undefined
      → update_workspace_embedding_job parse_date now driver id job dto db
        ≡ (err requeue_scheduled_at_required, db)
  unfolding update_workspace_embedding_job
  requeue_needs_time driver id job dto db e f = ground arith

  -- Re-queueing a job that is there, with `null` for the time, passes the guard against a missing
  -- time and ends in a failed query, which changes nothing.
  pub requeue_null_fails :
      (driver : Driver) (id job : ℕ) (dto : UpdateEmbeddingJobDto) (db : Db)
      → dto.status ≡ ReportStatus.queued
      → dto.scheduled_at ≡ null
      → any (λ j. (j.workspace_id == id) && (j.embedding_job_id == job)) db.jobs ≡ true
      → update_workspace_embedding_job parse_date now driver id job dto db ≡ (err query_failed, db)
  unfolding update_workspace_embedding_job update_embedding_job
  requeue_null_fails driver id job dto db e f h = ground arith

-- The jobs of the other workspaces.
abbrev pub elsewhere : ℕ → List EmbeddingJobRow → List EmbeddingJobRow
elsewhere id = filter (λ j. not (j.workspace_id == id))

elsewhere-update :
    (now : ℕ) (p : UpdateEmbeddingJobParams) (scheduled : EmbeddingJobRow → ℕ)
    (xs : List EmbeddingJobRow)
    → elsewhere p.workspace_id (update (is_target p) (λ j. reported_job now p (scheduled j) j) xs)
      ≡ elsewhere p.workspace_id xs
elsewhere-update now p scheduled [] = refl
elsewhere-update now p scheduled (x ∷ xs) = ground (arith, elsewhere-update now p scheduled xs)

-- A report touches no job of another workspace, whatever job id it names.
pub update_embedding_job-elsewhere :
    (driver : Driver) (now : ℕ) (p : UpdateEmbeddingJobParams) (db : Db)
    → elsewhere p.workspace_id (update_embedding_job driver now p db).1.jobs
      ≡ elsewhere p.workspace_id db.jobs
unfolding update_embedding_job
update_embedding_job-elsewhere driver now p db = by_status p.status p.scheduled_at
  where
    by_status :
        (s : ReportStatus) (at : Option ℕ)
        → elsewhere p.workspace_id (update_scheduled driver now p s at db).1.jobs
          ≡ elsewhere p.workspace_id db.jobs
    by_status ReportStatus.queued (some at) = elsewhere-update now p (λ j. at) db.jobs
    by_status ReportStatus.queued none = ground arith
    by_status ReportStatus.completed at = elsewhere-update now p (λ j. j.scheduled_at) db.jobs
    by_status ReportStatus.failed at = elsewhere-update now p (λ j. j.scheduled_at) db.jobs
    by_status ReportStatus.cancelled at = elsewhere-update now p (λ j. j.scheduled_at) db.jobs
