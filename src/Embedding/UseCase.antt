-- ===== src/Embedding/UseCase.antt =====
-- src/modules/embedding/usecases/embedding-job.usecase.ts. `parse_date` is `new Date(text)`, with
-- `none` for an Invalid Date, which the database refuses. A request is a sequence of queries with
-- no transaction.
use prism_nestjs.Prelude.{
  length, ℕ, Bool, true, false, not, ◌&&◌, Option, none, some, List, if◌then◌else◌,
}
use prism_nestjs.Prelude.Text.{Text}
use prism_nestjs.Prelude.Field.{Field, undefined, given, is_defined, or_null, or_else, truthy}
use prism_nestjs.Prelude.Driver.{alone, counted, Driver, Element, Resolved}
use prism_nestjs.Prelude.Action.{
  ok, err, Action, pure, throw, gets, or_throw, throw_if, ◌>>=◌, ◌>>◌,
}
use prism_nestjs.Embedding.{JobType, ReportStatus, EmbeddingJobRow, Db, embedding_job_dimensions}
use prism_nestjs.Embedding.Repository.{
  find_workspace_by_id, find_workspace_by_id_and_member_user_id,
  find_project_by_workspace_id_and_id, exists_embedding_target, create_embedding_job,
  claim_embedding_jobs, update_embedding_job,
}

-- src/modules/embedding/errors; `query_failed` is a QueryFailedError that nothing catches.
pub data Error : Type 0 where
  workspace_not_found project_not_found project_required project_not_allowed : Error
  target_not_found job_not_found requeue_scheduled_at_required query_failed : Error

pub record CreateEmbeddingJobDto : Type 0 where
  pub project_id : Field ℕ
  pub job_type : JobType
  pub target_id : ℕ
  pub model : Text
  pub dimensions : Field ℕ
  pub content_hash : Field Text
  pub object_name : Field Text
  pub max_attempts : Field ℕ
  pub scheduled_at : Field Text

pub record ClaimEmbeddingJobsDto : Type 0 where
  pub project_id : Field ℕ
  pub job_types : Field (List JobType)
  pub model : Field Text
  pub limit : Field ℕ

pub record UpdateEmbeddingJobDto : Type 0 where
  pub status : ReportStatus
  pub error_message : Field Text
  pub scheduled_at : Field Text

pub record ClaimEmbeddingJobsResponse : Type 0 where
  pub items : Resolved EmbeddingJobRow
  pub count : ℕ

unfoldable pub get_workspace_for_user : ℕ → ℕ → Action Db Error ℕ
get_workspace_for_user user id = do
  or_throw (← gets (find_workspace_by_id_and_member_user_id id user)) workspace_not_found

unfoldable pub get_workspace : ℕ → Action Db Error ℕ
get_workspace id = do or_throw (← gets (find_workspace_by_id id)) workspace_not_found

-- A `null` project id matches no row.
unfoldable pub ensure_project_in_workspace : ℕ → Field ℕ → Action Db Error ℕ
ensure_project_in_workspace id (given project) = do
  or_throw (← gets (find_project_by_workspace_id_and_id id project)) project_not_found
ensure_project_in_workspace id _ = throw project_not_found

-- `jobType === 'agent_memory'` wants no project id, any other type wants one.
unfoldable pub resolve_project_scope : ℕ → JobType → Field ℕ → Action Db Error (Option ℕ)
resolve_project_scope id JobType.agent_memory undefined = pure none
resolve_project_scope id JobType.agent_memory _ = throw project_not_allowed
resolve_project_scope id _ undefined = throw project_required
resolve_project_scope id _ project = do
  ensure_project_in_workspace id project
  pure (or_null project)

-- A statement that the database may refuse.
abbrev pub statement : {A : Type 0} → (Db → Option A × Db) → Action Db Error A
statement f db =
    let (r, db') = f db in elim r [ some a ↦ (ok a, db') | none ↦ (err query_failed, db') ]

-- A statement that returns rows.
abbrev pub returning : {A : Type 0} → (Db → A × Db) → Action Db Error A
returning f db = let (a, db') = f db in (ok a, db')

abbrev pub is_requeue : ReportStatus → Bool
is_requeue ReportStatus.queued = true
is_requeue _ = false

module _ (parse_date : Text → Option ℕ) (now : ℕ) where
  -- `dto.scheduledAt ? new Date(dto.scheduledAt) : new Date()`.
  abbrev pub scheduled_or_now : Field Text → Option ℕ
  scheduled_or_now f = elim (truthy f) [ none ↦ some now | some s ↦ parse_date s ]

  unfoldable pub create_embedding_job_for :
      ℕ → ℕ → ℕ → CreateEmbeddingJobDto → Action Db Error EmbeddingJobRow
  unfolding get_workspace_for_user resolve_project_scope
  create_embedding_job_for fresh user id dto = do
    workspace ← get_workspace_for_user user id
    project ← resolve_project_scope workspace dto.job_type dto.project_id
    exists ← gets (exists_embedding_target workspace project dto.job_type dto.target_id)
    throw_if (not exists) target_not_found
    scheduled ← or_throw (scheduled_or_now dto.scheduled_at) query_failed
    statement (
        create_embedding_job fresh now (record {
          workspace_id = workspace;
          project_id = project;
          job_type = dto.job_type;
          target_id = dto.target_id;
          model = dto.model;
          dimensions = or_else dto.dimensions embedding_job_dimensions;
          content_hash = or_null dto.content_hash;
          object_name = or_null dto.object_name;
          max_attempts = or_else dto.max_attempts 3;
          scheduled_at = scheduled;
        }))

  -- `dto.scheduledAt ? new Date(dto.scheduledAt) : undefined`; an Invalid Date fails where it is sent.
  abbrev pub parsed_date : Option Text → Action Db Error (Option ℕ)
  parsed_date none = pure none
  parsed_date (some s) = elim (parse_date s) [ none ↦ throw query_failed | some t ↦ pure (some t) ]

  -- `updateWorkspaceEmbeddingJob`. The date is a parameter of the one statement.
  unfoldable pub update_workspace_embedding_job :
      Driver → ℕ → ℕ → UpdateEmbeddingJobDto → Action Db Error (Element EmbeddingJobRow)
  update_workspace_embedding_job driver id job dto = do
    throw_if (is_requeue dto.status && not (is_defined dto.scheduled_at))
        requeue_scheduled_at_required
    scheduled ← parsed_date (truthy dto.scheduled_at)
    found ← statement (
        update_embedding_job driver now (record {
          workspace_id = id;
          embedding_job_id = job;
          status = dto.status;
          error_message = or_null dto.error_message;
          scheduled_at = scheduled;
        }))
    or_throw found job_not_found

  unfoldable pub update_embedding_job_for_user :
      Driver → ℕ → ℕ → ℕ → UpdateEmbeddingJobDto → Action Db Error (Element EmbeddingJobRow)
  unfolding get_workspace_for_user update_workspace_embedding_job
  update_embedding_job_for_user driver user id job dto = do
    workspace ← get_workspace_for_user user id
    update_workspace_embedding_job driver workspace job dto

  unfoldable pub update_embedding_job_for_internal :
      Driver → ℕ → ℕ → UpdateEmbeddingJobDto → Action Db Error (Element EmbeddingJobRow)
  unfolding get_workspace update_workspace_embedding_job
  update_embedding_job_for_internal driver id job dto = do
    workspace ← get_workspace id
    update_workspace_embedding_job driver workspace job dto

-- `items.length`.
abbrev pub count_of : {A : Type 0} → Resolved A → ℕ
count_of (alone rows) = length rows
count_of (counted rows n) = 2

module _ (now : ℕ) (locked : ℕ → Bool) where
  unfoldable pub claim_workspace_embedding_jobs :
      Driver → ℕ → ClaimEmbeddingJobsDto → Action Db Error ClaimEmbeddingJobsResponse
  unfolding ensure_project_in_workspace claim_embedding_jobs
  claim_workspace_embedding_jobs driver id dto = do
    if is_defined dto.project_id then ensure_project_in_workspace id dto.project_id else pure 0
    items ← returning (
        claim_embedding_jobs driver now locked (record {
          workspace_id = id;
          project_id = or_null dto.project_id;
          job_types = or_null dto.job_types;
          model = or_null dto.model;
          limit = or_else dto.limit 10;
        }))
    pure (record { items = items; count = count_of items })

  unfoldable pub claim_embedding_jobs_for_user :
      Driver → ℕ → ℕ → ClaimEmbeddingJobsDto → Action Db Error ClaimEmbeddingJobsResponse
  unfolding get_workspace_for_user claim_workspace_embedding_jobs
  claim_embedding_jobs_for_user driver user id dto = do
    workspace ← get_workspace_for_user user id
    claim_workspace_embedding_jobs driver workspace dto

  unfoldable pub claim_embedding_jobs_for_internal :
      Driver → ℕ → ClaimEmbeddingJobsDto → Action Db Error ClaimEmbeddingJobsResponse
  unfolding get_workspace claim_workspace_embedding_jobs
  claim_embedding_jobs_for_internal driver id dto = do
    workspace ← get_workspace id
    claim_workspace_embedding_jobs driver workspace dto
