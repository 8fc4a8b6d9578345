-- ===== src/Embedding/Repository.antt =====
-- src/modules/embedding/repository/embedding-job.repository.ts: each query on the tables. NOW()
-- and gen_random_uuid() are arguments. A statement that breaks a constraint of the table
-- (.sql/ddl_v2.sql) returns `none` and changes nothing.
pub mod Rows
pub mod Sorting
use prism_nestjs.Prelude.{
  ℕ, ◌+◌, Bool, true, false, not, ◌&&◌, ◌||◌, Option, none, some, List, [], ◌∷◌, ◌++◌, map, any,
  find, filter, update, take, ltb, leb, ◌==◌, is_some, if◌then◌else◌,
}
use prism_nestjs.Prelude.Text.{Text, text_eq}
use prism_nestjs.Prelude.Driver.{Resolved, resolved, Driver, Element, first_element}
use prism_nestjs.Tables.{is_live, is_membership}
use prism_nestjs.Embedding.{
  JobType, JobStatus, ReportStatus, EmbeddingJobRow, CreateEmbeddingJobParams,
  ClaimEmbeddingJobsParams, UpdateEmbeddingJobParams, Db, same_type, is_queued,
  embedding_job_dimensions,
}

unfoldable pub find_workspace_by_id : ℕ → Db → Option ℕ
find_workspace_by_id id db = if any (is_live id) db.workspaces then some id else none

unfoldable pub find_workspace_by_id_and_member_user_id : ℕ → ℕ → Db → Option ℕ
find_workspace_by_id_and_member_user_id id user db =
    if any (is_live id) db.workspaces && any (is_membership id user) db.members
    then some id
    else none

unfoldable pub find_project_by_workspace_id_and_id : ℕ → ℕ → Db → Option ℕ
find_project_by_workspace_id_and_id id project db =
    if any (λ p. (p.workspace_id == id) && (p.project_id == project) && not p.is_archived)
      db.projects
    then some project
    else none

-- One arm of the UNION for each type of job; all but the last want a project id.
unfoldable pub exists_embedding_target : ℕ → Option ℕ → JobType → ℕ → Db → Bool
exists_embedding_target id project JobType.agent_memory target db =
    any (λ m. (m.workspace_id == id) && (m.memory_id == target)) db.memories
exists_embedding_target id none _ target db = false
exists_embedding_target id (some project) JobType.document target db =
    any (λ d. (d.workspace_id == id) && (d.project_id == project) && (d.id == target)) db.documents
exists_embedding_target id (some project) JobType.document_chunk target db =
    any (λ d. (d.workspace_id == id) && (d.project_id == project) && (d.id == target))
      db.document_chunks
exists_embedding_target id (some project) JobType.work_item target db =
    any (λ w. (w.workspace_id == id) && (w.project_id == project) && (w.id == target)) db.work_items
exists_embedding_target id (some project) JobType.work_item_comment target db =
    any
      (λ c.
        (c.workspace_id == id)
        && (c.comment_id == target)
        && any (λ w. (w.workspace_id == id) && (w.id == c.item_id) && (w.project_id == project))
            db.work_items)
      db.comments

-- ck_embedding_jobs_project_scope.
abbrev pub in_scope : JobType → Option ℕ → Bool
in_scope JobType.agent_memory project = not (is_some project)
in_scope _ project = is_some project

-- fk_embedding_jobs_project.
abbrev pub project_exists : ℕ → Option ℕ → Db → Bool
project_exists id none db = true
project_exists id (some project) db =
    any (λ p. (p.workspace_id == id) && (p.project_id == project)) db.projects

abbrev pub new_job : ℕ → ℕ → CreateEmbeddingJobParams → EmbeddingJobRow
new_job fresh now p = record {
  embedding_job_id = fresh;
  workspace_id = p.workspace_id;
  project_id = p.project_id;
  job_type = p.job_type;
  target_id = p.target_id;
  status = JobStatus.queued;
  model = p.model;
  dimensions = p.dimensions;
  content_hash = p.content_hash;
  object_name = p.object_name;
  attempts = 0;
  max_attempts = p.max_attempts;
  error_message = none;
  scheduled_at = p.scheduled_at;
  started_at = none;
  completed_at = none;
  created_at = now;
}

-- The constraints of the table on a new row: its key, its references and its CHECKs.
unfoldable pub admits : ℕ → CreateEmbeddingJobParams → Db → Bool
admits fresh p db =
    not (any (λ j. j.embedding_job_id == fresh) db.jobs)
    && any (λ w. w.workspace_id == p.workspace_id) db.workspaces
    && project_exists p.workspace_id p.project_id db
    && in_scope p.job_type p.project_id
    && (p.dimensions == embedding_job_dimensions)
    && ltb 0 p.max_attempts

unfoldable pub create_embedding_job :
    ℕ → ℕ → CreateEmbeddingJobParams → Db → Option EmbeddingJobRow × Db
create_embedding_job fresh now p db =
    if admits fresh p db
    then (some (new_job fresh now p), record db { jobs = db.jobs ++ new_job fresh now p ∷ [] })
    else (none, db)

abbrev pub admits_project : Option ℕ → Option ℕ → Bool
admits_project none _ = true
admits_project (some p) none = false
admits_project (some p) (some q) = q == p

abbrev pub admits_type : Option (List JobType) → JobType → Bool
admits_type none t = true
admits_type (some ts) t = any (same_type t) ts

abbrev pub admits_model : Option Text → Text → Bool
admits_model none m = true
admits_model (some n) m = text_eq m n

-- The WHERE of `candidate_jobs`, with the rows that other transactions hold locked skipped.
unfoldable pub is_candidate : ℕ → (ℕ → Bool) → ClaimEmbeddingJobsParams → EmbeddingJobRow → Bool
is_candidate now locked p j =
    (j.workspace_id == p.workspace_id)
    && admits_project p.project_id j.project_id
    && is_queued j.status
    && leb j.scheduled_at now
    && ltb j.attempts j.max_attempts
    && admits_type p.job_types j.job_type
    && admits_model p.model j.model
    && not (locked j.embedding_job_id)

-- ORDER BY scheduled_at, created_at, embedding_job_id.
unfoldable pub comes_first : EmbeddingJobRow → EmbeddingJobRow → Bool
comes_first a b =
    if a.scheduled_at == b.scheduled_at
    then if a.created_at == b.created_at
      then leb a.embedding_job_id b.embedding_job_id
      else ltb a.created_at b.created_at
    else ltb a.scheduled_at b.scheduled_at

unfoldable pub insert_row : EmbeddingJobRow → List EmbeddingJobRow → List EmbeddingJobRow
insert_row a [] = a ∷ []
insert_row a (b ∷ rows) = if comes_first a b then a ∷ b ∷ rows else b ∷ insert_row a rows

unfoldable pub sort_rows : List EmbeddingJobRow → List EmbeddingJobRow
sort_rows [] = []
sort_rows (a ∷ rows) = insert_row a (sort_rows rows)

-- The rows of `candidate_jobs`.
unfoldable pub candidate_jobs :
    ℕ → (ℕ → Bool) → ClaimEmbeddingJobsParams → List EmbeddingJobRow → List EmbeddingJobRow
unfolding sort_rows insert_row comes_first is_candidate
candidate_jobs now locked p jobs =
    take p.limit (sort_rows (filter (is_candidate now locked p) jobs))

abbrev pub is_among : List EmbeddingJobRow → EmbeddingJobRow → Bool
is_among rows j = any (λ c. c.embedding_job_id == j.embedding_job_id) rows

abbrev pub claimed_job : ℕ → EmbeddingJobRow → EmbeddingJobRow
claimed_job now j = record j {
  status = JobStatus.running;
  attempts = j.attempts + 1;
  error_message = none;
  started_at = some now;
  completed_at = none;
}

-- The UPDATE of the rows among the candidates. RETURNING gives the updated rows; their order is
-- PostgreSQL's, here the table's.
unfoldable pub claim_rows :
    ℕ → (ℕ → Bool) → ClaimEmbeddingJobsParams → Db → List EmbeddingJobRow × Db
unfolding candidate_jobs
claim_rows now locked p db =
    let chosen = candidate_jobs now locked p db.jobs in
    (
      map (claimed_job now) (filter (is_among chosen) db.jobs),
      record db { jobs = update (is_among chosen) (claimed_job now) db.jobs },
    )

-- What the call of `query` with it resolves to.
unfoldable pub claim_embedding_jobs :
    Driver → ℕ → (ℕ → Bool) → ClaimEmbeddingJobsParams → Db → Resolved EmbeddingJobRow × Db
unfolding claim_rows
claim_embedding_jobs driver now locked p db =
    let (rows, after) = claim_rows now locked p db in (resolved driver rows, after)

abbrev pub status_of : ReportStatus → JobStatus
status_of ReportStatus.queued = JobStatus.queued
status_of ReportStatus.completed = JobStatus.completed
status_of ReportStatus.failed = JobStatus.failed
status_of ReportStatus.cancelled = JobStatus.cancelled

-- The CASE of `error_message`.
abbrev pub reported_error : ReportStatus → Option Text → Option Text
reported_error ReportStatus.queued e = e
reported_error ReportStatus.failed e = e
reported_error _ e = none

-- The CASEs of `started_at` and `completed_at`.
abbrev pub reported_start : ReportStatus → Option ℕ → Option ℕ
reported_start ReportStatus.queued old = none
reported_start _ old = old

abbrev pub reported_end : ReportStatus → ℕ → Option ℕ
reported_end ReportStatus.queued now = none
reported_end _ now = some now

-- The new row, with the value that `scheduled_at` gets.
abbrev pub reported_job : ℕ → UpdateEmbeddingJobParams → ℕ → EmbeddingJobRow → EmbeddingJobRow
reported_job now p scheduled j = record j {
  status = status_of p.status;
  error_message = reported_error p.status p.error_message;
  scheduled_at = scheduled;
  started_at = reported_start p.status j.started_at;
  completed_at = reported_end p.status now;
}

abbrev pub is_target : UpdateEmbeddingJobParams → EmbeddingJobRow → Bool
is_target p j = (j.workspace_id == p.workspace_id) && (j.embedding_job_id == p.embedding_job_id)

abbrev pub update_rows :
    Driver
    → ℕ
    → UpdateEmbeddingJobParams
    → (EmbeddingJobRow → ℕ)
    → Db
    → Option (Option (Element EmbeddingJobRow)) × Db
update_rows driver now p scheduled db =
    let set = λ (j : EmbeddingJobRow). reported_job now p (scheduled j) j in
    (
      some (first_element driver (filter (is_target p) (update (is_target p) set db.jobs))),
      record db { jobs = update (is_target p) set db.jobs },
    )

-- The CASE of `scheduled_at`: NULL is refused by the column, if there is a row to update.
abbrev pub update_scheduled :
    Driver
    → ℕ
    → UpdateEmbeddingJobParams
    → ReportStatus
    → Option ℕ
    → Db
    → Option (Option (Element EmbeddingJobRow)) × Db
update_scheduled driver now p ReportStatus.queued (some at) db =
    update_rows driver now p (λ j. at) db
update_scheduled driver now p ReportStatus.queued none db =
    if any (is_target p) db.jobs then (none, db) else (some (first_element driver []), db)
update_scheduled driver now p _ _ db = update_rows driver now p (λ j. j.scheduled_at) db

-- `some none` is `jobs[0] ?? null` without a row, `none` a refused statement.
unfoldable pub update_embedding_job :
    Driver → ℕ → UpdateEmbeddingJobParams → Db → Option (Option (Element EmbeddingJobRow)) × Db
update_embedding_job driver now p db = update_scheduled driver now p p.status p.scheduled_at db
