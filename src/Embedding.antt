-- ===== src/Embedding.antt =====
-- Embedding jobs: src/modules/embedding. The rows of src/modules/embedding/types, and the tables
-- that the repository reads and writes (.sql/ddl_v2.sql).
pub mod Repository
pub mod UseCase
pub mod Due
pub mod Claiming
pub mod Lifecycle
pub mod Scope
pub mod Missing
mod Examples
use prism_nestjs.Prelude.{ℕ, Bool, true, false, Option, List}
use prism_nestjs.Prelude.Text.{Text}
use prism_nestjs.Tables.{WorkspaceRow, MemberRow}

pub data JobType : Type 0 where
  document document_chunk work_item work_item_comment agent_memory : JobType

pub data JobStatus : Type 0 where
  queued running completed failed cancelled : JobStatus

-- What a worker may report.
pub data ReportStatus : Type 0 where
  queued completed failed cancelled : ReportStatus

abbrev pub embedding_job_dimensions : ℕ
embedding_job_dimensions = 1536

pub record EmbeddingJobRow : Type 0 where
  pub embedding_job_id : ℕ
  pub workspace_id : ℕ
  pub project_id : Option ℕ
  pub job_type : JobType
  pub target_id : ℕ
  pub status : JobStatus
  pub model : Text
  pub dimensions : ℕ
  pub content_hash : Option Text
  pub object_name : Option Text
  pub attempts : ℕ
  pub max_attempts : ℕ
  pub error_message : Option Text
  pub scheduled_at : ℕ
  pub started_at : Option ℕ
  pub completed_at : Option ℕ
  pub created_at : ℕ

pub record CreateEmbeddingJobParams : Type 0 where
  pub workspace_id : ℕ
  pub project_id : Option ℕ
  pub job_type : JobType
  pub target_id : ℕ
  pub model : Text
  pub dimensions : ℕ
  pub content_hash : Option Text
  pub object_name : Option Text
  pub max_attempts : ℕ
  pub scheduled_at : ℕ

pub record ClaimEmbeddingJobsParams : Type 0 where
  pub workspace_id : ℕ
  pub project_id : Option ℕ
  pub job_types : Option (List JobType)
  pub model : Option Text
  pub limit : ℕ

pub record UpdateEmbeddingJobParams : Type 0 where
  pub workspace_id : ℕ
  pub embedding_job_id : ℕ
  pub status : ReportStatus
  pub error_message : Option Text
  pub scheduled_at : Option ℕ

-- A row of prism_projects_l; `is_archived` is `status = 'archived'`.
pub record ProjectRow : Type 0 where
  pub workspace_id : ℕ
  pub project_id : ℕ
  pub is_archived : Bool

-- A row of prism_documents_l, prism_document_chunks_l or prism_work_items_l.
pub record TargetRow : Type 0 where
  pub workspace_id : ℕ
  pub project_id : ℕ
  pub id : ℕ

-- A row of prism_work_item_comments_l.
pub record CommentRow : Type 0 where
  pub workspace_id : ℕ
  pub item_id : ℕ
  pub comment_id : ℕ

-- A row of prism_agent_memories_l.
pub record MemoryRow : Type 0 where
  pub workspace_id : ℕ
  pub memory_id : ℕ

pub record Db : Type 0 where
  pub workspaces : List WorkspaceRow
  pub members : List MemberRow
  pub projects : List ProjectRow
  pub documents : List TargetRow
  pub document_chunks : List TargetRow
  pub work_items : List TargetRow
  pub comments : List CommentRow
  pub memories : List MemoryRow
  pub jobs : List EmbeddingJobRow

abbrev pub same_type : JobType → JobType → Bool
same_type document document = true
same_type document_chunk document_chunk = true
same_type work_item work_item = true
same_type work_item_comment work_item_comment = true
same_type agent_memory agent_memory = true
same_type _ _ = false

abbrev pub is_queued : JobStatus → Bool
is_queued JobStatus.queued = true
is_queued _ = false
