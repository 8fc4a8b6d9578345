-- ===== src/Sprint.antt =====
-- Sprints: src/modules/sprint. The rows of src/modules/sprint/types, the tables that the
-- repository reads and writes (.sql/ddl_v2.sql), the errors and the published events.
pub mod Repository
pub mod UseCase
mod Examples
use prism_nestjs.Prelude.{
  ℕ, Bool, true, false, ◌&&◌, Option, none, some, List, ltb, leb, if◌then◌else◌,
}
use prism_nestjs.Prelude.Text.{Text}
use prism_nestjs.Prelude.Field.{Field}
use prism_nestjs.Prelude.Driver.{Element}
use prism_nestjs.Tables.{WorkspaceRow, MemberRow, Role}

pub data SprintStatus : Type 0 where
  planned active closed cancelled : SprintStatus

-- A stored row of prism_sprints_l.
pub record SprintRecord : Type 0 where
  pub sprint_id : ℕ
  pub workspace_id : ℕ
  pub sprint_name : Text
  pub goal : Option Text
  pub starts_at : ℕ
  pub ends_at : ℕ
  pub status : SprintStatus
  pub created_by : ℕ
  pub created_at : ℕ
  pub closed_at : Option ℕ

-- `SprintRow`, what the queries return: the status is computed from the clock.
pub record SprintRow : Type 0 where
  pub sprint_id : ℕ
  pub workspace_id : ℕ
  pub name : Text
  pub goal : Option Text
  pub starts_at : ℕ
  pub ends_at : ℕ
  pub status : SprintStatus
  pub created_at : ℕ

-- A row of prism_sprint_work_item_map.
pub record SprintItem : Type 0 where
  pub workspace_id : ℕ
  pub sprint_id : ℕ
  pub project_id : ℕ
  pub item_id : ℕ
  pub added_by : ℕ

-- The columns of prism_work_items_l that the sprint queries read; the dates count days.
pub record WorkItem : Type 0 where
  pub workspace_id : ℕ
  pub project_id : ℕ
  pub item_id : ℕ
  pub start_date : Option ℕ
  pub due_date : Option ℕ
  pub archived_at : Option ℕ
  pub deleted_at : Option ℕ

-- `{ itemId, projectId }`.
pub record ItemRef : Type 0 where
  pub item_id : ℕ
  pub project_id : ℕ

-- `SprintWorkspaceAccessRow`.
pub record Access : Type 0 where
  pub workspace_id : ℕ
  pub role : Option Role

-- `users` are the ids of prism_users_l, which other tables refer to.
pub record Db : Type 0 where
  pub users : List ℕ
  pub workspaces : List WorkspaceRow
  pub members : List MemberRow
  pub work_items : List WorkItem
  pub sprints : List SprintRecord
  pub sprint_items : List SprintItem

-- src/modules/sprint/errors, and `query_failed`, a QueryFailedError that is not caught.
pub data Error : Type 0 where
  workspace_not_found permission_required already_exists sprint_not_found : Error
  period_invalid work_item_not_found work_item_already_added query_failed : Error

-- What the driver reports of a refused statement, by its constraint.
pub data Violation : Type 0 where
  name_unique period_check map_duplicate other : Violation

-- The events of src/modules/workspace/services/workspace-realtime-publisher.service.ts.
pub data Event : Type 0 where
  sprint_created : SprintRow → Event
  sprint_updated : Element SprintRow → Event
  sprint_deleted : ℕ → ℕ → Event
  sprint_work_items_changed : ℕ → ℕ → List ℕ → Event

pub record CreateSprintDto : Type 0 where
  pub name : Field Text
  pub goal : Field Text
  pub starts_at : Text
  pub ends_at : Text

pub record UpdateSprintMetadataDto : Type 0 where
  pub name : Field Text
  pub goal : Field Text
  pub starts_at : Field Text
  pub ends_at : Field Text

-- `CASE WHEN NOW() < starts_at ... WHEN NOW() <= ends_at ... END`.
unfoldable pub status_at : ℕ → ℕ → ℕ → SprintStatus
status_at now starts ends =
    if ltb now starts then planned else if leb now ends then active else closed

abbrev pub shown : ℕ → SprintRecord → SprintRow
shown now s = record {
  sprint_id = s.sprint_id;
  workspace_id = s.workspace_id;
  name = s.sprint_name;
  goal = s.goal;
  starts_at = s.starts_at;
  ends_at = s.ends_at;
  status = status_at now s.starts_at s.ends_at;
  created_at = s.created_at;
}
