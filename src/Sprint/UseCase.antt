-- ===== src/Sprint/UseCase.antt =====
-- src/modules/sprint/usecases/sprint.usecase.ts. `parse_date` is `new Date(text)`, with `none` for
-- an Invalid Date, whose comparisons are false; `new Date(null)` is the time 0.
pub mod Creation
pub mod Handlers
pub mod Access
pub mod Missing
pub mod Requests
pub mod Transactions
use prism_nestjs.Prelude.{
  ℕ, Bool, true, false, not, Option, none, some, List, [], ◌∷◌, map, length, leb, ◌==◌,
  if◌then◌else◌,
}
use prism_nestjs.Prelude.Text.{Text}
use prism_nestjs.Prelude.Field.{Field, undefined, null, given, or_null, or_else}
use prism_nestjs.Prelude.Driver.{Driver, Element}
use prism_nestjs.Prelude.Action.{
  Result, ok, err, Action, App, pure, throw, gets, or_throw, throw_if, run, query, publish, ◌>>=◌,
  ◌>>◌,
}
use prism_nestjs.Tables.{Role}
use prism_nestjs.Sprint.{
  SprintRow, ItemRef, Db, Error, Violation, Event, CreateSprintDto, UpdateSprintMetadataDto,
  workspace_not_found, permission_required, already_exists, sprint_not_found, period_invalid,
  work_item_not_found, work_item_already_added, query_failed, name_unique, period_check,
  map_duplicate, other, sprint_created, sprint_updated, sprint_deleted, sprint_work_items_changed,
}
use prism_nestjs.Sprint.Repository.{
  find_workspace_by_id_and_member_user_id, find_workspace_access_by_id_and_user_id,
  find_sprint_by_id, find_sprints_by_workspace_id, create_sprint, get_next_sprint_number,
  find_work_items_in_sprint_range, find_work_items_by_ids, add_sprint_work_items,
  remove_sprint_work_item, update_sprint_metadata, delete_sprint,
}
use prism_nestjs.Sprint.Repository.Numbers.{sprint_name}

abbrev pub SprintApp : Type 0
SprintApp = App Db Event

-- A statement whose violations are thrown as errors.
abbrev pub statement :
    {A : Type 0} → (Violation → Error) → (Db → Result Violation A × Db) → Action Db Error A
statement caught f db =
    let (r, db') = f db in elim r [ ok a ↦ (ok a, db') | err v ↦ (err (caught v), db') ]

abbrev pub returning : {A : Type 0} → (Db → A × Db) → Action Db Error A
returning f db = let (a, db') = f db in (ok a, db')

-- The `catch` of creation and update, and that of adding work items.
abbrev pub sprint_error : Violation → Error
sprint_error name_unique = already_exists
sprint_error period_check = period_invalid
sprint_error _ = query_failed

abbrev pub map_error : Violation → Error
map_error map_duplicate = work_item_already_added
map_error _ = query_failed

abbrev pub not_caught : Violation → Error
not_caught _ = query_failed

-- `startsAt >= endsAt` on dates.
abbrev pub date_ge : Option ℕ → Option ℕ → Bool
date_ge (some a) (some b) = leb b a
date_ge _ _ = false

unfoldable pub get_existing_workspace : ℕ → ℕ → Action Db Error ℕ
get_existing_workspace id user = do
  access ← or_throw (← gets (find_workspace_access_by_id_and_user_id id user)) workspace_not_found
  pure access.workspace_id

-- `role !== 'owner' && role !== 'admin'`.
abbrev pub may_write : Option Role → Bool
may_write (some Role.owner) = true
may_write (some Role.admin) = true
may_write _ = false

unfoldable pub get_writable_workspace : ℕ → ℕ → Action Db Error ℕ
get_writable_workspace id user = do
  access ← or_throw (← gets (find_workspace_access_by_id_and_user_id id user)) workspace_not_found
  throw_if (not (may_write access.role)) permission_required
  pure access.workspace_id

unfoldable pub get_member_workspace : ℕ → ℕ → Action Db Error ℕ
get_member_workspace id user = do
  or_throw (← gets (find_workspace_by_id_and_member_user_id id user)) workspace_not_found

-- `getSprintWorkItems` and `getSprintMetadata` both begin so.
unfoldable pub get_sprint_metadata : ℕ → ℕ → ℕ → ℕ → Action Db Error SprintRow
unfolding get_member_workspace
get_sprint_metadata now user id sprint = do
  workspace ← get_member_workspace id user
  or_throw (← gets (find_sprint_by_id now workspace sprint)) sprint_not_found

unfoldable pub get_sprints : ℕ → ℕ → ℕ → Action Db Error (List SprintRow)
unfolding get_member_workspace
get_sprints now user id = do
  workspace ← get_member_workspace id user
  gets (find_sprints_by_workspace_id now workspace)

-- `if (itemsInRange.length > 0) addSprintWorkItems(...)`.
abbrev pub add_in_range : ℕ → ℕ → List ItemRef → ℕ → Action Db Error (Unit {0})
add_in_range id sprint [] user = pure tt
add_in_range id sprint (i ∷ items) user =
    statement not_caught (add_sprint_work_items id sprint (i ∷ items) user)

-- The dates are valid once the row is there.
unfoldable pub range_items : ℕ → Option ℕ → Option ℕ → Db → List ItemRef
range_items id (some starts) (some ends) db = find_work_items_in_sprint_range id starts ends db
range_items id _ _ db = []

unfoldable pub create_sprint_in_workspace :
    ℕ → ℕ → ℕ → ℕ → CreateSprintDto → Option ℕ → Option ℕ → Action Db Error SprintRow
unfolding range_items
create_sprint_in_workspace fresh now user id dto starts ends = do
  number ← or_throw (← gets (get_next_sprint_number id)) query_failed
  sprint ←
      statement sprint_error
        (create_sprint fresh now id (sprint_name number) (or_null dto.goal) starts ends user)
  items ← gets (range_items id starts ends)
  add_in_range id sprint.sprint_id items user
  pure sprint

unfoldable pub add_sprint_work_items_in_workspace :
    ℕ → ℕ → ℕ → ℕ → List ℕ → Action Db Error (Unit {0})
add_sprint_work_items_in_workspace now user id sprint item_ids = do
  row ← or_throw (← gets (find_sprint_by_id now id sprint)) sprint_not_found
  items ← gets (find_work_items_by_ids id item_ids)
  throw_if (not (length items == length item_ids)) work_item_not_found
  statement map_error (add_sprint_work_items id row.sprint_id items user)

unfoldable pub remove_sprint_work_item_in_workspace :
    Driver → ℕ → ℕ → ℕ → ℕ → Action Db Error (Unit {0})
remove_sprint_work_item_in_workspace driver now id sprint item = do
  row ← or_throw (← gets (find_sprint_by_id now id sprint)) sprint_not_found
  removed ← returning (remove_sprint_work_item driver id row.sprint_id item)
  throw_if (not removed) work_item_not_found

unfoldable pub delete_sprint_in_workspace : Driver → ℕ → ℕ → Action Db Error (Unit {0})
delete_sprint_in_workspace driver id sprint = do
  deleted ← returning (delete_sprint driver id sprint)
  throw_if (not deleted) sprint_not_found

module _ (parse_date : Text → Option ℕ) (now : ℕ) where
  -- `dto.startsAt !== undefined ? new Date(dto.startsAt) : currentSprint.startsAt`.
  abbrev pub next_date : Field Text → ℕ → Option ℕ
  next_date undefined current = some current
  next_date null current = some 0
  next_date (given s) current = parse_date s

  -- `dto.goal ?? currentSprint.goal`.
  abbrev pub next_goal : Field Text → Option Text → Option Text
  next_goal (given g) current = some g
  next_goal _ current = current

  unfoldable pub update_sprint_metadata_in_workspace :
      Driver → ℕ → ℕ → UpdateSprintMetadataDto → Action Db Error (Element SprintRow)
  update_sprint_metadata_in_workspace driver id sprint dto = do
    current ← or_throw (← gets (find_sprint_by_id now id sprint)) sprint_not_found
    let starts = next_date dto.starts_at current.starts_at
    let ends = next_date dto.ends_at current.ends_at
    throw_if (date_ge starts ends) period_invalid
    updated ← statement sprint_error (
        update_sprint_metadata driver now id sprint (or_else dto.name current.name)
          (next_goal dto.goal current.goal) starts ends)
    or_throw updated sprint_not_found
