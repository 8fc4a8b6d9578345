-- ===== src/Sprint/UseCase/Handlers.antt =====
-- The public methods of `SprintUseCase` that change the tables: a transaction behind a gate, then
-- the event. Each comes for users, whose gate asks for an owner or an admin, and for internal
-- services, whose gate asks only for a live workspace.
use prism_nestjs.Prelude.{ℕ, Option, List, [], ◌∷◌}
use prism_nestjs.Prelude.Text.{Text}
use prism_nestjs.Prelude.Driver.{Driver, Element}
use prism_nestjs.Prelude.Action.{Action, pure, throw_if, run, publish, ◌>>=◌, ◌>>◌}
use prism_nestjs.Sprint.{
  SprintRow, Db, Error, CreateSprintDto, UpdateSprintMetadataDto, period_invalid, sprint_created,
  sprint_updated, sprint_deleted, sprint_work_items_changed,
}
use prism_nestjs.Sprint.UseCase.{
  SprintApp, date_ge, get_writable_workspace, get_existing_workspace, create_sprint_in_workspace,
  update_sprint_metadata_in_workspace, add_sprint_work_items_in_workspace,
  remove_sprint_work_item_in_workspace, delete_sprint_in_workspace,
}

module _ (driver : Driver) (parse_date : Text → Option ℕ) (now : ℕ)
    (gate : ℕ → ℕ → Action Db Error ℕ) where
  -- `createSprint` and `createSprintForInternal`, which differ in the gate: `getWritableWorkspace`
  -- or `getExistingWorkspace`. So do the pairs below.
  unfoldable pub create_sprint_behind :
      ℕ → ℕ → ℕ → CreateSprintDto → Action SprintApp Error SprintRow
  unfolding create_sprint_in_workspace
  create_sprint_behind fresh user id dto = do
    throw_if (date_ge (parse_date dto.starts_at) (parse_date dto.ends_at)) period_invalid
    sprint ← run (
        gate id user >>= λ workspace.
        create_sprint_in_workspace fresh now user workspace dto (parse_date dto.starts_at)
          (parse_date dto.ends_at))
    publish (sprint_created sprint)
    pure sprint

  unfoldable pub update_sprint_metadata_behind :
      ℕ → ℕ → ℕ → UpdateSprintMetadataDto → Action SprintApp Error (Element SprintRow)
  unfolding update_sprint_metadata_in_workspace
  update_sprint_metadata_behind user id sprint dto = do
    updated ← run (
        gate id user >>= λ workspace.
        update_sprint_metadata_in_workspace parse_date now driver workspace sprint dto)
    publish (sprint_updated updated)
    pure updated

  unfoldable pub add_sprint_work_items_behind :
      ℕ → ℕ → ℕ → List ℕ → Action SprintApp Error (Unit {0})
  unfolding add_sprint_work_items_in_workspace
  add_sprint_work_items_behind user id sprint item_ids = do
    run (
        gate id user >>= λ workspace.
        add_sprint_work_items_in_workspace now user workspace sprint item_ids)
    publish (sprint_work_items_changed id sprint item_ids)

  unfoldable pub remove_sprint_work_item_behind : ℕ → ℕ → ℕ → ℕ → Action SprintApp Error (Unit {0})
  unfolding remove_sprint_work_item_in_workspace
  remove_sprint_work_item_behind user id sprint item = do
    run (
        gate id user >>= λ workspace.
        remove_sprint_work_item_in_workspace driver now workspace sprint item)
    publish (sprint_work_items_changed id sprint (item ∷ []))

  unfoldable pub delete_sprint_behind : ℕ → ℕ → ℕ → Action SprintApp Error (Unit {0})
  unfolding delete_sprint_in_workspace
  delete_sprint_behind user id sprint = do
    run (gate id user >>= λ workspace. delete_sprint_in_workspace driver workspace sprint)
    publish (sprint_deleted id sprint)

module _ (driver : Driver) (parse_date : Text → Option ℕ) (now : ℕ) where
  abbrev pub create_sprint_for_user : ℕ → ℕ → ℕ → CreateSprintDto → Action SprintApp Error SprintRow
  create_sprint_for_user = create_sprint_behind driver parse_date now get_writable_workspace

  abbrev pub create_sprint_for_internal :
      ℕ → ℕ → ℕ → CreateSprintDto → Action SprintApp Error SprintRow
  create_sprint_for_internal = create_sprint_behind driver parse_date now get_existing_workspace

  abbrev pub update_sprint_metadata_for_user :
      ℕ → ℕ → ℕ → UpdateSprintMetadataDto → Action SprintApp Error (Element SprintRow)
  update_sprint_metadata_for_user =
      update_sprint_metadata_behind driver parse_date now get_writable_workspace

  abbrev pub update_sprint_metadata_for_internal :
      ℕ → ℕ → ℕ → UpdateSprintMetadataDto → Action SprintApp Error (Element SprintRow)
  update_sprint_metadata_for_internal =
      update_sprint_metadata_behind driver parse_date now get_existing_workspace

  abbrev pub add_sprint_work_items_for_user : ℕ → ℕ → ℕ → List ℕ → Action SprintApp Error (Unit {0})
  add_sprint_work_items_for_user =
      add_sprint_work_items_behind driver parse_date now get_writable_workspace

  abbrev pub add_sprint_work_items_for_internal :
      ℕ → ℕ → ℕ → List ℕ → Action SprintApp Error (Unit {0})
  add_sprint_work_items_for_internal =
      add_sprint_work_items_behind driver parse_date now get_existing_workspace

  abbrev pub remove_sprint_work_item_for_user : ℕ → ℕ → ℕ → ℕ → Action SprintApp Error (Unit {0})
  remove_sprint_work_item_for_user =
      remove_sprint_work_item_behind driver parse_date now get_writable_workspace

  abbrev pub remove_sprint_work_item_for_internal :
      ℕ → ℕ → ℕ → ℕ → Action SprintApp Error (Unit {0})
  remove_sprint_work_item_for_internal =
      remove_sprint_work_item_behind driver parse_date now get_existing_workspace

  abbrev pub delete_sprint_for_user : ℕ → ℕ → ℕ → Action SprintApp Error (Unit {0})
  delete_sprint_for_user = delete_sprint_behind driver parse_date now get_writable_workspace

  abbrev pub delete_sprint_for_internal : ℕ → ℕ → ℕ → Action SprintApp Error (Unit {0})
  delete_sprint_for_internal = delete_sprint_behind driver parse_date now get_existing_workspace
