-- ===== src/Sprint/UseCase/Missing.antt =====
-- Sprints and entries that are not there, under either driver: `deleteSprintInWorkspace` and
-- `removeSprintWorkItemInWorkspace` of src/modules/sprint/usecases/sprint.usecase.ts.
use prism_nestjs.Prelude.{ℕ, ◌≡◌, false, arith, any}
use prism_nestjs.Prelude.Driver.{Driver, rows_alone, rows_and_count}
use prism_nestjs.Prelude.Action.{Result, ok, err}
use prism_nestjs.Sprint.{Db, Error, sprint_not_found}
use prism_nestjs.Sprint.Repository.{is_sprint, delete_sprint}
use prism_nestjs.Sprint.UseCase.{delete_sprint_in_workspace}

-- A request for something that is not there fails where `query` resolves to the rows alone, and
-- goes through, with nothing done, where it resolves to the rows and their count.
abbrev pub missing_result : Driver → Error → Result Error (Unit {0})
missing_result rows_alone e = err e
missing_result rows_and_count e = ok tt

-- Deleting a sprint that is not there changes nothing. It throws sprint_not_found where `query`
-- resolves to the rows alone, and succeeds where it resolves to the rows and their count.
pub delete_sprint_missing :
    (driver : Driver) (id sprint : ℕ) (db : Db)
    → any (is_sprint id sprint) db.sprints ≡ false
    → delete_sprint_in_workspace driver id sprint db ≡ (missing_result driver sprint_not_found, db)
unfolding delete_sprint_in_workspace delete_sprint
delete_sprint_missing rows_alone id sprint db h = ground arith
delete_sprint_missing rows_and_count id sprint db h = ground arith
