-- ===== src/Sprint/Examples.antt =====
-- The theorems on sprints at concrete inputs, and runs of the code.
use prism_nestjs.Prelude.{◌*◌, ◌++◌, ℕ, ◌≡◌, refl, true, false, Option, none, some, [], ◌∷◌, arith}
use prism_nestjs.Prelude.Text.{Text, codes}
use prism_nestjs.Prelude.Decimal.{show, read}
use prism_nestjs.Prelude.Field.{null, given}
use prism_nestjs.Prelude.Driver.{rows_and_count}
use prism_nestjs.Prelude.Action.{ok, err}
use prism_nestjs.Tables.{Role}
use prism_nestjs.Sprint.{
  sprint_not_found, Db, shown, SprintRecord, SprintStatus, CreateSprintDto, query_failed,
  permission_required, workspace_not_found,
}
use prism_nestjs.Sprint.Repository.{
  name_taken, int_max, new_sprint, find_work_items_in_sprint_range, get_next_sprint_number,
}
use prism_nestjs.Sprint.Repository.Numbers.{sprint_name, next_sprint_name_is_free}
use prism_nestjs.Sprint.Repository.Invariant.{IsValid}
use prism_nestjs.Sprint.Repository.Inserts.{entries_of}
use prism_nestjs.Sprint.UseCase.{delete_sprint_in_workspace, SprintApp, create_sprint_in_workspace}
use prism_nestjs.Sprint.UseCase.Missing.{missing_result, delete_sprint_missing}
use prism_nestjs.Sprint.UseCase.Creation.{create_sprint_overflows, create_sprint_succeeds}
use prism_nestjs.Sprint.UseCase.Requests.{Request, writable, existing, handle}
use prism_nestjs.Sprint.UseCase.Transactions.{handle-AllOrNothing, AllOrNothing}
use prism_nestjs.Sprint.UseCase.Access.{refusal, handle-missing, handle_denied}

abbrev sprint : ℕ → ℕ → SprintRecord
sprint id n = record {
  sprint_id = id;
  workspace_id = 1;
  sprint_name = sprint_name n;
  goal = none;
  starts_at = 100;
  ends_at = 200;
  status = SprintStatus.planned;
  created_by = 7;
  created_at = 90;
  closed_at = none;
}

-- One sprint, of the number given, with the work item 30; 7 is an admin, 8 is a member.
abbrev db : ℕ → Db
db n = record {
  users = 7 ∷ 8 ∷ [];
  workspaces = record { workspace_id = 1; deleted_at = none; is_active = true } ∷ [];
  members =
      record { workspace_id = 1; user_id = 7; role = Role.admin }
      ∷ record { workspace_id = 1; user_id = 8; role = Role.member }
      ∷ [];
  work_items =
      record {
        workspace_id = 1;
        project_id = 5;
        item_id = 30;
        start_date = none;
        due_date = some 150;
        archived_at = none;
        deleted_at = none;
      }
      ∷ [];
  sprints = sprint 40 n ∷ [];
  sprint_items =
      record { workspace_id = 1; sprint_id = 40; project_id = 5; item_id = 30; added_by = 7 } ∷ [];
}

abbrev app : SprintApp
app = record { db = db 3; published = [] }

db-IsValid : IsValid (db 3)
db-IsValid = record {
  periods = (omega arith, tt);
  ids = (refl, tt);
  names = (refl, tt);
  entries = (refl, tt);
  held = (refl, tt);
}

next_sprint_name_is_free_example : name_taken 1 (sprint_name 4) (db 3).sprints ≡ false
unfolding get_next_sprint_number sprint_name show read
next_sprint_name_is_free_example = next_sprint_name_is_free 1 4 (db 3) refl

abbrev date : Text → Option ℕ
date [] = none
date s = some (read s)

abbrev dto : CreateSprintDto
dto = record {
  name = given (codes "Release");
  goal = null;
  starts_at = codes "120";
  ends_at = codes "180";
}

create_sprint_overflows_example :
    create_sprint_in_workspace 41 95 7 1 dto (some 120) (some 180) (db int_max)
    ≡ (err query_failed, db int_max)
unfolding name_taken sprint_name show
create_sprint_overflows_example =
    create_sprint_overflows 41 95 7 1 int_max dto (some 120) (some 180) (db int_max) refl
      (omega arith)

-- The range takes in the day of the work item.
abbrev from_time : ℕ
from_time = 149 * 86400000

abbrev to_time : ℕ
to_time = 151 * 86400000

abbrev next_sprint : SprintRecord
next_sprint = new_sprint 41 95 1 (sprint_name 4) none from_time to_time 7

create_sprint_succeeds_example :
    create_sprint_in_workspace 41 95 7 1 dto (some from_time) (some to_time) (db 3) ≡ (
      ok (shown 95 next_sprint),
      record (db 3) {
        sprints = (db 3).sprints ++ next_sprint ∷ [];
        sprint_items =
            (db 3).sprint_items
            ++ entries_of 1 41 7 (find_work_items_in_sprint_range 1 from_time to_time (db 3));
      },
    )
unfolding get_next_sprint_number sprint_name show read
create_sprint_succeeds_example =
    create_sprint_succeeds 41 95 7 1 4 from_time to_time dto (db 3) db-IsValid (refl, tt) refl refl
      refl refl (omega arith)

takes_the_item_in_range :
    entries_of 1 41 7 (find_work_items_in_sprint_range 1 from_time to_time (db 3))
    ≡ record { workspace_id = 1; sprint_id = 41; project_id = 5; item_id = 30; added_by = 7 } ∷ []
unfolding find_work_items_in_sprint_range
takes_the_item_in_range = refl

handle-AllOrNothing_example :
    AllOrNothing app (handle rows_and_count date 95 writable 7 1 (Request.add 40 (30 ∷ [])) app)
handle-AllOrNothing_example =
    handle-AllOrNothing rows_and_count date 95 writable 7 1 (Request.add 40 (30 ∷ [])) app

handle-missing_example :
    handle rows_and_count date 95 existing 7 2 (Request.delete 40) app
    ≡ (err (refusal date (Request.delete 40) workspace_not_found), app)
handle-missing_example =
    handle-missing rows_and_count date 95 existing 7 2 (Request.delete 40) app refl

handle_denied_example :
    handle rows_and_count date 95 writable 8 1 (Request.delete 40) app
    ≡ (err (refusal date (Request.delete 40) permission_required), app)
handle_denied_example =
    handle_denied rows_and_count date 95 8 1 (Request.delete 40) app refl (λ e. ground arith)
      (λ e. ground arith)

delete_sprint_missing_example :
    delete_sprint_in_workspace rows_and_count 1 41 (db 3)
    ≡ (missing_result rows_and_count sprint_not_found, db 3)
delete_sprint_missing_example = delete_sprint_missing rows_and_count 1 41 (db 3) refl
