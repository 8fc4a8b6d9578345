-- ===== src/Sprint/UseCase/Access.antt =====
-- Who may change sprints: the two gates of src/modules/sprint/usecases/sprint.usecase.ts.
use prism_nestjs.Prelude.{
  ℕ, ◌≡◌, refl, ◌≢◌, Bool, true, false, Option, none, some, any, find, if◌then◌else◌,
}
use prism_nestjs.Prelude.Text.{Text}
use prism_nestjs.Prelude.Driver.{Driver}
use prism_nestjs.Prelude.Action.{err, Action, throw_if, run, publish, pure, ◌>>=◌}
use prism_nestjs.Tables.{Role, is_live, is_membership}
use prism_nestjs.Sprint.{
  Db, Error, SprintRow, sprint_updated, period_invalid, permission_required, workspace_not_found,
}
use prism_nestjs.Sprint.Repository.{find_workspace_access_by_id_and_user_id, role_of}
use prism_nestjs.Sprint.UseCase.{
  SprintApp, date_ge, may_write, update_sprint_metadata_in_workspace, get_writable_workspace,
  get_existing_workspace,
}
use prism_nestjs.Sprint.UseCase.Handlers.{
  create_sprint_behind, update_sprint_metadata_behind, add_sprint_work_items_behind,
  remove_sprint_work_item_behind, delete_sprint_behind,
}
use prism_nestjs.Sprint.UseCase.Requests.{
  Request, create, change, add, remove, delete, Gate, writable, existing, gate_of, handle,
}

-- The dates of a new sprint are compared before the workspace is read.
unfoldable pub refusal : (Text → Option ℕ) → Request → Error → Error
refusal parse_date (create fresh dto) e =
    if date_ge (parse_date dto.starts_at) (parse_date dto.ends_at) then period_invalid else e
refusal parse_date _ e = e

-- A transaction whose first step fails throws, and changes nothing.
shut :
    {A B C : Type 0} (m : Action Db Error A) (k : A → Action Db Error B)
    (f : B → Action SprintApp Error C) (app : SprintApp) (e : Error)
    → m app.db ≡ (err e, app.db)
    → (run (m >>= k) >>= f) app ≡ (err e, app)
shut m k f app e closed = rw (run, closed) refl

tested_shut :
    (c : Bool) (m : Action SprintApp Error SprintRow) (app : SprintApp) (e : Error)
    → m app ≡ (err e, app)
    → ((throw_if c period_invalid >>= λ _. m) >>= λ _. pure (tt {0})) app
      ≡ (err (if c then period_invalid else e), app)
tested_shut true m app e closed = refl
tested_shut false m app e closed = rw closed refl

returned_shut :
    {A B C : Type 0} (m : Action Db Error A) (k : A → Action Db Error B)
    (f : B → Action SprintApp Error C) (app : SprintApp) (e : Error)
    → m app.db ≡ (err e, app.db)
    → ((run (m >>= k) >>= f) >>= λ _. pure (tt {0})) app ≡ (err e, app)
returned_shut m k f app e closed = rw (run, closed) refl

module _ (driver : Driver) (parse_date : Text → Option ℕ) (now : ℕ) (g : Gate) (user id : ℕ)
    (app : SprintApp) where
  handle_shut :
      (r : Request) (e : Error)
      → gate_of g id user app.db ≡ (err e, app.db)
      → handle driver parse_date now g user id r app ≡ (err (refusal parse_date r e), app)
  unfolding handle create_sprint_behind update_sprint_metadata_behind add_sprint_work_items_behind
      remove_sprint_work_item_behind delete_sprint_behind refusal
  handle_shut (create fresh dto) e closed =
      tested_shut (date_ge (parse_date dto.starts_at) (parse_date dto.ends_at)) _ app e
        (shut (gate_of g id user) _ _ app e closed)
  handle_shut (change sprint dto) e closed =
      returned_shut (gate_of g id user)
        (λ w. update_sprint_metadata_in_workspace parse_date now driver w sprint dto)
        (λ s. publish (sprint_updated s) >>= λ _. pure s) app e closed
  handle_shut (add sprint items) e closed = shut (gate_of g id user) _ _ app e closed
  handle_shut (remove sprint item) e closed = shut (gate_of g id user) _ _ app e closed
  handle_shut (delete sprint) e closed = shut (gate_of g id user) _ _ app e closed

may_write-other :
    (r : Option Role) → r ≢ some Role.owner → r ≢ some Role.admin → may_write r ≡ false
may_write-other none o a = refl
may_write-other (some Role.owner) o a = absurd (o refl)
may_write-other (some Role.admin) o a = absurd (a refl)
may_write-other (some Role.member) o a = refl
may_write-other (some Role.viewer) o a = refl

writable_denied :
    (id user : ℕ) (db : Db)
    → any (is_live id) db.workspaces ≡ true
    → may_write (role_of (find (is_membership id user) db.members)) ≡ false
    → get_writable_workspace id user db ≡ (err permission_required, db)
unfolding get_writable_workspace find_workspace_access_by_id_and_user_id
writable_denied id user db live role = rw live (rw role refl)

gate_missing :
    (g : Gate) (id user : ℕ) (db : Db)
    → any (is_live id) db.workspaces ≡ false
    → gate_of g id user db ≡ (err workspace_not_found, db)
unfolding get_writable_workspace get_existing_workspace find_workspace_access_by_id_and_user_id
gate_missing writable id user db dead = rw dead refl
gate_missing existing id user db dead = rw dead refl

-- Where the workspace is missing or deleted, every request, by a user or internal, changes and
-- publishes nothing; its error is workspace_not_found, or period_invalid for a creation whose dates
-- are the wrong way round.
pub handle-missing :
    (driver : Driver) (parse_date : Text → Option ℕ) (now : ℕ) (g : Gate) (user id : ℕ)
    (r : Request) (app : SprintApp)
    → any (is_live id) app.db.workspaces ≡ false
    → handle driver parse_date now g user id r app
      ≡ (err (refusal parse_date r workspace_not_found), app)
handle-missing driver parse_date now g user id r app dead =
    handle_shut driver parse_date now g user id app r workspace_not_found
      (gate_missing g id user app.db dead)

-- Where the workspace is there and the user is neither its owner nor an admin, every request of the
-- user changes and publishes nothing; its error is permission_required, or period_invalid for a
-- creation whose dates are the wrong way round.
pub handle_denied :
    (driver : Driver) (parse_date : Text → Option ℕ) (now user id : ℕ) (r : Request)
    (app : SprintApp)
    → any (is_live id) app.db.workspaces ≡ true
    → role_of (find (is_membership id user) app.db.members) ≢ some Role.owner
    → role_of (find (is_membership id user) app.db.members) ≢ some Role.admin
    → handle driver parse_date now writable user id r app
      ≡ (err (refusal parse_date r permission_required), app)
handle_denied driver parse_date now user id r app live not_owner not_admin =
    handle_shut driver parse_date now writable user id app r permission_required (
      writable_denied id user app.db live (
        may_write-other (role_of (find (is_membership id user) app.db.members)) not_owner
          not_admin))
