-- ===== src/Sprint/UseCase/Requests.antt =====
-- What holds of every request that changes sprints: the invariant, all or nothing, and the gate.
use prism_nestjs.Prelude.{ℕ, ◌≡◌, not, Option, none, some, List, [], ◌∷◌, arith, length, ◌==◌}
use prism_nestjs.Prelude.Text.{Text}
use prism_nestjs.Prelude.Field.{or_null, or_else}
use prism_nestjs.Prelude.Driver.{Driver}
use prism_nestjs.Prelude.Action.{
  Result, ok, err, Action, Keeps, bind-Keeps, pure, gets, or_throw, throw_if, ◌>>=◌, ◌>>◌,
}
use prism_nestjs.Sprint.{
  ItemRef, Db, Error, Violation, CreateSprintDto, UpdateSprintMetadataDto, period_invalid,
  sprint_not_found, work_item_not_found, query_failed,
}
use prism_nestjs.Sprint.Repository.{
  create_sprint, add_sprint_work_items, update_sprint_metadata, find_sprint_by_id,
  find_work_items_by_ids, get_next_sprint_number,
}
use prism_nestjs.Sprint.Repository.Invariant.{IsValid, create_sprint-IsValid}
use prism_nestjs.Sprint.Repository.Inserts.{add_sprint_work_items-IsValid}
use prism_nestjs.Sprint.Repository.Removals.{remove_sprint_work_item-IsValid, delete_sprint-IsValid}
use prism_nestjs.Sprint.Repository.Updates.{update_sprint_metadata-IsValid}
use prism_nestjs.Sprint.Repository.Numbers.{sprint_name}
use prism_nestjs.Sprint.UseCase.{
  not_caught, sprint_error, map_error, next_date, next_goal, SprintApp, statement, add_in_range,
  date_ge, get_existing_workspace, get_writable_workspace, create_sprint_in_workspace,
  add_sprint_work_items_in_workspace, remove_sprint_work_item_in_workspace,
  delete_sprint_in_workspace, update_sprint_metadata_in_workspace, range_items,
}
use prism_nestjs.Sprint.UseCase.Handlers.{
  create_sprint_behind, update_sprint_metadata_behind, add_sprint_work_items_behind,
  remove_sprint_work_item_behind, delete_sprint_behind,
}

pub data Request : Type 0 where
  create : ℕ → CreateSprintDto → Request
  change : ℕ → UpdateSprintMetadataDto → Request
  add : ℕ → List ℕ → Request
  remove : ℕ → ℕ → Request
  delete : ℕ → Request

-- A repository statement keeps what it keeps as an action.
statement-Keeps :
    {A : Type 0} (caught : Violation → Error) (f : Db → Result Violation A × Db)
    → ((db : Db) → IsValid db → IsValid (f db).1)
    → Keeps IsValid (statement caught f)
statement-Keeps {A} caught f k db v = go (f db).0 (f db).1 (k db v)
  where
    go :
        (r : Result Violation A) (d : Db)
        → IsValid d
        → IsValid
            (let s : Result Error A × Db = elim r [
              | ok a ↦ (ok a, d)
              | err e ↦ (err (caught e), d)
            ] in
              s).1
    go (ok a) d w = w
    go (err e) d w = w

add_in_range-Keeps :
    (id sprint : ℕ) (items : List ItemRef) (user : ℕ)
    → Keeps IsValid (add_in_range id sprint items user)
add_in_range-Keeps id sprint [] user db v = v
add_in_range-Keeps id sprint (i ∷ items) user db v =
    statement-Keeps not_caught (add_sprint_work_items id sprint (i ∷ items) user)
      (add_sprint_work_items-IsValid id sprint user (i ∷ items)) db v

or_throw-Keeps : {A : Type 0} (o : Option A) (e : Error) → Keeps IsValid (or_throw {S = Db} o e)
or_throw-Keeps none e db v = v
or_throw-Keeps (some a) e db v = v

-- A row that is found by a query, or an error.
found-Keeps :
    {A B : Type 0} (q : Db → Option A) (e : Error) (k : A → Action Db Error B)
    → ((a : A) → Keeps IsValid (k a))
    → Keeps IsValid (gets q >>= λ o. or_throw o e >>= k)
found-Keeps q e k h db v = bind-Keeps IsValid (or_throw (q db) e) k (or_throw-Keeps (q db) e) h db v

pub create_in-Keeps :
    (fresh now user id : ℕ) (dto : CreateSprintDto) (starts ends : Option ℕ)
    → Keeps IsValid (create_sprint_in_workspace fresh now user id dto starts ends)
unfolding create_sprint_in_workspace
create_in-Keeps fresh now user id dto starts ends =
    found-Keeps (get_next_sprint_number id) query_failed _ λ n.
      bind-Keeps IsValid
        (statement sprint_error
          (create_sprint fresh now id (sprint_name n) (or_null dto.goal) starts ends user))
        _
        (statement-Keeps sprint_error _
          (create_sprint-IsValid fresh now id (sprint_name n) (or_null dto.goal) starts ends user))
        λ s db v.
          bind-Keeps IsValid (add_in_range id s.sprint_id (range_items id starts ends db) user)
            (λ _. pure s) (add_in_range-Keeps id s.sprint_id (range_items id starts ends db) user)
            (λ _ d w. w) db v

pub add_in-Keeps :
    (now user id sprint : ℕ) (items : List ℕ)
    → Keeps IsValid (add_sprint_work_items_in_workspace now user id sprint items)
unfolding add_sprint_work_items_in_workspace
add_in-Keeps now user id sprint items =
    found-Keeps (find_sprint_by_id now id sprint) sprint_not_found _ λ row db v.
      let refs = find_work_items_by_ids id items db in
      bind-Keeps IsValid (throw_if (not (length refs == length items)) work_item_not_found)
        (λ _. statement map_error (add_sprint_work_items id row.sprint_id refs user)) (λ d w. w)
        (λ _.
          statement-Keeps map_error _ (add_sprint_work_items-IsValid id row.sprint_id user refs))
        db v

pub remove_in-Keeps :
    (driver : Driver) (now id sprint item : ℕ)
    → Keeps IsValid (remove_sprint_work_item_in_workspace driver now id sprint item)
unfolding remove_sprint_work_item_in_workspace
remove_in-Keeps driver now id sprint item =
    found-Keeps (find_sprint_by_id now id sprint) sprint_not_found _
      λ row db v. remove_sprint_work_item-IsValid driver id row.sprint_id item db v

pub delete_in-Keeps :
    (driver : Driver) (id sprint : ℕ) → Keeps IsValid (delete_sprint_in_workspace driver id sprint)
unfolding delete_sprint_in_workspace
delete_in-Keeps driver id sprint db v = delete_sprint-IsValid driver id sprint db v

pub change_in-Keeps :
    (driver : Driver) (parse_date : Text → Option ℕ) (now id sprint : ℕ)
    (dto : UpdateSprintMetadataDto)
    → Keeps IsValid (update_sprint_metadata_in_workspace parse_date now driver id sprint dto)
unfolding update_sprint_metadata_in_workspace
change_in-Keeps driver parse_date now id sprint dto =
    found-Keeps (find_sprint_by_id now id sprint) sprint_not_found _ λ current.
      let starts = next_date parse_date now dto.starts_at current.starts_at in
      let ends = next_date parse_date now dto.ends_at current.ends_at in
      let name = or_else dto.name current.name in
      let goal = next_goal parse_date now dto.goal current.goal in
      bind-Keeps IsValid (throw_if (date_ge starts ends) period_invalid) _ (λ d w. w)
        λ _.
          bind-Keeps IsValid
            (statement sprint_error
              (update_sprint_metadata driver now id sprint name goal starts ends))
            _
            (statement-Keeps sprint_error _
              (update_sprint_metadata-IsValid driver now id sprint name goal starts ends))
            (λ o. or_throw-Keeps o sprint_not_found)

-- The two ways in.
pub data Gate : Type 0 where
  writable existing : Gate

abbrev pub gate_of : Gate → ℕ → ℕ → Action Db Error ℕ
gate_of writable = get_writable_workspace
gate_of existing = get_existing_workspace

-- A gate only reads.
pub gate_reads : (g : Gate) (id user : ℕ) (db : Db) → (gate_of g id user db).1 ≡ db
unfolding get_writable_workspace get_existing_workspace
gate_reads writable id user db = ground arith
gate_reads existing id user db = ground arith

pub gate-Keeps :
    {A : Type 0} (g : Gate) (id user : ℕ) (k : ℕ → Action Db Error A)
    → ((w : ℕ) → Keeps IsValid (k w))
    → Keeps IsValid (gate_of g id user >>= k)
gate-Keeps g id user k h =
    bind-Keeps IsValid (gate_of g id user) k (λ db v. rw (gate_reads g id user db) v) h

module _ (driver : Driver) (parse_date : Text → Option ℕ) (now : ℕ) (g : Gate) (user id : ℕ) where
  -- The handler of a request, without what it returns.
  unfoldable pub handle : Request → Action SprintApp Error (Unit {0})
  handle (create fresh dto) =
      create_sprint_behind driver parse_date now (gate_of g) fresh user id dto >> pure tt
  handle (change sprint dto) =
      update_sprint_metadata_behind driver parse_date now (gate_of g) user id sprint dto >> pure tt
  handle (add sprint items) =
      add_sprint_work_items_behind driver parse_date now (gate_of g) user id sprint items
  handle (remove sprint item) =
      remove_sprint_work_item_behind driver parse_date now (gate_of g) user id sprint item
  handle (delete sprint) = delete_sprint_behind driver parse_date now (gate_of g) user id sprint
