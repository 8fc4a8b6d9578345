-- ===== src/Sprint/UseCase/Creation.antt =====
-- When a sprint is created, and what it holds: `createSprintInWorkspace` of
-- src/modules/sprint/usecases/sprint.usecase.ts.
use mathlib.Core.List.{append-nil}
use prism_nestjs.Prelude.{
  ℕ, ◌≤◌, ◌<◌, ◌≡◌, refl, ap, ◌∙◌, true, false, Option, some, List, [], ◌∷◌, ◌++◌, arith, any, ◌==◌,
}
use prism_nestjs.Prelude.Text.{Text}
use prism_nestjs.Prelude.Field.{or_null}
use prism_nestjs.Prelude.Unique.{UniqueBy, any-append_last}
use prism_nestjs.Prelude.Action.{Result, ok, err, Action, gets, pure, bind-ok, ◌>>=◌}
use prism_nestjs.Sprint.{
  SprintRecord, ItemRef, Db, CreateSprintDto, query_failed, shown, Violation, Error, SprintRow,
}
use prism_nestjs.Sprint.Repository.{
  name_taken, int_max, get_next_sprint_number, new_sprint, insert_sprint, create_sprint,
  insert_items, in_range, day_of, references_hold, add_sprint_work_items,
  find_work_items_in_sprint_range, is_sprint,
}
use prism_nestjs.Sprint.Repository.Invariant.{IsValid}
use prism_nestjs.Sprint.Repository.Inserts.{entries_of}
use prism_nestjs.Sprint.Repository.Numbers.{
  sprint_name, next_sprint_number_overflows, next_sprint_name_is_free,
}
use prism_nestjs.Sprint.UseCase.{
  statement, add_in_range, not_caught, sprint_error, create_sprint_in_workspace, range_items,
}
use prism_nestjs.Sprint.Repository.Fresh.{
  check_row-sprint_name, get_next_sprint_number-le, has_id, same_work_item, insert_items-fresh,
  refs-UniqueBy, refs_exist, All-fresh,
}

-- A workspace that has a sprint named by a number from the greatest INTEGER on takes no new sprint,
-- whatever the request asks for.
pub create_sprint_overflows :
    (fresh now user id n : ℕ) (dto : CreateSprintDto) (starts ends : Option ℕ) (db : Db)
    → name_taken id (sprint_name n) db.sprints ≡ true
    → int_max ≤ n
    → create_sprint_in_workspace fresh now user id dto starts ends db ≡ (err query_failed, db)
unfolding create_sprint_in_workspace
create_sprint_overflows fresh now user id n dto starts ends db taken h =
    rw (next_sprint_number_overflows id n db taken h) refl

statement-ok :
    {A : Type 0} (caught : Violation → Error) (f : Db → Result Violation A × Db) {db db' : Db}
    {a : A}
    → f db ≡ (ok a, db')
    → statement caught f db ≡ (ok a, db')
statement-ok {A} caught f e = ap (λ p. ended p.0 p.1) e
  where
    ended : Result Violation A → Db → Result Error A × Db
    ended r d = elim r [ ok a ↦ (ok a, d) | err v ↦ (err (caught v), d) ]

module _ (fresh now user id : ℕ) where
  inserted :
      (n starts ends : ℕ) (goal : Option Text) (db : Db)
      → get_next_sprint_number id db ≡ some n
      → starts < ends
      → has_id fresh db.sprints ≡ false
      → any (λ w. w.workspace_id == id) db.workspaces ≡ true
      → any (λ u. u == user) db.users ≡ true
      → let s = new_sprint fresh now id (sprint_name n) goal starts ends user in
        create_sprint fresh now id (sprint_name n) goal (some starts) (some ends) user db
        ≡ (ok (shown now s), record db { sprints = db.sprints ++ s ∷ [] })
  unfolding create_sprint insert_sprint
  inserted n starts ends goal db next lt free there known =
      rw
        (
          check_row-sprint_name n starts ends (get_next_sprint_number-le id n db next) lt,
          insert_sprint,
        )
        (rw (free, next_sprint_name_is_free id n db next) (rw (there, known) refl))

  added :
      (i : ItemRef) (items : List ItemRef) (db : Db)
      → insert_items id fresh user (i ∷ items) db.sprint_items
        ≡ some (db.sprint_items ++ entries_of id fresh user (i ∷ items))
      → references_hold id fresh user (i ∷ items) db ≡ true
      → add_sprint_work_items id fresh (i ∷ items) user db ≡ (
        ok tt,
        record db { sprint_items = db.sprint_items ++ entries_of id fresh user (i ∷ items) },
      )
  unfolding add_sprint_work_items
  added i items db e h = rw (e, add_sprint_work_items) (rw h refl)

  entered :
      (items : List ItemRef) (db : Db)
      → insert_items id fresh user items db.sprint_items
        ≡ some (db.sprint_items ++ entries_of id fresh user items)
      → references_hold id fresh user items db ≡ true
      → add_in_range id fresh items user db
        ≡ (ok tt, record db { sprint_items = db.sprint_items ++ entries_of id fresh user items })
  entered [] db e h = ground (arith, append-nil db.sprint_items)
  entered (i ∷ items) db e h =
      statement-ok not_caught (add_sprint_work_items id fresh (i ∷ items) user)
        (added i items db e h)

  -- In valid tables with work items that differ in their ids, where the workspace and the user are
  -- there, the number n of the next sprint can be computed and the sprint starts before it ends,
  -- creation under a new id succeeds.
  -- It appends the sprint, named by n, and one entry for each work item in the range.
  pub create_sprint_succeeds :
      (n starts ends : ℕ) (dto : CreateSprintDto) (db : Db)
      → IsValid db
      → UniqueBy same_work_item db.work_items
      → has_id fresh db.sprints ≡ false
      → any (λ w. w.workspace_id == id) db.workspaces ≡ true
      → any (λ u. u == user) db.users ≡ true
      → get_next_sprint_number id db ≡ some n
      → starts < ends
      → let s = new_sprint fresh now id (sprint_name n) (or_null dto.goal) starts ends user in
        create_sprint_in_workspace fresh now user id dto (some starts) (some ends) db ≡ (
          ok (shown now s),
          record db {
            sprints = db.sprints ++ s ∷ [];
            sprint_items =
                db.sprint_items
                ++ entries_of id fresh user (find_work_items_in_sprint_range id starts ends db);
          },
        )
  unfolding create_sprint_in_workspace find_work_items_in_sprint_range
  create_sprint_succeeds n starts ends dto db v u free there known next lt = rw next (
      bind-ok insert rest (
        statement-ok sprint_error
          (create_sprint fresh now id (sprint_name n) (or_null dto.goal) (some starts) (some ends)
            user)
          (inserted n starts ends (or_null dto.goal) db next lt free there known))
      ∙ bind-ok (add_in_range id fresh items user) (λ _. pure (shown now s))
          (entered items (record db { sprints = db.sprints ++ s ∷ [] }) goes_in holds))
    where
      s : SprintRecord
      s = new_sprint fresh now id (sprint_name n) (or_null dto.goal) starts ends user

      items : List ItemRef
      items = find_work_items_in_sprint_range id starts ends db

      insert : Action Db Error SprintRow
      insert = statement sprint_error (
          create_sprint fresh now id (sprint_name n) (or_null dto.goal) (some starts) (some ends)
            user)

      rest : SprintRow → Action Db Error SprintRow
      rest row = gets (range_items id (some starts) (some ends)) >>= λ found.
          add_in_range id row.sprint_id found user >>= λ _. pure row

      goes_in :
          insert_items id fresh user items db.sprint_items
          ≡ some (db.sprint_items ++ entries_of id fresh user items)
      goes_in =
          insert_items-fresh id fresh user items db.sprint_items
            (refs-UniqueBy (in_range id (day_of starts) (day_of ends)) db.work_items u)
            (All-fresh fresh db.sprints db.sprint_items items free v.held)

      holds :
          references_hold id fresh user items (record db { sprints = db.sprints ++ s ∷ [] }) ≡ true
      holds = ground (
        arith,
        known,
        any-append_last (is_sprint id fresh) db.sprints s,
        refs_exist id (day_of starts) (day_of ends) db.work_items db.work_items (λ i e. e),
      )
