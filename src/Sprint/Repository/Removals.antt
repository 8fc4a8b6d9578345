-- ===== src/Sprint/Repository/Removals.antt =====
-- Removing a work item from a sprint, and deleting a sprint with its entries.
use prism_nestjs.Prelude.{
  ℕ, ◌<◌, ◌≡◌, Bool, true, false, not, ◌&&◌, List, [], ◌∷◌, arith, any, filter, All, All-filter,
  Bool-cases, inl, inr, ◌==◌,
}
use prism_nestjs.Prelude.Driver.{Driver}
use prism_nestjs.Prelude.Unique.{UniqueBy-filter}
use prism_nestjs.Sprint.{SprintRecord, SprintItem, Db}
use prism_nestjs.Sprint.Repository.{is_sprint, delete_sprint, is_map_row, remove_sprint_work_item}
use prism_nestjs.Sprint.Repository.Invariant.{same_id, same_name, same_entry, IsHeld, IsValid}

pub remove_sprint_work_item-IsValid :
    (driver : Driver) (id sprint item : ℕ) (db : Db)
    → IsValid db
    → IsValid (remove_sprint_work_item driver id sprint item db).1
unfolding remove_sprint_work_item
remove_sprint_work_item-IsValid driver id sprint item db v =
    let left = λ (r : SprintItem). not (is_map_row id sprint item r) in
    record {
      periods = v.periods;
      ids = v.ids;
      names = v.names;
      entries = UniqueBy-filter same_entry left db.sprint_items v.entries;
      held = All-filter (IsHeld db.sprints) left db.sprint_items v.held;
    }

-- The entries that a deletion leaves, and the sprints.
abbrev pub entry_left : ℕ → ℕ → SprintItem → Bool
entry_left id sprint r = not ((r.workspace_id == id) && (r.sprint_id == sprint))

abbrev pub sprint_left : ℕ → ℕ → SprintRecord → Bool
sprint_left id sprint s = not (is_sprint id sprint s)

-- Another sprint than the deleted one is still there.
any-sprint_left :
    (id sprint id' sprint' : ℕ) (sprints : List SprintRecord)
    → ((id' == id) && (sprint' == sprint)) ≡ false
    → any (is_sprint id' sprint') sprints ≡ true
    → any (is_sprint id' sprint') (filter (sprint_left id sprint) sprints) ≡ true
any-sprint_left id sprint id' sprint' [] e h = cc
any-sprint_left id sprint id' sprint' (s ∷ sprints) e h =
    ground (arith, any-sprint_left id sprint id' sprint' sprints)

IsHeld-left :
    (id sprint : ℕ) (sprints : List SprintRecord) (rows : List SprintItem)
    → All (IsHeld sprints) rows
    → All (IsHeld (filter (sprint_left id sprint) sprints)) (filter (entry_left id sprint) rows)
IsHeld-left id sprint sprints [] h = tt
IsHeld-left id sprint sprints (r ∷ rows) h =
    elim (Bool-cases ((r.workspace_id == id) && (r.sprint_id == sprint))) [
      | inl gone ↦ rw (gone, filter) (IsHeld-left id sprint sprints rows h.1)
      | inr kept ↦
          rw (kept, filter)
            (
              any-sprint_left id sprint r.workspace_id r.sprint_id sprints kept h.0,
              IsHeld-left id sprint sprints rows h.1,
            )
    ]

pub delete_sprint-IsValid :
    (driver : Driver) (id sprint : ℕ) (db : Db)
    → IsValid db
    → IsValid (delete_sprint driver id sprint db).1
unfolding delete_sprint
delete_sprint-IsValid driver id sprint db v =
    elim (Bool-cases (any (is_sprint id sprint) db.sprints)) [
      | inr absent ↦ rw (absent, delete_sprint) v
      | inl found ↦
          rw (found, delete_sprint)
            (record {
              periods =
                  All-filter (λ s. s.starts_at < s.ends_at) (sprint_left id sprint) db.sprints
                    v.periods;
              ids = UniqueBy-filter same_id (sprint_left id sprint) db.sprints v.ids;
              names = UniqueBy-filter same_name (sprint_left id sprint) db.sprints v.names;
              entries = UniqueBy-filter same_entry (entry_left id sprint) db.sprint_items v.entries;
              held = IsHeld-left id sprint db.sprints db.sprint_items v.held;
            })
    ]
