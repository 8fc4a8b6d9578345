-- ===== src/Sprint/Repository/Inserts.antt =====
-- Adding work items to a sprint: all of the rows or none, and the invariant.
use mathlib.Core.List.{append-nil}
use prism_nestjs.Prelude.{
  ℕ, ◌≡◌, refl, sym, subst, ◌∙◌, true, some, List, [], ◌∷◌, ◌++◌, arith, any, All, All-append,
  Bool-cases, Option-cases, inl, inr,
}
use prism_nestjs.Prelude.Unique.{UniqueBy, UniqueBy-append}
use prism_nestjs.Sprint.{SprintRecord, SprintItem, ItemRef, Db}
use prism_nestjs.Sprint.Repository.{
  is_sprint, in_map, insert_items, references_hold, add_sprint_work_items,
}
use prism_nestjs.Sprint.Repository.Invariant.{same_entry, IsHeld, IsValid}

-- The new row of the map for an item.
abbrev pub entry : ℕ → ℕ → ℕ → ItemRef → SprintItem
entry id sprint user i = record {
  workspace_id = id;
  sprint_id = sprint;
  project_id = i.project_id;
  item_id = i.item_id;
  added_by = user;
}

abbrev pub entries_of : ℕ → ℕ → ℕ → List ItemRef → List SprintItem
entries_of id sprint user [] = []
entries_of id sprint user (i ∷ items) = entry id sprint user i ∷ entries_of id sprint user items

pub append_cons : (xs ys : List SprintItem) (x : SprintItem) → (xs ++ x ∷ []) ++ ys ≡ xs ++ x ∷ ys
append_cons [] ys x = refl
append_cons (z ∷ xs) ys x = cc (append_cons xs ys x)

module _ (id sprint user : ℕ) where
  -- A batch that goes in is appended as it stands.
  pub insert_items-some :
      (items : List ItemRef) (rows : List SprintItem) {new : List SprintItem}
      → insert_items id sprint user items rows ≡ some new
      → new ≡ rows ++ entries_of id sprint user items
  unfolding insert_items
  insert_items-some [] rows h = ground (arith, append-nil rows)
  insert_items-some (i ∷ items) rows {new} h = elim (Bool-cases (in_map sprint i.item_id rows)) [
    | inl dup ↦ ground arith
    | inr free ↦
        insert_items-some items (rows ++ entry id sprint user i ∷ []) {new = new} (ground arith)
        ∙ append_cons rows (entries_of id sprint user items) (entry id sprint user i)
  ]

  same_entry_comm : (a b : SprintItem) → same_entry a b ≡ same_entry b a
  same_entry_comm a b = ground arith

  insert_items-UniqueBy :
      (items : List ItemRef) (rows : List SprintItem) {new : List SprintItem}
      → insert_items id sprint user items rows ≡ some new
      → UniqueBy same_entry rows
      → UniqueBy same_entry new
  unfolding insert_items
  insert_items-UniqueBy [] rows h u = ground (arith, u)
  insert_items-UniqueBy (i ∷ items) rows {new} h u =
      elim (Bool-cases (in_map sprint i.item_id rows)) [
        | inl dup ↦ absurd (ground arith)
        | inr free ↦
            insert_items-UniqueBy items (rows ++ entry id sprint user i ∷ []) {new = new}
              (ground arith)
              (UniqueBy-append same_entry same_entry_comm rows (entry id sprint user i) u free)
      ]

  entries_of-IsHeld :
      (sprints : List SprintRecord) (items : List ItemRef)
      → any (is_sprint id sprint) sprints ≡ true
      → All (IsHeld sprints) (entries_of id sprint user items)
  entries_of-IsHeld sprints [] h = tt
  entries_of-IsHeld sprints (i ∷ items) h = (h, entries_of-IsHeld sprints items h)

  pub add_sprint_work_items-IsValid :
      (items : List ItemRef) (db : Db)
      → IsValid db
      → IsValid (add_sprint_work_items id sprint items user db).1
  unfolding add_sprint_work_items
  add_sprint_work_items-IsValid [] db v = v
  add_sprint_work_items-IsValid (i ∷ items) db v =
      elim (Option-cases (insert_items id sprint user (i ∷ items) db.sprint_items)) [
        | inl dup ↦ rw (dup, add_sprint_work_items) v
        | inr (rows, e) ↦ elim (Bool-cases (references_hold id sprint user (i ∷ items) db)) [
          | inr dangling ↦ rw (e, add_sprint_work_items) (rw dangling v)
          | inl held ↦
              rw (e, add_sprint_work_items)
                (rw held (record {
                  periods = v.periods;
                  ids = v.ids;
                  names = v.names;
                  entries =
                      insert_items-UniqueBy (i ∷ items) db.sprint_items {new = rows} e v.entries;
                  held =
                      subst (All (IsHeld db.sprints))
                        (sym (insert_items-some (i ∷ items) db.sprint_items {new = rows} e))
                        (All-append (IsHeld db.sprints) db.sprint_items
                          (entries_of id sprint user (i ∷ items)) v.held
                          (entries_of-IsHeld db.sprints (i ∷ items) (ground arith)));
                }))
        ]
      ]
