-- ===== src/Sprint/Repository/Fresh.antt =====
-- A sprint under a new id: its row passes the checks, and a batch of work items goes in whole.
use mathlib.Core.List.{append-nil}
use prism_nestjs.Prelude.{
  ℕ, ◌≤◌, ◌<◌, ◌≡◌, refl, Bool, true, false, ◌&&◌, none, some, List, [], ◌∷◌, ◌++◌, arith, any, all,
  filter, map, All, Bool-cases, inl, inr, ◌==◌,
}
use prism_nestjs.Prelude.Decimal.{length-show}
use prism_nestjs.Prelude.Unique.{UniqueBy, any-append_false}
use prism_nestjs.Sprint.{SprintRecord, SprintItem, WorkItem, ItemRef, Db}
use prism_nestjs.Sprint.Repository.{
  int_max, get_next_sprint_number, check_row, insert_items, in_map, in_range, ref_of, item_exists,
  is_sprint, max_number,
}
use prism_nestjs.Sprint.Repository.Invariant.{IsHeld}
use prism_nestjs.Sprint.Repository.Inserts.{entry, entries_of, append_cons}
use prism_nestjs.Sprint.Repository.Numbers.{sprint_name, next_integer-some}

pub check_row-sprint_name :
    (n starts ends : ℕ) → n ≤ int_max → starts < ends → check_row (sprint_name n) starts ends ≡ none
unfolding check_row sprint_name
check_row-sprint_name n starts ends le lt = ground (arith, length-show 9 n)

pub get_next_sprint_number-le :
    (id n : ℕ) (db : Db) → get_next_sprint_number id db ≡ some n → n ≤ int_max
unfolding get_next_sprint_number
get_next_sprint_number-le id n db h =
    let (m, _, e, lt) = next_integer-some (max_number id db.sprints) {n = n} h in omega arith

-- A new sprint has no entries yet.
-- The id is taken.
abbrev pub has_id : ℕ → List SprintRecord → Bool
has_id sprint sprints = any (λ s. s.sprint_id == sprint) sprints

is_sprint-has_id :
    (w sprint : ℕ) (sprints : List SprintRecord)
    → has_id sprint sprints ≡ false
    → any (is_sprint w sprint) sprints ≡ false
is_sprint-has_id w sprint [] h = refl
is_sprint-has_id w sprint (s ∷ sprints) h = ground (arith, is_sprint-has_id w sprint sprints)

in_map-fresh :
    (sprint item : ℕ) (sprints : List SprintRecord) (rows : List SprintItem)
    → has_id sprint sprints ≡ false
    → All (IsHeld sprints) rows
    → in_map sprint item rows ≡ false
in_map-fresh sprint item sprints [] h held = refl
in_map-fresh sprint item sprints (r ∷ rows) h held = elim (Bool-cases (r.sprint_id == sprint)) [
  | inl same ↦ absurd (ground (arith, held.0, is_sprint-has_id r.workspace_id r.sprint_id sprints))
  | inr other ↦ ground (arith, in_map-fresh sprint item sprints rows h held.1)
]

abbrev pub same_ref : ItemRef → ItemRef → Bool
same_ref a b = b.item_id == a.item_id

-- The primary key of prism_work_items_l.
abbrev pub same_work_item : WorkItem → WorkItem → Bool
same_work_item a b = b.item_id == a.item_id

still_free :
    (id sprint user : ℕ) (i : ItemRef) (items : List ItemRef) (rows : List SprintItem)
    → any (same_ref i) items ≡ false
    → All (λ j. in_map sprint j.item_id rows ≡ false) items
    → All (λ j. in_map sprint j.item_id (rows ++ entry id sprint user i ∷ []) ≡ false) items
still_free id sprint user i [] rows u h = tt
still_free id sprint user i (j ∷ items) rows u h = (
  any-append_false (λ r. (r.sprint_id == sprint) && (r.item_id == j.item_id)) rows
      (entry id sprint user i) h.0 (ground arith),
  still_free id sprint user i items rows (ground arith) h.1,
)

-- The batch of a fresh sprint goes in whole.
pub insert_items-fresh :
    (id sprint user : ℕ) (items : List ItemRef) (rows : List SprintItem)
    → UniqueBy same_ref items
    → All (λ i. in_map sprint i.item_id rows ≡ false) items
    → insert_items id sprint user items rows ≡ some (rows ++ entries_of id sprint user items)
unfolding insert_items
insert_items-fresh id sprint user [] rows u h = ground (arith, append-nil rows)
insert_items-fresh id sprint user (i ∷ items) rows u h = ground (
  arith,
  insert_items-fresh id sprint user items (rows ++ entry id sprint user i ∷ []) u.1
      (still_free id sprint user i items rows u.0 h.1),
  append_cons rows (entries_of id sprint user items) (entry id sprint user i),
)

pub refs-UniqueBy :
    (q : WorkItem → Bool) (ws : List WorkItem)
    → UniqueBy same_work_item ws
    → UniqueBy same_ref (map ref_of (filter q ws))
refs-UniqueBy q [] u = tt
refs-UniqueBy q (w ∷ ws) u = elim (Bool-cases (q w)) [
  | inl taken ↦ rw (taken, filter) (refs_miss q w ws u.0, refs-UniqueBy q ws u.1)
  | inr left ↦ rw (left, filter) (refs-UniqueBy q ws u.1)
]
  where
    refs_miss :
        (q : WorkItem → Bool) (w : WorkItem) (ws : List WorkItem)
        → any (same_work_item w) ws ≡ false
        → any (same_ref (ref_of w)) (map ref_of (filter q ws)) ≡ false
    refs_miss q w [] h = refl
    refs_miss q w (v ∷ ws) h = ground (arith, refs_miss q w ws)

pub refs_exist :
    (id starts ends : ℕ) (ws all_items : List WorkItem)
    → ((i : ItemRef) → item_exists id ws i ≡ true → item_exists id all_items i ≡ true)
    → all (item_exists id all_items) (map ref_of (filter (in_range id starts ends) ws)) ≡ true
refs_exist id starts ends [] all_items h = refl
refs_exist id starts ends (w ∷ ws) all_items h = elim (Bool-cases (in_range id starts ends w)) [
  | inl taken ↦
      rw (taken, filter)
        (ground
          (arith, h (ref_of w), refs_exist id starts ends ws all_items (λ i e. h i (ground arith))))
  | inr left ↦
      rw (left, filter) (refs_exist id starts ends ws all_items (λ i e. h i (ground arith)))
]

pub All-fresh :
    (sprint : ℕ) (sprints : List SprintRecord) (rows : List SprintItem) (items : List ItemRef)
    → has_id sprint sprints ≡ false
    → All (IsHeld sprints) rows
    → All (λ i. in_map sprint i.item_id rows ≡ false) items
All-fresh sprint sprints rows [] h held = tt
All-fresh sprint sprints rows (i ∷ items) h held =
    (in_map-fresh sprint i.item_id sprints rows h held, All-fresh sprint sprints rows items h held)
