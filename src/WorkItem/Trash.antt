-- ===== src/WorkItem/Trash.antt =====
-- The trash of work items: the queries of src/modules/project/repository/work-item.repository.ts
-- that move items with their descendants, on the columns that these read and write (`updated_at`
-- left out). A recursive query starts from its seeds and adds the children of what it has found
-- until a round adds none; `length rows` rounds are always enough. The trigger
-- trg_enforce_work_item_depth of .sql/ddl_v2.sql keeps items two levels deep; the queries do not rely
-- on it, and neither do the definitions here.
pub mod Orphans
pub mod Tidy
pub mod Subtree
pub mod UseCase
pub mod Purge
pub mod Closure
pub mod Exact
pub mod Requests
mod Examples
use prism_nestjs.Prelude.{
  ℕ, zero, suc, Bool, true, false, not, ◌&&◌, ◌||◌, Option, none, some, List, [], ◌∷◌, ◌++◌, map,
  any, find, filter, update, length, ltb, ◌==◌, ◌+◌, ◌*◌, is_some, if◌then◌else◌,
}

-- The columns of prism_work_items_l.
pub record ItemRow : Type 0 where
  pub item_id : ℕ
  pub workspace_id : ℕ
  pub project_id : ℕ
  pub parent_id : Option ℕ
  pub deleted_at : Option ℕ

abbrev pub in_project : ℕ → ℕ → ItemRow → Bool
in_project id project w = (w.workspace_id == id) && (w.project_id == project)

abbrev pub is_live : ℕ → ℕ → ItemRow → Bool
is_live id project w = in_project id project w && not (is_some w.deleted_at)

abbrev pub is_trashed : ℕ → ℕ → ItemRow → Bool
is_trashed id project w = in_project id project w && is_some w.deleted_at

abbrev pub mem : ℕ → List ℕ → Bool
mem i ids = any (λ j. j == i) ids

abbrev pub parent_in : List ℕ → Option ℕ → Bool
parent_in found none = false
parent_in found (some q) = mem q found

-- `parent_id` is in a list.
abbrev pub is_child_of : List ℕ → ItemRow → Bool
is_child_of found w = parent_in found w.parent_id

abbrev pub item_ids : List ItemRow → List ℕ
item_ids rows = map (λ w. w.item_id) rows

abbrev pub is_new : (ItemRow → Bool) → List ℕ → ItemRow → Bool
is_new p found w = p w && is_child_of found w && not (mem w.item_id found)

-- The rows that a round of the recursive query adds.
abbrev pub new_ids : (ItemRow → Bool) → List ItemRow → List ℕ → List ℕ
new_ids p rows found = item_ids (filter (is_new p found) rows)

-- At most so many rounds.
unfoldable pub grow : (ItemRow → Bool) → List ItemRow → ℕ → List ℕ → List ℕ
grow p rows zero found = found
grow p rows (suc n) found = elim (new_ids p rows found) [
  | [] ↦ found
  | i ∷ ids ↦ grow p rows n (found ++ i ∷ ids)
]

-- WITH RECURSIVE subtree, over the rows that pass a test.
unfoldable pub subtree : (ItemRow → Bool) → List ItemRow → List ℕ → List ℕ
unfolding grow
subtree p rows seeds = grow p rows (length rows) seeds

abbrev pub with_deleted_at : Option ℕ → ItemRow → ItemRow
with_deleted_at t w = record w { deleted_at = t }

-- The ids that the first SELECT gives.
abbrev pub seeds : (ItemRow → Bool) → List ItemRow → List ℕ → List ℕ
seeds p rows ids = item_ids (filter (λ w. p w && mem w.item_id ids) rows)

unfoldable pub soft_delete_with_descendants : ℕ → ℕ → ℕ → List ℕ → List ItemRow → List ItemRow
unfolding subtree
soft_delete_with_descendants now id project [] rows = rows
soft_delete_with_descendants now id project (i ∷ ids) rows =
    let found = subtree (is_live id project) rows (seeds (is_live id project) rows (i ∷ ids)) in
    update (λ w. mem w.item_id found) (with_deleted_at (some now)) rows

unfoldable pub restore_with_descendants : ℕ → ℕ → ℕ → List ItemRow → List ItemRow
unfolding subtree
restore_with_descendants id project item rows =
    let found =
      subtree (is_trashed id project) rows (seeds (is_trashed id project) rows (item ∷ [])) in
    update (λ w. mem w.item_id found) (with_deleted_at none) rows

-- The parent, if any, is not in the trash of the project.
abbrev pub no_trashed_parent : ℕ → ℕ → List ItemRow → Option ℕ → Bool
no_trashed_parent id project rows none = true
no_trashed_parent id project rows (some q) =
    not (any (λ v. is_trashed id project v && (v.item_id == q)) rows)

abbrev pub has_no_trashed_parent : List ItemRow → ItemRow → Bool
has_no_trashed_parent rows w = no_trashed_parent w.workspace_id w.project_id rows w.parent_id

abbrev pub is_root : ℕ → ℕ → ℕ → List ItemRow → ItemRow → Bool
is_root id project item rows w =
    is_trashed id project w && (w.item_id == item) && has_no_trashed_parent rows w

unfoldable pub find_trashed_root_by_id : ℕ → ℕ → ℕ → List ItemRow → Option ItemRow
find_trashed_root_by_id id project item rows = find (is_root id project item rows) rows

unfoldable pub find_work_item_by_id : ℕ → ℕ → ℕ → List ItemRow → Option ItemRow
find_work_item_by_id id project item rows =
    find (λ w. is_live id project w && (w.item_id == item)) rows
