-- ===== src/Sprint/Repository.antt =====
-- src/modules/sprint/repository/sprint.repository.ts: each query on the tables. NOW() and
-- gen_random_uuid() are arguments; a statement that breaks a constraint of the table
-- (.sql/ddl_v2.sql) reports it and changes nothing. A `Date` is `none` where it is invalid, and no
-- statement takes such a date.
pub mod Numbers
pub mod Fresh
pub mod Inserts
pub mod Removals
pub mod Updates
pub mod Invariant
use prism_nestjs.Prelude.{
  ℕ, ◌+◌, ◌/◌, max, Bool, true, false, not, ◌&&◌, ◌||◌, Option, none, some, List, [], ◌∷◌, ◌++◌,
  map, any, all, find, filter, update, length, ltb, leb, ◌==◌, is_some, if◌then◌else◌,
}
use prism_nestjs.Prelude.Text.{Text, codes, text_eq, starts_with, drop, is_digit}
use prism_nestjs.Prelude.Decimal.{read}
use prism_nestjs.Prelude.Driver.{Driver, Element, result_length, first_element}
use prism_nestjs.Prelude.Action.{Result, ok, err}
use prism_nestjs.Tables.{WorkspaceRow, MemberRow, Role, is_live, is_membership}
use prism_nestjs.Sprint.{
  SprintStatus, SprintRecord, SprintRow, SprintItem, WorkItem, ItemRef, Access, Db, Violation,
  name_unique, period_check, map_duplicate, other, status_at, shown,
}

unfoldable pub find_workspace_by_id_and_member_user_id : ℕ → ℕ → Db → Option ℕ
find_workspace_by_id_and_member_user_id id user db =
    if any (is_live id) db.workspaces && any (is_membership id user) db.members
    then some id
    else none

abbrev pub role_of : Option MemberRow → Option Role
role_of none = none
role_of (some m) = some m.role

-- The LEFT JOIN gives a role, or NULL for a user who is no member.
unfoldable pub find_workspace_access_by_id_and_user_id : ℕ → ℕ → Db → Option Access
find_workspace_access_by_id_and_user_id id user db =
    if any (is_live id) db.workspaces
    then some
        (record { workspace_id = id; role = role_of (find (is_membership id user) db.members) })
    else none

-- `workspace_id = $1 AND sprint_id = $2`.
abbrev pub is_sprint : ℕ → ℕ → SprintRecord → Bool
is_sprint id sprint s = (s.workspace_id == id) && (s.sprint_id == sprint)

abbrev pub shown_option : ℕ → Option SprintRecord → Option SprintRow
shown_option now none = none
shown_option now (some s) = some (shown now s)

unfoldable pub find_sprint_by_id : ℕ → ℕ → ℕ → Db → Option SprintRow
unfolding status_at
find_sprint_by_id now id sprint db = shown_option now (find (is_sprint id sprint) db.sprints)

-- `starts_at DESC, sprint_id DESC`.
unfoldable pub listed_before : SprintRecord → SprintRecord → Bool
listed_before a b =
    if a.starts_at == b.starts_at then leb b.sprint_id a.sprint_id else ltb b.starts_at a.starts_at

insert_listed : SprintRecord → List SprintRecord → List SprintRecord
insert_listed a [] = a ∷ []
insert_listed a (b ∷ rows) = if listed_before a b then a ∷ b ∷ rows else b ∷ insert_listed a rows

sort_listed : List SprintRecord → List SprintRecord
sort_listed [] = []
sort_listed (a ∷ rows) = insert_listed a (sort_listed rows)

unfoldable pub find_sprints_by_workspace_id : ℕ → ℕ → Db → List SprintRow
unfolding status_at sort_listed insert_listed listed_before
find_sprints_by_workspace_id now id db =
    map (shown now) (sort_listed (filter (λ s. s.workspace_id == id) db.sprints))

-- The CHECKs and the length of the columns: `none` where the row passes.
abbrev pub is_blank : Text → Bool
is_blank name = all (λ c. c == 32) name

unfoldable pub check_row : Text → ℕ → ℕ → Option Violation
check_row name starts ends =
    if ltb 50 (length name) || is_blank name
    then some other
    else if ltb starts ends
    then none
    else some period_check

-- Another sprint of the workspace holds the name (uq_sprints_workspace_name).
unfoldable pub name_taken : ℕ → Text → List SprintRecord → Bool
name_taken id name sprints = any (λ s. (s.workspace_id == id) && text_eq s.sprint_name name) sprints

abbrev pub new_sprint : ℕ → ℕ → ℕ → Text → Option Text → ℕ → ℕ → ℕ → SprintRecord
new_sprint fresh now id name goal starts ends creator = record {
  sprint_id = fresh;
  workspace_id = id;
  sprint_name = name;
  goal = goal;
  starts_at = starts;
  ends_at = ends;
  status = SprintStatus.planned;
  created_by = creator;
  created_at = now;
  closed_at = none;
}

-- The references of a new sprint, to its workspace and its creator.
abbrev pub creation_refers : ℕ → ℕ → Db → Bool
creation_refers id creator db =
    any (λ w. w.workspace_id == id) db.workspaces && any (λ u. u == creator) db.users

unfoldable pub insert_sprint :
    ℕ → ℕ → ℕ → Text → Option Text → ℕ → ℕ → ℕ → Db → Result Violation SprintRow × Db
unfolding check_row name_taken status_at
insert_sprint fresh now id name goal starts ends creator db = elim (check_row name starts ends) [
  | some v ↦ (err v, db)
  | none ↦
      if any (λ s. s.sprint_id == fresh) db.sprints
      then (err other, db)
      else if name_taken id name db.sprints
      then (err name_unique, db)
      else if not (creation_refers id creator db)
      then (err other, db)
      else (
        ok (shown now (new_sprint fresh now id name goal starts ends creator)),
        record db {
          sprints = db.sprints ++ new_sprint fresh now id name goal starts ends creator ∷ [];
        },
      )
]

-- The status that the code passes is always 'planned', so `closed_at` stays NULL.
unfoldable pub create_sprint :
    ℕ → ℕ → ℕ → Text → Option Text → Option ℕ → Option ℕ → ℕ → Db → Result Violation SprintRow × Db
unfolding insert_sprint
create_sprint fresh now id name goal (some starts) (some ends) creator db =
    insert_sprint fresh now id name goal starts ends creator db
create_sprint fresh now id name goal _ _ creator db = (err other, db)

abbrev pub int_max : ℕ
int_max = 2147483647

abbrev pub digits_number : Text → Option ℕ
digits_number [] = none
digits_number (c ∷ s) = if all is_digit (c ∷ s) then some (read (c ∷ s)) else none

-- The digits of a name that matches `^Sprint #[0-9]+$`, as a number.
unfoldable pub sprint_number : Text → Option ℕ
sprint_number name =
    if starts_with name (codes "Sprint #") then digits_number (drop 8 name) else none

-- The CASE for one name: `::INTEGER` fails beyond the type, which is `none`.
unfoldable pub counted_number : Text → Option ℕ
unfolding sprint_number
counted_number name = elim (sprint_number name) [
  | none ↦ some 0
  | some n ↦ if leb n int_max then some n else none
]

abbrev pub max_option : Option ℕ → Option ℕ → Option ℕ
max_option (some a) (some b) = some (max a b)
max_option _ _ = none

-- COALESCE(MAX(...), 0).
unfoldable pub max_number : ℕ → List SprintRecord → Option ℕ
max_number id [] = some 0
max_number id (s ∷ sprints) =
    let rest = max_number id sprints in
    if s.workspace_id == id then max_option (counted_number s.sprint_name) rest else rest

-- The sum `+ 1` is an INTEGER too.
abbrev pub next_integer : Option ℕ → Option ℕ
next_integer none = none
next_integer (some n) = if ltb n int_max then some (n + 1) else none

-- `none` is a failed query.
unfoldable pub get_next_sprint_number : ℕ → Db → Option ℕ
unfolding max_number counted_number
get_next_sprint_number id db = next_integer (max_number id db.sprints)

-- The three ways to lie in the range.
abbrev pub dates_overlap : ℕ → ℕ → Option ℕ → Option ℕ → Bool
dates_overlap starts ends (some s) (some d) = leb s ends && leb starts d
dates_overlap starts ends (some s) none = leb starts s && leb s ends
dates_overlap starts ends none (some d) = leb starts d && leb d ends
dates_overlap starts ends none none = false

abbrev pub in_range : ℕ → ℕ → ℕ → WorkItem → Bool
in_range id starts ends w =
    (w.workspace_id == id)
    && not (is_some w.archived_at)
    && dates_overlap starts ends w.start_date w.due_date

abbrev pub ref_of : WorkItem → ItemRef
ref_of w = record { item_id = w.item_id; project_id = w.project_id }

-- The parameters get the type of the columns they are compared with, DATE: the day, in UTC.
abbrev pub day_of : ℕ → ℕ
day_of t = t / 86400000

unfoldable pub find_work_items_in_sprint_range : ℕ → ℕ → ℕ → Db → List ItemRef
find_work_items_in_sprint_range id starts ends db =
    map ref_of (filter (in_range id (day_of starts) (day_of ends)) db.work_items)

abbrev pub is_listed : ℕ → List ℕ → WorkItem → Bool
is_listed id ids w =
    (w.workspace_id == id) && any (λ i. i == w.item_id) ids && not (is_some w.archived_at)

unfoldable pub find_work_items_by_ids : ℕ → List ℕ → Db → List ItemRef
find_work_items_by_ids id [] db = []
find_work_items_by_ids id (i ∷ ids) db = map ref_of (filter (is_listed id (i ∷ ids)) db.work_items)

-- The primary key (sprint_id, item_id).
abbrev pub in_map : ℕ → ℕ → List SprintItem → Bool
in_map sprint item rows = any (λ r. (r.sprint_id == sprint) && (r.item_id == item)) rows

-- Rows go in one after the other; the first duplicate of the key fails the statement.
unfoldable pub insert_items : ℕ → ℕ → ℕ → List ItemRef → List SprintItem → Option (List SprintItem)
insert_items id sprint user [] rows = some rows
insert_items id sprint user (i ∷ items) rows =
    let added : SprintItem = record {
      workspace_id = id;
      sprint_id = sprint;
      project_id = i.project_id;
      item_id = i.item_id;
      added_by = user;
    } in
    let rest = insert_items id sprint user items (rows ++ added ∷ []) in
    if in_map sprint i.item_id rows then none else rest

-- The references of the new rows, checked at the end of the statement.
abbrev pub item_exists : ℕ → List WorkItem → ItemRef → Bool
item_exists id work_items i =
    any (λ w. (w.workspace_id == id) && (w.project_id == i.project_id) && (w.item_id == i.item_id))
      work_items

abbrev pub references_hold : ℕ → ℕ → ℕ → List ItemRef → Db → Bool
references_hold id sprint user items db =
    any (is_sprint id sprint) db.sprints
    && any (λ u. u == user) db.users
    && all (item_exists id db.work_items) items

unfoldable pub add_sprint_work_items :
    ℕ → ℕ → List ItemRef → ℕ → Db → Result Violation (Unit {0}) × Db
unfolding insert_items
add_sprint_work_items id sprint [] user db = (ok tt, db)
add_sprint_work_items id sprint (i ∷ items) user db =
    elim (insert_items id sprint user (i ∷ items) db.sprint_items) [
      | none ↦ (err map_duplicate, db)
      | some rows ↦
          if references_hold id sprint user (i ∷ items) db
          then (ok tt, record db { sprint_items = rows })
          else (err other, db)
    ]

abbrev pub is_map_row : ℕ → ℕ → ℕ → SprintItem → Bool
is_map_row id sprint item r =
    (r.workspace_id == id) && (r.sprint_id == sprint) && (r.item_id == item)

unfoldable pub remove_sprint_work_item : Driver → ℕ → ℕ → ℕ → Db → Bool × Db
remove_sprint_work_item driver id sprint item db = (
  ltb 0 (result_length driver (filter (is_map_row id sprint item) db.sprint_items)),
  record db { sprint_items = filter (λ r. not (is_map_row id sprint item r)) db.sprint_items },
)

abbrev pub changed_sprint : Text → Option Text → ℕ → ℕ → SprintRecord → SprintRecord
changed_sprint name goal starts ends s = record s {
  sprint_name = name;
  goal = goal;
  starts_at = starts;
  ends_at = ends;
}

-- The UPDATE, where the sprint is there: the CHECKs, then the name among the other sprints.
update_found :
    Driver
    → ℕ
    → ℕ
    → ℕ
    → Text
    → Option Text
    → ℕ
    → ℕ
    → Db
    → Result Violation (Option (Element SprintRow)) × Db
unfolding check_row name_taken status_at
update_found driver now id sprint name goal starts ends db = elim (check_row name starts ends) [
  | some v ↦ (err v, db)
  | none ↦
      if name_taken id name (filter (λ s. not (is_sprint id sprint s)) db.sprints)
      then (err name_unique, db)
      else let rows =
          update (is_sprint id sprint) (changed_sprint name goal starts ends) db.sprints in
        (
          ok (first_element driver (map (shown now) (filter (is_sprint id sprint) rows))),
          record db { sprints = rows },
        )
]

unfoldable pub update_sprint_metadata :
    Driver
    → ℕ
    → ℕ
    → ℕ
    → Text
    → Option Text
    → Option ℕ
    → Option ℕ
    → Db
    → Result Violation (Option (Element SprintRow)) × Db
unfolding update_found
update_sprint_metadata driver now id sprint name goal (some starts) (some ends) db =
    if any (is_sprint id sprint) db.sprints
    then update_found driver now id sprint name goal starts ends db
    else (ok (first_element driver []), db)
update_sprint_metadata driver now id sprint name goal _ _ db = (err other, db)

-- ON DELETE CASCADE takes the sprint's rows of the map.
unfoldable pub delete_sprint : Driver → ℕ → ℕ → Db → Bool × Db
delete_sprint driver id sprint db =
    if any (is_sprint id sprint) db.sprints
    then (
      ltb 0 (result_length driver (filter (is_sprint id sprint) db.sprints)),
      record db {
        sprints = filter (λ s. not (is_sprint id sprint s)) db.sprints;
        sprint_items =
            filter (λ r. not ((r.workspace_id == id) && (r.sprint_id == sprint))) db.sprint_items;
      },
    )
    else (ltb 0 (result_length {A = SprintRecord} driver []), db)
