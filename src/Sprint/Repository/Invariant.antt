-- ===== src/Sprint/Repository/Invariant.antt =====
-- The invariant of the sprint tables, which every statement keeps: the constraints of
-- .sql/ddl_v2.sql on the tables as they stand.
use prism_nestjs.Prelude.{
  ℕ, ◌<◌, ◌≡◌, refl, inl, inr, Bool, true, false, ◌&&◌, Option, none, some, List, [], ◌∷◌, ◌++◌,
  arith, any, All, All-append, Bool-cases, Option-cases, ◌==◌,
}
use prism_nestjs.Prelude.Text.{Text, text_eq}
use prism_nestjs.Prelude.Unique.{UniqueBy, UniqueBy-append, any-append_right}
use prism_nestjs.Sprint.{SprintRecord, SprintItem, Db}
use prism_nestjs.Sprint.Repository.{
  check_row, name_taken, new_sprint, insert_sprint, create_sprint, is_sprint, creation_refers,
}

abbrev pub same_id : SprintRecord → SprintRecord → Bool
same_id a b = b.sprint_id == a.sprint_id

abbrev pub same_name : SprintRecord → SprintRecord → Bool
same_name a b = (b.workspace_id == a.workspace_id) && text_eq b.sprint_name a.sprint_name

abbrev pub same_entry : SprintItem → SprintItem → Bool
same_entry a b = (b.sprint_id == a.sprint_id) && (b.item_id == a.item_id)

-- The sprint of an entry of the map is there.
abbrev pub IsHeld : List SprintRecord → SprintItem → Type 0
IsHeld sprints r = any (is_sprint r.workspace_id r.sprint_id) sprints ≡ true

pub record IsValid (db : Db) : Type 0 where
  pub periods : All (λ s. s.starts_at < s.ends_at) db.sprints
  pub ids : UniqueBy same_id db.sprints
  pub names : UniqueBy same_name db.sprints
  pub entries : UniqueBy same_entry db.sprint_items
  pub held : All (IsHeld db.sprints) db.sprint_items

same_id_comm : (a b : SprintRecord) → same_id a b ≡ same_id b a
same_id_comm a b = ground arith

pub text_eq_comm : (s t : Text) → text_eq s t ≡ text_eq t s
text_eq_comm [] [] = refl
text_eq_comm [] (b ∷ t) = refl
text_eq_comm (a ∷ s) [] = refl
text_eq_comm (a ∷ s) (b ∷ t) = ground (arith, text_eq_comm s t)

same_name_comm : (a b : SprintRecord) → same_name a b ≡ same_name b a
same_name_comm a b = ground (arith, text_eq_comm b.sprint_name a.sprint_name)

pub check_row-period :
    (name : Text) (starts ends : ℕ) → check_row name starts ends ≡ none → starts < ends
unfolding check_row
check_row-period name starts ends h = ground arith

IsHeld-append :
    (sprints : List SprintRecord) (s : SprintRecord) (rows : List SprintItem)
    → All (IsHeld sprints) rows
    → All (IsHeld (sprints ++ s ∷ [])) rows
IsHeld-append sprints s [] h = tt
IsHeld-append sprints s (r ∷ rows) h = (
  any-append_right (is_sprint r.workspace_id r.sprint_id) sprints (s ∷ []) h.0,
  IsHeld-append sprints s rows h.1,
)

append-IsValid :
    (s : SprintRecord) (db : Db)
    → s.starts_at < s.ends_at
    → any (λ x. x.sprint_id == s.sprint_id) db.sprints ≡ false
    → name_taken s.workspace_id s.sprint_name db.sprints ≡ false
    → IsValid db
    → IsValid (record db { sprints = db.sprints ++ s ∷ [] })
unfolding name_taken
append-IsValid s db p i n v = record {
  periods = All-append (λ x. x.starts_at < x.ends_at) db.sprints (s ∷ []) v.periods (p, tt);
  ids = UniqueBy-append same_id same_id_comm db.sprints s v.ids i;
  names = UniqueBy-append same_name same_name_comm db.sprints s v.names n;
  entries = v.entries;
  held = IsHeld-append db.sprints s db.sprint_items v.held;
}

insert_sprint-IsValid :
    (fresh now id : ℕ) (name : Text) (goal : Option Text) (starts ends creator : ℕ) (db : Db)
    → IsValid db
    → IsValid (insert_sprint fresh now id name goal starts ends creator db).1
unfolding insert_sprint
insert_sprint-IsValid fresh now id name goal starts ends creator db v =
    elim (Option-cases (check_row name starts ends)) [
      | inr (violation, e) ↦ rw (e, insert_sprint) v
      | inl passed ↦ elim (Bool-cases (any (λ s. s.sprint_id == fresh) db.sprints)) [
        | inl old ↦ rw (passed, insert_sprint) (rw old v)
        | inr new ↦ elim (Bool-cases (name_taken id name db.sprints)) [
          | inl taken ↦ rw (passed, insert_sprint) (rw (new, taken) v)
          | inr free ↦ elim (Bool-cases (creation_refers id creator db)) [
            | inr dangling ↦ rw (passed, insert_sprint) (rw (new, free, dangling) v)
            | inl held ↦
                rw (passed, insert_sprint)
                  (rw (new, free, held)
                    (append-IsValid (new_sprint fresh now id name goal starts ends creator) db
                      (check_row-period name starts ends passed) new free v))
          ]
        ]
      ]
    ]

pub create_sprint-IsValid :
    (fresh now id : ℕ) (name : Text) (goal : Option Text) (starts ends : Option ℕ) (creator : ℕ)
    (db : Db)
    → IsValid db
    → IsValid (create_sprint fresh now id name goal starts ends creator db).1
unfolding create_sprint
create_sprint-IsValid fresh now id name goal (some starts) (some ends) creator db v =
    insert_sprint-IsValid fresh now id name goal starts ends creator db v
create_sprint-IsValid fresh now id name goal none ends creator db v = v
create_sprint-IsValid fresh now id name goal (some starts) none creator db v = v
