-- ===== src/Sprint/Repository/Updates.antt =====
-- Changing the metadata of a sprint keeps the invariant: its name stays apart from the others'.
use prism_nestjs.Prelude.{
  ℕ, ◌<◌, ◌≡◌, refl, inl, inr, true, false, not, ◌&&◌, Option, none, some, List, [], ◌∷◌, arith,
  any, filter, update, All, Bool-cases, Option-cases, ◌==◌,
}
use prism_nestjs.Prelude.Text.{Text, text_eq}
use prism_nestjs.Prelude.Driver.{Driver}
use prism_nestjs.Prelude.Unique.{UniqueBy, UniqueBy-update}
use prism_nestjs.Sprint.{SprintRecord, SprintItem, Db}
use prism_nestjs.Sprint.Repository.{
  check_row, name_taken, is_sprint, changed_sprint, update_found, update_sprint_metadata,
}
use prism_nestjs.Sprint.Repository.Invariant.{
  same_id, same_name, IsHeld, IsValid, check_row-period, text_eq_comm,
}

module _ (id sprint : ℕ) (name : Text) (goal : Option Text) (starts ends : ℕ) where
  abbrev change : SprintRecord → SprintRecord
  change = changed_sprint name goal starts ends

  periods_after :
      (xs : List SprintRecord)
      → starts < ends
      → All (λ s. s.starts_at < s.ends_at) xs
      → All (λ s. s.starts_at < s.ends_at) (update (is_sprint id sprint) change xs)
  periods_after [] p h = tt
  periods_after (x ∷ xs) p h = ground (arith, periods_after xs p h.1)

  -- No other row is the sprint.
  update-absent :
      (xs : List SprintRecord)
      → any (λ s. s.sprint_id == sprint) xs ≡ false
      → update (is_sprint id sprint) change xs ≡ xs
  update-absent [] h = refl
  update-absent (x ∷ xs) h = ground (arith, update-absent xs)

  filter-absent :
      (xs : List SprintRecord)
      → any (λ s. s.sprint_id == sprint) xs ≡ false
      → filter (λ s. not (is_sprint id sprint s)) xs ≡ xs
  filter-absent [] h = refl
  filter-absent (x ∷ xs) h = ground (arith, filter-absent xs)

  -- A name that is free among the rows and is not the new name stays free.
  name_taken-update :
      (w : ℕ) (n : Text) (xs : List SprintRecord)
      → name_taken w n xs ≡ false
      → ((id == w) && text_eq name n) ≡ false
      → name_taken w n (update (is_sprint id sprint) change xs) ≡ false
  unfolding name_taken
  name_taken-update w n [] h e = refl
  name_taken-update w n (x ∷ xs) h e = ground (arith, name_taken-update w n xs)

  names_after :
      (xs : List SprintRecord)
      → UniqueBy same_id xs
      → UniqueBy same_name xs
      → name_taken id name (filter (λ s. not (is_sprint id sprint s)) xs) ≡ false
      → UniqueBy same_name (update (is_sprint id sprint) change xs)
  unfolding name_taken
  names_after [] i u f = tt
  names_after (x ∷ xs) i u f = elim (Bool-cases (is_sprint id sprint x)) [
    | inl here ↦
        let alone : any (λ s. s.sprint_id == sprint) xs ≡ false = ground arith in
        rw (update-absent xs alone) (ground (arith, filter-absent xs alone))
    | inr other ↦ (
      ground (
        arith,
        name_taken-update x.workspace_id x.sprint_name xs,
        text_eq_comm name x.sprint_name,
      ),
      names_after xs i.1 u.1 (ground arith),
    )
  ]

  IsHeld-after :
      (xs : List SprintRecord) (rows : List SprintItem)
      → All (IsHeld xs) rows
      → All (IsHeld (update (is_sprint id sprint) change xs)) rows
  IsHeld-after xs [] h = tt
  IsHeld-after xs (r ∷ rows) h = (stays xs h.0, IsHeld-after xs rows h.1)
    where
      stays :
          (ys : List SprintRecord)
          → any (is_sprint r.workspace_id r.sprint_id) ys ≡ true
          → any (is_sprint r.workspace_id r.sprint_id) (update (is_sprint id sprint) change ys)
            ≡ true
      stays [] k = k
      stays (y ∷ ys) k = ground (arith, stays ys)

  update_found-IsValid :
      (driver : Driver) (now : ℕ) (db : Db)
      → IsValid db
      → IsValid (update_found driver now id sprint name goal starts ends db).1
  unfolding update_found
  update_found-IsValid driver now db v = elim (Option-cases (check_row name starts ends)) [
    | inr (violation, e) ↦ rw (e, update_found) v
    | inl passed ↦
        elim (Bool-cases
          (name_taken id name (filter (λ s. not (is_sprint id sprint s)) db.sprints))) [
            | inl taken ↦ rw (passed, update_found) (rw taken v)
            | inr free ↦
                rw (passed, update_found)
                  (rw free (record {
                    periods =
                        periods_after db.sprints (check_row-period name starts ends passed)
                          v.periods;
                    ids =
                        UniqueBy-update same_id (is_sprint id sprint) change (λ a b. refl)
                          (λ a b. refl) db.sprints v.ids;
                    names = names_after db.sprints v.ids v.names free;
                    entries = v.entries;
                    held = IsHeld-after db.sprints db.sprint_items v.held;
                  }))
          ]
  ]

pub update_sprint_metadata-IsValid :
    (driver : Driver) (now id sprint : ℕ) (name : Text) (goal : Option Text)
    (starts ends : Option ℕ) (db : Db)
    → IsValid db
    → IsValid (update_sprint_metadata driver now id sprint name goal starts ends db).1
unfolding update_sprint_metadata
update_sprint_metadata-IsValid driver now id sprint name goal (some starts) (some ends) db v =
    ground (arith, update_found-IsValid id sprint name goal starts ends driver now db v, v)
update_sprint_metadata-IsValid driver now id sprint name goal none ends db v = v
update_sprint_metadata-IsValid driver now id sprint name goal (some starts) none db v = v
