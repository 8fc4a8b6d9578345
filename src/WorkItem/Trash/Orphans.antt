-- ===== src/WorkItem/Trash/Orphans.antt =====
-- Live items below an item in the trash: a deletion leaves none.
use prism_nestjs.Prelude.{
  ℕ, ◌≡◌, refl, true, false, ◌&&◌, ◌||◌, Option, none, some, List, [], ◌∷◌, any, filter, update,
  arith, ==_iff,
}
use prism_nestjs.WorkItem.Trash.{
  ItemRow, is_live, is_trashed, mem, parent_in, is_child_of, item_ids, new_ids, with_deleted_at,
}

abbrev pub trashed_ids : ℕ → ℕ → List ItemRow → List ℕ
trashed_ids id project rows = item_ids (filter (is_trashed id project) rows)

-- No live item of the project has its parent in the trash of the project.
abbrev pub NoOrphans : ℕ → ℕ → List ItemRow → Type 0
NoOrphans id project rows =
    any (λ w. is_live id project w && is_child_of (trashed_ids id project rows) w) rows ≡ false

module _ (id project now : ℕ) (found : List ℕ) where
  abbrev pub stamped : List ItemRow → List ItemRow
  stamped rows = update (λ w. mem w.item_id found) (with_deleted_at (some now)) rows

  -- What is in the trash after a deletion.
  pub trashed-stamped :
      (q : ℕ) (rows : List ItemRow)
      → mem q (trashed_ids id project (stamped rows)) ≡ true
      → (mem q (trashed_ids id project rows) || mem q found) ≡ true
  trashed-stamped q [] h = cc
  trashed-stamped q (w ∷ rows) h = ground (arith, trashed-stamped q rows, ==_iff w.item_id q)

  parent_split :
      (after before : List ℕ) (o : Option ℕ)
      → ((q : ℕ) → mem q after ≡ true → (mem q before || mem q found) ≡ true)
      → parent_in after o ≡ true
      → (parent_in before o || parent_in found o) ≡ true
  parent_split after before none k h = cc
  parent_split after before (some q) k h = k q h

  pub stamped-NoOrphans :
      (after before : List ℕ)
      → ((q : ℕ) → mem q after ≡ true → (mem q before || mem q found) ≡ true)
      → (rows : List ItemRow) → any (λ w. is_live id project w && is_child_of before w) rows ≡ false
      → new_ids (is_live id project) rows found ≡ []
      → any (λ w. is_live id project w && is_child_of after w) (stamped rows) ≡ false
  stamped-NoOrphans after before k [] h n = refl
  stamped-NoOrphans after before k (w ∷ rows) h n =
      ground (arith, stamped-NoOrphans after before k rows, parent_split after before w.parent_id k)
