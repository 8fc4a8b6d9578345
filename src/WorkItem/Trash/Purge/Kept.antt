-- ===== src/WorkItem/Trash/Purge/Kept.antt =====
-- What a permanent deletion takes and what it leaves.
use prism_nestjs.Prelude.{
  ℕ, ◌≡◌, refl, sym, subst, ◌∙◌, ◌↔◌, true, false, not, ◌&&◌, Option, none, some, List, [], ◌∷◌,
  any, find, filter, All, is_some, arith, if_cases,
}
use prism_nestjs.Prelude.Unique.{UniqueBy-filter}
use prism_nestjs.WorkItem.Trash.{
  ItemRow, in_project, is_live, is_trashed, mem, is_child_of, seeds, is_root,
  find_trashed_root_by_id,
}
use prism_nestjs.WorkItem.Trash.Subtree.{Reach, seed, child, link, subtree_iff, parent_found}
use prism_nestjs.WorkItem.Trash.Closure.{
  OnlyOne, All-OnlyOne, same_item, seeds-item, any-trashed, parent_sub,
}
use prism_nestjs.WorkItem.Trash.Orphans.{trashed_ids, NoOrphans}
use prism_nestjs.WorkItem.Trash.Tidy.{link-test, seeds-test, found-test, IsTidy}
use prism_nestjs.WorkItem.Trash.Purge.{
  Progress, find_trashed_subtree_ids, cascade_ids, delete_item, purge, purge_if_root, purge_all,
}

-- A child of a trashed item is in the trash.
child-trashed :
    (id project q i : ℕ) (ids : List ℕ) (rows : List ItemRow)
    → mem q ids ≡ true
    → any (λ w. is_live id project w && is_child_of ids w) rows ≡ false
    → link (in_project id project) rows q i ≡ true
    → link (is_trashed id project) rows q i ≡ true
child-trashed id project q i ids [] m h l = cc
child-trashed id project q i ids (w ∷ rows) m h l =
    ground (arith, child-trashed id project q i ids rows, parent_found ids q w.parent_id)

root-seed :
    (id project item : ℕ) (all rows : List ItemRow) (r : ItemRow)
    → find (is_root id project item all) rows ≡ some r
    → mem item (seeds (is_trashed id project) rows (item ∷ [])) ≡ true
root-seed id project item all [] r h = cc
root-seed id project item all (w ∷ rows) r h = ground (arith, root-seed id project item all rows r)

link-in_project :
    (id project q i : ℕ) (rows : List ItemRow)
    → link (is_trashed id project) rows q i ≡ true
    → link (in_project id project) rows q i ≡ true
link-in_project id project q i [] h = cc
link-in_project id project q i (w ∷ rows) h = ground (arith, link-in_project id project q i rows)

seeds-in_project :
    (id project item i : ℕ) (rows : List ItemRow)
    → mem i (seeds (is_trashed id project) rows (item ∷ [])) ≡ true
    → mem i (seeds (in_project id project) rows (item ∷ [])) ≡ true
seeds-in_project id project item i [] h = cc
seeds-in_project id project item i (w ∷ rows) h =
    ground (arith, seeds-in_project id project item i rows)

module _ (id project item : ℕ) (rows : List ItemRow) (r : ItemRow)
    (root : find_trashed_root_by_id id project item rows ≡ some r)
    (h : NoOrphans id project rows) where
  abbrev top : List ℕ
  top = seeds (is_trashed id project) rows (item ∷ [])

  reached-trashed :
      {i : ℕ}
      → Reach (is_trashed id project) rows top i
      → mem i (trashed_ids id project rows) ≡ true
  reached-trashed (seed i m) =
      sym (any-trashed id project i rows) ∙ seeds-test (is_trashed id project) (item ∷ []) i rows m
  reached-trashed (child q i s l) =
      sym (any-trashed id project i rows) ∙ link-test (is_trashed id project) q i rows l

  cascade-Reach :
      {i : ℕ}
      → Reach (in_project id project) rows (seeds (in_project id project) rows (item ∷ [])) i
      → Reach (is_trashed id project) rows top i
  unfolding find_trashed_root_by_id
  cascade-Reach (seed i m) = seed i (
      subst (λ j. mem j top ≡ true) (seeds-item (in_project id project) item i rows m)
        (root-seed id project item rows rows r root))
  cascade-Reach (child q i s l) =
      let t = cascade-Reach s in
      child q i t
        (child-trashed id project q i (trashed_ids id project rows) rows (reached-trashed t) h l)

  Reach-cascade :
      {i : ℕ}
      → Reach (is_trashed id project) rows top i
      → Reach (in_project id project) rows (seeds (in_project id project) rows (item ∷ [])) i
  Reach-cascade (seed i m) = seed i (seeds-in_project id project item i rows m)
  Reach-cascade (child q i s l) =
      child q i (Reach-cascade s) (link-in_project id project q i rows l)

  -- Where no live item of the project is below a trashed one, the rows that the deletion of a root of
  -- the trash takes along are the items whose documents are deleted with it.
  pub cascade_iff :
      (i : ℕ)
      → (mem i (cascade_ids id project item rows) ≡ true)
        ↔ (mem i (find_trashed_subtree_ids id project item rows) ≡ true)
  unfolding cascade_ids find_trashed_subtree_ids
  cascade_iff i = (
    (λ m. (subtree_iff (is_trashed id project) rows top i).1 (
        cascade-Reach (
          (subtree_iff (in_project id project) rows (seeds (in_project id project) rows (item ∷ []))
              i).0
            m))),
    (λ m.
        (subtree_iff (in_project id project) rows (seeds (in_project id project) rows (item ∷ []))
            i).1
          (Reach-cascade ((subtree_iff (is_trashed id project) rows top i).0 m))),
  )

-- The items on the board.
abbrev pub on_board : List ItemRow → List ItemRow
on_board rows = filter (λ w. not (is_some w.deleted_at)) rows

abbrev without : List ℕ → List ItemRow → List ItemRow
without ids rows = filter (λ w. not (mem w.item_id ids)) rows

on_board-without :
    (ids : List ℕ) (rows : List ItemRow)
    → All (λ w. mem w.item_id ids ≡ true → is_some w.deleted_at ≡ true) rows
    → on_board (without ids rows) ≡ on_board rows
on_board-without ids [] a = refl
on_board-without ids (w ∷ rows) a = ground (arith, on_board-without ids rows, a.0)

trashed-without :
    (id project i : ℕ) (ids : List ℕ) (rows : List ItemRow)
    → mem i (trashed_ids id project (without ids rows)) ≡ true
    → mem i (trashed_ids id project rows) ≡ true
trashed-without id project i ids [] h = h
trashed-without id project i ids (w ∷ rows) h =
    ground (arith, trashed-without id project i ids rows)

orphans-without :
    (id project : ℕ) (after before ids : List ℕ)
    → ((q : ℕ) → mem q after ≡ true → mem q before ≡ true)
    → (rows : List ItemRow) → any (λ w. is_live id project w && is_child_of before w) rows ≡ false
    → any (λ w. is_live id project w && is_child_of after w) (without ids rows) ≡ false
orphans-without id project after before ids k [] h = refl
orphans-without id project after before ids k (w ∷ rows) h = ground (
  arith,
  orphans-without id project after before ids k rows,
  parent_sub after before w.parent_id k,
)

without-IsTidy : (ids : List ℕ) (rows : List ItemRow) → IsTidy rows → IsTidy (without ids rows)
without-IsTidy ids rows v = (
  UniqueBy-filter same_item (λ w. not (mem w.item_id ids)) rows v.0,
  λ id project.
      orphans-without id project (trashed_ids id project (without ids rows))
        (trashed_ids id project rows) ids (λ q. trashed-without id project q ids rows) rows
        (v.1 id project),
)

delete_item-IsTidy :
    (id project item : ℕ) (rows : List ItemRow)
    → IsTidy rows
    → IsTidy (delete_item id project item rows)
unfolding delete_item
delete_item-IsTidy id project item rows v = without-IsTidy (cascade_ids id project item rows) rows v

cascade-deleted :
    (id project item : ℕ) (rows : List ItemRow) (r : ItemRow)
    → find_trashed_root_by_id id project item rows ≡ some r
    → NoOrphans id project rows
    → (ws : List ItemRow) → All (OnlyOne rows) ws
    → All
        (λ w. mem w.item_id (cascade_ids id project item rows) ≡ true → is_some w.deleted_at ≡ true)
        ws
unfolding find_trashed_subtree_ids
cascade-deleted id project item rows r root h [] a = tt
cascade-deleted id project item rows r root h (w ∷ ws) a = (
  (λ m. ground (
    arith,
    found-test (is_trashed id project) (item ∷ []) rows w a.0
        ((cascade_iff id project item rows r root h w.item_id).0 m),
  )),
  cascade-deleted id project item rows r root h ws a.1,
)

delete_item-on_board :
    (id project item : ℕ) (rows : List ItemRow) (r : ItemRow)
    → find_trashed_root_by_id id project item rows ≡ some r
    → IsTidy rows
    → on_board (delete_item id project item rows) ≡ on_board rows
unfolding delete_item
delete_item-on_board id project item rows r root v =
    on_board-without (cascade_ids id project item rows) rows
      (cascade-deleted id project item rows r root (v.1 id project) rows (All-OnlyOne rows v.0))

-- What the loop leaves.
abbrev pub Spared : List ItemRow → List ItemRow → Type 0
Spared before after = IsTidy after × (on_board after ≡ on_board before)

purge_if_root-Spared :
    (fresh : ℕ → ℕ) (now id project item : ℕ) (o : Option ItemRow) (g : Progress)
    → find_trashed_root_by_id id project item g.stored.items ≡ o
    → IsTidy g.stored.items
    → Spared g.stored.items (purge_if_root fresh now id project item o g).stored.items
unfolding purge
purge_if_root-Spared fresh now id project item none g root v = (v, refl)
purge_if_root-Spared fresh now id project item (some r) g root v = (
  delete_item-IsTidy id project item g.stored.items v,
  delete_item-on_board id project item g.stored.items r root v,
)

pub purge_all-Spared :
    (fresh : ℕ → ℕ) (now id project : ℕ) (seen ids : List ℕ) (g : Progress)
    → IsTidy g.stored.items
    → Spared g.stored.items (purge_all fresh now id project seen ids g).stored.items
unfolding purge_all
purge_all-Spared fresh now id project seen [] g v = (v, refl)
purge_all-Spared fresh now id project seen (i ∷ ids) g v =
    let root = find_trashed_root_by_id id project i g.stored.items in
    let next = purge_if_root fresh now id project i root g in
    let (tidy, kept) = purge_if_root-Spared fresh now id project i root g refl v in
    if_cases (λ (h : Progress). Spared g.stored.items h.stored.items) (mem i seen)
      (purge_all fresh now id project seen ids g)
      (purge_all fresh now id project (i ∷ seen) ids next)
      (λ _. purge_all-Spared fresh now id project seen ids g v)
      (λ _.
        let rest = purge_all-Spared fresh now id project (i ∷ seen) ids next tidy in
        (rest.0, rest.1 ∙ kept))
