-- ===== src/WorkItem/Trash/Tidy.antt =====
-- The moves of work items keep every project tidy, not only the one they are made in.
use prism_nestjs.Prelude.{
  ℕ, ◌≡◌, refl, subst, Bool, true, false, ◌&&◌, Option, none, some, List, [], ◌∷◌, any, update, All,
  ◌==◌, arith, Bool-cases, inl, inr,
}
use prism_nestjs.Prelude.Unique.{UniqueBy, UniqueBy-update}
use prism_nestjs.WorkItem.Trash.{
  ItemRow, in_project, is_live, is_trashed, mem, is_child_of, seeds, subtree, with_deleted_at,
  soft_delete_with_descendants, restore_with_descendants, find_trashed_root_by_id,
}
use prism_nestjs.WorkItem.Trash.Subtree.{Reach, seed, child, link, subtree_iff}
use prism_nestjs.WorkItem.Trash.Closure.{
  OnlyOne, All-OnlyOne, same_item, soft_delete-NoOrphans, restore-NoOrphans,
}
use prism_nestjs.WorkItem.Trash.Orphans.{trashed_ids, NoOrphans}

pub link-test :
    (p : ItemRow → Bool) (q i : ℕ) (rows : List ItemRow)
    → link p rows q i ≡ true
    → any (λ u. p u && (u.item_id == i)) rows ≡ true
link-test p q i [] h = cc
link-test p q i (w ∷ rows) h = ground (arith, link-test p q i rows)

pub seeds-test :
    (p : ItemRow → Bool) (ids : List ℕ) (i : ℕ) (rows : List ItemRow)
    → mem i (seeds p rows ids) ≡ true
    → any (λ u. p u && (u.item_id == i)) rows ≡ true
seeds-test p ids i [] h = cc
seeds-test p ids i (w ∷ rows) h = ground (arith, seeds-test p ids i rows)

-- A recursive query gives ids of rows that pass its test.
pub found-test :
    (p : ItemRow → Bool) (ids : List ℕ) (rows : List ItemRow) (w : ItemRow)
    → OnlyOne rows w
    → mem w.item_id (subtree p rows (seeds p rows ids)) ≡ true
    → p w ≡ true
found-test p ids rows w o m = o p (go ((subtree_iff p rows (seeds p rows ids) w.item_id).0 m))
  where
    go :
        {i : ℕ} → Reach p rows (seeds p rows ids) i → any (λ u. p u && (u.item_id == i)) rows ≡ true
    go (seed i h) = seeds-test p ids i rows h
    go (child q i r l) = link-test p q i rows l

All-found :
    (p : ItemRow → Bool) (ids : List ℕ) (rows ws : List ItemRow)
    → All (OnlyOne rows) ws
    → All (λ w. mem w.item_id (subtree p rows (seeds p rows ids)) ≡ true → p w ≡ true) ws
All-found p ids rows [] a = tt
All-found p ids rows (w ∷ ws) a = (found-test p ids rows w a.0, All-found p ids rows ws a.1)

-- A change of rows that pass a test of one project leaves the other projects alone.
module _ (id project : ℕ) (p : ItemRow → Bool) (t : Option ℕ) (found : List ℕ)
    (within : (w : ItemRow) → p w ≡ true → in_project id project w ≡ true) (id' project' : ℕ)
    (other : (id == id') && (project == project') ≡ false) where
  trashed-elsewhere :
      (rows : List ItemRow)
      → All (λ w. mem w.item_id found ≡ true → p w ≡ true) rows
      → trashed_ids id' project' (update (λ w. mem w.item_id found) (with_deleted_at t) rows)
        ≡ trashed_ids id' project' rows
  trashed-elsewhere [] a = refl
  trashed-elsewhere (w ∷ rows) a = ground (arith, trashed-elsewhere rows, a.0, within w)

  orphans-elsewhere :
      (ids : List ℕ) (rows : List ItemRow)
      → All (λ w. mem w.item_id found ≡ true → p w ≡ true) rows
      → any
          (λ w. is_live id' project' w && is_child_of ids w)
          (update (λ w. mem w.item_id found) (with_deleted_at t) rows)
        ≡ any (λ w. is_live id' project' w && is_child_of ids w) rows
  orphans-elsewhere ids [] a = refl
  orphans-elsewhere ids (w ∷ rows) a = ground (arith, orphans-elsewhere ids rows, a.0, within w)

  NoOrphans-elsewhere :
      (rows : List ItemRow)
      → All (λ w. mem w.item_id found ≡ true → p w ≡ true) rows
      → NoOrphans id' project' rows
      → NoOrphans id' project' (update (λ w. mem w.item_id found) (with_deleted_at t) rows)
  NoOrphans-elsewhere rows a h =
      rw (trashed-elsewhere rows a, orphans-elsewhere (trashed_ids id' project' rows) rows a) h

-- Ids are unique, and no project has a live item below a trashed one.
abbrev pub IsTidy : List ItemRow → Type 0
IsTidy rows = UniqueBy same_item rows × ((id project : ℕ) → NoOrphans id project rows)

unique-update :
    (p : ItemRow → Bool) (t : Option ℕ) (rows : List ItemRow)
    → UniqueBy same_item rows
    → UniqueBy same_item (update p (with_deleted_at t) rows)
unique-update p t rows u =
    UniqueBy-update same_item p (with_deleted_at t) (λ a b. refl) (λ a b. refl) rows u

abbrev live_found : ℕ → ℕ → List ℕ → List ItemRow → List ℕ
live_found id project ids rows =
    subtree (is_live id project) rows (seeds (is_live id project) rows ids)

abbrev trashed_found : ℕ → ℕ → ℕ → List ItemRow → List ℕ
trashed_found id project item rows =
    subtree (is_trashed id project) rows (seeds (is_trashed id project) rows (item ∷ []))

-- One project and the others.
each_project :
    (id project : ℕ) (rows : List ItemRow)
    → NoOrphans id project rows
    → ((id' project' : ℕ)
        → (id == id') && (project == project') ≡ false
        → NoOrphans id' project' rows)
    → (id' project' : ℕ) → NoOrphans id' project' rows
each_project id project rows h k id' project' =
    elim (Bool-cases ((id == id') && (project == project'))) [
      | inl same ↦
          let e : id ≡ id' = ground arith in
          let f : project ≡ project' = ground arith in
          subst (λ a. NoOrphans a project' rows) e (subst (λ b. NoOrphans id b rows) f h)
      | inr other ↦ k id' project' other
    ]

pub soft_delete-IsTidy :
    (now id project : ℕ) (ids : List ℕ) (rows : List ItemRow)
    → IsTidy rows
    → IsTidy (soft_delete_with_descendants now id project ids rows)
unfolding soft_delete_with_descendants
soft_delete-IsTidy now id project [] rows v = v
soft_delete-IsTidy now id project (i ∷ ids) rows v = (
  unique-update (λ w. mem w.item_id (live_found id project (i ∷ ids) rows)) (some now) rows v.0,
  each_project id project _ (soft_delete-NoOrphans now id project (i ∷ ids) rows (v.1 id project))
      λ id' project' other.
        NoOrphans-elsewhere id project (is_live id project) (some now)
          (live_found id project (i ∷ ids) rows) (λ w h. ground arith) id' project' other rows
          (All-found (is_live id project) (i ∷ ids) rows rows (All-OnlyOne rows v.0))
          (v.1 id' project'),
)

pub restore-IsTidy :
    (id project item : ℕ) (rows : List ItemRow) (r : ItemRow)
    → find_trashed_root_by_id id project item rows ≡ some r
    → IsTidy rows
    → IsTidy (restore_with_descendants id project item rows)
unfolding restore_with_descendants
restore-IsTidy id project item rows r root v = (
  unique-update (λ w. mem w.item_id (trashed_found id project item rows)) none rows v.0,
  each_project id project _ (restore-NoOrphans id project item rows r v.0 root (v.1 id project))
      λ id' project' other.
        NoOrphans-elsewhere id project (is_trashed id project) none
          (trashed_found id project item rows) (λ w h. ground arith) id' project' other rows
          (All-found (is_trashed id project) (item ∷ []) rows rows (All-OnlyOne rows v.0))
          (v.1 id' project'),
)
