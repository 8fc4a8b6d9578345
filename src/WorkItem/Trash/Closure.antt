-- ===== src/WorkItem/Trash/Closure.antt =====
-- No item of the board hangs below an item in the trash.
use prism_nestjs.Prelude.{
  ℕ, ◌≡◌, refl, sym, subst, Bool, true, false, ◌&&◌, Option, none, some, List, [], ◌∷◌, any, find,
  update, All, ◌==◌, arith, ==_iff,
}
use prism_nestjs.Prelude.Unique.{UniqueBy}
use prism_nestjs.WorkItem.Trash.{
  ItemRow, is_live, is_trashed, mem, parent_in, is_child_of, seeds, subtree, with_deleted_at,
  soft_delete_with_descendants, restore_with_descendants, no_trashed_parent, has_no_trashed_parent,
  find_trashed_root_by_id,
}
use prism_nestjs.WorkItem.Trash.Subtree.{Reach, seed, child, subtree_iff, subtree-closed}
use prism_nestjs.WorkItem.Trash.Orphans.{
  trashed_ids, NoOrphans, stamped, trashed-stamped, stamped-NoOrphans,
}

abbrev pub same_item : ItemRow → ItemRow → Bool
same_item a b = a.item_id == b.item_id

-- A row is the only one with its id.
abbrev pub OnlyOne : List ItemRow → ItemRow → Type 0
OnlyOne rows w =
    (f : ItemRow → Bool) → any (λ u. f u && (u.item_id == w.item_id)) rows ≡ true → f w ≡ true

any-same :
    (f : ItemRow → Bool) (x : ItemRow) (rows : List ItemRow)
    → any (λ u. f u && (u.item_id == x.item_id)) rows ≡ true
    → any (same_item x) rows ≡ true
any-same f x [] h = cc
any-same f x (w ∷ rows) h = ground (arith, any-same f x rows)

OnlyOne-cons :
    (x : ItemRow) (xs rows : List ItemRow)
    → any (same_item x) rows ≡ false
    → All (OnlyOne xs) rows
    → All (OnlyOne (x ∷ xs)) rows
OnlyOne-cons x xs [] h a = tt
OnlyOne-cons x xs (w ∷ rows) h a =
    ((λ f e. a.0 f (ground arith)), OnlyOne-cons x xs rows (ground arith) a.1)

pub All-OnlyOne : (rows : List ItemRow) → UniqueBy same_item rows → All (OnlyOne rows) rows
All-OnlyOne [] u = tt
All-OnlyOne (x ∷ rows) u = (
  (λ f e. ground (arith, any-same f x rows)),
  OnlyOne-cons x rows rows u.0 (All-OnlyOne rows u.1),
)

any_assoc :
    (p c e : ItemRow → Bool) (rows : List ItemRow)
    → any (λ w. p w && c w && e w) rows ≡ any (λ w. (p w && c w) && e w) rows
any_assoc p c e [] = refl
any_assoc p c e (w ∷ rows) = ground (arith, any_assoc p c e rows)

find-any :
    (p e c : ItemRow → Bool) (r : ItemRow) (rows : List ItemRow)
    → find (λ w. p w && e w && c w) rows ≡ some r
    → any (λ w. (p w && c w) && e w) rows ≡ true
find-any p e c r [] h = cc
find-any p e c r (w ∷ rows) h = ground (arith, find-any p e c r rows)

pub parent_sub :
    (after before : List ℕ) (o : Option ℕ)
    → ((q : ℕ) → mem q after ≡ true → mem q before ≡ true)
    → parent_in after o ≡ true
    → parent_in before o ≡ true
parent_sub after before none k h = cc
parent_sub after before (some q) k h = k q h

module _ (id project : ℕ) (found : List ℕ) where
  abbrev cleared : List ItemRow → List ItemRow
  cleared rows = update (λ w. mem w.item_id found) (with_deleted_at none) rows

  same_mem : (a b : ℕ) → (a == b) ≡ true → mem a found ≡ mem b found
  same_mem a b h = rw ((==_iff a b).0 h) refl

  trashed-cleared :
      (q : ℕ) (rows : List ItemRow)
      → mem q (trashed_ids id project (cleared rows)) ≡ true
      → (mem q (trashed_ids id project rows) ≡ true) × (mem q found ≡ false)
  trashed-cleared q [] h = cc
  trashed-cleared q (w ∷ rows) h = ground (arith, trashed-cleared q rows, same_mem w.item_id q)

  cleared-NoOrphans :
      (after before : List ℕ)
      → ((q : ℕ) → mem q after ≡ true → mem q before ≡ true)
      → (rows : List ItemRow) → any (λ w. is_live id project w && is_child_of before w) rows ≡ false
      → All (λ w. mem w.item_id found ≡ true → parent_in after w.parent_id ≡ false) rows
      → any (λ w. is_live id project w && is_child_of after w) (cleared rows) ≡ false
  cleared-NoOrphans after before k [] h a = refl
  cleared-NoOrphans after before k (w ∷ rows) h a =
      ground
        (arith, cleared-NoOrphans after before k rows, parent_sub after before w.parent_id k, a.0)

module _ (now id project : ℕ) where
  -- Moving items to the trash leaves no live item below a trashed one, where there was none.
  pub soft_delete-NoOrphans :
      (ids : List ℕ) (rows : List ItemRow)
      → NoOrphans id project rows
      → NoOrphans id project (soft_delete_with_descendants now id project ids rows)
  unfolding soft_delete_with_descendants
  soft_delete-NoOrphans [] rows h = h
  soft_delete-NoOrphans (i ∷ ids) rows h =
      let p = is_live id project in
      let found = subtree p rows (seeds p rows (i ∷ ids)) in
      stamped-NoOrphans id project now found
        (trashed_ids id project (stamped id project now found rows)) (trashed_ids id project rows)
        (λ q. trashed-stamped id project now found q rows) rows h
        (subtree-closed p rows (seeds p rows (i ∷ ids)))

pub seeds-item :
    (p : ItemRow → Bool) (item i : ℕ) (rows : List ItemRow)
    → mem i (seeds p rows (item ∷ [])) ≡ true
    → item ≡ i
seeds-item p item i [] h = cc
seeds-item p item i (w ∷ rows) h = ground (arith, seeds-item p item i rows)

-- The parent test of a root, by the ids in the trash.
pub any-trashed :
    (id project q : ℕ) (rows : List ItemRow)
    → any (λ v. is_trashed id project v && (v.item_id == q)) rows
      ≡ mem q (trashed_ids id project rows)
any-trashed id project q [] = refl
any-trashed id project q (w ∷ rows) = ground (arith, any-trashed id project q rows)

root_parent :
    (id project : ℕ) (rows : List ItemRow) (o : Option ℕ)
    → no_trashed_parent id project rows o ≡ true
    → parent_in (trashed_ids id project rows) o ≡ false
root_parent id project rows none h = refl
root_parent id project rows (some q) h = ground (arith, any-trashed id project q rows)

parent_only :
    (q : ℕ) (ids : List ℕ) (o : Option ℕ)
    → parent_in (q ∷ []) o ≡ true
    → mem q ids ≡ false
    → parent_in ids o ≡ false
parent_only q ids none h m = refl
parent_only q ids (some r) h m = rw (sym ((==_iff q r).0 (ground arith))) m

module _ (id project item : ℕ) (rows : List ItemRow) (r : ItemRow) (u : UniqueBy same_item rows)
    (root : find_trashed_root_by_id id project item rows ≡ some r) where
  abbrev restored_ids : List ℕ
  restored_ids =
      subtree (is_trashed id project) rows (seeds (is_trashed id project) rows (item ∷ []))

  abbrev in_trash : List ℕ
  in_trash = trashed_ids id project (cleared id project restored_ids rows)

  q_found :
      (q : ℕ)
      → Reach (is_trashed id project) rows (seeds (is_trashed id project) rows (item ∷ [])) q
      → mem q restored_ids ≡ true
  q_found q s =
      (subtree_iff (is_trashed id project) rows (seeds (is_trashed id project) rows (item ∷ []))
          q).1
        s

  cleared_parent :
      (o : Option ℕ)
      → parent_in (trashed_ids id project rows) o ≡ false
      → parent_in in_trash o ≡ false
  cleared_parent o h = ground (
    arith,
    parent_sub in_trash (trashed_ids id project rows) o
        (λ q k. (trashed-cleared id project restored_ids q rows k).0),
  )

  no_parent_at :
      (w : ItemRow)
      → (is_trashed id project w && has_no_trashed_parent rows w) ≡ true
      → no_trashed_parent id project rows w.parent_id ≡ true
  no_parent_at w h =
      let e : w.workspace_id ≡ id = ground arith in
      let f : w.project_id ≡ project = ground arith in rw (sym e, sym f) (ground arith)

  -- The parent of a restored item is restored or not in the trash.
  restored_parent :
      (w : ItemRow)
      → OnlyOne rows w
      → mem w.item_id restored_ids ≡ true
      → parent_in in_trash w.parent_id ≡ false
  unfolding find_trashed_root_by_id
  restored_parent w o m = go (
      (subtree_iff (is_trashed id project) rows (seeds (is_trashed id project) rows (item ∷ []))
          w.item_id).0
        m)
    where
      go :
          Reach
            (is_trashed id project)
            rows
            (seeds (is_trashed id project) rows (item ∷ []))
            w.item_id
          → parent_in in_trash w.parent_id ≡ false
      go (seed _ h) =
          let e : item ≡ w.item_id = seeds-item (is_trashed id project) item w.item_id rows h in
          let f : (is_trashed id project w && has_no_trashed_parent rows w) ≡ true =
            o (λ v. is_trashed id project v && has_no_trashed_parent rows v)
              (subst
                (λ i.
                  any
                    (λ v.
                      (is_trashed id project v && has_no_trashed_parent rows v) && (v.item_id == i))
                    rows
                  ≡ true)
                e
                (find-any (is_trashed id project) (λ v. v.item_id == item)
                  (has_no_trashed_parent rows) r rows root)) in
          cleared_parent w.parent_id (root_parent id project rows w.parent_id (no_parent_at w f))
      go (child q _ s l) =
          let c : is_trashed id project w && is_child_of (q ∷ []) w ≡ true =
            o (λ v. is_trashed id project v && is_child_of (q ∷ []) v)
              (rw
                (sym (
                  any_assoc (is_trashed id project) (is_child_of (q ∷ []))
                    (λ v. v.item_id == w.item_id) rows))
                l) in
          parent_only q in_trash w.parent_id (ground arith)
            (ground (arith, trashed-cleared id project restored_ids q rows, q_found q s))

  restored_parents :
      (ws : List ItemRow)
      → All (OnlyOne rows) ws
      → All (λ w. mem w.item_id restored_ids ≡ true → parent_in in_trash w.parent_id ≡ false) ws
  restored_parents [] a = tt
  restored_parents (w ∷ ws) a = (restored_parent w a.0, restored_parents ws a.1)

  -- Where ids are unique, restoring a root of the trash leaves no live item below a trashed one,
  -- where there was none.
  pub restore-NoOrphans :
      NoOrphans id project rows
      → NoOrphans id project (restore_with_descendants id project item rows)
  unfolding restore_with_descendants
  restore-NoOrphans h =
      cleared-NoOrphans id project restored_ids in_trash (trashed_ids id project rows)
        (λ q k. (trashed-cleared id project restored_ids q rows k).0) rows h
        (restored_parents rows (All-OnlyOne rows u))
