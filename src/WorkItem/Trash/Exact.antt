-- ===== src/WorkItem/Trash/Exact.antt =====
-- Which rows a move to the trash changes, and which a restoration, said without the queries.
use prism_nestjs.Prelude.{
  ℕ, ◌≡◌, refl, sym, subst, ◌⊎◌, inl, inr, Bool, true, false, ◌&&◌, Option, none, some, List, [],
  ◌∷◌, any, update, ◌==◌, is_some, arith, Bool-cases,
}
use prism_nestjs.WorkItem.Trash.{
  ItemRow, is_live, is_trashed, mem, parent_in, is_child_of, seeds, subtree, with_deleted_at,
  soft_delete_with_descendants, restore_with_descendants,
}
use prism_nestjs.WorkItem.Trash.Subtree.{Reach, seed, child, subtree_iff}
use mathlib.Core.Bool.{false≢true}
use prism_nestjs.Prelude.{◌∙◌}

abbrev pub Has : {A : Type 0} → A → List A → Type 0
Has a [] = ⊥
Has a (x ∷ xs) = (x ≡ a) ⊎ Has a xs

-- A row of the project that is in the trash, or that is not.
abbrev pub Stands : Bool → ℕ → ℕ → ItemRow → Type 0
Stands trashed id project w =
    (w.workspace_id ≡ id) × (w.project_id ≡ project) × (is_some w.deleted_at ≡ trashed)

-- The items asked for and those below them, each reached through such rows.
pub data Below (trashed : Bool) (id project : ℕ) (rows : List ItemRow) (ids : List ℕ)
    : ℕ → Type 0 where
  asked :
      (w : ItemRow)
      → Has w rows
      → Stands trashed id project w
      → Has w.item_id ids
      → Below trashed id project rows ids w.item_id
  under :
      (w : ItemRow) (q : ℕ)
      → Below trashed id project rows ids q
      → Has w rows
      → Stands trashed id project w
      → w.parent_id ≡ some q
      → Below trashed id project rows ids w.item_id

any-Has :
    {A : Type 0} (f : A → Bool) (xs : List A) → any f xs ≡ true → (x : A) × Has x xs × (f x ≡ true)
any-Has f [] h = cc
any-Has f (x ∷ xs) h = elim (Bool-cases (f x)) [
  | inl e ↦ (x, inl refl, e)
  | inr e ↦ let (y, m, k) = any-Has f xs (ground arith) in (y, inr m, k)
]

Has-any :
    {A : Type 0} (f : A → Bool) (a : A) (xs : List A) → Has a xs → f a ≡ true → any f xs ≡ true
Has-any f a [] h k = absurd h
Has-any f a (x ∷ xs) (inl e) k =
    let hit : f x ≡ true = subst (λ y. f y ≡ true) (sym e) k in ground arith
Has-any f a (x ∷ xs) (inr h) k = ground (arith, Has-any f a xs h k)

mem-Has : (i : ℕ) (xs : List ℕ) → mem i xs ≡ true → Has i xs
mem-Has i [] h = cc
mem-Has i (x ∷ xs) h = ground (arith, mem-Has i xs)

Has-mem : (i : ℕ) (xs : List ℕ) → Has i xs → mem i xs ≡ true
Has-mem i xs h = Has-any (λ j. j == i) i xs h (ground arith)

only-parent : (q : ℕ) (o : Option ℕ) → parent_in (q ∷ []) o ≡ true → o ≡ some q
only-parent q none h = cc
only-parent q (some r) h = ground arith

parent-only : (q : ℕ) (o : Option ℕ) → o ≡ some q → parent_in (q ∷ []) o ≡ true
parent-only q none h = cc
parent-only q (some r) h = ground arith

seed_row :
    (p : ItemRow → Bool) (ids : List ℕ) (i : ℕ) (rows : List ItemRow)
    → mem i (seeds p rows ids) ≡ true
    → any (λ w. p w && mem w.item_id ids && (w.item_id == i)) rows ≡ true
seed_row p ids i [] h = cc
seed_row p ids i (w ∷ rows) h = ground (arith, seed_row p ids i rows)

row_seed :
    (p : ItemRow → Bool) (ids : List ℕ) (i : ℕ) (rows : List ItemRow)
    → any (λ w. p w && mem w.item_id ids && (w.item_id == i)) rows ≡ true
    → mem i (seeds p rows ids) ≡ true
row_seed p ids i [] h = cc
row_seed p ids i (w ∷ rows) h = ground (arith, row_seed p ids i rows)

module _ (p : ItemRow → Bool) (trashed : Bool) (id project : ℕ)
    (passes : (w : ItemRow) → p w ≡ true → Stands trashed id project w)
    (passed : (w : ItemRow) → Stands trashed id project w → p w ≡ true) (rows : List ItemRow)
    (ids : List ℕ) where
  Reach-Below : {i : ℕ} → Reach p rows (seeds p rows ids) i → Below trashed id project rows ids i
  Reach-Below (seed i h) =
      let (w, m, k) =
        any-Has (λ w. p w && mem w.item_id ids && (w.item_id == i)) rows
          (seed_row p ids i rows h) in
      let e : w.item_id ≡ i = ground arith in
      subst (Below trashed id project rows ids) e
        (asked w m (passes w (ground arith)) (mem-Has w.item_id ids (ground arith)))
  Reach-Below (child q i r l) =
      let (w, m, k) = any-Has (λ w. p w && is_child_of (q ∷ []) w && (w.item_id == i)) rows l in
      let e : w.item_id ≡ i = ground arith in
      subst (Below trashed id project rows ids) e (
        under w q (Reach-Below r) m (passes w (ground arith))
          (only-parent q w.parent_id (ground arith)))

  Below-Reach : {i : ℕ} → Below trashed id project rows ids i → Reach p rows (seeds p rows ids) i
  Below-Reach (asked w m s h) = seed w.item_id (
      row_seed p ids w.item_id rows (
        Has-any (λ v. p v && mem v.item_id ids && (v.item_id == w.item_id)) w rows m
          (ground (arith, passed w s, Has-mem w.item_id ids h))))
  Below-Reach (under w q b m s e) = child q w.item_id (Below-Reach b) (
      Has-any (λ v. p v && is_child_of (q ∷ []) v && (v.item_id == w.item_id)) w rows m
        (ground (arith, passed w s, parent-only q w.parent_id e)))

-- The rows after a change: those at and below the items asked for have the new time of deletion, all
-- others are as they were.
abbrev pub Moved : (ℕ → Type 0) → Option ℕ → List ItemRow → List ItemRow → Type 0
Moved B t [] [] = Unit
Moved B t (w ∷ ws) (v ∷ vs) =
    ((B w.item_id × (v ≡ record w { deleted_at = t })) ⊎ ((B w.item_id → ⊥) × (v ≡ w)))
    × Moved B t ws vs
Moved B t _ _ = ⊥

update-Moved :
    (B : ℕ → Type 0) (t : Option ℕ) (found : List ℕ) (ws : List ItemRow)
    → ((i : ℕ) → mem i found ≡ true → B i)
    → ((i : ℕ) → B i → mem i found ≡ true)
    → Moved B t ws (update (λ w. mem w.item_id found) (with_deleted_at t) ws)
update-Moved B t found [] f g = tt
update-Moved B t found (w ∷ ws) f g = elim (Bool-cases (mem w.item_id found)) [
  | inl e ↦ rw (e, update) (inl (f w.item_id e, refl), update-Moved B t found ws f g)
  | inr e ↦
      rw (e, update)
        (inr ((λ b. false≢true (sym e ∙ g w.item_id b)), refl), update-Moved B t found ws f g)
]

none_asked :
    {trashed : Bool} {id project : ℕ} {rows : List ItemRow} {i : ℕ}
    → Below trashed id project rows [] i
    → ⊥
none_asked (asked w m s h) = h
none_asked (under w q b m s e) = none_asked b

same-Moved :
    (B : ℕ → Type 0) (t : Option ℕ) (ws : List ItemRow) → ((i : ℕ) → B i → ⊥) → Moved B t ws ws
same-Moved B t [] n = tt
same-Moved B t (w ∷ ws) n = (inr (n w.item_id, refl), same-Moved B t ws n)

query-Moved :
    (p : ItemRow → Bool) (trashed : Bool) (id project : ℕ) (t : Option ℕ) (ids : List ℕ)
    (rows : List ItemRow)
    → ((w : ItemRow) → p w ≡ true → Stands trashed id project w)
    → ((w : ItemRow) → Stands trashed id project w → p w ≡ true)
    → Moved
        (Below trashed id project rows ids)
        t
        rows
        (update (λ w. mem w.item_id (subtree p rows (seeds p rows ids))) (with_deleted_at t) rows)
query-Moved p trashed id project t ids rows f g =
    update-Moved (Below trashed id project rows ids) t (subtree p rows (seeds p rows ids)) rows
      (λ i m.
        Reach-Below p trashed id project f g rows ids
          ((subtree_iff p rows (seeds p rows ids) i).0 m))
      (λ i b.
        (subtree_iff p rows (seeds p rows ids) i).1
          (Below-Reach p trashed id project f g rows ids b))

soft_delete-Moved :
    (now id project : ℕ) (ids : List ℕ) (rows : List ItemRow)
    → Moved
        (Below false id project rows ids)
        (some now)
        rows
        (soft_delete_with_descendants now id project ids rows)
unfolding soft_delete_with_descendants
soft_delete-Moved now id project [] rows =
    same-Moved (Below false id project rows []) (some now) rows (λ i b. none_asked b)
soft_delete-Moved now id project (i ∷ ids) rows =
    query-Moved (is_live id project) false id project (some now) (i ∷ ids) rows
      (λ w h. (ground arith, ground arith, ground arith)) (λ w s. ground arith)

restore-Moved :
    (id project item : ℕ) (rows : List ItemRow)
    → Moved
        (Below true id project rows (item ∷ []))
        none
        rows
        (restore_with_descendants id project item rows)
unfolding restore_with_descendants
restore-Moved id project item rows =
    query-Moved (is_trashed id project) true id project none (item ∷ []) rows
      (λ w h. (ground arith, ground arith, ground arith)) (λ w s. ground arith)

-- A move to the trash stamps exactly the rows with the id of an item asked for, or of one below it,
-- that is reached through rows of the project that are not in the trash. A restoration clears
-- exactly those reached so through rows in the trash. All other rows stay as they are.
pub moves_exactly :
    (now id project item : ℕ) (ids : List ℕ) (rows : List ItemRow)
    → Moved
        (Below false id project rows ids)
        (some now)
        rows
        (soft_delete_with_descendants now id project ids rows)
      × Moved
          (Below true id project rows (item ∷ []))
          none
          rows
          (restore_with_descendants id project item rows)
moves_exactly now id project item ids rows =
    (soft_delete-Moved now id project ids rows, restore-Moved id project item rows)
