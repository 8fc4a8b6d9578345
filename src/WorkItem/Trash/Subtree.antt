-- ===== src/WorkItem/Trash/Subtree.antt =====
-- A recursive query against reachability from its seeds.
use prism_nestjs.Prelude.{
  ℕ, zero, suc, ◌+◌, ◌≤◌, ◌≡◌, refl, ◌↔◌, Bool, true, not, ◌&&◌, ◌||◌, Option, none, some, List, [],
  ◌∷◌, ◌++◌, any, filter, length, length-filter, All, ◌==◌, subst, arith, Bool-cases, List-cases,
  sym, ◌∙◌, inl, inr,
}
use mathlib.Core.Bool.{false≢true}
use prism_nestjs.WorkItem.Trash.{
  ItemRow, mem, parent_in, is_child_of, is_new, new_ids, grow, subtree,
}

-- A row that passes the test has the parent `q` and the id given.
abbrev pub link : (ItemRow → Bool) → List ItemRow → ℕ → ℕ → Bool
link p rows q id = any (λ w. p w && is_child_of (q ∷ []) w && (w.item_id == id)) rows

-- The descendants of the seeds, over rows that pass the test.
pub data Reach (p : ItemRow → Bool) (rows : List ItemRow) (seeds : List ℕ) : ℕ → Type 0 where
  seed : (id : ℕ) → mem id seeds ≡ true → Reach p rows seeds id
  child : (q id : ℕ) → Reach p rows seeds q → link p rows q id ≡ true → Reach p rows seeds id

mem-append : (i : ℕ) (xs ys : List ℕ) → mem i (xs ++ ys) ≡ mem i xs || mem i ys
mem-append i [] ys = refl
mem-append i (x ∷ xs) ys = ground (arith, mem-append i xs ys)

-- A child of what was found has one of these as its parent.
parent_of :
    (found : List ℕ) (o : Option ℕ)
    → parent_in found o ≡ true
    → (q : ℕ) × (mem q found ≡ true) × (parent_in (q ∷ []) o ≡ true)
parent_of found none h = cc
parent_of found (some q) h = (q, h, ground arith)

pub parent_found :
    (found : List ℕ) (q : ℕ) (o : Option ℕ)
    → parent_in (q ∷ []) o ≡ true
    → mem q found ≡ true
    → parent_in found o ≡ true
parent_found found q none h m = cc
parent_found found q (some r) h m =
    let e : q ≡ r = ground arith in subst (λ x. mem x found ≡ true) e m

module _ (p : ItemRow → Bool) where
  -- A new id is that of a child of what was found.
  new-link :
      (found : List ℕ) (id : ℕ) (rows : List ItemRow)
      → mem id (new_ids p rows found) ≡ true
      → (q : ℕ) × (mem q found ≡ true) × (link p rows q id ≡ true)
  new-link found id [] h = cc
  new-link found id (w ∷ rows) h = elim (Bool-cases (is_new p found w)) [
    | inr n ↦ let (q, m, l) = new-link found id rows (ground arith) in (q, m, ground arith)
    | inl n ↦ elim (Bool-cases (w.item_id == id)) [
      | inl e ↦ let (q, m, c) = parent_of found w.parent_id (ground arith) in (q, m, ground arith)
      | inr e ↦ let (q, m, l) = new-link found id rows (ground arith) in (q, m, ground arith)
    ]
  ]

  -- A round that adds nothing leaves no child out.
  none_new :
      (found : List ℕ) (q id : ℕ) (rows : List ItemRow)
      → new_ids p rows found ≡ []
      → mem q found ≡ true
      → link p rows q id ≡ true
      → mem id found ≡ true
  none_new found q id [] n m l = cc
  none_new found q id (w ∷ rows) n m l =
      ground (arith, none_new found q id rows, parent_found found q w.parent_id)

  -- The rows that may still be added.
  abbrev left_out : List ItemRow → List ℕ → ℕ
  left_out rows found = length (filter (λ w. p w && not (mem w.item_id found)) rows)

  -- The rows of a round, where `ids` has their ids.
  round :
      (found ids : List ℕ) (rows : List ItemRow)
      → All (λ w. is_new p found w ≡ true → mem w.item_id ids ≡ true) rows
      → left_out rows (found ++ ids) + length (new_ids p rows found) ≤ left_out rows found
  round found ids [] h = ground arith
  round found ids (w ∷ rows) h =
      ground (arith, round found ids rows h.1, h.0, mem-append w.item_id found ids)

  keep_ids :
      (found : List ℕ) (i : ℕ) (ids : List ℕ) (rows : List ItemRow)
      → All (λ w. is_new p found w ≡ true → mem w.item_id ids ≡ true) rows
      → All (λ w. is_new p found w ≡ true → mem w.item_id (i ∷ ids) ≡ true) rows
  keep_ids found i ids [] h = tt
  keep_ids found i ids (w ∷ rows) h = (λ n. ground (arith, h.0 n), keep_ids found i ids rows h.1)

  All-new_ids :
      (found : List ℕ) (rows : List ItemRow)
      → All (λ w. is_new p found w ≡ true → mem w.item_id (new_ids p rows found) ≡ true) rows
  All-new_ids found [] = tt
  All-new_ids found (w ∷ rows) = elim (Bool-cases (is_new p found w)) [
    | inl y ↦
        let e : w.item_id ∷ new_ids p rows found ≡ new_ids p (w ∷ rows) found = rw y refl in
        (
          (λ _. ground (arith, e)),
          subst (λ ids. All (λ v. is_new p found v ≡ true → mem v.item_id ids ≡ true) rows) e
              (keep_ids found w.item_id (new_ids p rows found) rows (All-new_ids found rows)),
        )
    | inr n ↦
        let e : new_ids p rows found ≡ new_ids p (w ∷ rows) found = rw n refl in
        (
          (λ y. absurd (false≢true (sym n ∙ y))),
          subst (λ ids. All (λ v. is_new p found v ≡ true → mem v.item_id ids ≡ true) rows) e
              (All-new_ids found rows),
        )
  ]

module _ (p : ItemRow → Bool) (rows : List ItemRow) where
  grow-stop :
      (n : ℕ) (found : List ℕ) → new_ids p rows found ≡ [] → grow p rows (suc n) found ≡ found
  unfolding grow
  grow-stop n found e = rw (grow, e) refl

  grow-more :
      (n : ℕ) (found : List ℕ) (i : ℕ) (ids : List ℕ)
      → new_ids p rows found ≡ i ∷ ids
      → grow p rows (suc n) found ≡ grow p rows n (found ++ new_ids p rows found)
  unfolding grow
  grow-more n found i ids e = rw (grow, e) refl

  -- A round that adds rows leaves fewer out.
  fewer :
      (n : ℕ) (found : List ℕ) (i : ℕ) (ids : List ℕ)
      → new_ids p rows found ≡ i ∷ ids
      → left_out p rows found ≤ suc n
      → left_out p rows (found ++ new_ids p rows found) ≤ n
  fewer n found i ids e h =
      ground (arith, round p found (new_ids p rows found) rows (All-new_ids p found rows), e)

  -- Nothing is left to add.
  grow-done :
      (n : ℕ) (found : List ℕ)
      → left_out p rows found ≤ n
      → new_ids p rows (grow p rows n found) ≡ []
  unfolding grow
  grow-done zero found h = elim (List-cases (new_ids p rows found)) [
    | inl e ↦ e
    | inr (i, ids, e) ↦
        ground (arith, round p found (new_ids p rows found) rows (All-new_ids p found rows), e)
  ]
  grow-done (suc n) found h = elim (List-cases (new_ids p rows found)) [
    | inl e ↦ rw (grow-stop n found e) e
    | inr (i, ids, e) ↦
        rw (grow-more n found i ids e)
          (grow-done n (found ++ new_ids p rows found) (fewer n found i ids e h))
  ]

  new_Reach :
      (seeds found : List ℕ)
      → ((id : ℕ) → mem id found ≡ true → Reach p rows seeds id)
      → (id : ℕ) → mem id (found ++ new_ids p rows found) ≡ true
      → Reach p rows seeds id
  new_Reach seeds found r id h = elim (Bool-cases (mem id found)) [
    | inl y ↦ r id y
    | inr n ↦
        let (q, m, l) =
          new-link p found id rows (ground (arith, mem-append id found (new_ids p rows found))) in
        child q id (r q m) l
  ]

  grow-Reach :
      (seeds : List ℕ) (n : ℕ) (found : List ℕ)
      → ((id : ℕ) → mem id found ≡ true → Reach p rows seeds id)
      → (id : ℕ) → mem id (grow p rows n found) ≡ true
      → Reach p rows seeds id
  unfolding grow
  grow-Reach seeds zero found r id h = r id h
  grow-Reach seeds (suc n) found r id h = elim (List-cases (new_ids p rows found)) [
    | inl e ↦ r id (subst (λ xs. mem id xs ≡ true) (grow-stop n found e) h)
    | inr (i, ids, e) ↦
        grow-Reach seeds n (found ++ new_ids p rows found) (new_Reach seeds found r) id
          (subst (λ xs. mem id xs ≡ true) (grow-more n found i ids e) h)
  ]

  grow-found :
      (n : ℕ) (found : List ℕ) (id : ℕ) → mem id found ≡ true → mem id (grow p rows n found) ≡ true
  unfolding grow
  grow-found zero found id h = h
  grow-found (suc n) found id h = elim (List-cases (new_ids p rows found)) [
    | inl e ↦ rw (grow-stop n found e) h
    | inr (i, ids, e) ↦ rw (grow-more n found i ids e) (
        grow-found n (found ++ new_ids p rows found) id
          (ground (arith, mem-append id found (new_ids p rows found))))
  ]

  pub subtree-closed : (seeds : List ℕ) → new_ids p rows (subtree p rows seeds) ≡ []
  unfolding subtree
  subtree-closed seeds =
      grow-done (length rows) seeds (length-filter (λ w. p w && not (mem w.item_id seeds)) rows)

  -- A recursive query gives exactly the descendants of its seeds: the rounds it may take are enough.
  pub subtree_iff :
      (seeds : List ℕ) (id : ℕ) → (mem id (subtree p rows seeds) ≡ true) ↔ Reach p rows seeds id
  unfolding subtree
  subtree_iff seeds id = (grow-Reach seeds (length rows) seeds (λ i h. seed i h) id, found_all)
    where
      found_all : {i : ℕ} → Reach p rows seeds i → mem i (grow p rows (length rows) seeds) ≡ true
      found_all (seed i h) = grow-found (length rows) seeds i h
      found_all (child q i r l) =
          none_new p (grow p rows (length rows) seeds) q i rows (subtree-closed seeds) (found_all r)
            l
