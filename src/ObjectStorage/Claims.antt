-- ===== src/ObjectStorage/Claims.antt =====
-- What a claim takes: pending rows only, which stay hidden until the lease ends.
use mathlib.Core.Bool.{false≢true}
use prism_nestjs.Prelude.{
  subst, ℕ, ◌+◌, ◌*◌, ◌<◌, ◌≡◌, refl, ◌⊎◌, inl, inr, ◌∙◌, sym, Bool, true, false, not, ◌&&◌, ◌||◌,
  List, [], ◌∷◌, map, any, update, ◌==◌, filter, take, arith, Bool-cases,
}
use prism_nestjs.Prelude.Unique.{UniqueBy}
use prism_nestjs.ObjectStorage.Deletion.{
  Deletion, has_id, is_pending, insert_row, sort_rows, claimed_rows, leased, is_among, row_of,
  claim_pending, lease_seconds,
}

abbrev pub same_id : Deletion → Deletion → Bool
same_id a b = has_id a.deletion_id b

-- The rows of a list.
abbrev pub Has : Deletion → List Deletion → Type 0
Has d [] = ⊥
Has d (x ∷ xs) = (d ≡ x) ⊎ Has d xs

any-insert_row :
    (q : Deletion → Bool) (a : Deletion) (rows : List Deletion)
    → any q (insert_row a rows) ≡ q a || any q rows
unfolding insert_row
any-insert_row q a [] = ground arith
any-insert_row q a (b ∷ rows) = ground (arith, any-insert_row q a rows)

any-sort_rows : (q : Deletion → Bool) (rows : List Deletion) → any q (sort_rows rows) ≡ any q rows
unfolding sort_rows
any-sort_rows q [] = refl
any-sort_rows q (a ∷ rows) =
    ground (arith, any-insert_row q a (sort_rows rows), any-sort_rows q rows)

any-take :
    (q : Deletion → Bool) (n : ℕ) (rows : List Deletion)
    → any q (take n rows) ≡ true
    → any q rows ≡ true
any-take q n [] h = ground arith
any-take q ℕ.zero (a ∷ rows) h = ground arith
any-take q (ℕ.suc n) (a ∷ rows) h = ground (arith, any-take q n rows)

any-filter_rows :
    (q p : Deletion → Bool) (rows : List Deletion)
    → any q (filter p rows) ≡ true
    → any q rows ≡ true
any-filter_rows q p [] h = h
any-filter_rows q p (a ∷ rows) h = ground (arith, any-filter_rows q p rows)

Has-any :
    (d : Deletion) (rows : List Deletion) → Has d rows → any (has_id d.deletion_id) rows ≡ true
Has-any d [] h = absurd h
Has-any d (x ∷ rows) (inl e) = ground arith
Has-any d (x ∷ rows) (inr h) = ground (arith, Has-any d rows h)

chosen_head :
    (p : Deletion → Bool) (x : Deletion) (rows : List Deletion)
    → any (same_id x) rows ≡ false
    → any (has_id x.deletion_id) (filter p (x ∷ rows)) ≡ true
    → p x ≡ true
chosen_head p x rows u k = elim (Bool-cases (p x)) [
  | inl met ↦ met
  | inr missed ↦ absurd (ground (arith, any-filter_rows (has_id x.deletion_id) p rows))
]

no_twin :
    (d x : Deletion) (rows : List Deletion)
    → any (same_id x) rows ≡ false
    → Has d rows
    → has_id d.deletion_id x ≡ false
no_twin d x rows u h = elim (Bool-cases (has_id d.deletion_id x)) [
  | inr apart ↦ apart
  | inl same ↦
      let e : x.deletion_id ≡ d.deletion_id = ground arith in
      absurd
        (false≢true (sym u ∙ (subst (λ i. any (has_id i) rows ≡ true) (sym e) (Has-any d rows h))))
]

-- Where ids are unique, a row whose id is among those that were chosen was chosen itself.
chosen :
    (p : Deletion → Bool) (d : Deletion) (rows : List Deletion)
    → UniqueBy same_id rows
    → Has d rows
    → any (has_id d.deletion_id) (filter p rows) ≡ true
    → p d ≡ true
chosen p d [] u h k = absurd h
chosen p d (x ∷ rows) u (inl e) k =
    subst (λ y. p y ≡ true) (sym e)
      (chosen_head p x rows u.0
        (subst (λ y. any (has_id y.deletion_id) (filter p (x ∷ rows)) ≡ true) e k))
chosen p d (x ∷ rows) u (inr h) k =
    let rest : any (has_id d.deletion_id) (filter p rows) ≡ true =
      ground (arith, no_twin d x rows u.0 h) in
    chosen p d rows u.1 h rest

-- An id that is chosen is that of a row that passes the test.
claimed-passed :
    (now i : ℕ) (locked : ℕ → Bool) (rows : List Deletion)
    → any (has_id i) (claimed_rows now locked rows) ≡ true
    → any (has_id i) (filter (λ d. is_pending now d && not (locked d.deletion_id)) rows) ≡ true
unfolding claimed_rows
claimed-passed now i locked rows k =
    let p = λ (d : Deletion). is_pending now d && not (locked d.deletion_id) in
    sym (any-sort_rows (has_id i) (filter p rows))
    ∙ any-take (has_id i) 25 (sort_rows (filter p rows)) k

-- A claimed row was pending.
pub claimed-pending :
    (now : ℕ) (locked : ℕ → Bool) (d : Deletion) (rows : List Deletion)
    → UniqueBy same_id rows
    → Has d rows
    → is_among (claimed_rows now locked rows) d ≡ true
    → is_pending now d ≡ true
unfolding claimed_rows
claimed-pending now locked d rows u h k =
    let p = λ (e : Deletion). is_pending now e && not (locked e.deletion_id) in
    let among : any (has_id d.deletion_id) (filter p rows) ≡ true =
      claimed-passed now d.deletion_id locked rows k in
    let both : p d ≡ true = chosen p d rows u h among in ground arith

-- Nothing that a claim leases passes the test of a claim before the lease ends.
leased-skipped :
    (now later i : ℕ) (locked : ℕ → Bool) (claimed rows : List Deletion)
    → later < now + lease_seconds * 1000
    → any (has_id i) claimed ≡ true
    → any (has_id i) (
        filter
          (λ d. is_pending later d && not (locked d.deletion_id))
          (update (is_among claimed) (leased now) rows))
      ≡ false
unfolding is_pending
leased-skipped now later i locked claimed [] h k = refl
leased-skipped now later i locked claimed (d ∷ rows) h k = elim (Bool-cases (has_id i d)) [
  | inl same ↦
      let e : d.deletion_id ≡ i = ground arith in
      let hit : is_among claimed d ≡ true = subst (λ j. any (has_id j) claimed ≡ true) (sym e) k in
      ground (arith, leased-skipped now later i locked claimed rows h k)
  | inr apart ↦ ground (arith, leased-skipped now later i locked claimed rows h k)
]

-- A returned row is among those that were chosen.
returned-chosen :
    (i : ℕ) (claimed rows : List Deletion)
    → any (λ r. r.deletion_id == i) (map row_of (filter (is_among claimed) rows)) ≡ true
    → any (has_id i) claimed ≡ true
returned-chosen i claimed [] h = cc
returned-chosen i claimed (d ∷ rows) h = elim (Bool-cases (is_among claimed d)) [
  | inr out ↦ returned-chosen i claimed rows (ground arith)
  | inl hit ↦ elim (Bool-cases (has_id i d)) [
    | inl same ↦
        let e : d.deletion_id ≡ i = ground arith in subst (λ j. any (has_id j) claimed ≡ true) e hit
    | inr apart ↦ returned-chosen i claimed rows (ground arith)
  ]
]

-- Until the lease of five minutes ends, no claim on the table that a claim leaves returns a row that
-- the first returned, whatever is locked.
pub claim_pending-leased :
    (now later i : ℕ) (locked locked' : ℕ → Bool) (rows : List Deletion)
    → later < now + lease_seconds * 1000
    → any (λ r. r.deletion_id == i) (claim_pending now locked rows).0 ≡ true
    → any
        (λ r. r.deletion_id == i)
        (claim_pending later locked' (claim_pending now locked rows).1).0
      ≡ false
unfolding claim_pending
claim_pending-leased now later i locked locked' rows h k =
    let claimed = claimed_rows now locked rows in
    let after = update (is_among claimed) (leased now) rows in
    elim (Bool-cases (
      any (λ r. r.deletion_id == i)
        (map row_of (filter (is_among (claimed_rows later locked' after)) after)))) [
          | inr none_again ↦ none_again
          | inl again ↦ absurd (
              false≢true (
                sym (
                  leased-skipped now later i locked' claimed rows h
                    (returned-chosen i claimed rows k))
                ∙ claimed-passed later i locked' after
                    (returned-chosen i (claimed_rows later locked' after) after again)))
        ]
