-- ===== src/Embedding/Repository/Sorting.antt =====
-- The order in which jobs are claimed: the sort behind ORDER BY ... LIMIT.
use prism_nestjs.Prelude.{
  ℕ, suc, ◌≡◌, refl, ◌∙◌, ◌⊎◌, inl, inr, true, false, List, [], ◌∷◌, arith, length, take, All,
}
use prism_nestjs.Embedding.{EmbeddingJobRow}
use prism_nestjs.Embedding.Repository.{comes_first, insert_row, sort_rows, is_among}
use prism_nestjs.Embedding.Repository.Rows.{Has, UniqueIds}

abbrev pub Sorted : List EmbeddingJobRow → Type 0
Sorted [] = Unit
Sorted (a ∷ rows) = All (λ b. comes_first a b ≡ true) rows × Sorted rows

comes_first-total : (a b : EmbeddingJobRow) → comes_first a b ≡ false → comes_first b a ≡ true
unfolding comes_first
comes_first-total a b h = ground arith

comes_first_trans :
    (a b c : EmbeddingJobRow)
    → comes_first a b ≡ true
    → comes_first b c ≡ true
    → comes_first a c ≡ true
unfolding comes_first
comes_first_trans a b c h k = ground arith

All-first_trans :
    (a b : EmbeddingJobRow) (rows : List EmbeddingJobRow)
    → comes_first a b ≡ true
    → All (λ c. comes_first b c ≡ true) rows
    → All (λ c. comes_first a c ≡ true) rows
All-first_trans a b [] h k = tt
All-first_trans a b (c ∷ rows) h k = (comes_first_trans a b c h k.0, All-first_trans a b rows h k.1)

All-insert_row :
    (a b : EmbeddingJobRow) (rows : List EmbeddingJobRow)
    → comes_first a b ≡ true
    → All (λ c. comes_first a c ≡ true) rows
    → All (λ c. comes_first a c ≡ true) (insert_row b rows)
unfolding insert_row
All-insert_row a b [] h k = (h, tt)
All-insert_row a b (c ∷ rows) h k = ground (arith, All-insert_row a b rows h k.1)

insert_row-Sorted :
    (a : EmbeddingJobRow) (rows : List EmbeddingJobRow) → Sorted rows → Sorted (insert_row a rows)
unfolding insert_row
insert_row-Sorted a [] s = (tt, tt)
insert_row-Sorted a (b ∷ rows) s = ground (
  arith,
  insert_row-Sorted a rows s.1,
  All-first_trans a b rows,
  All-insert_row b a rows,
  comes_first-total a b,
)

pub sort_rows-Sorted : (rows : List EmbeddingJobRow) → Sorted (sort_rows rows)
unfolding sort_rows
sort_rows-Sorted [] = tt
sort_rows-Sorted (a ∷ rows) = insert_row-Sorted a (sort_rows rows) (sort_rows-Sorted rows)

Has-insert_row :
    (j a : EmbeddingJobRow) (rows : List EmbeddingJobRow)
    → (a ≡ j) ⊎ Has j rows
    → Has j (insert_row a rows)
unfolding insert_row
Has-insert_row j a [] h = h
Has-insert_row j a (b ∷ rows) h = ground (arith, Has-insert_row j a rows)

pub Has-sort_rows :
    (j : EmbeddingJobRow) (rows : List EmbeddingJobRow) → Has j rows → Has j (sort_rows rows)
unfolding sort_rows
Has-sort_rows j [] h = h
Has-sort_rows j (a ∷ rows) (inl e) = Has-insert_row j a (sort_rows rows) (inl e)
Has-sort_rows j (a ∷ rows) (inr h) =
    Has-insert_row j a (sort_rows rows) (inr (Has-sort_rows j rows h))

Has-of_insert_row :
    (j a : EmbeddingJobRow) (rows : List EmbeddingJobRow)
    → Has j (insert_row a rows)
    → (a ≡ j) ⊎ Has j rows
unfolding insert_row
Has-of_insert_row j a [] h = h
Has-of_insert_row j a (b ∷ rows) h = ground (arith, Has-of_insert_row j a rows)

pub Has-of_sort_rows :
    (j : EmbeddingJobRow) (rows : List EmbeddingJobRow) → Has j (sort_rows rows) → Has j rows
unfolding sort_rows
Has-of_sort_rows j [] h = h
Has-of_sort_rows j (a ∷ rows) h = elim (Has-of_insert_row j a (sort_rows rows) h) [
  | inl e ↦ inl e
  | inr k ↦ inr (Has-of_sort_rows j rows k)
]

is_among-insert_row :
    (j a : EmbeddingJobRow) (rows : List EmbeddingJobRow)
    → is_among (insert_row a rows) j ≡ is_among (a ∷ rows) j
unfolding insert_row
is_among-insert_row j a [] = refl
is_among-insert_row j a (b ∷ rows) = ground (arith, is_among-insert_row j a rows)

pub is_among-sort_rows :
    (j : EmbeddingJobRow) (rows : List EmbeddingJobRow)
    → is_among (sort_rows rows) j ≡ is_among rows j
unfolding sort_rows
is_among-sort_rows j [] = refl
is_among-sort_rows j (a ∷ rows) =
    ground (arith, is_among-insert_row j a (sort_rows rows), is_among-sort_rows j rows)

insert_row-UniqueIds :
    (a : EmbeddingJobRow) (rows : List EmbeddingJobRow)
    → is_among rows a ≡ false
    → UniqueIds rows
    → UniqueIds (insert_row a rows)
unfolding insert_row
insert_row-UniqueIds a [] h u = (refl, tt)
insert_row-UniqueIds a (b ∷ rows) h u =
    ground (arith, insert_row-UniqueIds a rows, is_among-insert_row b a rows)

pub sort_rows-UniqueIds :
    (rows : List EmbeddingJobRow) → UniqueIds rows → UniqueIds (sort_rows rows)
unfolding sort_rows
sort_rows-UniqueIds [] u = tt
sort_rows-UniqueIds (a ∷ rows) u =
    insert_row-UniqueIds a (sort_rows rows) (is_among-sort_rows a rows ∙ u.0)
      (sort_rows-UniqueIds rows u.1)

length-insert_row :
    (a : EmbeddingJobRow) (rows : List EmbeddingJobRow)
    → length (insert_row a rows) ≡ suc (length rows)
unfolding insert_row
length-insert_row a [] = refl
length-insert_row a (b ∷ rows) = ground (arith, length-insert_row a rows)

pub length-sort_rows : (rows : List EmbeddingJobRow) → length (sort_rows rows) ≡ length rows
unfolding sort_rows
length-sort_rows [] = refl
length-sort_rows (a ∷ rows) =
    omega (arith, length-insert_row a (sort_rows rows), length-sort_rows rows)

All-Has :
    (a j : EmbeddingJobRow) (rows : List EmbeddingJobRow)
    → All (λ b. comes_first a b ≡ true) rows
    → Has j rows
    → comes_first a j ≡ true
All-Has a j [] h k = absurd k
All-Has a j (b ∷ rows) h (inl e) = ground arith
All-Has a j (b ∷ rows) h (inr k) = All-Has a j rows h.1 k

-- In a sorted list, all of the first rows come before a row that is not among them.
pub take-first :
    (n : ℕ) (j : EmbeddingJobRow) (rows : List EmbeddingJobRow)
    → Sorted rows
    → Has j rows
    → is_among (take n rows) j ≡ false
    → All (λ c. comes_first c j ≡ true) (take n rows)
take-first n j [] s h e = tt
take-first ℕ.zero j (a ∷ rows) s h e = tt
take-first (suc n) j (a ∷ rows) s (inl p) e = ground arith
take-first (suc n) j (a ∷ rows) s (inr h) e =
    (All-Has a j rows s.0 h, take-first n j rows s.1 h (ground arith))
