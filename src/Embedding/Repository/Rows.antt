-- ===== src/Embedding/Repository/Rows.antt =====
-- Lists of job rows seen through their keys: membership, distinct keys, and counting.
use prism_nestjs.Prelude.{
  ℕ, suc, ◌+◌, ◌≡◌, refl, ◌⊎◌, inl, inr, Bool, true, false, List, [], ◌∷◌, arith, length, filter,
  take, ◌==◌,
}
use prism_nestjs.Embedding.{EmbeddingJobRow}
use prism_nestjs.Embedding.Repository.{is_among}

-- The row stands in the list.
abbrev pub Has : EmbeddingJobRow → List EmbeddingJobRow → Type 0
Has j [] = ⊥
Has j (x ∷ xs) = (x ≡ j) ⊎ Has j xs

-- No two rows have one key.
abbrev pub UniqueIds : List EmbeddingJobRow → Type 0
UniqueIds [] = Unit
UniqueIds (x ∷ xs) = (is_among xs x ≡ false) × UniqueIds xs

pub Has-filter :
    (p : EmbeddingJobRow → Bool) (j : EmbeddingJobRow) (xs : List EmbeddingJobRow)
    → Has j xs
    → p j ≡ true
    → Has j (filter p xs)
Has-filter p j (x ∷ xs) h e = ground (arith, Has-filter p j xs)
Has-filter p j [] h e = h

pub Has-of_filter :
    (p : EmbeddingJobRow → Bool) (j : EmbeddingJobRow) (xs : List EmbeddingJobRow)
    → Has j (filter p xs)
    → Has j xs
Has-of_filter p j [] h = h
Has-of_filter p j (x ∷ xs) h = ground (arith, Has-of_filter p j xs)

pub Has-of_take :
    (n : ℕ) (j : EmbeddingJobRow) (xs : List EmbeddingJobRow) → Has j (take n xs) → Has j xs
Has-of_take n j [] h = h
Has-of_take ℕ.zero j (x ∷ xs) h = absurd h
Has-of_take (suc n) j (x ∷ xs) h = ground (arith, Has-of_take n j xs)

-- A row that stands in the list is among its keys.
pub Has→is_among :
    (j k : EmbeddingJobRow) (xs : List EmbeddingJobRow)
    → Has j xs
    → j.embedding_job_id ≡ k.embedding_job_id
    → is_among xs k ≡ true
Has→is_among j k [] h e = absurd h
Has→is_among j k (x ∷ xs) h e = ground (arith, Has→is_among j k xs)

pub is_among-same_key :
    (xs : List EmbeddingJobRow) (j k : EmbeddingJobRow)
    → j.embedding_job_id ≡ k.embedding_job_id
    → is_among xs j ≡ is_among xs k
is_among-same_key [] j k e = refl
is_among-same_key (x ∷ xs) j k e = ground (arith, is_among-same_key xs j k e)

pub is_among-filter :
    (p : EmbeddingJobRow → Bool) (j : EmbeddingJobRow) (xs : List EmbeddingJobRow)
    → is_among (filter p xs) j ≡ true
    → is_among xs j ≡ true
is_among-filter p j [] h = h
is_among-filter p j (x ∷ xs) h = ground (arith, is_among-filter p j xs)

pub is_among-take :
    (n : ℕ) (j : EmbeddingJobRow) (xs : List EmbeddingJobRow)
    → is_among (take n xs) j ≡ true
    → is_among xs j ≡ true
is_among-take n j [] h = h
is_among-take ℕ.zero j (x ∷ xs) h = cc
is_among-take (suc n) j (x ∷ xs) h = ground (arith, is_among-take n j xs)

pub UniqueIds-filter :
    (p : EmbeddingJobRow → Bool) (xs : List EmbeddingJobRow)
    → UniqueIds xs
    → UniqueIds (filter p xs)
UniqueIds-filter p [] u = tt
UniqueIds-filter p (x ∷ xs) u = ground (arith, UniqueIds-filter p xs u.1, is_among-filter p x xs)

pub UniqueIds-take : (n : ℕ) (xs : List EmbeddingJobRow) → UniqueIds xs → UniqueIds (take n xs)
UniqueIds-take n [] u = tt
UniqueIds-take ℕ.zero (x ∷ xs) u = tt
UniqueIds-take (suc n) (x ∷ xs) u = ground (arith, UniqueIds-take n xs u.1, is_among-take n x xs)

-- Where keys are unique, a row whose key the filter keeps passes the filter's test itself.
pub passes_of_among :
    (p : EmbeddingJobRow → Bool) (j : EmbeddingJobRow) (xs : List EmbeddingJobRow)
    → UniqueIds xs
    → Has j xs
    → is_among (filter p xs) j ≡ true
    → p j ≡ true
passes_of_among p j [] u h e = absurd h
passes_of_among p j (x ∷ xs) u h e = ground (
  arith,
  passes_of_among p j xs u.1,
  is_among-filter p j xs,
  Has→is_among j x xs,
  is_among-same_key xs x j,
)

-- Counting the rows with one key, and those with a key among several.
abbrev key_is : EmbeddingJobRow → EmbeddingJobRow → Bool
key_is c j = c.embedding_job_id == j.embedding_job_id

filter-key_absent :
    (c : EmbeddingJobRow) (xs : List EmbeddingJobRow)
    → is_among xs c ≡ false
    → length (filter (key_is c) xs) ≡ 0
filter-key_absent c [] h = refl
filter-key_absent c (x ∷ xs) h = ground (arith, filter-key_absent c xs)

filter-key_present :
    (c : EmbeddingJobRow) (xs : List EmbeddingJobRow)
    → UniqueIds xs
    → Has c xs
    → length (filter (key_is c) xs) ≡ 1
filter-key_present c [] u h = absurd h
filter-key_present c (x ∷ xs) u h = ground (
  arith,
  filter-key_present c xs u.1,
  filter-key_absent c xs,
  Has→is_among c x xs,
  is_among-same_key xs x c,
)

filter-among_cons :
    (c : EmbeddingJobRow) (cs xs : List EmbeddingJobRow)
    → is_among cs c ≡ false
    → length (filter (is_among (c ∷ cs)) xs)
      ≡ length (filter (key_is c) xs) + length (filter (is_among cs) xs)
filter-among_cons c cs [] h = refl
filter-among_cons c cs (x ∷ xs) h =
    ground (arith, filter-among_cons c cs xs h, is_among-same_key cs c x)

filter-among_nil : (xs : List EmbeddingJobRow) → length (filter (is_among []) xs) ≡ 0
filter-among_nil [] = refl
filter-among_nil (x ∷ xs) = filter-among_nil xs

-- Rows of a table picked by the keys of some of its rows are as many as those.
pub length-filter-is_among :
    (cs xs : List EmbeddingJobRow)
    → UniqueIds xs
    → UniqueIds cs
    → ((j : EmbeddingJobRow) → Has j cs → Has j xs)
    → length (filter (is_among cs) xs) ≡ length cs
length-filter-is_among [] xs u v h = filter-among_nil xs
length-filter-is_among (c ∷ cs) xs u v h = omega (
  arith,
  filter-among_cons c cs xs v.0,
  filter-key_present c xs u (h c (inl refl)),
  length-filter-is_among cs xs u v.1 (λ j m. h j (inr m)),
)
