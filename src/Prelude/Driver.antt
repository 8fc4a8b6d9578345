-- ===== src/Prelude/Driver.antt =====
-- What a call of `query` resolves to where the statement is an UPDATE or a DELETE with RETURNING:
-- the rows alone, as the type argument of each call declares, or the pair of the rows and their
-- count, as src/core/object-storage/object-storage-deletion.service.ts says of TypeORM. The driver
-- is a parameter of the definitions that use it.
use Prim.Native.Nat.{ℕ}
use mathlib.Core.Option.{Option, none, some}
use mathlib.Core.List.{List, [], ◌∷◌}
use prism_nestjs.Prelude.Lists.{length}

pub data Driver : Type 0 where
  rows_alone rows_and_count : Driver

-- What is resolved to.
pub data Resolved (A : Type 0) : Type 0 where
  alone : List A → Resolved A
  counted : List A → ℕ → Resolved A

abbrev pub resolved : {A : Type 0} → Driver → List A → Resolved A
resolved rows_alone rows = alone rows
resolved rows_and_count rows = counted rows (length rows)

-- What stands at an index of the result.
pub data Element (A : Type 0) : Type 0 where
  row : A → Element A
  all_rows : List A → Element A

-- `result.length`.
abbrev pub result_length : {A : Type 0} → Driver → List A → ℕ
result_length rows_alone rows = length rows
result_length rows_and_count rows = 2

-- `result[0] ?? null`.
abbrev pub first_element : {A : Type 0} → Driver → List A → Option (Element A)
first_element rows_alone [] = none
first_element rows_alone (a ∷ rows) = some (row a)
first_element rows_and_count rows = some (all_rows rows)
