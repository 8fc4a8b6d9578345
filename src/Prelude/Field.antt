-- ===== src/Prelude/Field.antt =====
-- An optional field of a request body: `@IsOptional()` lets `undefined` and `null` through.
use mathlib.Core.Bool.{Bool, true, false}
use mathlib.Core.Option.{Option, none, some}
use mathlib.Core.List.{[], ◌∷◌}
use prism_nestjs.Prelude.Text.{Text}

pub data Field {ℓ} (A : Type ℓ) : Type ℓ where
  undefined null : Field A
  given : A → Field A

module _ {ℓ} {A : Type ℓ} where
  -- `field !== undefined`.
  abbrev pub is_defined : Field A → Bool
  is_defined undefined = false
  is_defined _ = true

  -- `field ?? null`.
  abbrev pub or_null : Field A → Option A
  or_null (given a) = some a
  or_null _ = none

  -- `field ?? fallback`.
  abbrev pub or_else : Field A → A → A
  or_else (given a) _ = a
  or_else _ b = b

-- The text where the field is truthy.
abbrev pub truthy : Field Text → Option Text
truthy (given []) = none
truthy (given (c ∷ s)) = some (c ∷ s)
truthy _ = none
