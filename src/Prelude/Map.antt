-- ===== src/Prelude/Map.antt =====
-- JavaScript's `Map` as an association list in insertion order, over keys with a Boolean equality.
use mathlib.Core.Path.{◌≡◌, refl, subst}
use mathlib.Core.Logic.{◌↔◌, ◌≢◌, inl, inr}
use mathlib.Core.Bool.{Bool, true}
use mathlib.Core.Option.{Option, none, some}
use mathlib.Core.List.{List, [], ◌∷◌}
use native.Mathlib.Omega.{arith}
use prism_nestjs.Prelude.Tests.{Bool-cases, if◌then◌else◌}
use prism_nestjs.Prelude.Text.{Text, text_eq, text_eq_iff}

pub record Eq (K : Type 0) : Type 0 where
  pub beq : K → K → Bool
  pub beq_iff : (a b : K) → (beq a b ≡ true) ↔ (a ≡ b)

instance abbrev pub text_instance : Eq Text
text_instance = record { beq = text_eq; beq_iff = text_eq_iff }

abbrev pub Dict : Type 0 → Type 0 → Type 0
Dict K V = List (K × V)

module _ {K V : Type 0} ⦃e : Eq K⦄ where
  -- `map.get(k)`.
  unfoldable pub get : K → Dict K V → Option V
  get k [] = none
  get k ((j, v) ∷ m) = if e.beq j k then some v else get k m

  -- `map.set(k, v)`: a new key goes to the end.
  unfoldable pub set : K → V → Dict K V → Dict K V
  set k v [] = (k, v) ∷ []
  set k v ((j, w) ∷ m) = if e.beq j k then (j, v) ∷ m else (j, w) ∷ set k v m

  -- `map.delete(k)`. A key stands once; all its entries go.
  unfoldable pub delete : K → Dict K V → Dict K V
  delete k [] = []
  delete k ((j, w) ∷ m) = if e.beq j k then delete k m else (j, w) ∷ delete k m

  pub get-set_self : (k : K) (v : V) (m : Dict K V) → get k (set k v m) ≡ some v
  unfolding get set
  get-set_self k v [] = ground (arith, e.beq_iff k k)
  get-set_self k v ((j, w) ∷ m) = ground (arith, get-set_self k v m)

  pub get-set_ne : (j k : K) (v : V) (m : Dict K V) → j ≢ k → get j (set k v m) ≡ get j m
  unfolding get set
  get-set_ne j k v [] h = ground (arith, e.beq_iff k j)
  get-set_ne j k v ((i, w) ∷ m) h =
      ground (arith, e.beq_iff i j, e.beq_iff i k, get-set_ne j k v m h)

  pub get-delete_self : (k : K) (m : Dict K V) → get k (delete k m) ≡ none
  unfolding get delete
  get-delete_self k [] = refl
  get-delete_self k ((j, w) ∷ m) = ground (arith, get-delete_self k m)

  pub get-delete_ne : (j k : K) (m : Dict K V) → j ≢ k → get j (delete k m) ≡ get j m
  unfolding get delete
  get-delete_ne j k [] h = refl
  get-delete_ne j k ((i, w) ∷ m) h =
      ground (arith, e.beq_iff i j, e.beq_iff i k, get-delete_ne j k m h)

  abbrev pub Distinct : Dict K V → Type 0
  Distinct [] = Unit
  Distinct ((k, v) ∷ m) = (get k m ≡ none) × Distinct m

  pub set-Distinct : (k : K) (v : V) (m : Dict K V) → Distinct m → Distinct (set k v m)
  unfolding set get
  set-Distinct k v [] h = (refl, tt)
  set-Distinct k v ((j, w) ∷ m) h =
      ground (arith, set-Distinct k v m h.1, get-set_ne j k v m, e.beq_iff j k)

  get-delete-none : (j k : K) (m : Dict K V) → get j m ≡ none → get j (delete k m) ≡ none
  unfolding get delete
  get-delete-none j k [] h = refl
  get-delete-none j k ((i, w) ∷ m) h = ground (arith, get-delete-none j k m)

  pub delete-Distinct : (k : K) (m : Dict K V) → Distinct m → Distinct (delete k m)
  unfolding delete
  delete-Distinct k [] h = tt
  delete-Distinct k ((j, w) ∷ m) h = ground (arith, delete-Distinct k m h.1, get-delete-none j k m)

  -- Every value meets a predicate.
  abbrev pub Values : (V → Type 0) → Dict K V → Type 0
  Values P [] = Unit
  Values P ((k, v) ∷ m) = P v × Values P m

  pub set-Values :
      (P : V → Type 0) (k : K) (v : V) (m : Dict K V) → Values P m → P v → Values P (set k v m)
  unfolding set
  set-Values P k v [] h p = (p, tt)
  set-Values P k v ((j, w) ∷ m) h p = ground (arith, set-Values P k v m h.1 p)

  pub delete-Values : (P : V → Type 0) (k : K) (m : Dict K V) → Values P m → Values P (delete k m)
  unfolding delete
  delete-Values P k [] h = tt
  delete-Values P k ((j, w) ∷ m) h = ground (arith, delete-Values P k m h.1)

  pub get-Values :
      (P : V → Type 0) (k : K) (v : V) (m : Dict K V) → Values P m → get k m ≡ some v → P v
  unfolding get
  get-Values P k v [] h p = cc
  get-Values P k v ((j, w) ∷ m) h p = elim (Bool-cases (e.beq j k)) [
    | inl same ↦ subst P (ground arith) h.0
    | inr other ↦ get-Values P k v m h.1 (ground arith)
  ]

  -- The entries whose value passes a test.
  unfoldable pub retain : (V → Bool) → Dict K V → Dict K V
  retain p [] = []
  retain p ((k, v) ∷ m) = if p v then (k, v) ∷ retain p m else retain p m

  get-retain-none :
      (p : V → Bool) (k : K) (m : Dict K V) → get k m ≡ none → get k (retain p m) ≡ none
  unfolding get retain
  get-retain-none p k [] h = refl
  get-retain-none p k ((j, v) ∷ m) h = ground (arith, get-retain-none p k m)

  pub retain-Distinct : (p : V → Bool) (m : Dict K V) → Distinct m → Distinct (retain p m)
  unfolding retain
  retain-Distinct p [] h = tt
  retain-Distinct p ((k, v) ∷ m) h = ground (arith, retain-Distinct p m h.1, get-retain-none p k m)

  pub retain-Values :
      (P : V → Type 0) (p : V → Bool) (m : Dict K V) → Values P m → Values P (retain p m)
  unfolding retain
  retain-Values P p [] h = tt
  retain-Values P p ((k, v) ∷ m) h = ground (arith, retain-Values P p m h.1)

  -- Where keys are distinct, an entry is kept exactly if its value passes.
  pub get-retain :
      (p : V → Bool) (k : K) (m : Dict K V)
      → Distinct m
      → get k (retain p m) ≡ elim (get k m) [ none ↦ none | some v ↦ if p v then some v else none ]
  unfolding get retain
  get-retain p k [] h = refl
  get-retain p k ((j, v) ∷ m) h =
      ground (arith, get-retain p k m h.1, get-retain-none p j m h.0, e.beq_iff j k)
