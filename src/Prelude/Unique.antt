-- ===== src/Prelude/Unique.antt =====
-- Tables whose rows differ pairwise in a key, given by a Boolean test on two rows.
use mathlib.Core.Path.{◌≡◌, refl}
use mathlib.Core.Bool.{Bool, true, false}
use mathlib.Core.List.{List, [], ◌∷◌, ◌++◌}
use native.Mathlib.Omega.{arith}
use prism_nestjs.Prelude.Tests.{if◌then◌else◌}
use prism_nestjs.Prelude.Lists.{any, filter, update}

module _ {A : Type 0} where
  pub any-append_right : (p : A → Bool) (xs ys : List A) → any p xs ≡ true → any p (xs ++ ys) ≡ true
  any-append_right p [] ys h = cc
  any-append_right p (x ∷ xs) ys h = ground (arith, any-append_right p xs ys)

  pub any-append_last :
      (p : A → Bool) (xs : List A) (y : A) → p y ≡ true → any p (xs ++ y ∷ []) ≡ true
  any-append_last p [] y h = ground arith
  any-append_last p (x ∷ xs) y h = ground (arith, any-append_last p xs y)

  pub any-append_false :
      (p : A → Bool) (xs : List A) (y : A)
      → any p xs ≡ false
      → p y ≡ false
      → any p (xs ++ y ∷ []) ≡ false
  any-append_false p [] y h e = ground arith
  any-append_false p (x ∷ xs) y h e = ground (arith, any-append_false p xs y)

  pub any-filter-false :
      (p q : A → Bool) (xs : List A) → any p xs ≡ false → any p (filter q xs) ≡ false
  any-filter-false p q [] h = refl
  any-filter-false p q (x ∷ xs) h = ground (arith, any-filter-false p q xs)

module _ {A : Type 0} (same : A → A → Bool) where
  abbrev pub UniqueBy : List A → Type 0
  UniqueBy [] = Unit
  UniqueBy (x ∷ xs) = (any (same x) xs ≡ false) × UniqueBy xs

  pub UniqueBy-filter : (q : A → Bool) (xs : List A) → UniqueBy xs → UniqueBy (filter q xs)
  UniqueBy-filter q [] u = tt
  UniqueBy-filter q (x ∷ xs) u =
      ground (arith, UniqueBy-filter q xs u.1, any-filter-false (same x) q xs u.0)

  pub UniqueBy-append :
      ((a b : A) → same a b ≡ same b a)
      → (xs : List A) (y : A) → UniqueBy xs
      → any (same y) xs ≡ false
      → UniqueBy (xs ++ y ∷ [])
  UniqueBy-append s [] y u h = (refl, tt)
  UniqueBy-append s (x ∷ xs) y u h =
      ground (arith, UniqueBy-append s xs y u.1, any-append_false (same x) xs y, s x y)

  any-update :
      (p : A → Bool) (f : A → A) (a : A)
      → ((x : A) → same a (f x) ≡ same a x)
      → (xs : List A) → any (same a) (update p f xs) ≡ any (same a) xs
  any-update p f a k [] = refl
  any-update p f a k (x ∷ xs) = ground (arith, k x, any-update p f a k xs)

  -- A change of rows that keeps the key.
  pub UniqueBy-update :
      (p : A → Bool) (f : A → A)
      → ((a b : A) → same (f a) b ≡ same a b)
      → ((a b : A) → same a (f b) ≡ same a b)
      → (xs : List A) → UniqueBy xs
      → UniqueBy (update p f xs)
  UniqueBy-update p f l r [] u = tt
  UniqueBy-update p f l r (x ∷ xs) u = (changed, UniqueBy-update p f l r xs u.1)
    where
      any-left : (ys : List A) → any (same (f x)) ys ≡ any (same x) ys
      any-left [] = refl
      any-left (y ∷ ys) = ground (arith, l x y, any-left ys)

      changed : any (same (if p x then f x else x)) (update p f xs) ≡ false
      changed = ground (arith, any-left (update p f xs), any-update p f x (r x) xs)
