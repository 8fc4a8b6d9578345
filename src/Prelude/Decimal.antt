-- ===== src/Prelude/Decimal.antt =====
-- Decimal numerals, as JavaScript and PostgreSQL print them, and their reading back.
use Prim.Native.Nat.{ℕ, suc, ◌+◌, ◌-◌, ◌*◌, ◌/◌, ◌%◌, ◌<◌, ◌≤◌}
use mathlib.Core.Path.{◌≡◌, refl}
use mathlib.Core.Logic.{◌≢◌}
use mathlib.Core.Bool.{true}
use mathlib.Core.List.{[], ◌∷◌, ◌++◌}
use native.Mathlib.Omega.{arith}
use prism_nestjs.Prelude.Tests.{ltb, if◌then◌else◌}
use prism_nestjs.Prelude.Lists.{all, length, length-append}
use prism_nestjs.Prelude.Text.{Text, is_digit}

-- The fuel is one more than the number, which has fewer digits than that.
show_from : ℕ → ℕ → Text
show_from ℕ.zero n = []
show_from (suc f) n =
    let more = show_from f (n / 10) ++ (48 + n % 10) ∷ [] in
    if ltb n 10 then (48 + n) ∷ [] else more

-- `${n}` of a natural number.
unfoldable pub show : ℕ → Text
unfolding show_from
show n = show_from (suc n) n

unfoldable pub read_from : ℕ → Text → ℕ
read_from acc [] = acc
read_from acc (c ∷ s) = read_from (acc * 10 + (c - 48)) s

-- The number that a text of digits stands for.
unfoldable pub read : Text → ℕ
unfolding read_from
read s = read_from 0 s

read_from-append :
    (acc : ℕ) (s : Text) (c : ℕ) → read_from acc (s ++ c ∷ []) ≡ read_from acc s * 10 + (c - 48)
unfolding read_from
read_from-append acc [] c = refl
read_from-append acc (d ∷ s) c = read_from-append (acc * 10 + (d - 48)) s c

read-show_from : (f n : ℕ) → n < f → read_from 0 (show_from f n) ≡ n
unfolding show_from read_from
read-show_from ℕ.zero n h = elim h [ ]
read-show_from (suc f) n h =
    ground
      (arith, read_from-append 0 (show_from f (n / 10)) (48 + n % 10), read-show_from f (n / 10))

pub read-show : (n : ℕ) → read (show n) ≡ n
unfolding read show
read-show n = read-show_from (suc n) n (omega arith)

all_digits-append :
    (s : Text) (c : ℕ)
    → all is_digit s ≡ true
    → is_digit c ≡ true
    → all is_digit (s ++ c ∷ []) ≡ true
all_digits-append [] c h k = ground arith
all_digits-append (d ∷ s) c h k = ground (arith, all_digits-append s c)

show_from-digits : (f n : ℕ) → all is_digit (show_from f n) ≡ true
unfolding show_from
show_from-digits ℕ.zero n = refl
show_from-digits (suc f) n =
    ground
      (arith, show_from-digits f (n / 10), all_digits-append (show_from f (n / 10)) (48 + n % 10))

pub show-digits : (n : ℕ) → all is_digit (show n) ≡ true
unfolding show
show-digits n = show_from-digits (suc n) n

append-ne-nil : (s : Text) (c : ℕ) → s ++ c ∷ [] ≢ []
append-ne-nil [] c = cc
append-ne-nil (d ∷ s) c = cc

pub show-ne-nil : (n : ℕ) → show n ≢ []
unfolding show
show-ne-nil n = ground (arith, append-ne-nil (show_from n (n / 10)) (48 + n % 10))

abbrev pub ten_to : ℕ → ℕ
ten_to ℕ.zero = 1
ten_to (suc k) = 10 * ten_to k

length-show_from : (f k n : ℕ) → n < ten_to (suc k) → length (show_from f n) ≤ suc k
unfolding show_from
length-show_from ℕ.zero k n h = omega arith
length-show_from (suc f) ℕ.zero n h = ground arith
length-show_from (suc f) (suc k) n h = ground (
  arith,
  length-show_from f k (n / 10),
  length-append (show_from f (n / 10)) ((48 + n % 10) ∷ []),
)

pub length-show : (k n : ℕ) → n < ten_to (suc k) → length (show n) ≤ suc k
unfolding show
length-show k n h = length-show_from (suc n) k n h
