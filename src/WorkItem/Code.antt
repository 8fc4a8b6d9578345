-- ===== src/WorkItem/Code.antt =====
-- src/modules/project/utils/work-item-code.ts: codes such as TASK-346. `upper` is `toUpperCase`.
use prism_nestjs.Prelude.{
  ℕ, ◌≤◌, ◌<◌, ◌≡◌, ◌≢◌, refl, sym, subst, Bool, true, false, not, ◌&&◌, ◌||◌, Option, none, some,
  [], ◌∷◌, ◌++◌, arith, all, length, ltb, leb, ◌==◌, if◌then◌else◌, Bool-cases, inl, inr,
}
use prism_nestjs.Prelude.Text.{Text, trim, is_upper, is_digit}
use prism_nestjs.Prelude.Decimal.{show, read, read-show, show-digits, show-ne-nil}

pub record ParsedWorkItemCode : Type 0 where
  pub prefix : Text
  pub seq : ℕ

-- `Number.MAX_SAFE_INTEGER`.
abbrev pub max_safe_integer : ℕ
max_safe_integer = 9007199254740991

-- A text up to its first character that fails a test, and the rest.
unfoldable pub span : (ℕ → Bool) → Text → Text × Text
span q [] = ([], [])
span q (c ∷ s) = let (p, rest) = span q s in if q c then (c ∷ p, rest) else ([], c ∷ s)

-- `[A-Z]{3,4}` on a text of such letters.
abbrev pub has_code_length : Text → Bool
has_code_length p = (length p == 3) || (length p == 4)

-- `\d+` up to the end.
abbrev pub is_number : Text → Bool
is_number [] = false
is_number (c ∷ s) = all is_digit (c ∷ s)

-- The test of `seq`. `parseInt` is exact up to the bound, and no number beyond is rounded below it.
abbrev pub checked_code : Text → ℕ → Option ParsedWorkItemCode
checked_code p n =
    if leb n max_safe_integer && ltb 0 n then some (record { prefix = p; seq = n }) else none

-- The groups of WORK_ITEM_CODE_PATTERN: the letters, then a dash and the digits.
unfoldable pub match_code : Text → Text → Option ParsedWorkItemCode
match_code p [] = none
match_code p (c ∷ digits) =
    if (c == 45) && has_code_length p && is_number digits
    then checked_code p (read digits)
    else none

module _ (upper : Text → Text) where
  unfoldable pub parse_work_item_code : Text → Option ParsedWorkItemCode
  unfolding span match_code
  parse_work_item_code code = let (p, rest) = span is_upper (upper (trim code)) in match_code p rest

-- `PREFIX-n`.
unfoldable pub code_of : Text → ℕ → Text
code_of p n = p ++ 45 ∷ show n

-- The rest starts with a character that fails the test, if at all.
abbrev pub ends_run : (ℕ → Bool) → Text → Bool
ends_run q [] = true
ends_run q (c ∷ s) = not (q c)

pub span-append :
    (q : ℕ → Bool) (p rest : Text)
    → all q p ≡ true
    → ends_run q rest ≡ true
    → span q (p ++ rest) ≡ (p, rest)
unfolding span
span-append q [] [] h k = refl
span-append q [] (c ∷ s) h k = ground arith
span-append q (a ∷ p) rest h k = ground (arith, span-append q p rest)

span-split :
    (q : ℕ → Bool) (s : Text) → (s ≡ (span q s).0 ++ (span q s).1) × (all q (span q s).0 ≡ true)
unfolding span
span-split q [] = (refl, refl)
span-split q (c ∷ s) = elim (Bool-cases (q c)) [
  | inl met ↦ rw (met, span) (ground (arith, span-split q s))
  | inr failed ↦ rw (failed, span) (refl, refl)
]

pub is_number-show : (n : ℕ) → is_number (show n) ≡ true
is_number-show n = nonempty (show n) (show-ne-nil n) (show-digits n)
  where
    nonempty : (s : Text) → s ≢ [] → all is_digit s ≡ true → is_number s ≡ true
    nonempty [] h k = absurd (h refl)
    nonempty (c ∷ s) h k = k

-- What a parsed code says of a text.
abbrev pub IsCode : ParsedWorkItemCode → Text → Type 0
IsCode c s =
    (digits : Text) × (s ≡ c.prefix ++ 45 ∷ digits)
    × (all is_upper c.prefix ≡ true)
    × (has_code_length c.prefix ≡ true)
    × (is_number digits ≡ true)
    × (read digits ≡ c.seq)
    × (0 < c.seq)
    × (c.seq ≤ max_safe_integer)

match_code-IsCode :
    (p rest : Text) (c : ParsedWorkItemCode)
    → all is_upper p ≡ true
    → match_code p rest ≡ some c
    → IsCode c (p ++ rest)
unfolding match_code
match_code-IsCode p [] c u h = cc
match_code-IsCode p (a ∷ digits) c u h = (
  digits,
  ground arith,
  ground arith,
  ground arith,
  ground arith,
  ground arith,
  ground arith,
  ground arith,
)

module _ (upper : Text → Text) where
  -- A text that is the code of a prefix of three or four letters A to Z and a positive safe
  -- integer, once it is trimmed and in upper case, is parsed to these two.
  pub parse_work_item_code-code_of :
      (code p : Text) (n : ℕ)
      → upper (trim code) ≡ code_of p n
      → all is_upper p ≡ true
      → has_code_length p ≡ true
      → 0 < n
      → n ≤ max_safe_integer
      → parse_work_item_code upper code ≡ some (record { prefix = p; seq = n })
  unfolding parse_work_item_code match_code code_of
  parse_work_item_code-code_of code p n e u l pos safe = rw e (
      rw (span-append is_upper p (45 ∷ show n) u refl)
        (ground (arith, is_number-show n, read-show n)))

  -- Where a text is parsed to a code, it is, once it is trimmed and in upper case, three or four
  -- letters A to Z, a dash and digits, which stand for a positive safe integer.
  pub parse_work_item_code-IsCode :
      (code : Text) (c : ParsedWorkItemCode)
      → parse_work_item_code upper code ≡ some c
      → IsCode c (upper (trim code))
  unfolding parse_work_item_code
  parse_work_item_code-IsCode code c h =
      let s = upper (trim code) in
      let (split, letters) = span-split is_upper s in
      subst (IsCode c) (sym split)
        (match_code-IsCode (span is_upper s).0 (span is_upper s).1 c letters h)
