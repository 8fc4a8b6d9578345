-- ===== src/WorkItem/Search.antt =====
-- `extractWorkItemCode` of src/modules/project/utils/work-item-code.ts: the first code in a text.
use prism_nestjs.Prelude.{
  ℕ, ◌≤◌, ◌<◌, ◌≡◌, refl, Bool, true, false, ◌&&◌, ◌||◌, Option, none, some, [], ◌∷◌, ◌++◌, arith,
  all, ◌==◌, if◌then◌else◌,
}
use prism_nestjs.Prelude.Text.{Text, trim, is_letter, is_upper, is_digit}
use prism_nestjs.Prelude.Decimal.{show, show-digits}
use prism_nestjs.WorkItem.Code.{
  ParsedWorkItemCode, max_safe_integer, span, has_code_length, is_number, parse_work_item_code,
  code_of, ends_run, span-append, is_number-show, parse_work_item_code-code_of,
}

-- `[A-Za-z0-9]`.
abbrev pub is_alphanumeric : ℕ → Bool
is_alphanumeric c = is_letter c || is_digit c

-- The match of a code at the start of a text, after the letters: a dash, then all the digits there
-- are, since a digit may not follow the match, and no letter after these.
unfoldable pub match_digits : Text → Text → Option Text
unfolding span
match_digits p [] = none
match_digits p (c ∷ s) =
    let (digits, rest) = span is_digit s in
    if (c == 45) && has_code_length p && is_number digits && ends_run is_alphanumeric rest
    then some (p ++ 45 ∷ digits)
    else none

unfoldable pub match_here : Text → Option Text
unfolding span match_digits
match_here s = let (p, rest) = span is_letter s in match_digits p rest

abbrev pub first_of : {A : Type 0} → Option A → Option A → Option A
first_of (some a) o = some a
first_of none o = o

abbrev pub parsed_match :
    (Text → Option ParsedWorkItemCode) → Option Text → Option ParsedWorkItemCode
parsed_match parse none = none
parsed_match parse (some code) = parse code

module _ (upper : Text → Text) where
  -- WORK_ITEM_CODE_SEARCH_PATTERN at each place whose character before, if any, is not
  -- alphanumeric. No match starts inside another, so a match that is not parsed is passed over
  -- character by character.
  unfoldable pub search_from : Bool → Text → Option ParsedWorkItemCode
  search_from after_alphanumeric [] = none
  search_from after_alphanumeric (c ∷ s) =
      let rest = search_from (is_alphanumeric c) s in
      if after_alphanumeric
      then rest
      else first_of (parsed_match (parse_work_item_code upper) (match_here (c ∷ s))) rest

  unfoldable pub extract_work_item_code : Text → Option ParsedWorkItemCode
  unfolding search_from
  extract_work_item_code text = search_from false text

upper-letters : (p : Text) → all is_upper p ≡ true → all is_letter p ≡ true
upper-letters [] h = refl
upper-letters (c ∷ p) h = ground (arith, upper-letters p)

digits_end : (s : Text) → ends_run is_alphanumeric s ≡ true → ends_run is_digit s ≡ true
digits_end [] h = refl
digits_end (c ∷ s) h = ground arith

match_here-code_of :
    (p : Text) (n : ℕ) (rest : Text)
    → all is_upper p ≡ true
    → has_code_length p ≡ true
    → ends_run is_alphanumeric rest ≡ true
    → match_here (p ++ 45 ∷ (show n ++ rest)) ≡ some (code_of p n)
unfolding match_here match_digits code_of
match_here-code_of p n rest u l e =
    rw (span-append is_letter p (45 ∷ (show n ++ rest)) (upper-letters p u) refl) (
      rw (span-append is_digit (show n) rest (show-digits n) (digits_end rest e))
        (ground (arith, is_number-show n)))

module _ (upper : Text → Text) where
  search_from-match :
      (s code : Text) (c : ParsedWorkItemCode)
      → match_here s ≡ some code
      → parse_work_item_code upper code ≡ some c
      → extract_work_item_code upper s ≡ some c
  unfolding extract_work_item_code match_here match_digits
  search_from-match [] code c h k = cc
  search_from-match (a ∷ s) code c h k = rw (h, match_here) (rw k refl)

  -- A text that starts with a code of upper case letters and a positive safe integer, followed by
  -- no letter or digit, is searched to that code, where trimming and upper case leave it as it is.
  pub extract_work_item_code-code_of :
      (p : Text) (n : ℕ) (rest : Text)
      → upper (trim (code_of p n)) ≡ code_of p n
      → all is_upper p ≡ true
      → has_code_length p ≡ true
      → 0 < n
      → n ≤ max_safe_integer
      → ends_run is_alphanumeric rest ≡ true
      → extract_work_item_code upper (p ++ 45 ∷ (show n ++ rest))
        ≡ some (record { prefix = p; seq = n })
  extract_work_item_code-code_of p n rest e u l pos safe end =
      search_from-match (p ++ 45 ∷ (show n ++ rest)) (code_of p n) (record { prefix = p; seq = n })
        (match_here-code_of p n rest u l end)
        (parse_work_item_code-code_of upper (code_of p n) p n e u l pos safe)
