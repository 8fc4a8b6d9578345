-- ===== src/Sprint/Repository/Numbers.antt =====
-- The number of the next sprint: `Sprint #n` is a name that no sprint of the workspace has.
use prism_nestjs.Prelude.{
  ℕ, ◌+◌, ◌≤◌, ◌<◌, ◌≡◌, refl, ◌≢◌, ◌∙◌, ap, true, false, Option, none, some, List, [], ◌∷◌, ◌++◌,
  arith, all, leb, Bool-cases, Option-cases, inl, inr, ◌==◌, if◌then◌else◌,
}
use prism_nestjs.Prelude.Text.{Text, codes, text_eq, text_eq_iff, is_digit}
use prism_nestjs.Prelude.Decimal.{show, read, read-show, show-digits, show-ne-nil}
use prism_nestjs.Sprint.{SprintRecord, Db}
use prism_nestjs.Sprint.Repository.{
  digits_number, sprint_number, counted_number, max_option, max_number, next_integer, int_max,
  get_next_sprint_number, name_taken,
}

-- `Sprint #${n}`.
unfoldable pub sprint_name : ℕ → Text
sprint_name n = codes "Sprint #" ++ show n

digits_number-digits : (s : Text) → s ≢ [] → all is_digit s ≡ true → digits_number s ≡ some (read s)
digits_number-digits [] h d = absurd (h refl)
digits_number-digits (c ∷ s) h d = ground arith

pub sprint_number-sprint_name : (n : ℕ) → sprint_number (sprint_name n) ≡ some n
unfolding sprint_number sprint_name
sprint_number-sprint_name n =
    digits_number-digits (show n) (show-ne-nil n) (show-digits n) ∙ ap some (read-show n)

counted_number-named :
    (name : Text) (n k : ℕ)
    → text_eq name (sprint_name n) ≡ true
    → counted_number name ≡ some k
    → k ≡ n
unfolding counted_number
counted_number-named name n k t h =
    let e =
      ap sprint_number ((text_eq_iff name (sprint_name n)).0 t) ∙ sprint_number-sprint_name n in
    number_of (sprint_number name) e h
  where
    number_of :
        (o : Option ℕ)
        → o ≡ some n
        → (elim o [ none ↦ some 0 | some m ↦ if leb m int_max then some m else none ]) ≡ some k
        → k ≡ n
    number_of o e h = ground arith

max_option-some :
    (o r : Option ℕ) {m : ℕ}
    → max_option o r ≡ some m
    → (a : ℕ) × (b : ℕ) × (o ≡ some a) × (r ≡ some b) × (a ≤ m) × (b ≤ m)
max_option-some (some a) (some b) h = (a, b, refl, refl, ground arith, ground arith)
max_option-some (some a) none h = cc
max_option-some none r h = cc

-- Every number that was counted is at most the greatest.
le-max_number :
    (id m n : ℕ) (sprints : List SprintRecord)
    → max_number id sprints ≡ some m
    → name_taken id (sprint_name n) sprints ≡ true
    → n ≤ m
unfolding max_number name_taken
le-max_number id m n [] h t = cc
le-max_number id m n (s ∷ sprints) h t = elim (Bool-cases (s.workspace_id == id)) [
  | inr elsewhere ↦ le-max_number id m n sprints (ground arith) (ground arith)
  | inl here ↦
      let (a, b, counted, rest, a_le, b_le) =
        max_option-some (counted_number s.sprint_name) (max_number id sprints) {m = m}
          (ground arith) in
      elim (Bool-cases (text_eq s.sprint_name (sprint_name n))) [
        | inl same ↦ omega (arith, counted_number-named s.sprint_name n a same counted)
        | inr other ↦ omega (arith, le-max_number id b n sprints rest (ground arith))
      ]
]

pub next_integer-some :
    (o : Option ℕ) {n : ℕ}
    → next_integer o ≡ some n
    → (m : ℕ) × (o ≡ some m) × (n ≡ m + 1) × (m < int_max)
next_integer-some none h = cc
next_integer-some (some m) h = (m, refl, ground arith, ground arith)

-- Where the number of the next sprint can be computed, no sprint of the workspace is named by it.
pub next_sprint_name_is_free :
    (id n : ℕ) (db : Db)
    → get_next_sprint_number id db ≡ some n
    → name_taken id (sprint_name n) db.sprints ≡ false
unfolding get_next_sprint_number
next_sprint_name_is_free id n db h = elim (Bool-cases (name_taken id (sprint_name n) db.sprints)) [
  | inr free ↦ free
  | inl taken ↦
      let (m, e, next, _) = next_integer-some (max_number id db.sprints) {n = n} h in
      absurd (omega (arith, le-max_number id m n db.sprints e taken))
]

-- A sprint of the workspace that is named by a number from the greatest INTEGER on makes the query
-- for the next number fail.
pub next_sprint_number_overflows :
    (id n : ℕ) (db : Db)
    → name_taken id (sprint_name n) db.sprints ≡ true
    → int_max ≤ n
    → get_next_sprint_number id db ≡ none
unfolding get_next_sprint_number
next_sprint_number_overflows id n db taken h =
    elim (Option-cases (next_integer (max_number id db.sprints))) [
      | inl failed ↦ failed
      | inr (k, found) ↦
          let (m, e, _, small) = next_integer-some (max_number id db.sprints) {n = k} found in
          absurd (omega (arith, le-max_number id m n db.sprints e taken))
    ]
