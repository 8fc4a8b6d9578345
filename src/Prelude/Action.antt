-- ===== src/Prelude/Action.antt =====
-- The effects of a request handler: exceptions over a state, a database transaction
-- (`UnitOfWork.run` of src/core/database/unit-of-work.ts), and the events published after it.
use mathlib.Core.Path.{◌≡◌, refl, ap}
use mathlib.Core.Bool.{Bool, true, false}
use mathlib.Core.Option.{Option, none, some}
use mathlib.Core.List.{List, [], ◌∷◌, ◌++◌}
use prism_nestjs.Prelude.Tests.{if◌then◌else◌}

pub data Result (E A : Type 0) : Type 0 where
  ok : A → Result E A
  err : E → Result E A

-- What is written before a `throw` stays written, until a transaction rolls it back.
abbrev pub Action : Type 0 → Type 0 → Type 0 → Type 0
Action S E A = S → Result E A × S

module _ {S E A : Type 0} where
  abbrev pub pure : A → Action S E A
  pure a s = (ok a, s)

  abbrev pub throw : E → Action S E A
  throw e s = (err e, s)

  -- A query: it reads the state.
  abbrev pub gets : (S → A) → Action S E A
  gets f s = (ok (f s), s)

  -- `if (!row) throw e`.
  abbrev pub or_throw : Option A → E → Action S E A
  or_throw none e = throw e
  or_throw (some a) e = pure a

-- What follows an action: a thrown error skips it.
abbrev pub resume : {S E A B : Type 0} → (A → Action S E B) → Result E A → Action S E B
resume f (ok a) t = f a t
resume f (err e) t = (err e, t)

infixl 5 ◌>>=◌ ◌>>◌
abbrev pub ◌>>=◌ : {S E A B : Type 0} → Action S E A → (A → Action S E B) → Action S E B
◌>>=◌ m f s = let (r, t) = m s in resume f r t

abbrev pub ◌>>◌ : {S E A B : Type 0} → Action S E A → Action S E B → Action S E B
m >> k = m >>= λ _. k

-- `if (c) throw e`.
abbrev pub throw_if : {S E : Type 0} → Bool → E → Action S E (Unit {0})
throw_if c e s = (if c then err e else ok tt, s)

abbrev pub modify : {S E : Type 0} → (S → S) → Action S E (Unit {0})
modify f s = (ok tt, f s)

-- The database, and the events that have been published, the newest last.
pub record App (D V : Type 0) : Type 0 where
  pub db : D
  pub published : List V

module _ {D V E : Type 0} where
  -- `UnitOfWork.run`: an error rolls the database back and is thrown again.
  abbrev pub run : {A : Type 0} → Action D E A → Action (App D V) E A
  run m app =
      let (r, d) = m app.db in
      elim r [ ok a ↦ (ok a, record app { db = d }) | err e ↦ (err e, app) ]

  -- A query outside a transaction.
  abbrev pub query : {A : Type 0} → Action D E A → Action (App D V) E A
  query m app = let (r, d) = m app.db in (r, record app { db = d })

  abbrev pub publish : V → Action (App D V) E (Unit {0})
  publish v app = (ok tt, record app { published = app.published ++ v ∷ [] })

-- An action keeps a property of the state, whether it returns or throws.
abbrev pub Keeps : {S E A : Type 0} → (S → Type 0) → Action S E A → Type 0
Keeps {S} P m = (s : S) → P s → P (m s).1

pub bind-Keeps :
    {S E A B : Type 0} (P : S → Type 0) (m : Action S E A) (f : A → Action S E B)
    → Keeps P m
    → ((a : A) → Keeps P (f a))
    → Keeps P (m >>= f)
bind-Keeps {S} {E} {A} P m f hm hf s h = go (m s).0 (m s).1 (hm s h)
  where
    go : (r : Result E A) (t : S) → P t → P (resume f r t).1
    go (ok a) t k = hf a t k
    go (err e) t k = k

pub or_throw-Keeps :
    {S E A : Type 0} (P : S → Type 0) (o : Option A) (e : E) → Keeps P (or_throw {E = E} o e)
or_throw-Keeps P none e s h = h
or_throw-Keeps P (some a) e s h = h

-- An action goes on after a step that returns.
pub bind-ok :
    {S E A B : Type 0} (m : Action S E A) (f : A → Action S E B) {s t : S} {a : A}
    → m s ≡ (ok a, t)
    → (m >>= f) s ≡ f a t
bind-ok m f e = ap (λ p. resume f p.0 p.1) e

-- Cases of the first steps of an action, for a property of its outcome: a query whose row must be
-- there, and a test that must fail.
module _ {S E A B : Type 0} (Q : Result E B × S → Type 0) (s : S) where
  pub found_cases :
      (f : S → Option A) (e : E) (k : A → Action S E B)
      → (f s ≡ none → Q (err e, s))
      → ((a : A) → f s ≡ some a → Q (k a s))
      → Q ((gets {E = E} f >>= λ o. or_throw o e >>= k) s)
  found_cases f e k q h = go (f s) q h
    where
      go :
          (o : Option A)
          → (o ≡ none → Q (err e, s))
          → ((a : A) → o ≡ some a → Q (k a s))
          → Q ((or_throw {E = E} o e >>= k) s)
      go none q h = q refl
      go (some a) q h = h a refl

module _ {S E B : Type 0} (Q : Result E B × S → Type 0) (s : S) where
  pub test_cases :
      (c : Bool) (e : E) (k : Unit {0} → Action S E B)
      → (c ≡ true → Q (err e, s))
      → (c ≡ false → Q (k tt s))
      → Q ((throw_if c e >>= k) s)
  test_cases true e k q h = q refl
  test_cases false e k q h = h refl

-- A transaction, and queries outside of one, keep what their action keeps.
module _ {D V E A : Type 0} (P : D → Type 0) (m : Action D E A) where
  pub run-Keeps : Keeps P m → Keeps {S = App D V} (λ app. P app.db) (run m)
  run-Keeps k app v = go (m app.db).0 (m app.db).1 (k app.db v)
    where
      go :
          (r : Result E A) (d : D)
          → P d
          → P
              (elim r as (λ _. Result E A × App D V) [
                | ok a ↦ (ok a, record app { db = d })
                | err e ↦ (err e, app)
              ]).1.db
      go (ok a) d w = w
      go (err e) d w = v

  pub query-Keeps : Keeps P m → Keeps {S = App D V} (λ app. P app.db) (query m)
  query-Keeps k app v = k app.db v

-- What an action that returns tells of its steps.
module _ {S E A B : Type 0} where
  pub bind-inv :
      (m : Action S E A) (f : A → Action S E B) (s u : S) (b : B)
      → (m >>= f) s ≡ (ok b, u)
      → (a : A) × (t : S) × (m s ≡ (ok a, t)) × (f a t ≡ (ok b, u))
  bind-inv m f s u b h = go (m s).0 (m s).1 h
    where
      go :
          (r : Result E A) (t' : S)
          → resume f r t' ≡ (ok b, u)
          → (a : A) × (t : S) × ◌≡◌ {A = Result E A × S} (r, t') (ok a, t) × (f a t ≡ (ok b, u))
      go (ok a) t' h = (a, t', refl, h)
      go (err e) t' h = cc

-- A row that is not there, in a transaction.
pub run-missing :
    {D V E A B C : Type 0} (f : D → Option A) (e : E) (k : A → Action D E B)
    (next : B → Action (App D V) E C) (app : App D V)
    → f app.db ≡ none
    → (run (gets f >>= λ o. or_throw o e >>= k) >>= next) app ≡ (err e, app)
run-missing f e k next app h = rw (run, h) refl
