-- ===== src/Sprint/UseCase/Transactions.antt =====
-- The handlers as transactions: what holds of every request that changes sprints.
use prism_nestjs.Prelude.{ℕ, ◌≡◌, refl, Bool, true, false, Option, List, [], ◌∷◌, ◌++◌}
use prism_nestjs.Prelude.Text.{Text}
use prism_nestjs.Prelude.Driver.{Driver, Element}
use prism_nestjs.Prelude.Action.{
  Result, ok, err, Action, Keeps, bind-Keeps, resume, pure, run, publish, throw_if, ◌>>=◌,
}
use prism_nestjs.Sprint.{
  Db, Error, Event, CreateSprintDto, UpdateSprintMetadataDto, period_invalid, sprint_created,
  sprint_updated, sprint_deleted, sprint_work_items_changed, SprintRow,
}
use prism_nestjs.Sprint.Repository.Invariant.{IsValid}
use prism_nestjs.Sprint.UseCase.{
  SprintApp, date_ge, create_sprint_in_workspace, add_sprint_work_items_in_workspace,
  remove_sprint_work_item_in_workspace, delete_sprint_in_workspace,
  update_sprint_metadata_in_workspace,
}
use prism_nestjs.Sprint.UseCase.Handlers.{
  create_sprint_behind, update_sprint_metadata_behind, add_sprint_work_items_behind,
  remove_sprint_work_item_behind, delete_sprint_behind,
}
use prism_nestjs.Sprint.UseCase.Requests.{
  Request, create, change, add, remove, delete, Gate, gate_of, gate-Keeps, handle, create_in-Keeps,
  change_in-Keeps, add_in-Keeps, remove_in-Keeps, delete_in-Keeps,
}

-- How a transaction ends.
abbrev ran : {A : Type 0} → SprintApp → Result Error A → Db → Result Error A × SprintApp
ran app r d = elim r [ ok a ↦ (ok a, record app { db = d }) | err e ↦ (err e, app) ]

abbrev pub IsValidApp : SprintApp → Type 0
IsValidApp app = IsValid app.db

run-Keeps : {A : Type 0} (m : Action Db Error A) → Keeps IsValid m → Keeps IsValidApp (run m)
run-Keeps {A} m k app v = go (m app.db).0 (m app.db).1 (k app.db v)
  where
    go : (r : Result Error A) (d : Db) → IsValid d → IsValidApp (ran app r d).1
    go (ok a) d w = w
    go (err e) d w = v

-- A transaction, then an event about what it returned.
abbrev pub announced :
    {A : Type 0} → Action Db Error A → (A → Event) → Action SprintApp Error (Unit {0})
announced m event = run m >>= λ a. publish (event a)

announced-Keeps :
    {A : Type 0} (m : Action Db Error A) (event : A → Event)
    → Keeps IsValid m
    → Keeps IsValidApp (announced m event)
announced-Keeps m event k = bind-Keeps IsValidApp (run m) _ (run-Keeps m k) λ a app v. v

-- A handler that returns what it announces.
returned : {A : Type 0} → Action Db Error A → (A → Event) → Action SprintApp Error (Unit {0})
returned m event = (run m >>= λ a. publish (event a) >>= λ _. pure a) >>= λ _. pure tt

returned-announced :
    {A : Type 0} (m : Action Db Error A) (event : A → Event) (app : SprintApp)
    → returned m event app ≡ announced m event app
unfolding returned
returned-announced {A} m event app = go (m app.db).0 (m app.db).1
  where
    go :
        (r : Result Error A) (d : Db)
        → (let (q, t) = ran app r d in
            let (p, u) =
              resume {S = SprintApp} {E = Error} (λ a. publish (event a) >>= λ _. pure a) q t in
            resume {S = SprintApp} {E = Error} {B = Unit {0}} (λ _. pure tt) p u)
          ≡ (let (q, t) = ran app r d in
              resume {S = SprintApp} {E = Error} (λ a. publish (event a)) q t)
    go (ok a) d = refl
    go (err e) d = refl

-- No request changes the database half: it is as before and an error is thrown, or the request is
-- done and one event is published.
abbrev pub AllOrNothing : SprintApp → Result Error (Unit {0}) × SprintApp → Type 0
AllOrNothing app (err e, app') = app' ≡ app
AllOrNothing app (ok _, app') = (v : Event) × app'.published ≡ app.published ++ v ∷ []

announced-AllOrNothing :
    {A : Type 0} (m : Action Db Error A) (event : A → Event) (app : SprintApp)
    → AllOrNothing app (announced m event app)
announced-AllOrNothing {A} m event app = go (m app.db).0 (m app.db).1
  where
    go :
        (r : Result Error A) (d : Db)
        → AllOrNothing app (
            let (q, t) = ran app r d in
            resume {S = SprintApp} {E = Error} (λ a. publish (event a)) q t)
    go (ok a) d = (event a, refl)
    go (err e) d = refl

-- The period is tested before the transaction.
abbrev tested : Bool → Action SprintApp Error SprintRow → Action SprintApp Error (Unit {0})
tested c m = (throw_if c period_invalid >>= λ _. m) >>= λ _. pure tt

tested-IsValid :
    (c : Bool) (m : Action SprintApp Error SprintRow)
    → Keeps IsValidApp (m >>= λ _. pure tt)
    → Keeps IsValidApp (tested c m)
tested-IsValid true m k app v = v
tested-IsValid false m k app v = k app v

tested-AllOrNothing :
    (c : Bool) (m : Action SprintApp Error SprintRow) (app : SprintApp)
    → AllOrNothing app ((m >>= λ _. pure tt) app)
    → AllOrNothing app (tested c m app)
tested-AllOrNothing true m app k = refl
tested-AllOrNothing false m app k = k

returned-Keeps :
    {A : Type 0} (m : Action Db Error A) (event : A → Event)
    → Keeps IsValid m
    → Keeps IsValidApp (returned m event)
returned-Keeps m event k app v =
    rw (returned-announced m event app) (announced-Keeps m event k app v)

returned-AllOrNothing :
    {A : Type 0} (m : Action Db Error A) (event : A → Event) (app : SprintApp)
    → AllOrNothing app (returned m event app)
returned-AllOrNothing m event app =
    rw (returned-announced m event app) (announced-AllOrNothing m event app)

module _ (driver : Driver) (parse_date : Text → Option ℕ) (now : ℕ) (g : Gate) (user id : ℕ) where
  -- What each request does in its transaction, behind the gate.
  abbrev creates : ℕ → CreateSprintDto → ℕ → Action Db Error SprintRow
  creates fresh dto w =
      create_sprint_in_workspace fresh now user w dto (parse_date dto.starts_at)
        (parse_date dto.ends_at)

  abbrev changes : ℕ → UpdateSprintMetadataDto → ℕ → Action Db Error (Element SprintRow)
  changes sprint dto w = update_sprint_metadata_in_workspace parse_date now driver w sprint dto

  abbrev adds : ℕ → List ℕ → ℕ → Action Db Error (Unit {0})
  adds sprint items w = add_sprint_work_items_in_workspace now user w sprint items

  abbrev removes : ℕ → ℕ → ℕ → Action Db Error (Unit {0})
  removes sprint item w = remove_sprint_work_item_in_workspace driver now w sprint item

  abbrev deletes : ℕ → ℕ → Action Db Error (Unit {0})
  deletes sprint w = delete_sprint_in_workspace driver w sprint

  abbrev gated : {A : Type 0} → (ℕ → Action Db Error A) → Action Db Error A
  gated k = gate_of g id user >>= k

  handle-IsValid :
      (r : Request) (app : SprintApp)
      → IsValid app.db
      → IsValid (handle driver parse_date now g user id r app).1.db
  unfolding handle create_sprint_behind update_sprint_metadata_behind add_sprint_work_items_behind
      remove_sprint_work_item_behind delete_sprint_behind returned
  handle-IsValid (create fresh dto) app v =
      tested-IsValid (date_ge (parse_date dto.starts_at) (parse_date dto.ends_at)) _
        (returned-Keeps (gated (creates fresh dto)) sprint_created (
          gate-Keeps g id user (creates fresh dto) λ w.
            create_in-Keeps fresh now user w dto (parse_date dto.starts_at)
              (parse_date dto.ends_at)))
        app v
  handle-IsValid (change sprint dto) app v =
      returned-Keeps (gated (changes sprint dto)) sprint_updated
        (gate-Keeps g id user (changes sprint dto)
          λ w. change_in-Keeps driver parse_date now w sprint dto)
        app v
  handle-IsValid (add sprint items) app v =
      announced-Keeps (gated (adds sprint items)) (λ _. sprint_work_items_changed id sprint items)
        (gate-Keeps g id user (adds sprint items) λ w. add_in-Keeps now user w sprint items) app v
  handle-IsValid (remove sprint item) app v =
      announced-Keeps (gated (removes sprint item))
        (λ _. sprint_work_items_changed id sprint (item ∷ []))
        (gate-Keeps g id user (removes sprint item) λ w. remove_in-Keeps driver now w sprint item)
        app v
  handle-IsValid (delete sprint) app v =
      announced-Keeps (gated (deletes sprint)) (λ _. sprint_deleted id sprint)
        (gate-Keeps g id user (deletes sprint) λ w. delete_in-Keeps driver w sprint) app v

  pub handle-AllOrNothing :
      (r : Request) (app : SprintApp)
      → AllOrNothing app (handle driver parse_date now g user id r app)
  unfolding handle create_sprint_behind update_sprint_metadata_behind add_sprint_work_items_behind
      remove_sprint_work_item_behind delete_sprint_behind returned
  handle-AllOrNothing (create fresh dto) app =
      tested-AllOrNothing (date_ge (parse_date dto.starts_at) (parse_date dto.ends_at)) _ app
        (returned-AllOrNothing (gated (creates fresh dto)) sprint_created app)
  handle-AllOrNothing (change sprint dto) app =
      returned-AllOrNothing (gated (changes sprint dto)) sprint_updated app
  handle-AllOrNothing (add sprint items) app =
      announced-AllOrNothing (gated (adds sprint items))
        (λ _. sprint_work_items_changed id sprint items) app
  handle-AllOrNothing (remove sprint item) app =
      announced-AllOrNothing (gated (removes sprint item))
        (λ _. sprint_work_items_changed id sprint (item ∷ [])) app
  handle-AllOrNothing (delete sprint) app =
      announced-AllOrNothing (gated (deletes sprint)) (λ _. sprint_deleted id sprint) app
