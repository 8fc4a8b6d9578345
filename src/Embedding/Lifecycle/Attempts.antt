-- ===== src/Embedding/Lifecycle/Attempts.antt =====
-- A job is claimed at most as often as it has attempts, over any history of the table.
use prism_nestjs.Prelude.{
  ℕ, ◌+◌, ◌≤◌, ◌≡◌, refl, subst, Bool, false, Option, none, some, List, [], ◌∷◌, ◌++◌, map, arith,
  any, filter, update, find, All, Bool-cases, inl, inr, ◌==◌, if◌then◌else◌,
}
use prism_nestjs.Prelude.Driver.{Driver}
use prism_nestjs.Embedding.{
  EmbeddingJobRow, CreateEmbeddingJobParams, ClaimEmbeddingJobsParams, UpdateEmbeddingJobParams, Db,
  ReportStatus,
}
use prism_nestjs.Embedding.Repository.{
  new_job, create_embedding_job, is_among, claimed_job, candidate_jobs, claim_rows, reported_job,
  is_target, update_scheduled, update_embedding_job,
}
use prism_nestjs.Embedding.Repository.Rows.{is_among-same_key}
use prism_nestjs.Embedding.Lifecycle.{
  IsConsistent, IsValid, Event, create, claim, report, apply, apply-IsValid,
}

abbrev pub has_key : ℕ → EmbeddingJobRow → Bool
has_key i j = j.embedding_job_id == i

-- Whether a statement returns the job as claimed.
abbrev pub claims_now : ℕ → Event → Db → Bool
claims_now i (claim now locked p) db = any (has_key i) (claim_rows now locked p db).0
claims_now i _ db = false

-- How often a history of statements claims the job.
pub claims_of : ℕ → List Event → Db → ℕ
claims_of i [] db = 0
claims_of i (e ∷ es) db = (if claims_now i e db then 1 else 0) + claims_of i es (apply e db)

find-append :
    (i : ℕ) (xs ys : List EmbeddingJobRow) {j : EmbeddingJobRow}
    → find (has_key i) xs ≡ some j
    → find (has_key i) (xs ++ ys) ≡ some j
find-append i [] ys h = cc
find-append i (x ∷ xs) ys {j} h = ground (arith, find-append i xs ys {j = j})

-- Rewriting rows in place, by a test and a change that only the found row must be known for.
find-update :
    (i : ℕ) (p : EmbeddingJobRow → Bool) (f : EmbeddingJobRow → EmbeddingJobRow)
    → ((j : EmbeddingJobRow) → (f j).embedding_job_id ≡ j.embedding_job_id)
    → (xs : List EmbeddingJobRow) {j : EmbeddingJobRow} → find (has_key i) xs ≡ some j
    → find (has_key i) (update p f xs) ≡ some (if p j then f j else j)
find-update i p f k [] h = cc
find-update i p f k (x ∷ xs) {j} h = ground (arith, k x, find-update i p f k xs {j = j})

find-key :
    (i : ℕ) (xs : List EmbeddingJobRow) {j : EmbeddingJobRow}
    → find (has_key i) xs ≡ some j
    → j.embedding_job_id ≡ i
find-key i [] h = cc
find-key i (x ∷ xs) {j} h = ground (arith, find-key i xs {j = j})

find-All :
    (P : EmbeddingJobRow → Type 0) (i : ℕ) (xs : List EmbeddingJobRow) {j : EmbeddingJobRow}
    → All P xs
    → find (has_key i) xs ≡ some j
    → P j
find-All P i [] a h = cc
find-All P i (x ∷ xs) {j} a h = elim (Bool-cases (has_key i x)) [
  | inl e ↦ subst P (ground arith) a.0
  | inr e ↦ find-All P i xs a.1 (ground arith)
]

any-claimed_none :
    (now i : ℕ) (cs xs : List EmbeddingJobRow) (j : EmbeddingJobRow)
    → is_among cs j ≡ false
    → j.embedding_job_id ≡ i
    → any (has_key i) (map (claimed_job now) (filter (is_among cs) xs)) ≡ false
any-claimed_none now i cs [] j h e = refl
any-claimed_none now i cs (x ∷ xs) j h e =
    ground (arith, is_among-same_key cs x j, any-claimed_none now i cs xs j h e)

any-claimed :
    (now i : ℕ) (cs xs : List EmbeddingJobRow) (j : EmbeddingJobRow)
    → find (has_key i) xs ≡ some j
    → any (has_key i) (map (claimed_job now) (filter (is_among cs) xs)) ≡ is_among cs j
any-claimed now i cs [] j h = cc
any-claimed now i cs (x ∷ xs) j h = ground (
  arith,
  any-claimed now i cs xs j,
  any-claimed_none now i cs xs x,
  is_among-same_key cs x j,
  find-key i xs {j = j},
)

-- The job after a statement, with its attempts counted.
abbrev Counts : ℕ → EmbeddingJobRow → Bool → Db → Type 0
Counts i j claimed db' =
    (k : EmbeddingJobRow) × (find (has_key i) db'.jobs ≡ some k)
    × (k.max_attempts ≡ j.max_attempts)
    × (k.attempts ≡ (if claimed then 1 else 0) + j.attempts)

create-Counts :
    (i fresh now : ℕ) (p : CreateEmbeddingJobParams) (db : Db) (j : EmbeddingJobRow)
    → find (has_key i) db.jobs ≡ some j
    → Counts i j false (create_embedding_job fresh now p db).1
unfolding create_embedding_job
create-Counts i fresh now p db j h =
    (j, ground (arith, find-append i db.jobs (new_job fresh now p ∷ []) {j = j}), refl, omega arith)

claim-Counts :
    (i now : ℕ) (locked : ℕ → Bool) (p : ClaimEmbeddingJobsParams) (db : Db) (j : EmbeddingJobRow)
    → find (has_key i) db.jobs ≡ some j
    → Counts i j (any (has_key i) (claim_rows now locked p db).0) (claim_rows now locked p db).1
unfolding claim_rows
claim-Counts i now locked p db j h =
    let cs = candidate_jobs now locked p db.jobs in
    (
      if is_among cs j then claimed_job now j else j,
      find-update i (is_among cs) (claimed_job now) (λ k. refl) db.jobs h,
      ground arith,
      ground (arith, any-claimed now i cs db.jobs j),
    )

update-Counts :
    (i now : ℕ) (p : UpdateEmbeddingJobParams) (scheduled : EmbeddingJobRow → ℕ) (db : Db)
    (j : EmbeddingJobRow)
    → find (has_key i) db.jobs ≡ some j
    → Counts i j false (record db {
      jobs = update (is_target p) (λ k. reported_job now p (scheduled k) k) db.jobs;
    })
update-Counts i now p scheduled db j h =
    let set = λ (k : EmbeddingJobRow). reported_job now p (scheduled k) k in
    (
      if is_target p j then set j else j,
      find-update i (is_target p) set (λ k. refl) db.jobs h,
      ground arith,
      ground arith,
    )

report-Counts :
    (driver : Driver) (i now : ℕ) (p : UpdateEmbeddingJobParams) (s : ReportStatus) (at : Option ℕ)
    (db : Db) (j : EmbeddingJobRow)
    → find (has_key i) db.jobs ≡ some j
    → Counts i j false (update_scheduled driver now p s at db).1
report-Counts driver i now p ReportStatus.queued (some at) db j h =
    update-Counts i now p (λ k. at) db j h
report-Counts driver i now p ReportStatus.queued none db j h = (j, ground arith, refl, omega arith)
report-Counts driver i now p ReportStatus.completed at db j h =
    update-Counts i now p (λ k. k.scheduled_at) db j h
report-Counts driver i now p ReportStatus.failed at db j h =
    update-Counts i now p (λ k. k.scheduled_at) db j h
report-Counts driver i now p ReportStatus.cancelled at db j h =
    update-Counts i now p (λ k. k.scheduled_at) db j h

apply-Counts :
    (i : ℕ) (e : Event) (db : Db) (j : EmbeddingJobRow)
    → find (has_key i) db.jobs ≡ some j
    → Counts i j (claims_now i e db) (apply e db)
unfolding apply update_embedding_job
apply-Counts i (create fresh now p) db j h = create-Counts i fresh now p db j h
apply-Counts i (claim now locked p) db j h = claim-Counts i now locked p db j h
apply-Counts i (report driver now p) db j h =
    report-Counts driver i now p p.status p.scheduled_at db j h

-- In a valid table, over any history of statements, a job is claimed at most as often as its
-- attempts left, however it is re-queued, reported or cancelled in between.
pub claims_bounded :
    (i : ℕ) (es : List Event) (db : Db) (j : EmbeddingJobRow)
    → IsValid db
    → find (has_key i) db.jobs ≡ some j
    → claims_of i es db + j.attempts ≤ j.max_attempts
unfolding claims_of
claims_bounded i [] db j v h =
    let c = find-All IsConsistent i db.jobs v.consistent h in omega (arith, c.bounded)
claims_bounded i (e ∷ es) db j v h =
    let (k, found, same, counted) = apply-Counts i e db j h in
    omega (arith, claims_bounded i es (apply e db) k (apply-IsValid e db v) found)
