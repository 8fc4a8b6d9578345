-- ===== src/Embedding/Lifecycle.antt =====
-- The life of the jobs of the table under any sequence of the repository's statements.
pub mod Attempts
pub mod Exclusive
pub mod Draining
use prism_nestjs.Prelude.{
  ℕ, ◌+◌, ◌≤◌, ◌<◌, ◌≡◌, refl, ◌⊎◌, inl, inr, ◌≢◌, Bool, true, false, not, Option, none, some, List,
  [], ◌∷◌, ◌++◌, arith, any, filter, update, All, All-append, Bool-cases, ◌==◌,
}
use prism_nestjs.Prelude.Driver.{Driver}
use prism_nestjs.Embedding.{
  EmbeddingJobRow, CreateEmbeddingJobParams, ClaimEmbeddingJobsParams, UpdateEmbeddingJobParams, Db,
  JobStatus, ReportStatus, embedding_job_dimensions,
}
use prism_nestjs.Embedding.Repository.{
  in_scope, admits, new_job, create_embedding_job, is_candidate, is_among, claimed_job,
  candidate_jobs, claim_rows, reported_job, is_target, update_scheduled, update_embedding_job,
}
use prism_nestjs.Embedding.Repository.Rows.{Has, UniqueIds, is_among-same_key}
use prism_nestjs.Embedding.Claiming.{chosen_is_candidate}

-- What the times and the message say at each status.
abbrev pub IsTimed : JobStatus → EmbeddingJobRow → Type 0
IsTimed JobStatus.queued j = (j.started_at ≡ none) × (j.completed_at ≡ none)
IsTimed JobStatus.running j =
    (j.started_at ≢ none) × (j.completed_at ≡ none) × (j.error_message ≡ none)
IsTimed JobStatus.completed j = (j.completed_at ≢ none) × (j.error_message ≡ none)
IsTimed JobStatus.failed j = j.completed_at ≢ none
IsTimed JobStatus.cancelled j = (j.completed_at ≢ none) × (j.error_message ≡ none)

pub record IsConsistent (j : EmbeddingJobRow) : Type 0 where
  pub bounded : j.attempts ≤ j.max_attempts
  pub positive : 0 < j.max_attempts
  pub sized : j.dimensions ≡ embedding_job_dimensions
  pub scoped : in_scope j.job_type j.project_id ≡ true
  pub timed : IsTimed j.status j

pub record IsValid (db : Db) : Type 0 where
  pub unique : UniqueIds db.jobs
  pub consistent : All IsConsistent db.jobs

is_among-append_false :
    (xs : List EmbeddingJobRow) (x j : EmbeddingJobRow)
    → is_among xs x ≡ false
    → (j.embedding_job_id == x.embedding_job_id) ≡ false
    → is_among (xs ++ j ∷ []) x ≡ false
is_among-append_false [] x j h e = ground arith
is_among-append_false (y ∷ xs) x j h e = ground (arith, is_among-append_false xs x j)

UniqueIds-append :
    (xs : List EmbeddingJobRow) (j : EmbeddingJobRow)
    → UniqueIds xs
    → any (λ x. x.embedding_job_id == j.embedding_job_id) xs ≡ false
    → UniqueIds (xs ++ j ∷ [])
UniqueIds-append [] j u h = (refl, tt)
UniqueIds-append (x ∷ xs) j u h =
    ground (arith, UniqueIds-append xs j u.1, is_among-append_false xs x j)

new_job-IsConsistent :
    (fresh now : ℕ) (p : CreateEmbeddingJobParams) (db : Db)
    → admits fresh p db ≡ true
    → IsConsistent (new_job fresh now p)
unfolding admits
new_job-IsConsistent fresh now p db h = ground arith

create-IsValid :
    (fresh now : ℕ) (p : CreateEmbeddingJobParams) (db : Db)
    → IsValid db
    → IsValid (create_embedding_job fresh now p db).1
unfolding create_embedding_job
create-IsValid fresh now p db v = elim (Bool-cases (admits fresh p db)) [
  | inr refused ↦ rw (refused, create_embedding_job) v
  | inl admitted ↦
      let j = new_job fresh now p in
      rw (admitted, create_embedding_job)
        (record {
          unique = UniqueIds-append db.jobs j v.unique (key_is_new admitted);
          consistent =
              All-append IsConsistent db.jobs (j ∷ []) v.consistent
                (new_job-IsConsistent fresh now p db admitted, tt);
        })
]
  where
    key_is_new : admits fresh p db ≡ true → any (λ j. j.embedding_job_id == fresh) db.jobs ≡ false
    key_is_new h = unfold admits in ground arith

-- Rewriting rows in place, where the key stays.
is_among-update :
    (p : EmbeddingJobRow → Bool) (f : EmbeddingJobRow → EmbeddingJobRow)
    → ((j : EmbeddingJobRow) → (f j).embedding_job_id ≡ j.embedding_job_id)
    → (xs : List EmbeddingJobRow) (j : EmbeddingJobRow) → is_among (update p f xs) j ≡ is_among xs j
is_among-update p f k [] j = refl
is_among-update p f k (x ∷ xs) j = ground (arith, k x, is_among-update p f k xs j)

pub update-UniqueIds :
    (p : EmbeddingJobRow → Bool) (f : EmbeddingJobRow → EmbeddingJobRow)
    → ((j : EmbeddingJobRow) → (f j).embedding_job_id ≡ j.embedding_job_id)
    → (xs : List EmbeddingJobRow) → UniqueIds xs
    → UniqueIds (update p f xs)
update-UniqueIds p f k [] u = tt
update-UniqueIds p f k (x ∷ xs) u = ground (
  arith,
  update-UniqueIds p f k xs u.1,
  is_among-update p f k xs x,
  is_among-update p f k xs (f x),
  is_among-same_key xs (f x) x,
  k x,
)

All-update :
    (P : EmbeddingJobRow → Type 0) (p : EmbeddingJobRow → Bool)
    (f : EmbeddingJobRow → EmbeddingJobRow) (xs : List EmbeddingJobRow)
    → ((j : EmbeddingJobRow) → Has j xs → p j ≡ true → P j → P (f j))
    → All P xs
    → All P (update p f xs)
All-update P p f [] k h = tt
All-update P p f (x ∷ xs) k h = elim (Bool-cases (p x)) [
  | inl e ↦ rw (e, update) (k x (inl refl) e h.0, All-update P p f xs (λ j m. k j (inr m)) h.1)
  | inr e ↦ rw (e, update) (h.0, All-update P p f xs (λ j m. k j (inr m)) h.1)
]

claimed_job-IsConsistent :
    (now : ℕ) (locked : ℕ → Bool) (p : ClaimEmbeddingJobsParams) (j : EmbeddingJobRow)
    → is_candidate now locked p j ≡ true
    → IsConsistent j
    → IsConsistent (claimed_job now j)
unfolding is_candidate
claimed_job-IsConsistent now locked p j h c = record {
  bounded = ground arith;
  positive = c.positive;
  sized = c.sized;
  scoped = c.scoped;
  timed = ground arith;
}

claim-IsValid :
    (now : ℕ) (locked : ℕ → Bool) (p : ClaimEmbeddingJobsParams) (db : Db)
    → IsValid db
    → IsValid (claim_rows now locked p db).1
unfolding claim_rows
claim-IsValid now locked p db v =
    let chosen = is_among (candidate_jobs now locked p db.jobs) in
    record {
      unique = update-UniqueIds chosen (claimed_job now) (λ j. refl) db.jobs v.unique;
      consistent =
          All-update IsConsistent chosen (claimed_job now) db.jobs
            (λ j h e c.
              claimed_job-IsConsistent now locked p j
                (chosen_is_candidate now locked p db.jobs j v.unique h e) c)
            v.consistent;
    }

reported_job-IsConsistent :
    (now : ℕ) (p : UpdateEmbeddingJobParams) (scheduled : ℕ) (j : EmbeddingJobRow)
    → IsConsistent j
    → IsConsistent (reported_job now p scheduled j)
reported_job-IsConsistent now p scheduled j c = record {
  bounded = c.bounded;
  positive = c.positive;
  sized = c.sized;
  scoped = c.scoped;
  timed = timed_of p.status refl;
}
  where
    timed_of :
        (s : ReportStatus)
        → p.status ≡ s
        → IsTimed (reported_job now p scheduled j).status (reported_job now p scheduled j)
    timed_of ReportStatus.queued e = rw e (refl, refl)
    timed_of ReportStatus.completed e = rw e ((λ q. cc), refl)
    timed_of ReportStatus.failed e = rw e (λ q. cc)
    timed_of ReportStatus.cancelled e = rw e ((λ q. cc), refl)

update_rows-IsValid :
    (now : ℕ) (p : UpdateEmbeddingJobParams) (scheduled : EmbeddingJobRow → ℕ) (db : Db)
    → IsValid db
    → IsValid (record db {
      jobs = update (is_target p) (λ j. reported_job now p (scheduled j) j) db.jobs;
    })
update_rows-IsValid now p scheduled db v =
    let set = λ (j : EmbeddingJobRow). reported_job now p (scheduled j) j in
    record {
      unique = update-UniqueIds (is_target p) set (λ j. refl) db.jobs v.unique;
      consistent =
          All-update IsConsistent (is_target p) set db.jobs
            (λ j h e c. reported_job-IsConsistent now p (scheduled j) j c) v.consistent;
    }

update_scheduled-IsValid :
    (driver : Driver) (now : ℕ) (p : UpdateEmbeddingJobParams) (s : ReportStatus) (at : Option ℕ)
    (db : Db)
    → IsValid db
    → IsValid (update_scheduled driver now p s at db).1
update_scheduled-IsValid driver now p ReportStatus.queued (some at) db v =
    update_rows-IsValid now p (λ j. at) db v
update_scheduled-IsValid driver now p ReportStatus.queued none db v = ground arith
update_scheduled-IsValid driver now p ReportStatus.completed at db v =
    update_rows-IsValid now p (λ j. j.scheduled_at) db v
update_scheduled-IsValid driver now p ReportStatus.failed at db v =
    update_rows-IsValid now p (λ j. j.scheduled_at) db v
update_scheduled-IsValid driver now p ReportStatus.cancelled at db v =
    update_rows-IsValid now p (λ j. j.scheduled_at) db v

-- The statements on the table, each with its clock, its locks or its new key.
pub data Event : Type 0 where
  create : ℕ → ℕ → CreateEmbeddingJobParams → Event
  claim : ℕ → (ℕ → Bool) → ClaimEmbeddingJobsParams → Event
  report : Driver → ℕ → UpdateEmbeddingJobParams → Event

unfoldable pub apply : Event → Db → Db
apply (create fresh now p) db = (create_embedding_job fresh now p db).1
apply (claim now locked p) db = (claim_rows now locked p db).1
apply (report driver now p) db = (update_embedding_job driver now p db).1

-- Every statement, refused or not, keeps keys unique, and every job within its attempts, in its
-- scope, and with the times and the message of its status.
pub apply-IsValid : (e : Event) (db : Db) → IsValid db → IsValid (apply e db)
unfolding apply update_embedding_job
apply-IsValid (create fresh now p) db v = create-IsValid fresh now p db v
apply-IsValid (claim now locked p) db v = claim-IsValid now locked p db v
apply-IsValid (report driver now p) db v =
    update_scheduled-IsValid driver now p p.status p.scheduled_at db v
