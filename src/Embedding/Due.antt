-- ===== src/Embedding/Due.antt =====
-- The jobs that a claim may take, said without the tests of the query.
use prism_nestjs.Prelude.{
  ℕ, ◌≤◌, ◌<◌, ◌⊎◌, ◌≡◌, refl, Option, any, inl, Bool, true, false, some, none, List, [], ◌∷◌,
  arith,
}
use prism_nestjs.Prelude.Text.{Text, text_eq_iff}
use prism_nestjs.Embedding.{
  EmbeddingJobRow, ClaimEmbeddingJobsParams, JobStatus, JobType, same_type,
}
use prism_nestjs.Embedding.Repository.{is_candidate, admits_type, admits_project, admits_model}

-- No types are asked for, or the type is one of them.
abbrev pub Lists : JobType → List JobType → Type 0
Lists t [] = ⊥
Lists t (x ∷ ts) = (t ≡ x) ⊎ Lists t ts

abbrev pub IsListed : Option (List JobType) → JobType → Type 0
IsListed none t = Unit
IsListed (some ts) t = Lists t ts

lists_due : (t : JobType) (ts : List JobType) → any (same_type t) ts ≡ true → Lists t ts
lists_due t [] h = cc
lists_due t (x ∷ ts) h = ground (arith, lists_due t ts)

lists_admitted : (t : JobType) (ts : List JobType) → Lists t ts → any (same_type t) ts ≡ true
lists_admitted t [] h = absurd h
lists_admitted t (x ∷ ts) h = ground (arith, lists_admitted t ts)

type_due : (o : Option (List JobType)) (t : JobType) → admits_type o t ≡ true → IsListed o t
type_due none t h = tt
type_due (some ts) t h = lists_due t ts h

type_admitted : (o : Option (List JobType)) (t : JobType) → IsListed o t → admits_type o t ≡ true
type_admitted none t h = refl
type_admitted (some ts) t h = lists_admitted t ts h

project_due : (o q : Option ℕ) → admits_project o q ≡ true → (o ≡ none) ⊎ (o ≡ q)
project_due none q h = inl refl
project_due (some i) none h = cc
project_due (some i) (some q) h = ground arith

project_admitted : (o q : Option ℕ) → (o ≡ none) ⊎ (o ≡ q) → admits_project o q ≡ true
project_admitted none q h = refl
project_admitted (some i) none h = ground arith
project_admitted (some i) (some q) h = ground arith

model_due : (o : Option Text) (m : Text) → admits_model o m ≡ true → (o ≡ none) ⊎ (o ≡ some m)
model_due none m h = inl refl
model_due (some n) m h = ground (arith, text_eq_iff m n)

model_admitted : (o : Option Text) (m : Text) → (o ≡ none) ⊎ (o ≡ some m) → admits_model o m ≡ true
model_admitted none m h = refl
model_admitted (some n) m h = ground (arith, text_eq_iff m n)

module _ (now : ℕ) (locked : ℕ → Bool) (p : ClaimEmbeddingJobsParams) where
  -- A job that the claim may take.
  abbrev pub IsDue : EmbeddingJobRow → Type 0
  IsDue j =
      (j.workspace_id ≡ p.workspace_id)
      × ((p.project_id ≡ none) ⊎ (p.project_id ≡ j.project_id))
      × (j.status ≡ JobStatus.queued)
      × (j.scheduled_at ≤ now)
      × (j.attempts < j.max_attempts)
      × ((p.model ≡ none) ⊎ (p.model ≡ some j.model))
      × IsListed p.job_types j.job_type
      × (locked j.embedding_job_id ≡ false)

  pub due : (j : EmbeddingJobRow) → is_candidate now locked p j ≡ true → IsDue j
  unfolding is_candidate
  due j h = ground (
    arith,
    project_due p.project_id j.project_id,
    model_due p.model j.model,
    type_due p.job_types j.job_type,
  )

  pub candidate : (j : EmbeddingJobRow) → IsDue j → is_candidate now locked p j ≡ true
  unfolding is_candidate
  candidate j (w, pr, q, s, a, m, t, l) = ground (
    arith,
    w,
    q,
    s,
    a,
    l,
    project_admitted p.project_id j.project_id pr,
    model_admitted p.model j.model m,
    type_admitted p.job_types j.job_type t,
  )
