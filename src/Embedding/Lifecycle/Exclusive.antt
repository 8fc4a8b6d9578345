-- ===== src/Embedding/Lifecycle/Exclusive.antt =====
-- No job is handed out by two claims in a row.
use mathlib.Core.Bool.{false≢true}
use prism_nestjs.Prelude.{
  ℕ, ◌≡◌, refl, sym, ◌∙◌, inl, inr, Bool, true, false, List, [], ◌∷◌, arith, map, filter, update,
  Bool-cases,
}
use prism_nestjs.Embedding.{EmbeddingJobRow, ClaimEmbeddingJobsParams, Db, JobStatus}
use prism_nestjs.Embedding.Repository.{
  is_candidate, is_among, claimed_job, candidate_jobs, claim_rows,
}
use prism_nestjs.Embedding.Repository.Rows.{Has, UniqueIds, is_among-same_key}
use prism_nestjs.Embedding.Claiming.{chosen_is_candidate}
use prism_nestjs.Embedding.Lifecycle.{IsValid, update-UniqueIds}

Has-update :
    (now : ℕ) (cs xs : List EmbeddingJobRow) (r : EmbeddingJobRow)
    → Has r (map (claimed_job now) (filter (is_among cs) xs))
    → Has r (update (is_among cs) (claimed_job now) xs)
Has-update now cs [] r h = h
Has-update now cs (x ∷ xs) r h = ground (arith, Has-update now cs xs r)

is_among-claimed :
    (now : ℕ) (cs xs : List EmbeddingJobRow) (r : EmbeddingJobRow)
    → is_among (map (claimed_job now) (filter (is_among cs) xs)) r ≡ true
    → is_among cs r ≡ true
is_among-claimed now cs [] r h = cc
is_among-claimed now cs (x ∷ xs) r h =
    ground (arith, is_among-claimed now cs xs r, is_among-same_key cs x r)

pub running-not_candidate :
    (now : ℕ) (locked : ℕ → Bool) (p : ClaimEmbeddingJobsParams) (r : EmbeddingJobRow)
    → r.status ≡ JobStatus.running
    → is_candidate now locked p r ≡ false
unfolding is_candidate
running-not_candidate now locked p r e = ground arith

Has-status :
    (now : ℕ) (rows : List EmbeddingJobRow) (r : EmbeddingJobRow)
    → Has r (map (claimed_job now) rows)
    → r.status ≡ JobStatus.running
Has-status now [] r h = absurd h
Has-status now (x ∷ rows) r (inl e) = ground arith
Has-status now (x ∷ rows) r (inr h) = Has-status now rows r h

-- In a valid table, a claim right after a claim, whatever the two ask for, returns no job that the
-- first returned.
pub claim-claim_disjoint :
    (now later : ℕ) (locked locked' : ℕ → Bool) (p q : ClaimEmbeddingJobsParams) (db : Db)
    (r : EmbeddingJobRow)
    → IsValid db
    → Has r (claim_rows now locked p db).0
    → is_among (claim_rows later locked' q (claim_rows now locked p db).1).0 r ≡ false
unfolding claim_rows
claim-claim_disjoint now later locked locked' p q db r v h = elim (Bool-cases (is_among second r)) [
  | inr apart ↦ apart
  | inl again ↦ absurd (
      false≢true (
        sym (running-not_candidate later locked' q r (Has-status now _ r h))
        ∙ chosen_is_candidate later locked' q jobs r unique (Has-update now chosen db.jobs r h)
            (is_among-claimed later (candidate_jobs later locked' q jobs) jobs r again)))
]
  where
    chosen : List EmbeddingJobRow
    chosen = candidate_jobs now locked p db.jobs

    jobs : List EmbeddingJobRow
    jobs = update (is_among chosen) (claimed_job now) db.jobs

    second : List EmbeddingJobRow
    second = map (claimed_job later) (filter (is_among (candidate_jobs later locked' q jobs)) jobs)

    unique : UniqueIds jobs
    unique = update-UniqueIds (is_among chosen) (claimed_job now) (λ j. refl) db.jobs v.unique
