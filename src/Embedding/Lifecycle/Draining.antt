-- ===== src/Embedding/Lifecycle/Draining.antt =====
-- Claims in a row hand out every job that is due.
use prism_nestjs.Prelude.{
  ℕ, zero, suc, ◌+◌, ◌*◌, ◌≤◌, ◌≡◌, refl, inl, inr, Bool, true, List, [], ◌∷◌, arith, length,
  filter, update, All, min,
}
use prism_nestjs.Embedding.{EmbeddingJobRow, ClaimEmbeddingJobsParams, Db}
use prism_nestjs.Embedding.Repository.{
  is_candidate, is_among, claimed_job, candidate_jobs, claim_rows,
}
use prism_nestjs.Embedding.Repository.Rows.{Has, UniqueIds}
use prism_nestjs.Embedding.Claiming.{chosen_is_candidate, claim_count, length-map}
use prism_nestjs.Embedding.Lifecycle.{update-UniqueIds}
use prism_nestjs.Embedding.Lifecycle.Exclusive.{running-not_candidate}

module _ (now : ℕ) (locked : ℕ → Bool) (p : ClaimEmbeddingJobsParams) where
  -- The jobs that may be claimed.
  abbrev pub due : Db → ℕ
  due db = length (filter (is_candidate now locked p) db.jobs)

  -- Claims in a row.
  pub claims : ℕ → Db → Db
  claims zero db = db
  claims (suc n) db = claims n (claim_rows now locked p db).1

  claimed-filter :
      (cs xs : List EmbeddingJobRow)
      → All (λ j. is_among cs j ≡ true → is_candidate now locked p j ≡ true) xs
      → length (filter (is_candidate now locked p) (update (is_among cs) (claimed_job now) xs))
          + length (filter (is_among cs) xs)
        ≡ length (filter (is_candidate now locked p) xs)
  claimed-filter cs [] a = refl
  claimed-filter cs (x ∷ xs) a = ground (
    arith,
    claimed-filter cs xs a.1,
    a.0,
    running-not_candidate now locked p (claimed_job now x) refl,
  )

  chosen_candidates :
      (jobs xs : List EmbeddingJobRow)
      → UniqueIds jobs
      → ((j : EmbeddingJobRow) → Has j xs → Has j jobs)
      → All
          (λ j.
            is_among (candidate_jobs now locked p jobs) j ≡ true
            → is_candidate now locked p j ≡ true)
          xs
  chosen_candidates jobs [] u h = tt
  chosen_candidates jobs (x ∷ xs) u h = (
    (λ e. chosen_is_candidate now locked p jobs x u (h x (inl refl)) e),
    chosen_candidates jobs xs u (λ j k. h j (inr k)),
  )

  due-claim :
      (db : Db)
      → UniqueIds db.jobs
      → due (claim_rows now locked p db).1 + min p.limit (due db) ≡ due db
  unfolding claim_rows
  due-claim db u =
      let chosen = candidate_jobs now locked p db.jobs in
      ground (
        arith,
        claimed-filter chosen db.jobs (chosen_candidates db.jobs db.jobs u (λ j h. h)),
        claim_count now locked p db u,
        length-map (claimed_job now) (filter (is_among chosen) db.jobs),
      )

  claim-UniqueIds : (db : Db) → UniqueIds db.jobs → UniqueIds (claim_rows now locked p db).1.jobs
  unfolding claim_rows
  claim-UniqueIds db u =
      update-UniqueIds (is_among (candidate_jobs now locked p db.jobs)) (claimed_job now)
        (λ j. refl) db.jobs u

  times_suc : (n l : ℕ) → suc n * l ≡ l + n * l
  times_suc n l = omega arith

  -- Where keys are unique and at most n times the limit of jobs are due, n claims in a row at one
  -- time leave none that is due.
  pub claims-due :
      (n : ℕ) (db : Db) → UniqueIds db.jobs → due db ≤ n * p.limit → due (claims n db) ≡ 0
  unfolding claims
  claims-due zero db u h = omega (arith, h)
  claims-due (suc n) db u h =
      claims-due n (claim_rows now locked p db).1 (claim-UniqueIds db u)
        (ground (arith, due-claim db u, times_suc n p.limit))
