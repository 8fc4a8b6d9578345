-- ===== src/Embedding/Claiming.antt =====
-- What a claim of embedding jobs takes, for any locks held by other transactions.
use prism_nestjs.Prelude.{
  ℕ, suc, ◌≤◌, ◌<◌, ◌+◌, ◌⊎◌, ◌≡◌, refl, ◌==◌, ◌↔◌, sym, ap, ◌∙◌, subst, leb, leb→le, inl, inr,
  Bool, true, false, some, none, List, [], ◌∷◌, arith, length, filter, take, map, All, min,
  Bool-cases,
}
use prism_nestjs.Embedding.{EmbeddingJobRow, ClaimEmbeddingJobsParams, Db, JobStatus}
use prism_nestjs.Embedding.Repository.{
  is_candidate, comes_first, sort_rows, candidate_jobs, is_among, claimed_job, claim_rows,
}
use prism_nestjs.Embedding.Repository.Rows.{
  Has, Has→is_among, is_among-same_key, UniqueIds, Has-filter, Has-of_filter, Has-of_take,
  is_among-take, UniqueIds-filter, UniqueIds-take, passes_of_among, length-filter-is_among,
}
use prism_nestjs.Embedding.Repository.Sorting.{
  sort_rows-Sorted, Has-sort_rows, Has-of_sort_rows, is_among-sort_rows, sort_rows-UniqueIds,
  length-sort_rows, take-first,
}
use prism_nestjs.Embedding.Due.{IsDue, due, candidate}

length-take : (n : ℕ) (xs : List EmbeddingJobRow) → length (take n xs) ≡ min n (length xs)
length-take n [] = omega arith
length-take ℕ.zero (x ∷ xs) = omega arith
length-take (suc n) (x ∷ xs) = omega (arith, length-take n xs)

take-whole :
    (n : ℕ) (j : EmbeddingJobRow) (xs : List EmbeddingJobRow)
    → length xs ≤ n
    → is_among (take n xs) j ≡ is_among xs j
take-whole n j [] h = refl
take-whole ℕ.zero j (x ∷ xs) h = absurd (omega arith)
take-whole (suc n) j (x ∷ xs) h = ground (arith, take-whole n j xs)

pub length-map :
    (f : EmbeddingJobRow → EmbeddingJobRow) (xs : List EmbeddingJobRow)
    → length (map f xs) ≡ length xs
length-map f [] = refl
length-map f (x ∷ xs) = ap suc (length-map f xs)

-- By the scheduled time, then the creation, then the id.
abbrev pub IsEarlier : EmbeddingJobRow → EmbeddingJobRow → Type 0
IsEarlier c j =
    (c.scheduled_at < j.scheduled_at)
    ⊎ ((c.scheduled_at ≡ j.scheduled_at)
        × ((c.created_at < j.created_at)
            ⊎ ((c.created_at ≡ j.created_at) × (c.embedding_job_id ≤ j.embedding_job_id))))

earlier : (c j : EmbeddingJobRow) → comes_first c j ≡ true → IsEarlier c j
unfolding comes_first
earlier c j h = ground arith

All-IsEarlier :
    (j : EmbeddingJobRow) (cs : List EmbeddingJobRow)
    → All (λ c. comes_first c j ≡ true) cs
    → All (λ c. IsEarlier c j) cs
All-IsEarlier j [] h = tt
All-IsEarlier j (c ∷ cs) h = (earlier c j h.0, All-IsEarlier j cs h.1)

module _ (now : ℕ) (locked : ℕ → Bool) (p : ClaimEmbeddingJobsParams) where
  chosen-Has :
      (jobs : List EmbeddingJobRow) (j : EmbeddingJobRow)
      → Has j (candidate_jobs now locked p jobs)
      → Has j jobs
  unfolding candidate_jobs
  chosen-Has jobs j h = Has-of_filter (is_candidate now locked p) j jobs (
      Has-of_sort_rows j (filter (is_candidate now locked p) jobs)
        (Has-of_take p.limit j (sort_rows (filter (is_candidate now locked p) jobs)) h))

  chosen-UniqueIds :
      (jobs : List EmbeddingJobRow) → UniqueIds jobs → UniqueIds (candidate_jobs now locked p jobs)
  unfolding candidate_jobs
  chosen-UniqueIds jobs u =
      UniqueIds-take p.limit (sort_rows (filter (is_candidate now locked p) jobs)) (
        sort_rows-UniqueIds (filter (is_candidate now locked p) jobs)
          (UniqueIds-filter (is_candidate now locked p) jobs u))

  -- A row of the table whose key is chosen is itself a candidate.
  pub chosen_is_candidate :
      (jobs : List EmbeddingJobRow) (j : EmbeddingJobRow)
      → UniqueIds jobs
      → Has j jobs
      → is_among (candidate_jobs now locked p jobs) j ≡ true
      → is_candidate now locked p j ≡ true
  unfolding candidate_jobs
  chosen_is_candidate jobs j u h e = passes_of_among (is_candidate now locked p) j jobs u h (
      sym (is_among-sort_rows j (filter (is_candidate now locked p) jobs))
      ∙ is_among-take p.limit j (sort_rows (filter (is_candidate now locked p) jobs)) e)

  -- As many jobs as the limit, or all the candidates.
  pub claim_count :
      (db : Db)
      → UniqueIds db.jobs
      → length (claim_rows now locked p db).0
        ≡ min p.limit (length (filter (is_candidate now locked p) db.jobs))
  unfolding claim_rows candidate_jobs
  claim_count db u =
      let chosen = candidate_jobs now locked p db.jobs in
      length-map (claimed_job now) (filter (is_among chosen) db.jobs)
      ∙ length-filter-is_among chosen db.jobs u (chosen-UniqueIds db.jobs u) (chosen-Has db.jobs)
      ∙ length-take p.limit (sort_rows (filter (is_candidate now locked p) db.jobs))
      ∙ ap (min p.limit) (length-sort_rows (filter (is_candidate now locked p) db.jobs))

  -- A returned row is that of a due job, running since now with one more attempt.
  abbrev pub IsTaken : List EmbeddingJobRow → EmbeddingJobRow → Type 0
  IsTaken jobs r =
      (j : EmbeddingJobRow) × Has j jobs
      × IsDue now locked p j
      × (r ≡ record j {
        status = JobStatus.running;
        attempts = j.attempts + 1;
        error_message = none;
        started_at = some now;
        completed_at = none;
      })

  IsTaken-All :
      (cs jobs xs : List EmbeddingJobRow)
      → ((j : EmbeddingJobRow)
          → Has j xs
          → Has j jobs × (is_among cs j ≡ true → is_candidate now locked p j ≡ true))
      → All (IsTaken jobs) (map (claimed_job now) (filter (is_among cs) xs))
  IsTaken-All cs jobs [] h = tt
  IsTaken-All cs jobs (x ∷ xs) h = elim (Bool-cases (is_among cs x)) [
    | inl e ↦
        let (m, c) = h x (inl refl) in
        rw (e, filter)
          ((x, m, due now locked p x (c e), refl), IsTaken-All cs jobs xs (λ j k. h j (inr k)))
    | inr e ↦ rw (e, filter) (IsTaken-All cs jobs xs (λ j k. h j (inr k)))
  ]

  -- Where keys are unique, every returned row is that of a job of the table that was due: of the
  -- workspace, the project, the types and the model asked for, queued, scheduled, with attempts left
  -- and not locked. The row is as the job was, but running since now, with one more attempt, no
  -- error and no end.
  pub claim_rows-IsTaken :
      (db : Db) → UniqueIds db.jobs → All (IsTaken db.jobs) (claim_rows now locked p db).0
  unfolding claim_rows
  claim_rows-IsTaken db u =
      IsTaken-All (candidate_jobs now locked p db.jobs) db.jobs db.jobs
        (λ j h. (h, chosen_is_candidate db.jobs j u h))

  -- Every job that is taken comes before a due job that is not, or stands level with it, by the
  -- scheduled time, then the creation, then the id.
  pub claim_priority :
      (db : Db) (j : EmbeddingJobRow)
      → Has j db.jobs
      → IsDue now locked p j
      → is_among (candidate_jobs now locked p db.jobs) j ≡ false
      → All (λ c. IsEarlier c j) (candidate_jobs now locked p db.jobs)
  unfolding candidate_jobs
  claim_priority db j h d e = All-IsEarlier j (candidate_jobs now locked p db.jobs) (
      take-first p.limit j (sort_rows (filter (is_candidate now locked p) db.jobs))
        (sort_rows-Sorted (filter (is_candidate now locked p) db.jobs))
        (Has-sort_rows j (filter (is_candidate now locked p) db.jobs)
          (Has-filter (is_candidate now locked p) j db.jobs h (candidate now locked p j d)))
        e)

  returned-among :
      (j : EmbeddingJobRow) (cs xs : List EmbeddingJobRow)
      → Has j xs
      → is_among cs j ≡ true
      → is_among (map (claimed_job now) (filter (is_among cs) xs)) j ≡ true
  returned-among j cs [] h e = absurd h
  returned-among j cs (x ∷ xs) (inl k) e =
      let hit : is_among cs x ≡ true = subst (λ y. is_among cs y ≡ true) (sym k) e in ground arith
  returned-among j cs (x ∷ xs) (inr h) e = ground (arith, returned-among j cs xs h e)

  among-returned :
      (j : EmbeddingJobRow) (cs xs : List EmbeddingJobRow)
      → is_among (map (claimed_job now) (filter (is_among cs) xs)) j ≡ true
      → is_among cs j ≡ true
  among-returned j cs [] h = cc
  among-returned j cs (x ∷ xs) h = elim (Bool-cases (is_among cs x)) [
    | inr out ↦ among-returned j cs xs (ground arith)
    | inl hit ↦ elim (Bool-cases (x.embedding_job_id == j.embedding_job_id)) [
      | inl same ↦ sym (is_among-same_key cs x j (ground arith)) ∙ hit
      | inr apart ↦ among-returned j cs xs (ground arith)
    ]
  ]

  -- Where keys are unique, a claim returns at most as many jobs as its limit, and where it returns
  -- fewer, it returns exactly the jobs that are due.
  pub claim_fills :
      (db : Db) (j : EmbeddingJobRow)
      → UniqueIds db.jobs
      → Has j db.jobs
      → (length (claim_rows now locked p db).0 ≤ p.limit)
        × ((length (claim_rows now locked p db).0 ≡ p.limit)
            ⊎ ((is_among (claim_rows now locked p db).0 j ≡ true) ↔ IsDue now locked p j))
  unfolding claim_rows candidate_jobs
  claim_fills db j u h =
      let sorted = sort_rows (filter (is_candidate now locked p) db.jobs) in
      let n = claim_count db u in
      let m = length-sort_rows (filter (is_candidate now locked p) db.jobs) in
      elim (Bool-cases (leb p.limit (length sorted))) [
        | inl full ↦
            (omega (arith, n), inl (omega (arith, n, m, leb→le p.limit (length sorted) full)))
        | inr short ↦
            let chosen = candidate_jobs now locked p db.jobs in
            let all_chosen = λ (d : IsDue now locked p j).
              take-whole p.limit j sorted (ground arith)
              ∙ is_among-sort_rows j (filter (is_candidate now locked p) db.jobs)
              ∙ Has→is_among j j (filter (is_candidate now locked p) db.jobs)
                  (Has-filter (is_candidate now locked p) j db.jobs h (candidate now locked p j d))
                  refl in
            (
              omega (arith, n),
              inr (
                (λ r.
                    due now locked p j
                      (chosen_is_candidate db.jobs j u h (among-returned j chosen db.jobs r))),
                (λ d. returned-among j chosen db.jobs h (all_chosen d)),
              ),
            )
      ]
