-- ===== src/Embedding/Missing.antt =====
-- Reports on a job that is not there, under either driver: `updateWorkspaceEmbeddingJob` of
-- src/modules/embedding/usecases/embedding-job.usecase.ts.
use prism_nestjs.Prelude.{
  ℕ, ◌≡◌, refl, ap, ◌∙◌, false, ◌&&◌, Option, none, some, List, [], ◌∷◌, arith, any, filter, update,
  ◌==◌,
}
use prism_nestjs.Prelude.Text.{Text}
use prism_nestjs.Prelude.Field.{undefined, or_null}
use prism_nestjs.Prelude.Driver.{
  Driver, Element, rows_alone, rows_and_count, all_rows, first_element,
}
use prism_nestjs.Prelude.Action.{Result, ok, err}
use prism_nestjs.Embedding.{EmbeddingJobRow, UpdateEmbeddingJobParams, Db, ReportStatus}
use prism_nestjs.Embedding.Repository.{
  is_target, reported_job, update_rows, update_scheduled, update_embedding_job,
}
use prism_nestjs.Embedding.UseCase.{
  Error, job_not_found, UpdateEmbeddingJobDto, is_requeue, update_workspace_embedding_job,
}

-- What a report on such a job ends in: an error where `query` resolves to the rows alone, an empty
-- list of rows in place of a job where it resolves to the rows and their count.
abbrev pub missing_report : Driver → Result Error (Element EmbeddingJobRow)
missing_report rows_alone = err job_not_found
missing_report rows_and_count = ok (all_rows [])

no_row_reported :
    (now : ℕ) (p : UpdateEmbeddingJobParams) (scheduled : EmbeddingJobRow → ℕ)
    (jobs : List EmbeddingJobRow)
    → any (is_target p) jobs ≡ false
    → (update (is_target p) (λ j. reported_job now p (scheduled j) j) jobs ≡ jobs)
      × (filter (is_target p) jobs ≡ [])
no_row_reported now p scheduled [] h = (refl, refl)
no_row_reported now p scheduled (j ∷ jobs) h = ground (arith, no_row_reported now p scheduled jobs)

update_rows_missing :
    (driver : Driver) (now : ℕ) (p : UpdateEmbeddingJobParams) (scheduled : EmbeddingJobRow → ℕ)
    (db : Db)
    → any (is_target p) db.jobs ≡ false
    → update_rows driver now p scheduled db
      ≡ (some (first_element {A = EmbeddingJobRow} driver []), db)
update_rows_missing driver now p scheduled db h =
    let (same, none_met) = no_row_reported now p scheduled db.jobs h in
    ap (λ jobs. after (filter (is_target p) jobs) jobs) same
    ∙ ap (λ met. after met db.jobs) none_met
  where
    after :
        List EmbeddingJobRow → List EmbeddingJobRow → Option (Option (Element EmbeddingJobRow)) × Db
    after met jobs = (some (first_element driver met), record db { jobs = jobs })

update_scheduled_missing :
    (driver : Driver) (now : ℕ) (p : UpdateEmbeddingJobParams) (s : ReportStatus) (at : Option ℕ)
    (db : Db)
    → any (is_target p) db.jobs ≡ false
    → update_scheduled driver now p s at db
      ≡ (some (first_element {A = EmbeddingJobRow} driver []), db)
update_scheduled_missing driver now p ReportStatus.queued (some at) db h =
    update_rows_missing driver now p (λ j. at) db h
update_scheduled_missing driver now p ReportStatus.queued none db h = rw h refl
update_scheduled_missing driver now p ReportStatus.completed at db h =
    update_rows_missing driver now p (λ j. j.scheduled_at) db h
update_scheduled_missing driver now p ReportStatus.failed at db h =
    update_rows_missing driver now p (λ j. j.scheduled_at) db h
update_scheduled_missing driver now p ReportStatus.cancelled at db h =
    update_rows_missing driver now p (λ j. j.scheduled_at) db h

abbrev reported : ℕ → ℕ → UpdateEmbeddingJobDto → UpdateEmbeddingJobParams
reported id job dto = record {
  workspace_id = id;
  embedding_job_id = job;
  status = dto.status;
  error_message = or_null dto.error_message;
  scheduled_at = none;
}

-- A report of an end, with no time, on a job that is not in the workspace changes nothing. It
-- throws job_not_found where `query` resolves to the rows alone, and returns an empty list in place
-- of the job where it resolves to the rows and their count.
pub update_workspace_embedding_job_missing :
    (parse_date : Text → Option ℕ) (now : ℕ) (driver : Driver) (id job : ℕ)
    (dto : UpdateEmbeddingJobDto) (db : Db)
    → is_requeue dto.status ≡ false
    → dto.scheduled_at ≡ undefined
    → any (λ j. (j.workspace_id == id) && (j.embedding_job_id == job)) db.jobs ≡ false
    → update_workspace_embedding_job parse_date now driver id job dto db
      ≡ (missing_report driver, db)
unfolding update_workspace_embedding_job update_embedding_job
update_workspace_embedding_job_missing parse_date now rows_alone id job dto db q t h =
    ground (arith, update_scheduled_missing rows_alone now (reported id job dto) dto.status none db)
update_workspace_embedding_job_missing parse_date now rows_and_count id job dto db q t h =
    ground
      (arith, update_scheduled_missing rows_and_count now (reported id job dto) dto.status none db)
