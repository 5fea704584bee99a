-- ===== src/Store/Health/Moves.antt =====
-- crates/fineco-store/src/health.rs: what the end of a job does to the counts.
use fineco_helper.Store.Health.{counts_of}
use fineco_helper.Store.Rows.{JobOutcome, outcome_status, JobRunRow}
use fineco_helper.Store.Jobs.{record_job_finish, update_run, finish_run, is_run}
use fineco_helper.Store.Db.{Store, execute}
use fineco_helper.Base.{[], ◌∷◌, ℕ, Text, String, Option, List, ◌+◌, ◌≡◌, refl, arith, count, map}

abbrev pub when_completed : JobOutcome → ℕ → ℕ
when_completed JobOutcome.completed n = n
when_completed JobOutcome.failed n = 0

abbrev pub when_failed : JobOutcome → ℕ → ℕ
when_failed JobOutcome.completed n = 0
when_failed JobOutcome.failed n = n

module _ (id : ℕ) (at : Text) (code : Option String) where
  abbrev Moved : JobOutcome → List JobRunRow → Type 0
  Moved o rows =
      let moved = count (is_run id) rows in
      let before = counts_of rows in
      let after = counts_of (map (finish_run id at (outcome_status o) code) rows) in
      (after.running + moved ≡ before.running)
      × ((after.completed ≡ before.completed + when_completed o moved)
          × (after.failed ≡ before.failed + when_failed o moved))

  finish_run-Moved : (o : JobOutcome) (rows : List JobRunRow) → Moved o rows
  unfolding counts_of finish_run
  finish_run-Moved JobOutcome.completed [] = (refl, (refl, refl))
  finish_run-Moved JobOutcome.failed [] = (refl, (refl, refl))
  finish_run-Moved JobOutcome.completed (r ∷ rows) =
      ground (arith, finish_run-Moved JobOutcome.completed rows)
  finish_run-Moved JobOutcome.failed (r ∷ rows) =
      ground (arith, finish_run-Moved JobOutcome.failed rows)

-- A finish that the driver executes moves the running jobs with its id, as many as there are, from the
-- running to those of its outcome: the two other counts change by that number, and the third does not.
pub counts_of-record_job_finish :
    (id : ℕ) (at : Text) (o : JobOutcome) (code : Option String) (s : Store)
    → s.faults ≡ []
    → let moved = count (is_run id) s.tables.job_runs in
      let before = counts_of s.tables.job_runs in
      let after = counts_of (record_job_finish id at o code s).1.tables.job_runs in
      (after.running + moved ≡ before.running)
      × ((after.completed ≡ before.completed + when_completed o moved)
          × (after.failed ≡ before.failed + when_failed o moved))
unfolding record_job_finish execute update_run
counts_of-record_job_finish id at o code s e =
    rw e (finish_run-Moved id at code o s.tables.job_runs)
