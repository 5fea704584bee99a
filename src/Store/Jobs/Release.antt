-- ===== src/Store/Jobs/Release.antt =====
-- crates/fineco-store/src/jobs.rs: a lock that was given is held, and given back by `record_job_finish`.
use mathlib.Core.Option
use fineco_helper.Store.Rows.{JobOutcome, outcome_status, JobRunRow}
use fineco_helper.Store.Jobs.Lock.{IsLocked, outcome-IsTerminal, try_begin_job-IsLocked}
use fineco_helper.Store.Jobs.Acquire.{
  try_begin_job_free, try_begin_job_held, try_begin_job_stale, reclaimed, finished_free,
}
use fineco_helper.Base.{
  [], none, some, inl, inr, ok, refl, ℕ, String, Text, Result, Option, ◌≡◌, sym, arith, ap,
  Option-cases, eq_iff, ◌∙◌, Bool-cases, subst,
}
use fineco_helper.Store.Jobs.{
  record_job_finish, with_run, update_run, find_first, runs_in, try_begin_job, new_run, is_stale,
}
use fineco_helper.Store.Db.{execute, Tables, StoreError, Store}
use fineco_helper.Base.Int.{ℤ}

-- Finishing the job that holds an area leaves the area free.
pub finish_frees :
    (area : String) (at : Text) (o : JobOutcome) (code : Option String) (s : Store) (r : JobRunRow)
    → IsLocked s.tables
    → s.faults ≡ []
    → find_first (runs_in area) s.tables.job_runs ≡ some r
    → find_first (runs_in area) (record_job_finish r.id at o code s).1.tables.job_runs ≡ none
unfolding record_job_finish execute update_run
finish_frees area at o code s r v e f =
    rw e (finished_free area at (outcome_status o) code s.tables r (outcome-IsTerminal o) v f)

pub new_run_found :
    (auth_id area : String) (now_iso : Text) (t : Tables)
    → find_first (runs_in area) (with_run auth_id area now_iso t).job_runs
      ≡ some (new_run t.next_job_id auth_id area now_iso)
unfolding with_run
new_run_found auth_id area now_iso t = ground (arith, (eq_iff area area).1 refl)

some_ok_inj : (m n : ℕ) → Path (Result StoreError (Option ℕ)) (ok (some m)) (ok (some n)) → m ≡ n
some_ok_inj m n e = cc

not_given : (n : ℕ) → Path (Result StoreError (Option ℕ)) (ok none) (ok (some n)) → ⊥
not_given n e = cc

module _ (area : String) (at : Text) (o : JobOutcome) (code : Option String) where
  abbrev FreedBy : ℕ → Store → Type 0
  FreedBy id s =
      find_first (runs_in area) (record_job_finish id at o code s).1.tables.job_runs ≡ none

  abbrev HeldBy : ℕ → Store → Type 0
  HeldBy id s = Option.map (λ r. r.id) (find_first (runs_in area) s.tables.job_runs) ≡ some id

  held_and_freed :
      (p : Result StoreError (Option ℕ) × Store) (s1 : Store) (r : JobRunRow) (id : ℕ)
      → p ≡ (ok (some r.id), s1)
      → p.0 ≡ ok (some id)
      → IsLocked p.1.tables
      → s1.faults ≡ []
      → find_first (runs_in area) s1.tables.job_runs ≡ some r
      → HeldBy id p.1 × FreedBy id p.1
  held_and_freed p s1 r id e g v f found =
      let same : r.id ≡ id = some_ok_inj r.id id (sym (ap (λ q. q.0) e) ∙ g) in
      subst (λ q. HeldBy id q.1 × FreedBy id q.1) (sym e)
        (
          rw found (ap some same),
          subst (λ i. FreedBy i s1) same
              (finish_frees area at o code s1 r (subst (λ q. IsLocked q.1.tables) e v) f found),
        )

-- Where `try_begin_job` answers an id, the job with that id is the one that runs in the area, and
-- `record_job_finish` with its id leaves no job that runs there: on tables with at most one running
-- job an area, when the driver executes every statement, whatever the area's state was before.
pub try_begin_job-record_job_finish :
    (auth_id area : String) (now_iso : Text) (stale_after : ℤ) (s : Store) (id : ℕ) (at : Text)
    (o : JobOutcome) (code : Option String)
    → IsLocked s.tables
    → s.faults ≡ []
    → (try_begin_job auth_id area now_iso stale_after s).0 ≡ ok (some id)
    → (Option.map
          (λ r. r.id)
          (find_first
            (runs_in area)
            (try_begin_job auth_id area now_iso stale_after s).1.tables.job_runs)
        ≡ some id)
      × (find_first
            (runs_in area)
            (record_job_finish id at o code
              (try_begin_job auth_id area now_iso stale_after s).1).1.tables.job_runs
          ≡ none)
unfolding reclaimed
try_begin_job-record_job_finish auth_id area now_iso stale_after s id at o code v f g =
    let kept = (try_begin_job-IsLocked auth_id area now_iso stale_after).at s v in
    let after = held_and_freed area at o code (try_begin_job auth_id area now_iso stale_after s) in
    elim (Option-cases (find_first (runs_in area) s.tables.job_runs)) [
      | inl free ↦
          after (record s { tables = with_run auth_id area now_iso s.tables })
            (new_run s.tables.next_job_id auth_id area now_iso) id
            (try_begin_job_free auth_id area now_iso stale_after s f free) g kept f
            (new_run_found auth_id area now_iso s.tables)
      | inr (r, found) ↦ elim (Bool-cases (is_stale now_iso r.started_at stale_after)) [
        | inl dead ↦
            after
              (record s {
                tables = with_run auth_id area now_iso (reclaimed r.id now_iso s.tables);
              })
              (new_run s.tables.next_job_id auth_id area now_iso) id
              (try_begin_job_stale auth_id area now_iso stale_after s r v f found dead) g kept f
              (new_run_found auth_id area now_iso (reclaimed r.id now_iso s.tables))
        | inr live ↦ absurd (
            not_given id (
              sym (
                ap (λ q. q.0)
                  (try_begin_job_held auth_id area now_iso stale_after s r f found live))
              ∙ g))
      ]
    ]
