-- ===== src/Refresh/Run/Budget.antt =====
-- crates/fineco-refresh/src/lib.rs: the daily budget. A refresh adds at most one job, and the gate lets it
-- through only under the budget of its area and day.
use fineco_helper.Store.Db.Keeps.{
  Keeps, Leads, Leads-answer, or_tables, Keeps-execute, Keeps-bind, Leads-execute, Keeps-pure,
  Keeps-query, Leads-if, Leads-weaken, Leads-bind,
}
use fineco_helper.Store.Captures.Frame.{IsJobs}
use fineco_helper.Refresh.Run.Leads.{Finishes, run_refresh-Leads}
use fineco_helper.Base.{
  [], ◌∷◌, none, some, true, false, inl, inr, ok, refl, String, Text, ℕ, subst, if◌then◌else◌,
  count, Option, str_eq, ◌+◌, arith, List, ◌&&◌, ◌≡◌, ◌≤◌, map, text_eq, ◌⊎◌, take, Bool,
  Bool-cases, is_some, err, Result, sym, continue,
}
use fineco_helper.Store.Jobs.{
  finish_run, insert_running_job, update_run, record_job_finish, reclaim_found,
  reclaim_stale_running, insert_job, with_run, lock_refused, started_on, is_stale, find_first,
  runs_in, retry_insert, or_reclaim, try_begin_job,
}
use fineco_helper.Store.Db.{execute, execute_next, Tables, written, Store, StoreError, StoreM}
use fineco_helper.Store.Rows.{Status, outcome_status, JobRunRow}
use fineco_helper.Base.Int.{ℤ}
use fineco_helper.Refresh.Run.{RefreshCall, area_of, run_refresh}
use fineco_helper.Store.Jobs.Lock.{try_begin_job-IsLocked}
use fineco_helper.Refresh.Run.Locked.{begin_job-Leads}
use fineco_helper.Refresh.Preflight.{stale_refresh_secs}

-- At most `n` jobs of an area started on a day.
abbrev pub AtMost : String → Text → ℕ → Tables → Type 0
AtMost area day n t = count (started_on area day) t.job_runs ≤ n

atmost-IsJobs : (area : String) (day : Text) (n : ℕ) → IsJobs (AtMost area day n)
atmost-IsJobs area day n = record {
  move = λ t u e f h. subst (λ js. count (started_on area day) js ≤ n) e h;
}

finish-started_on :
    (area : String) (day : Text) (id : ℕ) (at : Text) (st : Status) (code : Option String)
    (rs : List JobRunRow)
    → count (started_on area day) (map (finish_run id at st code) rs)
      ≡ count (started_on area day) rs
unfolding finish_run
finish-started_on area day id at st code [] = refl
finish-started_on area day id at st code (r ∷ rs) =
    ground (arith, finish-started_on area day id at st code rs)

module _ (area : String) (day : Text) (n : ℕ) where
  update_run-AtMost :
      (id : ℕ) (at : Text) (st : Status) (code : Option String)
      → Keeps (AtMost area day n) (execute (update_run id at st code))
  unfolding update_run or_tables
  update_run-AtMost id at st code =
      Keeps-execute (update_run id at st code)
        (λ t h. omega (arith, finish-started_on area day id at st code t.job_runs, h))

  atmost-Finishes : Finishes (AtMost area day n)
  unfolding record_job_finish
  atmost-Finishes = record {
    keeps = λ id at o code. update_run-AtMost id at (outcome_status o) code;
  }

  reclaim_found-AtMost :
      (found : Option JobRunRow) (now_iso : Text) (stale_after : ℤ)
      → Keeps (AtMost area day n) (reclaim_found found now_iso stale_after)
  unfolding reclaim_found
  reclaim_found-AtMost none now_iso stale_after = Keeps-pure false
  reclaim_found-AtMost (some r) now_iso stale_after =
      Leads-if (is_stale now_iso r.started_at stale_after) _ _
        (update_run-AtMost r.id now_iso Status.failed (some "stale")) (Keeps-pure false)

  reclaim-AtMost :
      (of_area : String) (now_iso : Text) (stale_after : ℤ)
      → Keeps (AtMost area day n) (reclaim_stale_running of_area now_iso stale_after)
  unfolding reclaim_stale_running
  reclaim-AtMost of_area now_iso stale_after =
      Keeps-bind _ _ (Keeps-query _) (λ found. reclaim_found-AtMost found now_iso stale_after)

-- Whether a job of `of_area` that starts now is one of `area` and `day`.
unfoldable pub counts : String → Text → String → Text → ℕ
counts area day of_area now_iso =
    if str_eq of_area area && text_eq (take 10 now_iso) day then 1 else 0

module _ (area : String) (day : Text) (n : ℕ) (auth_id of_area : String) (now_iso : Text) where
  abbrev More : Tables → Type 0
  More = AtMost area day (n + counts area day of_area now_iso)

  more : (t : Tables) → AtMost area day n t → More t
  more t h = omega (arith, h)

  insert_job-AtMost : Leads (AtMost area day n) More (execute (insert_job auth_id of_area now_iso))
  unfolding insert_job with_run or_tables counts
  insert_job-AtMost =
      Leads-execute (insert_job auth_id of_area now_iso) more (λ t h. ground (arith, h))

  insert-AtMost : Leads (AtMost area day n) More (insert_running_job auth_id of_area now_iso)
  unfolding insert_running_job
  insert-AtMost = Leads-answer _ lock_refused insert_job-AtMost

-- An insert either gives an id or changes no table.
given_or_same :
    (auth_id area : String) (now_iso : Text) (s : Store)
    → ((id : ℕ) × ((insert_running_job auth_id area now_iso s).0 ≡ ok (some id)))
      ⊎ ((insert_running_job auth_id area now_iso s).1.tables ≡ s.tables)
unfolding insert_running_job execute execute_next written insert_job
given_or_same auth_id area now_iso s = by_faults s.faults
  where
    by_faults :
        (faults : List Bool)
        → ((id : ℕ) × (lock_refused (execute_next faults (insert_job auth_id area now_iso) s).0
              ≡ ok (some id)))
          ⊎ ((execute_next faults (insert_job auth_id area now_iso) s).1.tables ≡ s.tables)
    by_faults [] = elim (Bool-cases (is_some (find_first (runs_in area) s.tables.job_runs))) [
      | inl held ↦ inr (rw held refl)
      | inr free ↦ inl (s.tables.next_job_id, rw free refl)
    ]
    by_faults (true ∷ rest) = inr refl
    by_faults (false ∷ rest) =
        elim (Bool-cases (is_some (find_first (runs_in area) s.tables.job_runs))) [
          | inl held ↦ inr (rw held refl)
          | inr free ↦ inl (s.tables.next_job_id, rw free refl)
        ]

module _ (area : String) (day : Text) (n : ℕ) (auth_id of_area : String) (now_iso : Text)
    (stale_after : ℤ) where
  abbrev Added : Tables → Type 0
  Added = More area day n auth_id of_area now_iso

  retry_insert-AtMost :
      (b : Bool) → Leads (AtMost area day n) Added (retry_insert b auth_id of_area now_iso)
  unfolding retry_insert
  retry_insert-AtMost true = insert-AtMost area day n auth_id of_area now_iso
  retry_insert-AtMost false =
      Leads-weaken _ (more area day n auth_id of_area now_iso) (Keeps-pure none)

  or_reclaim-AtMost :
      (o : Option ℕ)
      → Leads (AtMost area day n) Added (or_reclaim o auth_id of_area now_iso stale_after)
  unfolding or_reclaim
  or_reclaim-AtMost (some id) =
      Leads-weaken _ (more area day n auth_id of_area now_iso) (Keeps-pure (some id))
  or_reclaim-AtMost none =
      Leads-bind _ _ (more area day n auth_id of_area now_iso)
        (reclaim-AtMost area day n of_area now_iso stale_after) retry_insert-AtMost

  abbrev then_reclaim : Result StoreError (Option ℕ) → StoreM (Option ℕ)
  then_reclaim r = continue r (λ o. or_reclaim o auth_id of_area now_iso stale_after)

  same-AtMost :
      (r : Result StoreError (Option ℕ)) (s : Store)
      → AtMost area day n s.tables
      → Added (then_reclaim r s).1.tables
  same-AtMost (ok o) s h = (or_reclaim-AtMost o).at s h
  same-AtMost (err e) s h = more area day n auth_id of_area now_iso s.tables h

  given-AtMost :
      (r : Result StoreError (Option ℕ)) (s : Store) (id : ℕ)
      → r ≡ ok (some id)
      → Added s.tables
      → Added (then_reclaim r s).1.tables
  unfolding or_reclaim
  given-AtMost r s id e h = rw e h

  begin-quiet :
      (s : Store)
      → s.faults ≡ []
      → (try_begin_job auth_id of_area now_iso stale_after s).1.faults ≡ []
  begin-quiet s e = (try_begin_job-IsLocked auth_id of_area now_iso stale_after).quiet s e

  -- Taking the lock adds at most one job, and only of its own area and day.
  try_begin_job-AtMost :
      Leads (AtMost area day n) Added (try_begin_job auth_id of_area now_iso stale_after)
  unfolding try_begin_job
  try_begin_job-AtMost = record {
    at = λ s h.
        let (r, s') = insert_running_job auth_id of_area now_iso s in
        elim (given_or_same auth_id of_area now_iso s) [
          | inl (id, e) ↦
              given-AtMost r s' id e ((insert-AtMost area day n auth_id of_area now_iso).at s h)
          | inr same ↦ same-AtMost r s' (subst (AtMost area day n) (sym same) h)
        ];
    quiet = begin-quiet;
  }

-- A refresh adds at most one job of its area and day, and none of any other.
pub run_refresh-AtMost :
    (area : String) (day : Text) (n : ℕ) (call : RefreshCall) (auth_id : String) (now_iso : Text)
    → Leads
        (AtMost area day n)
        (AtMost area day (n + counts area day (area_of call) now_iso))
        (run_refresh call auth_id now_iso)
run_refresh-AtMost area day n call auth_id now_iso =
    run_refresh-Leads (more area day n auth_id (area_of call) now_iso) (atmost-IsJobs area day _)
      (atmost-Finishes area day _) call auth_id now_iso
      (begin_job-Leads auth_id (area_of call) now_iso
        (try_begin_job-AtMost area day n auth_id (area_of call) now_iso stale_refresh_secs))
