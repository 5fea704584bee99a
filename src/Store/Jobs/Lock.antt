-- ===== src/Store/Jobs/Lock.antt =====
-- crates/fineco-store/src/jobs.rs: the refresh lock. At most one job of an area is running, and ids
-- are given once, whatever the calls and whichever statements the driver fails.
use fineco_helper.Base.Int.{ℤ}
use fineco_helper.Store.Rows.{JobRunRow, Status, JobOutcome, outcome_status}
use fineco_helper.Store.Db.{Tables, execute}
use fineco_helper.Store.Db.Keeps.{
  or_tables, Leads-if, Keeps, Keeps-pure, Keeps-execute, Keeps-query, Keeps-bind, Leads-answer,
}
use fineco_helper.Store.Jobs.{
  is_running, runs_in, find_first, insert_job, update_run, finish_run, insert_running_job,
  record_job_start, record_job_finish, reclaim_stale_running, reclaim_found, or_reclaim,
  retry_insert, try_begin_job, is_stale, lock_refused, with_run, new_run,
}
use fineco_helper.Base.{
  [], ◌∷◌, false, inl, inr, refl, ℕ, String, Bool, ◌≡◌, List, count, Text, ◌<◌, ◌≤◌, is_some,
  Option, arith, Bool-cases, map, str_eq, subst, sym, ◌∙◌, eq_iff, none, some, true,
}

-- Ids fall along the table and stay under the bound.
abbrev pub Below : ℕ → List JobRunRow → Type 0
Below n [] = Unit {0}
Below n (r ∷ rs) = (r.id < n) × Below r.id rs

pub record IsLocked (t : Tables) : Type 0 where
  pub one_running : (area : String) → count (runs_in area) t.job_runs ≤ 1
  pub fresh : Below t.next_job_id t.job_runs

pub count_find_none :
    {A : Type 0} (p : A → Bool) (xs : List A) → is_some (find_first p xs) ≡ false → count p xs ≡ 0
count_find_none p [] h = refl
count_find_none p (x ∷ xs) h = ground (arith, count_find_none p xs)

insert-one_running :
    (area other : String) (r : JobRunRow) (rs : List JobRunRow)
    → r.data_area ≡ area
    → is_some (find_first (runs_in area) rs) ≡ false
    → count (runs_in other) rs ≤ 1
    → count (runs_in other) (r ∷ rs) ≤ 1
insert-one_running area other r rs e free h = elim (Bool-cases (str_eq r.data_area other)) [
  | inl same ↦
      let free' : is_some (find_first (runs_in other) rs) ≡ false =
        subst (λ a. is_some (find_first (runs_in a) rs) ≡ false)
          (sym e ∙ (eq_iff r.data_area other).0 same) free in
      ground (arith, count_find_none (runs_in other) rs free')
  | inr differs ↦ ground (arith, differs)
]

inserted-IsLocked :
    (auth_id area : String) (started_at : Text) (t : Tables)
    → is_some (find_first (runs_in area) t.job_runs) ≡ false
    → IsLocked t
    → IsLocked (with_run auth_id area started_at t)
unfolding with_run
inserted-IsLocked auth_id area started_at t free v = record {
  one_running = λ other.
      insert-one_running area other (new_run t.next_job_id auth_id area started_at) t.job_runs refl
        free (v.one_running other);
  fresh = (omega arith, v.fresh);
}

insert_job-IsLocked :
    (auth_id area : String) (started_at : Text) (t : Tables)
    → IsLocked t
    → IsLocked (or_tables (insert_job auth_id area started_at t) t)
unfolding insert_job or_tables
insert_job-IsLocked auth_id area started_at t v =
    elim (Bool-cases (is_some (find_first (runs_in area) t.job_runs))) [
      | inl held ↦ rw held v
      | inr free ↦ rw free (inserted-IsLocked auth_id area started_at t free v)
    ]

-- An update to a terminal status.
abbrev pub IsTerminal : Status → Type 0
IsTerminal st = is_running st ≡ false

pub finish-count :
    (area : String) (id : ℕ) (at : Text) (st : Status) (code : Option String) (rs : List JobRunRow)
    → IsTerminal st
    → count (runs_in area) (map (finish_run id at st code) rs) ≤ count (runs_in area) rs
unfolding finish_run
finish-count area id at st code [] h = omega arith
finish-count area id at st code (r ∷ rs) h = ground (arith, finish-count area id at st code rs h)

finish-Below :
    (n id : ℕ) (at : Text) (st : Status) (code : Option String) (rs : List JobRunRow)
    → Below n rs
    → Below n (map (finish_run id at st code) rs)
unfolding finish_run
finish-Below n id at st code [] h = tt
finish-Below n id at st code (r ∷ rs) h = ground (arith, finish-Below r.id id at st code rs h.1)

update_run-IsLocked :
    (id : ℕ) (at : Text) (st : Status) (code : Option String) (t : Tables)
    → IsTerminal st
    → IsLocked t
    → IsLocked (or_tables (update_run id at st code t) t)
unfolding update_run or_tables
update_run-IsLocked id at st code t h v = record {
  one_running =
      λ area. omega (arith, finish-count area id at st code t.job_runs h, v.one_running area);
  fresh = finish-Below t.next_job_id id at st code t.job_runs v.fresh;
}

-- The actions.
pub record_job_start-IsLocked :
    (auth_id area : String) (started_at : Text)
    → Keeps IsLocked (record_job_start auth_id area started_at)
unfolding record_job_start
record_job_start-IsLocked auth_id area started_at =
    Keeps-execute _ (insert_job-IsLocked auth_id area started_at)

insert_running_job-IsLocked :
    (auth_id area : String) (started_at : Text)
    → Keeps IsLocked (insert_running_job auth_id area started_at)
unfolding insert_running_job
insert_running_job-IsLocked auth_id area started_at =
    Leads-answer (execute (insert_job auth_id area started_at)) lock_refused
      (Keeps-execute _ (insert_job-IsLocked auth_id area started_at))

pub outcome-IsTerminal : (o : JobOutcome) → IsTerminal (outcome_status o)
outcome-IsTerminal JobOutcome.completed = refl
outcome-IsTerminal JobOutcome.failed = refl

pub record_job_finish-IsLocked :
    (id : ℕ) (at : Text) (o : JobOutcome) (code : Option String)
    → Keeps IsLocked (record_job_finish id at o code)
unfolding record_job_finish
record_job_finish-IsLocked id at o code =
    Keeps-execute _
      (λ t. update_run-IsLocked id at (outcome_status o) code t (outcome-IsTerminal o))

reclaim_found-IsLocked :
    (found : Option JobRunRow) (now_iso : Text) (stale_after : ℤ)
    → Keeps IsLocked (reclaim_found found now_iso stale_after)
unfolding reclaim_found
reclaim_found-IsLocked none now_iso stale_after = Keeps-pure false
reclaim_found-IsLocked (some r) now_iso stale_after =
    Leads-if (is_stale now_iso r.started_at stale_after) _ _
      (Keeps-execute _ (λ t. update_run-IsLocked r.id now_iso Status.failed (some "stale") t refl))
      (Keeps-pure false)

reclaim_stale_running-IsLocked :
    (area : String) (now_iso : Text) (stale_after : ℤ)
    → Keeps IsLocked (reclaim_stale_running area now_iso stale_after)
unfolding reclaim_stale_running
reclaim_stale_running-IsLocked area now_iso stale_after =
    Keeps-bind _ _ (Keeps-query _) (λ found. reclaim_found-IsLocked found now_iso stale_after)

retry_insert-IsLocked :
    (b : Bool) (auth_id area : String) (started_at : Text)
    → Keeps IsLocked (retry_insert b auth_id area started_at)
unfolding retry_insert
retry_insert-IsLocked true auth_id area started_at =
    insert_running_job-IsLocked auth_id area started_at
retry_insert-IsLocked false auth_id area started_at = Keeps-pure none

or_reclaim-IsLocked :
    (o : Option ℕ) (auth_id area : String) (started_at : Text) (stale_after : ℤ)
    → Keeps IsLocked (or_reclaim o auth_id area started_at stale_after)
unfolding or_reclaim
or_reclaim-IsLocked (some id) auth_id area started_at stale_after = Keeps-pure (some id)
or_reclaim-IsLocked none auth_id area started_at stale_after =
    Keeps-bind _ _ (reclaim_stale_running-IsLocked area started_at stale_after)
      (λ b. retry_insert-IsLocked b auth_id area started_at)

pub try_begin_job-IsLocked :
    (auth_id area : String) (started_at : Text) (stale_after : ℤ)
    → Keeps IsLocked (try_begin_job auth_id area started_at stale_after)
unfolding try_begin_job
try_begin_job-IsLocked auth_id area started_at stale_after =
    Keeps-bind _ _ (insert_running_job-IsLocked auth_id area started_at)
      (λ o. or_reclaim-IsLocked o auth_id area started_at stale_after)
