-- ===== src/Store/Jobs/Acquire.antt =====
-- crates/fineco-store/src/jobs.rs: what `try_begin_job` answers and leaves behind when the driver
-- executes its statements, and that `record_job_finish` gives the lock back.
use fineco_helper.Base.Int.{ℤ}
use fineco_helper.Store.Db.{Store, execute, query, Tables}
use fineco_helper.Store.Jobs.{
  runs_in, find_first, with_run, insert_job, insert_running_job, try_begin_job,
  reclaim_stale_running, finish_run, is_stale, is_running, update_run, is_run,
}
use fineco_helper.Base.{
  [], none, some, ok, String, Text, ◌≡◌, arith, ◌∷◌, true, false, suc, refl, Bool, ℕ, List, Option,
  count, map, is_some, ◌≤◌,
}
use fineco_helper.Store.Rows.{Status, JobRunRow}
use fineco_helper.Store.Jobs.Lock.{IsLocked, finish-count}

-- A free area: the job is recorded as running, under the next id.
pub try_begin_job_free :
    (auth_id area : String) (now_iso : Text) (stale_after : ℤ) (s : Store)
    → s.faults ≡ []
    → find_first (runs_in area) s.tables.job_runs ≡ none
    → try_begin_job auth_id area now_iso stale_after s ≡ (
      ok (some s.tables.next_job_id),
      record s { tables = with_run auth_id area now_iso s.tables },
    )
unfolding try_begin_job insert_running_job insert_job execute
try_begin_job_free auth_id area now_iso stale_after s e f = ground (arith, e, f)

-- A live job holds the area: nothing changes.
pub try_begin_job_held :
    (auth_id area : String) (now_iso : Text) (stale_after : ℤ) (s : Store) (r : JobRunRow)
    → s.faults ≡ []
    → find_first (runs_in area) s.tables.job_runs ≡ some r
    → is_stale now_iso r.started_at stale_after ≡ false
    → try_begin_job auth_id area now_iso stale_after s ≡ (ok none, s)
unfolding try_begin_job insert_running_job insert_job reclaim_stale_running query execute
try_begin_job_held auth_id area now_iso stale_after s r e f live = ground (arith, e, f, live)

-- Finishing the row that holds an area leaves one running row fewer.
finish-count_found :
    (area : String) (at : Text) (st : Status) (code : Option String) (rs : List JobRunRow)
    (r : JobRunRow)
    → is_running st ≡ false
    → find_first (runs_in area) rs ≡ some r
    → suc (count (runs_in area) (map (finish_run r.id at st code) rs)) ≤ count (runs_in area) rs
unfolding finish_run
finish-count_found area at st code [] r h f = cc
finish-count_found area at st code (x ∷ xs) r h f =
    ground
      (arith, finish-count area r.id at st code xs h, finish-count_found area at st code xs r h)

find_count_zero :
    {A : Type 0} (p : A → Bool) (xs : List A) → count p xs ≡ 0 → find_first p xs ≡ none
find_count_zero p [] h = refl
find_count_zero p (x ∷ xs) h = ground (arith, find_count_zero p xs)

pub finished_free :
    (area : String) (at : Text) (st : Status) (code : Option String) (t : Tables) (r : JobRunRow)
    → is_running st ≡ false
    → IsLocked t
    → find_first (runs_in area) t.job_runs ≡ some r
    → find_first (runs_in area) (map (finish_run r.id at st code) t.job_runs) ≡ none
finished_free area at st code t r h v f =
    find_count_zero (runs_in area) (map (finish_run r.id at st code) t.job_runs)
      (omega (arith, v.one_running area, finish-count_found area at st code t.job_runs r h f))

-- The tables after a stale job is given up.
unfoldable pub reclaimed : ℕ → Text → Tables → Tables
reclaimed id now_iso t = record t {
  job_runs = map (finish_run id now_iso Status.failed (some "stale")) t.job_runs;
}

find_own :
    (area : String) (rs : List JobRunRow) (r : JobRunRow)
    → find_first (runs_in area) rs ≡ some r
    → is_some (find_first (is_run r.id) rs) ≡ true
find_own area [] r f = cc
find_own area (x ∷ xs) r f = ground (arith, find_own area xs r)

-- A stale job is marked failed, and the area is taken over under a new id.
pub try_begin_job_stale :
    (auth_id area : String) (now_iso : Text) (stale_after : ℤ) (s : Store) (r : JobRunRow)
    → IsLocked s.tables
    → s.faults ≡ []
    → find_first (runs_in area) s.tables.job_runs ≡ some r
    → is_stale now_iso r.started_at stale_after ≡ true
    → try_begin_job auth_id area now_iso stale_after s ≡ (
      ok (some s.tables.next_job_id),
      record s { tables = with_run auth_id area now_iso (reclaimed r.id now_iso s.tables) },
    )
unfolding try_begin_job insert_running_job insert_job reclaim_stale_running query execute update_run
    reclaimed
try_begin_job_stale auth_id area now_iso stale_after s r v e f dead = ground (
  arith,
  e,
  f,
  dead,
  find_own area s.tables.job_runs r f,
  finished_free area now_iso Status.failed (some "stale") s.tables r refl v f,
)
