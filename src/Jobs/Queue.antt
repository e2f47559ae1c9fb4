-- ===== src/Jobs/Queue.antt =====
-- The methods of `Queue` in internal/jobs/jobs.go. `fails k` says that the k-th statement of the call
-- fails, numbered in the order of the text; a failed statement changes nothing. `now` and `later`
-- are what the calls of `time.Now` return. The starting and stopping of the workers is not here.
use Prim.Native.String.{String, ◌++◌ as str_append}
use text.Mathlib.Text.{◌==◌ as str_eq}
use tonkey.Prelude.{
  ℕ, zero, suc, Bool, true, false, Option, none, some, if◌then◌else◌, is_some, Action, ok, err,
  panic, pure, gets, raise_if, exec, exec_ignoring, ◌>>=◌, ◌>>◌, Result,
}
use tonkey.Prelude.Int.{ℤ, pos, ◌+ℤ◌, ltb_ℤ, leb_ℤ}
use tonkey.Table.{select, update_where, first_by}
use tonkey.Table.Keys.{has_key}
use tonkey.Jobs.Store.{
  Error, database, unscannable, Driver, strings, bytes, pending, running, completed, failed, Job,
  Db, Config, Handler, job_id, is_running, is_due, is_sooner, is_later,
}

abbrev pub M : Type 0 → Type 0
M A = Action Db Error A

abbrev pub or_default : ℤ → ℤ → ℤ
or_default value default = if leb_ℤ value (pos 0) then default else value

-- The configuration of `NewQueue`.
abbrev pub new_queue : Config → Config
new_queue config = record {
  worker_count = or_default config.worker_count (pos 4);
  poll_interval = or_default config.poll_interval (pos 5);
  max_retries = or_default config.max_retries (pos 3);
  retry_delay = or_default config.retry_delay (pos 30);
  shutdown_timeout = or_default config.shutdown_timeout (pos 30);
}

-- The map of handlers, and `RegisterHandler`.
abbrev pub Handlers : Type 0
Handlers = String → Option Handler

abbrev pub register_handler : String → Handler → Handlers → Handlers
register_handler job_type handler handlers name =
    if str_eq name job_type then some handler else handlers name

-- UPDATE jobs SET … WHERE id = ?
abbrev pub change : ℕ → (Job → Job) → Db → Db
change id f s = record s { jobs = update_where (has_key job_id id) f s.jobs }

abbrev pub started : ℤ → Job → Job
started now j = record j { status = running; started_at = some now }

-- The subquery of the claim.
abbrev pub next_due : ℤ → Db → Option Job
next_due now s = first_by is_sooner (select (is_due now) s.jobs)

abbrev pub start : ℤ → Option Job → Db → Db
start now none s = s
start now (some j) s = change j.id (started now) s

-- The UPDATE of `fetchJob`: whether it has changed a row.
unfoldable pub claim : Bool → ℤ → M Bool
claim fails now = do
  chosen ← gets (next_due now)
  exec fails database (start now chosen)
  pure (is_some chosen)

-- That `Scan` cannot store the column `payload` of the row that it is given.
abbrev pub is_unscannable : Driver → Option Job → Bool
is_unscannable bytes row = false
is_unscannable strings row = is_some row

-- The SELECT of `fetchJob`, which other workers may come before.
unfoldable pub read_running : Driver → Bool → M (Option Job)
read_running driver fails = do
  raise_if fails database
  row ← gets (λ s. first_by is_later (select (λ (j : Job). is_running j.status) s.jobs))
  raise_if (is_unscannable driver row) unscannable
  pure row

-- `fetchJob`, where no other worker comes between its two statements.
unfoldable pub fetch_job : Driver → (ℕ → Bool) → ℤ → M (Option Job)
fetch_job driver fails now = do
  claimed ← claim (fails 0) now
  if claimed then read_running driver (fails 1) else pure none

abbrev pub with_attempts : ℕ → Job → Job
with_attempts n j = record j { attempts = n }

abbrev pub done : ℤ → Job → Job
done now j = record j { status = completed; completed_at = some now }

-- `completeJob`.
unfoldable pub complete_job : Bool → ℤ → Job → M (Unit {0})
complete_job fails now job = exec_ignoring fails (change job.id (done now))

-- `q.config.RetryDelay * time.Duration(job.Attempts)`.
abbrev pub times : ℕ → ℤ → ℤ
times zero delay = pos 0
times (suc n) delay = delay +ℤ times n delay

abbrev pub postponed : String → ℤ → Job → Job
postponed error at_time j = record j {
  status = pending;
  last_error = some error;
  scheduled_at = at_time;
}

abbrev pub given_up : String → ℤ → Job → Job
given_up error now j = record j {
  status = failed;
  last_error = some error;
  completed_at = some now;
}

-- What `failJob` makes of the row.
abbrev pub after_failure : Config → ℤ → Job → String → Job → Job
after_failure config now job error j =
    if ltb_ℤ (pos job.attempts) job.max_attempts
    then postponed error (now +ℤ times job.attempts config.retry_delay) j
    else given_up error now j

-- `failJob`.
unfoldable pub fail_job : Bool → Config → ℤ → Job → String → M (Unit {0})
fail_job fails config now job error =
    exec_ignoring fails (change job.id (after_failure config now job error))

abbrev pub no_handler : String → String
no_handler job_type = str_append "no handler registered for job type: " job_type

-- The end of `processJob`, with what the handler has returned.
unfoldable pub finish : Bool → Config → ℤ → Job → Option String → M (Unit {0})
finish fails config now job none = complete_job fails now job
finish fails config now job (some error) = fail_job fails config now job error

-- `processJob` with the handler that was looked up; `job` is the copy that `fetchJob` returned.
unfoldable pub process_with : (ℕ → Bool) → Config → ℤ → Job → Option Handler → M (Unit {0})
process_with fails config now job none = fail_job (fails 0) config now job (no_handler job.job_type)
process_with fails config now job (some handler) = do
  let counted = with_attempts (suc job.attempts) job
  exec_ignoring (fails 0) (change job.id (with_attempts (suc job.attempts)))
  finish (fails 1) config now counted (handler counted)

-- `processJob`.
unfoldable pub process_job : (ℕ → Bool) → Config → Handlers → ℤ → Job → M (Unit {0})
process_job fails config handlers now job =
    process_with fails config now job (handlers job.job_type)

-- What `worker` does with what `fetchJob` gave it: false when it is to wait for the poll interval.
unfoldable pub take_up :
    (ℕ → Bool) → Config → Handlers → ℤ → Result Error (Option Job) × Db → Result Error Bool × Db
take_up fails config handlers now (ok none, t) = (ok false, t)
take_up fails config handlers now (ok (some job), t) =
    (process_job fails config handlers now job >>= λ _. pure true) t
take_up fails config handlers now (err e, t) = (ok false, t)
take_up fails config handlers now (panic, t) = (panic, t)

-- One turn of the loop of `worker`.
unfoldable pub work : Driver → (ℕ → Bool) → Config → Handlers → ℤ → ℤ → M Bool
work driver fails config handlers now later s =
    take_up (λ k. fails (suc (suc k))) config handlers later (fetch_job driver fails now s)
