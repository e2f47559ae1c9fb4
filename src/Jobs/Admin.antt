-- ===== src/Jobs/Admin.antt =====
-- The methods of `Queue` in internal/jobs/jobs.go that put jobs in, look them up, count them, retry
-- them and remove them. `encoded` is the payload's JSON, `cutoff` the time that `AddDate` gives.
use Prim.Native.String.{String}
use tonkey.Prelude.{
  ℕ, suc, Bool, false, not, ◌&&◌, ◌||◌, Option, none, some, List, [], ◌∷◌, ◌++◌, if◌then◌else◌,
  length, pure, gets, or_raise, raise_if, exec, ◌>>=◌, ◌>>◌,
}
use tonkey.Prelude.Int.{ℤ, pos, ◌+ℤ◌, ltb_ℤ}
use tonkey.Table.{select_first, delete_where, count_where}
use tonkey.Table.Keys.{has_key}
use tonkey.Jobs.Store.{
  Driver, unscannable, job_not_found, only_failed, database, encoding, pending, Job, Db, Config,
  job_id, is_pending, is_running, is_completed, is_failed,
}
use tonkey.Jobs.Queue.{is_unscannable, M, change}

pub record EnqueueOptions : Type 0 where
  pub queue : String
  pub priority : ℤ
  pub max_attempts : ℤ
  pub scheduled_at : ℤ

abbrev pub EnqueueOption : Type 0
EnqueueOption = EnqueueOptions → EnqueueOptions

abbrev pub with_queue : String → EnqueueOption
with_queue queue o = record o { queue = queue }

abbrev pub with_priority : ℤ → EnqueueOption
with_priority priority o = record o { priority = priority }

abbrev pub with_max_attempts : ℤ → EnqueueOption
with_max_attempts attempts o = record o { max_attempts = attempts }

abbrev pub with_schedule : ℤ → EnqueueOption
with_schedule t o = record o { scheduled_at = t }

abbrev pub with_delay : ℤ → ℤ → EnqueueOption
with_delay now d o = record o { scheduled_at = now +ℤ d }

-- The loop over the options.
abbrev pub apply_options : List EnqueueOption → EnqueueOptions → EnqueueOptions
apply_options [] o = o
apply_options (f ∷ opts) o = apply_options opts (f o)

abbrev pub default_options : Config → ℤ → EnqueueOptions
default_options config now = record {
  queue = "default";
  priority = pos 0;
  max_attempts = config.max_retries;
  scheduled_at = now;
}

-- The columns that the INSERT does not name have their defaults.
abbrev pub new_job : ℕ → String → String → EnqueueOptions → ℤ → Job
new_job id job_type encoded options now = record {
  id = id;
  queue = options.queue;
  job_type = job_type;
  payload = encoded;
  status = pending;
  priority = options.priority;
  attempts = 0;
  max_attempts = options.max_attempts;
  last_error = none;
  scheduled_at = options.scheduled_at;
  started_at = none;
  completed_at = none;
  created_at = now;
}

abbrev pub add_job : String → String → EnqueueOptions → ℤ → Db → Db
add_job job_type encoded options now s = record s {
  jobs = s.jobs ++ new_job s.next_job job_type encoded options now ∷ [];
  next_job = suc s.next_job;
}

-- `Enqueue`.
unfoldable pub enqueue : (ℕ → Bool) → Config → String → String → List EnqueueOption → ℤ → ℤ → M ℕ
enqueue fails config job_type encoded opts now later = do
  let options = apply_options opts (default_options config now)
  raise_if (fails 0) encoding
  id ← gets (λ s. s.next_job)
  exec (fails 1) database (add_job job_type encoded options later)
  pure id

-- `GetJob`.
unfoldable pub get_job : Driver → Bool → ℕ → M Job
get_job driver fails id = do
  raise_if fails database
  job ← or_raise (← gets (λ s. select_first (has_key job_id id) s.jobs)) job_not_found
  raise_if (is_unscannable driver (some job)) unscannable
  pure job

abbrev pub reset : ℤ → Job → Job
reset now j = record j {
  status = pending;
  attempts = 0;
  scheduled_at = now;
  started_at = none;
  completed_at = none;
}

-- `RetryJob`.
unfoldable pub retry_job : Driver → (ℕ → Bool) → ℕ → ℤ → M (Unit {0})
retry_job driver fails id now = do
  job ← get_job driver (fails 0) id
  raise_if (not (is_failed job.status)) only_failed
  exec (fails 1) database (change id (reset now))

-- A comparison with NULL does not hold.
abbrev pub is_before : Option ℤ → ℤ → Bool
is_before none cutoff = false
is_before (some x) cutoff = ltb_ℤ x cutoff

abbrev pub is_old : ℤ → Job → Bool
is_old cutoff j = (is_completed j.status || is_failed j.status) && is_before j.completed_at cutoff

-- `Cleanup`, which returns the number of jobs that it removed.
unfoldable pub cleanup : Bool → ℤ → M ℕ
cleanup fails cutoff = do
  affected ← gets (λ s. count_where (is_old cutoff) s.jobs)
  exec fails database (λ s. record s { jobs = delete_where (is_old cutoff) s.jobs })
  pure affected

pub record Stats : Type 0 where
  pub total_jobs : ℕ
  pub pending_jobs : ℕ
  pub running_jobs : ℕ
  pub completed_jobs : ℕ
  pub failed_jobs : ℕ

-- A count that fails is left at 0.
abbrev pub count_if : Bool → ℕ → ℕ
count_if fails n = if fails then 0 else n

-- `GetStats`.
unfoldable pub get_stats : (ℕ → Bool) → M Stats
get_stats fails = gets λ s. record {
  total_jobs = count_if (fails 0) (length s.jobs);
  pending_jobs = count_if (fails 1) (count_where (λ j. is_pending j.status) s.jobs);
  running_jobs = count_if (fails 2) (count_where (λ j. is_running j.status) s.jobs);
  completed_jobs = count_if (fails 3) (count_where (λ j. is_completed j.status) s.jobs);
  failed_jobs = count_if (fails 4) (count_where (λ j. is_failed j.status) s.jobs);
}
