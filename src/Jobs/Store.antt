-- ===== src/Jobs/Store.antt =====
-- The table `jobs` and the types of internal/jobs/jobs.go. Times are Unix seconds, durations whole
-- seconds.
use Prim.Native.String.{String}
use tonkey.Prelude.{
  ℕ, ◌≡◌, refl, Bool, true, false, not, ◌&&◌, ◌||◌, Option, none, some, List, arith,
}
use tonkey.Prelude.Int.{ℤ, ltb_ℤ, leb_ℤ}
use tonkey.Table.{IsOrder}

pub data Error : Type 0 where
  job_not_found job_already_exists queue_closed max_attempts_exceeded : Error
  -- "can only retry failed jobs"
  only_failed : Error
  -- what the driver and encoding/json report
  database : Error
  encoding : Error
  -- what `Scan` reports of a column that it cannot store
  unscannable : Error

-- What the database driver gives for a column of the type TEXT: strings, or slices of bytes. The package
-- database/sql stores slices of bytes into a json.RawMessage, and no strings.
pub data Driver : Type 0 where
  strings bytes : Driver

pub data JobStatus : Type 0 where
  pending running completed failed retrying : JobStatus

-- A row of `jobs`. A NULL `last_error` and an empty one are the same in `Job`.
pub record Job : Type 0 where
  pub id : ℕ
  pub queue : String
  pub job_type : String
  pub payload : String
  pub status : JobStatus
  pub priority : ℤ
  pub attempts : ℕ
  pub max_attempts : ℤ
  pub last_error : Option String
  pub scheduled_at : ℤ
  pub started_at : Option ℤ
  pub completed_at : Option ℤ
  pub created_at : ℤ

pub record Db : Type 0 where
  pub jobs : List Job
  pub next_job : ℕ

pub record Config : Type 0 where
  pub worker_count : ℤ
  pub poll_interval : ℤ
  pub max_retries : ℤ
  pub retry_delay : ℤ
  pub shutdown_timeout : ℤ

-- What a handler returns for a job: nothing, or the text of its error.
abbrev pub Handler : Type 0
Handler = Job → Option String

abbrev pub job_id : Job → ℕ
job_id j = j.id

abbrev pub is_pending : JobStatus → Bool
is_pending pending = true
is_pending _ = false

abbrev pub is_running : JobStatus → Bool
is_running running = true
is_running _ = false

abbrev pub is_completed : JobStatus → Bool
is_completed completed = true
is_completed _ = false

abbrev pub is_failed : JobStatus → Bool
is_failed failed = true
is_failed _ = false

-- WHERE status = 'pending' AND scheduled_at <= ?
abbrev pub is_due : ℤ → Job → Bool
is_due now j = is_pending j.status && leb_ℤ j.scheduled_at now

-- ORDER BY priority DESC, scheduled_at ASC
abbrev pub is_sooner : Job → Job → Bool
is_sooner a b =
    ltb_ℤ b.priority a.priority
    || not (ltb_ℤ a.priority b.priority) && ltb_ℤ a.scheduled_at b.scheduled_at

-- A NULL comes last in a descending order.
abbrev pub is_after : Option ℤ → Option ℤ → Bool
is_after none b = false
is_after (some x) none = true
is_after (some x) (some y) = ltb_ℤ y x

-- ORDER BY started_at DESC
abbrev pub is_later : Job → Job → Bool
is_later a b = is_after a.started_at b.started_at

pub is_sooner-IsOrder : IsOrder is_sooner
is_sooner-IsOrder = record {
  asymmetric = λ a b h. ground arith;
  between = λ a b c h k. ground arith;
}

is_after_asymmetric : (x y : Option ℤ) → is_after x y ≡ true → is_after y x ≡ false
is_after_asymmetric none y h = cc
is_after_asymmetric (some x) none h = refl
is_after_asymmetric (some x) (some y) h = ground arith

is_after_between :
    (x y z : Option ℤ) → is_after x y ≡ false → is_after y z ≡ false → is_after x z ≡ false
is_after_between none y z h k = refl
is_after_between (some x) none z h k = cc
is_after_between (some x) (some y) none h k = cc
is_after_between (some x) (some y) (some z) h k = ground arith

pub is_later-IsOrder : IsOrder is_later
is_later-IsOrder = record {
  asymmetric = λ a b. is_after_asymmetric a.started_at b.started_at;
  between = λ a b c. is_after_between a.started_at b.started_at c.started_at;
}
