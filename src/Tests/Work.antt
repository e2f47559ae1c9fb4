-- ===== src/Tests/Work.antt =====
-- internal/jobs at concrete inputs: three pending jobs, of which two are due at time 100.
use tonkey.Prelude.{
  ℕ, ◌≡◌, refl, ◌⊎◌, Bool, true, false, some, none, List, [], ◌∷◌, arith, ok, err, ◌≢◌, ◌>>=◌,
}
use tonkey.Prelude.Int.{ℤ, pos, negsuc, ◌+ℤ◌}
use tonkey.Table.{select_first}
use tonkey.Table.Keys.{has_key, UniqueKeys}
use tonkey.Jobs.Store.{strings, bytes, unscannable, pending, Job, Db, Config, job_id, is_after}
use tonkey.Jobs.Queue.{
  Handlers, started, new_queue, register_handler, claim, read_running, fetch_job, fail_job,
  process_with, process_job, take_up, work,
}
use tonkey.Jobs.Admin.{with_priority, with_delay, get_job, retry_job, cleanup}
use tonkey.Jobs.Fetching.{scanned, Claimed, IdleAt, claim_lem, fetch_job_lem}
use tonkey.Jobs.Unhandled as Unhandled
use tonkey.Jobs.Unhandled.{working, asking, run-IsUntried}
use tonkey.Jobs.Untried.{IsUntried}
use tonkey.Jobs.Unread.{work-claim}
use tonkey.Jobs.Races.{late_read}
use tonkey.Jobs.Abandoned.{
  Call, enqueueing, claiming, processing, retrying, cleaning, IsNumbered, run, run-IsRunning,
}

abbrev smooth : ℕ → Bool
smooth k = false

abbrev config : Config
config = new_queue (record {
  worker_count = pos 0;
  poll_interval = pos 1;
  max_retries = negsuc 4;
  retry_delay = pos 30;
  shutdown_timeout = pos 0;
})

abbrev job : ℕ → ℤ → ℤ → Job
job id priority at_time = record {
  id = id;
  queue = "default";
  job_type = "mail";
  payload = "{}";
  status = pending;
  priority = priority;
  attempts = 0;
  max_attempts = pos 2;
  last_error = none;
  scheduled_at = at_time;
  started_at = none;
  completed_at = none;
  created_at = pos 1;
}

abbrev waiting : Db
waiting = record {
  jobs = job 1 (pos 0) (pos 10) ∷ job 2 (pos 5) (pos 90) ∷ job 3 (pos 9) (pos 400) ∷ [];
  next_job = 4;
}

waiting-UniqueKeys : UniqueKeys job_id waiting.jobs
waiting-UniqueKeys = omega arith

abbrev second_started : Db
second_started = (claim false (pos 100) waiting).1

-- The second job has the higher priority of the two that are due.
claim_returns :
    (fetch_job bytes smooth (pos 100) waiting).0
    ≡ ok (some (started (pos 100) (job 2 (pos 5) (pos 90))))
unfolding fetch_job claim read_running ◌>>=◌
claim_returns = refl

-- A driver that gives the payload as a string: the job is claimed, and not returned.
strings_claims : fetch_job strings smooth (pos 100) waiting ≡ (err unscannable, second_started)
unfolding fetch_job claim read_running ◌>>=◌
strings_claims = refl

work-claim_example :
    (work strings smooth config (λ name. none) (pos 100) (pos 100) waiting).1 ≡ second_started
work-claim_example = work-claim smooth config (λ name. none) (pos 100) (pos 100) waiting

claim_lem_example :
    ((claim false (pos 100) waiting ≡ (ok false, waiting)) × IdleAt (pos 100) waiting)
    ⊎ ((t : Db) × (claim false (pos 100) waiting ≡ (ok true, t)) × Claimed (pos 100) waiting t)
claim_lem_example = claim_lem (pos 100) waiting waiting-UniqueKeys

fetch_job_lem_example :
    ((fetch_job bytes smooth (pos 100) waiting ≡ (ok none, waiting)) × IdleAt (pos 100) waiting)
    ⊎ ((t : Db) × (c : Claimed (pos 100) waiting t) × (fetch_job bytes smooth (pos 100) waiting
          ≡ (scanned bytes (started (pos 100) c.job), t)))
fetch_job_lem_example =
    fetch_job_lem bytes smooth (pos 100) waiting refl refl waiting-UniqueKeys
      ((λ e. cc), ((λ e. cc), ((λ e. cc), tt)))

-- A worker claims job 2 and another one job 1 a second later, before the first has read its own:
-- both get job 1, and job 2 has no worker.
abbrev both_started : Db
both_started = (claim false (pos 101) (claim false (pos 100) waiting).1).1

first_claims : claim false (pos 100) waiting ≡ (ok true, second_started)
unfolding claim ◌>>=◌
first_claims = refl

second_claims : claim false (pos 101) second_started ≡ (ok true, both_started)
unfolding claim ◌>>=◌
second_claims = refl

both_read :
    read_running bytes false both_started
    ≡ (ok (some (started (pos 101) (job 1 (pos 0) (pos 10)))), both_started)
unfolding claim read_running ◌>>=◌
both_read = refl

late_read_example :
    (c : Claimed (pos 100) waiting second_started) × (1 ≢ c.job.id)
    × (is_after (some (pos 101)) (some (pos 100)) ≡ true)
late_read_example =
    late_read bytes (pos 100) (pos 101) waiting second_started both_started
      (started (pos 101) (job 1 (pos 0) (pos 10))) waiting-UniqueKeys first_claims second_claims
      refl both_read

abbrev mailer : Handlers
mailer = register_handler "mail" (λ j. some "down") (λ name. none)

abbrev later_calls : List Call
later_calls =
    processing smooth config mailer (pos 102) (started (pos 101) (job 1 (pos 0) (pos 10)))
    ∷ processing smooth config mailer (pos 103) (started (pos 101) (job 1 (pos 0) (pos 10)))
    ∷ retrying bytes smooth 2 (pos 500)
    ∷ claiming false (pos 600)
    ∷ enqueueing smooth config "mail" "{}"
        (with_priority (pos 1) ∷ with_delay (pos 700) (pos 5) ∷ []) (pos 700) (pos 700)
    ∷ cleaning false (pos 100000)
    ∷ []

abbrev lost : Job
lost = started (pos 100) (job 2 (pos 5) (pos 90))

lost_found : select_first (has_key job_id 2) both_started.jobs ≡ some lost
unfolding claim ◌>>=◌
lost_found = refl

both_started-IsNumbered : IsNumbered both_started
unfolding claim ◌>>=◌
both_started-IsNumbered = record {
  unique = omega arith;
  below = omega arith;
  all = (tt, (tt, (tt, tt)));
}

run-IsRunning_example :
    select_first (has_key job_id 2) (run later_calls both_started).jobs ≡ some lost
run-IsRunning_example =
    run-IsRunning later_calls 2 lost both_started both_started-IsNumbered lost_found refl
      (omega arith, (omega arith, (tt, (tt, (tt, (tt, tt))))))

abbrev silent : Handlers
silent = register_handler "other" (λ j. none) (λ name. none)

abbrev turns : List Unhandled.Call
turns =
    working bytes smooth config silent (pos 100) (pos 100)
    ∷ working bytes smooth config silent (pos 101) (pos 102)
    ∷ asking bytes smooth 2 (pos 103)
    ∷ Unhandled.cleaning false (pos 100000)
    ∷ []

-- Tried twice, and as much to be tried as before.
abbrev retried : Job
retried = record (job 2 (pos 5) (pos 90)) {
  last_error = some "no handler registered for job type: mail";
  scheduled_at = pos 102;
  started_at = some (pos 101);
}

retried_found : select_first (has_key job_id 2) (Unhandled.run turns waiting).jobs ≡ some retried
unfolding Unhandled.run Unhandled.perform work take_up fetch_job claim read_running process_job
    process_with fail_job retry_job get_job cleanup ◌>>=◌ ◌+ℤ◌
retried_found = refl

run-IsUntried_example : IsUntried "mail" retried
run-IsUntried_example =
    run-IsUntried turns 2 "mail" waiting retried
      (record {
        unique = waiting-UniqueKeys;
        below = omega arith;
        all = (
          (λ e. (refl, refl, refl, tt)),
          ((λ e. (refl, refl, refl, tt)), ((λ e. (refl, refl, refl, tt)), tt)),
        );
      })
      (omega arith) (refl, (refl, (tt, (tt, tt)))) retried_found
