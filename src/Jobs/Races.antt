-- ===== src/Jobs/Races.antt =====
-- Two workers of internal/jobs between the two statements of `fetchJob`.
use tonkey.Prelude.{
  ℕ, ap, sym, ◌∙◌, ◌≢◌, some_inj, All-map, raise_if, pure, ◌≡◌, refl, subst, inl, inr, true, false,
  Option, none, some, arith, ok, ◌>>=◌,
}
use tonkey.Prelude.Int.{ℤ, ltb_ℤ}
use tonkey.Table.{
  All-first_by, All-select, select-All, select_first, select, first_by, first_by-first,
  All-select_first,
}
use tonkey.Table.Keys.{has_key, UniqueKeys, UniqueKeys-update, found-update_other, All-found}
use tonkey.Jobs.Store.{
  Driver, strings, bytes, unscannable, is_due, Job, Db, job_id, is_running, is_later, is_after,
  is_later-IsOrder,
}
use tonkey.Jobs.Queue.{is_unscannable, started, claim, read_running}
use tonkey.Jobs.Fetching.{Claimed-row, Claimed, claim_lem}

claim-Claimed :
    (now : ℤ) (s t : Db)
    → UniqueKeys job_id s.jobs
    → claim false now s ≡ (ok true, t)
    → Claimed now s t
claim-Claimed now s t u e = elim (claim_lem now s u) [
  | inl (f, idle) ↦ cc
  | inr (t', f, c) ↦ let same : t' ≡ t = cc in subst (Claimed now s) same c
]

read_running-first :
    (driver : Driver) (s : Db) (job : Job)
    → read_running driver false s ≡ (ok (some job), s)
    → first_by is_later (select (λ (j : Job). is_running j.status) s.jobs) ≡ some job
unfolding read_running ◌>>=◌
read_running-first bytes s job e = cc
read_running-first strings s job e =
    unread (first_by is_later (select (λ (j : Job). is_running j.status) s.jobs)) e
  where
    unread :
        (o : Option Job)
        → (raise_if (is_unscannable strings o) unscannable >>= (λ _. pure o)) s ≡ (ok (some job), s)
        → o ≡ some job
    unread none e = unfold ◌>>=◌ in cc
    unread (some r) e = unfold ◌>>=◌ in cc

after-is_after :
    (x y : ℤ) (z : Option ℤ)
    → ltb_ℤ x y ≡ true
    → is_after (some y) z ≡ false
    → is_after z (some x) ≡ true
after-is_after x y none h k = cc
after-is_after x y (some z) h k = ground arith

-- What the first worker reads was started after its claim.
read_after :
    (driver : Driver) (now later : ℤ) (t u : Db) (d : Claimed later t u) (job : Job)
    → ltb_ℤ now later ≡ true
    → read_running driver false u ≡ (ok (some job), u)
    → is_after job.started_at (some now) ≡ true
read_after driver now later t u d job order read =
    let row : select_first (has_key job_id d.job.id) u.jobs ≡ some (started later d.job) =
      Claimed-row later t u d in
    let rows = select (λ (j : Job). is_running j.status) u.jobs in
    let not_later : is_later (started later d.job) job ≡ false =
      (All-select_first (λ (r : Job). is_running r.status ≡ true → is_later r job ≡ false)
          (has_key job_id d.job.id) u.jobs (started later d.job)
          (select-All (λ (j : Job). is_running j.status) (λ (r : Job). is_later r job ≡ false)
            u.jobs
            (first_by-first is_later is_later-IsOrder rows job
              (read_running-first driver u job read)))
          row).0
        refl in
    after-is_after now later job.started_at order not_later

-- What the worker reads is stored under its own id.
read_running-stored :
    (driver : Driver) (s : Db) (job : Job)
    → UniqueKeys job_id s.jobs
    → read_running driver false s ≡ (ok (some job), s)
    → select_first (has_key job_id job.id) s.jobs ≡ some job
read_running-stored driver s job u e =
    All-first_by is_later (λ (r : Job). select_first (has_key job_id r.id) s.jobs ≡ some r)
      (select (λ (j : Job). is_running j.status) s.jobs) job
      (All-map
        (λ (r : Job).
          (select_first (has_key job_id r.id) s.jobs ≡ some r) × (is_running r.status ≡ true))
        (λ (r : Job). select_first (has_key job_id r.id) s.jobs ≡ some r) _ (λ r h. h.0)
        (All-select (λ (j : Job). is_running j.status)
          (λ (r : Job). select_first (has_key job_id r.id) s.jobs ≡ some r) s.jobs
          (All-found job_id s.jobs u)))
      (read_running-first driver s job e)

-- A job that has been claimed is not due, so it is not claimed again.
claims_other :
    (now later : ℤ) (s t u : Db)
    → (keys : UniqueKeys job_id s.jobs) → (c : Claimed now s t) (d : Claimed later t u)
    → d.job.id ≢ c.job.id
claims_other now later s t u keys c d same =
    let one : d.job ≡ started now c.job = some_inj (
      sym d.stored
      ∙ ap (λ (n : ℕ). select_first (has_key job_id n) t.jobs) same
      ∙ Claimed-row now s t c) in
    let due : is_due later (started now c.job) ≡ true =
      subst (λ (j : Job). is_due later j ≡ true) one d.due in
    cc

not_itself : (x : ℤ) → is_after (some x) (some x) ≡ true → ⊥
not_itself x e = ground arith

-- Where ids are unique and no statement fails: when a worker claims a job at `now`, and another one
-- claims a job in a later second before the first has read back what it claimed, then the job that the
-- first reads, where its driver lets it read one, is not the job that it has claimed; it is one that
-- was started after `now`.
pub late_read :
    (driver : Driver) (now later : ℤ) (s t u : Db) (job : Job)
    → UniqueKeys job_id s.jobs
    → claim false now s ≡ (ok true, t)
    → claim false later t ≡ (ok true, u)
    → ltb_ℤ now later ≡ true
    → read_running driver false u ≡ (ok (some job), u)
    → (c : Claimed now s t) × (job.id ≢ c.job.id) × (is_after job.started_at (some now) ≡ true)
late_read driver now later s t u job keys mine yours order read =
    let c = claim-Claimed now s t keys mine in
    let keys' : UniqueKeys job_id t.jobs =
      rw c.written (
        UniqueKeys-update job_id (has_key job_id c.job.id) (started now) s.jobs (λ q. refl) keys) in
    let d = claim-Claimed later t u keys' yours in
    let keys'' : UniqueKeys job_id u.jobs = rw d.written (
      UniqueKeys-update job_id (has_key job_id d.job.id) (started later) t.jobs (λ q. refl)
        keys') in
    let after = read_after driver now later t u d job order read in
    let mine_now : select_first (has_key job_id c.job.id) u.jobs ≡ some (started now c.job) =
      rw d.written (
        found-update_other job_id c.job.id d.job.id (started later) t.jobs (started now c.job)
          (λ q. refl) (claims_other now later s t u keys c d) (Claimed-row now s t c)) in
    (
      c,
      λ same.
          let one : job ≡ started now c.job = some_inj (
            sym (read_running-stored driver u job keys'' read)
            ∙ ap (λ (n : ℕ). select_first (has_key job_id n) u.jobs) same
            ∙ mine_now) in
          not_itself now (subst (λ (j : Job). is_after j.started_at (some now) ≡ true) one after),
      after,
    )
