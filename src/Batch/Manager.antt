-- ===== src/Batch/Manager.antt =====
-- The methods of `Manager` in internal/batch/batch.go that write, and the ones that they call. `fails k`
-- says that the k-th statement of the call fails, numbered in the order of the text, those of a
-- loop once for each turn; a failed statement changes nothing. `now` and `later` are what the
-- calls of `time.Now` return.
use Prim.Native.String.{String}
use tonkey.Prelude.{
  ℕ, suc, ◌+◌, ◌*◌, Bool, true, false, not, ◌||◌, Option, none, some, List, [], ◌∷◌, ◌++◌, ◌==◌,
  ltb, if◌then◌else◌, is_some, length, Action, Result, pure, modify, raise, gets, or_raise,
  raise_if, exec, exec_ignoring, ◌>>=◌, ◌>>◌,
}
use tonkey.Prelude.Int.{ℤ, pos, leb_ℤ}
use tonkey.Table.{cut_off, select, select_first, update_where}
use tonkey.Table.Keys.{has_key}
use tonkey.Table.Texts.{has_text}
use tonkey.Table.Order.{order_by}
use tonkey.Batch.Store.{
  Error, batch_not_found, batch_not_pending, batch_empty, batch_processing, tx_limit_exceeded,
  database, BatchStatus, pending, processing, completed, failed, partial, cancelled, Batch,
  TxStatus, TxStatus.pending as tx_pending, submitted, TxStatus.failed as tx_failed,
  TxStatus.cancelled as tx_cancelled, Payment, Transaction, State,
}
use tonkey.Batch.Totals.{total_from}

abbrev pub M : Type 0 → Type 0
M A = Action State Error A

abbrev pub max_batch_size : ℕ
max_batch_size = 100

abbrev pub batch_id : Batch → ℕ
batch_id b = b.id

abbrev pub is_pending : BatchStatus → Bool
is_pending pending = true
is_pending _ = false

abbrev pub is_waiting : TxStatus → Bool
is_waiting tx_pending = true
is_waiting _ = false

-- WHERE batch_id = ?
abbrev pub is_of : ℕ → Transaction → Bool
is_of id t = elim t.batch_id [ none ↦ false | some b ↦ b == id ]

-- WHERE id = ?
abbrev pub tx_id : Transaction → String
tx_id t = t.id

abbrev pub has_id : String → Transaction → Bool
has_id = has_text tx_id

abbrev pub new_batch : ℕ → ℕ → Option ℕ → List Payment → ℤ → Batch
new_batch id user org payments now = record {
  id = id;
  user_id = user;
  org_id = org;
  status = pending;
  total_amount = total_from (pos 0) payments;
  tx_count = length payments;
  processed_count = 0;
  error = none;
  created_at = now;
  started_at = none;
  completed_at = none;
}

abbrev pub add_batch : ℕ → Option ℕ → List Payment → ℤ → State → State
add_batch user org payments now s = record s {
  batches = s.batches ++ new_batch s.next_batch user org payments now ∷ [];
  next_batch = suc s.next_batch;
}

abbrev pub new_transaction : String → ℕ → Option ℕ → ℕ → Payment → ℤ → Transaction
new_transaction id user org batch p now = record {
  id = id;
  user_id = some user;
  org_id = org;
  batch_id = some batch;
  payment = p;
  status = tx_pending;
  created_at = now;
}

abbrev pub add_transaction : String → ℕ → Option ℕ → ℕ → Payment → ℤ → State → State
add_transaction id user org batch p now s = record s {
  txs = s.txs ++ new_transaction id user org batch p now ∷ [];
}

-- The column `id` of `tx_log` is a primary key.
abbrev pub is_taken : String → State → Bool
is_taken id s = is_some (select_first (has_id id) s.txs)

-- The second loop of `Create`. `names k` is what `fmt.Sprintf` makes of the batch's id and the k-th
-- `time.Now`.
unfoldable pub add_transactions :
    (ℕ → Bool) → (ℕ → String) → ℕ → Option ℕ → ℕ → ℤ → List Payment → M (Unit {0})
add_transactions fails names user org batch now [] = pure tt
add_transactions fails names user org batch now (p ∷ payments) = do
  taken ← gets (is_taken (names 0))
  exec (fails 0 || taken) database (add_transaction (names 0) user org batch p now)
  add_transactions (λ k. fails (suc k)) (λ k. names (suc k)) user org batch now payments

-- `Create`.
unfoldable pub create : (ℕ → Bool) → (ℕ → ℕ → String) → ℕ → Option ℕ → List Payment → ℤ → M Batch
create fails names user org payments now = do
  raise_if (length payments == 0) batch_empty
  raise_if (ltb max_batch_size (length payments)) tx_limit_exceeded
  id ← gets (λ s. s.next_batch)
  exec (fails 0) database (add_batch user org payments now)
  add_transactions (λ k. fails (suc k)) (names id) user org id now payments
  pure (new_batch id user org payments now)

-- `Get`.
unfoldable pub get : Bool → ℕ → M Batch
get lost id = do
  raise_if lost database
  or_raise (← gets (λ s. select_first (has_key batch_id id) s.batches)) batch_not_found

-- ORDER BY created_at.
abbrev pub by_time : List Transaction → List Transaction
by_time = order_by (λ t u. leb_ℤ t.created_at u.created_at)

-- `GetTransactions`; `cut` says where its loop over the rows breaks off, if it does.
unfoldable pub get_transactions : Option ℕ → Bool → ℕ → M (List Transaction)
get_transactions cut lost id = do
  raise_if lost database
  gets (λ s. cut_off cut (by_time (select (is_of id) s.txs)))

-- UPDATE tx_batches SET … WHERE id = ?
abbrev pub change : ℕ → (Batch → Batch) → State → State
change id f s = record s { batches = update_where (has_key batch_id id) f s.batches }

-- UPDATE tx_log SET status = ? WHERE id = ?
abbrev pub mark : String → TxStatus → State → State
mark id status s = record s {
  txs = update_where (has_id id) (λ t. record t { status = status }) s.txs;
}

-- The provider: the error of its k-th `Send`, with the payment that it is asked for.
abbrev pub Provider : Type 0
Provider = ℕ → Payment → Option String

-- `successCount`, `failCount` and `lastError`.
pub record Tally : Type 0 where
  pub successes : ℕ
  pub failures : ℕ
  pub last_error : String

abbrev pub seen : Tally → ℕ
seen c = c.successes + c.failures

abbrev pub count : Option String → Tally → Tally
count none c = record c { successes = suc c.successes }
count (some e) c = record c { failures = suc c.failures; last_error = e }

abbrev pub outcome : Option String → TxStatus
outcome none = submitted
outcome (some e) = tx_failed

abbrev pub send : Transaction → State → State
send t s = record s { sent = s.sent ++ (t.id, t.payment) ∷ [] }

abbrev pub with_count : ℕ → Batch → Batch
with_count n b = record b { processed_count = n }

-- A turn of the loop of `Process` for a transaction that is pending.
unfoldable pub send_one : Provider → (ℕ → Bool) → ℕ → Transaction → Tally → M Tally
send_one provider fails id t c = do
  let answer = provider (seen c) t.payment
  modify (send t)
  exec_ignoring (fails (2 * seen c)) (mark t.id (outcome answer))
  exec_ignoring (fails (suc (2 * seen c))) (change id (with_count (seen (count answer c))))
  pure (count answer c)

-- The loop of `Process`.
unfoldable pub send_all : Provider → (ℕ → Bool) → ℕ → List Transaction → Tally → M Tally
send_all provider fails id [] c = pure c
send_all provider fails id (t ∷ ts) c = do
  c' ← if is_waiting t.status then send_one provider fails id t c else pure c
  send_all provider fails id ts c'

abbrev pub final_status : Tally → BatchStatus
final_status c = if c.failures == 0 then completed else if c.successes == 0 then failed else partial

abbrev pub begun : ℤ → Batch → Batch
begun now b = record b { status = processing; started_at = some now }

abbrev pub ended : Tally → ℤ → Batch → Batch
ended c now b = record b {
  status = final_status c;
  error = some c.last_error;
  completed_at = some now;
}

abbrev pub no_tally : Tally
no_tally = record { successes = 0; failures = 0; last_error = "" }

-- `Process` from `Get` on.
unfoldable pub process_batch : Provider → (ℕ → Bool) → Option ℕ → ℤ → ℤ → ℕ → M (Unit {0})
process_batch provider fails cut now later id = do
  b ← get (fails 0) id
  raise_if (not (is_pending b.status)) batch_not_pending
  exec (fails 1) database (change id (begun now))
  ts ← get_transactions cut (fails 2) id
  c ← send_all provider (λ k. fails (k + 4)) id ts no_tally
  exec (fails 3) database (change id (ended c later))

abbrev pub set_processing : ℕ → Bool → State → State
set_processing id b s = record s { processing = λ k. if k == id then b else s.processing k }

-- The deferred function: it runs however the method ends.
abbrev pub release : {A : Type 0} → ℕ → Result Error A × State → Result Error A × State
release id (r, t) = (r, set_processing id false t)

-- `Process`.
unfoldable pub process : Provider → (ℕ → Bool) → Option ℕ → ℤ → ℤ → ℕ → M (Unit {0})
process provider fails cut now later id s =
    if s.processing id
    then raise batch_processing s
    else release id (process_batch provider fails cut now later id (set_processing id true s))

abbrev pub called_off : ℤ → Batch → Batch
called_off now b = record b { status = cancelled; completed_at = some now }

abbrev pub is_waiting_in : ℕ → Transaction → Bool
is_waiting_in id t = if is_of id t then is_waiting t.status else false

-- UPDATE tx_log SET status = 'cancelled' WHERE batch_id = ? AND status = 'pending'
abbrev pub call_off : ℕ → State → State
call_off id s = record s {
  txs = update_where (is_waiting_in id) (λ t. record t { status = tx_cancelled }) s.txs;
}

-- `Cancel`.
unfoldable pub cancel : (ℕ → Bool) → ℤ → ℕ → ℕ → M (Unit {0})
cancel fails now id user = do
  b ← get (fails 0) id
  raise_if (not (b.user_id == user)) batch_not_found
  raise_if (not (is_pending b.status)) batch_not_pending
  raise_if (← gets (λ s. s.processing id)) batch_processing
  exec (fails 1) database (change id (called_off now))
  exec (fails 2) database (call_off id)
