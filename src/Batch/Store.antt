-- ===== src/Batch/Store.antt =====
-- The tables of internal/batch/batch.go, and the map of the batches that are being processed.
-- Times are Unix seconds.
use Prim.Native.String.{String}
use tonkey.Prelude.{ℕ, Bool, Option, List}
use tonkey.Prelude.Int.{ℤ}

pub data Error : Type 0 where
  batch_not_found batch_not_pending batch_empty batch_processing tx_limit_exceeded : Error
  -- what the driver reports
  database : Error

-- `BatchStatus`, and the text 'cancelled' that `Cancel` writes.
pub data BatchStatus : Type 0 where
  pending processing completed failed partial cancelled : BatchStatus

-- A row of `tx_batches`.
pub record Batch : Type 0 where
  pub id : ℕ
  pub user_id : ℕ
  pub org_id : Option ℕ
  pub status : BatchStatus
  pub total_amount : ℤ
  pub tx_count : ℕ
  pub processed_count : ℕ
  pub error : Option String
  pub created_at : ℤ
  pub started_at : Option ℤ
  pub completed_at : Option ℤ

-- The texts that the methods write to the column `status` of `tx_log`, and any other.
pub data TxStatus : Type 0 where
  pending submitted failed cancelled other : TxStatus

-- `TransactionInput`, and what `Send` is called with.
pub record Payment : Type 0 where
  pub from_addr : String
  pub to_addr : String
  pub amount : ℤ

-- A row of `tx_log`.
pub record Transaction : Type 0 where
  pub id : String
  pub user_id : Option ℕ
  pub org_id : Option ℕ
  pub batch_id : Option ℕ
  pub payment : Payment
  pub status : TxStatus
  pub created_at : ℤ

-- `sent` has what the provider was asked to send, oldest first, each with the id of its transaction.
pub record State : Type 0 where
  pub batches : List Batch
  pub next_batch : ℕ
  pub txs : List Transaction
  pub processing : ℕ → Bool
  pub sent : List (String × Payment)
