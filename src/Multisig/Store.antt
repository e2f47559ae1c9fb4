-- ===== src/Multisig/Store.antt =====
-- The tables and errors of internal/multisig/multisig.go. The JSON columns `signers`, `approvals`
-- and `rejections` are kept as the lists that they encode, and `action_data` as its text. Times
-- are Unix seconds.
use Prim.Native.String.{String}
use tonkey.Prelude.{ℕ, Bool, Option, List}
use tonkey.Prelude.Int.{ℤ}

pub data Error : Type 0 where
  wallet_not_found : Error
  wallet_exists : Error
  proposal_not_found : Error
  already_approved : Error
  already_rejected : Error
  not_a_signer : Error
  invalid_threshold : Error
  proposal_expired : Error
  proposal_not_pending : Error
  insufficient_approvals : Error
  -- what the driver and encoding/json report
  database : Error
  encoding : Error

pub data ActionType : Type 0 where
  send add_signer remove_signer change_threshold custom : ActionType
  -- any other text: no method looks at it
  other : String → ActionType

pub data ProposalStatus : Type 0 where
  pending approved rejected executed expired cancelled : ProposalStatus

pub record Signer : Type 0 where
  pub user_id : ℕ
  pub address : String
  pub name : String
  pub added_at : ℤ

-- A row of `multisig_wallets`. A threshold below 1 is never stored, so it is a natural number.
pub record Wallet : Type 0 where
  pub id : ℕ
  pub address : String
  pub org_id : ℕ
  pub name : String
  pub threshold : ℕ
  pub signers : List Signer
  pub is_active : Bool
  pub created_at : ℤ

pub record Approval : Type 0 where
  pub user_id : ℕ
  pub signature : String
  pub timestamp : ℤ

-- A row of `multisig_proposals`.
pub record Proposal : Type 0 where
  pub id : ℕ
  pub wallet_id : ℕ
  pub proposer_id : ℕ
  pub action_type : ActionType
  pub action_data : String
  pub approvals : List Approval
  pub rejections : List Approval
  pub status : ProposalStatus
  pub tx_hash : Option String
  pub created_at : ℤ
  pub expires_at : Option ℤ
  pub executed_at : Option ℤ

pub record Db : Type 0 where
  pub wallets : List Wallet
  pub next_wallet : ℕ
  pub proposals : List Proposal
  pub next_proposal : ℕ
