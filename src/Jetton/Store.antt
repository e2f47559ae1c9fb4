-- ===== src/Jetton/Store.antt =====
-- The tables of internal/jetton/jetton.go (`initSchema`) and the requests and errors of its
-- methods. Columns that no method reads (name, description, image, metadata, comment, contract code,
-- creation and update times, transaction hashes of the logs) are left out.
use Prim.Native.String.{String}
use tonkey.Prelude.{ℕ, Bool, Option, List}
use tonkey.Prelude.Int.{ℤ}
use tonkey.Jetton.Decimal.{Decimal}

pub data Error : Type 0 where
  jetton_not_found : Error
  wallet_not_found : Error
  insufficient_balance : Error
  not_owner : Error
  not_minter : Error
  minting_disabled : Error
  burn_disabled : Error
  transfer_disabled : Error
  invalid_amount : Error
  -- errors.New in the methods
  initial_exceeds_max : Error
  mint_exceeds_max : Error
  wallet_frozen : Error
  to_user_required : Error
  freezing_unsupported : Error
  -- what the driver, the scan of a row and the provider report
  database : Error
  scan_null : Error
  deploy_failed : Error

-- `JettonType` is a Go string; the request may carry any.
pub data JettonType : Type 0 where
  standard mintable burnable freezable governance : JettonType
  unset : JettonType  -- ""
  other : String → JettonType

module _ (d : Decimal) where
  open d use {Text}

  -- A row of `jettons`. `Create` leaves `address`, `admin_address` and `deploy_tx_hash` NULL.
  pub record Jetton : Type 0 where
    pub id : ℕ
    pub owner_id : ℕ
    pub org_id : Option ℕ
    pub address : Option String
    pub symbol : String
    pub decimals : ℤ
    pub total_supply : Text
    pub max_supply : Option Text
    pub jetton_type : JettonType
    pub minting_enabled : Bool
    pub burning_enabled : Bool
    pub transfers_enabled : Bool
    pub admin_address : Option String
    pub deploy_tx_hash : Option String
    pub deployed_at : Option ℕ

  -- A row of `jetton_wallets`.
  pub record Wallet : Type 0 where
    pub id : ℕ
    pub jetton_id : ℕ
    pub user_id : ℕ
    pub balance : Text
    pub is_frozen : Bool

  -- Rows of `jetton_transfers`, `jetton_mints` and `jetton_burns`.
  pub record Transfer : Type 0 where
    pub id : ℕ
    pub jetton_id : ℕ
    pub from_wallet : ℕ
    pub to_wallet : ℕ
    pub amount : Text

  pub record MintRecord : Type 0 where
    pub id : ℕ
    pub jetton_id : ℕ
    pub to_wallet : ℕ
    pub amount : Text
    pub minter_id : ℕ

  pub record BurnRecord : Type 0 where
    pub id : ℕ
    pub jetton_id : ℕ
    pub from_wallet : ℕ
    pub amount : Text
    pub burner_id : ℕ

  -- Each table with the id that AUTOINCREMENT gives its next row.
  pub record Db : Type 0 where
    pub jettons : List Jetton
    pub next_jetton : ℕ
    pub wallets : List Wallet
    pub next_wallet : ℕ
    pub transfers : List Transfer
    pub next_transfer : ℕ
    pub mints : List MintRecord
    pub next_mint : ℕ
    pub burns : List BurnRecord
    pub next_burn : ℕ

  pub record CreateJettonRequest : Type 0 where
    pub symbol : String
    pub decimals : ℤ
    pub initial_supply : Text
    pub max_supply : Option Text
    pub jetton_type : JettonType
    pub minting_enabled : Bool
    pub burning_enabled : Bool

  pub record TransferRequest : Type 0 where
    pub jetton_id : ℕ
    pub to_user_id : Option ℕ
    pub amount : Text

  pub record MintRequest : Type 0 where
    pub jetton_id : ℕ
    pub to_user_id : Option ℕ
    pub amount : Text

  pub record BurnRequest : Type 0 where
    pub jetton_id : ℕ
    pub amount : Text
