-- ===== src/Jetton/Tokens.antt =====
-- `Transfer`, `Mint` and `Burn` in internal/jetton/jetton.go.
-- `fails k` says that the k-th statement of the call returns an error other than "no rows"; the
-- statements are numbered in the order of the text. A failed statement changes nothing.
use tonkey.Prelude.{
  ℕ, suc, Bool, not, Option, none, some, [], ◌∷◌, ◌++◌, ◌==◌, pure, or_raise, deref, raise_if, exec,
  ◌>>=◌, ◌>>◌,
}
use tonkey.Prelude.Int.{ℤ, ◌+ℤ◌, ◌-ℤ◌, ltb_ℤ}
use tonkey.Jetton.Decimal.{Decimal}
use tonkey.Jetton.Store.{
  insufficient_balance, not_minter, minting_disabled, burn_disabled, transfer_disabled,
  mint_exceeds_max, wallet_frozen, to_user_required, database, Jetton, Wallet, Db, TransferRequest,
  MintRequest, BurnRequest,
}
use tonkey.Jetton.Lookup.{
  M, get, get_or_create_wallet, positive_amount, set_balance, set_total_supply,
}

module _ (d : Decimal) where
  open d use {Text, parse, print, zero_text}

  abbrev pub add_transfer : ℕ → ℕ → ℕ → Text → Db d → Db d
  add_transfer jetton_id from_wallet to_wallet amount s = record s {
    transfers =
        s.transfers
        ++ record {
          id = s.next_transfer;
          jetton_id = jetton_id;
          from_wallet = from_wallet;
          to_wallet = to_wallet;
          amount = amount;
        }
          ∷ [];
    next_transfer = suc s.next_transfer;
  }

  -- The writes of `Transfer`, with the two wallets and balances as they were read.
  unfoldable pub move :
      (ℕ → Bool) → TransferRequest d → Wallet d → Wallet d → ℤ → ℤ → ℤ → M d (Unit {0})
  move fails req from_wallet to_wallet from_balance to_balance amount = do
    exec (fails 5) database (set_balance d from_wallet.id (print (from_balance -ℤ amount)))
    exec (fails 6) database (set_balance d to_wallet.id (print (to_balance +ℤ amount)))
    exec (fails 7) database (add_transfer req.jetton_id from_wallet.id to_wallet.id req.amount)

  -- `Transfer`, without the record that it returns, which repeats what it writes to the log.
  unfoldable pub transfer : (ℕ → Bool) → ℕ → TransferRequest d → M d (Unit {0})
  transfer fails from_user_id req = do
    jetton ← get d (fails 0) req.jetton_id
    raise_if (not jetton.transfers_enabled) transfer_disabled
    amount ← positive_amount d req.amount
    from_wallet ← get_or_create_wallet d (fails 1) (fails 2) req.jetton_id from_user_id
    raise_if from_wallet.is_frozen wallet_frozen
    from_balance ← deref (parse from_wallet.balance)
    raise_if (ltb_ℤ from_balance amount) insufficient_balance
    to_user_id ← or_raise req.to_user_id to_user_required
    to_wallet ← get_or_create_wallet d (fails 3) (fails 4) req.jetton_id to_user_id
    to_balance ← deref (parse to_wallet.balance)
    move fails req from_wallet to_wallet from_balance to_balance amount

  -- `Mint`'s test of the optional maximum.
  abbrev pub check_mint : Option Text → Text → ℤ → M d (Unit {0})
  check_mint none total amount = pure tt
  check_mint (some text) total amount = do
    max_supply ← deref (parse text)
    total_supply ← deref (parse total)
    raise_if (ltb_ℤ max_supply (total_supply +ℤ amount)) mint_exceeds_max

  abbrev pub or_minter : Option ℕ → ℕ → ℕ
  or_minter none minter_id = minter_id
  or_minter (some user_id) minter_id = user_id

  abbrev pub add_mint : ℕ → ℕ → Text → ℕ → Db d → Db d
  add_mint jetton_id to_wallet amount minter_id s = record s {
    mints =
        s.mints
        ++ record {
          id = s.next_mint;
          jetton_id = jetton_id;
          to_wallet = to_wallet;
          amount = amount;
          minter_id = minter_id;
        }
          ∷ [];
    next_mint = suc s.next_mint;
  }

  -- The writes of `Mint`.
  unfoldable pub issue : (ℕ → Bool) → ℕ → MintRequest d → Jetton d → Wallet d → ℤ → M d (Unit {0})
  issue fails minter_id req jetton to_wallet amount = do
    to_balance ← deref (parse to_wallet.balance)
    exec (fails 3) database (set_balance d to_wallet.id (print (to_balance +ℤ amount)))
    total_supply ← deref (parse jetton.total_supply)
    exec (fails 4) database (set_total_supply d req.jetton_id (print (total_supply +ℤ amount)))
    exec (fails 5) database (add_mint req.jetton_id to_wallet.id req.amount minter_id)

  -- `Mint`.
  unfoldable pub mint : (ℕ → Bool) → ℕ → MintRequest d → M d (Unit {0})
  mint fails minter_id req = do
    jetton ← get d (fails 0) req.jetton_id
    raise_if (not (jetton.owner_id == minter_id)) not_minter
    raise_if (not jetton.minting_enabled) minting_disabled
    amount ← positive_amount d req.amount
    check_mint jetton.max_supply jetton.total_supply amount
    let to_user_id = or_minter req.to_user_id minter_id
    to_wallet ← get_or_create_wallet d (fails 1) (fails 2) req.jetton_id to_user_id
    issue fails minter_id req jetton to_wallet amount

  abbrev pub add_burn : ℕ → ℕ → Text → ℕ → Db d → Db d
  add_burn jetton_id from_wallet amount burner_id s = record s {
    burns =
        s.burns
        ++ record {
          id = s.next_burn;
          jetton_id = jetton_id;
          from_wallet = from_wallet;
          amount = amount;
          burner_id = burner_id;
        }
          ∷ [];
    next_burn = suc s.next_burn;
  }

  -- The writes of `Burn`.
  unfoldable pub destroy :
      (ℕ → Bool) → ℕ → BurnRequest d → Jetton d → Wallet d → ℤ → ℤ → M d (Unit {0})
  destroy fails burner_id req jetton from_wallet from_balance amount = do
    exec (fails 3) database (set_balance d from_wallet.id (print (from_balance -ℤ amount)))
    total_supply ← deref (parse jetton.total_supply)
    exec (fails 4) database (set_total_supply d req.jetton_id (print (total_supply -ℤ amount)))
    exec (fails 5) database (add_burn req.jetton_id from_wallet.id req.amount burner_id)

  -- `Burn`. It does not look at `is_frozen`.
  unfoldable pub burn : (ℕ → Bool) → ℕ → BurnRequest d → M d (Unit {0})
  burn fails burner_id req = do
    jetton ← get d (fails 0) req.jetton_id
    raise_if (not jetton.burning_enabled) burn_disabled
    amount ← positive_amount d req.amount
    from_wallet ← get_or_create_wallet d (fails 1) (fails 2) req.jetton_id burner_id
    from_balance ← deref (parse from_wallet.balance)
    raise_if (ltb_ℤ from_balance amount) insufficient_balance
    destroy fails burner_id req jetton from_wallet from_balance amount
