-- ===== src/Jetton/Lookup.antt =====
-- How the methods of internal/jetton/jetton.go find a jetton and a wallet, and the writes they share.
-- `fails k` says that the k-th statement of the call returns an error other than "no rows"; the
-- statements are numbered in the order of the text. A failed statement changes nothing.
use Prim.Native.String.{String}
use text.Mathlib.Text.{◌==◌ as str_eq}
use tonkey.Prelude.{
  ℕ, suc, Bool, false, ◌&&◌, none, some, [], ◌∷◌, ◌++◌, ◌==◌, if◌then◌else◌, Action, ok, err, pure,
  gets, or_raise, raise_if, ◌>>=◌, ◌>>◌,
}
use tonkey.Prelude.Int.{ℤ, pos, ltb_ℤ, leb_ℤ}
use tonkey.Table.{select_first, update_where}
use tonkey.Jetton.Decimal.{Decimal}
use tonkey.Jetton.Store.{
  Error, jetton_not_found, invalid_amount, database, scan_null, Jetton, Wallet, Db,
}

module _ (d : Decimal) where
  open d use {Text, parse, print, zero_text}

  abbrev pub M : Type 0 → Type 0
  M A = Action (Db d) Error A

  abbrev pub has_id : ℕ → Jetton d → Bool
  has_id id j = j.id == id

  abbrev pub is_wallet_of : ℕ → ℕ → Wallet d → Bool
  is_wallet_of jetton_id user_id w = w.jetton_id == jetton_id && w.user_id == user_id

  abbrev pub is_wallet_id : ℕ → Wallet d → Bool
  is_wallet_id id w = w.id == id

  -- `row.Scan` into the fields of a `Jetton`: three of them are Go strings, for which database/sql
  -- reports an error on NULL.
  abbrev pub scan_jetton : Jetton d → M (Jetton d)
  scan_jetton j = do
    or_raise j.address scan_null
    or_raise j.admin_address scan_null
    or_raise j.deploy_tx_hash scan_null
    pure j

  -- `Get`.
  unfoldable pub get : Bool → ℕ → M (Jetton d)
  get failed id = do
    raise_if failed database
    j ← or_raise (← gets (λ s. select_first (has_id id) s.jettons)) jetton_not_found
    scan_jetton j

  -- `GetBySymbol`.
  unfoldable pub get_by_symbol : (ℕ → Bool) → String → M (Jetton d)
  get_by_symbol fails symbol = do
    raise_if (fails 0) database
    j ←
        or_raise (← gets (λ s. select_first (λ j. str_eq j.symbol symbol) s.jettons))
          jetton_not_found
    get (fails 1) j.id

  abbrev pub new_wallet : ℕ → ℕ → ℕ → Wallet d
  new_wallet id jetton_id user_id = record {
    id = id;
    jetton_id = jetton_id;
    user_id = user_id;
    balance = zero_text;
    is_frozen = false;
  }

  abbrev pub add_wallet : ℕ → ℕ → Db d → Db d
  add_wallet jetton_id user_id s = record s {
    wallets = s.wallets ++ new_wallet s.next_wallet jetton_id user_id ∷ [];
    next_wallet = suc s.next_wallet;
  }

  -- The INSERT of a wallet; UNIQUE(jetton_id, user_id) refuses a second one.
  abbrev pub insert_wallet : Bool → ℕ → ℕ → M (Wallet d)
  insert_wallet failed jetton_id user_id s =
      if failed
      then (err database, s)
      else elim (select_first (is_wallet_of jetton_id user_id) s.wallets) [
        | some w ↦ (err database, s)
        | none ↦ (ok (new_wallet s.next_wallet jetton_id user_id), add_wallet jetton_id user_id s)
      ]

  -- `getOrCreateWallet`: any error of the query leads to the INSERT.
  unfoldable pub get_or_create_wallet : Bool → Bool → ℕ → ℕ → M (Wallet d)
  get_or_create_wallet query_failed insert_failed jetton_id user_id s =
      elim (if query_failed
        then none
        else select_first (is_wallet_of jetton_id user_id) s.wallets) [
          | some w ↦ (ok w, s)
          | none ↦ insert_wallet insert_failed jetton_id user_id s
        ]

  -- `GetBalance`.
  unfoldable pub get_balance : (ℕ → Bool) → ℕ → ℕ → M Text
  get_balance fails jetton_id user_id = do
    wallet ← get_or_create_wallet (fails 0) (fails 1) jetton_id user_id
    pure wallet.balance

  -- `amount, ok := SetString(s, 10); if !ok || amount.Sign() <= 0`.
  abbrev pub positive_amount : Text → M ℤ
  positive_amount text = do
    amount ← or_raise (parse text) invalid_amount
    raise_if (leb_ℤ amount (pos 0)) invalid_amount
    pure amount

  -- `amount.Sign() < 0`, in `Create`.
  abbrev pub unsigned_amount : Text → M ℤ
  unsigned_amount text = do
    amount ← or_raise (parse text) invalid_amount
    raise_if (ltb_ℤ amount (pos 0)) invalid_amount
    pure amount

  -- UPDATE jetton_wallets SET balance = ? WHERE id = ?
  abbrev pub set_balance : ℕ → Text → Db d → Db d
  set_balance id text s = record s {
    wallets = update_where (is_wallet_id id) (λ w. record w { balance = text }) s.wallets;
  }

  -- UPDATE jettons SET total_supply = ? WHERE id = ?
  abbrev pub set_total_supply : ℕ → Text → Db d → Db d
  set_total_supply id text s = record s {
    jettons = update_where (has_id id) (λ j. record j { total_supply = text }) s.jettons;
  }
