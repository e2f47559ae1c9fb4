-- ===== src/Jetton/Admin.antt =====
-- `Create`, `Deploy`, the freezing of wallets and the settings in internal/jetton/jetton.go.
-- `fails k` says that the k-th statement of the call returns an error other than "no rows"; the
-- statements are numbered in the order of the text. A failed statement changes nothing.
use Prim.Native.String.{String}
use tonkey.Prelude.{
  ℕ, suc, Bool, true, false, not, ◌||◌, Option, none, some, [], ◌∷◌, ◌++◌, ◌==◌, if◌then◌else◌,
  pure, gets, or_raise, raise_if, exec, exec_ignoring, ◌>>=◌, ◌>>◌,
}
use tonkey.Prelude.Int.{ℤ, pos, ltb_ℤ, leb_ℤ}
use tonkey.Table.{update_where}
use tonkey.Jetton.Decimal.{Decimal}
use tonkey.Jetton.Store.{
  not_owner, initial_exceeds_max, freezing_unsupported, database, deploy_failed, JettonType,
  freezable, standard, unset, Jetton, Db, CreateJettonRequest,
}
use tonkey.Jetton.Lookup.{M, has_id, is_wallet_of, get, get_or_create_wallet, unsigned_amount}

abbrev pub is_freezable : JettonType → Bool
is_freezable freezable = true
is_freezable _ = false

abbrev pub or_standard : JettonType → JettonType
or_standard unset = standard
or_standard t = t

-- `if v != nil { field = *v }`.
abbrev pub override : Option Bool → Bool → Bool
override none b = b
override (some v) b = v

module _ (d : Decimal) where
  open d use {Text, parse, print, zero_text}

  -- `Create`'s test of the optional maximum.
  abbrev pub check_initial : Option Text → ℤ → M d (Unit {0})
  check_initial none initial_supply = pure tt
  check_initial (some text) initial_supply = do
    max_supply ← unsigned_amount d text
    raise_if (ltb_ℤ max_supply initial_supply) initial_exceeds_max

  -- The row that `Create` inserts. The total supply is the text of the request.
  abbrev pub new_jetton : ℕ → ℕ → Option ℕ → CreateJettonRequest d → Jetton d
  new_jetton id user_id org_id req = record {
    id = id;
    owner_id = user_id;
    org_id = org_id;
    address = none;
    symbol = req.symbol;
    decimals = if leb_ℤ req.decimals (pos 0) then pos 9 else req.decimals;
    total_supply = req.initial_supply;
    max_supply = req.max_supply;
    jetton_type = or_standard req.jetton_type;
    minting_enabled = req.minting_enabled;
    burning_enabled = req.burning_enabled;
    transfers_enabled = true;
    admin_address = none;
    deploy_tx_hash = none;
    deployed_at = none;
  }

  abbrev pub add_jetton : ℕ → Option ℕ → CreateJettonRequest d → Db d → Db d
  add_jetton user_id org_id req s = record s {
    jettons = s.jettons ++ new_jetton s.next_jetton user_id org_id req ∷ [];
    next_jetton = suc s.next_jetton;
  }

  -- UPDATE jetton_wallets SET balance = ? WHERE jetton_id = ? AND user_id = ?
  abbrev pub set_balance_of : ℕ → ℕ → Text → Db d → Db d
  set_balance_of jetton_id user_id text s = record s {
    wallets =
        update_where (is_wallet_of d jetton_id user_id) (λ w. record w { balance = text })
          s.wallets;
  }

  -- `Create`.
  unfoldable pub create : (ℕ → Bool) → ℕ → Option ℕ → CreateJettonRequest d → M d (Jetton d)
  create fails user_id org_id req = do
    initial_supply ← unsigned_amount d req.initial_supply
    check_initial req.max_supply initial_supply
    id ← gets (λ s. s.next_jetton)
    exec (fails 0) database (add_jetton user_id org_id req)
    get_or_create_wallet d (fails 1) (fails 2) id user_id
    exec_ignoring (fails 3 || leb_ℤ initial_supply (pos 0))
        (set_balance_of id user_id req.initial_supply)
    pure (new_jetton id user_id org_id req)

  abbrev pub deployed : String → String → ℕ → Jetton d → Jetton d
  deployed address tx_hash now j = record j {
    address = some address;
    admin_address = some address;
    deploy_tx_hash = some tx_hash;
    deployed_at = some now;
  }

  -- `Deploy`. `deployment` is what `DeployJetton` of the provider returns, or without a provider
  -- the address and the hash that the method formats.
  unfoldable pub deploy : (ℕ → Bool) → Option (String × String) → ℕ → ℕ → ℕ → M d (Jetton d)
  deploy fails deployment now user_id jetton_id = do
    jetton ← get d (fails 0) jetton_id
    raise_if (not (jetton.owner_id == user_id)) not_owner
    (address, tx_hash) ← or_raise deployment deploy_failed
    exec (fails 1) database (λ s. record s {
      jettons = update_where (has_id d jetton_id) (deployed address tx_hash now) s.jettons;
    })
    pure (deployed address tx_hash now jetton)

  abbrev pub set_frozen : ℕ → ℕ → Bool → Db d → Db d
  set_frozen jetton_id user_id frozen s = record s {
    wallets =
        update_where (is_wallet_of d jetton_id user_id) (λ w. record w { is_frozen = frozen })
          s.wallets;
  }

  -- `FreezeWallet` and `UnfreezeWallet`.
  unfoldable pub freeze_wallet : (ℕ → Bool) → ℕ → ℕ → ℕ → M d (Unit {0})
  freeze_wallet fails admin_id jetton_id user_id = do
    jetton ← get d (fails 0) jetton_id
    raise_if (not (jetton.owner_id == admin_id)) not_owner
    raise_if (not (is_freezable jetton.jetton_type)) freezing_unsupported
    exec (fails 1) database (set_frozen jetton_id user_id true)

  unfoldable pub unfreeze_wallet : (ℕ → Bool) → ℕ → ℕ → ℕ → M d (Unit {0})
  unfreeze_wallet fails admin_id jetton_id user_id = do
    jetton ← get d (fails 0) jetton_id
    raise_if (not (jetton.owner_id == admin_id)) not_owner
    exec (fails 1) database (set_frozen jetton_id user_id false)

  -- `UpdateSettings`: the three columns are written from the jetton as it was read.
  unfoldable pub update_settings :
      (ℕ → Bool) → ℕ → ℕ → Option Bool → Option Bool → Option Bool → M d (Unit {0})
  update_settings fails owner_id jetton_id minting burning transfers = do
    jetton ← get d (fails 0) jetton_id
    raise_if (not (jetton.owner_id == owner_id)) not_owner
    exec (fails 1) database (λ s. record s {
      jettons =
          update_where (has_id d jetton_id)
            (λ j. record j {
              minting_enabled = override minting jetton.minting_enabled;
              burning_enabled = override burning jetton.burning_enabled;
              transfers_enabled = override transfers jetton.transfers_enabled;
            })
            s.jettons;
    })
