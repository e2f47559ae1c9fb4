-- ===== src/Tests/Tokens.antt =====
-- internal/jetton at concrete inputs: texts are the integers themselves.
use tonkey.Prelude.{ℕ, ◌≡◌, refl, Bool, true, false, none, some, [], ◌∷◌, arith, ok, err, ◌>>=◌}
use tonkey.Prelude.Int.{ℤ, pos, ◌+ℤ◌, ◌-ℤ◌}
use tonkey.Jetton.Decimal.{Decimal}
use tonkey.Jetton.Store.{
  standard, freezable, Jetton, Wallet, Db, CreateJettonRequest, TransferRequest, MintRequest,
  BurnRequest, insufficient_balance,
}
use tonkey.Jetton.Lookup.{get, get_or_create_wallet}
use tonkey.Jetton.Admin.{new_jetton, create}
use tonkey.Jetton.Tokens.{move, transfer, issue, mint, destroy, burn}
use tonkey.Jetton.Wallets.{held, balance_in}
use tonkey.Jetton.Opening.{IsKept}
use tonkey.Jetton.Transfers.{
  Paid, Inflated, transfer_balances, transfer_conserves, self_transfer_inflates,
}
use tonkey.Jetton.Minting.{Minted, Burned, mint_lem, burn_lem}
use tonkey.Jetton.Drafts.{Stuck, created_is_Stuck}

abbrev integers : Decimal
integers = record {
  Text = ℤ;
  parse = λ z. some z;
  print = λ z. z;
  zero_text = pos 0;
  parse-print = λ z. refl;
  parse-zero_text = refl;
}

abbrev never : ℕ → Bool
never k = false

abbrev gold : Jetton integers
gold = record {
  id = 1;
  owner_id = 7;
  org_id = none;
  address = some "EQGold";
  symbol = "GLD";
  decimals = pos 9;
  total_supply = pos 100;
  max_supply = some (pos 150);
  jetton_type = freezable;
  minting_enabled = true;
  burning_enabled = true;
  transfers_enabled = true;
  admin_address = some "EQGold";
  deploy_tx_hash = some "tx";
  deployed_at = some 5;
}

abbrev wallet : ℕ → ℕ → ℕ → Wallet integers
wallet id user amount = record {
  id = id;
  jetton_id = 1;
  user_id = user;
  balance = pos amount;
  is_frozen = false;
}

abbrev vault : Db integers
vault = record {
  jettons = gold ∷ [];
  next_jetton = 2;
  wallets = wallet 1 7 90 ∷ wallet 2 8 10 ∷ [];
  next_wallet = 3;
  transfers = [];
  next_transfer = 1;
  mints = [];
  next_mint = 1;
  burns = [];
  next_burn = 1;
}

vault-IsKept : IsKept integers vault
vault-IsKept = omega arith

abbrev pay : ℕ → ℕ → TransferRequest integers
pay user amount = record { jetton_id = 1; to_user_id = some user; amount = pos amount }

-- To user 9, who has no wallet yet.
abbrev after_pay : Db integers
after_pay = (transfer integers never 7 (pay 9 30) vault).1

pay_returns : transfer integers never 7 (pay 9 30) vault ≡ (ok tt, after_pay)
unfolding transfer get get_or_create_wallet move ◌>>=◌ ◌+ℤ◌ ◌-ℤ◌
pay_returns = refl

pay_lands :
    (balance_in integers 1 9 after_pay.wallets ≡ pos 30)
    × (balance_in integers 1 7 after_pay.wallets ≡ pos 60)
unfolding transfer get get_or_create_wallet move ◌>>=◌ ◌+ℤ◌ ◌-ℤ◌
pay_lands = (refl, refl)

too_much : (transfer integers never 8 (pay 9 30) vault).0 ≡ err insufficient_balance
unfolding transfer get get_or_create_wallet move ◌>>=◌ ◌+ℤ◌ ◌-ℤ◌
too_much = refl

transfer_balances_example : Paid integers 7 9 (pay 9 30) vault after_pay
transfer_balances_example =
    transfer_balances integers never 7 9 (pay 9 30) vault after_pay vault-IsKept refl pay_returns

transfer_conserves_example : held integers 1 after_pay.wallets ≡ held integers 1 vault.wallets
transfer_conserves_example =
    transfer_conserves integers never 7 9 (pay 9 30) vault after_pay vault-IsKept refl pay_returns
      (omega arith) 1

-- User 7 pays 30 tokens to user 7.
abbrev after_self : Db integers
after_self = (transfer integers never 7 (pay 7 30) vault).1

self_returns : transfer integers never 7 (pay 7 30) vault ≡ (ok tt, after_self)
unfolding transfer get get_or_create_wallet move ◌>>=◌ ◌+ℤ◌ ◌-ℤ◌
self_returns = refl

self_transfer_inflates_example : Inflated integers (pay 7 30) vault after_self
self_transfer_inflates_example =
    self_transfer_inflates integers never 7 7 (pay 7 30) vault after_self vault-IsKept refl
      self_returns refl

abbrev minting : MintRequest integers
minting = record { jetton_id = 1; to_user_id = none; amount = pos 50 }

abbrev after_mint : Db integers
after_mint = (mint integers never 7 minting vault).1

mint_returns : mint integers never 7 minting vault ≡ (ok tt, after_mint)
unfolding mint get get_or_create_wallet issue ◌>>=◌ ◌+ℤ◌ ◌-ℤ◌
mint_returns = refl

mint_lem_example : Minted integers 7 minting vault after_mint
mint_lem_example = mint_lem integers never 7 minting vault after_mint vault-IsKept mint_returns

abbrev burning : BurnRequest integers
burning = record { jetton_id = 1; amount = pos 4 }

abbrev after_burn : Db integers
after_burn = (burn integers never 8 burning vault).1

burn_returns : burn integers never 8 burning vault ≡ (ok tt, after_burn)
unfolding burn get get_or_create_wallet destroy ◌>>=◌ ◌+ℤ◌ ◌-ℤ◌
burn_returns = refl

burn_lem_example : Burned integers 8 burning vault after_burn
burn_lem_example = burn_lem integers never 8 burning vault after_burn vault-IsKept burn_returns

abbrev silver : CreateJettonRequest integers
silver = record {
  symbol = "SLV";
  decimals = pos 0;
  initial_supply = pos 20;
  max_supply = none;
  jetton_type = standard;
  minting_enabled = true;
  burning_enabled = false;
}

abbrev after_create : Db integers
after_create = (create integers never 8 none silver vault).1

create_returns :
    create integers never 8 none silver vault
    ≡ (ok (new_jetton integers 2 8 none silver), after_create)
unfolding create get_or_create_wallet ◌>>=◌
create_returns = refl

created_holds : balance_in integers 2 8 after_create.wallets ≡ pos 20
unfolding create get_or_create_wallet ◌>>=◌
created_holds = refl

created_is_Stuck_example : Stuck integers never 8 2 after_create
created_is_Stuck_example =
    created_is_Stuck integers never 8 none silver vault after_create
      (new_jetton integers 2 8 none silver) refl create_returns never 8
