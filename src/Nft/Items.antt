-- ===== src/Nft/Items.antt =====
-- The methods of `Manager` in internal/nft/nft.go on collections and items. `fails k` says that the
-- k-th statement of the call returns an error other than "no rows", numbered in the order of the text;
-- a failed statement changes nothing. `now` is what `time.Now` returns.
use Prim.Native.String.{String}
use text.Mathlib.Text.{◌==◌ as str_eq}
use tonkey.Prelude.{
  ℕ, suc, ◌+◌, Bool, false, not, ◌||◌, Option, none, some, [], ◌∷◌, ◌++◌, ◌==◌, if◌then◌else◌,
  is_some, Action, pure, gets, or_raise, raise_if, exec, exec_ignoring, ◌>>=◌, ◌>>◌,
}
use tonkey.Prelude.Int.{ℤ, pos, leb_ℤ}
use tonkey.Table.{select_first, update_where}
use tonkey.Table.Keys.{has_key}
use tonkey.Nft.Store.{
  Error, collection_not_found, nft_not_found, not_owner, max_supply_reached, database, scan_null,
  provider_failed, CollectionType, standard, unset, Collection, Item, MintRequest, TransferRequest,
  Db,
}

abbrev pub M : Type 0 → Type 0
M A = Action Db Error A

abbrev pub collection_id : Collection → ℕ
collection_id c = c.id

abbrev pub item_id : Item → ℕ
item_id n = n.id

abbrev pub or_standard : CollectionType → CollectionType
or_standard unset = standard
or_standard t = t

abbrev pub new_collection : ℕ → ℕ → Option ℕ → CollectionType → Option ℤ → Collection
new_collection id owner_id org_id collection_type max_supply = record {
  id = id;
  owner_id = owner_id;
  org_id = org_id;
  address = none;
  collection_type = or_standard collection_type;
  max_supply = max_supply;
  current_supply = 0;
  deployed_at = none;
}

abbrev pub add_collection : ℕ → Option ℕ → CollectionType → Option ℤ → Db → Db
add_collection owner_id org_id collection_type max_supply s = record s {
  collections =
      s.collections
      ++ new_collection s.next_collection owner_id org_id collection_type max_supply ∷ [];
  next_collection = suc s.next_collection;
}

-- `CreateCollection`.
unfoldable pub create_collection : Bool → ℕ → Option ℕ → CollectionType → Option ℤ → M Collection
create_collection fails user_id org_id collection_type max_supply = do
  id ← gets (λ s. s.next_collection)
  exec fails database (add_collection user_id org_id collection_type max_supply)
  pure (new_collection id user_id org_id collection_type max_supply)

-- `GetCollection`, which scans `address` into a Go string: database/sql reports an error on NULL.
unfoldable pub get_collection : Bool → ℕ → M Collection
get_collection failed id = do
  raise_if failed database
  c ←
      or_raise (← gets (λ s. select_first (has_key collection_id id) s.collections))
        collection_not_found
  or_raise c.address scan_null
  pure c

abbrev pub deployed : String → ℤ → Collection → Collection
deployed address now c = record c { address = some address; deployed_at = some now }

abbrev pub has_address : String → Collection → Bool
has_address address c = elim (c.address) [ none ↦ false | some a ↦ str_eq a address ]

-- UNIQUE(address) refuses a second collection at one address.
abbrev pub address_taken : String → ℕ → Db → Bool
address_taken address id s =
    is_some (select_first (λ c. if c.id == id then false else has_address address c) s.collections)

-- `DeployCollection`. `deployment` is what `DeployCollection` of the provider returns, or without a
-- provider the address that the method formats.
unfoldable pub deploy_collection : (ℕ → Bool) → Option String → ℤ → ℕ → ℕ → M Collection
deploy_collection fails deployment now user_id id = do
  c ← get_collection (fails 0) id
  raise_if (not (c.owner_id == user_id)) not_owner
  address ← or_raise deployment provider_failed
  taken ← gets (address_taken address id)
  exec (fails 1 || taken) database (λ s. record s {
    collections = update_where (has_key collection_id id) (deployed address now) s.collections;
  })
  pure (deployed address now c)

-- `col.MaxSupply != nil && col.CurrentSupply >= *col.MaxSupply`
abbrev pub is_exhausted : Option ℤ → ℕ → Bool
is_exhausted none supply = false
is_exhausted (some max) supply = leb_ℤ max (pos supply)

abbrev pub or_self : Option ℕ → ℕ → ℕ
or_self none user_id = user_id
or_self (some other_id) user_id = other_id

abbrev pub new_item : ℕ → ℕ → ℕ → ℕ → String → String → ℤ → Item
new_item id collection_id owner_id supply address tx_hash now = record {
  id = id;
  collection_id = collection_id;
  owner_id = owner_id;
  address = address;
  idx = supply + 1;
  minted_at = some now;
  mint_tx_hash = tx_hash;
}

abbrev pub add_item : ℕ → ℕ → ℕ → String → String → ℤ → Db → Db
add_item collection_id owner_id supply address tx_hash now s = record s {
  nfts = s.nfts ++ new_item s.next_nft collection_id owner_id supply address tx_hash now ∷ [];
  next_nft = suc s.next_nft;
}

abbrev pub grown : Collection → Collection
grown c = record c { current_supply = c.current_supply + 1 }

abbrev pub grow : ℕ → Db → Db
grow id s = record s { collections = update_where (has_key collection_id id) grown s.collections }

-- `Mint`. `minting` is the address and the hash that `MintNFT` of the provider returns, or without a
-- provider or an address those that the method formats. UNIQUE(address) refuses a second item at one
-- address, and the error of the last statement is dropped.
unfoldable pub mint : (ℕ → Bool) → Option (String × String) → ℤ → ℕ → MintRequest → M Item
mint fails minting now user_id req = do
  c ← get_collection (fails 0) req.collection_id
  raise_if (not (c.owner_id == user_id)) not_owner
  raise_if (is_exhausted c.max_supply c.current_supply) max_supply_reached
  let recipient = or_self req.recipient_id user_id
  (address, tx_hash) ← or_raise minting provider_failed
  taken ← gets (λ s. is_some (select_first (λ (n : Item). str_eq n.address address) s.nfts))
  id ← gets (λ s. s.next_nft)
  exec (fails 1 || taken) database
      (add_item req.collection_id recipient c.current_supply address tx_hash now)
  exec_ignoring (fails 2) (grow req.collection_id)
  pure (new_item id req.collection_id recipient c.current_supply address tx_hash now)

-- `GetNFT`.
unfoldable pub get_nft : Bool → ℕ → M Item
get_nft failed id = do
  raise_if failed database
  or_raise (← gets (λ s. select_first (has_key item_id id) s.nfts)) nft_not_found

-- UPDATE nfts SET owner_id = ? WHERE id = ?
abbrev pub given : ℕ → Item → Item
given owner_id n = record n { owner_id = owner_id }

abbrev pub give : ℕ → ℕ → Db → Db
give id owner_id s = record s { nfts = update_where (has_key item_id id) (given owner_id) s.nfts }

abbrev pub add_transfer : ℕ → String → String → String → Option ℤ → Db → Db
add_transfer nft_id from_address to_address tx_hash price s = record s {
  transfers =
      s.transfers
      ++ record {
        id = s.next_transfer;
        nft_id = nft_id;
        from_address = from_address;
        to_address = to_address;
        tx_hash = tx_hash;
        price = price;
      }
        ∷ [];
  next_transfer = suc s.next_transfer;
}

-- `Transfer`. `sending` is the hash that `TransferNFT` of the provider returns, or without a provider
-- the one that the method formats.
unfoldable pub transfer : (ℕ → Bool) → Option String → ℕ → TransferRequest → M (Unit {0})
transfer fails sending user_id req = do
  n ← get_nft (fails 0) req.nft_id
  raise_if (not (n.owner_id == user_id)) not_owner
  tx_hash ← or_raise sending provider_failed
  exec (fails 1) database (give req.nft_id (or_self req.to_user_id user_id))
  exec (fails 2) database (add_transfer req.nft_id n.address req.to_address tx_hash none)
