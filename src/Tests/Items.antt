-- ===== src/Tests/Items.antt =====
-- internal/nft at concrete inputs.
use tonkey.Prelude.{
  ℕ, ◌≡◌, refl, ◌⊎◌, Bool, true, false, none, some, List, [], ◌∷◌, ok, arith, ◌>>=◌,
}
use tonkey.Prelude.Int.{pos}
use tonkey.Prelude.Ensures.{Refused}
use tonkey.Table.{select_first}
use tonkey.Table.Keys.{has_key}
use tonkey.Nft.Store.{
  standard, unset, active, Collection, Item, Listing, MintRequest, ListingRequest, OfferStatus,
  Offer, Db,
}
use tonkey.Nft.Items.{get_collection, mint, get_nft}
use tonkey.Nft.Market.{
  new_offer, offer_id, new_listing, create_listing, get_listing, buy_listing, cancel_listing,
  create_offer, accept_offer,
}
use tonkey.Nft.Steps.{ReadsItem}
use tonkey.Nft.Calls.{Call, creating, minting, buying, offering, accepting, perform}
use tonkey.Nft.Runs.{run}
use tonkey.Nft.Offers.{IsNumbered, run-IsOver}
use tonkey.Nft.Owners.{Buys, owner_passes}
use tonkey.Nft.Dead.{empty, IsBarren, run-IsBarren, created_is_Refused}
use tonkey.Nft.Minting.{Minted, mint_adds}

abbrev well : ℕ → Bool
well k = false

abbrev birds : Collection
birds = record {
  id = 1;
  owner_id = 7;
  org_id = none;
  address = some "EQBirds";
  collection_type = standard;
  max_supply = some (pos 2);
  current_supply = 1;
  deployed_at = some (pos 1);
}

abbrev owl : Item
owl = record {
  id = 1;
  collection_id = 1;
  owner_id = 7;
  address = "EQOwl";
  idx = 1;
  minted_at = some (pos 2);
  mint_tx_hash = "tx1";
}

abbrev for_sale : Listing
for_sale = record {
  id = 1;
  nft_id = 1;
  seller_id = 7;
  price = pos 50;
  currency = "TON";
  status = active;
  expires_at = some (pos 100);
  buyer_id = none;
  sold_at = none;
  tx_hash = some "";
}

abbrev shop : Db
shop = record empty {
  collections = birds ∷ [];
  next_collection = 2;
  nfts = owl ∷ [];
  next_nft = 2;
  listings = for_sale ∷ [];
  next_listing = 2;
}

-- A purchase by user 9.
abbrev purchase : Call
purchase = buying well "tx" "user:9" (pos 60) 1

bought : (get_nft false 1 (perform 9 purchase shop)).0 ≡ ok (record owl { owner_id = 9 })
unfolding perform buy_listing get_listing get_nft ◌>>=◌
bought = refl

owner_passes_example :
    (m : Item) × ReadsItem (perform 9 purchase shop) 1 m
    × ((m.owner_id ≡ 7) ⊎ ((◌≡◌ {A = ℕ} 7 9) ⊎ Buys shop 9 purchase 1))
owner_passes_example = owner_passes 9 purchase shop 1 owl refl

abbrev eagle : MintRequest
eagle = record { collection_id = 1; recipient_id = some 8 }

abbrev after_mint : Db
after_mint = (mint well (some ("EQEagle", "tx2")) (pos 3) 7 eagle shop).1

abbrev minted_eagle : Item
minted_eagle = record {
  id = 2;
  collection_id = 1;
  owner_id = 8;
  address = "EQEagle";
  idx = 2;
  minted_at = some (pos 3);
  mint_tx_hash = "tx2";
}

mint_returns :
    mint well (some ("EQEagle", "tx2")) (pos 3) 7 eagle shop ≡ (ok minted_eagle, after_mint)
unfolding mint get_collection ◌>>=◌
mint_returns = refl

mint_adds_example : Minted true 7 eagle shop after_mint minted_eagle
mint_adds_example =
    mint_adds well (some ("EQEagle", "tx2")) (pos 3) 7 eagle shop after_mint minted_eagle
      mint_returns

abbrev start : List (ℕ × Call)
start =
    (7, creating false none unset none) ∷ (7, minting well (some ("EQ", "tx")) (pos 3) eagle) ∷ []

run-IsBarren_example : IsBarren (run start empty)
run-IsBarren_example = run-IsBarren start

-- The owner of the owl lists it.
abbrev owls : Db
owls = record shop { listings = []; next_listing = 1 }

abbrev asking : ListingRequest
asking = record { nft_id = 1; price = pos 30; currency = ""; expires_at = none }

abbrev listed_db : Db
listed_db = (create_listing well 7 asking owls).1

listing_returns : create_listing well 7 asking owls ≡ (ok (new_listing 1 7 asking), listed_db)
unfolding create_listing get_nft ◌>>=◌
listing_returns = refl

abbrev meanwhile : List (ℕ × Call)
meanwhile = (8, offering well 1 (pos 20) none) ∷ (7, accepting well "tx" "user:8" 1) ∷ []

given_to_eight : (get_nft false 1 (run meanwhile listed_db)).0 ≡ ok (record owl { owner_id = 8 })
unfolding run perform create_listing create_offer accept_offer get_nft ◌>>=◌
given_to_eight = refl

created_is_Refused_example :
    Refused
      (buy_listing well "tx" "user:9" (pos 60) 9 1 (run meanwhile listed_db))
      (run meanwhile listed_db)
    × Refused (cancel_listing well 9 1 (run meanwhile listed_db)) (run meanwhile listed_db)
created_is_Refused_example =
    created_is_Refused well 7 asking owls listed_db (new_listing 1 7 asking) tt listing_returns
      meanwhile well "tx" "user:9" (pos 60) 9

-- The offer of user 8 has been accepted.
abbrev dealt : Db
dealt = run meanwhile listed_db

abbrev taken : Offer
taken = record (new_offer 1 1 8 (pos 20) none) { status = OfferStatus.accepted }

taken_found : select_first (has_key offer_id 1) dealt.offers ≡ some taken
unfolding run perform create_listing create_offer accept_offer get_nft ◌>>=◌
taken_found = refl

dealt-IsNumbered : IsNumbered dealt
unfolding run perform create_listing create_offer accept_offer get_nft ◌>>=◌
dealt-IsNumbered = record { unique = (tt, tt); below = omega arith; all = (tt, tt) }

-- It is accepted once more, and the new owner accepts another offer, which cancels the rivals.
abbrev second_deal : List (ℕ × Call)
second_deal =
    (8, accepting well "tx" "user:8" 1)
    ∷ (9, offering well 1 (pos 25) none)
    ∷ (7, offering well 1 (pos 26) none)
    ∷ (8, accepting well "tx" "user:7" 3)
    ∷ []

back_to_seven : (get_nft false 1 (run second_deal dealt)).0 ≡ ok owl
unfolding run perform create_listing create_offer accept_offer get_nft ◌>>=◌
back_to_seven = refl

run-IsOver_example :
    (select_first (has_key offer_id 1) (run second_deal dealt).offers ≡ some taken)
    × Refused (accept_offer well "tx" "user:8" 7 1 (run second_deal dealt)) (run second_deal dealt)
run-IsOver_example =
    run-IsOver second_deal 1 taken dealt well "tx" "user:8" 7 dealt-IsNumbered taken_found refl
