-- ===== src/Nft/Store.antt =====
-- The tables of internal/nft/nft.go (`initSchema`) and the requests and errors of its methods. Columns
-- that no method reads (names, texts, images, royalties, metadata, creation and update times) are left
-- out. Times are Unix nanoseconds.
use Prim.Native.String.{String}
use tonkey.Prelude.{ℕ, Option, List}
use tonkey.Prelude.Int.{ℤ}

pub data Error : Type 0 where
  collection_not_found nft_not_found not_owner invalid_metadata : Error
  listing_not_found listing_expired insufficient_funds : Error
  -- errors.New in the methods
  max_supply_reached already_listed listing_inactive own_listing offer_not_found : Error
  -- what the driver, the scan of a row and the provider report
  database : Error
  scan_null : Error
  provider_failed : Error

-- `CollectionType` is a Go string; the request may carry any.
pub data CollectionType : Type 0 where
  standard edition dynamic : CollectionType
  unset : CollectionType  -- ""
  other : String → CollectionType

-- A row of `nft_collections`. `CreateCollection` leaves `address` NULL.
pub record Collection : Type 0 where
  pub id : ℕ
  pub owner_id : ℕ
  pub org_id : Option ℕ
  pub address : Option String
  pub collection_type : CollectionType
  pub max_supply : Option ℤ
  pub current_supply : ℕ
  pub deployed_at : Option ℤ

-- A row of `nfts`.
pub record Item : Type 0 where
  pub id : ℕ
  pub collection_id : ℕ
  pub owner_id : ℕ
  pub address : String
  pub idx : ℕ
  pub minted_at : Option ℤ
  pub mint_tx_hash : String

-- A row of `nft_transfers`.
pub record Transfer : Type 0 where
  pub id : ℕ
  pub nft_id : ℕ
  pub from_address : String
  pub to_address : String
  pub tx_hash : String
  pub price : Option ℤ

pub data ListingStatus : Type 0 where
  active sold cancelled expired : ListingStatus

-- A row of `nft_listings`. `CreateListing` leaves `tx_hash` NULL.
pub record Listing : Type 0 where
  pub id : ℕ
  pub nft_id : ℕ
  pub seller_id : ℕ
  pub price : ℤ
  pub currency : String
  pub status : ListingStatus
  pub expires_at : Option ℤ
  pub buyer_id : Option ℕ
  pub sold_at : Option ℤ
  pub tx_hash : Option String

-- The values that the methods give the column `status` of `nft_offers`.
pub data OfferStatus : Type 0 where
  pending accepted cancelled : OfferStatus

-- A row of `nft_offers`.
pub record Offer : Type 0 where
  pub id : ℕ
  pub nft_id : ℕ
  pub buyer_id : ℕ
  pub price : ℤ
  pub currency : String
  pub status : OfferStatus
  pub expires_at : Option ℤ

pub record MintRequest : Type 0 where
  pub collection_id : ℕ
  pub recipient_id : Option ℕ

pub record TransferRequest : Type 0 where
  pub nft_id : ℕ
  pub to_address : String
  pub to_user_id : Option ℕ

pub record ListingRequest : Type 0 where
  pub nft_id : ℕ
  pub price : ℤ
  pub currency : String
  pub expires_at : Option ℤ

pub record Db : Type 0 where
  pub collections : List Collection
  pub next_collection : ℕ
  pub nfts : List Item
  pub next_nft : ℕ
  pub transfers : List Transfer
  pub next_transfer : ℕ
  pub listings : List Listing
  pub next_listing : ℕ
  pub offers : List Offer
  pub next_offer : ℕ
