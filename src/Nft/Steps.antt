-- ===== src/Nft/Steps.antt =====
-- What the methods of internal/nft may do to its tables, one change at a time: every call of a method is
-- a chain of the steps below, most of them under what the method has checked.
use Prim.Native.String.{String}
use tonkey.Prelude.{ℕ, ◌≡◌, ◌≢◌, true, false, Option, none, some}
use tonkey.Prelude.Int.{ℤ}
use tonkey.Table.{select_first, update_where}
use tonkey.Table.Keys.{has_key}
use tonkey.Nft.Store.{
  CollectionType, Collection, Item, Listing, ListingRequest, OfferStatus, accepted, Offer, Db,
}
use tonkey.Nft.Items.{
  collection_id, item_id, add_collection, deployed, is_exhausted, add_item, grow, give,
  add_transfer,
}
use tonkey.Nft.Market.{
  listing_id, is_active, is_past, add_listing, change_listing, sold_to, cancelled_listing,
  is_live_listing_of, add_offer, change_offer, offer_id, is_pending_offer, is_rival,
}

abbrev pub ReadsCollection : Db → ℕ → Collection → Type 0
ReadsCollection s id c =
    (select_first (has_key collection_id id) s.collections ≡ some c)
    × ((a : String) × (c.address ≡ some a))

abbrev pub ReadsItem : Db → ℕ → Item → Type 0
ReadsItem s id n = select_first (has_key item_id id) s.nfts ≡ some n

abbrev pub ReadsListing : Db → ℕ → Listing → Type 0
ReadsListing s id l =
    (select_first (has_key listing_id id) s.listings ≡ some l)
    × ((h : String) × (l.tx_hash ≡ some h))

-- A sale of the item `nft` that is open to `caller`, by a listing that `GetListing` can read.
abbrev pub IsForSale : Db → ℕ → ℤ → ℕ → Type 0
IsForSale s caller now nft =
    (id : ℕ) × (l : Listing) × ReadsListing s id l
    × (l.nft_id ≡ nft)
    × (is_active l.status ≡ true)
    × (is_past l.expires_at now ≡ false)
    × (l.seller_id ≢ caller)

abbrev pub Sale : Db → ℕ → ℤ → Option ℕ → Type 0
Sale s caller now none = Unit
Sale s caller now (some nft) = IsForSale s caller now nft

-- One change of the tables in a call by `caller`; `sale` is the item that the call may buy.
pub data Step (caller : ℕ) (sale : Option ℕ) : Db → Db → Type 0 where
  collection_added :
      {s : Db} (org : Option ℕ) (t : CollectionType) (max : Option ℤ)
      → Step caller sale s (add_collection caller org t max s)
  collection_deployed :
      {s : Db} (id : ℕ) (c : Collection) (address : String) (now : ℤ)
      → ReadsCollection s id c
      → c.owner_id ≡ caller
      → Step caller sale s (record s {
        collections = update_where (has_key collection_id id) (deployed address now) s.collections;
      })
  item_added :
      {s : Db} (id : ℕ) (c : Collection) (owner : ℕ) (address tx_hash : String) (now : ℤ)
      → ReadsCollection s id c
      → c.owner_id ≡ caller
      → is_exhausted c.max_supply c.current_supply ≡ false
      → Step caller sale s (add_item id owner c.current_supply address tx_hash now s)
  supply_grown :
      {s : Db} (id : ℕ) (c : Collection)
      → ReadsCollection s id c
      → c.owner_id ≡ caller
      → is_exhausted c.max_supply c.current_supply ≡ false
      → Step caller sale s (grow id s)
  given_away :
      {s : Db} (id : ℕ) (n : Item) (owner : ℕ)
      → ReadsItem s id n
      → n.owner_id ≡ caller
      → Step caller sale s (give id owner s)
  logged :
      {s : Db} (nft : ℕ) (from to tx_hash : String) (price : Option ℤ)
      → Step caller sale s (add_transfer nft from to tx_hash price s)
  listed :
      {s : Db} (n : Item) (req : ListingRequest)
      → ReadsItem s req.nft_id n
      → n.owner_id ≡ caller
      → Step caller sale s (add_listing caller req s)
  listing_sold :
      {s : Db} (id : ℕ) (l : Listing) (tx_hash : String) (now : ℤ)
      → ReadsListing s id l
      → is_active l.status ≡ true
      → Step caller sale s (change_listing (has_key listing_id id) (sold_to caller tx_hash now) s)
  item_bought : {s : Db} (nft : ℕ) → sale ≡ some nft → Step caller sale s (give nft caller s)
  listing_cancelled :
      {s : Db} (id : ℕ) (l : Listing)
      → ReadsListing s id l
      → l.seller_id ≡ caller
      → is_active l.status ≡ true
      → Step caller sale s (change_listing (has_key listing_id id) cancelled_listing s)
  listings_ended :
      {s : Db} (nft : ℕ)
      → Step caller sale s (change_listing (is_live_listing_of nft) cancelled_listing s)
  offered :
      {s : Db} (nft : ℕ) (price : ℤ) (expires : Option ℤ)
      → Step caller sale s (add_offer nft caller price expires s)
  offer_accepted :
      {s : Db} (id : ℕ) (o : Offer)
      → select_first (is_pending_offer id) s.offers ≡ some o
      → Step caller sale s (change_offer (has_key offer_id id) accepted s)
  rivals_cancelled :
      {s : Db} (nft id : ℕ)
      → Step caller sale s (change_offer (is_rival nft id) OfferStatus.cancelled s)

pub data Steps (caller : ℕ) (sale : Option ℕ) (s : Db) : Db → Type 0 where
  here : Steps caller sale s s
  next : {t u : Db} → Steps caller sale s t → Step caller sale t u → Steps caller sale s u
