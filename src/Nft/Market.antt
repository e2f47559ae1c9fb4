-- ===== src/Nft/Market.antt =====
-- The methods of `Manager` in internal/nft/nft.go on listings and offers. `fails k` says that the k-th
-- statement of the call returns an error other than "no rows", numbered in the order of the text; a
-- failed statement changes nothing. `now` is what `time.Now` returns, `tx_hash` and `buyer` are the
-- texts that the methods format.
use Prim.Native.String.{String}
use text.Mathlib.Text.{◌==◌ as str_eq}
use tonkey.Prelude.{
  ℕ, suc, Bool, true, false, not, ◌&&◌, Option, none, some, [], ◌∷◌, ◌++◌, ◌==◌, ltb, if◌then◌else◌,
  pure, gets, or_raise, deref, raise_if, exec, exec_ignoring, ◌>>=◌, ◌>>◌,
}
use tonkey.Prelude.Int.{ℤ, ltb_ℤ}
use tonkey.Table.{select_first, update_where}
use tonkey.Table.Keys.{has_key}
use tonkey.Nft.Store.{
  not_owner, listing_not_found, listing_expired, already_listed, listing_inactive, own_listing,
  offer_not_found, database, scan_null, ListingStatus, active, sold, Item, Listing, OfferStatus,
  pending, accepted, Offer, ListingRequest, Db,
}
use tonkey.Nft.Items.{M, item_id, get_nft, give, add_transfer}

abbrev pub listing_id : Listing → ℕ
listing_id l = l.id

abbrev pub offer_id : Offer → ℕ
offer_id o = o.id

abbrev pub is_active : ListingStatus → Bool
is_active active = true
is_active _ = false

abbrev pub is_pending : OfferStatus → Bool
is_pending pending = true
is_pending _ = false

abbrev pub is_live_listing_of : ℕ → Listing → Bool
is_live_listing_of nft_id l = l.nft_id == nft_id && is_active l.status

-- The id of the listing that was found, 0 where there is none or the query has failed.
abbrev pub existing_id : Bool → ℕ → Db → ℕ
existing_id failed nft_id s =
    elim (if failed then none else select_first (is_live_listing_of nft_id) s.listings) [
      | none ↦ 0
      | some l ↦ l.id
    ]

abbrev pub or_ton : String → String
or_ton currency = if str_eq currency "" then "TON" else currency

abbrev pub new_listing : ℕ → ℕ → ListingRequest → Listing
new_listing id user_id req = record {
  id = id;
  nft_id = req.nft_id;
  seller_id = user_id;
  price = req.price;
  currency = or_ton req.currency;
  status = active;
  expires_at = req.expires_at;
  buyer_id = none;
  sold_at = none;
  tx_hash = none;
}

abbrev pub add_listing : ℕ → ListingRequest → Db → Db
add_listing user_id req s = record s {
  listings = s.listings ++ new_listing s.next_listing user_id req ∷ [];
  next_listing = suc s.next_listing;
}

-- `CreateListing`.
unfoldable pub create_listing : (ℕ → Bool) → ℕ → ListingRequest → M Listing
create_listing fails user_id req = do
  n ← get_nft (fails 0) req.nft_id
  raise_if (not (n.owner_id == user_id)) not_owner
  raise_if (ltb 0 (← gets (existing_id (fails 1) req.nft_id))) already_listed
  id ← gets (λ s. s.next_listing)
  exec (fails 2) database (add_listing user_id req)
  pure (new_listing id user_id req)

-- `GetListing`, which scans `tx_hash` into a Go string: database/sql reports an error on NULL.
unfoldable pub get_listing : Bool → ℕ → M Listing
get_listing failed id = do
  raise_if failed database
  l ← or_raise (← gets (λ s. select_first (has_key listing_id id) s.listings)) listing_not_found
  or_raise l.tx_hash scan_null
  pure l

-- `listing.ExpiresAt != nil && listing.ExpiresAt.Before(now)`
abbrev pub is_past : Option ℤ → ℤ → Bool
is_past none now = false
is_past (some e) now = ltb_ℤ e now

abbrev pub sold_to : ℕ → String → ℤ → Listing → Listing
sold_to buyer_id tx_hash now l = record l {
  status = sold;
  buyer_id = some buyer_id;
  sold_at = some now;
  tx_hash = some tx_hash;
}

abbrev pub change_listing : (Listing → Bool) → (Listing → Listing) → Db → Db
change_listing p f s = record s { listings = update_where p f s.listings }

-- What `m.GetNFT` returns where its error is dropped: nil on an error.
abbrev pub nft_or_nil : Bool → ℕ → Db → Option Item
nft_or_nil failed id s = if failed then none else select_first (has_key item_id id) s.nfts

-- `BuyListing`.
unfoldable pub buy_listing : (ℕ → Bool) → String → String → ℤ → ℕ → ℕ → M Listing
buy_listing fails tx_hash buyer now buyer_id id = do
  l ← get_listing (fails 0) id
  raise_if (not (is_active l.status)) listing_inactive
  raise_if (is_past l.expires_at now) listing_expired
  raise_if (l.seller_id == buyer_id) own_listing
  exec (fails 1) database (change_listing (has_key listing_id id) (sold_to buyer_id tx_hash now))
  exec (fails 2) database (give l.nft_id buyer_id)
  n ← deref (← gets (nft_or_nil (fails 3) l.nft_id))
  exec_ignoring (fails 4) (add_transfer l.nft_id n.address buyer tx_hash (some l.price))
  pure (sold_to buyer_id tx_hash now l)

abbrev pub cancelled_listing : Listing → Listing
cancelled_listing l = record l { status = ListingStatus.cancelled }

-- `CancelListing`.
unfoldable pub cancel_listing : (ℕ → Bool) → ℕ → ℕ → M (Unit {0})
cancel_listing fails user_id id = do
  l ← get_listing (fails 0) id
  raise_if (not (l.seller_id == user_id)) not_owner
  raise_if (not (is_active l.status)) listing_inactive
  exec (fails 1) database (change_listing (has_key listing_id id) cancelled_listing)

abbrev pub new_offer : ℕ → ℕ → ℕ → ℤ → Option ℤ → Offer
new_offer id nft_id buyer_id price expires_at = record {
  id = id;
  nft_id = nft_id;
  buyer_id = buyer_id;
  price = price;
  currency = "TON";
  status = pending;
  expires_at = expires_at;
}

abbrev pub add_offer : ℕ → ℕ → ℤ → Option ℤ → Db → Db
add_offer nft_id buyer_id price expires_at s = record s {
  offers = s.offers ++ new_offer s.next_offer nft_id buyer_id price expires_at ∷ [];
  next_offer = suc s.next_offer;
}

-- `CreateOffer`.
unfoldable pub create_offer : (ℕ → Bool) → ℕ → ℕ → ℤ → Option ℤ → M Offer
create_offer fails buyer_id nft_id price expires_at = do
  get_nft (fails 0) nft_id
  id ← gets (λ s. s.next_offer)
  exec (fails 1) database (add_offer nft_id buyer_id price expires_at)
  pure (new_offer id nft_id buyer_id price expires_at)

abbrev pub is_pending_offer : ℕ → Offer → Bool
is_pending_offer id o = o.id == id && is_pending o.status

abbrev pub with_status : OfferStatus → Offer → Offer
with_status status o = record o { status = status }

abbrev pub change_offer : (Offer → Bool) → OfferStatus → Db → Db
change_offer p status s = record s { offers = update_where p (with_status status) s.offers }

-- WHERE nft_id = ? AND id != ? AND status = 'pending'
abbrev pub is_rival : ℕ → ℕ → Offer → Bool
is_rival nft_id id o = o.nft_id == nft_id && not (o.id == id) && is_pending o.status

-- `AcceptOffer`; it does not look at `expires_at`.
unfoldable pub accept_offer : (ℕ → Bool) → String → String → ℕ → ℕ → M (Unit {0})
accept_offer fails tx_hash buyer owner_id id = do
  o ←
      or_raise (← gets (λ s. if fails 0 then none else select_first (is_pending_offer id) s.offers))
        offer_not_found
  n ← get_nft (fails 1) o.nft_id
  raise_if (not (n.owner_id == owner_id)) not_owner
  exec (fails 2) database (give o.nft_id o.buyer_id)
  exec_ignoring (fails 3) (change_offer (has_key offer_id id) accepted)
  exec_ignoring (fails 4) (change_offer (is_rival o.nft_id id) OfferStatus.cancelled)
  exec_ignoring (fails 5) (change_listing (is_live_listing_of o.nft_id) cancelled_listing)
  exec_ignoring (fails 6) (add_transfer o.nft_id n.address buyer tx_hash (some o.price))
