-- ===== src/Nft/Dead.antt =====
-- What the NULL columns of internal/nft make impossible, over any calls.
use tonkey.Prelude.{
  ℕ, ◌<◌, ◌≡◌, refl, ap, ◌∙◌, Bool, Option, none, some, List, [], ◌∷◌, arith, All, All-append,
  All-map, ok, ◌>>=◌,
}
use tonkey.Prelude.Int.{ℤ}
use Prim.Native.String.{String}
use tonkey.Table.{select_first, update_where, All-update_where, All-select_first}
use tonkey.Table.Keys.{has_key, Below, key-select_first}
use tonkey.Nft.Store.{Collection, Item, Listing, ListingRequest, Db}
use tonkey.Nft.Items.{M, collection_id, item_id, grown, given}
use tonkey.Nft.Market.{listing_id, is_live_listing_of, sold_to, cancelled_listing}
use tonkey.Nft.Steps.{
  ReadsItem, ReadsListing, Step, collection_added, collection_deployed, item_added, supply_grown,
  given_away, logged, listed, listing_sold, item_bought, listing_cancelled, listings_ended, offered,
  offer_accepted, rivals_cancelled,
}
use tonkey.Nft.Calls.{Call, get_nft-reads, get_listing-reads, get_listing-found}
use tonkey.Nft.Runs.{run, run-keep}
use tonkey.Nft.Market.{get_listing, create_listing, buy_listing, cancel_listing}
use tonkey.Prelude.Ensures.{
  Ensures, Ensures-ok, Ensures-pure, Refused, refused, bind_read, bind_gets, bind_raise_if,
  bind_exec,
}

abbrev pub empty : Db
empty = record {
  collections = [];
  next_collection = 1;
  nfts = [];
  next_nft = 1;
  transfers = [];
  next_transfer = 1;
  listings = [];
  next_listing = 1;
  offers = [];
  next_offer = 1;
}

-- No collection has an address, and there is no item.
pub record IsBarren (s : Db) : Type 0 where
  pub unplaced : All (λ (c : Collection). c.address ≡ none) s.collections
  pub itemless : s.nfts ≡ []

unread : {A : Type 0} {s : Option A} {a : A} → s ≡ none → s ≡ some a → ⊥
unread e f = cc

no_item : (id : ℕ) (s : Db) (n : Item) → IsBarren s → ReadsItem s id n → ⊥
no_item id s n h e =
    unread (ap (λ (rows : List Item). select_first (has_key item_id id) rows) h.itemless) e

Step-IsBarren :
    (caller : ℕ) (sale : Option ℕ) (s t : Db) → Step caller sale s t → IsBarren s → IsBarren t
Step-IsBarren caller sale s t (collection_added org k max) h = record {
  unplaced =
      All-append (λ (c : Collection). c.address ≡ none) s.collections (_ ∷ []) h.unplaced
        (refl, tt);
  itemless = h.itemless;
}
Step-IsBarren caller sale s t (collection_deployed k c address now (found, (a, placed)) o) h =
    absurd (
      unread
        (All-select_first (λ (c : Collection). c.address ≡ none) (has_key collection_id k)
          s.collections c h.unplaced found).0
        placed)
Step-IsBarren caller sale s t (item_added k c owner address tx now (found, (a, placed)) o e) h =
    absurd (
      unread
        (All-select_first (λ (c : Collection). c.address ≡ none) (has_key collection_id k)
          s.collections c h.unplaced found).0
        placed)
Step-IsBarren caller sale s t (supply_grown k c reads own room) h = record {
  unplaced =
      All-update_where (λ (c : Collection). c.address ≡ none) (has_key collection_id k) grown
        s.collections h.unplaced (λ r e _. e);
  itemless = h.itemless;
}
Step-IsBarren caller sale s t (given_away k m owner r o) h = absurd (no_item k s m h r)
Step-IsBarren caller sale s t (logged k from to tx price) h = record {
  unplaced = h.unplaced;
  itemless = h.itemless;
}
Step-IsBarren caller sale s t (listed m req r o) h = absurd (no_item req.nft_id s m h r)
Step-IsBarren caller sale s t (listing_sold k l tx now r a) h = record {
  unplaced = h.unplaced;
  itemless = h.itemless;
}
Step-IsBarren caller sale s t (item_bought k bought) h = record {
  unplaced = h.unplaced;
  itemless =
      ap (λ (rows : List Item). update_where (has_key item_id k) (given caller) rows) h.itemless;
}
Step-IsBarren caller sale s t (listing_cancelled k l r o a) h = record {
  unplaced = h.unplaced;
  itemless = h.itemless;
}
Step-IsBarren caller sale s t (listings_ended k) h = record {
  unplaced = h.unplaced;
  itemless = h.itemless;
}
Step-IsBarren caller sale s t (offered k price expires) h = record {
  unplaced = h.unplaced;
  itemless = h.itemless;
}
Step-IsBarren caller sale s t (offer_accepted k o r) h = record {
  unplaced = h.unplaced;
  itemless = h.itemless;
}
Step-IsBarren caller sale s t (rivals_cancelled nft k) h = record {
  unplaced = h.unplaced;
  itemless = h.itemless;
}

-- After any calls on empty tables, by any users and with any failures, no collection has an address and
-- there is no item at all.
pub run-IsBarren : (calls : List (ℕ × Call)) → IsBarren (run calls empty)
run-IsBarren calls =
    run-keep IsBarren Step-IsBarren calls empty (record { unplaced = tt; itemless = refl })

-- The listing with this id has no transaction hash.
abbrev Unsold : ℕ → Listing → Type 0
Unsold id l = l.id ≡ id → l.tx_hash ≡ none

abbrev AllUnsold : ℕ → Db → Type 0
AllUnsold id s = All (Unsold id) s.listings

unsold_unread : (id k : ℕ) (s : Db) (l : Listing) → AllUnsold id s → ReadsListing s k l → k ≡ id → ⊥
unsold_unread id k s l h (found, (tx, hash)) same =
    unread
      ((All-select_first (Unsold id) (has_key listing_id k) s.listings l h found).0
        (key-select_first listing_id k s.listings l found ∙ same))
      hash

Step-AllUnsold :
    (id : ℕ) (caller : ℕ) (sale : Option ℕ) (s t : Db)
    → Step caller sale s t
    → AllUnsold id s
    → AllUnsold id t
Step-AllUnsold id caller sale s t (collection_added org k max) h = h
Step-AllUnsold id caller sale s t (collection_deployed k c address now r o) h = h
Step-AllUnsold id caller sale s t (item_added k c owner address tx now r o e) h = h
Step-AllUnsold id caller sale s t (supply_grown k c reads own room) h = h
Step-AllUnsold id caller sale s t (given_away k m owner r o) h = h
Step-AllUnsold id caller sale s t (logged k from to tx price) h = h
Step-AllUnsold id caller sale s t (listed m req r o) h =
    All-append (Unsold id) s.listings (_ ∷ []) h ((λ _. refl), tt)
Step-AllUnsold id caller sale s t (listing_sold k l tx now r a) h =
    All-update_where (Unsold id) (has_key listing_id k) (sold_to caller tx now) s.listings h
      (λ q unsold hit same. absurd (unsold_unread id k s l h r (ground (arith, hit, same))))
Step-AllUnsold id caller sale s t (item_bought k bought) h = h
Step-AllUnsold id caller sale s t (listing_cancelled k l r o a) h =
    All-update_where (Unsold id) (has_key listing_id k) cancelled_listing s.listings h
      (λ q unsold hit. unsold)
Step-AllUnsold id caller sale s t (listings_ended k) h =
    All-update_where (Unsold id) (is_live_listing_of k) cancelled_listing s.listings h
      (λ q unsold hit. unsold)
Step-AllUnsold id caller sale s t (offered k price expires) h = h
Step-AllUnsold id caller sale s t (offer_accepted k o r) h = h
Step-AllUnsold id caller sale s t (rivals_cancelled nft k) h = h

created-AllUnsold :
    (fails : ℕ → Bool) (user : ℕ) (req : ListingRequest) (s : Db)
    → Below listing_id s.next_listing s.listings
    → Ensures (λ l t. AllUnsold l.id t) (λ _. Unit) (create_listing fails user req s)
unfolding create_listing
created-AllUnsold fails user req s below = bind_read _ _ _ (get_nft-reads _ _ s) tt λ n got.
    bind_raise_if _ _ _ _ tt λ _. bind_gets _ _ _ (
      bind_raise_if _ _ _ _ tt λ _. bind_gets _ _ _ (
        bind_exec _ _ _ _ _ tt λ _. Ensures-pure _ _ (
          All-append (Unsold s.next_listing) s.listings (_ ∷ [])
            (All-map (λ (q : Listing). q.id < s.next_listing) (Unsold s.next_listing) s.listings
              (λ q less same. absurd (omega arith)) below)
            ((λ _. refl), tt))))

get_listing_first :
    {A : Type 0} (b : Bool) (id : ℕ) (s : Db) (f : Listing → M A)
    → AllUnsold id s
    → Refused ((get_listing b id >>= f) s) s
get_listing_first b id s f h = refused s _ (
    bind_read _ _ _ (get_listing-reads b id s) refl
      (λ l e. absurd (unsold_unread id id s l h (get_listing-found b id s e) refl)))

-- A listing that `CreateListing` has returned can be neither bought nor cancelled: after any calls, by any
-- users and with any failures, `BuyListing` and `CancelListing` with its id return an error and change
-- nothing. Ids are below the next one.
pub created_is_Refused :
    (fails : ℕ → Bool) (user : ℕ) (req : ListingRequest) (s t : Db) (l : Listing)
    → Below listing_id s.next_listing s.listings
    → create_listing fails user req s ≡ (ok l, t)
    → (calls : List (ℕ × Call)) (fails' : ℕ → Bool) (tx_hash buyer : String) (now : ℤ) (caller : ℕ)
    → Refused (buy_listing fails' tx_hash buyer now caller l.id (run calls t)) (run calls t)
      × Refused (cancel_listing fails' caller l.id (run calls t)) (run calls t)
unfolding buy_listing cancel_listing
created_is_Refused fails user req s t l below returned calls fails' tx_hash buyer now caller =
    let unsold = Ensures-ok (created-AllUnsold fails user req s below) returned in
    let still = run-keep (AllUnsold l.id) (Step-AllUnsold l.id) calls t unsold in
    (get_listing_first _ _ _ _ still, get_listing_first _ _ _ _ still)
