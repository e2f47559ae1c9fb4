-- ===== src/Nft/Calls.antt =====
-- The calls of the methods of internal/nft that write, and that each is a chain of steps.
use Prim.Native.String.{String}
use tonkey.Prelude.{
  ℕ, ◌≡◌, refl, Bool, true, false, not, Option, none, some, arith, ◌==◌, Result, ok, exec_ignoring,
  if◌then◌else◌, ◌>>=◌,
}
use tonkey.Prelude.Int.{ℤ}
use tonkey.Prelude.Ensures.{
  Ensures, Ensures-ok, Ensures-pure, Ensures-exec, Ensures-exec_ignoring, bind_read, bind_gets,
  bind_or_raise, bind_deref, bind_raise_if, bind_exec, bind_exec_ignoring,
}
use tonkey.Nft.Store.{
  Error, CollectionType, Collection, Item, Listing, MintRequest, TransferRequest, ListingRequest,
  Db,
}
use tonkey.Nft.Items.{
  M, create_collection, get_collection, deploy_collection, mint, get_nft, transfer, or_self,
}
use tonkey.Nft.Market.{
  create_listing, get_listing, buy_listing, cancel_listing, create_offer, accept_offer, is_active,
}
use tonkey.Nft.Steps.{
  ReadsCollection, ReadsItem, ReadsListing, Sale, Step, Steps, here, next, collection_added,
  collection_deployed, item_added, supply_grown, given_away, logged, listed, listing_sold,
  item_bought, listing_cancelled, listings_ended, offered, offer_accepted, rivals_cancelled,
}

pub data Call : Type 0 where
  creating : Bool → Option ℕ → CollectionType → Option ℤ → Call
  deploying : (ℕ → Bool) → Option String → ℤ → ℕ → Call
  minting : (ℕ → Bool) → Option (String × String) → ℤ → MintRequest → Call
  transferring : (ℕ → Bool) → Option String → TransferRequest → Call
  listing : (ℕ → Bool) → ListingRequest → Call
  buying : (ℕ → Bool) → String → String → ℤ → ℕ → Call
  cancelling : (ℕ → Bool) → ℕ → Call
  offering : (ℕ → Bool) → ℕ → ℤ → Option ℤ → Call
  accepting : (ℕ → Bool) → String → String → ℕ → Call

-- The tables after a call by a user, whether it returned or not.
unfoldable pub perform : ℕ → Call → Db → Db
perform user (creating fails org t max) s = (create_collection fails user org t max s).1
perform user (deploying fails deployment now id) s =
    (deploy_collection fails deployment now user id s).1
perform user (minting fails minted now req) s = (mint fails minted now user req s).1
perform user (transferring fails sending req) s = (transfer fails sending user req s).1
perform user (listing fails req) s = (create_listing fails user req s).1
perform user (buying fails tx_hash buyer now id) s =
    (buy_listing fails tx_hash buyer now user id s).1
perform user (cancelling fails id) s = (cancel_listing fails user id s).1
perform user (offering fails nft price expires) s = (create_offer fails user nft price expires s).1
perform user (accepting fails tx_hash buyer id) s = (accept_offer fails tx_hash buyer user id s).1

pub get_collection-reads : (b : Bool) (id : ℕ) (s : Db) → (get_collection b id s).1 ≡ s
unfolding get_collection ◌>>=◌
get_collection-reads b id s = ground arith

pub get_collection-found :
    (b : Bool) (id : ℕ) (s : Db) {c : Collection} {t : Db}
    → get_collection b id s ≡ (ok c, t)
    → ReadsCollection s id c
get_collection-found b id s e = Ensures-ok found e
  where
    found : Ensures (λ c _. ReadsCollection s id c) (λ _. Unit) (get_collection b id s)
    found =
        unfold get_collection in
        (bind_raise_if _ _ _ _ tt λ _. bind_gets _ _ _ (
          bind_or_raise _ _ _ _ tt λ c stored.
            bind_or_raise _ _ _ _ tt λ a address. Ensures-pure _ _ (stored, (a, address))))

pub get_nft-reads : (b : Bool) (id : ℕ) (s : Db) → (get_nft b id s).1 ≡ s
unfolding get_nft ◌>>=◌
get_nft-reads b id s = ground arith

pub get_nft-found :
    (b : Bool) (id : ℕ) (s : Db) {n : Item} {t : Db} → get_nft b id s ≡ (ok n, t) → ReadsItem s id n
unfolding get_nft ◌>>=◌
get_nft-found b id s e = ground arith

pub get_listing-reads : (b : Bool) (id : ℕ) (s : Db) → (get_listing b id s).1 ≡ s
unfolding get_listing ◌>>=◌
get_listing-reads b id s = ground arith

pub get_listing-found :
    (b : Bool) (id : ℕ) (s : Db) {l : Listing} {t : Db}
    → get_listing b id s ≡ (ok l, t)
    → ReadsListing s id l
get_listing-found b id s e = Ensures-ok found e
  where
    found : Ensures (λ l _. ReadsListing s id l) (λ _. Unit) (get_listing b id s)
    found =
        unfold get_listing in
        (bind_raise_if _ _ _ _ tt λ _. bind_gets _ _ _ (
          bind_or_raise _ _ _ _ tt
            λ l stored. bind_or_raise _ _ _ _ tt λ h hash. Ensures-pure _ _ (stored, (h, hash))))

-- A row that a SELECT has returned.
pub unfailed :
    {A : Type 0} (b : Bool) (row : Option A) {r : A}
    → (if b then none else row) ≡ some r
    → row ≡ some r
unfailed true row e = cc
unfailed false row e = e

is_caller : (a b : ℕ) → not (a == b) ≡ false → a ≡ b
is_caller a b h = ground arith

-- Every state that a call leaves is reached by steps.
abbrev pub Walks : ℕ → Option ℕ → Db → {A : Type 0} → Result Error A × Db → Type 0
Walks caller sale s r = Ensures (λ _ t. Steps caller sale s t) (Steps caller sale s) r

-- A statement whose error is dropped is a step or nothing.
bind-Step :
    {A : Type 0} {caller : ℕ} {sale : Option ℕ} {s t : Db} (b : Bool) (f : Db → Db)
    (rest : Unit {0} → M A)
    → Steps caller sale s t
    → Step caller sale t (f t)
    → ((u : Db) → Steps caller sale s u → Walks caller sale s (rest tt u))
    → Walks caller sale s ((exec_ignoring b f >>= rest) t)
bind-Step {t} b f rest c st k = bind_exec_ignoring _ _ _ _ (λ _. k t c) (λ _. k (f t) (next c st))

module _ (fails : ℕ → Bool) (user : ℕ) (s : Db) where
  pub deploy_collection-Walks :
      (deployment : Option String) (now : ℤ) (id : ℕ)
      → Walks user none s (deploy_collection fails deployment now user id s)
  unfolding deploy_collection
  deploy_collection-Walks deployment now id =
      bind_read _ _ _ (get_collection-reads _ _ s) here λ c got. bind_raise_if _ _ _ _ here λ owns.
        bind_or_raise _ _ _ _ here λ address _. bind_gets _ _ _ (
          bind_exec _ _ _ _ _ here λ _. Ensures-pure _ _ (
            next here (
              collection_deployed id c address now (get_collection-found _ id s got)
                (is_caller _ _ owns))))

  pub mint-Walks :
      (minted : Option (String × String)) (now : ℤ) (req : MintRequest)
      → Walks user none s (mint fails minted now user req s)
  unfolding mint
  mint-Walks minted now req = bind_read _ _ _ (get_collection-reads _ _ s) here λ c got.
      bind_raise_if _ _ _ _ here λ owns. bind_raise_if _ _ _ _ here λ room.
        bind_or_raise _ _ _ _ here λ place _. bind_gets _ _ _ (
          bind_gets _ _ _ (
            bind_exec _ _ _ _ _ here λ _.
              bind-Step _ _ _
                (next here (
                  item_added req.collection_id c (or_self req.recipient_id user) place.0 place.1 now
                    (get_collection-found _ _ s got) (is_caller _ _ owns) room))
                (supply_grown req.collection_id c (get_collection-found _ _ s got)
                  (is_caller _ _ owns) room)
                (λ u c. Ensures-pure _ _ c)))

  pub transfer-Walks :
      (sending : Option String) (req : TransferRequest)
      → Walks user none s (transfer fails sending user req s)
  unfolding transfer
  transfer-Walks sending req = bind_read _ _ _ (get_nft-reads _ _ s) here λ n got.
      bind_raise_if _ _ _ _ here λ owns. bind_or_raise _ _ _ _ here λ tx_hash _.
        bind_exec _ _ _ _ _ here λ _.
          let moved = next here (
            given_away req.nft_id n (or_self req.to_user_id user) (get_nft-found _ _ s got)
              (is_caller _ _ owns)) in
          Ensures-exec _ _ _ _ moved λ _. next moved (logged _ _ _ _ _)

  pub create_listing-Walks :
      (req : ListingRequest) → Walks user none s (create_listing fails user req s)
  unfolding create_listing
  create_listing-Walks req = bind_read _ _ _ (get_nft-reads _ _ s) here λ n got.
      bind_raise_if _ _ _ _ here λ owns. bind_gets _ _ _ (
        bind_raise_if _ _ _ _ here λ _. bind_gets _ _ _ (
          bind_exec _ _ _ _ _ here λ _.
            Ensures-pure _ _
              (next here (listed n req (get_nft-found _ _ s got) (is_caller _ _ owns)))))

  pub cancel_listing-Walks : (id : ℕ) → Walks user none s (cancel_listing fails user id s)
  unfolding cancel_listing
  cancel_listing-Walks id = bind_read _ _ _ (get_listing-reads _ _ s) here λ l got.
      bind_raise_if _ _ _ _ here λ owns. bind_raise_if _ _ _ _ here λ live.
        Ensures-exec _ _ _ _ here λ _. next here (
          listing_cancelled id l (get_listing-found _ id s got) (is_caller _ _ owns) (ground arith))

  pub create_offer-Walks :
      (nft : ℕ) (price : ℤ) (expires : Option ℤ)
      → Walks user none s (create_offer fails user nft price expires s)
  unfolding create_offer
  create_offer-Walks nft price expires = bind_read _ _ _ (get_nft-reads _ _ s) here λ n got.
      bind_gets _ _ _
        (bind_exec _ _ _ _ _ here λ _. Ensures-pure _ _ (next here (offered nft price expires)))

  pub accept_offer-Walks :
      (tx_hash buyer : String) (id : ℕ)
      → Walks user none s (accept_offer fails tx_hash buyer user id s)
  unfolding accept_offer
  accept_offer-Walks tx_hash buyer id = bind_gets _ _ _ (
      bind_or_raise _ _ _ _ here λ o e. bind_read _ _ _ (get_nft-reads _ _ s) here λ n got.
        bind_raise_if _ _ _ _ here λ owns. bind_exec _ _ _ _ _ here λ _.
          let moved =
            next here
              (given_away o.nft_id n o.buyer_id (get_nft-found _ _ s got) (is_caller _ _ owns)) in
          bind-Step _ _ _ moved (offer_accepted id o (unfailed (fails 0) _ e)) λ t c.
            bind-Step _ _ _ c (rivals_cancelled o.nft_id id) λ t c.
              bind-Step _ _ _ c (listings_ended _)
                λ t c. Ensures-exec_ignoring _ _ _ (λ _. c) (λ _. next c (logged _ _ _ _ _)))

  -- What a purchase may have done: it knows what it buys after it has read the listing.
  abbrev pub Bought : ℤ → Db → Type 0
  Bought now t = (sale : Option ℕ) × Sale s user now sale × Steps user sale s t

  pub buy_listing-Walks :
      (tx_hash buyer : String) (now : ℤ) (id : ℕ)
      → Ensures (λ _ t. Bought now t) (Bought now) (buy_listing fails tx_hash buyer now user id s)
  unfolding buy_listing
  buy_listing-Walks tx_hash buyer now id =
      let idle : Bought now s = (none, tt, here) in
      bind_read _ _ _ (get_listing-reads _ _ s) idle λ l got. bind_raise_if _ _ _ _ idle λ live.
        bind_raise_if _ _ _ _ idle λ in_time. bind_raise_if _ _ _ _ idle λ other.
          let reads = get_listing-found _ id s got in
          let is_live : is_active l.status ≡ true = ground arith in
          let open_sale : Sale s user now (some l.nft_id) =
            (id, l, reads, refl, is_live, in_time, (λ same. absurd (ground arith))) in
          bind_exec _ _ _ _ _ idle λ _.
            let marked = next here (listing_sold id l tx_hash now reads is_live) in
            bind_exec _ _ _ _ _ (some l.nft_id, open_sale, marked)
              λ _.
                let done = next marked (item_bought l.nft_id refl) in
                bind_gets _ _ _ (
                  bind_deref _ _ _ (some l.nft_id, open_sale, done)
                    λ n _.
                      bind_exec_ignoring _ _ _ _
                        (λ _. Ensures-pure _ _ (some l.nft_id, open_sale, done))
                        (λ _.
                          Ensures-pure _ _
                            (some l.nft_id, open_sale, next done (logged _ _ _ _ _))))

pub create_collection-Walks :
    (user : ℕ) (s : Db) (b : Bool) (org : Option ℕ) (t : CollectionType) (max : Option ℤ)
    → Walks user none s (create_collection b user org t max s)
unfolding create_collection
create_collection-Walks user s b org t max =
    bind_gets _ _ _
      (bind_exec _ _ _ _ _ here λ _. Ensures-pure _ _ (next here (collection_added org t max)))
