-- ===== src/Nft/Offers.antt =====
-- What becomes of the offers of internal/nft, over any calls.
use Prim.Native.String.{String}
use tonkey.Prelude.{
  ℕ, ◌≡◌, ◌≢◌, refl, sym, ap, ◌∙◌, subst, Bool, true, false, Option, some, some_inj, List, arith,
}
use tonkey.Table.{
  select_first, select_first-update_where, select_first-append_some, All-select_first,
}
use tonkey.Table.Keys.{
  has_key, All-found, IsTable, IsTable-append, IsTable-update, found-update_other,
}
use tonkey.Nft.Store.{Offer, OfferStatus, accepted, Db}
use tonkey.Nft.Market.{
  accept_offer, offer_id, is_pending, is_pending_offer, is_rival, new_offer, with_status,
  change_offer,
}
use tonkey.Nft.Steps.{
  Step, collection_added, collection_deployed, item_added, supply_grown, given_away, logged, listed,
  listing_sold, item_bought, listing_cancelled, listings_ended, offered, offer_accepted,
  rivals_cancelled,
}
use tonkey.Nft.Calls.{Call, unfailed}
use tonkey.Prelude.Ensures.{Refused, refused, bind_gets, bind_or_raise}
use tonkey.Nft.Runs.{run, run-keep}

-- Ids of offers are as the database gives them.
abbrev pub IsNumbered : Db → Type 0
IsNumbered s = IsTable offer_id (λ (o : Offer). Unit) s.next_offer s.offers

record Held (id : ℕ) (o : Offer) (s : Db) : Type 0 where
  numbered : IsNumbered s
  found : select_first (has_key offer_id id) s.offers ≡ some o

abbrev Taken : Db → Offer → Type 0
Taken s q = select_first (has_key offer_id q.id) s.offers ≡ some q

-- The pending offer with an id is not the one that is over.
pending_other :
    (id k : ℕ) (o q : Offer) (s : Db)
    → is_pending o.status ≡ false
    → Held id o s
    → select_first (is_pending_offer k) s.offers ≡ some q
    → k ≢ id
pending_other id k o q s over h e same =
    let (stored, hit) =
      All-select_first (Taken s) (is_pending_offer k) s.offers q
        (All-found offer_id s.offers h.numbered.unique) e in
    let key : q.id ≡ id = ids hit ∙ same in
    let one : q ≡ o =
      some_inj
        (sym stored ∙ ap (λ (n : ℕ). select_first (has_key offer_id n) s.offers) key ∙ h.found) in
    let waits : is_pending o.status ≡ true =
      subst (λ (z : Offer). is_pending z.status ≡ true) one (open_still hit) in
    cc
  where
    ids : is_pending_offer k q ≡ true → q.id ≡ k
    ids hit = ground arith

    open_still : is_pending_offer k q ≡ true → is_pending q.status ≡ true
    open_still hit = ground arith

-- An UPDATE that spares the row.
spared :
    (id : ℕ) (o : Offer) (s : Db) (p : Offer → Bool) (status : OfferStatus)
    → Held id o s
    → p o ≡ false
    → Held id o (change_offer p status s)
spared id o s p status h miss = record {
  numbered = IsTable-update offer_id h.numbered p (with_status status) (λ q. refl) (λ q x y. tt);
  found =
      let moved =
        select_first-update_where (has_key offer_id id) p (with_status status) s.offers
          (λ q. refl) in
      rw (moved, h.found, miss);
}

Step-Held :
    (id : ℕ) (o : Offer) (over : is_pending o.status ≡ false) (caller : ℕ) (sale : Option ℕ)
    (s t : Db)
    → Step caller sale s t
    → Held id o s
    → Held id o t
Step-Held id o over caller sale s t (collection_added org k max) h = record {
  numbered = h.numbered;
  found = h.found;
}
Step-Held id o over caller sale s t (collection_deployed k c address now r own) h = record {
  numbered = h.numbered;
  found = h.found;
}
Step-Held id o over caller sale s t (item_added k c owner address tx now r own e) h = record {
  numbered = h.numbered;
  found = h.found;
}
Step-Held id o over caller sale s t (supply_grown k c reads own room) h = record {
  numbered = h.numbered;
  found = h.found;
}
Step-Held id o over caller sale s t (given_away k m owner r own) h = record {
  numbered = h.numbered;
  found = h.found;
}
Step-Held id o over caller sale s t (logged k from to tx price) h = record {
  numbered = h.numbered;
  found = h.found;
}
Step-Held id o over caller sale s t (listed m req r own) h = record {
  numbered = h.numbered;
  found = h.found;
}
Step-Held id o over caller sale s t (listing_sold k l tx now r a) h = record {
  numbered = h.numbered;
  found = h.found;
}
Step-Held id o over caller sale s t (item_bought k bought) h = record {
  numbered = h.numbered;
  found = h.found;
}
Step-Held id o over caller sale s t (listing_cancelled k l r own a) h = record {
  numbered = h.numbered;
  found = h.found;
}
Step-Held id o over caller sale s t (listings_ended k) h = record {
  numbered = h.numbered;
  found = h.found;
}
Step-Held id o over caller sale s t (offered k price expires) h = record {
  numbered =
      IsTable-append offer_id h.numbered (new_offer s.next_offer k caller price expires) refl tt;
  found = select_first-append_some (has_key offer_id id) s.offers _ h.found;
}
Step-Held id o over caller sale s t (offer_accepted k q r) h = record {
  numbered =
      IsTable-update offer_id h.numbered (has_key offer_id k) (with_status accepted) (λ x. refl)
        (λ x y z. tt);
  found =
      found-update_other offer_id id k (with_status accepted) s.offers o (λ x. refl)
        (pending_other id k o q s over h r) h.found;
}
Step-Held id o over caller sale s t (rivals_cancelled nft k) h =
    spared id o s (is_rival nft k) OfferStatus.cancelled h (no_rival over)
  where
    no_rival : is_pending o.status ≡ false → is_rival nft k o ≡ false
    no_rival e = ground arith

accept_offer-Refused :
    (id : ℕ) (o : Offer) (s : Db) (fails : ℕ → Bool) (tx_hash buyer : String) (owner : ℕ)
    → is_pending o.status ≡ false
    → Held id o s
    → Refused (accept_offer fails tx_hash buyer owner id s) s
unfolding accept_offer
accept_offer-Refused id o s fails tx_hash buyer owner over h = refused s _ (
    bind_gets _ _ _ (
      bind_or_raise _ _ _ _ refl
        λ q e. absurd (pending_other id id o q s over h (unfailed (fails 0) _ e) refl)))

-- Where ids of offers are as the database gives them, an offer that is accepted or cancelled stays in the
-- table exactly as it is over any calls, by any users and with any failures, and `AcceptOffer` of it
-- returns an error after them and changes nothing.
pub run-IsOver :
    (calls : List (ℕ × Call)) (id : ℕ) (o : Offer) (s : Db) (fails : ℕ → Bool)
    (tx_hash buyer : String) (owner : ℕ)
    → IsNumbered s
    → select_first (has_key offer_id id) s.offers ≡ some o
    → is_pending o.status ≡ false
    → (select_first (has_key offer_id id) (run calls s).offers ≡ some o)
      × Refused (accept_offer fails tx_hash buyer owner id (run calls s)) (run calls s)
run-IsOver calls id o s fails tx_hash buyer owner numbered found over =
    let h =
      run-keep (Held id o) (Step-Held id o over) calls s
        (record { numbered = numbered; found = found }) in
    (h.found, accept_offer-Refused id o (run calls s) fails tx_hash buyer owner over h)
