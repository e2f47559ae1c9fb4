-- ===== src/Nft/Owners.antt =====
-- Who may change the owner of an item of internal/nft.
use tonkey.Prelude.{
  ℕ, ◌≡◌, refl, sym, ap, ◌∙◌, subst, ◌⊎◌, inl, inr, Option, none, some, some_inj, ◌==◌, ==→eq,
  Bool-cases,
}
use tonkey.Table.{select_first, select_first-update_where, select_first-append_some}
use tonkey.Table.Keys.{has_key, key-select_first}
use tonkey.Nft.Store.{Item, Db}
use tonkey.Nft.Items.{item_id, give, given}
use tonkey.Nft.Steps.{
  ReadsItem, IsForSale, Step, Steps, here, next, collection_added, collection_deployed, item_added,
  supply_grown, given_away, logged, listed, listing_sold, item_bought, listing_cancelled,
  listings_ended, offered, offer_accepted, rivals_cancelled,
}
use tonkey.Nft.Calls.{
  Call, creating, deploying, minting, transferring, listing, buying, cancelling, offering,
  accepting, perform,
}
use tonkey.Nft.Runs.{MayBuy, perform-Steps}

-- The item is still there, with its owner, or its owner was the caller, or it was bought.
abbrev Passed : ℕ → Option ℕ → ℕ → Item → Db → Type 0
Passed caller sale id n t =
    (m : Item) × ReadsItem t id m
    × ((m.owner_id ≡ n.owner_id) ⊎ ((n.owner_id ≡ caller) ⊎ (sale ≡ some id)))

-- A write of the owner of the item `k`.
give-Passed :
    (caller : ℕ) (sale : Option ℕ) (k owner id : ℕ) (n : Item) (s : Db)
    → ReadsItem s id n
    → (k ≡ id → (n.owner_id ≡ caller) ⊎ (sale ≡ some id))
    → Passed caller sale id n (give k owner s)
give-Passed caller sale k owner id n s found why =
    let moved =
      select_first-update_where (has_key item_id id) (has_key item_id k) (given owner) s.nfts
        (λ r. refl) in
    elim (Bool-cases (n.id == k)) [
      | inl hit ↦ (
        given owner n,
        rw (moved, found, hit),
        inr (why (sym (==→eq _ _ hit) ∙ key-select_first item_id id s.nfts n found)),
      )
      | inr miss ↦ (n, rw (moved, found, miss), inl refl)
    ]

Step-Passed :
    {caller : ℕ} {sale : Option ℕ} {s t : Db} (id : ℕ) (n : Item)
    → Step caller sale s t
    → ReadsItem s id n
    → Passed caller sale id n t
Step-Passed id n (collection_added org k max) h = (n, h, inl refl)
Step-Passed id n (collection_deployed k c address now r o) h = (n, h, inl refl)
Step-Passed {s} id n (item_added k c owner address tx now r o e) h =
    (n, select_first-append_some (has_key item_id id) s.nfts _ h, inl refl)
Step-Passed id n (supply_grown k c reads own room) h = (n, h, inl refl)
Step-Passed {caller} {sale} {s} id n (given_away k m owner r o) h =
    give-Passed caller sale k owner id n s h (λ same.
      let one : m ≡ n =
        some_inj (sym r ∙ ap (λ (i : ℕ). select_first (has_key item_id i) s.nfts) same ∙ h) in
      inl (subst (λ (z : Item). z.owner_id ≡ caller) one o))
Step-Passed id n (logged k from to tx price) h = (n, h, inl refl)
Step-Passed id n (listed m req r o) h = (n, h, inl refl)
Step-Passed id n (listing_sold k l tx now r a) h = (n, h, inl refl)
Step-Passed {caller} {sale} {s} id n (item_bought k bought) h =
    give-Passed caller sale k caller id n s h (λ same. inr (bought ∙ ap (λ (i : ℕ). some i) same))
Step-Passed id n (listing_cancelled k l r o a) h = (n, h, inl refl)
Step-Passed id n (listings_ended k) h = (n, h, inl refl)
Step-Passed id n (offered k price expires) h = (n, h, inl refl)
Step-Passed id n (offer_accepted k o r) h = (n, h, inl refl)
Step-Passed id n (rivals_cancelled nft k) h = (n, h, inl refl)

Steps-Passed :
    {caller : ℕ} {sale : Option ℕ} {s t : Db} (id : ℕ) (n : Item)
    → Steps caller sale s t
    → ReadsItem s id n
    → Passed caller sale id n t
Steps-Passed id n here h = (n, h, inl refl)
Steps-Passed {caller} {sale} id n (next walk st) h =
    let (m, found, first) = Steps-Passed id n walk h in
    let (k, found', second) = Step-Passed id m st found in (k, found', join m k first second)
  where
    join :
        (m k : Item)
        → (m.owner_id ≡ n.owner_id) ⊎ ((n.owner_id ≡ caller) ⊎ (sale ≡ some id))
        → (k.owner_id ≡ m.owner_id) ⊎ ((m.owner_id ≡ caller) ⊎ (sale ≡ some id))
        → (k.owner_id ≡ n.owner_id) ⊎ ((n.owner_id ≡ caller) ⊎ (sale ≡ some id))
    join m k (inr why) b = inr why
    join m k (inl same) (inl same') = inl (same' ∙ same)
    join m k (inl same) (inr (inl own)) = inr (inl (sym same ∙ own))
    join m k (inl same) (inr (inr bought)) = inr (inr bought)

-- The item is for sale to the caller, and the call buys it.
abbrev pub Buys : Db → ℕ → Call → ℕ → Type 0
Buys s user (buying fails tx_hash buyer now id) nft = IsForSale s user now nft
Buys s user _ nft = ⊥

-- After any one call with any failures every item is still there. Its owner is as before, or was the
-- caller, or the call was a `BuyListing` at a time when an active listing of the item, readable, not
-- past its expiry and not the caller's own, was in the table.
pub owner_passes :
    (user : ℕ) (c : Call) (s : Db) (id : ℕ) (n : Item)
    → ReadsItem s id n
    → (m : Item) × ReadsItem (perform user c s) id m
      × ((m.owner_id ≡ n.owner_id) ⊎ ((n.owner_id ≡ user) ⊎ Buys s user c id))
owner_passes user c s id n found =
    let (sale, allowed, walk) = perform-Steps user c s in
    let (m, found', why) = Steps-Passed id n walk found in (m, found', explain m c sale allowed why)
  where
    bought : (c : Call) (sale : Option ℕ) → MayBuy s user c sale → sale ≡ some id → Buys s user c id
    bought (buying fails tx_hash buyer now k) none a e = cc
    bought (buying fails tx_hash buyer now k) (some nft) a e =
        subst (λ (i : ℕ). IsForSale s user now i) (some_inj e) a
    bought (creating fails org t max) sale a e = cc
    bought (deploying fails deployment now k) sale a e = cc
    bought (minting fails minted now req) sale a e = cc
    bought (transferring fails sending req) sale a e = cc
    bought (listing fails req) sale a e = cc
    bought (cancelling fails k) sale a e = cc
    bought (offering fails nft price expires) sale a e = cc
    bought (accepting fails tx_hash buyer k) sale a e = cc

    explain :
        (m : Item) (c : Call) (sale : Option ℕ)
        → MayBuy s user c sale
        → (m.owner_id ≡ n.owner_id) ⊎ ((n.owner_id ≡ user) ⊎ (sale ≡ some id))
        → (m.owner_id ≡ n.owner_id) ⊎ ((n.owner_id ≡ user) ⊎ Buys s user c id)
    explain m c sale a (inl same) = inl same
    explain m c sale a (inr (inl own)) = inr (inl own)
    explain m c sale a (inr (inr e)) = inr (inr (bought c sale a e))
