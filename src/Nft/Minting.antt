-- ===== src/Nft/Minting.antt =====
-- What a returned `Mint` of internal/nft has checked and written.
use Prim.Native.String.{String}
use text.Mathlib.Text.{◌==◌ as str_eq}
use tonkey.Prelude.{
  ℕ, ◌+◌, ◌≡◌, refl, Bool, false, not, Option, some, [], ◌∷◌, ◌++◌, arith, ==→eq, if◌then◌else◌,
  is_some, ok,
}
use tonkey.Prelude.Int.{ℤ}
use tonkey.Prelude.Ensures.{
  Ensures, Ensures-ok, Ensures-pure, bind_read, bind_gets, bind_or_raise, bind_raise_if, bind_exec,
  bind_exec_ignoring,
}
use tonkey.Table.{select_first}
use tonkey.Table.Keys.{has_key, found-update}
use tonkey.Nft.Store.{Collection, Item, MintRequest, Db}
use tonkey.Nft.Items.{collection_id, mint, is_exhausted, or_self, grown, new_item}
use tonkey.Nft.Steps.{ReadsCollection}
use tonkey.Nft.Calls.{get_collection-reads, get_collection-found}

-- `counting` says that the last statement, which counts the item, succeeds.
pub record Minted (counting : Bool) (user : ℕ) (req : MintRequest) (s t : Db) (n : Item)
    : Type 0 where
  pub collection : Collection
  pub reads : ReadsCollection s req.collection_id collection
  pub owns : collection.owner_id ≡ user
  pub room : is_exhausted collection.max_supply collection.current_supply ≡ false
  pub is_new : is_some (select_first (λ (m : Item). str_eq m.address n.address) s.nfts) ≡ false
  pub placed : (n.collection_id ≡ req.collection_id) × (n.owner_id ≡ or_self req.recipient_id user)
  pub numbered : (n.id ≡ s.next_nft) × (n.idx ≡ collection.current_supply + 1)
  pub added : t.nfts ≡ s.nfts ++ n ∷ []
  pub counted :
      select_first (has_key collection_id req.collection_id) t.collections
      ≡ some (if counting then grown collection else collection)

mint-Minted :
    (fails : ℕ → Bool) (minted : Option (String × String)) (now : ℤ) (user : ℕ) (req : MintRequest)
    (s : Db)
    → Ensures
        (λ n t. Minted (not (fails 2)) user req s t n)
        (λ _. Unit)
        (mint fails minted now user req s)
unfolding mint
mint-Minted fails minted now user req s = bind_read _ _ _ (get_collection-reads _ _ s) tt λ c got.
    bind_raise_if _ _ _ _ tt λ owns. bind_raise_if _ _ _ _ tt λ room.
      bind_or_raise _ _ _ _ tt λ place _. bind_gets _ _ _ (
        bind_gets _ _ _ (
          bind_exec _ _ _ _ _ tt λ sound.
            let reads = get_collection-found _ _ s got in
            let outcome : (t : Db)
                → t.nfts
                  ≡ s.nfts
                    ++ new_item s.next_nft req.collection_id (or_self req.recipient_id user)
                        c.current_supply place.0 place.1 now
                      ∷ []
                → select_first (has_key collection_id req.collection_id) t.collections
                  ≡ some (if not (fails 2) then grown c else c)
                → Minted (not (fails 2)) user req s t (
                    new_item s.next_nft req.collection_id (or_self req.recipient_id user)
                      c.current_supply place.0 place.1 now) =
              λ t added counted. record {
                collection = c;
                reads = reads;
                owns = ==→eq _ _ (ground arith);
                room = room;
                is_new = ground (arith, sound);
                placed = (refl, refl);
                numbered = (refl, refl);
                added = added;
                counted = counted;
              } in
            bind_exec_ignoring _ _ _ _ (λ stop. Ensures-pure _ _ (outcome _ refl (rw stop reads.0)))
              (λ go. Ensures-pure _ _ (
                outcome _ refl (
                  rw go (
                    found-update collection_id req.collection_id grown s.collections c (λ q. refl)
                      reads.0))))))

-- A `Mint` that returns an item was called by the owner of a collection with an address that had not
-- reached its maximum. The item is new, its number is the supply plus one, it belongs to the recipient, or
-- to the caller where none is named, no item had its address, and it is added to the others as they
-- were. The supply grows by one exactly when the last statement, whose error is dropped, succeeds.
pub mint_adds :
    (fails : ℕ → Bool) (minted : Option (String × String)) (now : ℤ) (user : ℕ) (req : MintRequest)
    (s t : Db) (n : Item)
    → mint fails minted now user req s ≡ (ok n, t)
    → Minted (not (fails 2)) user req s t n
mint_adds fails minted now user req s t n returned =
    Ensures-ok (mint-Minted fails minted now user req s) returned
