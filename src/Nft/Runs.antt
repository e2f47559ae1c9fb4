-- ===== src/Nft/Runs.antt =====
-- Any calls of the methods of internal/nft, by any users and with any failures, as chains of steps.
use tonkey.Prelude.{ℕ, ◌≡◌, refl, Option, none, List, [], ◌∷◌}
use tonkey.Prelude.Ensures.{Ensures-always}
use tonkey.Nft.Store.{Db}
use tonkey.Nft.Steps.{Sale, Step, Steps, here, next}
use tonkey.Nft.Calls.{
  Call, creating, deploying, minting, transferring, listing, buying, cancelling, offering,
  accepting, perform, create_collection-Walks, deploy_collection-Walks, mint-Walks, transfer-Walks,
  create_listing-Walks, buy_listing-Walks, cancel_listing-Walks, create_offer-Walks,
  accept_offer-Walks,
}

-- What a call may buy: only `BuyListing` buys, and only what is for sale to the caller.
abbrev pub MayBuy : Db → ℕ → Call → Option ℕ → Type 0
MayBuy s user (buying fails tx_hash buyer now id) sale = Sale s user now sale
MayBuy s user _ sale = sale ≡ none

-- Every call, whether it returns or fails at any statement, is a chain of the steps of `Step`, in which it
-- buys nothing but what `MayBuy` says.
pub perform-Steps :
    (user : ℕ) (c : Call) (s : Db)
    → (sale : Option ℕ) × MayBuy s user c sale × Steps user sale s (perform user c s)
unfolding perform
perform-Steps user (creating fails org t max) s =
    (none, refl, Ensures-always (create_collection-Walks user s fails org t max))
perform-Steps user (deploying fails deployment now id) s =
    (none, refl, Ensures-always (deploy_collection-Walks fails user s deployment now id))
perform-Steps user (minting fails minted now req) s =
    (none, refl, Ensures-always (mint-Walks fails user s minted now req))
perform-Steps user (transferring fails sending req) s =
    (none, refl, Ensures-always (transfer-Walks fails user s sending req))
perform-Steps user (listing fails req) s =
    (none, refl, Ensures-always (create_listing-Walks fails user s req))
perform-Steps user (buying fails tx_hash buyer now id) s =
    Ensures-always (buy_listing-Walks fails user s tx_hash buyer now id)
perform-Steps user (cancelling fails id) s =
    (none, refl, Ensures-always (cancel_listing-Walks fails user s id))
perform-Steps user (offering fails nft price expires) s =
    (none, refl, Ensures-always (create_offer-Walks fails user s nft price expires))
perform-Steps user (accepting fails tx_hash buyer id) s =
    (none, refl, Ensures-always (accept_offer-Walks fails user s tx_hash buyer id))

unfoldable pub run : List (ℕ × Call) → Db → Db
run [] s = s
run ((user, c) ∷ calls) s = run calls (perform user c s)

-- What every step keeps, every run keeps.
pub Steps-keep :
    {caller : ℕ} {sale : Option ℕ} (P : Db → Type 0)
    → ((t u : Db) → Step caller sale t u → P t → P u)
    → {s t : Db} → Steps caller sale s t
    → P s
    → P t
Steps-keep P keep here h = h
Steps-keep P keep (next {t} {u} c st) h = keep t u st (Steps-keep P keep c h)

pub run-keep :
    (P : Db → Type 0)
    → ((caller : ℕ) (sale : Option ℕ) (t u : Db) → Step caller sale t u → P t → P u)
    → (calls : List (ℕ × Call)) (s : Db) → P s
    → P (run calls s)
unfolding run
run-keep P keep [] s h = h
run-keep P keep ((user, c) ∷ calls) s h =
    let (sale, allowed, walk) = perform-Steps user c s in
    run-keep P keep calls (perform user c s) (Steps-keep P (keep user sale) walk h)
