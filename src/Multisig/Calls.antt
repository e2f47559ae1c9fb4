-- ===== src/Multisig/Calls.antt =====
-- The calls of the methods of internal/multisig that write, in any order and with any failures.
use Prim.Native.String.{String}
use tonkey.Prelude.{ℕ, Bool, List, [], ◌∷◌, ◌≡◌, some, Option}
use tonkey.Prelude.Int.{ℤ}
use tonkey.Prelude.Ensures.{Ensures-always}
use tonkey.Table.{select_first}
use tonkey.Table.Keys.{has_key, IsTable-found}
use tonkey.Multisig.Store.{Signer, ActionType, Db, Proposal}
use tonkey.Multisig.Manager.{
  proposal_id, create_wallet, create_proposal, approve, reject, execute, expire_proposals,
}
use tonkey.Multisig.Quorum.{Inv, Backed, approve-Inv}
use tonkey.Multisig.Upkeep.{
  create_wallet-Inv, create_proposal-Inv, reject-Inv, execute-Inv, expire_proposals-Inv,
}

pub data Call : Type 0 where
  creating_wallet : (ℕ → Bool) → ℕ → String → String → ℕ → List Signer → ℤ → Call
  proposing : (ℕ → Bool) → ℕ → ℕ → ActionType → String → Option ℤ → ℤ → Call
  approving : (ℕ → Bool) → ℕ → ℕ → String → ℤ → ℤ → Call
  rejecting : (ℕ → Bool) → ℕ → ℕ → ℤ → Call
  executing : (ℕ → Bool) → ℕ → String → ℤ → Call
  expiring : Bool → ℤ → Call

-- The tables after a call, whether it returned or not.
unfoldable pub perform : Call → Db → Db
perform (creating_wallet fails org address name threshold signers now) s =
    (create_wallet fails org address name threshold signers now s).1
perform (proposing fails wallet proposer action payload expires_in now) s =
    (create_proposal fails wallet proposer action payload expires_in now s).1
perform (approving fails id user signature now later) s =
    (approve fails id user signature now later s).1
perform (rejecting fails id user now) s = (reject fails id user now s).1
perform (executing fails id tx_hash now) s = (execute fails id tx_hash now s).1
perform (expiring failed now) s = (expire_proposals failed now s).1

unfoldable pub run : List Call → Db → Db
run [] s = s
run (c ∷ calls) s = run calls (perform c s)

abbrev pub empty : Db
empty = record { wallets = []; next_wallet = 1; proposals = []; next_proposal = 1 }

pub perform-Inv : (c : Call) (s : Db) → Inv s → Inv (perform c s)
unfolding perform
perform-Inv (creating_wallet fails org address name threshold signers now) s h =
    Ensures-always (create_wallet-Inv fails org address name threshold signers now s h)
perform-Inv (proposing fails wallet proposer action payload expires_in now) s h =
    Ensures-always (create_proposal-Inv fails wallet proposer action payload expires_in now s h)
perform-Inv (approving fails id user signature now later) s h =
    Ensures-always (approve-Inv fails id user signature now later s h)
perform-Inv (rejecting fails id user now) s h = Ensures-always (reject-Inv fails id user now s h)
perform-Inv (executing fails id tx_hash now) s h =
    Ensures-always (execute-Inv fails id tx_hash now s h)
perform-Inv (expiring failed now) s h = Ensures-always (expire_proposals-Inv failed now s h)

pub run-Inv : (calls : List Call) (s : Db) → Inv s → Inv (run calls s)
unfolding run
run-Inv [] s h = h
run-Inv (c ∷ calls) s h = run-Inv calls (perform c s) (perform-Inv c s h)

-- After any calls on empty tables, in any order and with any failures, every proposal belongs to a
-- stored wallet, its approvals are of different users who are signers of that wallet, and if it is
-- approved or executed they are at least as many as the wallet's threshold.
pub run-Backed :
    (calls : List Call) (id : ℕ) (p : Proposal)
    → select_first (has_key proposal_id id) (run calls empty).proposals ≡ some p
    → Backed (run calls empty).wallets p
run-Backed calls id p found =
    IsTable-found proposal_id (run-Inv calls empty (record { unique = tt; below = tt; all = tt }))
      (has_key proposal_id id) p found
