-- ===== src/Multisig/Manager.antt =====
-- The methods of `Manager` in internal/multisig/multisig.go. `fails k` says that the k-th
-- statement of the call (or the encoding of its argument) fails, numbered in the order of the text;
-- a failed statement changes nothing. `now` and `later` are what the calls of `time.Now` return.
use Prim.Native.String.{String}
use text.Mathlib.Text.{◌==◌ as str_eq}
use tonkey.Prelude.{
  ℕ, suc, ◌+◌, Bool, true, false, not, ◌&&◌, ◌||◌, Option, none, some, List, [], ◌∷◌, ◌++◌, ◌==◌,
  ltb, leb, if◌then◌else◌, is_some, length, Action, pure, raise, gets, or_raise, raise_if, exec,
  exec_ignoring, ◌>>=◌, ◌>>◌,
}
use tonkey.Prelude.Int.{ℤ, ◌+ℤ◌, ltb_ℤ}
use tonkey.Table.{select_first, update_where, count_where}
use tonkey.Table.Keys.{has_key}
use tonkey.Multisig.Store.{
  Error, wallet_not_found, wallet_exists, proposal_not_found, already_approved, already_rejected,
  not_a_signer, invalid_threshold, proposal_expired, proposal_not_pending, insufficient_approvals,
  database, encoding, ActionType, ProposalStatus, pending, approved, rejected, executed, expired,
  Signer, Wallet, Approval, Proposal, Db,
}

abbrev pub M : Type 0 → Type 0
M A = Action Db Error A

abbrev pub is_pending : ProposalStatus → Bool
is_pending pending = true
is_pending _ = false

abbrev pub is_approved : ProposalStatus → Bool
is_approved approved = true
is_approved _ = false

-- The loop of `isSigner`.
abbrev pub is_signer : List Signer → ℕ → Bool
is_signer [] user_id = false
is_signer (s ∷ signers) user_id = s.user_id == user_id || is_signer signers user_id

-- The loops of `Approve` and `Reject` over the votes there are.
abbrev pub has_voted : List Approval → ℕ → Bool
has_voted [] user_id = false
has_voted (a ∷ votes) user_id = a.user_id == user_id || has_voted votes user_id

abbrev pub wallet_id : Wallet → ℕ
wallet_id w = w.id

abbrev pub proposal_id : Proposal → ℕ
proposal_id p = p.id

-- `p.ExpiresAt != nil && now > *p.ExpiresAt`, and the same test in SQL.
abbrev pub is_past : Option ℤ → ℤ → Bool
is_past none now = false
is_past (some e) now = ltb_ℤ e now

-- `GetWallet`.
unfoldable pub get_wallet : Bool → String → M Wallet
get_wallet failed address = do
  raise_if failed database
  or_raise (← gets (λ s. select_first (λ w. str_eq w.address address) s.wallets)) wallet_not_found

-- `getWalletByID`.
unfoldable pub get_wallet_by_id : Bool → ℕ → M Wallet
get_wallet_by_id failed id = do
  raise_if failed database
  or_raise (← gets (λ s. select_first (has_key wallet_id id) s.wallets)) wallet_not_found

-- `GetProposal`.
unfoldable pub get_proposal : Bool → ℕ → M Proposal
get_proposal failed id = do
  raise_if failed database
  or_raise (← gets (λ s. select_first (has_key proposal_id id) s.proposals)) proposal_not_found

abbrev pub new_wallet : ℕ → ℕ → String → String → ℕ → List Signer → ℤ → Wallet
new_wallet id org_id address name threshold signers now = record {
  id = id;
  address = address;
  org_id = org_id;
  name = name;
  threshold = threshold;
  signers = signers;
  is_active = true;
  created_at = now;
}

abbrev pub add_wallet : ℕ → String → String → ℕ → List Signer → ℤ → Db → Db
add_wallet org_id address name threshold signers now s = record s {
  wallets = s.wallets ++ new_wallet s.next_wallet org_id address name threshold signers now ∷ [];
  next_wallet = suc s.next_wallet;
}

-- `CreateWallet`.
unfoldable pub create_wallet : (ℕ → Bool) → ℕ → String → String → ℕ → List Signer → ℤ → M Wallet
create_wallet fails org_id address name threshold signers now = do
  raise_if (ltb threshold 1 || ltb (length signers) threshold) invalid_threshold
  raise_if (fails 0) database
  raise_if (is_some (← gets (λ s. select_first (λ w. str_eq w.address address) s.wallets)))
      wallet_exists
  id ← gets (λ s. s.next_wallet)
  exec (fails 1) database (add_wallet org_id address name threshold signers now)
  pure (new_wallet id org_id address name threshold signers now)

abbrev pub new_proposal : ℕ → ℕ → ℕ → ActionType → String → Option ℤ → ℤ → Proposal
new_proposal id wallet proposer_id action_type action_data expires_at now = record {
  id = id;
  wallet_id = wallet;
  proposer_id = proposer_id;
  action_type = action_type;
  action_data = action_data;
  approvals = [];
  rejections = [];
  status = pending;
  tx_hash = none;
  created_at = now;
  expires_at = expires_at;
  executed_at = none;
}

abbrev pub add_proposal : ℕ → ℕ → ActionType → String → Option ℤ → ℤ → Db → Db
add_proposal wallet proposer_id action_type action_data expires_at now s = record s {
  proposals =
      s.proposals
      ++ new_proposal s.next_proposal wallet proposer_id action_type action_data expires_at now
        ∷ [];
  next_proposal = suc s.next_proposal;
}

-- `now + int64(expiresIn.Seconds())`, where there is a duration; it is given in whole seconds.
abbrev pub expiry : Option ℤ → ℤ → Option ℤ
expiry none now = none
expiry (some seconds) now = some (now +ℤ seconds)

-- `CreateProposal`.
unfoldable pub create_proposal :
    (ℕ → Bool) → ℕ → ℕ → ActionType → String → Option ℤ → ℤ → M Proposal
create_proposal fails wallet_id proposer_id action_type action_data expires_in now = do
  wallet ← get_wallet_by_id (fails 0) wallet_id
  raise_if (not (is_signer wallet.signers proposer_id)) not_a_signer
  raise_if (fails 1) encoding
  id ← gets (λ s. s.next_proposal)
  exec (fails 2) database
      (add_proposal wallet_id proposer_id action_type action_data (expiry expires_in now) now)
  pure (new_proposal id wallet_id proposer_id action_type action_data (expiry expires_in now) now)

-- UPDATE multisig_proposals SET … WHERE id = ?
abbrev pub change : ℕ → (Proposal → Proposal) → Db → Db
change id f s = record s { proposals = update_where (has_key proposal_id id) f s.proposals }

abbrev pub with_status : ProposalStatus → Proposal → Proposal
with_status status p = record p { status = status }

abbrev pub with_approvals : List Approval → Proposal → Proposal
with_approvals votes p = record p { approvals = votes }

abbrev pub with_rejections : List Approval → Proposal → Proposal
with_rejections votes p = record p { rejections = votes }

-- `updateProposalStatus`; both callers drop its error.
unfoldable pub update_proposal_status : Bool → ℕ → ProposalStatus → M (Unit {0})
update_proposal_status failed id status = exec_ignoring failed (change id (with_status status))

-- The status change at the end of `Approve` and of `Reject`.
unfoldable pub settle : Bool → Bool → ℕ → ProposalStatus → M (Unit {0})
settle reached failed id status =
    exec_ignoring (not reached || failed) (change id (with_status status))

-- The branch of `Approve` for a proposal that is past its expiry.
unfoldable pub expire : Bool → ℕ → M (Unit {0})
expire failed id = do update_proposal_status failed id expired; raise proposal_expired

-- The rest of `Approve`.
unfoldable pub vote_for : (ℕ → Bool) → ℕ → ℕ → String → ℤ → Proposal → M (Unit {0})
vote_for fails id user_id signature later proposal = do
  wallet ← get_wallet_by_id (fails 2) proposal.wallet_id
  raise_if (not (is_signer wallet.signers user_id)) not_a_signer
  raise_if (has_voted proposal.approvals user_id) already_approved
  let vote : Approval = record { user_id = user_id; signature = signature; timestamp = later }
  let votes = proposal.approvals ++ vote ∷ []
  exec (fails 3) database (change id (with_approvals votes))
  settle (leb wallet.threshold (length votes)) (fails 4) id approved

-- `Approve`.
unfoldable pub approve : (ℕ → Bool) → ℕ → ℕ → String → ℤ → ℤ → M (Unit {0})
approve fails id user_id signature now later = do
  proposal ← get_proposal (fails 0) id
  raise_if (not (is_pending proposal.status)) proposal_not_pending
  if is_past proposal.expires_at now
      then expire (fails 1) id
      else vote_for fails id user_id signature later proposal

-- `Reject`. The test `len(rejections) > len(signers) - threshold` is written without the
-- subtraction, which may be negative in Go.
unfoldable pub reject : (ℕ → Bool) → ℕ → ℕ → ℤ → M (Unit {0})
reject fails id user_id now = do
  proposal ← get_proposal (fails 0) id
  raise_if (not (is_pending proposal.status)) proposal_not_pending
  wallet ← get_wallet_by_id (fails 1) proposal.wallet_id
  raise_if (not (is_signer wallet.signers user_id)) not_a_signer
  raise_if (has_voted proposal.rejections user_id) already_rejected
  let vote : Approval = record { user_id = user_id; signature = ""; timestamp = now }
  let votes = proposal.rejections ++ vote ∷ []
  exec (fails 2) database (change id (with_rejections votes))
  settle (ltb (length wallet.signers) (length votes + wallet.threshold)) (fails 3) id rejected

-- The error of `Execute` for a proposal that is not approved.
abbrev pub not_executable : Bool → Proposal → List Wallet → Error
not_executable failed proposal wallets =
    if is_pending proposal.status
    then elim (if failed
        then none
        else select_first (has_key wallet_id proposal.wallet_id) wallets) [
          | some wallet ↦
              if ltb (length proposal.approvals) wallet.threshold
              then insufficient_approvals
              else proposal_not_pending
          | none ↦ proposal_not_pending
        ]
    else proposal_not_pending

abbrev pub executed_with : String → ℤ → Proposal → Proposal
executed_with tx_hash now p = record p {
  status = executed;
  tx_hash = some tx_hash;
  executed_at = some now;
}

-- `Execute`.
unfoldable pub execute : (ℕ → Bool) → ℕ → String → ℤ → M (Unit {0})
execute fails id tx_hash now = do
  proposal ← get_proposal (fails 0) id
  wallets ← gets (λ s. s.wallets)
  raise_if (not (is_approved proposal.status)) (not_executable (fails 1) proposal wallets)
  exec (fails 2) database (change id (executed_with tx_hash now))

abbrev pub is_stale : ℤ → Proposal → Bool
is_stale now p = is_pending p.status && is_past p.expires_at now

-- `ExpireProposals`, which returns the number of rows that it changed.
unfoldable pub expire_proposals : Bool → ℤ → M ℕ
expire_proposals failed now = do
  affected ← gets (λ s. count_where (is_stale now) s.proposals)
  exec failed database
      (λ s. record s { proposals = update_where (is_stale now) (with_status expired) s.proposals })
  pure affected
