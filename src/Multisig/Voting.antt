-- ===== src/Multisig/Voting.antt =====
-- What one returned `Approve` of internal/multisig has checked and written.
use Prim.Native.String.{String}
use tonkey.Prelude.{
  ℕ, ◌≡◌, refl, ap, ◌∙◌, Bool, true, false, not, ◌&&◌, some, List, [], ◌∷◌, ◌++◌, arith, leb,
  length, ok, if◌then◌else◌,
}
use tonkey.Prelude.Int.{ℤ}
use tonkey.Prelude.Ensures.{
  Ensures, Ensures-ok, Ensures-if, Ensures-raise, Ensures-exec_ignoring, bind_read, bind_raise_if,
  bind_exec, bind_exec_ignoring,
}
use tonkey.Table.{select_first}
use tonkey.Table.Keys.{has_key, found-update}
use tonkey.Multisig.Store.{ProposalStatus, approved, Wallet, Approval, Proposal, Db}
use tonkey.Multisig.Manager.{
  wallet_id, proposal_id, is_pending, is_past, is_signer, has_voted, approve, vote_for, settle,
  expire, update_proposal_status, change, with_status, with_approvals,
}
use tonkey.Multisig.Quorum.{
  get_proposal-reads, get_proposal-found, get_wallet_by_id-reads, get_wallet_by_id-found,
}

abbrev votes_with : Proposal → ℕ → String → ℤ → List Approval
votes_with p user signature later =
    p.approvals ++ record { user_id = user; signature = signature; timestamp = later } ∷ []

-- `before` is the proposal that was read; `closing` says that the last statement succeeds.
pub record Voted (closing : Bool) (id user : ℕ) (signature : String) (now later : ℤ) (s t : Db)
    : Type 0 where
  pub before : Proposal
  pub wallet : Wallet
  pub found : select_first (has_key proposal_id id) s.proposals ≡ some before
  pub waits : is_pending before.status ≡ true
  pub in_time : is_past before.expires_at now ≡ false
  pub its_wallet : select_first (has_key wallet_id before.wallet_id) s.wallets ≡ some wallet
  pub signer : is_signer wallet.signers user ≡ true
  pub fresh : has_voted before.approvals user ≡ false
  pub counted :
      select_first (has_key proposal_id id) t.proposals
      ≡ some (record before {
        approvals = votes_with before user signature later;
        status =
            if leb wallet.threshold (length (votes_with before user signature later)) && closing
            then approved
            else before.status;
      })
  pub wallets_kept : t.wallets ≡ s.wallets

vote_for-Voted :
    (fails : ℕ → Bool) (id user : ℕ) (signature : String) (now later : ℤ) (s : Db) (p : Proposal)
    → select_first (has_key proposal_id id) s.proposals ≡ some p
    → is_pending p.status ≡ true
    → is_past p.expires_at now ≡ false
    → Ensures
        (λ _ t. Voted (not (fails 4)) id user signature now later s t)
        (λ _. Unit)
        (vote_for fails id user signature later p s)
unfolding vote_for settle
vote_for-Voted fails id user signature now later s p found waits in_time =
    bind_read _ _ _ (get_wallet_by_id-reads _ _ s) tt λ wallet got.
      bind_raise_if _ _ _ _ tt λ signer. bind_raise_if _ _ _ _ tt λ fresh.
        bind_exec _ _ _ _ _ tt λ _.
          let votes = votes_with p user signature later in
          let noted =
            found-update proposal_id id (with_approvals votes) s.proposals p (λ q. refl) found in
          let outcome : (t : Db)
              → (status : ProposalStatus)
              → select_first (has_key proposal_id id) t.proposals
                ≡ some (record p { approvals = votes; status = status })
              → status ≡ (
                  if leb wallet.threshold (length votes) && not (fails 4)
                  then approved
                  else p.status)
              → t.wallets ≡ s.wallets
              → Voted (not (fails 4)) id user signature now later s t =
            λ t status seen is same. record {
              before = p;
              wallet = wallet;
              found = found;
              waits = waits;
              in_time = in_time;
              its_wallet = get_wallet_by_id-found _ _ s got;
              signer = ground (arith, signer);
              fresh = fresh;
              counted =
                  seen
                  ∙ ap (λ (z : ProposalStatus). some (record p { approvals = votes; status = z }))
                      is;
              wallets_kept = same;
            } in
          Ensures-exec_ignoring _ _ _
            (λ stop.
              outcome (change id (with_approvals votes) s) p.status noted (ground (arith, stop))
                refl)
            (λ go.
              outcome (change id (with_status approved) (change id (with_approvals votes) s))
                approved
                (found-update proposal_id id (with_status approved)
                  (change id (with_approvals votes) s).proposals (with_approvals votes p)
                  (λ q. refl) noted)
                (ground (arith, go)) refl)

approve-Voted :
    (fails : ℕ → Bool) (id user : ℕ) (signature : String) (now later : ℤ) (s : Db)
    → Ensures
        (λ _ t. Voted (not (fails 4)) id user signature now later s t)
        (λ _. Unit)
        (approve fails id user signature now later s)
unfolding approve expire update_proposal_status
approve-Voted fails id user signature now later s =
    bind_read _ _ _ (get_proposal-reads _ _ s) tt λ p got. bind_raise_if _ _ _ _ tt λ waits.
      Ensures-if (is_past p.expires_at now) (expire (fails 1) id)
        (vote_for fails id user signature later p) s
        (λ past. bind_exec_ignoring _ _ _ _ (λ _. Ensures-raise _ _ tt) (λ _. Ensures-raise _ _ tt))
        (λ in_time.
          vote_for-Voted fails id user signature now later s p (get_proposal-found _ id s got)
            (ground arith) in_time)

-- An `Approve` that returns without an error was of a pending proposal that is not past its expiry, by
-- a signer of its wallet who had not approved it. It adds that approval and nothing else to the
-- proposal, and makes it approved exactly when the approvals, this one included, reach the wallet's
-- threshold and the last statement succeeds. The wallets are as before.
pub approve_lem :
    (fails : ℕ → Bool) (id user : ℕ) (signature : String) (now later : ℤ) (s t : Db)
    → approve fails id user signature now later s ≡ (ok tt, t)
    → Voted (not (fails 4)) id user signature now later s t
approve_lem fails id user signature now later s t returned =
    Ensures-ok (approve-Voted fails id user signature now later s) returned
