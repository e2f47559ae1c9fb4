-- ===== src/Multisig/Upkeep.antt =====
-- That the calls of internal/multisig other than `Approve` keep the invariant of the proposals.
use Prim.Native.String.{String}
use tonkey.Prelude.{ℕ, ◌≡◌, refl, Bool, false, not, Option, List, [], ◌∷◌, ◌++◌, arith}
use tonkey.Prelude.Int.{ℤ}
use tonkey.Prelude.Ensures.{
  Ensures, Ensures-pure, Ensures-exec, Ensures-exec_ignoring, bind_read, bind_gets, bind_raise_if,
  bind_exec,
}
use tonkey.Table.{select_first-append_some}
use tonkey.Table.Keys.{
  has_key, IsTable-append, IsTable-update, IsTable-update_found, IsTable-found, IsTable-map,
}
use tonkey.Multisig.Store.{
  ProposalStatus, pending, approved, rejected, executed, expired, cancelled, Db, ActionType, Signer,
}
use tonkey.Multisig.Manager.{
  wallet_id, proposal_id, is_approved, with_status, with_rejections, settle, reject, execute,
  executed_with, expire_proposals, create_wallet, create_proposal, new_wallet, is_stale,
}
use tonkey.Multisig.Quorum.{
  IsPassed, Inv, Backed-status, get_proposal-reads, get_proposal-found, get_wallet_by_id-reads,
  get_wallet_by_id-found,
}

pub reject-Inv :
    (fails : ℕ → Bool) (id user : ℕ) (now : ℤ) (s : Db)
    → Inv s
    → Ensures (λ _ t. Inv t) Inv (reject fails id user now s)
unfolding reject settle
reject-Inv fails id user now s h = bind_read _ _ _ (get_proposal-reads _ _ s) h λ p got.
    bind_raise_if _ _ _ _ h λ waits. bind_read _ _ _ (get_wallet_by_id-reads _ _ s) h λ wallet _.
      bind_raise_if _ _ _ _ h λ signer. bind_raise_if _ _ _ _ h λ fresh.
        let votes =
          p.rejections ++ record { user_id = user; signature = ""; timestamp = now } ∷ [] in
        let kept =
          IsTable-update proposal_id h (has_key proposal_id id) (with_rejections votes) (λ q. refl)
            (λ q b _. record {
              wallet = b.wallet;
              found = b.found;
              signed = b.signed;
              distinct = b.distinct;
              quorum = b.quorum;
            }) in
        bind_exec _ _ _ _ _ h λ _.
          Ensures-exec_ignoring _ _ _ (λ _. kept)
            (λ _.
              IsTable-update proposal_id kept (has_key proposal_id id) (with_status rejected)
                (λ q. refl) (λ q b _. Backed-status s.wallets q rejected b (λ e. absurd e)))

pub execute-Inv :
    (fails : ℕ → Bool) (id : ℕ) (tx_hash : String) (now : ℤ) (s : Db)
    → Inv s
    → Ensures (λ _ t. Inv t) Inv (execute fails id tx_hash now s)
unfolding execute
execute-Inv fails id tx_hash now s h = bind_read _ _ _ (get_proposal-reads _ _ s) h λ p got.
    bind_gets _ _ _ (
      bind_raise_if _ _ _ _ h λ passed.
        let found = get_proposal-found _ id s got in
        let b = IsTable-found proposal_id h (has_key proposal_id id) p found in
        Ensures-exec _ _ _ _ h λ _.
          IsTable-update_found proposal_id h id (executed_with tx_hash now) p (λ q. refl) found
            (record {
              wallet = b.wallet;
              found = b.found;
              signed = b.signed;
              distinct = b.distinct;
              quorum = λ _. b.quorum (approved-IsPassed p.status passed);
            }))
  where
    approved-IsPassed :
        (status : ProposalStatus) → not (is_approved status) ≡ false → IsPassed status
    approved-IsPassed approved e = tt
    approved-IsPassed pending e = absurd (ground arith)
    approved-IsPassed rejected e = absurd (ground arith)
    approved-IsPassed executed e = tt
    approved-IsPassed expired e = absurd (ground arith)
    approved-IsPassed cancelled e = absurd (ground arith)

pub expire_proposals-Inv :
    (failed : Bool) (now : ℤ) (s : Db)
    → Inv s
    → Ensures (λ _ t. Inv t) Inv (expire_proposals failed now s)
unfolding expire_proposals
expire_proposals-Inv failed now s h = bind_gets _ _ _ (
    bind_exec _ _ _ _ _ h λ _. Ensures-pure _ _ (
      IsTable-update proposal_id h (is_stale now) (with_status expired) (λ q. refl)
        (λ q b _. Backed-status s.wallets q expired b (λ e. absurd e))))

pub create_wallet-Inv :
    (fails : ℕ → Bool) (org_id : ℕ) (address name : String) (threshold : ℕ) (signers : List Signer)
    (now : ℤ) (s : Db)
    → Inv s
    → Ensures (λ _ t. Inv t) Inv (create_wallet fails org_id address name threshold signers now s)
unfolding create_wallet
create_wallet-Inv fails org_id address name threshold signers now s h = bind_raise_if _ _ _ _ h λ _.
    bind_raise_if _ _ _ _ h λ _. bind_gets _ _ _ (
      bind_raise_if _ _ _ _ h λ _. bind_gets _ _ _ (
        bind_exec _ _ _ _ _ h λ _. Ensures-pure _ _ (
          IsTable-map proposal_id h _ (λ p b. record {
            wallet = b.wallet;
            found =
                select_first-append_some (has_key wallet_id p.wallet_id) s.wallets
                  (new_wallet s.next_wallet org_id address name threshold signers now) b.found;
            signed = b.signed;
            distinct = b.distinct;
            quorum = b.quorum;
          }))))

pub create_proposal-Inv :
    (fails : ℕ → Bool) (wallet proposer : ℕ) (action : ActionType) (payload : String)
    (expires_in : Option ℤ) (now : ℤ) (s : Db)
    → Inv s
    → Ensures
        (λ _ t. Inv t)
        Inv
        (create_proposal fails wallet proposer action payload expires_in now s)
unfolding create_proposal
create_proposal-Inv fails wallet proposer action payload expires_in now s h =
    bind_read _ _ _ (get_wallet_by_id-reads _ _ s) h λ w got. bind_raise_if _ _ _ _ h λ _.
      bind_raise_if _ _ _ _ h λ _. bind_gets _ _ _ (
        bind_exec _ _ _ _ _ h λ _. Ensures-pure _ _ (
          IsTable-append proposal_id h _ refl (record {
            wallet = w;
            found = get_wallet_by_id-found _ wallet s got;
            signed = tt;
            distinct = tt;
            quorum = λ e. absurd e;
          })))
