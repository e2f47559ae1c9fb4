-- ===== src/Multisig/Quorum.antt =====
-- The invariant of the proposals of internal/multisig: their approvals are of different signers, and
-- those that have passed have a quorum. `Approve` keeps it.
use Prim.Native.String.{String}
use tonkey.Prelude.{
  ℕ, ◌≤◌, ◌≡◌, refl, sym, ◌∙◌, Bool, true, false, not, ◌||◌, some, some_inj, List, [], ◌∷◌, ◌++◌,
  arith, ◌==◌, length, All, All-append, leb→le, ok, ◌>>=◌,
}
use tonkey.Prelude.Int.{ℤ}
use tonkey.Prelude.Ensures.{
  Ensures, Ensures-raise, Ensures-if, Ensures-exec_ignoring, bind_read, bind_raise_if, bind_exec,
  bind_exec_ignoring,
}
use tonkey.Table.{select_first}
use tonkey.Table.Keys.{has_key, IsTable, IsTable-update_found, IsTable-found, found-update}
use tonkey.Multisig.Store.{
  ProposalStatus, pending, approved, rejected, executed, expired, cancelled, Wallet, Approval,
  Proposal, Db,
}
use tonkey.Multisig.Manager.{
  is_signer, has_voted, wallet_id, proposal_id, is_pending, is_past, get_wallet_by_id, get_proposal,
  change, with_status, with_approvals, update_proposal_status, settle, expire, vote_for, approve,
}

abbrev pub IsPassed : ProposalStatus → Type 0
IsPassed approved = Unit
IsPassed executed = Unit
IsPassed _ = ⊥

-- No user has two votes.
abbrev pub Distinct : List Approval → Type 0
Distinct [] = Unit
Distinct (a ∷ votes) = (has_voted votes a.user_id ≡ false) × Distinct votes

pub record Backed (wallets : List Wallet) (p : Proposal) : Type 0 where
  pub wallet : Wallet
  pub found : select_first (has_key wallet_id p.wallet_id) wallets ≡ some wallet
  pub signed : All (λ (a : Approval). is_signer wallet.signers a.user_id ≡ true) p.approvals
  pub distinct : Distinct p.approvals
  pub quorum : IsPassed p.status → wallet.threshold ≤ length p.approvals

abbrev pub Inv : Db → Type 0
Inv s = IsTable proposal_id (Backed s.wallets) s.next_proposal s.proposals

has_voted-append :
    (votes : List Approval) (v : Approval) (u : ℕ)
    → has_voted (votes ++ v ∷ []) u ≡ (has_voted votes u || v.user_id == u)
has_voted-append [] v u = ground arith
has_voted-append (a ∷ votes) v u = ground (arith, has_voted-append votes v u)

Distinct-append :
    (votes : List Approval) (v : Approval)
    → Distinct votes
    → has_voted votes v.user_id ≡ false
    → Distinct (votes ++ v ∷ [])
Distinct-append [] v d h = (refl, tt)
Distinct-append (a ∷ votes) v d h = (
  ground (arith, has_voted-append votes v a.user_id, d.0),
  Distinct-append votes v d.1 (ground arith),
)

pub get_proposal-reads : (b : Bool) (id : ℕ) (s : Db) → (get_proposal b id s).1 ≡ s
unfolding get_proposal ◌>>=◌
get_proposal-reads b id s = ground arith

pub get_proposal-found :
    (b : Bool) (id : ℕ) (s : Db) {p : Proposal} {t : Db}
    → get_proposal b id s ≡ (ok p, t)
    → select_first (has_key proposal_id id) s.proposals ≡ some p
unfolding get_proposal ◌>>=◌
get_proposal-found b id s e = ground arith

pub get_wallet_by_id-reads : (b : Bool) (id : ℕ) (s : Db) → (get_wallet_by_id b id s).1 ≡ s
unfolding get_wallet_by_id ◌>>=◌
get_wallet_by_id-reads b id s = ground arith

pub get_wallet_by_id-found :
    (b : Bool) (id : ℕ) (s : Db) {w : Wallet} {t : Db}
    → get_wallet_by_id b id s ≡ (ok w, t)
    → select_first (has_key wallet_id id) s.wallets ≡ some w
unfolding get_wallet_by_id ◌>>=◌
get_wallet_by_id-found b id s e = ground arith

-- A status that is neither approved nor executed needs no quorum.
pub Backed-status :
    (wallets : List Wallet) (p : Proposal) (status : ProposalStatus)
    → Backed wallets p
    → (IsPassed status → IsPassed p.status)
    → Backed wallets (with_status status p)
Backed-status wallets p status b f = record {
  wallet = b.wallet;
  found = b.found;
  signed = b.signed;
  distinct = b.distinct;
  quorum = λ passed. b.quorum (f passed);
}

pending_unpassed : (status : ProposalStatus) → is_pending status ≡ true → IsPassed status → ⊥
pending_unpassed pending e h = h
pending_unpassed approved e h = cc
pending_unpassed rejected e h = h
pending_unpassed executed e h = cc
pending_unpassed expired e h = h
pending_unpassed cancelled e h = h

module _ (id : ℕ) (user : ℕ) (s : Db) (p : Proposal) (wallet : Wallet) (h : Inv s)
    (found : select_first (has_key proposal_id id) s.proposals ≡ some p)
    (open_wallet : select_first (has_key wallet_id p.wallet_id) s.wallets ≡ some wallet)
    (unpassed : is_pending p.status ≡ true)
    (signer : not (is_signer wallet.signers user) ≡ false) where
  backed : Backed s.wallets p
  backed = IsTable-found proposal_id h (has_key proposal_id id) p found

  wallet_is : backed.wallet ≡ wallet
  wallet_is = some_inj (sym backed.found ∙ open_wallet)

  voted-Inv :
      (vote : Approval)
      → vote.user_id ≡ user
      → has_voted p.approvals user ≡ false
      → Inv (change id (with_approvals (p.approvals ++ vote ∷ [])) s)
  voted-Inv vote by_user fresh =
      IsTable-update_found proposal_id h id (with_approvals (p.approvals ++ vote ∷ [])) p
        (λ q. refl) found
        (record {
          wallet = backed.wallet;
          found = backed.found;
          signed =
              All-append (λ (a : Approval). is_signer backed.wallet.signers a.user_id ≡ true)
                p.approvals (vote ∷ []) backed.signed (rw (wallet_is, by_user) (ground arith), tt);
          distinct = Distinct-append p.approvals vote backed.distinct (rw by_user fresh);
          quorum = λ passed. absurd (pending_unpassed p.status unpassed passed);
        })

  -- The state after the vote, and what the last statement of `Approve` makes of it.
  settled-Inv :
      (vote : Approval)
      → vote.user_id ≡ user
      → has_voted p.approvals user ≡ false
      → wallet.threshold ≤ length (p.approvals ++ vote ∷ [])
      → Inv (
          change id
            (with_status approved)
            (change id (with_approvals (p.approvals ++ vote ∷ [])) s))
  settled-Inv vote by_user fresh reached =
      let votes = p.approvals ++ vote ∷ [] in
      let h' = voted-Inv vote by_user fresh in
      let found' =
        found-update proposal_id id (with_approvals votes) s.proposals p (λ q. refl) found in
      let b' =
        IsTable-found proposal_id h' (has_key proposal_id id) (with_approvals votes p) found' in
      IsTable-update_found proposal_id h' id (with_status approved) (with_approvals votes p)
        (λ q. refl) found'
        (record {
          wallet = b'.wallet;
          found = b'.found;
          signed = b'.signed;
          distinct = b'.distinct;
          quorum = λ passed.
              let one : b'.wallet ≡ wallet = some_inj (sym b'.found ∙ open_wallet) in
              rw one reached;
        })

pub vote_for-Inv :
    (fails : ℕ → Bool) (id user : ℕ) (signature : String) (later : ℤ) (p : Proposal) (s : Db)
    → Inv s
    → select_first (has_key proposal_id id) s.proposals ≡ some p
    → is_pending p.status ≡ true
    → Ensures (λ _ t. Inv t) Inv (vote_for fails id user signature later p s)
unfolding vote_for settle
vote_for-Inv fails id user signature later p s h found unpassed =
    bind_read _ _ _ (get_wallet_by_id-reads _ _ s) h λ wallet got. bind_raise_if _ _ _ _ h λ signer.
      bind_raise_if _ _ _ _ h λ fresh.
        let open_wallet = get_wallet_by_id-found _ _ s got in
        let vote : Approval = record { user_id = user; signature = signature; timestamp = later } in
        bind_exec _ _ _ _ _ h λ _.
          Ensures-exec_ignoring _ _ _
            (λ _. voted-Inv id user s p wallet h found open_wallet unpassed signer vote refl fresh)
            (λ go.
              settled-Inv id user s p wallet h found open_wallet unpassed signer vote refl fresh
                (leb→le _ _ (ground arith)))

pub approve-Inv :
    (fails : ℕ → Bool) (id user : ℕ) (signature : String) (now later : ℤ) (s : Db)
    → Inv s
    → Ensures (λ _ t. Inv t) Inv (approve fails id user signature now later s)
unfolding approve expire update_proposal_status
approve-Inv fails id user signature now later s h =
    bind_read _ _ _ (get_proposal-reads _ _ s) h λ p got. bind_raise_if _ _ _ _ h λ waits.
      let found = get_proposal-found _ id s got in
      Ensures-if (is_past p.expires_at now) (expire (fails 1) id)
        (vote_for fails id user signature later p) s
        (λ past.
          bind_exec_ignoring _ _ _ _ (λ _. Ensures-raise _ _ h)
            (λ _. Ensures-raise _ _ (
              IsTable-update_found proposal_id h id (with_status expired) p (λ q. refl) found
                (Backed-status s.wallets p expired
                  (IsTable-found proposal_id h (has_key proposal_id id) p found) (λ e. absurd e)))))
        (λ _. vote_for-Inv fails id user signature later p s h found (ground arith))
