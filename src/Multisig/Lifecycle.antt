-- ===== src/Multisig/Lifecycle.antt =====
-- The states of a proposal of internal/multisig: which changes of status the calls make.
use Prim.Native.String.{String}
use tonkey.Prelude.{
  ℕ, ◌≡◌, refl, sym, ap, ◌∙◌, subst, inl, inr, Bool, true, Option, some, some_inj, List, [], ◌∷◌,
  ◌++◌, arith, ◌==◌, ==→eq, Bool-cases, Result, exec_ignoring,
}
use tonkey.Prelude.Int.{ℤ}
use tonkey.Prelude.Ensures.{
  Ensures, Ensures-always, Ensures-pure, Ensures-raise, Ensures-if, Ensures-exec,
  Ensures-exec_ignoring, bind_read, bind_gets, bind_raise_if, bind_exec, bind_exec_ignoring,
}
use tonkey.Table.{select_first, update_where, select_first-update_where, select_first-append_some}
use tonkey.Table.Keys.{has_key, key-select_first, found-update}
use tonkey.Multisig.Store.{
  ProposalStatus, pending, approved, rejected, executed, expired, cancelled, Proposal, Db, Signer,
  ActionType, Error,
}
use tonkey.Multisig.Manager.{
  proposal_id, is_pending, is_approved, is_past, change, with_status, with_approvals,
  with_rejections, update_proposal_status, settle, expire, vote_for, approve, reject, execute,
  executed_with, expire_proposals, create_wallet, create_proposal, is_stale,
}
use tonkey.Multisig.Quorum.{get_proposal-reads, get_proposal-found, get_wallet_by_id-reads}
use tonkey.Multisig.Calls.{
  Call, creating_wallet, proposing, approving, rejecting, executing, expiring, perform, run,
}

infix 40 ◌⟶◌
pub data ◌⟶◌ : ProposalStatus → ProposalStatus → Type 0 where
  stay : {x : ProposalStatus} → x ⟶ x
  pass : pending ⟶ approved
  refuse : pending ⟶ rejected
  lapse : pending ⟶ expired
  carry_out : approved ⟶ executed

-- Every proposal is still there, with its status related to the one before.
abbrev pub Evolved : (ProposalStatus → ProposalStatus → Type 0) → Db → Db → Type 0
Evolved R s t =
    (id : ℕ) (p : Proposal)
    → select_first (has_key proposal_id id) s.proposals ≡ some p
    → (q : Proposal) × (select_first (has_key proposal_id id) t.proposals ≡ some q)
      × R p.status q.status

Evolved-refl : (s : Db) → Evolved ◌⟶◌ s s
Evolved-refl s id p e = (p, e, stay)

update-Evolved :
    (R : ProposalStatus → ProposalStatus → Type 0) (c : Proposal → Bool) (f : Proposal → Proposal)
    (s : Db)
    → ((q : Proposal) → (f q).id ≡ q.id)
    → ((id : ℕ) (q : Proposal)
        → select_first (has_key proposal_id id) s.proposals ≡ some q
        → c q ≡ true
        → R q.status (f q).status)
    → ((x : ProposalStatus) → R x x)
    → Evolved R s (record s { proposals = update_where c f s.proposals })
update-Evolved R c f s same move rest id p e =
    let moved =
      select_first-update_where (has_key proposal_id id) c f s.proposals
        (λ r. ap (λ (k : ℕ). k == id) (same r)) in
    elim (Bool-cases (c p)) [
      | inl hit ↦ (f p, rw (moved, e, hit), move id p e hit)
      | inr miss ↦ (p, rw (moved, e, miss), rest p.status)
    ]

-- A change by id, of the proposal that was read.
change-Evolved :
    (R : ProposalStatus → ProposalStatus → Type 0) (id : ℕ) (f : Proposal → Proposal) (s : Db)
    (p : Proposal)
    → select_first (has_key proposal_id id) s.proposals ≡ some p
    → ((q : Proposal) → (f q).id ≡ q.id)
    → R p.status (f p).status
    → ((x : ProposalStatus) → R x x)
    → Evolved R s (change id f s)
change-Evolved R id f s p found same move rest =
    update-Evolved R (has_key proposal_id id) f s same
      (λ k q e hit.
        let ids : k ≡ id = sym (key-select_first proposal_id k s.proposals q e) ∙ ==→eq _ _ hit in
        let one : p ≡ q = some_inj (
          sym found
          ∙ subst (λ (n : ℕ). select_first (has_key proposal_id n) s.proposals ≡ some q) ids e) in
        subst (λ (z : Proposal). R z.status (f z).status) one move)
      rest

abbrev Same : ProposalStatus → ProposalStatus → Type 0
Same x y = y ≡ x

then-Evolved : (s t u : Db) → Evolved Same s t → Evolved ◌⟶◌ t u → Evolved ◌⟶◌ s u
then-Evolved s t u a b id p e =
    let (q, f, same) = a id p e in
    let (r, g, move) = b id q f in (r, g, subst (λ (x : ProposalStatus). x ⟶ r.status) same move)

from_pending : (x y : ProposalStatus) → is_pending x ≡ true → pending ⟶ y → x ⟶ y
from_pending pending y e m = m
from_pending approved y e m = cc
from_pending rejected y e m = cc
from_pending executed y e m = cc
from_pending expired y e m = cc
from_pending cancelled y e m = cc

from_approved : (x y : ProposalStatus) → is_approved x ≡ true → approved ⟶ y → x ⟶ y
from_approved pending y e m = cc
from_approved approved y e m = m
from_approved rejected y e m = cc
from_approved executed y e m = cc
from_approved expired y e m = cc
from_approved cancelled y e m = cc

-- What every call does to the proposals of the state `s` that it starts in.
abbrev Evolves : Db → {A : Type 0} → Result Error A × Db → Type 0
Evolves s r = Ensures (λ _ t. Evolved ◌⟶◌ s t) (Evolved ◌⟶◌ s) r

module _ (id : ℕ) (s : Db) (p : Proposal)
    (found : select_first (has_key proposal_id id) s.proposals ≡ some p)
    (waits : is_pending p.status ≡ true) where
  -- A vote, which keeps the status, and the change of status that may follow.
  voted-Evolved :
      (f : Proposal → Proposal) (b : Bool) (status : ProposalStatus)
      → ((q : Proposal) → (f q).id ≡ q.id)
      → (f p).status ≡ p.status
      → pending ⟶ status
      → Evolves s (exec_ignoring b (change id (with_status status)) (change id f s))
  voted-Evolved f b status same still move =
      let voted = change-Evolved Same id f s p found same still (λ x. refl) in
      Ensures-exec_ignoring _ _ _
        (λ _. then-Evolved s (change id f s) (change id f s) voted (Evolved-refl (change id f s)))
        (λ _.
          then-Evolved s (change id f s) (change id (with_status status) (change id f s)) voted (
            change-Evolved ◌⟶◌ id (with_status status) (change id f s) (f p)
              (found-update proposal_id id f s.proposals p same found) (λ q. refl)
              (rw still (from_pending p.status status waits move)) (λ x. stay)))

  vote_for-Evolved :
      (fails : ℕ → Bool) (user : ℕ) (signature : String) (later : ℤ)
      → Evolves s (vote_for fails id user signature later p s)
  unfolding vote_for settle
  vote_for-Evolved fails user signature later =
      bind_read _ _ _ (get_wallet_by_id-reads _ _ s) (Evolved-refl s) λ wallet got.
        bind_raise_if _ _ _ _ (Evolved-refl s) λ signer.
          bind_raise_if _ _ _ _ (Evolved-refl s) λ fresh. bind_exec _ _ _ _ _ (Evolved-refl s) λ _.
            voted-Evolved
              (with_approvals (
                p.approvals
                ++ record { user_id = user; signature = signature; timestamp = later } ∷ []))
              _ approved (λ q. refl) refl pass

approve-Evolved :
    (fails : ℕ → Bool) (id user : ℕ) (signature : String) (now later : ℤ) (s : Db)
    → Evolves s (approve fails id user signature now later s)
unfolding approve expire update_proposal_status
approve-Evolved fails id user signature now later s =
    bind_read _ _ _ (get_proposal-reads _ _ s) (Evolved-refl s) λ p got.
      bind_raise_if _ _ _ _ (Evolved-refl s) λ waits.
        let found = get_proposal-found _ id s got in
        Ensures-if (is_past p.expires_at now) (expire (fails 1) id)
          (vote_for fails id user signature later p) s
          (λ past.
            bind_exec_ignoring _ _ _ _ (λ _. Ensures-raise _ _ (Evolved-refl s))
              (λ _. Ensures-raise _ _ (
                change-Evolved ◌⟶◌ id (with_status expired) s p found (λ q. refl)
                  (from_pending p.status expired (ground arith) lapse) (λ x. stay))))
          (λ _. vote_for-Evolved id s p found (ground arith) fails user signature later)

reject-Evolved :
    (fails : ℕ → Bool) (id user : ℕ) (now : ℤ) (s : Db) → Evolves s (reject fails id user now s)
unfolding reject settle
reject-Evolved fails id user now s =
    bind_read _ _ _ (get_proposal-reads _ _ s) (Evolved-refl s) λ p got.
      bind_raise_if _ _ _ _ (Evolved-refl s) λ waits.
        bind_read _ _ _ (get_wallet_by_id-reads _ _ s) (Evolved-refl s) λ wallet _.
          bind_raise_if _ _ _ _ (Evolved-refl s) λ signer.
            bind_raise_if _ _ _ _ (Evolved-refl s) λ fresh.
              bind_exec _ _ _ _ _ (Evolved-refl s) λ _.
                voted-Evolved id s p (get_proposal-found _ id s got) (ground arith)
                  (with_rejections (
                    p.rejections
                    ++ record { user_id = user; signature = ""; timestamp = now } ∷ []))
                  _ rejected (λ q. refl) refl refuse

execute-Evolved :
    (fails : ℕ → Bool) (id : ℕ) (tx_hash : String) (now : ℤ) (s : Db)
    → Evolves s (execute fails id tx_hash now s)
unfolding execute
execute-Evolved fails id tx_hash now s =
    bind_read _ _ _ (get_proposal-reads _ _ s) (Evolved-refl s) λ p got. bind_gets _ _ _ (
      bind_raise_if _ _ _ _ (Evolved-refl s) λ passed. Ensures-exec _ _ _ _ (Evolved-refl s) λ _.
        change-Evolved ◌⟶◌ id (executed_with tx_hash now) s p (get_proposal-found _ id s got)
          (λ q. refl) (from_approved p.status executed (ground arith) carry_out) (λ x. stay))

expire_proposals-Evolved :
    (failed : Bool) (now : ℤ) (s : Db) → Evolves s (expire_proposals failed now s)
unfolding expire_proposals
expire_proposals-Evolved failed now s = bind_gets _ _ _ (
    bind_exec _ _ _ _ _ (Evolved-refl s) λ _. Ensures-pure _ _ (
      update-Evolved ◌⟶◌ (is_stale now) (with_status expired) s (λ q. refl)
        (λ k q e stale. from_pending q.status expired (ground arith) lapse) (λ x. stay)))

create_wallet-Evolved :
    (fails : ℕ → Bool) (org : ℕ) (address name : String) (threshold : ℕ) (signers : List Signer)
    (now : ℤ) (s : Db)
    → Evolves s (create_wallet fails org address name threshold signers now s)
unfolding create_wallet
create_wallet-Evolved fails org address name threshold signers now s =
    bind_raise_if _ _ _ _ (Evolved-refl s) λ _. bind_raise_if _ _ _ _ (Evolved-refl s) λ _.
      bind_gets _ _ _ (
        bind_raise_if _ _ _ _ (Evolved-refl s) λ _.
          bind_gets _ _ _
            (bind_exec _ _ _ _ _ (Evolved-refl s) λ _. Ensures-pure _ _ λ k p e. (p, e, stay)))

create_proposal-Evolved :
    (fails : ℕ → Bool) (wallet proposer : ℕ) (action : ActionType) (payload : String)
    (expires_in : Option ℤ) (now : ℤ) (s : Db)
    → Evolves s (create_proposal fails wallet proposer action payload expires_in now s)
unfolding create_proposal
create_proposal-Evolved fails wallet proposer action payload expires_in now s =
    bind_read _ _ _ (get_wallet_by_id-reads _ _ s) (Evolved-refl s) λ w got.
      bind_raise_if _ _ _ _ (Evolved-refl s) λ _. bind_raise_if _ _ _ _ (Evolved-refl s) λ _.
        bind_gets _ _ _ (
          bind_exec _ _ _ _ _ (Evolved-refl s) λ _.
            Ensures-pure _ _
              λ k p e. (p, select_first-append_some (has_key proposal_id k) s.proposals _ e, stay))

perform-Evolved : (c : Call) (s : Db) → Evolved ◌⟶◌ s (perform c s)
unfolding perform
perform-Evolved (creating_wallet fails org address name threshold signers now) s =
    Ensures-always (create_wallet-Evolved fails org address name threshold signers now s)
perform-Evolved (proposing fails wallet proposer action payload expires_in now) s =
    Ensures-always (create_proposal-Evolved fails wallet proposer action payload expires_in now s)
perform-Evolved (approving fails id user signature now later) s =
    Ensures-always (approve-Evolved fails id user signature now later s)
perform-Evolved (rejecting fails id user now) s =
    Ensures-always (reject-Evolved fails id user now s)
perform-Evolved (executing fails id tx_hash now) s =
    Ensures-always (execute-Evolved fails id tx_hash now s)
perform-Evolved (expiring failed now) s = Ensures-always (expire_proposals-Evolved failed now s)

infix 40 ◌⟶*◌
pub data ◌⟶*◌ : ProposalStatus → ProposalStatus → Type 0 where
  here : {x : ProposalStatus} → x ⟶* x
  step : {x y z : ProposalStatus} → x ⟶ y → y ⟶* z → x ⟶* z

-- After any calls on any tables, in any order and with any failures, every proposal is still there,
-- and its status is reached from the one it had by the steps pending to approved, pending to
-- rejected, pending to expired, and approved to executed alone.
pub run-Evolved : (calls : List Call) (s : Db) → Evolved ◌⟶*◌ s (run calls s)
unfolding run
run-Evolved [] s id p e = (p, e, here)
run-Evolved (c ∷ calls) s id p e =
    let (q, f, move) = perform-Evolved c s id p e in
    let (r, g, moves) = run-Evolved calls (perform c s) id q f in (r, g, step move moves)
