-- ===== src/Multisig/Execution.antt =====
-- Final statuses, and the one execution of a proposal, in internal/multisig.
use Prim.Native.String.{String}
use tonkey.Prelude.{ℕ, ◌≡◌, ◌≢◌, refl, ◌∙◌, Bool, some, List, ok}
use tonkey.Prelude.Int.{ℤ}
use tonkey.Prelude.Ensures.{Ensures, Ensures-ok, bind_read, bind_gets, bind_raise_if, Ensures-exec}
use tonkey.Table.{select_first}
use tonkey.Table.Keys.{has_key, found-update}
use tonkey.Multisig.Store.{ProposalStatus, rejected, executed, expired, Proposal, Db}
use tonkey.Multisig.Manager.{proposal_id, execute, executed_with}
use tonkey.Multisig.Quorum.{get_proposal-reads, get_proposal-found}
use tonkey.Multisig.Calls.{Call, run}
use tonkey.Multisig.Lifecycle.{
  ◌⟶◌, stay, pass, refuse, lapse, carry_out, ◌⟶*◌, here, step, run-Evolved,
}

abbrev pub IsFinal : ProposalStatus → Type 0
IsFinal rejected = Unit
IsFinal executed = Unit
IsFinal expired = Unit
IsFinal _ = ⊥

step-IsFinal : {x y : ProposalStatus} → x ⟶ y → IsFinal x → y ≡ x
step-IsFinal stay h = refl
step-IsFinal pass h = absurd h
step-IsFinal refuse h = absurd h
step-IsFinal lapse h = absurd h
step-IsFinal carry_out h = absurd h

steps-IsFinal : {x y : ProposalStatus} → x ⟶* y → IsFinal x → y ≡ x
steps-IsFinal here h = refl
steps-IsFinal {x} (step {y} a b) h = let e = step-IsFinal a h in steps-IsFinal b (rw e h) ∙ e

-- A proposal that is rejected, executed or expired keeps that status over any later calls, in any
-- order and with any failures.
pub run-IsFinal :
    (calls : List Call) (s : Db) (id : ℕ) (p : Proposal)
    → select_first (has_key proposal_id id) s.proposals ≡ some p
    → IsFinal p.status
    → (q : Proposal) × (select_first (has_key proposal_id id) (run calls s).proposals ≡ some q)
      × (q.status ≡ p.status)
run-IsFinal calls s id p found final =
    let (q, f, moves) = run-Evolved calls s id p found in (q, f, steps-IsFinal moves final)

execute-found :
    (fails : ℕ → Bool) (id : ℕ) (tx_hash : String) (now : ℤ) (s : Db)
    → Ensures
        (λ _ t.
          (q : Proposal) × (select_first (has_key proposal_id id) t.proposals ≡ some q)
          × (q.status ≡ executed))
        (λ _. Unit)
        (execute fails id tx_hash now s)
unfolding execute
execute-found fails id tx_hash now s = bind_read _ _ _ (get_proposal-reads _ _ s) tt λ p got.
    bind_gets _ _ _ (
      bind_raise_if _ _ _ _ tt λ passed. Ensures-exec _ _ _ _ tt λ _. (
        executed_with tx_hash now p,
        found-update proposal_id id (executed_with tx_hash now) s.proposals p (λ q. refl)
            (get_proposal-found _ id s got),
        refl,
      ))

execute-refused :
    (fails : ℕ → Bool) (id : ℕ) (tx_hash : String) (now : ℤ) (s : Db) (p : Proposal)
    → select_first (has_key proposal_id id) s.proposals ≡ some p
    → p.status ≡ executed
    → Ensures (λ _ _. ⊥) (λ t. t ≡ s) (execute fails id tx_hash now s)
unfolding execute
execute-refused fails id tx_hash now s p found done =
    bind_read _ _ _ (get_proposal-reads _ _ s) refl λ q got. bind_gets _ _ _ (
      bind_raise_if _ _ _ _ refl
        λ passed. absurd (cc (get_proposal-found _ id s got, found, done, passed)))

-- Once `Execute` has returned without an error for a proposal, no later `Execute` of it does, whatever
-- calls come between and whatever statements fail.
pub execute_once :
    (fails : ℕ → Bool) (id : ℕ) (tx_hash : String) (now : ℤ) (s t : Db)
    → execute fails id tx_hash now s ≡ (ok tt, t)
    → (calls : List Call) (later_fails : ℕ → Bool) (later_hash : String) (later : ℤ) (u : Db)
    → execute later_fails id later_hash later (run calls t) ≢ (ok tt, u)
execute_once fails id tx_hash now s t returned calls later_fails later_hash later u again =
    let (p, f, done) = Ensures-ok (execute-found fails id tx_hash now s) returned in
    let (q, g, same) = run-IsFinal calls t id p f (rw done tt) in
    Ensures-ok (execute-refused later_fails id later_hash later (run calls t) q g (same ∙ done))
      again
