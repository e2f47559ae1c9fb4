-- ===== src/Multisig/Signers.antt =====
-- How many different users a wallet of internal/multisig has, against its threshold.
use tonkey.Prelude.{
  ℕ, suc, ◌≤◌, ◌≡◌, refl, sym, ◌∙◌, subst, Bool, true, false, some, some_inj, List, [], ◌∷◌, arith,
  ◌==◌, ==→eq, if◌then◌else◌, length, All, All-map, Bool-cases, inl, inr,
}
use tonkey.Table.{select_first, delete_where}
use tonkey.Table.Keys.{has_key}
use tonkey.Multisig.Store.{Signer, Wallet, Approval, Proposal}
use tonkey.Multisig.Manager.{is_signer, has_voted, wallet_id, proposal_id}
use tonkey.Multisig.Quorum.{Distinct, IsPassed}
use tonkey.Multisig.Calls.{Call, run, empty, run-Backed}

-- The signers without those that another entry repeats.
abbrev pub users : List Signer → ℕ
users [] = 0
users (s ∷ signers) =
    let rest = users signers in if is_signer signers s.user_id then rest else suc rest

abbrev is_by : ℕ → Approval → Bool
is_by user a = a.user_id == user

abbrev without : ℕ → List Approval → List Approval
without user votes = delete_where (is_by user) votes

has_voted-without :
    (u v : ℕ) (votes : List Approval)
    → has_voted votes v ≡ false
    → has_voted (without u votes) v ≡ false
has_voted-without u v [] h = refl
has_voted-without u v (a ∷ votes) h = ground (arith, has_voted-without u v votes)

Distinct-without : (u : ℕ) (votes : List Approval) → Distinct votes → Distinct (without u votes)
Distinct-without u [] d = tt
Distinct-without u (a ∷ votes) d = elim (Bool-cases (a.user_id == u)) [
  | inl e ↦ rw e (Distinct-without u votes d.1)
  | inr e ↦ rw e (has_voted-without u a.user_id votes d.0, Distinct-without u votes d.1)
]

absent-without :
    (u : ℕ) (votes : List Approval) → has_voted votes u ≡ false → without u votes ≡ votes
absent-without u [] h = refl
absent-without u (a ∷ votes) h = ground (arith, absent-without u votes)

length-without :
    (u : ℕ) (votes : List Approval) → Distinct votes → length votes ≤ suc (length (without u votes))
length-without u [] d = omega arith
length-without u (a ∷ votes) d = elim (Bool-cases (a.user_id == u)) [
  | inl e ↦ rw (e, absent-without u votes (ground (arith, d.0))) (omega arith)
  | inr e ↦ rw e (omega (arith, length-without u votes d.1))
]

All-without_signer :
    (s : Signer) (signers : List Signer) (votes : List Approval)
    → All (λ (a : Approval). is_signer (s ∷ signers) a.user_id ≡ true) votes
    → All (λ (a : Approval). is_signer signers a.user_id ≡ true) (without s.user_id votes)
All-without_signer s signers [] h = tt
All-without_signer s signers (a ∷ votes) h = elim (Bool-cases (a.user_id == s.user_id)) [
  | inl e ↦ rw e (All-without_signer s signers votes h.1)
  | inr e ↦ rw e (ground (arith, h.0), All-without_signer s signers votes h.1)
]

-- Different users who all sign are at most as many as the users of the signers.
Distinct-users :
    (signers : List Signer) (votes : List Approval)
    → Distinct votes
    → All (λ (a : Approval). is_signer signers a.user_id ≡ true) votes
    → length votes ≤ users signers
Distinct-users [] [] d h = omega arith
Distinct-users [] (a ∷ votes) d h = cc
Distinct-users (s ∷ signers) votes d h = elim (Bool-cases (is_signer signers s.user_id)) [
  | inl e ↦ rw e (
      Distinct-users signers votes d (
        All-map (λ (a : Approval). is_signer (s ∷ signers) a.user_id ≡ true)
          (λ (a : Approval). is_signer signers a.user_id ≡ true) votes (λ a k. repeated a k e) h))
  | inr e ↦ rw e (
      omega (
        arith,
        length-without s.user_id votes d,
        Distinct-users signers (without s.user_id votes) (Distinct-without s.user_id votes d)
            (All-without_signer s signers votes h),
      ))
]
  where
    repeated :
        (a : Approval)
        → is_signer (s ∷ signers) a.user_id ≡ true
        → is_signer signers s.user_id ≡ true
        → is_signer signers a.user_id ≡ true
    repeated a k e = elim (Bool-cases (s.user_id == a.user_id)) [
      | inl same ↦
          let ids : s.user_id ≡ a.user_id = ==→eq _ _ same in
          subst (λ (n : ℕ). is_signer signers n ≡ true) ids e
      | inr other ↦ rw other at k
    ]

-- After any calls on empty tables, a proposal that is approved or executed belongs to a wallet with at
-- least as many different users among its signers as its threshold.
pub passed-users :
    (calls : List Call) (id : ℕ) (p : Proposal) (wallet : Wallet)
    → select_first (has_key proposal_id id) (run calls empty).proposals ≡ some p
    → select_first (has_key wallet_id p.wallet_id) (run calls empty).wallets ≡ some wallet
    → IsPassed p.status
    → wallet.threshold ≤ users wallet.signers
passed-users calls id p wallet found its passed =
    let b = run-Backed calls id p found in
    let one : b.wallet ≡ wallet = some_inj (sym b.found ∙ its) in
    subst (λ (w : Wallet). w.threshold ≤ users w.signers) one
      (omega
        (arith, b.quorum passed, Distinct-users b.wallet.signers p.approvals b.distinct b.signed))
