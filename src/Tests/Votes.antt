-- ===== src/Tests/Votes.antt =====
-- internal/multisig at concrete inputs: two of three signers approve a proposal and it is executed.
use tonkey.Prelude.{ℕ, ◌≡◌, ◌≢◌, ◌≤◌, refl, Bool, true, false, some, none, List, [], ◌∷◌, ok, ◌>>=◌}
use tonkey.Prelude.Int.{pos, ◌+ℤ◌}
use tonkey.Table.{select_first}
use tonkey.Table.Keys.{has_key}
use tonkey.Multisig.Store.{send, pending, approved, executed, Signer, Wallet, Proposal, Db}
use tonkey.Multisig.Manager.{
  wallet_id, proposal_id, get_proposal, get_wallet_by_id, create_wallet, create_proposal, approve,
  vote_for, settle, execute,
}
use tonkey.Multisig.Quorum.{Backed}
use tonkey.Multisig.Calls.{
  Call, creating_wallet, proposing, approving, rejecting, expiring, perform, run, empty, run-Backed,
}
use tonkey.Multisig.Lifecycle.{Evolved, ◌⟶*◌, run-Evolved}
use tonkey.Multisig.Execution.{run-IsFinal, execute_once}
use tonkey.Multisig.Voting.{Voted, approve_lem}
use tonkey.Multisig.Signers.{users, passed-users}

abbrev sound : ℕ → Bool
sound k = false

abbrev signer : ℕ → Signer
signer user = record { user_id = user; address = "EQ"; name = ""; added_at = pos 0 }

abbrev team : List Signer
team = signer 1 ∷ signer 2 ∷ signer 3 ∷ []

abbrev opening : List Call
opening =
    creating_wallet sound 5 "EQTeam" "team" 2 team (pos 10)
    ∷ proposing sound 1 3 send "{}" (some (pos 100)) (pos 20)
    ∷ approving sound 1 1 "a" (pos 30) (pos 30)
    ∷ approving sound 1 1 "again" (pos 31) (pos 31)
    ∷ approving sound 1 9 "stranger" (pos 32) (pos 32)
    ∷ []

abbrev voting : List Call
voting =
    creating_wallet sound 5 "EQTeam" "team" 2 team (pos 10)
    ∷ proposing sound 1 3 send "{}" (some (pos 100)) (pos 20)
    ∷ approving sound 1 1 "a" (pos 30) (pos 30)
    ∷ approving sound 1 2 "b" (pos 40) (pos 40)
    ∷ []

abbrev later : List Call
later = rejecting sound 1 3 (pos 60) ∷ expiring false (pos 500) ∷ []

abbrev open_db : Db
open_db = run opening empty

abbrev voted_db : Db
voted_db = run voting empty

abbrev FirstProposal : Db → Proposal → Type 0
FirstProposal s p = select_first (has_key proposal_id 1) s.proposals ≡ some p

abbrev proposal : Proposal
proposal = record {
  id = 1;
  wallet_id = 1;
  proposer_id = 3;
  action_type = send;
  action_data = "{}";
  approvals = record { user_id = 1; signature = "a"; timestamp = pos 30 } ∷ [];
  rejections = [];
  status = pending;
  tx_hash = none;
  created_at = pos 20;
  expires_at = some (pos 120);
  executed_at = none;
}

abbrev passed : Proposal
passed = record proposal {
  approvals =
      record { user_id = 1; signature = "a"; timestamp = pos 30 }
      ∷ record { user_id = 2; signature = "b"; timestamp = pos 40 }
      ∷ [];
  status = approved;
}

abbrev treasury : Wallet
treasury = record {
  id = 1;
  address = "EQTeam";
  org_id = 5;
  name = "team";
  threshold = 2;
  signers = team;
  is_active = true;
  created_at = pos 10;
}

-- The second vote of user 1 and the vote of user 9 are refused.
open_found : FirstProposal open_db proposal
unfolding run perform create_wallet create_proposal approve vote_for settle get_proposal
    get_wallet_by_id ◌>>=◌ ◌+ℤ◌
open_found = refl

voted_found : FirstProposal voted_db passed
unfolding run perform create_wallet create_proposal approve vote_for settle get_proposal
    get_wallet_by_id ◌>>=◌ ◌+ℤ◌
voted_found = refl

treasury_found : select_first (has_key wallet_id 1) voted_db.wallets ≡ some treasury
unfolding run perform create_wallet create_proposal approve vote_for settle get_proposal
    get_wallet_by_id ◌>>=◌ ◌+ℤ◌
treasury_found = refl

run-Backed_example : Backed voted_db.wallets passed
run-Backed_example = run-Backed voting 1 passed voted_found

run-Evolved_example : Evolved ◌⟶*◌ open_db (run later open_db)
run-Evolved_example = run-Evolved later open_db

passed-users_example : 2 ≤ users team
passed-users_example = passed-users voting 1 passed treasury voted_found treasury_found tt

abbrev voted_twice : Db
voted_twice = (approve sound 1 2 "b" (pos 40) (pos 40) open_db).1

approve_returns : approve sound 1 2 "b" (pos 40) (pos 40) open_db ≡ (ok tt, voted_twice)
unfolding run perform create_wallet create_proposal approve vote_for settle get_proposal
    get_wallet_by_id ◌>>=◌ ◌+ℤ◌
approve_returns = refl

approve_lem_example : Voted true 1 2 "b" (pos 40) (pos 40) open_db voted_twice
approve_lem_example =
    approve_lem sound 1 2 "b" (pos 40) (pos 40) open_db voted_twice approve_returns

abbrev executed_db : Db
executed_db = (execute sound 1 "tx" (pos 50) voted_db).1

execute_returns : execute sound 1 "tx" (pos 50) voted_db ≡ (ok tt, executed_db)
unfolding run perform create_wallet create_proposal approve vote_for settle get_proposal
    get_wallet_by_id execute ◌>>=◌ ◌+ℤ◌
execute_returns = refl

abbrev done : Proposal
done = record passed { status = executed; tx_hash = some "tx"; executed_at = some (pos 50) }

executed_found : FirstProposal executed_db done
unfolding run perform create_wallet create_proposal approve vote_for settle get_proposal
    get_wallet_by_id execute ◌>>=◌ ◌+ℤ◌
executed_found = refl

run-IsFinal_example :
    (q : Proposal) × (select_first (has_key proposal_id 1) (run later executed_db).proposals
      ≡ some q)
    × (q.status ≡ executed)
run-IsFinal_example = run-IsFinal later executed_db 1 done executed_found tt

execute_once_example : execute sound 1 "tx2" (pos 70) (run later executed_db) ≢ (ok tt, executed_db)
execute_once_example =
    execute_once sound 1 "tx" (pos 50) voted_db executed_db execute_returns later sound "tx2"
      (pos 70) executed_db
