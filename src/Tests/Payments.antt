-- ===== src/Tests/Payments.antt =====
-- The methods of internal/batch at concrete inputs, and their theorems applied there.
use Prim.Native.String.{String}
use tonkey.Prelude.{
  ltb, ◌==◌, ◌>>=◌, ℕ, ◌≡◌, refl, Bool, false, none, some, List, [], ◌∷◌, if◌then◌else◌, ok, map,
}
use tonkey.Prelude.Int.{pos}
use tonkey.Prelude.Ensures.{Ensures}
use tonkey.Table.Texts.{Distinct}
use tonkey.Batch.Store.{BatchStatus, completed, partial, Batch, Payment, State}
use tonkey.Batch.Totals.{total_from}
use tonkey.Batch.Manager.{
  add_transactions, process_batch, get, get_transactions, send_all, send_one, Provider, create,
  process, cancel, new_batch,
}
use tonkey.Batch.Sending.{Processed, AllOrNothing, process_sends}
use tonkey.Batch.Once.{Call, creating, processing, cancelling, run, perform, start, sends_once}
use tonkey.Batch.Sent.{sent_id}
use tonkey.Batch.Creating.{Created, create_adds}

abbrev never : ℕ → Bool
never k = false

abbrev names : ℕ → ℕ → String
names id k = if id == 1 then (if k == 0 then "batch_1_a" else "batch_1_b") else "batch_2_a"

abbrev to_bob : ℕ → Payment
to_bob n = record { from_addr = "EQann"; to_addr = "EQbob"; amount = pos n }

-- The provider takes no payment above 100.
abbrev bounded : Provider
bounded k p = elim p.amount [ pos n ↦ if ltb 100 n then some "refused" else none | _ ↦ none ]

abbrev two : List Payment
two = to_bob 7 ∷ to_bob 500 ∷ []

abbrev created : State
created = (create never names 4 none two (pos 10) start).1

create_returns :
    create never names 4 none two (pos 10) start ≡ (ok (new_batch 1 4 none two (pos 10)), created)
unfolding create add_transactions total_from ◌>>=◌
create_returns = refl

create_adds_example : Created 4 two start created (new_batch 1 4 none two (pos 10))
create_adds_example =
    create_adds never names 4 none two (pos 10) start created (new_batch 1 4 none two (pos 10))
      create_returns

abbrev statuses : State → List BatchStatus
statuses s = map (λ (b : Batch). b.status) s.batches

process_partly : statuses (process bounded never none (pos 11) (pos 12) 1 created).1 ≡ partial ∷ []
unfolding create add_transactions total_from process process_batch get get_transactions send_all
    send_one ◌>>=◌
process_partly = refl

-- The reading breaks off after the first transaction: the second is not sent, and the batch is completed.
breaks_off :
    (statuses (process bounded never (some 1) (pos 11) (pos 12) 1 created).1 ≡ completed ∷ [])
    × (map sent_id (process bounded never (some 1) (pos 11) (pos 12) 1 created).1.sent
        ≡ "batch_1_a" ∷ [])
unfolding create add_transactions total_from process process_batch get get_transactions send_all
    send_one ◌>>=◌
breaks_off = (refl, refl)

process_sends_example :
    Ensures
      (λ _ t. Processed bounded none 1 created t)
      (AllOrNothing none 1 created)
      (process bounded never none (pos 11) (pos 12) 1 created)
process_sends_example = process_sends bounded never none (pos 11) (pos 12) 1 created

-- A batch that is processed twice, and another one that is called off.
abbrev calls : List Call
calls =
    creating never names 4 none two (pos 10)
    ∷ processing bounded never none (pos 11) (pos 12) 1
    ∷ processing bounded never none (pos 13) (pos 14) 1
    ∷ creating never names 4 none (to_bob 1 ∷ []) (pos 15)
    ∷ cancelling never (pos 16) 2 4
    ∷ processing bounded never none (pos 17) (pos 18) 2
    ∷ []

calls_send : map sent_id (run calls start).sent ≡ "batch_1_a" ∷ "batch_1_b" ∷ []
unfolding run perform create add_transactions total_from process process_batch cancel get
    get_transactions send_all send_one ◌>>=◌
calls_send = refl

sends_once_example : Distinct sent_id (run calls start).sent
sends_once_example = sends_once calls
