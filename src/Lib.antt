-- ===== src/Lib.antt =====
-- tonkey is a wallet and token service for the TON blockchain: an HTTP and GraphQL server over an SQL
-- database, with background work. This library models the parts that keep balances, items, votes, payments,
-- jobs and access, statement by statement, and proves what they promise.
--
-- The parts and their files:
--   Prelude    tests on numbers, lists, signed integers, and methods: a method on a shared state is a
--              function from the state to what it returns (a value, an error or a panic) and the
--              state that it leaves. Prelude.Ensures has one rule for each way to begin a method.
--   Table      an SQL table as the list of its rows, the statements on it, the ids that
--              AUTOINCREMENT gives, keys that are texts, and ORDER BY.
--   Jetton     internal/jetton/jetton.go: Manager.Get, GetBySymbol, GetBalance, Create, Deploy,
--              Transfer, Mint, Burn, FreezeWallet, UnfreezeWallet, UpdateSettings and
--              getOrCreateWallet. Db holds the tables that initSchema makes. The text format of
--              math/big is the interface Decimal: it is a parameter with a parser, a printer and
--              the two laws that the code relies on.
--   Multisig   internal/multisig/multisig.go: Manager.CreateWallet, GetWallet, CreateProposal,
--              Approve, Reject, Execute, GetProposal, ExpireProposals and their helpers. Calls has
--              any sequence of the calls that write.
--   Jobs       internal/jobs/jobs.go: NewQueue, RegisterHandler, one turn of worker, fetchJob,
--              processJob, completeJob, failJob, Enqueue with its options, GetJob, RetryJob, Cleanup
--              and GetStats. The two statements of fetchJob are separate steps, so that other
--              workers may come between them. A handler is a function of the job that it is given.
--   Apikeys    internal/apikeys/apikeys.go: Manager.Create, Validate, Revoke, Delete, Cleanup,
--              Key.HasScope and parseScopes. Texts are lists of code points; SHA-256 is a parameter.
--   Nft        internal/nft/nft.go: CreateCollection, DeployCollection, GetCollection, Mint, GetNFT,
--              Transfer, CreateListing, GetListing, BuyListing, CancelListing, CreateOffer and
--              AcceptOffer. Steps has the steps that the calls are made of.
--   Batch      internal/batch/batch.go: Manager.Create, Get, GetTransactions, Process and Cancel.
--              State holds the two tables, the map of the batches in progress, and what the provider
--              was asked to send. Totals has the sum in int64.
--   Ipfilter   internal/ipfilter/ipfilter.go: Filter.Check, matchesRule, getRules, loadRules, AddRule,
--              RemoveRule and InvalidateCache. Reads has what getRules returns and caches. The package net is the record Net, a parameter.
--   Reset      internal/reset/reset.go: CreateToken, ValidateToken, ResetPassword, Cleanup and
--              GetUserByResetToken. ResetPassword after ValidateToken is a step of its own, so that
--              another request may come between.
--   Migrations internal/migrations/migrations.go: Register, CurrentVersion, Pending, Migrate,
--              MigrateTo and Rollback. The schema and the execution of SQL are parameters.
--   Tests      the methods run at concrete inputs, and the theorems applied there.
-- The parts do not call each other: the HTTP handlers of internal/api do, which are not modelled.
--
-- How the code is read. A table is a list of rows in the order of their ids, and JSON columns are the
-- values that they encode. Every statement that a method sends may fail: `fails k` says that the
-- k-th one of the call does, in the order of the text. A failed statement changes nothing, and what
-- was written before it stays, except in the two places that open a transaction (ResetPassword and
-- the run of a migration), where an error takes all back. Where the code drops the error of a
-- statement the method goes on. The two loops over rows that do not ask rows.Err (GetTransactions of Batch
-- and loadRules) take `cut`, which says after how many rows the reading breaks off, if it does.
-- What a database driver gives for a TEXT is a parameter in Jobs, since Scan into json.RawMessage
-- depends on it. Times are arguments, one for each call of time.Now, in Unix seconds
-- (nanoseconds in Ipfilter). Ids, counts and times are unbounded numbers: int64 does not overflow
-- within the sizes of a table, and amounts of tokens are math/big in the code too; the total of a
-- batch is a sum in int64 and is modelled as one. ORDER BY … LIMIT 1 takes the row with the lower id
-- among equals, and ORDER BY keeps the order of such rows; so does sort.Slice in the model, which in Go may
-- exchange migrations of the same version. A method runs without another one in
-- between, except for fetchJob and ResetPassword as said above. All loops are over lists, so no fuel
-- is needed.
--
-- Not modelled: listings, which read rows and change nothing; the blockchain providers, HTTP, GraphQL,
-- Telegram and the drivers, which are I/O; goroutines and shutdown of the job queue; and the
-- packages websocket, registration, totp, webhooks, georatelimit, middleware, users, audit and
-- contracts of internal, which keep a state of their own.
pub mod Prelude
pub mod Table
pub mod Jetton
pub mod Multisig
pub mod Jobs
pub mod Apikeys
pub mod Nft
pub mod Batch
pub mod Ipfilter
pub mod Reset
pub mod Migrations
mod Tests
