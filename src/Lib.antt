-- ===== src/Lib.antt =====
-- omniscient: the backend of a prediction market, a gateway with an order book for each outcome
-- token, an indexer of the contracts' events, and the crate they share.
--
-- The parts and how they interact. A client sends the gateway a signed order. The gateway reserves
-- the collateral in the database and hands the order to the matcher, one thread that owns a book for
-- each position id; the matcher matches it against the other side, keeps what rests, and sends the
-- result on a channel. The indexer reads the logs of the contracts block by block, and one
-- transaction for each log changes the balances, markets, users and orders that the log is about; a
-- log that was handled is recorded, so that it is passed over later. A reorganisation of the chain
-- deletes the rows of the blocks from its start on. When a block is twelve blocks behind the newest it
-- is finalized, the contract's cursor moves on, and the indexer posts the balances that changed in it
-- to the gateway. The results of the matcher go to the database and to a topic.
--
-- Prelude: what the files share. Tests (Boolean tests), Lists, Words (u64 and u128 arithmetic, with
-- the wrap-around written out), Integers, Result, and BTreeMap, the standard library's sorted map as
-- an association list with rising keys.
--
-- Shared: backend/shared/src. Signing is the EIP-712 hash of an order and the check of its signature;
-- keccak256, `to_be_bytes`, and the parsing and recovery of signatures are a parameter, the record
-- Crypto. Domain has the byte arrays and sides of domain.rs, Order the order with
-- `required_collateral` and `asset_type`, Hex the texts of addresses and ids (`from_hex`, `Display`,
-- `TryFrom`), Constants the numbers of constants.rs. The crate hex is a parameter, the record
-- HexCodec, with what is relied on as its laws. A text is the list of its code points. Json is what
-- serde_json makes of a JSON text and how serde's derived code reads it, Wire what is written and
-- read for these types; the other crates' readings (`hex::decode`,
-- alloy's U256, UUIDs) are the parameter Formats; Laws and Trip hold the proofs.
--
-- Gateway.Book: `OrderBook` of backend/gateway/src/domain.rs. `match_buy` and `match_sell` are one
-- pair of loops over a side, `match_side`, called with the best price and the limit's test of each;
-- the loops' bodies are `sweep` (a level) and `match_front` (the front order), and the variables
-- that a loop changes are the records SideState and LevelState. Book.Cancel has `cancel`,
-- `cancel_all`, `prune`, `best_bid` and `best_ask`. The other files below Book hold the proofs:
-- Priority the specification of matching, a single pass over the resting orders in price-time
-- priority; Level, Side, Refinement and Matching compare the loops with it; Fills, Insert,
-- Exhaustion, Uncrossed and Guarantees build on that.
-- Fuel: the loop over a level runs at most once more than the level has orders, since each round but
-- the last removes one; the loop over the levels at most once more than the side has levels, since
-- each round but the last removes one. Termination shows that the loops end by their tests with that
-- fuel, on any side with u64 amounts; the other theorems are about the loops with that fuel.
--
-- Gateway.Engine: `run_matcher` of backend/gateway/src/engine.rs over a list of commands, each with
-- whether the channel of the results is open; `place` is the arm of `PlaceOrder`. Place, Run,
-- Invariant and NoTrade hold the proofs.
--
-- Gateway.Fees: the fees and volumes of backend/gateway/src/domain.rs.
--
-- Gateway.Infra: the statements and the topic of backend/gateway/src/infra.rs. The topic is the list
-- of what was sent, with which of the next sends fail.
--
-- Gateway.Service: backend/gateway/src/service.rs, over a state of the database, the matcher's queue
-- and the topic; `accept_order` (its statements are `store_order`), `cancel_by_id` (the source's
-- `cancel_order`), `process_match_result`, `process_results` (the task of `spawn_result_processor`)
-- and `rebuild_books`. The clock and the random id are arguments. Storing, Accept,
-- Cancellation, Results, ResultTask and Rebuild hold the proofs.
--
-- Gateway.System: what backend/gateway/src/main.rs connects, as a relation of steps on the books, the
-- service's state and the results that wait; a step is one request, one command that the matcher
-- receives, or one result that its task receives. Stored, Growth and Safety hold the proofs about the
-- books, the queue and the stored orders; OnHold and Covered say when what is on hold covers
-- the holds of an account, and Ends, Holding and Solvency hold the proofs about it; Requests shows that
-- the router makes steps of this relation only.
--
-- Gateway.Api: the handlers of backend/gateway/src/api.rs behind the parsing of JSON, with the texts
-- of the errors, since the status of an answer is decided by the words in them; texts that come from
-- elsewhere are the parameter Messages. Errors and Reconcile hold the proofs. Api.Requests is the
-- router in front of them (`answer`) and how it reads the bodies, once they are JSON; Access says which
-- requests may change anything, Sound and Guarded hold the proof, and Refused is about the bodies that the
-- indexer posts. Socket is the web socket, over the list of what arrives.
--
-- Store: the tables of backend/schema.sql, as far as the statements use them, and what a statement
-- is: `execute` changes the tables, or the server refuses it. Which statements are refused
-- is a list in the database's state, so that a theorem that says nothing of it holds for every
-- pattern of errors; `transaction` gives the tables back as they were on any error.
-- A balance has the column hold_amount, which the gateway's statements name and schema.sql lacks.
-- Store.Table: INSERT, UPDATE and DELETE on a list of rows; Store.Keeps: what statements keep true.
--
-- Indexer: backend/indexer/src. Custody, Oracle and Settlement are the files of handlers/, with one
-- function for each handler; Events is `dispatch`; Reorg is `rollback_unfinalized`; Pipeline is what
-- `index_loop` does with the logs of a contract, and its range of blocks; Cursor is `ensure_cursors`;
-- Finalization is `finalize_blocks`, over a state of the database and the requests that were posted;
-- Loop is `index_loop`, a turn of it and the indexer's main, with the provider's answers as the
-- parameter Provider; Abi is abi.rs in a release build on a 64-bit machine, where sums and products of
-- usize wrap around, with a panic as a value. What is used of alloy (big-endian words, keccak256 of
-- the events' signatures) is a parameter, the record Alloy.
--
-- Bounds. Numbers that are u64 in the source are natural numbers with the wrap-around written out at
-- each operation; that they are u64 at the start is a condition of the theorems that need it. Columns
-- are unbounded, and a value that a column does not take is a statement that the server refuses.
--
-- Not modelled: the parsing of JSON texts and the commits of offsets of backend/gateway/src/api.rs;
-- `Debug`, the texts of numbers and random ids; configuration, connections and logging; waiting, and
-- what runs at the same time as a statement; the crates settlement and resolution, which are stubs;
-- and the contracts under contracts/, which are Solidity.
pub mod Prelude
pub mod Shared
pub mod Store
pub mod Gateway
pub mod Indexer
