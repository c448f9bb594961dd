-- ===== src/Lib.antt =====
-- ChainWatch follows an Ethereum chain through a JSON-RPC node and keeps an index of its ERC-20
-- transfers, with a checkpoint that names the last block that is durably indexed. This library models
-- the program's own logic and proves what it relies on.
--
-- Parts, by file, with the code in internal/ that each models:
--   Prelude: Boolean tests on numbers, lists, equality tests, Go maps as association lists.
--   Errors: domain/error.go, the error values of the program, errors.Is (`is`), ClassifyError.
--   Domain: the records of package domain; a uint64 is a number, its wrap-around written `u64`.
--   Effects: Go functions that fail and change a world, `Action W A = W → Result A × W`, and the
--     rules (Effects/Ends) by which a statement about how a call ends follows the code.
--   Indexer: indexer/sequential_indexer.go (Indexer/Sequential), indexer/concurrent_indexer.go
--     (Indexer/Concurrent), indexer/reorg.go (Indexer/Reorg), indexer/checkpoint.go
--     (Indexer/Memory; Indexer/Memory/Verifying has the reorg manager in front of it).
--     Indexer/Resume is where a range resumes behind the checkpoint, and
--     Indexer/History what a persistence has committed.
--   Blockchain: domain/blockchain.go, the ledger; Blockchain/Balances is about the total of the
--     balances, Blockchain/Ledger about transactions and blocks.
--   Rpc: ethereum/rpc_resilience.go, which errors are retried, how often, and after what delay.
--   Continuous: indexer/continuous_indexer.go, the polling loop behind the head of the chain, over the
--     concurrent indexer in Continuous/Cycles.
--   Metadata: metadata/token_metadata_service.go, the cache of token metadata, and
--     metadata/token_amount.go (Metadata/Amount).
--   Api: api/http_server.go (parseTransferQuery, writeHTTPError), api/transfer_cursor.go and
--     api/public_error.go.
--   Server: the handlers of api/http_server.go with api/api_transfer.go, over a TransferReader and a
--     provider of token metadata; Server/Replying is what a request is answered.
--   Store: store/*.go over tables. Store/Checkpoint is postgres_checkpoint.go, Store/Transfers is
--     postgres_transfer_store.go, Store/Blocks is postgres_block_persistence.go, Store/Reader is
--     postgres_transfer_reader.go and Store/Tokens is postgres_token_metadata.go. Store/Rules is the
--     rule for a transaction, Store/Valid the constraint of indexed_blocks, Store/Transfers/Added the
--     rows that a block adds, Store/Blocks/Rows and Store/Blocks/Records those that are left or upserted.
--   Service: service/service.go, the sync of the ledger with the latest block, with retries.
--   Lifecycle: lifecycle/group.go, services that run and stop together.
--   Config: config/config.go; Config/Environment reads the environment, Config/Checks is about
--     Validate and Config/Loading about LoadConfig.
--   Observability: observability/metrics.go, the counters and the calls that add to them;
--     Observability/Totals is what each call changes, with durations of 64 bits (DurationFits).
--   Domain/Transfers: domain/erc20_transfer.go and domain/observed_receipt.go, logs and the transfers
--     that they tell of; Domain/Transfers/Words is about the words of the ABI.
--   Ethereum: the values and the calls of go-ethereum. Ethereum/Client is ethereum/ethereum_client.go,
--     Ethereum/Tokens is ethereum/ethereum_metadata.go, and Ethereum/Stack the client of the
--     application: Rpc/Client, the methods of ethereum/rpc_resilience.go, in front of it.
--   Middleware: api/http_observability.go, and how api/http_server.go writes and routes.
--   App: app/application.go, the block where indexing starts (App/Start) and the settings and
--     services that the parts are given (App/Settings), and App/Run, what is opened and closed around them.
--   Tests: the model at concrete inputs.
--
-- The node and the persistence are interface records, as in the code: an indexer takes a
-- TransferBlockClient and a BlockPersistence, the reorg manager a CanonicalBlockClient and a
-- ReorgPersistence. Their worlds are any type. What a theorem needs of them is a hypothesis by name:
-- AnswersNumbers (the node answers with the block that was asked for), Commits (a saved block is
-- committed at the end of the history, a failed save commits nothing), FollowsChain (the node answers
-- with the blocks of one chain), Stores (the store behaves as a checkpoint and a map of hashes) and
-- IsSnapshot (the node's answers do not change during the call).
--
-- The concurrent indexer is a step relation on a System: the producer, the workers, both channels and
-- the collecting loop each take their steps in any order. Its runs are those in which the caller does not
-- cancel the context; in Indexer/Concurrent/Canceling the caller may cancel it at any point, the calls
-- of the node are then cut short and saves go to a persistence under the canceled context. After
-- IndexRange has returned its result does not depend on the workers that are still to be cancelled.
--
-- The PostgreSQL stores are on a Database: the tables of migrations/ and the number of statements so
-- far. A SQL statement is a function on the tables, written from its text and the constraints of the
-- tables; the statement with number k fails if `fault k` is not nil, and has then done nothing. A
-- transaction works on the tables that it sees and is undone by an error, also by one of Commit: that
-- a commit whose answer is lost may have been carried out is left out, as are other clients that write
-- at the same time. `delivered k` is how many rows of a query arrive before its error. Named
-- hypotheses: `honest` (no failing statement answers with pgx.ErrNoRows, which only says that there
-- is no row), `working` (no statement fails), IsReadable (a row has no negative number and a value
-- that can be parsed), NoTies (no two rows have one block number and log index, as of the logs of one
-- chain).
--
-- A group of services takes a sequence of events: what its first `select` takes, and then the results,
-- the ends of hooks and the timeout in the order in which its loop takes them. `none` stands for a
-- group that still waits behind the last event.
--
-- The environment is a lookup, and the functions of strings, strconv, time and net that the
-- configuration uses are the record Libraries, of which App/Settings asks only that trimming leaves
-- the names of the services.
--
-- The loops over attempts, exponents and wakeups are by what is left of them: the attempts of the
-- policy, the rounds up to the failed attempt, and a given sequence of wakeups. What the jitter makes of
-- a delay is computed in float64 and is a call of the interface RpcContext, of which JitterWithin says
-- that the fraction 0.2, which config.go fixes, stays between 0.8 and 1.2 of the delay. The conversions of
-- the standard library that a query uses are the record Conversions.
--
-- Fuel: the sequential loop gets one round for each block up to the end of its range, and more
-- fuel than rounds left gives the loop itself. The inner loop of the collector gets one round more
-- than it has pending results, since each round deletes one.
--
-- all_pages, the client that follows the cursors, gets fuel for its requests: one more than there are
-- selected rows is enough, since each page but the last has a row.
--
-- go-ethereum is not code of the repository: its values are records of what the client reads of them,
-- its functions on hashes and addresses the record GoEthereum, its ABI the record Abi and a node the
-- record EthereumNode. Of them the theorems ask by name: HashesRoundTrip (HexToHash undoes Hash.Hex),
-- AddressesWhole (BytesToAddress keeps 20 bytes), IsLog (a topic has 32 bytes), AnswersAsked (the node
-- answers with the number it was asked for), QuietNode, QuietContext and KeepsHistory (neither calls
-- nor waiting move what is committed, a save that succeeds appends its block, one that fails nothing).
--
-- An HTTP handler is the sequence of calls that it makes of its ResponseWriter and whether it panics
-- behind them. The ResponseWriter is that of net/http: the first status that is not 1xx is sent with
-- the header as it is then, and a body without a status sends 200.
--
-- Not modelled: go-ethereum and its RPC client, pgx, and the mux of net/http beyond the paths that are
-- registered; the encoding of replies as JSON and the text for Prometheus; clocks, sleeping and rate
-- limiting by floating point; text of error messages beyond the wrapped error; logging and process
-- start-up.
mod Prelude
pub mod Errors
pub mod Domain
pub mod Blockchain
pub mod Rpc
pub mod Continuous
pub mod Metadata
pub mod Api
pub mod Store
pub mod Service
pub mod Lifecycle
pub mod Config
pub mod App
pub mod Server
pub mod Observability
pub mod Middleware
pub mod Effects
pub mod Ethereum
pub mod Indexer
mod Tests
