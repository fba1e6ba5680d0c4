-- ===== src/Lib.antt =====
-- The core of an ERC-4337 bundler: operations enter a mempool in a SQLite table, a loop claims
-- the pending ones, sends them to the EntryPoint contract in one transaction, and a watcher reads
-- the receipts and settles the operations. A restart reconciles what the last process left.
--
-- internal/core: Hex is the text and byte conversions of internal/core/pack.go, with the
-- functions of encoding/hex and math/big that they call written out; Core/Pack the packing of two
-- numbers in a word (PackBigInts, PackUint128s); Core/UserOp the structs and FromRPC of
-- userop.go; Core/Calldata and Core/Hash calldata.go and hash.go; Core/Crypto is crypto.go, with
-- SHA-256 as an argument, and Core/Crypto/Reference the challenge as RFC 9591 and RFC 9380 write
-- it. Go holds the values of the language: results that may be errors or panics, int as a 64-bit
-- word, slices with their bounds, copy.
--
-- internal/mempool: Mempool/Table is the schema of db.go: a list of rows in the order of
-- insertion, the primary key, and the partial unique index on sender and nonce, which an INSERT
-- or UPDATE must keep or else changes nothing. Mempool/Hydrate is the row of an operation and
-- hydrateOp; Mempool/Repo the methods of SQLiteRepo by their names in lower case (insert,
-- replace, get_pending, claim_for_bundling, update_status and so on), and Pruner.tick. A
-- statement is a function from the table to a result and a table; a transaction keeps the table
-- it began with when it rolls back.
--
-- internal/bundler: Bundler/Abi is the encoding of handleOps, Bundler/Loop Tick and its helpers,
-- Bundler/Receipt the reading of logs and of revert data, Bundler/Watcher Poll and Reconcile.
-- They call the repository in the order in which the code does, and what the node and the signer
-- answer is a record of functions (TickEnv, WatchEnv), so that the theorems hold of every answer.
--
-- internal/rpc: Rpc is handleSendUserOperation of methods.go, which parses, checks, hashes and
-- inserts an operation, Rpc/Queries the other handlers, Rpc/Values the JSON objects that they
-- reply, and Rpc/Server the dispatch of server.go, the key of auth.go and the HTTP handler of
-- cmd/bundler/main.go.
--
-- internal/signer is Signer, whose state is the pending nonce; internal/paymaster is Paymaster,
-- with Paymaster/Call for the call of the contract; internal/prover is Prover: Prover/Toml the
-- inputs of the circuit, Prover/Jwks the search of the issuer's key, Prover/Prove the proof of a
-- token, Prover/Handler the endpoint.
--
-- cmd/bundler: System has the steps that the process takes on the mempool (a sent operation, a
-- tick, a tick that is cut off after its claim, a poll, the two statements of the pruner, a
-- restart with its reconciliation) and the tables that they reach; System/Status is the abstract
-- life of an operation that they follow. A step is one call; calls do not overlap.
--
-- cmd/send-userop is SendUserOp: Parse the readers of its flags, Fetch its calls of the node,
-- Sign the hash and the signature, Verify its own check of a signature over any group, Submit the
-- calls of the bundler, Flow the command; it calls its own copies of the functions of
-- internal/core, which are the model of internal/core here but for computeUserOpHash.
--
-- internal/validator is Validator, internal/estimator is Estimator, internal/sponsor is Sponsor,
-- and internal/config is Config, from the parsed file on.
--
-- Parameters: the text forms of hashes and addresses and Keccak-256 (External, with their laws in
-- ExternalLaws), the sort of ORDER BY (RowOrder), the order in which Go visits a map
-- (WatchEnv.visit), the clock as a number that stands still during one call. The group and the
-- signatures of the FROST library are those of SendUserOp/Schnorr, for which Tests/Signatures has
-- an instance. Tests/Instances gives concrete functions that satisfy every other law.
--
-- Bounds: loops are recursion over lists, and the digits of a number recur on the number itself,
-- which is enough since the quotient falls at each round. uint64 and int arithmetic wraps where
-- the code computes with data from outside.
--
-- Not modelled: the disk and the locks of the database, timers, logging, the texts of errors
-- where they only quote their arguments, the keystore file, the programs and files of the prover,
-- the FROST library and what send-userop only prints, the commands invite and keygen. Two calls
-- at the same time are not modelled: each handler, tick and poll is one step.
pub mod Prelude
pub mod Go
pub mod Hex
pub mod External
pub mod Core
pub mod Mempool
pub mod Bundler
pub mod Validator
pub mod Estimator
pub mod Sponsor
pub mod Config
pub mod Rpc
pub mod Signer
pub mod Http
pub mod Paymaster
pub mod Prover
pub mod SendUserOp
pub mod System
mod Tests
