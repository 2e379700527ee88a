-- ===== src/Lib.antt =====
-- Splittr: shared expenses kept as a signed, replicated log of operations (splittr-core/crates).
--
-- The program and how its parts interact. A user's intent becomes a validated, signed op
-- (splittr-app), which a repository verifies, appends to a log and hands to a materializer
-- (splittr-store). The materializer keeps ops by id and folds all of them, in the order of the ids,
-- into the read model, under the authority that the same ops establish (splittr-crdt). Balances and
-- suggested payments are computed from the read model with the arithmetic of splittr-domain. Two
-- replicas exchange the ops that the other lacks (splittr-sync).
--
-- Which file models which part:
--   Domain/Money       splittr-domain/src/money.rs: Cents, an i64; none is a panic on overflow
--   Domain/Ids, Domain/Currency, Domain/Expense   the files ids.rs, currency.rs, expense.rs
--   Domain/Split       split.rs: split_equal, split_by_weights, SplitPlan::compute
--   Domain/Debt        debt.rs: simplify_debts; settle is its while loop
--   Crdt/Op, Crdt/Clock, Crdt/Identity   op.rs, clock.rs, identity.rs of splittr-crdt/src
--   Crdt/Authorize     authorize.rs: Authority::build (Certs, Alias and Stages hold its loops), the
--                      rules (Rules) and Authority::entitled
--   Crdt/Materialize, Crdt/Projection   materialize.rs, projection.rs: Folder (Apply), lww,
--                      assemble, project, Materializer
--   Crdt/Balance       balance.rs: net_balances, settle_up, my_net_by_group, pairwise_with
--   Store/OpStore, Store/Repository   splittr-store/src: the trait and the log in memory; open,
--                      append, projection
--   Sync/Reconcile     splittr-sync/src: reconcile.rs and message.rs; Exchange drives handle at
--                      both ends, with every message delivered in order
--   Sync/Transport, Sync/Framed   transport.rs: sync at both ends of a connection, move by move;
--                      framed.rs: messages as frames of a stream
--   Store/Redb         splittr-store/src/redb_store.rs: the durable log
--   Crypto             splittr-crypto/src: aead.rs, vault.rs, invite.rs, pairing.rs
--   App                splittr-app/src: clock.rs, identity.rs, error.rs; Commands, Groups and Session
--                      are app.rs, Query is query.rs
--   Ffi                splittr-ffi/src: dto.rs, convert.rs and the methods of api.rs (Hex, Api, Engine)
--   Prelude, BTree     what the modules share: machine integers, the ordered maps and sets and the
--                      stable sort of the Rust standard library
--   Examples           concrete runs
--
-- State and errors. A structure of the source is a record, a method that takes &mut self gives the
-- structure after it. A map is an association list with ascending keys. Texts and keys are lists of
-- bytes. Arithmetic that wraps in a release build is written with its wrap-around; Cents, which
-- panics on overflow, gives none. Result is a data type of its own.
--
-- Fuel. The while loop of simplify_debts has as much fuel as there are debtors and creditors, since
-- each round moves an index. The search for a component of aliases has as much as there are nodes,
-- since a node is pushed once, and it is proved to end. The loop that hands out the leftover cents counts them.
--
-- What is a parameter: the hash, the signatures and the encoding of ops (Crdt/Op, Crypto), the
-- derivation of keys from seeds (App/Identity, Seeds), the cipher (Crypto/Aead, Cipher), the key
-- derivation of the vault, the tables of redb and the encodings of postcard (Store/Redb, Sync/Framed),
-- wall times, random names and nonces. What the proofs use of them is a named hypothesis: Accepts,
-- Decrypts, IsTable, Decodes.
--
-- What is not modelled: the wrappers of keys, agreement keys and recovery phrases in splittr-crypto,
-- which only call other packages, opening a database file, asynchronous input and output, the mutex
-- of the engine, the generated bindings, and the user interface.
--
-- The invariant of a replica (Store/Repository/Invariant) says that an id names one op. That is what
-- a collision-free hash and deterministic signatures give. A second valid signature of a content is
-- the case left out, and Store/Repository/Resigned is about it.
pub mod Prelude
pub mod BTree
pub mod Domain
pub mod Crdt
pub mod Crypto
pub mod Store
pub mod Sync
pub mod App
pub mod Ffi
pub mod Examples
