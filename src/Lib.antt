-- ===== src/Lib.antt =====
-- Verification of the core of wenode, a node of a delegated proof-of-stake chain with posts, votes
-- and a TME:TSD market.
--
-- The program. `chainbase` keeps the objects of the chain in indices whose changes can be undone
-- session by session. The fork database keeps the tree of recent blocks, and says which is the head
-- and how to switch between two branches. The protocol library says what a transaction may hold:
-- the checks of each operation by itself, the arithmetic of assets and prices, and the signatures
-- that the operations require. The database applies a block by opening a session, running the
-- checks and evaluators, and merging or undoing the session; it pushes blocks through the fork
-- database.
--
-- The files.
--   Base: names of the libraries passed on, Boolean tests, lists, maps, integers, exceptions.
--   Chainbase: libraries/chainbase/include/chainbase/chainbase.hpp, `undo_state` and
--     `generic_index`. An object is an id and a payload, the container a map, and its other unique
--     keys the parameter `clash`. `_stack` is a list with the newest state first. Log says what an
--     undo state records, Undo and Squash are about one operation each, History relates the stack
--     to a list of snapshots, and Calls to whole sequences of calls.
--   ForkDatabase: libraries/chain/fork_database.cpp and its header. A shared pointer is an item with
--     its address, a weak pointer an address that `lock` looks up among the owned items. Links has
--     the invariant, Push, Branch and Trim the operations, Orphans the blocks that do not link.
--   Protocol.Authority: libraries/protocol/authority.cpp; Grammar is about account names.
--   Protocol.SignState: libraries/protocol/sign_state.cpp. Sound has the specification of a granted
--     authority and what a positive answer rests on, Complete when the answer is positive.
--   Protocol.Verify: the authority checks of libraries/protocol/transaction.cpp; Available is about
--     the keys that are asked for.
--   Protocol.Asset: libraries/protocol/asset.cpp and asset.hpp; Convert is about rounding,
--     Compare about prices as fractions.
--   Protocol.Operations: libraries/protocol/node_operations.cpp and its header, by topic: Accounts,
--     Content, Transfers, Market, Escrow.
--   Protocol.Merkle: `calculate_merkle_root` of libraries/protocol/block.cpp.
--   Protocol.Version: libraries/protocol/version.cpp and version.hpp.
--   Chain.Ledger: the money of the chain in libraries/chain/database.cpp: accounts, escrows, savings
--     withdraws, limit orders, requests for conversion and the supplies, and the functions that every
--     balance goes through. Held adds up what is held, as `validate_invariants` does; Adjust is about
--     each function, Credits about the one account that it changes. Table has the operations of an
--     index as a list.
--   Chain.Escrow, Chain.Savings, Chain.Market, Chain.Conversions: the evaluators of these operations
--     in libraries/chain/node_evaluator.cpp, with the loops that a block runs over escrows, withdraws,
--     orders and requests for conversion. A Books module is about the money; Escrow.Fees,
--     Escrow.Settle and Escrow.Release about the fees, the end, and the rules and payments of an
--     escrow, Market.Expiry about the expiry of orders.
--   Chain.Operations: these operations as one type, validated and applied as a transaction does, and
--     the steps of the ledger, which have the modelled calls of `_apply_block` and not the others; Run
--     is about all runs.
--   Chain.Transactions: `_apply_transaction` and the index of recent transactions.
--   Chain.Slots: slots, their times and witnesses, and the header check of a block.
--   Chain.Irreversible: the number of the last irreversible block; Threshold is about the witnesses
--     that have confirmed it.
-- Tests modules hold runs on concrete inputs.
--
-- Conventions. An exception is an `err` of `Result`, and behaviour that C++ leaves undefined is
-- `err undefined`. Sums in fixed-width integers keep their `% 2 ^ w`. What comes from the fc library
-- or from Boost is a parameter: key recovery, hash functions, UTF-8 and JSON tests, 128-bit numbers
-- and checked 64-bit ones (the interfaces `UInt128` and `SafeInt` with the laws that the code relies
-- on). An index of the database is a list in the order of the key it is walked by; a reference to an
-- object is its key, and a unique key that is taken throws on creation. Base.Returns has the rules by
-- which the proofs follow a chain of statements.
--
-- Fuel. `descend` and `meet` take one step per block number, and `fetch_branch_from` gives them the
-- number of the item they start from plus one: in a valid tree each step goes one number down.
-- `walk` has as much. The loops of `trim`, `push_next`, `undo_all` and `merkle_loop` take one element
-- off a list in each round, and have its length. `labels_ok` has one more than the bytes of a name.
-- `clear_expired` has the number of orders. `check_authority` recurses on `max_recursion` less the depth.
--
-- Not modelled: the other evaluators, the rest of the database with its handling of forks and
-- hardforks, witness scheduling, rewards, the text forms of assets and versions, mining operations,
-- sessions as C++ objects, and everything that is network, storage, wallet or plugin. A call that
-- throws has no state after it: what chainbase leaves of an object whose change clashes with another
-- is not represented, and `undo` puts objects back in the order in which they were saved, where the
-- code has that of their ids, which differ only where a unique key clashes.
pub mod Base
pub mod Chain
pub mod Chainbase
pub mod ForkDatabase
pub mod Protocol
