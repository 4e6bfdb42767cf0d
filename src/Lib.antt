-- ===== src/Lib.antt =====
-- A model of the Flux oracle for NEAR (oracle/src) and of its wrapped token (token/src), with the
-- theorems on what they keep and what they pay.
--
-- A requester sends payment tokens to the oracle with a data request. Stakers send stake tokens with
-- an outcome. A request has resolution windows with doubling bonds: the stake that fills the bond of
-- a window on an outcome opens the next one, or triggers the final arbitrator. A window that ends
-- without a full bond lets `dr_finalize` settle the request on the outcome before; the provider or
-- the triggered arbitrator can settle it too. Then the stakers on the settled outcome claim their
-- stakes back, with their shares of the bonds on other outcomes and of the fee. Tokens come in by
-- `ft_on_transfer`, which the token contract calls, and go out by promises to it.
--
-- Files:
--   Base: names of the library, Boolean tests, equality and list lemmas over the native numbers.
--   Near/Calls: a call returns `ok` or panics with `err`; a panic leaves no trace, since the host
--     takes all writes of the call back. Near/Words: checked arithmetic, as the release profile of
--     Cargo.toml has overflow checks. Near/Maps: `LookupMap` as an association list. A `Vector` is
--     a list.
--   Oracle/Types: the structs, those of the flux_sdk crate with the fields that the source reads and
--     writes. `World` is the contract (`Contract` of oracle/src/lib.rs) with the storage behind it:
--     stakes, log records and promises. `Env` is what the host tells a call.
--   Oracle/Window: oracle/src/resolution_window.rs. The maps of a window stand in `Stakes` under the
--     window's prefix, so all copies of a window struct share them, as they do in the trie of the
--     host; the map of a user is registered under a prefix of its own. Window/Writes, Staking,
--     Accounts, Claiming: lemmas on stakes and claims.
--   Oracle/Active, Guards, Finalized, Handlers: oracle/src/data_request.rs, the active request, its
--     guards, the finalized request and the handlers of the contract, with their lemmas below.
--   Oracle/Helpers, Logger, Access, Configuration, Accounts, Whitelisting, Validation, Receiver:
--     oracle/src/helpers.rs and fungible_token.rs; logger.rs; the guards of lib.rs; oracle_config.rs
--     and fee_config.rs; storage_manager.rs; whitelist.rs and requester_handler.rs;
--     callback_args.rs; fungible_token_receiver.rs. Oracle/Governance: who may call
--     the handlers that configure. Guards/Listed: the outcomes that a request allows.
--   Oracle/Views: the views of oracle/src/data_request.rs with the summaries that they return, and
--     Oracle/Upgrade: oracle/src/upgrade.rs.
--   Oracle/Consistency: the whole contract. Consistency.antt says what holds between two calls;
--     Rounds, Updates, Growth, Staking, Unstaking, Lifecycle, Claims and Calls say what each call
--     leaves of it; Steps has the calls that return as a step relation and the histories of a fresh
--     contract; History is the induction over them; Settlement and Withdrawals
--     are about when a request can be finalized and a stake taken out; Pricing, FairCalls and Fairness
--     about the bonds and the multipliers that governance sets; Lasting and Terms about what calls
--     leave of the requests, the configurations, the pause and the whitelist.
--   Oracle/Treasury: the tokens that each request takes in and pays out over a history of calls
--     (Totals, Owed, Requests, Stakes, Claims, Finals, History); Sent, Sends, Endings, Quiet, Unpaid,
--     Paid and Promises compare the account of each call with its promises, by token and receiver;
--     Sums and Ledger compare all accounts with all promises of a history.
--   Oracle/Decimal: decimal digits of numbers, as identifiers of outcomes in the log have them. Its
--     fuel is 39, the number of digits of 2 ^ 128.
--   Token/State, Internal, Core, Wrap, Registration, Metadata: the files lib.rs, internal.rs,
--     fungible_token_core.rs, w_near.rs, storage_manager.rs and fungible_token_metadata.rs of
--     token/src. Token/History: any sequence of calls as a step relation. Token/Bounds: the supply
--     fits 128 bits, and two accounts hold together at most the supply. Token/Moves: its transfers.
--   System: the two contracts together. Its state has both contracts, the transfers that
--     `ft_transfer_call` has moved to the oracle and that `ft_on_transfer` has not been called for, and
--     the answers that `ft_resolve_transfer` has not been called for; the promises of the oracle that
--     have not run are those in its storage. A step is one receipt, and receipts come in any order.
--     Queues, Balances, Flows, Messages, Ends, Growth: lemmas on these; Funds, Resolutions, Exchange
--     and Running: the invariant of the tokens, receipt by receipt; Histories, Payments, Refunds and
--     Claims: the theorems on histories.
--   Oracle/Examples, Token/Examples, System/Examples: the theorems at concrete inputs.
--
-- Parameters: bytes of storage and gas used, the price of a byte, the result of a promise, the JSON
-- decoders and the constants of flux_sdk are fields of `Env` and `Consts`, and theorems hold for all
-- of their values. The loops are over lists and need no fuel.
--
-- A history of calls has every call that returned, in the order of the host. A call that panics
-- leaves the state alone and is no step. Theorems on histories suppose that no active request had a
-- resolution bond of zero before any call: a small stake multiplier can round it down to zero, and
-- the first window then is bonded by a stake of nothing.
--
-- The host, which runs receipts, is not part of the source. System.antt supposes of it what its
-- documentation says: a receipt runs once, a failed one leaves its contract alone, `then` runs after
-- the promise before it, and the call back of `ft_transfer_call` gets the result of the receiver. Its
-- theorems are for orderly histories: only these receipts come from the account of the token contract,
-- the oracle's account has no other access, and governance keeps to one token for payments and stakes.
--
-- Not modelled: the text of log lines, of which the records and their values are; scripts and
-- integration tests.
pub mod Base
pub mod Near
pub mod Oracle
pub mod Token
pub mod System
