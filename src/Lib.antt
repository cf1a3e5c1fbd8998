-- ===== src/Lib.antt =====
-- A verification library of crypto_nav_manager, the service that rebuilds positions, PnL and order
-- matches of crypto trading strategies from exchange histories.
--
-- The program and the parts modelled here (paths from the repository's root):
-- * src/fifo_pnl.rs, `FifoPnl`: fills in timestamp order close the oldest lots of the other side and
--   open the rest. `Fifo` has the lots, the errors and the closing loop, `Fifo.Amount` the book
--   (apply_fill, floating_pnl, mark_pnl, snapshot, open_lot_count). Proofs: `Fifo.Loop` (termination),
--   `Fifo.Ticks` (the loop tick by tick), `Fifo.Amount.Safety`, `Fifo.Amount.Refinement`.
-- * src/quantity_fifo_pnl.rs, `QuantityFifoPnl`: the same on quantities. `Fifo.Quantity`; its lots
--   against the amount book's are in `Fifo.Quantity.Lots`.
-- * src/intra_order_match.rs, `MatchEngine`: margin orders net against each other, futures hedges
--   close the orders of the other side first in, first out, and the hedge history of each order is
--   kept. `Matching` has the data, `Matching.State` the access to maps and queues, `Matching.History`
--   record_hedge_order and seed_hedge_history, `Matching.Engine` apply_margin, apply_futures and
--   apply, `Matching.Load` new and into_orders. Proofs: `Matching.Soundness` (the invariant),
--   `Matching.Levels` (the tolerance), `Matching.Rounds`, `Matching.Netting` and `Matching.Hedging` (the two loops),
--   `Matching.Counting` and `Matching.Recording` (the history), `Matching.Margin`, `Matching.Futures`, `Matching.Batch`.
-- * src/rest_dispatcher.rs, `Dispatcher`: requests go out through the least used source address that
--   is not blocked and has room in its quota; a rate limit blocks an address and the request is tried
--   again. `Dispatch` has the configuration and the pool, `Dispatch.Headers` retry_after,
--   `Dispatch.Pool` reserve_client, block_client and update_observed_weight, `Dispatch.Request`
--   dispatch. Proofs: `Dispatch.Selection` and `Dispatch.Reservation` (one reservation),
--   `Dispatch.Quota` (any order of calls), `Dispatch.Retries` (the loop of dispatch, one attempt for
--   each of `max_rate_limit_retries` + 1).
-- * src/auth.rs, `SessionStore`: who is logged in. `Auth` has roles, users and the rules for names and
--   passwords, `Auth.Sessions` the store in memory (create, resolve, revoke, revoke_user_sessions),
--   `Auth.Cookies` session_token, `Auth.Middleware` require_auth. Proofs: `Auth.Histories` (a store
--   against the history of its calls), `Auth.Headers` (the cookie, set and read) and `Auth.Middleware`.
-- * src/account_risk.rs, `AccountRiskCache`: what the account monitors publish. `AccountRisk` has
--   feeds, scopes and readings, `AccountRisk.Wire` decode_account_risk, `AccountRisk.Cache` update,
--   set_connected, snapshots and snapshot_for_feed. Proofs: `AccountRisk.Decoding` (which events the
--   decoder takes) and `AccountRisk.Newest` (what the cache keeps).
-- * src/reconcile_cleanup.rs, `cleanup_stale_work_dirs`: old work directories are removed unless a
--   live run owns them. `Cleanup` has the tree and the decision; proofs: `Cleanup.Decisions`.
-- * src/pnl.rs, `calculate`, and src/pnl/overview.rs, `replay`: the events of a strategy, sorted by time,
--   applied to the books of their symbols. `Pnl` has the events; `Pnl.Venue` the book of a leg on either
--   FIFO engine; `Pnl.Symbol` the state of a symbol (apply_trade, apply_interest, seed_position, metrics);
--   `Pnl.States` all symbols, points and summaries; `Pnl.Curve` the sampling of points (loops on fuel that
--   is proved enough in `Pnl.Ticks`); `Pnl.Track` the two loops of `calculate` with the boundaries of the
--   rolling windows; `Pnl.Performance` the drawdown and the windows; `Pnl.Response` and `Pnl.Calculate`
--   the rest; `Pnl.Overview` the account replay; `Pnl.Charges` and `Pnl.Inputs` the rows of the queries.
--   Proofs: `Pnl.Isolation`, `Pnl.Books`, `Pnl.Ticks`, `Pnl.Extrema`, `Pnl.Order`, `Pnl.Captures`, `Pnl.Boundaries`,
--   `Pnl.Nearest`, `Pnl.Loading`, and `Pnl.Total`, `Pnl.Symbols`, `Pnl.Totality` (calculate ends).
-- * src/fr_position_limits.rs, `FrPositionLimitMonitor`: how near the positions of the funding-rate
--   strategies are to the limits of their exchanges. `FrLimits` has the limits of a symbol and the
--   parameters; `FrLimits.Symbols` the keys; `FrLimits.Exchange` and `FrLimits.Answers` the merging of
--   what an exchange answers; `FrLimits.Rows` and `FrLimits.Tables` the rows; `FrLimits.Monitor` an
--   environment and the overview with its cache. Proofs: `FrLimits.Naming`, `FrLimits.Spellings`, `FrLimits.Grouping`,
--   `FrLimits.Limits`, `FrLimits.Displayed`, `FrLimits.Health`.
--
-- Representation. An `f64` is an element of a type with the operations of `Float`; theorems that need
-- arithmetic assume `IsIeee`, facts of IEEE 754 that hold with rounding, NaN and infinities, or a
-- `Grid`, values that are whole numbers of ticks, on which sums and differences are exact.
-- `Float.Sample` meets both and makes every definition run.
-- The constants of src/pnl.rs and src/fr_position_limits.rs are arguments, `Literals` and
-- `Constants`, for which the theorems hold whatever they are; `program_literals` and
-- `program_constants` have the values of the code. An `i64` is an integer `ℤ`; timestamps and counters
-- are not taken to reach 2^63. A `BTreeMap` is an association list in key order, a `VecDeque` a list
-- with its front first. A call ends `done` with a value, `failed` with an error
-- value, `panicked` where Rust panics, or `stuck` where the model's fuel is out.
--
-- Fuel. The closing loop of a FIFO book runs on one more than the number of lots, since each round
-- but the last pops a lot or uses up the amount. The loops of apply_margin and apply_futures run on
-- two more than the length of the queue they consume, for the same reason.
--
-- Not modelled: SQL, HTTP, the exchanges' clients, the command-line jobs and the frontend, which are
-- I/O around these parts.
pub mod Base
pub mod Float
pub mod Fifo
pub mod Matching
pub mod AccountRisk
pub mod Auth
pub mod Cleanup
pub mod Dispatch
pub mod FrLimits
pub mod Pnl
