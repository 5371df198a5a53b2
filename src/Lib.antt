-- ===== src/Lib.antt =====
-- Verification library of augur-node.
--
-- augur-node follows the contracts of Augur on an Ethereum chain and keeps what they did in an SQL
-- database. A block stream hands it blocks and logs; src/blockchain/block-and-logs-queue.ts pairs
-- them, src/blockchain/process-block.ts writes each block and its logs in one transaction, and one
-- processor per kind of log (src/blockchain/log-processors) changes the tables. A block that leaves
-- the chain is taken back by the removals of its logs. Amounts are computed with
-- src/utils/dimension-quantity.ts and src/utils/financial-math.ts.
--
-- Files:
--   Prelude        shared names, results of calls that may throw, whole numbers, and the queries and
--                  updates of a table with their laws
--   BigNumber      the package bignumber.js as a record of operations and laws; whole numbers are an
--                  instance of it
--   Quantity       src/utils/dimension-quantity.ts: Quantity with its classes, expect, safePercent
--   FinancialMath  src/utils/financial-math.ts, one definition for each exported formula
--   Database       the rows of src/types.ts that the code below uses, emitted events, and writes that
--                  may throw
--   Tokens         src/blockchain/log-processors/token/*.ts and tokens-transferred.ts
--   BlockQueue     src/blockchain/block-and-logs-queue.ts
--   MarketStates   src/blockchain/log-processors/database.ts: market states and fee windows
--   Blocks         src/blockchain/process-block.ts and log-processors/timestamp-set.ts
--   Orders         src/blockchain/log-processors/order-created.ts, order-canceled.ts,
--                  order-filled/update-order.ts, and the rounding of src/utils
--   ProfitLoss     src/blockchain/log-processors/profit-loss: frozen funds, updateProfitLoss
--   OrderBook      src/utils/simulated-order-book.ts: taking the best orders of one side
--   Reporting      the processors of reporting and market logs in src/blockchain/log-processors:
--                  market-*.ts, initial-report-*.ts, crowdsourcer.ts, universe-*.ts, fee-window-*.ts,
--                  reporting-participant-disavowed.ts, and the rest of database.ts
--   Trades         src/blockchain/log-processors/order-filled/index.ts, update-volumetrics.ts,
--                  completesets.ts, the open interest of category-aggregations.ts, and the claims of
--                  proceeds (trading-proceeds-claimed.ts)
--   Dispatch       src/blockchain/log-processors/index.ts, src/blockchain/process-logs.ts, and the logs
--                  of a block in process-block.ts
--   ProfitSeries   src/server/getters/get-profit-loss.ts: buckets of time, the rows that are the latest
--                  at them, the results of a market and their sums
--
-- How the code is read. A function of the source has the name that it has there, in snake case. A
-- table is the list of its rows in the order of insertion; a query is a filter, an update, a
-- deletion or an insertion on that list, which stands for the SQL that Knex sends. A join on a
-- unique column is a lookup. A handler is a function from the tables, the emitted events and the
-- clock to a result or an error and the new state: what was written before an error stays until
-- `transaction` takes it back, and emitted events are never taken back. Addresses, hashes and
-- identifiers are only compared, so they are natural numbers; numerals in logs and blocks are read
-- as numbers. Times are natural numbers, and a comparison with a difference of times is written
-- with a sum on the other side. Every loop goes once over a list, but for the loop of
-- `bucketRangeByInterval`: its fuel is one more than the length of the range, and its theorem shows
-- that this is enough. Rows that several results share are kept once, and the results refer to
-- them, since the source changes them in place.
--
-- Parameters. BigNumber is a record of the operations of bignumber.js with the laws that its
-- documentation states; division is the inverse of a product only for quotients that have no more
-- than DECIMAL_PLACES decimal places, NaN and the infinities are not among its numbers, and the sign
-- of zero is open. OrderNumbers has the conversions of augur.js, toPrecision and integerValue, and
-- the constants of src/constants.ts, without laws. The addresses of the legacy reputation token and
-- of the universe and the duration of designated reporting are arguments. Chain has what the
-- processors ask the contracts and the node for; where a processor asks before the transaction, the
-- answers are the same values.
--
-- Not modelled: liquidity metrics, the search index, the constraints of the tables but for the key
-- of markets, the key and the check of transfers, the check of a balance and the checks of the
-- amounts of an order, the other getters of src/server, the synchronisation with the node, backups,
-- migrations and the servers. `updateLiquidityMetricsForMarketAndOutcomes` is an argument where the
-- removals of orders and of fills call it. The worker of the queue is that of the package async.
pub mod Prelude
pub mod BigNumber
pub mod Quantity
pub mod FinancialMath
pub mod Database
pub mod Tokens
pub mod BlockQueue
pub mod MarketStates
pub mod Blocks
pub mod Orders
pub mod ProfitLoss
pub mod OrderBook
pub mod ProfitSeries
pub mod Reporting
pub mod Trades
pub mod Dispatch
