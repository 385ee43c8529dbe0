-- ===== src/Lib.antt =====
-- Verification of the portfolio tracker "wealth": the parts of its Go backend that compute, without
-- HTTP, the third-party clients and, but for the import, SQL.
--
-- Prelude: shared names, tests, lists, texts (a Go string is its list of code points; case and white
--   space follow package `unicode` below code point 256), maps (association lists, in the order
--   in which a loop ranges over them), and `float64` as an interface: `Prelude.Float` names the
--   operations, `Prelude.Float.Order` the laws of IEEE 754 that a theorem may assume, among numbers
--   (`IsOrdered`) or of all values, NaN included (`IsIeee`), and the definitions run on
--   `Prelude.Float.Fixed`, numbers with eight decimals, and on `Prelude.Float.Nan`, the same with a NaN.
-- Transaction: the tags of the column transactions.type.
-- Auth.Limiter: internal/auth/ratelimit.go; `allow`, `record_failure`, `reset` are `Allow`,
--   `RecordFailure`, `Reset`, with the clock as an argument.
-- Auth.Token, Auth.Decimal: the session tokens of internal/auth/auth.go. The HMAC is a parameter. A
--   decimal is printed with fuel above its value, which is more rounds than it has digits.
-- Auth.Secrets: internal/auth/crypto.go, over AES-GCM and base64 as parameters.
-- Handler.Users: internal/handler/users.go over the table of users; `handle` is all handlers that
--   change it, each with its guard. Handler.Login: `HandleLogin` of internal/handler/auth.go, which
--   asks the limiter, the users and the ciphers, and signs the cookie, and `AuthMiddleware`. bcrypt,
--   one-time codes, which depend on the time, and uuids are parameters (`Services`).
-- Handler.RateLimit: internal/handler/ratelimit.go; `allow` is `Allow`, `clean` a round of the
--   background goroutine.
-- Cashflow: internal/cashflow/classifier.go; `classify`, `bucket_of`, `resolve_category`.
-- Analytics: internal/analytics; `Attribution` is classify.go, `AverageCost` and `RealizedPl` are
--   `CalculateRealizedPL` of portfolio.go, `InKind` is inkind.go, and `Tax` is tax.go with one module
--   for each of its functions: `Summary`, `Lots`, `LossPots`, `Sell`, `Vorabpauschale`.
-- Analytics.Exposure: decomposition.go, currency.go, and the overlap and the alerts of portfolio.go.
-- Analytics.Performance, Analytics.Risk: performance.go and risk.go; the rounds of `newton` and
--   `bisect` are the bounds of the loops in the source, and a window of `rolling_from` has at most
--   as many points as there are returns. `math.Pow` and `math.Sqrt` are parameters.
-- Parser: internal/parser; `Fields` is german.go, `Rows` has the transactions and the loop over rows
--   that the readers share. N26, Sparkasse, Scalable, Ing, Revolut, WealthExport,
--   HoldingsTemplate and Delta are the files of these names, `Assets` is classify.go. What
--   `strconv.ParseFloat` and `time.Parse` read is a parameter, and so is encoding/csv (`Csv`); the
--   search of `ParseCSV` for a delimiter and a reader is not modelled.
-- Handler.Import: `insertTransactions` of internal/handler/import.go over two tables, with the
--   queries of internal/database/queries.sql written out. Handler.Export: the file
--   that `HandleExportTransactions` of internal/handler/settings.go writes.
-- Handler.Rebalance: `computeRebalanceTrades` of internal/handler/portfolio.go.
-- Handler.Portfolio: the tax on a switch, the correlation and the benchmark of
--   internal/handler/portfolio.go.
-- Handler.Cashflow: `computeMedians` of internal/handler/cashflow.go.
-- Market: `LookupRateForDate` of internal/market/ecb.go.
-- Scheduler: the choice of channels in `dispatchMessage` of internal/scheduler/dispatch.go.
-- Scheduler.Backfill: `BackfillNetWorthSnapshots` of internal/scheduler/jobs.go from the loaded rows
--   on: the binary searches in the price histories (`History`; as many rounds as there are points
--   are enough), the pairs of transfers left out (`Transit`) and the days' snapshots (`Replay`).
-- Scheduler.Alerts, Scheduler.Insurance: `evaluateAlerts` and `checkDepositInsurance` of jobs.go.
-- Examples: runs of the definitions, and the theorems at concrete inputs.
--
-- Not modelled: HTTP, SQL but for the queries of an import and of the users, the clients for Yahoo,
-- the ECB and justETF, generated code, the handlers that only query and print, the jobs that fetch,
-- and the start of the program. Each method that holds a mutex is one step.
pub mod Prelude
pub mod Transaction
pub mod Auth
pub mod Cashflow
pub mod Analytics
pub mod Handler
pub mod Parser
pub mod Market
pub mod Scheduler
pub mod Examples
