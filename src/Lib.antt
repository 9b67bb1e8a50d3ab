-- ===== src/Lib.antt =====
-- Optix: the market clock, the three journals, the shock reports, the portfolio, the scheduler, the
-- brokers and the choice of the database.
--
-- Optix is a personal trading assistant. Its Go program reads quotes and executions from a broker
-- (IBKR, or Yahoo Finance where that fails), keeps them in SQLite, and serves reports to a command
-- line and a web interface. This development models the parts that decide something by themselves;
-- they share only the data types, so each part stands in its own tree of modules:
--
-- Journal: internal/journal/matcher.go. `match_round_trips` is MatchRoundTrips: it groups the
--   executions by PermID (Journal/Groups, groupByPermID), keeps the combination rows of a group
--   (enrichBAGFromLegs), groups by instrument, and runs `match_group` (Journal/Match, matchGroup) on
--   each, which closes lots first in, first out and ends with emitOpen. Journal/Types holds
--   Execution and RoundTrip (pkg/model/account.go, round_trip.go). Journal/Fifo is the
--   specification of the matching, a queue of single shares.
-- Intel: internal/intel/calendar.go is Intel/Calendar, internal/intel/phase.go is Intel/Phase
--   (PhaseAt, NextTransition, dayBoundaries, ViewFor), internal/intel/view_resolver.go is
--   Intel/Views, internal/intel/checkpoints.go is Intel/Checkpoints, and internal/intel/scorer.go is
--   Intel/Score. Intel/Judgments is the journal of internal/intel/journal.go over its three tables
--   (internal/datastore/sqlite/intel_journal.go, migrations/006_intel_journal.sql):
--   Judgments/Write is WriteNarrative and RegisterJudgment, Judgments/Settle is Reconcile, and
--   Judgments/Read is ReadJournal and Status.
-- ShockIntel: internal/shockintel. ShockIntel/Cache is source_cache.go: Cache/Ttl is ttlMarketCache
--   with its shared flights (Cache/Fetch), Cache/Bundle is bundleMarketCache.
--   ShockIntel/Liquidity is liquidity.go, ShockIntel/Regime is regime.go, which reads the rows of the
--   liquidity, ShockIntel/Fingerprint is fingerprint.go, ShockIntel/Analogs is analogs.go, and
--   ShockIntel/Types is dto.go. ShockIntel/Service is service.go: the four reports, and Bundle, which
--   reads them through one bundle cache.
-- EventIntel: internal/eventintel/diff.go. EventIntel/Sentences splits and normalizes a text,
--   EventIntel/Diff is BuildStatementDiff.
-- DataHome: internal/datahome. DataHome/Resolve is paths.go, the choice of the database;
--   DataHome/Migrate is migrate.go, as the steps of Migrate on the files.
-- ScanJournal: internal/scanjournal. Register is ScanJournal/Register, settleCandidate is
--   ScanJournal/Settle, Reconcile and hitRateAll are ScanJournal/Reconcile, Stats is
--   ScanJournal/Stats; the two tables that they read and write
--   (internal/datastore/sqlite/scan_journal.go, migrations/008_scan_journal.sql) are
--   ScanJournal/Store.
-- WebUi: internal/webui/broker_pool.go. WebUi/Slot is one pooledConn with its backoff and its
--   health check; WebUi/Pool is brokerPool, whose goroutines are cut at the operations on the
--   channel `avail`: an event of `fire` is one such piece, and `Reachable` is any sequence of them.
-- Broker: internal/broker. Broker/Fallback is FallbackBroker (fallback.go), with its Connect and the
--   methods that it passes on. Broker/Ibkr is IbWrapper (ibkr/wrapper.go): Broker/Ibkr/Quote is
--   pendingQuote with its ticks, Broker/Ibkr/Pending the other requests, Broker/Ibkr/Wrapper the
--   maps of requests, Wrapper/Callbacks and Wrapper/OptParams the callbacks that bring data, and
--   Wrapper/Routing Error; Broker/Ibkr/Connect is the choice of client identifiers with
--   runClientIDAttempts (ibkr/client.go).
-- Portfolio: internal/portfolio. Of concentration.go, Portfolio/Rollup is the first loop of Compute,
--   with FallbackNLV; Portfolio/Report is Compute with its sectors and flags; Portfolio/Money is
--   fmtMoney. Portfolio/Greeks is the aggregation of AggregateGreeks (greeks.go). Portfolio/Stress is
--   stress.go: the shocks of a key, and in Stress/Run the two tests, RunStressWithBetaProvider over
--   the groups of that aggregation and RunStressWithRepricing over its legs.
-- Scheduler: internal/scheduler. Scheduler/Jobs holds the tables of the watchlist and of the jobs
--   (internal/datastore/sqlite/sqlite.go), Scheduler/Batch is generateBatch with batch.go,
--   Scheduler/Worker is a worker's execution with its retries, and Scheduler/Run puts them together:
--   the ticker, the workers and the timers of the retries as events on the channel of tasks.
-- Model: NormalizeCurrency of pkg/model/currency.go, and USMarketSession of pkg/model/quote.go.
-- Base: Boolean tests, lists, integers, texts, civil dates and the stable sort, for all of these.
--
-- Numbers. Amounts that the program keeps as float64 (prices, strikes, cash) are integers in a fixed
-- smallest unit, so rounding is left out; a quotient is a numerator over a denominator. Share counts
-- are natural numbers. A time of the market clock is a number of seconds of New York wall-clock
-- time, so the days of a change to or from daylight saving time count as whole ones: the changes
-- come on a Sunday, when the market is closed. The pool's times are nanoseconds, the scheduler's
-- seconds. No machine integer comes near its bound in this code, so none wraps around. A float64 that
-- a broker sends may be NaN or infinite, and is then kept as such: `Mark` in the portfolio, `Float` in
-- the ticks. The shock reports are in thousandths of a point or of a percent, and their quotients are
-- cut to that unit. A text is its list of code points; ToUpper is the ASCII one.
--
-- Parameters. Go walks a map in an order of its own: the two walks of the matcher take theirs as
-- functions with the hypothesis that they rearrange, and so do the four of the concentration report
-- and sort.Slice in the statistics; the walk of the scheduler's groups is any function. The daily
-- bars of a reconciliation, which accesses of its database fail, what the broker factory and the two brokers answer, when a broker drops,
-- what the shock and the event service answer, how a worker's reading, fetch and writes fare, ibapi's
-- UNSET_FLOAT and Go's conversions of a float to an integer are parameters as well. So are new
-- identifiers, the table of assets, the quotes and the bars of the intel journal, what the store
-- answers to it, what a market source and the context of a call answer to a cache, which errors are
-- interruptions, and what the file system and SQLite answer to the choice and the migration of a
-- database, with what a failed removal leaves of its stage, and what the pricer answers to a stress test.
--
-- Bounds. The loop of NextTransition runs over fourteen days, as in the source; that they are enough
-- follows from the calendar, which has a trading day among any thirteen. All other loops are
-- structural; the digits of an amount are taken with one more than the amount as fuel, which a theorem on
-- reading them back shows to be enough.
--
-- Left out: the HTTP and gRPC handlers, the command line, the other SQL, the requests of the broker
-- clients, the timeouts of the pool's dials and of its close, the throttle of the workers, the pricing
-- of the portfolio's legs, the sources of the shock service, the event service but for its comparison
-- of statements, the session services, and the pulse of the market data. They are input and output,
-- glue, or assemble what they read from the network.
-- An execution of a worker is one event: two that overlap write different rows of the job table.
pub mod Base
pub mod Broker
pub mod Model
pub mod Journal
pub mod Intel
pub mod ScanJournal
pub mod Portfolio
pub mod Scheduler
pub mod DataHome
pub mod EventIntel
pub mod ShockIntel
pub mod WebUi
