-- ===== src/Lib.antt =====
-- ProxyPulse finds public proxies, checks them, and keeps a rolling pool of those that work. This
-- library models the logic of the worker, of the code it shares with the gateway, and of the adapter
-- for the checked service, and proves what makes it correct.
--
-- Each module stands for a source file, by its path from the root of the repository:
--   Ip           shared/src/ip.ts: Ipv4 is parseIpv4, Ipv6 is parseIpv6, Classify is classifyV4 and
--                classifyV6Bytes, Inspect is inspectAddress, isProxyEndpointAllowed and
--                isMetadataHostname. Ipv6.Printed, Ipv6.Doubles and Ipv6.RoundTrip are about the
--                written forms of an IPv6 address. Text is the part of the JavaScript strings that they use.
--   Queue        worker/src/queue/types.ts and worker/src/queue/memory-queue.ts: isProxyJob, send, sendMany
--                and consume, as functions from the backlog to the backlog. Cloudflare is the driver of
--                worker/src/queue/cloudflare-queue.ts, with consume in Cloudflare.Consuming.
--   Concurrency  shared/src/concurrency.ts: Retry is attemptWithRetry, Pool is mapWithConcurrency as a
--                step relation, TokenBucket is the class of that name, Mutex is createMutex.
--   Scoring      shared/src/scoring.ts, over the interface Numbers of floating-point numbers.
--   Types        the enumerations of shared/src/types.ts.
--   Db           the rows of db/src/types.ts, and in Sweeps the updates of db/src/repositories/proxies.ts that
--                end a cycle, on a table given as a list of rows; Writes has the claims of a cycle and the
--                writes of its results, Queries what a cycle reads and how candidates are stored.
--   Manager      worker/src/pool/manager.ts: planValidation turns outcomes into status changes by the
--                score, planService adds the service's verdict, finalize runs the sweeps.
--   PoolQuery    shared/src/pool.ts: parsePoolQuery and weightedRandomPick.
--   Proxy        shared/src/proxy.ts: Entry is parseProxyEntry, with its division of
--                the text in Layout, Lists is dedupeKey and parseProxyList, and Identity is dedupeKeyHash,
--                formatProxyRedacted and endpointFromRecord.
--   Robots       shared/src/robots.ts: parseRobots, pathMatchesPattern, decidePath, evaluateRobots.
--   Crunchyroll  services/crunchyroll/src/rules.ts (Rules) and services/crunchyroll/src/scorer.ts (Scorer, with
--                the circuit breaker in Scorer.Breaker). Checker is services/crunchyroll/src/checker.ts, and
--                Checker.Running has its checks in flight together, and Checker.Running.Alone a check
--                with no other in flight.
--   UrlPolicy    shared/src/url-policy.ts: checkUrlPolicy, hostIsLiteralIp and originOf.
--   Cycle        worker/src/pipeline/cycle.ts: Cycle is the state of a cycle and its awaited calls, Stages,
--                Validating and Serving are the stages of runCycle, Running is the rest of it, and External
--                is handleExternalJob. What they read is in Db.Queries; the rows of the cycles
--                (db/src/repositories/cycles.ts) are in Records.
--   Net          worker/src/net/safe-lookup.ts (Lookup), worker/src/net/stream-buffer.ts (Stream) and worker/src/net/socks.ts (Socks): a step reads what a
--                socket delivers, and returns a result or an error with the state of the stream.
--   RateLimit    api/src/rate-limit.ts: checkRateLimit over a KV namespace, with what the clock says at
--                a call as an argument. Window is about runs of calls, Refusals about a single one.
--   Scheduler    worker/src/pipeline/scheduler.ts: RefreshScheduler as a machine over events.
-- Prelude holds the library names, the Boolean tests and the list lemmas that all of them share.
--
-- State is passed explicitly: an operation of a class takes the record of its fields and returns the
-- new one. What an await lets happen in between is a list of events or a step relation. A number is a
-- natural number where the source only counts or keeps milliseconds; the token bucket counts in parts of
-- a token so small that its refill per millisecond is a whole number. Where the source computes with
-- fractions, the number type is the parameter Number, whose named laws are those of comparison, minimum,
-- maximum and rounding that the bounds need, for whole numbers up to 2^53; Numbers.Thousandths shows
-- that they can hold. They leave room for a NaN, so a bound says that a number is not beyond it.
--
-- Of the KV namespace nothing is assumed. What is said of a run of calls of the limiter holds of the
-- runs in which every read is up to date; the real namespace may answer with an older value.
--
-- Three loops run on fuel. consume of the memory driver takes one unit per round of its loop; more units
-- than the deliveries that the waiting jobs can still cost are enough, as every round delivers at least one
-- job. That of the Cloudflare driver takes one per pull; with a budget of jobs, more units than it are enough for a drain. take takes one per
-- round of waiting; more than the missing parts are enough, as every pause lets at least one be refilled. All
-- other loops are structural.
--
-- Code that is not in the repository is a parameter: the handler of a job, the task of a retry, the KV
-- namespace with get and put, the server of the durable queue, the UTF-8 encoding, decodeURIComponent,
-- new URL, Number, String and Date.parse of the runtime, the answers of DNS, the random jitter and the clock. Case mapping is the one of ASCII.
--
-- A refresh cycle is given which of its awaited calls reject, and with which table left behind, the
-- outcome of the discovery and of each check over the network, the jobs that the queue completes, and the
-- statistics; its parts that are modelled are composed as the source composes them.
--
-- Not modelled: sockets, TLS and the HTTP reader of worker/src/net, the HTTP surfaces and the JSON
-- views, the queries and migrations of the database other than the sweeps, those reads and those writes,
-- discovery, the durations in the reports, configuration from the environment, logging, and timers of the host (sleep, withTimeout). Of the scheduler, status, the
-- bounded wait of stop and the metadata writes are left out; of the service checks, the requests
-- themselves and the policy for the probe URL.
pub mod Prelude
pub mod Text
pub mod Types
pub mod Numbers
pub mod Ip
pub mod Queue
pub mod Concurrency
pub mod Scoring
pub mod Db
pub mod Manager
pub mod Robots
pub mod Crunchyroll
pub mod RateLimit
pub mod Scheduler
pub mod Net
pub mod Proxy
pub mod PoolQuery
pub mod UrlPolicy
pub mod Cycle
