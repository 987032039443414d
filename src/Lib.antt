-- ===== src/Lib.antt =====
-- firecrawl-lb, a load balancer that spreads Firecrawl API requests over a pool of accounts.
--
-- A client's request passes the admission layers, is priced, is routed to an account that can serve
-- it, is sent to the upstream with that account's key, and its outcome is written to the database:
-- credits, cooldowns, broken keys, a log, and for crawls and batches a job that later polls settle.
--
--   Firecrawl.Usage         app/modules/firecrawl/usage.py, the price of a request
--   Firecrawl.Models        app/modules/firecrawl/models.py, accounts as the router sees them
--   Firecrawl.Routing       app/modules/firecrawl/routing.py, select_account
--   Firecrawl.Records       app/db/models.py, the tables, and all of them as one database
--   Firecrawl.Repository    app/modules/firecrawl/repository.py, the queries and the updates
--   Firecrawl.Client        app/modules/firecrawl/client.py, requests and responses
--   Firecrawl.Service       app/modules/firecrawl/service.py, proxy, submit_job and
--                           proxy_job_operation, on the modules above
--   Firecrawl.Refresh       app/modules/firecrawl/refresh.py, the leader's periodic refresh
--   Firecrawl.Admin         app/modules/firecrawl/admin_service.py and its schemas, the
--                           operations of the dashboard on accounts, keys, jobs and logs
--   Resilience.Breaker      app/core/resilience/circuit_breaker.py
--   Resilience.RetryBudget  app/core/resilience/retry_budget.py
--   Resilience.Overload     app/core/resilience/overload.py and app/core/errors.py
--   Resilience.Bulkhead     app/core/resilience/bulkhead.py and backpressure.py
--   Resilience.InFlight     app/core/middleware/inflight.py and app/core/shutdown.py
--   RateLimiter             app/core/rate_limiter/db_rate_limiter.py
--   LeaderElection          app/core/scheduling/leader_election.py
--   CacheInvalidation       app/core/cache/invalidation.py
--   Firewall                app/modules/firewall/service.py and repository.py,
--                           app/core/middleware/firewall_cache.py and api_firewall.py
--   DashboardAuth           app/modules/dashboard_auth/service.py, repository.py and api.py, the
--                           login; app/core/auth/totp.py in Totp, dashboard_mode.py and
--                           dependencies.py in Access, app/core/bootstrap.py in Bootstrap and
--                           app/core/request_locality.py in Locality
--   Decompression           app/core/middleware/request_decompression.py
--   Release                 scripts/release_versions.py
--
-- Each module has the source's types and functions under the source's names (a leading underscore
-- dropped), and child modules with what is proved of them. Prelude has the shared helpers, Json the
-- parsed bodies, Tests the theorems at concrete inputs.
--
-- How the code is modelled. Python's integers are Z, counts are natural numbers, an instant is a
-- number of microseconds (of seconds for the monotonic clock of the breaker and the budget) and is
-- an argument of every function that reads a clock. Whether a datetime carries a time zone is not
-- modelled. The scores of the router are floats: a record of operations with the laws of the
-- comparisons that hold of IEEE doubles. The division limit / 10 of a search's price is exact here,
-- as it is in Python below 2 ^ 53. strip, lower and int read ASCII. An exception is the absence of
-- a result. The upstream is a function from requests to optional responses, the decryption of keys
-- one from texts to optional texts. The database is a record of tables; a request that raises leaves
-- it as it was, since nothing is committed. A status column holds the values that the program
-- writes; columns that the database fills by itself are left out.
-- Where calls overlap, code between two waits of the event loop is one step and the overlapping calls
-- are interleavings of such steps: so for the breaker, the bulkhead, the in-flight count, the
-- firewall's cache, and the requests for one job, which read the job, wait for the upstream and go on
-- with what they read (Firecrawl.Service.Polls). The settings that a login reads and the settings row
-- at the time it writes are separate arguments, so that what a concurrent request wrote in between is
-- any row. A proxied request, a submitted job, an operation of an administrator and a pass of the
-- refresh are one step each, from the reading of the database over the answers of the upstream to
-- the commit: what another request writes to the accounts in between is not modelled. Logs stand in
-- the order in which they are written, for requested_at.
--
-- Loops are structural, with two exceptions on fuel. A read loop of Decompression has one round
-- for each byte up to max_size and two more (a loop that also consumes input, one for each byte of
-- input as well), which is enough because a round adds a byte, consumes one or is the last, and the
-- loop raises past max_size. Release.decimal writes n with fuel n, which is enough because a
-- quotient by ten is smaller.
--
-- Not under src/, and so arguments of the definitions that use them: bcrypt (hash and check), Fernet
-- (an interface of seal and open with the law that open undoes seal), the HMAC of a one-time
-- password, SHA-256, the decoders of gzip, deflate and zstd, the parser of addresses (from texts to
-- optional normal forms), the parser of dates, the names of fresh rows and tokens. The classes \d
-- and str.isdigit read ASCII digits.
--
-- Not modelled: the FastAPI routes of the Firecrawl and firewall APIs, settings, migrations,
-- metrics, tracing and logging, which are glue or I/O; the degradation state, the memory monitor and
-- the retry client; the repository's own tooling, and of the release scripts all but the versions.
pub mod Prelude
pub mod Json
pub mod Firecrawl
pub mod Resilience
pub mod RateLimiter
pub mod LeaderElection
pub mod Firewall
pub mod CacheInvalidation
pub mod DashboardAuth
pub mod Decompression
pub mod Tests
pub mod Release
