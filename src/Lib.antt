-- ===== src/Lib.antt =====
-- Verification of AirLLM, a gateway that sends requests for language models to the providers behind
-- an alias, tier after tier.
--
-- Breaker (internal/breaker/breaker.go): the circuit breaker of one tier of an alias. `Machine` has
-- what the closures of `admit`, `Record` and `AbandonProbe` do to one stored `record`, `Stores` the
-- `memStore` and the `redisStore` with `useRemote`, `load` and `update`, `Ops` the methods of
-- `Breaker`. Redis is a map beside an `Access`, which says what Redis answers at each command and
-- which transactions lose their race to a write of another replica or are carried out unheard; the JSON
-- codec is a parameter.
-- Unavail (internal/unavail/unavail.go): the marks on a provider's model that has failed.
-- Affinity (internal/affinity/affinity.go): the tier that a client's session is pinned to, in this
-- process and in Redis, by the script that only moves a session to a later tier; `Uses` is what a
-- replica does with its pins after one of them.
-- Routing (internal/routing/routing.go): the plan of an alias and the order in which a request tries
-- its targets, `(*Plan).Ordered`, under each of the three strategies.
-- Providers (internal/providers/errors.go and provider.go): the classes of a call's failure, and the
-- slots of a provider with a limit on concurrent calls.
-- Login (internal/auth/ratelimit.go): the lockout of a username after failed logins.
-- Dlp (internal/dlp/dlp.go): the search for secrets in a text, the merging of what is found, and the
-- text with the secrets cut out.
-- Limits (internal/limits/limits.go, and the calls of exec.go): caps on a key's use in rolling windows,
-- with headroom reserved while a request runs.
-- Lookups (internal/lookupcache/lookupcache.go): answers of the database kept in memory; a `Get` is
-- the steps `look`, `store_answer` and `conclude`, between which other requests and purges run.
-- Speech (internal/speechcache/speechcache.go): clips kept in Redis or in the process.
-- Pricing (internal/pricing/pricing.go): the table of prices and what a call costs; `Prints` is about
-- what its fingerprint is made of.
-- Modelpool (internal/modelpool/pool.go): the endpoints that a hostname resolves to, and the pick.
-- Messages (internal/anthropic/stream.go and codec.go): an answer streamed as the events of
-- Anthropic's Messages API, `Reader` the protocol that a client reads them by, and `Requests` a
-- request checked and decoded, `Codec` the conversion of its messages;
-- `Writes`, `Accepts`, `Decodes` and `Conversions` prove.
-- Failover (internal/httpapi/failover.go, tier_breaker.go, session_affinity.go, exec.go): `Policy` has
-- the settings and the verdicts on a failure, `Runs` the variables of `executePlan`, `Walk` the
-- function. What it calls of the other parts is the record `Gateway`, operations on a state of the
-- world; `Protocol`, `Floor` and `Report` prove what holds of a request whatever these operations are,
-- from the rule of `Invariant`; `Attempt` is the race of a call with its budget, `runAttempt`, as a step
-- relation; `Session` has `sessionFloor` and `pinSession` around it.
-- Tests: each claim at a concrete input, and runs of the modelled functions.
--
-- Numbers. A time is in nanoseconds since the Unix epoch, a duration in nanoseconds, both natural
-- numbers; records keep Unix milliseconds, rounded down as the source does. Counters are natural
-- numbers without a bound: they count requests. float64 is an interface, `Base.Float`, of which the
-- claims on the `lcr` order use that its comparisons are a strict weak order, as away from NaN. The
-- sums of a key's use are whole numbers, `Base.Ints`, without the bounds of int64. A Go string that
-- is cut into bytes is `Base.Bytes`.
--
-- Bounds and fuel. `redisStore.update` makes `update_attempts`, 5, transactions as the source does;
-- `rounds` makes `busy_retries` + 1, 5, rounds; the doubling loop of `trip` is bounded by the trips;
-- the loop over runs of ties has the number of targets as fuel, of which a turn uses one at least.
-- `lock_key` makes `lock_retries`, 5, attempts; `pick_from` takes one turn for each endpoint.
--
-- Not modelled: the expiry in Redis of a breaker's record (its `ttl`); metrics and log
-- lines; a mutex-protected section is one step, and so is a pipeline of Redis commands. `executePlan`
-- takes the attempt it makes, with the race inside, as the operation `call` of a `Gateway`: the success
-- of a call that commits output is recorded when that step is over, and before its slot is free. Regular
-- expressions, SHA-256, the bits of a float64, URLs, runes and logarithms are parameters, as what Go's library answers. The
-- database, the vendors' protocols and clients, authentication but for the login limiter, the model
-- layer of the search for secrets, the console and deployment.
--
pub mod Base
pub mod Breaker
pub mod Unavail
pub mod Affinity
pub mod Login
pub mod Dlp
pub mod Limits
pub mod Lookups
pub mod Speech
pub mod Pricing
pub mod Modelpool
pub mod Messages
pub mod Routing
pub mod Providers
pub mod Failover
pub mod Tests
