-- ===== src/Lib.antt =====
-- glitchgate: a proxy that sends the requests of several model APIs to configured providers, with
-- fallbacks, limits per key, circuit breakers, and accounts of what each request costs.
--
-- A request passes these parts in order. Scope/Keys (internal/proxy/auth_middleware.go) finds its
-- key. KeyLimit (internal/proxy/key_rate_limiter.go) applies a limit per key over the global
-- token bucket of RateLimit (internal/ratelimit/limiter.go); Gate
-- (internal/proxy/request_security.go, cmd/serve.go) is the chain of the address limit, the key
-- and its limits. ModelAccess (internal/proxy/model_checker.go) asks the key's allowlist, and
-- Budget (internal/proxy/budget.go) its spending limits. Config (internal/config/config.go,
-- discovery.go) turns the model's name into a chain of targets: Names has the wildcards, Chains
-- the validation and flattening at startup, Lookup the questions asked per request, Providers and
-- Discovery what fills the lists. Pipeline (internal/proxy/pipeline.go and result.go) tries the
-- chain's targets in order, asking the breaker of each provider (Breaker, Breaker/Registry:
-- internal/circuitbreaker), writes the response and hands one entry to the logger, whose cost is
-- Pricing's (internal/pricing/calculator.go) and whose bodies pass Bodies
-- (internal/proxy/redact.go and result.go). Logger (internal/proxy/logger.go) is the queue
-- between the requests and the store. Stream (internal/proxy/stream_relay.go, stream_tokens.go
-- and stream_synth.go) relays an upstream's events to a client that streams, or makes them of a
-- whole response. Billing (internal/web/billing/billing.go) prices the logged usage for display,
-- and Scope/Visibility (internal/web/scope.go) says whose usage a session sees.
--
-- Translate (internal/translate) takes a request or a response of one protocol to another's by
-- way of a canonical form, Translate/Canonical (canonical.go). Values, Stops, Effort and ToolIds
-- have what the forms share (helpers.go), Anthropic and Openai the two ways between the canonical
-- form and those of the two APIs (canonical_anthropic.go, canonical_openai.go, and the types of
-- internal/provider), and Delegations their compositions (delegations.go). A text is there the
-- list of its bytes, a value of type any a value of a data type for what package json decodes.
--
-- Export and Import (internal/store/export.go) are the two sides of a backup: the text of its
-- literals, lines and header, and the batches that reading it hands to the workers. Import/Insert
-- has the statement that a batch becomes, Import/Workers what a worker does with a job and
-- Import/Pool the pool, whose steps Tally, Waited and Progress are about.
-- The text is read after it is decompressed, by a scanner with room for lines of 10 MB
-- (Import/Scan).
--
-- A method is the function of the same name in snake case, on the record of its receiver's fields:
-- it takes the state and gives back the result and the state after it. Methods that run under one
-- mutex are atomic steps, so an interleaving is a list of calls; the goroutines of Logger and of
-- Import/Pool are step relations, whose runs are the interleavings. The time is an argument, a
-- reading of the clock in nanoseconds. A map is a lookup function (Prelude/Maps), an error a
-- constructor or none. Prelude has the names that the parts share. Tests runs the definitions at
-- concrete inputs.
--
-- Amounts that are float64 in the source are exact: a rate is a number of units, and a token of a
-- bucket is 60 * 10^9 units, so that refilling per nanosecond is multiplication. Counters are
-- unbounded, but for the logger's and for the sums of token counts in Translate, which wrap at 64
-- bits. The two recursions of Config/Chains run on fuel, one more than the number of models: a
-- walk marks every model on its way down and stops at a marked one, so it is never deeper, and
-- the flattening goes no deeper than that walk has shown to be possible.
--
-- Parameters of the definitions are: the database, the hash of a key, filepath.Match, os.Stat,
-- time.Date, package json, net/http's reading of a body, what an upstream returns, and the
-- handlers' route builders. Not modelled are the handlers, the translations of streams and those
-- of the Responses API and of Gemini, the stores' SQL, the web pages, sessions, metrics, startup
-- and the command line. The import of a backup takes what its pool reports as a parameter.
pub mod Prelude
pub mod Breaker
pub mod RateLimit
pub mod KeyLimit
pub mod ModelAccess
pub mod Pricing
pub mod Billing
pub mod Config
pub mod Bodies
pub mod Budget
pub mod Scope
pub mod Translate
pub mod Export
pub mod Import
pub mod Logger
pub mod Stream
pub mod Gate
pub mod Pipeline
mod Tests
