-- ===== src/Lib.antt =====
-- A verification library for an OpenAI-compatible AI serving backend: a FastAPI service that
-- authenticates a caller, limits its rate, checks a chat request against a content policy, masks
-- personal data, passes the request to OpenAI or Anthropic, streams the answer, and audits it.
--
-- The parts, and the modules that model them. A path is from the repository's root; a definition has
-- the name of the function that it models, a record that of the class, with an acronym as one word.
--   Streaming   app/streaming.py: StreamConcurrencyLimiter; History has runs of its calls.
--   RateLimit   app/ratelimit: Spec is the token bucket, Memory the in-memory backend, Redis the Redis
--               backend with its Lua scripts, Enforce the dependency.
--   Auth        app/auth.py, app/auth_jwt.py: API keys and scopes; Require has JWT principals and the
--               dependency that lets a request in.
--   Net         app/net.py: the client's address behind proxies.
--   Middleware  app/middleware.py: the limit on bodies, the limit on failed logins.
--   Errors      app/errors.py: exceptions and the handlers that answer for them.
--   Request     app/normalized.py, and what the handlers keep on request.state.
--   Schemas     app/schemas.py: validators and conversions.
--   Policy      app/compliance/filter.py: the content rules.
--   Pii         app/compliance/pii.py: detection; Mask has the masking, Placeholders the numbers of values.
--   Registry    app/providers/registry.py; Providers: app/providers, the two adapters.
--   Chat        app/routers/chat.py: Stream is the generator of a stream, Stream/Render its text,
--               Handler the handler, Dispatch its part from the choice of a provider on. It uses Policy,
--               Pii, Registry, Streaming and Schemas as the code does.
--   Pricing     app/pricing.py.
--   Logging     app/observability.py: the fields of a log line; Format is the formatter.
--   Audit       app/observability.py, app/audit_fallback.py: what is recorded of a request; Streams
--               joins it to the stream of Chat.
--   Db          app/db/models.py: the tables, as lists of rows in the order of insertion.
--   Admin       app/routers/admin.py: reports, Keys, and Replay of the audit fallback.
--   Settings    app/config.py: the fields, their bounds and validators; Load makes settings of them.
--   Application app/main.py and, for what it puts together, app/auth_jwt.py, app/db/engine.py (Engine),
--               app/routers/health.py and models.py; Shutdown is the end of the lifespan. It makes the
--               limiters of Streaming and RateLimit from the settings of Settings.
--   Smoke       scripts/smoke_provider.py: Plans, the reader of server-sent events (Sse), the two checks
--               of a provider (Checks), the report and the run. EndToEnd reads what Chat sends.
--   Json        JSON values as Python has them once they are loaded: truth, items, get, errors.
--   Prelude     shared names, lists, dictionaries and the string methods of Python.
--
-- Conventions. An exception is a value (`Result`). State is passed on explicitly: request.state, a
-- limiter, a database, a file. A method that runs under a lock is one step, and a history is a list
-- of steps in any order. What is outside the program is an argument: Python's `re`, `ipaddress`, `json`,
-- `hashlib`, PyJWT, SQLAlchemy's commits, the clients of the two vendors, and, for the smoke script, the
-- service that it asks. Floats of the rate limiters are exact fractions: a clock is a number of ticks,
-- `hz` to the second, and tokens are counted in units of which 60 * hz make a token. A stream is the
-- sequence of its arrivals, each with the time that it took: the loop of a stream recurs on them, and
-- Chat/Stream/Termination says why it ends whatever their number. Costs are in units of 10^-8 dollars.
-- Fuel is used once, by `str_nat`, the decimal text of a number, whose digits are fewer than the number
-- and one.
--
-- Not modelled: log lines other than their fields; the JSON text of a value (the encoders and the
-- decoder are arguments); pydantic's reading of a body's types, and of the environment; starting
-- up, routing and the command line; migrations; rounding of floats and of numeric columns, the 14
-- digits to which Lua's `tostring` cuts what Redis stores included; a streaming response whose
-- generator is never started; and a handler that is cancelled while it awaits the first chunk.
mod Prelude
pub mod Json
pub mod Smoke
pub mod Settings
pub mod Application
pub mod Streaming
pub mod Request
pub mod Errors
pub mod Db
pub mod Auth
pub mod Net
pub mod Middleware
pub mod Policy
pub mod Pii
pub mod RateLimit
pub mod Schemas
pub mod Registry
pub mod Providers
pub mod Chat
pub mod Pricing
pub mod Logging
pub mod Audit
pub mod Admin
