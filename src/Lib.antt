-- ===== src/Lib.antt =====
-- Code-runner runs programs in sandboxes behind an HTTP gateway. A client posts a program to the
-- gateway, which validates it, writes its specification and status to Redis and puts its id on a
-- queue. A worker takes it from there and publishes its output on a soketi channel, which a React
-- hook shows. The modules here model the TypeScript side of it:
--
--   Prelude     shared helpers: tests, lists, texts, integers, JSON values, results, state passing
--   Contract    packages/contract: the keys and channels (src/index.ts), the wire types
--               (gen/ts/types.ts, in Contract/Wire), the language manifests (src/manifest.ts)
--   Schemas     packages/contract/gen/ts/schemas.ts: the zod schemas as data (Schemas/Zod), which
--               values pass them (Fit, Requests, Jobs, Messages)
--   Keyspace    the documented effect of the Redis commands that the gateway sends
--   Redis       the Redis server as a parameter: operations, and laws that tie each one to Keyspace
--   Api         apps/api/src, a module per part: Config (config.ts), Files (files.ts), Admission
--               (admission.ts), Execute (routes/execute.ts), Jobs (routes/jobs.ts and
--               routes/languages.ts), Auth (auth.ts), Stdin (ratelimit.ts and the stdin route),
--               Control (the other routes of routes/control.ts, and routes/metrics.ts), Blobs
--               (routes/blobs.ts), Presign (blobPresign.ts), ChannelAuth (channelAuth.ts), Routes and
--               App (app.ts, manifests.ts, the start of server.ts)
--   React       packages/code-runner-react/src: Job (useCodeRunnerJob.ts; its effect in
--               Job/Subscription), Provider (provider.tsx)
--   Sdk         packages/code-runner-sdk-node/src: Errors (errors.ts, and throwForStatus), Files
--               (files.ts), Client and Uri (client.ts), ChannelAuth (channelAuth.ts)
--   Stub        apps/stub/src/index.ts, the end-to-end driver
--   Example     apps/example-with-nextjs/app: the backend that calls the gateway for the browser
--               (api, lib/api-helpers.ts, lib/code-runner.ts)
--   EndToEnd    the client of the SDK with the gateway for its `fetch`
--   Tests       the theorems at concrete inputs
--
-- A definition keeps the name of the function that it models, in snake case: `validateFiles` is
-- `validate_files`. A handler is a function on the gateway's state, which is the Redis database
-- beside the metrics counters (Api/Http); a handler is run as a whole, and App runs one request after
-- another. Execute/Concurrent and Stdin/Concurrent run the two routes that count in Redis a round trip
-- at a time instead, for requests that overlap in any way (Prelude/Slots: slots over a shared state,
-- a step of one slot, and what can be reached). A pipeline of Redis is one step there. A body comes
-- to its handler as what the zod validator made of it; Schemas says what that is, for any parser
-- that keeps what zod documents of `safeParse`. Errors are values: `Result` for what the source
-- throws, `Option` for what may be undefined. The hook, the provider and the end-to-end driver are
-- functions from an event, or a render, and the state before to the state after.
--
-- Numbers that the source reads with parseInt are integers or NaN (Prelude/Int). Other numbers are
-- natural numbers without a bound: the rounding of JavaScript from 2 ^ 53 on is outside the model.
-- All loops of the source run over a list, and are structural recursion here; no fuel is used.
--
-- The JSON body of a channel authorization comes as any JSON value, in the gateway and in the example
-- backend, since neither checks it.
--
-- Outside the model are the parts in Go (worker, internal), the libraries (Hono, ioredis, zod,
-- Pusher, React, OpenTelemetry), whose results are arguments, and a lost connection to Redis. The
-- logs, the metrics exporter, the pages of the example applications, the documentation site and the
-- copied tools under .github/skills are left out as well.
pub mod Prelude
pub mod Contract
pub mod Schemas
pub mod Keyspace
pub mod Redis
pub mod Api
pub mod React
pub mod Sdk
pub mod Stub
pub mod Tests
pub mod Example
pub mod EndToEnd
