-- ===== src/Lib.antt =====
-- Verification library of go-gedung-peristiwa, a service that polls the vehicle positions of
-- Malaysian public transport, keeps them in one store per agency, and shows them on a live map.
--
-- The parts. Browsers have sessions (internal/demo/session.go) with a region of the catalogue
-- (internal/gtfs/regions.go) and a poll interval. The coordinator (internal/demo/poll.go) asks the
-- session store which regions have a connected viewer and picks at most one region to fetch for
-- each tick; the loop of cmd/demo/main.go fetches its feeds (internal/gtfs/poller.go) and writes
-- the positions to the pipeline (internal/demo/pipeline.go), which puts them under their key
-- (internal/gtfs/types.go) in the agency's store (internal/pipeline/db.go) and notes them for the
-- map; failures count towards the health probe (internal/demo/health.go). The handlers of
-- internal/web/demo answer the browsers and stream the map to them. Change feeds
-- (internal/pipeline/changefeed.go) are read back for replay (internal/demo/replay.go). A separate
-- simulation writes events (internal/model/event.go) and verifies what was stored
-- (internal/pipeline/verify.go).
--
-- The files.
--   Prelude, Text, Assoc, Sort, Time: lists, options, results, byte strings, maps as association
--     lists, insertion sort, instants.
--   Gtfs/Feeds, Gtfs/Regions, Gtfs/Position, Gtfs/Bounds, Gtfs/Poller: internal/gtfs; the
--     poller has its proofs in Retry and Accept.
--   Demo/Session/Store: sessionState, load, parseSessionValue, persistLocked, pruneExpiredLocked;
--     Demo/Session/Methods: the exported methods of SessionStore; Invariant, Preserve, History,
--     Live and Persist prove about them.
--   Demo/PollSeconds, Demo/Poll: PollCoordinator, with proofs in Order, Plan, Choice, Due and
--     Rate.
--   Demo/Pipeline: Write, the map and the debug views, with proofs in Write and Live; Open opens,
--     hydrates, scans and closes (proofs in Hydrated, Latest, Merged and Newest), Notify has the
--     subscribers (Delivered).
--   Demo/Loop: pollLoop of cmd/demo/main.go as a step relation, with proofs in Planned and
--     Spaced.
--   Demo/Health: WriteHealth and healthzHandler of cmd/demo/main.go.
--   Demo/Replay: RunReplay and buildReplayFrames, with proofs in Frames, Resumed and Shows.
--   Demo/Snapshots: CatalogForRegion of internal/demo/snapshots.go.
--   Pipeline/Changefeed, Pipeline/Db, Pipeline/Verify: the files of those names under
--     internal/pipeline, each with its proofs in Laws (and Verify/Groups); Pipeline/Store: store.go;
--     Pipeline/Tenant: tenant.go, tenants.go and status.go, with proofs in Wrote.
--   Model: internal/model/event.go; Eventgen: internal/eventgen/generator.go (Emitted);
--     Simulation: internal/simulation/run.go (Sound).
--   Web/Views, Web/Handlers, Web/Stream, Web/Playback: server.go, session.go and replay.go under
--     internal/web/demo, with proofs in Active, Answered, Switched, Balanced and Complete.
--   Web/Dashboard: internal/web/server.go as a step relation, with proofs in Single and Latest.
--   Archive: ARCHIVE/Jul252026/internal, an earlier metrics service that is not built. Metric:
--     shared/types.go; Wire: what client and server call of easyproto; Marshal, Client:
--     client/main.go (Accepted); Unmarshal, Server: server/main.go (Normal, Trees, Entries,
--     Properties, RoundTrip, Ends and Answered); Http: httpapi (Laws).
--   Debug: internal/isledbdebug/harness.go in Harness (Counts) and Experiments (Noted, Polled), and
--     cmd/isledb-debug/main.go in Verdicts (Within).
--   Examples: the results at concrete inputs.
--
-- How the code is read. A method under a lock is one step on an explicit state; `time.Now()` is an
-- argument. An instant counts nanoseconds since Go's zero time, so a duration below 0 does not
-- arise where the code compares; UnixNano wraps at 64 bits as in Go. Counters (viewers, failures,
-- events) are natural numbers and do not overflow. A Go map is an association list: the code
-- leaves its order open, and the results that matter do not depend on it. `sort.Slice` and
-- `sort.Strings` are insertion sort. Errors are constructors without their message.
--
-- Code that is not in the repository is a parameter: the store library's writers, readers and
-- change feeds, encoding/json, easyproto, the file system and the playback's callback, by what each
-- call returns.
-- The loops over change feeds take fuel, one unit for each page that is read; a feed of n pages
-- needs n, and `none` is returned if the fuel runs out. The decoders of the archive take a unit for
-- each field of a message and of the messages in it, the batches of its client one for each batch,
-- and the polls of the debugging harness one for each poll. All other loops are structural:
-- the six attempts of the poller and the rounds of the generator are loops over a counter.
--
-- Not modelled: rendering, the set-up of buckets over the AWS library, what only logs or prints, the
-- flags of the commands, the site compiler (text of a static site), and of the archive the start of
-- its servers.
pub mod Prelude
pub mod Text
pub mod Assoc
pub mod Sort
pub mod Time
pub mod Gtfs
pub mod Debug
pub mod Demo
pub mod Pipeline
pub mod Model
pub mod Eventgen
pub mod Simulation
pub mod Examples
pub mod Web
pub mod Archive
