-- ===== src/Lib.antt =====
-- MeshBug: the projection of raw mesh events into the tables that the web pages read.
--
-- The program (Go) stores MQTT messages as raw events, and a projector folds them into the tables of
-- the schema `project`. The projector decodes a run of raw events into a batch and gives it to a
-- pipeline. The pipeline applies each event to each of its stages, which accumulate in memory; then,
-- in one transaction, every stage flushes its memory into its own table and the cursor moves to the
-- last raw event; after the commit the stages notify and evict.
--
-- Files, with the code that they model (paths from the root of the repository):
--   Prelude, Prelude/*     lists, byte slices, maps and sets of Go, int64 sums
--   Event                  internal/project/pipeline/types.go: events and payloads
--   Store                  the tables of internal/store/migrations/project, transactions whose
--                          statements may be refused, the interface Stage
--   Notify, Notify/*       internal/notify/notify.go: the payloads that Publish sends, sanitize as
--                          `sanitize`, the pauses of Listen as `backoff`
--   Hub, Hub/*             internal/sse/hub.go: Subscribe, its returned function and Publish are
--                          `subscribe`, `unsubscribe` (`depart` under the lock, then `close`) and
--                          `publish`; Hub/Safety adds the handlers
--   RawLog                 the log and the queries of internal/store/queries.go
--   Ingest, Ingest/*       internal/ingest/ingest.go: Run is `run`
--   Decoder, Decoder/*     internal/project/decoder.go (Decode is `decode`), parse.go (Messages and
--                          Topic), internal/meshcore/decode.go (Frame, Utf8), and what they use of
--                          Go's strings, strconv and hex (Text, Hex)
--   Projector, */*         internal/project/project.go: catchUp is `catch_up`, Reset `reset`
--   Pipeline, Pipeline/*   internal/project/pipeline/pipeline.go: ProcessBatch is `process_batch`,
--                          saveCursor `save_cursor`, Clear `clear`
--   Stages/Loop, Loop/*    the loop of upserts at the end of Flush in the stages with accumulators
--   Stages/Unique, */*     internal/project/stages/unique.go: Apply, Flush, rehydrateUnloaded and
--                          Evict are `apply`, `flush`, `rehydrate_unloaded` and `evict`
--   Stages/Observations    internal/project/stages/packets.go, the same names
--   Stages/Nodes           internal/project/stages/nodes.go
--   Stages/Observers       internal/project/stages/observers.go
--   Stages/Status          internal/project/stages/status.go
--   Stages/RollupObserver  internal/project/stages/rollup_observer.go
--   Stages/RollupNeighbor  internal/project/stages/rollup_neighbor.go
--   Stages/Anomalies, */*  internal/project/stages/anomalies.go: Flush, runDetectors and emit are
--                          `flush`, `run_detectors` and `emit`
--   Stages/Signal          the RSSI and SNR accumulators of both rollups
--   Projection, */*        the pipeline run with the stages that write packets, as in
--                          internal/project/project.go (New)
--   Partitions, */*        internal/store/partitions.go: EnsurePartitions is `ensure_partitions`
--   Migrations, */*        internal/store/migrations.go: checkOne is `check_one`
--   Web/Patch, Patch/*     internal/web/sse_writer.go: Patch is `patch`; Patch/Reader is a reader of
--                          the stream
--   Web/Paging             the paging of internal/web/templates/helpers.go
--   Tests                  the theorems applied to concrete batches
--
-- The memory of a stage is a value, a Go map an association list with one entry for each key, a
-- nil slice or pointer `none`, a time the nanoseconds since Go's zero time, which the tables keep
-- exactly. A Go map is visited in the order of the list; a row depends on its own entry alone, so
-- the order does not show. Statements are functions on the tables, written from their SQL; the
-- server may refuse any statement, the start of a transaction or its commit, and a rolled back
-- transaction leaves the tables as they were (a sequence included, which in PostgreSQL keeps its
-- gap). Floats are a parameter (`FloatOps`), and so is what a numeric column makes of one.
-- Counters of packets and observers are natural numbers, since they stay far below 2^63; the int64
-- sum of RSSI keeps its wrap-around. Recursion is on lists but in `catch_up`, which has fuel for
-- the turns of its loop (Projector/Ends shows how much is enough), and in the loop over minutes of
-- the anomaly stage, which has more fuel than there are minutes. The raw log, the refusals and the
-- failed queries may differ from turn to turn. JSON, ParseFloat and the library meshcore-go are
-- parameters (`Reader`, `Mesh`). What holds the lock of the hub is one step, and so is the close
-- of a channel, which comes after the lock; a channel without a buffer, which no handler has, is
-- not modelled.
--
-- Not modelled: the queries of the three anomaly detectors, the MQTT client, the web pages and their
-- queries, the run of the migrations, configuration and commands, logging, and contexts but for the
-- end of the ingester.
mod Prelude
pub mod Event
pub mod Store
pub mod Notify
pub mod Stages
pub mod Pipeline
pub mod Projection
pub mod Hub
pub mod RawLog
pub mod Ingest
pub mod Decoder
pub mod Projector
pub mod Partitions
pub mod Migrations
pub mod Web
pub mod Tests
