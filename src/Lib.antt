-- ===== src/Lib.antt =====
-- The Go SDK of the Chronos collector: what a Go service records about itself, and how it reaches the
-- spool directory that the collector's agent ships.
--
-- A process starts spans (tracing.go) under the context that a request or a message carried
-- (propagation.go). A span that ends is redacted (redact/redact.go), gets the attributes of the process
-- (resource.go) and goes into a bounded buffer (span_buffer.go), which is flushed in batches, each with
-- the identity of the service (identity.go), to a log of framed, checksummed entries in rotated segments
-- (spool/segment.go). The settings come from the environment (config.go).
--
-- Requests (http.go), statements (sql.go, sql_driver.go, sql_dsn.go, sql_params.go) and Kafka messages
-- (messaging.go, contrib/sarama) get their spans from wrappers of what the application calls; each
-- passes on what the wrapped code answers. Profiles come from a sampler of stacks and from measured
-- waits (profile_wall.go, profile_io.go, profiling.go), metrics from counters (metrics.go).
--
-- Files and code:
--   Base, Text        lists, bytes, numbers and the functions of Go's `strings` and `strconv` in use.
--                     A string is its bytes, each below 256 in what the program is given. ToLower is
--                     modelled on ASCII letters.
--   Config            config.go: `Config`, `load_config` (LoadConfig), `env_*` (envBool, ...).
--                     time.ParseDuration is a parameter.
--   Propagation       propagation.go: `Traceparent` (ParseTraceparentContext, FormatTraceparent),
--                     `Tracestate` (NormalizeTracestate), `Baggage` (NormalizeBaggage), `Percent`
--                     (percentEncode, percentDecode), `Members` the loop that both normalizers share.
--   Redact            redact/redact.go: MaskValue, IsSensitive, Map, Credentials.
--   Resource          resource.go, with the build information of the process as data.
--   Identity          identity.go, with SHA-256 as a parameter.
--   Tracing           tracing.go and the context functions of propagation.go: StartSpan, SetAttribute,
--                     finish, End, Adopt. A context is the span that it carries. Ids and clock readings
--                     are given to the operations.
--   SpanBuffer        span_buffer.go: newSpanBuffer, add, take, requeue; `Client` has flushSpanBatch,
--                     FlushSpans and enqueueSpan, one `Round` for each turn of the loop with what other
--                     goroutines add meanwhile; `System` the steps of any number of goroutines,
--                     and `Order` those in which one flush at a time holds a batch.
--   Spool             spool/segment.go: `Frame` (EncodeFrame, DecodeFrames), `Names`, `Directory`
--                     (Generations, createSegment, openActive, rotate, enforceSegmentBudget) and
--                     `Segments` (Append, Read). encoding/json is a parameter for the frame header,
--                     known by the law that a header of valid UTF-8 comes back from its rendering.
--   Messaging         messaging.go: StartMessagingSpan, the captured body, RecordMessaging. Text.Utf8
--                     and Text.Base64 are utf8.Valid and base64.StdEncoding.
--   Sarama            contrib/sarama: `Headers` (inject, extract), `Producer` (SendMessageContext,
--                     SendMessagesContext), `Consumed` (startProcessSpan and the proxied claim),
--                     `Claim` (the loop of ConsumeClaim, one `Event` for each turn of its select) and
--                     `Batch` (Batch, ContextFor, Each, run, ProcessBatch). A message is told apart by
--                     its address. A `Handler` is what an application does with its batch. A span that
--                     a batch started is named by its index, since several pointers hold it.
--   Http              http.go: `Recorder` (responseRecorder), `Server` (Handler and its capture),
--                     `Outbound` (Transport), `Hop` from one to the
--                     other. An application is what it does with its ResponseWriter.
--   Metrics           the counters and gcDelta of metrics.go, recordHTTP of client.go.
--   Profiling         profiling.go: `Chunks` (writeProfileSamples, the outcome of each write given by
--                     its offset) and `Normalize` (NormalizePprof on a parsed profile); profile_io.go:
--                     `Recorder` and `Io`; profile_symbols.go: `Symbols`; profile_wall.go: `Wait`
--                     (classifyWait), `Sampler` (the table of stacks, with the hash as a parameter and
--                     the snapshots given), `Wall` (the samples), `Flush`.
--   Sql               sql_params.go and sql_dsn.go, with net/url, and the order in which Go ranges over
--                     a map, as parameters; `Statement` (sql.go: the spans of statements and the
--                     remembered targets) and `Driver` (sql_driver.go: ExecContext and QueryContext of
--                     connections, and of statements). What a parent driver answers is data.
--
-- Parameters: SHA-256, json.Marshal, runtime.CallersFrames, the clock, the ids that are drawn, and the
-- floating-point steps of WaitMilliseconds. Where a section needs several of them, a record carries
-- them (`World`, `Around`, `Binary`).
--
-- Loops: DecodeFrames runs on one unit of fuel for each byte, and a frame takes fourteen or more. The
-- flush runs on its rounds, and openActive on the gaps between its scans and opens, in which other
-- processes change the directory: `none` is a loop that has not ended. Counters wrap at 2^64; Go's
-- `int` is unbounded here, and no size of the program reaches its bounds.
--
-- The loops of a claim, of a batch's handler and of a producer's messages are recursions on the events,
-- the calls and the messages that are given.
--
-- Not modelled: the start and the shutdown of a client with its ticker goroutines (client.go,
-- default.go), operation.go, logging.go and logrus.go, fs.go, contrib/awsv2, spool/spool.go's JSON
-- rendering of a document, the collection of profiles and of stacks by the Go runtime, the
-- registration of database drivers and the methods that only hand a call on, FormatEnqueuedAt, and
-- the rendering of metrics in floating point,
-- and what Each does to a span of its caller that a context carries where tracing is off.
pub mod Metrics
pub mod Http
pub mod Messaging
pub mod Sarama
pub mod Base
pub mod Config
pub mod Profiling
pub mod Propagation
pub mod Redact
pub mod Resource
pub mod Identity
pub mod Tracing
pub mod SpanBuffer
pub mod Sql
pub mod Spool
pub mod Text
