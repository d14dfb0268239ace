-- ===== src/Lib.antt =====
-- go-utility: a library of Go packages, with a first generation at the root of the repository and a
-- second one under v2/. Most packages are independent of each other, so each has modules of its
-- own; the tracer logs through loggerw, and the HTTP adapters of v2 use v2/responsew, which reads the
-- errors of v2/statusw, and v2/logw.
--
--  * Fsm models v2/statemachinew/fsm.go. `Machine` is `fsm`: the map from events to rules, and a
--    store of the rules, since a builder keeps a pointer to its rule: `update` writes to the rule
--    a builder was given, also after `On` has replaced it in the map. `fire` is `Fire`; the three
--    loops over hooks are `run_hooks`. Hooks are functions that return the entity they leave
--    behind.
--  * LocalCache models v2/localcachew/cache.go. `Globals` is the package's `once` and
--    `globalCache`; each operation takes the reading of the clock, and `tick` and `halt` are the
--    two cases of the background loop. An expiration is an int64 that wraps around.
--  * Goroutine models goroutine/goroutine.go and type.go. The options are in Goroutine/Options,
--    the splitting of batches in Chunks, the process keys in Keys, `buildJobs` and `executeJob`
--    in Jobs, `recordResponse` in Record, `applyBatchCollectors` in Collect, and `Run` in Run:
--    its workers are a step relation over a `Pool`, in which each interleaving is a sequence of
--    steps.
--  * Orchestrator models v2/goroutinew/orchestrator.go. A panic is `none`; `run_jobs` takes the
--    jobs in the order in which they store their results, which may be any. A handler may panic.
--  * Response models response/echo_error.go and errow: the tree of errors as `GoError`, the
--    mapping from codes to responses, and what the handler sends.
--  * Status models v2/statusw/status.go: an error is an object of a store, a `*Error` an index
--    into it, so that the templates that the program shares can be followed through the With*
--    methods.
--  * ApiResponse models v2/responsew/response.go: the bodies of answers, pagination, and the
--    status that `Error` cuts from a code. It reads the errors of Status.
--  * Sql models prepareQueryNamed and DoInTransaction of sqlw/postgres/dml.go. A callback's
--    outcome and the answers of the database are arguments, and the calls made on it are part of
--    the result.
--  * Graceful models v2/gracefulw/graceful.go: the queue that `Register` fills and `Execute`
--    takes, and the goroutines of `Execute` as a step relation. gracefull/shutdown.go starts a
--    map's functions in the same way.
--  * Copy models copy/struct.go. Copy itself has the values and types that reflect shows, Std
--    what the code uses of the standard library and of `AssignTo`, Names the names of fields,
--    Leaves and Scalar the rules on single values, Containers the loops, and Convert
--    `convertAssign`, by recursion on the target's type. A value read from an unexported field is
--    marked as such. Only structs and strings have named types, and the embedded
--    fields are structs.
--  * Tracing models tracer and loggerw: contexts and log fields in Tracing itself, trace.go in
--    Trace, the loop over stack frames in Frames, logger.go in Logger, and in Middleware the two
--    middlewares, Inject and the adapter WireLogger, through which the packages meet.
--  * Spans models v2/spanw/spanw.go: the chain of function names in a context, and the metrics.
--  * Sqlx models v2/sql/sqlxw/sqlx.go: Transaction, the handle that GetDB finds in a context, and
--    the wrapper that logs queries.
--  * Broker models v2/brokerw. Broker itself has the chain of handlers, Consumers the loops of the
--    four consumers, over lists of what their client libraries hand to them, and Producers what
--    BulkSend makes of keys and payloads.
--  * Logw models v2/logw: the identifier in a context, Init, and the attributes of lines.
--  * Http models v2/httpw: the reply of net/http and the values that handlers return in Http
--    itself, and the adapters of echow, ginw and muxw in Echo, Gin and Mux. They read the
--    responses of ApiResponse and the contexts of Logw.
--  * Cron models v2/cronw/cron.go. A slice is a view of an array in a store, so that the jobs of
--    calls that share their middlewares can be followed through `append`.
--  * NoSql models the debug switches of v2/no-sql, in Redis, Mongo and Elastic: what each hook does
--    around the call of its client library, which is a function argument.
--  * Converter models utils/converter/converter.go: rows put into structs, slices and other values,
--    over a record of what is used of reflect.
--  * Migrate models v2/sql/migratew/migrate.go, over an engine that is a parameter.
--  * Mail models the text of a message of v2/emailw/email.go, as bytes.
--  * Base holds the shared tests on numbers, lists, maps, byte strings and the 64-bit integers.
--
-- A Go map is an association list, whose order stands for that of one iteration; Go leaves the
-- order open, so a statement about every list is one about every order. Strings that are cut and
-- searched are lists of bytes. Panics and errors are values. Loops are by recursion on lists; the
-- loop of `chunkInterfaces` has the number of items as its fuel, and each round takes at least one
-- of them; the loop that cuts a code has the code, which each round makes smaller, and the one that
-- splits an attachment has the length of its text.
--
-- Code of other packages is a parameter: what Copy/Std lists for the struct copy,
-- `context.WithTimeout`, the texts of errors in the handler, the cut of a float to
-- an int32, Echo's and Gin's functions that write a reply, the brokers' and databases' answers, and the
-- hooks, steps, collectors and handlers that the library's user gives.
--
-- Not modelled: the writing of log lines, the texts of errors, JSON encoding, and the packages that
-- adapt a client library (bots, object stores, configuration, the first generation's mail and
-- queues). Mutexes are not modelled: an operation that holds one is one step.
pub mod Base
pub mod Fsm
pub mod LocalCache
pub mod Goroutine
pub mod Orchestrator
pub mod Response
pub mod Status
pub mod ApiResponse
pub mod Sql
pub mod Graceful
pub mod Copy
pub mod Tracing
pub mod Spans
pub mod Sqlx
pub mod Broker
pub mod Logw
pub mod Http
pub mod Cron
pub mod NoSql
pub mod Converter
pub mod Migrate
pub mod Mail
