-- ===== src/Lib.antt =====
-- The verification library of bridra, a Go backend for Flutter applications.
--
-- Eight parts of the backend are modelled, each in a tree of modules of its own.
--
-- JobStore: the durable job store, backend/framework/file_job_store.go and job_store.go. FileJobStore
-- keeps a map of jobs in memory and a log file of events; each operation appends one event and then
-- changes the map, and NewFileJobStore rebuilds the map from the log. A worker reserves the first due
-- job under a random token and a lease, and completes, releases or fails it with that token; a failed
-- job waits to be retried or forgotten.
--   Job: the records of a job, a reservation and a stored record; validJobIdentifier,
--     validateStoredJob, normalizeFileJobStoreError.
--   Log: fileJobStoreEvent, the log file, FileJobStore.append, applyEvent, replay.
--   Operations, with its Records: Enqueue, Reserve, Release, Complete, Fail, RetryFailed,
--     ForgetFailed, FailedJobs, and Close and NewFileJobStore on the log. Opening: NewFileJobStore with
--     its options, Close with its answer.
--   History: sequences of operations. Updates: each operation as one change of one record. Invariant,
--     Events, Recovery: well-formed stores, the events they write, and the log read back. Moves,
--     Life: the moves of one job. Selection,
--     Due, Reserving, Leases: which job is reserved and for how long. Failures, ErrorText: failed jobs.
--     Corruption: two ways to a log that the code then refuses.
--
-- Subscription: the replay buffer of a subscription, backend/framework/subscription_buffer.go, and the
-- producer over it, backend/framework/subscription.go. Publishers append values; each subscriber holds
-- a text cursor and asks for the event after it, waiting on a channel that the next Publish or Close
-- closes.
--   Buffer: NewSubscriptionBuffer, Publish, Cursor, Next, Close; a channel is a number, and the buffer
--     carries the list of those that its calls closed. Produce: ProduceSubscription.
--   Cursors: cursor texts written and read. History, Replay: the buffer against the history of all
--     published values. Run, Waking, Delivery, Promises, Draining: sequences of calls and what a subscriber
--     receives.
--
-- Container: the service container, backend/framework/container.go, from which the providers and the
-- controllers of an application get their services. Services are registered as values, aliases and
-- bindings; a binding's factory asks a Resolver for other services, which goes down a stack of the
-- identifiers under resolution.
--   Service: the container and its registration. Resolution: resolution.resolve, serviceBinding.resolve
--     and Resolve. Termination, Singletons, Isolation: that resolution ends, what a singleton
--     keeps, and what it is kept from. Registration: sequences of registrations.
--
-- Cron: backend/framework/scheduler_cron.go, by which the scheduler times its tasks. A text of five fields
-- becomes an expression, and the next minute that it matches is searched for eight years.
--   Moment: a minute of the calendar and the steps that the search takes. Expression: matchesDay and
--     next. Parsing, Fields: parseCronExpression and what it calls. Skipping, Next: what the search
--     passes over and finds. Covering, Listed: what a parsed field allows.
--   Time is in a location of a fixed offset, so that no hour is skipped or repeated. The search has as
--   fuel two more than the number of the limit, which every step comes nearer to; the loop over an item's
--   values has fuel for steps of 1.
--
-- SemanticVersion: backend/cmd/bridra/semantic_version.go, by which the upgrade and release commands
-- of the command-line tool decide.
--   Version: the pattern, parseSemanticVersion, compareSemanticVersions. Comparison, Numerals: its
--     order. Parsing: written versions parsed back.
--
-- Migrations: schema migrations, backend/framework/migrations.go, over the transactions of
-- backend/framework/database.go. Migrations are registered under versions; a runner applies those that
-- a table of applied migrations lacks, as one batch, and reverts the latest batch.
--   Migration: the records, Register, Registered. Engine: the MigrationStore interface, invokeMigration,
--     execute and Database.WithinTransaction, and the laws of a store and of transactions. Results:
--     contexts, batches, results. Runner: loadApplied, Status, Migrate, Rollback; what the last two
--     share is run_turns and with_history.
--   Registry: registered migrations. History, Loading, Pending, Batches: the table under a turn, what
--     is read of it, what is planned, the latest batch. Applying, Ordered, Accepting, Reverting,
--     Restoring, Bounds: what the calls make of the table. Table: a table of rows as a store.
--   SqlStore: backend/framework/migration_store.go, its options, its statements and the store that they
--     make of an SQLExecutor. SqlNames, SqlRead: the stores that are made, and the rows that are read.
--   The database is a parameter, and so are the callbacks, the store and database/sql: a store's
--   operation that fails leaves the table, a Rollback and a failed Commit leave the database of before.
--   sort.Slice is an insertion sort, which gives the same list where versions differ.
--
-- JobQueue: the queue of background jobs, backend/framework/jobs.go, its delayed jobs,
-- backend/framework/jobs_delayed.go, and the queue over a store, backend/framework/jobs_persistent.go.
-- Without a store, dispatches, the goroutine that promotes delayed jobs, the workers, Start and
-- Shutdown share channels of a bounded capacity.
--   Queue: the state, the heap. Dispatching: prepareJobDispatch, DispatchJob, dispatchJobAt. Steps:
--     schedule, drainScheduledJobs, work, Start, Shutdown, finishShutdown; a run is a list of events.
--   Places, Promotions, Accounting: where each accepted job is. Stopping: what each stage of Shutdown
--     waits for. Advancing, Finishing: the events that end it.
--   Executing: normalizeJobHandlerOptions, execute, executeAttempt, waitForJobRetry. Retrying: what
--     execute does. Handlers: HandleJobWithOptions. Registered: the handlers by type and by name.
--   A job is a number, a channel a list, and container/heap a list from which the least is taken. In a
--   run, the execution of a job, with its attempts, ends in one step.
-- Over a store, the workers reserve jobs from it and settle them.
--   Persistent: the interface JobStore, executePersistent. Workers: persistJob, workPersistent; in a run
--     the workers take turns in any order, and a worker may hold a reservation while others go on.
--   StoreLaws: how a store counts attempts. Executed, Uses, Attempts, Within: what a queue over such a
--     store does. FileCalls, OverFile: FileJobStore as such a store. Fates, Verdicts,
--   Settling: a job after an attempt.
--   A call reads its context, token, time and the outcome of its write from the input of the turn, the
--   text of an error is a parameter, and RetryFailed and ForgetFailed are not among the events.
--
-- ResourceBroker: backend/framework/resource_broker.go. The broker hands out texts for leases that a
-- resolver gives, and releases the leases on Release and Close.
--   Capability: createCapability's text, validResourceCapability, capabilityBelongsToBroker. Broker: the
--     state and each critical section. Calls: Grant, Release and Close in steps, of which any number of
--     calls take turns in any order; a run is a list of events.
--   Keeping, Soundness: the counts and the limit. Accounting, Balance: where each lease is. Issued: a
--     capability released again.
--   The resolver, the leases and the random source answer by events, and the HMAC is a parameter. A
--   lease is a number; its path is what LocalPath answers.
--
-- Common: Boolean tests, lists sorted and searched by a text, lists over native numbers, Go's texts, decimal numerals, association lists.
--
-- A time.Time is the number of its nanoseconds with 0 for the zero time, and a time.Duration a number;
-- a Go map is an association list without repeated keys; a mutex makes each operation, and each round
-- of Next, one step. Texts are code points, and bytes in Subscription. What comes from outside is an
-- argument: the context, the
-- time, the bytes of the random source, and how a write to the file ends (not at all, inside the line,
-- whole without Sync, or well). encoding/json is a parameter: which bytes are valid JSON and how long a
-- written line is for the job store, an encoder and a decoder for the buffer; that it writes a
-- json.RawMessage with <, > and & escaped is modelled. Loops are structural: replay over the lines of
-- the log, Next over what its rounds find, ProduceSubscription over its turns.
-- The depth of a resolution has fuel, and one more than there are aliases and bindings is enough. A
-- factory is a tree of the requests that it makes of its Resolver. format_uint has fuel for 20 digits,
-- which an uint64 does not exceed.
--
-- Not modelled: nil receivers, Provide of the container and its locks, failures of seeking or
-- truncating the log, text that is no UTF-8, an int overflow of a job's attempts, and the parts of the
-- repository that no module names.
pub mod Common
pub mod Container
pub mod Cron
pub mod JobQueue
pub mod JobStore
pub mod Migrations
pub mod ResourceBroker
pub mod SemanticVersion
pub mod Subscription
