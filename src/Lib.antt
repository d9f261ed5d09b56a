-- ===== src/Lib.antt =====
-- The NFT service of the hub (api/src): a GraphQL service that keeps drops, collections and mints in
-- a database, pays for requests with credit deductions, asks other services to make blockchain
-- transactions, and hears of the outcome by messages.
--
-- The parts, and the files that model them:
-- - Prelude: names and list lemmas that all parts share.
-- - Entities: the rows and enumerations of api/src/entities. Inputs: the GraphQL input objects of
--   api/src/objects and the headers of api/src/lib.rs. Messages: the events that the service sends.
--   Errors: the errors that the mutations raise.
-- - Effects: the state (tables, cache, job store, events sent, deductions submitted and confirmed) and
--   the steps that handlers take: a query, an insert, an update, a transaction, a deduction, an event.
--   Every call of a service is counted, and the environment says for each count whether the call fails
--   and what the clock, the new id and the random numbers are. A handler is a function from a state to
--   a result and a state; `fault` is the error of a service that `?` passes on. Effects/Rules has one
--   rule for each step, with which statements about all outcomes are proved.
-- - Validation: validate_* of api/src/mutations/collection.rs and drop.rs, validate_compress,
--   check_drop_status and check_collection_status of mint.rs. In Validation/DropStatus and
--   Validation/Creators: independent descriptions of what the checks accept.
-- - Blockchains: api/src/blockchains/solana.rs and polygon.rs.
-- - Mutations: api/src/mutations. Mints/Editions is mint_edition and retry_mint_edition, in the order of
--   the source: reserve_edition (reads, checks, deduction), record_edition (writes) and
--   announce_edition (cache and events). Mints/Queue is queue_mint_to_drop and mint_queued; Mints/Random
--   is mint_random_queued_to_drop and its batched form; Mints/ToCollection is mint_to_collection and
--   its retry; Mints/Updates is update_mint and its retry. Drops, Collections and Transfers are drop.rs,
--   collection.rs and transfer.rs; Patches has patch_drop and patch_collection, Imports has
--   import_solana_collection with the cascades of the foreign keys of migration/src. The other files
--   of Mutations state and prove.
-- - Events: api/src/events.rs, one function for each handler, and process in
--   Events/Dispatch; Events/Imports has index_collection and index_mint.
-- - Background: api/src/background_worker. Tasks and Process are the upload task, with what each caller
--   does after the upload (tasks/metadata_json_upload_task.rs); Worker is dequeue of job_queue.rs and
--   worker.rs: one round of the loop of start, with the task that it spawns run at once, and retry.
--   Effects/Jobs has the job store itself: the table job_trackings and the list of waiting jobs, which
--   LPUSH and BRPOP change at its two ends. Background/Uploads states what a task does;
--   Worker/Consistent, Queue, Keeps and Retries are about the invariant of the job store, Worker/Fifo
--   about the order of jobs, Worker/Settled about what becomes of one.
-- - Objects: the status of a drop that the GraphQL object shows (api/src/objects/drop.rs).
-- - Loaders: TotalMintsLoader and SupplyLoader of api/src/dataloaders/collection.rs, which answer from
--   the cache and fill it.
-- - Tests: one small state, with witnesses and runs.
--
-- How parts interact: a mutation submits a deduction, writes rows with its id, and sends an event; the
-- handler of the message that answers it settles the rows and confirms the deduction. Requests that
-- bring metadata enqueue an upload task, and the worker sends their event once the upload is stored.
-- All of them work on the same state, a World. Its db is every table but job_trackings, which stands in
-- its jobs: an enqueue writes that table outside the transaction of its caller, so that a roll back of
-- db keeps the row. What is said of the database below is said of db.
--
-- Bounds: i64 and i16 conversions are written out with their limits; the sum of creators' shares wraps
-- at 256, as a u8 does in a release build. The edition after a count (an i64 in the code) and the ids
-- of jobs (an i32) are natural numbers, which differ from the code at 2^63 - 1 mints and 2^31 jobs. No
-- function needs fuel: all recursion is on lists.
--
-- Parameters: the database's ids, the clock, random order, address and URL syntax, the parsing of
-- UUIDs, the before_save hooks and the upload service's answers are fields of Env.
--
-- Left out: the other GraphQL getters, queries and the data loaders but those two (reads only),
-- the uploads client, start-up, HTTP and metrics, and the migrations but for their cascades. BRPOP
-- blocks on an empty queue; in the model it then answers nil. Jobs are serialised to JSON and
-- back; the model keeps the task itself. Interleavings are seen as requests whose parts are run
-- one after another.
pub mod Prelude
pub mod Entities
pub mod Inputs
pub mod Messages
pub mod Effects
pub mod Errors
pub mod Validation
pub mod Blockchains
pub mod Mutations
pub mod Events
pub mod Background
pub mod Objects
pub mod Loaders
pub mod Tests
