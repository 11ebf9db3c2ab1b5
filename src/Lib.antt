-- ===== src/Lib.antt =====
-- go-cloud-des runs discrete-event simulations on a cluster. A control plane takes batches of
-- experiments, keeps their rows in PostgreSQL, queues those that are ready and starts each on a node
-- with room; on a node a dispatcher runs the model binaries and reports each result back.
--
-- ControlPlane.antt, for controlplane/:
--   PendingQueue: pending_queue.go, method by method (Enqueue is enqueue, PopBatch is pop_batch). The
--     contract it implements is in PendingQueue/Refinement.
--   NodeRegistry: node_registry.go. List, ActiveNodeIDs and Get are in NodeRegistry/Listing.
--   Repository: the tables of schema.sql as lists of rows, and the statements of repository.go that
--     change the status of an experiment (Repository/Statements) or of a batch (Repository/Batches).
--   Scheduler: scheduler.go. RunOnce is run_once; its loop is turns, one round of it turn, and the
--     rest of a round after each call that can fail is a function of its own (place, acquire, settle,
--     requeue, give_up). ReconcileLostNodes is in Scheduler/Reconcile, the reading of a dispatcher's
--     reply in Scheduler/Starts.
--   Server: the handlers of server.go that change something, ReportExperimentResult and
--     CancelExperiment foremost. The server shares the nodes, the database and the scheduler's queue
--     with the scheduler: they are fields of the record Scheduler.
--   Submission: submit.go. Its checks are in Submission, CreateExperimentBatch of repository.go in
--     Submission/Creating, the building of the model and the answer in Submission/Building.
-- Dispatcher.antt, for dispatcher/:
--   Types: types.go. Registry: registry.go. Registry/Accounts follows the runs that are under way
--     through the calls that dispatcher/server.go makes.
-- Codegen.antt, for codegen/:
--   EventQueue: container/binary.go, the heap of the events of a simulation. Pool: container/pool.go,
--     their entities under handles; Pool/Handles has the steps of a client. Slices: both on slices.
--   Generator: codegen/generator/ up to the emitter. Text has Go's byte slices, Scanner is scanner.go,
--     Parsed how a parser runs on the scanner, Names is parser_helper.go, Sections parse_entity.go,
--     parse_var.go, parse_resource.go and parseSection, Blocks parse_block.go, Parser parser.go,
--     Validate validate.go with its search of ways in Validate/Reach, and Generate generator.go. A
--     module Sound, or with such an ending, has the postconditions of the parsers before it; they are
--     stated with Ensures of Parsed/Rules and Allows of Validate/Rules.
-- Prelude, Dict and Strings: shared names, Go's map and what is used of its strings package.
--
-- How Go is read: a method that mutates its receiver returns the new one. Each mutex makes a method one
-- step. A loop over a map takes the order of its visits as an argument, which stands for every
-- order. time.Now() is an argument in nanoseconds; spans are natural numbers, so the clock never runs
-- behind a heartbeat. uint64 and uint32 sums wrap (add64, add32); a decrement stands under the
-- guard of the code. A cancel function is a handle. A nil error is `none`, an error its text. What
-- becomes of a database statement is an argument of type Delivery: done, or failed with and without its
-- effect. The replies of a dispatcher are arguments, and so are the random name of a batch and the
-- hash of a model text. Loops recur on their lists, and pop_loop on the size of the batch, so no fuel
-- is needed; siftUp and siftDown take fuel, as much as there are nodes, which is enough as each round
-- goes on at a smaller index (siftUp) or a greater one (siftDown), and the printing of a number takes
-- one more than the number. A panic is `none`. A float64 time is its place in the order of float64
-- values, and no time is NaN.
--
-- In the generator a text is a list of bytes, nil and the empty slice are one, and a pointer is a place in
-- the list of the model that holds what it points to, none before ValidateAndLink. A parser maps the
-- scanner to a value and a scanner, an error with its line, or a panic; the wording of the messages is left
-- out. ScanNoEmpty and the loops of the parsers take fuel, one more than the bytes that are left, as each
-- round takes a byte at least; the search of canReachWaitTarget takes one more than there are blocks, as
-- each call below another has one more block visited. Whether strconv.ParseFloat accepts a text, the
-- SHA-256 of a text, and the capacity beyond which the runtime makes no slice of pointers are arguments.
--
-- Not modelled: calls of other goroutines between two turns of one RunOnce, logging, the gRPC and
-- PostgreSQL glue, the table of artifacts and the queries that only read (the rest of
-- controlplane/repository.go), the process side of the dispatcher, the emitter of Go code
-- (codegen/generator/emit*.go, of which only isSpace is used), the code generation service
-- (codegen/cmd/) and the web API (webapi/).
pub mod Codegen
pub mod ControlPlane
pub mod Dict
pub mod Dispatcher
pub mod Prelude
pub mod Strings
