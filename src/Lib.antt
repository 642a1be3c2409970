-- ===== src/Lib.antt =====
-- The event server: a log of messages in channels with members, tokens and objects, kept in one
-- RocksDB database and served by gRPC. This library models the storage layer and the service core,
-- and proves what they guarantee to each other and to clients.
--
-- The parts, with paths from the root of the repository:
--
--   Common      shared helpers: tests on native numbers, decimal digits, lists and their slices, byte
--               strings.
--   Status      src/common/status.h, src/storage/rocksdb_status.h and src/storage/io_error.h: an
--               error with its code, text and storage diagnostic, and results.
--   Proto       the accessors of the protobuf messages that the program handles.
--   Platform    what is called and is not in the repository: RocksDB, serialisation, the reader of
--               JSON, the comparison of OpenSSL, and the operations of the object files. `Lawful`
--               names the documented behaviour that theorems rely on.
--   Storage     src/storage. Encoding is encoding.h; Keys, Records, Reads, Writes, Scan,
--               SystemMessages, State (`CreateSnapshot`, `Commit`) and Startup (`InitializeNew`,
--               `Validate`, `RecoverPreparingObjects`) are the parts of unified_storage.cpp; Faults is
--               fault_injector.h; Rocks is the interface of the database, with batches and their
--               effect in Rocks/Updates. ObjectFiles is object_file_store.h as its clients see it,
--               ObjectFiles/Store is object_file_store.cpp over the system calls of
--               ObjectFiles/Posix.
--   Core        src/service/open_event_core.cpp. Access holds the checks that look at values only,
--               State the fields of the object and `CommitBatch`, Publish the publishing and the
--               uuids, Channels the channels and members, Fetch the pages of messages, Admin the
--               tokens that are stored, Tokens how they are generated, Text the texts of system
--               messages, Objects the handlers of objects. Atomic says which methods only read.
--               Snapshots holds the threads that share the snapshot of subscriptions, Subscriptions
--               the methods that read it.
--   Services    src/service/grpc_services.cpp: the registry of subscriptions, `Subscribe` with its loop,
--               which calls Core/Subscriptions, and in Services/Methods the methods that pass a request
--               to the core.
--   Server      src/server. Config is server_config.cpp, the configuration over yaml-cpp and the file
--               system; Shutdown is the end of main.cpp, with the threads that shut the servers down.
--   Examples    a platform in memory with its laws, and the theorems at concrete inputs.
--
-- A method of `OpenEventCore` is a function from the state to a result and the state that it leaves,
-- so an early return keeps what was done before it. The work under `coordinator_mu_` is one such
-- function: it runs as a whole. `WriteObject` gives up the lock twice, and takes an argument that is
-- what other threads do then. The clock, the random bytes and what `grpc::ServerContext` says at each
-- call of `CheckRpcActive` are arguments. A snapshot is a value, and the database a state that `write`
-- replaces; nothing is assumed of a call of the database that fails. Functions that return an optional
-- inside a `Result` return an `Option` inside a `Result` here.
--
-- Where the interleaving matters, it is explicit: Core/Snapshots has a step relation on the state that
-- the thread which renews the snapshot, the commits and the readers share, with a history of what was
-- done to the database. A method that waits for the snapshot takes the states at the two ends of its
-- wait. The loop of a subscription runs over a list of rounds, each with the states and the outcomes
-- that its calls met; a longer list is a longer run of the same subscription. Server/Shutdown is a step
-- relation too, of the flags that the three threads of the server share.
--
-- Bounds: a `uint64_t` is a native number, with the wrap-around written out where the code adds; the
-- theorems say where they need a value to fit 64 bits. `std::to_string` runs on fuel of 20 digits,
-- enough for 64 bits. The loop of `getrandom` runs over the list of the outcomes of its calls. The
-- loops of the object files run on fuel of the bytes that are left and the calls that signals have yet
-- to interrupt, and one more, which is proved to be enough where signals cease to interrupt calls. The interval of the thread that renews the
-- snapshot and the timeouts of waits are not modelled: each may end at any moment.
--
-- Not modelled: the directories and the opening of the database and of the object store, and the start
-- in src/server/main.cpp (arguments, the signal mask, the builders of gRPC), which are input and output.
pub mod Common
pub mod Status
pub mod Proto
pub mod Storage
pub mod Platform
pub mod Core
pub mod Services
pub mod Server
pub mod Examples
