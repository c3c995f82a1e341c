-- ===== src/Lib.antt =====
-- A model of shared_bike_server, the server of a bicycle rental: clients connect over TCP, ask for a
-- verification code for their mobile number and log in with it.
--
-- How the parts interact. libevent calls the callbacks of NetworkInterface in the main thread: a
-- session collects the bytes of a request (Net), DispatchMsgService turns them into an event and
-- posts it to the thread pool (Dispatch, Pool), a worker hands the event to the handlers that
-- subscribed to it (User, over Sql) and queues the response, and the main loop takes the responses
-- from the queue and writes them to the sessions (Dispatch/Answer, Net/Response).
--
-- Where things are; paths are those of the repository.
-- - Base: Boolean tests, lists measured by native numbers, bytes and words, signed integers.
-- - Events: src/HeaderFiles/ievent.h, events_def.h, eventtype.h and their sources. Events/Codes has
--   getReasonByErrorCode, Events/Dump the dump functions, Events/Codec the interface of the generated
--   protobuf messages.
-- - Protobuf: src/SourceFiles/bike.pb.cpp, all its messages. The four in use fill that interface
--   (Protobuf/Instance); some of the others are the code of another message, since theirs is the same
--   text with another name. Protobuf/Loop and Protobuf/Total are about the loop over the fields,
--   Protobuf/Messages about the fields that repeat a message.
-- - Net: src/SourceFiles/NetworkInterface.cpp. Net/Session is ConnectSession with session_init,
--   session_reset and listener_cb; Net/Request is handle_request; Net/Response is
--   send_response_message, handle_error and session_free; Net/Listen is start and close; Net/Io is what
--   is used of libevent.
--   Net/Request/Deframe is the protocol as a function of all bytes; Header, Body, Refinement and
--   Stream lead from the callback to it.
-- - Pool: src/ThreadPool. Pool/Task is the linked queue, Pool/Worker is thread_task_post and
--   thread_pool_cycle cut where a thread can be interrupted, Pool/Worker/Reach all interleavings,
--   Pool/Worker/Turn and Drain the turns of the workers when nothing more is posted,
--   Pool/Lifecycle is thread_pool_init, Pool/Destroy is thread_pool_destroy between the steps of the
--   workers, Pool/Locks the wrappers of pthread.
-- - Dispatch: src/SourceFiles/DispatchMsgService.cpp. Subscribers, Process (process and svc), Parse
--   (parseEvent), Enqueue (enqueue) and Answer (handleAllResponseEvent).
-- - User: src/SourceFiles/user_event_handler.cpp (User/Handler, User/Subscription) and
--   user_service.cpp (User/Service). Sql, Sql/Records: sqlconnection.cpp; Sql/Tables: sqlTables.cpp and
--   BusProcessor.cpp. Config: src/LogModule/iniconfig.cpp and configdef.h.
-- - Server: src/main.cpp, and the request callback over the dispatch service. Server/Run is the server
--   in its loop as steps: the callbacks and handleAllResponseEvent in the main thread, between those
--   of the workers, over the clients, the pool and the queue of responses. Server/Run/Invariant says
--   what holds between two steps; Request, Work and Deliver are about the steps one by one, Safety
--   and Liveness about all that can be reached.
-- - Client: client/client.cpp; Client/Commands is cmd_read_data and Client/Connect connect_server and
--   main.
-- - Tests: the theorems at concrete inputs.
--
-- How it is modelled. A char is a number below 256, a u32 or i32 its 32 bits with the wrap-around
-- written out, int_t of the pool a signed integer. A pointer is an address, or `none` for null; a
-- session is known by the address of it, and sessions and tasks live in functions from addresses.
-- Undefined behaviour (a null or dangling pointer, a buffer that overflows) is a result of its own.
-- What comes from outside is an argument: the results of pthread calls, calloc and rand, libevent
-- (Bufferevent), libmysqlclient (Mysql, Rows), iniparser (Iniparser) and libprotobuf (Wire, Library). Loops
-- are structural, and the loop of a worker is a step relation. Only the loop over the fields of a
-- message runs on fuel, one more than there are bytes: each turn but the last takes at least one.
--
-- In Server/Run a client does not hang up, and is not timed out, while its session is in SS_RESPONSE:
-- what happens otherwise is undefined (Dispatch/Answer/Deliver). A worker runs svc in one step, at its
-- end.
--
-- Not modelled: the logs, what is printed but for dump, the mutexes of the event handler and of the
-- response queue (each section that they guard is one step), the clock of libevent, descriptors and
-- swaps of messages, sums of sizes beyond a size_t, and the texts of the two tables.
pub mod Base
pub mod Events
pub mod Protobuf
pub mod Net
pub mod Pool
pub mod Dispatch
pub mod Client
pub mod Config
pub mod Sql
pub mod User
pub mod Server
pub mod Tests
