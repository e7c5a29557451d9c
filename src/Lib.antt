-- ===== src/Lib.antt =====
-- The SIP event processor: a model of the program and proofs about it.
--
-- The program keeps SIP subscriptions, for call monitoring (BLF) and for waiting messages (MWI).
-- The Sofia SIP library and a feed of call states hand it events. A dispatcher sends each event
-- to the worker thread that its dialog's identifier hashes to; a worker keeps the dialogs'
-- records and queues, answers SUBSCRIBE requests, sends NOTIFY requests, and removes
-- subscriptions that have ended. Two tables of the process are shared: the registry of
-- subscriptions, with a count for each tenant, and the index from a monitored URI to the dialogs
-- that watch it. A reaper asks the workers to end stale subscriptions.
--
-- Files, and the code that they model (paths from the repository's root):
--   Prelude            shared names: texts as lists of bytes, tests on numbers, search in texts,
--                      signed integers, association lists
--   Types              include/common/types.h, include/subscription/subscription_type.h,
--                      include/presence/call_state_event.h and the enumerations of others
--   Config             the fields of include/common/config.h that the workers read; Config.Ini and
--                      Config.Load are src/common/config.cpp: the file's reader, and the settings
--   SlowEventLogger    src/common/slow_event_logger.cpp
--   Logging            include/common/logger.h and src/common/logger.cpp: the sinks and their rotation
--                      (Sink), the printing of a line and the logger (Logger); Files is the interface
--                      of the C library's files, Format and the children of Sink are proofs
--   Sip                src/sip/sip_event.cpp (Event), src/sip/sip_dialog_id.cpp (DialogId),
--                      src/sip/sip_callback_handler.cpp (Callback) and src/sip/sip_stack_manager.cpp
--                      (Stack, with the order of Sofia's calls in Stack.Order)
--   Subscription       src/subscription: the record and the registry (Record, Registry), the index
--                      and the normal form of URIs (Index, Uri), the two processors (Blf, Mwi)
--   Dispatch.World     what a worker shares with the other components
--   Dispatch.Worker    src/dispatch/dialog_worker.cpp: the state (State), the messages sent (Send),
--                      the processing of one event (Events), what comes in (Intake), one round of
--                      the loop (Loop), start, stop, recovery and the stale scan (Admin); the other
--                      children are proofs
--   Dispatch.Dispatcher  src/dispatch/dialog_dispatcher.cpp
--   Dispatch.Reaper    src/dispatch/stale_subscription_reaper.cpp
--   Presence           src/presence: the reader of the feed's XML (Parser), the client of the feed
--                      (TcpClient), the choice of its server (Failover), and the router that turns a
--                      call event into triggers for its watchers (Router)
--   Persistence        src/persistence: the subscription store (Store, and Store.Sync for its queue)
--                      and the database client (Client); Pool is the interface of the MongoPool library
--   Http               src/http/http_server.cpp (Server, and Listener for its socket and thread),
--                      src/http/health_handler.cpp (Health) and src/http/stats_handler.cpp (Stats,
--                      Stats.Details); Json describes what the reports print, and Json.Escape
--                      how JSON is printed with its strings escaped
--   Main               src/main.cpp: the start, the recovery and the end of the program
--   Examples           the theorems at concrete inputs
--
-- How the code is read. A method that holds its lock throughout is one function on the state. A
-- worker's loop is a function for one round (`run_round`); the calls of other threads come
-- between rounds, and `Step` and `Reach` (Dispatch.Worker.Limits for one worker,
-- Dispatch.Dispatcher.Ownership for all) range over their interleavings. The clock is an
-- argument: one reading for a handler, and `Times` for a round. A TimePoint is a number of
-- nanoseconds, with 0 for `TimePoint{}`. A std::string is a list of bytes; a map is an
-- association list, whose order stands for the unspecified one. The 32-bit version and sequence
-- counters wrap; the 64-bit statistics are plain numbers. A worker sees the SIP stack, and the
-- subscription store, as the list of the calls made of it. A `sip_t` is the record of the header
-- fields that are read; the hash of a string and the printing of a pointer are parameters. So are
-- the MongoPool library (the record MongoPool, with the laws MongoLaws that the store relies on),
-- the C library's files (the record Files, with the laws FileLaws, and FileAnswers where no call
-- is to fail), what the socket calls of the feed's client and of the HTTP server give, what
-- Sofia's constructors give, the environment, and the handlers of the HTTP routes. What the
-- workers do, ask for and queue while the main thread stops the other components is an argument
-- too (Meanwhile). The components of the main program are each a state of their own: what one
-- stands for in another, such as the dispatcher that the callback handler points to, is a copy.
--
-- Bounds and fuel. The loop over the events of a chunk runs on the length of the text, and every
-- round shortens it. The substitution of environment variables runs on fuel that the caller
-- gives, and says `none` where it runs out: it need not end in the source either. Otherwise no
-- definition runs on fuel that can run out: the digits of a number are printed with its value
-- plus one as the bound, the ring of servers is scanned once around, and all other loops are
-- recursions on lists.
--
-- Not modelled: which lines are logged where (the logger itself is), the inside of the MongoDB
-- driver and of Sofia, the signals and the loop of the main program that waits for them, and the
-- registering of the routes there. A value that is only shown, such as the duration of a scan, is
-- an argument.
pub mod Prelude
pub mod Types
pub mod Config
pub mod SlowEventLogger
pub mod Sip
pub mod Subscription
pub mod Dispatch
pub mod Persistence
pub mod Http
pub mod Presence
pub mod Examples
pub mod Logging
pub mod Main
