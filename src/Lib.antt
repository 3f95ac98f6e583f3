-- ===== src/Lib.antt =====
-- A verification library for the core of Cocaine, the application cloud: HPACK header compression, the
-- error registrar, request traces, the RPC layer from the framing of messages to sessions, the context
-- with its configuration, services, ports and signals, dynamic values, the locator with its routing, the
-- ad hoc gateway and the discovery of nodes, the file storage, the handling of system signals, and the
-- access control of storage and events.
--
-- How the parts interact: a session reads messages with a readable stream and a decoder, which keeps an
-- HPACK table of headers, gives each to the dispatch of its channel, and answers through message queues,
-- an encoder and a writable stream. Requests carry a trace, which a session restores around its slots.
-- The context starts the services of its configuration and fires signals, by which the locator learns of
-- them; a cluster tells the locator which nodes to link and to drop; the locator announces services to
-- linked nodes and hands theirs to the gateway.
--
-- Files and the code they model:
-- - Base: Boolean tests, lists and association lists, which stand for std::map and std::set.
-- - Hpack.Header, Hpack.Headers: include/cocaine/hpack/header.hpp, src/header.cpp and
--   include/cocaine/hpack/header_definitions.hpp. Bytes are numbers.
-- - Hpack.StaticTable, Hpack.Table: include/cocaine/hpack/static_table.hpp and header_table_t. The deque
--   is a list, front first; `evict` is the loop of `push` and walks the reversed list.
-- - Hpack.Msgpack: include/cocaine/hpack/msgpack_traits.hpp, over msgpack objects.
-- - Errors, Errors.Codes, Errors.Registrar: include/cocaine/errors.hpp and src/errors.cpp.
-- - Trace: include/cocaine/trace/trace.hpp and src/trace.cpp. The trace of the thread is passed on.
-- - Rpc.Buffers, Rpc.Encoder, Rpc.Decoder, Rpc.Framing: include/cocaine/rpc/asio/encoder.hpp and
--   decoder.hpp, src/encoder.cpp and src/decoder.cpp. What msgpack makes of bytes is a parameter.
-- - Rpc.Writable, Rpc.Readable: writable_stream.hpp and readable_stream.hpp in
--   include/cocaine/rpc/asio. The answers of the socket are arguments, and what a call asks of the
--   socket or posts to the event loop is part of its result.
-- - Rpc.Session, Rpc.Session.Handle: include/cocaine/rpc/session.hpp and src/session.cpp. Dispatches are an interface whose
--   `process` may use the session; `UsesCalls` says that it does so only by fork, revoke and detach.
-- - Rpc.Slots: include/cocaine/rpc/dispatch.hpp and the slots of include/cocaine/rpc/slot.
-- - Rpc.Queue: include/cocaine/rpc/queue.hpp, and streamed.hpp and deferred.hpp in
--   include/cocaine/rpc/slot. What a message holds after it was moved from is not modelled: after an
--   `attach` that throws and a second one, nothing is said of the messages sent.
-- - Context.Ports: include/cocaine/context/mapper.hpp and src/context/mapper.cpp.
-- - Context.Core: src/context.cpp. What the factory of a configured service gives is an argument, an
--   actor is an interface whose `run` may throw, and the signals fired are a list.
-- - Context.Config: src/context/config.cpp. What the system answers is left out.
-- - Context.Signal: include/cocaine/context/signal.hpp. Asynchronous calls are a list of posted slots.
-- - Signals, Signals.Token, Signals.Engine: include/cocaine/signal.hpp and src/signal.cpp. What sigwaitinfo
--   gives is a list, and what a handler asks for while it is called is a function.
-- - Gateway: include/cocaine/detail/gateway/adhoc.hpp and src/gateway/adhoc.cpp.
-- - Locator.Continuum: src/service/locator/routing.cpp.
-- - Locator.Node, Locator.Links, Locator.Routers, Locator.Sinks:
--   include/cocaine/detail/service/locator.hpp and src/service/locator.cpp, with the gateway of Gateway
--   and the streams of Rpc.Queue. What asio and the storage answer are arguments.
-- - Storage, Storage.Find, Storage.Order: src/storage/files.cpp over an interface of the file system.
--   Storage.Disk is a file system in memory for the tests.
-- - Cluster: src/cluster/multicast.cpp and src/cluster/predefine.cpp. What the socket gives and when timers
--   expire are events.
-- - Dynamic, Dynamic.Converters: include/cocaine/dynamic and src/dynamic.cpp.
-- - Authorization.Storage: src/authorization/storage.cpp and src/authorization/storage/metainfo.hpp.
-- - Authorization.Event: src/authorization/event.cpp, over notices of unicorn in their order.
--
-- Errors are values: Option where the code throws one exception, and sums where the kind of the failure
-- counts. Undefined behaviour is a result of its own.
--
-- Bounds and fuel: the loop that grows the buffer of the encoder runs on fuel, one more than the size
-- needed, and `write-contents` shows that this is enough. Channel numbers and the indices of
-- signal handlers are kept below 2^64 with their wrap-around, ports below 2^16; sizes of data in memory
-- are unbounded numbers.
--
-- Not modelled: sockets, threads and event loops, logging and metrics, template metaprogramming, the
-- msgpack, asio and boost libraries, the reading of configuration files, plugins, and the logging
-- service and the runtime daemon, which are input and output.
pub mod Base
pub mod Hpack
pub mod Rpc
pub mod Signals
pub mod Context
pub mod Authorization
pub mod Gateway
pub mod Errors
pub mod Storage
pub mod Trace
pub mod Dynamic
pub mod Locator
pub mod Cluster
