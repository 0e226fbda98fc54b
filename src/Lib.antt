-- ===== src/Lib.antt =====
-- synapse-mcp: the protocol library of a Model Context Protocol (MCP) server and client in C++.
--
-- The program. A server (include/synapse/server.hpp) borrows a transport, usually the stdio transport
-- (include/synapse/transport.hpp), whose reader thread cuts the input into lines, parses them and
-- hands each JSON value to the server, and whose writer thread writes the frames that `send` queued.
-- The server decodes a value (include/synapse/detail/message_decoder.hpp), answers initialization and
-- pings at once, and queues every other request on an executor with one worker
-- (include/synapse/detail/owned_executor.hpp). The worker runs the method; calls of tools go through
-- the admission and output policy (include/synapse/detail/server_policy.hpp) and the schema validator.
-- Every answer passes a last check of its encoded size before the transport gets it.
-- A client (include/synapse/client.hpp) sends requests and settles promises by the answers, over a
-- child process (include/synapse/process_transport.hpp) or server-sent events
-- (include/synapse/sse_transport.hpp).
--
-- The files, and how they correspond to the code:
--   Base             Boolean tests on numbers, byte strings, `std::expected`, `std::map` as a list of
--                    entries in key order, signed integers.
--   Json             JSON values as `nlohmann::json` holds them: objects in key order, unsigned,
--                    signed and floating numbers apart. Parsing, serialising and `get<int>()` are the
--                    fields of `JsonLibrary`, a parameter; `IntLaws` is what the proofs ask of it.
--   Protocol         include/synapse/protocol.hpp: the messages and descriptors, `to_json`,
--                    `from_json` (`none` where it throws).
--   RequestId        `same_request_id` of include/synapse/detail/owned_executor.hpp.
--   Decoder          include/synapse/detail/message_decoder.hpp.
--   Handlers         include/synapse/errors.hpp, handlers.hpp, server_options.hpp. A callback of the
--                    application is a function that returns `none` where it throws.
--   Policy           include/synapse/detail/server_policy.hpp. `double` is a parameter with its
--                    operations (`DoubleOps`); `ExactLaws` and `OrderLaws` are facts of IEEE 754.
--   Executor         include/synapse/detail/owned_executor.hpp: one function per critical section;
--                    `Step` interleaves the calls of any threads with the turns of the worker.
--   Transport        include/synapse/transport.hpp: encoding and queueing (Send), the reader (Reader),
--                    the writer and the steps of all threads (Writer), closing and joining (Defs).
--                    Output has the bytes that a run writes and the frames that it accepts. Sizes are
--                    `std::size_t`, 64 bits wide: sums and differences wrap around.
--   Uri              `valid_resource_uri` of include/synapse/server.hpp. The loop over the groups of
--                    an IPv6 address runs on fuel, one more than the length of the text; each turn
--                    takes at least one byte off.
--   Schema           include/synapse/detail/schema_validator.hpp: `compiled_schema::validate`
--                    (Validate), and `compile_schema` with its registration (Registration,
--                    Inspection, Compile), over jsoncons, which is a parameter (Backend). A pointer to
--                    a value is its address in a document (Nodes). The recursion and the loop over the references run on
--                    fuel: twice the values of all documents and twice the entries of the catalog,
--                    and two more, are enough for the depth, and one more than twice the values for
--                    the rounds, since a value is inspected once and adds two references at most.
--                    For the server, a compiled schema is a function from a value to the result of
--                    its validation.
--   Server           include/synapse/server.hpp. `Server D T` is the state, over the type `D` of
--                    `double` and the state `T` of the transport. Register and Lifecycle are the
--                    owner's calls, Session and Receive the reader's, Application the methods, Worker
--                    the queued call, Emit the replies and `stop`. Shared operations are told apart
--                    by a key. `Step` interleaves the critical sections. `TransportOps` is what the
--                    server's constructor takes from its transport; Stdio fills it. Specification is
--                    the session that a server promises, View the session that it holds.
--   Client           include/synapse/client.hpp and sse_transport.hpp.
--   Process          include/synapse/process_transport.hpp: the reader, and `send` and `stop` on POSIX
--                    (Defs), the constructor on POSIX (Spawn), and all three on Windows (Handles).
--   Native           include/synapse/detail/stdio_posix.hpp: waiting, reading, writing and stopping
--                    (Defs), `open` and the destructor (Kernel, Open), the SIGPIPE guard (Guard), over
--                    the answers of the system calls. A list of answers that ends is a call that does
--                    not return; eighteen answers are enough for `open`.
--   Windows          include/synapse/detail/stdio_windows.hpp: the critical sections (Defs), and the
--                    steps of one reader, one writer and any threads that cancel (Steps).
--   Tests            Concrete parameters, and the theorems at concrete inputs.
--
-- What is not modelled. Allocation failures and other exceptions of the standard library, except
-- where the code turns them into a state of its own (a start without threads, a join that throws).
-- The engine behind `compile_schema`. The test hook of the Windows endpoints. Mutexes are the
-- boundaries of the functions; memory order is not modelled. Time is a number that the caller gives.
pub mod Base
pub mod Json
pub mod Protocol
pub mod RequestId
pub mod Decoder
pub mod Handlers
pub mod Policy
pub mod Executor
pub mod Transport
pub mod Uri
pub mod Schema
pub mod Server
pub mod Client
pub mod Process
pub mod Native
pub mod Windows
pub mod Tests
