-- ===== src/Lib.antt =====
-- A model of the C++ library networkio (library/src, library/inc/networkio): buffers of bytes,
-- packets that are written to and read from them, hashes of names, the protocol that sends packets
-- in frames over a connection, the sockets that are such connections, with their servers, calls of
-- named endpoints over the protocol, and HTTP.
--
-- The parts:
--   Base        names of the library, Boolean tests, lists, `int32_t`
--   Memory      blocks of malloc, realloc and memcpy (Memory.Block, Memory.Slices), a queue of
--               bytes with its calls and replies as specification (Memory.Queue), and the three
--               buffers: library/src/memory/fifo_buffer.cpp (Memory.Fifo), ring_buffer.cpp
--               (Memory.Ring) and shared_buffer.cpp (Memory.Shared), with their headers
--   Hash        library/inc/networkio/fnv1a.h
--   Interfaces  library/inc/networkio/interfaces/client.h and server.h: the connection and its
--               server, as records of operations on a state that is a parameter, and the laws of a
--               stream that is read from or written to: hypotheses of Proto.Framing, which Socket
--               fills
--   Proto       library/src/proto/packet.cpp and its header (Proto.Packet), the bytes of a number
--               (Proto.Wire), library/src/proto/packet_proto.cpp and its header (Proto.Framing, with
--               Header, Receive, Pending, Stream, Reassembly and Search for reading, and Send,
--               Order and Enqueue for writing)
--               library/src/proto/string_proto.cpp (Proto.StringProto)
--   Mux         library/src/mux/mux_client.cpp and its header (Mux.Client, with Calls): endpoints
--               that are named by a hash, calls of them, and the dispatch of what is received;
--               mux_server.cpp and its header (Mux.Server), which serves such clients over Proto
--   Socket      library/src/socket/socket.cpp (Socket, and Socket.Address for `sockaddr_cmp`), tcp.cpp
--               (Socket.Tcp, with Rounds, Outcomes, Promises, Stream, Sink and Lifecycle), unix.cpp
--               (Socket.Unix), udp.cpp (Socket.Udp), and concurrent_server.cpp (Socket.Concurrent, with
--               Threads for its worker threads), with their headers. Socket.System is the operating
--               system: its calls are a parameter. Socket.Pipe is one such system, for the tests
--   Http        library/src/http and its headers: http_status.h (Http.Status), http_parser.cpp
--               (Http.Parser), http_request.cpp (Http.Request), http_response.cpp (Http.Cookie and
--               Http.Response), http_server.cpp (Http.Server, and Http.Server.Handler for the handler
--               of one connection), http_session_store.cpp (Http.Session), http_client.cpp
--               (Http.Client) and http_url.h (Http.Url, with Blocks for what it allocates)
--   Text        library/src/stringutil.cpp, and `stoi` and `atoi` of the standard library
--               (Text.Numbers)
--
-- `packet_proto` and the handlers of HTTP call a connection, the servers of Mux and of HTTP are
-- `concurrent_server`s whose handlers are clients of a socket's server, and the HTTP classes call each
-- other as the source does: request and response the parser, the server the session store.
--
-- How state and operations correspond to the code: a class is a record with the class's fields, a
-- method a function from the record to an `Option` of its result and the record afterwards. `none`
-- is undefined behaviour: an access outside a block or through a pointer to a freed one, or a
-- signed overflow. A block is a list of its bytes; fresh bytes are given by `junk`, which is a
-- parameter and can be anything. An allocation succeeds. `int32_t` counts that are never negative
-- are natural numbers below 2^31, arguments that may be negative are of the type `ℤ`, and `uint32_t`
-- arithmetic is written out modulo 2^32. An overload is named for what it does: `pop_front_into` is
-- `pop_front` with a destination, `inner_pop_front` is `_pop_front`, `make` and `copy` are
-- constructors. A pointer into a buffer's block is the number of the block and an index: `realloc`
-- makes a new block, so that a pointer into an earlier one is seen to dangle.
--
-- Methods that lock a mutex hold it from the first access of a member to their return, so each is
-- one step, and a program is a sequence of calls. The search for a header in Proto.Framing and the
-- loop of `strip` in Text run on fuel: each round removes a byte, and they are given as many rounds
-- as there are bytes.
--
-- The loops of `read_raw` and `write_raw` in Socket.Tcp run as many rounds as there are bytes wanted:
-- each round but the last moves one byte at least. A loop that may go on without end takes a
-- number of rounds, and `none` says that it goes on after them: `run` in Socket.Concurrent,
-- `receive_all` in Mux.Server, the search for a session id in Http.Session, and sending, waiting and
-- repeating a request in Http.Client. Threads in Socket.Concurrent are steps of a relation, in any
-- order.
--
-- A callback of Mux and the function of an HTTP endpoint are numbers, and what they do is a
-- parameter; so are the time, files, and the name service.
--
-- Not modelled: TLS, which is calls of Botan, and the lookup of host names, a call of the platform;
-- `request_async` of the HTTP client, a thread that runs `request_sync`; the user data of sessions and
-- of mux clients, with mux_memory; of `mux_client` the set up of a connection and the loop of `process`
-- with its reconnect; packets that share one buffer; the branches for other systems than Linux, and
-- the branch of the server's worker without MANY_CONNECTIONS, which is always defined.
pub mod Base
pub mod Hash
pub mod Http
pub mod Interfaces
pub mod Memory
pub mod Mux
pub mod Proto
pub mod Socket
pub mod Text
