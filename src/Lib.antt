-- ===== src/Lib.antt =====
-- LiteMQTT, an MQTT v3.1.1 client library in C++ (inc/litemqtt), as a model with its theorems.
--
-- The library is a stack. The codec (buffer_writer.hpp, buffer_reader.hpp,
-- packet_type.hpp, packets.hpp) turns packets into bytes and back. A connection (connection.hpp)
-- cuts the bytes that a socket delivers into packets and writes packets one after another. A client
-- (client.hpp) keeps what waits for an acknowledgement, answers packets and retries. A helper
-- (mqtt_helper.hpp) owns a client and decides when to connect again.
--
-- Codec: bytes and strings are lists of numbers. Codec/Writer and Codec/Reader hold the two buffer
-- classes, operation for operation; a read returns its flag, what the caller's variable holds
-- afterwards and the reader. Codec/Packets has one serialize and one parse function for each packet
-- structure. The loops of write_remaining_length and read_remaining_length take fuel 5: a uint32_t
-- has at most five digits to the base 128, and the reader stops in its fifth round. Sums of a
-- position and a length of at most 2 ^ 16 are not reduced modulo 2 ^ 64, since a vector is shorter
-- than 2 ^ 63 bytes; those of read_bytes and skip are. When such a sum wraps, read_bytes copies from
-- behind the buffer: the reader's flag `overrun` says so, and the bytes that are there stand for what
-- it copies.
--
-- Connection: Connection/Framing runs the completion handlers of the reads in their order, over an
-- asio::async_read that is a parameter (Connection/Asio states what is relied on). A write outside
-- an array sets the flag `stray_write`, behind which the code runs on as if it had done nothing. The
-- four steps of fuel are the room left in the array of length bytes and one. Connection/Writes is the write queue as a machine over events: each event is a task
-- or a completion that the io thread runs, and its effects are the handlers called, the tasks posted
-- and the writes started. Within one event a handler can only call close(), which the event says.
--
-- Client: Client.antt has the state of an mqtt_client (client.hpp). Client/Sending and
-- Client/Receiving hold its operations and handlers, Client/Session the end of a session and the
-- completion handlers of its writes, Client/Ids the choice of packet ids. `trace` records the calls of
-- the application's callbacks and the writes that are posted. Callbacks of the application return
-- without calling the client. Client/Events is the client as a machine over what the io thread can
-- run, in any order: a timer may also expire when it is not armed. The search for a packet id has as
-- much fuel as there are ids. conn_->close() is unrolled once, since a connection that is closed
-- calls no handlers. Client/ReadLoop is the read loop over a whole stream, with the framing of
-- Connection/Framing and the handlers of the client, over an asio::async_read that is told whether the
-- socket is open; it takes one round for each packet and one for the error that ends it.
--
-- Helper: Helper.antt is the state of mqtt_helper (mqtt_helper.hpp), with the client that it owns.
-- Helper/Policy holds the configuration and the reconnect policy, Helper/Callbacks the callbacks that
-- setup_callbacks() installs and what the application asks for, Helper/Lifecycle start() and stop().
-- The callbacks that a client calls in one operation are handed to the helper behind that operation,
-- in their order. Helper/Events is the helper as a machine: the calls of the application and the tasks
-- and completions that the io thread runs, in any order. Tasks posted through the helper run in the
-- order in which they were posted, each on the client for which it was posted. stop() is two events,
-- up to its wait and behind it; whether it runs on the io thread is an argument. A wait of the backoff
-- timer that is cancelled is counted, and its completion runs later, with an error or, if it had
-- expired by then, without one. A client that the helper lets go lives on among those that handlers in
-- the io_context hold, and can still run.
--
-- Log: log.hpp is apart from the rest. The sinks are a list of what they were given; a handler that
-- throws has been given its record. Log/Stream has the life of one stream. Errors: error.hpp.
--
-- Tools: tools/reconnect_stress.cc drives the library against a broker of its own. Tools/Broker is
-- what this broker does with the bytes of one session, over a std::atoll that is a parameter, and
-- Tools/Stats its account of publish callbacks. Tools/Links is its listener with its sessions, as a
-- machine over what its io thread runs; whether the port can be bound is an argument. Tools/Schedule
-- has its schedules, and Tools/Probe the framing of the broker of tools/reconnect_probe.cc. The fuel
-- of the loops over packets is the length of the buffer, of which each packet takes at least two
-- bytes.
--
-- Not modelled: asio itself, threads and mutexes, host name resolution, text output; the demo
-- (main.cc) and the drivers of the tools, which run over a live network, wait and print; the hooks
-- that client.hpp has for tests.
pub mod Prelude
pub mod Codec
pub mod Connection
pub mod Client
pub mod Helper
pub mod Log
pub mod Errors
pub mod Tools
