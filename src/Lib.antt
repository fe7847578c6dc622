-- ===== src/Lib.antt =====
-- udt-boost: a reliable, ordered byte stream over UDP, after the TCP of 4.4BSD. This development
-- models the protocol of udt/: the control block `udt_cb`, the packet buffers `udt_buf` and the
-- socket `udt_socket` that owns them; the engine that runs the sockets on one thread; and the
-- clients that look at the network before a connection. It proves what the theorems at the end
-- list.
--
-- The parts. A socket has one control block, a send buffer, and a receive buffer with the packets
-- that came out of order. The user's calls queue bytes and receive operations, and ask the control
-- block to connect, accept, shut down. A datagram is handed to `udt_cb::input`, which moves the
-- sequence variables, the state and the buffers, and then tells the socket (`commit_notifies`). Two
-- interval timers count down the four timers of the control block. All of them send through
-- `udt_cb::output`. The engine, `udt_engine`, hands out the handles of the sockets, queues the user's
-- calls, and performs each on its thread. Four clients run on asio before a connection: one asks a
-- server for the public address, one finds the type of the NAT, one punches holes to the peer, and one
-- probes for the mtu. They hear of stale handlers by a tracker.
--
-- The files.
--   Seq         the modular comparisons, udt/udt_defs.h
--   Packet      the header, its flags and its wire form, udt/udt_defs.h and udt/udt_defs.cpp
--   Buf         udt/udt_buf.h and udt/udt_buf.cpp: alloc, copy, append, fin, clear
--   Cb          the control block, udt/udt_cb.h and udt/udt_cb.cpp; Cb.Rtt: udt/udt_sub.cpp
--               (xmit_timer, enter_persist); Cb.Congestion: the congestion window and
--               `can_send_bytes`; Cb.Window: the inline updates of the sequence variables
--   Sock        the state of udt/udt_socket.h, and `consume_pending_data`
--   Options     udt/udt_option.h, udt/udt_option.cpp, and the compose functions of
--               udt/udt_cb_output.cpp; Options.Handle: `handle_options`, `handle_option_sack` and
--               `drop_acked_data` of udt/udt_cb_input.cpp
--   Output      udt/udt_cb_output.cpp: get_snd_pkt, validate_first_pkt; Output.Round: `output`
--   Reass       TCP_REASS, tcp_reass and merge_reasm_pkts of udt/udt_cb_input.cpp
--   Notify      the callbacks of udt/udt_socket.cpp, respond and drop of udt/udt_sub.cpp, and
--               commit_notifies of udt/udt_cb_input.cpp
--   Input       the handlers of udt/udt_cb_input.cpp; Input.Segment: header prediction and `input`
--   Timo        udt/udt_timo.cpp
--   Usrreq      udt/udt_usrreq.cpp
--   Socket      the asynchronous operations of udt/udt_socket.cpp
--   Machine     the state diagram of a connection, as a relation
--   Engine      the engine, udt/udt_engine.h and udt/udt_engine.cpp: the registry of the sockets, the
--               queue of requests, the thread's start and stop
--   Tracker     udt/tracker.h; Timer: udt/timer.h and udt/timer.cpp; Asio: the error codes that
--               handlers hear
--   Singleton   udt/singleton.h, of which the engine is one: threads whose steps come in any order
--   HolePunch   the hole punching client, udt/udp_hp_clt.h and udt/udp_hp_clt.cpp
--   Mtu         the mtu prober, udt/udt_mtu.h and udt/udt_mtu.cpp
--   PubAddr     the public address client, udt/udp_pub_addr.h and udt/udp_pub_addr.cpp
--   ChkNat      the NAT check, udt/udp_chknat.h and udt/udp_chknat.cpp
--   Endpoint    endpoints, parse_endpoint (udt/udp_pub_addr.cpp) and get_local_endpoints_v4
--               (udt/utils.h); Text: C strings as lists of bytes; htonll is in Packet.Wire
--   Base        the names and lemmas that they share; Examples: concrete runs
-- The proofs stand in child modules named for what they prove: Buf.Accounting, Buf.Stream and
-- Buf.Queue (a buffer as a queue of bytes), Sock.Sending and Sock.Counted, Options.Dropping,
-- Options.RoundTrip and Options.Fuel, Output.Frame, Output.Marks and Output.Retrans, Reass.Order
-- and Reass.Stream, Notify.Sent and Notify.Delivery, Input.Quiet, Input.Growth, Input.Reliable,
-- Input.Acks, Input.Retrans, Input.Counted, Notify.Counted and Input.Fin, Machine.Keep,
-- Machine.Moves, Machine.Timers and Machine.Retries, Engine.Sockets, Engine.Missing, Engine.Life, Engine.Closing and
-- Engine.Thread, HolePunch.Table, HolePunch.Sending, HolePunch.Replies,
-- HolePunch.Meeting, HolePunch.Waiting,
-- HolePunch.Knows and HolePunch.Heard, Mtu.Ends, Mtu.Told, Mtu.Once and Mtu.Echo, PubAddr.Answers
-- and PubAddr.Retry, ChkNat.Types and ChkNat.Bounds, Text.Digits, Timer.Quiet, Socket.Limits,
-- Singleton.Places and Singleton.Agreement.
--
-- How the code is read. The build is for 32-bit Windows, without debug assertions: `u_long`, `long`,
-- `size_t` and `int` have 32 bits, `short` has 16, and a negative number is its two's complement;
-- every wrap-around is written out, with the operators of Base.Word. A byte of flags is a record of
-- Booleans, one for each bit. A state is a record, a member function a function on it, in the order of
-- the source's statements. A function that returns a flag and changes the state gives a pair. What
-- asio or the UDP socket is asked to do is an effect, in a list of the socket's. `GetTickCount()` is
-- the field `clock`, a handler is a number, an endpoint too. The allocator is not modelled: a packet
-- that is freed is one that no list holds. Memory that the code does not initialise is a parameter,
-- `garbage` or `junk`; where it reads or writes outside an array, the field `fault` is set. What code
-- outside the repository answers is an argument: `net` (the socket under a send), `from_string` (the
-- text of an address), `found` (the resolver), and `Env` of the engine.
--
-- Loops are structural on the list they walk, but for these. `segments` and `handle_options` have
-- fuel, one for each byte, since each round takes a byte at least. `output_loop` counts
-- `send_packets_clamp` rounds, and the client of HolePunch its 20 sends, as the code does. `send_loop`
-- of Mtu has fuel: without a hint each round takes the next of the 10 maximums, so that 11 are enough,
-- and with a hint that is too big none is. `digits` of Text has one round more than its number, which
-- each round divides by 10.
--
-- Not modelled: asio's sockets, timers and resolver, and the options of the raw sockets; the thread
-- itself, of which the engine's model has the order of the requests; `ticker` and `win_event`, which
-- wrap the system's clock and event; logging; the texts of the errors (udt/udt_error.cpp); the analyzer
-- and the test programs.
mod Base
pub mod Seq
pub mod Packet
pub mod Buf
pub mod Cb
pub mod Sock
pub mod Options
pub mod Output
pub mod Reass
pub mod Notify
pub mod Input
pub mod Timo
pub mod Singleton
pub mod Timer
pub mod Usrreq
pub mod Socket
pub mod Machine
pub mod Asio
pub mod Tracker
pub mod Text
pub mod Endpoint
pub mod PubAddr
pub mod ChkNat
pub mod HolePunch
pub mod Mtu
pub mod Engine
mod Examples
