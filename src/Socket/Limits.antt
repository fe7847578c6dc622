-- ===== src/Socket/Limits.antt =====
-- The limits of the buffers that the user sets, udt/udt_socket.cpp.
use udt_boost.Base.{ℕ, ◌+◌, ◌≡◌, ◌≤◌, ◌<◌, true, List, length, arith, u32_mod}
use udt_boost.Packet.{Packet}
use udt_boost.Buf.{append, append_pkt}
use udt_boost.Sock.{Sock}
use udt_boost.Socket.{udt_snd_buf, udt_rcv_buf, setsockopt}

-- A limit below what is buffered is no limit: if setsockopt sets the limit of a buffer below the count
-- of its bytes, the room that is left is computed below 0, and wraps; so the send buffer takes any
-- bytes, and the receive buffer any packet, up to nearly 2 ^ 32 bytes.
pub setsockopt-append :
    (v seg_size : ℕ) (bytes : List ℕ) (p : Packet) (s : Sock)
    → v < s.snd_buf.cc
    → v < s.rcv_buf.cc
    → s.snd_buf.cc < u32_mod
    → s.rcv_buf.cc < u32_mod
    → 0 < length bytes
    → 0 < seg_size
    → length bytes + s.snd_buf.cc ≤ u32_mod + v
    → p.hdr.len + s.rcv_buf.cc ≤ u32_mod + v
    → ((append bytes seg_size (setsockopt (udt_snd_buf v) s).snd_buf).1 ≡ true)
      × ((append_pkt p (setsockopt (udt_rcv_buf v) s).rcv_buf.buf).1 ≡ true)
unfolding setsockopt append append_pkt
setsockopt-append v seg_size bytes p s hs hr cs cr some_bytes seg fits_snd fits_rcv =
    (ground arith, ground arith)
