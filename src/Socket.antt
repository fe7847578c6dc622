-- ===== src/Socket.antt =====
-- The socket's own operations, udt/udt_socket.cpp. A call on a socket that is closed does nothing.
pub mod Limits
use udt_boost.Base.{
  ℕ, Bool, true, false, not, ◌&&◌, ◌||◌, if◌then◌else◌, ◌==◌, List, [], ◌∷◌, ◌++◌, Option, none,
  some, length, is_empty, add32,
}
use udt_boost.Packet.{Packet}
use udt_boost.Buf
use udt_boost.Buf.{RcvBuf, clear, clear_rcv}
use udt_boost.Cb
use udt_boost.Cb.{Cb, Error, operation_aborted, set_mtu}
use udt_boost.Sock.{
  Sock, SendOp, RecvOp, post_send, post_receive, receive_from, emit, on_cb, consume_pending_data,
}
use udt_boost.Output.Round.{output}
use udt_boost.Notify.{failed, recv_data, do_probe_mtu, on_disconnected, cancel}
use udt_boost.Input.Segment.{input}
use udt_boost.Usrreq

-- The socket that the constructor and `create` leave: the control block is new, the mtu prober is
-- there, and the UDP socket is attached. What memory and clock hold is `garbage` and `clock`.
unfoldable pub create : ℕ → ℕ → Sock
create garbage clock = record {
  cb = Cb.init garbage;
  snd_buf = Buf.init garbage;
  rcv_buf = record { buf = Buf.init garbage; reasm_pkts = [] };
  attached = true;
  peer_ep = 0;
  remote_ep = 0;
  send_ops = [];
  recv_ops = [];
  connect_handler = none;
  accept_handler = none;
  shutdown_handler = none;
  probing = true;
  pending_data = 0;
  keepalive = false;
  clock = clock;
  junk = garbage;
  fault = false;
  effects = [];
}

abbrev pub do_receive : Sock → Sock
do_receive s = if s.attached then emit receive_from s else s

unfoldable pub async_connect : ℕ → ℕ → Sock → Sock
async_connect rep handler s =
    let named = record s { connect_handler = some handler; peer_ep = rep } in
    if s.attached then (Usrreq.connect (do_receive (do_probe_mtu named))).0 else s

unfoldable pub async_accept : ℕ → ℕ → Sock → Sock
async_accept rep handler s =
    let named = record s { accept_handler = some handler; peer_ep = rep } in
    if s.attached then (Usrreq.accept (do_receive named)).0 else s

-- `handle_mtu`, with the socket alive: the result of the probe is not used.
unfoldable pub handle_mtu : Sock → Sock
handle_mtu s = if s.attached then on_cb (set_mtu 1006) (record s { probing = false }) else s

-- `async_send`. An empty buffer, or a connection with an error, is answered at once.
unfoldable pub async_send : List ℕ → ℕ → Sock → Sock
async_send bytes handler s =
    let op : SendOp = record { buf = bytes; handler = handler } in
    let queued = record s {
      send_ops = s.send_ops ++ op ∷ [];
      pending_data = add32 s.pending_data (length bytes);
    } in
    let (s', consumed) = consume_pending_data queued in
    let sent : Sock = if consumed == 0 then s' else (output s').0 in
    if not s.attached
    then s
    else if is_empty bytes || failed s.cb.last_error
    then emit (post_send handler s.cb.last_error 0) s
    else sent

unfoldable pub async_receive : ℕ → ℕ → Sock → Sock
async_receive buf_len handler s =
    let op : RecvOp = record { buf_len = buf_len; handler = handler } in
    let queued = recv_data (record s { recv_ops = s.recv_ops ++ op ∷ [] }) in
    if not s.attached
    then s
    else if buf_len == 0 || failed s.cb.last_error
    then emit (post_receive handler s.cb.last_error []) s
    else queued

unfoldable pub async_shutdown : ℕ → Sock → Sock
async_shutdown handler s =
    if s.attached then (Usrreq.shutdown (record s { shutdown_handler = some handler })).0 else s

-- `close`: the control block and the prober are deleted, and the buffers emptied. A deleted control
-- block has been closed by its destructor, and is not used again.
unfoldable pub close : Sock → Sock
close s =
    let c = Usrreq.close (record (cancel s) { attached = false; probing = false }) in
    if s.attached then record c { snd_buf = clear s.snd_buf; rcv_buf = clear_rcv s.rcv_buf } else s

-- `setsockopt` for the options that it knows.
pub data SockOpt : Type 0 where
  udt_keepalive : Bool → SockOpt
  udt_snd_buf udt_rcv_buf : ℕ → SockOpt

unfoldable pub setsockopt : SockOpt → Sock → Sock
setsockopt (udt_keepalive v) s = record s { keepalive = v }
setsockopt (udt_snd_buf v) s = record s { snd_buf = record s.snd_buf { hiwat = v } }
setsockopt (udt_rcv_buf v) s = record s {
  rcv_buf = record s.rcv_buf { buf = record s.rcv_buf.buf { hiwat = v } };
}

-- `getsockopt`, by the option's number; `none` stands for -1.
unfoldable pub getsockopt : ℕ → Sock → Option ℕ
getsockopt optname s =
    if optname == 1
    then some (if s.keepalive then 1 else 0)
    else if optname == 2
    then some s.snd_buf.hiwat
    else if optname == 3
    then some s.rcv_buf.buf.hiwat
    else none

-- What completes a receive: a datagram with its sender and its size, or an error.
pub data Received : Type 0 where
  datagram : ℕ → Packet → ℕ → Received
  receive_failed : Error → Received

abbrev is_aborted : Error → Bool
is_aborted operation_aborted = true
is_aborted _ = false

-- `handle_receive`: only the peer's datagrams are read.
unfoldable pub handle_receive : Received → Sock → Sock
handle_receive (datagram ep p bytes_received) s =
    let from = record s { remote_ep = ep } in
    let (read, _) = input p bytes_received from in
    if s.attached then do_receive (if ep == s.peer_ep then read else from) else s
handle_receive (receive_failed e) s =
    if s.attached && not (is_aborted e) then on_disconnected s else s
