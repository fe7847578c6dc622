-- ===== src/Sock.antt =====
-- The socket that the control block works on, udt/udt_socket.h: its buffers, its pending operations
-- and its control block in one state. What it asks of the io_service and of the UDP socket is a list
-- of effects, the latest last.
pub mod Sending
pub mod Counted
use udt_boost.Base.{ℕ, Bool, if◌then◌else◌, List, [], ◌∷◌, ◌++◌, Option, none, length, add32, sub32}
use udt_boost.Packet.{Hdr}
use udt_boost.Buf.{Buf, RcvBuf, append}
use udt_boost.Cb.{Cb, Error}

-- A pending `send_operation`: the bytes, and the number that stands for the handler.
pub record SendOp : Type 0 where
  pub buf : List ℕ
  pub handler : ℕ

-- A pending `recv_operation`: the size of the buffer, and the handler.
pub record RecvOp : Type 0 where
  pub buf_len : ℕ
  pub handler : ℕ

pub data Effect : Type 0 where
  -- A datagram: the header in network order, the options, the data.
  send_to : Hdr → List ℕ → List ℕ → Effect
  -- Handlers posted to the io_service: of a send with the size, of a receive with the bytes, of a
  -- connect, an accept and a shutdown.
  post_send : ℕ → Option Error → ℕ → Effect
  post_receive : ℕ → Option Error → List ℕ → Effect
  post_connect : ℕ → Option Error → Effect
  post_accept : ℕ → Option Error → ℕ → Effect
  post_shutdown : ℕ → Option Error → Effect
  -- Calls of the UDP socket, the mtu prober and the delay timer.
  probe_mtu : ℕ → Effect
  cancel_mtu : Effect
  receive_from : Effect
  cancel_next_layer : Effect
  start_delay : Effect
  cancel_delay : Effect

pub record Sock : Type 0 where
  pub cb : Cb
  pub snd_buf : Buf
  pub rcv_buf : RcvBuf
  -- `next_layer_ != NULL`
  pub attached : Bool
  pub peer_ep : ℕ
  pub remote_ep : ℕ
  pub send_ops : List SendOp
  pub recv_ops : List RecvOp
  pub connect_handler : Option ℕ
  pub accept_handler : Option ℕ
  pub shutdown_handler : Option ℕ
  -- `mtu_prober_ != NULL`
  pub probing : Bool
  pub pending_data : ℕ
  -- the bit `UDT_KEEPALIVE` of `so_options_`
  pub keepalive : Bool
  -- `GetTickCount()`, and what the memory of the local `rcv_win` of `output` holds
  pub clock : ℕ
  pub junk : ℕ
  -- an access outside an object has happened: what follows is out of the model
  pub fault : Bool
  pub effects : List Effect

abbrev pub emit : Effect → Sock → Sock
emit e s = record s { effects = s.effects ++ e ∷ [] }

abbrev pub on_cb : (Cb → Cb) → Sock → Sock
on_cb f s = record s { cb = f s.cb }

-- `total_buffer_size`.
abbrev pub total_buffer_size : Sock → ℕ
total_buffer_size s = add32 s.pending_data s.snd_buf.cc

-- The loop of `consume_pending_data`: the operations that the send buffer takes are done, in order,
-- up to the first that it refuses. What is consumed is counted.
unfoldable pub consume_ops : List SendOp → Sock → Sock × ℕ
consume_ops [] s = (record s { send_ops = [] }, 0)
consume_ops (op ∷ ops) s =
    let (buf, taken) = append op.buf s.cb.maxseg s.snd_buf in
    let next = emit (post_send op.handler none (length op.buf)) (record s { snd_buf = buf }) in
    let (rest, consumed) = consume_ops ops next in
    if taken then (rest, add32 consumed (length op.buf)) else (record s { send_ops = op ∷ ops }, 0)

unfoldable pub consume_pending_data : Sock → Sock × ℕ
consume_pending_data s =
    let (s', consumed) = consume_ops s.send_ops s in
    (record s' { pending_data = sub32 s'.pending_data consumed }, consumed)
