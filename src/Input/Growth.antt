-- ===== src/Input/Growth.antt =====
-- How the received stream grows when data arrives: `TCP_REASS` within `input` of
-- udt/udt_cb_input.cpp, and what the other handlers leave alone.
use udt_boost.Base.{
  ℕ, ◌≡◌, sym, ap, ◌∙◌, subst, not, ◌||◌, List, [], ◌++◌, arith, Bool-cases, inl, inr, All,
  append-nil, append_assoc, ◌==◌,
}
use udt_boost.Packet.{Packet}
use udt_boost.Buf.Accounting.{IsWhole}
use udt_boost.Buf.Stream.{stream, stream-append}
use udt_boost.Buf.Queue.{IsQueue, contents}
use udt_boost.Sock.{Sock}
use udt_boost.Reass.{tcp_reass_or_append}
use udt_boost.Reass.Stream.{tcp_reass_or_append-InOrder}
use udt_boost.Input.{drop_out_of_rcv_wnd_packet, set_rcv_wnd}
use udt_boost.Input.Segment.{ack_and_fin, take_data}
use udt_boost.Input.Quiet.{View, view, view-handle_ack}

-- What the stream of a view is, and that it only grows at its end.
abbrev pub stream_of : View → List ℕ
stream_of v = v.given ++ contents v.rcv_buf.buf

-- The buffer has no gaps, up to some number, and what has arrived has only grown at its end.
pub record Grows (v v' : View) : Type 0 where
  pub start : ℕ
  pub stop : ℕ
  pub kept : IsQueue start stop v'.rcv_buf.buf
  pub added : List ℕ
  pub grown : stream_of v' ≡ stream_of v ++ added

pub Grows-quiet : (v v' v'' : View) → v'' ≡ v' → Grows v v' → Grows v v''
Grows-quiet v v' v'' e g = subst (Grows v) (sym e) g

pub Grows-refl : (start stop : ℕ) (v : View) → IsQueue start stop v.rcv_buf.buf → Grows v v
Grows-refl start stop v q = record {
  start = start;
  stop = stop;
  kept = q;
  added = [];
  grown = sym (append-nil (stream_of v));
}

pub take_data-Grows :
    (start : ℕ) (p : Packet) (s : Sock)
    → IsWhole p
    → All IsWhole s.rcv_buf.reasm_pkts
    → IsQueue start s.cb.rcv_nxt s.rcv_buf.buf
    → Grows (view s) (view (take_data p s))
unfolding take_data
take_data-Grows start p s wp w q =
    let r = tcp_reass_or_append p (record { cb = s.cb; rcv_buf = s.rcv_buf }) in
    let m =
      tcp_reass_or_append-InOrder start p (record { cb = s.cb; rcv_buf = s.rcv_buf }) wp w q in
    let taken : Sock = record s { cb = r.cb; rcv_buf = r.rcv_buf } in
    let grown : Grows (view s) (view taken) = record {
      start = start;
      stop = r.cb.rcv_nxt;
      kept = m.kept;
      added = stream m.moved;
      grown =
          ap (λ bs. (view s).given ++ bs)
            (ap stream m.added ∙ stream-append s.rcv_buf.buf.pkts m.moved)
          ∙ sym (append_assoc (view s).given (contents s.rcv_buf.buf) (stream m.moved));
    } in
    elim (Bool-cases (not (p.hdr.len == 0) || (p.hdr.flags.syn || p.hdr.flags.fin))) [
      | inl e ↦ rw e grown
      | inr e ↦ rw e (Grows-refl start s.cb.rcv_nxt (view s) q)
    ]

pub view-ack_and_fin : (p : Packet) (s : Sock) → view (ack_and_fin p s) ≡ view s
unfolding ack_and_fin
view-ack_and_fin p s = ground (arith, view-handle_ack p s)

pub view-out_of_wnd : (p : Packet) (s : Sock) → view (drop_out_of_rcv_wnd_packet p s).0 ≡ view s
unfolding drop_out_of_rcv_wnd_packet
view-out_of_wnd p s = ground arith

pub rcv_nxt-out_of_wnd :
    (p : Packet) (s : Sock) → (drop_out_of_rcv_wnd_packet p s).0.cb.rcv_nxt ≡ s.cb.rcv_nxt
unfolding drop_out_of_rcv_wnd_packet set_rcv_wnd
rcv_nxt-out_of_wnd p s = ground arith
