-- ===== src/Reass.antt =====
-- Reassembly of the received packets, udt/udt_cb_input.cpp: `TCP_REASS`, `tcp_reass` and
-- `merge_reasm_pkts`. Assertions are compiled out.
pub mod Stream
pub mod Order
use udt_boost.Base.{
  ℕ, Bool, true, false, not, ◌&&◌, ◌||◌, if◌then◌else◌, ◌==◌, List, [], ◌∷◌, is_empty, add32,
}
use udt_boost.Seq.{seq_lt}
use udt_boost.Packet.{Packet}
use udt_boost.Buf.{Buf, RcvBuf, append_pkt}
use udt_boost.Cb.{Cb}

-- What the three functions work on: the receive buffer and the control block.
pub record Rcv : Type 0 where
  pub cb : Cb
  pub rcv_buf : RcvBuf

-- The place of a packet in the queue: before the first that does not begin before it. `false` says
-- that a packet with its number is there already.
unfoldable pub insert_pkt : Packet → List Packet → List Packet × Bool
insert_pkt p [] = (p ∷ [], true)
insert_pkt p (q ∷ qs) =
    let (rest, fresh) = insert_pkt p qs in
    let known : List Packet × Bool = (q ∷ qs, false) in
    let here : List Packet × Bool = (p ∷ (q ∷ qs), true) in
    if seq_lt q.hdr.seq p.hdr.seq
    then (q ∷ rest, fresh)
    else if q.hdr.seq == p.hdr.seq
    then known
    else here

-- The loop of `merge_reasm_pkts`: packets that begin at `rcv_nxt` move to the receive buffer, as long
-- as it takes them. The result is the buffer, `m_rcv_nxt` and the packets that stay in the queue.
pub record Merged : Type 0 where
  pub buf : Buf
  pub rcv_nxt : ℕ
  pub left : List Packet

unfoldable pub merge_loop : List Packet → ℕ → Buf → Merged
merge_loop [] rcv_nxt b = record { buf = b; rcv_nxt = rcv_nxt; left = [] }
merge_loop (p ∷ ps) rcv_nxt b =
    let (b', taken) = append_pkt p b in
    let rest = merge_loop ps (add32 rcv_nxt p.hdr.len) b' in
    let stop : Merged = record { buf = b; rcv_nxt = rcv_nxt; left = p ∷ ps } in
    if p.hdr.seq == rcv_nxt && taken then rest else stop

unfoldable pub merge_reasm_pkts : Rcv → Rcv
merge_reasm_pkts r =
    let m = merge_loop r.rcv_buf.reasm_pkts r.cb.rcv_nxt r.rcv_buf.buf in
    let notify = r.cb.flags.notify_read || not (r.cb.rcv_nxt == m.rcv_nxt) in
    record r {
      cb = record r.cb { rcv_nxt = m.rcv_nxt; flags = record r.cb.flags { notify_read = notify } };
      rcv_buf = record { buf = m.buf; reasm_pkts = m.left };
    }

-- `tcp_reass`: a duplicate is left to the caller.
unfoldable pub tcp_reass : Packet → Rcv → Rcv
tcp_reass p r =
    let (pkts, fresh) = insert_pkt p r.rcv_buf.reasm_pkts in
    let queued = record r {
      cb = record r.cb { flags = record r.cb.flags { packet_consumed = true } };
      rcv_buf = record r.rcv_buf { reasm_pkts = pkts };
    } in
    if fresh then merge_reasm_pkts queued else r

-- `TCP_REASS`: the next packet goes straight to the receive buffer, if no packet waits; any other is
-- queued, and acknowledged at once.
unfoldable pub tcp_reass_or_append : Packet → Rcv → Rcv
tcp_reass_or_append p r =
    let (b, taken) = append_pkt p r.rcv_buf.buf in
    let f = r.cb.flags in
    let in_order = record r {
      cb = record r.cb {
        rcv_nxt = add32 r.cb.rcv_nxt p.hdr.len;
        flags = record f {
          delack = true;
          packet_consumed = true;
          notify_read = f.notify_read || not (p.hdr.len == 0);
        };
      };
      rcv_buf = record r.rcv_buf { buf = b };
    } in
    let q = tcp_reass p r in
    let queued = record q { cb = record q.cb { flags = record q.cb.flags { acknow = true } } } in
    if p.hdr.seq == r.cb.rcv_nxt && is_empty r.rcv_buf.reasm_pkts
    then (if taken then in_order else r)
    else queued
