-- ===== src/Buf.antt =====
-- The packet buffers, udt/udt_buf.h and udt/udt_buf.cpp. A buffer owns a list of packets; the
-- allocator is not modelled, so that a packet that is freed is one that is no longer in a list.
pub mod Accounting
pub mod Stream
pub mod Queue
use udt_boost.Base.{
  ℕ, zero, suc, ◌+◌, ◌-◌, ◌<◌, min, Bool, true, false, not, ◌&&◌, ◌||◌, if◌then◌else◌, ltb, leb,
  ◌==◌, List, [], ◌∷◌, ◌++◌, Option, none, some, length, is_empty, last?, take, drop, u16, add32,
  sub32,
}
use udt_boost.Packet.{Hdr, Packet, no_flags, hdr_size, data_ptr}

pub record Buf : Type 0 where
  pub cc : ℕ
  pub hiwat : ℕ
  pub lowat : ℕ
  pub pkts : List Packet
  pub seq : ℕ

abbrev pub default_buffer_size : ℕ
default_buffer_size = 32768

abbrev pub default_lowat : ℕ
default_lowat = 1

-- The constructor leaves `m_seq` as it finds the memory: `garbage`.
abbrev pub init : ℕ → Buf
init garbage = record {
  cc = 0;
  hiwat = default_buffer_size;
  lowat = default_lowat;
  pkts = [];
  seq = garbage;
}

unfoldable pub clear : Buf → Buf
clear b = record b { pkts = []; cc = 0 }

abbrev pub acc : Buf → ℕ
acc b = sub32 b.hiwat b.cc

abbrev pub above_lowat : Buf → Bool
above_lowat b = leb b.lowat b.cc

-- `alloc(data.size())` with the data copied in, as both callers do next. `uh_ver` and `uh_pseq`
-- are not set by the code and never read before they are.
abbrev pub alloc : List ℕ → ℕ → Packet
alloc bytes seq = record {
  hdr = record {
    ver = 0;
    flags = no_flags;
    win = 0;
    len = u16 (length bytes);
    off = hdr_size;
    seq = seq;
    ack = 0;
    pseq = 0;
  };
  body = bytes;
}

-- The next packet continues at `seq`.
abbrev pub continues : ℕ → List Packet → Bool
continues seq [] = false
continues seq (p ∷ ps) = seq == p.hdr.seq

-- `hdr->uh_off += to_copy; hdr->uh_seq += to_copy; hdr->uh_len -= to_copy`
abbrev pub advance : Packet → ℕ → Packet
advance p n = record p {
  hdr = record p.hdr { off = u16 (p.hdr.off + n); seq = add32 p.hdr.seq n; len = p.hdr.len - n };
}

-- The `do … while` of `copy`, entered at a packet: the packets that stay, and the bytes copied.
-- Once a packet is copied in part, `erase_copied` is off.
unfoldable pub copy_loop : List Packet → ℕ → ℕ → Bool → List Packet × List ℕ
copy_loop [] seq buf_len erase_copied = ([], [])
copy_loop (p ∷ ps) seq buf_len erase_copied =
    let to_copy = min p.hdr.len buf_len in
    let partly = ltb buf_len p.hdr.len in
    let erase = if partly then false else erase_copied in
    let next = add32 seq to_copy in
    let left = buf_len - to_copy in
    let more = copy_loop ps next left erase in
    let stop : List Packet × List ℕ = (ps, []) in
    let (rest, bytes) = if continues next ps && ltb 0 left then more else stop in
    (
      if erase then rest else (if partly then advance p to_copy else p) ∷ rest,
      take to_copy (data_ptr p) ++ bytes,
    )

abbrev pub first_seq : List Packet → ℕ
first_seq [] = 0
first_seq (p ∷ ps) = p.hdr.seq

-- `copy(buf, buf_len, erase_copied)`: the buffer, and the bytes written to `buf`. `there` says that
-- `buf` is not NULL. The size that the code returns is the number of the bytes.
unfoldable pub copy : Bool → ℕ → Bool → Buf → Buf × List ℕ
unfolding copy_loop
copy there buf_len erase_copied b =
    if is_empty b.pkts || buf_len == 0 || not there
    then (b, [])
    else let (rest, bytes) = copy_loop b.pkts (first_seq b.pkts) buf_len erase_copied in
      (record b { pkts = rest; cc = sub32 b.cc (length bytes) }, bytes)

-- The `while (data_len > 0)` of `append`: packets of `seg_size` bytes, the last one shorter. Each
-- round takes a byte at least, so that `length bytes` rounds are enough.
unfoldable pub segments : ℕ → List ℕ → ℕ → ℕ → List Packet
segments zero bytes seg_size seq = []
segments (suc fuel) [] seg_size seq = []
segments (suc fuel) (x ∷ xs) seg_size seq =
    let pkt_len = min (length (x ∷ xs)) seg_size in
    alloc (take pkt_len (x ∷ xs)) seq
    ∷ segments fuel (drop pkt_len (x ∷ xs)) seg_size (add32 seq pkt_len)

-- `append(data, data_len, seg_size)`. A NULL `data` is refused as no data is.
unfoldable pub append : List ℕ → ℕ → Buf → Buf × Bool
unfolding segments
append bytes seg_size b =
    if ltb (acc b) (length bytes) || length bytes == 0 || seg_size == 0 then (b, false) else (
      record b {
        cc = add32 b.cc (length bytes);
        pkts = b.pkts ++ segments (length bytes) bytes seg_size b.seq;
        seq = add32 b.seq (length bytes);
      },
      true,
    )

-- `append(pkt)`.
unfoldable pub append_pkt : Packet → Buf → Buf × Bool
append_pkt p b =
    if ltb (acc b) p.hdr.len
    then (b, false)
    else (record b { cc = add32 b.cc p.hdr.len; pkts = b.pkts ++ p ∷ [] }, true)

-- The last packet carries the FIN.
unfoldable pub fin : Buf → Bool
fin b = elim (last? b.pkts) [ none ↦ false | some p ↦ p.hdr.flags.fin ]

-- `udt_rcv_buf`: a buffer, and the packets that came out of order.
pub record RcvBuf : Type 0 where
  pub buf : Buf
  pub open buf use *
  pub reasm_pkts : List Packet

unfoldable pub clear_rcv : RcvBuf → RcvBuf
unfolding clear
clear_rcv r = record { buf = clear r.buf; reasm_pkts = [] }
