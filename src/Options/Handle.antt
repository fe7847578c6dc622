-- ===== src/Options/Handle.antt =====
-- Reading the options, udt/udt_cb_input.cpp: `handle_options` and what it does for each option.
use udt_boost.Base.{
  ℕ, zero, suc, ◌+◌, ◌-◌, ◌*◌, ◌/◌, true, ◌||◌, if◌then◌else◌, ◌==◌, ltb, List, [], ◌∷◌, ◌++◌,
  reverse, get_or, drop, sub32,
}
use udt_boost.Seq.{seq_lt, seq_le, seq_ge}
use udt_boost.Packet.{Packet}
use udt_boost.Cb.Window.{update_snd_fack, update_snd_una}
use udt_boost.Sock.{Sock, on_cb}
use udt_boost.Options.{
  opt_size, pair_size, cwnd_size, max_pair_seqs, opt_nop, opt_sack, opt_cwnd, read_be32, end_seq,
}

-- `drop_snd_pkt` with `udt_buf::drop`: a packet that leaves the send buffer is taken off the count,
-- and off the retransmitted data if it was retransmitted. (The caller takes it out of the list.)
unfoldable pub drop_snd_pkt : Packet → Sock → Sock
drop_snd_pkt p s =
    let c = s.cb in
    let c' = record c { retrans_data = sub32 c.retrans_data p.hdr.len } in
    record s {
      cb = if p.hdr.flags.retrans then c' else c;
      snd_buf = record s.snd_buf { cc = sub32 s.snd_buf.cc p.hdr.len };
    }

unfoldable pub drop_snd_pkts : List Packet → Sock → Sock
drop_snd_pkts [] s = s
drop_snd_pkts (p ∷ ps) s = drop_snd_pkts ps (drop_snd_pkt p s)

-- The packets that a walk over the send buffer passes, those it stops before, those it drops.
pub record Walk : Type 0 where
  pub seen : List Packet
  pub rest : List Packet
  pub gone : List Packet

abbrev pass : Packet → Walk → Walk
pass p w = record w { seen = p ∷ w.seen }

abbrev lose : Packet → Walk → Walk
lose p w = record w { gone = p ∷ w.gone }

-- The `do … while` of `handle_option_sack` for one block: packets before the block are passed,
-- those that lie in it are dropped, and the first that reaches past it stops the walk.
unfoldable pub sack_walk : ℕ → ℕ → List Packet → Walk
sack_walk begin_seq end [] = record { seen = []; rest = []; gone = [] }
sack_walk begin_seq end (p ∷ ps) =
    let w = sack_walk begin_seq end ps in
    let stop : Walk = record { seen = []; rest = p ∷ ps; gone = [] } in
    if seq_lt p.hdr.seq begin_seq
    then pass p w
    else if seq_le (end_seq p) end
    then lose p w
    else stop

-- The loop over the blocks, in the order in which it takes them.
unfoldable pub sack_walks : List (ℕ × ℕ) → List Packet → Walk
sack_walks [] pkts = record { seen = []; rest = pkts; gone = [] }
sack_walks ((first, second) ∷ prs) pkts =
    let w = sack_walk first second pkts in
    let more = sack_walks prs w.rest in
    record { seen = w.seen ++ more.seen; rest = more.rest; gone = w.gone ++ more.gone }

abbrev second_of : List (ℕ × ℕ) → ℕ → ℕ
second_of [] d = d
second_of ((first, second) ∷ prs) d = second

-- `handle_option_sack` on the blocks of the option, first to last; the loop takes the last first.
unfoldable pub handle_option_sack : List (ℕ × ℕ) → Sock → Sock
handle_option_sack [] s = s
handle_option_sack (pr ∷ prs) s =
    let w = sack_walks (reverse (pr ∷ prs)) s.snd_buf.pkts in
    let s1 = on_cb (update_snd_fack (second_of (pr ∷ prs) 0)) s in
    let s2 = drop_snd_pkts w.gone s1 in
    record s2 { snd_buf = record s2.snd_buf { pkts = w.seen ++ w.rest } }

-- `handle_option_cwnd`.
unfoldable pub handle_option_cwnd : ℕ → Sock → Sock
handle_option_cwnd cwnd s = on_cb (λ c. record c { pcwnd = cwnd }) s

-- `udt_option_sack::size`: the subtraction is of `size_t`.
abbrev pub sack_size : ℕ → ℕ
sack_size len = sub32 len opt_size / pair_size

-- The first `n` pairs of the option, in host order.
unfoldable pub read_pairs : ℕ → List ℕ → List (ℕ × ℕ)
read_pairs zero bytes = []
read_pairs (suc n) bytes = (read_be32 bytes, read_be32 (drop 4 bytes)) ∷ read_pairs n (drop 8 bytes)

abbrev set_fault : Sock → Sock
set_fault s = record s { fault = true }

-- The loop of `handle_options` on the bytes behind the header; each round takes 2 bytes at least.
-- An option that says that it is longer than what is left, or a block past the array `pair_seqs`,
-- is read and written out of bounds by the code: a fault.
unfoldable pub handle_options : ℕ → List ℕ → ℕ → Sock → Sock
handle_options zero bytes remain_len s = s
handle_options (suc fuel) bytes remain_len s =
    let kind = get_or bytes 0 0 in
    let size = sack_size (get_or bytes 1 0) in
    let used = opt_size + pair_size * size in
    let sack =
      handle_options fuel (drop used bytes) (remain_len - used)
        (handle_option_sack (read_pairs size (drop opt_size bytes)) s) in
    let cwnd =
      handle_options fuel (drop cwnd_size bytes) (remain_len - cwnd_size)
        (handle_option_cwnd (read_be32 (drop opt_size bytes)) s) in
    let nop = handle_options fuel (drop opt_size bytes) (remain_len - opt_size) s in
    if ltb remain_len opt_size
    then s
    else if kind == opt_sack
    then (if ltb max_pair_seqs size || ltb remain_len used then set_fault s else sack)
    else if kind == opt_cwnd
    then (if ltb remain_len cwnd_size then set_fault s else cwnd)
    else if kind == opt_nop
    then nop
    else s

-- `drop_acked_data`: packets are dropped from the front, up to the first that does not begin before
-- `ack`. The bytes dropped are counted.
unfoldable pub acked_walk : ℕ → List Packet → Walk
acked_walk ack [] = record { seen = []; rest = []; gone = [] }
acked_walk ack (p ∷ ps) =
    let w = acked_walk ack ps in
    let stop : Walk = record { seen = []; rest = p ∷ ps; gone = [] } in
    if seq_ge p.hdr.seq ack then stop else lose p w

unfoldable pub drop_acked_data : ℕ → Sock → Sock
drop_acked_data ack s =
    let w = acked_walk ack s.snd_buf.pkts in
    let s1 = drop_snd_pkts w.gone s in
    on_cb (update_snd_una ack) (record s1 { snd_buf = record s1.snd_buf { pkts = w.rest } })
