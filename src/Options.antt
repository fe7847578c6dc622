-- ===== src/Options.antt =====
-- The options behind the header, as bytes: composing them, udt/udt_option.cpp and the compose
-- functions of udt/udt_cb_output.cpp. The structs are packed, so that the kind and the length take 2
-- bytes, a pair of sequence numbers 8, and a window option 6.
pub mod Handle
pub mod Dropping
pub mod RoundTrip
pub mod Fuel
use udt_boost.Base.{
  ℕ, ◌+◌, ◌-◌, ◌*◌, ◌/◌, ◌%◌, Bool, true, false, not, ◌&&◌, ◌||◌, if◌then◌else◌, ◌==◌, ltb, leb,
  List, [], ◌∷◌, ◌++◌, length, is_empty, reverse, get_or, drop, add32, sub32,
}
use udt_boost.Packet.{Packet}

abbrev pub opt_size : ℕ
opt_size = 2

abbrev pub pair_size : ℕ
pair_size = 8

abbrev pub cwnd_size : ℕ
cwnd_size = 6

abbrev pub max_pair_seqs : ℕ
max_pair_seqs = 3

-- `TCPOPT_EOL`, `TCPOPT_NOP`, `TCPOPT_SACK` and `TCPOPT_CWND`.
abbrev pub opt_eol : ℕ
opt_eol = 0

abbrev pub opt_nop : ℕ
opt_nop = 1

abbrev pub opt_sack : ℕ
opt_sack = 5

abbrev pub opt_cwnd : ℕ
opt_cwnd = 6

-- A 32-bit number in network order, and the number that four bytes in network order are.
abbrev pub be32 : ℕ → List ℕ
be32 x = x / 16777216 % 256 ∷ x / 65536 % 256 ∷ x / 256 % 256 ∷ x % 256 ∷ []

abbrev pub read_be32 : List ℕ → ℕ
read_be32 bytes =
    get_or bytes 0 0 * 16777216
    + get_or bytes 1 0 * 65536
    + get_or bytes 2 0 * 256
    + get_or bytes 3 0

abbrev pub end_seq : Packet → ℕ
end_seq p = add32 p.hdr.seq p.hdr.len

-- The loop of `udt_option_sack::compose` with the test after it, over the packets from the last one
-- back: a block is closed where the packet before it leaves a gap. `i` blocks are written already.
unfoldable pub sack_blocks : List Packet → ℕ → ℕ → ℕ → ℕ → List (ℕ × ℕ)
sack_blocks [] prev_seq prev_end_seq remain_len i =
    if leb pair_size remain_len && ltb i max_pair_seqs then (prev_seq, prev_end_seq) ∷ [] else []
sack_blocks (p ∷ ps) prev_seq prev_end_seq remain_len i =
    let gap = not (prev_seq == end_seq p) in
    let rest =
      sack_blocks ps p.hdr.seq (if gap then end_seq p else prev_end_seq)
        (if gap then remain_len - pair_size else remain_len) (if gap then i + 1 else i) in
    if leb pair_size remain_len && ltb i max_pair_seqs
    then (if gap then (prev_seq, prev_end_seq) ∷ rest else rest)
    else []

-- The blocks that `compose` writes for the packets from the last one back; none, if it writes no
-- option at all.
abbrev pub blocks : List Packet → ℕ → List (ℕ × ℕ)
blocks [] remain_len = []
blocks (p ∷ ps) remain_len =
    if ltb remain_len (opt_size + pair_size)
    then []
    else sack_blocks ps p.hdr.seq (end_seq p) (remain_len - opt_size) 0

abbrev pub pair_bytes : List (ℕ × ℕ) → List ℕ
pair_bytes [] = []
pair_bytes ((first, second) ∷ prs) = be32 first ++ be32 second ++ pair_bytes prs

-- The option as `compose` and `hton` leave it in memory.
abbrev pub sack_option : List (ℕ × ℕ) → List ℕ
sack_option [] = []
sack_option (pr ∷ prs) =
    opt_sack ∷ (opt_size + pair_size * length (pr ∷ prs)) ∷ pair_bytes (pr ∷ prs)

-- `compose_cwnd_option` and `compose_sack_option`: what each writes into `remain_len` bytes.
unfoldable pub compose_cwnd_option : ℕ → ℕ → List ℕ
compose_cwnd_option snd_cwnd remain_len =
    if leb cwnd_size remain_len then opt_cwnd ∷ cwnd_size ∷ be32 snd_cwnd else []

unfoldable pub compose_sack_option : List Packet → ℕ → List ℕ
compose_sack_option reasm_pkts remain_len = sack_option (blocks (reverse reasm_pkts) remain_len)

-- `compose_options`: the bytes written; what it returns is the number of those left.
unfoldable pub compose_options : ℕ → List Packet → ℕ → List ℕ
compose_options snd_cwnd reasm_pkts remain_len =
    let cwnd = compose_cwnd_option snd_cwnd remain_len in
    cwnd ++ compose_sack_option reasm_pkts (remain_len - length cwnd)
