-- ===== src/Packet.antt =====
-- The packet header and its flags, udt/udt_defs.h. The byte of flags is kept as its eight bits.
pub mod Wire
use udt_boost.Base.{
  ℕ, ◌+◌, ◌-◌, ◌/◌, ◌%◌, ◌≤◌, ◌≡◌, ap, ◌∙◌, if◌then◌else◌, arith, List, [], ◌∷◌, ◌++◌, Bool, false,
  drop, drop-append_add,
}

-- `udt_hdr::flag_t`, from the lowest bit up.
pub record Flags : Type 0 where
  pub fin : Bool
  pub syn : Bool
  pub rst : Bool
  pub push : Bool
  pub ack : Bool
  pub sacked : Bool
  pub retrans : Bool
  pub hp : Bool

abbrev pub no_flags : Flags
no_flags = record {
  fin = false;
  syn = false;
  rst = false;
  push = false;
  ack = false;
  sacked = false;
  retrans = false;
  hp = false;
}

-- `udt_hdr`, 20 bytes. Each field is a number of its width.
pub record Hdr : Type 0 where
  pub ver : ℕ
  pub flags : Flags
  pub win : ℕ
  pub len : ℕ
  pub off : ℕ
  pub seq : ℕ
  pub ack : ℕ
  pub pseq : ℕ

-- `sizeof(udt_hdr)`, MAX_HEADER_SIZE, MAX_ALL_HEADERS_SIZE and MIN_ALL_HEADERS_SIZE.
abbrev pub hdr_size : ℕ
hdr_size = 20

abbrev pub max_header_size : ℕ
max_header_size = 60

abbrev pub max_all_headers_size : ℕ
max_all_headers_size = 88

abbrev pub min_all_headers_size : ℕ
min_all_headers_size = 48

-- A packet in memory: the header, and the bytes that follow it.
pub record Packet : Type 0 where
  pub hdr : Hdr
  pub body : List ℕ

-- The byte in which `uh_flags` holds the eight bits.
bit : Bool → ℕ → ℕ
bit b w = if b then w else 0

unfoldable pub flags_byte : Flags → ℕ
unfolding bit
flags_byte f =
    bit f.fin 1
    + bit f.syn 2
    + bit f.rst 4
    + bit f.push 8
    + bit f.ack 16
    + bit f.sacked 32
    + bit f.retrans 64
    + bit f.hp 128

abbrev le16 : ℕ → List ℕ
le16 x = x % 256 ∷ x / 256 % 256 ∷ []

abbrev le32 : ℕ → List ℕ
le32 x = x % 256 ∷ x / 256 % 256 ∷ x / 65536 % 256 ∷ x / 16777216 % 256 ∷ []

-- The 20 bytes that the header takes in the memory of a little endian host.
unfoldable pub hdr_bytes : Hdr → List ℕ
unfolding flags_byte
hdr_bytes h =
    h.ver % 256 ∷ flags_byte h.flags ∷ le16 h.win
    ++ le16 h.len
    ++ le16 h.off
    ++ le32 h.seq
    ++ le32 h.ack
    ++ le32 h.pseq

-- `udt_packet::data_ptr`: the memory of the packet from `uh_off` on.
unfoldable pub data_ptr : Packet → List ℕ
unfolding hdr_bytes
data_ptr p = drop p.hdr.off (hdr_bytes p.hdr ++ p.body)

-- With an offset past the header, the data lies in the bytes that follow it.
pub data_ptr-body :
    (p : Packet) → hdr_size ≤ p.hdr.off → data_ptr p ≡ drop (p.hdr.off - hdr_size) p.body
unfolding data_ptr
data_ptr-body p h =
    let e : p.hdr.off ≡ hdr_size + (p.hdr.off - hdr_size) = omega arith in
    ap (λ k. drop k (hdr_bytes p.hdr ++ p.body)) e
    ∙ drop-append_add (p.hdr.off - hdr_size) (hdr_bytes p.hdr) p.body
