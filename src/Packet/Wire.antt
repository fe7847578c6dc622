-- ===== src/Packet/Wire.antt =====
-- The header on the wire: `udt_hdr::hton` and `ntoh` of udt/udt_defs.cpp, and the tests
-- on the byte of flags. The host is little endian, as the code assumes.
use udt_boost.Base.{
  ℕ, ◌+◌, ◌*◌, ◌/◌, ◌%◌, ◌≤◌, ◌<◌, ◌≡◌, Bool, true, false, if◌then◌else◌, ◌==◌, arith, u16_mod,
  u32_mod,
}
use udt_boost.Packet.{Flags, Hdr, flags_byte, bit}

-- `htons` and `htonl` reverse the bytes of a word, and so do `ntohs` and `ntohl`.
unfoldable pub htons : ℕ → ℕ
htons x = x % 256 * 256 + x / 256 % 256

unfoldable pub htonl : ℕ → ℕ
htonl x = x % 256 * 16777216 + x / 256 % 256 * 65536 + x / 65536 % 256 * 256 + x / 16777216 % 256

pub htons-htons : (x : ℕ) → x < u16_mod → htons (htons x) ≡ x
unfolding htons
htons-htons x h = omega arith

pub htonl-htonl : (x : ℕ) → x < u32_mod → htonl (htonl x) ≡ x
unfolding htonl
htonl-htonl x h = omega arith

-- `htonll` and `ntohll` of udt/utils.cpp: the two halves change places, and each is reversed.
unfoldable pub htonll : ℕ → ℕ
htonll v = htonl (v / u32_mod % u32_mod) + u32_mod * htonl (v % u32_mod)

unfoldable pub ntohll : ℕ → ℕ
ntohll v = htonll v

htonl_bound : (x : ℕ) → htonl x < u32_mod
unfolding htonl
htonl_bound x = omega arith

pub ntohll-htonll : (v : ℕ) → v < u32_mod * u32_mod → ntohll (htonll v) ≡ v
unfolding ntohll htonll
ntohll-htonll v h =
    let high = htonl (v / u32_mod % u32_mod) in
    let low = htonl (v % u32_mod) in
    let top : (high + u32_mod * low) / u32_mod % u32_mod ≡ low =
      omega (arith, htonl_bound (v / u32_mod % u32_mod), htonl_bound (v % u32_mod)) in
    let rest : (high + u32_mod * low) % u32_mod ≡ high =
      omega (arith, htonl_bound (v / u32_mod % u32_mod)) in
    rw (top, rest)
      (omega (
        arith,
        htonl-htonl (v % u32_mod) (omega arith),
        htonl-htonl (v / u32_mod % u32_mod) (omega arith),
      ))

unfoldable pub hton : Hdr → Hdr
hton h = record h {
  win = htons h.win;
  len = htons h.len;
  off = htons h.off;
  seq = htonl h.seq;
  ack = htonl h.ack;
  pseq = htonl h.pseq;
}

unfoldable pub ntoh : Hdr → Hdr
ntoh h = record h {
  win = htons h.win;
  len = htons h.len;
  off = htons h.off;
  seq = htonl h.seq;
  ack = htonl h.ack;
  pseq = htonl h.pseq;
}

-- Each field of the header has its declared width.
pub record FitsWire (h : Hdr) : Type 0 where
  pub win16 : h.win < u16_mod
  pub len16 : h.len < u16_mod
  pub off16 : h.off < u16_mod
  pub seq32 : h.seq < u32_mod
  pub ack32 : h.ack < u32_mod
  pub pseq32 : h.pseq < u32_mod

-- The receiver's `ntoh` restores the header that the sender's `hton` put on the wire, if each field
-- has its declared width.
pub ntoh-hton : (h : Hdr) → FitsWire h → ntoh (hton h) ≡ h
unfolding ntoh hton
ntoh-hton h w = cc (
  htons-htons h.win w.win16,
  htons-htons h.len w.len16,
  htons-htons h.off w.off16,
  htonl-htonl h.seq w.seq32,
  htonl-htonl h.ack w.ack32,
  htonl-htonl h.pseq w.pseq32,
)

-- The bits that `has_fin`, `has_syn` and their like find in the byte of flags.

-- `(flags & 2 ^ k) != 0`.
has_bit : ℕ → ℕ → Bool
has_bit b w = b / w % 2 == 1

unfoldable pub byte_flags : ℕ → Flags
unfolding has_bit
byte_flags b = record {
  fin = has_bit b 1;
  syn = has_bit b 2;
  rst = has_bit b 4;
  push = has_bit b 8;
  ack = has_bit b 16;
  sacked = has_bit b 32;
  retrans = has_bit b 64;
  hp = has_bit b 128;
}

abbrev val : Bool → ℕ
val b = if b then 1 else 0

val-le : (b : Bool) → val b ≤ 1
val-le b = ground arith

bit-val : (b : Bool) (w : ℕ) → bit b w ≡ w * val b
unfolding bit
bit-val true w = omega arith
bit-val false w = omega arith

one_iff : (b : Bool) (m : ℕ) → m ≡ val b → (m == 1) ≡ b
one_iff b m e = ground arith

module _ (f : Flags) where
  total : ℕ
  total =
      val f.fin
      + 2 * val f.syn
      + 4 * val f.rst
      + 8 * val f.push
      + 16 * val f.ack
      + 32 * val f.sacked
      + 64 * val f.retrans
      + 128 * val f.hp

  flags_byte-total : flags_byte f ≡ total
  unfolding flags_byte total
  flags_byte-total = omega (arith, bit-val)

  bits_of_total :
      (total / 1 % 2 ≡ val f.fin)
      × (total / 2 % 2 ≡ val f.syn)
      × (total / 4 % 2 ≡ val f.rst)
      × (total / 8 % 2 ≡ val f.push)
      × (total / 16 % 2 ≡ val f.ack)
      × (total / 32 % 2 ≡ val f.sacked)
      × (total / 64 % 2 ≡ val f.retrans)
      × (total / 128 % 2 ≡ val f.hp)
  unfolding total
  bits_of_total = omega (arith, val-le)

  -- The byte that a packet carries gives back the flags that were put into it.
  pub byte_flags-flags_byte : byte_flags (flags_byte f) ≡ f
  unfolding byte_flags
  byte_flags-flags_byte =
      let (b0, b1, b2, b3, b4, b5, b6, b7) = bits_of_total in
      rw flags_byte-total (
        cc (
          one_iff f.fin _ b0,
          one_iff f.syn _ b1,
          one_iff f.rst _ b2,
          one_iff f.push _ b3,
          one_iff f.ack _ b4,
          one_iff f.sacked _ b5,
          one_iff f.retrans _ b6,
          one_iff f.hp _ b7,
        ))

-- What the sender puts into the header is what the receiver reads: the fields after hton and ntoh, if
-- each has its declared width, and the flags after they have been packed into their byte.
pub wire_roundtrip :
    (h : Hdr) → FitsWire h → (ntoh (hton h) ≡ h) × (byte_flags (flags_byte h.flags) ≡ h.flags)
wire_roundtrip h w = (ntoh-hton h w, byte_flags-flags_byte h.flags)
