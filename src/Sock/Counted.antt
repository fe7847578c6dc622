-- ===== src/Sock/Counted.antt =====
-- The debug assertion `check_rexmt_data` of udt/udt_cb_input.cpp: `m_retrans_data` is the size of the
-- packets in the send buffer that are being retransmitted.
use udt_boost.Base.{ℕ, ◌+◌, ◌≡◌, ◌≤◌, refl, if◌then◌else◌, List, [], ◌∷◌, arith, All}
use udt_boost.Packet.{Packet}
use udt_boost.Buf.Accounting.{IsValid, total_len}
use udt_boost.Sock.{Sock}

abbrev pub retrans_len : List Packet → ℕ
retrans_len [] = 0
retrans_len (p ∷ ps) = (if p.hdr.flags.retrans then p.hdr.len else 0) + retrans_len ps

pub retrans_len-le : (ps : List Packet) → retrans_len ps ≤ total_len ps
retrans_len-le [] = omega arith
retrans_len-le (p ∷ ps) = ground (arith, retrans_len-le ps)

pub record IsCounted (s : Sock) : Type 0 where
  pub retrans : s.cb.retrans_data ≡ retrans_len s.snd_buf.pkts
  pub valid : IsValid s.snd_buf

-- What of a list of packets is kept, and what is taken out, in order.
pub data Parted : List Packet → List Packet → List Packet → Type 0 where
  nil : Parted [] [] []
  keep :
      {p : Packet} {kept gone ps : List Packet}
      → Parted kept gone ps
      → Parted (p ∷ kept) gone (p ∷ ps)
  lose :
      {p : Packet} {kept gone ps : List Packet}
      → Parted kept gone ps
      → Parted kept (p ∷ gone) (p ∷ ps)

pub all_kept : (ps : List Packet) → Parted ps [] ps
all_kept [] = nil
all_kept (p ∷ ps) = keep (all_kept ps)

pub Parted-retrans_len :
    {kept gone ps : List Packet}
    → Parted kept gone ps
    → retrans_len ps ≡ retrans_len gone + retrans_len kept
Parted-retrans_len nil = refl
Parted-retrans_len (keep r) = omega (arith, Parted-retrans_len r)
Parted-retrans_len (lose r) = omega (arith, Parted-retrans_len r)

pub Parted-total_len :
    {kept gone ps : List Packet}
    → Parted kept gone ps
    → total_len ps ≡ total_len gone + total_len kept
Parted-total_len nil = refl
Parted-total_len (keep r) = omega (arith, Parted-total_len r)
Parted-total_len (lose r) = omega (arith, Parted-total_len r)

pub Parted-All :
    (P : Packet → Type 0) {kept gone ps : List Packet} → Parted kept gone ps → All P ps → All P kept
Parted-All P nil h = tt
Parted-All P (keep r) h = (h.0, Parted-All P r h.1)
Parted-All P (lose r) h = Parted-All P r h.1

pub carry :
    {s s' : Sock}
    → s'.cb.retrans_data ≡ s.cb.retrans_data
    → s'.snd_buf ≡ s.snd_buf
    → IsCounted s
    → IsCounted s'
carry e b c = record { retrans = rw (e, b) c.retrans; valid = rw b c.valid }
