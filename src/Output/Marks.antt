-- ===== src/Output/Marks.antt =====
-- The choice of the packet to send, `get_snd_pkt` of udt/udt_cb_output.cpp, keeps the count of the
-- retransmitted bytes.
use udt_boost.Base.{
  ℕ, ◌+◌, ◌≡◌, ◌<◌, ◌⊎◌, refl, sym, ap, ◌∙◌, false, not, ◌&&◌, List, [], ◌∷◌, arith, All, u32_mod,
  add32, Bool-cases, inl, inr, Option, none, some, leb, length, lt32s,
}
use udt_boost.Seq.{seq_lt, seq_ge}
use udt_boost.Packet.{Packet, Flags, data_ptr-body}
use udt_boost.Buf.Accounting.{IsWhole, total_len}
use udt_boost.Cb.{Cb}
use udt_boost.Cb.Window.{leave_persist}
use udt_boost.Sock.{Sock}
use udt_boost.Sock.Counted.{retrans_len, retrans_len-le, IsCounted}
use udt_boost.Output.{Picked, get_snd_pkt}
use udt_boost.Output.Round.{pick, unpersist, take_picked}

-- A packet with other flags has the same data.
pub reflag-IsWhole :
    (f : Flags) (p : Packet) → IsWhole p → IsWhole (record p { hdr = record p.hdr { flags = f } })
reflag-IsWhole f p w =
    let q : Packet = record p { hdr = record p.hdr { flags = f } } in
    record {
      off_min = w.off_min;
      off16 = w.off16;
      has_data =
          ap length (data_ptr-body q w.off_min ∙ sym (data_ptr-body p w.off_min)) ∙ w.has_data;
      seq32 = w.seq32;
    }

-- A count and a sum stay, or grow by the same.
Together : ℕ → ℕ → ℕ → ℕ → Type 0
Together a a' x x' = ((a' ≡ a) × (x' ≡ x)) ⊎ ((n : ℕ) × (a' ≡ add32 a n) × (x' ≡ x + n))

behind : (k a a' x x' : ℕ) → Together a a' x x' → Together a a' (k + x) (k + x')
unfolding Together
behind k a a' x x' (inl (e, h)) = inl (e, ap (λ n. k + n) h)
behind k a a' x x' (inr (n, e, h)) = inr (n, e, omega arith)

-- What the choice of a packet changes: perhaps one packet is marked, and its size counted.
record Marks (c : Cb) (ps : List Packet) (r : Picked) : Type 0 where
  total : total_len r.pkts ≡ total_len ps
  whole : All IsWhole ps → All IsWhole r.pkts
  retrans : Together c.retrans_data r.cb.retrans_data (retrans_len ps) (retrans_len r.pkts)

get_snd_pkt-Marks : (len : ℕ) (c : Cb) (ps : List Packet) → Marks c ps (get_snd_pkt len c ps)
unfolding get_snd_pkt Together
get_snd_pkt-Marks len c [] = record { total = refl; whole = λ w. w; retrans = inl (refl, refl) }
get_snd_pkt-Marks len c (p ∷ ps) =
    elim (Bool-cases (seq_ge p.hdr.seq c.snd_nxt && not p.hdr.flags.retrans)) [
      | inl e ↦
          let fresh : p.hdr.flags.retrans ≡ false = ground arith in
          elim (Bool-cases (leb p.hdr.len len)) [
            | inl k ↦ elim (Bool-cases (seq_lt p.hdr.seq c.snd_max)) [
              | inl m ↦
                  rw (e, k, m)
                    (record {
                      total = refl;
                      whole = λ w. (reflag-IsWhole _ p w.0, w.1);
                      retrans = inr (p.hdr.len, refl, ground (arith, fresh));
                    })
              | inr m ↦
                  rw (e, k, m) (record { total = refl; whole = λ w. w; retrans = inl (refl, refl) })
            ]
            | inr k ↦
                rw (e, k) (record { total = refl; whole = λ w. w; retrans = inl (refl, refl) })
          ]
      | inr e ↦
          let m = get_snd_pkt-Marks len c ps in
          rw e (record {
            total = ap (λ n. p.hdr.len + n) m.total;
            whole = λ w. (w.0, m.whole w.1);
            retrans = behind _ _ _ _ _ m.retrans;
          })
    ]

pick-Marks : (len : ℕ) (c : Cb) (ps : List Packet) → Marks c ps (pick len c ps)
unfolding pick Together
pick-Marks len c ps =
    let m = get_snd_pkt-Marks len c ps in
    elim (Bool-cases (leb c.maxseg len)) [
      | inl e ↦ rw e m
      | inr e ↦ elim (Bool-cases (lt32s c.snd_wnd c.maxseg)) [
        | inl k ↦ rw (e, k) (record { total = refl; whole = λ w. w; retrans = inl (refl, refl) })
        | inr k ↦ rw (e, k) (record { total = refl; whole = λ w. w; retrans = inl (refl, refl) })
      ]
    ]

Together-eq : (a a' x x' : ℕ) → Together a a' x x' → a ≡ x → x' < u32_mod → a' ≡ x'
unfolding Together
Together-eq a a' x x' (inl (e, h)) k l = omega arith
Together-eq a a' x x' (inr (n, e, h)) k l = omega arith

retrans-unpersist : (p : Option Packet) (c : Cb) → (unpersist p c).retrans_data ≡ c.retrans_data
unfolding unpersist leave_persist
retrans-unpersist none c = refl
retrans-unpersist (some p) c = ground arith

pub picked-IsCounted :
    (len : ℕ) (s : Sock) → IsCounted s → IsCounted (take_picked (pick len s.cb s.snd_buf.pkts) s)
picked-IsCounted len s c =
    let r = pick len s.cb s.snd_buf.pkts in
    let m = pick-Marks len s.cb s.snd_buf.pkts in
    let v = c.valid in
    let bound = retrans_len-le r.pkts in
    record {
      retrans =
          retrans-unpersist r.pkt r.cb
          ∙ Together-eq _ _ _ _ m.retrans c.retrans
              (omega (arith, bound, m.total, v.counted, v.within, v.hiwat32));
      valid = record {
        counted = v.counted ∙ sym m.total;
        within = v.within;
        hiwat32 = v.hiwat32;
        seq32 = v.seq32;
        whole = m.whole v.whole;
      };
    }
