-- ===== src/Input/Acks.antt =====
-- The two kinds of ack keep the count of the retransmitted bytes: `dup_ack`, `new_ack` and
-- `do_fast_rexmt` stand for parts of `handle_ack` of udt/udt_cb_input.cpp.
use udt_boost.Base.{
  ℕ, ◌+◌, ◌≡◌, ◌<◌, refl, sym, ap, ◌∙◌, ◌==◌, List, [], ◌∷◌, arith, Bool-cases, All, inl, inr,
  u16_mod, u32_mod, u16, add32, lt16s,
}
use udt_boost.Packet.{Packet, hdr_size, no_flags}
use udt_boost.Buf.Accounting.{IsWhole, total_len}
use udt_boost.Cb.{Cb, s_tcprexmtthresh}
use udt_boost.Cb.Congestion.{
  handle_packet_lost, marked, decr_snd_cwnd, incr_snd_cwnd, bytes_inflight,
}
use udt_boost.Cb.Window.{can_fast_rexmt}
use udt_boost.Sock.{Sock, on_cb}
use udt_boost.Sock.Counted.{retrans_len, retrans_len-le, IsCounted, carry}
use udt_boost.Options.Dropping.{drop_acked_data-Drops}
use udt_boost.Output.{validate_pkts, validate_first_pkt}
use udt_boost.Output.Marks.{reflag-IsWhole}
use udt_boost.Output.Retrans.{output-IsCounted}
use udt_boost.Output.Frame.{frame-output}
use udt_boost.Input.{do_fast_rexmt, dup_ack, new_ack}

validate-counts :
    (ps : List Packet) (c : Cb)
    → c.retrans_data ≡ retrans_len ps
    → retrans_len ps < u32_mod
    → let r = validate_pkts ps c in
      (r.1.retrans_data ≡ retrans_len r.0) × (total_len r.0 ≡ total_len ps)
unfolding validate_pkts
validate-counts [] c e h = (e, refl)
validate-counts (p ∷ ps) c e h = (ground arith, refl)

validate-IsWhole : (ps : List Packet) (c : Cb) → All IsWhole ps → All IsWhole (validate_pkts ps c).0
unfolding validate_pkts
validate-IsWhole [] c w = tt
validate-IsWhole (p ∷ ps) c w = (reflag-IsWhole no_flags p w.0, w.1)

-- The first packet is no longer marked, and no longer counted.
validate-IsCounted : (s : Sock) → IsCounted s → IsCounted (validate_first_pkt s)
unfolding validate_first_pkt
validate-IsCounted s c =
    let v = c.valid in
    let bound = retrans_len-le s.snd_buf.pkts in
    let (r, t) =
      validate-counts s.snd_buf.pkts s.cb c.retrans
        (omega (arith, bound, v.counted, v.within, v.hiwat32)) in
    record {
      retrans = r;
      valid = record {
        counted = v.counted ∙ sym t;
        within = v.within;
        hiwat32 = v.hiwat32;
        seq32 = v.seq32;
        whole = validate-IsWhole s.snd_buf.pkts s.cb v.whole;
      };
    }

-- What the steps of `handle_ack` need and keep: the counts agree, and a packet has a size below
-- 2 ^ 16.
pub record IsReady (s : Sock) : Type 0 where
  pub counted : IsCounted s
  pub size : s.cb.maxseg + hdr_size < u16_mod

-- A step that touches neither the counts nor the segment size.
pub ready :
    (f : Cb → Cb) (s : Sock)
    → (f s.cb).retrans_data ≡ s.cb.retrans_data
    → (f s.cb).maxseg ≡ s.cb.maxseg
    → IsReady s
    → IsReady (on_cb f s)
ready f s e m r = record { counted = carry e refl r.counted; size = omega (arith, m, r.size) }

lost_same :
    (now : ℕ) (c : Cb)
    → ((handle_packet_lost now c).retrans_data ≡ c.retrans_data)
      × ((handle_packet_lost now c).maxseg ≡ c.maxseg)
unfolding handle_packet_lost marked decr_snd_cwnd
lost_same now c = (ground arith, ground arith)

maxseg-validate : (ps : List Packet) (c : Cb) → (validate_pkts ps c).1.maxseg ≡ c.maxseg
unfolding validate_pkts
maxseg-validate [] c = refl
maxseg-validate (p ∷ ps) c = ground arith

fast_rexmt-IsCounted : (ack : ℕ) (s : Sock) → IsReady s → IsCounted (do_fast_rexmt ack s)
unfolding do_fast_rexmt validate_first_pkt
fast_rexmt-IsCounted ack s r =
    let lost = handle_packet_lost s.clock s.cb in
    let c = record lost { timers = record lost.timers { rexmt = 0 }; snd_nxt = ack } in
    let d = record c { snd_cwnd = add32 (bytes_inflight c) c.maxseg } in
    let (e, m) = lost_same s.clock s.cb in
    let v = validate-IsCounted (record s { cb = d }) (carry e refl r.counted) in
    let size = maxseg-validate s.snd_buf.pkts d ∙ m in
    carry refl refl
      (output-IsCounted (validate_first_pkt (record s { cb = d })) (omega (arith, size, r.size)) v)

pub dup_ack-IsCounted : (ack : ℕ) (s : Sock) → IsReady s → IsCounted (dup_ack ack s).0
unfolding dup_ack
dup_ack-IsCounted ack s r =
    let counted = on_cb (λ c. record c { dupacks = u16 (c.dupacks + 1) }) s in
    elim (Bool-cases (s.cb.timers.rexmt == 0)) [
      | inl e ↦ rw e (carry refl refl r.counted)
      | inr e ↦ elim (Bool-cases (can_fast_rexmt counted.cb)) [
        | inl f ↦
            rw (e, f)
              (fast_rexmt-IsCounted ack (on_cb (λ c. record c { rtt = 0 }) counted)
                (ready (λ c. record c { dupacks = u16 (c.dupacks + 1); rtt = 0 }) s refl refl r))
        | inr f ↦ elim (Bool-cases (lt16s s_tcprexmtthresh counted.cb.dupacks)) [
          | inl g ↦ rw (e, f, g) (carry refl refl r.counted)
          | inr g ↦ rw (e, f, g) (carry refl refl r.counted)
        ]
      ]
    ]

pub new_ack-IsCounted : (ack win : ℕ) (s : Sock) → IsCounted s → IsCounted (new_ack ack win s)
unfolding new_ack incr_snd_cwnd
new_ack-IsCounted ack win s c =
    carry refl refl ((drop_acked_data-Drops ack _ (carry {s = s} refl refl c)).0.counted)

-- The segment size after each.
maxseg-fast_rexmt : (ack : ℕ) (s : Sock) → (do_fast_rexmt ack s).cb.maxseg ≡ s.cb.maxseg
unfolding do_fast_rexmt validate_first_pkt
maxseg-fast_rexmt ack s =
    let lost = handle_packet_lost s.clock s.cb in
    let c = record lost { timers = record lost.timers { rexmt = 0 }; snd_nxt = ack } in
    let d = record c { snd_cwnd = add32 (bytes_inflight c) c.maxseg } in
    ap (λ f. f.cb.maxseg) (frame-output (validate_first_pkt (record s { cb = d })))
    ∙ (maxseg-validate s.snd_buf.pkts d ∙ (lost_same s.clock s.cb).1)

pub maxseg-dup_ack : (ack : ℕ) (s : Sock) → (dup_ack ack s).0.cb.maxseg ≡ s.cb.maxseg
unfolding dup_ack
maxseg-dup_ack ack s = ground (
  arith,
  maxseg-fast_rexmt ack (on_cb (λ c. record c { dupacks = u16 (c.dupacks + 1); rtt = 0 }) s),
)
