-- ===== src/Cb/Congestion.antt =====
-- The congestion window and what may be sent, the inline functions of udt/udt_cb.h with
-- `handle_packet_lost` of udt/udt_cb_input.cpp and `can_send_bytes` of udt/udt_cb_output.cpp.
use udt_boost.Base.{
  ℕ, ◌+◌, ◌-◌, ◌*◌, ◌/◌, ◌≤◌, ◌<◌, ◌≡◌, Bool, not, ◌&&◌, if◌then◌else◌, ◌==◌, ltb, leb, arith, min,
  add32, sub32, u32, u32_half, u16_mod, is_neg32, min32s,
}
use native.Mathlib.Nat.{div-le_of_le-mul}
use udt_boost.Cb.{Cb, min_cwnd, tcp_maxcwin, tcp_thin_cwnd_segs}

-- The losses come closer together: 5/4 of the last gap is less than the gap before it.
unfoldable pub is_pkt_lost_rate_incr : Cb → Bool
is_pkt_lost_rate_incr c =
    let delta0 = sub32 c.tstamp_second c.tstamp_first in
    let delta1 = sub32 c.tstamp_third c.tstamp_second in ltb (add32 delta1 (delta1 / 4)) delta0

abbrev pub is_peer_thin_stream : Cb → Bool
is_peer_thin_stream c = not (c.pcwnd == 0) && ltb c.pcwnd (u32 (tcp_thin_cwnd_segs * c.maxseg))

-- Bytes in the network: sent and not known to have left it, and sent again.
unfoldable pub bytes_inflight : Cb → ℕ
bytes_inflight c =
    let t = add32 (sub32 c.snd_nxt c.snd_fack) c.retrans_data in if is_neg32 t then 0 else t

unfoldable pub slow_start : Cb → Cb
slow_start c =
    if is_pkt_lost_rate_incr c
    then record c { snd_cwnd = add32 (min_cwnd c) (bytes_inflight c) }
    else c

-- The share of a segment by which a window under loss grows, at least one byte. The division by a
-- window of 0, which would be a fault, is 0 here; see `IsOpen`.
abbrev growth : Cb → ℕ
growth c =
    let incr = u32 (c.maxseg * c.maxseg) / c.snd_cwnd in
    if is_pkt_lost_rate_incr c then (if incr == 0 then 1 else incr) else c.maxseg

unfoldable pub incr_snd_cwnd : Cb → Cb
incr_snd_cwnd c = record c { snd_cwnd = min (add32 c.snd_cwnd (growth c)) tcp_maxcwin }

unfoldable pub decr_snd_cwnd : Cb → Cb
decr_snd_cwnd c =
    let less = c.snd_cwnd - c.snd_cwnd / 4 in
    record c { snd_cwnd = if ltb less (min_cwnd c) then min_cwnd c else less }

-- The times of the last three losses.
unfoldable pub marked : ℕ → Cb → Cb
marked now c = record c {
  tstamp_first = c.tstamp_second;
  tstamp_second = c.tstamp_third;
  tstamp_third = now;
}

-- `handle_packet_lost`; `now` is `GetTickCount()`.
unfoldable pub handle_packet_lost : ℕ → Cb → Cb
handle_packet_lost now c =
    if is_pkt_lost_rate_incr (marked now c) then decr_snd_cwnd (marked now c) else marked now c

abbrev pub is_cwnd_full_open : Cb → Bool
is_cwnd_full_open c = leb c.snd_wnd c.snd_cwnd

-- What the peer's window leaves room for.
unfoldable pub remain_snd_wnd : Cb → ℕ
remain_snd_wnd c =
    let remain = sub32 c.snd_wnd (sub32 c.snd_nxt c.snd_una) in
    if is_neg32 remain then 0 else remain

unfoldable pub can_send_bytes : Cb → ℕ
can_send_bytes c =
    let ret = min32s (sub32 c.snd_cwnd (bytes_inflight c)) (remain_snd_wnd c) in
    if is_neg32 ret then 0 else ret

-- The congestion window holds a segment at least, and a segment has a size below 2 ^ 16. So the
-- division of `growth` never meets 0.
pub record IsOpen (c : Cb) : Type 0 where
  pub maxseg_pos : 0 < c.maxseg
  pub maxseg16 : c.maxseg < u16_mod
  pub segment : c.maxseg ≤ c.snd_cwnd
  pub bounded : c.snd_cwnd < u32_half + 524288

share-le : (m c : ℕ) → 0 < m → m ≤ c → u32 (m * m) / c ≤ m
share-le m c h0 h =
    let le : m * m ≤ c * m = grind arith in
    let cut : u32 (m * m) ≤ m * m = omega arith in div-le_of_le-mul c (omega arith)

growth_bounds : (c : Cb) → IsOpen c → (0 < growth c) × (growth c ≤ c.maxseg)
growth_bounds c v = ground (arith, share-le c.maxseg c.snd_cwnd v.maxseg_pos v.segment)

incr-IsOpen : (c : Cb) → IsOpen c → IsOpen (incr_snd_cwnd c)
unfolding incr_snd_cwnd
incr-IsOpen c v = omega (arith, growth_bounds c v, v.segment, v.maxseg16, v.maxseg_pos, v.bounded)

decr-IsOpen : (c : Cb) → IsOpen c → IsOpen (decr_snd_cwnd c)
unfolding decr_snd_cwnd
decr-IsOpen c v = ground arith

marked-IsOpen : (now : ℕ) (c : Cb) → IsOpen c → IsOpen (marked now c)
unfolding marked
marked-IsOpen now c v = ground arith

bytes_inflight-lt : (c : Cb) → bytes_inflight c < u32_half
unfolding bytes_inflight
bytes_inflight-lt c = ground arith

-- The window never closes, whatever the marks of the losses say: a loss, an ack of new data and a
-- slow start each leave it at one segment at least and below 2 ^ 31 + 2 ^ 19, if it was so before and
-- a segment has 1 to 65535 bytes.
pub window-IsOpen :
    (now : ℕ) (c : Cb)
    → IsOpen c
    → IsOpen (handle_packet_lost now c) × IsOpen (incr_snd_cwnd c) × IsOpen (slow_start c)
unfolding handle_packet_lost slow_start marked
window-IsOpen now c v = (
  ground (arith, decr-IsOpen (marked now c) (marked-IsOpen now c v)),
  incr-IsOpen c v,
  ground (arith, bytes_inflight-lt c),
)

remain_snd_wnd_fits :
    (c : Cb)
    → c.snd_wnd < u32_half
    → sub32 c.snd_nxt c.snd_una < u32_half
    → remain_snd_wnd c ≡ c.snd_wnd - sub32 c.snd_nxt c.snd_una
unfolding remain_snd_wnd
remain_snd_wnd_fits c hw hn = ground arith

least :
    (w f r : ℕ)
    → w < u32_half
    → f < u32_half
    → r < u32_half
    → (if is_neg32 (min32s (sub32 w f) r) then 0 else min32s (sub32 w f) r) ≡ min (w - f) r
least w f r hw hf hr = ground arith

-- With both windows and what is unacknowledged below 2 ^ 31, what may be sent is the room in the
-- congestion window or the room in the peer's window, whichever is less.
pub can_send_bytes_fits :
    (c : Cb)
    → c.snd_cwnd < u32_half
    → c.snd_wnd < u32_half
    → sub32 c.snd_nxt c.snd_una < u32_half
    → can_send_bytes c ≡ min (c.snd_cwnd - bytes_inflight c) (c.snd_wnd - sub32 c.snd_nxt c.snd_una)
unfolding can_send_bytes
can_send_bytes_fits c hc hw hn =
    let r = remain_snd_wnd_fits c hw hn in
    rw r (least c.snd_cwnd (bytes_inflight c) _ hc (bytes_inflight-lt c) (omega arith))
