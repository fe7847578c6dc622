-- ===== src/Timo.antt =====
-- The interval timers, udt/udt_timo.cpp: every 200 ms `handle_fast_timo` sends the delayed acks, and
-- every 500 ms `handle_slow_timo` counts down the four timers of the connection.
use udt_boost.Base.{
  ℕ, ◌+◌, ◌-◌, Bool, true, false, not, ◌&&◌, if◌then◌else◌, ◌==◌, ltb, leb, List, [], ◌∷◌, some,
  sub32, u16, u32, lt16s, sar3, ◌/◌,
}
use udt_boost.Seq.{seq_ge}
use udt_boost.Packet.{Packet, no_flags}
use udt_boost.Cb.{
  Cb, timed_out, state_number, established, close_wait, tcp_maxrxtshift, s_keepidle, s_keepintvl,
  s_maxidle,
}
use udt_boost.Cb.Rtt.{rexmt_timer_value, enter_persist}
use udt_boost.Cb.Congestion.{handle_packet_lost}
use udt_boost.Sock.{Sock, on_cb}
use udt_boost.Output.{validate_first_pkt}
use udt_boost.Output.Round.{output}
use udt_boost.Notify.{drop, respond}

unfoldable pub handle_fast_timo : Sock → Sock
handle_fast_timo s =
    let owed =
      on_cb (λ c. record c { flags = record c.flags { delack = false; acknow = true } }) s in
    if s.cb.flags.delack then (output owed).0 else s

-- `clear_snd_buf_flags`: no packet below `snd_max` counts as retransmitted any more.
unfoldable pub clear_flags : ℕ → List Packet → List Packet
clear_flags snd_max [] = []
clear_flags snd_max (p ∷ ps) =
    let rest = clear_flags snd_max ps in
    if seq_ge p.hdr.seq snd_max
    then p ∷ ps
    else record p { hdr = record p.hdr { flags = no_flags } } ∷ rest

unfoldable pub clear_snd_buf_flags : Sock → Sock
clear_snd_buf_flags s = record s {
  cb = record s.cb { retrans_data = 0 };
  snd_buf = record s.snd_buf { pkts = clear_flags s.cb.snd_max s.snd_buf.pkts };
}

-- `if (m_timers[i] && --m_timers[i] == 0)`: the counter, and whether it went off.
abbrev pub count_down : ℕ → ℕ × Bool
count_down t = if t == 0 then (0, false) else (t - 1, t == 1)

-- The retransmit timer: all that is unacknowledged is to be sent again, and the interval is backed
-- off; far backed off, the estimate of the round trip is thrown away.
abbrev pub forget_srtt : Cb → Cb
forget_srtt c =
    if ltb (tcp_maxrxtshift / 4) c.rxtshift
    then record c { rttvar = u16 (c.rttvar + sar3 c.srtt); srtt = 0 }
    else c

unfoldable pub rexmt_back_off : ℕ → Cb → Cb
rexmt_back_off clock c =
    let up = record c { rxtshift = c.rxtshift + 1 } in
    let cur = record up {
      rxtcur = rexmt_timer_value up;
      timers = record c.timers { rexmt = rexmt_timer_value up };
    } in
    handle_packet_lost clock
      (record (forget_srtt cur) { snd_nxt = c.snd_una; snd_fack = c.snd_una; rtt = 0 })

unfoldable pub rexmt_expired : Sock → Sock
rexmt_expired s =
    if ltb tcp_maxrxtshift (s.cb.rxtshift + 1)
    then drop (some timed_out) (on_cb (λ c. record c { rxtshift = tcp_maxrxtshift }) s)
    else (output (clear_snd_buf_flags (on_cb (rexmt_back_off s.clock) s))).0

-- The persist timer: one segment is forced out as a probe of the peer's window.
unfoldable pub persist_expired : Sock → Sock
persist_expired s =
    let s1 = validate_first_pkt (on_cb enter_persist s) in
    let (s2, _) = output (on_cb (λ c. record c { force = true }) s1) in
    on_cb (λ c. record c { force = false }) s2

-- The keep-alive timer.
unfoldable pub keep_expired : Sock → Sock
keep_expired s =
    let probe = respond s.cb.rcv_nxt (sub32 s.cb.snd_una 1) (record no_flags { ack = true }) s in
    if ltb (state_number s.cb.state) (state_number established)
    then drop (some timed_out) s
    else if leb (state_number s.cb.state) (state_number close_wait) && s.keepalive
    then (if not (lt16s s.cb.idle (s_keepidle + s_maxidle))
        then drop (some timed_out) s
        else on_cb (λ c. record c { timers = record c.timers { keep = s_keepintvl } }) probe)
    else on_cb (λ c. record c { timers = record c.timers { keep = s_keepidle } }) s

-- The four rounds of the loop of `handle_slow_timo`, in the order of the indices.
unfoldable pub tick_rexmt : Sock → Sock
tick_rexmt s =
    let (t, off) = count_down s.cb.timers.rexmt in
    let s' = on_cb (λ c. record c { timers = record c.timers { rexmt = t } }) s in
    if off then rexmt_expired s' else s'

unfoldable pub tick_persist : Sock → Sock
tick_persist s =
    let (t, off) = count_down s.cb.timers.persist in
    let s' = on_cb (λ c. record c { timers = record c.timers { persist = t } }) s in
    if off then persist_expired s' else s'

unfoldable pub tick_keep : Sock → Sock
tick_keep s =
    let (t, off) = count_down s.cb.timers.keep in
    let s' = on_cb (λ c. record c { timers = record c.timers { keep = t } }) s in
    if off then keep_expired s' else s'

unfoldable pub tick_2msl : Sock → Sock
tick_2msl s =
    let (t, off) = count_down s.cb.timers.msl2 in
    let s' = on_cb (λ c. record c { timers = record c.timers { msl2 = t } }) s in
    if off then drop (some timed_out) s' else s'

-- The ages that the slow timer counts.
abbrev pub grow_older : Cb → Cb
grow_older c = record c {
  rtt = if c.rtt == 0 then 0 else u16 (c.rtt + 1);
  idle = u16 (c.idle + 1);
  tick = u32 (c.tick + 1);
}

unfoldable pub handle_slow_timo : Sock → Sock
handle_slow_timo s = on_cb grow_older (tick_2msl (tick_keep (tick_persist (tick_rexmt s))))
