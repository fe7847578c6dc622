-- ===== src/Cb/Window.antt =====
-- The inline updates of the send variables and the timers, udt/udt_cb.h.
use udt_boost.Base.{ℕ, Bool, true, not, ◌&&◌, if◌then◌else◌, ◌==◌, ltb}
use udt_boost.Seq.{seq_lt, seq_le}
use udt_boost.Cb.{Cb, s_tcprexmtthresh}
use udt_boost.Cb.Rtt.{xmit_timer}

abbrev pub is_old_ack : ℕ → Cb → Bool
is_old_ack ack c = seq_lt ack c.snd_una

abbrev pub is_valid_ack : ℕ → Cb → Bool
is_valid_ack ack c = seq_le c.snd_una ack && seq_le ack c.snd_max

abbrev pub is_max_ack : ℕ → Cb → Bool
is_max_ack ack c = c.snd_max == ack

abbrev pub can_fast_rexmt : Cb → Bool
can_fast_rexmt c = c.dupacks == s_tcprexmtthresh

abbrev pub update_snd_fack : ℕ → Cb → Cb
update_snd_fack ack c = if seq_lt c.snd_fack ack then record c { snd_fack = ack } else c

abbrev pub update_snd_una : ℕ → Cb → Cb
update_snd_una ack c =
    let nxt = if seq_lt c.snd_nxt ack then ack else c.snd_nxt in
    update_snd_fack ack (record c { snd_una = ack; snd_nxt = nxt })

abbrev pub update_snd_wnd : ℕ → Cb → Cb
update_snd_wnd win c = record c {
  snd_wnd = win;
  max_sndwnd = if ltb c.max_sndwnd win then win else c.max_sndwnd;
}

-- A round-trip sample, if the packet that is timed comes back acknowledged.
unfoldable pub update_rtt : ℕ → Cb → Cb
update_rtt ack c = if not (c.rtt == 0) && ack == c.rtseq then xmit_timer c.rtt c else c

unfoldable pub reset_rexmt_timer : Cb → Cb
reset_rexmt_timer c =
    if c.snd_una == c.snd_max
    then record c {
      timers = record c.timers { rexmt = 0 };
      flags = record c.flags { need_output = true };
    }
    else if c.timers.persist == 0
    then record c { timers = record c.timers { rexmt = c.rxtcur } }
    else c

unfoldable pub leave_persist : Cb → Cb
leave_persist c =
    if not (c.timers.persist == 0)
    then record c { timers = record c.timers { persist = 0 }; rxtshift = 0 }
    else c
