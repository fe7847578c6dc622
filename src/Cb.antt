-- ===== src/Cb.antt =====
-- The control block: its state, its constants and its start, udt/udt_cb.h and udt/udt_cb.cpp.
-- A `short` field is kept as its 16-bit pattern, and an `unsigned long` as its 32-bit one.
pub mod Rtt
pub mod Congestion
pub mod Window
use udt_boost.Base.{
  ℕ, ◌+◌, ◌-◌, ◌*◌, ◌/◌, ◌≤◌, Bool, true, false, ◌&&◌, ◌||◌, if◌then◌else◌, Option, none, some, ltb,
  leb, ◌==◌, u16, lt16s,
}
use udt_boost.Packet.{max_all_headers_size}

-- `state_t`.
pub data State : Type 0 where
  closed listen syn_sent syn_received established close_wait fin_wait_1 closing last_ack fin_wait_2
        time_wait :
      State

-- The number of the state, by which `<` and `<=` order states.
abbrev pub state_number : State → ℕ
state_number closed = 0
state_number listen = 1
state_number syn_sent = 2
state_number syn_received = 3
state_number established = 4
state_number close_wait = 5
state_number fin_wait_1 = 6
state_number closing = 7
state_number last_ack = 8
state_number fin_wait_2 = 9
state_number time_wait = 10

-- `udt_error::errors`; no error is `none`.
pub data Error : Type 0 where
  eof connection_reset timed_out operation_aborted disconnected malformed_packet : Error

-- `flags_t`: the bits of `m_flags`.
pub record CbFlags : Type 0 where
  pub acknow : Bool
  pub delack : Bool
  pub nodelay : Bool
  pub sentfin : Bool
  pub notify_read : Bool
  pub notify_write : Bool
  pub packet_consumed : Bool
  pub notify_drop : Bool
  pub need_output : Bool
  pub need_reset : Bool

abbrev pub no_cb_flags : CbFlags
no_cb_flags = record {
  acknow = false;
  delack = false;
  nodelay = false;
  sentfin = false;
  notify_read = false;
  notify_write = false;
  packet_consumed = false;
  notify_drop = false;
  need_output = false;
  need_reset = false;
}

-- `timer_indices_t`: the four counters of `m_timers`, in ticks of the slow timer; 0 is off.
pub record Timers : Type 0 where
  pub rexmt : ℕ
  pub persist : ℕ
  pub keep : ℕ
  pub msl2 : ℕ

-- `parameter_t`; there are `pr_slowhz` ticks in a second.
abbrev pub pr_slowhz : ℕ
pr_slowhz = 2

abbrev pub tcptv_msl : ℕ
tcptv_msl = 30 * pr_slowhz

abbrev pub tcptv_srttbase : ℕ
tcptv_srttbase = 0

abbrev pub tcptv_srttdflt : ℕ
tcptv_srttdflt = 3 * pr_slowhz

abbrev pub tcptv_persmin : ℕ
tcptv_persmin = 5 * pr_slowhz

abbrev pub tcptv_persmax : ℕ
tcptv_persmax = 60 * pr_slowhz

abbrev pub tcptv_keep_init : ℕ
tcptv_keep_init = 75 * pr_slowhz

abbrev pub tcptv_keep_idle : ℕ
tcptv_keep_idle = 120 * 60 * pr_slowhz

abbrev pub tcptv_keepintvl : ℕ
tcptv_keepintvl = 75 * pr_slowhz

abbrev pub tcptv_keepcnt : ℕ
tcptv_keepcnt = 8

abbrev pub tcptv_min : ℕ
tcptv_min = 1 * pr_slowhz

abbrev pub tcptv_rexmtmax : ℕ
tcptv_rexmtmax = 16 * pr_slowhz

abbrev pub tcp_maxrxtshift : ℕ
tcp_maxrxtshift = 12

abbrev pub tcp_maxwin : ℕ
tcp_maxwin = 65535

abbrev pub tcp_maxcwin : ℕ
tcp_maxcwin = tcp_maxwin

abbrev pub tcp_thin_cwnd_segs : ℕ
tcp_thin_cwnd_segs = 4

-- The class's static variables, at the values that udt_cb.cpp gives them.
abbrev pub s_mss : ℕ
s_mss = 1006 - max_all_headers_size

abbrev pub s_iss : ℕ
s_iss = 0

abbrev pub s_keepidle : ℕ
s_keepidle = tcptv_keep_idle

abbrev pub s_keepintvl : ℕ
s_keepintvl = tcptv_keepintvl

abbrev pub s_maxidle : ℕ
s_maxidle = tcptv_keepcnt * s_keepintvl

abbrev pub s_tcp_rttdflt : ℕ
s_tcp_rttdflt = tcptv_srttdflt / pr_slowhz

abbrev pub s_tcprexmtthresh : ℕ
s_tcprexmtthresh = 3

-- The fields of `udt_cb`; the two interval timers are `timers_on`.
pub record Cb : Type 0 where
  pub state : State
  pub force : Bool
  pub maxseg : ℕ
  pub flags : CbFlags
  pub snd_una : ℕ
  pub snd_nxt : ℕ
  pub snd_fack : ℕ
  pub retrans_data : ℕ
  pub iss : ℕ
  pub pseq : ℕ
  pub rcv_wnd : ℕ
  pub rcv_nxt : ℕ
  pub irs : ℕ
  pub rcv_adv : ℕ
  pub snd_max : ℕ
  pub rxtshift : ℕ
  pub rxtcur : ℕ
  pub rtt : ℕ
  pub rtseq : ℕ
  pub srtt : ℕ
  pub rttvar : ℕ
  pub rttmin : ℕ
  pub idle : ℕ
  pub tick : ℕ
  pub timers : Timers
  pub snd_wl1 : ℕ
  pub snd_wl2 : ℕ
  pub snd_wnd : ℕ
  pub dupacks : ℕ
  pub snd_cwnd : ℕ
  pub pcwnd : ℕ
  pub max_sndwnd : ℕ
  pub tstamp_first : ℕ
  pub tstamp_second : ℕ
  pub tstamp_third : ℕ
  pub last_error : Option Error
  pub timers_on : Bool

-- `TCPT_RANGESET`: the arguments and the result are `short`.
unfoldable pub tcpt_rangeset : ℕ → ℕ → ℕ → ℕ
tcpt_rangeset value tvmin tvmax =
    if lt16s value tvmin then tvmin else if lt16s tvmax value then tvmax else value

-- `canceltimers`.
abbrev pub no_timers : Timers
no_timers = record { rexmt = 0; persist = 0; keep = 0; msl2 = 0 }

unfoldable pub canceltimers : Cb → Cb
canceltimers c = record c { timers = no_timers }

-- `min_cwnd`: eight segments.
abbrev pub min_cwnd : Cb → ℕ
min_cwnd c = c.maxseg * 8

-- `init`; the code leaves `m_snd_fack` as it finds the memory: `garbage`. The two interval timers
-- are started.
unfoldable pub init : ℕ → Cb
unfolding tcpt_rangeset
init garbage = record {
  state = closed;
  force = false;
  maxseg = s_mss;
  flags = no_cb_flags;
  snd_una = 0;
  snd_nxt = 0;
  snd_fack = garbage;
  retrans_data = 0;
  iss = 0;
  pseq = 0;
  rcv_wnd = 0;
  rcv_nxt = 0;
  irs = 0;
  rcv_adv = 0;
  snd_max = 0;
  rxtshift = 0;
  rxtcur = tcpt_rangeset ((tcptv_srttbase / 4 + tcptv_srttdflt * 2) / 2) tcptv_min tcptv_rexmtmax;
  rtt = 0;
  rtseq = 0;
  srtt = tcptv_srttbase;
  rttvar = s_tcp_rttdflt * pr_slowhz * 2;
  rttmin = tcptv_min;
  idle = 0;
  tick = 0;
  timers = no_timers;
  snd_wl1 = 0;
  snd_wl2 = 0;
  snd_wnd = s_mss * 8;
  dupacks = 0;
  snd_cwnd = s_mss * 8;
  pcwnd = 0;
  max_sndwnd = 0;
  tstamp_first = 0;
  tstamp_second = 0;
  tstamp_third = 0;
  last_error = none;
  timers_on = true;
}

-- `TCPS_HAVERCVDFIN` and `TCPS_HAVESNDFIN`.
abbrev pub have_rcvd_fin : State → Bool
have_rcvd_fin close_wait = true
have_rcvd_fin time_wait = true
have_rcvd_fin closing = true
have_rcvd_fin _ = false

abbrev pub have_snd_fin : Cb → Bool
have_snd_fin c = c.flags.sentfin

-- `tcp_sendseqinit` and `tcp_rcvseqinit`.
abbrev pub tcp_sendseqinit : Cb → Cb
tcp_sendseqinit c = record c { snd_max = c.iss; snd_nxt = c.iss; snd_una = c.iss; snd_fack = c.iss }

abbrev pub tcp_rcvseqinit : Cb → Cb
tcp_rcvseqinit c = record c { rcv_nxt = c.irs; rcv_adv = c.irs }

-- `set_mtu`: `m_maxseg` has 16 bits.
unfoldable pub set_mtu : ℕ → Cb → Cb
set_mtu mtu c =
    if leb max_all_headers_size mtu
    then record c { maxseg = u16 (mtu - max_all_headers_size) }
    else c
