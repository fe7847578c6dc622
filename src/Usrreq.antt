-- ===== src/Usrreq.antt =====
-- The user requests to the control block, udt/udt_usrreq.cpp. The Boolean is `true` for the
-- result 0, `false` for -1.
use udt_boost.Base.{Bool, true, false}
use udt_boost.Cb.{
  Cb, State, closed, listen, syn_sent, established, close_wait, fin_wait_1, last_ack, canceltimers,
  tcp_sendseqinit, s_iss, tcptv_keep_init,
}
use udt_boost.Sock.{Sock, on_cb}
use udt_boost.Output.Round.{output}

-- An active open: a SYN goes out.
unfoldable pub start_connect : Cb → Cb
start_connect c = tcp_sendseqinit (record c {
  state = syn_sent;
  timers = record c.timers { keep = tcptv_keep_init };
  iss = s_iss;
})

unfoldable pub connect : Sock → Sock × Bool
connect s = elim s.cb.state [ closed ↦ ((output (on_cb start_connect s)).0, true) | _ ↦ (s, false) ]

-- A passive open.
unfoldable pub accept_in : State → Sock → Sock × Bool
accept_in closed s = (on_cb (λ c. record c { state = listen }) s, true)
accept_in _ s = (s, false)

unfoldable pub accept : Sock → Sock × Bool
accept s = accept_in s.cb.state s

-- The end of the control block; the interval timers stop.
unfoldable pub close : Sock → Sock
close s = on_cb (λ c. record (canceltimers c) { state = closed; timers_on = false }) s

-- An orderly close: a FIN goes out behind the data.
unfoldable pub shutdown_in : State → Sock → Sock × Bool
shutdown_in established s = ((output (on_cb (λ c. record c { state = fin_wait_1 }) s)).0, true)
shutdown_in close_wait s = ((output (on_cb (λ c. record c { state = last_ack }) s)).0, true)
shutdown_in _ s = (s, false)

unfoldable pub shutdown : Sock → Sock × Bool
shutdown s = shutdown_in s.cb.state s
