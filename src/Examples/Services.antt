-- ===== src/Examples/Services.antt =====
-- A public address client and an engine with two sockets, and the theorems of the development at them.
use udt_boost.Base.{
  ℕ, ◌≡◌, refl, true, false, List, [], ◌∷◌, Option, none, some, arith, get_or, ◌↔◌, if◌then◌else◌,
  ◌==◌,
}
use udt_boost.Asio.{ErrorCode, not_found}
use udt_boost.Tracker
use udt_boost.Text.{digits, digits_loop}
use udt_boost.Endpoint.{no_endpoint}
use udt_boost.PubAddr.{
  PubAddr, notify, handle_async_receive, async_pub_addr, send_request, ensure_tracker,
}
use udt_boost.PubAddr.Answers.{IsAddress, answer, handle_async_receive-answer}
use udt_boost.PubAddr.Retry.{unresolved, async_pub_addr-unresolved}
use udt_boost.ChkNat.{ChkNat, nt_none, nt_port_restrict_cone, analyze, handle_datagram}
use udt_boost.ChkNat.Types.{Means, Reports, analyze-Means}
use udt_boost.ChkNat.Bounds.{handle_datagram_fault}
use udt_boost.Socket
use udt_boost.Socket.{udt_snd_buf}
use udt_boost.Engine.{
  Env, Request, close, async_shutdown, async_hole_punch, EngineSocket, Engine, socket_at, perform,
  step, run, stop,
}
use udt_boost.Engine.Sockets.{concerns, perform-others}
use udt_boost.Engine.Missing.{Refused, names, perform-Refused}
use udt_boost.Engine.Life.{Served}
use udt_boost.Engine.Closing.{Without, close-Refused}
use udt_boost.Engine.Thread.{steps, stop-sockets}

-- A client that asks the server at 9.9.9.9, port 99, in its first transaction.
abbrev asking : PubAddr
asking = record {
  server_ep = record { address = 9; port = 99 };
  socket = true;
  handler = 7;
  pub_addr_ep = no_endpoint;
  resolver = false;
  tracker = record { refer = some 0; made = 1 };
  s_trid = 1;
  trid = 1;
  server_hostname = b's' ∷ [];
  server_port = 99;
  last_error = none;
  fault = false;
  effects = [];
}

-- An `asio` that knows one address.
abbrev ip : List ℕ
ip = b'1' ∷ b'.' ∷ b'2' ∷ b'.' ∷ b'3' ∷ b'.' ∷ b'4' ∷ []

abbrev knows_ip : List ℕ → Option ℕ
knows_ip s = if get_or s 0 0 == b'1' then some 16909060 else none

ip-IsAddress : IsAddress ip
ip-IsAddress = (
  (omega arith, omega arith),
  (
    (omega arith, omega arith),
    (
      (omega arith, omega arith),
      (
        (omega arith, omega arith),
        (
          (omega arith, omega arith),
          ((omega arith, omega arith), ((omega arith, omega arith), tt)),
        ),
      ),
    ),
  ),
)

handle_async_receive-answer_example :
    handle_async_receive knows_ip none (answer 1 ip 1291) asking.server_ep (some 0) asking
    ≡ notify (record asking { pub_addr_ep = record { address = 16909060; port = 1291 } })
unfolding Tracker.expired digits digits_loop
handle_async_receive-answer_example =
    handle_async_receive-answer knows_ip ip 16909060 1291 (some 0) asking ip-IsAddress refl
      (omega arith) (omega arith) refl (omega arith)

abbrev new_asking : PubAddr
new_asking = record asking { server_ep = no_endpoint }

abbrev all_sent : ℕ → Option ErrorCode
all_sent i = none

abbrev knows_none : List ℕ → Option ℕ
knows_none s = none

abbrev unlucky : PubAddr
unlucky = unresolved knows_none all_sent 7 not_found (some 0) new_asking

async_pub_addr-unresolved_example :
    (unlucky.server_ep ≡ record { address = 0; port = 99 })
    × (async_pub_addr knows_none all_sent 8 unlucky
        ≡ send_request all_sent (record unlucky {
          handler = 8;
          tracker = ensure_tracker unlucky.tracker;
          pub_addr_ep = no_endpoint;
        }))
async_pub_addr-unresolved_example =
    async_pub_addr-unresolved knows_none all_sent 7 8 not_found (some 0) new_asking refl refl
      (omega arith)

abbrev env : Env
env = record {
  fresh = 300;
  garbage = 0;
  clock = 0;
  s_trid = 0;
  from_string = knows_none;
  net = all_sent;
}

abbrev plain_socket : EngineSocket
plain_socket = record { sock = Socket.create 0 0; pub_addr = none; hp_clt = none }

-- An engine that runs, and has sockets at 100 and at 200.
abbrev engine : Engine
engine = record {
  thread = true;
  worker = true;
  sockets = (100, plain_socket) ∷ (200, plain_socket) ∷ [];
  queue = [];
  told = [];
  fault = false;
}

perform-others_example :
    socket_at 200 (perform env (async_shutdown 100 5) engine).sockets ≡ socket_at 200 engine.sockets
unfolding concerns
perform-others_example = perform-others env (async_shutdown 100 5) engine 200 refl

perform-Refused_example :
    Refused (async_hole_punch 300 [] 5) engine (perform env (async_hole_punch 300 [] 5) engine)
unfolding names socket_at
perform-Refused_example = perform-Refused env (async_hole_punch 300 [] 5) engine 300 refl refl

-- An engine that has made a socket at 300, and no other.
abbrev empty_engine : Engine
empty_engine = record engine { sockets = [] }

abbrev one_socket : Engine
one_socket = perform env (Request.create 80) empty_engine

abbrev closed_engine : Engine
closed_engine = perform env (close 300) one_socket

close-Refused_example :
    (socket_at 300 closed_engine.sockets ≡ none)
    × Refused
        (async_shutdown 300 5)
        closed_engine
        (perform env (async_shutdown 300 5) closed_engine)
unfolding names socket_at
close-Refused_example =
    close-Refused {g0 = empty_engine} {g1 = one_socket} {g2 = closed_engine} env env 300
      (async_shutdown 300 5) refl (Served.served env (Request.create 80) Served.nothing refl)
      Without.nothing refl

stop-sockets_example :
    ((steps (λ n. env) 9 (stop engine)).sockets ≡ engine.sockets)
    × ((step env (run (steps (λ n. env) 9 (stop engine)))).sockets ≡ [])
stop-sockets_example = stop-sockets (λ n. env) env 9 engine refl refl

-- A check in which both servers have answered the first two questions, and no other.
abbrev checking : ChkNat
checking = record {
  tracker = record { refer = some 0; made = 1 };
  handler = 3;
  socket = true;
  server_0 = record { address = 8; port = 25000 };
  server_1 = record { address = 9; port = 25000 };
  nat_info = record {
    nat_type = nt_none;
    eps =
        record { address = 5; port = 70 }
        ∷ record { address = 5; port = 70 }
        ∷ no_endpoint
        ∷ no_endpoint
        ∷ [];
  };
  resp_bitmap = true ∷ true ∷ false ∷ false ∷ [];
  last_error = none;
  fault = false;
  effects = [];
}

analyze-Means_example :
    (Means [] checking.nat_info.eps nt_port_restrict_cone
      ↔ ((analyze [] checking).nat_info.nat_type ≡ nt_port_restrict_cone))
    × (Means [] checking.nat_info.eps nt_port_restrict_cone
        ↔ Reports checking nt_port_restrict_cone (analyze [] checking).effects)
analyze-Means_example = analyze-Means [] checking nt_port_restrict_cone

handle_datagram_fault_example :
    (handle_datagram knows_ip [] (answer 7 ip 1291) checking.server_0 checking).fault ≡ true
unfolding digits digits_loop
handle_datagram_fault_example =
    handle_datagram_fault knows_ip [] 7 ip 1291 checking ip-IsAddress (omega arith) (omega arith)
      (omega arith) refl
