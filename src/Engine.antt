-- ===== src/Engine.antt =====
-- The engine, udt/udt_engine.h and udt/udt_engine.cpp: it owns the sockets, and runs each call of the
-- user on its one thread. A call is a request that is queued (`post_handler`, `invoke_handler`), and
-- performed when the thread gets to it. What the allocator, memory, the clock, the resolver and the UDP
-- socket give is an argument, `Env`.
pub mod Sockets
pub mod Life
pub mod Closing
pub mod Thread
pub mod Missing
use udt_boost.Base.{
  ℕ, ◌-◌, Bool, true, false, not, ◌&&◌, ◌||◌, if◌then◌else◌, ◌==◌, List, [], ◌∷◌, ◌++◌, Option,
  none, some, u32_mod,
}
use udt_boost.Asio.{ErrorCode}
use udt_boost.Tracker
use udt_boost.Endpoint.{Endpoint, no_endpoint}
use udt_boost.Sock.{Sock}
use udt_boost.Socket
use udt_boost.Socket.{SockOpt, setsockopt, getsockopt}
use udt_boost.Notify
use udt_boost.HolePunch
use udt_boost.HolePunch.{HpClt}
use udt_boost.PubAddr
use udt_boost.PubAddr.{PubAddr}

-- What the engine does not determine: where `new` puts a socket, what is in the memory, the time,
-- `from_string` and the answers of the UDP socket to the sends of a public address client.
pub record Env : Type 0 where
  pub fresh : ℕ
  pub garbage : ℕ
  pub clock : ℕ
  pub s_trid : ℕ
  pub from_string : List ℕ → Option ℕ
  pub net : ℕ → Option ErrorCode

-- `udt_engine_socket`, without its raw socket.
pub record EngineSocket : Type 0 where
  pub sock : Sock
  pub pub_addr : Option PubAddr
  pub hp_clt : Option HpClt

-- What the user, and the clients that the engine has started, ask of the thread. A handle is the
-- address of a socket.
pub data Request : Type 0 where
  create : ℕ → Request
  close : ℕ → Request
  async_pub_addr : ℕ → List ℕ → ℕ → ℕ → Request
  tell_pub_addr : Option ErrorCode → Endpoint → ℕ → ℕ → Request
  async_hole_punch : ℕ → List ℕ → ℕ → Request
  tell_hole_punch : Option ErrorCode → List ℕ → ℕ → ℕ → Request
  async_connect async_accept : ℕ → ℕ → ℕ → Request
  async_send : ℕ → List ℕ → ℕ → Request
  async_receive : ℕ → ℕ → ℕ → Request
  async_shutdown : ℕ → ℕ → Request
  cancel : ℕ → Request
  set_option : ℕ → SockOpt → Request
  get_option : ℕ → ℕ → Request
  pending_data : ℕ → Request
  clear : Request

-- What the user hears: the handler of a client, or the result of a call that waits for it.
pub data Told : Type 0 where
  pub_addr_is : ℕ → Option ErrorCode → Endpoint → Told
  peers_are : ℕ → Option ErrorCode → List ℕ → Told
  handle_is : ℕ → Told
  result_is : ℕ → Told

-- `udt_engine`: is there a thread, and a `work` that keeps it running; the sockets; the requests in
-- the queue; and what was told, the latest last. `fault` is set where the code uses a socket that is
-- not there.
pub record Engine : Type 0 where
  pub thread : Bool
  pub worker : Bool
  pub sockets : List (ℕ × EngineSocket)
  pub queue : List Request
  pub told : List Told
  pub fault : Bool

abbrev pub minus_one : ℕ
minus_one = u32_mod - 1

abbrev pub tell : Told → Engine → Engine
tell t g = record g { told = g.told ++ t ∷ [] }

-- `udt_engine_socket_set_`: find, and erase.
unfoldable pub socket_at : ℕ → List (ℕ × EngineSocket) → Option EngineSocket
socket_at h [] = none
socket_at h ((k, s) ∷ rest) = if h == k then some s else socket_at h rest

unfoldable pub erase_socket : ℕ → List (ℕ × EngineSocket) → List (ℕ × EngineSocket)
erase_socket h [] = []
erase_socket h ((k, s) ∷ rest) = if h == k then rest else (k, s) ∷ erase_socket h rest

-- A socket is changed in its place.
unfoldable pub change_socket :
    ℕ → (EngineSocket → EngineSocket) → List (ℕ × EngineSocket) → List (ℕ × EngineSocket)
change_socket h f [] = []
change_socket h f ((k, s) ∷ rest) =
    if h == k then (k, f s) ∷ rest else (k, s) ∷ change_socket h f rest

unfoldable pub socket_exists : ℕ → Engine → Bool
socket_exists h g = elim (socket_at h g.sockets) [ none ↦ false | some s ↦ true ]

-- The guard of the requests: what is done to a socket that exists.
unfoldable pub if_exists : ℕ → (EngineSocket → EngineSocket) → Engine → Engine
if_exists h f g =
    if socket_exists h g then record g { sockets = change_socket h f g.sockets } else g

abbrev pub on_sock : (Sock → Sock) → EngineSocket → EngineSocket
on_sock f s = record s { sock = f s.sock }

unfoldable pub create_ : Env → ℕ → Engine → Engine
create_ env port g =
    let sock : EngineSocket = record {
      sock = Socket.create env.garbage env.clock;
      pub_addr = none;
      hp_clt = none;
    } in
    tell (handle_is env.fresh) (record g { sockets = g.sockets ++ (env.fresh, sock) ∷ [] })

unfoldable pub close_ : ℕ → Engine → Engine
close_ h g = record g { sockets = erase_socket h g.sockets }

-- The clients that the constructors leave; `create` is their first call.
unfoldable pub new_pub_addr : Env → List ℕ → ℕ → PubAddr
new_pub_addr env hostname port = PubAddr.create true hostname port (record {
  server_ep = no_endpoint;
  socket = false;
  handler = 0;
  pub_addr_ep = no_endpoint;
  resolver = false;
  tracker = Tracker.init;
  s_trid = env.s_trid;
  trid = 0;
  server_hostname = [];
  server_port = 0;
  last_error = none;
  fault = false;
  effects = [];
})

unfoldable pub new_hp_clt : HpClt
new_hp_clt =
    (HolePunch.create true true (record {
      socket = false;
      handler = none;
      peer_eps = [];
      last_error = none;
      tracker = Tracker.init;
      effects = [];
    })).0

unfoldable pub async_pub_addr_ : Env → ℕ → List ℕ → ℕ → ℕ → Engine → Engine
async_pub_addr_ env h hostname port handler = if_exists h λ s. record s {
  pub_addr =
      some
        (PubAddr.async_pub_addr env.from_string env.net handler (new_pub_addr env hostname port));
}

unfoldable pub handle_async_pub_addr : Option ErrorCode → Endpoint → ℕ → ℕ → Engine → Engine
handle_async_pub_addr e ep h handler g =
    if socket_exists h g
    then tell (pub_addr_is handler e ep) (if_exists h (λ s. record s { pub_addr = none }) g)
    else g

-- The test is there, but not the return: without the socket its memory is used all the same.
unfoldable pub async_hole_punch_ : ℕ → List ℕ → ℕ → Engine → Engine
async_hole_punch_ h eps handler g =
    if socket_exists h g
    then if_exists h
        (λ s. record s { hp_clt = some (HolePunch.async_hole_punch handler eps new_hp_clt) }) g
    else record g { fault = true }

unfoldable pub handle_async_hole_punch : Option ErrorCode → List ℕ → ℕ → ℕ → Engine → Engine
handle_async_hole_punch e eps h handler g =
    if socket_exists h g
    then tell (peers_are handler e eps) (if_exists h (λ s. record s { hp_clt = none }) g)
    else g

unfoldable pub async_connect_ : ℕ → ℕ → ℕ → Engine → Engine
async_connect_ h rep handler = if_exists h (on_sock (Socket.async_connect rep handler))

unfoldable pub async_accept_ : ℕ → ℕ → ℕ → Engine → Engine
async_accept_ h rep handler = if_exists h (on_sock (Socket.async_accept rep handler))

unfoldable pub async_send_ : ℕ → List ℕ → ℕ → Engine → Engine
async_send_ h buf handler = if_exists h (on_sock (Socket.async_send buf handler))

unfoldable pub async_receive_ : ℕ → ℕ → ℕ → Engine → Engine
async_receive_ h len handler = if_exists h (on_sock (Socket.async_receive len handler))

unfoldable pub async_shutdown_ : ℕ → ℕ → Engine → Engine
async_shutdown_ h handler = if_exists h (on_sock (Socket.async_shutdown handler))

unfoldable pub cancel_ : ℕ → Engine → Engine
cancel_ h = if_exists h (on_sock Notify.cancel)

-- The result of a call that waits: -1 without the socket.
unfoldable pub result_of : ℕ → (Sock → ℕ) → Engine → ℕ
result_of h f g = elim (socket_at h g.sockets) [ none ↦ minus_one | some s ↦ f s.sock ]

abbrev pub option_result : Option ℕ → ℕ
option_result none = minus_one
option_result (some v) = v

unfoldable pub setsockopt_ : ℕ → SockOpt → Engine → Engine
setsockopt_ h opt g =
    tell (result_is (result_of h (λ s. 0) g)) (if_exists h (on_sock (setsockopt opt)) g)

-- `getsockopt_`: the value stands for what is written through the pointer.
unfoldable pub getsockopt_ : ℕ → ℕ → Engine → Engine
getsockopt_ h optname g =
    tell (result_is (result_of h (λ s. option_result (getsockopt optname s)) g)) g

unfoldable pub pending_data_ : ℕ → Engine → Engine
pending_data_ h g = tell (result_is (result_of h (λ s. s.pending_data) g)) g

unfoldable pub clear_ : Engine → Engine
clear_ g = record g { sockets = [] }

-- What the thread does with a request.
unfoldable pub perform : Env → Request → Engine → Engine
perform env (create port) = create_ env port
perform env (close h) = close_ h
perform env (async_pub_addr h hostname port handler) = async_pub_addr_ env h hostname port handler
perform env (tell_pub_addr e ep h handler) = handle_async_pub_addr e ep h handler
perform env (async_hole_punch h eps handler) = async_hole_punch_ h eps handler
perform env (tell_hole_punch e eps h handler) = handle_async_hole_punch e eps h handler
perform env (async_connect h rep handler) = async_connect_ h rep handler
perform env (async_accept h rep handler) = async_accept_ h rep handler
perform env (async_send h buf handler) = async_send_ h buf handler
perform env (async_receive h len handler) = async_receive_ h len handler
perform env (async_shutdown h handler) = async_shutdown_ h handler
perform env (cancel h) = cancel_ h
perform env (set_option h opt) = setsockopt_ h opt
perform env (get_option h optname) = getsockopt_ h optname
perform env (pending_data h) = pending_data_ h
perform env clear = clear_

-- `post_handler`, and the queueing half of `invoke_handler`: the engine's tracker is never reset.
unfoldable pub post_handler : Request → Engine → Engine
post_handler r g = record g { queue = g.queue ++ r ∷ [] }

-- The thread takes the next request; without a thread the queue waits.
unfoldable pub step : Env → Engine → Engine
unfolding perform
step env g = elim g.queue [
  | [] ↦ g
  | r ∷ rest ↦ if g.thread then perform env r (record g { queue = rest }) else g
]

unfoldable pub run : Engine → Engine
run g = if g.thread then g else record g { thread = true; worker = true }

-- `stop`: the thread leaves `ios_.run`, and then only queues `clear_`.
unfoldable pub stop : Engine → Engine
unfolding post_handler
stop g = if g.thread then post_handler clear (record g { thread = false; worker = false }) else g
