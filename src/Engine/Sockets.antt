-- ===== src/Engine/Sockets.antt =====
-- The registry of the engine, udt/udt_engine.cpp, under each of the requests.
use udt_boost.Base.{
  ℕ, ◌≡◌, refl, ap, Bool, true, false, ◌==◌, List, [], ◌∷◌, ◌++◌, some, arith, Bool-cases, inl, inr,
  if_ind,
}
use udt_boost.Engine.{
  Env, EngineSocket, Request, create, close, async_pub_addr, tell_pub_addr, async_hole_punch,
  tell_hole_punch, async_connect, async_accept, async_send, async_receive, async_shutdown, cancel,
  set_option, get_option, pending_data, clear, Engine, socket_at, erase_socket, change_socket,
  socket_exists, if_exists, create_, close_, async_connect_, async_accept_, async_send_,
  async_receive_, async_shutdown_, cancel_, async_pub_addr_, handle_async_pub_addr,
  async_hole_punch_, handle_async_hole_punch, setsockopt_, getsockopt_, pending_data_, perform,
}

abbrev pub Sockets : Type 0
Sockets = List (ℕ × EngineSocket)

pub socket_at-change :
    (k h : ℕ) (f : EngineSocket → EngineSocket) (m : Sockets)
    → (k == h) ≡ false
    → socket_at k (change_socket h f m) ≡ socket_at k m
unfolding socket_at change_socket
socket_at-change k h f [] e = refl
socket_at-change k h f ((j, s) ∷ m) e = ground (arith, socket_at-change k h f m)

pub socket_at-change_self :
    (h : ℕ) (f : EngineSocket → EngineSocket) (m : Sockets) (s : EngineSocket)
    → socket_at h m ≡ some s
    → socket_at h (change_socket h f m) ≡ some (f s)
unfolding socket_at change_socket
socket_at-change_self h f [] s e = cc
socket_at-change_self h f ((j, t) ∷ m) s e = elim (Bool-cases (h == j)) [
  | inl same ↦
      let first : t ≡ s = ground (arith, same) in rw (same, same) (ap (λ x. some (f x)) first)
  | inr other ↦ rw (other, other) (socket_at-change_self h f m s (ground (arith, other)))
]

pub socket_at-erase :
    (k h : ℕ) (m : Sockets) → (k == h) ≡ false → socket_at k (erase_socket h m) ≡ socket_at k m
unfolding socket_at erase_socket
socket_at-erase k h [] e = refl
socket_at-erase k h ((j, s) ∷ m) e = ground (arith, socket_at-erase k h m)

pub socket_at-append :
    (k h : ℕ) (s : EngineSocket) (m : Sockets)
    → (k == h) ≡ false
    → socket_at k (m ++ (h, s) ∷ []) ≡ socket_at k m
unfolding socket_at
socket_at-append k h s [] e = rw e refl
socket_at-append k h s ((j, t) ∷ m) e = ground (arith, socket_at-append k h s m)

-- Whether a request may change what there is under a handle.
unfoldable pub concerns : Env → Request → ℕ → Bool
concerns env (create port) k = k == env.fresh
concerns env (close h) k = k == h
concerns env (async_pub_addr h hostname port handler) k = k == h
concerns env (tell_pub_addr e ep h handler) k = k == h
concerns env (async_hole_punch h eps handler) k = k == h
concerns env (tell_hole_punch e eps h handler) k = k == h
concerns env (async_connect h rep handler) k = k == h
concerns env (async_accept h rep handler) k = k == h
concerns env (async_send h buf handler) k = k == h
concerns env (async_receive h len handler) k = k == h
concerns env (async_shutdown h handler) k = k == h
concerns env (cancel h) k = k == h
concerns env (set_option h opt) k = k == h
concerns env (get_option h optname) k = k == h
concerns env (pending_data h) k = k == h
concerns env clear k = true

others :
    (k h : ℕ) (f : EngineSocket → EngineSocket) (g : Engine)
    → (k == h) ≡ false
    → socket_at k (if_exists h f g).sockets ≡ socket_at k g.sockets
unfolding if_exists
others k h f g e =
    if_ind (λ (x : Engine). socket_at k x.sockets ≡ socket_at k g.sockets) (socket_exists h g)
      (socket_at-change k h f g.sockets e) refl

-- A request touches the socket that it names, and no other: under every other handle there is what
-- there was before. `create` names the handle that it makes; only `clear` is about all of them.
pub perform-others :
    (env : Env) (r : Request) (g : Engine) (k : ℕ)
    → concerns env r k ≡ false
    → socket_at k (perform env r g).sockets ≡ socket_at k g.sockets
unfolding perform concerns create_ close_ async_pub_addr_ handle_async_pub_addr async_hole_punch_
    handle_async_hole_punch setsockopt_ getsockopt_ async_connect_ async_accept_ async_send_
    async_receive_ async_shutdown_ cancel_ pending_data_
perform-others env (create port) g k e = socket_at-append k env.fresh _ g.sockets e
perform-others env (close h) g k e = socket_at-erase k h g.sockets e
perform-others env (async_pub_addr h hostname port handler) g k e = others k h _ g e
perform-others env (tell_pub_addr c ep h handler) g k e =
    if_ind (λ (x : Engine). socket_at k x.sockets ≡ socket_at k g.sockets) (socket_exists h g)
      (others k h _ g e) refl
perform-others env (async_hole_punch h eps handler) g k e =
    if_ind (λ (x : Engine). socket_at k x.sockets ≡ socket_at k g.sockets) (socket_exists h g)
      (others k h _ g e) refl
perform-others env (tell_hole_punch c eps h handler) g k e =
    if_ind (λ (x : Engine). socket_at k x.sockets ≡ socket_at k g.sockets) (socket_exists h g)
      (others k h _ g e) refl
perform-others env (async_connect h rep handler) g k e = others k h _ g e
perform-others env (async_accept h rep handler) g k e = others k h _ g e
perform-others env (async_send h buf handler) g k e = others k h _ g e
perform-others env (async_receive h len handler) g k e = others k h _ g e
perform-others env (async_shutdown h handler) g k e = others k h _ g e
perform-others env (cancel h) g k e = others k h _ g e
perform-others env (set_option h opt) g k e = others k h _ g e
perform-others env (get_option h optname) g k e = refl
perform-others env (pending_data h) g k e = refl
perform-others env clear g k e = cc
