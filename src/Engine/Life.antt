-- ===== src/Engine/Life.antt =====
-- The handles of the engine's sockets, udt/udt_engine.cpp: each stands for one.
use udt_boost.Base.{
  ℕ, ◌≡◌, refl, ◌∙◌, false, ◌==◌, [], ◌∷◌, ◌++◌, none, arith, Bool-cases, inl, inr, if_ind,
}
use udt_boost.Engine.{
  Env, EngineSocket, Request, create, close, async_pub_addr, tell_pub_addr, async_hole_punch,
  tell_hole_punch, async_connect, async_accept, async_send, async_receive, async_shutdown, cancel,
  set_option, get_option, pending_data, clear, Engine, socket_at, erase_socket, change_socket,
  socket_exists, if_exists, create_, close_, async_connect_, async_accept_, async_send_,
  async_receive_, async_shutdown_, cancel_, async_pub_addr_, handle_async_pub_addr,
  async_hole_punch_, handle_async_hole_punch, setsockopt_, getsockopt_, pending_data_, clear_,
  perform,
}
use udt_boost.Engine.Sockets.{Sockets, socket_at-append}

-- Each handle stands for one socket.
abbrev pub AreDistinct : Sockets → Type 0
AreDistinct [] = Unit
AreDistinct ((k, s) ∷ m) = (socket_at k m ≡ none) × AreDistinct m

missing-change :
    (k h : ℕ) (f : EngineSocket → EngineSocket) (m : Sockets)
    → socket_at k m ≡ none
    → socket_at k (change_socket h f m) ≡ none
unfolding socket_at change_socket
missing-change k h f [] e = refl
missing-change k h f ((j, s) ∷ m) e = ground (arith, missing-change k h f m)

change-AreDistinct :
    (h : ℕ) (f : EngineSocket → EngineSocket) (m : Sockets)
    → AreDistinct m
    → AreDistinct (change_socket h f m)
unfolding change_socket
change-AreDistinct h f [] d = tt
change-AreDistinct h f ((k, s) ∷ m) d = elim (Bool-cases (h == k)) [
  | inl e ↦ rw e d
  | inr e ↦ rw e (missing-change k h f m d.0, change-AreDistinct h f m d.1)
]

missing-erase :
    (k h : ℕ) (m : Sockets) → socket_at k m ≡ none → socket_at k (erase_socket h m) ≡ none
unfolding socket_at erase_socket
missing-erase k h [] e = refl
missing-erase k h ((j, s) ∷ m) e = ground (arith, missing-erase k h m)

erase-AreDistinct : (h : ℕ) (m : Sockets) → AreDistinct m → AreDistinct (erase_socket h m)
unfolding erase_socket
erase-AreDistinct h [] d = tt
erase-AreDistinct h ((k, s) ∷ m) d = elim (Bool-cases (h == k)) [
  | inl e ↦ rw e d.1
  | inr e ↦ rw e (missing-erase k h m d.0, erase-AreDistinct h m d.1)
]

append-AreDistinct :
    (h : ℕ) (s : EngineSocket) (m : Sockets)
    → socket_at h m ≡ none
    → AreDistinct m
    → AreDistinct (m ++ (h, s) ∷ [])
unfolding socket_at
append-AreDistinct h s [] e d = (refl, tt)
append-AreDistinct h s ((k, t) ∷ m) e d =
    let other : (k == h) ≡ false = ground (arith, e) in
    (socket_at-append k h s m other ∙ d.0, append-AreDistinct h s m (ground (arith, e)) d.1)

-- After `close_` nothing is under the handle.
pub erased : (h : ℕ) (m : Sockets) → AreDistinct m → socket_at h (erase_socket h m) ≡ none
unfolding socket_at erase_socket
erased h [] d = refl
erased h ((k, s) ∷ m) d = elim (Bool-cases (h == k)) [
  | inl e ↦ rw e (let same : h ≡ k = ground (arith, e) in rw same d.0)
  | inr e ↦ rw (e, e) (erased h m d.1)
]

guarded-AreDistinct :
    (h : ℕ) (f : EngineSocket → EngineSocket) (g : Engine)
    → AreDistinct g.sockets
    → AreDistinct (if_exists h f g).sockets
unfolding if_exists
guarded-AreDistinct h f g d =
    if_ind (λ (x : Engine). AreDistinct x.sockets) (socket_exists h g)
      (change-AreDistinct h f g.sockets d) d

-- Each request keeps the handles distinct, if the allocator gives no address that is in use.
pub perform-AreDistinct :
    (env : Env) (r : Request) (g : Engine)
    → socket_at env.fresh g.sockets ≡ none
    → AreDistinct g.sockets
    → AreDistinct (perform env r g).sockets
unfolding perform create_ close_ async_pub_addr_ handle_async_pub_addr async_hole_punch_
    handle_async_hole_punch setsockopt_ getsockopt_ async_connect_ async_accept_ async_send_
    async_receive_ async_shutdown_ cancel_ pending_data_ clear_
perform-AreDistinct env (create port) g e d = append-AreDistinct env.fresh _ g.sockets e d
perform-AreDistinct env (close h) g e d = erase-AreDistinct h g.sockets d
perform-AreDistinct env (async_pub_addr h hostname port handler) g e d = guarded-AreDistinct h _ g d
perform-AreDistinct env (tell_pub_addr c ep h handler) g e d =
    if_ind (λ (x : Engine). AreDistinct x.sockets) (socket_exists h g) (guarded-AreDistinct h _ g d)
      d
perform-AreDistinct env (async_hole_punch h eps handler) g e d =
    if_ind (λ (x : Engine). AreDistinct x.sockets) (socket_exists h g) (guarded-AreDistinct h _ g d)
      d
perform-AreDistinct env (tell_hole_punch c eps h handler) g e d =
    if_ind (λ (x : Engine). AreDistinct x.sockets) (socket_exists h g) (guarded-AreDistinct h _ g d)
      d
perform-AreDistinct env (async_connect h rep handler) g e d = guarded-AreDistinct h _ g d
perform-AreDistinct env (async_accept h rep handler) g e d = guarded-AreDistinct h _ g d
perform-AreDistinct env (async_send h buf handler) g e d = guarded-AreDistinct h _ g d
perform-AreDistinct env (async_receive h len handler) g e d = guarded-AreDistinct h _ g d
perform-AreDistinct env (async_shutdown h handler) g e d = guarded-AreDistinct h _ g d
perform-AreDistinct env (cancel h) g e d = guarded-AreDistinct h _ g d
perform-AreDistinct env (set_option h opt) g e d = guarded-AreDistinct h _ g d
perform-AreDistinct env (get_option h optname) g e d = d
perform-AreDistinct env (pending_data h) g e d = d
perform-AreDistinct env clear g e d = tt

-- What the thread has done since: it has performed requests, each where the allocator gives an address
-- that no socket has.
pub data Served (g0 : Engine) : Engine → Type 0 where
  nothing : Served g0 g0
  served :
      {g : Engine} (env : Env) (r : Request)
      → Served g0 g
      → socket_at env.fresh g.sockets ≡ none
      → Served g0 (perform env r g)

pub Served-AreDistinct :
    {g0 g : Engine} → AreDistinct g0.sockets → Served g0 g → AreDistinct g.sockets
Served-AreDistinct d nothing = d
Served-AreDistinct d (served {g} env r s e) = perform-AreDistinct env r g e (Served-AreDistinct d s)
