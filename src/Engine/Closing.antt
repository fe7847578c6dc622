-- ===== src/Engine/Closing.antt =====
-- What becomes of a socket that the user has closed, udt/udt_engine.cpp.
use udt_boost.Base.{
  ℕ, ◌≡◌, refl, sym, ap, ◌∙◌, subst, Bool, true, false, ◌==◌, [], none, Bool-cases, inl, inr,
}
use udt_boost.Engine.{
  Env, Request, create, close, async_pub_addr, tell_pub_addr, async_hole_punch, tell_hole_punch,
  async_connect, async_accept, async_send, async_receive, async_shutdown, cancel, set_option,
  get_option, pending_data, clear, Engine, socket_at, close_, clear_, perform,
}
use udt_boost.Engine.Missing.{names, Refused, perform-Refused}
use udt_boost.Engine.Sockets.{concerns, perform-others}
use udt_boost.Engine.Life.{AreDistinct, Served, Served-AreDistinct, erased}

-- Whether a request makes a socket under the handle.
unfoldable pub makes : Env → Request → ℕ → Bool
makes env (create port) k = k == env.fresh
makes env (close h) k = false
makes env (async_pub_addr h hostname port handler) k = false
makes env (tell_pub_addr e ep h handler) k = false
makes env (async_hole_punch h eps handler) k = false
makes env (tell_hole_punch e eps h handler) k = false
makes env (async_connect h rep handler) k = false
makes env (async_accept h rep handler) k = false
makes env (async_send h buf handler) k = false
makes env (async_receive h len handler) k = false
makes env (async_shutdown h handler) k = false
makes env (cancel h) k = false
makes env (set_option h opt) k = false
makes env (get_option h optname) k = false
makes env (pending_data h) k = false
makes env clear k = false

-- A request that concerns a handle names it, makes it, or is `clear`.
only_clear :
    (env : Env) (r : Request) (k : ℕ)
    → concerns env r k ≡ true
    → names r k ≡ false
    → makes env r k ≡ false
    → r ≡ clear
unfolding concerns names makes
only_clear env (create port) k c n m = cc
only_clear env (close h) k c n m = cc
only_clear env (async_pub_addr h hostname port handler) k c n m = cc
only_clear env (tell_pub_addr e ep h handler) k c n m = cc
only_clear env (async_hole_punch h eps handler) k c n m = cc
only_clear env (tell_hole_punch e eps h handler) k c n m = cc
only_clear env (async_connect h rep handler) k c n m = cc
only_clear env (async_accept h rep handler) k c n m = cc
only_clear env (async_send h buf handler) k c n m = cc
only_clear env (async_receive h len handler) k c n m = cc
only_clear env (async_shutdown h handler) k c n m = cc
only_clear env (cancel h) k c n m = cc
only_clear env (set_option h opt) k c n m = cc
only_clear env (get_option h optname) k c n m = cc
only_clear env (pending_data h) k c n m = cc
only_clear env clear k c n m = refl

missing-perform :
    (env : Env) (r : Request) (g : Engine) (k : ℕ)
    → makes env r k ≡ false
    → socket_at k g.sockets ≡ none
    → socket_at k (perform env r g).sockets ≡ none
missing-perform env r g k m e = elim (Bool-cases (concerns env r k)) [
  | inr other ↦ perform-others env r g k other ∙ e
  | inl concerned ↦ elim (Bool-cases (names r k)) [
    | inl named ↦ ap (socket_at k) (perform-Refused env r g k named e).same_sockets ∙ e
    | inr not_named ↦
        rw (only_clear env r k concerned not_named m) (unfold perform clear_ socket_at in refl)
  ]
]

-- What the thread has done since, without making a socket under the handle.
pub data Without (h : ℕ) (g0 : Engine) : Engine → Type 0 where
  nothing : Without h g0 g0
  served :
      {g : Engine} (env : Env) (r : Request)
      → Without h g0 g
      → makes env r h ≡ false
      → Without h g0 (perform env r g)

Without-missing :
    (h : ℕ) {g0 g : Engine}
    → socket_at h g0.sockets ≡ none
    → Without h g0 g
    → socket_at h g.sockets ≡ none
Without-missing h e nothing = e
Without-missing h e (served {g} env r w m) = missing-perform env r g h m (Without-missing h e w)

-- To close a socket is final. In an engine that began with no socket, and whose allocator gave no
-- address that was in use, nothing is under the handle once `close` has been performed, whatever is
-- performed later, until `create` makes a socket at the same address. So each request for it changes no
-- socket and queues nothing, no handler is told, and a call that waits gives -1. Only
-- `async_hole_punch` does not stop there: it goes on to use the missing socket, a fault.
pub close-Refused :
    {g0 g1 g2 : Engine} (env env' : Env) (h : ℕ) (r : Request)
    → g0.sockets ≡ []
    → Served g0 g1
    → Without h (perform env (close h) g1) g2
    → names r h ≡ true
    → (socket_at h g2.sockets ≡ none) × Refused r g2 (perform env' r g2)
close-Refused {g0} {g1} {g2} env env' h r new s w n =
    let d = Served-AreDistinct (subst AreDistinct (sym new) tt) s in
    let gone : socket_at h (perform env (close h) g1).sockets ≡ none =
      unfold perform close_ in erased h g1.sockets d in
    let still = Without-missing h gone w in (still, perform-Refused env' r g2 h n still)
