-- ===== src/Engine/Missing.antt =====
-- Requests for a socket that is not there, udt/udt_engine.cpp, and how a socket comes not to be there.
use udt_boost.Base.{
  ℕ, ◌≡◌, refl, sym, ap, ◌∙◌, Bool, true, false, ◌||◌, ◌==◌, List, [], ◌∷◌, ◌++◌, none, arith,
  append-nil,
}
use udt_boost.Engine.{
  Env, EngineSocket, Request, create, close, async_pub_addr, tell_pub_addr, async_hole_punch,
  tell_hole_punch, async_connect, async_accept, async_send, async_receive, async_shutdown, cancel,
  set_option, get_option, pending_data, clear, Told, result_is, Engine, tell, minus_one, socket_at,
  erase_socket, socket_exists, if_exists, close_, async_connect_, async_accept_, async_send_,
  async_receive_, async_shutdown_, cancel_, async_pub_addr_, handle_async_pub_addr,
  async_hole_punch_, handle_async_hole_punch, result_of, setsockopt_, getsockopt_, pending_data_,
  perform,
}
use udt_boost.Sock.{Sock}
use udt_boost.Engine.Sockets.{Sockets}

-- Whether a request is for a socket that the user names.
unfoldable pub names : Request → ℕ → Bool
names (create port) k = false
names (close h) k = k == h
names (async_pub_addr h hostname port handler) k = k == h
names (tell_pub_addr e ep h handler) k = k == h
names (async_hole_punch h eps handler) k = k == h
names (tell_hole_punch e eps h handler) k = k == h
names (async_connect h rep handler) k = k == h
names (async_accept h rep handler) k = k == h
names (async_send h buf handler) k = k == h
names (async_receive h len handler) k = k == h
names (async_shutdown h handler) k = k == h
names (cancel h) k = k == h
names (set_option h opt) k = k == h
names (get_option h optname) k = k == h
names (pending_data h) k = k == h
names clear k = false

-- What the user is told at once: the result of a call that waits.
unfoldable pub answer : Request → List Told
answer (set_option h opt) = result_is minus_one ∷ []
answer (get_option h optname) = result_is minus_one ∷ []
answer (pending_data h) = result_is minus_one ∷ []
answer (create port) = []
answer (close h) = []
answer (async_pub_addr h hostname port handler) = []
answer (tell_pub_addr e ep h handler) = []
answer (async_hole_punch h eps handler) = []
answer (tell_hole_punch e eps h handler) = []
answer (async_connect h rep handler) = []
answer (async_accept h rep handler) = []
answer (async_send h buf handler) = []
answer (async_receive h len handler) = []
answer (async_shutdown h handler) = []
answer (cancel h) = []
answer clear = []

unfoldable pub is_hole_punch : Request → Bool
is_hole_punch (async_hole_punch h eps handler) = true
is_hole_punch (create port) = false
is_hole_punch (close h) = false
is_hole_punch (async_pub_addr h hostname port handler) = false
is_hole_punch (tell_pub_addr e ep h handler) = false
is_hole_punch (tell_hole_punch e eps h handler) = false
is_hole_punch (async_connect h rep handler) = false
is_hole_punch (async_accept h rep handler) = false
is_hole_punch (async_send h buf handler) = false
is_hole_punch (async_receive h len handler) = false
is_hole_punch (async_shutdown h handler) = false
is_hole_punch (cancel h) = false
is_hole_punch (set_option h opt) = false
is_hole_punch (get_option h optname) = false
is_hole_punch (pending_data h) = false
is_hole_punch clear = false

-- Nothing but the answer.
pub record Refused (r : Request) (g g' : Engine) : Type 0 where
  pub same_sockets : g'.sockets ≡ g.sockets
  pub same_queue : g'.queue ≡ g.queue
  pub answered : g'.told ≡ g.told ++ answer r
  pub faults : g'.fault ≡ (g.fault || is_hole_punch r)

missing : (h : ℕ) (g : Engine) → socket_at h g.sockets ≡ none → socket_exists h g ≡ false
unfolding socket_exists
missing h g e = rw (e, socket_exists) refl

erase_missing : (h : ℕ) (m : Sockets) → socket_at h m ≡ none → erase_socket h m ≡ m
unfolding socket_at erase_socket
erase_missing h [] e = refl
erase_missing h ((k, s) ∷ m) e = ground (arith, erase_missing h m)

silent : (r : Request) (g : Engine) → answer r ≡ [] → is_hole_punch r ≡ false → Refused r g g
silent r g a p = record {
  same_sockets = refl;
  same_queue = refl;
  answered = sym (ap (λ t. g.told ++ t) a ∙ append-nil g.told);
  faults = ground arith;
}

guarded :
    (r : Request) (h : ℕ) (f : EngineSocket → EngineSocket) (g : Engine)
    → socket_at h g.sockets ≡ none
    → answer r ≡ []
    → is_hole_punch r ≡ false
    → Refused r g (if_exists h f g)
unfolding if_exists
guarded r h f g e a p = rw (missing h g e) (silent r g a p)

told_none :
    (r : Request) (h : ℕ) (f : EngineSocket → EngineSocket) (v : Sock → ℕ) (g : Engine)
    → socket_at h g.sockets ≡ none
    → answer r ≡ result_is minus_one ∷ []
    → is_hole_punch r ≡ false
    → Refused r g (tell (result_is (result_of h v g)) (if_exists h f g))
unfolding if_exists result_of
told_none r h f v g e a p =
    rw (missing h g e, e, result_of)
      (record {
        same_sockets = refl;
        same_queue = refl;
        answered = sym (ap (λ t. g.told ++ t) a);
        faults = ground arith;
      })

told_value :
    (r : Request) (h : ℕ) (v : Sock → ℕ) (g : Engine)
    → socket_at h g.sockets ≡ none
    → answer r ≡ result_is minus_one ∷ []
    → is_hole_punch r ≡ false
    → Refused r g (tell (result_is (result_of h v g)) g)
unfolding result_of
told_value r h v g e a p =
    rw (e, result_of)
      (record {
        same_sockets = refl;
        same_queue = refl;
        answered = sym (ap (λ t. g.told ++ t) a);
        faults = ground arith;
      })

at_handle : (k h : ℕ) (m : Sockets) → socket_at k m ≡ none → (k == h) ≡ true → socket_at h m ≡ none
at_handle k h m e same = rw (← (let eq : k ≡ h = ground (arith, same) in eq)) e

-- A request that names a socket which does not exist, or no longer, is refused: no socket is made or
-- changed, no request queued, no handler told; a call that waits gives -1. Only `async_hole_punch` does
-- not stop there: it goes on to use the socket, a fault.
pub perform-Refused :
    (env : Env) (r : Request) (g : Engine) (k : ℕ)
    → names r k ≡ true
    → socket_at k g.sockets ≡ none
    → Refused r g (perform env r g)
unfolding perform names answer is_hole_punch close_ async_pub_addr_ handle_async_pub_addr
    async_hole_punch_ handle_async_hole_punch setsockopt_ getsockopt_ async_connect_ async_accept_
    async_send_ async_receive_ async_shutdown_ cancel_ pending_data_
perform-Refused env (create port) g k n e = cc
perform-Refused env (close h) g k n e =
    let gone = erase_missing h g.sockets (at_handle k h g.sockets e n) in
    rw gone (silent (close h) g refl refl)
perform-Refused env (async_pub_addr h hostname port handler) g k n e =
    guarded (async_pub_addr h hostname port handler) h _ g (at_handle k h g.sockets e n) refl refl
perform-Refused env (tell_pub_addr c ep h handler) g k n e =
    rw (missing h g (at_handle k h g.sockets e n))
      (silent (tell_pub_addr c ep h handler) g refl refl)
perform-Refused env (async_hole_punch h eps handler) g k n e =
    rw (missing h g (at_handle k h g.sockets e n)) (record {
      same_sockets = refl;
      same_queue = refl;
      answered = sym (append-nil g.told);
      faults = ground arith;
    })
perform-Refused env (tell_hole_punch c eps h handler) g k n e =
    rw (missing h g (at_handle k h g.sockets e n))
      (silent (tell_hole_punch c eps h handler) g refl refl)
perform-Refused env (async_connect h rep handler) g k n e =
    guarded (async_connect h rep handler) h _ g (at_handle k h g.sockets e n) refl refl
perform-Refused env (async_accept h rep handler) g k n e =
    guarded (async_accept h rep handler) h _ g (at_handle k h g.sockets e n) refl refl
perform-Refused env (async_send h buf handler) g k n e =
    guarded (async_send h buf handler) h _ g (at_handle k h g.sockets e n) refl refl
perform-Refused env (async_receive h len handler) g k n e =
    guarded (async_receive h len handler) h _ g (at_handle k h g.sockets e n) refl refl
perform-Refused env (async_shutdown h handler) g k n e =
    guarded (async_shutdown h handler) h _ g (at_handle k h g.sockets e n) refl refl
perform-Refused env (cancel h) g k n e =
    guarded (cancel h) h _ g (at_handle k h g.sockets e n) refl refl
perform-Refused env (set_option h opt) g k n e =
    told_none (set_option h opt) h _ _ g (at_handle k h g.sockets e n) refl refl
perform-Refused env (get_option h optname) g k n e =
    told_value (get_option h optname) h _ g (at_handle k h g.sockets e n) refl refl
perform-Refused env (pending_data h) g k n e =
    told_value (pending_data h) h _ g (at_handle k h g.sockets e n) refl refl
perform-Refused env clear g k n e = cc
