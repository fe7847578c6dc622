-- ===== src/Mtu/Told.antt =====
-- What the mtu prober of udt/udt_mtu.cpp tells its handler, and how often.
use udt_boost.Base.{
  ℕ, zero, suc, ◌+◌, ◌≤◌, ◌≡◌, refl, false, List, [], ◌∷◌, Option, none, some, arith, All,
  All-append, total, total-append, Bool-cases, inl, inr,
}
use udt_boost.Asio.{operation_aborted}
use udt_boost.Tracker
use udt_boost.Tracker.{WeakRefer}
use udt_boost.Mtu.{
  Prober, Sent, done, too_big, refused, Effect, open_socket, send_to, receive_from, wait,
  cancel_timer, cancel_socket, post, emit, cancel, notify, prepare_data, send_packets,
  default_send_count, async_recv_reply, after_send, send_loop,
}

-- How often an effect tells the handler.
unfoldable pub tells : Effect → ℕ
tells (post h e m) = 1
tells open_socket = 0
tells (send_to ep bytes) = 0
tells (receive_from w) = 0
tells (wait w) = 0
tells cancel_timer = 0
tells cancel_socket = 0

-- If it tells the handler, then `operation_aborted`.
abbrev pub SaysAborted : Effect → Type 0
SaysAborted (post h e m) = e ≡ some operation_aborted
SaysAborted open_socket = Unit
SaysAborted (send_to ep bytes) = Unit
SaysAborted (receive_from w) = Unit
SaysAborted (wait w) = Unit
SaysAborted cancel_timer = Unit
SaysAborted cancel_socket = Unit

abbrev pub told : Prober → ℕ
told p = total tells p.effects

-- The handler has not been told.
pub record Untold (p : Prober) : Type 0 where
  pub none_told : told p ≡ 0
  pub said : All SaysAborted p.effects

-- The handler has been told once at most, and not while the tracker is set.
pub record ToldOnce (p : Prober) : Type 0 where
  pub once : told p ≤ 1
  pub live : Tracker.is_null p.tracker ≡ false → told p ≡ 0
  pub aborted : All SaysAborted p.effects

pub Untold-ToldOnce : {p : Prober} → Untold p → ToldOnce p
Untold-ToldOnce u = record {
  once = omega (arith, u.none_told);
  live = λ _. u.none_told;
  aborted = u.said;
}

pub silent : (e : Effect) → tells e ≡ 0 → SaysAborted e
unfolding tells
silent (post h e m) z = absurd (omega (arith, z))
silent open_socket z = tt
silent (send_to ep bytes) z = tt
silent (receive_from w) z = tt
silent (wait w) z = tt
silent cancel_timer z = tt
silent cancel_socket z = tt

pub emit-Untold : (e : Effect) (p : Prober) → tells e ≡ 0 → Untold p → Untold (emit e p)
emit-Untold e p z u = record {
  none_told = omega (arith, total-append tells p.effects e, u.none_told, z);
  said = All-append SaysAborted p.effects (e ∷ []) u.said (silent e z, tt);
}

cancel-Untold : (p : Prober) → Untold p → Untold (cancel p)
unfolding cancel tells
cancel-Untold p u =
    let p1 = record p { tracker = Tracker.reset p.tracker } in
    let u1 : Untold p1 = record { none_told = u.none_told; said = u.said } in
    let u2 = emit-Untold cancel_timer p1 refl u1 in
    let u3 = emit-Untold cancel_socket (emit cancel_timer p1) refl u2 in
    record { none_told = u3.none_told; said = u3.said }

pub notify-ToldOnce : (p : Prober) → Untold p → ToldOnce (notify p)
unfolding notify tells
notify-ToldOnce p u =
    let c = cancel p in
    let e = post c.handler c.last_error c.mtu in
    let uc = cancel-Untold p u in
    let count : told (emit e c) ≡ told c + 1 = total-append tells c.effects e in
    record {
      once = omega (arith, count, uc.none_told);
      live = unfold cancel Tracker.reset Tracker.is_null in λ h. absurd (ground (arith, h));
      aborted = All-append SaysAborted c.effects (e ∷ []) uc.said (unfold cancel in refl, tt);
    }

send_packets-Untold : (n : ℕ) (p : Prober) → Untold p → Untold (send_packets n p)
unfolding send_packets tells
send_packets-Untold zero p u = u
send_packets-Untold (suc n) p u =
    let e = send_to p.remote_endpoint p.snd_buffer in
    send_packets-Untold n (emit e p) (emit-Untold e p refl u)

prepare_effects : (p : Prober) → (prepare_data p).0.effects ≡ p.effects
unfolding prepare_data
prepare_effects p = ground arith

prepare-Untold : (p : Prober) → Untold p → Untold (prepare_data p).0
prepare-Untold p u =
    let e = prepare_effects p in record { none_told = rw e u.none_told; said = rw e u.said }

reply-ToldOnce : (p : Prober) → Untold p → ToldOnce (async_recv_reply p)
unfolding async_recv_reply tells
reply-ToldOnce p u =
    let w = wait (Tracker.get p.tracker) in
    Untold-ToldOnce
      (emit-Untold (receive_from (Tracker.get p.tracker)) (emit w p) refl (emit-Untold w p refl u))

-- An operation that may run out of fuel.
abbrev pub IfDone : Option Prober → Type 0
IfDone none = Unit
IfDone (some q) = ToldOnce q

after_send-ToldOnce :
    (s : Sent) (p : Prober) (again : Option Prober)
    → Untold p
    → IfDone again
    → IfDone (after_send s p again)
unfolding after_send
after_send-ToldOnce done p again u h = reply-ToldOnce p u
after_send-ToldOnce too_big p again u h = h
after_send-ToldOnce (refused e) p again u h =
    notify-ToldOnce (record p { last_error = some e })
      (record { none_told = u.none_told; said = u.said })

pub send_loop-ToldOnce :
    (fuel n : ℕ) (net : ℕ → List ℕ → Sent) (p : Prober) → Untold p → IfDone (send_loop fuel n net p)
unfolding send_loop
send_loop-ToldOnce zero n net p u = tt
send_loop-ToldOnce (suc fuel) n net p u =
    let (p1, ready) = prepare_data p in
    let p2 = send_packets default_send_count p1 in
    let u1 = prepare-Untold p u in
    let u2 = send_packets-Untold default_send_count p1 u1 in
    elim (Bool-cases ready) [
      | inl r ↦ elim (Bool-cases p1.fault) [
        | inl f ↦ rw (r, f) (Untold-ToldOnce u1)
        | inr f ↦
            rw (r, f)
              (after_send-ToldOnce (net n p1.snd_buffer) p2 _ u2
                (send_loop-ToldOnce fuel (n + 1) net p2 u2))
      ]
      | inr r ↦ rw r (notify-ToldOnce p u)
    ]
