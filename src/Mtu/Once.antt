-- ===== src/Mtu/Once.antt =====
-- The mtu prober of udt/udt_mtu.cpp over the whole of a probe.
use udt_boost.Base.{
  ℕ, ◌+◌, ◌≤◌, ◌≡◌, refl, false, not, ◌&&◌, ◌==◌, ltb, leb, List, [], ◌∷◌, ◌++◌, Option, none, some,
  length, arith, All, All-append, total, total-append, Bool-cases, inl, inr, subst, if_ind,
}
use udt_boost.Asio.{ErrorCode, timed_out, no_buffer_space, is_aborted, is_error}
use udt_boost.Tracker
use udt_boost.Tracker.{WeakRefer}
use udt_boost.Mtu.{
  Prober, Sent, Effect, cancel_timer, cancel_socket, emit, cancel, notify, send_loop,
  async_probe_mtu, handle_timeout, unreachable, icmp_type, icmp_code, icmp_nextmtu, handle_icmp,
  handle_recv, icmp_size, iphdr_size_byte,
}
use udt_boost.Mtu.Told.{
  tells, SaysAborted, told, Untold, ToldOnce, Untold-ToldOnce, silent, emit-Untold, notify-ToldOnce,
  IfDone, send_loop-ToldOnce,
}

not_null :
    (w : WeakRefer) (p : Prober)
    → Tracker.expired w p.tracker ≡ false
    → Tracker.is_null p.tracker ≡ false
unfolding Tracker.expired Tracker.is_null
not_null none p h = cc
not_null (some r) p h = ground arith

-- While the tracker is set, the handler has not been told.
Untold-live :
    (w : WeakRefer) (p : Prober) → ToldOnce p → Tracker.expired w p.tracker ≡ false → Untold p
Untold-live w p t h = record { none_told = t.live (not_null w p h); said = t.aborted }

timeout-ToldOnce :
    (e : Option ErrorCode) (w : WeakRefer) (p : Prober)
    → ToldOnce p
    → ToldOnce (handle_timeout e w p)
unfolding handle_timeout
timeout-ToldOnce e w p t = elim (Bool-cases (Tracker.expired w p.tracker)) [
  | inl x ↦ rw x t
  | inr x ↦
      let u = Untold-live w p t x in
      rw x (
        if_ind ToldOnce (is_aborted e) t (
          notify-ToldOnce (record p { last_error = some timed_out })
            (record { none_told = u.none_told; said = u.said })))
]

notify_with :
    (e : Option ErrorCode) (p : Prober) → Untold p → ToldOnce (notify (record p { last_error = e }))
notify_with e p u =
    notify-ToldOnce (record p { last_error = e })
      (record { none_told = u.none_told; said = u.said })

icmp-ToldOnce :
    (fuel : ℕ) (net : ℕ → List ℕ → Sent) (bytes : List ℕ) (p : Prober)
    → Untold p
    → IfDone (handle_icmp fuel net bytes p)
unfolding handle_icmp
icmp-ToldOnce fuel net bytes p u =
    let hinted = record p { mtu_hint = icmp_nextmtu bytes } in
    if_ind IfDone (icmp_type bytes == 0 && icmp_code bytes == 0) (notify-ToldOnce p u) (
      if_ind IfDone (icmp_type bytes == 3)
        (if_ind IfDone (icmp_code bytes == 4)
          (send_loop-ToldOnce fuel 0 net hinted (record { none_told = u.none_told; said = u.said }))
          (notify_with (unreachable (icmp_code bytes) p.last_error) p u))
        (notify-ToldOnce p u))

recv-ToldOnce :
    (fuel : ℕ) (net : ℕ → List ℕ → Sent) (e : Option ErrorCode) (bytes : List ℕ) (w : WeakRefer)
    (p : Prober)
    → ToldOnce p
    → IfDone (handle_recv fuel net e bytes w p)
unfolding handle_recv
recv-ToldOnce fuel net e bytes w p t = elim (Bool-cases (Tracker.expired w p.tracker)) [
  | inl x ↦ rw x t
  | inr x ↦
      let p1 = emit cancel_timer p in
      let u1 : Untold p1 =
        emit-Untold cancel_timer p (unfold tells in refl) (Untold-live w p t x) in
      rw x (
        if_ind IfDone (is_aborted e) (Untold-ToldOnce u1) (
          if_ind IfDone (not (is_error e) && leb (icmp_size + iphdr_size_byte) (length bytes))
            (icmp-ToldOnce fuel net bytes p1 u1)
            (if_ind IfDone (not (is_error e) && ltb (length bytes) icmp_size)
              (notify_with (some no_buffer_space) p1 u1) (notify-ToldOnce p1 u1))))
]

cancel-ToldOnce : (p : Prober) → ToldOnce p → ToldOnce (cancel p)
unfolding cancel tells
cancel-ToldOnce p t =
    let a = total-append tells p.effects cancel_timer in
    let b = total-append tells (p.effects ++ cancel_timer ∷ []) cancel_socket in
    record {
      once = omega (arith, a, b, t.once);
      live = unfold Tracker.reset Tracker.is_null in λ h. absurd (ground (arith, h));
      aborted =
          All-append SaysAborted (p.effects ++ cancel_timer ∷ []) (cancel_socket ∷ [])
            (All-append SaysAborted p.effects (cancel_timer ∷ []) t.aborted (tt, tt)) (tt, tt);
    }

-- What happens in a probe: it starts, datagrams come or fail to, the timer goes off, it is cancelled.
-- A call of the loop that does not end has no state after it.
pub data Run (p0 : Prober) : Prober → Type 0 where
  probed :
      {p : Prober} (fuel : ℕ) (net : ℕ → List ℕ → Sent) (rep handler : ℕ)
      → async_probe_mtu fuel net rep handler p0 ≡ some p
      → Run p0 p
  received :
      {p q : Prober} (fuel : ℕ) (net : ℕ → List ℕ → Sent) (e : Option ErrorCode) (bytes : List ℕ)
      (w : WeakRefer)
      → Run p0 p
      → handle_recv fuel net e bytes w p ≡ some q
      → Run p0 q
  timed :
      {p : Prober} (e : Option ErrorCode) (w : WeakRefer) → Run p0 p → Run p0 (handle_timeout e w p)
  cancelled : {p : Prober} → Run p0 p → Run p0 (cancel p)

IfDone-ToldOnce : (o : Option Prober) (q : Prober) → IfDone o → o ≡ some q → ToldOnce q
IfDone-ToldOnce o q h e = subst IfDone e h

none_said : (es : List Effect) → total tells es ≡ 0 → All SaysAborted es
none_said [] h = tt
none_said (e ∷ es) h = (silent e (omega (arith, h)), none_said es (omega (arith, h)))

Run-keeps : {p0 p : Prober} → Untold p0 → Run p0 p → ToldOnce p
unfolding async_probe_mtu
Run-keeps {p0} {p} u (probed fuel net rep handler e) =
    let named = record p0 { remote_endpoint = rep; handler = handler } in
    IfDone-ToldOnce (send_loop fuel 0 net named) p
      (send_loop-ToldOnce fuel 0 net named (record { none_told = u.none_told; said = u.said })) e
Run-keeps {p = q} u (received {p} fuel net e bytes w r d) =
    IfDone-ToldOnce (handle_recv fuel net e bytes w p) q
      (recv-ToldOnce fuel net e bytes w p (Run-keeps u r)) d
Run-keeps u (timed {p} e w r) = timeout-ToldOnce e w p (Run-keeps u r)
Run-keeps u (cancelled {p} r) = cancel-ToldOnce p (Run-keeps u r)

-- The handler of a probe is told once at most, and then it is told operation_aborted, however the
-- probe went: `notify` cancels before it posts, and so sets the error. This is so over the whole of a
-- probe, from `async_probe_mtu` of a prober that has told nothing.
pub Run-ToldOnce :
    {p0 p : Prober} → told p0 ≡ 0 → Run p0 p → (told p ≤ 1) × All SaysAborted p.effects
Run-ToldOnce {p0} z r =
    let t = Run-keeps (record { none_told = z; said = none_said p0.effects z }) r in
    (t.once, t.aborted)
