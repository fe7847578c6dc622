-- ===== src/HolePunch/Heard.antt =====
-- What a hole punching client has heard of an endpoint that it calls established,
-- udt/udp_hp_clt.cpp.
use udt_boost.Base.{
  ℕ, ◌≡◌, sym, subst, true, ◌||◌, ◌==◌, ltb, List, [], ◌∷◌, Option, none, some, arith, Bool-cases,
  inl, inr, if_ind,
}
use udt_boost.Asio.{ErrorCode, is_aborted}
use udt_boost.Tracker
use udt_boost.Tracker.{WeakRefer}
use udt_boost.HolePunch.{
  established, EndpointsInfo, HpClt, output, async_receive, handle_async_timeout, insert_sent,
  insert_all, async_hole_punch, handle_async_receive, cancel,
}
use udt_boost.HolePunch.Table.{state_at}
use udt_boost.HolePunch.Knows.{
  Log, heard_ack, Knows, AllKnow, Knowing, AllKnow-more, output-Knowing, async_wait-Knowing,
  timeout-Knowing, datagram-Knowing, failure-Knowing,
}

-- What happens to a client: datagrams come, receiving fails, the timer goes off, it is cancelled.
pub data Run (start : HpClt) : Log → HpClt → Type 0 where
  started : Run start [] start
  received :
      {log : Log} {c : HpClt} (ep : ℕ) (bytes : List ℕ) (w : WeakRefer)
      → Run start log c
      → Run start ((ep, bytes) ∷ log) (handle_async_receive none bytes ep w c)
  failed :
      {log : Log} {c : HpClt} (e : ErrorCode) (ep : ℕ) (w : WeakRefer)
      → Run start log c
      → Run start log (handle_async_receive (some e) [] ep w c)
  timed :
      {log : Log} {c : HpClt} (e : Option ErrorCode) (n : ℕ) (w : WeakRefer)
      → Run start log c
      → Run start log (handle_async_timeout e n w c)
  cancelled : {log : Log} {c : HpClt} → Run start log c → Run start log (cancel c)

cancel-Knowing : (log : Log) (c : HpClt) → Knowing log c → Knowing log (cancel c)
unfolding cancel
cancel-Knowing log c h = if_ind (Knowing log) c.socket h h

Run-Knowing : {start c : HpClt} {log : Log} → Knowing [] start → Run start log c → Knowing log c
unfolding handle_async_receive
Run-Knowing h started = h
Run-Knowing h (received {log = log} {c = c} ep bytes w r) =
    let k = Run-Knowing h r in
    if_ind (Knowing ((ep, bytes) ∷ log)) (is_aborted none || Tracker.expired w c.tracker)
      (AllKnow-more (ep, bytes) log c.peer_eps k) (datagram-Knowing log bytes ep c k)
Run-Knowing h (failed {log = log} {c = c} e ep w r) =
    let k = Run-Knowing h r in
    if_ind (Knowing log) (is_aborted (some e) || Tracker.expired w c.tracker) k
      (failure-Knowing log e ep c k)
Run-Knowing h (timed {log = log} {c = c} e n w r) = timeout-Knowing log e n w c (Run-Knowing h r)
Run-Knowing h (cancelled {log = log} {c = c} r) = cancel-Knowing log c (Run-Knowing h r)

insert_sent-Knows : (ep : ℕ) (m : EndpointsInfo) → AllKnow [] m → AllKnow [] (insert_sent ep m)
unfolding insert_sent
insert_sent-Knows ep [] h = (tt, tt)
insert_sent-Knows ep ((k, info) ∷ m) h = elim (Bool-cases (ep == k)) [
  | inl e ↦ rw e (tt, h.1)
  | inr e ↦ elim (Bool-cases (ltb ep k)) [
    | inl t ↦ rw (e, t) (tt, h)
    | inr t ↦ rw (e, t) (h.0, insert_sent-Knows ep m h.1)
  ]
]

insert_all-Knows : (eps : List ℕ) (m : EndpointsInfo) → AllKnow [] m → AllKnow [] (insert_all eps m)
unfolding insert_all
insert_all-Knows [] m h = h
insert_all-Knows (ep ∷ eps) m h = insert_all-Knows eps (insert_sent ep m) (insert_sent-Knows ep m h)

AllKnow-state_at :
    (log : Log) (ep : ℕ) (m : EndpointsInfo)
    → AllKnow log m
    → state_at ep m ≡ some established
    → heard_ack ep log ≡ true
unfolding state_at
AllKnow-state_at log ep [] h e = cc
AllKnow-state_at log ep ((k, info) ∷ m) h e = elim (Bool-cases (ep == k)) [
  | inl t ↦
      let state : info.state ≡ established = ground (arith, t) in
      let at_k : Knows log k established = subst (Knows log k) state h.0 in
      rw (let same : ep ≡ k = ground (arith, t) in same) at_k
  | inr t ↦ AllKnow-state_at log ep m h.1 (ground (arith, t))
]

-- A client calls an endpoint established only on its word: whatever arrives, fails and times out
-- after `async_hole_punch` of a new client, an endpoint that is established has sent it a datagram of
-- hole punching with an ACK, and one with a SYN, in the same datagram or before.
pub established-heard :
    (h : ℕ) (eps : List ℕ) (c0 c : HpClt) (log : Log) (ep : ℕ)
    → c0.peer_eps ≡ []
    → Run (async_hole_punch h eps c0) log c
    → state_at ep c.peer_eps ≡ some established
    → heard_ack ep log ≡ true
unfolding async_hole_punch async_receive
established-heard h eps c0 c log ep new r e =
    let c1 = record c0 { handler = some h; peer_eps = insert_all eps c0.peer_eps } in
    let k0 : AllKnow [] c0.peer_eps = subst (AllKnow []) (sym new) tt in
    let k1 = output-Knowing [] c1 (insert_all-Knows eps c0.peer_eps k0) in
    AllKnow-state_at log ep c.peer_eps
      (Run-Knowing (async_wait-Knowing [] _ (async_receive (output c1)) k1) r) e
