-- ===== src/HolePunch/Knows.antt =====
-- What a hole punching client has heard of an endpoint in each of its states, over one call of
-- udt/udp_hp_clt.cpp.
use udt_boost.Base.{
  ℕ, ◌≡◌, refl, subst, Bool, true, false, not, ◌&&◌, ◌||◌, if◌then◌else◌, ◌==◌, List, [], ◌∷◌,
  Option, some, length, is_empty, arith, All, Bool-cases, Option-cases, inl, inr, if_ind,
}
use udt_boost.Packet.{hdr_size}
use udt_boost.Asio.{ErrorCode, timed_out, is_aborted}
use udt_boost.Tracker
use udt_boost.Tracker.{WeakRefer}
use udt_boost.HolePunch.{
  EndpointState, closed, listen, syn_sent, syn_received, established, EndpointInfo, EndpointsInfo,
  HpClt, output_loop, output, async_receive, notify, async_wait, handle_async_timeout, find,
  set_state, erase, flags_of, on_syn, on_ack, answers_syn, is_established, handle_peer_resp,
  peer_is_established, handle_datagram, handle_failure,
}
use udt_boost.HolePunch.Table.{heard}

-- The datagrams that were received, the newest first, each with the endpoint that it came from.
abbrev pub Log : Type 0
Log = List (ℕ × List ℕ)

-- A datagram of hole punching from `ep`.
unfoldable pub is_punch : ℕ → ℕ × List ℕ → Bool
is_punch ep (k, bytes) = ep == k && length bytes == hdr_size && (flags_of bytes).hp

unfoldable pub heard_syn : ℕ → Log → Bool
heard_syn ep [] = false
heard_syn ep (d ∷ log) = is_punch ep d && (flags_of d.1).syn || heard_syn ep log

-- An ACK came from `ep`, with a SYN or after one.
unfoldable pub heard_ack : ℕ → Log → Bool
heard_ack ep [] = false
heard_ack ep (d ∷ log) =
    is_punch ep d && (flags_of d.1).ack && ((flags_of d.1).syn || heard_syn ep log)
    || heard_ack ep log

-- What has been heard of an endpoint, by its state.
abbrev pub Knows : Log → ℕ → EndpointState → Type 0
Knows log ep established = heard_ack ep log ≡ true
Knows log ep syn_received = heard_syn ep log ≡ true
Knows log ep closed = Unit
Knows log ep listen = Unit
Knows log ep syn_sent = Unit

abbrev pub AllKnow : Log → EndpointsInfo → Type 0
AllKnow log m = All (λ (e : ℕ × EndpointInfo). Knows log e.0 e.1.state) m

Knows-more :
    (d : ℕ × List ℕ) (log : Log) (ep : ℕ) (st : EndpointState)
    → Knows log ep st
    → Knows (d ∷ log) ep st
unfolding heard_syn heard_ack
Knows-more d log ep established h = ground arith
Knows-more d log ep syn_received h = ground arith
Knows-more d log ep closed h = tt
Knows-more d log ep listen h = tt
Knows-more d log ep syn_sent h = tt

pub AllKnow-more :
    (d : ℕ × List ℕ) (log : Log) (m : EndpointsInfo) → AllKnow log m → AllKnow (d ∷ log) m
AllKnow-more d log [] h = tt
AllKnow-more d log ((k, info) ∷ m) h = (Knows-more d log k info.state h.0, AllKnow-more d log m h.1)

Knows-moved :
    (d : ℕ × List ℕ) (log : Log) (st : EndpointState) (syn ack : Bool)
    → is_punch d.0 d ≡ true
    → (flags_of d.1).syn ≡ syn
    → (flags_of d.1).ack ≡ ack
    → Knows log d.0 st
    → Knows
        (d ∷ log)
        d.0
        (if ack then on_ack (if syn then on_syn st else st) else (if syn then on_syn st else st))
unfolding heard_syn heard_ack on_syn on_ack
Knows-moved d log closed true true p e k h = ground arith
Knows-moved d log closed true false p e k h = ground arith
Knows-moved d log closed false true p e k h = ground arith
Knows-moved d log closed false false p e k h = ground arith
Knows-moved d log listen true true p e k h = ground arith
Knows-moved d log listen true false p e k h = ground arith
Knows-moved d log listen false true p e k h = ground arith
Knows-moved d log listen false false p e k h = ground arith
Knows-moved d log syn_sent true true p e k h = ground arith
Knows-moved d log syn_sent true false p e k h = ground arith
Knows-moved d log syn_sent false true p e k h = ground arith
Knows-moved d log syn_sent false false p e k h = ground arith
Knows-moved d log syn_received true true p e k h = ground arith
Knows-moved d log syn_received true false p e k h = ground arith
Knows-moved d log syn_received false true p e k h = ground arith
Knows-moved d log syn_received false false p e k h = ground arith
Knows-moved d log established true true p e k h = ground arith
Knows-moved d log established true false p e k h = ground arith
Knows-moved d log established false true p e k h = ground arith
Knows-moved d log established false false p e k h = ground arith

Knows-heard :
    (bytes : List ℕ) (log : Log) (ep : ℕ) (st : EndpointState)
    → Knows log ep st
    → Knows ((ep, bytes) ∷ log) ep (heard bytes st)
unfolding heard is_punch
Knows-heard bytes log ep st h =
    let f = flags_of bytes in
    elim (Bool-cases (not (length bytes == hdr_size) || not f.hp || is_established st)) [
      | inl e ↦ rw (e, heard) (Knows-more (ep, bytes) log ep st h)
      | inr e ↦
          rw (e, heard) (Knows-moved (ep, bytes) log st f.syn f.ack (ground (arith, e)) refl refl h)
    ]

AllKnow-find :
    (log : Log) (ep : ℕ) (m : EndpointsInfo) (info : EndpointInfo)
    → AllKnow log m
    → find ep m ≡ some info
    → Knows log ep info.state
unfolding find
AllKnow-find log ep [] info h e = cc
AllKnow-find log ep ((k, first) ∷ m) info h e = elim (Bool-cases (ep == k)) [
  | inl t ↦
      let same : first ≡ info = ground (arith, t) in
      subst (λ (x : EndpointInfo). Knows log ep x.state) same
        (subst (λ x. Knows log x first.state) (ground arith) h.0)
  | inr t ↦ AllKnow-find log ep m info h.1 (ground (arith, t))
]

AllKnow-set_state :
    (log : Log) (ep : ℕ) (st : EndpointState) (m : EndpointsInfo)
    → AllKnow log m
    → Knows log ep st
    → AllKnow log (set_state ep st m)
unfolding set_state
AllKnow-set_state log ep st [] h k = tt
AllKnow-set_state log ep st ((j, info) ∷ m) h k = elim (Bool-cases (ep == j)) [
  | inl e ↦ rw e (subst (λ x. Knows log x st) (ground (arith, e)) k, h.1)
  | inr e ↦ rw e (h.0, AllKnow-set_state log ep st m h.1 k)
]

AllKnow-erase : (log : Log) (ep : ℕ) (m : EndpointsInfo) → AllKnow log m → AllKnow log (erase ep m)
unfolding erase
AllKnow-erase log ep [] h = tt
AllKnow-erase log ep ((j, info) ∷ m) h = elim (Bool-cases (ep == j)) [
  | inl e ↦ rw e h.1
  | inr e ↦ rw e (h.0, AllKnow-erase log ep m h.1)
]

AllKnow-output_loop :
    (log : Log) (m : EndpointsInfo) (c : HpClt) → AllKnow log m → AllKnow log (output_loop m c).0
unfolding output_loop
AllKnow-output_loop log [] c h = tt
AllKnow-output_loop log ((j, info) ∷ m) c h = (h.0, AllKnow-output_loop log m _ h.1)

abbrev pub Knowing : Log → HpClt → Type 0
Knowing log c = AllKnow log c.peer_eps

pub output-Knowing : (log : Log) (c : HpClt) → Knowing log c → Knowing log (output c)
unfolding output
output-Knowing log c h = AllKnow-output_loop log c.peer_eps c h

notify-Knowing : (log : Log) (c : HpClt) → Knowing log c → Knowing log (notify c)
unfolding notify
notify-Knowing log c h = elim (Option-cases c.handler) [
  | inl e ↦ rw (e, notify) h
  | inr (n, e) ↦ rw (e, notify) h
]

pub async_wait-Knowing :
    (log : Log) (n : ℕ) (c : HpClt) → Knowing log c → Knowing log (async_wait n c)
unfolding async_wait
async_wait-Knowing log n c h =
    if_ind (Knowing log) (n == 0) (notify-Knowing log (record c { last_error = some timed_out }) h)
      h

pub timeout-Knowing :
    (log : Log) (e : Option ErrorCode) (n : ℕ) (w : WeakRefer) (c : HpClt)
    → Knowing log c
    → Knowing log (handle_async_timeout e n w c)
unfolding handle_async_timeout
timeout-Knowing log e n w c h =
    if_ind (Knowing log) (is_aborted e || Tracker.expired w c.tracker) h
      (async_wait-Knowing log _ (output c) (output-Knowing log c h))

peer_resp-Knowing :
    (log : Log) (bytes : List ℕ) (ep : ℕ) (st : EndpointState) (c : HpClt)
    → Knowing log c
    → Knows log ep st
    → Knowing ((ep, bytes) ∷ log) (handle_peer_resp bytes ep st c)
unfolding handle_peer_resp heard
peer_resp-Knowing log bytes ep st c h k =
    let f = flags_of bytes in
    let d : ℕ × List ℕ = (ep, bytes) in
    let after_syn = if f.syn then on_syn st else st in
    let st' = if f.ack then on_ack after_syn else after_syn in
    let more = AllKnow-more d log c.peer_eps h in
    let c1 = record c { peer_eps = set_state ep st' c.peer_eps } in
    elim (Bool-cases (not (length bytes == hdr_size) || not f.hp || is_established st)) [
      | inl e ↦ rw (e, handle_peer_resp) more
      | inr e ↦
          let moved : Knows (d ∷ log) ep st' = rw (e, heard) at (Knows-heard bytes log ep st k) in
          let set = AllKnow-set_state (d ∷ log) ep st' c.peer_eps more moved in
          rw (e, handle_peer_resp)
            (if_ind (Knowing (d ∷ log)) (f.syn && answers_syn st) (output-Knowing (d ∷ log) c1 set)
              set)
    ]

pub datagram-Knowing :
    (log : Log) (bytes : List ℕ) (ep : ℕ) (c : HpClt)
    → Knowing log c
    → Knowing ((ep, bytes) ∷ log) (handle_datagram bytes ep c)
unfolding handle_datagram async_receive
datagram-Knowing log bytes ep c h = elim (Option-cases (find ep c.peer_eps)) [
  | inl e ↦ rw (e, handle_datagram) (AllKnow-more (ep, bytes) log c.peer_eps h)
  | inr (info, e) ↦
      let c' = handle_peer_resp bytes ep info.state c in
      let next : Knowing ((ep, bytes) ∷ log) c' =
        peer_resp-Knowing log bytes ep info.state c h (AllKnow-find log ep c.peer_eps info h e) in
      rw (e, handle_datagram)
        (if_ind (Knowing ((ep, bytes) ∷ log)) (peer_is_established ep c')
          (notify-Knowing ((ep, bytes) ∷ log) c' next) next)
]

pub failure-Knowing :
    (log : Log) (e : ErrorCode) (ep : ℕ) (c : HpClt)
    → Knowing log c
    → Knowing log (handle_failure e ep c)
unfolding handle_failure async_receive
failure-Knowing log e ep c h = elim (Option-cases (find ep c.peer_eps)) [
  | inl n ↦ rw (n, handle_failure) h
  | inr (info, f) ↦
      let rest = erase ep c.peer_eps in
      let kept = AllKnow-erase log ep c.peer_eps h in
      rw (f, handle_failure)
        (if_ind (Knowing log) (is_empty rest)
          (notify-Knowing log (record c { peer_eps = rest; last_error = some e }) kept) kept)
]
