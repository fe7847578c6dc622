-- ===== src/HolePunch/Table.antt =====
-- The table of the endpoints under the operations of udt/udp_hp_clt.cpp: which state an endpoint has
-- after each, and what `output` leaves alone.
use udt_boost.Base.{
  ℕ, zero, suc, ◌≡◌, refl, ap, ◌∙◌, not, ◌&&◌, ◌||◌, if◌then◌else◌, ◌==◌, List, [], ◌∷◌, Option,
  none, some, length, is_empty, arith, Bool-cases, inl, inr, if_ind,
}
use udt_boost.Packet.{hdr_size}
use udt_boost.HolePunch.{
  EndpointState, EndpointsInfo, HpClt, send_to, emit, send_packets, dft_send_packets, refresh,
  output_loop, output, set_state, find, flags_of, on_syn, on_ack, answers_syn, is_established,
  handle_peer_resp,
}

-- The state of an endpoint, if it is in the table.
unfoldable pub state_at : ℕ → EndpointsInfo → Option EndpointState
state_at ep [] = none
state_at ep ((k, info) ∷ eps) = if ep == k then some info.state else state_at ep eps

pub state_at-find :
    (ep : ℕ) (m : EndpointsInfo)
    → state_at ep m ≡ elim (find ep m) [ none ↦ none | some info ↦ some info.state ]
unfolding state_at find
state_at-find ep [] = refl
state_at-find ep ((k, info) ∷ m) = ground (arith, state_at-find ep m)

pub state_at-set_state :
    (k ep : ℕ) (st : EndpointState) (m : EndpointsInfo) (old : EndpointState)
    → state_at ep m ≡ some old
    → state_at k (set_state ep st m) ≡ (if k == ep then some st else state_at k m)
unfolding state_at set_state
state_at-set_state k ep st [] old h = cc
state_at-set_state k ep st ((j, info) ∷ m) old h = ground (arith, state_at-set_state k ep st m old)

-- Sending packets changes only the effects.
pub send_packets_lem :
    (n ep : ℕ) (buf : List ℕ) (c : HpClt)
    → send_packets n ep buf c ≡ record c { effects = (send_packets n ep buf c).effects }
unfolding send_packets
send_packets_lem zero ep buf c = refl
send_packets_lem (suc n) ep buf c = send_packets_lem n ep buf (emit (send_to ep buf) c)

pub output_loop_lem :
    (m : EndpointsInfo) (c : HpClt)
    → (output_loop m c).1 ≡ record c { effects = (output_loop m c).1.effects }
unfolding output_loop
output_loop_lem [] c = refl
output_loop_lem ((ep, info) ∷ m) c =
    let buf = refresh info.state info.snd_buf in
    elim (Bool-cases (is_empty buf)) [
      | inl e ↦ rw e (output_loop_lem m c)
      | inr e ↦
          let sent = send_packets dft_send_packets ep buf c in
          rw e (ground (arith, send_packets_lem dft_send_packets ep buf c, output_loop_lem m sent))
    ]

pub state_at-output_loop :
    (k : ℕ) (m : EndpointsInfo) (c : HpClt) → state_at k (output_loop m c).0 ≡ state_at k m
unfolding output_loop state_at
state_at-output_loop k [] c = refl
state_at-output_loop k ((ep, info) ∷ m) c =
    ap (λ rest. if k == ep then some info.state else rest) (state_at-output_loop k m _)

-- Sending leaves the state of every endpoint.
pub state_at-output : (k : ℕ) (c : HpClt) → state_at k (output c).peer_eps ≡ state_at k c.peer_eps
unfolding output
state_at-output k c = state_at-output_loop k c.peer_eps c

-- What is left alone by `output`.
pub output_keeps :
    (c : HpClt)
    → ((output c).handler ≡ c.handler)
      × ((output c).tracker ≡ c.tracker)
      × ((output c).last_error ≡ c.last_error)
unfolding output
output_keeps c = ground (arith, output_loop_lem c.peer_eps c)

-- The state to which a datagram takes an endpoint.
unfoldable pub heard : List ℕ → EndpointState → EndpointState
heard bytes st =
    let flags = flags_of bytes in
    let after_syn = if flags.syn then on_syn st else st in
    if not (length bytes == hdr_size) || not flags.hp || is_established st
    then st
    else if flags.ack
    then on_ack after_syn
    else after_syn

-- A datagram changes the state of the endpoint from which it comes, and of no other.
pub state_at-handle_peer_resp :
    (k ep : ℕ) (bytes : List ℕ) (st : EndpointState) (c : HpClt)
    → state_at ep c.peer_eps ≡ some st
    → state_at k (handle_peer_resp bytes ep st c).peer_eps
      ≡ (if k == ep then some (heard bytes st) else state_at k c.peer_eps)
unfolding handle_peer_resp heard
state_at-handle_peer_resp k ep bytes st c h =
    let flags = flags_of bytes in
    let after_syn = if flags.syn then on_syn st else st in
    let after_ack = if flags.ack then on_ack after_syn else after_syn in
    let c1 = record c { peer_eps = set_state ep after_ack c.peer_eps } in
    let moved = state_at-set_state k ep after_ack c.peer_eps st h in
    elim (Bool-cases (not (length bytes == hdr_size) || not flags.hp || is_established st)) [
      | inl e ↦ rw e (ground arith)
      | inr e ↦ rw e (
          if_ind
            (λ (x : HpClt).
              state_at k x.peer_eps ≡ (if k == ep then some after_ack else state_at k c.peer_eps))
            (flags.syn && answers_syn st) (state_at-output k c1 ∙ moved) moved)
    ]
