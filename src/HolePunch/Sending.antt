-- ===== src/HolePunch/Sending.antt =====
-- What `output` of udt/udp_hp_clt.cpp sends to an endpoint.
use udt_boost.Base.{
  ℕ, ◌≡◌, refl, sym, ap, subst, ◌∙◌, inl, inr, Bool, true, false, if◌then◌else◌, ◌==◌, List, [],
  ◌∷◌, ◌++◌, none, some, is_empty, zero, suc, append-nil, append_assoc, arith, Bool-cases, if_ind,
}
use udt_boost.Packet.{hdr_bytes}
use udt_boost.HolePunch.{
  EndpointState, closed, listen, syn_sent, syn_received, established, EndpointsInfo, Effect,
  send_to, HpClt, emit, dft_send_packets, send_packets, refresh, output_loop, output, find,
}
use udt_boost.HolePunch.Table.{state_at}

-- The datagrams that `output` sends to an endpoint.
unfoldable pub spoken : ℕ → HpClt → List ℕ
spoken ep c = elim (find ep (output c).peer_eps) [ none ↦ [] | some info ↦ info.snd_buf ]

-- `bytes` are sent to `ep` by what takes the effects from `es` to `es'`.
abbrev pub IsSent : ℕ → List ℕ → List Effect → List Effect → Type 0
IsSent ep bytes es es' =
    (before : List Effect) × (after : List Effect) × (es'
      ≡ (es ++ before) ++ send_to ep bytes ∷ after)

-- A state in which a client sends.
unfoldable pub is_live : EndpointState → Bool
is_live closed = false
is_live listen = false
is_live syn_sent = true
is_live syn_received = true
is_live established = true

find-output_loop :
    (ep : ℕ) (st : EndpointState) (m : EndpointsInfo) (c : HpClt)
    → state_at ep m ≡ some st
    → (buf : List ℕ) × (find ep (output_loop m c).0
        ≡ some (record { state = st; snd_buf = refresh st buf }))
unfolding state_at find output_loop
find-output_loop ep st [] c h = absurd (ground arith)
find-output_loop ep st ((k, info) ∷ m) c h = elim (Bool-cases (ep == k)) [
  | inl e ↦ (info.snd_buf, ground (arith, e))
  | inr e ↦
      let buf = refresh info.state info.snd_buf in
      let next : HpClt = if is_empty buf then c else send_packets dft_send_packets k buf c in
      let (b, found) = find-output_loop ep st m next (ground (arith, e)) in (b, rw e found)
]

pub spoken-refresh :
    (ep : ℕ) (st : EndpointState) (c : HpClt)
    → state_at ep c.peer_eps ≡ some st
    → (buf : List ℕ) × (spoken ep c ≡ refresh st buf)
unfolding spoken output
spoken-refresh ep st c h =
    let (buf, e) = find-output_loop ep st c.peer_eps c h in (buf, rw (e, spoken) refl)

-- More effects, behind those that were there.
abbrev pub Adds : List Effect → List Effect → Type 0
Adds es es' = (more : List Effect) × (es' ≡ es ++ more)

Adds-trans : (a b c : List Effect) → Adds a b → Adds b c → Adds a c
Adds-trans a b c (m, e) (n, f) = (m ++ n, f ∙ ap (λ es. es ++ n) e ∙ append_assoc a m n)

send_packets-Adds :
    (n ep : ℕ) (buf : List ℕ) (c : HpClt) → Adds c.effects (send_packets n ep buf c).effects
unfolding send_packets
send_packets-Adds zero ep buf c = ([], sym (append-nil _))
send_packets-Adds (suc n) ep buf c =
    let c1 = emit (send_to ep buf) c in
    Adds-trans c.effects c1.effects (send_packets n ep buf c1).effects (send_to ep buf ∷ [], refl)
      (send_packets-Adds n ep buf c1)

output_loop-Adds : (m : EndpointsInfo) (c : HpClt) → Adds c.effects (output_loop m c).1.effects
unfolding output_loop
output_loop-Adds [] c = ([], sym (append-nil _))
output_loop-Adds ((k, info) ∷ m) c =
    let buf = refresh info.state info.snd_buf in
    let sent = send_packets dft_send_packets k buf c in
    elim (Bool-cases (is_empty buf)) [
      | inl e ↦ rw e (output_loop-Adds m c)
      | inr e ↦ rw e (
          Adds-trans c.effects sent.effects (output_loop m sent).1.effects
            (send_packets-Adds dft_send_packets k buf c) (output_loop-Adds m sent))
    ]

pub IsSent-Adds :
    (ep : ℕ) (bytes : List ℕ) (es0 es es' : List Effect)
    → IsSent ep bytes es0 es
    → Adds es es'
    → IsSent ep bytes es0 es'
IsSent-Adds ep bytes es0 es es' (before, after, e) (more, f) = (
  before,
  after ++ more,
  f ∙ ap (λ es. es ++ more) e ∙ append_assoc (es0 ++ before) (send_to ep bytes ∷ after) more,
)

Adds-IsSent :
    (ep : ℕ) (bytes : List ℕ) (es0 es es' : List Effect)
    → Adds es0 es
    → IsSent ep bytes es es'
    → IsSent ep bytes es0 es'
Adds-IsSent ep bytes es0 es es' (more, e) (before, after, f) = (
  more ++ before,
  after,
  f
      ∙ ap (λ es. (es ++ before) ++ send_to ep bytes ∷ after) e
      ∙ ap (λ es. es ++ send_to ep bytes ∷ after) (append_assoc es0 more before),
)

live-refresh :
    (st : EndpointState) (buf : List ℕ) → is_live st ≡ true → is_empty (refresh st buf) ≡ false
unfolding is_live refresh hdr_bytes
live-refresh syn_sent buf h = refl
live-refresh syn_received buf h = refl
live-refresh established buf h = refl
live-refresh closed buf h = cc
live-refresh listen buf h = cc

IsSent-send_packets :
    (ep : ℕ) (buf : List ℕ) (c : HpClt)
    → IsSent ep buf c.effects (send_packets dft_send_packets ep buf c).effects
unfolding send_packets
IsSent-send_packets ep buf c =
    let one = send_to ep buf ∷ [] in
    (one ++ one, [], ap (λ es. es ++ one) (append_assoc c.effects one one))

IsSent-output_loop :
    (ep : ℕ) (st : EndpointState) (m : EndpointsInfo) (c : HpClt)
    → state_at ep m ≡ some st
    → is_live st ≡ true
    → IsSent ep
        (elim (find ep (output_loop m c).0) [ none ↦ [] | some info ↦ info.snd_buf ])
        c.effects
        (output_loop m c).1.effects
unfolding state_at find output_loop
IsSent-output_loop ep st [] c h l = absurd (ground arith)
IsSent-output_loop ep st ((k, info) ∷ m) c h l =
    let buf = refresh info.state info.snd_buf in
    let next : HpClt = if is_empty buf then c else send_packets dft_send_packets k buf c in
    elim (Bool-cases (ep == k)) [
      | inl e ↦
          let st_eq : info.state ≡ st = ground (arith, e) in
          let full : is_empty buf ≡ false =
            live-refresh info.state info.snd_buf (ap is_live st_eq ∙ l) in
          let sent = send_packets dft_send_packets k buf c in
          let here : IsSent k buf c.effects (output_loop m sent).1.effects =
            IsSent-Adds k buf c.effects sent.effects (output_loop m sent).1.effects
              (IsSent-send_packets k buf c) (output_loop-Adds m sent) in
          let same : ep ≡ k = ground (arith, e) in
          rw (e, full)
            (subst (λ x. IsSent x buf c.effects (output_loop m sent).1.effects) (sym same) here)
      | inr e ↦
          let more : Adds c.effects next.effects =
            if_ind (λ (x : HpClt). Adds c.effects x.effects) (is_empty buf) ([], sym (append-nil _))
              (send_packets-Adds dft_send_packets k buf c) in
          let there = IsSent-output_loop ep st m next (ground (arith, e)) l in
          rw e (Adds-IsSent ep _ c.effects next.effects (output_loop m next).1.effects more there)
    ]

-- `output` sends to an endpoint that is in a live state.
pub output-IsSent :
    (ep : ℕ) (st : EndpointState) (c : HpClt)
    → state_at ep c.peer_eps ≡ some st
    → is_live st ≡ true
    → IsSent ep (spoken ep c) c.effects (output c).effects
unfolding spoken output
output-IsSent ep st c h l = IsSent-output_loop ep st c.peer_eps c h l
