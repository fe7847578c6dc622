-- ===== src/HolePunch/Replies.antt =====
-- What a hole punching client sends, and whom it tells, when a datagram comes, udt/udp_hp_clt.cpp.
use udt_boost.Base.{
  ℕ, ◌≡◌, refl, sym, ap, subst, ◌∙◌, inl, inr, Bool, true, false, ◌||◌, if◌then◌else◌, ◌==◌, List,
  [], ◌∷◌, ◌++◌, none, some, arith, if_ind, length, append-nil, Option-cases,
}
use udt_boost.Packet.{hdr_size}
use udt_boost.HolePunch.{
  EndpointState, closed, listen, syn_sent, syn_received, established, EndpointInfo, EndpointsInfo,
  Effect, post, HpClt, refresh, output, async_receive, notify, established_eps, find, set_state,
  peer_is_established, handle_peer_resp, flags_of, on_syn, on_ack, answers_syn, handle_datagram,
}
use udt_boost.HolePunch.Table.{
  state_at, state_at-find, heard, state_at-handle_peer_resp, state_at-set_state, output_keeps,
}
use udt_boost.HolePunch.Sending.{
  spoken, is_live, IsSent, Adds, IsSent-Adds, spoken-refresh, output-IsSent,
}

notify_peers : (c : HpClt) → (notify c).peer_eps ≡ c.peer_eps
unfolding notify
notify_peers c = ground arith

find_of_state :
    (ep : ℕ) (st : EndpointState) (m : EndpointsInfo)
    → state_at ep m ≡ some st
    → (info : EndpointInfo) × (find ep m ≡ some info) × (info.state ≡ st)
find_of_state ep st m h = elim (Option-cases (find ep m)) [
  | inl e ↦ absurd (ground (arith, state_at-find ep m))
  | inr (info, e) ↦ (info, e, ground (arith, state_at-find ep m))
]

-- A datagram moves the state of the endpoint from which it comes, and of no other.
pub state_at-handle_datagram :
    (k ep : ℕ) (bytes : List ℕ) (st : EndpointState) (c : HpClt)
    → state_at ep c.peer_eps ≡ some st
    → state_at k (handle_datagram bytes ep c).peer_eps
      ≡ (if k == ep then some (heard bytes st) else state_at k c.peer_eps)
unfolding handle_datagram async_receive
state_at-handle_datagram k ep bytes st c h =
    let (info, e, same) = find_of_state ep st c.peer_eps h in
    let c' = handle_peer_resp bytes ep info.state c in
    let moved = state_at-handle_peer_resp k ep bytes info.state c (h ∙ ap some (sym same)) in
    rw (e, handle_datagram)
      (ap (state_at k) (
          if_ind (λ (x : HpClt). x.peer_eps ≡ c'.peer_eps) (peer_is_established ep c')
            (notify_peers c') refl)
        ∙ moved
        ∙ ap (λ s. if k == ep then some (heard bytes s) else state_at k c.peer_eps) same)

-- The client has a handler, and no error.
pub record IsCalling (h : ℕ) (c : HpClt) : Type 0 where
  pub handled : c.handler ≡ some h
  pub sound : c.last_error ≡ none

peer_resp-keeps :
    (bytes : List ℕ) (ep : ℕ) (st : EndpointState) (c : HpClt)
    → ((handle_peer_resp bytes ep st c).handler ≡ c.handler)
      × ((handle_peer_resp bytes ep st c).last_error ≡ c.last_error)
unfolding handle_peer_resp
peer_resp-keeps bytes ep st c =
    let flags = flags_of bytes in
    let after_syn = if flags.syn then on_syn st else st in
    let after_ack = if flags.ack then on_ack after_syn else after_syn in
    let c1 = record c { peer_eps = set_state ep after_ack c.peer_eps } in
    let (handler, tracker, error) = output_keeps c1 in
    (ground (arith, handler), ground (arith, error))

abbrev listed : ℕ → List ℕ → Bool
listed ep [] = false
listed ep (k ∷ ks) = ep == k || listed ep ks

listed-established :
    (ep : ℕ) (m : EndpointsInfo)
    → state_at ep m ≡ some established
    → listed ep (established_eps m) ≡ true
unfolding state_at established_eps
listed-established ep [] e = cc
listed-established ep ((k, info) ∷ m) e = ground (arith, listed-established ep m)

-- The last thing that was asked is to tell the handler, without an error, of endpoints of which one is
-- `ep`.
abbrev pub IsTold : ℕ → ℕ → HpClt → Type 0
IsTold ep h c =
    (before : List Effect) × (c.effects ≡ before ++ post h none (established_eps c.peer_eps) ∷ [])
    × (listed ep (established_eps c.peer_eps) ≡ true)

peer_is-state :
    (ep : ℕ) (c : HpClt)
    → state_at ep c.peer_eps ≡ some established
    → peer_is_established ep c ≡ true
unfolding peer_is_established
peer_is-state ep c e = elim (Option-cases (find ep c.peer_eps)) [
  | inl f ↦ absurd (ground (arith, e, f, state_at-find ep c.peer_eps))
  | inr (info, f) ↦
      let same : info.state ≡ established = ground (arith, e, f, state_at-find ep c.peer_eps) in
      rw (f, peer_is_established) (rw same refl)
]

-- A datagram that takes its endpoint to established makes the client tell its handler.
pub datagram-IsTold :
    (h ep : ℕ) (bytes : List ℕ) (st : EndpointState) (c : HpClt)
    → IsCalling h c
    → state_at ep c.peer_eps ≡ some st
    → heard bytes st ≡ established
    → IsTold ep h (handle_datagram bytes ep c)
unfolding handle_datagram notify
datagram-IsTold h ep bytes st c w e to =
    let (info, f, same) = find_of_state ep st c.peer_eps e in
    let c' = handle_peer_resp bytes ep info.state c in
    let there : state_at ep c'.peer_eps ≡ some established = ground (
      arith,
      state_at-handle_peer_resp ep ep bytes info.state c (e ∙ ap some (sym same)),
      ap (heard bytes) same ∙ to,
    ) in
    let (handler, error) = peer_resp-keeps bytes ep info.state c in
    rw (f, handle_datagram)
      (rw (peer_is-state ep c' there) (
        rw (handler ∙ w.handled, notify)
          (rw (error ∙ w.sound) (c'.effects, refl, listed-established ep c'.peer_eps there))))

notify_keeps :
    (c : HpClt) → ((notify c).handler ≡ c.handler) × ((notify c).last_error ≡ c.last_error)
unfolding notify
notify_keeps c = (ground arith, ground arith)

-- A datagram leaves what the client is called for.
pub datagram-IsCalling :
    (h ep : ℕ) (bytes : List ℕ) (c : HpClt)
    → IsCalling h c
    → IsCalling h (handle_datagram bytes ep c)
unfolding handle_datagram async_receive
datagram-IsCalling h ep bytes c w = elim (Option-cases (find ep c.peer_eps)) [
  | inl f ↦ rw (f, handle_datagram) (record { handled = w.handled; sound = w.sound })
  | inr (info, f) ↦
      let c' = handle_peer_resp bytes ep info.state c in
      let (handler, error) = peer_resp-keeps bytes ep info.state c in
      let (kept, clean) = notify_keeps c' in
      let w' : IsCalling h c' = record { handled = handler ∙ w.handled; sound = error ∙ w.sound } in
      rw (f, handle_datagram)
        (if_ind (IsCalling h) (peer_is_established ep c')
          (record { handled = kept ∙ w'.handled; sound = clean ∙ w'.sound })
          (record { handled = w'.handled; sound = w'.sound }))
]

refresh-live :
    (st : EndpointState) (buf buf' : List ℕ) → is_live st ≡ true → refresh st buf ≡ refresh st buf'
unfolding refresh is_live
refresh-live syn_sent buf buf' h = refl
refresh-live syn_received buf buf' h = refl
refresh-live established buf buf' h = refl
refresh-live closed buf buf' h = cc
refresh-live listen buf buf' h = cc

-- Two clients that have an endpoint in the same state send it the same.
spoken-same :
    (ep : ℕ) (st : EndpointState) (c d : HpClt)
    → is_live st ≡ true
    → state_at ep c.peer_eps ≡ some st
    → state_at ep d.peer_eps ≡ some st
    → spoken ep c ≡ spoken ep d
spoken-same ep st c d l hc hd =
    let (b, e) = spoken-refresh ep st c hc in
    let (b', e') = spoken-refresh ep st d hd in e ∙ refresh-live st b b' l ∙ sym e'

notify-Adds : (c : HpClt) → Adds c.effects (notify c).effects
unfolding notify
notify-Adds c = elim (Option-cases c.handler) [
  | inl e ↦ rw (e, notify) ([], sym (append-nil c.effects))
  | inr (h, e) ↦ rw (e, notify) (post h c.last_error (established_eps c.peer_eps) ∷ [], refl)
]

rest-Adds :
    (told : Bool) (c : HpClt) → Adds c.effects (if told then notify c else async_receive c).effects
unfolding async_receive
rest-Adds told c =
    if_ind (λ (x : HpClt). Adds c.effects x.effects) told (notify-Adds c) (_ ∷ [], refl)

peer_resp-output :
    (ep : ℕ) (bytes : List ℕ) (c : HpClt)
    → (length bytes == hdr_size) ≡ true
    → (flags_of bytes).hp ≡ true
    → (flags_of bytes).syn ≡ true
    → handle_peer_resp bytes ep syn_sent c
      ≡ output (record c { peer_eps = set_state ep (heard bytes syn_sent) c.peer_eps })
unfolding handle_peer_resp heard on_syn answers_syn
peer_resp-output ep bytes c n hp syn = rw (n, hp, syn) refl

-- A SYN of an endpoint whose SYN has not been heard is answered at once.
pub datagram-IsSent :
    (ep : ℕ) (bytes : List ℕ) (c : HpClt)
    → state_at ep c.peer_eps ≡ some syn_sent
    → (length bytes == hdr_size) ≡ true
    → (flags_of bytes).hp ≡ true
    → (flags_of bytes).syn ≡ true
    → is_live (heard bytes syn_sent) ≡ true
    → IsSent ep
        (spoken ep (handle_datagram bytes ep c))
        c.effects
        (handle_datagram bytes ep c).effects
unfolding handle_datagram
datagram-IsSent ep bytes c e n hp syn l =
    let after = heard bytes syn_sent in
    let c1 = record c { peer_eps = set_state ep after c.peer_eps } in
    let (info, f, same) = find_of_state ep syn_sent c.peer_eps e in
    let here : state_at ep c1.peer_eps ≡ some after =
      ground (arith, state_at-set_state ep ep after c.peer_eps syn_sent e) in
    let b1 = handle_datagram bytes ep c in
    let there : state_at ep b1.peer_eps ≡ some after =
      ground (arith, state_at-handle_datagram ep ep bytes syn_sent c e) in
    let resp : handle_peer_resp bytes ep info.state c ≡ output c1 =
      ap (λ st. handle_peer_resp bytes ep st c) same ∙ peer_resp-output ep bytes c n hp syn in
    let more : Adds (output c1).effects b1.effects =
      rw (f, handle_datagram)
        (rw resp (rest-Adds (peer_is_established ep (output c1)) (output c1))) in
    subst (λ x. IsSent ep x c.effects b1.effects) (spoken-same ep after c1 b1 l here there)
      (IsSent-Adds ep (spoken ep c1) c.effects (output c1).effects b1.effects
        (output-IsSent ep after c1 here l) more)
