-- ===== src/Machine/Moves.antt =====
-- Every datagram and every timer moves the state of a connection along the diagram.
use udt_boost.Base.{
  ℕ, ◌≡◌, refl, ◌∙◌, subst, Option, inl, inr, Bool-cases, arith, ◌-◌, ◌⊎◌, ◌==◌, if◌then◌else◌,
}
use udt_boost.Packet.{Packet, hdr_size}
use udt_boost.Packet.Wire.{ntoh}
use udt_boost.Cb.{
  Cb, State, Error, closed, listen, syn_sent, syn_received, established, close_wait, fin_wait_1,
  closing, last_ack, fin_wait_2, time_wait,
}
use udt_boost.Sock.{Sock, on_cb}
use udt_boost.Notify.{
  drop, commit_notifies, commit_drop, commit_read, commit_write, commit_output, commit_reset,
  respond,
}
use udt_boost.Cb.Rtt.{xmit_timer}
use udt_boost.Input.{
  syn_state, syn_passive, handle_syn, ack_of_syn, ack_of_fin, update_ack_state, before_ack,
  handle_ack, handle_fin, fin_state, new_ack, same_ack, drop_out_of_rcv_wnd_packet,
}
use udt_boost.Input.Segment.{
  ack_and_fin, take_data, slow_path, process, do_header_prediction, input, note,
}
use udt_boost.Machine.{◌⟶◌, ◌⟶*◌, here, step, ⟶*-trans, one, stay}
use udt_boost.Machine
use udt_boost.Machine.Keep.{
  state, state-on_readable, state-on_writable, state-on_connected, state-xmit_timer,
  state-handle_options, state-dup_ack, state-new_ack, state-reset_rexmt_timer, state-take_data,
  state-out_of_wnd, state-header_prediction, state-update_rtt, state-output,
}

-- `drop` closes.
pub drop-closed : (e : Option Error) (s : Sock) → state (drop e s) ≡ closed
unfolding drop
drop-closed e s = refl

drop-moves : (e : Option Error) (s : Sock) → state s ⟶* state (drop e s)
drop-moves e s = rw (drop-closed e s) (one Machine.dropped)

keep-read : (s : Sock) → state (commit_read s) ≡ state s
keep-read s = ground (arith, state-on_readable s)

keep-write : (s : Sock) → state (commit_write s) ≡ state s
keep-write s = ground (arith, state-on_writable s)

keep-output : (s : Sock) → state (commit_output s) ≡ state s
keep-output s = ground (arith, state-output s)

keep-reset : (s : Sock) → state (commit_reset s) ≡ state s
unfolding respond
keep-reset s = ground arith

drop_cases : (s : Sock) → (state (commit_drop s) ≡ state s) ⊎ (state (commit_drop s) ≡ closed)
drop_cases s = ground (arith, drop-closed s.cb.last_error s)

-- To a state that is the same, or at the end of a path.
along : {a b t : State} → a ⟶* b → (t ≡ a) ⊎ (t ≡ b) → a ⟶* t
along p (inl e) = stay e
along {a} p (inr e) = rw e p

drop_moves : (s : Sock) → state s ⟶* state (commit_drop s)
drop_moves s = along (one Machine.dropped) (drop_cases s)

commit-moves : (s : Sock) → state s ⟶* state (commit_notifies s)
unfolding commit_notifies
commit-moves s =
    let s1 = commit_output s in
    let s2 = commit_reset s1 in
    let s3 = commit_read s2 in
    let same = keep-write s3 ∙ keep-read s2 ∙ keep-reset s1 ∙ keep-output s in
    subst (λ t. t ⟶* state (commit_drop (commit_write s3))) same (drop_moves (commit_write s3))

fin-moves : (st : State) (c : Cb) → c.state ≡ st → st ⟶* (fin_state st c).state
unfolding fin_state
fin-moves established c e = one Machine.fin_passive
fin-moves close_wait c e = here
fin-moves fin_wait_1 c e = one Machine.fin_both
fin-moves closing c e = here
fin-moves fin_wait_2 c e = one Machine.fin_last
fin-moves time_wait c e = here
fin-moves closed c e = stay e
fin-moves listen c e = stay e
fin-moves syn_sent c e = stay e
fin-moves syn_received c e = stay e
fin-moves last_ack c e = stay e

handle_fin-moves : (c : Cb) → c.state ⟶* (handle_fin c).state
unfolding handle_fin
handle_fin-moves c = fin-moves c.state _ (ground arith)

syn-moves : (st : State) (p : Packet) (c : Cb) → c.state ≡ st → st ⟶* (syn_state st p c).0.state
unfolding syn_state syn_passive
syn-moves listen p c e = one Machine.syn_passive
syn-moves syn_sent p c e = one Machine.syn_active
syn-moves syn_received p c e = here
syn-moves established p c e = stay e
syn-moves closed p c e = stay e
syn-moves close_wait p c e = stay e
syn-moves fin_wait_1 p c e = stay e
syn-moves closing p c e = stay e
syn-moves last_ack p c e = stay e
syn-moves fin_wait_2 p c e = stay e
syn-moves time_wait p c e = stay e

handle_syn-moves : (p : Packet) (c : Cb) → c.state ⟶* (handle_syn p c).1.state
unfolding handle_syn
handle_syn-moves p c = syn-moves c.state _ _ refl

ack_of_syn-moves : (st : State) (s : Sock) → state s ≡ st → st ⟶* state (ack_of_syn st s)
unfolding ack_of_syn
ack_of_syn-moves syn_sent s e = one Machine.syn_active
ack_of_syn-moves syn_received s e =
    step Machine.connected (stay (state-on_connected _ ∙ timed_same))
  where
    timed_same :
        ((λ (c : Cb). if c.rtt == 0 then c else xmit_timer c.rtt c)
          (record s.cb { state = established })).state
        ≡ established
    timed_same = ground (arith, state-xmit_timer s.cb.rtt (record s.cb { state = established }))
ack_of_syn-moves closed s e = stay e
ack_of_syn-moves listen s e = stay e
ack_of_syn-moves established s e = stay e
ack_of_syn-moves close_wait s e = stay e
ack_of_syn-moves fin_wait_1 s e = stay e
ack_of_syn-moves closing s e = stay e
ack_of_syn-moves last_ack s e = stay e
ack_of_syn-moves fin_wait_2 s e = stay e
ack_of_syn-moves time_wait s e = stay e

ack_of_fin-moves : (st : State) (c : Cb) → c.state ≡ st → st ⟶* (ack_of_fin st c).state
unfolding ack_of_fin
ack_of_fin-moves fin_wait_1 c e = one Machine.fin_acked
ack_of_fin-moves closing c e = one Machine.both_acked
ack_of_fin-moves last_ack c e = one Machine.last_acked
ack_of_fin-moves closed c e = stay e
ack_of_fin-moves listen c e = stay e
ack_of_fin-moves syn_sent c e = stay e
ack_of_fin-moves syn_received c e = stay e
ack_of_fin-moves established c e = stay e
ack_of_fin-moves close_wait c e = stay e
ack_of_fin-moves fin_wait_2 c e = stay e
ack_of_fin-moves time_wait c e = stay e

update-moves : (s : Sock) → state s ⟶* state (update_ack_state s)
unfolding update_ack_state
update-moves s =
    let s1 = ack_of_syn (state s) s in
    let first = ack_of_syn-moves (state s) s refl in
    elim (Bool-cases s1.cb.flags.sentfin) [
      | inl e ↦ rw e (⟶*-trans first (ack_of_fin-moves (state s1) s1.cb refl))
      | inr e ↦ rw e first
    ]

before_cases :
    (p : Packet) (s : Sock)
    → (state (before_ack p s) ≡ state s) ⊎ (state (before_ack p s) ≡ state (update_ack_state s))
unfolding before_ack
before_cases p s =
    let n = p.hdr.off - hdr_size in
    ground (
      arith,
      state-handle_options n p.body n s,
      state-handle_options n p.body n (update_ack_state s),
    )

before-moves : (p : Packet) (s : Sock) → state s ⟶* state (before_ack p s)
before-moves p s = along (update-moves s) (before_cases p s)

handle_ack_cases :
    (p : Packet) (s : Sock)
    → (state (handle_ack p s).0 ≡ state s) ⊎ (state (handle_ack p s).0 ≡ state (before_ack p s))
unfolding handle_ack
handle_ack_cases p s =
    let s1 = before_ack p s in
    let s2 = (same_ack p.hdr.ack p.hdr.win s1).0 in
    let fresh = new_ack p.hdr.ack p.hdr.win s1 in
    ground (
      arith,
      state-dup_ack p.hdr.ack s1,
      state-new_ack p.hdr.ack p.hdr.win s1,
      state-reset_rexmt_timer s2.cb,
      state-reset_rexmt_timer fresh.cb,
    )

handle_ack-moves : (p : Packet) (s : Sock) → state s ⟶* state (handle_ack p s).0
handle_ack-moves p s = along (before-moves p s) (handle_ack_cases p s)

acked : Packet → Sock → Sock
acked p s = if p.hdr.flags.ack then (handle_ack p s).0 else s

acked_moves : (p : Packet) (s : Sock) → state s ⟶* state (acked p s)
unfolding acked
acked_moves p s = elim (Bool-cases p.hdr.flags.ack) [
  | inl e ↦ along (handle_ack-moves p s) (ground arith)
  | inr e ↦ stay (ground arith)
]

ack_and_fin_cases :
    (p : Packet) (s : Sock)
    → (state (ack_and_fin p s) ≡ state (acked p s))
      ⊎ (state (ack_and_fin p s) ≡ (handle_fin (acked p s).cb).state)
unfolding ack_and_fin acked
ack_and_fin_cases p s = ground arith

ack_and_fin-moves : (p : Packet) (s : Sock) → state s ⟶* state (ack_and_fin p s)
ack_and_fin-moves p s = elim (ack_and_fin_cases p s) [
  | inl e ↦ along (acked_moves p s) (inr e)
  | inr e ↦ along (⟶*-trans (acked_moves p s) (handle_fin-moves (acked p s).cb)) (inr e)
]

taken_moves : (p : Packet) (s : Sock) → state s ⟶* state (ack_and_fin p (take_data p s))
taken_moves p s = ⟶*-trans (stay (state-take_data p s)) (ack_and_fin-moves p (take_data p s))

slow_cases :
    (p : Packet) (s : Sock)
    → let h = handle_syn p s.cb in
      let synced : Sock = record s { cb = h.1 } in
      (state (slow_path p s) ≡ state (ack_and_fin p (take_data p s)))
      ⊎ ((state (slow_path p s) ≡ state synced)
          ⊎ (state (slow_path p s) ≡ state (ack_and_fin h.0 (take_data h.0 synced))))
unfolding slow_path
slow_cases p s = ground arith

slow_path-moves : (p : Packet) (s : Sock) → state s ⟶* state (slow_path p s)
slow_path-moves p s =
    let h = handle_syn p s.cb in
    let synced : Sock = record s { cb = h.1 } in
    let first = handle_syn-moves p s.cb in
    elim (slow_cases p s) [
      | inl e ↦ along (taken_moves p s) (inr e)
      | inr (inl e) ↦ along first (inr e)
      | inr (inr e) ↦ along (⟶*-trans first (taken_moves h.0 synced)) (inr e)
    ]

predicted_or_not : Packet → Sock → Sock
predicted_or_not p s = (do_header_prediction p (drop_out_of_rcv_wnd_packet p s).0).0

process_cases :
    (p : Packet) (s : Sock)
    → (state (process p s) ≡ state s)
      ⊎ (state (process p s) ≡ state (slow_path p (predicted_or_not p s)))
unfolding process predicted_or_not
process_cases p s =
    let s1 = (drop_out_of_rcv_wnd_packet p s).0 in
    ground (arith, state-out_of_wnd p s, state-header_prediction p s1)

process-moves : (p : Packet) (s : Sock) → state s ⟶* state (process p s)
unfolding predicted_or_not
process-moves p s =
    let s1 = (drop_out_of_rcv_wnd_packet p s).0 in
    let same = state-header_prediction p s1 ∙ state-out_of_wnd p s in
    elim (process_cases p s) [
      | inl e ↦ stay e
      | inr e ↦ along (⟶*-trans (stay same) (slow_path-moves p (predicted_or_not p s))) (inr e)
    ]

worked : Packet → Sock → Sock
worked p s =
    let p' : Packet = record p { hdr = ntoh p.hdr } in
    commit_notifies (process p' (on_cb (note p') s))

worked_moves : (p : Packet) (s : Sock) → state s ⟶* state (worked p s)
unfolding worked
worked_moves p s =
    let p' : Packet = record p { hdr = ntoh p.hdr } in
    let s1 = on_cb (note p') s in
    ⟶*-trans (stay (state-update_rtt p'.hdr.pseq _))
      (⟶*-trans (process-moves p' s1) (commit-moves (process p' s1)))

input_cases :
    (p : Packet) (n : ℕ) (s : Sock)
    → (state (input p n s).0 ≡ state s) ⊎ (state (input p n s).0 ≡ state (worked p s))
unfolding input worked
input_cases p n s = ground arith

-- Whatever datagram arrives, `input` leaves the connection in the state it had or in one that the
-- moves of the state diagram lead to from it.
pub input-moves : (p : Packet) (n : ℕ) (s : Sock) → state s ⟶* state (input p n s).0
input-moves p n s = along (worked_moves p s) (input_cases p n s)
