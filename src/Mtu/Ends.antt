-- ===== src/Mtu/Ends.antt =====
-- Whether the loop of `send_echo`, udt/udt_mtu.cpp, ends.
use udt_boost.Base.{
  ℕ, zero, suc, ◌+◌, ◌-◌, ◌≤◌, ◌<◌, ◌≡◌, refl, ap, ◌∙◌, true, false, List, Option, none, some,
  length, arith, Bool-cases, inl, inr,
}
use udt_boost.Mtu.{
  Prober, Sent, done, too_big, refused, packet_maximums, prepare_data, send_packets,
  default_send_count, async_recv_reply, notify, after_send, send_loop, iphdr_size_byte, icmp_size,
}

-- Sending changes only the effects.
send_packets_lem :
    (n : ℕ) (p : Prober) → send_packets n p ≡ record p { effects = (send_packets n p).effects }
unfolding send_packets
send_packets_lem zero p = refl
send_packets_lem (suc n) p = send_packets_lem n _

-- A round without a hint goes one further in the list, or says that the list is at its end.
round_plain :
    (p : Prober)
    → p.mtu_hint ≡ 0
    → ((prepare_data p).0.mtu_hint ≡ 0)
      × (((prepare_data p).1 ≡ true)
          → (p.current_mtu_idx < length packet_maximums)
            × ((prepare_data p).0.current_mtu_idx ≡ p.current_mtu_idx + 1))
unfolding prepare_data
round_plain p h = ground arith

settled :
    (s : Sent) (p : Prober) (again : Option Prober)
    → (q : Prober) × (again ≡ some q)
    → (q : Prober) × (after_send s p again ≡ some q)
unfolding after_send
settled done p again h = (async_recv_reply p, refl)
settled too_big p again h = h
settled (refused e) p again h = (notify (record p { last_error = some e }), refl)

-- Without a hint the loop of `send_echo` ends, whatever the socket says: there is a round for each
-- entry of the list of sizes that is left, and one that finds the list at its end.
pub send_loop-ends :
    (fuel n : ℕ) (net : ℕ → List ℕ → Sent) (p : Prober)
    → p.mtu_hint ≡ 0
    → length packet_maximums - p.current_mtu_idx < fuel
    → (q : Prober) × (send_loop fuel n net p ≡ some q)
unfolding send_loop
send_loop-ends zero n net p h lt = absurd (omega arith)
send_loop-ends (suc fuel) n net p h lt =
    let (p1, ready) = prepare_data p in
    let p2 = send_packets default_send_count p1 in
    let (hint, next) = round_plain p h in
    let same = send_packets_lem default_send_count p1 in
    let hint2 : p2.mtu_hint ≡ 0 = ap (λ (x : Prober). x.mtu_hint) same ∙ hint in
    let idx2 : p2.current_mtu_idx ≡ p1.current_mtu_idx =
      ap (λ (x : Prober). x.current_mtu_idx) same in
    let rest = send_loop fuel (n + 1) net p2 in
    elim (Bool-cases ready) [
      | inl r ↦ elim (Bool-cases p1.fault) [
        | inl f ↦ (p1, rw (r, f) refl)
        | inr f ↦
            let (q, e) =
              settled (net n p1.snd_buffer) p2 rest
                (send_loop-ends fuel (n + 1) net p2 hint2 (omega (arith, idx2, next r))) in
            (q, rw (r, f) e)
      ]
      | inr r ↦ (notify p, rw r refl)
    ]

-- With a hint the loop sends the same size again.
round_hint :
    (p : Prober)
    → iphdr_size_byte + icmp_size ≤ p.mtu_hint
    → p.fault ≡ false
    → ((prepare_data p).1 ≡ true)
      × ((prepare_data p).0.fault ≡ false)
      × ((prepare_data p).0.mtu_hint ≡ p.mtu_hint)
unfolding prepare_data
round_hint p h f = ground arith

-- With a hint the loop of `send_echo` does not end while the socket says that the packet is too big:
-- the hint is not cleared, so each round sends the same size again, and no amount of fuel is enough.
-- The hint leaves room for the headers.
pub send_loop_stuck :
    (fuel n : ℕ) (net : ℕ → List ℕ → Sent) (p : Prober)
    → ((k : ℕ) (buf : List ℕ) → net k buf ≡ too_big)
    → iphdr_size_byte + icmp_size ≤ p.mtu_hint
    → p.fault ≡ false
    → send_loop fuel n net p ≡ none
unfolding send_loop after_send
send_loop_stuck zero n net p big h f = refl
send_loop_stuck (suc fuel) n net p big h f =
    let p1 = (prepare_data p).0 in
    let p2 = send_packets default_send_count p1 in
    let same = send_packets_lem default_send_count p1 in
    let (ready, no_fault, hint) = round_hint p h f in
    let hint2 : p2.mtu_hint ≡ p.mtu_hint = ap (λ (x : Prober). x.mtu_hint) same ∙ hint in
    let fault2 : p2.fault ≡ false = ap (λ (x : Prober). x.fault) same ∙ no_fault in
    rw (ready, no_fault, big n p1.snd_buffer)
      (send_loop_stuck fuel (n + 1) net p2 big (omega (arith, hint2)) fault2)
