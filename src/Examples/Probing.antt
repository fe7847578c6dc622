-- ===== src/Examples/Probing.antt =====
-- An mtu prober, and the theorems of the development at it.
use udt_boost.Base.{
  ◌≡◌, refl, ◌≤◌, ◌-◌, ◌+◌, ◌%◌, ◌≢◌, ◌⊎◌, ℕ, List, All, Option, [], ◌∷◌, none, some, true, false,
  arith,
}
use udt_boost.Tracker
use udt_boost.Mtu.{
  Prober, Sent, done, too_big, iphdr_size_byte, icmp_size, prepare_data, first_le, send_packets,
  async_recv_reply, after_send, send_loop, async_probe_mtu, handle_recv, handle_icmp, notify,
  cancel,
}
use udt_boost.Mtu.Ends.{send_loop-ends, send_loop_stuck}
use udt_boost.Mtu.Echo.{IsEcho, word_sum, prepare_data-IsEcho}
use udt_boost.Mtu.Told.{told, tells, SaysAborted}
use udt_boost.Mtu.Once.{probed, received, Run-ToldOnce}

-- A prober as `create` leaves it.
abbrev new_prober : Prober
new_prober = record {
  handler = 0;
  remote_endpoint = 0;
  snd_buffer = [];
  current_mtu_idx = 0;
  mtu = 0;
  mtu_hint = 0;
  tracker = record { refer = some 0; made = 1 };
  last_error = none;
  is_open = true;
  fault = false;
  effects = [];
}

abbrev takes_all : ℕ → List ℕ → Sent
takes_all n buf = done

abbrev takes_none : ℕ → List ℕ → Sent
takes_none n buf = too_big

send_loop-ends_example : (q : Prober) × (send_loop 11 0 takes_none new_prober ≡ some q)
send_loop-ends_example = send_loop-ends 11 0 takes_none new_prober refl (omega arith)

abbrev hinted : Prober
hinted = record new_prober { mtu_hint = 576 }

send_loop_stuck_example : send_loop 1000 0 takes_none hinted ≡ none
send_loop_stuck_example =
    send_loop_stuck 1000 0 takes_none hinted (λ k buf. refl) (omega arith) refl

prepare_data-IsEcho_example :
    ((prepare_data hinted).0.fault ≡ true)
    ⊎ (IsEcho ((prepare_data hinted).0.mtu - iphdr_size_byte) (prepare_data hinted).0.snd_buffer
        × (iphdr_size_byte + icmp_size ≤ (prepare_data hinted).0.mtu)
        × (word_sum (prepare_data hinted).0.snd_buffer % 65535 ≢ 0))
unfolding prepare_data first_le
prepare_data-IsEcho_example =
    prepare_data-IsEcho hinted (record { third = refl; fourth = refl; rest = tt }) refl

abbrev or_new : Option Prober → Prober
or_new none = new_prober
or_new (some p) = p

abbrev probing : Prober
probing = or_new (async_probe_mtu 11 takes_all 5 7 new_prober)

-- An IP header, and an echo reply.
abbrev reply : List ℕ
reply =
    0 ∷ 0 ∷ 0 ∷ 0 ∷ 0 ∷ 0 ∷ 0 ∷ 0 ∷ 0 ∷ 0 ∷ 0 ∷ 0 ∷ 0 ∷ 0 ∷ 0 ∷ 0 ∷ 0 ∷ 0 ∷ 0 ∷ 0 ∷ 0 ∷ 0 ∷ 0 ∷ 0
    ∷ 4 ∷ 210 ∷ 4 ∷ 210 ∷ []

abbrev answered_probe : Prober
answered_probe = or_new (handle_recv 11 takes_all none reply (some 0) probing)

Run-ToldOnce_example : (told answered_probe ≤ 1) × All SaysAborted answered_probe.effects
unfolding async_probe_mtu send_loop prepare_data send_packets async_recv_reply after_send first_le
    handle_recv handle_icmp notify cancel tells Tracker.get Tracker.reset Tracker.expired
Run-ToldOnce_example =
    Run-ToldOnce {p0 = new_prober} refl
      (received {p = probing} 11 takes_all none reply (some 0) (probed 11 takes_all 5 7 refl) refl)
