-- ===== src/Examples/Clients.antt =====
-- Two hole punching clients, and the theorems of the development at them.
use udt_boost.Base.{◌≡◌, refl, [], ◌∷◌, none, some, true}
use udt_boost.Packet.{hdr_bytes}
use udt_boost.Packet.Wire.{hton, byte_flags}
use udt_boost.Tracker
use udt_boost.HolePunch.{
  HpClt, async_hole_punch, async_receive, async_wait, output, output_loop, send_packets, refresh,
  insert_all, insert_sent, prepare_send_peer_data, syn_ack_flags, handle_async_receive,
  handle_datagram, handle_peer_resp, find, set_state, on_syn, on_ack, answers_syn, flags_of, notify,
  established_eps, peer_is_established,
}
use udt_boost.HolePunch.Table.{state_at}
use udt_boost.HolePunch.Knows.{Log, heard_ack}
use udt_boost.HolePunch.Heard.{started, received, established-heard}

-- A client as `create` leaves it.
abbrev new_client : HpClt
new_client = record {
  socket = true;
  handler = none;
  peer_eps = [];
  last_error = none;
  tracker = record { refer = some 0; made = 1 };
  effects = [];
}

-- One at endpoint 10, the other at endpoint 20, after they have sent their SYNs.
abbrev at_10 : HpClt
at_10 = async_hole_punch 1 (20 ∷ []) new_client

abbrev at_20 : HpClt
at_20 = async_hole_punch 2 (10 ∷ []) new_client

abbrev answered : Log
answered = (20, prepare_send_peer_data syn_ack_flags) ∷ []

established-heard_example : heard_ack 20 answered ≡ true
unfolding async_hole_punch async_wait async_receive output output_loop send_packets refresh
    insert_all insert_sent prepare_send_peer_data state_at handle_async_receive handle_datagram
    handle_peer_resp find set_state on_syn on_ack answers_syn flags_of notify established_eps
    peer_is_established hdr_bytes hton byte_flags Tracker.get Tracker.expired
established-heard_example =
    established-heard 1 (20 ∷ []) new_client
      (handle_async_receive none (prepare_send_peer_data syn_ack_flags) 20 (some 0) at_10) answered
      20 refl (received 20 (prepare_send_peer_data syn_ack_flags) (some 0) started) refl
