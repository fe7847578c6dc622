-- ===== src/HolePunch/Meeting.antt =====
-- The handshake of two hole punching clients, udt/udp_hp_clt.cpp: what one sends by its state, and
-- what the other makes of it.
use udt_boost.Base.{ℕ, ◌≡◌, Bool, true, false, ◌==◌, List, length}
use udt_boost.Packet.{hdr_size}
use udt_boost.HolePunch.{
  EndpointState, closed, listen, syn_sent, syn_received, established, HpClt, output, flags_of,
  handle_datagram,
}
use udt_boost.HolePunch.Sending.{spoken, is_live, IsSent}

-- The states that two clients can have for one another: a client that is established has heard an
-- ACK, which the other does not send in `syn_sent`.
unfoldable pub can_meet : EndpointState → EndpointState → Bool
unfolding is_live
can_meet syn_sent established = false
can_meet established syn_sent = false
can_meet closed y = false
can_meet listen y = false
can_meet syn_sent y = is_live y
can_meet syn_received y = is_live y
can_meet established y = is_live y

-- What one client makes of the datagrams of the other, by the states of both.
answer : EndpointState → EndpointState → EndpointState
answer syn_sent syn_sent = syn_received
answer syn_sent syn_received = syn_received
answer syn_sent y = y
answer syn_received syn_sent = established
answer syn_received syn_received = established
answer syn_received y = y
answer established syn_received = established
answer established y = y
answer x y = y

-- `b` gets a datagram that `a` sends by its state; they are at the endpoints `ea` and `eb`.
unfoldable pub hears : ℕ → ℕ → HpClt → HpClt → HpClt
hears ea eb a b = handle_datagram (spoken eb a) ea b

-- What is heard of a client in SYN_SENT or SYN_RECEIVED: a SYN of hole punching.
IsSyn : List ℕ → Type 0
IsSyn bytes =
    ((length bytes == hdr_size) ≡ true)
    × ((flags_of bytes).hp ≡ true)
    × ((flags_of bytes).syn ≡ true)

-- The answer of a client that was in the state `st`: at once, if it had not heard the other's SYN; else
-- with the next `output`, which each time-out calls.
abbrev pub Answers : EndpointState → ℕ → HpClt → HpClt → Type 0
Answers syn_sent ep c c' = IsSent ep (spoken ep c') c.effects c'.effects
Answers _ ep c c' = IsSent ep (spoken ep c') c'.effects (output c').effects
