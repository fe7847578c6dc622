-- ===== src/Asio.antt =====
-- What the clients of udt/udp_hp_clt.cpp, udt/udp_pub_addr.cpp, udt/udp_chknat.cpp and
-- udt/udt_mtu.cpp hear from asio: error codes. The operations that they start are effects.
use udt_boost.Base.{ℕ, Bool, true, false, Option, none, some}

-- The codes that the code names, and all others.
pub data ErrorCode : Type 0 where
  timed_out operation_aborted network_unreachable host_unreachable not_found no_buffer_space :
      ErrorCode
  other : ℕ → ErrorCode

-- `e == boost::asio::error::operation_aborted`, where `none` is success.
abbrev pub is_aborted : Option ErrorCode → Bool
is_aborted (some operation_aborted) = true
is_aborted _ = false

-- `if (e)`.
abbrev pub is_error : Option ErrorCode → Bool
is_error none = false
is_error (some e) = true
