-- ===== src/Input/Fin.antt =====
-- A FIN that is seen again, `handle_fin` of udt/udt_cb_input.cpp.
use udt_boost.Base.{ℕ}
use udt_boost.Cb.{Cb, State}
use udt_boost.Input.{handle_fin}

-- `m_rcv_nxt` after one more FIN.
abbrev pub nxt_after : State → Cb → ℕ
nxt_after st c = (handle_fin (record c { state = st })).rcv_nxt

abbrev pub nxt_after_two : State → Cb → ℕ
nxt_after_two st c = (handle_fin (handle_fin (record c { state = st }))).rcv_nxt
