-- ===== src/Reass/Stream.antt =====
-- What reassembly hands on, udt/udt_cb_input.cpp: `TCP_REASS`, `tcp_reass` and `merge_reasm_pkts`
-- keep the receive buffer without gaps.
use udt_boost.Base.{
  ℕ, ◌≡◌, refl, sym, ap, ◌∙◌, subst, Bool, true, List, [], ◌∷◌, ◌++◌, arith, Bool-cases, inl, inr,
  ◌⊎◌, add32, All, append-nil, append_assoc, ◌&&◌, ◌==◌, is_empty,
}
use udt_boost.Packet.{Packet}
use udt_boost.Buf.{Buf, append_pkt}
use udt_boost.Buf.Accounting.{IsWhole, append_pkt-IsValid}
use udt_boost.Buf.Stream.{Chain, Chain-append}
use udt_boost.Buf.Queue.{IsQueue}
use udt_boost.Reass.Order.{Placed, insert_pkt-Insert, All-insert_pkt}
use udt_boost.Reass.{Rcv, insert_pkt, merge_loop, merge_reasm_pkts, tcp_reass, tcp_reass_or_append}

pub append_pkt-pkts :
    (p : Packet) (b : Buf) → (append_pkt p b).1 ≡ true → (append_pkt p b).0.pkts ≡ b.pkts ++ p ∷ []
unfolding append_pkt
append_pkt-pkts p b t = ground arith

-- The packet that begins where the buffer ends lengthens it.
pub append_pkt-IsQueue :
    (start stop : ℕ) (p : Packet) (b : Buf)
    → IsWhole p
    → p.hdr.seq ≡ stop
    → IsQueue start stop b
    → (append_pkt p b).1 ≡ true
    → IsQueue start (add32 stop p.hdr.len) (append_pkt p b).0
append_pkt-IsQueue start stop p b w e q t = record {
  valid = append_pkt-IsValid p b w q.valid;
  start32 = q.start32;
  chain =
      subst (λ ps. Chain start ps (add32 stop p.hdr.len)) (sym (append_pkt-pkts p b t))
        (Chain-append start stop _ b.pkts (p ∷ []) q.chain (e, refl));
}

-- How the buffer and the queue of out-of-order packets change: some packets move, in order.
pub record Moves (start nxt nxt' : ℕ) (b b' : Buf) (queue left : List Packet) : Type 0 where
  pub moved : List Packet
  pub split : queue ≡ moved ++ left
  pub added : b'.pkts ≡ b.pkts ++ moved
  pub kept : IsQueue start nxt' b'

both : (x y : Bool) → (x && y) ≡ true → (x ≡ true) × (y ≡ true)
both x y e = ground arith

at_iff : (a b : ℕ) → (a == b) ≡ true → a ≡ b
at_iff a b e = ground arith

one_more :
    (start nxt : ℕ) (p : Packet) (ps : List Packet) (b : Buf) {nxt' : ℕ} {b' : Buf}
    {left : List Packet}
    → (append_pkt p b).1 ≡ true
    → Moves start (add32 nxt p.hdr.len) nxt' (append_pkt p b).0 b' ps left
    → Moves start nxt nxt' b b' (p ∷ ps) left
one_more start nxt p ps b t m = record {
  moved = p ∷ m.moved;
  split = ap (λ qs. p ∷ qs) m.split;
  added =
      m.added
      ∙ ap (λ qs. qs ++ m.moved) (append_pkt-pkts p b t)
      ∙ append_assoc b.pkts (p ∷ []) m.moved;
  kept = m.kept;
}

merge_loop-Moves :
    (start nxt : ℕ) (ps : List Packet) (b : Buf)
    → All IsWhole ps
    → IsQueue start nxt b
    → let m = merge_loop ps nxt b in Moves start nxt m.rcv_nxt b m.buf ps m.left
unfolding merge_loop
merge_loop-Moves start nxt [] b w q = record {
  moved = [];
  split = refl;
  added = sym (append-nil b.pkts);
  kept = q;
}
merge_loop-Moves start nxt (p ∷ ps) b w q =
    elim (Bool-cases (p.hdr.seq == nxt && (append_pkt p b).1)) [
      | inl e ↦
          let (at, t) = both _ _ e in
          let here : p.hdr.seq ≡ nxt = at_iff _ _ at in
          rw e (
            one_more start nxt p ps b t (
              merge_loop-Moves start (add32 nxt p.hdr.len) ps (append_pkt p b).0 w.1
                (append_pkt-IsQueue start nxt p b w.0 here q t)))
      | inr e ↦
          rw e (record { moved = []; split = refl; added = sym (append-nil b.pkts); kept = q })
    ]

-- What reassembly of a packet does: `moved` packets go to the end of the buffer, which still has no
-- gap up to `m_rcv_nxt`; the packets that were queued, with or without the new one, are those that
-- moved followed by those that stay.
pub record InOrder (start : ℕ) (p : Packet) (r r' : Rcv) : Type 0 where
  pub moved : List Packet
  pub added : r'.rcv_buf.buf.pkts ≡ r.rcv_buf.buf.pkts ++ moved
  pub kept : IsQueue start r'.cb.rcv_nxt r'.rcv_buf.buf
  pub whole : All IsWhole r'.rcv_buf.reasm_pkts
  pub from :
      (moved ++ r'.rcv_buf.reasm_pkts ≡ r.rcv_buf.reasm_pkts)
      ⊎ Placed p r.rcv_buf.reasm_pkts (moved ++ r'.rcv_buf.reasm_pkts)

All-after : (P : Packet → Type 0) (ps qs : List Packet) → All P (ps ++ qs) → All P qs
All-after P [] qs h = h
All-after P (p ∷ ps) qs h = All-after P ps qs h.1

untouched :
    (start : ℕ) (p : Packet) (r : Rcv)
    → All IsWhole r.rcv_buf.reasm_pkts
    → IsQueue start r.cb.rcv_nxt r.rcv_buf.buf
    → InOrder start p r r
untouched start p r w q = record {
  moved = [];
  added = sym (append-nil r.rcv_buf.buf.pkts);
  kept = q;
  whole = w;
  from = inl refl;
}

tcp_reass-InOrder :
    (start : ℕ) (p : Packet) (r : Rcv)
    → IsWhole p
    → All IsWhole r.rcv_buf.reasm_pkts
    → IsQueue start r.cb.rcv_nxt r.rcv_buf.buf
    → InOrder start p r (tcp_reass p r)
unfolding tcp_reass merge_reasm_pkts
tcp_reass-InOrder start p r wp w q = elim (insert_pkt-Insert p r.rcv_buf.reasm_pkts) [
  | inl (fresh, placed) ↦
      let qs = (insert_pkt p r.rcv_buf.reasm_pkts).0 in
      let all = All-insert_pkt IsWhole p r.rcv_buf.reasm_pkts wp w in
      let m = merge_loop-Moves start r.cb.rcv_nxt qs r.rcv_buf.buf all q in
      rw fresh (record {
        moved = m.moved;
        added = m.added;
        kept = m.kept;
        whole = All-after IsWhole m.moved _ (subst (All IsWhole) m.split all);
        from = inr (subst (Placed p r.rcv_buf.reasm_pkts) m.split placed);
      })
  | inr (known, same) ↦ rw known (untouched start p r w q)
]

first_place : (p : Packet) (ps : List Packet) → Placed p ps (p ∷ ps)
first_place p ps = record { before = []; after = ps; was = refl; now = refl }

-- The reliable stream: a packet that arrives, in order or not, leaves the receive buffer without
-- gaps up to the new `m_rcv_nxt`. Packets are only added at its end. Of the packets that wait, with
-- the new one in its place or refused, none is lost and none is made up: those that move and those
-- that stay are exactly they.
pub tcp_reass_or_append-InOrder :
    (start : ℕ) (p : Packet) (r : Rcv)
    → IsWhole p
    → All IsWhole r.rcv_buf.reasm_pkts
    → IsQueue start r.cb.rcv_nxt r.rcv_buf.buf
    → InOrder start p r (tcp_reass_or_append p r)
unfolding tcp_reass_or_append
tcp_reass_or_append-InOrder start p r wp w q =
    let next = p.hdr.seq == r.cb.rcv_nxt && is_empty r.rcv_buf.reasm_pkts in
    elim (Bool-cases next) [
      | inl e ↦
          let at : p.hdr.seq ≡ r.cb.rcv_nxt =
            at_iff _ _ (both _ (is_empty r.rcv_buf.reasm_pkts) e).0 in
          rw e (elim (Bool-cases (append_pkt p r.rcv_buf.buf).1) [
            | inl t ↦ rw t (record {
              moved = p ∷ [];
              added = append_pkt-pkts p r.rcv_buf.buf t;
              kept = append_pkt-IsQueue start r.cb.rcv_nxt p r.rcv_buf.buf wp at q t;
              whole = w;
              from = inr (first_place p r.rcv_buf.reasm_pkts);
            })
            | inr t ↦ rw t (untouched start p r w q)
          ])
      | inr e ↦
          let m = tcp_reass-InOrder start p r wp w q in
          rw e (record {
            moved = m.moved;
            added = m.added;
            kept = m.kept;
            whole = m.whole;
            from = m.from;
          })
    ]
