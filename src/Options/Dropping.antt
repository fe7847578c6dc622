-- ===== src/Options/Dropping.antt =====
-- What the acks and the SACK blocks take out of the send buffer: `drop_acked_data` and
-- `handle_option_sack` of udt/udt_cb_input.cpp.
use udt_boost.Base.{
  ℕ, ◌+◌, ◌≡◌, ◌<◌, refl, sym, ap, ◌∙◌, Bool, true, false, not, ◌&&◌, ◌||◌, List, [], ◌∷◌, ◌++◌,
  arith, All, All-append, u32_mod, Bool-cases, inl, inr, reverse, subst, append_assoc,
}
use udt_boost.Seq.{seq_lt, seq_le, seq_ge}
use udt_boost.Packet.{Packet}
use udt_boost.Buf.Accounting.{IsWhole, total_len}
use udt_boost.Cb.Window.{update_snd_una, update_snd_fack}
use udt_boost.Sock.{Sock, on_cb}
use udt_boost.Sock.Counted.{
  retrans_len, retrans_len-le, IsCounted, Parted, nil, keep, lose, all_kept, Parted-retrans_len,
  Parted-total_len, Parted-All,
}
use udt_boost.Options.{end_seq}
use udt_boost.Options.Handle.{
  Walk, drop_snd_pkt, drop_snd_pkts, sack_walk, sack_walks, handle_option_sack, acked_walk,
  drop_acked_data,
}

-- What is left of the two counts, and of the rest of the buffer.
record Left (s s' : Sock) (r n : ℕ) : Type 0 where
  retrans : s'.cb.retrans_data ≡ r
  cc : s'.snd_buf.cc ≡ n
  hiwat : s'.snd_buf.hiwat ≡ s.snd_buf.hiwat
  seq : s'.snd_buf.seq ≡ s.snd_buf.seq

drop_snd_pkts-Left :
    (gone : List Packet) (s : Sock) (r n : ℕ)
    → s.cb.retrans_data ≡ retrans_len gone + r
    → s.snd_buf.cc ≡ total_len gone + n
    → s.cb.retrans_data < u32_mod
    → s.snd_buf.cc < u32_mod
    → Left s (drop_snd_pkts gone s) r n
unfolding drop_snd_pkts drop_snd_pkt
drop_snd_pkts-Left [] s r n er en hr hn = record {
  retrans = omega arith;
  cc = omega arith;
  hiwat = refl;
  seq = refl;
}
drop_snd_pkts-Left (p ∷ ps) s r n er en hr hn =
    let l =
      drop_snd_pkts-Left ps (drop_snd_pkt p s) r n (ground arith) (ground arith) (ground arith)
        (ground arith) in
    record { retrans = l.retrans; cc = l.cc; hiwat = l.hiwat; seq = l.seq }

-- A walk takes out what is due, and keeps the rest in its order.
abbrev pub kept : Walk → List Packet
kept w = w.seen ++ w.rest

acked_walk-Parted :
    (ack : ℕ) (ps : List Packet) → let w = acked_walk ack ps in Parted w.rest w.gone ps
unfolding acked_walk
acked_walk-Parted ack [] = nil
acked_walk-Parted ack (p ∷ ps) = elim (Bool-cases (seq_ge p.hdr.seq ack)) [
  | inl e ↦ rw e (all_kept (p ∷ ps))
  | inr e ↦ rw e (lose (acked_walk-Parted ack ps))
]

-- The packet begins before `ack`.
abbrev pub IsAcked : ℕ → Packet → Type 0
IsAcked ack p = seq_lt p.hdr.seq ack ≡ true

acked_walk-due : (ack : ℕ) (ps : List Packet) → All (IsAcked ack) (acked_walk ack ps).gone
unfolding acked_walk
acked_walk-due ack [] = tt
acked_walk-due ack (p ∷ ps) = elim (Bool-cases (seq_ge p.hdr.seq ack)) [
  | inl e ↦ rw e tt
  | inr e ↦ rw e (ground arith, acked_walk-due ack ps)
]

-- The first packet, if there is one, does not begin before `ack`.
abbrev pub starts_at : ℕ → List Packet → Bool
starts_at ack [] = true
starts_at ack (p ∷ ps) = seq_ge p.hdr.seq ack

acked_walk-rest : (ack : ℕ) (ps : List Packet) → starts_at ack (acked_walk ack ps).rest ≡ true
unfolding acked_walk
acked_walk-rest ack [] = refl
acked_walk-rest ack (p ∷ ps) = elim (Bool-cases (seq_ge p.hdr.seq ack)) [
  | inl e ↦ rw e e
  | inr e ↦ rw e (acked_walk-rest ack ps)
]

-- What goes is the front of the buffer, and nothing behind it.
acked_walk-split : (ack : ℕ) (ps : List Packet) → let w = acked_walk ack ps in ps ≡ w.gone ++ w.rest
unfolding acked_walk
acked_walk-split ack [] = refl
acked_walk-split ack (p ∷ ps) = elim (Bool-cases (seq_ge p.hdr.seq ack)) [
  | inl e ↦ rw e
  | inr e ↦ rw e (ap (λ qs. p ∷ qs) (acked_walk-split ack ps))
]

-- What of the send buffer has gone: packets that were due, and the counts still agree.
pub record Drops (IsDue : Packet → Type 0) (s s' : Sock) : Type 0 where
  pub gone : List Packet
  pub due : All IsDue gone
  pub parted : Parted s'.snd_buf.pkts gone s.snd_buf.pkts
  pub counted : IsCounted s'

-- Both counts after the packets of a walk have gone.
dropped-IsCounted :
    (keeps gone : List Packet) (s : Sock)
    → IsCounted s
    → Parted keeps gone s.snd_buf.pkts
    → let d = drop_snd_pkts gone s in
      IsCounted (record d { snd_buf = record d.snd_buf { pkts = keeps } })
dropped-IsCounted keeps gone s c r =
    let v = c.valid in
    let bound = retrans_len-le s.snd_buf.pkts in
    let l =
      drop_snd_pkts-Left gone s (retrans_len keeps) (total_len keeps)
        (c.retrans ∙ Parted-retrans_len r) (v.counted ∙ Parted-total_len r)
        (omega (arith, bound, c.retrans, v.counted, v.within, v.hiwat32))
        (omega (arith, v.within, v.hiwat32)) in
    record {
      retrans = l.retrans;
      valid = record {
        counted = l.cc;
        within = omega (arith, l.cc, l.hiwat, v.within, v.counted, Parted-total_len r);
        hiwat32 = omega (arith, l.hiwat, v.hiwat32);
        seq32 = omega (arith, l.seq, v.seq32);
        whole = Parted-All IsWhole r v.whole;
      };
    }

retrans-update_snd_una :
    (ack : ℕ) (s : Sock) → IsCounted s → IsCounted (on_cb (update_snd_una ack) s)
retrans-update_snd_una ack s c = record { retrans = ground (arith, c.retrans); valid = c.valid }

una-update_snd_una : (ack : ℕ) (s : Sock) → (update_snd_una ack s.cb).snd_una ≡ ack
una-update_snd_una ack s = ground arith

-- An ack takes from the front of the send buffer the packets that begin before it, up to the first that
-- does not; that one and all behind it stay, as they were. The buffer's count and the count of the retransmitted bytes
-- agree with the packets as they did before, and `m_snd_una` is the ack.
pub drop_acked_data-Drops :
    (ack : ℕ) (s : Sock)
    → IsCounted s
    → let s' = drop_acked_data ack s in
      (d : Drops (IsAcked ack) s s') × (s.snd_buf.pkts ≡ d.gone ++ s'.snd_buf.pkts)
      × (starts_at ack s'.snd_buf.pkts ≡ true)
      × (s'.cb.snd_una ≡ ack)
unfolding drop_acked_data
drop_acked_data-Drops ack s c =
    let w = acked_walk ack s.snd_buf.pkts in
    let r = acked_walk-Parted ack s.snd_buf.pkts in
    let d = drop_snd_pkts w.gone s in
    let d' : Sock = record d { snd_buf = record d.snd_buf { pkts = w.rest } } in
    (
      record {
        gone = w.gone;
        due = acked_walk-due ack s.snd_buf.pkts;
        parted = r;
        counted = retrans-update_snd_una ack d' (dropped-IsCounted w.rest w.gone s c r);
      },
      acked_walk-split ack s.snd_buf.pkts,
      acked_walk-rest ack s.snd_buf.pkts,
      una-update_snd_una ack d,
    )

-- A packet that lies in one of the blocks.
abbrev pub in_block : ℕ → ℕ → Packet → Bool
in_block first second p = not (seq_lt p.hdr.seq first) && seq_le (end_seq p) second

abbrev pub in_blocks : List (ℕ × ℕ) → Packet → Bool
in_blocks [] p = false
in_blocks ((first, second) ∷ prs) p = in_block first second p || in_blocks prs p

abbrev pub IsSacked : List (ℕ × ℕ) → Packet → Type 0
IsSacked prs p = in_blocks prs p ≡ true

-- What happens to the packets that a walk stops before joins what happened to those it met.
sack_walk-Parted :
    (first second : ℕ) (ps : List Packet) {keeps gone : List Packet}
    → let w = sack_walk first second ps in
      Parted keeps gone w.rest → Parted (w.seen ++ keeps) (w.gone ++ gone) ps
unfolding sack_walk
sack_walk-Parted first second [] = λ r. r
sack_walk-Parted first second (p ∷ ps) = elim (Bool-cases (seq_lt p.hdr.seq first)) [
  | inl e ↦ rw e (λ r. keep (sack_walk-Parted first second ps r))
  | inr e ↦ elim (Bool-cases (seq_le (end_seq p) second)) [
    | inl k ↦ rw (e, k) (λ r. lose (sack_walk-Parted first second ps r))
    | inr k ↦ rw (e, k) (λ r. r)
  ]
]

sack_walk-due :
    (first second : ℕ) (prs : List (ℕ × ℕ)) (ps : List Packet)
    → All (IsSacked ((first, second) ∷ prs)) (sack_walk first second ps).gone
unfolding sack_walk
sack_walk-due first second prs [] = tt
sack_walk-due first second prs (p ∷ ps) = elim (Bool-cases (seq_lt p.hdr.seq first)) [
  | inl e ↦ rw e (sack_walk-due first second prs ps)
  | inr e ↦ elim (Bool-cases (seq_le (end_seq p) second)) [
    | inl k ↦ let d = sack_walk-due first second prs ps in rw (e, k) (ground arith, d)
    | inr k ↦ rw (e, k) tt
  ]
]

All-IsSacked :
    (first second : ℕ) (prs : List (ℕ × ℕ)) (ps : List Packet)
    → All (IsSacked prs) ps
    → All (IsSacked ((first, second) ∷ prs)) ps
All-IsSacked first second prs [] h = tt
All-IsSacked first second prs (p ∷ ps) h =
    let here = h.0 in (ground (arith, here), All-IsSacked first second prs ps h.1)

sack_walks-Parted :
    (prs : List (ℕ × ℕ)) (ps : List Packet) → let w = sack_walks prs ps in Parted (kept w) w.gone ps
unfolding sack_walks
sack_walks-Parted [] ps = all_kept ps
sack_walks-Parted ((first, second) ∷ prs) ps =
    let w = sack_walk first second ps in
    let more = sack_walks prs w.rest in
    subst (λ qs. Parted qs (w.gone ++ more.gone) ps) (sym (append_assoc w.seen more.seen more.rest))
      (sack_walk-Parted first second ps (sack_walks-Parted prs w.rest))

sack_walks-due :
    (prs : List (ℕ × ℕ)) (ps : List Packet) → All (IsSacked prs) (sack_walks prs ps).gone
unfolding sack_walks
sack_walks-due [] ps = tt
sack_walks-due ((first, second) ∷ prs) ps =
    let w = sack_walk first second ps in
    All-append (IsSacked ((first, second) ∷ prs)) w.gone _ (sack_walk-due first second prs ps)
      (All-IsSacked first second prs _ (sack_walks-due prs w.rest))

retrans-update_snd_fack :
    (ack : ℕ) (s : Sock) → IsCounted s → IsCounted (on_cb (update_snd_fack ack) s)
retrans-update_snd_fack ack s c = record { retrans = ground (arith, c.retrans); valid = c.valid }

-- A SACK option takes from the send buffer only packets that lie, from their first byte to their
-- last, in one of its blocks; the rest stays in order. The counts agree with the packets as before.
pub handle_option_sack-Drops :
    (prs : List (ℕ × ℕ)) (s : Sock)
    → IsCounted s
    → Drops (IsSacked (reverse prs)) s (handle_option_sack prs s)
unfolding handle_option_sack
handle_option_sack-Drops [] s c = record {
  gone = [];
  due = tt;
  parted = all_kept s.snd_buf.pkts;
  counted = c;
}
handle_option_sack-Drops (pr ∷ prs) s c =
    let w = sack_walks (reverse (pr ∷ prs)) s.snd_buf.pkts in
    let r = sack_walks-Parted (reverse (pr ∷ prs)) s.snd_buf.pkts in
    record {
      gone = w.gone;
      due = sack_walks-due (reverse (pr ∷ prs)) s.snd_buf.pkts;
      parted = r;
      counted = dropped-IsCounted (kept w) w.gone _ (retrans-update_snd_fack pr.1 s c) r;
    }
