-- ===== src/Reass/Order.antt =====
-- The queue of out-of-order packets, `tcp_reass` of udt/udt_cb_input.cpp: where a packet goes.
use udt_boost.Base.{
  ℕ, suc, ◌≡◌, ◌≤◌, ◌<◌, ◌⊎◌, refl, ap, Bool, true, false, List, [], ◌∷◌, ◌++◌, arith, Bool-cases,
  inl, inr, ◌==◌, ◌||◌, u32_mod, u32_half, All,
}
use udt_boost.Seq.{seq_lt}
use udt_boost.Seq.Order.{offset}
use udt_boost.Packet.{Packet}
use udt_boost.Reass.{insert_pkt}

-- A queue with a packet more.
pub record Placed (p : Packet) (ps qs : List Packet) : Type 0 where
  pub before : List Packet
  pub after : List Packet
  pub was : ps ≡ before ++ after
  pub now : qs ≡ before ++ p ∷ after

behind : (p q : Packet) {ps qs : List Packet} → Placed p ps qs → Placed p (q ∷ ps) (q ∷ qs)
behind p q i = record {
  before = q ∷ i.before;
  after = i.after;
  was = ap (λ xs. q ∷ xs) i.was;
  now = ap (λ xs. q ∷ xs) i.now;
}

-- A packet is put in, or its number is there already and the queue stays.
abbrev pub Insert : Packet → List Packet → List Packet × Bool → Type 0
Insert p ps r = ((r.1 ≡ true) × Placed p ps r.0) ⊎ ((r.1 ≡ false) × (r.0 ≡ ps))

behind-Insert :
    (p q : Packet) (qs : List Packet)
    → Insert p qs (insert_pkt p qs)
    → Insert p (q ∷ qs) (q ∷ (insert_pkt p qs).0, (insert_pkt p qs).1)
behind-Insert p q qs (inl i) = inl (i.0, behind p q i.1)
behind-Insert p q qs (inr e) = inr (e.0, ap (λ xs. q ∷ xs) e.1)

pub insert_pkt-Insert : (p : Packet) (ps : List Packet) → Insert p ps (insert_pkt p ps)
unfolding insert_pkt
insert_pkt-Insert p [] = inl (refl, record { before = []; after = []; was = refl; now = refl })
insert_pkt-Insert p (q ∷ qs) = elim (Bool-cases (seq_lt q.hdr.seq p.hdr.seq)) [
  | inl e ↦ rw e (behind-Insert p q qs (insert_pkt-Insert p qs))
  | inr e ↦ rw e (elim (Bool-cases (q.hdr.seq == p.hdr.seq)) [
    | inl k ↦ rw k (inr (refl, refl))
    | inr k ↦ rw k (inl (refl, record { before = []; after = q ∷ qs; was = refl; now = refl }))
  ])
]

pub All-insert_pkt :
    (P : Packet → Type 0) (p : Packet) (ps : List Packet)
    → P p
    → All P ps
    → All P (insert_pkt p ps).0
unfolding insert_pkt
All-insert_pkt P p [] hp h = (hp, tt)
All-insert_pkt P p (q ∷ qs) hp h = elim (Bool-cases (seq_lt q.hdr.seq p.hdr.seq)) [
  | inl e ↦ rw e (h.0, All-insert_pkt P p qs hp h.1)
  | inr e ↦
      rw e (elim (Bool-cases (q.hdr.seq == p.hdr.seq)) [ inl k ↦ rw k h | inr k ↦ rw k (hp, h) ])
]

-- The queue ascends: each packet lies in the half window from `base`, at a distance of `lo` at
-- least, and each further than the one before it.
abbrev pub Ascends : ℕ → ℕ → List Packet → Type 0
Ascends base lo [] = Unit {0}
Ascends base lo (p ∷ ps) =
    (p.hdr.seq < u32_mod)
    × (lo ≤ offset base p.hdr.seq)
    × (offset base p.hdr.seq < u32_half)
    × Ascends base (suc (offset base p.hdr.seq)) ps

abbrev pub has_seq : ℕ → List Packet → Bool
has_seq seq [] = false
has_seq seq (p ∷ ps) = p.hdr.seq == seq || has_seq seq ps

Ascends-lower :
    (base lo lo' : ℕ) (ps : List Packet) → lo' ≤ lo → Ascends base lo ps → Ascends base lo' ps
Ascends-lower base lo lo' [] h a = tt
Ascends-lower base lo lo' (p ∷ ps) h (a0, a1, a2, a3) = (a0, omega arith, a2, a3)
