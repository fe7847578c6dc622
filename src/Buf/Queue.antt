-- ===== src/Buf/Queue.antt =====
-- The buffer of udt/udt_buf.cpp as a queue of bytes: `append` puts bytes in at the end, and `copy`
-- takes them out at the front.
use udt_boost.Base.{
  ℕ, zero, suc, ◌+◌, ◌≤◌, ◌<◌, ◌≡◌, refl, ap, subst₂, ◌∙◌, Bool, List, [], ◌∷◌, ◌++◌, arith, length,
  take, drop, ◌&&◌, ltb, leb, if◌then◌else◌, inl, inr, Bool-cases, subst, length-take, length-drop,
  length-append, take-append-drop, u16_mod, u32_mod, add32, sub32, All, All-append, min, true,
  false, is_empty, ◌==◌, not, ◌||◌,
}
use udt_boost.Packet.{Packet, hdr_size, data_ptr, data_ptr-body}
use udt_boost.Buf.{Buf, copy_loop, copy, segments, append, alloc, acc, first_seq}
use udt_boost.Buf.Accounting.{IsWhole, IsValid, total_len, total_len-append}
use udt_boost.Buf.Stream.{
  stream, stream-append, length-stream, Chain, Chain-append, Copied, copy_loop-Copied,
}

-- A buffer whose packets lie from `start` to `stop` without a gap.
pub record IsQueue (start stop : ℕ) (b : Buf) : Type 0 where
  pub valid : IsValid b
  pub open valid use *
  pub start32 : start < u32_mod
  pub chain : Chain start b.pkts stop

abbrev pub contents : Buf → List ℕ
contents b = stream b.pkts

-- `copy` is the queue's way out: it gives the first `n` bytes, and leaves the others.
abbrev pub Takes : ℕ → ℕ → ℕ → Buf → Buf × List ℕ → Type 0
Takes start stop n b r =
    (r.1 ++ contents r.0 ≡ contents b)
    × (length r.1 ≡ min n (length (contents b)))
    × IsQueue (add32 start (length r.1)) stop r.0

copy-Copied :
    (start stop n : ℕ) (b : Buf) (r : List Packet × List ℕ)
    → IsQueue start stop b
    → Copied start stop b.pkts n r
    → Takes start stop n b (record b { pkts = r.0; cc = sub32 b.cc (length r.1) }, r.1)
copy-Copied start stop n b r q c =
    let all = length-stream b.pkts q.whole in
    let left = length-stream r.0 c.whole in
    let both = ap length c.split in
    let sum = length-append r.1 (stream r.0) in
    (
      c.split,
      omega (arith, c.size, all),
      record {
        valid = record {
          counted = omega (arith, q.counted, q.within, q.hiwat32, all, left, both, sum);
          within = omega (arith, q.counted, q.within, q.hiwat32, all, left, both, sum);
          hiwat32 = q.hiwat32;
          seq32 = q.seq32;
          whole = c.whole;
        };
        start32 = omega arith;
        chain = c.chain;
      },
    )

first_seq-Chain :
    (start stop : ℕ) (ps : List Packet)
    → is_empty ps ≡ false
    → Chain start ps stop
    → first_seq ps ≡ start
first_seq-Chain start stop [] e c = cc
first_seq-Chain start stop (p ∷ ps) e c = c.0

nothing_due :
    (n : ℕ) (ps : List Packet)
    → (is_empty ps || n == 0 || not true) ≡ true
    → min n (length (stream ps)) ≡ 0
nothing_due n [] e = omega arith
nothing_due n (p ∷ ps) e = let z : n ≡ 0 = ground arith in omega arith

some_due :
    (n : ℕ) (ps : List Packet) → (is_empty ps || n == 0 || not true) ≡ false → is_empty ps ≡ false
some_due n [] e = cc
some_due n (p ∷ ps) e = refl

Takes-nothing :
    (start stop n : ℕ) (b : Buf)
    → IsQueue start stop b
    → min n (length (contents b)) ≡ 0
    → Takes start stop n b (b, [])
Takes-nothing start stop n b q e =
    (refl, omega arith, subst (λ s. IsQueue s stop b) {x = start} (omega (arith, q.start32)) q)

-- A call of `copy` that erases what it copied takes from a buffer without gaps exactly the first
-- `n` bytes, or all of them if there are fewer, and leaves the rest as such a buffer.
pub copy-Takes :
    (start stop n : ℕ) (b : Buf) → IsQueue start stop b → Takes start stop n b (copy true n true b)
unfolding copy
copy-Takes start stop n b q = elim (Bool-cases (is_empty b.pkts || n == 0 || not true)) [
  | inl e ↦ rw e (Takes-nothing start stop n b q (nothing_due n b.pkts e))
  | inr e ↦
      rw (e, first_seq-Chain start stop b.pkts (some_due n b.pkts e) q.chain)
        (copy-Copied start stop n b (copy_loop b.pkts start n true) q
          (copy_loop-Copied b.pkts start stop n q.start32 q.whole q.chain))
]

-- What the packets cut from `bytes` are.
record Cut (bytes : List ℕ) (seq : ℕ) (ps : List Packet) : Type 0 where
  same : stream ps ≡ bytes
  total : total_len ps ≡ length bytes
  whole : All IsWhole ps
  chain : Chain seq ps (add32 seq (length bytes))

data_ptr-alloc : (bytes : List ℕ) (seq : ℕ) → data_ptr (alloc bytes seq) ≡ bytes
data_ptr-alloc bytes seq = data_ptr-body (alloc bytes seq) (omega arith)

Cut-cons :
    (bytes : List ℕ) (n seq : ℕ) (ps : List Packet)
    → n ≤ length bytes
    → n + hdr_size < u16_mod
    → seq < u32_mod
    → Cut (drop n bytes) (add32 seq n) ps
    → Cut bytes seq (alloc (take n bytes) seq ∷ ps)
Cut-cons bytes n seq ps h h16 hs c = record {
  same = rw (data_ptr-alloc (take n bytes) seq, c.same) (take-append-drop n bytes);
  total = omega (arith, taken, c.total, length-drop n bytes);
  whole = (
    record {
      off_min = omega arith;
      off16 = omega (arith, taken);
      has_data = rw (data_ptr-alloc (take n bytes) seq) (omega (arith, taken));
      seq32 = hs;
    },
    c.whole,
  );
  chain = (
    refl,
    subst₂ (λ a z. Chain a ps z) {x = add32 seq n} {u = add32 (add32 seq n) (length (drop n bytes))}
        (omega (arith, taken)) (omega (arith, length-drop n bytes)) c.chain,
  );
}
  where
    taken : length (take n bytes) ≡ n
    taken = omega (arith, length-take n bytes)

segments-Cut :
    (fuel : ℕ) (bytes : List ℕ) (seg_size seq : ℕ)
    → length bytes ≤ fuel
    → 0 < seg_size
    → seg_size + hdr_size < u16_mod
    → seq < u32_mod
    → Cut bytes seq (segments fuel bytes seg_size seq)
unfolding segments
segments-Cut zero [] seg_size seq hl h0 h16 hs = record {
  same = refl;
  total = refl;
  whole = tt;
  chain = omega arith;
}
segments-Cut zero (x ∷ xs) seg_size seq hl h0 h16 hs = absurd (omega arith)
segments-Cut (suc fuel) [] seg_size seq hl h0 h16 hs = record {
  same = refl;
  total = refl;
  whole = tt;
  chain = omega arith;
}
segments-Cut (suc fuel) (x ∷ xs) seg_size seq hl h0 h16 hs =
    let n = min (length (x ∷ xs)) seg_size in
    Cut-cons (x ∷ xs) n seq _ (omega arith) (omega arith) hs (
      segments-Cut fuel (drop n (x ∷ xs)) seg_size (add32 seq n)
        (omega (arith, length-drop n (x ∷ xs))) h0 h16 (omega arith))

-- The code's test, on the room that is left, against the sum.
refusal :
    (hiwat cc n seg_size : ℕ)
    → cc ≤ hiwat
    → hiwat < u32_mod
    → (ltb (sub32 hiwat cc) n || n == 0 || seg_size == 0)
      ≡ not (ltb 0 n && leb (n + cc) hiwat && ltb 0 seg_size)
refusal hiwat cc n seg_size h h32 = ground arith

Keeps : Buf → Buf → Type 0
Keeps b b' = IsValid b' × ((start : ℕ) → Chain start b.pkts b.seq → Chain start b'.pkts b'.seq)

taken-Keeps :
    (bytes : List ℕ) (seg_size : ℕ) (b : Buf)
    → seg_size + hdr_size < u16_mod
    → 0 < seg_size
    → length bytes + length (contents b) ≤ b.hiwat
    → IsValid b
    → let ps = segments (length bytes) bytes seg_size b.seq in
      let b' : Buf = record b {
        cc = add32 b.cc (length bytes);
        pkts = b.pkts ++ ps;
        seq = add32 b.seq (length bytes);
      } in
      (contents b' ≡ contents b ++ bytes) × Keeps b b'
unfolding Keeps
taken-Keeps bytes seg_size b h h0 room v =
    let ps = segments (length bytes) bytes seg_size b.seq in
    let c = segments-Cut (length bytes) bytes seg_size b.seq (omega arith) h0 h v.seq32 in
    let all = length-stream b.pkts v.whole in
    (
      stream-append b.pkts ps ∙ ap (◌++◌ (contents b)) c.same,
      (
        record {
          counted = omega (arith, all, v.counted, v.hiwat32, c.total, total_len-append b.pkts ps);
          within = omega (arith, all, v.counted, v.hiwat32);
          hiwat32 = v.hiwat32;
          seq32 = omega arith;
          whole = All-append IsWhole b.pkts ps v.whole c.whole;
        },
        λ start q. Chain-append start b.seq _ b.pkts ps q c.chain,
      ),
    )

-- When `append` takes bytes in, and what it then does to a buffer that is valid.
pub append-Keeps :
    (bytes : List ℕ) (seg_size : ℕ) (b : Buf)
    → seg_size + hdr_size < u16_mod
    → IsValid b
    → let (b', taken) = append bytes seg_size b in
      (taken ≡ (
        ltb 0 (length bytes) && leb (length bytes + length (contents b)) b.hiwat && ltb 0 seg_size))
      × (contents b' ≡ (if taken then contents b ++ bytes else contents b))
      × IsValid b'
      × ((start : ℕ) → Chain start b.pkts b.seq → Chain start b'.pkts b'.seq)
unfolding append Keeps
append-Keeps bytes seg_size b h v = elim (Bool-cases fits) [
  | inl e ↦
      let (same, (valid, chain)) = taken-Keeps bytes seg_size b h (ground arith) (ground arith) v in
      rw (test, e) (refl, same, valid, chain)
  | inr e ↦ rw (test, e) (refl, refl, v, λ start q. q)
]
  where
    fits : Bool
    fits =
        ltb 0 (length bytes) && leb (length bytes + length (contents b)) b.hiwat && ltb 0 seg_size

    cc_eq : b.cc ≡ length (contents b)
    cc_eq = omega (arith, v.counted, length-stream b.pkts v.whole)

    test : (ltb (acc b) (length bytes) || length bytes == 0 || seg_size == 0) ≡ not fits
    test = rw cc_eq (
        refusal b.hiwat (length (contents b)) (length bytes) seg_size
          (omega (arith, cc_eq, v.within)) v.hiwat32)

-- `append` is the queue's way in. On a buffer without gaps it takes all of the bytes in, in
-- packets of `seg_size` at most (which leaves a packet with its header below 2 ^ 16 bytes), exactly
-- when there are some, they fit under `hiwat` and `seg_size` is not 0; otherwise the contents stay.
-- The buffer still has no gaps, up to the new `m_seq`.
pub append-Puts :
    (start : ℕ) (bytes : List ℕ) (seg_size : ℕ) (b : Buf)
    → seg_size + hdr_size < u16_mod
    → IsQueue start b.seq b
    → let (b', taken) = append bytes seg_size b in
      (taken ≡ (
        ltb 0 (length bytes) && leb (length bytes + length (contents b)) b.hiwat && ltb 0 seg_size))
      × (contents b' ≡ (if taken then contents b ++ bytes else contents b))
      × IsQueue start b'.seq b'
append-Puts start bytes seg_size b h q =
    let (t, c, v, chain) = append-Keeps bytes seg_size b h q.valid in
    (t, c, record { valid = v; start32 = q.start32; chain = chain start q.chain })
