-- ===== src/Buf/Stream.antt =====
-- The buffer of udt/udt_buf.cpp as a queue of bytes: `append` puts bytes in at the end, and `copy`
-- takes them out at the front.
use udt_boost.Base.{
  ℕ, zero, suc, ◌-◌, ◌≤◌, ◌<◌, ◌≡◌, refl, sym, ap, ◌∙◌, List, [], ◌∷◌, ◌++◌, arith, length, take,
  drop, ltb, inl, inr, Bool-cases, lt→ltb, ==_iff, subst, append_assoc, ltb→lt, length-take,
  length-append, take-append-drop, u32_mod, add32, All, min, true,
}
use udt_boost.Packet.{Packet, data_ptr}
use udt_boost.Buf.{copy_loop, advance}
use udt_boost.Buf.Accounting.{
  IsWhole, total_len, and_false, copy_loop_part, copy_loop_whole, go_on, data_ptr-advance,
  advance-IsWhole,
}

-- All the bytes that the packets hold, in order.
abbrev pub stream : List Packet → List ℕ
stream [] = []
stream (p ∷ ps) = data_ptr p ++ stream ps

pub stream-append : (ps qs : List Packet) → stream (ps ++ qs) ≡ stream ps ++ stream qs
stream-append [] qs = refl
stream-append (p ∷ ps) qs =
    rw (stream-append ps qs) (sym (append_assoc (data_ptr p) (stream ps) (stream qs)))

pub length-stream : (ps : List Packet) → All IsWhole ps → length (stream ps) ≡ total_len ps
length-stream [] w = refl
length-stream (p ∷ ps) w =
    omega (arith, length-append (data_ptr p) (stream ps), length-stream ps w.1, w.0.has_data)

-- Each packet begins where the one before it ends; the last one ends at `stop`.
abbrev pub Chain : ℕ → List Packet → ℕ → Type 0
Chain seq [] stop = seq ≡ stop
Chain seq (p ∷ ps) stop = (p.hdr.seq ≡ seq) × Chain (add32 seq p.hdr.len) ps stop

pub Chain-append :
    (a b c : ℕ) (ps qs : List Packet) → Chain a ps b → Chain b qs c → Chain a (ps ++ qs) c
Chain-append a b c [] qs h k = rw h k
Chain-append a b c (p ∷ ps) qs h k = (h.0, Chain-append (add32 a p.hdr.len) b c ps qs h.1 k)

-- What `copy` makes of packets that lie from `seq` to `stop`, for a request of `n` bytes.
pub record Copied (seq stop : ℕ) (ps : List Packet) (n : ℕ) (r : List Packet × List ℕ)
    : Type 0 where
  pub split : r.1 ++ stream r.0 ≡ stream ps
  pub size : length r.1 ≡ min n (total_len ps)
  pub whole : All IsWhole r.0
  pub chain : Chain (add32 seq (length r.1)) r.0 stop

Copied-part :
    (seq stop : ℕ) (p : Packet) (ps : List Packet) (n : ℕ)
    → n < p.hdr.len
    → All IsWhole (p ∷ ps)
    → Chain seq (p ∷ ps) stop
    → Copied seq stop (p ∷ ps) n (advance p n ∷ ps, take n (data_ptr p))
Copied-part seq stop p ps n h w c = record {
  split = rw (data_ptr-advance p n (omega arith) w.0) (
      sym (append_assoc _ (drop n (data_ptr p)) (stream ps))
      ∙ ap (λ d. d ++ stream ps) (take-append-drop n (data_ptr p)));
  size = taken ∙ omega arith;
  whole = (advance-IsWhole p n (omega arith) w.0, w.1);
  chain = rw taken (
    ap (λ s. add32 s n) c.0,
    subst (λ s. Chain s ps stop) {x = add32 seq p.hdr.len} (omega arith) c.1,
  );
}
  where
    taken : length (take n (data_ptr p)) ≡ n
    taken = omega (arith, length-take n (data_ptr p), w.0.has_data)

Copied-whole :
    (seq stop : ℕ) (p : Packet) (ps : List Packet) (n : ℕ) (r : List Packet × List ℕ)
    → p.hdr.len ≤ n
    → IsWhole p
    → Copied (add32 seq p.hdr.len) stop ps (n - p.hdr.len) r
    → Copied seq stop (p ∷ ps) n (r.0, data_ptr p ++ r.1)
Copied-whole seq stop p ps n r h w c = record {
  split = append_assoc (data_ptr p) r.1 (stream r.0) ∙ ap (◌++◌ (data_ptr p)) c.split;
  size = omega (arith, length-append (data_ptr p) r.1, w.has_data, c.size);
  whole = c.whole;
  chain =
      subst (λ s. Chain s r.0 stop) {x = add32 (add32 seq p.hdr.len) (length r.1)}
        (omega (arith, length-append (data_ptr p) r.1, w.has_data)) c.chain;
}

Copied-none :
    (seq stop : ℕ) (ps : List Packet)
    → seq < u32_mod
    → All IsWhole ps
    → Chain seq ps stop
    → Copied seq stop ps 0 (ps, [])
Copied-none seq stop ps h w c = record {
  split = refl;
  size = omega arith;
  whole = w;
  chain = subst (λ s. Chain s ps stop) {x = seq} (omega arith) c;
}

Copied-empty : (seq stop n : ℕ) → seq < u32_mod → Chain seq [] stop → Copied seq stop [] n ([], [])
Copied-empty seq stop n h c = record {
  split = refl;
  size = omega arith;
  whole = tt;
  chain = omega arith;
}

-- The loop goes on while packets follow without a gap and room is left.
go_on-Copied :
    (ps : List Packet) (seq stop n : ℕ)
    → ((m : ℕ) → Copied seq stop ps m (copy_loop ps seq m true))
    → seq < u32_mod
    → All IsWhole ps
    → Chain seq ps stop
    → Copied seq stop ps n (go_on ps seq n)
go_on-Copied [] seq stop n ih h w c = Copied-empty seq stop n h c
go_on-Copied (p ∷ ps) seq stop zero ih h w c = rw and_false (Copied-none seq stop (p ∷ ps) h w c)
go_on-Copied (p ∷ ps) seq stop (suc n) ih h w c =
    rw ((==_iff seq p.hdr.seq).1 (sym c.0), lt→ltb 0 (suc n) (omega arith)) (ih (suc n))

pub copy_loop-Copied :
    (ps : List Packet) (seq stop n : ℕ)
    → seq < u32_mod
    → All IsWhole ps
    → Chain seq ps stop
    → Copied seq stop ps n (copy_loop ps seq n true)
unfolding copy_loop
copy_loop-Copied [] seq stop n h w c = Copied-empty seq stop n h c
copy_loop-Copied (p ∷ ps) seq stop n h w c = elim (Bool-cases (ltb n p.hdr.len)) [
  | inl part ↦
      let lt = ltb→lt _ _ part in
      rw (copy_loop_part p ps seq n true lt) (Copied-part seq stop p ps n lt w c)
  | inr all ↦
      let le : p.hdr.len ≤ n = ground arith in
      let next = add32 seq p.hdr.len in
      let ih = λ (m : ℕ). copy_loop-Copied ps next stop m (omega arith) w.1 c.1 in
      rw (copy_loop_whole p ps seq n w.0 le) (
        Copied-whole seq stop p ps n (go_on ps next (n - p.hdr.len)) le w.0
          (go_on-Copied ps next stop (n - p.hdr.len) ih (omega arith) w.1 c.1))
]
