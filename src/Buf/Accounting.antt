-- ===== src/Buf/Accounting.antt =====
-- The count `m_cc` of udt/udt_buf.cpp is the sum of the packets' lengths.
use udt_boost.Base.{
  ℕ, zero, suc, ◌+◌, ◌-◌, ◌≤◌, ◌<◌, ◌≡◌, refl, sym, ap, ◌∙◌, Bool, List, [], ◌∷◌, ◌++◌, arith,
  length, take, drop, ◌&&◌, ltb, if◌then◌else◌, lt→ltb, append-nil, length-drop, u16_mod, u32_mod,
  add32, All, All-append, min, true, false,
}
use native.Mathlib.Nat.{suc-add}
use Prim.Native.Nat.add
use udt_boost.Packet.{Packet, hdr_size, data_ptr, data_ptr-body}
use udt_boost.Buf.{Buf, copy_loop, append_pkt, advance, continues}

-- `check_buffer_size` adds these up.
abbrev pub total_len : List Packet → ℕ
total_len [] = 0
total_len (p ∷ ps) = p.hdr.len + total_len ps

pub total_len-append : (ps qs : List Packet) → total_len (ps ++ qs) ≡ total_len ps + total_len qs
total_len-append [] qs = omega arith
total_len-append (p ∷ ps) qs = omega (arith, total_len-append ps qs)

-- The data of a packet lies in its memory, behind its header, and its fields have their widths.
pub record IsWhole (p : Packet) : Type 0 where
  pub off_min : hdr_size ≤ p.hdr.off
  pub off16 : p.hdr.off + p.hdr.len < u16_mod
  pub has_data : length (data_ptr p) ≡ p.hdr.len
  pub seq32 : p.hdr.seq < u32_mod

-- What holds of a buffer between calls.
pub record IsValid (b : Buf) : Type 0 where
  pub counted : b.cc ≡ total_len b.pkts
  pub within : b.cc ≤ b.hiwat
  pub hiwat32 : b.hiwat < u32_mod
  pub seq32 : b.seq < u32_mod
  pub whole : All IsWhole b.pkts

-- A packet that is taken in is counted, and only if it fits: `append` of a packet whose data lies in
-- its memory keeps a buffer valid.
pub append_pkt-IsValid : (p : Packet) (b : Buf) → IsWhole p → IsValid b → IsValid (append_pkt p b).0
unfolding append_pkt
append_pkt-IsValid p b w v =
    ground
      (arith, total_len-append b.pkts (p ∷ []), All-append IsWhole b.pkts (p ∷ []) v.whole (w, tt))

drop-nil : (n : ℕ) → drop {A = ℕ} n [] ≡ []
drop-nil zero = refl
drop-nil (suc n) = refl

pub drop-drop : (n k : ℕ) (xs : List ℕ) → drop (n + k) xs ≡ drop k (drop n xs)
drop-drop zero k xs = ap (λ m. drop m xs) (add.zero k)
drop-drop (suc n) k [] = drop-nil (suc n + k) ∙ sym (drop-nil k)
drop-drop (suc n) k (x ∷ xs) = rw suc-add (drop-drop n k xs)

-- Past the first bytes of its data, a packet has the rest of them.
pub data_ptr-advance :
    (p : Packet) (n : ℕ) → n ≤ p.hdr.len → IsWhole p → data_ptr (advance p n) ≡ drop n (data_ptr p)
data_ptr-advance p n h w =
    rw (data_ptr-body (advance p n) (omega arith), data_ptr-body p w.off_min)
      (ap (λ k. drop k p.body) (omega (arith, w.off_min, w.off16))
        ∙ drop-drop (p.hdr.off - hdr_size) n p.body)

pub advance-IsWhole : (p : Packet) (n : ℕ) → n ≤ p.hdr.len → IsWhole p → IsWhole (advance p n)
advance-IsWhole p n h w = record {
  off_min = omega (arith, w.off_min, w.off16);
  off16 = omega (arith, w.off_min, w.off16);
  has_data = rw (data_ptr-advance p n h w, length-drop n (data_ptr p)) (omega (arith, w.has_data));
  seq32 = omega arith;
}

take_all : {n : ℕ} (xs : List ℕ) → length xs ≡ n → take n xs ≡ xs
take_all [] h = rw (← h)
take_all (x ∷ xs) h = rw (← h) (ap (◌∷◌ x) (take_all xs refl))

pub and_false : (b : Bool) → (b && false) ≡ false
and_false true = refl
and_false false = refl

-- The two rounds of the loop of `copy`: the last one, into a packet, and one over a whole packet.
pub copy_loop_part :
    (p : Packet) (ps : List Packet) (seq n : ℕ) (erase : Bool)
    → n < p.hdr.len
    → copy_loop (p ∷ ps) seq n erase ≡ (advance p n ∷ ps, take n (data_ptr p))
unfolding copy_loop
copy_loop_part p ps seq n erase h =
    let m : min p.hdr.len n ≡ n = omega arith in
    let z : ltb 0 (n - n) ≡ false = ground arith in rw (lt→ltb _ _ h, m, z, and_false, append-nil)

abbrev pub go_on : List Packet → ℕ → ℕ → List Packet × List ℕ
go_on ps seq n = if continues seq ps && ltb 0 n then copy_loop ps seq n true else (ps, [])

pub copy_loop_whole :
    (p : Packet) (ps : List Packet) (seq n : ℕ)
    → IsWhole p
    → p.hdr.len ≤ n
    → let r = go_on ps (add32 seq p.hdr.len) (n - p.hdr.len) in
      copy_loop (p ∷ ps) seq n true ≡ (r.0, data_ptr p ++ r.1)
unfolding copy_loop
copy_loop_whole p ps seq n w h = ground (arith, take_all (data_ptr p) w.has_data)
