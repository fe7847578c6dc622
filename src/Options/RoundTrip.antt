-- ===== src/Options/RoundTrip.antt =====
-- The options that one side composes are what the other side reads: `compose_options` of
-- udt/udt_cb_output.cpp against `handle_options` of udt/udt_cb_input.cpp.
use udt_boost.Base.{
  ℕ, zero, suc, ◌+◌, ◌-◌, ◌*◌, ◌≡◌, ◌≤◌, ◌<◌, refl, sym, ap, ◌∙◌, true, false, take, not, ◌&&◌,
  if◌then◌else◌, List, [], ◌∷◌, ◌++◌, arith, All, u32_mod, Bool-cases, if_ind, inl, inr, reverse,
  reverse_aux, length, drop, length-drop, drop-append_le, ◌||◌, leb, ltb, ◌==◌,
}
use udt_boost.Packet.{Packet}
use udt_boost.Buf.Accounting.{IsWhole}
use udt_boost.Sock.{Sock}
use udt_boost.Options.{
  be32, read_be32, pair_bytes, sack_option, sack_blocks, blocks, compose_cwnd_option,
  compose_sack_option, compose_options, opt_size, pair_size, cwnd_size, max_pair_seqs, end_seq,
  opt_sack, opt_cwnd,
}
use udt_boost.Options.Handle.{
  read_pairs, sack_size, handle_options, handle_option_sack, handle_option_cwnd,
}

read-be32 : (x : ℕ) (rest : List ℕ) → x < u32_mod → read_be32 (be32 x ++ rest) ≡ x
read-be32 x rest h = omega arith

-- Both numbers of a block have 32 bits.
abbrev FitPair : ℕ × ℕ → Type 0
FitPair pr = (pr.0 < u32_mod) × (pr.1 < u32_mod)

read_pairs-bytes :
    (prs : List (ℕ × ℕ)) (after : List ℕ)
    → All FitPair prs
    → read_pairs (length prs) (pair_bytes prs ++ after) ≡ prs
unfolding read_pairs
read_pairs-bytes [] after h = refl
read_pairs-bytes ((first, second) ∷ prs) after (h, hs) = cc (
  read-be32 first [] h.0,
  read-be32 second (pair_bytes prs ++ after) h.1,
  read_pairs-bytes prs after hs,
)

length-pair_bytes : (prs : List (ℕ × ℕ)) → length (pair_bytes prs) ≡ 8 * length prs
length-pair_bytes [] = refl
length-pair_bytes ((first, second) ∷ prs) = omega (arith, length-pair_bytes prs)

nil_of_length : (xs : List ℕ) → length xs ≡ 0 → xs ≡ []
nil_of_length [] e = refl
nil_of_length (x ∷ xs) e = absurd (omega (arith, e))

drop-pair_bytes :
    (prs : List (ℕ × ℕ)) (after : List ℕ) → drop (8 * length prs) (pair_bytes prs ++ after) ≡ after
drop-pair_bytes prs after =
    let e =
      nil_of_length (drop (8 * length prs) (pair_bytes prs))
        (omega (arith, length-drop (8 * length prs) (pair_bytes prs), length-pair_bytes prs)) in
    drop-append_le (8 * length prs) (pair_bytes prs) after (omega (arith, length-pair_bytes prs))
    ∙ ap (λ xs. xs ++ after) e

sack_blocks_fit :
    (ps : List Packet) (first second remain i : ℕ)
    → first < u32_mod
    → second < u32_mod
    → All IsWhole ps
    → All FitPair (sack_blocks ps first second remain i)
unfolding sack_blocks
sack_blocks_fit [] first second remain i h1 h2 w =
    if_ind (All FitPair) (leb pair_size remain && ltb i max_pair_seqs) ((h1, h2), tt) tt
sack_blocks_fit (p ∷ ps) first second remain i h1 h2 w =
    let gap = not (first == end_seq p) in
    let rest =
      sack_blocks_fit ps p.hdr.seq (if gap then end_seq p else second)
        (if gap then remain - pair_size else remain) (if gap then i + 1 else i) w.0.seq32
        (ground arith) w.1 in
    if_ind (All FitPair) (leb pair_size remain && ltb i max_pair_seqs)
      (if_ind (All FitPair) gap ((h1, h2), rest) rest) tt

sack_blocks-le :
    (ps : List Packet) (first second remain i : ℕ)
    → i ≤ max_pair_seqs
    → length (sack_blocks ps first second remain i) + i ≤ max_pair_seqs
unfolding sack_blocks
sack_blocks-le [] first second remain i h = ground arith
sack_blocks-le (p ∷ ps) first second remain i h =
    let gap = not (first == end_seq p) in
    let rest =
      sack_blocks ps p.hdr.seq (if gap then end_seq p else second)
        (if gap then remain - pair_size else remain) (if gap then i + 1 else i) in
    elim (Bool-cases (ltb i max_pair_seqs)) [
      | inl e ↦
          let le =
            sack_blocks-le ps p.hdr.seq (if gap then end_seq p else second)
              (if gap then remain - pair_size else remain) (if gap then i + 1 else i)
              (ground arith) in
          ground (arith, le)
      | inr e ↦ ground arith
    ]

blocks_fit : (ps : List Packet) (remain : ℕ) → All IsWhole ps → All FitPair (blocks ps remain)
blocks_fit [] remain w = tt
blocks_fit (p ∷ ps) remain w =
    if_ind (All FitPair) (ltb remain (opt_size + pair_size)) tt
      (sack_blocks_fit ps p.hdr.seq (end_seq p) (remain - opt_size) 0 w.0.seq32 (omega arith) w.1)

blocks-le : (ps : List Packet) (remain : ℕ) → length (blocks ps remain) ≤ max_pair_seqs
blocks-le [] remain = omega arith
blocks-le (p ∷ ps) remain =
    ground (arith, sack_blocks-le ps p.hdr.seq (end_seq p) (remain - opt_size) 0)

sack_size-of : (n : ℕ) → n ≤ max_pair_seqs → sack_size (opt_size + pair_size * n) ≡ n
sack_size-of n h = omega arith

drop-two : (n a b : ℕ) (xs : List ℕ) → drop (2 + n) (a ∷ b ∷ xs) ≡ drop n xs
drop-two n a b xs = let e : 2 + n ≡ suc (suc n) = omega arith in ap (λ k. drop k (a ∷ b ∷ xs)) e

-- One round of the loop at a SACK option with `k` blocks.
sack_round :
    (fuel l k m : ℕ) (rest : List ℕ) (s : Sock)
    → sack_size l ≡ k
    → k ≤ max_pair_seqs
    → pair_size * k ≤ m
    → handle_options (suc fuel) (opt_sack ∷ l ∷ rest) (suc (suc m)) s
      ≡ handle_options fuel
          (drop (pair_size * k) rest)
          (m - pair_size * k)
          (handle_option_sack (read_pairs k rest) s)
unfolding handle_options
sack_round fuel l k m rest s e h room =
    let left : suc (suc m) - (opt_size + pair_size * k) ≡ m - pair_size * k = omega arith in
    let long : ltb (suc (suc m)) opt_size ≡ false = ground arith in
    let sound : (ltb max_pair_seqs k || ltb (suc (suc m)) (opt_size + pair_size * k)) ≡ false =
      ground arith in
    rw (e, drop-two (pair_size * k) opt_sack l rest, left, long, sound) refl

read_nothing : (fuel : ℕ) (after : List ℕ) (s : Sock) → handle_options (suc fuel) after 0 s ≡ s
unfolding handle_options
read_nothing fuel after s = refl

-- A SACK option is read back, and what follows the options is not touched.
handle-sack_option :
    (fuel : ℕ) (prs : List (ℕ × ℕ)) (after : List ℕ) (s : Sock)
    → length prs ≤ max_pair_seqs
    → All FitPair prs
    → handle_options (suc (suc fuel)) (sack_option prs ++ after) (length (sack_option prs)) s
      ≡ handle_option_sack prs s
unfolding handle_option_sack
handle-sack_option fuel [] after s h f = read_nothing (suc fuel) after s
handle-sack_option fuel (pr ∷ prs) after s h f =
    let n = length (pr ∷ prs) in
    let m = length (pair_bytes (pr ∷ prs)) in
    let rest = pair_bytes (pr ∷ prs) ++ after in
    let used : m - pair_size * n ≡ 0 = omega (arith, length-pair_bytes (pr ∷ prs)) in
    sack_round (suc fuel) (opt_size + pair_size * n) n m rest s (sack_size-of n h) h
      (omega (arith, length-pair_bytes (pr ∷ prs)))
    ∙ rw (used, drop-pair_bytes (pr ∷ prs) after, read_pairs-bytes (pr ∷ prs) after f)
        (read_nothing fuel after _)

All-reverse_aux :
    (P : Packet → Type 0) (ps qs : List Packet) → All P ps → All P qs → All P (reverse_aux ps qs)
All-reverse_aux P [] qs h k = k
All-reverse_aux P (p ∷ ps) qs h k = All-reverse_aux P ps (p ∷ qs) h.1 (h.0, k)

-- One round of the loop at a window option.
cwnd_round :
    (fuel cwnd m : ℕ) (rest : List ℕ) (s : Sock)
    → cwnd < u32_mod
    → handle_options
        (suc fuel)
        ((opt_cwnd ∷ cwnd_size ∷ be32 cwnd) ++ rest)
        (suc (suc (suc (suc (suc (suc m))))))
        s
      ≡ handle_options fuel rest m (handle_option_cwnd cwnd s)
unfolding handle_options
cwnd_round fuel cwnd m rest s h =
    let n = suc (suc (suc (suc (suc (suc m))))) in
    let long : ltb n opt_size ≡ false = ground arith in
    let sound : ltb n cwnd_size ≡ false = ground arith in
    let left : n - cwnd_size ≡ m = omega arith in
    rw (long, sound, left)
      (ap (λ c. handle_options fuel rest m (handle_option_cwnd c s)) (read-be32 cwnd rest h))

length-sack_option :
    (prs : List (ℕ × ℕ)) → length (sack_option prs) ≤ opt_size + pair_size * length prs
length-sack_option [] = omega arith
length-sack_option (pr ∷ prs) = omega (arith, length-pair_bytes (pr ∷ prs))

-- The room for options behind the header.
abbrev room : ℕ
room = 40

-- The packets that wait, from the last one back, as the runs of bytes without a gap that they make: a
-- packet that begins where a run ends makes it longer.
abbrev pub extend : ℕ × ℕ → List (ℕ × ℕ) → List (ℕ × ℕ)
extend (first, second) [] = (first, second) ∷ []
extend (first, second) ((begin_seq, end) ∷ rest) =
    if first == end then (begin_seq, second) ∷ rest else (first, second) ∷ (begin_seq, end) ∷ rest

abbrev pub runs : List Packet → List (ℕ × ℕ)
runs [] = []
runs (p ∷ ps) = extend (p.hdr.seq, end_seq p) (runs ps)

-- A run in front of one that a packet has been put to.
extend-extend :
    (a b x y : ℕ) (rs : List (ℕ × ℕ))
    → extend (a, b) (extend (x, y) rs)
      ≡ (if a == y then extend (x, b) rs else (a, b) ∷ extend (x, y) rs)
extend-extend a b x y [] = refl
extend-extend a b x y ((f, s) ∷ rest) = ground arith

take-nil : (n : ℕ) → take {A = ℕ × ℕ} n [] ≡ []
take-nil zero = refl
take-nil (suc n) = refl

-- The loop writes the runs, as many as are left to write.
sack_blocks-runs :
    (ps : List Packet) (first second remain i left : ℕ)
    → i + left ≡ max_pair_seqs
    → pair_size * left ≤ remain
    → sack_blocks ps first second remain i ≡ take left (extend (first, second) (runs ps))
unfolding sack_blocks
sack_blocks-runs [] first second remain i zero h room = ground arith
sack_blocks-runs (p ∷ ps) first second remain i zero h room = ground arith
sack_blocks-runs [] first second remain i (suc left) h room =
    rw (let fits : (leb pair_size remain && ltb i max_pair_seqs) ≡ true = ground arith in fits)
      (ap (λ rest. (first, second) ∷ rest) (sym (take-nil left)))
sack_blocks-runs (p ∷ ps) first second remain i (suc left) h room =
    let fits : (leb pair_size remain && ltb i max_pair_seqs) ≡ true = ground arith in
    let joined = extend-extend first second p.hdr.seq (end_seq p) (runs ps) in
    elim (Bool-cases (first == end_seq p)) [
      | inl e ↦
          let longer = sack_blocks-runs ps p.hdr.seq second remain i (suc left) h room in
          rw (fits, joined, e) longer
      | inr e ↦
          let next =
            sack_blocks-runs ps p.hdr.seq (end_seq p) (remain - pair_size) (i + 1) left
              (omega arith) (omega arith) in
          rw (fits, joined, e) (ap (λ rest. (first, second) ∷ rest) next)
    ]

-- The blocks are the newest three runs.
blocks-runs : (ps : List Packet) → blocks ps (room - cwnd_size) ≡ take max_pair_seqs (runs ps)
blocks-runs [] = refl
blocks-runs (p ∷ ps) =
    sack_blocks-runs ps p.hdr.seq (end_seq p) (room - cwnd_size - opt_size) 0 max_pair_seqs refl
      (omega arith)

-- The options of a segment say at the peer what they were composed from: it notes the congestion
-- window, and takes as SACK blocks the runs without a gap that the packets that wait make, the three
-- newest ones, newest first. They fit in the 40 bytes behind the header, and the data that follows them
-- is not touched. The window has 32 bits,
-- and the waiting packets' numbers too.
pub handle_options-compose_options :
    (cwnd : ℕ) (reasm_pkts : List Packet) (after : List ℕ) (s : Sock)
    → cwnd < u32_mod
    → All IsWhole reasm_pkts
    → let bytes = compose_options cwnd reasm_pkts room in
      (length bytes ≤ room)
      × (handle_options (length bytes) (bytes ++ after) (length bytes) s
          ≡ handle_option_sack
              (take max_pair_seqs (runs (reverse reasm_pkts)))
              (handle_option_cwnd cwnd s))
unfolding compose_options compose_cwnd_option compose_sack_option
handle_options-compose_options cwnd reasm_pkts after s h w =
    let prs = blocks (reverse reasm_pkts) (room - cwnd_size) in
    let m = length (sack_option prs) in
    let few = blocks-le (reverse reasm_pkts) (room - cwnd_size) in
    let fit =
      blocks_fit (reverse reasm_pkts) (room - cwnd_size)
        (All-reverse_aux IsWhole reasm_pkts [] w tt) in
    (
      omega (arith, length-sack_option prs, few),
      cwnd_round (suc (suc (suc (suc (suc m))))) cwnd m (sack_option prs ++ after) s h
          ∙ handle-sack_option (suc (suc (suc m))) prs after (handle_option_cwnd cwnd s) few fit
          ∙ ap (λ x. handle_option_sack x (handle_option_cwnd cwnd s))
              (blocks-runs (reverse reasm_pkts)),
    )
