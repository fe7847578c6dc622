-- ===== src/Options/Fuel.antt =====
-- The loop of `handle_options`, udt/udt_cb_input.cpp, ends: each round takes two bytes at least.
use udt_boost.Base.{
  ℕ, zero, suc, ◌+◌, ◌-◌, ◌*◌, ◌≡◌, ◌≢◌, ◌≤◌, ◌<◌, ◌⊎◌, ◌==◌, ◌||◌, Bool-cases, inl, inr, refl,
  true, List, arith, ltb, get_or, drop,
}
use udt_boost.Sock.{Sock}
use udt_boost.Options.{
  opt_size, pair_size, cwnd_size, max_pair_seqs, opt_sack, opt_cwnd, opt_nop, read_be32,
}
use udt_boost.Options.Handle.{
  handle_options, handle_option_sack, handle_option_cwnd, sack_size, read_pairs,
}

-- The runs of the loop that come to its end, with the state at first and the state after it: the rounds
-- of the code one after the other, and no bound on their number.
pub data Ends : List ℕ → ℕ → Sock → Sock → Type 0 where
  too_short : {bytes : List ℕ} {n : ℕ} {s : Sock} → ltb n opt_size ≡ true → Ends bytes n s s
  sack :
      {bytes : List ℕ} {n : ℕ} {s s' : Sock} (size : ℕ)
      → sack_size (get_or bytes 1 0) ≡ size
      → get_or bytes 0 0 ≡ opt_sack
      → opt_size + pair_size * size ≤ n
      → size ≤ max_pair_seqs
      → Ends
          (drop (opt_size + pair_size * size) bytes)
          (n - (opt_size + pair_size * size))
          (handle_option_sack (read_pairs size (drop opt_size bytes)) s)
          s'
      → Ends bytes n s s'
  cwnd :
      {bytes : List ℕ} {n : ℕ} {s s' : Sock}
      → get_or bytes 0 0 ≡ opt_cwnd
      → cwnd_size ≤ n
      → Ends
          (drop cwnd_size bytes)
          (n - cwnd_size)
          (handle_option_cwnd (read_be32 (drop opt_size bytes)) s)
          s'
      → Ends bytes n s s'
  nop :
      {bytes : List ℕ} {n : ℕ} {s s' : Sock}
      → get_or bytes 0 0 ≡ opt_nop
      → opt_size ≤ n
      → Ends (drop opt_size bytes) (n - opt_size) s s'
      → Ends bytes n s s'
  unknown :
      {bytes : List ℕ} {n : ℕ} {s : Sock}
      → opt_size ≤ n
      → get_or bytes 0 0 ≢ opt_sack
      → get_or bytes 0 0 ≢ opt_cwnd
      → get_or bytes 0 0 ≢ opt_nop
      → Ends bytes n s s
  sack_outside :
      {bytes : List ℕ} {n : ℕ} {s : Sock} (size : ℕ)
      → sack_size (get_or bytes 1 0) ≡ size
      → get_or bytes 0 0 ≡ opt_sack
      → opt_size ≤ n
      → (max_pair_seqs < size) ⊎ (n < opt_size + pair_size * size)
      → Ends bytes n s (record s { fault = true })
  cwnd_outside :
      {bytes : List ℕ} {n : ℕ} {s : Sock}
      → get_or bytes 0 0 ≡ opt_cwnd
      → opt_size ≤ n
      → n < cwnd_size
      → Ends bytes n s (record s { fault = true })

-- `handle_options` ends: whatever the bytes are, the rounds of the loop come to an end within as many
-- as there are bytes, and the result with so much fuel is the state at that end: none of the runs is
-- cut off by the fuel. An option that reaches outside what was received ends the loop with a fault.
pub handle_options-Ends :
    (fuel : ℕ) (bytes : List ℕ) (n : ℕ) (s : Sock)
    → n ≤ fuel
    → Ends bytes n s (handle_options fuel bytes n s)
unfolding handle_options
handle_options-Ends zero bytes n s h = too_short (ground arith)
handle_options-Ends (suc fuel) bytes n s h =
    let kind = get_or bytes 0 0 in
    let size = sack_size (get_or bytes 1 0) in
    let used = opt_size + pair_size * size in
    let sacked = handle_option_sack (read_pairs size (drop opt_size bytes)) s in
    let opened = handle_option_cwnd (read_be32 (drop opt_size bytes)) s in
    elim (Bool-cases (ltb n opt_size)) [
      | inl e ↦ rw e (too_short e)
      | inr e ↦ elim (Bool-cases (kind == opt_sack)) [
        | inl k ↦ elim (Bool-cases (ltb max_pair_seqs size || ltb n used)) [
          | inl f ↦
              rw (e, k, f)
                (sack_outside size refl (ground (arith, k)) (ground (arith, e)) (ground (arith, f)))
          | inr f ↦
              rw (e, k, f)
                (sack size refl (ground (arith, k)) (ground (arith, f)) (ground (arith, f))
                  (handle_options-Ends fuel (drop used bytes) (n - used) sacked (omega arith)))
        ]
        | inr k ↦ elim (Bool-cases (kind == opt_cwnd)) [
          | inl c ↦ elim (Bool-cases (ltb n cwnd_size)) [
            | inl f ↦
                rw (e, k, c, f)
                  (cwnd_outside (ground (arith, c)) (ground (arith, e)) (ground (arith, f)))
            | inr f ↦
                rw (e, k, c, f)
                  (cwnd (ground (arith, c)) (ground (arith, f)) (
                    handle_options-Ends fuel (drop cwnd_size bytes) (n - cwnd_size) opened
                      (omega arith)))
          ]
          | inr c ↦ elim (Bool-cases (kind == opt_nop)) [
            | inl o ↦
                rw (e, k, c, o)
                  (nop (ground (arith, o)) (ground (arith, e))
                    (handle_options-Ends fuel (drop opt_size bytes) (n - opt_size) s (omega arith)))
            | inr o ↦
                rw (e, k, c, o)
                  (unknown (ground (arith, e)) (λ x. absurd (ground (arith, k, x)))
                    (λ x. absurd (ground (arith, c, x))) (λ x. absurd (ground (arith, o, x))))
          ]
        ]
      ]
    ]
