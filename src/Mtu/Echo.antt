-- ===== src/Mtu/Echo.antt =====
-- The echo that `prepare_data` of udt/udt_mtu.cpp makes: its size, and its checksum.
use udt_boost.Base.{
  ℕ, zero, suc, ◌+◌, ◌-◌, ◌*◌, ◌%◌, ◌≤◌, ◌≡◌, refl, ap, ◌⊎◌, inl, inr, true, false, if◌then◌else◌,
  ◌==◌, ltb, leb, List, [], ◌∷◌, length, length-drop, get_or, drop, arith, All, Bool-cases, ◌≢◌,
  sym, ◌&&◌,
}
use mathlib.Core.Bool.{true≢false}
use udt_boost.Mtu.{
  Prober, packet_maximums, iphdr_size_byte, icmp_size, resize, put_echo, chosen, prepare_data,
}

-- The sum of the 16-bit words, of which the checksum of RFC 792 makes a multiple of 65535.
unfoldable pub word_sum : List ℕ → ℕ
word_sum [] = 0
word_sum (a ∷ []) = a * 256
word_sum (a ∷ (b ∷ bytes)) = a * 256 + b + word_sum bytes

abbrev IsZero : ℕ → Type 0
IsZero b = b ≡ 0

-- The bytes that an echo leaves as they were are zero, as in a new buffer.
pub record IsClean (buf : List ℕ) : Type 0 where
  pub third : get_or buf 2 0 ≡ 0
  pub fourth : get_or buf 3 0 ≡ 0
  pub rest : All (λ b. b ≡ 0) (drop icmp_size buf)

length-resize : (n : ℕ) (buf : List ℕ) → length (resize n buf) ≡ n
unfolding resize
length-resize zero buf = refl
length-resize (suc n) [] = ap suc (length-resize n [])
length-resize (suc n) (b ∷ buf) = ap suc (length-resize n buf)

get_or-resize : (n i : ℕ) (buf : List ℕ) → get_or buf i 0 ≡ 0 → get_or (resize n buf) i 0 ≡ 0
unfolding resize
get_or-resize zero i buf h = refl
get_or-resize (suc n) zero [] h = refl
get_or-resize (suc n) (suc i) [] h = get_or-resize n i [] refl
get_or-resize (suc n) zero (b ∷ buf) h = h
get_or-resize (suc n) (suc i) (b ∷ buf) h = get_or-resize n i buf h

resize-All : (n : ℕ) (buf : List ℕ) → All IsZero buf → All IsZero (resize n buf)
unfolding resize
resize-All zero buf h = tt
resize-All (suc n) [] h = (refl, resize-All n [] tt)
resize-All (suc n) (b ∷ buf) h = (h.0, resize-All n buf h.1)

drop-resize-All :
    (k n : ℕ) (buf : List ℕ) → All IsZero (drop k buf) → All IsZero (drop k (resize n buf))
unfolding resize
drop-resize-All zero n buf h = resize-All n buf h
drop-resize-All (suc k) zero buf h = tt
drop-resize-All (suc k) (suc n) [] h = drop-resize-All k n [] (drop-nil k)
  where
    drop-nil : (j : ℕ) → All IsZero (drop j [])
    drop-nil zero = tt
    drop-nil (suc j) = tt
drop-resize-All (suc k) (suc n) (b ∷ buf) h = drop-resize-All k n buf h

word_sum-zero : (bytes : List ℕ) → All IsZero bytes → word_sum bytes ≡ 0
unfolding word_sum
word_sum-zero [] h = refl
word_sum-zero (a ∷ []) h = omega (arith, h.0)
word_sum-zero (a ∷ (b ∷ bytes)) h = omega (arith, h.0, h.1.0, word_sum-zero bytes h.1.1)

-- An echo in a buffer of `n` bytes.
pub record IsEcho (n : ℕ) (buf : List ℕ) : Type 0 where
  pub size : length buf ≡ n
  pub summed : word_sum buf ≡ 4516
  pub clean : IsClean buf

put_echo-IsEcho :
    (n : ℕ) (buf : List ℕ) → icmp_size ≤ n → IsClean buf → IsEcho n (put_echo (resize n buf))
unfolding put_echo word_sum
put_echo-IsEcho n buf le c =
    let r = resize n buf in
    let third = get_or-resize n 2 buf c.third in
    let fourth = get_or-resize n 3 buf c.fourth in
    let rest = drop-resize-All icmp_size n buf c.rest in
    record {
      size = omega (arith, length-drop icmp_size r, length-resize n buf);
      summed = omega (arith, third, fourth, word_sum-zero (drop icmp_size r) rest);
      clean = record { third = third; fourth = fourth; rest = rest };
    }

prepared :
    (p : Prober)
    → (prepare_data p).1 ≡ true
    → ((prepare_data p).0.mtu ≡ (chosen p).0)
      × ((prepare_data p).0.snd_buffer ≡ (
          if ltb (chosen p).0 (iphdr_size_byte + icmp_size)
          then resize ((chosen p).0 - iphdr_size_byte) p.snd_buffer
          else put_echo (resize ((chosen p).0 - iphdr_size_byte) p.snd_buffer)))
      × (((prepare_data p).0.fault ≡ true) ⊎ (iphdr_size_byte + icmp_size ≤ (chosen p).0))
unfolding prepare_data
prepared p h =
    let (mtu, idx) = chosen p in
    elim (Bool-cases (p.mtu_hint == 0 && leb (length packet_maximums) p.current_mtu_idx)) [
      | inl e ↦ absurd (true≢false (sym (rw (e, prepare_data) at h)))
      | inr e ↦ elim (Bool-cases (ltb mtu (iphdr_size_byte + icmp_size))) [
        | inl small ↦ rw (e, prepare_data) (refl, refl, inl (ground (arith, small)))
        | inr enough ↦ rw (e, prepare_data) (refl, refl, inr (ground (arith, enough)))
      ]
    ]

-- An echo that `prepare_data` makes has the size that it probes, less the IP header, and is never
-- valid: its checksum is left zero, and its 16-bit words add up to 4516, where a receiver wants a
-- multiple of 65535. The buffer is left clean for the next. If the size leaves no room for the
-- headers, the code writes outside the buffer or throws. This is so for a buffer that is new or in
-- which the echo before was made.
pub prepare_data-IsEcho :
    (p : Prober)
    → IsClean p.snd_buffer
    → (prepare_data p).1 ≡ true
    → ((prepare_data p).0.fault ≡ true)
      ⊎ (IsEcho ((prepare_data p).0.mtu - iphdr_size_byte) (prepare_data p).0.snd_buffer
          × (iphdr_size_byte + icmp_size ≤ (prepare_data p).0.mtu)
          × (word_sum (prepare_data p).0.snd_buffer % 65535 ≢ 0))
prepare_data-IsEcho p c h =
    let (size, buf, room) = prepared p h in
    let n = (chosen p).0 - iphdr_size_byte in
    elim room [
      | inl f ↦ inl f
      | inr le ↦
          let plain : ltb (chosen p).0 (iphdr_size_byte + icmp_size) ≡ false = ground (arith, le) in
          let made = put_echo-IsEcho n p.snd_buffer (omega (arith, le)) c in
          let echo : IsEcho n (prepare_data p).0.snd_buffer = rw (buf, plain) made in
          inr (rw size echo, rw size le, λ z. absurd (omega (arith, z, echo.summed)))
    ]
