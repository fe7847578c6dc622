-- ===== src/Text/Digits.antt =====
-- Printing a number and reading it back, and the searches in a text that is put together.
use udt_boost.Base.{
  ℕ, zero, suc, ◌+◌, ◌/◌, ◌%◌, ◌≤◌, ◌<◌, ◌≡◌, ◌≢◌, refl, ap, ◌∙◌, sym, Bool, true, false, not, ◌&&◌,
  ◌==◌, ltb, leb, List, [], ◌∷◌, ◌++◌, none, some, arith, Bool-cases, inl, inr, All, u32_mod,
}
use udt_boost.Text.{
  c_str, strchr, rfind, is_digit, is_space, digits_value, signed_value, atoi, digits_loop, digits,
  digits_value-digits_loop,
}

abbrev pub IsDigit : ℕ → Type 0
IsDigit c = (48 ≤ c) × (c ≤ 57)

-- No digit stands at the front.
abbrev pub stops : List ℕ → Bool
stops [] = true
stops (c ∷ s) = not (leb 48 c && leb c 57)

digits_loop-append :
    (fuel n : ℕ) (acc s : List ℕ) → digits_loop fuel n acc ++ s ≡ digits_loop fuel n (acc ++ s)
unfolding digits_loop
digits_loop-append zero n acc s = refl
digits_loop-append (suc fuel) n acc s = elim (Bool-cases (ltb n 10)) [
  | inl e ↦ rw e refl
  | inr e ↦ rw e (digits_loop-append fuel (n / 10) ((48 + n % 10) ∷ acc) s)
]

digits_loop-All :
    (fuel n : ℕ) (acc : List ℕ) → All IsDigit acc → All IsDigit (digits_loop fuel n acc)
unfolding digits_loop
digits_loop-All zero n acc h = h
digits_loop-All (suc fuel) n acc h =
    let d : IsDigit (48 + n % 10) = (omega arith, omega arith) in
    elim (Bool-cases (ltb n 10)) [
      | inl e ↦ rw e (d, h)
      | inr e ↦ rw e (digits_loop-All fuel (n / 10) ((48 + n % 10) ∷ acc) (d, h))
    ]

pub digits-All : (n : ℕ) → All IsDigit (digits n)
unfolding digits
digits-All n = digits_loop-All (suc n) n [] tt

-- The first byte is a digit.
digits_loop-head :
    (fuel n : ℕ) (acc : List ℕ)
    → n < fuel
    → (c : ℕ) × (s : List ℕ) × (digits_loop fuel n acc ≡ c ∷ s) × IsDigit c
unfolding digits_loop
digits_loop-head zero n acc h = absurd (omega arith)
digits_loop-head (suc fuel) n acc h = elim (Bool-cases (ltb n 10)) [
  | inl e ↦ (48 + n % 10, acc, rw e refl, (omega arith, omega arith))
  | inr e ↦ rw e (digits_loop-head fuel (n / 10) ((48 + n % 10) ∷ acc) (ground (arith, e)))
]

atoi-digit : (c : ℕ) (s : List ℕ) → IsDigit c → atoi (c ∷ s) ≡ digits_value 0 (c ∷ s) % u32_mod
unfolding atoi is_space signed_value
atoi-digit c s d = ground arith

digits_value-stops : (n : ℕ) (s : List ℕ) → stops s ≡ true → digits_value n s ≡ n
unfolding digits_value is_digit
digits_value-stops n [] h = refl
digits_value-stops n (c ∷ s) h = ground arith

-- What `atoi` reads of a number that was printed, whatever stands behind it but another digit.
pub atoi-digits : (n : ℕ) (s : List ℕ) → n < u32_mod → stops s ≡ true → atoi (digits n ++ s) ≡ n
unfolding digits
atoi-digits n s small h =
    let (c, r, e, d) = digits_loop-head (suc n) n s (omega arith) in
    ap atoi (digits_loop-append (suc n) n [] s ∙ e)
    ∙ atoi-digit c r d
    ∙ ap (λ t. digits_value 0 t % u32_mod) (sym e)
    ∙ ap (λ v. v % u32_mod)
        (digits_value-digits_loop (suc n) n s (omega arith) ∙ digits_value-stops n s h)
    ∙ omega arith

pub strchr-append : (b : ℕ) (xs s : List ℕ) → All (λ c. c ≢ b) xs → strchr b (xs ++ b ∷ s) ≡ some s
unfolding strchr
strchr-append b [] s h = ground arith
strchr-append b (c ∷ xs) s h =
    rw (let e : (c == b) ≡ false = ground (arith, h.0) in e) (strchr-append b xs s h.1)

rfind-none : (b : ℕ) (s : List ℕ) → All (λ c. c ≢ b) s → rfind b s ≡ none
unfolding rfind
rfind-none b [] h = refl
rfind-none b (c ∷ s) h = rw (rfind-none b s h.1, rfind) (ground (arith, h.0))

pub rfind-append :
    (b : ℕ) (xs s : List ℕ) → All (λ c. c ≢ b) s → rfind b (xs ++ b ∷ s) ≡ some (xs, s)
unfolding rfind
rfind-append b [] s h = rw (rfind-none b s h, rfind) (ground arith)
rfind-append b (c ∷ xs) s h = rw (rfind-append b xs s h, rfind) refl

pub c_str_lem : (s : List ℕ) → All (λ c. c ≢ 0) s → c_str s ≡ s
unfolding c_str
c_str_lem [] h = refl
c_str_lem (c ∷ s) h =
    rw (let e : (c == 0) ≡ false = ground (arith, h.0) in e) (ap (◌∷◌ c) (c_str_lem s h.1))
