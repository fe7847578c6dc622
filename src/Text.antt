-- ===== src/Text.antt =====
-- C strings as lists of bytes, with what udt/udp_pub_addr.cpp and udt/udp_chknat.cpp use of the C and
-- C++ libraries: strchr, atoi, lexical_cast of a number, and the searches of std::string.
pub mod Digits
use udt_boost.Base.{
  ℕ, zero, suc, ◌+◌, ◌-◌, ◌*◌, ◌/◌, ◌%◌, ◌<◌, ◌≡◌, refl, Bool, true, false, not, ◌&&◌, ◌||◌,
  if◌then◌else◌, ◌==◌, ltb, leb, List, [], ◌∷◌, ◌++◌, Option, none, some, arith, Bool-cases, inl,
  inr, All, u32, u32_mod, u16, ap, ◌∙◌, sym,
}

-- The bytes up to the terminator.
unfoldable pub c_str : List ℕ → List ℕ
c_str [] = []
c_str (c ∷ s) = let rest = c_str s in if c == 0 then [] else c ∷ rest

-- `strchr`: what stands behind the first `b`.
unfoldable pub strchr : ℕ → List ℕ → Option (List ℕ)
strchr b [] = none
strchr b (c ∷ s) = if c == b then some s else strchr b s

unfoldable pub skip_spaces : List ℕ → List ℕ
skip_spaces [] = []
skip_spaces (c ∷ s) = if c == 32 then skip_spaces s else c ∷ s

-- `rfind`: what stands before the last `b`, and behind it.
unfoldable pub rfind : ℕ → List ℕ → Option (List ℕ × List ℕ)
rfind b [] = none
rfind b (c ∷ s) = elim (rfind b s) [
  | some (before, after) ↦ some (c ∷ before, after)
  | none ↦ if c == b then some ([], s) else none
]

unfoldable pub is_digit : ℕ → Bool
is_digit c = leb 48 c && leb c 57

-- `isspace`.
unfoldable pub is_space : ℕ → Bool
is_space c = c == 32 || leb 9 c && leb c 13

unfoldable pub digits_value : ℕ → List ℕ → ℕ
unfolding is_digit
digits_value n [] = n
digits_value n (c ∷ s) = if is_digit c then digits_value (n * 10 + (c - 48)) s else n

-- `atoi`, as the bit pattern of an `int`: what it does when the number has too many digits is not
-- defined in C; here it wraps around.
unfoldable pub signed_value : List ℕ → ℕ
unfolding digits_value
signed_value [] = 0
signed_value (c ∷ s) =
    if c == 45
    then u32 (u32_mod - u32 (digits_value 0 s))
    else u32 (digits_value 0 (if c == 43 then s else c ∷ s))

unfoldable pub atoi : List ℕ → ℕ
unfolding is_space signed_value
atoi [] = 0
atoi (c ∷ s) = if is_space c then atoi s else signed_value (c ∷ s)

-- `lexical_cast` of a number: its decimal digits. `n` rounds are enough.
unfoldable pub digits_loop : ℕ → ℕ → List ℕ → List ℕ
digits_loop zero n acc = acc
digits_loop (suc fuel) n acc =
    let rest = digits_loop fuel (n / 10) ((48 + n % 10) ∷ acc) in
    if ltb n 10 then (48 + n % 10) ∷ acc else rest

unfoldable pub digits : ℕ → List ℕ
digits n = digits_loop (suc n) n []

digits_value-digit :
    (v d : ℕ) (s : List ℕ) → d < 10 → digits_value v ((48 + d) ∷ s) ≡ digits_value (v * 10 + d) s
unfolding digits_value
digits_value-digit v d s h =
    let t : (leb 48 (48 + d) && leb (48 + d) 57) ≡ true = ground arith in
    rw t (ap (λ k. digits_value k s) (omega arith))

-- The digits of a number, read as a number.
pub digits_value-digits_loop :
    (fuel n : ℕ) (acc : List ℕ)
    → n < fuel
    → digits_value 0 (digits_loop fuel n acc) ≡ digits_value n acc
unfolding digits_loop
digits_value-digits_loop zero n acc h = absurd (omega arith)
digits_value-digits_loop (suc fuel) n acc h = elim (Bool-cases (ltb n 10)) [
  | inl e ↦ rw e (
      digits_value-digit 0 (n % 10) acc (omega arith)
      ∙ ap (λ k. digits_value k acc) (ground (arith, e)))
  | inr e ↦ rw e (
      digits_value-digits_loop fuel (n / 10) ((48 + n % 10) ∷ acc) (ground (arith, e))
      ∙ digits_value-digit (n / 10) (n % 10) acc (omega arith)
      ∙ ap (λ k. digits_value k acc) (omega arith))
]
