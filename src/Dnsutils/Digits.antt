-- ===== src/Dnsutils/Digits.antt =====
-- The digits that jni/src/dnsutils.c writes, one byte at a time.
use unbound4j.Base.{
  ℕ, ◌+◌, ◌-◌, ◌*◌, ◌/◌, ◌%◌, ◌≤◌, ◌<◌, ◌≡◌, refl, sym, ap, ◌∙◌, inl, inr, bit_and, Bool, true,
  false, Option, none, some, ◌∷◌, ◌++◌, Bytes, IsByte, length, get_elem?, ltb, ◌==◌, if◌then◌else◌,
  arith, Bool-cases, ==→eq, passes_below, passes_below-at,
}
use unbound4j.Memory.Stores.{HasNoNul}
use unbound4j.Dnsutils.{decimal, hex}
use unbound4j.Dnsutils.Decode.{is_digit, read_v4, hex_value}

read_v4-digit :
    (done : Bytes) (n x m : ℕ) (cs : Bytes)
    → x < 10
    → n * 10 + x ≡ m
    → read_v4 done n ((48 + x) ∷ cs) ≡ read_v4 done m cs
unfolding read_v4
read_v4-digit done n x m cs h e =
    let no_dot : (48 + x == b'.') ≡ false = ground arith in
    let digit : is_digit (48 + x) ≡ true = ground arith in
    let value : n * 10 + (48 + x - 48) ≡ m = omega arith in rw (no_dot, digit, value)

-- A number and its dot.
pub read_v4-decimal :
    (done : Bytes) (n : ℕ) (cs : Bytes)
    → IsByte n
    → read_v4 done 0 (decimal n ++ b'.' ∷ cs) ≡ read_v4 (n ∷ done) 0 cs
unfolding decimal read_v4
read_v4-decimal done n cs h = elim (Bool-cases (ltb n 10)) [
  | inl one ↦ rw one (read_v4-digit done 0 n n (b'.' ∷ cs) (ground arith) (omega arith))
  | inr more ↦ elim (Bool-cases (ltb n 100)) [
    | inl two ↦
        rw (more, two)
          (read_v4-digit done 0 (n / 10) (n / 10) ((48 + n % 10) ∷ b'.' ∷ cs) (ground arith)
              (omega arith)
            ∙ read_v4-digit done (n / 10) (n % 10) n (b'.' ∷ cs) (omega arith) (omega arith))
    | inr three ↦
        rw (more, three)
          (read_v4-digit done 0 (n / 100) (n / 100) ((48 + n / 10 % 10) ∷ (48 + n % 10) ∷ b'.' ∷ cs)
              (omega arith) (omega arith)
            ∙ read_v4-digit done (n / 100) (n / 10 % 10) (n / 10) ((48 + n % 10) ∷ b'.' ∷ cs)
                (omega arith) (omega arith)
            ∙ read_v4-digit done (n / 10) (n % 10) n (b'.' ∷ cs) (omega arith) (omega arith))
  ]
]

pub length-decimal : (n : ℕ) → length (decimal n) ≤ 3
unfolding decimal
length-decimal n = ground arith

pub decimal-HasNoNul : (n : ℕ) → HasNoNul (decimal n)
unfolding decimal
decimal-HasNoNul n = elim (Bool-cases (ltb n 10)) [
  | inl one ↦ rw one (λ e. omega arith, tt)
  | inr more ↦ elim (Bool-cases (ltb n 100)) [
    | inl two ↦ rw (more, two) (λ e. omega arith, (λ e. omega arith, tt))
    | inr three ↦ rw (more, three) (λ e. omega arith, (λ e. omega arith, (λ e. omega arith, tt)))
  ]
]

-- A digit was found, is no NUL, and has the value `v`.
is_hex : Option ℕ → ℕ → Bool
is_hex none v = false
is_hex (some c) v = if c == 0 then false else elim (hex_value c) [ none ↦ false | some w ↦ w == v ]

abbrev pub Hex : Option ℕ → ℕ → Type 0
Hex found v = (c : ℕ) × (found ≡ some c) × ¬ (c ≡ 0) × (hex_value c ≡ some v)

same_value :
    (o : Option ℕ) (v : ℕ)
    → elim o as (λ o. Bool) [ none ↦ false | some w ↦ w == v ] ≡ true
    → o ≡ some v
same_value none v h = cc
same_value (some w) v h = ap some (==→eq w v h)

is_hex-Hex : (found : Option ℕ) (v : ℕ) → is_hex found v ≡ true → Hex found v
unfolding is_hex
is_hex-Hex none v h = cc
is_hex-Hex (some c) v h = elim (Bool-cases (c == 0)) [
  | inl nul ↦ let bad : is_hex (some c) v ≡ false = rw nul in cc
  | inr some_char ↦
      let test : is_hex (some c) v
          ≡ elim (hex_value c) as (λ o. Bool) [ none ↦ false | some w ↦ w == v ] =
        rw some_char in
      (c, refl, (λ e. ground arith), same_value (hex_value c) v (sym test ∙ h))
]

abbrev low_is_hex : ℕ → Bool
low_is_hex b = is_hex (get_elem? hex (bit_and b 0x0f)) (b % 16)

abbrev high_is_hex : ℕ → Bool
high_is_hex b = is_hex (get_elem? hex (bit_and b 0xf0 / 16)) (b / 16)

low_bytes : passes_below low_is_hex 256 ≡ true
unfolding passes_below is_hex hex_value
low_bytes = refl

high_bytes : passes_below high_is_hex 256 ≡ true
unfolding passes_below is_hex hex_value
high_bytes = refl

-- The table has a digit for each half of a byte.
pub low-Hex : (b : ℕ) → IsByte b → Hex (get_elem? hex (bit_and b 0x0f)) (b % 16)
low-Hex b h = is_hex-Hex _ _ (passes_below-at low_is_hex 256 b h low_bytes)

pub high-Hex : (b : ℕ) → IsByte b → Hex (get_elem? hex (bit_and b 0xf0 / 16)) (b / 16)
high-Hex b h = is_hex-Hex _ _ (passes_below-at high_is_hex 256 b h high_bytes)
