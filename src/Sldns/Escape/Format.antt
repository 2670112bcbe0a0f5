-- ===== src/Sldns/Escape/Format.antt =====
-- What the printing of one character of a name stores where it fits.
use unbound4j.Memory.Stores.{HasNoNul}
use unbound4j.Base.{
  All-append, Bool-cases, inl, inr, ℕ, suc, ◌+◌, ◌/◌, ◌%◌, ◌<◌, ◌≡◌, Bool, true, false, not, ◌&&◌,
  Option, some, [], ◌∷◌, ◌++◌, Bytes, length, drop, arith, length-drop, if◌then◌else◌,
}
use unbound4j.Sldns.Output.{Output, str_print}
use unbound4j.Sldns.Output.Text.{written, str_print-written, put_char-written}
use unbound4j.Sldns.Escape.{dname_char_print, plain, decimal3, is_special, isascii, isgraph}

-- RFC 1035, 5.1: a dot and the characters with a meaning in a zone file stand behind a backslash,
-- what is not printable is written in three decimal digits.
abbrev pub escape : ℕ → Bytes
escape c =
    if is_special c
    then b'\\' ∷ c ∷ []
    else if not (isascii c && isgraph c)
    then b'\\' ∷ (48 + c / 100) ∷ (48 + c / 10 % 10) ∷ (48 + c % 10) ∷ []
    else c ∷ []

abbrev pub escape_all : Bytes → Bytes
escape_all [] = []
escape_all (c ∷ cs) = escape c ++ escape_all cs

-- A print of the text `s` onto a buffer with room for it.
abbrev pub Adds : Bytes → Bytes → Bytes → Option (ℕ × Output) → Type 0
Adds t r s result =
    (r' : Bytes) × (result ≡ some (length s, written (t ++ s) r'))
    × (length r' + length s ≡ length r)

pub text-Adds :
    (t r s : Bytes) → length s < length r → length s < 1000 → Adds t r s (str_print (written t r) s)
text-Adds t r s h short = (
  0 ∷ drop (suc (length s)) r,
  str_print-written t r s h (omega arith),
  omega (arith, length-drop (suc (length s)) r),
)

plain-Adds : (t r : Bytes) (c : ℕ) → 1 < length r → Adds t r (c ∷ []) (plain (written t r) c)
unfolding plain
plain-Adds t [] c h = absurd (omega arith)
plain-Adds t (x ∷ r) c h = (r, rw (put_char-written t r x c), omega arith)

-- A choice made alike in the text and in the print.
choose {ℓ κ} :
    {A : Type ℓ} {B : Type κ} (P : A → B → Type 0) (b : Bool) {x y : A} {u v : B}
    → P x u
    → P y v
    → P (if b then x else y) (if b then u else v)
choose P true p q = p
choose P false p q = q

-- Every character is printed by its escape.
pub char-Adds :
    (t r : Bytes) (c : ℕ)
    → length (escape c) < length r
    → Adds t r (escape c) (dname_char_print (written t r) c)
unfolding dname_char_print decimal3
char-Adds t r c =
    choose Printed (is_special c) (λ h. text-Adds t r (b'\\' ∷ c ∷ []) h (omega arith))
      (choose Printed (not (isascii c && isgraph c)) (λ h. text-Adds t r _ h (omega arith))
        (plain-Adds t r c))
  where
    Printed : Bytes → Option (ℕ × Output) → Type 0
    Printed s result = length s < length r → Adds t r s result

-- A character that needs no escape is stored alone.
pub plain-prints :
    (c : ℕ) (t r : Bytes) (x : ℕ)
    → is_special c ≡ false
    → (isascii c && isgraph c) ≡ true
    → dname_char_print (written t (x ∷ r)) c ≡ some (1, written (t ++ c ∷ []) r)
unfolding dname_char_print plain
plain-prints c t r x ordinary printable = rw (ordinary, printable, put_char-written t r x c)

escape-HasNoNul : (c : ℕ) → HasNoNul (escape c)
escape-HasNoNul c = elim (Bool-cases (is_special c)) [
  | inl special ↦ rw special ((λ e. omega arith), ((λ e. ground arith), tt))
  | inr ordinary ↦ elim (Bool-cases (isascii c && isgraph c)) [
    | inl printable ↦ rw (ordinary, printable) ((λ e. ground arith), tt)
    | inr odd ↦
        rw (ordinary, odd)
          ((λ e. omega arith), ((λ e. omega arith), ((λ e. omega arith), ((λ e. omega arith), tt))))
  ]
]

pub escape_all-HasNoNul : (cs : Bytes) → HasNoNul (escape_all cs)
escape_all-HasNoNul [] = tt
escape_all-HasNoNul (c ∷ cs) =
    All-append (λ c. ¬ (c ≡ 0)) (escape c) (escape_all cs) (escape-HasNoNul c)
      (escape_all-HasNoNul cs)
