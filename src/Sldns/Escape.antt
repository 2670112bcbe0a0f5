-- ===== src/Sldns/Escape.antt =====
-- jni/src/sldns.c, one character: `dname_char_print` for domain names, `str_char_print` for
-- character strings. The character classes are those of the C locale.
pub mod Chars
pub mod Format
use unbound4j.Base.{
  ℕ, zero, suc, ◌+◌, ◌-◌, ◌/◌, ◌%◌, Bool, ◌&&◌, ◌||◌, not, Option, none, some, [], ◌∷◌, Bytes,
  length, leb, ltb, ◌==◌, if◌then◌else◌, ◌>>=◌,
}
use unbound4j.Sldns.Output.{Output, str_print, put_char}

abbrev pub isascii : ℕ → Bool
isascii c = ltb c 128

abbrev pub isgraph : ℕ → Bool
isgraph c = leb 33 c && leb c 126

abbrev pub isprint : ℕ → Bool
isprint c = leb 32 c && leb c 126

-- `"%03u"` of a number below 1000.
pub decimal3 : ℕ → Bytes
decimal3 c = (48 + c / 100) ∷ (48 + c / 10 % 10) ∷ (48 + c % 10) ∷ []

-- The characters that a domain name escapes by a backslash.
abbrev pub is_special : ℕ → Bool
is_special c = c == b'.' || c == b';' || c == b'(' || c == b')' || c == b'\\'

-- The plain printout: one character with no terminator, counted also where it no longer fits.
pub plain : Output → ℕ → Option (ℕ × Output)
plain o c = put_char o c >>= λ o'. some (1, o')

pub dname_char_print : Output → ℕ → Option (ℕ × Output)
unfolding plain decimal3
dname_char_print o c =
    if is_special c
    then str_print o (b'\\' ∷ c ∷ [])
    else if not (isascii c && isgraph c)
    then str_print o (b'\\' ∷ decimal3 c)
    else plain o c

pub str_char_print : Output → ℕ → Option (ℕ × Output)
unfolding plain decimal3
str_char_print o c =
    if isprint c || c == 9
    then (if c == b'"' || c == b'\\' then str_print o (b'\\' ∷ c ∷ []) else plain o c)
    else str_print o (b'\\' ∷ decimal3 c)
