-- ===== src/Sldns/Escape/Chars.antt =====
-- Printing one character is defined and leaves a safe output.
use unbound4j.Base.{ℕ, ◌≤◌, Bool, true, false, not, [], ◌∷◌, arith, ◌&&◌, ◌||◌, ◌==◌, if◌then◌else◌}
use unbound4j.Sldns.Output.{Output, str_print}
use unbound4j.Sldns.Output.Safety.{IsSafe, Keeps, str_print-Keeps, put_char-IsSafe}
use unbound4j.Sldns.Escape.{
  plain, decimal3, is_special, isascii, isgraph, isprint, dname_char_print, str_char_print,
}

Keeps-mono : (n b c : ℕ) (r : _) → b ≤ c → Keeps n b r → Keeps n c r
Keeps-mono n b c r h (w, o, e, s, l) = (w, o, e, s, omega arith)

plain-Keeps : (n : ℕ) (o : Output) (c : ℕ) → IsSafe n o → Keeps n 4 (plain o c)
unfolding plain
plain-Keeps n o c s = let (o', e, s') = put_char-IsSafe n o c s in (1, o', rw e, s', omega arith)

pair-Keeps : (n : ℕ) (o : Output) (c : ℕ) → IsSafe n o → Keeps n 4 (str_print o (b'\\' ∷ c ∷ []))
pair-Keeps n o c s = Keeps-mono n 2 4 _ (omega arith) (str_print-Keeps n o (b'\\' ∷ c ∷ []) s)

octet-Keeps :
    (n : ℕ) (o : Output) (c : ℕ) → IsSafe n o → Keeps n 4 (str_print o (b'\\' ∷ decimal3 c))
unfolding decimal3
octet-Keeps n o c s = str_print-Keeps n o (b'\\' ∷ decimal3 c) s

-- A choice between two prints that both keep the output safe.
choose {ℓ} : {A : Type ℓ} (P : A → Type 0) (b : Bool) {x y : A} → P x → P y → P (if b then x else y)
choose P true p q = p
choose P false p q = q

pub dname_char_print-Keeps :
    (n : ℕ) (o : Output) (c : ℕ) → IsSafe n o → Keeps n 4 (dname_char_print o c)
unfolding dname_char_print
dname_char_print-Keeps n o c s =
    choose (Keeps n 4) (is_special c) (pair-Keeps n o c s) (
      choose (Keeps n 4) (not (isascii c && isgraph c)) (octet-Keeps n o c s) (plain-Keeps n o c s))

pub str_char_print-Keeps :
    (n : ℕ) (o : Output) (c : ℕ) → IsSafe n o → Keeps n 4 (str_char_print o c)
unfolding str_char_print
str_char_print-Keeps n o c s =
    choose (Keeps n 4) (isprint c || c == 9)
      (choose (Keeps n 4) (c == b'"' || c == b'\\') (pair-Keeps n o c s) (plain-Keeps n o c s))
      (octet-Keeps n o c s)
