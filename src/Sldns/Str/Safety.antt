-- ===== src/Sldns/Str/Safety.antt =====
-- The scan of a character string returns, and stays inside its input and its output.
use unbound4j.Base.{
  ℕ, zero, suc, ◌+◌, ◌-◌, ◌*◌, ◌≤◌, ◌<◌, ◌≡◌, ◌⊎◌, refl, inl, inr, Option, none, some, Bytes, codes,
  length, get_elem?, get_elem?-lt, ltb, Bool-cases, arith,
}
use unbound4j.Sldns.Output.{Output}
use unbound4j.Sldns.Output.Safety.{IsSafe, Keeps, str_print-Keeps}
use unbound4j.Sldns.Escape.Chars.{str_char_print-Keeps}
use unbound4j.Sldns.Str.{scan_chars, str_scan}

scan_chars-Keeps :
    (n : ℕ) (buf : Bytes) (pos count w : ℕ) (o : Output)
    → IsSafe n o
    → pos + count ≤ length buf
    → Keeps n (w + 4 * count) (scan_chars buf pos count w o)
unfolding scan_chars
scan_chars-Keeps n buf pos zero w o safe inside = (w, o, refl, safe, omega arith)
scan_chars-Keeps n buf pos (suc count) w o safe inside =
    let (c, at) = get_elem?-lt buf pos (omega arith) in
    let (w₁, o₁, e₁, safe₁, short) = str_char_print-Keeps n o c safe in
    let (w₂, o₂, e₂, safe₂, shorter) =
      scan_chars-Keeps n buf (pos + 1) count (w + w₁) o₁ safe₁ (omega arith) in
    (w₂, o₂, rw (at, e₁) e₂, safe₂, omega arith)

-- The whole string is read, or nothing is.
abbrev pub Scans : ℕ → Bytes → ℕ → Output → Option (Option ℕ × ℕ × ℕ × Output) → Type 0
Scans n buf dl o r =
    ((r ≡ some (none, 0, dl, o))
      × ((dl ≡ 0) ⊎ ((len : ℕ) × (get_elem? buf 0 ≡ some len) × (dl < 1 + len))))
    ⊎ ((len : ℕ) × (w : ℕ) × (o' : Output) × (get_elem? buf 0 ≡ some len)
        × (1 + len ≤ dl)
        × (r ≡ some (some w, 1 + len, dl - 1 - len, o'))
        × IsSafe n o'
        × (w ≤ 4 * len + 2))

-- For an output that is safe in a buffer of n bytes and a length of the input that is not more
-- than its bytes, sldns_wire2str_str_scan returns: it gives -1 and moves nothing exactly where
-- the input is empty or shorter than its length byte says, and else it moves behind the string,
-- leaves a safe output, and counts at most four characters for each byte and the two quotes.
pub str_scan-Scans :
    (n : ℕ) (buf : Bytes) (dl : ℕ) (o : Output)
    → IsSafe n o
    → dl ≤ length buf
    → Scans n buf dl o (str_scan buf dl o)
unfolding str_scan
str_scan-Scans n buf dl o safe inside = elim (Bool-cases (ltb dl 1)) [
  | inl empty ↦ inl (rw empty, inl (ground arith))
  | inr some_input ↦
      let (len, at) = get_elem?-lt buf 0 (ground arith) in
      elim (Bool-cases (ltb dl (1 + len))) [
        | inl cut ↦ inl (rw (some_input, at, cut), inr (len, at, ground arith))
        | inr whole ↦
            let fits : 1 + len ≤ dl = ground arith in
            let (w₁, o₁, e₁, safe₁, short₁) = str_print-Keeps n o (codes "\"") safe in
            let (w₂, o₂, e₂, safe₂, short₂) =
              scan_chars-Keeps n buf 1 len w₁ o₁ safe₁ (omega arith) in
            let (w₃, o₃, e₃, safe₃, short₃) = str_print-Keeps n o₂ (codes "\"") safe₂ in
            inr (
              len,
              w₂ + w₃,
              o₃,
              at,
              fits,
              rw (some_input, at, whole, e₁, e₂, e₃),
              safe₃,
              omega arith,
            )
      ]
]
