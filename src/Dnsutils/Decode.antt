-- ===== src/Dnsutils/Decode.antt =====
-- The names of reverse lookups read back as addresses: an independent description of what
-- jni/src/dnsutils.c builds. A label that is read stands before those read earlier in the address.
use unbound4j.Base.{
  ℕ, ◌+◌, ◌-◌, ◌*◌, Bool, Option, none, some, [], ◌∷◌, Bytes, leb, ◌==◌, ◌&&◌, if◌then◌else◌,
}

abbrev pub is_digit : ℕ → Bool
is_digit c = leb 48 c && leb c 57

-- `done` is the address so far, and `n` the number that is being read. What is no number ends the
-- address.
unfoldable pub read_v4 : Bytes → ℕ → Bytes → Bytes
read_v4 done n [] = done
read_v4 done n (c ∷ cs) =
    let dot = read_v4 (n ∷ done) 0 cs in
    let digit = read_v4 done (n * 10 + (c - 48)) cs in
    if c == b'.' then dot else if is_digit c then digit else done

abbrev pub parse_v4 : Bytes → Bytes
parse_v4 name = read_v4 [] 0 name

unfoldable pub hex_value : ℕ → Option ℕ
hex_value c =
    if is_digit c then some (c - 48) else if leb 97 c && leb c 102 then some (c - 87) else none

-- Two digits of one byte, the low one first.
unfoldable pub read_v6 : Bytes → Bytes → Bytes
read_v6 done [] = done
read_v6 done (c ∷ []) = done
read_v6 done (c ∷ c₁ ∷ []) = done
read_v6 done (c ∷ c₁ ∷ c₂ ∷ []) = done
read_v6 done (c ∷ c₁ ∷ c₂ ∷ c₃ ∷ cs) = elim (hex_value c) [
  | none ↦ done
  | some low ↦ elim (hex_value c₂) [
    | none ↦ done
    | some high ↦ read_v6 ((high * 16 + low) ∷ done) cs
  ]
]

abbrev pub parse_v6 : Bytes → Bytes
parse_v6 name = read_v6 [] name
