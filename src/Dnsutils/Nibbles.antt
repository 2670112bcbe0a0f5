-- ===== src/Dnsutils/Nibbles.antt =====
-- The loop of `build_reverse_lookup_domain_v6`: what it writes for the first bytes of an address.
use unbound4j.Base.{
  ℕ, zero, suc, ◌+◌, ◌*◌, ◌/◌, ◌%◌, ◌≤◌, ◌≡◌, refl, sym, ap, ◌∙◌, bit_and, some, [], ◌∷◌, ◌++◌,
  Bytes, IsByte, AreBytes, length, get_elem?, take, drop, All-get_elem?, get_elem?-lt, append_assoc,
  append-nil, length-append, length-drop, arith,
}
use unbound4j.Memory.Stores.{HasNoNul, store-append}
use unbound4j.Dnsutils.{hex, nibbles, nibble_loop}
use unbound4j.Dnsutils.Decode.{read_v6, hex_value}
use unbound4j.Dnsutils.Digits.{low-Hex, high-Hex}

-- What a round writes for a byte.
abbrev four : ℕ → ℕ → Bytes
four low high = low ∷ b'.' ∷ high ∷ b'.' ∷ []

nibbles-four :
    (t r : Bytes) (b low high : ℕ)
    → 4 ≤ length r
    → get_elem? hex (bit_and b 0x0f) ≡ some low
    → get_elem? hex (bit_and b 0xf0 / 16) ≡ some high
    → nibbles b (t ++ r, length t) ≡ some ((t ++ four low high) ++ drop 4 r, length t + 4)
unfolding nibbles
nibbles-four t [] b low high room el eh = absurd (omega arith)
nibbles-four t (x ∷ []) b low high room el eh = absurd (omega arith)
nibbles-four t (x ∷ y ∷ []) b low high room el eh = absurd (omega arith)
nibbles-four t (x ∷ y ∷ z ∷ []) b low high room el eh = absurd (omega arith)
nibbles-four t (x ∷ y ∷ z ∷ w ∷ r) b low high room el eh =
    let t₁ = t ++ low ∷ [] in
    let t₂ = t₁ ++ b'.' ∷ [] in
    let t₃ = t₂ ++ high ∷ [] in
    let n₁ = length-append t (low ∷ []) in
    let n₂ = length-append t₁ (b'.' ∷ []) in
    let n₃ = length-append t₂ (high ∷ []) in
    let shape : (t₃ ++ b'.' ∷ []) ++ r ≡ (t ++ four low high) ++ r = simp append_assoc in
    rw (
      el,
      store-append t (y ∷ z ∷ w ∷ r) x low (length t) refl,
      store-append t₁ (z ∷ w ∷ r) y b'.' (length t + 1) (omega arith),
      eh,
      store-append t₂ (w ∷ r) z high (length t + 2) (omega arith),
      store-append t₃ r w b'.' (length t + 3) (omega arith),
      shape,
    )

read_v6-four :
    (done rest : Bytes) (b low high : ℕ)
    → hex_value low ≡ some (b % 16)
    → hex_value high ≡ some (b / 16)
    → read_v6 done (four low high ++ rest) ≡ read_v6 (b ∷ done) rest
unfolding read_v6
read_v6-four done rest b low high vl vh =
    let value : b / 16 * 16 + b % 16 ≡ b = omega arith in rw (read_v6, vl, vh, value)

take-suc : (xs : Bytes) (i x : ℕ) → get_elem? xs i ≡ some x → take (suc i) xs ≡ take i xs ++ x ∷ []
take-suc [] i x e = cc
take-suc (y ∷ xs) zero x e = cc
take-suc (y ∷ xs) (suc i) x e = ap (◌∷◌ y) (take-suc xs i x e)

drop-nil : (n : ℕ) → drop {A = ℕ} n [] ≡ []
drop-nil zero = refl
drop-nil (suc n) = refl

drop-add : (n m k : ℕ) (xs : Bytes) → k ≡ n + m → drop m (drop n xs) ≡ drop k xs
drop-add zero m k xs e = ap (λ (j : ℕ). drop j xs) (omega arith)
drop-add (suc n) m zero xs e = absurd (omega arith)
drop-add (suc n) m (suc k) [] e = drop-nil m
drop-add (suc n) m (suc k) (x ∷ xs) e = drop-add n m k xs (omega arith)

-- What the rounds for the first `i` bytes of an address write.
abbrev pub Writes : Bytes → ℕ → Bytes → Bytes → Type 0
Writes addr i t r =
    (text : Bytes) × (nibble_loop addr i (t ++ r, length t)
      ≡ some ((t ++ text) ++ drop (i * 4) r, length t + i * 4))
    × (length text ≡ i * 4)
    × HasNoNul text
    × ((done rest : Bytes) → read_v6 done (text ++ rest) ≡ read_v6 (take i addr ++ done) rest)

pub nibble_loop-Builds :
    (addr : Bytes) (i : ℕ) (t r : Bytes)
    → i ≤ length addr
    → i * 4 ≤ length r
    → AreBytes addr
    → Writes addr i t r
unfolding nibble_loop
nibble_loop-Builds addr zero t r inside room bytes = (
  [],
  rw append-nil (ap (λ (n : ℕ). some (t ++ r, n)) (omega arith)),
  omega arith,
  tt,
  λ done rest. refl,
)
nibble_loop-Builds addr (suc i) t r inside room bytes =
    let (b, at) = get_elem?-lt addr i (omega arith) in
    let byte = All-get_elem? IsByte addr i b bytes at in
    let (low, el, some_low, vl) = low-Hex b byte in
    let (high, eh, some_high, vh) = high-Hex b byte in
    let t' = t ++ four low high in
    let (text, e, n, no_nul, read) =
      nibble_loop-Builds addr i t' (drop 4 r) (omega arith) (omega (arith, length-drop 4 r))
        bytes in
    let step = nibbles-four t r b low high (omega arith) el eh in
    let moved : length t + 4 ≡ length t' = omega (arith, length-append t (four low high)) in
    let joined = append_assoc t (four low high) text in
    let behind = drop-add 4 (i * 4) (suc i * 4) r (omega arith) in
    let count : length t' + i * 4 ≡ length t + suc i * 4 = omega arith in
    (
      four low high ++ text,
      rw (at, step)
          (ap (λ (n : ℕ). nibble_loop addr i (t' ++ drop 4 r, n)) moved
            ∙ e
            ∙ (λ j. some (joined j ++ behind j, count j))),
      omega arith,
      (some_low, ((λ z. omega arith), (some_high, ((λ z. omega arith), no_nul)))),
      (λ done rest.
          read_v6-four done (text ++ rest) b low high vl vh
          ∙ read (b ∷ done) rest
          ∙ ap (λ (x : Bytes). read_v6 x rest)
              (sym (
                ap (λ (x : Bytes). x ++ done) (take-suc addr i b at)
                ∙ append_assoc (take i addr) (b ∷ []) done))),
    )
