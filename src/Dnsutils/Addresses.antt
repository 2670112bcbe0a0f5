-- ===== src/Dnsutils/Addresses.antt =====
-- What the builders of jni/src/dnsutils.c return.
use unbound4j.Base.{
  ℕ, zero, suc, true, leb, ◌≤◌, ◌<◌, ◌≡◌, refl, ◌∙◌, Bool, none, some, [], ◌∷◌, ◌++◌, Bytes, codes,
  IsByte, AreBytes, length, take, drop, All-append, append_assoc, append-nil, length-append,
  length-drop, if◌then◌else◌, ◌>>=◌, arith,
}
use unbound4j.Memory.{int_max, vsnprintf, snprintf}
use unbound4j.Memory.Stores.{HasNoNul, store_all-append, c_string-append, take_all}
use unbound4j.Dnsutils.{
  decimal, strdup, v4_text, build_reverse_lookup_domain_v4, build_reverse_lookup_domain_v6,
}
use unbound4j.Dnsutils.Decode.{parse_v4, read_v4, parse_v6, read_v6, hex_value}
use unbound4j.Dnsutils.Nibbles.{nibble_loop-Builds}
use unbound4j.Dnsutils.Digits.{read_v4-decimal, length-decimal, decimal-HasNoNul}

arpa_v4-HasNoNul : HasNoNul (codes ".in-addr.arpa")
arpa_v4-HasNoNul = ground arith

-- A decimal number and what stands behind its dot.
decimal-label-HasNoNul :
    (n : ℕ) (rest : Bytes) → HasNoNul rest → HasNoNul (decimal n ++ b'.' ∷ rest)
decimal-label-HasNoNul n rest h =
    All-append (λ c. ¬ (c ≡ 0)) (decimal n) (b'.' ∷ rest) (decimal-HasNoNul n)
      ((λ e. omega arith), h)

v4_text-HasNoNul : (a b c d : ℕ) → HasNoNul (v4_text a b c d)
unfolding v4_text
v4_text-HasNoNul a b c d =
    decimal-label-HasNoNul a
      (decimal b ++ b'.' ∷ (decimal c ++ b'.' ∷ (decimal d ++ codes ".in-addr.arpa")))
      (decimal-label-HasNoNul b (decimal c ++ b'.' ∷ (decimal d ++ codes ".in-addr.arpa")) (
        decimal-label-HasNoNul c (decimal d ++ codes ".in-addr.arpa") (
          All-append (λ c. ¬ (c ≡ 0)) (decimal d) (codes ".in-addr.arpa") (decimal-HasNoNul d)
            arpa_v4-HasNoNul)))

length-v4_text : (a b c d : ℕ) → length (v4_text a b c d) ≤ 28
unfolding v4_text
length-v4_text a b c d = omega (
  arith,
  length-decimal a,
  length-decimal b,
  length-decimal c,
  length-decimal d,
  length-append (decimal a)
      (b'.' ∷ (decimal b ++ b'.' ∷ (decimal c ++ b'.' ∷ (decimal d ++ codes ".in-addr.arpa")))),
  length-append (decimal b) (b'.' ∷ (decimal c ++ b'.' ∷ (decimal d ++ codes ".in-addr.arpa"))),
  length-append (decimal c) (b'.' ∷ (decimal d ++ codes ".in-addr.arpa")),
  length-append (decimal d) (codes ".in-addr.arpa"),
)

parse-v4_text :
    (a b c d : ℕ)
    → IsByte a
    → IsByte b
    → IsByte c
    → IsByte d
    → parse_v4 (v4_text a b c d) ≡ d ∷ c ∷ b ∷ a ∷ []
unfolding v4_text read_v4
parse-v4_text a b c d ha hb hc hd =
    read_v4-decimal [] a
      (decimal b ++ b'.' ∷ (decimal c ++ b'.' ∷ (decimal d ++ codes ".in-addr.arpa"))) ha
    ∙ read_v4-decimal (a ∷ []) b (decimal c ++ b'.' ∷ (decimal d ++ codes ".in-addr.arpa")) hb
    ∙ read_v4-decimal (b ∷ a ∷ []) c (decimal d ++ codes ".in-addr.arpa") hc
    ∙ read_v4-decimal (c ∷ b ∷ a ∷ []) d (codes "in-addr.arpa") hd

-- A text that fits is what `snprintf` and `strdup` make of it.
snprintf-strdup :
    (memory : Bool) (t r text : Bytes) (p n : ℕ)
    → p ≡ length t
    → length text < n
    → n ≤ length r
    → n ≤ 128
    → HasNoNul t
    → HasNoNul text
    → (snprintf (t ++ r) p n text >>= strdup memory)
      ≡ some (if memory then some (t ++ text) else none)
unfolding snprintf vsnprintf strdup
snprintf-strdup memory t r text p zero e short fits small ht htext = absurd (omega arith)
snprintf-strdup memory t r text p (suc k) e short fits small ht htext =
    let counted : leb (length text) int_max ≡ true = ground arith in
    let whole : take k text ≡ text = take_all k text (omega arith) in
    let ended : length (text ++ 0 ∷ []) ≡ suc (length text) =
      omega (arith, length-append text (0 ∷ [])) in
    let stored = store_all-append t r (text ++ 0 ∷ []) p e (omega arith) in
    let d = drop (length (text ++ 0 ∷ [])) r in
    let shape : (t ++ (text ++ 0 ∷ [])) ++ d ≡ (t ++ text) ++ 0 ∷ d = simp append_assoc in
    let read = c_string-append (t ++ text) d (All-append (λ c. ¬ (c ≡ 0)) t text ht htext) in
    rw (counted, whole, stored, shape, read)

-- For four bytes and a stack buffer of at least 32 bytes, build_reverse_lookup_domain_v4 is
-- defined and returns a name of at most 28 characters, so nothing is cut off, or NULL if strdup
-- finds no memory, and parse_v4 reads the name back as the address.
pub build_reverse_lookup_domain_v4-Builds :
    (a b c d : ℕ) (buf : Bytes) (memory : Bool)
    → AreBytes (a ∷ b ∷ c ∷ d ∷ [])
    → 32 ≤ length buf
    → (name : Bytes) × (build_reverse_lookup_domain_v4 (a ∷ b ∷ c ∷ d ∷ []) buf memory
        ≡ some (if memory then some name else none))
      × (length name ≤ 28)
      × (parse_v4 name ≡ a ∷ b ∷ c ∷ d ∷ [])
unfolding build_reverse_lookup_domain_v4
build_reverse_lookup_domain_v4-Builds a b c d buf memory (ha, (hb, (hc, (hd, _)))) room =
    let short = length-v4_text d c b a in
    (
      v4_text d c b a,
      snprintf-strdup memory [] buf (v4_text d c b a) 0 32 refl (omega arith) room (omega arith) tt
          (v4_text-HasNoNul d c b a),
      short,
      parse-v4_text d c b a hd hc hb ha,
    )

-- For sixteen bytes and a stack buffer of at least 128 bytes, build_reverse_lookup_domain_v6 is
-- defined and returns a name of 72 characters, or NULL if strdup finds no memory, and parse_v6
-- reads the name back as the address.
pub build_reverse_lookup_domain_v6-Builds :
    (addr buf : Bytes) (memory : Bool)
    → length addr ≡ 16
    → AreBytes addr
    → 128 ≤ length buf
    → (name : Bytes) × (build_reverse_lookup_domain_v6 addr buf memory
        ≡ some (if memory then some name else none))
      × (length name ≡ 72)
      × (parse_v6 name ≡ addr)
unfolding build_reverse_lookup_domain_v6 read_v6 hex_value
build_reverse_lookup_domain_v6-Builds addr buf memory size bytes room =
    let (text, e, n, no_nul, read) =
      nibble_loop-Builds addr 16 [] buf (omega arith) (omega arith) bytes in
    let rest = drop 64 buf in
    let built =
      snprintf-strdup memory text rest (codes "ip6.arpa") 64 64 (omega arith) (omega arith)
        (omega (arith, length-drop 64 buf)) (omega arith) no_nul (ground arith) in
    (
      text ++ codes "ip6.arpa",
      rw e built,
      omega (arith, length-append text (codes "ip6.arpa")),
      read [] (codes "ip6.arpa") ∙ rw (append-nil, take_all 16 addr (omega arith)),
    )
