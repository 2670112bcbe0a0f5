-- ===== src/Dnsutils.antt =====
-- jni/src/dnsutils.c: the domain name of a reverse lookup.
pub mod Decode
pub mod Digits
pub mod Nibbles
pub mod Addresses
use unbound4j.Base.{
  ℕ, zero, suc, ◌+◌, ◌/◌, ◌%◌, bit_and, Bool, Option, none, some, [], ◌∷◌, ◌++◌, Bytes, codes,
  get_elem?, ltb, if◌then◌else◌, ◌>>=◌,
}
use unbound4j.Memory.{store, snprintf, c_string}

-- `"%u"` of a byte.
unfoldable pub decimal : ℕ → Bytes
decimal n =
    if ltb n 10
    then (48 + n) ∷ []
    else if ltb n 100
    then (48 + n / 10) ∷ (48 + n % 10) ∷ []
    else (48 + n / 100) ∷ (48 + n / 10 % 10) ∷ (48 + n % 10) ∷ []

-- `strdup`: `none` is NULL, when there is no memory for the copy.
unfoldable pub strdup : Bool → Bytes → Option (Option Bytes)
strdup memory buf = c_string buf >>= λ s. some (if memory then some s else none)

-- `"%u.%u.%u.%u.in-addr.arpa"`
unfoldable pub v4_text : ℕ → ℕ → ℕ → ℕ → Bytes
v4_text a b c d =
    decimal a
    ++ b'.' ∷ (decimal b ++ b'.' ∷ (decimal c ++ b'.' ∷ (decimal d ++ codes ".in-addr.arpa")))

-- `buf` holds what is on the stack; `memory` tells whether `strdup` finds memory.
unfoldable pub build_reverse_lookup_domain_v4 : Bytes → Bytes → Bool → Option (Option Bytes)
build_reverse_lookup_domain_v4 addr buf memory = get_elem? addr 3 >>= λ a₃.
    get_elem? addr 2 >>= λ a₂. get_elem? addr 1 >>= λ a₁. get_elem? addr 0 >>= λ a₀.
    snprintf buf 0 32 (v4_text a₃ a₂ a₁ a₀) >>= λ buf'. strdup memory buf'

abbrev pub hex : Bytes
hex = codes "0123456789abcdef"

-- The body of the loop: two nibbles, each with a dot behind it. The second number is `p`.
unfoldable pub nibbles : ℕ → Bytes × ℕ → Option (Bytes × ℕ)
nibbles b (buf, p) = get_elem? hex (bit_and b 0x0f) >>= λ low. store buf p low >>= λ buf₁.
    store buf₁ (p + 1) b'.' >>= λ buf₂. get_elem? hex (bit_and b 0xf0 / 16) >>= λ high.
    store buf₂ (p + 2) high >>= λ buf₃. store buf₃ (p + 3) b'.' >>= λ buf₄. some (buf₄, p + 4)

-- `for(i=15; i>=0; i--)`: the number of rounds left is `i + 1`.
unfoldable pub nibble_loop : Bytes → ℕ → Bytes × ℕ → Option (Bytes × ℕ)
nibble_loop addr zero s = some s
nibble_loop addr (suc i) s = get_elem? addr i >>= λ b. nibbles b s >>= λ s'. nibble_loop addr i s'

unfoldable pub build_reverse_lookup_domain_v6 : Bytes → Bytes → Bool → Option (Option Bytes)
build_reverse_lookup_domain_v6 addr buf memory = nibble_loop addr 16 (buf, 0) >>= λ s.
    snprintf s.0 64 64 (codes "ip6.arpa") >>= λ buf'. strdup memory buf'
