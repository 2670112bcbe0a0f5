-- ===== src/Tests/Addresses.antt =====
-- jni/src/dnsutils.c on concrete addresses.
use unbound4j.Base.{◌≤◌, ◌≡◌, refl, true, some, [], ◌∷◌, Bytes, AreBytes, codes, length, arith}
use unbound4j.Dnsutils.{build_reverse_lookup_domain_v4, build_reverse_lookup_domain_v6}
use unbound4j.Dnsutils.Decode.{parse_v4, parse_v6}
use unbound4j.Dnsutils.Addresses.{
  build_reverse_lookup_domain_v4-Builds, build_reverse_lookup_domain_v6-Builds,
}

abbrev buffer : Bytes
buffer =
    codes
      "0123456789abcdef0123456789abcdef0123456789abcdef0123456789abcdef0123456789abcdef0123456789abcdef0123456789abcdef0123456789abcdef"

build_reverse_lookup_domain_v4-Builds_example :
    (name : Bytes) × (build_reverse_lookup_domain_v4 (192 ∷ 0 ∷ 2 ∷ 5 ∷ []) buffer true
      ≡ some (some name))
    × (length name ≤ 28)
    × (parse_v4 name ≡ 192 ∷ 0 ∷ 2 ∷ 5 ∷ [])
build_reverse_lookup_domain_v4-Builds_example =
    build_reverse_lookup_domain_v4-Builds 192 0 2 5 buffer true
      ((omega arith), ((omega arith), ((omega arith), ((omega arith), tt)))) (omega arith)

abbrev address : Bytes
address = 32 ∷ 1 ∷ 13 ∷ 184 ∷ 0 ∷ 0 ∷ 0 ∷ 0 ∷ 0 ∷ 0 ∷ 0 ∷ 0 ∷ 5 ∷ 103 ∷ 137 ∷ 171 ∷ []

address-AreBytes : AreBytes address
address-AreBytes = ground arith

build_reverse_lookup_domain_v6-Builds_example :
    (name : Bytes) × (build_reverse_lookup_domain_v6 address buffer true ≡ some (some name))
    × (length name ≡ 72)
    × (parse_v6 name ≡ address)
build_reverse_lookup_domain_v6-Builds_example =
    build_reverse_lookup_domain_v6-Builds address buffer true refl address-AreBytes (omega arith)
