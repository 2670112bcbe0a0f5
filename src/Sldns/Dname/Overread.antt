-- ===== src/Sldns/Dname/Overread.antt =====
-- A compressed name whose label reaches the end of the packet.
use unbound4j.Base.{
  ℕ, suc, ◌+◌, ◌-◌, ◌^◌, ◌≤◌, ◌<◌, ◌≡◌, bit_and, true, false, none, some, ◌∷◌, Bytes, codes, length,
  get_elem?, leb, ltb, ◌==◌, arith,
}
use unbound4j.Sldns.Output.{Output}
use unbound4j.Sldns.Output.Safety.{IsSafe}
use unbound4j.Sldns.Dname.Body.{size_sub_lem, spool-Prints, print_text-Prints}
use unbound4j.Sldns.Dname.Packet.{with_pkt, packet}
use unbound4j.Sldns.Dname.Pointers.{get_elem?-end}
use unbound4j.Sldns.Dname.{size_sub, label, compressed, round, next, loop, dname_scan}

module _ (p : Bytes) (t c : ℕ) (at : get_elem? p t ≡ some c)
    (ordinary : (bit_and c 0xc0 == 0) ≡ true) (some_byte : (c == 0) ≡ false)
    (reaches : t + 1 + c ≡ length p) where
  -- In the packet: the label, and the read behind it.
  loop-overreads :
      (buf : Bytes) (fuel d dlen counter w n : ℕ) (o : Output)
      → IsSafe n o
      → loop (with_pkt buf p) (suc (suc fuel)) (packet d dlen t counter w o) ≡ none
  unfolding loop round label next
  loop-overreads buf fuel d dlen counter w n o safe =
      let plain : (bit_and c 0xc0 == 0xc0) ≡ false = ground arith in
      let whole : ltb (length p) (t + 1 + c) ≡ false = ground arith in
      let (w₁, o₁, e₁, safe₁, _) =
        spool-Prints buf n 0 (some p) false c (t + 1) d dlen counter w o (omega arith) safe in
      let (w₂, o₂, e₂, safe₂, _) =
        print_text-Prints buf n 0 (packet d dlen (t + 1 + c) counter w₁ o₁) (codes ".") safe₁ in
      let end : get_elem? p (t + 1 + c) ≡ none = get_elem?-end p (t + 1 + c) reaches in
      rw (at, some_byte, plain, ordinary, whole, e₁, e₂, end)

  -- If a name starts with a pointer to a label in the first 256 bytes of the packet that ends
  -- exactly where the packet ends, the scan faults: the loop reads the byte behind the packet.
  pub dname_scan-overreads :
      (rest : Bytes) (fuel dlen n : ℕ) (o : Output)
      → t < 256
      → 2 ≤ dlen
      → dlen < 2 ^ 64
      → IsSafe n o
      → dname_scan (with_pkt (0xc0 ∷ t ∷ rest) p) (3 + fuel) dlen o ≡ none
  unfolding dname_scan loop round compressed next
  dname_scan-overreads rest fuel dlen n o short two fits safe =
      let more : (dlen == 0) ≡ false = ground arith in
      let one : size_sub dlen 1 ≡ dlen - 1 = size_sub_lem dlen 1 (omega arith) fits in
      let more' : (dlen - 1 == 0) ≡ false = ground arith in
      let sum : 0 + t ≡ t = omega arith in
      let inside : leb (length p) t ≡ false = ground arith in
      let three : 3 + fuel ≡ suc (suc (suc fuel)) = omega arith in
      rw (more, three, one, more', sum, inside)
        (loop-overreads (0xc0 ∷ t ∷ rest) fuel 2 (size_sub (dlen - 1) 1) 1 0 n o safe)
