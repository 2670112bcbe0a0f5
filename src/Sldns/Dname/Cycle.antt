-- ===== src/Sldns/Dname/Cycle.antt =====
-- A compression pointer to itself.
use unbound4j.Base.{
  ℕ, zero, suc, ◌+◌, ◌-◌, ◌*◌, ◌^◌, ◌≤◌, ◌<◌, ◌≡◌, refl, ◌∙◌, true, false, Option, none, some, ◌∷◌,
  Bytes, codes, length, get_elem?, leb, ltb, ◌==◌, ◌>>=◌, arith,
}
use unbound4j.Sldns.Output.{Output}
use unbound4j.Sldns.Dname.Body.{size_sub_lem}
use unbound4j.Sldns.Dname.Packet.{with_pkt, packet}
use unbound4j.Sldns.Dname.{
  Scan, give, size_sub, maxcompr, print_text, compressed, round, next, loop, dname_scan,
}

-- The scan gives up with this text behind what it has printed.
abbrev looped : Scan → Option (Option Scan)
looped s = print_text s (codes "ErrorComprPtrLooped") >>= λ s'. some (some s')

gives :
    (continue : Scan → Option (Option Scan)) (m : Option Scan)
    → ((m >>= λ s'. some (give s')) >>= next continue) ≡ (m >>= λ s'. some (some s'))
unfolding next
gives continue none = refl
gives continue (some s) = refl

module _ (buf p : Bytes) (t : ℕ) (high : get_elem? p t ≡ some 0xc0)
    (low : get_elem? p (t + 1) ≡ some t) (within : t + 1 < length p) where
  loop-looped :
      (left fuel d dlen counter w : ℕ) (o : Output)
      → counter + left ≡ 1001
      → left < fuel
      → loop (with_pkt buf p) fuel (packet d dlen t counter w o)
        ≡ looped (packet d dlen (t + 1) 1002 w o)
  unfolding loop round compressed next
  loop-looped left zero d dlen counter w o total enough = absurd (omega arith)
  loop-looped zero (suc fuel) d dlen counter w o total enough =
      let whole : ltb (length p) (t + 1 + 1) ≡ false = ground arith in
      let sum : 0 + t ≡ t = omega arith in
      let inside : leb (length p) t ≡ false = ground arith in
      let over : ltb maxcompr counter ≡ true = ground arith in
      let last : counter + 1 ≡ 1002 = omega arith in
      rw (high, whole, low, sum, inside, over, last)
        (gives (loop (with_pkt buf p) fuel)
          (print_text (packet d dlen (t + 1) 1002 w o) (codes "ErrorComprPtrLooped")))
  loop-looped (suc left) (suc fuel) d dlen counter w o total enough =
      let whole : ltb (length p) (t + 1 + 1) ≡ false = ground arith in
      let sum : 0 + t ≡ t = omega arith in
      let inside : leb (length p) t ≡ false = ground arith in
      let under : ltb maxcompr counter ≡ false = ground arith in
      rw (high, whole, low, sum, inside, under)
        (loop-looped left fuel d dlen (counter + 1) w o (omega arith) (omega arith))

  -- If a pointer in the first 256 bytes of the packet points to itself, and a name starts with a
  -- pointer to it, the scan follows 1001 pointers and then gives up: it prints ErrorComprPtrLooped
  -- and nothing else.
  pub dname_scan-looped :
      (rest : Bytes) (dlen : ℕ) (o : Output)
      → buf ≡ 0xc0 ∷ t ∷ rest
      → 2 ≤ dlen
      → dlen < 2 ^ 64
      → dname_scan (with_pkt buf p) (suc (dlen + 1001 * suc (length p))) dlen o
        ≡ looped (packet 2 (dlen - 2) (t + 1) 1002 0 o)
  unfolding dname_scan loop round compressed next
  dname_scan-looped rest dlen o shape two fits =
      let more : (dlen == 0) ≡ false = ground arith in
      let one : size_sub dlen 1 ≡ dlen - 1 = size_sub_lem dlen 1 (omega arith) fits in
      let more' : (dlen - 1 == 0) ≡ false = ground arith in
      let two_left : size_sub (dlen - 1) 1 ≡ dlen - 2 =
        size_sub_lem (dlen - 1) 1 (omega arith) (omega arith) ∙ omega arith in
      let sum : 0 + t ≡ t = omega arith in
      let inside : leb (length p) t ≡ false = ground arith in
      rw (shape, more, one, more', sum, inside, two_left)
        (loop-looped 1000 (dlen + 1001 * suc (length p)) 2 (dlen - 2) 1 0 o refl (omega arith))
