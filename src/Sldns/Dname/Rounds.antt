-- ===== src/Sldns/Dname/Rounds.antt =====
-- One round of the loop of the name scan with a packet, before the first pointer and behind it.
use unbound4j.Base.{
  ℕ, suc, ◌+◌, ◌-◌, ◌*◌, ◌^◌, ◌≤◌, ◌<◌, ◌≡◌, ◌⊎◌, inl, inr, true, false, bit_and, some, Bytes,
  codes, length, get_elem?, get_elem?-lt, ltb, ◌==◌, ◌>>=◌, ◌++◌, arith, Bool-cases,
}
use unbound4j.Sldns.Output.{Output}
use unbound4j.Sldns.Output.Safety.{IsSafe}
use unbound4j.Sldns.Dname.Body.{
  scan, size_sub_lem, Turn, print_text-Prints, spool-Prints, label-Turns,
}
use unbound4j.Sldns.Dname.Packet.{
  Reaches, with_pkt, packet, inside, behind, Turned, Turneds, gives, jump,
}
use unbound4j.Sldns.Dname.{
  Scan, Round, again, leave, give, size_sub, print_text, clip, compressed, label, round, hex_mask,
}

module _ (buf p : Bytes) (n bound : ℕ) where
  clip-packet :
      (labellen d dlen pos rest counter w : ℕ) (o : Output)
      → labellen < 256
      → pos + rest ≡ length p
      → ((clip (with_pkt buf p) labellen (packet d dlen pos counter w o) ≡ rest)
          × (rest ≤ labellen))
        ⊎ ((clip (with_pkt buf p) labellen (packet d dlen pos counter w o) ≡ labellen)
            × (labellen < rest))
  clip-packet labellen d dlen pos rest counter w o small sum =
      elim (Bool-cases (ltb labellen rest)) [
        | inl short ↦ inr (ground arith, ground arith)
        | inr long ↦ inl (ground arith, ground arith)
      ]

  -- Behind the length byte, in the packet.
  label-packet :
      (labellen d dlen pos rest counter left w : ℕ) (o : Output)
      → labellen < 256
      → pos + rest ≡ length p
      → ((rest ≤ labellen) → Reaches p)
      → counter + left ≡ 1001
      → w + 4 * (left * suc (length p) + rest) + 4 ≤ bound
      → IsSafe n o
      → Turneds buf p n bound
          (left * suc (length p) + suc rest)
          (label (with_pkt buf p) labellen (packet d dlen pos counter w o))
  unfolding label
  label-packet labellen d dlen pos rest counter left w o small sum reach total room safe =
      let k = clip (with_pkt buf p) labellen (packet d dlen pos counter w o) in
      let cases = clip-packet labellen d dlen pos rest counter w o small sum in
      let fits : k ≤ rest = elim cases [ inl (e, _) ↦ omega arith | inr (e, l) ↦ omega arith ] in
      let reached : (0 < rest - k) ⊎ Reaches p = elim cases [
        | inl (_, l) ↦ inr (reach l)
        | inr (e, l) ↦ inl (omega arith)
      ] in
      let (w₁, o₁, e₁, safe₁, l₁) =
        spool-Prints buf n bound (some p) false k pos d dlen counter w o (omega arith) safe in
      let (w₂, o₂, e₂, safe₂, l₂) =
        print_text-Prints buf n bound (packet d dlen (pos + k) counter w₁ o₁) (codes ".") safe₁ in
      (
        again (packet d dlen (pos + k) counter (w₁ + w₂) o₂),
        rw (e₁, e₂),
        (
          left * suc (length p) + (rest - k),
          behind d dlen (pos + k) (rest - k) counter left (w₁ + w₂) o₂ (omega arith) reached total
              (omega arith) safe₂,
          omega arith,
        ),
      )

  compressed-packet :
      (k labellen d dlen pos rest counter left w : ℕ) (o : Output)
      → pos + rest ≡ length p
      → counter + left ≡ 1001
      → left * suc (length p) ≤ k
      → w + 4 * (left * suc (length p)) ≤ bound
      → IsSafe n o
      → Turneds buf p n bound k
          (compressed (with_pkt buf p) labellen (packet d dlen pos counter w o))
  unfolding compressed
  compressed-packet k labellen d dlen pos rest counter left w o sum total below room safe =
      elim (Bool-cases (ltb (length p) (pos + 1))) [
        | inl partial ↦ rw partial (
            gives buf p n bound k (packet d dlen pos counter w o) (codes "ErrorPartialDname")
              (omega arith) (omega arith) safe)
        | inr more ↦
            let (low, e) = get_elem?-lt p pos (ground arith) in
            rw (more, e)
              (jump buf p n bound k (bit_and labellen 0x3f * 256 + low) d dlen pos false counter w o
                left total below room safe)
      ]

  compressed-inside :
      (k labellen d dlen counter left w : ℕ) (o : Output)
      → d + dlen ≤ length buf
      → dlen < 2 ^ 64
      → counter + left ≡ 1001
      → left * suc (length p) ≤ k
      → w + 4 * (left * suc (length p)) ≤ bound
      → IsSafe n o
      → Turneds buf p n bound k (compressed (with_pkt buf p) labellen (scan d dlen counter w o))
  unfolding compressed
  compressed-inside k labellen d dlen counter left w o within fits total below room safe =
      elim (Bool-cases (dlen == 0)) [
        | inl empty ↦ rw empty (
            gives buf p n bound k (scan d dlen counter w o) (codes "ErrorPartialDname")
              (omega arith) (omega arith) safe)
        | inr more ↦
            let (low, e) = get_elem?-lt buf d (ground arith) in
            rw (more, e)
              (jump buf p n bound k (bit_and labellen 0x3f * 256 + low) (d + 1) (size_sub dlen 1) d
                true counter w o left total below room safe)
      ]

  unknown_type :
      (k labellen : ℕ) (s : Scan)
      → s.w ≤ bound
      → IsSafe n s.out
      → Turneds buf p n bound k (
          print_text s
            (codes "ErrorLABELTYPE" ++ hex_mask (bit_and labellen 0xc0) ++ codes "IsUnknown")
          >>= λ s'. some (give s'))
  unknown_type k labellen s room safe =
      gives buf p n bound k s
        (codes "ErrorLABELTYPE" ++ hex_mask (bit_and labellen 0xc0) ++ codes "IsUnknown")
        (omega arith) room safe

  pub round-packet :
      (labellen d dlen pos rest counter left w : ℕ) (o : Output)
      → labellen < 256
      → ((labellen == 0) ≡ false)
      → get_elem? p pos ≡ some labellen
      → pos + suc rest ≡ length p
      → counter + left ≡ 1001
      → w + 4 * (left * suc (length p) + suc rest) ≤ bound
      → IsSafe n o
      → Turneds buf p n bound
          (left * suc (length p) + suc rest)
          (round (with_pkt buf p) labellen (packet d dlen pos counter w o))
  unfolding round
  round-packet labellen d dlen pos rest counter left w o small some_byte at sum total room safe =
      elim (Bool-cases (bit_and labellen 0xc0 == 0xc0)) [
        | inl pointer ↦ rw pointer (
            compressed-packet (left * suc (length p) + suc rest) labellen d dlen (pos + 1) rest
              counter left w o (omega arith) total (omega arith) (omega arith) safe)
        | inr other ↦ elim (Bool-cases (bit_and labellen 0xc0 == 0)) [
          | inl plain ↦
              rw (other, plain)
                (label-packet labellen d dlen (pos + 1) rest counter left w o small (omega arith)
                  (λ l. (pos, labellen, at, some_byte, plain, omega arith)) total (omega arith)
                  safe)
          | inr odd ↦
              rw (other, odd)
                (unknown_type (left * suc (length p) + suc rest) labellen
                  (packet d dlen (pos + 1) counter w o) (omega arith) safe)
        ]
      ]

  widen :
      (k counter left room : ℕ) (t : Round)
      → counter + left ≡ 1001
      → room + 4 * (left * suc (length p)) ≤ bound
      → Turn buf n room k counter t
      → Turned buf p n bound (k + left * suc (length p)) t
  widen k counter left room (again s) total fits (r, l, same) =
      (s.dlen + left * suc (length p), inside s left room r (omega arith) fits, omega arith)
  widen k counter left room (leave s) total fits ((safe, _), l) = ((safe, omega arith), omega arith)
  widen k counter left room (give s) total fits (safe, l) = (safe, omega arith)

  pub round-inside :
      (labellen d dlen counter left w room : ℕ) (o : Output)
      → labellen < 256
      → 0 < dlen
      → d + dlen ≤ length buf
      → dlen < 2 ^ 64
      → w + 4 * dlen ≤ room
      → IsSafe n o
      → counter + left ≡ 1001
      → room + 4 * (left * suc (length p)) ≤ bound
      → Turneds buf p n bound
          (dlen + left * suc (length p))
          (round (with_pkt buf p) labellen (scan d dlen counter w o))
  unfolding round
  round-inside labellen d dlen counter left w room o small more within fits used safe total enough =
      let left_over : size_sub dlen 1 ≡ dlen - 1 = size_sub_lem dlen 1 more fits in
      elim (Bool-cases (bit_and labellen 0xc0 == 0xc0)) [
        | inl pointer ↦
            rw (pointer, left_over)
              (compressed-inside (dlen + left * suc (length p)) labellen (d + 1) (dlen - 1) counter
                left w o (omega arith) (omega arith) total (omega arith) (omega arith) safe)
        | inr other ↦ elim (Bool-cases (bit_and labellen 0xc0 == 0)) [
          | inl plain ↦
              let (t, e, turn) =
                label-Turns buf n room (some p) dlen labellen (d + 1) (dlen - 1) counter w o
                  (omega arith) small (omega arith, omega arith, omega arith, safe) in
              rw (other, plain, left_over) (t, e, widen dlen counter left room t total enough turn)
          | inr odd ↦
              rw (other, odd, left_over)
                (unknown_type (dlen + left * suc (length p)) labellen
                  (scan (d + 1) (dlen - 1) counter w o) (omega arith) safe)
        ]
      ]
