-- ===== src/Sldns/Dname/Labels.antt =====
-- A round of the loop of the name scan at a well-formed label.
use unbound4j.Base.{
  ℕ, suc, ◌+◌, ◌-◌, ◌^◌, ◌≤◌, ◌<◌, ◌≡◌, ap, Bool, true, Option, false, bit_and, bit_and-c0, some,
  [], ◌∷◌, ◌++◌, append_assoc, append-nil, Bytes, length, drop, ltb, ◌==◌, arith, length-append,
  length-drop,
}
use unbound4j.Sldns.Output.Text.{written, str_print-written}
use unbound4j.Sldns.Escape.Format.{escape, escape_all, char-Adds}
use unbound4j.Sldns.Dname.Wire.{IsLabel, Reads}
use unbound4j.Sldns.Dname.Body.{scan, size_sub_lem}
use unbound4j.Sldns.Dname.Packet.{with_pkt, packet}
use unbound4j.Sldns.Dname.{Input, region, again, size_sub, print_text, spool, label, round}

module _ (inp : Input) (in_buf : Bool) where
  -- The characters are read from the input or from the packet.
  pub spool-Adds :
      (cs : Bytes) (p d dlen counter w : ℕ) (t r : Bytes)
      → Reads (region inp in_buf) p cs
      → length (escape_all cs) < length r
      → (r' : Bytes) × (spool inp (length cs) (record {
        d = d;
        dlen = dlen;
        pos = p;
        in_buf = in_buf;
        counter = counter;
        w = w;
        out = written t r;
      })
          ≡ some (record {
            d = d;
            dlen = dlen;
            pos = p + length cs;
            in_buf = in_buf;
            counter = counter;
            w = w + length (escape_all cs);
            out = written (t ++ escape_all cs) r';
          }))
        × (length r' + length (escape_all cs) ≡ length r)
  unfolding spool
  spool-Adds [] p d dlen counter w t r at room =
      let e : p + 0 ≡ p = omega arith in
      let e' : w + 0 ≡ w = omega arith in (r, rw (e, e', append-nil), omega arith)
  spool-Adds (c ∷ cs) p d dlen counter w t r at room =
      let sum = length-append (escape c) (escape_all cs) in
      let (r₁, e₁, l₁) = char-Adds t r c (omega (arith, sum)) in
      let (r₂, e₂, l₂) =
        spool-Adds cs (p + 1) d dlen counter (w + length (escape c)) (t ++ escape c) r₁ at.1
          (omega (arith, sum)) in
      let shift : p + 1 + length cs ≡ p + suc (length cs) = omega arith in
      let total : w + length (escape c) + length (escape_all cs)
          ≡ w + length (escape c ++ escape_all cs) =
        omega (arith, sum) in
      (r₂, rw (at.0, e₁, ← shift, ← total, ← append_assoc) e₂, omega (arith, sum))

-- The length byte of a label is not marked as a pointer or an unknown type.
masks :
    (l : Bytes)
    → IsLabel l
    → ((bit_and (length l) 0xc0 == 0xc0) ≡ false) × ((bit_and (length l) 0xc0 == 0) ≡ true)
masks l (_, short, _) =
    let mask = bit_and-c0 (length l) (omega arith) in
    (rw mask (ground arith), rw mask (ground arith))

module _ (buf : Bytes) (pkt : Option Bytes) where
  -- A length byte and its label, with input left behind them.
  pub round-label :
      (l : Bytes) (d dlen counter w : ℕ) (t r : Bytes)
      → IsLabel l
      → Reads buf d (length l ∷ l)
      → length l + 1 < dlen
      → dlen < 2 ^ 64
      → length (escape_all l) + 1 < length r
      → (r' : Bytes) × (round
            (record { buf = buf; pkt = pkt })
            (length l)
            (scan d dlen counter w (written t r))
          ≡ some (
              again (
                scan
                  (d + 1 + length l)
                  (dlen - 1 - length l)
                  counter
                  (w + length (escape_all l ++ b'.' ∷ []))
                  (written (t ++ (escape_all l ++ b'.' ∷ [])) (0 ∷ r')))))
        × (length r' + length (escape_all l ++ b'.' ∷ []) + 1 ≡ length r)
  unfolding round label print_text
  round-label l d dlen counter w t r hl (_, at) more fits room =
      let (not_pointer, is_plain) = masks l hl in
      let left : size_sub dlen 1 ≡ dlen - 1 = size_sub_lem dlen 1 (omega arith) fits in
      let whole : ltb (dlen - 1) (length l) ≡ false = ground arith in
      let (r₁, e₁, l₁) =
        spool-Adds (record { buf = buf; pkt = pkt }) true l (d + 1) (d + 1) (dlen - 1) counter w t r
          at (omega arith) in
      let left₂ : size_sub (dlen - 1) (length l) ≡ dlen - 1 - length l =
        size_sub_lem (dlen - 1) (length l) (omega arith) (omega arith) in
      let not_last : (dlen - 1 - length l == 0) ≡ false = ground arith in
      let printed =
        str_print-written (t ++ escape_all l) r₁ (b'.' ∷ []) (omega arith) (omega arith) in
      let sum = length-append (escape_all l) (b'.' ∷ []) in
      let total : w + length (escape_all l) + 1 ≡ w + length (escape_all l ++ b'.' ∷ []) =
        omega (arith, sum) in
      let regroup = append_assoc t (escape_all l) (b'.' ∷ []) in
      (
        drop 2 r₁,
        rw (not_pointer, is_plain, left, whole, e₁, left₂, not_last, printed, total)
            (ap
              (λ (x : Bytes). some (
                again (
                  scan (d + 1 + length l) (dlen - 1 - length l) counter
                    (w + length (escape_all l ++ b'.' ∷ [])) (written x (0 ∷ drop 2 r₁)))))
              regroup),
        omega (arith, sum, length-drop 2 r₁),
      )

module _ (buf p : Bytes) where
  -- The same in the packet, where the input is left as it is.
  pub round-label-packet :
      (l : Bytes) (d dlen pos counter w : ℕ) (t r : Bytes)
      → IsLabel l
      → Reads p pos (length l ∷ l)
      → pos + 1 + length l ≤ length p
      → length (escape_all l) + 1 < length r
      → (r' : Bytes) × (round
            (with_pkt buf p)
            (length l)
            (packet d dlen pos counter w (written t r))
          ≡ some (
              again (
                packet d dlen
                  (pos + 1 + length l)
                  counter
                  (w + length (escape_all l ++ b'.' ∷ []))
                  (written (t ++ (escape_all l ++ b'.' ∷ [])) (0 ∷ r')))))
        × (length r' + length (escape_all l ++ b'.' ∷ []) + 1 ≡ length r)
  unfolding round label print_text
  round-label-packet l d dlen pos counter w t r hl (_, at) inside room =
      let (not_pointer, is_plain) = masks l hl in
      let whole : ltb (length p) (pos + 1 + length l) ≡ false = ground arith in
      let (r₁, e₁, l₁) =
        spool-Adds (with_pkt buf p) false l (pos + 1) d dlen counter w t r at (omega arith) in
      let printed =
        str_print-written (t ++ escape_all l) r₁ (b'.' ∷ []) (omega arith) (omega arith) in
      let sum = length-append (escape_all l) (b'.' ∷ []) in
      let total : w + length (escape_all l) + 1 ≡ w + length (escape_all l ++ b'.' ∷ []) =
        omega (arith, sum) in
      let regroup = append_assoc t (escape_all l) (b'.' ∷ []) in
      (
        drop 2 r₁,
        rw (not_pointer, is_plain, whole, e₁, printed, total)
            (ap
              (λ (x : Bytes). some (
                again (
                  packet d dlen (pos + 1 + length l) counter
                    (w + length (escape_all l ++ b'.' ∷ [])) (written x (0 ∷ drop 2 r₁)))))
              regroup),
        omega (arith, sum, length-drop 2 r₁),
      )
