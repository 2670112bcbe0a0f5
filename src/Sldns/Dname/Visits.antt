-- ===== src/Sldns/Dname/Visits.antt =====
-- One round of the name scan at each part of a compressed name, in the input or in the packet.
use unbound4j.Base.{
  ℕ, suc, ◌+◌, ◌-◌, ◌*◌, ◌^◌, ◌≤◌, ◌<◌, ◌≡◌, refl, ◌∙◌, Bool, true, false, bit_and, bit_and-c0,
  bit_and-3f, some, [], ◌∷◌, ◌++◌, append-nil, Bytes, length, drop, get_elem?, leb, ltb, ◌==◌,
  ◌>>=◌, arith, length-append,
}
use unbound4j.Sldns.Output.{Output}
use unbound4j.Sldns.Output.Text.{written, str_print-written}
use unbound4j.Sldns.Escape.Format.{escape_all}
use unbound4j.Sldns.Dname.Wire.{IsLabel, Reads}
use unbound4j.Sldns.Dname.Body.{scan, size_sub_lem}
use unbound4j.Sldns.Dname.Packet.{with_pkt, packet}
use unbound4j.Sldns.Dname.Labels.{round-label, round-label-packet}
use unbound4j.Sldns.Dname.Format.{Prints}
use unbound4j.Sldns.Dname.Compressed.{limit, full_text}
use unbound4j.Sldns.Dname.{
  Scan, region, size_sub, skip, maxcompr, print_text, compressed, round, finish, next, loop,
}

-- A pointer with its target below 2^14.
pointer-bits :
    (high low : ℕ)
    → high < 64
    → ((192 + high == 0) ≡ false)
      × ((bit_and (192 + high) 0xc0 == 0xc0) ≡ true)
      × (bit_and (192 + high) 0x3f ≡ high)
pointer-bits high low small =
    let mask = bit_and-c0 (192 + high) (omega arith) in
    (ground arith, rw mask (ground arith), bit_and-3f (192 + high) (omega arith) ∙ omega arith)

-- Nothing is printed yet, or a terminator stands behind the text.
abbrev pub IsEnded : Bytes → Bytes → Type 0
IsEnded [] r = Unit {0}
IsEnded (c ∷ t) r = (r' : Bytes) × (r ≡ 0 ∷ r')

pub ends : (t r : Bytes) → IsEnded t (0 ∷ r)
ends [] r = tt
ends (c ∷ t) r = (r, refl)

module _ (buf p : Bytes) (dlen : ℕ) (fits : dlen < 2 ^ 64) where
  -- The state at an offset; `d` and `rest` are what is left of the input behind a pointer.
  abbrev pub state : Bool → (d rest pos counter w : ℕ) → Output → Scan
  state true d rest pos counter w o = scan pos (dlen - pos) counter w o
  state false d rest pos counter w o = packet d rest pos counter w o

  pub loop-label :
      (in_buf : Bool) (fuel d rest pos counter : ℕ) (l t r : Bytes)
      → IsLabel l
      → Reads (region (with_pkt buf p) in_buf) pos (length l ∷ l)
      → pos + 1 + length l < limit dlen p in_buf
      → length (escape_all l) + 1 < length r
      → let t' = t ++ (escape_all l ++ b'.' ∷ []) in
        (r' : Bytes) × (loop
            (with_pkt buf p)
            (suc fuel)
            (state in_buf d rest pos counter (length t) (written t r))
          ≡ loop
              (with_pkt buf p)
              fuel
              (state in_buf d rest (pos + 1 + length l) counter (length t') (written t' (0 ∷ r'))))
        × (length t' + suc (length r') ≡ length t + length r)
  unfolding loop next
  loop-label true fuel d rest pos counter l t r hl at inside room =
      let (r', e, left) =
        round-label buf (some p) l pos (dlen - pos) counter (length t) t r hl at (omega arith)
          (omega arith) room in
      let labelled : (length l == 0) ≡ false = ground (arith, hl.0) in
      let ahead : dlen - pos - 1 - length l ≡ dlen - (pos + 1 + length l) = omega arith in
      let dot = escape_all l ++ b'.' ∷ [] in
      let count = length-append t dot in
      (r', rw (at.0, labelled, e, ahead, count) refl, omega (arith, count))
  loop-label false fuel d rest pos counter l t r hl at inside room =
      let (r', e, left) =
        round-label-packet buf p l d rest pos counter (length t) t r hl at (omega arith) room in
      let labelled : (length l == 0) ≡ false = ground (arith, hl.0) in
      let dot = escape_all l ++ b'.' ∷ [] in
      let count = length-append t dot in
      (r', rw (at.0, labelled, e, count) refl, omega (arith, count))

  pub loop-pointer :
      (in_buf : Bool) (fuel d rest pos counter high low w : ℕ) (o : Output)
      → high < 64
      → Reads (region (with_pkt buf p) in_buf) pos ((192 + high) ∷ low ∷ [])
      → pos + 1 < limit dlen p in_buf
      → high * 256 + low < length p
      → counter ≤ 1000
      → (d' : ℕ) × (rest' : ℕ) × (loop
            (with_pkt buf p)
            (suc fuel)
            (state in_buf d rest pos counter w o)
          ≡ loop (with_pkt buf p) fuel (packet d' rest' (high * 256 + low) (counter + 1) w o))
  unfolding loop round compressed next
  loop-pointer true fuel d rest pos counter high low w o small (first, (second, _)) inside target
        few =
      let (marked, is_pointer, bits) = pointer-bits high low small in
      let one : size_sub (dlen - pos) 1 ≡ dlen - pos - 1 =
        size_sub_lem (dlen - pos) 1 (omega arith) (omega arith) in
      let more : (dlen - pos - 1 == 0) ≡ false = ground arith in
      let within : leb (length p) (high * 256 + low) ≡ false = ground arith in
      let fresh : ltb maxcompr counter ≡ false = ground arith in
      (
        pos + 1 + 1,
        size_sub (dlen - pos - 1) 1,
        rw (first, marked, is_pointer, one, more, second, bits, within, fresh),
      )
  loop-pointer false fuel d rest pos counter high low w o small (first, (second, _)) inside target
        few =
      let (marked, is_pointer, bits) = pointer-bits high low small in
      let whole : ltb (length p) (pos + 1 + 1) ≡ false = ground arith in
      let within : leb (length p) (high * 256 + low) ≡ false = ground arith in
      let fresh : ltb maxcompr counter ≡ false = ground arith in
      (d, rest, rw (first, marked, is_pointer, whole, second, bits, within, fresh))

  -- Behind the loop, with the text that was printed.
  pub finish-full :
      (in_buf : Bool) (d rest pos counter : ℕ) (t r : Bytes)
      → pos < limit dlen p in_buf
      → IsEnded t r
      → length (full_text t []) < length t + length r
      → Prints buf
          (finish (state in_buf d rest pos counter (length t) (written t r)) >>= λ s. some (some s))
          (length (full_text t []))
          (full_text t [])
  unfolding finish print_text
  finish-full true d rest pos counter [] r inside ended room =
      let left : ltb 0 (dlen - pos) ≡ true = ground arith in
      let printed = str_print-written [] r (b'.' ∷ []) (omega arith) (omega arith) in
      (
        record (skip (scan pos (dlen - pos) counter 0 (written [] r)) 1) {
          w = 0 + 1;
          out = written (b'.' ∷ []) (0 ∷ drop 2 r);
        },
        drop 2 r,
        rw (left, printed),
        refl,
        refl,
      )
  finish-full false d rest pos counter [] r inside ended room =
      let printed = str_print-written [] r (b'.' ∷ []) (omega arith) (omega arith) in
      (
        packet d rest pos counter (0 + 1) (written (b'.' ∷ []) (0 ∷ drop 2 r)),
        drop 2 r,
        rw printed,
        refl,
        refl,
      )
  finish-full true d rest pos counter (c ∷ t) r inside (r', e) room =
      let texty : (length (c ∷ t) == 0) ≡ false = ground arith in
      let left : ltb 0 (dlen - pos) ≡ true = ground arith in
      (
        skip (scan pos (dlen - pos) counter (length (c ∷ t)) (written (c ∷ t) r)) 1,
        r',
        rw (left, texty),
        rw append-nil refl,
        rw (e, append-nil) refl,
      )
  finish-full false d rest pos counter (c ∷ t) r inside (r', e) room =
      let texty : (length (c ∷ t) == 0) ≡ false = ground arith in
      (
        packet d rest pos counter (length (c ∷ t)) (written (c ∷ t) r),
        r',
        rw texty,
        rw append-nil refl,
        rw (e, append-nil) refl,
      )

  pub loop-root :
      (in_buf : Bool) (fuel d rest pos counter w : ℕ) (o : Output)
      → get_elem? (region (with_pkt buf p) in_buf) pos ≡ some 0
      → loop (with_pkt buf p) (suc fuel) (state in_buf d rest pos counter w o)
        ≡ (finish (state in_buf d rest pos counter w o) >>= λ s. some (some s))
  unfolding loop
  loop-root true fuel d rest pos counter w o at = rw at
  loop-root false fuel d rest pos counter w o at = rw at
