-- ===== src/Sldns/Dname/Decompress.antt =====
-- What the scan prints for a compressed name.
use unbound4j.Base.{
  ℕ, zero, suc, ◌+◌, ◌-◌, ◌*◌, ◌^◌, ◌≤◌, ◌<◌, ◌≡◌, refl, ap, ◌∙◌, Bool, true, false, Option, some,
  List, [], ◌∷◌, ◌++◌, Bytes, length, drop, get_elem?, ◌==◌, arith, length-append, ◌⊎◌, inl, inr,
}
use native.Mathlib.Nat.{mul-le-mul_right}
use unbound4j.Sldns.Output.Text.{written, str_print-written}
use unbound4j.Sldns.Escape.Format.{escape_all}
use unbound4j.Sldns.Dname.Wire.{labels_text, name_text}
use unbound4j.Sldns.Dname.Packet.{with_pkt}
use unbound4j.Sldns.Dname.Format.{Prints}
use unbound4j.Sldns.Dname.Compressed.{
  limit, Spells, at_root, at_label, at_pointer, Spells-inside, full_text, full_text-label,
  full_text-step,
}
use unbound4j.Sldns.Dname.{Scan, skip, print_text, loop, dname_scan, start}
use unbound4j.Sldns.Dname.Visits.{
  IsEnded, ends, state, loop-label, loop-pointer, finish-full, loop-root,
}

module _ (buf p : Bytes) (dlen : ℕ) (fits : dlen < 2 ^ 64) where
  rest-Prints :
      (x y : Option (Option Scan)) (w : ℕ) (text : Bytes)
      → x ≡ y
      → Prints buf y w text
      → Prints buf x w text
  rest-Prints x y w text e (s, r, e', count, out) = (s, r, e ∙ e', count, out)

  loop-Prints :
      (in_buf : Bool) (pos pointers : ℕ) (ls : List Bytes)
      → Spells buf p dlen in_buf pos pointers ls
      → (fuel d rest counter : ℕ) (t r : Bytes)
      → limit dlen p in_buf + pointers * suc (length p) ≤ fuel + pos
      → counter + pointers ≤ 1001
      → IsEnded t r
      → length (full_text t ls) < length t + length r
      → Prints buf
          (loop
            (with_pkt buf p)
            fuel
            (state buf p dlen fits in_buf d rest pos counter (length t) (written t r)))
          (length (full_text t ls))
          (full_text t ls)
  loop-Prints in_buf pos pointers ls name zero d rest counter t r enough few ended room =
      absurd (omega (arith, Spells-inside buf p dlen in_buf pos pointers ls name))
  loop-Prints _ _ _ _ (at_root in_buf pos inside zero_byte) (suc fuel) d rest counter t r enough few
        ended room =
      rest-Prints _ _ _ _
        (loop-root buf p dlen fits in_buf fuel d rest pos counter (length t) (written t r)
          zero_byte)
        (finish-full buf p dlen fits in_buf d rest pos counter t r inside ended room)
  loop-Prints _ _ _ _ (at_label in_buf pos pointers l ls hl at inside name) (suc fuel) d rest
        counter t r enough few ended room =
      let dot = escape_all l ++ b'.' ∷ [] in
      let step = full_text-step t l ls in
      let whole = ap (λ (s : Bytes). length s) (full_text-label t l ls) in
      let size₁ = length-append t (dot ++ labels_text ls) in
      let size₂ = length-append dot (labels_text ls) in
      let size₃ = length-append (escape_all l) (b'.' ∷ []) in
      let fits_one : length (escape_all l) + 1 < length r =
        omega (arith, whole, size₁, size₂, size₃) in
      let (r', e, left) =
        loop-label buf p dlen fits in_buf fuel d rest pos counter l t r hl at inside fits_one in
      rest-Prints _ _ _ _ e (
        rw (← step) (
          loop-Prints in_buf (pos + 1 + length l) pointers ls name fuel d rest counter (t ++ dot)
            (0 ∷ r') (omega arith) few (ends (t ++ dot) r') (rw step (omega arith))))
  loop-Prints _ _ _ _ (at_pointer in_buf pos pointers high low ls small at inside target name)
        (suc fuel) d rest counter t r enough few ended room =
      let (d', rest', e) =
        loop-pointer buf p dlen fits in_buf fuel d rest pos counter high low (length t)
          (written t r) small at inside target (omega arith) in
      rest-Prints _ _ _ _ e (
        loop-Prints false (high * 256 + low) pointers ls name fuel d' rest' (counter + 1) t r
          (omega arith) (omega arith) ended room)

  first_byte :
      (pos pointers : ℕ) (ls : List Bytes)
      → Spells buf p dlen true pos pointers ls
      → (c : ℕ) × (get_elem? buf pos ≡ some c) × (((c ≡ 0) × (ls ≡ [])) ⊎ ((c == 0) ≡ false))
  first_byte _ _ _ (at_root true pos inside zero_byte) = (0, zero_byte, inl (refl, refl))
  first_byte _ _ _ (at_label true pos pointers l ls hl at inside name) =
      (length l, at.0, inr (ground (arith, hl.0)))
  first_byte _ _ _ (at_pointer true pos pointers high low ls small at inside target name) =
      (192 + high, at.0, inr (ground arith))

  -- If a compressed name at the start of the input, whose length fits size_t, spells labels over
  -- at most 1001 pointers into the packet, in the sense of RFC 1035, and the text of the labels is
  -- shorter than the buffer, then sldns_wire2str_dname_scan, with the fuel dlen + 1001 (pktlen +
  -- 1) + 1, returns the length of that text and leaves it in the buffer with a terminator behind
  -- it.
  pub dname_scan-Prints :
      (pointers : ℕ) (ls : List Bytes) (mem : Bytes)
      → Spells buf p dlen true 0 pointers ls
      → pointers ≤ 1001
      → length (name_text ls) < length mem
      → Prints buf
          (dname_scan (with_pkt buf p) (suc (dlen + 1001 * suc (length p))) dlen (written [] mem))
          (length (name_text ls))
          (name_text ls)
  unfolding dname_scan
  dname_scan-Prints pointers ls mem name few room =
      let fuel = suc (dlen + 1001 * suc (length p)) in
      let more : (dlen == 0) ≡ false =
        ground (arith, Spells-inside buf p dlen true 0 pointers ls name) in
      let whole : dlen - 0 ≡ dlen = omega arith in
      let (c, at, kind) = first_byte 0 pointers ls name in
      elim kind [
        | inl (zero_byte, no_labels) ↦
            let at_zero : get_elem? buf 0 ≡ some 0 = at ∙ ap some zero_byte in
            let dot : length (name_text []) < length mem = rw no_labels at room in
            let printed = str_print-written [] mem (b'.' ∷ []) dot (omega arith) in
            let s = record (skip (start dlen (written [] mem)) 1) {
              w = 0 + 1;
              out = written (b'.' ∷ []) (0 ∷ drop 2 mem);
            } in
            rw no_labels
              (s, drop 2 mem, unfold print_text in rw (more, at_zero, printed), refl, refl)
        | inr some_byte ↦
            rest-Prints _
              (loop (with_pkt buf p) fuel (state buf p dlen fits true 0 0 0 0 0 (written [] mem))) _
              _ (rw (more, at, some_byte, whole) refl)
              (loop-Prints true 0 pointers ls name fuel 0 0 0 [] mem
                (omega (arith, mul-le-mul_right (suc (length p)) few)) (omega arith) tt
                (omega arith))
      ]
