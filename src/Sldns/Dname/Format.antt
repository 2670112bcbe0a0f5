-- ===== src/Sldns/Dname/Format.antt =====
-- What the scan prints for a well-formed name: the presentation format of its labels.
use unbound4j.Base.{
  ℕ, zero, suc, ◌+◌, ◌-◌, ◌^◌, ◌≤◌, ◌<◌, ◌≡◌, refl, sym, subst, ap, ◌∙◌, true, false, Option, none,
  some, List, [], ◌∷◌, ◌++◌, append_assoc, append-nil, Bytes, length, drop, ltb, ◌==◌, arith,
  length-append, All,
}
use unbound4j.Sldns.Output.Text.{written, str_print-written}
use unbound4j.Sldns.Escape.Format.{escape_all}
use unbound4j.Sldns.Dname.Wire.{
  labels_text, name_text, wire, IsLabel, Reads, Reads-append, Reads-here, wire_pos,
}
use unbound4j.Sldns.Dname.Labels.{round-label}
use unbound4j.Sldns.Dname.Body.{no_pkt, scan}
use unbound4j.Sldns.Dname.{
  Scan, size_sub, skip, print_text, finish, next, loop, dname_scan, rdata_scan, rdata_buf,
}

module _ (buf : Bytes) where
  -- So the loop goes on behind the label.
  loop-label :
      (fuel : ℕ) (l : Bytes) (d dlen counter w : ℕ) (t r : Bytes)
      → IsLabel l
      → Reads buf d (length l ∷ l)
      → length l + 1 < dlen
      → dlen < 2 ^ 64
      → length (escape_all l) + 1 < length r
      → (r' : Bytes) × (loop (no_pkt buf) (suc fuel) (scan d dlen counter w (written t r))
          ≡ loop (no_pkt buf) fuel (
              scan
                (d + 1 + length l)
                (dlen - 1 - length l)
                counter
                (w + length (escape_all l ++ b'.' ∷ []))
                (written (t ++ (escape_all l ++ b'.' ∷ [])) (0 ∷ r'))))
        × (length r' + length (escape_all l ++ b'.' ∷ []) + 1 ≡ length r)
  unfolding loop next
  loop-label fuel l d dlen counter w t r hl at more fits room =
      let (r', e, left) = round-label buf none l d dlen counter w t r hl at more fits room in
      let labelled : (length l == 0) ≡ false = ground (arith, hl.0) in
      (r', rw (at.0, labelled, e), left)

  abbrev pub Prints : Option (Option Scan) → ℕ → Bytes → Type 0
  Prints result w text =
      (s : Scan) × (r : Bytes) × (result ≡ some (some s))
      × (s.w ≡ w)
      × (s.out ≡ written text (0 ∷ r))

  -- The print of a label joined to that of the labels behind it.
  join-Prints :
      (l : Bytes) (ls : List Bytes) (w : ℕ) (t : Bytes) (x y : Option (Option Scan))
      → x ≡ y
      → Prints y
          (w + length (escape_all l ++ b'.' ∷ []) + length (labels_text ls))
          ((t ++ (escape_all l ++ b'.' ∷ [])) ++ labels_text ls)
      → Prints x (w + length (labels_text (l ∷ ls))) (t ++ labels_text (l ∷ ls))
  join-Prints l ls w t x y e (s, r, e', count, text) = (
    s,
    r,
    e ∙ e',
    omega (arith, length-append (escape_all l ++ b'.' ∷ []) (labels_text ls)),
    text
        ∙ ap (λ (z : Bytes). written z (0 ∷ r))
            (append_assoc t (escape_all l ++ b'.' ∷ []) (labels_text ls)),
  )

  -- The labels behind the first one, up to the root label.
  loop-labels :
      (fuel : ℕ) (ls : List Bytes) (d dlen counter w : ℕ) (t r : Bytes)
      → All IsLabel ls
      → Reads buf d (wire ls)
      → length (wire ls) ≤ dlen
      → dlen < 2 ^ 64
      → dlen < fuel
      → 0 < w
      → length (labels_text ls) ≤ length r
      → Prints
          (loop (no_pkt buf) fuel (scan d dlen counter w (written t (0 ∷ r))))
          (w + length (labels_text ls))
          (t ++ labels_text ls)
  loop-labels zero ls d dlen counter w t r hls at inside fits fuelled some_text room =
      absurd (omega arith)
  loop-labels (suc fuel) [] d dlen counter w t r hls at inside fits fuelled some_text room =
      let texty : (w == 0) ≡ false = ground arith in
      let left : ltb 0 dlen ≡ true = ground arith in
      (
        skip (scan d dlen counter w (written t (0 ∷ r))) 1,
        r,
        unfold loop finish in rw (at.0, left, texty),
        omega arith,
        ap (λ (x : Bytes). written x (0 ∷ r)) (sym (append-nil t)),
      )
  loop-labels (suc fuel) (l ∷ ls) d dlen counter w t r (hl, hls) at inside fits fuelled some_text
        room =
      let n = length-append l (wire ls) in
      let m = length-append (escape_all l ++ b'.' ∷ []) (labels_text ls) in
      let k = length-append (escape_all l) (b'.' ∷ []) in
      let (here, behind) = Reads-append buf (length l ∷ l) (wire ls) d at in
      let (r₁, e, left) =
        loop-label fuel l d dlen counter w t (0 ∷ r) hl here (omega (arith, n, wire_pos ls)) fits
          (omega (arith, m, k)) in
      let shift : d + suc (length l) ≡ d + 1 + length l = omega arith in
      join-Prints l ls w t _ _ e (
        loop-labels fuel ls (d + 1 + length l) (dlen - 1 - length l) counter
          (w + length (escape_all l ++ b'.' ∷ [])) (t ++ (escape_all l ++ b'.' ∷ [])) r₁ hls
          (rw shift at behind) (omega (arith, n)) (omega arith) (omega arith) (omega arith)
          (omega (arith, m)))

-- For a name of well-formed labels on the wire, whose length fits size_t and whose text is
-- shorter than the buffer, the scan leaves the presentation format of the labels in the buffer,
-- a terminator behind it, and returns its length.
pub rdata_buf-Prints :
    (ls : List Bytes) (rest mem : Bytes) (rdata_len rrtype : ℕ)
    → All IsLabel ls
    → length (wire ls) ≤ rdata_len
    → rdata_len < 2 ^ 64
    → length (name_text ls) < length mem
    → Prints
        (wire ls ++ rest)
        (rdata_buf
          (wire ls ++ rest)
          rdata_len
          (record { mem = mem; at = some 0; room = length mem })
          rrtype)
        (length (name_text ls))
        (name_text ls)
unfolding rdata_buf rdata_scan dname_scan
rdata_buf-Prints [] rest mem rdata_len rrtype hls inside fits room =
    let some_input : (rdata_len == 0) ≡ false = ground arith in
    let printed = str_print-written [] mem (b'.' ∷ []) room (omega arith) in
    (
      record {
        d = 1;
        dlen = size_sub rdata_len 1;
        pos = 0;
        in_buf = true;
        counter = 0;
        w = 0 + 1;
        out = written (b'.' ∷ []) (0 ∷ drop 2 mem);
      },
      drop 2 mem,
      unfold print_text in rw (some_input, printed),
      omega arith,
      refl,
    )
rdata_buf-Prints (l ∷ ls) rest mem rdata_len rrtype (hl, hls) inside fits room =
    let buf = wire (l ∷ ls) ++ rest in
    let some_input : (rdata_len == 0) ≡ false = ground arith in
    let labelled : (length l == 0) ≡ false = ground (arith, hl.0) in
    let n = length-append l (wire ls) in
    let m = length-append (escape_all l ++ b'.' ∷ []) (labels_text ls) in
    let k = length-append (escape_all l) (b'.' ∷ []) in
    let (here, behind) =
      Reads-append buf (length l ∷ l) (wire ls) 0 (Reads-here [] (wire (l ∷ ls)) rest 0 refl) in
    let (r, e, left) =
      loop-label buf rdata_len l 0 rdata_len 0 0 [] mem hl here (omega (arith, n, wire_pos ls)) fits
        (omega (arith, m, k)) in
    let from_zero : 0 + length (name_text (l ∷ ls)) ≡ length (name_text (l ∷ ls)) = omega arith in
    let shift : 0 + suc (length l) ≡ 0 + 1 + length l = omega arith in
    rw (some_input, labelled)
      (subst
        (λ count.
          Prints buf (loop (no_pkt buf) (suc rdata_len) (scan 0 rdata_len 0 0 (written [] mem)))
            count (name_text (l ∷ ls)))
        from_zero
        (join-Prints buf l ls 0 [] _ _ e (
          loop-labels buf rdata_len ls (0 + 1 + length l) (rdata_len - 1 - length l) 0
            (0 + length (escape_all l ++ b'.' ∷ [])) ([] ++ (escape_all l ++ b'.' ∷ [])) r hls
            (rw shift at behind) (omega (arith, n)) (omega arith) (omega arith) (omega (arith, k))
            (omega (arith, m)))))
