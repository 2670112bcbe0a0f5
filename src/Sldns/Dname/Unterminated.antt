-- ===== src/Sldns/Dname/Unterminated.antt =====
-- The plain printout of a character stores no terminator: what a label at the end of the input leaves in
-- the buffer.
use unbound4j.Base.{
  ℕ, suc, ◌+◌, ◌≤◌, ◌≡◌, refl, subst, ◌∙◌, true, false, ◌&&◌, bit_and, bit_and-c0, some, [], ◌∷◌,
  ◌++◌, append_assoc, append-nil, Bytes, length, drop, ltb, All, ◌==◌, arith,
}
use unbound4j.Sldns.Output.Text.{written}
use unbound4j.Sldns.Escape.{is_special, isascii, isgraph}
use unbound4j.Sldns.Escape.Format.{plain-prints}
use unbound4j.Sldns.Dname.Wire.{IsLabel, Reads, Reads-here}
use unbound4j.Sldns.Dname.Body.{no_pkt, size_sub_lem}
use unbound4j.Sldns.Dname.{
  Scan, size_sub, spool, label, round, finish, next, loop, dname_scan, rdata_scan, rdata_buf,
}

-- A character that is printed as it is.
abbrev pub IsPlain : ℕ → Type 0
IsPlain c = (is_special c ≡ false) × ((isascii c && isgraph c) ≡ true)

spool-plain :
    (buf cs : Bytes) (p d dlen counter w : ℕ) (t r : Bytes)
    → Reads buf p cs
    → All IsPlain cs
    → length cs ≤ length r
    → spool (no_pkt buf) (length cs) (record {
      d = d;
      dlen = dlen;
      pos = p;
      in_buf = true;
      counter = counter;
      w = w;
      out = written t r;
    })
      ≡ some (record {
        d = d;
        dlen = dlen;
        pos = p + length cs;
        in_buf = true;
        counter = counter;
        w = w + length cs;
        out = written (t ++ cs) (drop (length cs) r);
      })
unfolding spool
spool-plain buf [] p d dlen counter w t r at plainly room =
    let e : p + 0 ≡ p = omega arith in let e' : w + 0 ≡ w = omega arith in rw (e, e', append-nil)
spool-plain buf (c ∷ cs) p d dlen counter w t [] at plainly room = absurd (omega arith)
spool-plain buf (c ∷ cs) p d dlen counter w t (x ∷ r) (at, ats) ((ordinary, printable), plainly)
      room =
    let first = plain-prints c t r x ordinary printable in
    let shift : p + 1 + length cs ≡ p + suc (length cs) = omega arith in
    let total : w + 1 + length cs ≡ w + suc (length cs) = omega arith in
    let rest =
      spool-plain buf cs (p + 1) d dlen counter (w + 1) (t ++ c ∷ []) r ats plainly (omega arith) in
    let joined = append_assoc t (c ∷ []) cs in rw (at, first, ← shift, ← total, ← joined) rest

-- For a name of one label of characters that are printed as they are, without a root label
-- behind it, and a buffer with room for them, the scan returns the length of the label and
-- stores its characters and nothing behind them: the text has no terminator of its own.
pub rdata_buf-unterminated :
    (l mem : Bytes) (rrtype : ℕ)
    → IsLabel l
    → All IsPlain l
    → length l ≤ length mem
    → (s : Scan) × (rdata_buf
          (length l ∷ l)
          (suc (length l))
          (record { mem = mem; at = some 0; room = length mem })
          rrtype
        ≡ some (some s))
      × (s.w ≡ length l)
      × (s.out.mem ≡ l ++ drop (length l) mem)
unfolding rdata_buf rdata_scan dname_scan loop round label next finish
rdata_buf-unterminated l mem rrtype (some_byte, short, bytes) plainly room =
    let buf = length l ∷ l in
    let mask = bit_and-c0 (length l) (omega arith) in
    let not_pointer : (bit_and (length l) 0xc0 == 0xc0) ≡ false = rw mask (ground arith) in
    let is_plain : (bit_and (length l) 0xc0 == 0) ≡ true = rw mask (ground arith) in
    let labelled : (length l == 0) ≡ false = ground arith in
    let counted : (suc (length l) == 0) ≡ false = ground arith in
    let left : size_sub (suc (length l)) 1 ≡ length l =
      size_sub_lem (suc (length l)) 1 (omega arith) (omega arith) ∙ omega arith in
    let whole : ltb (length l) (length l) ≡ false = ground arith in
    let at : Reads buf 1 l =
      subst (λ b. Reads b 1 l) (append-nil (length l ∷ l))
        (Reads-here (length l ∷ []) l [] 1 refl) in
    let sum : 0 + length l ≡ length l = omega arith in
    let spooled = spool-plain buf l 1 1 (length l) 0 0 [] mem at plainly room in
    let empty : size_sub (length l) (length l) ≡ 0 =
      size_sub_lem (length l) (length l) (omega arith) (omega arith) ∙ omega arith in
    (
      record {
        d = 1 + length l;
        dlen = 0;
        pos = 1 + length l;
        in_buf = true;
        counter = 0;
        w = length l;
        out = written l (drop (length l) mem);
      },
      rw (counted, labelled, not_pointer, is_plain, left, whole, spooled, empty, sum, labelled),
      refl,
      refl,
    )
