-- ===== src/Sldns/Dname/Body.antt =====
-- One round of the loop, with no packet: it reads inside the input and stores inside the buffer.
use unbound4j.Base.{
  ℕ, zero, suc, ◌+◌, ◌-◌, ◌*◌, ◌^◌, ◌≤◌, ◌<◌, ◌≡◌, refl, inl, inr, Bool, true, bit_and, Option,
  none, some, ◌++◌, Bytes, codes, length, ◌==◌, arith, get_elem?-lt, Bool-cases, ◌>>=◌,
}
use unbound4j.Sldns.Output.{Output}
use unbound4j.Sldns.Output.Safety.{IsSafe, str_print-Keeps}
use unbound4j.Sldns.Escape.Chars.{dname_char_print-Keeps}
use unbound4j.Sldns.Dname.{
  Scan, Input, region, Round, again, leave, give, size_sub, skip, print_text, spool, clip,
  compressed, label, round, hex_mask,
}

pub size_sub_lem : (a b : ℕ) → b ≤ a → a < 2 ^ 64 → size_sub a b ≡ a - b
size_sub_lem a b h l = omega arith

-- The state inside the buffer, where `pos` follows `*d`.
abbrev pub scan : ℕ → ℕ → ℕ → ℕ → Output → Scan
scan d dlen counter w o = record {
  d = d;
  dlen = dlen;
  pos = d;
  in_buf = true;
  counter = counter;
  w = w;
  out = o;
}

-- The input of a name that is not compressed.
abbrev pub no_pkt : Bytes → Input
no_pkt buf = record { buf = buf; pkt = none }

module _ (buf : Bytes) (n bound : ℕ) where
  -- What holds whenever the loop reads `*pos`: there is a byte to read, and the characters that the
  -- rest of the input may still add are within the bound.
  pub data Ready : Scan → Type 0 where
    ready :
        (d dlen counter w : ℕ) (o : Output)
        → 0 < dlen
        → d + dlen ≤ length buf
        → dlen < 2 ^ 64
        → w + 4 * dlen ≤ bound
        → IsSafe n o
        → Ready (scan d dlen counter w o)

  -- What holds at the end.
  abbrev pub Ended : Scan → Type 0
  Ended s = IsSafe n s.out × (s.w ≤ bound + 25)

  abbrev pub Prints : ℕ → Scan → Option Scan → Type 0
  Prints b s r =
      (w : ℕ) × (o : Output) × (r ≡ some (record s { w = s.w + w; out = o })) × IsSafe n o × (w ≤ b)

  pub print_text-Prints :
      (s : Scan) (text : Bytes) → IsSafe n s.out → Prints (length text) s (print_text s text)
  unfolding print_text
  print_text-Prints s text safe =
      let (w, o, e, safe', l) = str_print-Keeps n s.out text safe in (w, o, rw e, safe', l)

  -- The characters are read from the input or from the packet.
  pub spool-Prints :
      (pkt : Option Bytes) (in_buf : Bool) (k p d dlen counter w : ℕ) (o : Output)
      → p + k ≤ length (region (record { buf = buf; pkt = pkt }) in_buf)
      → IsSafe n o
      → (w' : ℕ) × (o' : Output) × (spool
            (record { buf = buf; pkt = pkt })
            k
            (record {
              d = d;
              dlen = dlen;
              pos = p;
              in_buf = in_buf;
              counter = counter;
              w = w;
              out = o;
            })
          ≡ some (record {
            d = d;
            dlen = dlen;
            pos = p + k;
            in_buf = in_buf;
            counter = counter;
            w = w';
            out = o';
          }))
        × IsSafe n o'
        × (w' ≤ w + 4 * k)
  unfolding spool
  spool-Prints pkt in_buf zero p d dlen counter w o h safe =
      let e : p + 0 ≡ p = omega arith in (w, o, rw e, safe, omega arith)
  spool-Prints pkt in_buf (suc k) p d dlen counter w o h safe =
      let (c, e) = get_elem?-lt (region (record { buf = buf; pkt = pkt }) in_buf) p (omega arith) in
      let (w₁, o₁, e₁, safe₁, l₁) = dname_char_print-Keeps n o c safe in
      let (w₂, o₂, e₂, safe₂, l₂) =
        spool-Prints pkt in_buf k (p + 1) d dlen counter (w + w₁) o₁ (omega arith) safe₁ in
      let shift : p + 1 + k ≡ p + suc k = omega arith in
      (w₂, o₂, rw (e, e₁, ← shift) e₂, safe₂, omega arith)

  -- The outcome of a round from a ready state.
  abbrev pub Turn : ℕ → ℕ → Round → Type 0
  Turn dlen counter (again s) = Ready s × (s.dlen < dlen) × (s.counter ≡ counter)
  Turn dlen counter (leave s) = Ended s × (s.w ≤ bound)
  Turn dlen counter (give s) = Ended s

  abbrev pub Turns : ℕ → ℕ → Option Round → Type 0
  Turns dlen counter r = (t : Round) × (r ≡ some t) × Turn dlen counter t

  -- Behind the length byte.
  abbrev pub Open : ℕ → ℕ → ℕ → ℕ → Output → Type 0
  Open d dlen counter w o =
      (d + dlen ≤ length buf) × (dlen < 2 ^ 64) × (w + 4 * dlen + 4 ≤ bound) × IsSafe n o

  clip-le :
      (pkt : Option Bytes) (labellen d dlen counter w : ℕ) (o : Output)
      → labellen < 256
      → clip (record { buf = buf; pkt = pkt }) labellen (scan d dlen counter w o) ≤ dlen
  clip-le pkt labellen d dlen counter w o h = ground arith

  pub label-Turns :
      (pkt : Option Bytes) (k labellen d dlen counter w : ℕ) (o : Output)
      → dlen < k
      → labellen < 256
      → Open d dlen counter w o
      → Turns k counter (label (record { buf = buf; pkt = pkt }) labellen (scan d dlen counter w o))
  unfolding label
  label-Turns pkt top labellen d dlen counter w o below small (inside, fits, room, safe) =
      let k = clip (record { buf = buf; pkt = pkt }) labellen (scan d dlen counter w o) in
      let k_le : k ≤ dlen = clip-le pkt labellen d dlen counter w o small in
      let (w₁, o₁, e₁, safe₁, l₁) =
        spool-Prints pkt true k d d dlen counter w o (omega arith) safe in
      let left : size_sub dlen k ≡ dlen - k = size_sub_lem dlen k k_le fits in
      elim (Bool-cases (dlen - k == 0)) [
        | inl empty ↦ (
          leave (record {
            d = d + k;
            dlen = dlen - k;
            pos = d + k;
            in_buf = true;
            counter = counter;
            w = w₁;
            out = o₁;
          }),
          rw (e₁, left, empty),
          ((safe₁, omega arith), omega arith),
        )
        | inr more ↦
            let (w₂, o₂, e₂, safe₂, l₂) =
              print_text-Prints
                (record {
                  d = d + k;
                  dlen = dlen - k;
                  pos = d + k;
                  in_buf = true;
                  counter = counter;
                  w = w₁;
                  out = o₁;
                })
                (codes ".") safe₁ in
            let left_over : 0 < dlen - k = ground arith in
            (
              again (scan (d + k) (dlen - k) counter (w₁ + w₂) o₂),
              rw (e₁, left, more, e₂),
              (
                ready (d + k) (dlen - k) counter (w₁ + w₂) o₂ left_over (omega arith) (omega arith)
                    (omega arith) safe₂,
                omega arith,
                refl,
              ),
            )
      ]

  -- An error text ends the scan.
  pub ends :
      (k counter : ℕ) (s : Scan) (text : Bytes)
      → length text ≤ 25
      → s.w ≤ bound
      → IsSafe n s.out
      → Turns k counter (print_text s text >>= λ s'. some (give s'))
  ends k counter s text short room safe =
      let (w, o, e, safe', l) = print_text-Prints s text safe in
      (give (record s { w = s.w + w; out = o }), rw e, (safe', omega arith))

  compressed-Turns :
      (k labellen d dlen counter w : ℕ) (o : Output)
      → Open d dlen counter w o
      → Turns k counter (compressed (no_pkt buf) labellen (scan d dlen counter w o))
  unfolding compressed
  compressed-Turns k labellen d dlen counter w o (inside, fits, room, safe) =
      let s = scan d dlen counter w o in
      elim (Bool-cases (dlen == 0)) [
        | inl empty ↦
            rw empty (ends k counter s (codes "ErrorPartialDname") (omega arith) (omega arith) safe)
        | inr more ↦
            let (low, e) = get_elem?-lt buf d (ground arith) in
            rw (more, e)
              (ends k counter (skip s 1) (codes "ErrorComprPtrOutOfBounds") (omega arith)
                (omega arith) safe)
      ]

  pub round-Turns :
      (labellen : ℕ) (s : Scan)
      → labellen < 256
      → Ready s
      → Turns s.dlen s.counter (round (no_pkt buf) labellen s)
  unfolding round
  round-Turns labellen _ small (ready d dlen counter w o more inside fits room safe) =
      let left : size_sub dlen 1 ≡ dlen - 1 = size_sub_lem dlen 1 more fits in
      let opened : Open (d + 1) (dlen - 1) counter w o =
        (omega arith, omega arith, omega arith, safe) in
      elim (Bool-cases (bit_and labellen 0xc0 == 0xc0)) [
        | inl pointer ↦
            rw (pointer, left)
              (compressed-Turns dlen labellen (d + 1) (dlen - 1) counter w o opened)
        | inr other ↦ elim (Bool-cases (bit_and labellen 0xc0 == 0)) [
          | inl plain ↦
              rw (other, plain, left)
                (label-Turns none dlen labellen (d + 1) (dlen - 1) counter w o (omega arith) small
                  opened)
          | inr odd ↦
              rw (other, odd, left)
                (ends dlen counter (scan (d + 1) (dlen - 1) counter w o)
                  (codes "ErrorLABELTYPE" ++ hex_mask (bit_and labellen 0xc0) ++ codes "IsUnknown")
                  (omega arith) (omega arith) safe)
        ]
      ]
