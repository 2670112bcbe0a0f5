-- ===== src/Sldns/Dname/Packet.antt =====
-- The scan of a name that may be compressed: at most 1001 pointers are followed, so it ends.
use unbound4j.Base.{
  ℕ, zero, suc, ◌+◌, ◌-◌, ◌*◌, ◌≤◌, ◌<◌, ◌≡◌, ◌⊎◌, inl, inr, Bool, true, false, bit_and, Option,
  some, Bytes, codes, length, get_elem?, leb, ltb, ◌==◌, if◌then◌else◌, ◌>>=◌, arith, Bool-cases,
}
use unbound4j.Sldns.Output.{Output}
use unbound4j.Sldns.Output.Safety.{IsSafe}
use unbound4j.Sldns.Dname.Body.{Ready, Ended, print_text-Prints}
use unbound4j.Sldns.Dname.{Scan, Input, Round, again, leave, give, maxcompr, print_text}

-- A length byte of the packet whose label goes up to its end.
abbrev pub Reaches : Bytes → Type 0
Reaches p =
    (pos : ℕ) × (c : ℕ) × (get_elem? p pos ≡ some c)
    × ((c == 0) ≡ false)
    × ((bit_and c 0xc0 == 0) ≡ true)
    × (length p ≤ pos + 1 + c)

abbrev pub with_pkt : Bytes → Bytes → Input
with_pkt buf p = record { buf = buf; pkt = some p }

-- The state inside the packet.
abbrev pub packet : ℕ → ℕ → ℕ → ℕ → ℕ → Output → Scan
packet d dlen pos counter w o = record {
  d = d;
  dlen = dlen;
  pos = pos;
  in_buf = false;
  counter = counter;
  w = w;
  out = o;
}

module _ (buf p : Bytes) (n bound : ℕ) where
  -- What holds whenever the loop reads `*pos`, with a measure that each round makes smaller.
  pub data Good : ℕ → Scan → Type 0 where
    inside :
        (s : Scan) (left room : ℕ)
        → Ready buf n room s
        → s.counter + left ≡ 1001
        → room + 4 * (left * suc (length p)) ≤ bound
        → Good (s.dlen + left * suc (length p)) s
    behind :
        (d dlen pos rest counter left w : ℕ) (o : Output)
        → pos + rest ≡ length p
        → (0 < rest) ⊎ Reaches p
        → counter + left ≡ 1001
        → w + 4 * (left * suc (length p) + rest) ≤ bound
        → IsSafe n o
        → Good (left * suc (length p) + rest) (packet d dlen pos counter w o)

  abbrev pub Turned : ℕ → Round → Type 0
  Turned k (again s) = (k' : ℕ) × Good k' s × (k' < k)
  Turned k (leave s) = Ended buf n bound s × (s.w ≤ bound)
  Turned k (give s) = Ended buf n bound s

  abbrev pub Turneds : ℕ → Option Round → Type 0
  Turneds k r = (t : Round) × (r ≡ some t) × Turned k t

  pub gives :
      (k : ℕ) (s : Scan) (text : Bytes)
      → length text ≤ 25
      → s.w ≤ bound
      → IsSafe n s.out
      → Turneds k (print_text s text >>= λ s'. some (give s'))
  gives k s text short room safe =
      let (w, o, e, safe', l) = print_text-Prints buf n bound s text safe in
      (give (record s { w = s.w + w; out = o }), rw e, (safe', omega arith))

  -- The pointer is followed.
  pub jump :
      (k target d dlen pos : ℕ) (in_buf : Bool) (counter w : ℕ) (o : Output) (left : ℕ)
      → counter + left ≡ 1001
      → left * suc (length p) ≤ k
      → w + 4 * (left * suc (length p)) ≤ bound
      → IsSafe n o
      → let s : Scan = record {
        d = d;
        dlen = dlen;
        pos = pos;
        in_buf = in_buf;
        counter = counter;
        w = w;
        out = o;
      } in
        Turneds k (
          if leb (length p) target
          then (print_text s (codes "ErrorComprPtrOutOfBounds") >>= λ s'. some (give s'))
          else if ltb maxcompr counter
          then (print_text (record s { counter = counter + 1 }) (codes "ErrorComprPtrLooped")
              >>= λ s'. some (give s'))
          else some (again (record s { counter = counter + 1; in_buf = false; pos = target })))
  jump k target d dlen pos in_buf counter w o zero sum below room safe =
      let s : Scan = record {
        d = d;
        dlen = dlen;
        pos = pos;
        in_buf = in_buf;
        counter = counter;
        w = w;
        out = o;
      } in
      let looped : ltb maxcompr counter ≡ true = ground arith in
      elim (Bool-cases (leb (length p) target)) [
        | inl out ↦
            rw out (gives k s (codes "ErrorComprPtrOutOfBounds") (omega arith) (omega arith) safe)
        | inr within ↦
            rw (within, looped)
              (gives k (record s { counter = counter + 1 }) (codes "ErrorComprPtrLooped")
                (omega arith) (omega arith) safe)
      ]
  jump k target d dlen pos in_buf counter w o (suc left) sum below room safe =
      let s : Scan = record {
        d = d;
        dlen = dlen;
        pos = pos;
        in_buf = in_buf;
        counter = counter;
        w = w;
        out = o;
      } in
      let fresh : ltb maxcompr counter ≡ false = ground arith in
      elim (Bool-cases (leb (length p) target)) [
        | inl out ↦
            rw out (gives k s (codes "ErrorComprPtrOutOfBounds") (omega arith) (omega arith) safe)
        | inr within ↦
            let ahead : target < length p = ground arith in
            (
              again (packet d dlen target (counter + 1) w o),
              rw (within, fresh),
              (
                left * suc (length p) + (length p - target),
                behind d dlen target (length p - target) (counter + 1) left w o (omega arith)
                    (inl (omega arith)) (omega arith) (omega arith) safe,
                omega arith,
              ),
            )
      ]
