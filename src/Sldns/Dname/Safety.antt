-- ===== src/Sldns/Dname/Safety.antt =====
-- With no packet the scan of a name reads inside its input, stores inside its buffer and ends.
use unbound4j.Base.{
  ℕ, zero, suc, ◌+◌, ◌*◌, ◌^◌, ◌≤◌, ◌<◌, ◌≡◌, refl, inl, inr, Bool, true, false, Option, some,
  Bytes, codes, length, ltb, ◌==◌, arith, get_elem?-lt, Bool-cases, if◌then◌else◌, ◌>>=◌, AreBytes,
  IsByte, All-get_elem?,
}
use unbound4j.Memory.{int_max}
use unbound4j.Sldns.Output.{Output}
use unbound4j.Sldns.Output.Safety.{IsSafe}
use unbound4j.Sldns.Dname.Body.{
  no_pkt, scan, Ready, ready, Ended, Turn, print_text-Prints, round-Turns,
}
use unbound4j.Sldns.Dname.{
  Scan, Round, again, leave, give, skip, print_text, finish, next, loop, start, dname_scan,
  rdata_scan, rdata_buf,
}

module _ (buf : Bytes) (n bound : ℕ) where
  abbrev pub Ends : Option Scan → Type 0
  Ends r = (s : Scan) × (r ≡ some s) × Ended buf n bound s

  last-Ends :
      (s : Scan)
      → IsSafe n s.out
      → s.w ≤ bound
      → Ends (if s.w == 0 then print_text s (codes ".") else some s)
  last-Ends s safe room = elim (Bool-cases (s.w == 0)) [
    | inl empty ↦
        let (w, o, e, safe', l) = print_text-Prints buf n bound s (codes ".") safe in
        (record s { w = s.w + w; out = o }, rw (empty, e), (safe', omega arith))
    | inr some_text ↦ (s, rw some_text, (safe, omega arith))
  ]

  finish-Ends :
      (d dlen pos : ℕ) (in_buf : Bool) (counter w : ℕ) (o : Output)
      → IsSafe n o
      → w ≤ bound
      → Ends (
          finish (record {
            d = d;
            dlen = dlen;
            pos = pos;
            in_buf = in_buf;
            counter = counter;
            w = w;
            out = o;
          }))
  unfolding finish
  finish-Ends d dlen pos false counter w o safe room = last-Ends _ safe room
  finish-Ends d dlen pos true counter w o safe room = elim (Bool-cases (ltb 0 dlen)) [
    | inl more ↦ rw more (
        last-Ends
          (skip
            (record {
              d = d;
              dlen = dlen;
              pos = pos;
              in_buf = true;
              counter = counter;
              w = w;
              out = o;
            })
            1)
          safe room)
    | inr done ↦ rw done (
        last-Ends
          (record {
            d = d;
            dlen = dlen;
            pos = pos;
            in_buf = true;
            counter = counter;
            w = w;
            out = o;
          })
          safe room)
  ]

  abbrev pub Finishes : Option (Option Scan) → Type 0
  Finishes r = (s : Scan) × (r ≡ some (some s)) × Ended buf n bound s

  -- An early `return` of a text.
  pub prints-Finishes :
      (s : Scan) (text : Bytes)
      → length text ≤ 25
      → IsSafe n s.out
      → s.w ≤ bound
      → Finishes (print_text s text >>= λ s'. some (some s'))
  prints-Finishes s text short safe room =
      let (w, o, e, safe', l) = print_text-Prints buf n bound s text safe in
      (record s { w = s.w + w; out = o }, rw e, (safe', omega arith))

  pub finish-Finishes :
      (s : Scan) → IsSafe n s.out → s.w ≤ bound → Finishes (finish s >>= λ s'. some (some s'))
  finish-Finishes s safe room =
      let (s', e, ended) = finish-Ends s.d s.dlen s.pos s.in_buf s.counter s.w s.out safe room in
      (s', rw e, ended)

  next-Finishes :
      (continue : Scan → Option (Option Scan)) (dlen counter : ℕ) (t : Round)
      → ((s : Scan) → Ready buf n bound s → s.dlen < dlen → Finishes (continue s))
      → Turn buf n bound dlen counter t
      → Finishes (next continue t)
  unfolding next
  next-Finishes continue dlen counter (again s) rest (r, l, _) = rest s r l
  next-Finishes continue dlen counter (leave s) rest (ended, l) = finish-Finishes s ended.0 l
  next-Finishes continue dlen counter (give s) rest ended = (s, refl, ended)

  loop-Finishes :
      (fuel : ℕ) (s : Scan)
      → AreBytes buf
      → Ready buf n bound s
      → s.dlen < fuel
      → Finishes (loop (no_pkt buf) fuel s)
  unfolding loop
  loop-Finishes zero s bytes r h = absurd (omega arith)
  loop-Finishes (suc fuel) s bytes (ready d dlen counter w o more inside fits room safe) h =
      let r = ready d dlen counter w o more inside fits room safe in
      let (c, e) = get_elem?-lt buf d (omega arith) in
      let small : c < 256 = All-get_elem? IsByte buf d c bytes e in
      elim (Bool-cases (c == 0)) [
        | inl root ↦ rw (e, root) (finish-Finishes (scan d dlen counter w o) safe (omega arith))
        | inr more_labels ↦
            let (t, e', turn) = round-Turns buf n bound c (scan d dlen counter w o) small r in
            rw (e, more_labels, e')
              (next-Finishes (loop (no_pkt buf) fuel) dlen counter t
                (λ s' r' l. loop-Finishes fuel s' bytes r' (omega arith)) turn)
      ]

dname_scan-Finishes :
    (buf : Bytes) (n dlen : ℕ) (o : Output)
    → AreBytes buf
    → dlen ≤ length buf
    → dlen < 2 ^ 64
    → IsSafe n o
    → Finishes buf n (4 * dlen) (dname_scan (no_pkt buf) (suc dlen) dlen o)
unfolding dname_scan
dname_scan-Finishes buf n dlen o bytes inside fits safe =
    let s = start dlen o in
    elim (Bool-cases (dlen == 0)) [
      | inl empty ↦ rw empty (
          prints-Finishes buf n (4 * dlen) s (codes "ErrorMissingDname") (omega arith) safe
            (omega arith))
      | inr more ↦
          let (c, e) = get_elem?-lt buf 0 (ground arith) in
          elim (Bool-cases (c == 0)) [
            | inl root ↦
                rw (more, e, root)
                  (prints-Finishes buf n (4 * dlen) (skip s 1) (codes ".") (omega arith) safe
                    (omega arith))
            | inr labels ↦
                rw (more, e, labels)
                  (loop-Finishes buf n (4 * dlen) (suc dlen) s bytes
                    (ready 0 dlen 0 0 o (ground arith) (omega arith) fits (omega arith) safe)
                    (omega arith))
          ]
    ]

-- Without a bound on what the function counts.
pub rdata_buf-Ends :
    (rdata : Bytes) (rdata_len : ℕ) (mem : Bytes) (str_len rrtype : ℕ)
    → AreBytes rdata
    → rdata_len ≤ length rdata
    → rdata_len < 2 ^ 64
    → str_len ≤ length mem
    → (s : Scan) × (rdata_buf rdata rdata_len
          (record { mem = mem; at = some 0; room = str_len })
          rrtype
        ≡ some (some s))
      × (length s.out.mem ≡ length mem)
      × (s.w ≤ 4 * rdata_len + 25)
unfolding rdata_buf rdata_scan
rdata_buf-Ends rdata rdata_len mem str_len rrtype bytes inside fits room =
    let (s, e, ended) =
      dname_scan-Finishes rdata (length mem) rdata_len
        (record { mem = mem; at = some 0; room = str_len }) bytes inside fits (refl, omega arith) in
    (s, e, ended.0.0, ended.1)

-- For any bytes, any length that is not more than theirs and for which 4 * length + 25 fits an
-- int, and any buffer of at least str_len bytes, sldns_wire2str_rdata_buf returns: no read is
-- outside the rdata, no store is outside the buffer, and the loop ends. The buffer keeps its
-- size, and the result is at most four characters for each byte plus 25.
pub rdata_buf-Finishes :
    (rdata : Bytes) (rdata_len : ℕ) (mem : Bytes) (str_len rrtype : ℕ)
    → AreBytes rdata
    → rdata_len ≤ length rdata
    → 4 * rdata_len + 25 ≤ int_max
    → str_len ≤ length mem
    → (s : Scan) × (rdata_buf rdata rdata_len
          (record { mem = mem; at = some 0; room = str_len })
          rrtype
        ≡ some (some s))
      × (length s.out.mem ≡ length mem)
      × (s.w ≤ 4 * rdata_len + 25)
rdata_buf-Finishes rdata rdata_len mem str_len rrtype bytes inside counts room =
    rdata_buf-Ends rdata rdata_len mem str_len rrtype bytes inside (omega arith) room
