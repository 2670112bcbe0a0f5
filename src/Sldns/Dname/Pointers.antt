-- ===== src/Sldns/Dname/Pointers.antt =====
-- The loop of the name scan with a packet: the pointers that it may follow bound its rounds.
use unbound4j.Base.{
  ℕ, zero, suc, ◌+◌, ◌*◌, ◌^◌, ◌≤◌, ◌<◌, ◌≡◌, ◌⊎◌, refl, inl, inr, Option, none, some, [], ◌∷◌,
  Bytes, AreBytes, IsByte, All-get_elem?, codes, length, get_elem?, get_elem?-lt, ◌==◌, arith,
  Bool-cases,
}
use unbound4j.Memory.{int_max}
use unbound4j.Sldns.Output.{Output}
use unbound4j.Sldns.Output.Safety.{IsSafe}
use unbound4j.Sldns.Dname.Body.{scan, ready}
use unbound4j.Sldns.Dname.Safety.{Finishes, prints-Finishes, finish-Finishes}
use unbound4j.Sldns.Dname.Packet.{Reaches, with_pkt, packet, Good, inside, behind, Turned}
use unbound4j.Sldns.Dname.Rounds.{round-packet, round-inside}
use unbound4j.Sldns.Dname.{Scan, Round, again, leave, give, skip, next, loop, start, dname_scan}

pub get_elem?-end : (p : Bytes) (pos : ℕ) → pos ≡ length p → get_elem? p pos ≡ none
get_elem?-end [] pos e = refl
get_elem?-end (c ∷ p) zero e = absurd (omega arith)
get_elem?-end (c ∷ p) (suc pos) e = get_elem?-end p pos (omega arith)

module _ (buf p : Bytes) (n bound : ℕ) where
  -- The scan ends, or the loop reads the byte behind the packet.
  abbrev pub Ends : Option (Option Scan) → Type 0
  Ends r = Finishes buf n bound r ⊎ ((r ≡ none) × Reaches p)

  next-Ends :
      (continue : Scan → Option (Option Scan)) (k : ℕ) (t : Round)
      → ((s : Scan) (k' : ℕ) → Good buf p n bound k' s → k' < k → Ends (continue s))
      → Turned buf p n bound k t
      → Ends (next continue t)
  unfolding next
  next-Ends continue k (again s) rest (k', g, l) = rest s k' g l
  next-Ends continue k (leave s) rest (ended, l) = inl (finish-Finishes buf n bound s ended.0 l)
  next-Ends continue k (give s) rest ended = inl (s, refl, ended)

  loop-Ends :
      (fuel k : ℕ) (s : Scan)
      → AreBytes buf
      → AreBytes p
      → Good buf p n bound k s
      → k < fuel
      → Ends (loop (with_pkt buf p) fuel s)
  unfolding loop
  loop-Ends zero k s bytes bytes' g h = absurd (omega arith)
  loop-Ends (suc fuel) k _ bytes bytes'
        (inside _ left room (ready d dlen counter w o more within fits used safe) total enough) h =
      let (c, e) = get_elem?-lt buf d (omega arith) in
      let small : c < 256 = All-get_elem? IsByte buf d c bytes e in
      elim (Bool-cases (c == 0)) [
        | inl root ↦
            rw (e, root)
              (inl (finish-Finishes buf n bound (scan d dlen counter w o) safe (omega arith)))
        | inr labels ↦
            let (t, e', turn) =
              round-inside buf p n bound c d dlen counter left w room o small more within fits used
                safe total enough in
            rw (e, labels, e')
              (next-Ends (loop (with_pkt buf p) fuel) (dlen + left * suc (length p)) t
                (λ s' k' g l. loop-Ends fuel k' s' bytes bytes' g (omega arith)) turn)
      ]
  loop-Ends (suc fuel) k _ bytes bytes'
        (behind d dlen pos zero counter left w o sum (inl some_left) total room safe) h =
      absurd (omega arith)
  loop-Ends (suc fuel) k _ bytes bytes'
        (behind d dlen pos zero counter left w o sum (inr reach) total room safe) h =
      inr (rw (get_elem?-end p pos (omega arith)), reach)
  loop-Ends (suc fuel) k _ bytes bytes'
        (behind d dlen pos (suc rest) counter left w o sum reach total room safe) h =
      let (c, e) = get_elem?-lt p pos (omega arith) in
      let small : c < 256 = All-get_elem? IsByte p pos c bytes' e in
      elim (Bool-cases (c == 0)) [
        | inl root ↦
            rw (e, root)
              (inl (finish-Finishes buf n bound (packet d dlen pos counter w o) safe (omega arith)))
        | inr labels ↦
            let (t, e', turn) =
              round-packet buf p n bound c d dlen pos rest counter left w o small labels e sum total
                room safe in
            rw (e, labels, e')
              (next-Ends (loop (with_pkt buf p) fuel) (left * suc (length p) + suc rest) t
                (λ s' k' g l. loop-Ends fuel k' s' bytes bytes' g (omega arith)) turn)
      ]

-- For any bytes and any packet, a length dlen that is not more than the bytes and for which 4 *
-- (dlen + 1001 (pktlen + 1)) + 25 fits an int, and any buffer of at least str_len bytes,
-- sldns_wire2str_dname_scan with the fuel dlen + 1001 (pktlen + 1) + 1 does not run out of it:
-- either it returns with a bound on its result and a buffer of the same size, or it faults and
-- the packet has a label that goes up to its end.
pub dname_scan-Ends :
    (buf p mem : Bytes) (dlen str_len : ℕ)
    → AreBytes buf
    → AreBytes p
    → dlen ≤ length buf
    → 4 * (dlen + 1001 * suc (length p)) + 25 ≤ int_max
    → str_len ≤ length mem
    → Ends buf p (length mem) (4 * (dlen + 1001 * suc (length p))) (
        dname_scan
          (record { buf = buf; pkt = some p })
          (suc (dlen + 1001 * suc (length p)))
          dlen
          (record { mem = mem; at = some 0; room = str_len }))
unfolding dname_scan
dname_scan-Ends buf p mem dlen str_len bytes bytes' within counts room =
    let fits : dlen < 2 ^ 64 = omega arith in
    let n = length mem in
    let bound = 4 * (dlen + 1001 * suc (length p)) in
    let o : Output = record { mem = mem; at = some 0; room = str_len } in
    let s = start dlen o in
    let safe : IsSafe n o = (refl, omega arith) in
    elim (Bool-cases (dlen == 0)) [
      | inl empty ↦ rw empty (
          inl (
            prints-Finishes buf n bound s (codes "ErrorMissingDname") (omega arith) safe
              (omega arith)))
      | inr more ↦
          let (c, e) = get_elem?-lt buf 0 (ground arith) in
          elim (Bool-cases (c == 0)) [
            | inl root ↦
                rw (more, e, root)
                  (inl (
                    prints-Finishes buf n bound (skip s 1) (codes ".") (omega arith) safe
                      (omega arith)))
            | inr labels ↦
                rw (more, e, labels)
                  (loop-Ends buf p n bound (suc (dlen + 1001 * suc (length p)))
                    (dlen + 1001 * suc (length p)) s bytes bytes'
                    (inside s 1001 (4 * dlen)
                      (ready 0 dlen 0 0 o (ground arith) (omega arith) fits (omega arith) safe) refl
                      (omega arith))
                    (omega arith))
          ]
    ]
