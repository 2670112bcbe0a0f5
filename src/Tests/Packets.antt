-- ===== src/Tests/Packets.antt =====
-- Compressed names.
use unbound4j.Base.{
  List, true, false, suc, ◌+◌, ◌*◌, ◌≡◌, ◌>>=◌, refl, none, some, [], ◌∷◌, Bytes, codes, length,
  arith,
}
use unbound4j.Sldns.Output.{Output}
use unbound4j.Sldns.Dname.{dname_scan, print_text}
use unbound4j.Sldns.Dname.Packet.{with_pkt, packet}
use unbound4j.Sldns.Dname.Overread.{dname_scan-overreads}
use unbound4j.Sldns.Dname.Pointers.{Ends, dname_scan-Ends}
use unbound4j.Sldns.Dname.Cycle.{dname_scan-looped}
use unbound4j.Sldns.Output.Text.{written}
use unbound4j.Sldns.Dname.Format.{Prints}
use unbound4j.Sldns.Dname.Compressed.{Spells, at_root, at_label, at_pointer}
use unbound4j.Sldns.Dname.Decompress.{dname_scan-Prints}
use unbound4j.Tests.States.{stack}

abbrev pointer : Bytes
pointer = 0xc0 ∷ 2 ∷ []

abbrev pkt : Bytes
pkt = 0 ∷ 0 ∷ 1 ∷ b'a' ∷ 0 ∷ []

abbrev output : Output
output = record { mem = stack; at = some 0; room = 48 }

dname_scan-Ends_example : Ends pointer pkt 48 (4 * (2 + 1001 * suc (length pkt))) (
    dname_scan
      (record { buf = pointer; pkt = some pkt })
      (suc (2 + 1001 * suc (length pkt)))
      2
      output)
dname_scan-Ends_example =
    dname_scan-Ends pointer pkt stack 2 48 (omega arith, (omega arith, tt))
      (omega arith, (omega arith, (omega arith, (omega arith, (omega arith, tt))))) (omega arith)
      (omega arith) (omega arith)

-- A packet whose name points to itself.
abbrev cycle : Bytes
cycle = 0 ∷ 0 ∷ 0xc0 ∷ 2 ∷ []

dname_scan-looped_example :
    dname_scan
      (record { buf = pointer; pkt = some cycle })
      (suc (2 + 1001 * suc (length cycle)))
      2
      output
    ≡ (print_text (packet 2 0 3 1002 0 output) (codes "ErrorComprPtrLooped") >>= λ s. some (some s))
dname_scan-looped_example =
    dname_scan-looped pointer cycle 2 refl refl (omega arith) [] 2 output refl (omega arith)
      (omega arith)

dname_scan-overreads_example :
    dname_scan (with_pkt (0xc0 ∷ 1 ∷ []) (0 ∷ 1 ∷ b'a' ∷ [])) (3 + 7) 2 output ≡ none
dname_scan-overreads_example =
    dname_scan-overreads (0 ∷ 1 ∷ b'a' ∷ []) 1 1 refl refl refl refl [] 7 2 48 output (omega arith)
      (omega arith) (omega arith) (refl, omega arith)

-- The name `x.a` whose second label stands in the packet.
abbrev shortened : Bytes
shortened = 1 ∷ b'x' ∷ 0xc0 ∷ 2 ∷ []

abbrev labels : List Bytes
labels = (b'x' ∷ []) ∷ (b'a' ∷ []) ∷ []

shortened-Spells : Spells shortened pkt 4 true 0 1 labels
shortened-Spells =
    at_label true 0 1 (b'x' ∷ []) ((b'a' ∷ []) ∷ []) (omega arith, omega arith, (omega arith, tt))
      (refl, (refl, tt)) (omega arith)
      (at_pointer true 2 0 0 2 ((b'a' ∷ []) ∷ []) (omega arith) (refl, (refl, tt)) (omega arith)
        (omega arith)
        (at_label false 2 0 (b'a' ∷ []) [] (omega arith, omega arith, (omega arith, tt))
          (refl, (refl, tt)) (omega arith) (at_root false 4 (omega arith) refl)))

dname_scan-Prints_example :
    Prints shortened
      (dname_scan (with_pkt shortened pkt) (suc (4 + 1001 * suc (length pkt))) 4 (written [] stack))
      4
      (codes "x.a.")
dname_scan-Prints_example =
    dname_scan-Prints shortened pkt 4 (omega arith) 1 labels stack shortened-Spells (omega arith)
      (omega arith)
