-- ===== src/Tests/Sldns.antt =====
-- jni/src/sldns.c on concrete names.
use unbound4j.Base.{
  ◌≤◌, ◌≡◌, refl, some, List, [], ◌∷◌, ◌++◌, Bytes, codes, length, take, get_elem?, arith,
}
use unbound4j.Sldns.Dname.{Scan, rdata_buf}
use unbound4j.Sldns.Dname.Wire.{wire}
use unbound4j.Sldns.Str.{str_scan}
use unbound4j.Sldns.Str.Safety.{Scans, str_scan-Scans}
use unbound4j.Sldns.Dname.Safety.{rdata_buf-Finishes}
use unbound4j.Sldns.Dname.Format.{Prints, rdata_buf-Prints}
use unbound4j.Sldns.Dname.Decode.{parse_name, rdata_buf-round_trip}

-- `a.b\.c.`
abbrev pub labels : List Bytes
labels = codes "a" ∷ codes "b.c" ∷ []

abbrev memory : Bytes
memory = 7 ∷ 7 ∷ 7 ∷ 7 ∷ 7 ∷ 7 ∷ 7 ∷ 7 ∷ 7 ∷ 7 ∷ []

-- A pointer to a compressed name, which has no packet to point into.
rdata_buf-Finishes_example :
    (s : Scan) × (rdata_buf (0xc0 ∷ 12 ∷ []) 2 (record { mem = memory; at = some 0; room = 10 }) 12
      ≡ some (some s))
    × (length s.out.mem ≡ 10)
    × (s.w ≤ 33)
rdata_buf-Finishes_example =
    rdata_buf-Finishes (0xc0 ∷ 12 ∷ []) 2 memory 10 12 (omega arith) (omega arith) (omega arith)
      (omega arith)

rdata_buf-Prints_example :
    Prints
      (wire labels ++ [])
      (rdata_buf (wire labels ++ []) 7 (record { mem = memory; at = some 0; room = 10 }) 12)
      7
      (codes "a.b\\.c.")
rdata_buf-Prints_example =
    rdata_buf-Prints labels [] memory 7 12 (omega arith) (omega arith) (omega arith) (omega arith)

rdata_buf-round_trip_example :
    (s : Scan) × (rdata_buf
        (wire labels ++ [])
        7
        (record { mem = memory; at = some 0; room = 10 })
        12
      ≡ some (some s))
    × (parse_name (take s.w s.out.mem) ≡ some labels)
    × (get_elem? s.out.mem s.w ≡ some 0)
rdata_buf-round_trip_example =
    rdata_buf-round_trip labels [] memory 7 12 (omega arith) (omega arith) (omega arith)
      (omega arith)

-- A string of two characters, with a byte behind it.
abbrev string : Bytes
string = 2 ∷ b'a' ∷ b'"' ∷ 0 ∷ []

str_scan-Scans_example :
    Scans 10 string 4
      (record { mem = memory; at = some 0; room = 10 })
      (str_scan string 4 (record { mem = memory; at = some 0; room = 10 }))
str_scan-Scans_example =
    str_scan-Scans 10 string 4 (record { mem = memory; at = some 0; room = 10 }) (refl, omega arith)
      (omega arith)
