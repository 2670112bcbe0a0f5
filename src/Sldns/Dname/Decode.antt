-- ===== src/Sldns/Dname/Decode.antt =====
-- The presentation format can be read back: two names with one text are the same name.
use unbound4j.Base.{
  ℕ, ◌+◌, ◌-◌, ◌*◌, ◌/◌, ◌%◌, ◌<◌, ◌≡◌, refl, ap, ◌∙◌, inl, inr, Bool, true, false, not, ◌&&◌,
  Option, none, some, List, [], ◌∷◌, ◌++◌, append_assoc, append-nil, Bytes, length, leb, ◌==◌,
  arith, All, AreBytes, IsByte, Bool-cases, if◌then◌else◌, ◌>>=◌, ◌≤◌, ◌^◌, take, take-append,
  get_elem?, get_elem?-append,
}
use unbound4j.Sldns.Escape.{is_special, isascii, isgraph}
use unbound4j.Sldns.Escape.Format.{escape, escape_all}
use unbound4j.Sldns.Dname.Wire.{labels_text, name_text, IsLabel, wire}
use unbound4j.Sldns.Dname.{Scan, rdata_buf}
use unbound4j.Sldns.Dname.Format.{rdata_buf-Prints}

abbrev is_digit : ℕ → Bool
is_digit c = leb 48 c && leb c 57

-- A reader of presentation text. The modes: between characters, behind a backslash, and behind one
-- or two decimal digits with their value so far.
data Mode : Type 0 where
  ground_mode : Mode
  slash : Mode
  one_digit : ℕ → Mode
  two_digits : ℕ → Mode

-- The label that is being read, and the labels read.
read_labels : Mode → Bytes → List Bytes → Bytes → Option (List Bytes)
read_labels ground_mode cur done [] = some done
read_labels slash cur done [] = none
read_labels (one_digit v) cur done [] = none
read_labels (two_digits v) cur done [] = none
read_labels ground_mode cur done (c ∷ s) =
    let escaped = read_labels slash cur done s in
    let dot = read_labels ground_mode [] (done ++ cur ∷ []) s in
    let copy = read_labels ground_mode (cur ++ c ∷ []) done s in
    if c == b'\\' then escaped else if c == b'.' then dot else copy
read_labels slash cur done (c ∷ s) =
    let digit = read_labels (one_digit ((c - 48) * 100)) cur done s in
    let literal = read_labels ground_mode (cur ++ c ∷ []) done s in
    if is_digit c then digit else literal
read_labels (one_digit v) cur done (c ∷ s) = read_labels (two_digits (v + (c - 48) * 10)) cur done s
read_labels (two_digits v) cur done (c ∷ s) =
    read_labels ground_mode (cur ++ (v + (c - 48)) ∷ []) done s

special-is_digit : (c : ℕ) → is_special c ≡ true → is_digit c ≡ false
special-is_digit c h = ground arith

plain-not_slash : (c : ℕ) → is_special c ≡ false → ((c == b'\\') ≡ false) × ((c == b'.') ≡ false)
plain-not_slash c h = ground arith

-- Three digits are read as the number that they print.
read-decimal :
    (c : ℕ) (cur : Bytes) (done : List Bytes) (s : Bytes)
    → IsByte c
    → read_labels slash cur done ((48 + c / 100) ∷ (48 + c / 10 % 10) ∷ (48 + c % 10) ∷ s)
      ≡ read_labels ground_mode (cur ++ c ∷ []) done s
unfolding read_labels
read-decimal c cur done s h =
    let digit : is_digit (48 + c / 100) ≡ true = ground arith in
    let value : (48 + c / 100 - 48) * 100 + (48 + c / 10 % 10 - 48) * 10 + (48 + c % 10 - 48) ≡ c =
      omega arith in
    rw (digit, value)

-- Reading the escape of a character gives the character.
read-escape :
    (c : ℕ) (cur : Bytes) (done : List Bytes) (s : Bytes)
    → IsByte c
    → read_labels ground_mode cur done (escape c ++ s)
      ≡ read_labels ground_mode (cur ++ c ∷ []) done s
read-escape c cur done s h = elim (Bool-cases (is_special c)) [
  | inl special ↦ rw special (unfold read_labels in rw (special-is_digit c special))
  | inr other ↦ elim (Bool-cases (not (isascii c && isgraph c))) [
    | inl odd ↦ rw (other, odd) (unfold read_labels in read-decimal c cur done s h)
    | inr plain ↦
        let (not_slash, not_dot) = plain-not_slash c other in
        rw (other, plain) (unfold read_labels in rw (not_slash, not_dot))
  ]
]

read-escape_all :
    (cs cur : Bytes) (done : List Bytes) (s : Bytes)
    → AreBytes cs
    → read_labels ground_mode cur done (escape_all cs ++ s)
      ≡ read_labels ground_mode (cur ++ cs) done s
read-escape_all [] cur done s h = rw append-nil
read-escape_all (c ∷ cs) cur done s h = rw (
  append_assoc (escape c) (escape_all cs) s,
  read-escape c cur done (escape_all cs ++ s) h.0,
  read-escape_all cs (cur ++ c ∷ []) done s h.1,
  append_assoc cur (c ∷ []) cs,
)

-- A dot ends the label.
read-dot :
    (cur : Bytes) (done : List Bytes) (s : Bytes)
    → read_labels ground_mode cur done (b'.' ∷ s) ≡ read_labels ground_mode [] (done ++ cur ∷ []) s
unfolding read_labels
read-dot cur done s = refl

read-labels_text :
    (ls done : List Bytes)
    → All IsLabel ls
    → read_labels ground_mode [] done (labels_text ls) ≡ some (done ++ ls)
read-labels_text [] done h = unfold read_labels in rw append-nil
read-labels_text (l ∷ ls) done ((_, _, bytes), h) =
    rw
      (
        append_assoc (escape_all l) (b'.' ∷ []) (labels_text ls),
        read-escape_all l [] done (b'.' ∷ labels_text ls) bytes,
      )
      (read-dot l done (labels_text ls)
        ∙ read-labels_text ls (done ++ l ∷ []) h
        ∙ ap some (append_assoc done (l ∷ []) ls))

-- The dot alone is the root, not an empty label.
unroot : List Bytes → List Bytes
unroot ([] ∷ []) = []
unroot ls = ls

unroot-labels : (l : Bytes) (ls : List Bytes) → IsLabel l → unroot (l ∷ ls) ≡ l ∷ ls
unfolding unroot
unroot-labels [] ls (some_byte, _, _) = absurd (omega arith)
unroot-labels (c ∷ cs) ls h = refl

pub parse_name : Bytes → Option (List Bytes)
parse_name text = read_labels ground_mode [] [] text >>= λ ls. some (unroot ls)

parse_name-name_text : (ls : List Bytes) → All IsLabel ls → parse_name (name_text ls) ≡ some ls
unfolding parse_name
parse_name-name_text [] h = unfold read_labels unroot in refl
parse_name-name_text (l ∷ ls) h =
    rw (read-labels_text (l ∷ ls) [] h) (ap some (unroot-labels l ls h.0))

-- For a name of well-formed labels on the wire, whose length fits size_t and whose text is
-- shorter than the buffer, the scan returns, what it leaves in the buffer up to the returned
-- length is read back by parse_name as the labels of the name, and a terminator stands behind
-- it.
pub rdata_buf-round_trip :
    (ls : List Bytes) (rest mem : Bytes) (rdata_len rrtype : ℕ)
    → All IsLabel ls
    → length (wire ls) ≤ rdata_len
    → rdata_len < 2 ^ 64
    → length (name_text ls) < length mem
    → (s : Scan) × (rdata_buf
          (wire ls ++ rest)
          rdata_len
          (record { mem = mem; at = some 0; room = length mem })
          rrtype
        ≡ some (some s))
      × (parse_name (take s.w s.out.mem) ≡ some ls)
      × (get_elem? s.out.mem s.w ≡ some 0)
rdata_buf-round_trip ls rest mem rdata_len rrtype h inside fits room =
    let (s, r, e, count, out) = rdata_buf-Prints ls rest mem rdata_len rrtype h inside fits room in
    let text : take s.w s.out.mem ≡ name_text ls =
      rw (out, count) (take-append (name_text ls) (0 ∷ r)) in
    let ended : get_elem? s.out.mem s.w ≡ some 0 =
      rw (out, count)
        (get_elem?-append (name_text ls) (0 ∷ r) 0 (length (name_text ls)) (omega arith)) in
    (s, e, rw text (parse_name-name_text ls h), ended)
