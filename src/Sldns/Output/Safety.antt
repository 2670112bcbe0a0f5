-- ===== src/Sldns/Output/Safety.antt =====
-- The output side never stores outside the buffer.
use unbound4j.Base.{
  ℕ, zero, suc, ◌+◌, ◌≤◌, ◌≡◌, refl, inl, inr, true, Option, none, some, [], ◌∷◌, ◌++◌, Bytes,
  length, take, set, leb, ltb, arith, length-append, length-set, length-take, Bool-cases,
}
use unbound4j.Memory.{int_max, store, store_all, vsnprintf}
use unbound4j.Sldns.Output.{Output, advance, str_vprint, str_print, put_char}

-- The buffer has `n` bytes, and `*s` has `*sl` of them before it ends; NULL has none.
abbrev pub IsSafe : ℕ → Output → Type 0
IsSafe n o = (length o.mem ≡ n) × elim o.at [ none ↦ o.room ≡ 0 | some p ↦ p + o.room ≤ n ]

-- A call returns, counts at most `b` characters, and its output is again one of the same buffer.
abbrev pub Keeps : ℕ → ℕ → Option (ℕ × Output) → Type 0
Keeps n b r = (w : ℕ) × (o : Output) × (r ≡ some (w, o)) × IsSafe n o × (w ≤ b)

store_all-length :
    (mem : Bytes) (p : ℕ) (cs : Bytes)
    → p + length cs ≤ length mem
    → (mem' : Bytes) × (store_all mem p cs ≡ some mem') × (length mem' ≡ length mem)
unfolding store_all store
store_all-length mem p [] h = (mem, refl, refl)
store_all-length mem p (c ∷ cs) h =
    let fits : ltb p (length mem) ≡ true = ground arith in
    let (mem', e, l) =
      store_all-length (set mem p c) (p + 1) cs (omega (arith, length-set mem p c)) in
    (mem', rw fits e, omega (arith, length-set mem p c))

length_stored : (k : ℕ) (text : Bytes) → length (take k text ++ 0 ∷ []) ≤ suc k
length_stored k text = omega (arith, length-append (take k text) (0 ∷ []), length-take k text)

abbrev Counts : Bytes → Option ℕ → Type 0
Counts text none = Unit {0}
Counts text (some w) = w ≤ length text

-- `vsnprintf` stores inside the room that it is told.
vsnprintf-length :
    (n : ℕ) (mem : Bytes) (at : Option ℕ) (room : ℕ) (text : Bytes)
    → IsSafe n (record { mem = mem; at = at; room = room })
    → (w : Option ℕ) × (mem' : Bytes) × (vsnprintf mem at room text ≡ some (w, mem'))
      × (length mem' ≡ n)
      × Counts text w
unfolding vsnprintf
vsnprintf-length n mem at zero text (l, _) = elim (Bool-cases (leb (length text) int_max)) [
  | inl fits ↦ (some (length text), mem, rw fits, l, omega arith)
  | inr over ↦ (none, mem, rw over, l, tt)
]
vsnprintf-length n mem none (suc k) text (l, s) = absurd (omega arith)
vsnprintf-length n mem (some p) (suc k) text (l, s) =
    elim (Bool-cases (leb (length text) int_max)) [
      | inl fits ↦
          let (mem', e, l') =
            store_all-length mem p (take k text ++ 0 ∷ []) (omega (arith, length_stored k text)) in
          (some (length text), mem', rw (fits, e), omega arith, omega arith)
      | inr over ↦ (none, mem, rw over, l, tt)
    ]

advance-le :
    (o : Output) (text : Bytes) (w : Option ℕ) (mem : Bytes)
    → Counts text w
    → (advance o w mem).0 ≤ length text
unfolding advance
advance-le o text none mem c = omega arith
advance-le o text (some w) mem c = ground arith

advance-IsSafe :
    (n : ℕ) (mem₀ : Bytes) (at : Option ℕ) (room : ℕ) (w : Option ℕ) (mem : Bytes)
    → IsSafe n (record { mem = mem₀; at = at; room = room })
    → length mem ≡ n
    → IsSafe n (advance (record { mem = mem₀; at = at; room = room }) w mem).1
unfolding advance
advance-IsSafe n mem₀ none room none mem (_, s) l = (l, s)
advance-IsSafe n mem₀ (some p) room none mem (_, s) l = (l, s)
advance-IsSafe n mem₀ none room (some w) mem (_, s) l = ground arith
advance-IsSafe n mem₀ (some p) room (some w) mem (_, s) l = ground arith

-- Printing any text is defined and leaves a safe output.
pub str_print-Keeps :
    (n : ℕ) (o : Output) (text : Bytes) → IsSafe n o → Keeps n (length text) (str_print o text)
unfolding str_print str_vprint
str_print-Keeps n o text s =
    let (w, mem, e, l, c) = vsnprintf-length n o.mem o.at o.room text s in
    (
      (advance o w mem).0,
      (advance o w mem).1,
      rw e,
      advance-IsSafe n o.mem o.at o.room w mem s l,
      advance-le o text w mem c,
    )

put-IsSafe :
    (n : ℕ) (mem : Bytes) (at : Option ℕ) (room c : ℕ)
    → IsSafe n (record { mem = mem; at = at; room = room })
    → (o : Output) × (put_char (record { mem = mem; at = at; room = room }) c ≡ some o) × IsSafe n o
unfolding put_char store
put-IsSafe n mem none zero c (l, s) = (_, refl, (l, refl))
put-IsSafe n mem none (suc k) c (l, s) = absurd (omega arith)
put-IsSafe n mem (some p) zero c (l, s) = (_, refl, (l, s))
put-IsSafe n mem (some p) (suc k) c (l, s) =
    let fits : ltb p (length mem) ≡ true = ground arith in
    (
      record { mem = set mem p c; at = some (p + 1); room = k },
      rw fits (ground arith),
      (omega (arith, length-set mem p c), omega arith),
    )

-- So is storing one character.
pub put_char-IsSafe :
    (n : ℕ) (o : Output) (c : ℕ)
    → IsSafe n o
    → (o' : Output) × (put_char o c ≡ some o') × IsSafe n o'
put_char-IsSafe n o c s = put-IsSafe n o.mem o.at o.room c s
