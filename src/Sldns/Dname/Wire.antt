-- ===== src/Sldns/Dname/Wire.antt =====
-- The wire format of a name and its presentation format, as RFC 1035 defines them.
use unbound4j.Memory.Stores.{HasNoNul}
use unbound4j.Base.{
  All-append, ℕ, suc, ◌+◌, ◌<◌, ◌≡◌, sym, subst, some, List, [], ◌∷◌, ◌++◌, append_assoc, Bytes,
  length, get_elem?, arith, get_elem?-append, length-append, AreBytes,
}
use unbound4j.Sldns.Escape.Format.{escape_all, escape_all-HasNoNul}

abbrev pub labels_text : List Bytes → Bytes
labels_text [] = []
labels_text (l ∷ ls) = (escape_all l ++ b'.' ∷ []) ++ labels_text ls

-- The name with no labels is the root, `.`.
abbrev pub name_text : List Bytes → Bytes
name_text [] = b'.' ∷ []
name_text (l ∷ ls) = labels_text (l ∷ ls)

-- RFC 1035, 3.1: each label behind its length, and a zero byte at the end.
abbrev pub wire : List Bytes → Bytes
wire [] = 0 ∷ []
wire (l ∷ ls) = (length l ∷ l) ++ wire ls

abbrev pub IsLabel : Bytes → Type 0
IsLabel l = (0 < length l) × (length l < 64) × AreBytes l

-- The bytes `cs` stand at offset `p`.
abbrev pub Reads : Bytes → ℕ → Bytes → Type 0
Reads buf p [] = Unit {0}
Reads buf p (c ∷ cs) = (get_elem? buf p ≡ some c) × Reads buf (p + 1) cs

pub Reads-append :
    (buf xs ys : Bytes) (p : ℕ)
    → Reads buf p (xs ++ ys)
    → Reads buf p xs × Reads buf (p + length xs) ys
Reads-append buf [] ys p h = let e : p + 0 ≡ p = omega arith in (tt, rw e h)
Reads-append buf (x ∷ xs) ys p h =
    let (hx, hy) = Reads-append buf xs ys (p + 1) h.1 in
    let e : p + suc (length xs) ≡ p + 1 + length xs = omega arith in ((h.0, hx), rw e hy)

pub Reads-here : (pre cs post : Bytes) (p : ℕ) → p ≡ length pre → Reads (pre ++ cs ++ post) p cs
Reads-here pre [] post p e = tt
Reads-here pre (c ∷ cs) post p e =
    let first : get_elem? ((pre ++ c ∷ cs) ++ post) p ≡ some c =
      rw (append_assoc) (get_elem?-append pre (c ∷ (cs ++ post)) 0 p (omega arith)) in
    let shift : (pre ++ c ∷ cs) ++ post ≡ ((pre ++ c ∷ []) ++ cs) ++ post = simp append_assoc in
    (
      first,
      subst (λ b. Reads b (p + 1) cs) (sym shift)
          (Reads-here (pre ++ c ∷ []) cs post (p + 1) (omega (arith, length-append pre (c ∷ [])))),
    )

pub wire_pos : (ls : List Bytes) → 0 < length (wire ls)
wire_pos [] = omega arith
wire_pos (l ∷ ls) = omega arith

labels_text-HasNoNul : (ls : List Bytes) → HasNoNul (labels_text ls)
labels_text-HasNoNul [] = tt
labels_text-HasNoNul (l ∷ ls) =
    All-append (λ c. ¬ (c ≡ 0)) (escape_all l ++ b'.' ∷ []) (labels_text ls)
      (All-append (λ c. ¬ (c ≡ 0)) (escape_all l) (b'.' ∷ []) (escape_all-HasNoNul l)
        ((λ e. omega arith), tt))
      (labels_text-HasNoNul ls)

pub name_text-HasNoNul : (ls : List Bytes) → HasNoNul (name_text ls)
name_text-HasNoNul [] = ((λ e. omega arith), tt)
name_text-HasNoNul (l ∷ ls) = labels_text-HasNoNul (l ∷ ls)
