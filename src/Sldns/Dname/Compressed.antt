-- ===== src/Sldns/Dname/Compressed.antt =====
-- Compressed names, as RFC 1035, 4.1.4 defines them, and the loop of the name scan on them.
use unbound4j.Base.{
  ℕ, suc, ◌+◌, ◌*◌, ◌<◌, ◌≡◌, refl, sym, ◌∙◌, Bool, false, some, List, [], ◌∷◌, ◌++◌, append_assoc,
  Bytes, length, get_elem?, if◌then◌else◌, arith, length-append,
}
use unbound4j.Sldns.Escape.Format.{escape_all}
use unbound4j.Sldns.Dname.Wire.{labels_text, name_text, IsLabel, Reads}
use unbound4j.Sldns.Dname.Packet.{with_pkt}
use unbound4j.Sldns.Dname.{region}

-- The bytes that may be read: the first `dlen` of the input, or the packet.
abbrev pub limit : ℕ → Bytes → Bool → ℕ
limit dlen p in_buf = if in_buf then dlen else length p

module _ (buf p : Bytes) (dlen : ℕ) where
  -- From the offset on, in the input or in the packet, stands a name with these labels, and so
  -- many pointers are followed to read it.
  pub data Spells : Bool → ℕ → ℕ → List Bytes → Type 0 where
    at_root :
        (in_buf : Bool) (pos : ℕ)
        → pos < limit dlen p in_buf
        → get_elem? (region (with_pkt buf p) in_buf) pos ≡ some 0
        → Spells in_buf pos 0 []
    at_label :
        (in_buf : Bool) (pos pointers : ℕ) (l : Bytes) (ls : List Bytes)
        → IsLabel l
        → Reads (region (with_pkt buf p) in_buf) pos (length l ∷ l)
        → pos + 1 + length l < limit dlen p in_buf
        → Spells in_buf (pos + 1 + length l) pointers ls
        → Spells in_buf pos pointers (l ∷ ls)
    at_pointer :
        (in_buf : Bool) (pos pointers high low : ℕ) (ls : List Bytes)
        → high < 64
        → Reads (region (with_pkt buf p) in_buf) pos ((192 + high) ∷ low ∷ [])
        → pos + 1 < limit dlen p in_buf
        → high * 256 + low < length p
        → Spells false (high * 256 + low) pointers ls
        → Spells in_buf pos (suc pointers) ls

  pub Spells-inside :
      (in_buf : Bool) (pos pointers : ℕ) (ls : List Bytes)
      → Spells in_buf pos pointers ls
      → pos < limit dlen p in_buf
  Spells-inside _ _ _ _ (at_root in_buf pos inside _) = inside
  Spells-inside _ _ _ _ (at_label in_buf pos pointers l ls _ _ inside _) = omega arith
  Spells-inside _ _ _ _ (at_pointer in_buf pos pointers high low ls _ _ inside _ _) = omega arith

-- What is in the buffer behind a name whose first part was printed as `t`.
abbrev pub full_text : Bytes → List Bytes → Bytes
full_text [] ls = name_text ls
full_text (c ∷ t) ls = (c ∷ t) ++ labels_text ls

full_text-begun :
    (t : Bytes) (ls : List Bytes) → 0 < length t → full_text t ls ≡ t ++ labels_text ls
full_text-begun [] ls h = absurd (omega arith)
full_text-begun (c ∷ t) ls h = refl

pub full_text-label :
    (t l : Bytes) (ls : List Bytes) → full_text t (l ∷ ls) ≡ t ++ labels_text (l ∷ ls)
full_text-label [] l ls = refl
full_text-label (c ∷ t) l ls = refl

pub full_text-step :
    (t l : Bytes) (ls : List Bytes)
    → full_text (t ++ (escape_all l ++ b'.' ∷ [])) ls ≡ full_text t (l ∷ ls)
full_text-step t l ls =
    let dot = escape_all l ++ b'.' ∷ [] in
    full_text-begun (t ++ dot) ls
      (omega (arith, length-append t dot, length-append (escape_all l) (b'.' ∷ [])))
    ∙ append_assoc t dot (labels_text ls)
    ∙ sym (full_text-label t l ls)
