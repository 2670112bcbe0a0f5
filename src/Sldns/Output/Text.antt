-- ===== src/Sldns/Output/Text.antt =====
-- What the output side stores where the text fits.
use unbound4j.Base.{
  ℕ, suc, ◌≤◌, ◌<◌, ◌≡◌, refl, true, false, some, [], ◌∷◌, ◌++◌, Bytes, length, take, drop, leb,
  ltb, arith, length-append, length-drop, set-append, append_assoc, sym, ap, ◌∙◌,
}
use unbound4j.Memory.{int_max, store, vsnprintf}
use unbound4j.Memory.Stores.{store_all-append, take_all}
use unbound4j.Sldns.Output.{Output, advance, str_vprint, str_print, put_char}

-- The output of a buffer that begins with the text `t`, with the bytes `r` behind it.
abbrev pub written : Bytes → Bytes → Output
written t r = record { mem = t ++ r; at = some (length t); room = length r }

written_of_fields :
    (t r mem : Bytes) (p room : ℕ)
    → mem ≡ t ++ r
    → p ≡ length t
    → room ≡ length r
    → record { mem = mem; at = some p; room = room } ≡ written t r
written_of_fields t r mem p room m a l = λ i. record { mem = m i; at = some (a i); room = l i }

stored_text :
    (t s r : Bytes) (x : ℕ)
    → (t ++ (s ++ 0 ∷ [])) ++ drop (length (s ++ 0 ∷ [])) (x ∷ r)
      ≡ (t ++ s) ++ 0 ∷ drop (length s) r
stored_text t s r x =
    let l : length (s ++ 0 ∷ []) ≡ suc (length s) = omega (arith, length-append s (0 ∷ [])) in
    rw l (simp append_assoc)

-- A text that fits is stored whole, with a terminator behind it, and its length is returned.
pub str_print-written :
    (t r s : Bytes)
    → length s < length r
    → length s ≤ int_max
    → str_print (written t r) s ≡ some (length s, written (t ++ s) (0 ∷ drop (suc (length s)) r))
unfolding str_print str_vprint vsnprintf advance
str_print-written t [] s h i = absurd (omega arith)
str_print-written t (x ∷ r) s h i =
    let fits : leb (length s) int_max ≡ true = ground arith in
    let room : leb (suc (length r)) (length s) ≡ false = ground arith in
    let all : take (length r) s ≡ s = take_all (length r) s (omega arith) in
    let stored =
      store_all-append t (x ∷ r) (s ++ 0 ∷ []) (length t) refl
        (omega (arith, length-append s (0 ∷ []))) in
    rw (fits, all, stored, room)
      (ap (λ (o : Output). some (length s, o))
        (written_of_fields (t ++ s) (0 ∷ drop (length s) r) _ _ _ (stored_text t s r x)
          (omega (arith, length-append t s)) (omega (arith, length-drop (length s) r))))

-- A character that fits is stored with no terminator.
pub put_char-written :
    (t r : Bytes) (x c : ℕ) → put_char (written t (x ∷ r)) c ≡ some (written (t ++ c ∷ []) r)
unfolding put_char store
put_char-written t r x c =
    let fits : ltb (length t) (length (t ++ x ∷ r)) ≡ true =
      ground (arith, length-append t (x ∷ r)) in
    let roomy : leb (suc (length r)) 0 ≡ false = ground arith in
    rw (fits, roomy)
      (ap some (
        written_of_fields (t ++ c ∷ []) r _ _ _
          (set-append t r x c ∙ sym (append_assoc t (c ∷ []) r))
          (omega (arith, length-append t (c ∷ []))) (omega arith)))
