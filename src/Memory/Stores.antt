-- ===== src/Memory/Stores.antt =====
-- Stores behind a prefix of a buffer, and the C string that a terminated text is.
use unbound4j.Base.{
  ℕ, zero, suc, ◌+◌, ◌≤◌, ◌≡◌, refl, true, false, some, [], ◌∷◌, ◌++◌, Bytes, length, take, drop,
  All, ltb, ◌==◌, arith, length-append, set-append, append_assoc, append-nil, sym, ap, ◌∙◌,
}
use unbound4j.Memory.{store, store_all, c_string}

-- A store to the first byte behind a prefix.
pub store-append :
    (t r : Bytes) (x c p : ℕ) → p ≡ length t → store (t ++ x ∷ r) p c ≡ some ((t ++ c ∷ []) ++ r)
unfolding store
store-append t r x c p e =
    let fits : ltb p (length (t ++ x ∷ r)) ≡ true = ground (arith, length-append t (x ∷ r)) in
    rw fits (ap some (rw (e, set-append) (sym (append_assoc t (c ∷ []) r))))

-- Stores of a whole text behind a prefix.
pub store_all-append :
    (t r cs : Bytes) (p : ℕ)
    → p ≡ length t
    → length cs ≤ length r
    → store_all (t ++ r) p cs ≡ some ((t ++ cs) ++ drop (length cs) r)
unfolding store_all
store_all-append t r [] p e h = rw append-nil
store_all-append t [] (c ∷ cs) p e h = absurd (omega arith)
store_all-append t (x ∷ r) (c ∷ cs) p e h = rw (store-append t r x c p e) (
    store_all-append (t ++ c ∷ []) r cs (p + 1) (omega (arith, length-append t (c ∷ [])))
      (omega arith)
    ∙ ap (λ (z : Bytes). some (z ++ drop (length cs) r)) (append_assoc t (c ∷ []) cs))

-- Nothing is cut off a text that fits.
pub take_all : (k : ℕ) (s : Bytes) → length s ≤ k → take k s ≡ s
take_all zero [] h = refl
take_all zero (c ∷ s) h = absurd (omega arith)
take_all (suc k) [] h = refl
take_all (suc k) (c ∷ s) h = ap (◌∷◌ c) (take_all k s (omega arith))

abbrev pub HasNoNul : Bytes → Type 0
HasNoNul = All (λ c. ¬ (c ≡ 0))

pub c_string-append : (s r : Bytes) → HasNoNul s → c_string (s ++ 0 ∷ r) ≡ some s
unfolding c_string
c_string-append [] r h = refl
c_string-append (c ∷ s) r (some_char, h) =
    let more_chars : (c == 0) ≡ false = ground arith in rw (more_chars, c_string-append s r h)
