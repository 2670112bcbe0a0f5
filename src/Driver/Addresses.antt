-- ===== src/Driver/Addresses.antt =====
-- The addresses that the driver looks up.
use unbound4j.Base.{
  ℕ, zero, suc, ◌+◌, ◌*◌, ◌%◌, ◌^◌, ◌<◌, ◌≡◌, ap, ◌∙◌, some, List, [], ◌++◌, get_elem?, arith,
}
use unbound4j.Driver.{fetch_add, generate}

-- The addresses of the turns of one thread, if it is the only one.
abbrev pub generated : ℕ → ℕ → List ℕ × ℕ
generated zero g = ([], g)
generated (suc n) g = let r = generated n (generate g).1 in ((generate g).0 ++ r.0, r.1)

-- From a generator below 2^32, the i-th address of n turns, for i below 3n, is the generator
-- plus i, modulo 2^32.
pub generated-get :
    (n g i : ℕ) → g < 2 ^ 32 → i < 3 * n → get_elem? (generated n g).0 i ≡ some ((g + i) % 2 ^ 32)
unfolding generate fetch_add
generated-get zero g i h l = absurd (omega arith)
generated-get (suc n) g zero h l = ap some (omega arith)
generated-get (suc n) g (suc zero) h l = ap some (omega arith)
generated-get (suc n) g (suc (suc zero)) h l = ap some (omega arith)
generated-get (suc n) g (suc (suc (suc i))) h l =
    generated-get n ((((g + 1) % 2 ^ 32 + 1) % 2 ^ 32 + 1) % 2 ^ 32) i (omega arith) (omega arith)
    ∙ ap some (omega arith)
