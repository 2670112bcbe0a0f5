-- ===== src/Base/Ascii.antt =====
-- Text as a list of byte values, and facts that are checked at every byte.
use Prim.Native.Char.{code}
use Prim.Native.String.{String}
use Prim.Native.Nat.{ℕ, zero, suc, ◌*◌, ◌/◌, ◌%◌, ◌<◌, bit_and}
use mathlib.Core.Path.{◌≡◌, refl}
use mathlib.Core.Bool.{Bool, true, false}
use mathlib.Core.List.{List, [], ◌∷◌}
use native.Mathlib.Omega.{arith}
use mathlib.Core.Logic.{inl, inr}
use unbound4j.Base.Tests.{◌==◌, ==→eq, Bool-cases, if◌then◌else◌}
use unbound4j.Base.Lists.{All}

abbrev pub Bytes : Type 0
Bytes = List ℕ

-- The code points of an ASCII text: its bytes.
abbrev pub codes : String → Bytes
codes String.[] = []
codes (String.◌∷◌ c s) = code c ∷ codes s

abbrev pub IsByte : ℕ → Type 0
IsByte c = c < 256

abbrev pub AreBytes : Bytes → Type 0
AreBytes = All IsByte

-- A test passes at each number below `n`.
unfoldable pub passes_below : (ℕ → Bool) → ℕ → Bool
passes_below test zero = true
passes_below test (suc x) = let below = passes_below test x in if test x then below else false

if-true : (b c : Bool) → (if b then c else false) ≡ true → (b ≡ true) × (c ≡ true)
if-true true c h = (refl, h)
if-true false c h = cc

pub passes_below-at :
    (test : ℕ → Bool) (n x : ℕ) → x < n → passes_below test n ≡ true → test x ≡ true
unfolding passes_below
passes_below-at test zero x less h = absurd (omega arith)
passes_below-at test (suc n) x less h =
    let (here, below) = if-true (test n) (passes_below test n) h in
    elim (Bool-cases (x == n)) [
      | inl last ↦ rw (==→eq x n last) here
      | inr before ↦ passes_below-at test n x (ground arith) below
    ]

abbrev masks_high_bits : ℕ → Bool
masks_high_bits x = bit_and x 0xc0 == x / 64 * 64

masks_bytes : passes_below masks_high_bits 256 ≡ true
unfolding passes_below
masks_bytes = refl

pub bit_and-c0 : (x : ℕ) → IsByte x → bit_and x 0xc0 ≡ x / 64 * 64
bit_and-c0 x h = ==→eq _ _ (passes_below-at masks_high_bits 256 x h masks_bytes)

abbrev masks_low_bits : ℕ → Bool
masks_low_bits x = bit_and x 0x3f == x % 64

low_masks_bytes : passes_below masks_low_bits 256 ≡ true
unfolding passes_below
low_masks_bytes = refl

pub bit_and-3f : (x : ℕ) → IsByte x → bit_and x 0x3f ≡ x % 64
bit_and-3f x h = ==→eq _ _ (passes_below-at masks_low_bits 256 x h low_masks_bytes)
