-- ===== src/Memory.antt =====
-- The C memory and text functions that the program calls: stores through a pointer into a buffer,
-- `vsnprintf`, `snprintf` with a formatted text, and the reading of a C string. A buffer is the list
-- of its bytes, and an offset into it stands for a pointer.
pub mod Stores
use unbound4j.Base.{
  ℕ, zero, suc, ◌+◌, ◌-◌, ◌^◌, Option, none, some, [], ◌∷◌, ◌++◌, Bytes, length, set, take, ltb,
  leb, ◌==◌, if◌then◌else◌, ◌>>=◌,
}

-- `*p = c`, a fault outside the buffer.
unfoldable pub store : Bytes → ℕ → ℕ → Option Bytes
store mem p c = if ltb p (length mem) then some (set mem p c) else none

-- The bytes of a text, one after the other.
unfoldable pub store_all : Bytes → ℕ → Bytes → Option Bytes
store_all mem p [] = some mem
store_all mem p (c ∷ cs) = store mem p c >>= λ mem'. store_all mem' (p + 1) cs

abbrev pub int_max : ℕ
int_max = 2 ^ 31 - 1

-- A call through `*s` is a fault at NULL: `at >>= …`.
-- `vsnprintf(*str, *slen, …)` for an already formatted text: at most `n - 1` of its bytes and a
-- terminator are stored, nothing if `n` is 0; the result is the length of the whole text, `none`
-- (a negative number) if that is no `int`.
unfoldable pub vsnprintf : Bytes → Option ℕ → ℕ → Bytes → Option (Option ℕ × Bytes)
unfolding store_all
vsnprintf mem at zero text =
    some (if leb (length text) int_max then some (length text) else none, mem)
vsnprintf mem at (suc k) text =
    if leb (length text) int_max
    then (at >>= λ p.
        store_all mem p (take k text ++ 0 ∷ []) >>= λ mem'. some (some (length text), mem'))
    else some (none, mem)

-- `snprintf(buf + p, n, …)` where the result is not used: the memory that it leaves.
unfoldable pub snprintf : Bytes → ℕ → ℕ → Bytes → Option Bytes
unfolding vsnprintf
snprintf mem p n text = vsnprintf mem (some p) n text >>= λ r. some r.1

-- The C string at the start of a buffer: a fault if nothing terminates it.
unfoldable pub c_string : Bytes → Option Bytes
c_string [] = none
c_string (c ∷ s) = let rest = c_string s in if c == 0 then some [] else (rest >>= λ r. some (c ∷ r))
