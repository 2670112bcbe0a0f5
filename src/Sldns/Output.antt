-- ===== src/Sldns/Output.antt =====
-- jni/src/sldns.c, the output side: the buffer that `char** s, size_t* sl` walk through,
-- `sldns_str_vprint` and `sldns_str_print`. The state of an output is the memory of the caller's
-- buffer, the offset of `*s` in it (`none` is NULL) and `*sl`.
pub mod Safety
pub mod Text
use unbound4j.Memory.{int_max, store, vsnprintf}
use unbound4j.Base.{
  ℕ, zero, suc, ◌+◌, ◌-◌, ◌^◌, Bool, true, false, Option, none, some, List, [], ◌∷◌, ◌++◌, Bytes,
  length, set, take, ltb, leb, if◌then◌else◌, ◌>>=◌,
}

pub record Output : Type 0 where
  pub mem : Bytes
  pub at : Option ℕ
  pub room : ℕ

-- The three branches behind the call.
advance : Output → Option ℕ → Bytes → ℕ × Output
advance o none mem = (0, record o { mem = mem })
advance o (some w) mem = if leb o.room w then (w, record { mem = mem; at = none; room = 0 }) else (
  w,
  record { mem = mem; at = elim o.at [ none ↦ none | some p ↦ some (p + w) ]; room = o.room - w },
)

pub str_vprint : Output → Bytes → Option (ℕ × Output)
unfolding advance
str_vprint o text = vsnprintf o.mem o.at o.room text >>= λ r. some (advance o r.0 r.1)

-- `sldns_str_print` only wraps the variable arguments.
pub str_print : Output → Bytes → Option (ℕ × Output)
unfolding str_vprint
str_print o text = str_vprint o text

-- `if(*sl) { **s = (char)c; (*s)++; (*sl)--; }`
pub put_char : Output → ℕ → Option Output
put_char o c =
    if leb o.room 0
    then some o
    else (o.at >>= λ p. store o.mem p c >>= λ mem.
        some (record { mem = mem; at = some (p + 1); room = o.room - 1 }))
