-- ===== src/Engine/Query/HostName.antt =====
-- The host name that the callback makes of an answer of libunbound.
use unbound4j.Base.{
  ℕ, suc, ◌^◌, ◌≤◌, ◌<◌, ◌≡◌, refl, inl, inr, true, Option, none, some, List, ◌∷◌, ◌++◌, Bytes,
  AreBytes, length, drop, All, ◌==◌, arith, Bool-cases,
}
use unbound4j.Memory.{c_string}
use unbound4j.Memory.Stores.{c_string-append}
use unbound4j.Sldns.Dname.Wire.{wire, name_text, name_text-HasNoNul, IsLabel}
use unbound4j.Sldns.Dname.Safety.{rdata_buf-Ends}
use unbound4j.Sldns.Dname.Format.{rdata_buf-Prints}
use unbound4j.Sldns.Dname.Unterminated.{IsPlain, rdata_buf-unterminated}
use unbound4j.Engine.Query.{UbResult, host_name}

-- What libunbound documents of a result: the first data are bytes, with their length.
abbrev pub IsResult : Option UbResult → Type 0
IsResult none = Unit {0}
IsResult (some r) = AreBytes r.first × (r.first_len ≤ length r.first) × (r.first_len < 2 ^ 64)

-- The buffer of the host name keeps its size.
abbrev pub Fills : Option Bytes → Type 0
Fills none = Unit {0}
Fills (some text) = length text ≡ 256

-- Documented data do not make the callback fault.
pub host_name-defined :
    (err : ℕ) (result : Option UbResult) (mem : Bytes)
    → IsResult result
    → length mem ≡ 256
    → (host : Option Bytes) × (host_name err result (some mem) ≡ some host) × Fills host
unfolding host_name
host_name-defined err none mem ok size = (none, refl, tt)
host_name-defined err (some r) mem (bytes, inside, fits) size = elim (Bool-cases (err == 0)) [
  | inr failed ↦ (none, simp failed, tt)
  | inl fine ↦ elim (Bool-cases r.havedata) [
    | inr nothing ↦ (none, simp (fine, nothing), tt)
    | inl something ↦
        let (s, e, same, _) =
          rdata_buf-Ends r.first r.first_len mem 256 r.qtype bytes inside fits (omega arith) in
        (some s.out.mem, simp (fine, something, e), omega arith)
  ]
]

-- The first data of a result of a successful lookup.
abbrev pub found : Bytes → ℕ → ℕ → Option UbResult
found rdata len rrtype =
    some (record { havedata = true; first = rdata; first_len = len; qtype = rrtype })

-- If the first data of a successful answer are a name of well-formed labels on the wire whose
-- text is shorter than 256 characters, then the host name of ub_reverse_lookup_callback, read as
-- a C string, is that text.
pub host_name-Reads :
    (ls : List Bytes) (rest mem : Bytes) (len rrtype : ℕ)
    → All IsLabel ls
    → length (wire ls) ≤ len
    → len < 2 ^ 64
    → length (name_text ls) < 256
    → length mem ≡ 256
    → (text : Bytes) × (host_name 0 (found (wire ls ++ rest) len rrtype) (some mem)
        ≡ some (some text))
      × (c_string text ≡ some (name_text ls))
unfolding host_name
host_name-Reads ls rest mem len rrtype labels inside fits short size =
    let (s, r, e, _, out) =
      rdata_buf-Prints ls rest mem len rrtype labels inside fits (omega arith) in
    (s.out.mem, rw (← size, e), rw out (c_string-append (name_text ls) r (name_text-HasNoNul ls)))

-- If the first data of a successful answer are one label of characters that are printed as they
-- are, without a root label, then the host name of ub_reverse_lookup_callback is the label
-- followed by whatever malloc left in the buffer.
pub host_name-unterminated :
    (l mem : Bytes) (rrtype : ℕ)
    → IsLabel l
    → All IsPlain l
    → length mem ≡ 256
    → host_name 0 (found (length l ∷ l) (suc (length l)) rrtype) (some mem)
      ≡ some (some (l ++ drop (length l) mem))
unfolding host_name
host_name-unterminated l mem rrtype label plainly size =
    let (some_byte, short, _) = label in
    let (s, e, _, out) = rdata_buf-unterminated l mem rrtype label plainly (omega arith) in
    rw (← size, e, out)
