-- ===== src/Sldns/Dname.antt =====
-- jni/src/sldns.c, `sldns_wire2str_dname_scan` and its callers. The input is the memory behind
-- `*d`, whose first `*dlen` bytes it may read, and the packet for compressed names (`none` is a
-- NULL `pkt`). An offset counts from the start of the memory that it points into; a read outside
-- that memory is a fault.
pub mod Body
pub mod Safety
pub mod Wire
pub mod Labels
pub mod Format
pub mod Decode
pub mod Unterminated
pub mod Packet
pub mod Rounds
pub mod Pointers
pub mod Cycle
pub mod Overread
pub mod Compressed
pub mod Visits
pub mod Decompress
use unbound4j.Base.{
  ℕ, zero, suc, ◌+◌, ◌-◌, ◌*◌, ◌/◌, ◌%◌, ◌^◌, bit_and, Bool, true, false, ◌&&◌, ◌||◌, not, Option,
  none, some, [], ◌∷◌, ◌++◌, Bytes, codes, length, get_elem?, leb, ltb, ◌==◌, if◌then◌else◌, ◌>>=◌,
}
use unbound4j.Sldns.Output.{Output, str_print}
use unbound4j.Sldns.Escape.{dname_char_print}

-- `size_t` arithmetic wraps.
abbrev pub size_sub : ℕ → ℕ → ℕ
size_sub a b = (a + 2 ^ 64 - b) % 2 ^ 64

-- The variables of the function. `w` is the number that the source counts in an `int`, so it stands for
-- that `int` as long as it is at most INT_MAX. While `in_buf` holds, `pos` is an offset into the memory behind
-- the first `*d`, and afterwards one into the packet.
pub record Scan : Type 0 where
  pub d : ℕ
  pub dlen : ℕ
  pub pos : ℕ
  pub in_buf : Bool
  pub counter : ℕ
  pub w : ℕ
  pub out : Output

pub record Input : Type 0 where
  pub buf : Bytes
  pub pkt : Option Bytes

abbrev pub bytes_of : Option Bytes → Bytes
bytes_of none = []
bytes_of (some p) = p

-- The memory that `pos` points into, and `pktlen`.
abbrev pub region : Input → Bool → Bytes
region inp in_buf = if in_buf then inp.buf else bytes_of inp.pkt

abbrev pub pktlen : Input → ℕ
pktlen inp = length (bytes_of inp.pkt)

abbrev pub is_null : Option Bytes → Bool
is_null none = true
is_null (some p) = false

abbrev pub maxcompr : ℕ
maxcompr = 1000

-- `if(in_buf) { (*d) += n; (*dlen) -= n; }`
abbrev pub skip : Scan → ℕ → Scan
skip s n = if s.in_buf then record s { d = s.d + n; dlen = size_sub s.dlen n } else s

-- `w += sldns_str_print(s, slen, …)`
pub print_text : Scan → Bytes → Option Scan
print_text s text = str_print s.out text >>= λ r. some (record s { w = s.w + r.0; out = r.1 })

-- `for(i=0; i<n; i++) w += dname_char_print(s, slen, *pos++);`
pub spool : Input → ℕ → Scan → Option Scan
spool inp zero s = some s
spool inp (suc n) s = get_elem? (region inp s.in_buf) s.pos >>= λ c.
    dname_char_print s.out c >>= λ r.
    spool inp n (record s { pos = s.pos + 1; w = s.w + r.0; out = r.1 })

-- `"%x"` of a mask `0x40` or `0x80`.
abbrev pub hex_mask : ℕ → Bytes
hex_mask m = (48 + m / 16) ∷ (48 + m % 16) ∷ []

-- How a round of the loop ends: by `continue` or the end of the body, by `break`, or by `return`.
pub data Round : Type 0 where
  again : Scan → Round
  leave : Scan → Round
  give : Scan → Round

-- A compressed label: `labellen` is read, the second byte of the pointer follows.
pub compressed : Input → ℕ → Scan → Option Round
compressed inp labellen s =
    if (s.in_buf && s.dlen == 0) || (not s.in_buf && ltb (pktlen inp) (s.pos + 1))
    then (print_text s (codes "ErrorPartialDname") >>= λ s'. some (give s'))
    else (get_elem? (region inp s.in_buf) s.pos >>= λ low.
        let target = bit_and labellen 0x3f * 256 + low in
        let s₁ = skip s 1 in
        if is_null inp.pkt || leb (pktlen inp) target
        then (print_text s₁ (codes "ErrorComprPtrOutOfBounds") >>= λ s'. some (give s'))
        else if ltb maxcompr s.counter
        then (print_text (record s₁ { counter = s.counter + 1 }) (codes "ErrorComprPtrLooped")
            >>= λ s'. some (give s'))
        else some (again (record s₁ { counter = s.counter + 1; in_buf = false; pos = target })))

-- The label is cut where the input ends.
abbrev pub clip : Input → ℕ → Scan → ℕ
clip inp labellen s =
    if s.in_buf
    then (if ltb s.dlen labellen then s.dlen % 256 else labellen)
    else (if ltb (pktlen inp) (s.pos + labellen) then (pktlen inp - s.pos) % 256 else labellen)

-- An ordinary label: its characters, then a dot.
pub label : Input → ℕ → Scan → Option Round
label inp labellen s =
    let n = clip inp labellen s in
    spool inp n s >>= λ s₁.
    let s₂ = skip s₁ n in
    if s₂.in_buf && s₂.dlen == 0
    then some (leave s₂)
    else (print_text s₂ (codes ".") >>= λ s₃. some (again s₃))

-- The body of `while(*pos)`, with the byte that the test has read.
pub round : Input → ℕ → Scan → Option Round
round inp labellen s =
    let s₁ = skip (record s { pos = s.pos + 1 }) 1 in
    if bit_and labellen 0xc0 == 0xc0
    then compressed inp labellen s₁
    else if not (bit_and labellen 0xc0 == 0)
    then (print_text s₁
          (codes "ErrorLABELTYPE" ++ hex_mask (bit_and labellen 0xc0) ++ codes "IsUnknown")
        >>= λ s'. some (give s'))
    else label inp labellen s₁

-- Behind the loop: the root label is skipped, and a name with no labels is a dot.
pub finish : Scan → Option Scan
finish s =
    let s₁ = if s.in_buf && ltb 0 s.dlen then skip s 1 else s in
    if s₁.w == 0 then print_text s₁ (codes ".") else some s₁

-- What follows a round, by the way it ended.
pub next : (Scan → Option (Option Scan)) → Round → Option (Option Scan)
next continue (again s) = continue s
next continue (leave s) = finish s >>= λ s'. some (some s')
next continue (give s) = some (some s)

-- `while(*pos)`: the outer `none` is a fault, the inner one says that the fuel ran out.
pub loop : Input → ℕ → Scan → Option (Option Scan)
loop inp zero s = some none
loop inp (suc fuel) s = get_elem? (region inp s.in_buf) s.pos >>= λ c.
    if c == 0 then (finish s >>= λ s'. some (some s')) else (round inp c s >>= next (loop inp fuel))

-- Before the loop `pos` is `*d` and nothing has been printed.
abbrev pub start : ℕ → Output → Scan
start dlen o = record { d = 0; dlen = dlen; pos = 0; in_buf = true; counter = 0; w = 0; out = o }

-- The whole function. The returned number is the field `w` of the result.
pub dname_scan : Input → ℕ → ℕ → Output → Option (Option Scan)
dname_scan inp fuel dlen o =
    let s = start dlen o in
    if dlen == 0
    then (print_text s (codes "ErrorMissingDname") >>= λ s'. some (some s'))
    else (get_elem? inp.buf 0 >>= λ c.
        if c == 0
        then (print_text (skip s 1) (codes ".") >>= λ s'. some (some s'))
        else loop inp fuel s)

-- The record type is not used: every rdata is printed as a domain name.
pub rdata_scan : Input → ℕ → ℕ → Output → ℕ → Option (Option Scan)
rdata_scan inp fuel dlen o rrtype = dname_scan inp fuel dlen o

-- `sldns_wire2str_rdata_buf`: no packet, so every round but the last consumes input, and the
-- length of the input is fuel enough.
pub rdata_buf : Bytes → ℕ → Output → ℕ → Option (Option Scan)
rdata_buf rdata rdata_len o rrtype =
    rdata_scan (record { buf = rdata; pkt = none }) (suc rdata_len) rdata_len o rrtype
