-- ===== src/Sldns/Str.antt =====
-- jni/src/sldns.c, `sldns_wire2str_str_scan`: a character string with its length in front. The input is
-- the memory behind `*d`, whose first `*dl` bytes it may read.
pub mod Safety
use unbound4j.Base.{
  ℕ, zero, suc, ◌+◌, ◌-◌, Option, none, some, Bytes, codes, get_elem?, ltb, if◌then◌else◌, ◌>>=◌,
}
use unbound4j.Sldns.Output.{Output, str_print}
use unbound4j.Sldns.Escape.{str_char_print}

-- `for(i=0; i<len; i++) w += str_char_print(s, sl, (*d)[i]);`
pub scan_chars : Bytes → ℕ → ℕ → ℕ → Output → Option (ℕ × Output)
scan_chars buf pos zero w o = some (w, o)
scan_chars buf pos (suc n) w o =
    get_elem? buf pos >>= λ c. str_char_print o c >>= λ r. scan_chars buf (pos + 1) n (w + r.0) r.1

-- The result is the returned number (`none` is -1), how far `*d` moves, `*dl`, and the output.
pub str_scan : Bytes → ℕ → Output → Option (Option ℕ × ℕ × ℕ × Output)
str_scan buf dl o =
    if ltb dl 1
    then some (none, 0, dl, o)
    else (get_elem? buf 0 >>= λ len.
        if ltb dl (1 + len)
        then some (none, 0, dl, o)
        else (str_print o (codes "\"") >>= λ open_quote.
            scan_chars buf 1 len open_quote.0 open_quote.1 >>= λ s.
            str_print s.1 (codes "\"") >>= λ close_quote.
            some (some (s.0 + close_quote.0), 1 + len, dl - 1 - len, close_quote.1)))
