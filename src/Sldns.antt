-- ===== src/Sldns.antt =====
-- jni/src/sldns.c: printing wire-format DNS data as text.
pub mod Output
pub mod Escape
pub mod Dname
pub mod Str
