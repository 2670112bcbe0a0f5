-- ===== src/Jni.antt =====
-- The bridge to Java: jni/src/jniutils.c and jni/src/unbound4j_jinterface.c.
pub mod Jvm
pub mod Throw
pub mod Callback
pub mod Interface
pub mod Delivery
