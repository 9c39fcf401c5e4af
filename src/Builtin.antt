-- ===== src/Builtin.antt =====
-- lib/cfa/src/builtin.c: moving memory, slices and strings.
pub mod Memcpy
pub mod Slices
pub mod Text
pub mod Numbers
pub mod Dynamic
