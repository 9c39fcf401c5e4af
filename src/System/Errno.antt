-- ===== src/System/Errno.antt =====
-- The numbers of the errors in lib/cfa/include/errno.h.
pub mod Files
pub mod Protocols
pub mod Sockets
