-- ===== src/Lib.antt =====
-- Verification of the chat server: src/chat_server.c and the library lib/cfa that it is built on.
--
-- The server accepts connections and keeps one struct per client. The structs are chunks of pools; a
-- pool (lib/cfa/src/pool.c) lies with its bookkeeping in one mapping, which an arena
-- (lib/cfa/src/arena.c) has handed out. A message is put together in an array on the stack, piece by
-- piece through slices (lib/cfa/src/builtin.c), and written to all connected clients.
--
-- - Base, Chain: numbers, lists, linked lists in memory.
-- - Memory: byte memory as a function from addresses.
-- - Builtin: lib/cfa/src/builtin.c. Memcpy has memcpy and memmove, Slices the slices and strings, Text
--   the C strings, Numbers int_in_slice, Dynamic the slices that grow.
-- - Pool: lib/cfa/src/pool.c, over any memory that can hold the link of a free chunk. The server
--   fills this interface, FreeNodes, with the memory of its clients.
-- - Arena: lib/cfa/src/arena.c; Resize has arena_resize and the temporary arenas,
--   Bounds and Keeps where their memory lies.
-- - System: lib/cfa/src/syscall.c over a kernel that is a parameter; Errno and Errors have the numbers
--   and the table of lib/cfa/include/errno.h.
-- - Buffer: lib/cfa/src/buffer.c and lib/cfa/src/iovec.c.
-- - Fmt: lib/cfa/src/fmt.c; Assert: lib/cfa/src/assert.c.
-- - Time: lib/cfa/src/time.c.
-- - Chat: src/chat_server.c. State has the data, Send session_send_all, Line
--   check_line_and_send, Read session_name_read and session_line_read, Close session_close, New
--   session_new_clp and session_new, Server server_handle, server_go, server_init and _start. Invariant
--   says when the pools are well formed, Frame when the whole state is safe and the server running,
--   Own and Handler what a handler of one client may change. Room is the set of those that are
--   connected, a quotient of the lists that the pools hold, and Server/History says how it changes with
--   the events. Line/Says, Read/Hears, Read/Naming, Read/Enters and Read/Leaving describe the handlers
--   by functions on the bytes that a client has sent (speech, naming), with Memory/Split for the first
--   end of a line; Server/Remarks and Server/Dialogue put them together to a client's whole stay.
-- - Examples: the theorems at concrete inputs.
--
-- An address is a number; an object never wraps round the end of the address space. A client's scalar
-- fields stand in a memory of their own, at the address of its struct, and its two arrays in the byte
-- memory. A free chunk keeps its link in the bytes of the fields fd and buf_used. The array of pools
-- is a list, so that closing a pool removes it from the list; Chat/Close/Array has the loop on the array
-- itself, with the shift of what is behind, and relates the two. A handler's array msg stands at an
-- address that is part of the state. What a system call does to the outside is recorded in order, and
-- what it answers is an argument. Diagnostics on stderr are not recorded.
--
-- A walk over the clients of one pool has 1024 rounds, one for each of the 1023 chunks and one for
-- nil; the theorems show that well formed pools need no more. A scan for a zero byte has 2 ^ 31 rounds,
-- as many as its counter of type int can count. An int64 has at most 19 decimal digits,
-- a pointer 16 hexadecimal ones. The loop of new_slice_cap has four rounds, which more than double a
-- capacity.
--
-- What the kernel promises is written out where it is used: sys_read returns at most what it is asked
-- for, a mapping overlaps nothing that is in use (Chat/Server/Fresh), and each event of a batch is for a
-- descriptor in the table of the epoll instance, with the pointer that it was registered with, each at
-- most once (IsBatch in Chat/Server/Running). The table is what the calls of sys_epoll_ctl and sys_close
-- so far have made of it (interest in Chat/Watch). A write to a peer that has reset its connection ends
-- the process by SIGPIPE; a wake-up may be cut off by it between two events (killed), and the other
-- theorems are about handlers whose writes do not. The endless loop of server_go is
-- run for any list of such batches.
--
-- Not modelled: the tests of the library. The numbers in time.c do not wrap: the seconds that it is
-- given stay below 2 ^ 55, a hypothesis where it matters. The server's system calls are answers
-- that a handler is given, and not yet runs of the wrappers in System; that
-- of sys_read is related to its wrapper in Chat/Read/Answers.
pub mod Base
pub mod Memory
pub mod Builtin
pub mod Buffer
pub mod Chain
pub mod Pool
pub mod Arena
pub mod System
pub mod Fmt
pub mod Assert
pub mod Time
pub mod Chat
mod Examples
