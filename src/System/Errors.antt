-- ===== src/System/Errors.antt =====
-- The errors of lib/cfa/include/errno.h: a row for each number of the kernel.
use Prim.Native.String.{String}
use chat_server.System.Errno.Files.{
  success, eperm, enoent, esrch, eintr, eio, enxio, e2big, enoexec, ebadf, echild, eagain, enomem,
  eacces, efault, enotblk, ebusy, eexist, exdev, enodev, enotdir, eisdir, einval, enfile, emfile,
  enotty, etxtbsy, efbig, enospc, espipe, erofs, emlink, epipe, edom, erange, edeadlk, enametoolong,
  enolck, enosys, enotempty, eloop, enomsg, eidrm, edeadlock,
}
use chat_server.System.Errno.Protocols.{
  echrng, el2nsync, el3hlt, el3rst, elnrng, eunatch, enocsi, el2hlt, ebade, ebadr, exfull, enoano,
  ebadrqc, ebadslt, ebfont, enostr, enodata, etime, enosr, enonet, enopkg, eremote, enolink, eadv,
  esrmnt, ecomm, eproto, emultihop, edotdot, ebadmsg, eoverflow, enotuniq, ebadfd, eremchg, elibacc,
  elibbad, elibscn, elibmax, elibexec, eilseq, erestart, estrpipe, eusers,
}
use chat_server.System.Errno.Sockets.{
  enotsock, edestaddrreq, emsgsize, eprototype, enoprotoopt, eprotonosupport, esocktnosupport,
  eopnotsupp, epfnosupport, eafnosupport, eaddrinuse, eaddrnotavail, enetdown, enetunreach,
  enetreset, econnaborted, econnreset, enobufs, eisconn, enotconn, eshutdown, etoomanyrefs,
  etimedout, econnrefused, ehostdown, ehostunreach, ealready, einprogress, estale, euclean, enotnam,
  enavail, eisnam, eremoteio, edquot, enomedium, emediumtype, ecanceled, enokey, ekeyexpired,
  ekeyrevoked, ekeyrejected, eownerdead, enotrecoverable, erfkill, ehwpoison, unknown_err,
}
use chat_server.Base.{ℕ, List, [], ◌∷◌}

pub record Error : Type 0 where
  pub code : ℕ
  pub msg : String

-- `max_err_idx`, the last index that is used
abbrev pub max_err_idx : ℕ
max_err_idx = 133

abbrev error : ℕ → String → Error
error code msg = record { code = code; msg = msg }

unfoldable pub syscall_errors : List Error
syscall_errors =
    error success "success"
    ∷ error eperm "operation not permitted"
    ∷ error enoent "no such file or directory"
    ∷ error esrch "no such process"
    ∷ error eintr "interrupted system call"
    ∷ error eio "I/O error"
    ∷ error enxio "no such device or address"
    ∷ error e2big "argument list too long"
    ∷ error enoexec "exec format error"
    ∷ error ebadf "bad file number"
    ∷ error echild "no child processes"
    ∷ error eagain "try again"
    ∷ error enomem "out of memory"
    ∷ error eacces "permission denied"
    ∷ error efault "bad address"
    ∷ error enotblk "block device required"
    ∷ error ebusy "device or resource busy"
    ∷ error eexist "file exists"
    ∷ error exdev "cross-device link"
    ∷ error enodev "no such device"
    ∷ error enotdir "not a directory"
    ∷ error eisdir "is a directory"
    ∷ error einval "invalid argument"
    ∷ error enfile "file table overflow"
    ∷ error emfile "too many open files"
    ∷ error enotty "not a typewriter"
    ∷ error etxtbsy "text file busy"
    ∷ error efbig "file too large"
    ∷ error enospc "no space left on device"
    ∷ error espipe "illegal seek"
    ∷ error erofs "read-only file system"
    ∷ error emlink "too many links"
    ∷ error epipe "broken pipe"
    ∷ error edom "math argument out of domain of func"
    ∷ error erange "math result not representable"
    ∷ error edeadlk "resource deadlock would occur"
    ∷ error enametoolong "file name too long"
    ∷ error enolck "no record locks available"
    ∷ error enosys "invalid system call number"
    ∷ error enotempty "directory not empty"
    ∷ error eloop "too many symbolic links encountered"
    ∷ error eagain "try again"
    ∷ error enomsg "no message of desired type"
    ∷ error eidrm "identifier removed"
    ∷ error echrng "channel number out of range"
    ∷ error el2nsync "level 2 not synchronized"
    ∷ error el3hlt "level 3 halted"
    ∷ error el3rst "level 3 reset"
    ∷ error elnrng "link number out of range"
    ∷ error eunatch "protocol driver not attached"
    ∷ error enocsi "no CSI structure available"
    ∷ error el2hlt "level 2 halted"
    ∷ error ebade "invalid exchange"
    ∷ error ebadr "invalid request descriptor"
    ∷ error exfull "exchange full"
    ∷ error enoano "no anode"
    ∷ error ebadrqc "invalid request code"
    ∷ error ebadslt "invalid slot"
    ∷ error edeadlock "resource deadlock avoided"
    ∷ error ebfont "bad font file format"
    ∷ error enostr "device not a stream"
    ∷ error enodata "no data available"
    ∷ error etime "timer expired"
    ∷ error enosr "out of streams resources"
    ∷ error enonet "machine is not on the network"
    ∷ error enopkg "package not installed"
    ∷ error eremote "object is remote"
    ∷ error enolink "link has been severed"
    ∷ error eadv "advertise error"
    ∷ error esrmnt "srmount error"
    ∷ error ecomm "communication error on send"
    ∷ error eproto "protocol error"
    ∷ error emultihop "multihop attempted"
    ∷ error edotdot "RFS specific error"
    ∷ error ebadmsg "not a data message"
    ∷ error eoverflow "value too large for defined data type"
    ∷ error enotuniq "name not unique on network"
    ∷ error ebadfd "file descriptor in bad state"
    ∷ error eremchg "remote address changed"
    ∷ error elibacc "can not access a needed shared library"
    ∷ error elibbad "accessing a corrupted shared library"
    ∷ error elibscn ".lib section in a.out corrupted"
    ∷ error elibmax "attempting to link in too many shared libraries"
    ∷ error elibexec "cannot exec a shared library directly"
    ∷ error eilseq "illegal byte sequence"
    ∷ error erestart "interrupted system call should be restarted"
    ∷ error estrpipe "streams pipe error"
    ∷ error eusers "too many users"
    ∷ error enotsock "socket operation on non-socket"
    ∷ error edestaddrreq "destination address required"
    ∷ error emsgsize "message too long"
    ∷ error eprototype "protocol wrong type for socket"
    ∷ error enoprotoopt "protocol not available"
    ∷ error eprotonosupport "protocol not supported"
    ∷ error esocktnosupport "socket type not supported"
    ∷ error eopnotsupp "operation not supported on transport endpoint"
    ∷ error epfnosupport "protocol family not supported"
    ∷ error eafnosupport "address family not supported by protocol"
    ∷ error eaddrinuse "address already in use"
    ∷ error eaddrnotavail "cannot assign requested address"
    ∷ error enetdown "network is down"
    ∷ error enetunreach "network is unreachable"
    ∷ error enetreset "network dropped connection because of reset"
    ∷ error econnaborted "software caused connection abort"
    ∷ error econnreset "connection reset by peer"
    ∷ error enobufs "no buffer space available"
    ∷ error eisconn "transport endpoint is already connected"
    ∷ error enotconn "transport endpoint is not connected"
    ∷ error eshutdown "cannot send after transport endpoint shutdown"
    ∷ error etoomanyrefs "too many references: cannot splice"
    ∷ error etimedout "connection timed out"
    ∷ error econnrefused "connection refused"
    ∷ error ehostdown "host is down"
    ∷ error ehostunreach "no route to host"
    ∷ error ealready "operation already in progress"
    ∷ error einprogress "operation now in progress"
    ∷ error estale "stale file handle"
    ∷ error euclean "structure needs cleaning"
    ∷ error enotnam "not a XENIX named type file"
    ∷ error enavail "no XENIX semaphores available"
    ∷ error eisnam "is a named type file"
    ∷ error eremoteio "remote I/O error"
    ∷ error edquot "quota exceeded"
    ∷ error enomedium "no medium found"
    ∷ error emediumtype "wrong medium type"
    ∷ error ecanceled "operation canceled"
    ∷ error enokey "required key not available"
    ∷ error ekeyexpired "key has expired"
    ∷ error ekeyrevoked "key has been revoked"
    ∷ error ekeyrejected "key was rejected by service"
    ∷ error eownerdead "owner died"
    ∷ error enotrecoverable "state not recoverable"
    ∷ error erfkill "operation not possible due to RF-kill"
    ∷ error ehwpoison "memory page has hardware error"
    ∷ error unknown_err "unknown error"
    ∷ []
