-- ===== src/System.antt =====
-- lib/cfa/src/syscall.c. The kernel is a parameter: for the number of a call and its arguments it
-- changes a state of its own and answers the register rax. A register has 64 bits; an argument of
-- type int arrives with its sign extended, one of type uint32 with zeros.
pub mod Errno
pub mod Errors
pub mod Laws
use chat_server.Base.{
  ℕ, zero, suc, ◌+◌, ◌-◌, ◌%◌, ◌^◌, Bool, true, false, Option, none, some, List, [], ◌∷◌, leb, ltb,
  ◌==◌, if◌then◌else◌,
}
use chat_server.System.Errors.{Error, syscall_errors, max_err_idx}

-- `syscall_result`
pub record SyscallResult : Type 0 where
  pub r1 : ℕ
  pub errno : ℕ

-- The instructions behind `syscall`: the comparison with -4095 is one of unsigned numbers.
unfoldable pub syscall_result : ℕ → SyscallResult
syscall_result rax =
    if leb rax (2 ^ 64 - 4095)
    then record { r1 = rax; errno = 0 }
    else record { r1 = 2 ^ 64 - 1; errno = 2 ^ 64 - rax }

-- The row of an index.
abbrev pub row : List Error → ℕ → Option Error
row [] n = none
row (e ∷ es) zero = some e
row (e ∷ es) (suc n) = row es n

-- nil is `none`.
unfoldable pub set_error : ℕ → Option Error
set_error code =
    if code == 0
    then none
    else (if ltb max_err_idx code then row syscall_errors max_err_idx else row syscall_errors code)

-- An int as an argument, and a register as an int.
abbrev pub from_int : ℕ → ℕ
from_int n = if ltb n (2 ^ 31) then n else n + 2 ^ 64 - 2 ^ 32

abbrev pub to_int : ℕ → ℕ
to_int r1 = r1 % 2 ^ 32

-- What is stored at err: nothing if that is nil.
abbrev pub stored_error : Bool → SyscallResult → Option (Option Error)
stored_error wanted r = if wanted then some (set_error r.errno) else none

-- What a call returns that answers only an error.
abbrev pub error_of : SyscallResult → Option Error
error_of r = if r.errno == 0 then none else set_error r.errno

-- The kernel, over its own state.
abbrev pub Kernel : Type 0 → Type 0
Kernel K = K → ℕ → List ℕ → K × ℕ

module _ {K : Type 0} (kernel : Kernel K) where
  abbrev pub syscall3 : K → ℕ → ℕ → ℕ → ℕ → K × SyscallResult
  syscall3 k trap a1 a2 a3 =
      let (k1, rax) = kernel k trap (a1 ∷ a2 ∷ a3 ∷ []) in (k1, syscall_result rax)

  abbrev pub syscall6 : K → ℕ → ℕ → ℕ → ℕ → ℕ → ℕ → ℕ → K × SyscallResult
  syscall6 k trap a1 a2 a3 a4 a5 a6 =
      let (k1, rax) = kernel k trap (a1 ∷ a2 ∷ a3 ∷ a4 ∷ a5 ∷ a6 ∷ []) in (k1, syscall_result rax)

  unfoldable pub sys_read : K → ℕ → ℕ → ℕ → Bool → K × Option (Option Error) × ℕ
  sys_read k fd buf count wanted =
      let (k1, r) = syscall3 k 0 fd buf count in (k1, stored_error wanted r, r.r1)

  unfoldable pub sys_write : K → ℕ → ℕ → ℕ → Bool → K × Option (Option Error) × ℕ
  sys_write k fd buf count wanted =
      let (k1, r) = syscall3 k 1 fd buf count in (k1, stored_error wanted r, r.r1)

  unfoldable pub sys_close : K → ℕ → K × Option Error
  sys_close k fd = let (k1, r) = syscall3 k 3 fd 0 0 in (k1, error_of r)

  unfoldable pub sys_mmap : K → ℕ → ℕ → ℕ → ℕ → ℕ → ℕ → Bool → K × Option (Option Error) × ℕ
  sys_mmap k addr len prot flags fd offset wanted =
      let (k1, r) = syscall6 k 9 addr len prot flags fd offset in (k1, stored_error wanted r, r.r1)

  unfoldable pub sys_munmap : K → ℕ → ℕ → K × Option Error
  sys_munmap k addr len = let (k1, r) = syscall3 k 11 addr len 0 in (k1, error_of r)

  unfoldable pub sys_exit : K → ℕ → K
  sys_exit k error_code = (syscall3 k 60 (from_int error_code) 0 0).0

  unfoldable pub sys_clock_gettime : K → ℕ → ℕ → K × Option Error
  sys_clock_gettime k which_clock tp =
      let (k1, r) = syscall3 k 228 (from_int which_clock) tp 0 in (k1, error_of r)

  unfoldable pub sys_socket : K → ℕ → ℕ → ℕ → Bool → K × Option (Option Error) × ℕ
  sys_socket k family type protocol wanted =
      let (k1, r) = syscall3 k 41 (from_int family) (from_int type) (from_int protocol) in
      (k1, stored_error wanted r, to_int r.r1)

  unfoldable pub sys_bind : K → ℕ → ℕ → ℕ → K × Option Error
  sys_bind k sockfd addr addrlen =
      let (k1, r) = syscall3 k 49 (from_int sockfd) addr (from_int addrlen) in (k1, error_of r)

  unfoldable pub sys_setsockopt : K → ℕ → ℕ → ℕ → ℕ → ℕ → K × Option Error
  sys_setsockopt k sockfd level optname optval optlen =
      let (k1, r) =
        syscall6 k 54 (from_int sockfd) (from_int level) (from_int optname) optval (from_int optlen)
          0 in
      (k1, error_of r)

  unfoldable pub sys_listen : K → ℕ → ℕ → K × Option Error
  sys_listen k sockfd qlen =
      let (k1, r) = syscall3 k 50 (from_int sockfd) (from_int qlen) 0 in (k1, error_of r)

  unfoldable pub sys_accept : K → ℕ → ℕ → ℕ → Bool → K × Option (Option Error) × ℕ
  sys_accept k sockfd addr addrlen wanted =
      let (k1, r) = syscall3 k 43 (from_int sockfd) addr addrlen in
      (k1, stored_error wanted r, to_int r.r1)

  unfoldable pub sys_accept4 : K → ℕ → ℕ → ℕ → ℕ → Bool → K × Option (Option Error) × ℕ
  sys_accept4 k sockfd addr addrlen flags wanted =
      let (k1, r) = syscall6 k 288 (from_int sockfd) addr addrlen (from_int flags) 0 0 in
      (k1, stored_error wanted r, to_int r.r1)

  unfoldable pub sys_fork : K → Bool → K × Option (Option Error) × ℕ
  sys_fork k wanted = let (k1, r) = syscall3 k 57 0 0 0 in (k1, stored_error wanted r, to_int r.r1)

  unfoldable pub sys_epoll_create : K → ℕ → Bool → K × Option (Option Error) × ℕ
  sys_epoll_create k size wanted =
      let (k1, r) = syscall3 k 213 (from_int size) 0 0 in (k1, stored_error wanted r, to_int r.r1)

  unfoldable pub sys_epoll_create1 : K → ℕ → Bool → K × Option (Option Error) × ℕ
  sys_epoll_create1 k flags wanted =
      let (k1, r) = syscall3 k 291 (from_int flags) 0 0 in (k1, stored_error wanted r, to_int r.r1)

  unfoldable pub sys_epoll_wait : K → ℕ → ℕ → ℕ → ℕ → Bool → K × Option (Option Error) × ℕ
  sys_epoll_wait k epfd events maxevents timeout wanted =
      let (k1, r) =
        syscall6 k 232 (from_int epfd) events (from_int maxevents) (from_int timeout) 0 0 in
      (k1, stored_error wanted r, to_int r.r1)

  unfoldable pub sys_epoll_ctl : K → ℕ → ℕ → ℕ → ℕ → K × Option Error
  sys_epoll_ctl k epfd op fd event =
      let (k1, r) = syscall6 k 233 (from_int epfd) (from_int op) (from_int fd) event 0 0 in
      (k1, error_of r)
