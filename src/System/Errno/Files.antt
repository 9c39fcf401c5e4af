-- ===== src/System/Errno/Files.antt =====
-- lib/cfa/include/errno.h, the numbers up to 43.
use chat_server.Base.{ℕ}

abbrev pub success : ℕ
success = 0

abbrev pub eperm : ℕ
eperm = 1

abbrev pub enoent : ℕ
enoent = 2

abbrev pub esrch : ℕ
esrch = 3

abbrev pub eintr : ℕ
eintr = 4

abbrev pub eio : ℕ
eio = 5

abbrev pub enxio : ℕ
enxio = 6

abbrev pub e2big : ℕ
e2big = 7

abbrev pub enoexec : ℕ
enoexec = 8

abbrev pub ebadf : ℕ
ebadf = 9

abbrev pub echild : ℕ
echild = 10

abbrev pub eagain : ℕ
eagain = 11

abbrev pub enomem : ℕ
enomem = 12

abbrev pub eacces : ℕ
eacces = 13

abbrev pub efault : ℕ
efault = 14

abbrev pub enotblk : ℕ
enotblk = 15

abbrev pub ebusy : ℕ
ebusy = 16

abbrev pub eexist : ℕ
eexist = 17

abbrev pub exdev : ℕ
exdev = 18

abbrev pub enodev : ℕ
enodev = 19

abbrev pub enotdir : ℕ
enotdir = 20

abbrev pub eisdir : ℕ
eisdir = 21

abbrev pub einval : ℕ
einval = 22

abbrev pub enfile : ℕ
enfile = 23

abbrev pub emfile : ℕ
emfile = 24

abbrev pub enotty : ℕ
enotty = 25

abbrev pub etxtbsy : ℕ
etxtbsy = 26

abbrev pub efbig : ℕ
efbig = 27

abbrev pub enospc : ℕ
enospc = 28

abbrev pub espipe : ℕ
espipe = 29

abbrev pub erofs : ℕ
erofs = 30

abbrev pub emlink : ℕ
emlink = 31

abbrev pub epipe : ℕ
epipe = 32

abbrev pub edom : ℕ
edom = 33

abbrev pub erange : ℕ
erange = 34

abbrev pub edeadlk : ℕ
edeadlk = 35

abbrev pub enametoolong : ℕ
enametoolong = 36

abbrev pub enolck : ℕ
enolck = 37

abbrev pub enosys : ℕ
enosys = 38

abbrev pub enotempty : ℕ
enotempty = 39

abbrev pub eloop : ℕ
eloop = 40

abbrev pub enomsg : ℕ
enomsg = 42

abbrev pub eidrm : ℕ
eidrm = 43

abbrev pub edeadlock : ℕ
edeadlock = edeadlk
