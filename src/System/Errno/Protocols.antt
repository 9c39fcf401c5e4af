-- ===== src/System/Errno/Protocols.antt =====
-- lib/cfa/include/errno.h, 44 to 87.
use chat_server.Base.{ℕ}

abbrev pub echrng : ℕ
echrng = 44

abbrev pub el2nsync : ℕ
el2nsync = 45

abbrev pub el3hlt : ℕ
el3hlt = 46

abbrev pub el3rst : ℕ
el3rst = 47

abbrev pub elnrng : ℕ
elnrng = 48

abbrev pub eunatch : ℕ
eunatch = 49

abbrev pub enocsi : ℕ
enocsi = 50

abbrev pub el2hlt : ℕ
el2hlt = 51

abbrev pub ebade : ℕ
ebade = 52

abbrev pub ebadr : ℕ
ebadr = 53

abbrev pub exfull : ℕ
exfull = 54

abbrev pub enoano : ℕ
enoano = 55

abbrev pub ebadrqc : ℕ
ebadrqc = 56

abbrev pub ebadslt : ℕ
ebadslt = 57

abbrev pub ebfont : ℕ
ebfont = 59

abbrev pub enostr : ℕ
enostr = 60

abbrev pub enodata : ℕ
enodata = 61

abbrev pub etime : ℕ
etime = 62

abbrev pub enosr : ℕ
enosr = 63

abbrev pub enonet : ℕ
enonet = 64

abbrev pub enopkg : ℕ
enopkg = 65

abbrev pub eremote : ℕ
eremote = 66

abbrev pub enolink : ℕ
enolink = 67

abbrev pub eadv : ℕ
eadv = 68

abbrev pub esrmnt : ℕ
esrmnt = 69

abbrev pub ecomm : ℕ
ecomm = 70

abbrev pub eproto : ℕ
eproto = 71

abbrev pub emultihop : ℕ
emultihop = 72

abbrev pub edotdot : ℕ
edotdot = 73

abbrev pub ebadmsg : ℕ
ebadmsg = 74

abbrev pub eoverflow : ℕ
eoverflow = 75

abbrev pub enotuniq : ℕ
enotuniq = 76

abbrev pub ebadfd : ℕ
ebadfd = 77

abbrev pub eremchg : ℕ
eremchg = 78

abbrev pub elibacc : ℕ
elibacc = 79

abbrev pub elibbad : ℕ
elibbad = 80

abbrev pub elibscn : ℕ
elibscn = 81

abbrev pub elibmax : ℕ
elibmax = 82

abbrev pub elibexec : ℕ
elibexec = 83

abbrev pub eilseq : ℕ
eilseq = 84

abbrev pub erestart : ℕ
erestart = 85

abbrev pub estrpipe : ℕ
estrpipe = 86

abbrev pub eusers : ℕ
eusers = 87
