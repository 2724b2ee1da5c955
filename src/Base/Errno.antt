-- ===== src/Base/Errno.antt =====
-- The values of `errno` on Linux.
use Prim.Native.Nat.{ℕ}

abbrev pub eintr : ℕ
eintr = 4

abbrev pub eio : ℕ
eio = 5

abbrev pub eagain : ℕ
eagain = 11

abbrev pub enomem : ℕ
enomem = 12

abbrev pub ebusy : ℕ
ebusy = 16

abbrev pub enodev : ℕ
enodev = 19

abbrev pub einval : ℕ
einval = 22

abbrev pub enotty : ℕ
enotty = 25

abbrev pub epipe : ℕ
epipe = 32

abbrev pub enomsg : ℕ
enomsg = 42

abbrev pub eproto : ℕ
eproto = 71

abbrev pub ebadmsg : ℕ
ebadmsg = 74

abbrev pub emsgsize : ℕ
emsgsize = 90

abbrev pub eprotonosupport : ℕ
eprotonosupport = 93

abbrev pub enobufs : ℕ
enobufs = 105

abbrev pub enotconn : ℕ
enotconn = 107

abbrev pub etimedout : ℕ
etimedout = 110

abbrev pub estale : ℕ
estale = 116
