-- ===== src/Machine/Errno.antt =====
-- The constants of <cerrno> and <netdb.h> that the code names, at their values on Linux.
use metasys.Base.{ℕ, ℤ, negsuc}

abbrev pub eperm : ℕ
eperm = 1

abbrev pub enoent : ℕ
enoent = 2

abbrev pub esrch : ℕ
esrch = 3

abbrev pub eintr : ℕ
eintr = 4

abbrev pub eio : ℕ
eio = 5

abbrev pub ebadf : ℕ
ebadf = 9

abbrev pub echild : ℕ
echild = 10

abbrev pub eagain : ℕ
eagain = 11

abbrev pub enomem : ℕ
enomem = 12

abbrev pub eacces : ℕ
eacces = 13

abbrev pub efault : ℕ
efault = 14

abbrev pub ebusy : ℕ
ebusy = 16

abbrev pub eexist : ℕ
eexist = 17

abbrev pub enotdir : ℕ
enotdir = 20

abbrev pub eisdir : ℕ
eisdir = 21

abbrev pub einval : ℕ
einval = 22

abbrev pub enfile : ℕ
enfile = 23

abbrev pub emfile : ℕ
emfile = 24

abbrev pub efbig : ℕ
efbig = 27

abbrev pub enospc : ℕ
enospc = 28

abbrev pub erofs : ℕ
erofs = 30

abbrev pub epipe : ℕ
epipe = 32

abbrev pub edom : ℕ
edom = 33

abbrev pub edeadlk : ℕ
edeadlk = 35

abbrev pub enametoolong : ℕ
enametoolong = 36

abbrev pub eloop : ℕ
eloop = 40

abbrev pub eoverflow : ℕ
eoverflow = 75

abbrev pub enotsock : ℕ
enotsock = 88

abbrev pub edestaddrreq : ℕ
edestaddrreq = 89

abbrev pub eprototype : ℕ
eprototype = 91

abbrev pub enoprotoopt : ℕ
enoprotoopt = 92

abbrev pub eopnotsupp : ℕ
eopnotsupp = 95

abbrev pub eafnosupport : ℕ
eafnosupport = 97

abbrev pub eaddrinuse : ℕ
eaddrinuse = 98

abbrev pub eaddrnotavail : ℕ
eaddrnotavail = 99

abbrev pub econnaborted : ℕ
econnaborted = 103

abbrev pub enobufs : ℕ
enobufs = 105

abbrev pub eisconn : ℕ
eisconn = 106

abbrev pub etimedout : ℕ
etimedout = 110

abbrev pub econnrefused : ℕ
econnrefused = 111

abbrev pub ealready : ℕ
ealready = 114

abbrev pub einprogress : ℕ
einprogress = 115

abbrev pub edquot : ℕ
edquot = 122

abbrev pub eownerdead : ℕ
eownerdead = 130

abbrev pub enotrecoverable : ℕ
enotrecoverable = 131

-- -1
abbrev pub eai_badflags : ℤ
eai_badflags = negsuc 0

-- -2
abbrev pub eai_noname : ℤ
eai_noname = negsuc 1

-- -3
abbrev pub eai_again : ℤ
eai_again = negsuc 2

-- -4
abbrev pub eai_fail : ℤ
eai_fail = negsuc 3

-- -5
abbrev pub eai_nodata : ℤ
eai_nodata = negsuc 4

-- -6
abbrev pub eai_family : ℤ
eai_family = negsuc 5

-- -7
abbrev pub eai_socktype : ℤ
eai_socktype = negsuc 6

-- -8
abbrev pub eai_service : ℤ
eai_service = negsuc 7

-- -9
abbrev pub eai_addrfamily : ℤ
eai_addrfamily = negsuc 8

-- -10
abbrev pub eai_memory : ℤ
eai_memory = negsuc 9

-- -11
abbrev pub eai_system : ℤ
eai_system = negsuc 10
