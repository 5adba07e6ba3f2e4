-- ===== src/Sys/SystemException.antt =====
-- sys/SystemException.cxx: which exception an error number becomes.
pub mod Laws
use metasys.Base.{ℕ, List, [], ◌∷◌, if◌then◌else◌, ◌==ℤ◌, ℤ, pos}
use metasys.Machine.{
  M, throw, stop, errno_exception, aborted, eperm, enoent, esrch, eintr, eio, eagain, enomem,
  eacces, enotdir, einval, enfile, emfile, efbig, enospc, erofs, epipe, eloop, eoverflow,
  edestaddrreq, eaddrinuse, eaddrnotavail, enobufs, etimedout, econnrefused, einprogress, edquot,
}

-- The cases of the switch in `throwErrno`, in order.
abbrev pub cases : List ℕ
cases =
    eacces ∷ eaddrinuse ∷ eaddrnotavail ∷ eagain ∷ econnrefused ∷ edestaddrreq ∷ edquot ∷ efbig
    ∷ einprogress ∷ eintr ∷ einval ∷ eio ∷ eloop ∷ emfile ∷ enfile ∷ enobufs ∷ enoent ∷ enomem
    ∷ enospc ∷ enotdir ∷ eoverflow ∷ eperm ∷ epipe ∷ erofs ∷ esrch ∷ etimedout ∷ []

-- `switch (err) { case c: throw ErrnoException<c>(); ... default: ::abort(); }`
unfoldable pub switch : {A : Type 0} → ℤ → List ℕ → M A
switch err [] = stop aborted
switch err (c ∷ cs) = if err ==ℤ pos c then throw (errno_exception c) else switch err cs

-- `throwErrno(int err)`
unfoldable pub throw_errno_of : {A : Type 0} → ℤ → M A
unfolding switch
throw_errno_of err = switch err cases

-- `throwErrno()`
unfoldable pub throw_errno : {A : Type 0} → M A
unfolding throw_errno_of
throw_errno s = throw_errno_of (pos s.errno) s
