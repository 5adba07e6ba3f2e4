-- ===== src/Tests/Exceptions.antt =====
-- Handlers of exceptions.
use metasys.Base.{◌≡◌, pos}
use metasys.Machine.{pure, and_then, done, enoent, eai_noname}
use metasys.Sys.SystemException.{throw_errno_of}
use metasys.Sys.Exceptions.{Messages, network_exception, system_exception, message, catch_as}
use metasys.Sys.Exceptions.Laws.{catch-throw_errno_of, catch-resolvethrow}
use metasys.Net.AddressInfo.{resolvethrow}
use metasys.Tests.Kernels.{holding}

-- The messages of the C library.
abbrev texts : Messages
texts = record {
  strerror = λ err. "No such file or directory";
  gai_strerror = λ ret. "Name or service not known";
}

catch-throw_errno_of_example :
    catch_as system_exception
      (λ e. pure (message texts e))
      (throw_errno_of (pos enoent) (holding (pos 3)))
    ≡ done "No such file or directory" (holding (pos 3))
catch-throw_errno_of_example = catch-throw_errno_of texts system_exception enoent (holding (pos 3))

catch-resolvethrow_example :
    catch_as network_exception
      (λ e. pure (message texts e))
      (and_then (resolvethrow eai_noname (holding (pos 3))) (λ _. pure "none"))
    ≡ done "Name or service not known" (holding (pos 3))
catch-resolvethrow_example = catch-resolvethrow texts "none" eai_noname (holding (pos 3))
