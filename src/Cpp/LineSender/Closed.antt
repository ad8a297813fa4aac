-- ===== src/Cpp/LineSender/Closed.antt =====
-- `line_sender.flush` and `flush_and_keep` of line_sender.hpp on a sender that was closed or moved
-- from.
use c_questdb_client.Base.{◌≡◌, ◌<◌, inl, inr, refl, none, some, ◌==◌, if◌then◌else◌, Bool-cases}
use c_questdb_client.Error.{sender_closed}
use c_questdb_client.Number.{Formatters}
use c_questdb_client.Builder.Build.{Environment}
use c_questdb_client.Sender.{Network}
use c_questdb_client.Capi.Codes.{cpp_invalid_api_call}
use c_questdb_client.Capi.Memory.{Memory, Exception, null, thrown, fault}
use c_questdb_client.Capi.Ffi.Library
use c_questdb_client.Capi.Ffi.Library.{library}
use c_questdb_client.Cpp.LineSender.{LineSender, flush_and_keep, ensure_impl}
use c_questdb_client.Cpp.LineSenderBuffer.{LineSenderBuffer, construct}
use c_questdb_client.Cpp.LineSenderBuffer.View.{may_init-new}

abbrev pub closed_exception : Exception
closed_exception = record { code = some cpp_invalid_api_call; what = sender_closed }

module _ (x : Formatters) (n : Network) (env : Environment) where
  -- On a closed sender, `flush_and_keep` throws "Sender closed." for a buffer that was used; for one
  -- that was never used it hands null to the library as the sender, which faults. (No sender is at
  -- null.)
  pub flush_and_keep-closed :
      (o : LineSender) (buffer : LineSenderBuffer) (m : Memory)
      → o.impl ≡ null
      → m.senders null ≡ none
      → null < m.next
      → flush_and_keep (library x n env) o buffer m
        ≡ (if buffer.impl == null then fault else thrown closed_exception m)
  unfolding flush_and_keep ensure_impl Library.sender_flush_and_keep
  flush_and_keep-closed o buffer m closed nothing pos = elim (Bool-cases (buffer.impl == null)) [
    | inl unused ↦ rw (unused, closed, may_init-new x n env (construct 0 127) m refl, nothing) refl
    | inr used ↦ rw (used, closed) refl
  ]
