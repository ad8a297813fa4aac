-- ===== src/Cpp/LineSender.antt =====
-- The class `line_sender` of line_sender.hpp.
pub mod Closed
pub mod Temporary
pub mod Agent
pub mod Constructed
use c_questdb_client.Base.{Option, Bool, false, not, some, ◌==◌, if◌then◌else◌, ℕ}
use c_questdb_client.Error.{Message, sender_closed}
use c_questdb_client.Capi.Codes.{CppErrorCode, cpp_invalid_api_call}
use c_questdb_client.Capi.Memory.{Ptr, null, Cmd, pure, ◌>>=◌, ◌>>◌, Exception}
use c_questdb_client.Capi.Header.{LineSenderApi}
use c_questdb_client.Cpp.Wrapped.{throw, wrapped_call, finally, attempt}
use c_questdb_client.Capi.Enums.{CppProtocol}
use c_questdb_client.Capi.Header.{LineSenderUtf8}
use c_questdb_client.Cpp.Opts
use c_questdb_client.Cpp.Opts.{Opts}
use c_questdb_client.Cpp.LineSenderBuffer
use c_questdb_client.Cpp.LineSenderBuffer.{LineSenderBuffer}

pub record LineSender : Type 0 where
  pub impl : Ptr

module _ (api : LineSenderApi) where
  -- `line_sender(const opts&)`
  unfoldable pub construct : Opts → Cmd LineSender
  construct opts = do
    p ← wrapped_call api.errors (api.builds.build opts.impl)
    pure (record { impl = p })

  -- The options are a temporary object, destructed when the sender is built, or by the unwinding.
  unfoldable pub from_temporary : Opts → Cmd LineSender
  from_temporary opts = finally (construct opts) (Opts.destruct api opts)

  unfoldable pub from_conf : LineSenderUtf8 → Cmd LineSender
  unfolding from_temporary construct Opts.from_conf Opts.destruct
  from_conf conf = do opts ← Opts.from_conf api conf; from_temporary opts

  unfoldable pub from_env : Cmd LineSender
  unfolding from_temporary construct Opts.from_env Opts.destruct
  from_env = do opts ← Opts.from_env api; from_temporary opts

  unfoldable pub construct_port : CppProtocol → LineSenderUtf8 → (port : ℕ) → Cmd LineSender
  unfolding from_temporary construct Opts.construct Opts.destruct
  construct_port protocol host port = do
    opts ← Opts.construct api protocol host port
    from_temporary opts

  unfoldable pub construct_service : CppProtocol → (host port : LineSenderUtf8) → Cmd LineSender
  unfolding from_temporary construct Opts.construct_service Opts.destruct
  construct_service protocol host port = do
    opts ← Opts.construct_service api protocol host port
    from_temporary opts

  unfoldable pub ensure_impl : LineSender → Cmd (Unit {0})
  ensure_impl o =
      if o.impl == null
      then throw (record { code = some cpp_invalid_api_call; what = sender_closed })
      else pure tt

  -- The buffer as the call leaves it, and the exception, if any.
  unfoldable pub flush : LineSender → LineSenderBuffer → Cmd (LineSenderBuffer × Option Exception)
  unfolding ensure_impl LineSenderBuffer.may_init
  flush o buffer = do
    buffer ← LineSenderBuffer.may_init api buffer
    e ← attempt (ensure_impl o >> wrapped_call api.errors (api.flushes.flush o.impl buffer.impl))
    pure (buffer, e)

  -- `buffer2` is destructed at the end of its block; when the call throws, by the unwinding.
  unfoldable pub flush_and_keep : LineSender → LineSenderBuffer → Cmd (Unit {0})
  unfolding ensure_impl LineSenderBuffer.may_init LineSenderBuffer.destruct
      LineSenderBuffer.construct
  flush_and_keep o buffer =
      if not (buffer.impl == null)
      then ensure_impl o >> wrapped_call api.errors (api.flushes.flush_and_keep o.impl buffer.impl)
      else do
        buffer2 ← LineSenderBuffer.may_init api (LineSenderBuffer.construct 0 127)
        finally (wrapped_call api.errors (api.flushes.flush_and_keep o.impl buffer2.impl))
            (LineSenderBuffer.destruct api buffer2)

  unfoldable pub must_close : LineSender → Cmd Bool
  must_close o = if not (o.impl == null) then api.flushes.must_close o.impl else pure false

  unfoldable pub close : LineSender → Cmd LineSender
  close o =
      if not (o.impl == null)
      then (do api.flushes.close o.impl; pure (record { impl = null }))
      else pure o

  -- The move constructor: the new object, and the one moved from.
  unfoldable pub move : LineSender → Cmd (LineSender × LineSender)
  move other = pure (other, record { impl = null })

  -- `operator=(line_sender&&)`, where the two are different objects.
  unfoldable pub move_assign : (this other : LineSender) → Cmd (LineSender × LineSender)
  unfolding close
  move_assign this other = do this ← close this; pure (other, record { impl = null })

  unfoldable pub destruct : LineSender → Cmd (Unit {0})
  unfolding close
  destruct o = do o ← close o; pure tt
