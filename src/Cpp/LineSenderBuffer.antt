-- ===== src/Cpp/LineSenderBuffer.antt =====
-- The class `line_sender_buffer` of line_sender.hpp. The object is a value: a member function returns
-- it as it leaves it. The C buffer is made on first use.
pub mod View
pub mod Copy
use c_questdb_client.Base.{Option, ◌*◌, ℕ, Bool, false, not, ◌==◌, if◌then◌else◌, []}
use c_questdb_client.Base.Int.{ℤ}
use c_questdb_client.Text.{Bytes}
use c_questdb_client.Capi.Memory.{Exception, Ptr, null, Cmd, pure, ◌>>=◌, ◌>>◌, Outcome}
use c_questdb_client.Capi.Header.{
  LineSenderApi, LineSenderUtf8, LineSenderTableName, LineSenderColumnName,
}
use c_questdb_client.Cpp.Wrapped.{wrapped_call, attempt}

pub record LineSenderBuffer : Type 0 where
  pub impl : Ptr
  pub init_buf_size : ℕ
  pub max_name_len : ℕ

-- The two constructors
unfoldable pub construct : (init_buf_size max_name_len : ℕ) → LineSenderBuffer
construct init_buf_size max_name_len = record {
  impl = null;
  init_buf_size = init_buf_size;
  max_name_len = max_name_len;
}

unfoldable pub construct_default : LineSenderBuffer
unfolding construct
construct_default = construct (64 * 1024) 127

module _ (api : LineSenderApi) where
  unfoldable pub may_init : LineSenderBuffer → Cmd LineSenderBuffer
  may_init o = if not (o.impl == null) then pure o else do
    p ← api.buffers.with_max_name_len o.max_name_len
    api.buffers.reserve p o.init_buf_size
    pure (record o { impl = p })

  -- The copy constructor
  unfoldable pub copy : LineSenderBuffer → Cmd LineSenderBuffer
  copy other = do p ← api.buffers.clone other.impl; pure (record other { impl = p })

  -- The move constructor: the new object, and the one moved from.
  unfoldable pub move : LineSenderBuffer → Cmd (LineSenderBuffer × LineSenderBuffer)
  move other = pure (other, record other { impl = null })

  -- `operator=(const line_sender_buffer&)`, where the two are different objects.
  unfoldable pub copy_assign : (this other : LineSenderBuffer) → Cmd LineSenderBuffer
  copy_assign this other = do
    api.buffers.free this.impl
    p ← (if not (other.impl == null) then api.buffers.clone other.impl else pure null)
    pure (record other { impl = p })

  -- `operator=(line_sender_buffer&&)`, where the two are different objects.
  unfoldable pub move_assign :
      (this other : LineSenderBuffer) → Cmd (LineSenderBuffer × LineSenderBuffer)
  move_assign this other = do api.buffers.free this.impl; pure (other, record other { impl = null })

  unfoldable pub destruct : LineSenderBuffer → Cmd (Unit {0})
  destruct o = if not (o.impl == null) then api.buffers.free o.impl else pure tt

  unfoldable pub reserve : LineSenderBuffer → (additional : ℕ) → Cmd LineSenderBuffer
  unfolding may_init
  reserve o additional = do o ← may_init o; api.buffers.reserve o.impl additional; pure o

  unfoldable pub size : LineSenderBuffer → Cmd ℕ
  size o = if not (o.impl == null) then api.buffers.size o.impl else pure 0

  unfoldable pub row_count : LineSenderBuffer → Cmd ℕ
  row_count o = if not (o.impl == null) then api.buffers.row_count o.impl else pure 0

  -- `return 0`, for a buffer that is not made yet
  unfoldable pub transactional : LineSenderBuffer → Cmd Bool
  transactional o = if not (o.impl == null) then api.buffers.transactional o.impl else pure false

  unfoldable pub peek : LineSenderBuffer → Cmd Bytes
  peek o = if not (o.impl == null) then api.buffers.peek o.impl else pure []

  unfoldable pub clear_marker : LineSenderBuffer → Cmd (Unit {0})
  clear_marker o = if not (o.impl == null) then api.buffers.clear_marker o.impl else pure tt

  unfoldable pub clear : LineSenderBuffer → Cmd (Unit {0})
  clear o = if not (o.impl == null) then api.buffers.clear o.impl else pure tt

  -- A member that makes the C buffer, and then a wrapped call on it: the object as it is left, and
  -- the exception, if any.
  unfoldable pub member :
      LineSenderBuffer
      → (Ptr → Cmd (Outcome (Unit {0})))
      → Cmd (LineSenderBuffer × Option Exception)
  unfolding may_init
  member o f = do o ← may_init o; e ← attempt (wrapped_call api.errors (f o.impl)); pure (o, e)

  unfoldable pub set_marker : LineSenderBuffer → Cmd (LineSenderBuffer × Option Exception)
  unfolding member
  set_marker o = member o api.buffers.set_marker

  unfoldable pub rewind_to_marker : LineSenderBuffer → Cmd (LineSenderBuffer × Option Exception)
  unfolding member
  rewind_to_marker o = member o api.buffers.rewind_to_marker

  unfoldable pub table :
      LineSenderBuffer → LineSenderTableName → Cmd (LineSenderBuffer × Option Exception)
  unfolding member
  table o name = member o (λ p. api.columns.table p name)

  unfoldable pub symbol :
      LineSenderBuffer
      → LineSenderColumnName
      → LineSenderUtf8
      → Cmd (LineSenderBuffer × Option Exception)
  unfolding member
  symbol o name value = member o (λ p. api.columns.symbol p name value)

  unfoldable pub column_bool :
      LineSenderBuffer → LineSenderColumnName → Bool → Cmd (LineSenderBuffer × Option Exception)
  unfolding member
  column_bool o name value = member o (λ p. api.columns.column_bool p name value)

  unfoldable pub column_i64 :
      LineSenderBuffer → LineSenderColumnName → ℤ → Cmd (LineSenderBuffer × Option Exception)
  unfolding member
  column_i64 o name value = member o (λ p. api.columns.column_i64 p name value)

  unfoldable pub column_f64 :
      LineSenderBuffer → LineSenderColumnName → ℕ → Cmd (LineSenderBuffer × Option Exception)
  unfolding member
  column_f64 o name value = member o (λ p. api.columns.column_f64 p name value)

  unfoldable pub column_str :
      LineSenderBuffer
      → LineSenderColumnName
      → LineSenderUtf8
      → Cmd (LineSenderBuffer × Option Exception)
  unfolding member
  column_str o name value = member o (λ p. api.columns.column_str p name value)

  unfoldable pub column_ts_nanos :
      LineSenderBuffer → LineSenderColumnName → ℤ → Cmd (LineSenderBuffer × Option Exception)
  unfolding member
  column_ts_nanos o name value = member o (λ p. api.columns.column_ts_nanos p name value)

  unfoldable pub column_ts_micros :
      LineSenderBuffer → LineSenderColumnName → ℤ → Cmd (LineSenderBuffer × Option Exception)
  unfolding member
  column_ts_micros o name value = member o (λ p. api.columns.column_ts_micros p name value)

  unfoldable pub at_nanos : LineSenderBuffer → ℤ → Cmd (LineSenderBuffer × Option Exception)
  unfolding member
  at_nanos o timestamp = member o (λ p. api.ats.at_nanos p timestamp)

  unfoldable pub at_micros : LineSenderBuffer → ℤ → Cmd (LineSenderBuffer × Option Exception)
  unfolding member
  at_micros o timestamp = member o (λ p. api.ats.at_micros p timestamp)

  unfoldable pub at_now : LineSenderBuffer → Cmd (LineSenderBuffer × Option Exception)
  unfolding member
  at_now o = member o api.ats.at_now
