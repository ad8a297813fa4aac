-- ===== src/Sender.antt =====
-- `Sender` of questdb-rs/src/ingress/mod.rs: flushing a buffer. The socket and the HTTP request are
-- parameters; what the sender hands to them is returned beside its result.
pub mod Flush
use c_questdb_client.Base.{
  ℕ, Bool, true, false, not, ◌&&◌, Option, none, some, [], ltb, if◌then◌else◌, length,
}
use c_questdb_client.Op.{Op}
use c_questdb_client.Error.{
  Result, ok, err, Error, error, socket_error, invalid_api_call, not_connected, buffer_too_big,
  transactional_tcp, transactional_tables, flush_failed,
}
use c_questdb_client.Text.{Bytes}
use c_questdb_client.Http.{UreqError, status, transport, Sent, response, failed, parse_http_error}
use c_questdb_client.Buffer.{Buffer, check_op, clear}

pub data ProtocolHandler : Type 0 where
  socket http : ProtocolHandler

pub record Sender : Type 0 where
  pub handler : ProtocolHandler
  pub connected : Bool
  pub max_buf_size : ℕ

-- `write_all` on the socket, and `http_send_with_retries`.
pub record Network : Type 0 where
  pub write_all : Bytes → Bool
  pub send : Bytes → Sent

-- The result, the sender behind it, and the bytes that went to the network, if any.
pub record Flushed : Type 0 where
  pub result : Result (Unit {0})
  pub sender : Sender
  pub wire : Option Bytes

abbrev pub flushed : Result (Unit {0}) → Sender → Option Bytes → Flushed
flushed r s w = record { result = r; sender = s; wire = w }

http_result : Sent → Result (Unit {0})
http_result response = ok tt
http_result (failed (status code body)) = err (parse_http_error code body)
http_result (failed transport) = err (error socket_error flush_failed)

is_empty : Bytes → Bool
is_empty s = not (ltb 0 (length s))

module _ (n : Network) where
  send_to : ProtocolHandler → Sender → Buffer → Bool → Flushed
  send_to ProtocolHandler.socket s b transactional =
      if transactional
      then flushed (err (error invalid_api_call transactional_tcp)) s none
      else if n.write_all b.output
      then flushed (ok tt) s (some b.output)
      else flushed (err (error socket_error flush_failed)) (record s { connected = false })
          (some b.output)
  send_to ProtocolHandler.http s b transactional =
      if transactional && not b.state.transactional
      then flushed (err (error invalid_api_call transactional_tables)) s none
      else flushed (http_result (n.send b.output)) s (some b.output)

  after_check : Result (Unit {0}) → Sender → Buffer → Bool → Flushed
  after_check (err e) s b transactional = flushed (err e) s none
  after_check (ok _) s b transactional =
      if ltb s.max_buf_size (length b.output)
      then flushed (err (error invalid_api_call (buffer_too_big (length b.output) s.max_buf_size)))
          s none
      else if is_empty b.output
      then flushed (ok tt) s none
      else send_to s.handler s b transactional

  unfoldable pub flush_impl : Sender → Buffer → Bool → Flushed
  unfolding after_check send_to http_result is_empty
  flush_impl s b transactional =
      if not s.connected
      then flushed (err (error socket_error not_connected)) s none
      else after_check (check_op Op.flush b).0 s b transactional

  unfoldable pub flush_and_keep_with_flags : Sender → Buffer → Bool → Flushed
  flush_and_keep_with_flags s b transactional = flush_impl s b transactional

  unfoldable pub flush_and_keep : Sender → Buffer → Flushed
  flush_and_keep s b = flush_impl s b false

  cleared : Result (Unit {0}) → Buffer → Buffer
  cleared (ok _) b = clear b
  cleared (err e) b = b

  -- `flush` clears the buffer behind a success.
  unfoldable pub flush : Sender → Buffer → Flushed × Buffer
  unfolding cleared
  flush s b = let f = flush_impl s b false in (f, cleared f.result b)

unfoldable pub must_close : Sender → Bool
must_close s = not s.connected
