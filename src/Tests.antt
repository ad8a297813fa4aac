-- ===== src/Tests.antt =====
-- The theorems at concrete inputs: here a buffer with a row, and a sender over a socket.
pub mod Text
pub mod Objects
pub mod Config
pub mod Examples
pub mod Opts
pub mod Reached
pub mod Programs
pub mod Links
use c_questdb_client.Base.{
  ◌↔◌, ◌%◌, ◌*◌, ◌^◌, ℕ, ◌+◌, ◌≡◌, ◌≢◌, ◌≤◌, ◌<◌, ◌⊎◌, inl, inr, true, false, not, ◌&&◌, none, some,
  [], ◌∷◌, ◌++◌, refl, codes, arith, ltb, ◌==◌, if◌then◌else◌, List, Option,
}
use c_questdb_client.Base.Int.{pos, negsuc, scale, IsInt64, is_int64}
use c_questdb_client.Error.{
  ok, err, error, invalid_timestamp, timestamp_out_of_range, ErrorCode, socket_error, not_connected,
  is_ok, Error,
}
use c_questdb_client.Text.{bytes, len}
use c_questdb_client.Text.Utf8.{from_utf8, from_utf8-bytes}
use c_questdb_client.Name.TableName
use c_questdb_client.Name.TableName.{TableName, is_ok-new_table}
use c_questdb_client.Name.ColumnName
use c_questdb_client.Name.ColumnName.{ColumnName, is_ok-new_column}
use c_questdb_client.Escape.{must_escape_unquoted, must_escape_quoted, write_escaped_impl}
use c_questdb_client.Escape.InPlace.{escape, write_escaped_impl-escape}
use c_questdb_client.Escape.Scan.{
  read_escaped, ends_unquoted, ends_quoted, read-unquoted, read-quoted,
}
use c_questdb_client.Timestamp.{TimestampMicros, TimestampNanos, nanos_of_micros, micros_of_nanos}
use c_questdb_client.Number.{Formatters}
use c_questdb_client.Buffer
use c_questdb_client.Buffer.{Buffer, with_max_name_len, set_marker, rewind_to_marker}
use c_questdb_client.Buffer.Calls.{
  table_call, symbol_call, at_now_call, run, outcome, refusal, value_refusal, after,
}
use c_questdb_client.Buffer.Calls.Outcome.{run-outcome}
use c_questdb_client.Buffer.Marker.{run_all, rewind-run_all-set_marker}
use c_questdb_client.Buffer.Rows.{read_lines}
use c_questdb_client.Buffer.Rows.Invariant.{Reach, row_count-read_lines}
use c_questdb_client.Escape
use c_questdb_client.Buffer.Tables
use c_questdb_client.Buffer.Tables.{Log, at_most_one_table, transactional-at_most_one_table}
use c_questdb_client.Builder
use c_questdb_client.Builder.{SenderBuilder}
use c_questdb_client.Builder.Build.{Environment}
use c_questdb_client.Builder.Auth.{AuthParams, build_auth, GivenBy, build_auth_lem}
use c_questdb_client.Builder.Setters.Valid.{apply_all, apply_all-new, IsValid}
use c_questdb_client.Builder.Setters.Valid
use c_questdb_client.Builder.Setters.Once.{Keeps, apply_all-Keeps}
use c_questdb_client.Builder.Setters
use c_questdb_client.Capi.Ffi
use c_questdb_client.Capi.Ffi.Views.{table_name_of, table_name_init-buffer_table}
use c_questdb_client.Http.{World, response, failed, transport, Ended, http_send_with_retries}
use c_questdb_client.Http.Retry.{http_send_with_retries_ends}
use c_questdb_client.Http.Retry
use c_questdb_client.Sender
use c_questdb_client.Sender.{Sender, ProtocolHandler, Network, flush_impl, flushed}
use c_questdb_client.Sender.Flush
use c_questdb_client.Sender.Flush.{flush_impl-Delivered, must_close-flush_impl}
use c_questdb_client.Capi.Memory.{Memory, null, fault, returned, done, Ptr}
use c_questdb_client.Capi.Ffi.Library.{library}
use c_questdb_client.Cpp.LineSenderBuffer.{LineSenderBuffer, copy}
use c_questdb_client.Cpp.LineSenderBuffer.View.{Effect, member-Effect}
use c_questdb_client.Cpp.LineSenderBuffer.Copy.{Copied, copy_lem}
use c_questdb_client.Cpp.LineSender
use c_questdb_client.Cpp.LineSender.{LineSender}
use c_questdb_client.Cpp.LineSender.Closed.{flush_and_keep-closed}

-- Formatting crates that write one digit for every number.
abbrev pub formatters : Formatters
formatters = record {
  itoa = λ n. b'7' ∷ [];
  ryu = λ n. b'2' ∷ b'.' ∷ b'5' ∷ [];
  hex = λ s. b'0' ∷ b'f' ∷ [];
  itoa_bytes = λ n. (refl, tt);
  ryu_bytes = λ n. (refl, (refl, (refl, tt)));
  hex_bytes = λ s. (refl, (refl, tt));
}

-- Every file opens, no variable is set, and every connection is made.
abbrev pub environment : Environment
environment = record {
  opens = λ path. true;
  parse_conf_str = λ s. none;
  client_conf = none;
  connect_tcp = λ b auth. ok tt;
  configure_tls = λ b. ok tt;
  calloc = λ n. true;
  system_time = pos 867992215000000000;
}

abbrev pub trades : TableName
trades = record { name = codes "trades" }

abbrev quotes : TableName
quotes = record { name = codes "quotes" }

abbrev sym_column : ColumnName
sym_column = record { name = codes "sym col" }

abbrev pub limit : ℕ
limit = 127

-- Two rows, of two tables
abbrev start : Buffer
start = with_max_name_len limit

abbrev tabled : Buffer
tabled = (run formatters (table_call (ok trades)) start).1

abbrev keyed : Buffer
keyed = (run formatters (symbol_call (ok sym_column) (codes "a,b")) tabled).1

abbrev pub one_row : Buffer
one_row = (run formatters at_now_call keyed).1

abbrev pub one_row-Reach : Reach formatters one_row
one_row-Reach =
    Reach.called
      (Reach.called (Reach.called (Reach.started limit) (table_call (ok trades)))
        (symbol_call (ok sym_column) (codes "a,b")))
      at_now_call

abbrev one_row-Log : Log formatters one_row (trades.name ∷ []) none
unfolding Tables.logged run with_max_name_len len Buffer.permits
one_row-Log =
    Log.called
      (Log.called (Log.called (Log.started limit) (table_call (ok trades)))
        (symbol_call (ok sym_column) (codes "a,b")))
      at_now_call

pub one_row_output : one_row.output ≡ codes "trades,sym\\ col=a\\,b\n"
unfolding run Buffer.permits with_max_name_len len Escape.write_escaped_unquoted write_escaped_impl
    must_escape_unquoted
one_row_output = refl

run-outcome_example :
    run formatters (table_call (ok quotes)) one_row
    ≡ outcome
        (refusal (table_call (ok quotes)) one_row)
        (value_refusal (table_call (ok quotes)))
        one_row
        (after formatters (table_call (ok quotes)) one_row)
run-outcome_example = run-outcome formatters (table_call (ok quotes)) one_row

row_count-read_lines_example :
    ((read_lines (false, 0) one_row.output).0 ≡ false)
    × (one_row.state.row_count ≡ (read_lines (false, 0) one_row.output).1 % 2 ^ 64)
row_count-read_lines_example = row_count-read_lines formatters one_row-Reach

transactional-at_most_one_table_example :
    one_row.state.transactional ≡ at_most_one_table (trades.name ∷ [])
transactional-at_most_one_table_example = transactional-at_most_one_table formatters one_row-Log

rewind-run_all-set_marker_example :
    ((set_marker one_row).0 ≡ ok tt)
    × (rewind_to_marker
          (run_all formatters (table_call (ok quotes) ∷ at_now_call ∷ []) (set_marker one_row).1)
        ≡ (ok tt, record one_row { marker = none }))
unfolding Buffer.permits run with_max_name_len len
rewind-run_all-set_marker_example =
    rewind-run_all-set_marker formatters (table_call (ok quotes) ∷ at_now_call ∷ []) one_row refl

abbrev socket_sender : Sender
socket_sender = record { handler = ProtocolHandler.socket; connected = true; max_buf_size = 100 }

abbrev pub good_network : Network
good_network = record { write_all = λ s. true; send = λ s. response }

abbrev broken_network : Network
broken_network = record { write_all = λ s. false; send = λ s. failed transport }

flush_impl-Delivered_example :
    (one_row.output ≢ [])
    × Flush.Delivered socket_sender one_row false
        (flush_impl good_network socket_sender one_row false)
unfolding flush_impl Buffer.check_op Buffer.permits run with_max_name_len len
    Escape.write_escaped_unquoted write_escaped_impl must_escape_unquoted
flush_impl-Delivered_example =
    flush_impl-Delivered good_network formatters socket_sender one_row false one_row-Reach refl

must_close-flush_impl_example :
    ((Sender.must_close socket_sender ≡ true)
      × (flush_impl broken_network socket_sender one_row false
          ≡ flushed (err (error socket_error not_connected)) socket_sender none))
    ⊎ ((ProtocolHandler.socket ≡ ProtocolHandler.socket)
        × (false ≡ false)
        × ((flush_impl broken_network socket_sender one_row false).wire ≡ some one_row.output))
unfolding Sender.must_close flush_impl Buffer.check_op Buffer.permits run with_max_name_len len
    Escape.write_escaped_unquoted write_escaped_impl must_escape_unquoted
must_close-flush_impl_example =
    must_close-flush_impl broken_network socket_sender one_row false refl
