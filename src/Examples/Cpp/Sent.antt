-- ===== src/Examples/Cpp/Sent.antt =====
-- The calls of `row` of the C++ programs over the library: what reaches the flush.
use c_questdb_client.Base.{ℕ, ◌∙◌, ◌≡◌, refl, none, some, false, ◌==◌, codes, ◌*◌, ◌+◌}
use c_questdb_client.Base.Int.{ℤ, pos}
use c_questdb_client.Error.{ok}
use c_questdb_client.Text.{Bytes}
use c_questdb_client.Text.Utf8.{from_utf8}
use c_questdb_client.Number.{Formatters}
use c_questdb_client.Timestamp
use c_questdb_client.Timestamp.{nanos}
use c_questdb_client.Text.{len}
use c_questdb_client.Capi.Ffi.Library
use c_questdb_client.Name.TableName
use c_questdb_client.Name.ColumnName
use c_questdb_client.Buffer
use c_questdb_client.Buffer.{Buffer}
use c_questdb_client.Buffer.Calls.{Call, at_call, run, refusal, name_of, op_of}
use c_questdb_client.Builder.Build.{Environment}
use c_questdb_client.Sender.{Network}
use c_questdb_client.Capi.Memory.{Ptr, null, Memory, Cmd, returned, update, ◌>>=◌, and_then}
use c_questdb_client.Capi.Ffi
use c_questdb_client.Capi.Ffi.{on_buffer}
use c_questdb_client.Capi.Ffi.Library.{library}
use c_questdb_client.Cpp.Timestamps.{nanos_now}
use c_questdb_client.Cpp.Overloads
use c_questdb_client.Cpp.Wrapped.{finally, utf8_view, table_name_view, column_name_view}
use c_questdb_client.Cpp.LineSenderBuffer
use c_questdb_client.Cpp.LineSenderBuffer.{LineSenderBuffer, member}
use c_questdb_client.Cpp.LineSenderBuffer.View.{self}
use c_questdb_client.Cpp.LineSender
use c_questdb_client.Cpp.LineSender.{LineSender}
use c_questdb_client.Examples.C.Row.{
  Table, trades, auth, auth_tls, http, tls_ca, from_conf, from_env, named, column, symbol, timed,
  tabled, with_symbol, with_side, with_price, with_amount, ended, named_step, symbol_step,
  side_step, price_step, amount_step, at_step,
}
use c_questdb_client.Examples.Cpp.{Called, row, ◌&>>◌, with_argument, rethrown}

-- The tables of the programs.
abbrev pub table_of : Table → Bytes
table_of trades = codes "cpp_trades"
table_of auth = codes "cpp_trades_auth"
table_of auth_tls = codes "cpp_trades_auth_tls"
table_of http = codes "cpp_trades_http"
table_of tls_ca = codes "cpp_trades_tls_ca"
table_of from_conf = codes "cpp_trades_from_conf"
table_of from_env = codes "cpp_trades_from_env"

module _ (x : Formatters) (n : Network) (env : Environment) where
  -- A member function that makes a call on the buffer.
  abbrev pub calling : LineSenderBuffer → Call → Cmd Called
  calling o c = member (library x n env) o (λ p. on_buffer p (run x c))

  -- An object whose buffer is made.
  abbrev pub holding : Ptr → LineSenderBuffer
  holding p = record { impl = p; init_buf_size = 64 * 1024; max_name_len = 127 }

  -- A call that is accepted, on a buffer that is made, leaves the object and throws nothing.
  pub calling_lem :
      (p : Ptr) (c : Call) (b b' : Buffer) (m : Memory)
      → (p == null) ≡ false
      → m.buffers p ≡ some b
      → run x c b ≡ (ok tt, b')
      → calling (holding p) c m
        ≡ returned (holding p, none) (record m { buffers = update m.buffers p (some b') })
  unfolding member LineSenderBuffer.may_init
  calling_lem p c b b' m live there is = rw (live, there, is) refl

  -- The first call makes the buffer.
  first_lem :
      (c : Call) (b' : Buffer) (m : Memory)
      → run x c (Buffer.with_max_name_len 127) ≡ (ok tt, b')
      → calling LineSenderBuffer.construct_default c m
        ≡ returned
            (holding m.next, none)
            (record m {
              next = m.next + 1;
              buffers =
                  update
                    (update m.buffers m.next (some (Buffer.with_max_name_len 127)))
                    m.next
                    (some b');
            })
  unfolding member LineSenderBuffer.may_init LineSenderBuffer.construct_default
      Ffi.buffer_with_max_name_len Ffi.buffer_reserve
  first_lem c b' m is =
      let made = record m {
        next = m.next + 1;
        buffers = update m.buffers m.next (some (Buffer.with_max_name_len 127));
      } in
      let there : made.buffers m.next ≡ some (Buffer.with_max_name_len 127) = rw self refl in
      rw (there, there, is) refl

  timed_call : ℤ → Call
  timed_call ts = at_call (ok (nanos (record { as_i64 = ts })))

  -- The calls on the object that is constructed, then the flush, then the destructor.
  chain : Table → LineSender → Cmd (Unit {0})
  chain t sender = do
    r ←
        (calling LineSenderBuffer.construct_default (named x (table_of t))
          &>> (λ o. calling o (symbol x "symbol" "ETH-USD"))
          &>> (λ o. calling o (symbol x "side" "sell"))
          &>> (λ o. calling o (column x "price" 0x40a46f147ae147ae))
          &>> (λ o. calling o (column x "amount" 0x3f3cd5f99c38b04b))
          &>> (λ o.
              with_argument o (nanos_now (library x n env)) (λ now. calling o (timed_call now.ts)))
          &>> (λ o. LineSender.flush (library x n env) sender o))
    finally (rethrown r.1) (LineSenderBuffer.destruct (library x n env) r.0)

  row-chain :
      (t : Table) (sender : LineSender) (m : Memory)
      → row (library x n env) (table_of t) sender m ≡ chain t sender m
  unfolding row chain timed_call run Overloads.table_name_literal table_name_view
      Ffi.table_name_init from_utf8 TableName.new Overloads.column_name_literal column_name_view
      Ffi.column_name_init ColumnName.new LineSenderBuffer.table LineSenderBuffer.symbol
      LineSenderBuffer.column_f64 LineSenderBuffer.at_nanos Overloads.utf8_literal utf8_view
      Ffi.utf8_init Ffi.buffer_table Ffi.str_unchecked Ffi.buffer_symbol Ffi.buffer_column_f64
      Ffi.buffer_at_nanos
  row-chain trades sender m = refl
  row-chain auth sender m = refl
  row-chain auth_tls sender m = refl
  row-chain http sender m = refl
  row-chain tls_ca sender m = refl
  row-chain from_conf sender m = refl
  row-chain from_env sender m = refl

  abbrev stored : Ptr → Buffer → Memory → Memory
  stored p b m = record m { buffers = update m.buffers p (some b) }

  stored_lem : (p : Ptr) (b : Buffer) (m : Memory) → (stored p b m).buffers p ≡ some b
  stored_lem p b m = rw self refl

  abbrev made : Memory → Memory
  made m = record m {
    next = m.next + 1;
    buffers = update m.buffers m.next (some (Buffer.with_max_name_len 127));
  }

  -- The memory that the flush finds.
  abbrev pub written : Table → (ts : ℕ) → Memory → Memory
  written t ts m =
      let p = m.next in
      let table = table_of t in
      stored p (ended x table ts) (
        stored p (with_amount x table) (
          stored p (with_price x table) (
            stored p (with_side x table)
              (stored p (with_symbol x table) (stored p (tabled x table) (made m))))))

  first_step :
      (t : Table)
      → run x (named x (table_of t)) (Buffer.with_max_name_len 127) ≡ (ok tt, tabled x (table_of t))
  unfolding refusal name_of Buffer.new len Buffer.permits op_of
  first_step trades = named_step x (table_of trades) refl
  first_step auth = named_step x (table_of auth) refl
  first_step auth_tls = named_step x (table_of auth_tls) refl
  first_step http = named_step x (table_of http) refl
  first_step tls_ca = named_step x (table_of tls_ca) refl
  first_step from_conf = named_step x (table_of from_conf) refl
  first_step from_env = named_step x (table_of from_env) refl

  pub row_lem :
      (t : Table) (sender : LineSender) (ts : ℕ) (m : Memory)
      → (m.next == null) ≡ false
      → Timestamp.nanos_now env.system_time ≡ some (record { as_i64 = pos ts })
      → row (library x n env) (table_of t) sender m
        ≡ and_then
            (LineSender.flush (library x n env) sender (holding m.next) (written t ts m))
            (λ r. finally (rethrown r.1) (LineSenderBuffer.destruct (library x n env) r.0))
  unfolding chain nanos_now Library.now_nanos timed_call member LineSender.flush
  row_lem t sender ts m live clock =
      let p = m.next in
      let table = table_of t in
      let m1 = stored p (tabled x table) (made m) in
      let m2 = stored p (with_symbol x table) m1 in
      let m3 = stored p (with_side x table) m2 in
      let m4 = stored p (with_price x table) m3 in
      let m5 = stored p (with_amount x table) m4 in
      row-chain t sender m
      ∙ rw
          (
            first_lem (named x table) (tabled x table) m (first_step t),
            calling_lem p (symbol x "symbol" "ETH-USD") (tabled x table) (with_symbol x table) m1
                live (stored_lem p (tabled x table) (made m)) (symbol_step x table),
            calling_lem p (symbol x "side" "sell") (with_symbol x table) (with_side x table) m2 live
                (stored_lem p (with_symbol x table) m1) (side_step x table),
            calling_lem p (column x "price" 0x40a46f147ae147ae) (with_side x table)
                (with_price x table) m3 live (stored_lem p (with_side x table) m2)
                (price_step x table),
            calling_lem p (column x "amount" 0x3f3cd5f99c38b04b) (with_price x table)
                (with_amount x table) m4 live (stored_lem p (with_price x table) m3)
                (amount_step x table),
            clock,
            calling_lem p (timed x ts) (with_amount x table) (ended x table ts) m5 live
                (stored_lem p (with_amount x table) m4) (at_step x table ts),
          )
          refl
