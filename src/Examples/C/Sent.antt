-- ===== src/Examples/C/Sent.antt =====
-- The calls of `row` over the library: what reaches the flush.
use c_questdb_client.Buffer.Calls.{run}
use c_questdb_client.Base.{◌∙◌, ◌≡◌, refl, some}
use c_questdb_client.Text.Utf8.{from_utf8}
use c_questdb_client.Number.{Formatters}
use c_questdb_client.Name.TableName
use c_questdb_client.Name.ColumnName
use c_questdb_client.Buffer
use c_questdb_client.Buffer.{Buffer}
use c_questdb_client.Builder.Build.{Environment}
use c_questdb_client.Sender.{Network}
use c_questdb_client.Capi.Memory.{Ptr, Memory, Cmd, update}
use c_questdb_client.Capi.Ffi
use c_questdb_client.Capi.Ffi.Library.{library}
use c_questdb_client.Examples.C.{row}
use c_questdb_client.Text.Utf8.{from_utf8}
use c_questdb_client.Builder.Build.{Environment}
use c_questdb_client.Sender.{Network}
use c_questdb_client.Capi.Memory.{Ptr, Memory, update, ◌&>◌, Cmd, Outcome}
use c_questdb_client.Capi.Ffi
use c_questdb_client.Capi.Ffi.{on_buffer}
use c_questdb_client.Capi.Ffi.Library.{library, sender_flush}
use c_questdb_client.Cpp.LineSenderBuffer.View.{self}
use c_questdb_client.Examples.C.{row}
use c_questdb_client.Examples.C.Row.{
  Table, trades, auth, auth_tls, http, tls_ca, from_conf, from_env, table_of, column, symbol, named,
  timed, tabled, with_symbol, with_side, with_price, with_amount, filled, table_step, symbol_step,
  side_step, price_step, amount_step, at_step,
}

module _ (x : Formatters) (n : Network) (env : Environment) where
  -- The calls on the buffer behind `q`, then the flush.
  chain : Table → (p q : Ptr) → Cmd (Outcome (Unit {0}))
  chain t p q =
      on_buffer q (run x (named x (table_of t)))
      &> on_buffer q (run x (symbol x "symbol" "ETH-USD"))
      &> on_buffer q (run x (symbol x "side" "sell"))
      &> on_buffer q (run x (column x "price" 0x40a46f147ae147ae))
      &> on_buffer q (run x (column x "amount" 0x3f3cd5f99c38b04b))
      &> on_buffer q (run x (timed x 867992215000000000))
      &> sender_flush n p q

  row-chain :
      (t : Table) (p q : Ptr) (m : Memory)
      → row (library x n env) (table_of t) p q m ≡ chain t p q m
  unfolding row chain run Ffi.table_name_assert from_utf8 TableName.new Ffi.column_name_assert
      ColumnName.new Ffi.buffer_table Ffi.str_unchecked Ffi.utf8_assert Ffi.buffer_symbol
      Ffi.buffer_column_f64 Ffi.buffer_at_nanos
  row-chain trades p q m = refl
  row-chain auth p q m = refl
  row-chain auth_tls p q m = refl
  row-chain http p q m = refl
  row-chain tls_ca p q m = refl
  row-chain from_conf p q m = refl
  row-chain from_env p q m = refl

  -- The memory that the flush finds.
  abbrev pub written : Table → Ptr → Memory → Memory
  written t q m = record m {
    buffers =
        update
          (update
            (update
              (update
                (update (update m.buffers q (some (tabled x (table_of t)))) q
                  (some (with_symbol x (table_of t))))
                q (some (with_side x (table_of t))))
              q (some (with_price x (table_of t))))
            q (some (with_amount x (table_of t))))
          q (some (filled x t));
  }

  pub row_lem :
      (t : Table) (p q : Ptr) (m : Memory)
      → m.buffers q ≡ some Buffer.new
      → row (library x n env) (table_of t) p q m ≡ sender_flush n p q (written t q m)
  unfolding chain
  row_lem t p q m h =
      row-chain t p q m
      ∙ rw
          (
            h,
            table_step x t,
            self,
            symbol_step x (table_of t),
            self,
            side_step x (table_of t),
            self,
            price_step x (table_of t),
            self,
            amount_step x (table_of t),
            self,
            at_step x (table_of t) 867992215000000000,
          )
          refl
