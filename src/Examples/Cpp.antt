-- ===== src/Examples/Cpp.antt =====
-- The C++ programs in examples/ (line_sender_cpp_example*.cpp), as commands over the classes of
-- line_sender.hpp. `true` is success, and what is printed is left out. The objects of a block are
-- destructed at its end, and by the unwinding when something in it throws.
pub mod Programs
pub mod Sent
pub mod Freed
pub mod Answer
pub mod Main
use c_questdb_client.Base.{
  Bool, true, false, ◌||◌, Option, none, some, List, [], ◌∷◌, same_text, length, codes,
}
use c_questdb_client.Text.{Bytes}
use c_questdb_client.Capi.Memory.{
  Run, returned, thrown, aborted, fault, Cmd, pure, ◌>>=◌, Exception,
}
use c_questdb_client.Capi.Header.{LineSenderApi}
use c_questdb_client.Cpp.Wrapped.{throw, finally, utf8_view}
use c_questdb_client.Cpp.Timestamps.{nanos_now}
use c_questdb_client.Cpp.Overloads.{utf8_literal, table_name_literal, column_name_literal}
use c_questdb_client.Cpp.LineSenderBuffer
use c_questdb_client.Cpp.LineSenderBuffer.{LineSenderBuffer}
use c_questdb_client.Cpp.LineSender
use c_questdb_client.Cpp.LineSender.{LineSender}
use c_questdb_client.Examples.Concat.{text}

-- What a member function leaves: the object, and what it throws, if anything.
abbrev pub Called : Type 0
Called = LineSenderBuffer × Option Exception

-- The next call of a chain, on the object that the call before it leaves.
abbrev pub chained : Called → (LineSenderBuffer → Cmd Called) → Cmd Called
chained (o, none) k = k o
chained (o, some e) k = pure (o, some e)

infixl 5 ◌&>>◌
abbrev pub ◌&>>◌ : Cmd Called → (LineSenderBuffer → Cmd Called) → Cmd Called
c &>> k = c >>= λ r. chained r k

-- An argument that is computed before a member function of `o` is called.
abbrev pub taken : {A : Type 0} → LineSenderBuffer → Run A → (A → Cmd Called) → Run Called
taken o (returned a m) k = k a m
taken o (thrown e m) k = returned (o, some e) m
taken o aborted k = aborted
taken o fault k = fault

abbrev pub with_argument : {A : Type 0} → LineSenderBuffer → Cmd A → (A → Cmd Called) → Cmd Called
with_argument o c k m = taken o (c m) k

abbrev pub rethrown : Option Exception → Cmd (Unit {0})
rethrown none = pure tt
rethrown (some e) = throw e

-- `catch (const line_sender_error&)`
abbrev pub answered : Run (Unit {0}) → Run Bool
answered (returned u m) = returned true m
answered (thrown e m) = returned false m
answered aborted = aborted
answered fault = fault

help_in : List Bytes → Bool
help_in [] = false
help_in (arg ∷ args) =
    let rest = help_in args in
    same_text (text arg) (codes "-h") || same_text (text arg) (codes "--help") || rest

-- The loop starts behind the program's name.
unfoldable pub displayed_help : (argv : List Bytes) → Bool
unfolding help_in
displayed_help [] = false
displayed_help (program ∷ args) = help_in args

module _ (api : LineSenderApi) where
  -- From the names to the flush: a row of the table, sent. The names are made before the buffer.
  unfoldable pub row : (table : Bytes) → LineSender → Cmd (Unit {0})
  row table sender = do
    table_name ← table_name_literal api table (length table)
    symbol_name ← column_name_literal api (codes "symbol") 6
    side_name ← column_name_literal api (codes "side") 4
    price_name ← column_name_literal api (codes "price") 5
    amount_name ← column_name_literal api (codes "amount") 6
    r ←
        (LineSenderBuffer.table api LineSenderBuffer.construct_default table_name
          &>> (λ o.
              with_argument o (utf8_literal api (codes "ETH-USD") 7)
                (λ v. LineSenderBuffer.symbol api o symbol_name v))
          &>> (λ o.
              with_argument o (utf8_literal api (codes "sell") 4)
                (λ v. LineSenderBuffer.symbol api o side_name v))
          &>> (λ o. LineSenderBuffer.column_f64 api o price_name 0x40a46f147ae147ae)
          &>> (λ o. LineSenderBuffer.column_f64 api o amount_name 0x3f3cd5f99c38b04b)
          &>> (λ o. with_argument o (nanos_now api) (λ now. LineSenderBuffer.at_nanos api o now.ts))
          &>> (λ o. LineSender.flush api sender o))
    finally (rethrown r.1) (LineSenderBuffer.destruct api r.0)

  -- The block of `try`, and the handler
  unfoldable pub sent : (table : Bytes) → (make : Cmd LineSender) → Cmd (Unit {0})
  unfolding row
  sent table make = do sender ← make; finally (row table sender) (LineSender.destruct api sender)

  unfoldable pub tried : (table : Bytes) → (make : Cmd LineSender) → Cmd Bool
  unfolding sent
  tried table make m = answered (sent table make m)

  -- `line_sender::from_conf` of a `std::string` or a literal
  unfoldable pub from_string : Bytes → Cmd LineSender
  from_string s = do v ← utf8_view api s (length s); LineSender.from_conf api v
