-- ===== src/Examples/C.antt =====
-- The C programs in examples/ (line_sender_c_example*.c), as commands over the functions of
-- line_sender.h. `true` is success, and what is printed is left out.
pub mod Programs
pub mod Row
pub mod Sent
pub mod Left
pub mod Answer
pub mod Exit
pub mod Main
use c_questdb_client.Base.{
  ℕ, ◌+◌, ◌*◌, Bool, true, false, ◌||◌, Option, none, some, List, [], ◌∷◌, length, take, same_text,
  codes, ◌==◌, if◌then◌else◌, leb,
}
use c_questdb_client.Base.Int.{pos}
use c_questdb_client.Text.{Bytes}
use c_questdb_client.Capi.Memory.{
  Ptr, null, Cmd, Run, returned, fault, Outcome, done, failed, pure, ◌>>=◌, ◌>>◌, ◌&>◌,
  alloc_string, load_string, store_string,
}
use c_questdb_client.Capi.Header.{
  LineSenderApi, LineSenderUtf8, LineSenderColumnName, LineSenderTableName,
}
use c_questdb_client.Examples.Concat.{concat_, text, strlen}

-- The pointer that `concat_` returns.
abbrev pub allocated : Option (Option Bytes) → Cmd Ptr
allocated none m = returned null m
allocated (some none) m = fault
allocated (some (some block)) m = alloc_string block m

-- `free`
unfoldable pub free : Ptr → Cmd (Unit {0})
free p = if p == null then pure tt else do load_string p; store_string p none

-- `goto on_error`
abbrev on_failure : {A : Type 0} → Outcome A → (Ptr → Cmd Bool) → (A → Cmd Bool) → Cmd Bool
on_failure (done a) on_error k = k a
on_failure (failed err) on_error k = on_error err

-- `strncmp(arg, s, n) == 0`
abbrev same_start : (n : ℕ) (arg s : Bytes) → Bool
same_start n arg s = same_text (take n (text arg)) (take n (text s))

help_in : List Bytes → Bool
help_in [] = false
help_in (arg ∷ args) =
    let rest = help_in args in
    same_start 2 arg (codes "-h") || same_start 6 arg (codes "--help") || rest

-- The loop starts behind the program's name.
unfoldable pub displayed_help : (argv : List Bytes) → Bool
unfolding help_in
displayed_help [] = false
displayed_help (program ∷ args) = help_in args

-- An argument of the program, or the default.
abbrev pub argument : (argv : List Bytes) → ℕ → (default : Bytes) → Bytes
argument [] i default = default
argument (arg ∷ argv) ℕ.zero default = arg
argument (arg ∷ argv) (ℕ.suc i) default = argument argv i default

abbrev pub exit_code : Bool → ℕ
exit_code true = 0
exit_code false = 1

module _ (api : LineSenderApi) where
  -- `QDB_TABLE_NAME_LITERAL`, `QDB_COLUMN_NAME_LITERAL` and `QDB_UTF8_LITERAL`
  abbrev table_literal : Bytes → Cmd LineSenderTableName
  table_literal s = api.names.table_name_assert (length s) s

  abbrev column_literal : Bytes → Cmd LineSenderColumnName
  column_literal s = api.names.column_name_assert (length s) s

  abbrev utf8_literal : Bytes → Cmd LineSenderUtf8
  utf8_literal s = api.names.utf8_assert (length s) s

  -- From the names to the flush: a row of the table, sent.
  unfoldable pub row : (table : Bytes) → (sender buffer : Ptr) → Cmd (Outcome (Unit {0}))
  row table sender buffer = do
    table_name ← table_literal table
    symbol_name ← column_literal (codes "symbol")
    side_name ← column_literal (codes "side")
    price_name ← column_literal (codes "price")
    amount_name ← column_literal (codes "amount")
    api.columns.table buffer table_name
        &> (do
          symbol_value ← utf8_literal (codes "ETH-USD")
          api.columns.symbol buffer symbol_name symbol_value)
        &> (do
          side_value ← utf8_literal (codes "sell")
          api.columns.symbol buffer side_name side_value)
        &> api.columns.column_f64 buffer price_name 0x40a46f147ae147ae
        &> api.columns.column_f64 buffer amount_name 0x3f3cd5f99c38b04b
        &> api.ats.at_nanos buffer (pos 867992215000000000)
        &> api.flushes.flush sender buffer

  unfoldable pub on_error : (err conf_str buffer sender : Ptr) → Cmd Bool
  unfolding free
  on_error err conf_str buffer sender = do
    api.errors.msg err
    free conf_str
    api.errors.free err
    api.buffers.free buffer
    api.flushes.close sender
    pure false

  -- Behind the flush, the sender is closed; the buffer is not freed.
  abbrev ended : (sender buffer : Ptr) → Outcome (Unit {0}) → Cmd Bool
  ended sender buffer r =
      on_failure r (λ err. on_error err null buffer sender)
        λ _. do api.flushes.close sender; pure true

  -- With a sender: `conf_str` is freed and null.
  unfoldable pub with_sender : (table : Bytes) → (conf_str sender : Ptr) → Cmd Bool
  unfolding free row on_error
  with_sender table conf_str sender = do
    free conf_str
    buffer ← api.buffers.new
    api.buffers.reserve buffer (64 * 1024)
    r ← row table sender buffer
    ended sender buffer r

  -- `example` of the programs with a string that is concatenated.
  pub with_conf_str : (table : Bytes) → (conf_str : Ptr) → Cmd Bool
  unfolding on_error with_sender
  with_conf_str table conf_str = do
    s ← load_string conf_str
    c ← api.names.utf8_init (strlen s) s
    on_failure c (λ err. on_error err conf_str null null)
        λ conf. do
          p ← api.builds.from_conf conf
          on_failure p (λ err. on_error err conf_str null null)
              λ sender. with_sender table conf_str sender

  unfoldable pub example_with : (calloc : ℕ → Bool) (table first : Bytes) → List Bytes → Cmd Bool
  unfolding with_conf_str
  example_with calloc table first args = do
    conf_str ← allocated (concat_ calloc first args)
    if conf_str == null then pure false else with_conf_str table conf_str

  -- `main` of the two programs without such a string: freeing null does nothing.
  unfoldable pub main_with : (table : Bytes) → Cmd (Outcome Ptr) → Cmd ℕ
  unfolding with_sender on_error
  main_with table make = do
    p ← make
    b ← on_failure p (λ err. on_error err null null null) λ sender. with_sender table null sender
    pure (exit_code b)
