-- ===== src/Examples/C/Row.antt =====
-- The row that the C programs in examples/ send, as calls on a buffer.
use c_questdb_client.Escape.{must_escape_unquoted}
use c_questdb_client.Escape.InPlace.{escape}
use c_questdb_client.Number.{format_f64}
use Prim.Native.String.{String}
use c_questdb_client.Buffer.Calls.Outcome.{run-after}
use c_questdb_client.Buffer.Calls.{
  value_refusal, text, name_of, op_of, Call, table_call, symbol_call, f64_call, at_call, run,
  refusal, after,
}
use c_questdb_client.Base.{none, ℕ, ◌≡◌, refl, [], ◌∷◌, ◌++◌, codes}
use c_questdb_client.Base.Int.{pos}
use c_questdb_client.Error.{ok}
use c_questdb_client.Text.{bytes, Bytes, len}
use c_questdb_client.Number.{Formatters}
use c_questdb_client.Name.TableName
use c_questdb_client.Name.ColumnName
use c_questdb_client.Timestamp.{to_nanos, nanos}
use c_questdb_client.Buffer
use c_questdb_client.Buffer.{Buffer}

-- The tables of the programs.
pub data Table : Type 0 where
  trades auth auth_tls http tls_ca from_conf from_env : Table

abbrev pub table_of : Table → Bytes
table_of trades = codes "c_trades"
table_of auth = codes "c_trades_auth"
table_of auth_tls = codes "c_trades_auth_tls"
table_of http = codes "c_trades_http"
table_of tls_ca = codes "c_trades_tls_ca"
table_of from_conf = codes "c_trades_from_conf"
table_of from_env = codes "c_trades_from_env"

module _ (x : Formatters) where
  -- The line that the programs send.
  abbrev pub line : Table → Bytes
  line t =
      (table_of t ++ codes ",symbol=ETH-USD,side=sell")
      ++ (codes " price=" ++ x.ryu 0x40a46f147ae147ae)
      ++ (codes ",amount=" ++ x.ryu 0x3f3cd5f99c38b04b)
      ++ (b' ' ∷ (x.itoa (pos 867992215000000000) ++ 0x0a ∷ []))

  -- The calls that fill the buffer.
  abbrev pub column : String → ℕ → Call
  column name bits = f64_call (ok (ColumnName.new_unchecked (codes name))) bits

  abbrev pub symbol : String → String → Call
  symbol name value = symbol_call (ok (ColumnName.new_unchecked (codes name))) (codes value)

  abbrev pub named : (table : Bytes) → Call
  named table = table_call (ok (TableName.new_unchecked table))

  abbrev pub timed : ℕ → Call
  timed ts = at_call (ok (nanos (record { as_i64 = pos ts })))

  -- The buffer behind one call, behind the next, and so on, for any table and time.
  pub tabled : (table : Bytes) → Buffer
  tabled table = after x (named table) Buffer.new

  pub with_symbol : (table : Bytes) → Buffer
  with_symbol table = after x (symbol "symbol" "ETH-USD") (tabled table)

  pub with_side : (table : Bytes) → Buffer
  with_side table = after x (symbol "side" "sell") (with_symbol table)

  pub with_price : (table : Bytes) → Buffer
  with_price table = after x (column "price" 0x40a46f147ae147ae) (with_side table)

  pub with_amount : (table : Bytes) → Buffer
  with_amount table = after x (column "amount" 0x3f3cd5f99c38b04b) (with_price table)

  unfoldable pub ended : (table : Bytes) (ts : ℕ) → Buffer
  ended table ts = after x (timed ts) (with_amount table)

  -- The buffer that a program in C fills.
  abbrev pub filled : Table → Buffer
  filled t = ended (table_of t) 867992215000000000

  pub named_step :
      (table : Bytes)
      → refusal (named table) Buffer.new ≡ none
      → run x (named table) Buffer.new ≡ (ok tt, tabled table)
  unfolding value_refusal tabled
  named_step table h = run-after x (named table) Buffer.new h refl

  pub table_step :
      (t : Table) → run x (named (table_of t)) Buffer.new ≡ (ok tt, tabled (table_of t))
  unfolding refusal name_of Buffer.new len Buffer.permits op_of
  table_step trades = named_step (table_of trades) refl
  table_step auth = named_step (table_of auth) refl
  table_step auth_tls = named_step (table_of auth_tls) refl
  table_step http = named_step (table_of http) refl
  table_step tls_ca = named_step (table_of tls_ca) refl
  table_step from_conf = named_step (table_of from_conf) refl
  table_step from_env = named_step (table_of from_env) refl

  module _ (table : Bytes) where
    pub symbol_step : run x (symbol "symbol" "ETH-USD") (tabled table) ≡ (ok tt, with_symbol table)
    unfolding value_refusal tabled with_symbol refusal after name_of Buffer.new len Buffer.permits
        op_of
    symbol_step = run-after x (symbol "symbol" "ETH-USD") (tabled table) refl refl

    pub side_step : run x (symbol "side" "sell") (with_symbol table) ≡ (ok tt, with_side table)
    unfolding value_refusal tabled with_symbol with_side refusal after name_of Buffer.new len
        Buffer.permits op_of
    side_step = run-after x (symbol "side" "sell") (with_symbol table) refl refl

    pub price_step :
        run x (column "price" 0x40a46f147ae147ae) (with_side table) ≡ (ok tt, with_price table)
    unfolding value_refusal tabled with_symbol with_side with_price refusal after name_of Buffer.new
        len Buffer.permits op_of
    price_step = run-after x (column "price" 0x40a46f147ae147ae) (with_side table) refl refl

    pub amount_step :
        run x (column "amount" 0x3f3cd5f99c38b04b) (with_price table) ≡ (ok tt, with_amount table)
    unfolding value_refusal tabled with_symbol with_side with_price with_amount refusal after
        name_of Buffer.new len Buffer.permits op_of
    amount_step = run-after x (column "amount" 0x3f3cd5f99c38b04b) (with_price table) refl refl

    pub at_step : (ts : ℕ) → run x (timed ts) (with_amount table) ≡ (ok tt, ended table ts)
    unfolding value_refusal tabled with_symbol with_side with_price with_amount ended refusal after
        name_of Buffer.new len Buffer.permits op_of to_nanos
    at_step ts = run-after x (timed ts) (with_amount table) refl refl

  filled-line : (t : Table) → (filled t).output ≡ line t
  unfolding ended tabled with_symbol with_side with_price with_amount after Buffer.new text escape
      bytes must_escape_unquoted Buffer.permits format_f64 op_of to_nanos
  filled-line trades = refl
  filled-line auth = refl
  filled-line auth_tls = refl
  filled-line http = refl
  filled-line tls_ca = refl
  filled-line from_conf = refl
  filled-line from_env = refl
