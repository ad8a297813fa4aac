-- ===== src/Buffer/Calls/Outcome.antt =====
-- Every call against its description.
use c_questdb_client.Base.{
  inl, inr, ◌≡◌, refl, true, [], ◌∷◌, ◌++◌, if◌then◌else◌, append_assoc, arith, none, append-nil,
}
use c_questdb_client.Op.{OpCase}
use c_questdb_client.Error.{Result-cases, ok, err}
use c_questdb_client.Text.{Bytes, bytes}
use c_questdb_client.Name.ColumnName.{ColumnName}
use c_questdb_client.Escape.{must_escape_quoted}
use c_questdb_client.Escape.InPlace.{
  escape, write_escaped_unquoted-escape, write_escaped_quoted-escape,
}
use c_questdb_client.Timestamp.{micros, nanos, micros_of_nanos, Timestamp, to_micros, to_nanos}
use c_questdb_client.Number.{Formatters, format_f64}
use c_questdb_client.Buffer.Calls.{
  Call, table_call, symbol_call, bool_call, i64_call, f64_call, str_call, ts_call, long256_call,
  at_call, at_now_call, run, op_of, name_of, refusal, unquoted, key_text, text, after, outcome,
  value_refusal,
}
use c_questdb_client.Buffer.{Buffer, symbol, at, at_now, write_column_key}

-- `write_column_key`, which every column call makes first.
write_column_key-outcome :
    (n : ColumnName) (b : Buffer)
    → write_column_key (ok n) b
      ≡ outcome (refusal (bool_call (ok n) true) b) none b (record b {
        output = b.output ++ key_text b.state.op_case (ok n);
        state = record (b.state) { op_case = OpCase.column_written };
      })
unfolding write_column_key refusal op_of name_of key_text
write_column_key-outcome n b = ground (
  arith,
  write_escaped_unquoted-escape (b.output ++ b' ' ∷ []) n.name,
  write_escaped_unquoted-escape (b.output ++ b',' ∷ []) n.name,
  append_assoc b.output (b' ' ∷ []) (unquoted n.name),
  append_assoc b.output (b',' ∷ []) (unquoted n.name),
  append_assoc b.output (b' ' ∷ unquoted n.name) (b'=' ∷ []),
  append_assoc b.output (b',' ∷ unquoted n.name) (b'=' ∷ []),
)

-- The text of a value in two pieces.
regroup :
    (b : Buffer) (n : ColumnName) (s t : Bytes)
    → ((b.output ++ key_text b.state.op_case (ok n)) ++ s) ++ t
      ≡ b.output ++ (key_text b.state.op_case (ok n) ++ (s ++ t))
regroup b n s t = simp append_assoc

module _ (x : Formatters) where
  at-outcome :
      (t : Timestamp) (b : Buffer)
      → run x (at_call (ok t)) b
        ≡ outcome (refusal (at_call (ok t)) b) none b (after x (at_call (ok t)) b)
  unfolding run at refusal after text op_of name_of
  at-outcome t b = elim (Result-cases (to_nanos t)) [
    | inl (n, fits) ↦ rw fits (
        ground (
          arith,
          append_assoc b.output (b' ' ∷ []) (x.itoa n.as_i64),
          append_assoc b.output (b' ' ∷ x.itoa n.as_i64) (0x0a ∷ []),
        ))
    | inr (e, overflows) ↦ rw overflows (ground arith)
  ]

  -- A call that is refused for its name, its order or its time changes nothing, and says why. A
  -- column whose value cannot be made a number of microseconds says why, but its key is written and
  -- the state moved on. Any other call appends its text and moves the state on. The marker and the
  -- limit stay in every case.
  pub run-outcome :
      (c : Call) (b : Buffer) → run x c b ≡ outcome (refusal c b) (value_refusal c) b (after x c b)
  unfolding run refusal value_refusal after text op_of name_of to_micros
  run-outcome at_now_call b = unfold at_now in ground arith
  run-outcome (table_call (ok n)) b = ground (arith, write_escaped_unquoted-escape b.output n.name)
  run-outcome (table_call (err e)) b = refl
  run-outcome (symbol_call (ok n) v) b =
      unfold symbol in
      ground (
        arith,
        write_escaped_unquoted-escape (b.output ++ b',' ∷ []) n.name,
        write_escaped_unquoted-escape ((b.output ++ b',' ∷ unquoted n.name) ++ b'=' ∷ []) v,
        append_assoc b.output (b',' ∷ []) (unquoted n.name),
        append_assoc (b.output ++ b',' ∷ unquoted n.name) (b'=' ∷ []) (unquoted v),
        append_assoc b.output (b',' ∷ unquoted n.name) (b'=' ∷ unquoted v),
      )
  run-outcome (symbol_call (err e) v) b = refl
  run-outcome (bool_call (ok n) v) b = ground (
    arith,
    write_column_key-outcome n b,
    append_assoc b.output (key_text b.state.op_case (ok n)) ((if v then b't' else b'f') ∷ []),
  )
  run-outcome (bool_call (err e) v) b = refl
  run-outcome (i64_call (ok n) v) b =
      ground (arith, write_column_key-outcome n b, regroup b n (x.itoa v) (b'i' ∷ []))
  run-outcome (i64_call (err e) v) b = refl
  run-outcome (f64_call (ok n) v) b = ground (
    arith,
    write_column_key-outcome n b,
    append_assoc b.output (key_text b.state.op_case (ok n)) (format_f64 x v),
  )
  run-outcome (f64_call (err e) v) b = refl
  run-outcome (str_call (ok n) v) b = ground (
    arith,
    write_column_key-outcome n b,
    write_escaped_quoted-escape (b.output ++ key_text b.state.op_case (ok n)) v,
    append_assoc b.output (key_text b.state.op_case (ok n))
        (0x22 ∷ (escape must_escape_quoted (bytes v) ++ 0x22 ∷ [])),
  )
  run-outcome (str_call (err e) v) b = refl
  run-outcome (ts_call (ok n) (ok (micros v))) b =
      ground (arith, write_column_key-outcome n b, regroup b n (x.itoa v.as_i64) (b't' ∷ []))
  run-outcome (ts_call (ok n) (ok (nanos v))) b = ground (
    arith,
    write_column_key-outcome n b,
    regroup b n (x.itoa (micros_of_nanos v).as_i64) (b't' ∷ []),
  )
  run-outcome (ts_call (ok n) (err e)) b =
      ground (arith, write_column_key-outcome n b, append-nil (key_text b.state.op_case (ok n)))
  run-outcome (ts_call (err e) v) b = refl
  run-outcome (long256_call (ok n) v) b = ground (
    arith,
    write_column_key-outcome n b,
    append_assoc b.output (key_text b.state.op_case (ok n)) (b'0' ∷ b'x' ∷ (x.hex v ++ b'i' ∷ [])),
  )
  run-outcome (long256_call (err e) v) b = refl
  run-outcome (at_call (ok t)) b = at-outcome t b
  run-outcome (at_call (err e)) b = unfold at in ground arith

  -- An accepted call succeeds.
  pub run-after :
      (c : Call) (b : Buffer)
      → refusal c b ≡ none
      → value_refusal c ≡ none
      → run x c b ≡ (ok tt, after x c b)
  run-after c b h v = rw (run-outcome c b, h, v) refl
