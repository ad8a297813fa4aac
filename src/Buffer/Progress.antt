-- ===== src/Buffer/Progress.antt =====
-- No state of a buffer is a dead end: a few calls make it ready to be flushed.
use c_questdb_client.Base.{
  ◌≡◌, ◌≤◌, ◌<◌, refl, ◌∙◌, none, List, [], ◌∷◌, ◌++◌, length, arith, codes, true,
}
use c_questdb_client.Op.{Op, OpCase}
use c_questdb_client.Error.{ok}
use c_questdb_client.Text.{Bytes, len}
use c_questdb_client.Number.{Formatters}
use c_questdb_client.Name.TableName
use c_questdb_client.Name.ColumnName
use c_questdb_client.Buffer.{Buffer, check_op, permits}
use c_questdb_client.Buffer.Calls.{
  Call, table_call, symbol_call, at_now_call, run, op_of, refusal, after, next_state, name_of,
  value_refusal,
}
use c_questdb_client.Buffer.Calls.Outcome.{run-after}
use c_questdb_client.Buffer.Marker.{run_all, run_all-Extends}
use c_questdb_client.Buffer.Rows.Invariant.{noted_lem}

-- The calls that end the row that is begun, or a row of a table "t" where none is.
abbrev a_table : Call
a_table = table_call (TableName.new (codes "t"))

abbrev a_symbol : Call
a_symbol = symbol_call (ColumnName.new (codes "s")) (codes "v")

pub finish : OpCase → List Call
finish OpCase.init = a_table ∷ a_symbol ∷ at_now_call ∷ []
finish OpCase.table_written = a_symbol ∷ at_now_call ∷ []
finish OpCase.symbol_written = at_now_call ∷ []
finish OpCase.column_written = at_now_call ∷ []
finish OpCase.may_flush_or_table = []

-- The state that an accepted call of an operation leaves.
abbrev case_behind : Op → OpCase → OpCase
case_behind Op.table o = OpCase.table_written
case_behind Op.symbol o = OpCase.symbol_written
case_behind Op.column o = OpCase.column_written
case_behind Op.at o = OpCase.may_flush_or_table
case_behind Op.flush o = o

module _ (x : Formatters) where
  -- Every call is accepted by the buffer that it meets.
  abbrev pub Accepted : List Call → Buffer → Type 0
  Accepted [] b = Unit
  Accepted (c ∷ cs) b = (refusal c b ≡ none) × (value_refusal c ≡ none) × Accepted cs (run x c b).1

  -- The buffer is ready, and its rows are those it had, with text behind them.
  pub record Ready (cs : List Call) (b : Buffer) : Type 0 where
    pub few : length cs ≤ 3
    pub accepted : Accepted cs b
    pub flushable : (check_op Op.flush (run_all x cs b)).0 ≡ ok tt
    pub text : Bytes
    pub kept : (run_all x cs b).output ≡ b.output ++ text

  case-next : (o : Op) (s : _) → (next_state o s).op_case ≡ case_behind o s.op_case
  unfolding next_state
  case-next Op.table s = refl
  case-next Op.symbol s = refl
  case-next Op.column s = refl
  case-next Op.at s = refl
  case-next Op.flush s = refl

  -- An accepted call, and what a further one meets.
  run_case :
      (c : Call) (b : Buffer)
      → refusal c b ≡ none
      → value_refusal c ≡ none
      → ((run x c b).1.state.op_case ≡ case_behind (op_of c) b.state.op_case)
        × ((run x c b).1.max_name_len ≡ b.max_name_len)
  unfolding after
  run_case c b h v =
      rw (run-after x c b h v)
        ((noted_lem c (next_state (op_of c) b.state)).0 ∙ case-next (op_of c) b.state, refl)

  table_accepted :
      (b : Buffer) → 0 < b.max_name_len → b.state.op_case ≡ OpCase.init → refusal a_table b ≡ none
  unfolding refusal permits op_of name_of len TableName.new
  table_accepted b pos at = ground arith

  symbol_accepted :
      (b : Buffer)
      → 0 < b.max_name_len
      → b.state.op_case ≡ OpCase.table_written
      → refusal a_symbol b ≡ none
  unfolding refusal permits op_of name_of len ColumnName.new
  symbol_accepted b pos at = ground arith

  at_accepted : (b : Buffer) → permits b.state.op_case Op.at ≡ true → refusal at_now_call b ≡ none
  unfolding refusal op_of name_of
  at_accepted b may = rw may refl

  -- Calls that are all accepted and leave the buffer behind a row.
  abbrev Ends : List Call → Buffer → Type 0
  Ends cs b = Accepted cs b × ((run_all x cs b).state.op_case ≡ OpCase.may_flush_or_table)

  at_now-Ends : (b : Buffer) → permits b.state.op_case Op.at ≡ true → Ends (at_now_call ∷ []) b
  unfolding run_all op_of value_refusal
  at_now-Ends b may =
      let h = at_accepted b may in ((h, refl, tt), (run_case at_now_call b h refl).0)

  symbol-Ends :
      (b : Buffer)
      → 0 < b.max_name_len
      → b.state.op_case ≡ OpCase.table_written
      → Ends (a_symbol ∷ at_now_call ∷ []) b
  unfolding run_all op_of permits value_refusal
  symbol-Ends b pos at =
      let h = symbol_accepted b pos at in
      let (case, limit) = run_case a_symbol b h refl in
      let (a, e) = at_now-Ends (run x a_symbol b).1 (rw case refl) in ((h, refl, a), e)

  table-Ends :
      (b : Buffer)
      → 0 < b.max_name_len
      → b.state.op_case ≡ OpCase.init
      → Ends (a_table ∷ a_symbol ∷ at_now_call ∷ []) b
  unfolding run_all op_of value_refusal
  table-Ends b pos at =
      let h = table_accepted b pos at in
      let (case, limit) = run_case a_table b h refl in
      let (a, e) = symbol-Ends (run x a_table b).1 (rw limit pos) case in ((h, refl, a), e)

  finish-Ends :
      (o : OpCase) (b : Buffer) → 0 < b.max_name_len → b.state.op_case ≡ o → Ends (finish o) b
  unfolding finish run_all permits
  finish-Ends OpCase.init b pos at = table-Ends b pos at
  finish-Ends OpCase.table_written b pos at = symbol-Ends b pos at
  finish-Ends OpCase.symbol_written b pos at = at_now-Ends b (rw at refl)
  finish-Ends OpCase.column_written b pos at = at_now-Ends b (rw at refl)
  finish-Ends OpCase.may_flush_or_table b pos at = (tt, at)

  finish-few : (o : OpCase) → length (finish o) ≤ 3
  unfolding finish
  finish-few OpCase.init = omega arith
  finish-few OpCase.table_written = omega arith
  finish-few OpCase.symbol_written = omega arith
  finish-few OpCase.column_written = omega arith
  finish-few OpCase.may_flush_or_table = omega arith

  -- From any buffer whose limit allows a name of one byte, at most three calls, all of them
  -- accepted, lead to a buffer that may be flushed and holds all that was written before.
  pub finish-Ready : (b : Buffer) → 0 < b.max_name_len → Ready (finish b.state.op_case) b
  unfolding check_op permits
  finish-Ready b pos =
      let cs = finish b.state.op_case in
      let (accepted, end) = finish-Ends b.state.op_case b pos refl in
      let (t, more) = run_all-Extends x cs b in
      record {
        few = finish-few b.state.op_case;
        accepted = accepted;
        flushable = rw end refl;
        text = t;
        kept = more.output;
      }
