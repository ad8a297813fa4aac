-- ===== src/Buffer/Rows/Invariant.antt =====
-- Every buffer that the API can produce counts its lines, and its marker points at a row's start.
use c_questdb_client.Base.{
  ℕ, ◌+◌, ◌%◌, ◌^◌, ◌≡◌, ◌≢◌, ◌≤◌, ◌<◌, refl, sym, ◌∙◌, false, Option, none, some, [], ◌∷◌, ◌++◌,
  length, length-append, take, take-append, take_all, arith, inl, inr, Bool-cases,
}
use c_questdb_client.Op.{Op, OpCase}
use c_questdb_client.Error.{Error, ok}
use c_questdb_client.Text.{Bytes}
use c_questdb_client.Number.{Formatters}
use c_questdb_client.Buffer.{
  Buffer, new_state, rewind_to, BufferState, with_max_name_len, permits, set_marker,
  rewind_to_marker, clear_marker, clear, check_op,
}
use c_questdb_client.Buffer.Calls.{
  Call, table_call, run, op_of, refusal, after, text, outcome, next_state, noted, value_refusal,
}
use c_questdb_client.Buffer.Calls.Outcome.{run-outcome}
use c_questdb_client.Buffer.Rows.{read_lines, read_lines-append}
use c_questdb_client.Buffer.Rows.Appended.{rows, read-text}

-- The buffers that calls make from a new one, whether each of them succeeds or not.
pub data Reach (x : Formatters) : Buffer → Type 0 where
  started : (limit : ℕ) → Reach x (with_max_name_len limit)
  called : {b : Buffer} → Reach x b → (c : Call) → Reach x (run x c b).1
  marked : {b : Buffer} → Reach x b → Reach x (set_marker b).1
  rewound : {b : Buffer} → Reach x b → Reach x (rewind_to_marker b).1
  unmarked : {b : Buffer} → Reach x b → Reach x (clear_marker b)
  cleared : {b : Buffer} → Reach x b → Reach x (clear b)

Rows-ne-nil : (n : ℕ) (s : Bytes) → read_lines (false, 0) s ≡ (false, n) → s ≡ [] → n ≡ 0
unfolding read_lines
Rows-ne-nil n [] h e = ground arith
Rows-ne-nil n (c ∷ s) h e = ground arith

-- The state fits the output: `count` lines, each of them closed.
pub record Rows (output : Bytes) (s : BufferState) : Type 0 where
  pub count : ℕ
  pub read : read_lines (false, 0) output ≡ (false, count)
  pub counted : s.row_count ≡ count % 2 ^ 64
  pub empty : s.op_case ≡ OpCase.init → output ≡ []
  pub ended : s.op_case ≡ OpCase.may_flush_or_table → 0 < count

abbrev MarkerRows : Bytes → Option (ℕ × BufferState) → Type 0
MarkerRows output none = Unit
MarkerRows output (some (p, s)) = (p ≤ length output) × Rows (take p output) s

pub record IsValid (b : Buffer) : Type 0 where
  pub rows : Rows b.output b.state
  pub marker : MarkerRows b.output b.marker

MarkerRows-append :
    (s t : Bytes) (m : Option (ℕ × BufferState)) → MarkerRows s m → MarkerRows (s ++ t) m
MarkerRows-append s t none h = tt
MarkerRows-append s t (some (p, st)) (le, r) =
    (omega (arith, length-append s t), rw (take-append p s t le) r)

pub noted_lem :
    (c : Call) (s : BufferState)
    → ((noted c s).op_case ≡ s.op_case) × ((noted c s).row_count ≡ s.row_count)
unfolding noted
noted_lem (table_call (ok n)) s = ground arith
noted_lem _ s = (refl, refl)

next_lem :
    (o : Op) (s : BufferState) (n : ℕ)
    → o ≢ Op.flush
    → s.row_count ≡ n % 2 ^ 64
    → ((next_state o s).row_count ≡ (n + rows o) % 2 ^ 64)
      × ((next_state o s).op_case ≢ OpCase.init)
      × ((next_state o s).op_case ≡ OpCase.may_flush_or_table → 0 < n + rows o)
unfolding next_state
next_lem Op.table s n h e = ground arith
next_lem Op.symbol s n h e = ground arith
next_lem Op.column s n h e = ground arith
next_lem Op.at s n h e = ground arith
next_lem Op.flush s n h e = absurd (h refl)

op_of_lem : (c : Call) → op_of c ≢ Op.flush
unfolding op_of
op_of_lem (table_call name) = cc
op_of_lem _ = cc

new_state-Rows : Rows [] new_state
unfolding read_lines
new_state-Rows = record {
  count = 0;
  read = refl;
  counted = refl;
  empty = λ e. refl;
  ended = λ e. absurd (cc);
}

set_marker-IsValid : (b : Buffer) → IsValid b → IsValid (set_marker b).1
unfolding set_marker
set_marker-IsValid b v = elim (Bool-cases (permits b.state.op_case Op.table)) [
  | inl may ↦ rw may (record { rows = v.rows; marker = (omega arith, rw take_all v.rows) })
  | inr busy ↦ rw busy v
]

rewind_to-IsValid :
    (m : Option (ℕ × BufferState)) (b : Buffer)
    → IsValid b
    → MarkerRows b.output m
    → IsValid (rewind_to m b).1
unfolding rewind_to
rewind_to-IsValid none b v h = v
rewind_to-IsValid (some (p, s)) b v h = record { rows = h.1; marker = tt }

module _ (x : Formatters) where
  after-Rows :
      (c : Call) (b : Buffer)
      → Rows b.output b.state
      → refusal c b ≡ none
      → Rows (after x c b).output (after x c b).state
  unfolding after
  after-Rows c b r h =
      let (count, start, end) = next_lem (op_of c) b.state r.count (op_of_lem c) r.counted in
      let (case, rows_kept) = noted_lem c (next_state (op_of c) b.state) in
      record {
        count = r.count + rows (op_of c);
        read = rw (read_lines-append, r.read) (read-text x r.count c b h);
        counted = rows_kept ∙ count;
        empty = λ e. absurd (start (sym case ∙ e));
        ended = λ e. end (sym case ∙ e);
      }

  after-IsValid : (c : Call) (b : Buffer) → refusal c b ≡ none → IsValid b → IsValid (after x c b)
  after-IsValid c b h i = record {
    rows = after-Rows c b i.rows h;
    marker =
        unfold after in MarkerRows-append b.output (text x b.state.op_case c) b.marker i.marker;
  }

  outcome-IsValid :
      (c : Call) (b : Buffer) (r v : Option Error)
      → refusal c b ≡ r
      → IsValid b
      → IsValid (outcome r v b (after x c b)).1
  outcome-IsValid c b none none h i = after-IsValid c b h i
  outcome-IsValid c b none (some e) h i = after-IsValid c b h i
  outcome-IsValid c b (some e) v h i = i

  pub Reach-IsValid : {b : Buffer} → Reach x b → IsValid b
  unfolding rewind_to_marker with_max_name_len clear_marker clear
  Reach-IsValid (started limit) = record { rows = new_state-Rows; marker = tt }
  Reach-IsValid (called {b} r c) =
      rw run-outcome (outcome-IsValid c b (refusal c b) (value_refusal c) refl (Reach-IsValid r))
  Reach-IsValid (marked {b} r) = set_marker-IsValid b (Reach-IsValid r)
  Reach-IsValid (rewound {b} r) =
      rewind_to-IsValid b.marker b (Reach-IsValid r) (IsValid.marker (Reach-IsValid r))
  Reach-IsValid (unmarked r) = record { rows = IsValid.rows (Reach-IsValid r); marker = tt }
  Reach-IsValid (cleared r) = record { rows = new_state-Rows; marker = tt }

  -- In every buffer that the API can produce, a reader of lines finds no open escape at the end, and
  -- as many lines as the buffer counts, modulo the word size.
  pub row_count-read_lines :
      {b : Buffer}
      → Reach x b
      → ((read_lines (false, 0) b.output).0 ≡ false)
        × (b.state.row_count ≡ (read_lines (false, 0) b.output).1 % 2 ^ 64)
  row_count-read_lines r = let v = (Reach-IsValid r).rows in rw v.read (refl, v.counted)

  -- A buffer that may be flushed is not empty.
  pub flush-ne-nil : {b : Buffer} → Reach x b → (check_op Op.flush b).0 ≡ ok tt → b.output ≢ []
  unfolding check_op permits
  flush-ne-nil {b} r h e =
      let v = (Reach-IsValid r).rows in
      ground (arith, Rows-ne-nil v.count b.output v.read e, v.ended)
