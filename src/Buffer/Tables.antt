-- ===== src/Buffer/Tables.antt =====
-- The transactional flag against the history of a buffer: the tables of the rows that it holds.
use c_questdb_client.Base.{
  ℕ, ◌≡◌, refl, Bool, true, ◌&&◌, Option, none, some, List, [], ◌∷◌, ◌++◌, arith, inl, inr,
  Bool-cases, same_text,
}
use c_questdb_client.Op.{Op}
use c_questdb_client.Error.{Error, Result, ok, err}
use c_questdb_client.Text.{Str}
use c_questdb_client.Number.{Formatters}
use c_questdb_client.Buffer.{
  Buffer, BufferState, with_max_name_len, permits, set_marker, rewind_to_marker, rewind_to,
  clear_marker, clear, note_table,
}
use c_questdb_client.Buffer.Calls.{
  Call, table_call, run, op_of, refusal, after, outcome, next_state, noted, value_refusal,
}
use c_questdb_client.Buffer.Calls.Outcome.{run-outcome}

-- The tables for which rows were started, in order.
unfoldable pub logged : Call → Result (Unit {0}) → List Str → List Str
logged (table_call (ok n)) (ok _) log = log ++ n.name ∷ []
logged _ _ log = log

abbrev pub kept_log : Result (Unit {0}) → List Str → Option (List Str) → Option (List Str)
kept_log (ok _) log old = some log
kept_log (err e) log old = old

abbrev pub restored_log : Option (List Str) → List Str → List Str
restored_log (some old) log = old
restored_log none log = log

-- `Log x b log old`: calls can lead to the buffer `b`, which holds rows of the tables `log`, and
-- held those of `old` when its marker was set.
pub data Log (x : Formatters) : Buffer → List Str → Option (List Str) → Type 0 where
  started : (limit : ℕ) → Log x (with_max_name_len limit) [] none
  called :
      {b : Buffer} {log : List Str} {old : Option (List Str)}
      → Log x b log old
      → (c : Call) → Log x (run x c b).1 (logged c (run x c b).0 log) old
  marked :
      {b : Buffer} {log : List Str} {old : Option (List Str)}
      → Log x b log old
      → Log x (set_marker b).1 log (kept_log (set_marker b).0 log old)
  rewound :
      {b : Buffer} {log : List Str} {old : Option (List Str)}
      → Log x b log old
      → Log x (rewind_to_marker b).1 (restored_log old log) none
  unmarked :
      {b : Buffer} {log : List Str} {old : Option (List Str)}
      → Log x b log old
      → Log x (clear_marker b) log none
  cleared :
      {b : Buffer} {log : List Str} {old : Option (List Str)}
      → Log x b log old
      → Log x (clear b) [] none

abbrev pub all_same : Str → List Str → Bool
all_same t [] = true
all_same t (u ∷ us) = same_text t u && all_same t us

-- The documented meaning: data for at most one table.
abbrev pub at_most_one_table : List Str → Bool
at_most_one_table [] = true
at_most_one_table (t ∷ ts) = all_same t ts

abbrev pub first_of : List Str → Option Str
first_of [] = none
first_of (t ∷ ts) = some t

record Noted (s : BufferState) (log : List Str) : Type 0 where
  pub first : s.first_table ≡ first_of log
  pub single : s.transactional ≡ at_most_one_table log

abbrev MarkerNoted : Option (ℕ × BufferState) → Option (List Str) → Type 0
MarkerNoted none none = Unit {0}
MarkerNoted none (some old) = ⊥
MarkerNoted (some (p, s)) none = ⊥
MarkerNoted (some (p, s)) (some old) = Noted s old

record IsLogged (b : Buffer) (log : List Str) (old : Option (List Str)) : Type 0 where
  pub state : Noted b.state log
  pub marker : MarkerNoted b.marker old

all_same-snoc :
    (t u : Str) (ts : List Str) → all_same t (ts ++ u ∷ []) ≡ (all_same t ts && same_text t u)
all_same-snoc t u [] = ground arith
all_same-snoc t u (v ∷ ts) = ground (arith, all_same-snoc t u ts)

note_table-Noted :
    (name : Str) (s : BufferState) (log : List Str)
    → Noted s log
    → Noted (note_table name s) (log ++ name ∷ [])
unfolding note_table
note_table-Noted name s [] n = rw n.first (record { first = refl; single = n.single })
note_table-Noted name s (t ∷ ts) n = elim (Bool-cases (same_text t name)) [
  | inl same ↦
      rw (n.first, same)
        (record { first = refl; single = ground (arith, n.single, all_same-snoc t name ts) })
  | inr other ↦
      rw (n.first, other)
        (record { first = refl; single = ground (arith, all_same-snoc t name ts) })
]

next-Noted : (o : Op) (s : BufferState) (log : List Str) → Noted s log → Noted (next_state o s) log
unfolding next_state
next-Noted Op.table s log n = record { first = n.first; single = n.single }
next-Noted Op.symbol s log n = record { first = n.first; single = n.single }
next-Noted Op.column s log n = record { first = n.first; single = n.single }
next-Noted Op.at s log n = record { first = n.first; single = n.single }
next-Noted Op.flush s log n = n

noted-Noted :
    (c : Call) (s : BufferState) (log : List Str)
    → Noted s log
    → Noted (noted c s) (logged c (ok tt) log)
unfolding noted logged
noted-Noted (table_call (ok n)) s log h = note_table-Noted n.name s log h
noted-Noted _ s log h = h

refused : (c : Call) (e : Error) (log : List Str) → logged c (err e) log ≡ log
unfolding logged
refused (table_call (ok n)) e log = refl
refused _ e log = refl

-- A call whose value fails gives no table.
failed : (c : Call) (e : Error) (s : BufferState) → value_refusal c ≡ some e → noted c s ≡ s
unfolding noted value_refusal
failed (table_call (ok n)) e s h = cc
failed _ e s h = refl

outcome-IsLogged :
    (x : Formatters) (c : Call) (b : Buffer) (r v : Option Error) (log : List Str)
    (old : Option (List Str))
    → value_refusal c ≡ v
    → IsLogged b log old
    → IsLogged (outcome r v b (after x c b)).1 (logged c (outcome r v b (after x c b)).0 log) old
unfolding after
outcome-IsLogged x c b none (some e) log old k h = record {
  state =
      rw (refused c e log, failed c e (next_state (op_of c) b.state) k)
        (next-Noted (op_of c) b.state log h.state);
  marker = h.marker;
}
outcome-IsLogged x c b none none log old k h = record {
  state =
      noted-Noted c (next_state (op_of c) b.state) log (next-Noted (op_of c) b.state log h.state);
  marker = h.marker;
}
outcome-IsLogged x c b (some e) v log old k h = record {
  state = rw (refused c e log) h.state;
  marker = h.marker;
}

set_marker-IsLogged :
    (b : Buffer) (log : List Str) (old : Option (List Str))
    → IsLogged b log old
    → IsLogged (set_marker b).1 log (kept_log (set_marker b).0 log old)
unfolding set_marker
set_marker-IsLogged b log old h = elim (Bool-cases (permits b.state.op_case Op.table)) [
  | inl may ↦ rw may (record { state = h.state; marker = h.state })
  | inr busy ↦ rw busy h
]

rewind_to-IsLogged :
    (m : Option (ℕ × BufferState)) (b : Buffer) (log : List Str) (old : Option (List Str))
    → Noted b.state log
    → b.marker ≡ m
    → MarkerNoted m old
    → IsLogged (rewind_to m b).1 (restored_log old log) none
unfolding rewind_to
rewind_to-IsLogged none b log none h e m = record { state = h; marker = rw e tt }
rewind_to-IsLogged none b log (some old) h e m = absurd m
rewind_to-IsLogged (some (p, s)) b log none h e m = absurd m
rewind_to-IsLogged (some (p, s)) b log (some old) h e m = record { state = m; marker = tt }

module _ (x : Formatters) where
  Log-IsLogged :
      {b : Buffer} {log : List Str} {old : Option (List Str)} → Log x b log old → IsLogged b log old
  unfolding rewind_to_marker with_max_name_len clear_marker clear
  Log-IsLogged (started limit) = record {
    state = record { first = refl; single = refl };
    marker = tt;
  }
  Log-IsLogged (called {b} {log} {old} l c) =
      rw run-outcome
        (outcome-IsLogged x c b (refusal c b) (value_refusal c) log old refl (Log-IsLogged l))
  Log-IsLogged (marked {b} {log} {old} l) = set_marker-IsLogged b log old (Log-IsLogged l)
  Log-IsLogged (rewound {b} {log} {old} l) =
      rewind_to-IsLogged b.marker b log old (IsLogged.state (Log-IsLogged l)) refl
        (IsLogged.marker (Log-IsLogged l))
  Log-IsLogged (unmarked l) = record { state = IsLogged.state (Log-IsLogged l); marker = tt }
  Log-IsLogged (cleared l) = record { state = record { first = refl; single = refl }; marker = tt }

  -- In every buffer that the API can produce, the transactional flag holds exactly when the rows
  -- that the buffer holds were started for at most one table; rewinding to a marker restores the
  -- flag with the rows.
  pub transactional-at_most_one_table :
      {b : Buffer} {log : List Str} {old : Option (List Str)}
      → Log x b log old
      → b.state.transactional ≡ at_most_one_table log
  transactional-at_most_one_table l = (Log-IsLogged l).state.single
