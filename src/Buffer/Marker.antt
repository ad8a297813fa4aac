-- ===== src/Buffer/Marker.antt =====
-- The marker: rewinding undoes every call since it was set.
use c_questdb_client.Base.{
  ◌≡◌, refl, sym, ◌∙◌, true, Option, none, some, List, [], ◌∷◌, ◌++◌, append_assoc, append-nil,
  length, take-length-append, arith,
}
use c_questdb_client.Op.{Op}
use c_questdb_client.Error.{Error, ok}
use c_questdb_client.Text.{Bytes}
use c_questdb_client.Number.{Formatters}
use c_questdb_client.Buffer.{Buffer, permits, set_marker, rewind_to_marker}
use c_questdb_client.Buffer.Calls.{Call, run, refusal, after, text, outcome, value_refusal}
use c_questdb_client.Buffer.Calls.Outcome.{run-outcome}

pub set_marker-ok :
    (b : Buffer)
    → permits b.state.op_case Op.table ≡ true
    → set_marker b ≡ (ok tt, record b { marker = some (length b.output, b.state) })
unfolding set_marker
set_marker-ok b h = ground arith

module _ (x : Formatters) where
  -- A sequence of calls, each on the buffer that the one before leaves, whether it failed or not.
  unfoldable pub run_all : List Call → Buffer → Buffer
  run_all [] b = b
  run_all (c ∷ cs) b = run_all cs (run x c b).1

  -- What a call appends, if anything.
  appended : Option Error → Bytes → Bytes
  appended (some e) t = []
  appended none t = t

  pub record Extends (b : Buffer) (t : Bytes) (b' : Buffer) : Type 0 where
    pub output : b'.output ≡ b.output ++ t
    pub marker : b'.marker ≡ b.marker
    pub limit : b'.max_name_len ≡ b.max_name_len

  outcome-Extends :
      (r v : Option Error) (c : Call) (b : Buffer)
      → Extends b (appended r (text x b.state.op_case c)) (outcome r v b (after x c b)).1
  unfolding appended after
  outcome-Extends (some e) v c b = record {
    output = sym (append-nil _);
    marker = refl;
    limit = refl;
  }
  outcome-Extends none none c b = record { output = refl; marker = refl; limit = refl }
  outcome-Extends none (some e) c b = record { output = refl; marker = refl; limit = refl }

  run-Extends :
      (c : Call) (b : Buffer)
      → Extends b (appended (refusal c b) (text x b.state.op_case c)) (run x c b).1
  run-Extends c b = rw run-outcome (outcome-Extends (refusal c b) (value_refusal c) c b)

  pub run_all-Extends : (cs : List Call) (b : Buffer) → (t : Bytes) × Extends b t (run_all cs b)
  unfolding run_all
  run_all-Extends [] b = ([], record { output = sym (append-nil _); marker = refl; limit = refl })
  run_all-Extends (c ∷ cs) b =
      let one = run-Extends c b in
      let (t, more) = run_all-Extends cs (run x c b).1 in
      (
        appended (refusal c b) (text x b.state.op_case c) ++ t,
        record {
          output = more.output ∙ rw one.output (append_assoc b.output _ t);
          marker = more.marker ∙ one.marker;
          limit = more.limit ∙ one.limit;
        },
      )

  rewind-Extends :
      (b b' : Buffer) (t : Bytes)
      → b'.output ≡ b.output ++ t
      → b'.marker ≡ some (length b.output, b.state)
      → b'.max_name_len ≡ b.max_name_len
      → rewind_to_marker b' ≡ (ok tt, record b { marker = none })
  unfolding rewind_to_marker
  rewind-Extends b b' t o m l = rw (m, o, take-length-append, l) refl

  -- Where a row may start, `set_marker` succeeds, and a rewind after any sequence of row calls
  -- restores the contents and the state of the buffer and takes the marker off.
  pub rewind-run_all-set_marker :
      (cs : List Call) (b : Buffer)
      → permits b.state.op_case Op.table ≡ true
      → ((set_marker b).0 ≡ ok tt)
        × (rewind_to_marker (run_all cs (set_marker b).1) ≡ (ok tt, record b { marker = none }))
  rewind-run_all-set_marker cs b h =
      let marked : Buffer = record b { marker = some (length b.output, b.state) } in
      let (t, e) = run_all-Extends cs marked in
      rw (set_marker-ok b h)
        (refl, rewind-Extends b (run_all cs marked) t e.output e.marker e.limit)
