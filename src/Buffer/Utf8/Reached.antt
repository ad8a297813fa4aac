-- ===== src/Buffer/Utf8/Reached.antt =====
-- The output of every buffer that the API can produce is UTF-8, and its marker is between two
-- characters: `String::truncate` panics elsewhere.
use c_questdb_client.Base.{
  ℕ, ◌≡◌, ◌≤◌, Option, none, some, ◌++◌, length, length-append, take, take-append, take_all, All,
  arith, inl, inr, Bool-cases,
}
use c_questdb_client.Op.{Op}
use c_questdb_client.Error.{Error}
use c_questdb_client.Text.{Str, Bytes}
use c_questdb_client.Text.Utf8.{IsChar, from_utf8, from_utf8-bytes}
use c_questdb_client.Number.{Formatters}
use c_questdb_client.Buffer.{
  Buffer, BufferState, with_max_name_len, set_marker, rewind_to_marker, rewind_to, clear_marker,
  clear, permits,
}
use c_questdb_client.Buffer.Calls.{Call, refusal, after, text, outcome, value_refusal}
use c_questdb_client.Buffer.Calls.Outcome.{run-outcome}
use c_questdb_client.Buffer.Rows.Invariant.{
  Reach, started, called, marked, rewound, unmarked, cleared,
}
use c_questdb_client.Buffer.Utf8.{IsUtf8, nil-IsUtf8, append-IsUtf8}
use c_questdb_client.Buffer.Utf8.Output.{AreTyped, IsTyped, text-IsUtf8}

-- The output is UTF-8, and so is what a rewind would keep of it.
abbrev MarkerUtf8 : Bytes → Option (ℕ × BufferState) → Type 0
MarkerUtf8 output none = Unit
MarkerUtf8 output (some (p, s)) = (p ≤ length output) × IsUtf8 (take p output)

record Utf8 (b : Buffer) : Type 0 where
  output : IsUtf8 b.output
  marker : MarkerUtf8 b.output b.marker

MarkerUtf8-append :
    (s t : Bytes) (m : Option (ℕ × BufferState)) → MarkerUtf8 s m → MarkerUtf8 (s ++ t) m
MarkerUtf8-append s t none h = tt
MarkerUtf8-append s t (some (p, st)) (le, r) =
    (omega (arith, length-append s t), rw (take-append p s t le) r)

set_marker-Utf8 : (b : Buffer) → Utf8 b → Utf8 (set_marker b).1
unfolding set_marker
set_marker-Utf8 b v = elim (Bool-cases (permits b.state.op_case Op.table)) [
  | inl may ↦ rw may (record { output = v.output; marker = (omega arith, rw take_all v.output) })
  | inr busy ↦ rw busy v
]

rewind_to-Utf8 :
    (m : Option (ℕ × BufferState)) (b : Buffer)
    → Utf8 b
    → MarkerUtf8 b.output m
    → Utf8 (rewind_to m b).1
unfolding rewind_to
rewind_to-Utf8 none b v h = v
rewind_to-Utf8 (some (p, s)) b v h = record { output = h.1; marker = tt }

module _ (x : Formatters) where
  after-Utf8 : (c : Call) (b : Buffer) → IsTyped c → Utf8 b → Utf8 (after x c b)
  unfolding after
  after-Utf8 c b h u =
      let t = text x b.state.op_case c in
      record {
        output = append-IsUtf8 b.output t u.output (text-IsUtf8 x b.state.op_case c h);
        marker = MarkerUtf8-append b.output t b.marker u.marker;
      }

  outcome-Utf8 :
      (c : Call) (b : Buffer) (r v : Option Error)
      → IsTyped c
      → Utf8 b
      → Utf8 (outcome r v b (after x c b)).1
  outcome-Utf8 c b none none h u = after-Utf8 c b h u
  outcome-Utf8 c b none (some e) h u = after-Utf8 c b h u
  outcome-Utf8 c b (some e) v h u = u

  Reach-Utf8 : {b : Buffer} → (r : Reach x b) → AreTyped r → Utf8 b
  unfolding rewind_to_marker with_max_name_len clear_marker clear
  Reach-Utf8 (started limit) h = record { output = nil-IsUtf8; marker = tt }
  Reach-Utf8 (called {b} r c) h =
      rw run-outcome (outcome-Utf8 c b (refusal c b) (value_refusal c) h.1 (Reach-Utf8 r h.0))
  Reach-Utf8 (marked {b} r) h = set_marker-Utf8 b (Reach-Utf8 r h)
  Reach-Utf8 (rewound {b} r) h =
      rewind_to-Utf8 b.marker b (Reach-Utf8 r h) (Utf8.marker (Reach-Utf8 r h))
  Reach-Utf8 (unmarked r) h = record { output = Utf8.output (Reach-Utf8 r h); marker = tt }
  Reach-Utf8 (cleared r) h = record { output = nil-IsUtf8; marker = tt }

  decodes : (o : Bytes) → IsUtf8 o → (s : Str) × All IsChar s × (from_utf8 o ≡ some s)
  decodes o h = (h.str, h.chars, rw h.encoded (from_utf8-bytes h.str h.chars))

  -- A position that is between two characters: what stands in front of it is UTF-8 too.
  abbrev pub IsBoundary : Bytes → Option (ℕ × BufferState) → Type 0
  IsBoundary output none = Unit
  IsBoundary output (some (p, s)) =
      (p ≤ length output) × (s : Str) × All IsChar s × (from_utf8 (take p output) ≡ some s)

  boundary : (o : Bytes) (m : Option (ℕ × BufferState)) → MarkerUtf8 o m → IsBoundary o m
  boundary o none h = tt
  boundary o (some (p, s)) (le, h) = let d = decodes (take p o) h in (le, d.0, d.1, d.2)

  -- In every buffer that the API can produce from names and values that are strings, the output is
  -- UTF-8, and the marker, where there is one, lies between two characters of it.
  pub Reach-IsBoundary :
      {b : Buffer} (r : Reach x b)
      → AreTyped r
      → ((s : Str) × All IsChar s × (from_utf8 b.output ≡ some s)) × IsBoundary b.output b.marker
  Reach-IsBoundary {b} r h =
      let v = Reach-Utf8 r h in (decodes b.output v.output, boundary b.output b.marker v.marker)
