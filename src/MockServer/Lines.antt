-- ===== src/MockServer/Lines.antt =====
-- The messages that the server of the C++ tests finds, and the rows of the buffer that was sent.
use c_questdb_client.Base.{
  ℕ, ◌+◌, ◌%◌, ◌^◌, ◌≡◌, ◌≢◌, refl, Bool, true, false, ◌&&◌, Option, none, some, List, [], ◌∷◌,
  ◌++◌, length, flat_map, append_assoc, append-nil, ◌==◌, Bool-cases, inl, inr, arith,
}
use c_questdb_client.Text.{Bytes}
use c_questdb_client.Escape.{backslash}
use c_questdb_client.Number.{Formatters}
use c_questdb_client.Buffer.{Buffer}
use c_questdb_client.Buffer.Rows.{read_byte, read_lines}
use c_questdb_client.Buffer.Rows.Invariant.{Reach, row_count-read_lines}
use c_questdb_client.MockServer.{
  MockServer, Received, complete, bad_recv, waiting, is_end, ends, accumulate, split_from, split,
  recv,
}

abbrev pub concat : List Bytes → Bytes
concat = flat_map (λ m. m)

module _ (head : Bytes) (prev last : ℕ) (bs : Bytes) where
  split_from-end :
      is_end prev last ≡ true
      → split_from head prev (last ∷ bs) ≡ (head ++ last ∷ []) ∷ split_from [] last bs
  unfolding split_from
  split_from-end is = rw (split_from, is) refl

  split_from-more :
      is_end prev last ≡ false
      → split_from head prev (last ∷ bs) ≡ split_from (head ++ last ∷ []) last bs
  unfolding split_from
  split_from-more going = rw (split_from, going) refl

split_from-nil : (head : Bytes) (prev : ℕ) → split_from head prev [] ≡ []
unfolding split_from
split_from-nil head prev = refl

concat-split_from :
    (bs head : Bytes) (prev : ℕ)
    → ends (prev ∷ bs) ≡ true
    → concat (split_from head prev bs) ≡ head ++ bs
unfolding ends
concat-split_from [] head prev h = absurd (ground arith)
concat-split_from (last ∷ []) head prev h =
    rw (split_from-end head prev last [] h, split_from-nil) (append-nil (head ++ last ∷ []))
concat-split_from (last ∷ c ∷ bs) head prev h = elim (Bool-cases (is_end prev last)) [
  | inl is ↦
      rw (split_from-end head prev last (c ∷ bs) is, concat-split_from (c ∷ bs) [] last h)
        (append_assoc head (last ∷ []) (c ∷ bs))
  | inr going ↦
      rw
        (
          split_from-more head prev last (c ∷ bs) going,
          concat-split_from (c ∷ bs) (head ++ last ∷ []) last h,
        )
        (append_assoc head (last ∷ []) (c ∷ bs))
]

concat-split : (accum : Bytes) → ends accum ≡ true → concat (split accum) ≡ accum
unfolding split ends
concat-split [] h = absurd (ground arith)
concat-split (b ∷ bs) h = concat-split_from bs (b ∷ []) b h

-- No backslash stands behind another.
abbrev pub NoPair : (prev : ℕ) → Bytes → Type 0
NoPair prev [] = Unit
NoPair prev (c ∷ bs) = ((prev == backslash && c == backslash) ≡ false) × NoPair c bs

read_lines-nil : (r : Bool × ℕ) → read_lines r [] ≡ r
unfolding read_lines
read_lines-nil r = refl

read_lines-cons :
    (r : Bool × ℕ) (c : ℕ) (s : Bytes) → read_lines r (c ∷ s) ≡ read_lines (read_byte r c) s
unfolding read_lines
read_lines-cons r c s = refl

split_from-read_lines :
    (bs head : Bytes) (prev n : ℕ)
    → NoPair prev bs
    → (read_lines (prev == backslash, n) bs).1 ≡ n + length (split_from head prev bs)
unfolding read_byte
split_from-read_lines [] head prev n h = rw (split_from-nil, read_lines-nil) (omega arith)
split_from-read_lines (last ∷ bs) head prev n (apart, h) = elim (Bool-cases (is_end prev last)) [
  | inl is ↦
      let step : read_byte (prev == backslash, n) last ≡ (last == backslash, n + 1) =
        ground arith in
      let rest = split_from-read_lines bs [] last (n + 1) h in
      rw (split_from-end head prev last bs is, read_lines-cons, step, rest) (omega arith)
  | inr going ↦
      let step : read_byte (prev == backslash, n) last ≡ (last == backslash, n) = ground arith in
      rw (split_from-more head prev last bs going, read_lines-cons, step)
        (split_from-read_lines bs (head ++ last ∷ []) last n h)
]

-- What is accumulated ends a message.
abbrev Ended : Received Bytes → Type 0
Ended (complete whole) = ends whole ≡ true
Ended bad_recv = Unit
Ended waiting = Unit

accumulate-Ended : (accum : Bytes) (chunks : List (Option Bytes)) → Ended (accumulate accum chunks)
unfolding accumulate
accumulate-Ended accum [] = tt
accumulate-Ended accum (none ∷ chunks) = tt
accumulate-Ended accum (some chunk ∷ chunks) = elim (Bool-cases (ends (accum ++ chunk))) [
  | inl is ↦ rw is is
  | inr going ↦ rw going (accumulate-Ended (accum ++ chunk) chunks)
]

split-read_lines :
    (c : ℕ) (bs : Bytes)
    → c ≢ 0x0a
    → NoPair c bs
    → (read_lines (false, 0) (c ∷ bs)).1 ≡ length (split (c ∷ bs))
unfolding split read_byte
split-read_lines c bs ne apart =
    let step : read_byte (false, 0) c ≡ (c == backslash, 0) = ground arith in
    let found = split_from-read_lines bs (c ∷ []) c 0 apart in
    rw (read_lines-cons, step, found) (omega arith)

module _ (x : Formatters) where
  -- When all of a buffer's output has arrived, which does not start with a newline and where no
  -- backslash stands behind another, `recv` adds messages that make up the output when they are put
  -- together, and their number, which it returns, is the row count of the buffer, modulo the word
  -- size.
  pub recv-row_count :
      {b : Buffer} (r : Reach x b) (chunks : List (Option Bytes)) (s : MockServer) (c : ℕ)
      (bs : Bytes)
      → b.output ≡ c ∷ bs
      → c ≢ 0x0a
      → NoPair c bs
      → accumulate [] chunks ≡ complete b.output
      → (msgs : List Bytes) × (recv true chunks s
          ≡ complete (length msgs, record s { msgs = s.msgs ++ msgs }))
        × (concat msgs ≡ b.output)
        × (b.state.row_count ≡ length msgs % 2 ^ 64)
  unfolding recv
  recv-row_count {b} r chunks s c bs is ne apart all =
      let e = accumulate-Ended [] chunks in
      let ended : ends b.output ≡ true = rw all at e in
      let (closed, counted) = row_count-read_lines x r in
      let lines : (read_lines (false, 0) b.output).1 ≡ length (split b.output) =
        rw is (split-read_lines c bs ne apart) in
      (split b.output, rw all refl, concat-split b.output ended, rw counted (rw lines refl))
