-- ===== src/Examples/C/Left.antt =====
-- What the C programs in examples/ leave allocated when they end.
use c_questdb_client.Base.{
  ◌≡◌, ◌≢◌, refl, Bool, true, false, Option, none, some, inl, inr, arith, ◌==◌, if◌then◌else◌,
}
use c_questdb_client.Error.{is_ok, Result-cases}
use c_questdb_client.Text.{Bytes}
use c_questdb_client.Number.{Formatters}
use c_questdb_client.Buffer
use c_questdb_client.Buffer.{Buffer}
use c_questdb_client.Builder.Build.{Environment}
use c_questdb_client.Sender
use c_questdb_client.Sender.{Sender, Network, flush_impl}
use c_questdb_client.Capi.Memory.{Ptr, Memory, Run, returned, thrown, aborted, fault, update}
use c_questdb_client.Capi.Ffi
use c_questdb_client.Capi.Ffi.Library
use c_questdb_client.Capi.Ffi.Library.{library}
use c_questdb_client.Examples.C.{on_error, with_sender, free}
use c_questdb_client.Examples.C.Row.{Table, table_of, filled}
use c_questdb_client.Examples.C.Sent.{row_lem}

-- The memory in which a program starts.
abbrev pub start : Memory
start = record {
  next = 1;
  buffers = λ p. none;
  errors = λ p. none;
  senders = λ p. none;
  opts = λ p. none;
  strings = λ p. none;
}

-- Behind a success one buffer is left, and behind a failure none.
abbrev pub Leaks : Bool → Memory → Type 0
Leaks true m =
    (q : Ptr) × (b : Buffer) × (m.buffers q ≡ some b) × ((r : Ptr) → r ≢ q → m.buffers r ≡ none)
Leaks false m = (r : Ptr) → m.buffers r ≡ none

pub record Freed (m : Memory) : Type 0 where
  pub errors : (q : Ptr) → m.errors q ≡ none
  pub senders : (q : Ptr) → m.senders q ≡ none
  pub opts : (q : Ptr) → m.opts q ≡ none
  pub strings : (q : Ptr) → m.strings q ≡ none

-- How a program ends: it answers `a`, everything but the buffer of a success is freed, and no
-- pointer was misused.
abbrev pub Left : (a : Bool) → Run Bool → Type 0
Left a (returned b m) = (b ≡ a) × Leaks b m × Freed m
Left a (thrown e m) = ⊥
Left a aborted = ⊥
Left a fault = ⊥

-- An object that was freed is not found, nor is any other.
pub released :
    {A : Type 0} (t : Bool) (o : Option A) → (t ≡ false → o ≡ none) → (if t then none else o) ≡ none
released true o h = refl
released false o h = h refl

-- The string behind address 1 and the sender behind address 2.
abbrev pub connected : Bytes → Sender → Memory
connected s sender = record start {
  next = 3;
  strings = update start.strings 1 (some s);
  senders = update start.senders 2 (some sender);
}

abbrev prepared : Bytes → Sender → Memory
prepared s sender = record (connected s sender) {
  next = 4;
  strings = update (connected s sender).strings 1 none;
  buffers = update start.buffers 3 (some Buffer.new);
}

module _ (x : Formatters) (n : Network) (env : Environment) where
  -- Once a program has a sender it succeeds exactly when its row is flushed. It closes the sender,
  -- frees the configuration string, and frees the error object and the buffer if the flush fails;
  -- behind a success the buffer is left allocated, and nothing else. No pointer is misused.
  pub with_sender-Left :
      (t : Table) (s : Bytes) (sender : Sender)
      → Left
          (is_ok (flush_impl n sender (filled x t) false).result)
          (with_sender (library x n env) (table_of t) 1 2 (connected s sender))
  unfolding with_sender on_error free Ffi.buffer_new Ffi.buffer_reserve Library.sender_flush
      Sender.flush Library.sender_close Ffi.error_msg Ffi.error_free Ffi.buffer_free
  with_sender-Left t s sender =
      elim (Result-cases (flush_impl n sender (filled x t) false).result) [
        | inl (u, is) ↦
            rw (row_lem x n env t 2 3 (prepared s sender) refl, is)
              (
                refl,
                (
                  3,
                  Buffer.clear (filled x t),
                  refl,
                  λ r ne. let far : (r == 3) ≡ false = ground arith in rw far refl,
                ),
                record {
                  errors = λ q. refl;
                  senders = λ q. released (q == 2) _ (λ ne. rw ne refl);
                  opts = λ q. refl;
                  strings = λ q. released (q == 1) _ (λ ne. rw ne refl);
                },
              )
        | inr (e, is) ↦
            rw (row_lem x n env t 2 3 (prepared s sender) refl, is)
              (
                refl,
                λ q. released (q == 3) _ (λ ne. rw ne refl),
                record {
                  errors = λ q. released (q == 4) _ (λ ne. rw ne refl);
                  senders = λ q. released (q == 2) _ (λ ne. rw ne refl);
                  opts = λ q. refl;
                  strings = λ q. released (q == 1) _ (λ ne. rw ne refl);
                },
              )
      ]
