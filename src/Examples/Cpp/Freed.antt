-- ===== src/Examples/Cpp/Freed.antt =====
-- What the C++ programs in examples/ leave allocated when they have a sender: nothing.
use c_questdb_client.Base.{ℕ, ◌≡◌, refl, Bool, false, Option, none, some, inl, inr, ◌==◌}
use c_questdb_client.Base.Int.{pos}
use c_questdb_client.Error.{is_ok, Result-cases}
use c_questdb_client.Number.{Formatters}
use c_questdb_client.Timestamp
use c_questdb_client.Builder.{SenderBuilder}
use c_questdb_client.Builder.Build.{Environment}
use c_questdb_client.Sender
use c_questdb_client.Sender.{Sender, Network, flush_impl}
use c_questdb_client.Capi.Codes.{cpp_error_code-same_name}
use c_questdb_client.Capi.Memory.{Ptr, Memory, Run, returned, thrown, aborted, fault, update}
use c_questdb_client.Capi.Ffi
use c_questdb_client.Capi.Ffi.Library
use c_questdb_client.Capi.Ffi.Library.{library}
use c_questdb_client.Cpp.Wrapped.{from_c, unwind}
use c_questdb_client.Cpp.LineSenderBuffer
use c_questdb_client.Cpp.LineSender
use c_questdb_client.Examples.C.Row.{Table, ended}
use c_questdb_client.Examples.C.Left.{start, Freed, Leaks, released}
use c_questdb_client.Examples.Cpp.{row, answered}
use c_questdb_client.Examples.Cpp.Sent.{table_of, row_lem}

-- A program answers `a`, and nothing is left allocated.
abbrev pub Ends : (a : Bool) → Run Bool → Type 0
Ends a (returned b m) = (b ≡ a) × Leaks false m × Freed m
Ends a (thrown e m) = ⊥
Ends a aborted = ⊥
Ends a fault = ⊥

-- The sender behind address 2.
abbrev pub connected : (Ptr → Option SenderBuilder) → Sender → Memory
connected opts sender = record start {
  next = 3;
  senders = update start.senders 2 (some sender);
  opts = opts;
}

module _ (x : Formatters) (n : Network) (env : Environment) where
  -- Whether the row is flushed with a sender, at a time of the clock.
  abbrev pub flushes : Table → (ts : ℕ) → Sender → Bool
  flushes t ts sender = is_ok (flush_impl n sender (ended x (table_of t) ts) false).result

  pub row-Ends :
      (t : Table) (ts : ℕ) (opts : Ptr → Option SenderBuilder) (sender : Sender)
      → ((q : Ptr) → opts q ≡ none)
      → Timestamp.nanos_now env.system_time ≡ some (record { as_i64 = pos ts })
      → Ends (flushes t ts sender) (
          answered (
            unwind
              (row (library x n env) (table_of t) (record { impl = 2 }) (connected opts sender))
              (LineSender.destruct (library x n env) (record { impl = 2 }))))
  unfolding LineSender.flush LineSender.ensure_impl LineSenderBuffer.may_init Library.sender_flush
      Sender.flush LineSenderBuffer.destruct LineSender.destruct LineSender.close
      Library.sender_close Ffi.buffer_free from_c Ffi.error_get_code Ffi.error_msg Ffi.error_free
  row-Ends t ts opts sender freed clock =
      elim (Result-cases (flush_impl n sender (ended x (table_of t) ts) false).result) [
        | inl (u, is) ↦
            rw (row_lem x n env t (record { impl = 2 }) ts (connected opts sender) refl clock, is)
              (
                refl,
                λ q. released (q == 3) _ (λ ne. rw ne refl),
                record {
                  errors = λ q. refl;
                  senders = λ q. released (q == 2) _ (λ ne. rw ne refl);
                  opts = freed;
                  strings = λ q. refl;
                },
              )
        | inr (e, is) ↦
            rw
              (
                row_lem x n env t (record { impl = 2 }) ts (connected opts sender) refl clock,
                is,
                (cpp_error_code-same_name e.code).0,
              )
              (
                refl,
                λ q. released (q == 3) _ (λ ne. rw ne refl),
                record {
                  errors = λ q. released (q == 4) _ (λ ne. rw ne refl);
                  senders = λ q. released (q == 2) _ (λ ne. rw ne refl);
                  opts = freed;
                  strings = λ q. refl;
                },
              )
      ]
