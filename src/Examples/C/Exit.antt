-- ===== src/Examples/C/Exit.antt =====
-- Runs of the C programs in examples/ that make their sender first: from a configuration string of
-- their own, or from the environment.
use c_questdb_client.Base.{◌≡◌, refl, Bool, false, some, inl, inr, arith, ◌==◌, ℕ, Option-cases}
use c_questdb_client.Error.{is_ok, Result-cases, Result, Error, ok, err}
use c_questdb_client.Number.{Formatters}
use c_questdb_client.Buffer
use c_questdb_client.Buffer.{Buffer}
use c_questdb_client.Builder.Build.{Environment}
use c_questdb_client.Sender
use c_questdb_client.Sender.{Sender, Network, flush_impl}
use c_questdb_client.Capi.Memory.{
  and_then, Memory, Run, returned, thrown, aborted, fault, update, null,
}
use c_questdb_client.Capi.Ffi
use c_questdb_client.Capi.Ffi.Library
use c_questdb_client.Capi.Ffi.Library.{library}
use c_questdb_client.Examples.C.{on_error, with_sender, free}
use c_questdb_client.Examples.C.Row.{Table, table_of, filled}
use c_questdb_client.Examples.C.Sent.{row_lem}
use c_questdb_client.Builder.{SenderBuilder}
use c_questdb_client.Builder.Build.{build}
use c_questdb_client.Builder.Build.Total.{build-Ends}
use c_questdb_client.Builder.Setters.Valid.{IsValid}
use c_questdb_client.Capi.Ffi.Opts as FfiOpts
use c_questdb_client.Capi.Ffi.Opts.{c_agent}
use c_questdb_client.Cpp.LineSender.Agent.{c_agent_lem}
use c_questdb_client.Examples.C.{main_with, exit_code}
use c_questdb_client.Examples.C.Left.{start, Leaks, Freed, Left, released}
use c_questdb_client.Examples.C.Answer.{connects, agent-IsValid}

-- How a program exits: with the code of its answer, and with what `Left` says.
abbrev pub Exits : (a : Bool) → Run ℕ → Type 0
Exits a (returned c m) = (c ≡ exit_code a) × Leaks a m × Freed m
Exits a (thrown e m) = ⊥
Exits a aborted = ⊥
Exits a fault = ⊥

-- The sender is the first thing that is allocated.
abbrev sole : Sender → Memory
sole sender = record start { next = 2; senders = update start.senders 1 (some sender) }

abbrev sole_prepared : Sender → Memory
sole_prepared sender = record (sole sender) {
  next = 3;
  buffers = update start.buffers 2 (some Buffer.new);
}

module _ (x : Formatters) (n : Network) (env : Environment) where
  sole-Left :
      (t : Table) (sender : Sender)
      → Left
          (is_ok (flush_impl n sender (filled x t) false).result)
          (with_sender (library x n env) (table_of t) null 1 (sole sender))
  unfolding with_sender on_error free Ffi.buffer_new Ffi.buffer_reserve Library.sender_flush
      Sender.flush Library.sender_close Ffi.error_msg Ffi.error_free Ffi.buffer_free
  sole-Left t sender = elim (Result-cases (flush_impl n sender (filled x t) false).result) [
    | inl (u, is) ↦
        rw (row_lem x n env t 1 2 (sole_prepared sender) refl, is)
          (
            refl,
            (
              2,
              Buffer.clear (filled x t),
              refl,
              λ r ne. let far : (r == 2) ≡ false = ground arith in rw far refl,
            ),
            record {
              errors = λ q. refl;
              senders = λ q. released (q == 1) _ (λ ne. rw ne refl);
              opts = λ q. refl;
              strings = λ q. refl;
            },
          )
    | inr (e, is) ↦
        rw (row_lem x n env t 1 2 (sole_prepared sender) refl, is)
          (
            refl,
            λ q. released (q == 2) _ (λ ne. rw ne refl),
            record {
              errors = λ q. released (q == 3) _ (λ ne. rw ne refl);
              senders = λ q. released (q == 1) _ (λ ne. rw ne refl);
              opts = λ q. refl;
              strings = λ q. refl;
            },
          )
  ]

  -- The exit code of an answer.
  pub exits :
      (a : Bool) (r : Run Bool) → Left a r → Exits a (and_then r (λ b. returned (exit_code b)))
  exits a (returned b m) (is, leaks, freed) = (rw is refl, rw is at leaks, freed)
  exits a (thrown e m) h = absurd h
  exits a aborted h = absurd h
  exits a fault h = absurd h

  failed-Exits :
      (e : Error)
      → Left false (
          on_error
            (library x n env)
            1
            null
            null
            null
            (record start { next = 2; errors = update start.errors 1 (some e) }))
  unfolding on_error free Ffi.error_msg Ffi.error_free Ffi.buffer_free Library.sender_close
  failed-Exits e = (
    refl,
    λ q. refl,
    record {
      errors = λ q. released (q == 1) _ (λ ne. rw ne refl);
      senders = λ q. refl;
      opts = λ q. refl;
      strings = λ q. refl;
    },
  )

  -- With the builder that a configuration gives.
  pub built-Exits :
      (t : Table) (r : Result SenderBuilder)
      → ((b : SenderBuilder) → r ≡ ok b → IsValid b)
      → Exits
          (connects x n env t r)
          (main_with (library x n env) (table_of t) (FfiOpts.with_agent env r) start)
  unfolding main_with
  built-Exits t (err e) valid = exits false _ (failed-Exits e)
  built-Exits t (ok b) valid =
      let (b', agent) = c_agent_lem b in
      let v = agent-IsValid x n env b b' (valid b refl) agent in
      elim (Option-cases (build env b')) [
        | inl none_is ↦ absurd (let e = build-Ends env b' v in rw none_is at e)
        | inr (r, made) ↦ elim (Result-cases r) [
          | inl (sender, good) ↦ rw (agent, made, good) (exits _ _ (sole-Left t sender))
          | inr (e, bad) ↦ rw (agent, made, bad) (exits false _ (failed-Exits e))
        ]
      ]
