-- ===== src/Examples/Cpp/Answer.antt =====
-- Runs of the C++ programs in examples/ from an empty memory.
use c_questdb_client.Base.{
  ℕ, ◌≡◌, refl, Bool, false, Option, none, some, inl, inr, ◌==◌, length, take_all, take,
  Option-cases,
}
use c_questdb_client.Base.Int.{pos}
use c_questdb_client.Error.{Error, Result, ok, err, Result-cases, ◌>>=◌}
use c_questdb_client.Text.{Str, Bytes}
use c_questdb_client.Text.Utf8.{from_utf8}
use c_questdb_client.Number.{Formatters}
use c_questdb_client.Timestamp
use c_questdb_client.Builder.{SenderBuilder}
use c_questdb_client.Builder.Build.{Environment, build}
use c_questdb_client.Builder.Build.Total.{build-Ends}
use c_questdb_client.Builder.Conf
use c_questdb_client.Builder.Setters
use c_questdb_client.Builder.Setters.Valid
use c_questdb_client.Builder.Setters.Valid.{IsValid, apply-IsValid}
use c_questdb_client.Sender.{Sender, Network}
use c_questdb_client.Capi.Memory.{returned, done, failed, Ptr, Memory, Cmd, and_then, update}
use c_questdb_client.Capi.Ffi
use c_questdb_client.Capi.Ffi.{utf8_error}
use c_questdb_client.Capi.Ffi.Views.{utf8_init-some, utf8_init-none, str_unchecked-some}
use c_questdb_client.Capi.Ffi.Opts as FfiOpts
use c_questdb_client.Capi.Ffi.Opts.Chain.{chained}
use c_questdb_client.Capi.Ffi.Library.{library}
use c_questdb_client.Cpp.Wrapped.{from_c, unwind, utf8_view}
use c_questdb_client.Capi.Codes.{cpp_error_code-same_name, same_name}
use c_questdb_client.Cpp.LineSenderBuffer.View.{from_c_lem}
use c_questdb_client.Cpp.Opts
use c_questdb_client.Cpp.Opts.{cpp_agent}
use c_questdb_client.Cpp.LineSender
use c_questdb_client.Cpp.LineSender.{LineSender}
use c_questdb_client.Cpp.LineSender.Agent.{agent_lem, set_agent_lem}
use c_questdb_client.Cpp.LineSender.Constructed.{conf-IsValid, env-IsValid}
use c_questdb_client.Examples.C.Row.{Table}
use c_questdb_client.Examples.C.Left.{start, released}
use c_questdb_client.Examples.Cpp.{row, answered, tried, sent, from_string}
use c_questdb_client.Examples.Cpp.Sent.{table_of}
use c_questdb_client.Examples.Cpp.Freed.{Ends, flushes, row-Ends}

-- The options behind address 1, and an error object behind it.
abbrev optioned : (Ptr → Option SenderBuilder) → Memory
optioned opts = record start { next = 2; opts = opts }

abbrev raised : Error → Memory
raised e = record start { next = 2; errors = update start.errors 1 (some e) }

abbrev freed : Error → Memory
freed e = record (raised e) { errors = update (raised e).errors 1 none }

freed-Ends : (e : Error) → Ends false (returned false (freed e))
freed-Ends e = (
  refl,
  λ q. refl,
  record {
    errors = λ q. released (q == 1) _ (λ ne. rw ne refl);
    senders = λ q. refl;
    opts = λ q. refl;
    strings = λ q. refl;
  },
)

module _ (x : Formatters) (n : Network) (env : Environment) where
  -- Whether the row is flushed with the sender that is built, if one is.
  abbrev pub sends : Table → (ts : ℕ) → Option (Result Sender) → Bool
  sends t ts (some (ok s)) = flushes x n env t ts s
  sends t ts (some (err e)) = false
  sends t ts none = false

  -- Whether a string is UTF-8, and a configuration with which the row is flushed.
  abbrev pub decodes : Table → (ts : ℕ) → Option Str → Bool
  decodes t ts (some str) = sends t ts (chained env (Conf.from_conf env str))
  decodes t ts none = false

  -- Whether the builder of the environment, with the user agent of C++, gives such a sender.
  abbrev pub connects : Table → (ts : ℕ) → Result SenderBuilder → Bool
  connects t ts r = sends t ts (chained env (r >>= Setters.user_agent cpp_agent))

  -- What follows in a program when its sender is made.
  abbrev rest : Table → LineSender → Cmd (Unit {0})
  rest t s m =
      unwind (row (library x n env) (table_of t) s m) (LineSender.destruct (library x n env) s)

  module _ (t : Table) (ts : ℕ)
      (clock : Timestamp.nanos_now env.system_time ≡ some (record { as_i64 = pos ts })) where
    -- The exception of an error object, which is caught.
    raise_lem :
        (e : Error)
        → from_c (library x n env).errors 1 (raised e)
          ≡ returned (record { code = some (same_name e.code); what = e.msg }) (freed e)
    raise_lem e = from_c_lem x n env 1 e (raised e) refl refl

    temporary-Ends :
        (opts : Ptr → Option SenderBuilder) (b : SenderBuilder)
        → opts 1 ≡ some b
        → ((q : Ptr) → (q == 1) ≡ false → opts q ≡ none)
        → IsValid b
        → Ends (sends t ts (build env b)) (
            answered (
              and_then
                (LineSender.from_temporary (library x n env) (record { impl = 1 }) (optioned opts))
                (rest t)))
    unfolding LineSender.from_temporary LineSender.construct Opts.destruct Opts.reset
        FfiOpts.sender_build FfiOpts.opts_free from_c Ffi.error_get_code Ffi.error_msg
        Ffi.error_free
    temporary-Ends opts b there other v = elim (Option-cases (build env b)) [
      | inl none_is ↦ absurd (let e = build-Ends env b v in rw none_is at e)
      | inr (r, is) ↦ elim (Result-cases r) [
        | inl (s, good) ↦
            rw (there, is, good, there)
              (row-Ends x n env t ts (update opts 1 none) s (λ q. released (q == 1) _ (other q))
                clock)
        | inr (e, bad) ↦
            rw (there, is, bad, (cpp_error_code-same_name e.code).0, there)
              (
                refl,
                λ q. refl,
                record {
                  errors = λ q. released (q == 2) _ (λ ne. rw ne refl);
                  senders = λ q. refl;
                  opts = λ q. released (q == 1) _ (other q);
                  strings = λ q. refl;
                },
              )
      ]
    ]

    conf-Ends :
        (s : Bytes) (str : Str)
        → from_utf8 s ≡ some str
        → Ends
            (sends t ts (chained env (Conf.from_conf env str)))
            (tried (library x n env) (table_of t) (from_string (library x n env) s) start)
    unfolding tried sent from_string utf8_view LineSender.from_conf Opts.from_conf
        FfiOpts.opts_from_conf
    conf-Ends s str is =
        let decoded : from_utf8 (take (length s) s) ≡ some str = rw take_all is in
        let init = utf8_init-some (length s) s str start decoded in
        let read = str_unchecked-some (length s) s str decoded in
        elim (Result-cases (Conf.from_conf env str)) [
          | inl (b, parsed) ↦
              rw (init, read, parsed)
                (temporary-Ends (update start.opts 1 (some b)) b refl (λ q ne. rw ne refl)
                  (conf-IsValid x n env str b parsed))
          | inr (e, bad) ↦ rw (init, read, bad, raise_lem e) (freed-Ends e)
        ]

    pub string-Ends :
        (s : Bytes)
        → Ends
            (decodes t ts (from_utf8 s))
            (tried (library x n env) (table_of t) (from_string (library x n env) s) start)
    unfolding tried sent from_string utf8_view
    string-Ends s = elim (Option-cases (from_utf8 s)) [
      | inr (str, is) ↦ rw is (conf-Ends s str is)
      | inl is ↦
          let bad : from_utf8 (take (length s) s) ≡ none = rw take_all is in
          let e = utf8_error (take (length s) s) in
          rw (utf8_init-none (length s) s start bad, is, raise_lem e) (freed-Ends e)
    ]

    env-done :
        (b : SenderBuilder)
        → Conf.from_env env ≡ ok b
        → FfiOpts.opts_from_env env start
          ≡ returned (done 1) (optioned (update start.opts 1 (some b)))
    unfolding FfiOpts.opts_from_env
    env-done b is = rw is refl

    env-failed :
        (e : Error)
        → Conf.from_env env ≡ err e
        → FfiOpts.opts_from_env env start ≡ returned (failed 1) (raised e)
    unfolding FfiOpts.opts_from_env
    env-failed e bad = rw bad refl

    pub env-Ends :
        Ends
          (connects t ts (Conf.from_env env))
          (tried (library x n env) (table_of t) (LineSender.from_env (library x n env)) start)
    unfolding tried sent LineSender.from_env Opts.from_env Valid.apply
    env-Ends = elim (Result-cases (Conf.from_env env)) [
      | inl (b, is) ↦
          let (b', agent) = agent_lem b in
          let v =
            apply-IsValid env.opens (Valid.user_agent cpp_agent) b b' (env-IsValid x n env b is)
              agent in
          let opts = update start.opts 1 (some b) in
          let set = set_agent_lem x n env 1 b b' (optioned opts) refl agent in
          let answers : connects t ts (Conf.from_env env) ≡ sends t ts (build env b') =
            rw (is, agent) refl in
          rw (answers, env-done b is, set)
            (temporary-Ends (update opts 1 (some b')) b' refl (λ q ne. rw ne refl) v)
      | inr (e, bad) ↦
          let answers : connects t ts (Conf.from_env env) ≡ false = rw bad refl in
          rw (answers, env-failed e bad, raise_lem e) (freed-Ends e)
    ]
