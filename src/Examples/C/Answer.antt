-- ===== src/Examples/C/Answer.antt =====
-- Whole runs of the C programs in examples/ that concatenate their configuration string.
use c_questdb_client.Base.{
  take, ◌+◌, ◌^◌, ◌≡◌, ◌<◌, refl, Bool, false, Option, none, some, List, [], ◌∷◌, ◌++◌, inl, inr,
  length, take-length-append, ◌==◌, if◌then◌else◌, Bool-cases, Option-cases,
}
use c_questdb_client.Error.{Error, Result, ok, err, is_ok, Result-cases, ◌>>=◌}
use c_questdb_client.Text.{Str, Bytes}
use c_questdb_client.Text.Utf8.{from_utf8}
use c_questdb_client.Number.{Formatters}
use c_questdb_client.Builder.{SenderBuilder}
use c_questdb_client.Builder.Build.{Environment, build}
use c_questdb_client.Builder.Build.Total.{build-Ends}
use c_questdb_client.Builder.Conf
use c_questdb_client.Builder.Setters
use c_questdb_client.Builder.Setters.Valid
use c_questdb_client.Builder.Setters.Valid.{IsValid, apply-IsValid}
use c_questdb_client.Sender.{Sender, Network, flush_impl}
use c_questdb_client.Capi.Memory.{null, Memory, update}
use c_questdb_client.Capi.Ffi
use c_questdb_client.Capi.Ffi.{utf8_error}
use c_questdb_client.Capi.Ffi.Views.{utf8_init-some, utf8_init-none, str_unchecked-some}
use c_questdb_client.Capi.Ffi.Opts as FfiOpts
use c_questdb_client.Capi.Ffi.Opts.{c_agent}
use c_questdb_client.Capi.Ffi.Opts.Chain.{chained}
use c_questdb_client.Capi.Ffi.Library
use c_questdb_client.Capi.Ffi.Library.{library}
use c_questdb_client.Cpp.LineSender.Agent.{c_agent_lem}
use c_questdb_client.Cpp.LineSender.Constructed.{conf-IsValid}
use c_questdb_client.Examples.Concat.{joined, text, concat_-joined, text-joined}
use c_questdb_client.Examples.C.{on_error, free, with_conf_str, example_with}
use c_questdb_client.Examples.C.Row.{Table, table_of, filled}
use c_questdb_client.Examples.C.Left.{start, Left, released, with_sender-Left}

-- A string of the heap, as the first thing that is allocated.
abbrev holding : Bytes → Memory
holding conf = record start { next = 2; strings = update start.strings 1 (some (conf ++ 0 ∷ [])) }

module _ (x : Formatters) (n : Network) (env : Environment) where
  -- Whether the row is flushed with the sender that is built, if one is.
  abbrev pub sends : Table → Option (Result Sender) → Bool
  sends t (some (ok s)) = is_ok (flush_impl n s (filled x t) false).result
  sends t (some (err e)) = false
  sends t none = false

  -- Whether the builder of a configuration gives such a sender, with the user agent of C.
  abbrev pub connects : Table → Result SenderBuilder → Bool
  connects t r = sends t (chained env (r >>= Setters.user_agent c_agent))

  failed-Left :
      (conf : Bytes) (e : Error)
      → Left false (
          on_error
            (library x n env)
            2
            1
            null
            null
            (record (holding conf) { next = 3; errors = update start.errors 2 (some e) }))
  unfolding on_error free Ffi.error_msg Ffi.error_free Ffi.buffer_free Library.sender_close
  failed-Left conf e = (
    refl,
    λ q. refl,
    record {
      errors = λ q. released (q == 2) _ (λ ne. rw ne refl);
      senders = λ q. refl;
      opts = λ q. refl;
      strings = λ q. released (q == 1) _ (λ ne. rw ne refl);
    },
  )

  pub agent-IsValid :
      (b b' : SenderBuilder) → IsValid b → Setters.user_agent c_agent b ≡ ok b' → IsValid b'
  unfolding Valid.apply
  agent-IsValid b b' v is = apply-IsValid env.opens (Valid.user_agent c_agent) b b' v is

  -- The string is UTF-8, and `b` the builder that it gives.
  built-Left :
      (t : Table) (conf : Bytes) (s : Str) (b : SenderBuilder)
      → text (conf ++ 0 ∷ []) ≡ conf
      → from_utf8 conf ≡ some s
      → Conf.from_conf env s ≡ ok b
      → Left (connects t (ok b)) (with_conf_str (library x n env) (table_of t) 1 (holding conf))
  unfolding with_conf_str FfiOpts.sender_from_conf
  built-Left t conf s b whole is parsed =
      let (b', agent) = c_agent_lem b in
      let buf = conf ++ 0 ∷ [] in
      let decoded : from_utf8 (take (length conf) buf) ≡ some s = rw take-length-append is in
      let v = agent-IsValid b b' (conf-IsValid x n env s b parsed) agent in
      let init = utf8_init-some (length conf) buf s (holding conf) decoded in
      let read = str_unchecked-some (length conf) buf s decoded in
      elim (Option-cases (build env b')) [
        | inl none_is ↦ absurd (let e = build-Ends env b' v in rw none_is at e)
        | inr (r, made) ↦ elim (Result-cases r) [
          | inl (sender, good) ↦
              rw (whole, init, read, parsed, agent, made, good)
                (with_sender-Left x n env t buf sender)
          | inr (e, bad) ↦ rw (whole, init, read, parsed, agent, made, bad) (failed-Left conf e)
        ]
      ]

  parsed-Left :
      (t : Table) (conf : Bytes) (s : Str)
      → text (conf ++ 0 ∷ []) ≡ conf
      → from_utf8 conf ≡ some s
      → Left
          (connects t (Conf.from_conf env s))
          (with_conf_str (library x n env) (table_of t) 1 (holding conf))
  unfolding with_conf_str FfiOpts.sender_from_conf
  parsed-Left t conf s whole is = elim (Result-cases (Conf.from_conf env s)) [
    | inl (b, parsed) ↦ rw parsed (built-Left t conf s b whole is parsed)
    | inr (e, bad) ↦
        let buf = conf ++ 0 ∷ [] in
        let decoded : from_utf8 (take (length conf) buf) ≡ some s = rw take-length-append is in
        let init = utf8_init-some (length conf) buf s (holding conf) decoded in
        let read = str_unchecked-some (length conf) buf s decoded in
        rw (whole, init, read, bad) (failed-Left conf e)
  ]

  -- Whether the string is UTF-8 and connects.
  abbrev pub decodes : Table → Option Str → Bool
  decodes t (some s) = connects t (Conf.from_conf env s)
  decodes t none = false

  string-Left :
      (t : Table) (conf : Bytes)
      → text (conf ++ 0 ∷ []) ≡ conf
      → Left
          (decodes t (from_utf8 conf))
          (with_conf_str (library x n env) (table_of t) 1 (holding conf))
  unfolding with_conf_str
  string-Left t conf whole = elim (Option-cases (from_utf8 conf)) [
    | inr (s, is) ↦ rw is (parsed-Left t conf s whole is)
    | inl is ↦
        let buf = conf ++ 0 ∷ [] in
        let bad : from_utf8 (take (length conf) buf) ≡ none = rw take-length-append is in
        rw (whole, utf8_init-none (length conf) buf (holding conf) bad, is)
          (failed-Left conf (utf8_error (take (length conf) buf)))
  ]

  -- The answer of a run, from the strings of which it makes its configuration.
  abbrev pub answer : Table → Bytes → Bool
  answer t conf = if env.calloc (length conf + 1) then decodes t (from_utf8 conf) else false

  -- A run, from an empty memory, of a program that concatenates its configuration string (of less
  -- than 2 ^ 64 bytes): it ends without a fault, succeeds exactly when the string can be allocated,
  -- is UTF-8 and gives a sender with which the row is flushed, and leaves nothing allocated but the
  -- buffer of a success.
  pub example_with-Left :
      (t : Table) (first : Bytes) (args : List Bytes)
      → length (joined first args) + 1 < 2 ^ 64
      → Left
          (answer t (joined first args))
          (example_with (library x n env) env.calloc (table_of t) first args start)
  unfolding example_with
  example_with-Left t first args small =
      let conf = joined first args in
      elim (Bool-cases (env.calloc (length conf + 1))) [
        | inl enough ↦
            rw (concat_-joined env.calloc first args small, enough)
              (string-Left t conf (text-joined first args))
        | inr short ↦
            rw (concat_-joined env.calloc first args small, short)
              (
                refl,
                λ q. refl,
                record {
                  errors = λ q. refl;
                  senders = λ q. refl;
                  opts = λ q. refl;
                  strings = λ q. refl;
                },
              )
      ]
