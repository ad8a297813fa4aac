-- ===== src/Cpp/LineSender/Constructed.antt =====
-- The constructors of `line_sender` that build a sender, in line_sender.hpp over the library.
use c_questdb_client.Capi.Ffi.{as_str}
use c_questdb_client.Base.{
  ℕ, ◌+◌, ◌≡◌, refl, false, Option, none, some, ◌==◌, inl, inr, arith, Option-cases,
}
use c_questdb_client.Error.{error, config_error, no_conf_variable, Error, ok, err, Result-cases}
use c_questdb_client.Number.{Formatters}
use c_questdb_client.Text.{Str}
use c_questdb_client.Builder.{SenderBuilder, rust_agent}
use c_questdb_client.Builder.Build.{Environment, build}
use c_questdb_client.Builder.Build.Total.{build-Ends}
use c_questdb_client.Builder.Conf
use c_questdb_client.Builder.Conf.Valid.{from_conf-Configured}
use c_questdb_client.Builder.Setters.Valid.{IsValid, apply_all-new}
use c_questdb_client.Sender.{Network}
use c_questdb_client.Capi.Enums.{to_protocol-c_protocol, CppProtocol, to_protocol}
use c_questdb_client.Capi.Memory.{null, Memory, returned, thrown, Cmd, update, Exception}
use c_questdb_client.Capi.Header.{LineSenderApi, LineSenderUtf8}
use c_questdb_client.Capi.Ffi.Opts as FfiOpts
use c_questdb_client.Capi.Ffi.Library.{library}
use c_questdb_client.Cpp.Opts
use c_questdb_client.Cpp.Wrapped.{from_c}
use c_questdb_client.Capi.Codes.{same_name}
use c_questdb_client.Cpp.Opts.{Opts, cpp_agent}
use c_questdb_client.Cpp.LineSender
use c_questdb_client.Cpp.LineSender.{LineSender}
use c_questdb_client.Cpp.LineSenderBuffer.View.{self, from_c_lem}
use c_questdb_client.Cpp.LineSender.Temporary.{
  IsWf, Ended, forget, off, from_temporary-Ended, build-Built,
}
use c_questdb_client.Cpp.LineSender.Agent.{
  c_builder_lem, c_builder-IsValid, agent_set, agent_set-Ended,
}

-- What a constructor gets: a configuration string, the environment, a host and a port, or options.
pub data Construction : Type 0 where
  by_conf : LineSenderUtf8 → Construction
  by_env : Construction
  by_port : CppProtocol → LineSenderUtf8 → ℕ → Construction
  by_service : CppProtocol → LineSenderUtf8 → LineSenderUtf8 → Construction
  by_opts : Opts → Construction

abbrev pub constructed : LineSenderApi → Construction → Cmd LineSender
constructed api (by_conf conf) = LineSender.from_conf api conf
constructed api by_env = LineSender.from_env api
constructed api (by_port protocol host port) = LineSender.construct_port api protocol host port
constructed api (by_service protocol host port) =
    LineSender.construct_service api protocol host port
constructed api (by_opts opts) = LineSender.construct api opts

-- The options that a program passes are alive, and as the setters keep them.
abbrev pub Given : Memory → Construction → Type 0
Given m (by_opts opts) = (b : SenderBuilder) × (m.opts opts.impl ≡ some b) × IsValid b
Given m _ = Unit

module _ (x : Formatters) (n : Network) (env : Environment) where
  pub conf-IsValid : (s : Str) (b : SenderBuilder) → Conf.from_conf env s ≡ ok b → IsValid b
  conf-IsValid s b is =
      let (conf, parsed, c) = from_conf-Configured env s b is in
      apply_all-new env.opens rust_agent c.protocol c.host c.port c.changes b c.set

  -- An error of a C function, and the exception that it makes.
  abbrev raised : Memory → Error → Memory
  raised m e = record m { next = m.next + 1; errors = update m.errors m.next (some e) }

  abbrev exception_of : Error → Exception
  exception_of e = record { code = some (same_name e.code); what = e.msg }

  raise_lem :
      (m : Memory) (e : Error)
      → IsWf m
      → from_c (library x n env).errors m.next (raised m e)
        ≡ returned (exception_of e) (record m {
          next = m.next + 1;
          errors = update (update m.errors m.next (some e)) m.next none;
        })
  raise_lem m e wf =
      let alive : (m.next == null) ≡ false = let l = wf.live in ground arith in
      from_c_lem x n env m.next e (raised m e) alive (rw self refl)

  thrown-Ended :
      (m : Memory) (e : Error)
      → IsWf m
      → Ended m (
          thrown (exception_of e) (record m {
            next = m.next + 1;
            errors = update (update m.errors m.next (some e)) m.next none;
          }))
  thrown-Ended m e wf = (
    λ q. refl,
    record {
      buffers = λ q. refl;
      errors =
          forget m.errors (update m.errors m.next (some e)) m.next (wf.errors m.next (omega arith))
            (off m.errors m.next (some e));
      opts = λ q. refl;
      strings = λ q. refl;
    },
  )

  by_port-Ended :
      (p : CppProtocol) (host : LineSenderUtf8) (port : ℕ) (m : Memory)
      → IsWf m
      → Ended m (constructed (library x n env) (by_port p host port) m)
  unfolding LineSender.construct_port Opts.construct FfiOpts.opts_new
  by_port-Ended p host port m wf =
      let (c, r, is, read, named) = to_protocol-c_protocol.0 p in
      let (b, made) =
        c_builder_lem x n env (to_protocol r) (as_str host) (FfiOpts.port_text port) in
      let (b', v', set) =
        agent_set x n env m b (
          c_builder-IsValid x n env (to_protocol r) (as_str host) (FfiOpts.port_text port) b
            made) in
      rw (is, read, made, set) (agent_set-Ended x n env m b b' wf v')

  by_service-Ended :
      (p : CppProtocol) (host port : LineSenderUtf8) (m : Memory)
      → IsWf m
      → Ended m (constructed (library x n env) (by_service p host port) m)
  unfolding LineSender.construct_service Opts.construct_service FfiOpts.opts_new_service
  by_service-Ended p host port m wf =
      let (c, r, is, read, named) = to_protocol-c_protocol.0 p in
      let (b, made) = c_builder_lem x n env (to_protocol r) (as_str host) (as_str port) in
      let (b', v', set) =
        agent_set x n env m b
          (c_builder-IsValid x n env (to_protocol r) (as_str host) (as_str port) b made) in
      rw (is, read, made, set) (agent_set-Ended x n env m b b' wf v')

  by_conf-Ended :
      (conf : LineSenderUtf8) (m : Memory)
      → IsWf m
      → Ended m (constructed (library x n env) (by_conf conf) m)
  unfolding LineSender.from_conf Opts.from_conf FfiOpts.opts_from_conf
  by_conf-Ended conf m wf = elim (Result-cases (Conf.from_conf env (as_str conf))) [
    | inl (b, is) ↦ rw is (
        from_temporary-Ended x n env m (update m.opts m.next (some b)) b wf
          (conf-IsValid (as_str conf) b is) (rw self refl) (off m.opts m.next (some b)))
    | inr (e, is) ↦ rw (is, raise_lem m e wf) (thrown-Ended m e wf)
  ]

  client_conf-IsValid :
      (conf : Option Str) (b : SenderBuilder)
      → (elim conf [
        | some conf ↦ Conf.from_conf env conf
        | none ↦ err (error config_error no_conf_variable)
      ])
        ≡ ok b
      → IsValid b
  client_conf-IsValid none b is = absurd (ground arith)
  client_conf-IsValid (some s) b is = conf-IsValid s b is

  pub env-IsValid : (b : SenderBuilder) → Conf.from_env env ≡ ok b → IsValid b
  unfolding Conf.from_env
  env-IsValid b is = client_conf-IsValid env.client_conf b is

  by_env-Ended : (m : Memory) → IsWf m → Ended m (constructed (library x n env) by_env m)
  unfolding LineSender.from_env Opts.from_env FfiOpts.opts_from_env
  by_env-Ended m wf = elim (Result-cases (Conf.from_env env)) [
    | inl (b, is) ↦
        let (b', v', set) = agent_set x n env m b (env-IsValid b is) in
        rw (is, set) (agent_set-Ended x n env m b b' wf v')
    | inr (e, is) ↦ rw (is, raise_lem m e wf) (thrown-Ended m e wf)
  ]

  by_opts-Ended :
      (opts : Opts) (b : SenderBuilder) (m : Memory)
      → IsWf m
      → m.opts opts.impl ≡ some b
      → IsValid b
      → Ended m (constructed (library x n env) (by_opts opts) m)
  unfolding LineSender.construct FfiOpts.sender_build
  by_opts-Ended opts b m wf there v = elim (Option-cases (build env b)) [
    | inl none_is ↦ absurd (let e = build-Ends env b v in rw none_is at e)
    | inr (r, is) ↦ elim (Result-cases r) [
      | inl (s, good) ↦
          rw (there, is, good)
            (
              record {
                sender = s;
                there = rw self refl;
                connected = (build-Built x n env b r s v is good).connected;
                fresh = wf.senders m.next (omega arith);
                others = λ q ne. off m.senders m.next (some s) q (ground arith);
              },
              record {
                buffers = λ q. refl;
                errors = λ q. refl;
                opts = λ q. refl;
                strings = λ q. refl;
              },
            )
      | inr (e, bad) ↦ rw (there, is, bad, raise_lem m e wf) (thrown-Ended m e wf)
    ]
  ]

  -- Over the library, each constructor that builds a sender, from a configuration string, from the
  -- environment, from a host and a port, or from options, ends in one of two ways, if nothing is
  -- allocated from the next address on, and if options that it is given are alive and valid: it
  -- returns an object that holds a new sender, which is connected, or it throws and no sender is
  -- new. A temporary options object and the error object are freed either way, options that it is
  -- given are kept, and no `noexcept` function throws.
  pub constructed-Ended :
      (c : Construction) (m : Memory)
      → IsWf m
      → Given m c
      → Ended m (constructed (library x n env) c m)
  constructed-Ended (by_conf conf) m wf g = by_conf-Ended conf m wf
  constructed-Ended by_env m wf g = by_env-Ended m wf
  constructed-Ended (by_port p host port) m wf g = by_port-Ended p host port m wf
  constructed-Ended (by_service p host port) m wf g = by_service-Ended p host port m wf
  constructed-Ended (by_opts opts) m wf g = by_opts-Ended opts g.0 m wf g.1 g.2
