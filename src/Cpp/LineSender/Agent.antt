-- ===== src/Cpp/LineSender/Agent.antt =====
-- The user agents that the C functions and the C++ classes set in new options.
use c_questdb_client.Capi.Ffi.{as_str}
use c_questdb_client.Base.{◌+◌, ◌≡◌, refl, Option, none, some, ◌∷◌, []}
use c_questdb_client.Error.{Result, ok}
use c_questdb_client.Number.{Formatters}
use c_questdb_client.Text.{Str}
use c_questdb_client.Text.Utf8.{from_utf8}
use c_questdb_client.Builder
use c_questdb_client.Builder.{Protocol, SenderBuilder, validate_value, rust_agent, HttpConfig}
use c_questdb_client.Builder.Build.{Environment}
use c_questdb_client.Builder.Setters
use c_questdb_client.Builder.Setters.Valid
use c_questdb_client.Builder.Setters.Valid.{IsValid, apply-IsValid, apply_all-new}
use c_questdb_client.Sender.{Network}
use c_questdb_client.Capi.Memory.{Ptr, Memory, returned, update}
use c_questdb_client.Capi.Ffi
use c_questdb_client.Capi.Ffi.Opts as FfiOpts
use c_questdb_client.Capi.Ffi.Library.{library}
use c_questdb_client.Cpp.Opts
use c_questdb_client.Cpp.Opts.{Opts, cpp_agent}
use c_questdb_client.Cpp.LineSender
use c_questdb_client.Cpp.LineSender.{LineSender}
use c_questdb_client.Cpp.LineSenderBuffer.View.{self}
use c_questdb_client.Cpp.LineSender.Temporary.{IsWf, Ended, from_temporary-Ended}

with_agent :
    (agent : Str) (b : SenderBuilder) (http : Option HttpConfig)
    → (b' : SenderBuilder) × ((elim http [
      | some http ↦ ok (record b { http_config = some (record http { user_agent = agent }) })
      | none ↦ ok b
    ])
        ≡ ok b')
with_agent agent b none = (b, refl)
with_agent agent b (some http) = (_, refl)

-- The user agents of the C++ layer and of the C functions are accepted by every builder.
pub agent_lem :
    (b : SenderBuilder) → (b' : SenderBuilder) × (Setters.user_agent cpp_agent b ≡ ok b')
unfolding Setters.user_agent validate_value
agent_lem b = with_agent cpp_agent b b.http_config

pub c_agent_lem :
    (b : SenderBuilder) → (b' : SenderBuilder) × (Setters.user_agent FfiOpts.c_agent b ≡ ok b')
unfolding Setters.user_agent validate_value
c_agent_lem b = with_agent FfiOpts.c_agent b b.http_config

module _ (x : Formatters) (n : Network) (env : Environment) where
  pub set_agent_lem :
      (p : Ptr) (b b' : SenderBuilder) (m : Memory)
      → m.opts p ≡ some b
      → Setters.user_agent cpp_agent b ≡ ok b'
      → Opts.set_agent (library x n env) p m
        ≡ returned tt (record m { opts = update m.opts p (some b') })
  unfolding Opts.set_agent Opts.name FfiOpts.opts_user_agent Ffi.utf8_assert Ffi.str_unchecked
      FfiOpts.upd_opts from_utf8
  set_agent_lem p b b' m there is = rw (there, is) refl

  -- New options with the user agent of the C library.
  abbrev pub c_builder : Protocol → (host port : Str) → Result SenderBuilder
  unfolding Builder.new
  c_builder c host port = Setters.user_agent FfiOpts.c_agent (Builder.new rust_agent c host port)

  pub c_builder_lem :
      (c : Protocol) (host port : Str) → (b : SenderBuilder) × (c_builder c host port ≡ ok b)
  unfolding c_builder Setters.user_agent validate_value
  c_builder_lem Builder.tcp host port = (_, refl)
  c_builder_lem Builder.tcps host port = (_, refl)
  c_builder_lem Builder.http host port = (_, refl)
  c_builder_lem Builder.https host port = (_, refl)

  -- A new options object in the memory `m`.
  abbrev pub with_opts : Memory → SenderBuilder → Memory
  with_opts m b = record m { next = m.next + 1; opts = update m.opts m.next (some b) }

  abbrev pub with_agent_set : Memory → SenderBuilder → SenderBuilder → Memory
  with_agent_set m b b' = record m {
    next = m.next + 1;
    opts = update (update m.opts m.next (some b)) m.next (some b');
  }

  pub agent_set :
      (m : Memory) (b : SenderBuilder)
      → IsValid b
      → (b' : SenderBuilder) × IsValid b'
        × (Opts.set_agent (library x n env) m.next (with_opts m b)
            ≡ returned tt (with_agent_set m b b'))
  unfolding Valid.apply Setters.user_agent
  agent_set m b v =
      let (b', is) = agent_lem b in
      (
        b',
        apply-IsValid env.opens (Valid.user_agent cpp_agent) b b' v is,
        set_agent_lem m.next b b' (with_opts m b) (rw self refl) is,
      )

  pub agent_set-Ended :
      (m : Memory) (b b' : SenderBuilder)
      → IsWf m
      → IsValid b'
      → Ended m (
          LineSender.from_temporary
            (library x n env)
            (record { impl = m.next })
            (with_agent_set m b b'))
  agent_set-Ended m b b' wf v =
      from_temporary-Ended x n env m (with_agent_set m b b').opts b' wf v (rw self refl)
        (λ q ne. rw ne refl)

  pub c_builder-IsValid :
      (c : Protocol) (host port : Str) (b : SenderBuilder)
      → c_builder c host port ≡ ok b
      → IsValid b
  unfolding c_builder Valid.apply_all Valid.apply
  c_builder-IsValid c host port b is =
      apply_all-new env.opens rust_agent c host port (Valid.user_agent FfiOpts.c_agent ∷ []) b
        (rw is refl)
