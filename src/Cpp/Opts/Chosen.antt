-- ===== src/Cpp/Opts/Chosen.antt =====
-- What the constructors of `opts` of line_sender.hpp make of a protocol, over the library.
use c_questdb_client.Base.{ℕ, ◌+◌, ◌≡◌, ◌≢◌, refl, some, arith, ◌==◌, false}
use c_questdb_client.Number.{Formatters}
use c_questdb_client.Text.{Str}
use c_questdb_client.Text.Utf8.{from_utf8}
use c_questdb_client.Builder
use c_questdb_client.Builder.{SenderBuilder, Protocol, validate_value}
use c_questdb_client.Builder.Build.{Environment}
use c_questdb_client.Builder.Setters
use c_questdb_client.Sender.{Network}
use c_questdb_client.Capi.Enums.{
  CppProtocol, cpp_tcp, cpp_tcps, cpp_http, cpp_https, protocol_named, c_protocol, ffi_protocol,
  c_protocol_number, to_protocol,
}
use c_questdb_client.Capi.Memory.{Ptr, Memory, Run, returned, update}
use c_questdb_client.Capi.Header.{LineSenderUtf8}
use c_questdb_client.Capi.Ffi
use c_questdb_client.Capi.Ffi.{as_str}
use c_questdb_client.Capi.Ffi.Opts as FfiOpts
use c_questdb_client.Capi.Ffi.Library.{library}
use c_questdb_client.Cpp.Opts
use c_questdb_client.Cpp.Opts.{Opts, cpp_agent}
use c_questdb_client.Cpp.LineSenderBuffer.View.{self}

-- A command returns an object that stands for a new builder of the protocol, the host and the port,
-- with the user agent of the C++ layer, and changes no other options.
pub record IsChosen (m : Memory) (r : Run Opts) (p : Protocol) (host port : Str) : Type 0 where
  pub memory : Memory
  pub returns : r ≡ returned (record { impl = m.next }) memory
  pub there : memory.opts m.next ≡ some (Builder.new cpp_agent p host port)
  pub others : (q : Ptr) → q ≢ m.next → memory.opts q ≡ m.opts q

chosen : Memory → Protocol → (host port : Str) → Memory
chosen m p host port = record m {
  next = m.next + 1;
  opts =
      update (update m.opts m.next (some (Builder.new FfiOpts.c_agent p host port))) m.next
        (some (Builder.new cpp_agent p host port));
}

apart : (q p : Ptr) → q ≢ p → (q == p) ≡ false
apart q p ne = ground arith

chosen_lem :
    (m : Memory) (r : Run Opts) (p : Protocol) (host port : Str)
    → r ≡ returned (record { impl = m.next }) (chosen m p host port)
    → IsChosen m r p host port
unfolding chosen
chosen_lem m r p host port h = record {
  memory = chosen m p host port;
  returns = h;
  there = rw self refl;
  others = λ q ne. rw (apart q m.next ne) refl;
}

module _ (x : Formatters) (n : Network) (env : Environment) where
  construct_runs :
      (p : CppProtocol) (host : LineSenderUtf8) (port : ℕ) (m : Memory)
      → Opts.construct (library x n env) p host port m
        ≡ returned
            (record { impl = m.next })
            (chosen m (protocol_named p) (as_str host) (FfiOpts.port_text port))
  unfolding Opts.construct Opts.set_agent Opts.name FfiOpts.opts_new FfiOpts.opts_user_agent
      Ffi.utf8_assert Ffi.str_unchecked FfiOpts.upd_opts from_utf8 Setters.user_agent validate_value
      c_protocol ffi_protocol c_protocol_number to_protocol Builder.new chosen
  construct_runs cpp_tcp host port m = rw self refl
  construct_runs cpp_tcps host port m = rw self refl
  construct_runs cpp_http host port m = rw self refl
  construct_runs cpp_https host port m = rw self refl

  construct_service_runs :
      (p : CppProtocol) (host port : LineSenderUtf8) (m : Memory)
      → Opts.construct_service (library x n env) p host port m
        ≡ returned
            (record { impl = m.next })
            (chosen m (protocol_named p) (as_str host) (as_str port))
  unfolding Opts.construct_service Opts.set_agent Opts.name FfiOpts.opts_new_service
      FfiOpts.opts_user_agent Ffi.utf8_assert Ffi.str_unchecked FfiOpts.upd_opts from_utf8
      Setters.user_agent validate_value c_protocol ffi_protocol c_protocol_number to_protocol
      Builder.new chosen
  construct_service_runs cpp_tcp host port m = rw self refl
  construct_service_runs cpp_tcps host port m = rw self refl
  construct_service_runs cpp_http host port m = rw self refl
  construct_service_runs cpp_https host port m = rw self refl

  -- The constructors of `opts` from a protocol, a host and a port, a number or a service, end over the
  -- library with options that stand for a new builder of the Rust protocol with the name of the
  -- C++ constant, and of this host and port, with the user agent of the C++ layer: the constant
  -- goes through the enumerations of the header and of lib.rs by its number. No other options
  -- change.
  pub construct-IsChosen :
      (p : CppProtocol) (host : LineSenderUtf8) (m : Memory)
      → ((port : ℕ)
          → IsChosen m
              (Opts.construct (library x n env) p host port m)
              (protocol_named p)
              (as_str host)
              (FfiOpts.port_text port))
        × ((port : LineSenderUtf8)
            → IsChosen m
                (Opts.construct_service (library x n env) p host port m)
                (protocol_named p)
                (as_str host)
                (as_str port))
  construct-IsChosen p host m = (
    λ port. chosen_lem m _ (protocol_named p) _ _ (construct_runs p host port m),
    λ port. chosen_lem m _ (protocol_named p) _ _ (construct_service_runs p host port m),
  )
