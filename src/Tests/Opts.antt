-- ===== src/Tests/Opts.antt =====
-- The theorems on options and on the building of senders at concrete inputs.
use c_questdb_client.Base.{
  same_text, ◌≡◌, ◌==◌, refl, some, none, [], ◌∷◌, List, codes, arith, if◌then◌else◌, false,
}
use c_questdb_client.Text.{Str}
use c_questdb_client.Builder
use c_questdb_client.Builder.{SenderBuilder, Protocol, rust_agent}
use c_questdb_client.Builder.Build.{Environment, Conf, build}
use c_questdb_client.Builder.Build.Total.{Ends, build-Ends}
use c_questdb_client.Builder.Conf
use c_questdb_client.Builder.Conf.Valid.{from_conf-Configured, Configured}
use c_questdb_client.Builder.Setters
use c_questdb_client.Builder.Setters.Valid
use c_questdb_client.Builder.Setters.Valid.{apply_all, apply_all-new, IsValid}
use c_questdb_client.Capi.Memory.{Memory}
use c_questdb_client.Capi.Header.{LineSenderUtf8}
use c_questdb_client.Capi.Ffi.Opts.Chain
use c_questdb_client.Capi.Ffi.Opts.Chain.{
  OptsCall, After, Answer, calls, changes, configured, chained, calls-apply_all, configured-chained,
}
use c_questdb_client.Capi.Ffi.Library.{library}
use c_questdb_client.Cpp.LineSender.Temporary.{IsWf, Ended}
use c_questdb_client.Cpp.LineSender.Constructed.{by_opts, constructed, constructed-Ended}
use c_questdb_client.Tests.{formatters, good_network, environment}
use c_questdb_client.Tests.Objects.{memory}

-- The string of one parameter beside the address.
abbrev parsing : Environment
parsing = record environment {
  parse_conf_str = λ s. some (record {
    service = codes "http";
    params = (codes "addr", codes "localhost:9000") ∷ (codes "retry_timeout", codes "5000") ∷ [];
  });
}

abbrev over_http : SenderBuilder
unfolding Builder.new
over_http = Builder.new rust_agent Builder.http (codes "localhost") (codes "9000")

abbrev retrying : SenderBuilder
unfolding Builder.new
retrying = record over_http {
  http_config =
      some (record (Builder.default_http rust_agent) { retry_timeout = Builder.specified 5000 });
}

retrying-IsValid : IsValid retrying
unfolding apply_all Setters.retry_timeout Builder.set_specified Builder.new
retrying-IsValid =
    apply_all-new (λ path. false) rust_agent Builder.http (codes "localhost") (codes "9000")
      (Valid.retry_timeout 5000 ∷ []) retrying refl

build-Ends_example : Ends retrying (build environment retrying)
build-Ends_example = build-Ends environment retrying retrying-IsValid

abbrev conf_string : Str
conf_string = codes "http::addr=localhost:9000;retry_timeout=5000;"

from_conf-Configured_example :
    (conf : Conf) × (parsing.parse_conf_str conf_string ≡ some conf)
    × Configured parsing.opens conf retrying
unfolding Conf.from_conf Conf.from_parsed Conf.from_schema same_text Conf.get Conf.split_once
    Conf.validate_auto_flush_params Conf.parse_conf_value Conf.parse_u64 Setters.retry_timeout
    Builder.new Builder.set_specified
from_conf-Configured_example = from_conf-Configured parsing conf_string retrying refl

abbrev localhost : LineSenderUtf8
localhost = record { len = 9; buf = codes "localhost" }

-- The options of an HTTP sender are behind the address 3; the second call is refused.
abbrev with_opts : Memory
with_opts = record memory { next = 4; opts = λ q. if q == 3 then some over_http else none }

with_opts-IsWf : IsWf with_opts
with_opts-IsWf = record {
  live = ground arith;
  errors = λ q le. refl;
  senders = λ q le. refl;
  opts = λ q le. ground arith;
}

over_http-IsValid : IsValid over_http
unfolding apply_all Builder.new
over_http-IsValid =
    apply_all-new (λ path. false) rust_agent Builder.http (codes "localhost") (codes "9000") []
      over_http refl

constructed-Ended_example : Ended with_opts (
    constructed
      (library formatters good_network environment)
      (by_opts (record { impl = 3 }))
      with_opts)
unfolding Builder.new
constructed-Ended_example =
    constructed-Ended formatters good_network environment (by_opts (record { impl = 3 })) with_opts
      with_opts-IsWf (over_http, refl, over_http-IsValid)

abbrev two_calls : List OptsCall
two_calls = Chain.retry_timeout 5000 ∷ Chain.bind_interface localhost ∷ []

calls-apply_all_example :
    After 3
      (calls (library formatters good_network environment) two_calls 3 with_opts)
      (apply_all environment.opens (changes two_calls) over_http)
calls-apply_all_example =
    calls-apply_all formatters good_network environment two_calls 3 over_http with_opts refl

configured-chained_example :
    Answer
      (configured (library formatters good_network environment) two_calls 3 with_opts)
      (chained environment (apply_all environment.opens (changes two_calls) over_http))
configured-chained_example =
    configured-chained formatters good_network environment two_calls 3 over_http with_opts refl
