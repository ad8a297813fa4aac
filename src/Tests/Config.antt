-- ===== src/Tests/Config.antt =====
-- The theorems on configurations at concrete inputs.
use c_questdb_client.Base.{
  ◌↔◌, ◌≡◌, false, some, [], ◌∷◌, ◌++◌, same_text, refl, codes, List, Option,
}
use c_questdb_client.Error.{ok, err, ErrorCode, Error}
use c_questdb_client.Builder
use c_questdb_client.Builder.{SenderBuilder}
use c_questdb_client.Builder.Auth.{AuthParams, build_auth, GivenBy, build_auth_lem}
use c_questdb_client.Builder.Setters.Valid.{apply_all, apply_all-new, IsValid}
use c_questdb_client.Builder.Setters.Valid
use c_questdb_client.Builder.Setters.Once.{Keeps, apply_all-Keeps}
use c_questdb_client.Builder.Setters

-- A sender over HTTP with a password.
abbrev changes : List Valid.Change
changes =
    Valid.username (codes "admin") ∷ Valid.password (codes "quest") ∷ Valid.retry_timeout 5000 ∷ []

abbrev new_builder : SenderBuilder
unfolding Builder.new
new_builder = Builder.new (codes "4") Builder.http (codes "localhost") (codes "9000")

abbrev http_builder : SenderBuilder
unfolding Builder.new
http_builder = record new_builder {
  username = Builder.specified (some (codes "admin"));
  password = Builder.specified (some (codes "quest"));
  http_config =
      some (record (Builder.default_http (codes "4")) { retry_timeout = Builder.specified 5000 });
}

-- The same setters once more, and others, on a builder that has them specified.
abbrev further : List Valid.Change
further = changes ++ Valid.request_timeout 4000 ∷ Valid.max_buf_size 4096 ∷ []

abbrev further_builder : SenderBuilder
unfolding Builder.new
further_builder = record http_builder {
  max_buf_size = Builder.specified 4096;
  http_config = some (record (Builder.default_http (codes "4")) {
    retry_timeout = Builder.specified 5000;
    request_timeout = Builder.specified 4000;
  });
}

apply_all-Keeps_example : Keeps http_builder further_builder
unfolding apply_all Setters.username Builder.validate_value Builder.set_specified new_builder
    Setters.password Setters.retry_timeout Setters.request_timeout Setters.max_buf_size same_text
apply_all-Keeps_example = apply_all-Keeps (λ path. false) further http_builder further_builder refl

apply_all-new_example : IsValid http_builder
unfolding apply_all Setters.username Builder.validate_value Builder.set_specified Builder.new
    Setters.password Setters.retry_timeout
apply_all-new_example =
    apply_all-new (λ path. false) (codes "4") Builder.http (codes "localhost") (codes "9000")
      changes http_builder refl

build_auth_lem_example :
    ((a : Option AuthParams) → (build_auth http_builder ≡ ok a) ↔ GivenBy http_builder a)
    × ((e : Error) → build_auth http_builder ≡ err e → e.code ≡ ErrorCode.config_error)
build_auth_lem_example = build_auth_lem http_builder
