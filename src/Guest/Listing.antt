-- ===== src/Guest/Listing.antt =====
-- The players that a guest is told of: its ping and its question for the list against a room, where both
-- sides print and parse JSON as the crate documents.
use qomicex_connector_rust.Base.{◌≡◌, refl, Text, Option, none, some}
use qomicex_connector_rust.Json.{JsonApi}
use qomicex_connector_rust.Json.Serde.{Serde, optional}
use qomicex_connector_rust.Protocols.{value_to_string, text_field, str_or}
use qomicex_connector_rust.Guest.Session.{Guest}

module _ (J : JsonApi) (serde : Serde J) where
  value_to_string-optional :
      (o : Option Text) → value_to_string J (optional J serde.string serde.null o) ≡ o
  unfolding value_to_string
  value_to_string-optional none =
      rw (serde.as_str-null, serde.as_i64-null, serde.as_u64-null, serde.as_f64_text-null) refl
  value_to_string-optional (some t) = rw (serde.as_str-string t) refl

  pub text_field-optional :
      (v : J.Value) (key : Text) (o : Option Text)
      → J.get v key ≡ some (optional J serde.string serde.null o)
      → text_field J v key ≡ o
  unfolding text_field
  text_field-optional v key o e = rw (e, text_field) (value_to_string-optional o)

  pub str_or-string :
      (v : J.Value) (key t : Text) → J.get v key ≡ some (serde.string t) → str_or J v key ≡ t
  unfolding str_or
  str_or-string v key t e = rw (text_field-optional v key (some t) e, str_or) refl
