-- ===== src/Json.antt =====
-- What the program uses of the `serde_json` crate: an interface, whose implementation is a parameter
-- of the definitions that parse or print JSON.
pub mod Serde
use qomicex_connector_rust.Base.{ℕ, Text, Bytes, Bool, List, Option, ◌∷◌, decimal, suc}
use qomicex_connector_rust.Base.Int.{ℤ, pos, negsuc}
use qomicex_connector_rust.Base.Result.{Result}
use qomicex_connector_rust.Models.Player.{PlayerProfileEntry}

-- An error of the crate is its message.
pub record JsonApi : Type 1 where
  pub Value : Type 0
  -- `serde_json::from_slice::<Value>`
  pub from_slice : Bytes → Result Text Value
  -- `Value::get` of a key, which is `None` for a value that is no object
  pub get : Value → Text → Option Value
  pub as_str : Value → Option Text
  pub as_i64 : Value → Option ℤ
  pub as_u64 : Value → Option ℕ
  -- `as_f64().map(|n| n.to_string())`
  pub as_f64_text : Value → Option Text
  pub as_array : Value → Option (List Value)
  pub is_object : Value → Bool
  -- `serde_json::to_vec` of a profile entry, and of a list of them
  pub entry_to_vec : PlayerProfileEntry → Result Text Bytes
  pub entries_to_vec : List PlayerProfileEntry → Result Text Bytes

-- `i64::to_string`
unfoldable pub int_text : ℤ → Text
int_text (pos n) = decimal n
int_text (negsuc n) = b'-' ∷ decimal (suc n)
