-- ===== src/Json/Serde.antt =====
-- What the program relies on of the `serde_json` crate where one side prints and the other parses: what
-- `to_vec` has printed for a player's entry is parsed to the object of its fields, and for a list to
-- the array of them.
use qomicex_connector_rust.Base.{Text, Bytes, codes, List, map, Option, none, some, ◌≡◌, true}
use qomicex_connector_rust.Base.Result.{ok}
use qomicex_connector_rust.Models.Player.{PlayerProfileEntry}
use qomicex_connector_rust.Json.{JsonApi}

module _ (J : JsonApi) where
  -- A text or `null`.
  abbrev pub optional : (Text → J.Value) → J.Value → Option Text → J.Value
  optional string null none = null
  optional string null (some t) = string t

  pub record Serde : Type 0 where
    pub string : Text → J.Value
    pub null : J.Value
    pub array : List PlayerProfileEntry → J.Value
    pub entry : PlayerProfileEntry → J.Value
    pub as_str-string : (t : Text) → J.as_str (string t) ≡ some t
    pub as_str-null : J.as_str null ≡ none
    pub as_i64-null : J.as_i64 null ≡ none
    pub as_u64-null : J.as_u64 null ≡ none
    pub as_f64_text-null : J.as_f64_text null ≡ none
    pub as_array-array :
        (es : List PlayerProfileEntry) → J.as_array (array es) ≡ some (map entry es)
    pub is_object-entry : (e : PlayerProfileEntry) → J.is_object (entry e) ≡ true
    pub get-name : (e : PlayerProfileEntry) → J.get (entry e) (codes "name") ≡ some (string e.name)
    pub get-machine_id :
        (e : PlayerProfileEntry) → J.get (entry e) (codes "machine_id") ≡ some (string e.machine_id)
    pub get-vendor :
        (e : PlayerProfileEntry) → J.get (entry e) (codes "vendor") ≡ some (string e.vendor)
    pub get-easytier_id :
        (e : PlayerProfileEntry)
        → J.get (entry e) (codes "easytier_id") ≡ some (optional string null e.easytier_id)
    pub get-kind :
        (e : PlayerProfileEntry)
        → J.get (entry e) (codes "kind") ≡ some (optional string null e.kind)
    pub from_slice-entry :
        (e : PlayerProfileEntry) (bytes : Bytes)
        → J.entry_to_vec e ≡ ok bytes
        → J.from_slice bytes ≡ ok (entry e)
    pub from_slice-entries :
        (es : List PlayerProfileEntry) (bytes : Bytes)
        → J.entries_to_vec es ≡ ok bytes
        → J.from_slice bytes ≡ ok (array es)
