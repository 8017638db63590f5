-- ===== src/Tests/Printing.antt =====
-- A JSON library that prints one list of players and one ping, and parses what it prints.
use qomicex_connector_rust.Base.{
  ◌≡◌, refl, zero, suc, Text, Bytes, codes, Bool, true, false, List, [], ◌∷◌, map, Option, none,
  some, if◌then◌else◌, text_eq, arith,
}
use native.Mathlib.Decide.{ℕ_discrete}
use qomicex_connector_rust.Base.Result.{Result, ok, err}
use qomicex_connector_rust.Json.{JsonApi}
use qomicex_connector_rust.Json.Serde.{Serde, optional}
use qomicex_connector_rust.Models.Player.{PlayerProfileEntry}
use qomicex_connector_rust.Protocols.{player_to_entry}
use qomicex_connector_rust.Guest.Requests.{profile_entry}
use qomicex_connector_rust.Tests.Setting.{host_player, guest_player}
use qomicex_connector_rust.Tests.Guests.{profile}

abbrev pub the_entries : List PlayerProfileEntry
the_entries = map player_to_entry (host_player ∷ guest_player ∷ [])

abbrev pub the_ping : PlayerProfileEntry
the_ping = profile_entry profile [] none

pub PlayerProfileEntry-discrete : Discrete PlayerProfileEntry
PlayerProfileEntry-discrete = hlevel ℕ_discrete

pub entries_discrete : Discrete (List PlayerProfileEntry)
entries_discrete = hlevel PlayerProfileEntry-discrete

-- A printer of one value.
pub only : {A : Type 0} → Discrete A → A → Bytes → A → Result Text Bytes
only d fixed bytes a = elim (d a fixed) [ yes e ↦ ok bytes | no n ↦ err [] ]

only-eq_ok :
    {A : Type 0} (d : Discrete A) (fixed : A) (bytes : Bytes) (a : A) (out : Bytes)
    → only d fixed bytes a ≡ ok out
    → (a ≡ fixed) × (out ≡ bytes)
unfolding only
only-eq_ok d fixed bytes a out h = elim (d a fixed) [
  | yes e ↦ (e, ground arith)
  | no n ↦ ground arith
]

pub only_self :
    {A : Type 0} (d : Discrete A) (fixed : A) (bytes : Bytes) → only d fixed bytes fixed ≡ ok bytes
unfolding only
only_self d fixed bytes = ground arith

pub data Value : Type 0 where
  null : Value
  string : Text → Value
  entry : PlayerProfileEntry → Value
  entries : List PlayerProfileEntry → Value

text_or_null : Option Text → Value
text_or_null none = null
text_or_null (some t) = string t

pub field : PlayerProfileEntry → Text → Option Value
unfolding text_or_null
field e key =
    if text_eq key (codes "name")
    then some (string e.name)
    else if text_eq key (codes "machine_id")
    then some (string e.machine_id)
    else if text_eq key (codes "vendor")
    then some (string e.vendor)
    else if text_eq key (codes "easytier_id")
    then some (text_or_null e.easytier_id)
    else if text_eq key (codes "kind")
    then some (text_or_null e.kind)
    else none

pub get : Value → Text → Option Value
unfolding field
get null key = none
get (string t) key = none
get (entry e) key = field e key
get (entries es) key = none

pub as_str : Value → Option Text
as_str null = none
as_str (string t) = some t
as_str (entry e) = none
as_str (entries es) = none

pub as_array : Value → Option (List Value)
as_array null = none
as_array (string t) = none
as_array (entry e) = none
as_array (entries es) = some (map entry es)

pub is_object : Value → Bool
is_object null = false
is_object (string t) = false
is_object (entry e) = true
is_object (entries es) = false

pub from_slice : Bytes → Result Text Value
from_slice [] = err []
from_slice (zero ∷ rest) = ok (entries the_entries)
from_slice (suc n ∷ rest) = ok (entry the_ping)

abbrev pub a_json : JsonApi
a_json = record {
  Value = Value;
  from_slice = from_slice;
  get = get;
  as_str = as_str;
  as_i64 = λ v. none;
  as_u64 = λ v. none;
  as_f64_text = λ v. none;
  as_array = as_array;
  is_object = is_object;
  entry_to_vec = only PlayerProfileEntry-discrete the_ping (1 ∷ []);
  entries_to_vec = only entries_discrete the_entries (0 ∷ []);
}

nullable : (o : Option Text) → some (text_or_null o) ≡ some (optional a_json string null o)
unfolding text_or_null
nullable none = refl
nullable (some t) = refl

printed_one :
    (e : PlayerProfileEntry) (bytes : Bytes)
    → a_json.entry_to_vec e ≡ ok bytes
    → from_slice bytes ≡ ok (entry e)
printed_one e bytes h =
    let (same, at) = only-eq_ok PlayerProfileEntry-discrete the_ping (1 ∷ []) e bytes h in
    rw (same, at) (unfold from_slice in refl)

printed_list :
    (es : List PlayerProfileEntry) (bytes : Bytes)
    → a_json.entries_to_vec es ≡ ok bytes
    → from_slice bytes ≡ ok (entries es)
printed_list es bytes h =
    let (same, at) = only-eq_ok entries_discrete the_entries (0 ∷ []) es bytes h in
    rw (same, at) (unfold from_slice in refl)

pub a_serde : Serde a_json
unfolding get text_eq as_str as_array is_object
a_serde = record {
  string = string;
  null = null;
  array = entries;
  entry = entry;
  as_str-string = λ t. refl;
  as_str-null = refl;
  as_i64-null = refl;
  as_u64-null = refl;
  as_f64_text-null = refl;
  as_array-array = λ es. refl;
  is_object-entry = λ e. refl;
  get-name = λ e. refl;
  get-machine_id = λ e. refl;
  get-vendor = λ e. refl;
  get-easytier_id = λ e. nullable e.easytier_id;
  get-kind = λ e. nullable e.kind;
  from_slice-entry = printed_one;
  from_slice-entries = printed_list;
}
