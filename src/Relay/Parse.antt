-- ===== src/Relay/Parse.antt =====
-- `parse_nodes` of crates/qomicex-connector/src/relay/provider.rs: the usable entries of the node
-- service's answer, those of the preferred region first.
pub mod Order
use qomicex_connector_rust.Base.{
  ◌≡◌, refl, sym, ap, ◌∙◌, Text, codes, Bool, true, false, not, List, [], ◌∷◌, ◌++◌, Option, none,
  some, map, append_assoc, append-nil, is_empty, trim, utf8, eq_ignore_ascii_case, if◌then◌else◌,
  arith, Bool-cases, inl, inr,
}
use qomicex_connector_rust.Base.Maybe.{◌>>=◌}
use qomicex_connector_rust.Base.Result.{Result, ok, err}
use qomicex_connector_rust.Json.{JsonApi}

-- A usable element of the array: its url and its region.
pub record NodeEntry : Type 0 where
  pub url : Text
  pub region : Option Text

-- The two lists that the loop fills.
pub record Groups : Type 0 where
  pub preferred : List Text
  pub rest : List Text

-- Whether a region is the preferred one, whatever its case.
unfoldable pub is_preferred : Option Text → Option Text → Bool
is_preferred none region = false
is_preferred (some pref) none = false
is_preferred (some pref) (some r) = eq_ignore_ascii_case r pref

unfoldable pub push_node : Option Text → NodeEntry → Groups → Groups
push_node pref e s =
    if is_preferred pref e.region
    then record s { preferred = s.preferred ++ e.url ∷ [] }
    else record s { rest = s.rest ++ e.url ∷ [] }

module _ (J : JsonApi) where
  open J use {Value}

  -- `from_str(..).ok()?`
  unfoldable pub value_of_text : Text → Option Value
  value_of_text json = elim (J.from_slice (utf8 json)) [ err e ↦ none | ok v ↦ some v ]

  entry_of_url : Value → Text → Option NodeEntry
  entry_of_url element url =
      if is_empty (trim url)
      then none
      else some (record { url = url; region = (do r ← J.get element (codes "region"); J.as_str r) })

  -- An element without a url, or with a blank one, is passed over.
  unfoldable pub entry_of : Value → Option NodeEntry
  unfolding entry_of_url
  entry_of element = do u ← J.get element (codes "url"); url ← J.as_str u; entry_of_url element url

  -- The loop over the elements.
  unfoldable pub group_nodes : Option Text → List Value → Groups → Groups
  unfolding push_node
  group_nodes pref [] s = s
  group_nodes pref (element ∷ elements) s =
      group_nodes pref elements (elim (entry_of element) [ none ↦ s | some e ↦ push_node pref e s ])

  unfoldable pub parse_nodes : Text → Option Text → Option (List Text)
  parse_nodes json pref = do
    value ← value_of_text json
    array ← J.as_array value
    let groups = group_nodes pref array (record { preferred = []; rest = [] })
    some (groups.preferred ++ groups.rest)

  -- The usable entries of an array, in its order.
  unfoldable pub entries : List Value → List NodeEntry
  entries [] = []
  entries (element ∷ elements) =
      let later = entries elements in elim (entry_of element) [ none ↦ later | some e ↦ e ∷ later ]
