-- ===== src/Relay/Parse/Order.antt =====
-- The order of the nodes, against a description by filters.
use qomicex_connector_rust.Base.{
  ◌≡◌, sym, ap, ◌∙◌, Text, Bool, true, false, List, [], ◌∷◌, ◌++◌, Option, some, append_assoc,
  append-nil, if◌then◌else◌, Bool-cases, Option-cases, inl, inr,
}
use qomicex_connector_rust.Base.Maybe.{◌>>=◌}
use qomicex_connector_rust.Json.{JsonApi}
use qomicex_connector_rust.Relay.Parse.{
  NodeEntry, Groups, is_preferred, push_node, entry_of, group_nodes, entries, value_of_text,
  parse_nodes,
}

-- The urls of the entries that are preferred, or of those that are not.
abbrev pub urls_of : Bool → Option Text → List NodeEntry → List Text
urls_of wanted pref [] = []
urls_of true pref (e ∷ es) =
    if is_preferred pref e.region then e.url ∷ urls_of true pref es else urls_of true pref es
urls_of false pref (e ∷ es) =
    if is_preferred pref e.region then urls_of false pref es else e.url ∷ urls_of false pref es

-- The two lists with the urls of further entries behind them.
abbrev extended : Option Text → Groups → List NodeEntry → Groups
extended pref s es = record {
  preferred = s.preferred ++ urls_of true pref es;
  rest = s.rest ++ urls_of false pref es;
}

extended-push :
    (pref : Option Text) (e : NodeEntry) (es : List NodeEntry) (s : Groups)
    → extended pref (push_node pref e s) es ≡ extended pref s (e ∷ es)
unfolding push_node
extended-push pref e es s = elim (Bool-cases (is_preferred pref e.region)) [
  | inl p ↦ rw p (
      ap (λ (l : List Text). record { preferred = l; rest = s.rest ++ urls_of false pref es })
        (append_assoc s.preferred (e.url ∷ []) (urls_of true pref es)))
  | inr p ↦ rw p (
      ap (λ (l : List Text). record { preferred = s.preferred ++ urls_of true pref es; rest = l })
        (append_assoc s.rest (e.url ∷ []) (urls_of false pref es)))
]

module _ (J : JsonApi) where
  open J use {Value}

  -- The loop appends the urls of the two kinds of entries to its two lists.
  group_nodes-entries :
      (pref : Option Text) (elements : List Value) (s : Groups)
      → group_nodes J pref elements s ≡ extended pref s (entries J elements)
  unfolding group_nodes entries
  group_nodes-entries pref [] s = cc (sym (append-nil s.preferred), sym (append-nil s.rest))
  group_nodes-entries pref (element ∷ elements) s = elim (Option-cases (entry_of J element)) [
    | inl p ↦ rw (p, entries) (group_nodes-entries pref elements s)
    | inr (e, p) ↦
        rw (p, entries)
          (group_nodes-entries pref elements (push_node pref e s)
            ∙ extended-push pref e (entries J elements) s)
  ]

  -- Of a text that is a JSON array, the nodes are the urls of its usable entries: first those of the
  -- preferred region, then the others, both in the order of the array. A text that is no array, or
  -- no JSON, has none.
  pub parse_nodes-entries :
      (json : Text) (pref : Option Text)
      → parse_nodes J json pref ≡ (do
        value ← value_of_text J json
        array ← J.as_array value
        let es = entries J array
        some (urls_of true pref es ++ urls_of false pref es))
  unfolding parse_nodes
  parse_nodes-entries json pref = elim (Option-cases (value_of_text J json)) [
    | inl p ↦ rw p
    | inr (v, p) ↦ rw p (elim (Option-cases (J.as_array v)) [
      | inl q ↦ rw q
      | inr (array, q) ↦ rw q (
          ap (λ (g : Groups). some (g.preferred ++ g.rest))
            (group_nodes-entries pref array (record { preferred = []; rest = [] })))
    ])
  ]
