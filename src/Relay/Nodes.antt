-- ===== src/Relay/Nodes.antt =====
-- crates/qomicex-connector/src/relay/nodes.rs
use qomicex_connector_rust.Base.{Text, codes, List, [], ◌∷◌, ◌++◌, Option, none, some}

abbrev pub default_nodes : List Text
default_nodes =
    codes "tcp://cgk1.clusters.zeabur.com:22171"
    ∷ codes "tcp://tcp.ap-northeast-1.clawcloudrun.com:45146"
    ∷ []

-- The nodes of the override, if there is one, or the default ones.
chosen : Option (List Text) → List Text
chosen none = default_nodes
chosen (some nodes) = nodes

appended : Option (List Text) → List Text → List Text
appended none result = result
appended (some additional) result = result ++ additional

unfoldable pub resolve : Option (List Text) → Option (List Text) → List Text
unfolding chosen appended
resolve override_nodes additional = appended additional (chosen override_nodes)
