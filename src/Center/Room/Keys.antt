-- ===== src/Center/Room/Keys.antt =====
-- Every handler of a room is reached by the requests of its key.
use qomicex_connector_rust.Base.{
  ◌≡◌, refl, sym, ◌∙◌, subst, Text, codes, true, false, List, [], ◌∷◌, ◌++◌, map, some, contains,
  contains-append, text_eq, text_eq_iff, text_eq_refl, arith, Map, lookup, insert, lookup-insert,
  lookup-insert_self, utf8,
}
use qomicex_connector_rust.Base.Result.{ok}
use qomicex_connector_rust.Json.{JsonApi}
use qomicex_connector_rust.Models.Protocol.{ProtocolRequest}
use qomicex_connector_rust.Core.Serializer.{type_text}
use qomicex_connector_rust.Protocols.{
  ProtocolHandler, response, ping_protocol, protocols_protocol, server_port_protocol,
  player_ping_protocol, player_profiles_list_protocol,
}
use qomicex_connector_rust.Center.Connection.{protocol_table, respond}
use qomicex_connector_rust.Center.Room.Parts.{start-Parts}
use qomicex_connector_rust.Center.Room.{
  standard_keys, check_keys, protocols_of, start, Surroundings, CenterConfig, Shared, Started,
}

-- No key stands in the list twice.
abbrev pub Distinct : List Text → Type 0
Distinct [] = Unit
Distinct (k ∷ ks) = (contains ks k ≡ false) × Distinct ks

seen_apart :
    (seen ks : List Text) (k : Text)
    → check_keys seen ks ≡ ok tt
    → contains seen k ≡ true
    → contains ks k ≡ false
unfolding check_keys contains
seen_apart seen [] k h e = refl
seen_apart seen (j ∷ ks) k h e =
    ground
      (arith, seen_apart (seen ++ j ∷ []) ks k, contains-append seen (j ∷ []) k, text_eq_iff j k)

check_keys-Distinct : (seen ks : List Text) → check_keys seen ks ≡ ok tt → Distinct ks
unfolding check_keys contains
check_keys-Distinct seen [] h = tt
check_keys-Distinct seen (k ∷ ks) h = ground (
  arith,
  check_keys-Distinct (seen ++ k ∷ []) ks,
  seen_apart (seen ++ k ∷ []) ks k,
  contains-append seen (k ∷ []) k,
  text_eq_refl k,
)

module _ {S : Type 0} where
  abbrev pub keys : List (ProtocolHandler S) → List Text
  keys ps = map (λ p. p.key) ps

  protocol_table-other :
      (ps : List (ProtocolHandler S)) (m : Map (ProtocolHandler S)) (k : Text)
      → contains (keys ps) k ≡ false
      → lookup k (protocol_table S ps m) ≡ lookup k m
  unfolding protocol_table contains
  protocol_table-other [] m k h = refl
  protocol_table-other (p ∷ ps) m k h =
      ground (arith, protocol_table-other ps (insert p.key p m) k, lookup-insert p.key k p m)

  -- In a list of handlers with distinct keys, each is looked up by its key.
  protocol_table-own :
      (before after : List (ProtocolHandler S)) (p : ProtocolHandler S)
      (m : Map (ProtocolHandler S))
      → Distinct (keys (before ++ p ∷ after))
      → lookup p.key (protocol_table S (before ++ p ∷ after) m) ≡ some p
  unfolding protocol_table
  protocol_table-own [] after p m d =
      protocol_table-other after (insert p.key p m) p.key d.0 ∙ lookup-insert_self p.key p m
  protocol_table-own (q ∷ before) after p m d =
      protocol_table-own before after p (insert q.key q m) d.1

  respond-own :
      (before after : List (ProtocolHandler S)) (p : ProtocolHandler S) (req : ProtocolRequest)
      (s : S)
      → Distinct (keys (before ++ p ∷ after))
      → type_text req ≡ p.key
      → respond S (protocol_table S (before ++ p ∷ after) []) req s ≡ p.handle req s
  unfolding respond
  respond-own before after p req s d e = rw (e, protocol_table-own before after p [] d) refl

  -- A request of a key that none of the handlers has is answered 255 with a text that names the key,
  -- and changes nothing.
  pub respond-unknown :
      (ps : List (ProtocolHandler S)) (req : ProtocolRequest) (s : S)
      → contains (keys ps) (type_text req) ≡ false
      → respond S (protocol_table S ps []) req s
        ≡ (response 255 (utf8 (codes "未知协议: " ++ type_text req)), s)
  unfolding respond lookup
  respond-unknown ps req s e = rw (protocol_table-other ps [] (type_text req) e) refl

module _ {C : Type 0} (J : JsonApi) (sur : Surroundings) (c : CenterConfig C) where
  protocols-Distinct :
      check_keys standard_keys (keys c.custom_protocols) ≡ ok tt
      → Distinct (keys (protocols_of J c))
  unfolding protocols_of contains ping_protocol protocols_protocol server_port_protocol
      player_ping_protocol player_profiles_list_protocol text_eq
  protocols-Distinct h =
      let apart : (k : Text)
          → contains standard_keys k ≡ true
          → contains (keys c.custom_protocols) k ≡ false =
        λ k. seen_apart standard_keys (keys c.custom_protocols) k h in
      (
        apart (codes "c:ping") refl,
        (
          apart (codes "c:protocols") refl,
          (
            apart (codes "c:server_port") refl,
            (
              apart (codes "c:player_ping") refl,
              (
                apart (codes "c:player_profiles_list") refl,
                check_keys-Distinct standard_keys (keys c.custom_protocols) h,
              ),
            ),
          ),
        ),
      )

  -- In a room that has started a request is handled by the handler of its key, standard or custom.
  pub start-respond :
      (s : Shared C) (room : Started C)
      → start J sur c s ≡ ok room
      → (before after : List (ProtocolHandler (Shared C))) (p : ProtocolHandler (Shared C))
        (req : ProtocolRequest) (now : Shared C)
      → room.protocols ≡ before ++ p ∷ after
      → type_text req ≡ p.key
      → respond (Shared C) (protocol_table (Shared C) room.protocols []) req now ≡ p.handle req now
  start-respond s room h before after p req now e k =
      let parts = start-Parts J sur c s room h in
      let distinct : Distinct (keys room.protocols) =
        rw parts.protocols (protocols-Distinct parts.keys) in
      subst (λ ps. respond (Shared C) (protocol_table (Shared C) ps []) req now ≡ p.handle req now)
        (sym e) (respond-own before after p req now (subst (λ ps. Distinct (keys ps)) e distinct) k)
