-- ===== src/Guest/Dialogue.antt =====
-- What a guest learns from a room: the requests of a guest against the answers of the room's handlers.
use qomicex_connector_rust.Base.{
  ℕ, ◌≡◌, refl, sym, ap, ◌∙◌, subst, Text, codes, List, [], ◌∷◌, ◌++◌, ◌^◌, ◌<◌, ◌≤◌, length, arith,
  ltb, ◌&&◌, inl, All, All-append, Lacks, IsScalar, utf8, utf8_lossy-utf8, join, split-join, be16,
  from_be16-be16, Bool, true,
}
use qomicex_connector_rust.Base.Result.{ok}
use qomicex_connector_rust.Json.{JsonApi}
use qomicex_connector_rust.Models.Protocol.{ProtocolRequest, ProtocolResponse, is_success}
use qomicex_connector_rust.Core.Serializer.{serialize_response, type_text}
use qomicex_connector_rust.Core.Negotiator.{negotiate}
use qomicex_connector_rust.Protocols.{
  nul, ping_protocol, protocols_protocol, server_port_protocol, player_ping_protocol,
  player_profiles_list_protocol,
}
use qomicex_connector_rust.Center.Players.{get_players}
use qomicex_connector_rust.Center.Connection.{protocol_table, respond}
use qomicex_connector_rust.Center.Room.Parts.{start-Parts}
use qomicex_connector_rust.Center.Room.Keys.{start-respond, keys}
use qomicex_connector_rust.Center.Room.{
  standard_keys, protocols_of, on_player_ping, start, Surroundings, CenterConfig, Shared, Started,
}
use qomicex_connector_rust.Guest.Tcp.{Exchange}
use qomicex_connector_rust.Guest.Tcp.Laws.{idle, arriving, send-serialize_response}
use qomicex_connector_rust.Guest.Session.{Profile, Guest, request}
use qomicex_connector_rust.Guest.Requests.{
  center_request, my_protocols, agree, negotiate_protocols, get_server_port, port_of,
}

-- A request whose response arrives whole.
pub request-idle :
    (req : ProtocolRequest) (r : ProtocolResponse) (g : Guest)
    → g.tcp ≡ idle
    → length r.body < 2 ^ 32
    → request req (arriving (serialize_response r)) g ≡ (ok r, record g { tcp = idle })
request-idle req r g e h = rw (e, send-serialize_response req r h) refl

get_server_port-idle :
    (r : ProtocolResponse) (g : Guest)
    → g.tcp ≡ idle
    → length r.body < 2 ^ 32
    → get_server_port (arriving (serialize_response r)) g ≡ (port_of r, record g { tcp = idle })
unfolding get_server_port
get_server_port-idle r g e h =
    rw (request-idle (center_request (codes "server_port") []) r g e h) refl

negotiate_protocols-idle :
    (p : Profile) (r : ProtocolResponse) (g : Guest)
    → g.tcp ≡ idle
    → length r.body < 2 ^ 32
    → negotiate_protocols p (arriving (serialize_response r)) g
      ≡ agree p r (record g { tcp = idle })
unfolding negotiate_protocols
negotiate_protocols-idle p r g e h =
    rw
      (request-idle (center_request (codes "protocols") (utf8 (join nul (my_protocols p)))) r g e h)
      refl

port_of-be16 : (n : ℕ) → n ≤ 65535 → port_of (record { status = 0; body = be16 n }) ≡ ok n
unfolding port_of be16 is_success
port_of-be16 n h = ap ok (from_be16-be16 n (omega arith))

join-IsScalar :
    (t : Text) (ts : List Text) → All (All IsScalar) (t ∷ ts) → All IsScalar (join nul (t ∷ ts))
unfolding join
join-IsScalar t [] h = h.0
join-IsScalar t (u ∷ ts) h =
    All-append IsScalar (t ++ nul) (join nul (u ∷ ts))
      (All-append IsScalar t nul h.0 (inl (omega arith), tt)) (join-IsScalar u ts h.1)

-- Characters of ASCII without NUL.
is_plain : Text → Bool
is_plain [] = true
is_plain (c ∷ t) = ltb 0 c && ltb c 128 && is_plain t

are_plain : List Text → Bool
unfolding is_plain
are_plain [] = true
are_plain (t ∷ ts) = is_plain t && are_plain ts

plain-All : (t : Text) → is_plain t ≡ true → All IsScalar t × Lacks 0 t
unfolding is_plain
plain-All [] h = (tt, tt)
plain-All (c ∷ t) h =
    let (scalar, apart) = plain-All t (ground arith) in
    ((inl (grind arith), scalar), (grind arith, apart))

plains-All : (ts : List Text) → are_plain ts ≡ true → All (All IsScalar) ts × All (Lacks 0) ts
unfolding are_plain
plains-All [] h = (tt, tt)
plains-All (t ∷ ts) h =
    let (scalar, apart) = plain-All t (ground arith) in
    let (scalars, aparts) = plains-All ts (ground arith) in ((scalar, scalars), (apart, aparts))

standard-All : All (All IsScalar) standard_keys × All (Lacks 0) standard_keys
unfolding are_plain
standard-All = plains-All standard_keys refl

agree-utf8 :
    (p : Profile) (t : Text) (ts : List Text) (g : Guest)
    → All (All IsScalar) (t ∷ ts)
    → All (Lacks 0) (t ∷ ts)
    → agree p (record { status = 0; body = utf8 (join nul (t ∷ ts)) }) g
      ≡ (ok tt, record g { negotiated = negotiate (my_protocols p) (t ∷ ts) })
unfolding agree is_success
agree-utf8 p t ts g scalar apart =
    rw (utf8_lossy-utf8 (join nul (t ∷ ts)) (join-IsScalar t ts scalar), split-join 0 t ts apart)
      refl

module _ {C : Type 0} (J : JsonApi) (sur : Surroundings) (c : CenterConfig C) (s now : Shared C)
    (room : Started C) (started : start J sur c s ≡ ok room) where
  -- The exchange in which the room answers the request.
  abbrev pub answered : ProtocolRequest → Exchange
  answered req = arriving (
      serialize_response
        (respond (Shared C) (protocol_table (Shared C) room.protocols []) req now).0)

  server_port_answer :
      (req : ProtocolRequest)
      → type_text req ≡ codes "c:server_port"
      → respond (Shared C) (protocol_table (Shared C) room.protocols []) req now
        ≡ (record { status = 0; body = be16 c.minecraft_port }, now)
  unfolding protocols_of server_port_protocol
  server_port_answer req e =
      start-respond J sur c s room started
        (ping_protocol (Shared C)
          ∷ protocols_protocol (Shared C) (standard_keys ++ keys c.custom_protocols)
          ∷ [])
        (player_ping_protocol J (Shared C) (on_player_ping J c.player_ping_handler)
          ∷ player_profiles_list_protocol J (Shared C) (λ s. get_players s.players)
          ∷ c.custom_protocols)
        (server_port_protocol (Shared C) c.minecraft_port) req now
        (start-Parts J sur c s room started).protocols e

  -- A guest with nothing unread on its connection, which asks a room that has started for its
  -- server's port and receives the room's response whole, gets the port that the room was given,
  -- if that is at most 65535. Nothing but the connection of the guest is touched, and there is
  -- again nothing unread on it.
  pub get_server_port-respond :
      (g : Guest)
      → g.tcp ≡ idle
      → c.minecraft_port ≤ 65535
      → get_server_port (answered (center_request (codes "server_port") [])) g
        ≡ (ok c.minecraft_port, record g { tcp = idle })
  get_server_port-respond g e h =
      let req = center_request (codes "server_port") [] in
      let reply = server_port_answer req (unfold type_text in refl) in
      subst
        (λ answer.
          get_server_port (arriving (serialize_response answer.0)) g
          ≡ (ok c.minecraft_port, record g { tcp = idle }))
        (sym reply)
        (get_server_port-idle (record { status = 0; body = be16 c.minecraft_port }) g e
            (unfold be16 in omega arith)
          ∙ ap (λ r. (r, record g { tcp = idle })) (port_of-be16 c.minecraft_port h))

  protocols_answer :
      (req : ProtocolRequest)
      → type_text req ≡ codes "c:protocols"
      → respond (Shared C) (protocol_table (Shared C) room.protocols []) req now ≡ (
        record { status = 0; body = utf8 (join nul (standard_keys ++ keys c.custom_protocols)) },
        now,
      )
  unfolding protocols_of protocols_protocol
  protocols_answer req e =
      start-respond J sur c s room started (ping_protocol (Shared C) ∷ [])
        (server_port_protocol (Shared C) c.minecraft_port
          ∷ player_ping_protocol J (Shared C) (on_player_ping J c.player_ping_handler)
          ∷ player_profiles_list_protocol J (Shared C) (λ s. get_players s.players)
          ∷ c.custom_protocols)
        (protocols_protocol (Shared C) (standard_keys ++ keys c.custom_protocols)) req now
        (start-Parts J sur c s room started).protocols e

  -- A guest with nothing unread on its connection, which negotiates with a room that has started
  -- and receives the room's response whole, has agreed on those of its own keys that are standard
  -- keys or keys of the room's custom handlers, in its own order. The custom keys are Unicode
  -- texts without NUL, and all keys together take less than 4 GiB.
  pub negotiate_protocols-respond :
      (p : Profile) (g : Guest)
      → g.tcp ≡ idle
      → All (All IsScalar) (keys c.custom_protocols)
      → All (Lacks 0) (keys c.custom_protocols)
      → length (utf8 (join nul (standard_keys ++ keys c.custom_protocols))) < 2 ^ 32
      → negotiate_protocols p
          (answered (center_request (codes "protocols") (utf8 (join nul (my_protocols p)))))
          g
        ≡ (
          ok tt,
          record g {
            tcp = idle;
            negotiated = negotiate (my_protocols p) (standard_keys ++ keys c.custom_protocols);
          },
        )
  negotiate_protocols-respond p g e scalar apart short =
      let req = center_request (codes "protocols") (utf8 (join nul (my_protocols p))) in
      let reply = protocols_answer req (unfold type_text in refl) in
      subst
        (λ answer. negotiate_protocols p (arriving (serialize_response answer.0)) g ≡ (
          ok tt,
          record g {
            tcp = idle;
            negotiated = negotiate (my_protocols p) (standard_keys ++ keys c.custom_protocols);
          },
        ))
        (sym reply)
        (negotiate_protocols-idle p
            (record {
              status = 0;
              body = utf8 (join nul (standard_keys ++ keys c.custom_protocols));
            })
            g e short
          ∙ agree-utf8 p (codes "c:ping") _ (record g { tcp = idle })
              (All-append (All IsScalar) standard_keys (keys c.custom_protocols) standard-All.0
                scalar)
              (All-append (Lacks 0) standard_keys (keys c.custom_protocols) standard-All.1 apart))
