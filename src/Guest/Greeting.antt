-- ===== src/Guest/Greeting.antt =====
-- A guest's ping against a room, where both sides print and parse JSON as the crate documents.
use qomicex_connector_rust.Base.{
  ◌≡◌, refl, ap, ◌∙◌, Text, Bytes, codes, [], ◌∷◌, ◌++◌, Option, none, some, arith, Bool,
  text_eq_refl,
}
use qomicex_connector_rust.Base.Result.{ok}
use qomicex_connector_rust.Json.{JsonApi}
use qomicex_connector_rust.Json.Serde.{Serde}
use qomicex_connector_rust.Models.Player.{PlayerInfo, PlayerProfileEntry, host}
use qomicex_connector_rust.Models.Protocol.{ProtocolRequest, ProtocolResponse}
use qomicex_connector_rust.Core.Serializer.{serialize_response, type_text}
use qomicex_connector_rust.Protocols.{
  ping_protocol, protocols_protocol, server_port_protocol, player_ping_protocol,
  player_profiles_list_protocol, player_ping_response, parse_player_info, info_of,
}
use qomicex_connector_rust.Center.Players.{
  get_players, upsert, on_player_ping_impl, notify_players_changed,
}
use qomicex_connector_rust.Center.Players.History.{send_snapshot_kept}
use qomicex_connector_rust.Center.Players.Laws.{find_player, joined, find_player-upsert}
use qomicex_connector_rust.Center.Connection.{protocol_table, respond}
use qomicex_connector_rust.Center.Room.Parts.{start-Parts}
use qomicex_connector_rust.Center.Room.Keys.{start-respond, keys}
use qomicex_connector_rust.Center.Room.{
  standard_keys, protocols_of, on_player_ping, start, Surroundings, CenterConfig, Shared, Started,
}
use qomicex_connector_rust.Guest.Tcp.{is_connected}
use qomicex_connector_rust.Guest.Tcp.Laws.{idle, arriving}
use qomicex_connector_rust.Guest.Session.{Profile, Guest}
use qomicex_connector_rust.Guest.Requests.{center_request, send_player_ping, profile_entry}
use qomicex_connector_rust.Guest.Dialogue.{request-idle, answered}
use qomicex_connector_rust.Guest.Listing.{text_field-optional, str_or-string}

-- A ping as the room reads it.
abbrev pub info_of_entry : PlayerProfileEntry → PlayerInfo
info_of_entry e = record {
  name = e.name;
  machine_id = e.machine_id;
  easytier_id = e.easytier_id;
  vendor = e.vendor;
  kind = host;
}

parse_player_info-entry :
    (J : JsonApi) (serde : Serde J) (e : PlayerProfileEntry) (bytes : Bytes)
    → J.entry_to_vec e ≡ ok bytes
    → parse_player_info J bytes ≡ ok (info_of_entry e)
unfolding parse_player_info info_of
parse_player_info-entry J serde e bytes h =
    rw
      (
        serde.from_slice-entry e bytes h,
        str_or-string J serde (serde.entry e) (codes "name") e.name (serde.get-name e),
        str_or-string J serde (serde.entry e) (codes "machine_id") e.machine_id
            (serde.get-machine_id e),
        str_or-string J serde (serde.entry e) (codes "vendor") e.vendor (serde.get-vendor e),
        text_field-optional J serde (serde.entry e) (codes "easytier_id") e.easytier_id
            (serde.get-easytier_id e),
      )
      refl

module _ {C : Type 0} (J : JsonApi) (serde : Serde J) (sur : Surroundings) (c : CenterConfig C)
    (s now : Shared C) (room : Started C) (started : start J sur c s ≡ ok room) where
  abbrev pub answer_to : ProtocolRequest → ProtocolResponse × Shared C
  answer_to req = respond (Shared C) (protocol_table (Shared C) room.protocols []) req now

  ping_answer :
      (req : ProtocolRequest)
      → type_text req ≡ codes "c:player_ping"
      → answer_to req
        ≡ player_ping_response J
            (on_player_ping J c.player_ping_handler)
            (parse_player_info J req.body)
            now
  unfolding protocols_of player_ping_protocol
  ping_answer req e =
      start-respond J sur c s room started
        (ping_protocol (Shared C)
          ∷ protocols_protocol (Shared C) (standard_keys ++ keys c.custom_protocols)
          ∷ server_port_protocol (Shared C) c.minecraft_port
          ∷ [])
        (player_profiles_list_protocol J (Shared C) (λ s. get_players s.players)
          ∷ c.custom_protocols)
        (player_ping_protocol J (Shared C) (on_player_ping J c.player_ping_handler)) req now
        (start-Parts J sur c s room started).protocols e

  accepted :
      (hook : Option (PlayerInfo → Shared C → Bool × Shared C)) (e : PlayerProfileEntry)
      (bytes : Bytes)
      → hook ≡ none
      → J.entry_to_vec e ≡ ok bytes
      → player_ping_response J (on_player_ping J hook) (parse_player_info J bytes) now ≡ (
        record { status = 0; body = [] },
        record now { players = on_player_ping_impl (info_of_entry e) now.players },
      )
  unfolding player_ping_response on_player_ping
  accepted hook e bytes free printed =
      rw (free, parse_player_info-entry J serde e bytes printed) refl

  send_player_ping-idle :
      (p : Profile) (node_id : Option Text) (bytes : Bytes) (g : Guest)
      → g.tcp ≡ idle
      → J.entry_to_vec (profile_entry p g.negotiated node_id) ≡ ok bytes
      → send_player_ping J p node_id
          (arriving (serialize_response (record { status = 0; body = [] })))
          g
        ≡ (ok tt, record g { tcp = idle })
  unfolding send_player_ping is_connected
  send_player_ping-idle p node_id bytes g e printed =
      rw
        (
          printed,
          request-idle (center_request (codes "player_ping") bytes)
              (record { status = 0; body = [] }) g e (omega arith),
          e,
        )
        refl

  -- The ping of a guest with nothing unread on its connection, to a room that has started without a hook
  -- of its own and whose response arrives whole, succeeds, and leaves nothing unread. The room then has
  -- the guest under its machine id, with the id of its node where that was negotiated: as a guest, if
  -- it was not listed, and otherwise refreshed. The libraries of both sides print and parse the ping as
  -- the crate documents.
  pub send_player_ping-respond :
      (p : Profile) (node_id : Option Text) (bytes : Bytes) (g : Guest)
      → c.player_ping_handler ≡ none
      → g.tcp ≡ idle
      → J.entry_to_vec (profile_entry p g.negotiated node_id) ≡ ok bytes
      → (send_player_ping J p node_id
            (answered J sur c s now room started (center_request (codes "player_ping") bytes))
            g
          ≡ (ok tt, record g { tcp = idle }))
        × (find_player p.machine_id
              (get_players (answer_to (center_request (codes "player_ping") bytes)).1.players)
            ≡ some (
                joined
                  (info_of_entry (profile_entry p g.negotiated node_id))
                  (find_player p.machine_id (get_players now.players))))
  unfolding get_players on_player_ping_impl notify_players_changed profile_entry
  send_player_ping-respond p node_id bytes g free e printed =
      let req = center_request (codes "player_ping") bytes in
      let entry = profile_entry p g.negotiated node_id in
      let reply =
        ping_answer req (unfold type_text in refl)
        ∙ accepted c.player_ping_handler entry bytes free printed in
      (
        ap (λ answer. send_player_ping J p node_id (arriving (serialize_response answer.0)) g) reply
            ∙ send_player_ping-idle p node_id bytes g e printed,
        ap (λ answer. find_player p.machine_id answer.1.players.list) reply
            ∙ ap (find_player p.machine_id)
                (send_snapshot_kept (upsert (info_of_entry entry) now.players.list)
                  (record now.players { list = upsert (info_of_entry entry) now.players.list })).0
            ∙ find_player-upsert p.machine_id (info_of_entry entry) now.players.list
            ∙ ground (arith, text_eq_refl p.machine_id),
      )
