-- ===== src/Guest/Meeting.antt =====
-- How a guest joins a room that has started: discovery, the direct connection, the ping and the
-- negotiation against the room's own answers.
use qomicex_connector_rust.Base.{◌≡◌, Bytes, codes, utf8, join}
use qomicex_connector_rust.Base.Result.{ok}
use qomicex_connector_rust.Json.{JsonApi}
use qomicex_connector_rust.Json.Serde.{Serde}
use qomicex_connector_rust.Models.RoomCode.{RoomCode}
use qomicex_connector_rust.Models.Protocol.{ProtocolResponse}
use qomicex_connector_rust.Protocols.{nul}
use qomicex_connector_rust.Center.Room.{start, Surroundings, CenterConfig, Shared, Started}
use qomicex_connector_rust.Guest.Tcp.{Exchange}
use qomicex_connector_rust.Guest.Session.{Profile, Guest}
use qomicex_connector_rust.Guest.Requests.{center_request, my_protocols}
use qomicex_connector_rust.Guest.Dialogue.{answered}
use qomicex_connector_rust.Guest.Greeting.{answer_to}

module _ {C : Type 0} (J : JsonApi) (serde : Serde J) (sur : Surroundings) (c : CenterConfig C)
    (s now : Shared C) (room : Started C) (started : start J sur c s ≡ ok room) where
  -- What the room answers to the ping, and the exchange of the negotiation after it.
  abbrev pub welcomed : Bytes → ProtocolResponse × Shared C
  welcomed bytes =
      answer_to J serde sur c s now room started (center_request (codes "player_ping") bytes)

  abbrev pub negotiated_with : Bytes → Profile → Exchange
  negotiated_with bytes p =
      answered J sur c s (welcomed bytes).1 room started
        (center_request (codes "protocols") (utf8 (join nul (my_protocols p))))
