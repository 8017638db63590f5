-- ===== src/Guest/Joining/Direct.antt =====
-- A join whose direct connection goes through.
use qomicex_connector_rust.Base.{◌≡◌, refl, sym, subst, Text, true, false, Option, some}
use qomicex_connector_rust.Base.Result.{ok}
use qomicex_connector_rust.Error.{Outcome}
use qomicex_connector_rust.Json.{JsonApi}
use qomicex_connector_rust.Models.RoomCode.{RoomCode}
use qomicex_connector_rust.Core.Discovery.{CenterDiscoveryResult, discover}
use qomicex_connector_rust.Guest.Tcp.{connect}
use qomicex_connector_rust.Guest.Tcp.Laws.{idle}
use qomicex_connector_rust.Guest.Session.{Profile, Guest}
use qomicex_connector_rust.Guest.Requests.{negotiate_protocols, send_player_ping}
use qomicex_connector_rust.Guest.Joining.{
  Attempt, Way, endpoint, greeted, reached, settled, try_connect_once, guest_config,
  through_forward, connect_room,
}

module _ (J : JsonApi) (p : Profile) (node_id : Option Text) where
  -- An attempt that connects, whose ping and negotiation go through, reports that it has connected.
  pub try_connect_once-direct :
      (address : Text) (a : Attempt) (g g1 g2 : Guest)
      → a.connected ≡ some (ok tt)
      → send_player_ping J p node_id a.ping_exchange (record g { tcp = idle }) ≡ (ok tt, g1)
      → negotiate_protocols p a.negotiation g1 ≡ (ok tt, g2)
      → try_connect_once J p node_id address a g ≡ (ok true, g2)
  unfolding try_connect_once reached greeted settled connect
  try_connect_once-direct address a g g1 g2 c e f =
      subst (λ o. reached J p node_id address a o g ≡ (ok true, g2)) (sym c) (rw (e, f) refl)

  module _ {Addr : Type 0} (socket_addr : Text → Option Addr)
      (patch : Addr × Addr → Outcome (Unit {0})) where
    pub connect_room-direct :
        (way : Way) (code : RoomCode) (center : CenterDiscoveryResult) (g g2 : Guest)
        → way.easy_tier_start (guest_config J p node_id socket_addr patch way code) ≡ ok tt
        → discover way.other_digit way.nodes way.wait_cancelled ≡ ok center
        → try_connect_once J p node_id
            (endpoint center.virtual_ip center.port)
            way.direct
            (record g {
              center = some center;
              config = some (guest_config J p node_id socket_addr patch way code);
            })
          ≡ (ok true, g2)
        → connect_room J p node_id socket_addr patch way code g
          ≡ (ok tt, record g2 { use_port_forward = false; heartbeat = true })
    unfolding connect_room through_forward
    connect_room-direct way code center g g2 s d e = rw (s, d, e) refl
