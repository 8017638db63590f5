-- ===== src/Center/Room/Parts.antt =====
-- What a room that has started consists of.
use qomicex_connector_rust.Base.{◌≡◌, ◌++◌, decimal, map}
use qomicex_connector_rust.Base.Result.{ok, >>=_ensures}
use qomicex_connector_rust.Json.{JsonApi}
use qomicex_connector_rust.Core.Discovery.{host_prefix}
use qomicex_connector_rust.Center.Room.{
  scan_port, standard_keys, check_keys, protocols_of, network_config, start, Surroundings,
  CenterConfig, Shared, Started,
}

module _ {C : Type 0} (J : JsonApi) (sur : Surroundings) (c : CenterConfig C) where
  pub record Parts (room : Started C) : Type 0 where
    pub keys : check_keys standard_keys (map (λ p. p.key) c.custom_protocols) ≡ ok tt
    pub port : room.tcp_port ≡ scan_port sur.bindable
    pub protocols : room.protocols ≡ protocols_of J c
    pub hostname : room.config.hostname ≡ host_prefix ++ decimal (scan_port sur.bindable)

  pub start-Parts : (s : Shared C) (room : Started C) → start J sur c s ≡ ok room → Parts room
  unfolding start network_config
  start-Parts s room h =
      >>=_ensures Parts (check_keys standard_keys (map (λ p. p.key) c.custom_protocols)) _
        (λ a checked.
          >>=_ensures Parts (sur.easy_tier_start (network_config J sur (scan_port sur.bindable) c))
            _
            (λ id e r done. record {
              keys = checked;
              port = cc done;
              protocols = cc done;
              hostname = cc done;
            }))
        room h
