-- ===== src/Center/Host/Room.antt =====
-- A center's start against the start of its room.
use qomicex_connector_rust.Base.{ℕ, ◌≡◌, refl, inl, inr, map}
use qomicex_connector_rust.Base.Result.{ok, err, Result-cases}
use qomicex_connector_rust.Error.{Outcome}
use qomicex_connector_rust.Json.{JsonApi}
use qomicex_connector_rust.Models.Network.{NetworkConfig}
use qomicex_connector_rust.Center.Room.{
  Shared, Started, scan_port, standard_keys, check_keys, network_config,
}
use qomicex_connector_rust.Center.Room as Room
use qomicex_connector_rust.EasyTier.Config.{Addresses, TomlConfig}
use qomicex_connector_rust.EasyTier.Instance.{Startup, start}
use qomicex_connector_rust.Center.Host.{
  Host, Site, at_site, node_of, seen, host_enters, served, start_host,
}

module _ {C : Type 0} where
  -- What a room and a center tell of themselves: the port, the players and the custom state.
  abbrev pub of_room : Outcome (Started C) → Outcome (ℕ × Shared C)
  of_room (ok room) = ok (room.tcp_port, room.shared)
  of_room (err e) = err e

  abbrev pub of_host : Outcome (Unit {0}) × Host C → Outcome (ℕ × Shared C)
  of_host (ok u, h) = ok (h.tcp_port, h.shared)
  of_host (err e, h) = err e

module _ (api : Addresses) (default : TomlConfig api) (up : Startup (TomlConfig api))
    (site : Site) where
  module _ {C : Type 0} (J : JsonApi) where
    -- A center starts exactly as its room does in the surroundings that its manager gives it: with the
    -- same error, or with the same port, players and custom state.
    pub start_host-start :
        (ct : ℕ) (h : Host C)
        → of_host (start_host api default up site J ct h)
          ≡ of_room (Room.start J (seen api default up site h.easy_tier) h.config h.shared)
    unfolding start_host served seen node_of Room.start host_enters at_site
    start_host-start ct h =
        let config : NetworkConfig =
          network_config J (seen api default up site h.easy_tier) (scan_port site.bindable)
            h.config in
        elim (Result-cases
          (check_keys standard_keys (map (λ p. p.key) h.config.custom_protocols))) [
            | inr (e, k) ↦ rw k refl
            | inl (u, k) ↦ elim (Result-cases (start api default up config h.easy_tier).0) [
              | inr (e, r) ↦ rw (k, r) refl
              | inl (v, r) ↦ rw (k, r) refl
            ]
          ]
