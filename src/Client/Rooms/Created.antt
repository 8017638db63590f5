-- ===== src/Client/Rooms/Created.antt =====
-- What a creation that succeeds leaves behind.
use qomicex_connector_rust.Base.{ℕ, Text, ◌≡◌, sym, ap, ◌∙◌, [], ◌∷◌, ◌++◌, Option}
use qomicex_connector_rust.Base.Result.{ok, err}
use qomicex_connector_rust.Error.{Outcome}
use qomicex_connector_rust.Json.{JsonApi}
use qomicex_connector_rust.Models.RoomCode.{RoomCode}
use qomicex_connector_rust.Relay.Provider.{Reply}
use qomicex_connector_rust.Center.Host.{Host, Site, new_host, start_host}
use qomicex_connector_rust.Center.Host.Laws.{start_host-config}
use qomicex_connector_rust.EasyTier.Config.{Addresses, TomlConfig}
use qomicex_connector_rust.EasyTier.Instance.{Startup}
use qomicex_connector_rust.Client.RelayCache.{Settings}
use qomicex_connector_rust.Client.Rooms.{
  Client, Creation, center_config, relay_nodes, created, create_room,
}

module _ {C : Type 0} (J : JsonApi) (locale : Option Text)
    (http : ℕ → (user_agent url : Text) → Option Reply) (s : Settings) (api : Addresses)
    (default : TomlConfig api) where
  created-ok :
      (client : Client C) (r : Outcome (Unit {0}) × Host C) (h : Host C)
      → (created J locale http s api default client r).0 ≡ ok h
      → (r.1 ≡ h)
        × ((created J locale http s api default client r).1.managed_centers
            ≡ client.managed_centers ++ h ∷ [])
  unfolding created
  created-ok client (ok u, h') h e =
      let same : h' ≡ h = cc in (same, ap (λ x. client.managed_centers ++ x ∷ []) same)
  created-ok client (err why, h') h e = cc

  -- A creation that succeeds returns a center of the generated code, and the client manages it last.
  pub create_room-ok :
      (up : Startup (TomlConfig api)) (site : Site) (now : ℕ) (room_code : RoomCode) (ct : ℕ)
      (c : Creation C) (client : Client C) (h : Host C)
      → (create_room J locale http s api default up site now room_code ct c client).0 ≡ ok h
      → (h.config.room_code ≡ room_code)
        × ((create_room J locale http s api default up site now room_code ct c
              client).1.managed_centers
            ≡ client.managed_centers ++ h ∷ [])
  unfolding create_room relay_nodes
  create_room-ok up site now room_code ct c client h e =
      let (nodes, client1) = relay_nodes J locale http s api default now client in
      let h0 = new_host (center_config room_code nodes c) c.custom in
      let r = start_host api default up site J ct h0 in
      let (same, managed) = created-ok client1 r h e in
      (
        ap (λ x. x.config.room_code) (sym same)
            ∙ ap (λ k. k.room_code) (start_host-config api default up site J ct h0),
        managed,
      )
