-- ===== src/Guest/Joining/Remapping.antt =====
-- Joining keeps the address of the Minecraft server that a guest has mapped before.
use qomicex_connector_rust.Base.{
  ℕ, ◌≡◌, ◌≢◌, refl, Text, Bool, true, false, inl, inr, Option-cases, Option, none, some, arith,
}
use qomicex_connector_rust.Base.Result.{ok}
use qomicex_connector_rust.Error.{Outcome}
use qomicex_connector_rust.Json.{JsonApi}
use qomicex_connector_rust.Models.Network.{NetworkConfig}
use qomicex_connector_rust.Models.RoomCode.{RoomCode}
use qomicex_connector_rust.Core.Discovery.{CenterDiscoveryResult, discover}
use qomicex_connector_rust.Guest.Tcp.{Exchange}
use qomicex_connector_rust.Guest.Session.{Profile, Guest, lift}
use qomicex_connector_rust.Guest.Keys.{parse_forward_addrs}
use qomicex_connector_rust.Guest.Joining.{
  push_forward, end_of_retries, through_forward, try_connect_once, try_connect_with_retry,
  apply_port_forward_patch, connect_room, Way, leave, map_minecraft_port, known_address,
  guest_config, endpoint, forward_rule, local_host,
}
use qomicex_connector_rust.Guest.Joining.Mapped.{
  IsMapped, and_then-IsMapped, try_connect_once-IsMapped, try_connect_with_retry-IsMapped,
  some-ne-none,
}

push_forward-ne-none :
    (forward : Text) (o : Option NetworkConfig) → o ≢ none → push_forward forward o ≢ none
unfolding push_forward
push_forward-ne-none forward none k e = k refl
push_forward-ne-none forward (some c) k e = cc

module _ (h : Text) (port : ℕ) (J : JsonApi) (p : Profile) (node_id : Option Text) {Addr : Type 0}
    (socket_addr : Text → Option Addr) (patch : Addr × Addr → Outcome (Unit {0})) where
  end_of_retries-IsMapped :
      (b : Bool) (g : Guest)
      → IsMapped h port g
      → IsMapped h port (end_of_retries J p node_id socket_addr patch b g).1
  unfolding end_of_retries
  end_of_retries-IsMapped true g k = k
  end_of_retries-IsMapped false g k = k

  apply_port_forward_patch-IsMapped :
      (forward : Text) (g : Guest)
      → IsMapped h port g
      → IsMapped h port (apply_port_forward_patch J p node_id socket_addr patch forward g).1
  unfolding apply_port_forward_patch
  apply_port_forward_patch-IsMapped forward g k =
      and_then-IsMapped h port {B = Unit {0}} (lift (parse_forward_addrs socket_addr forward) g) _ k
        (λ addrs g' k'. k')

  through_forward-IsMapped :
      (way : Way) (center : CenterDiscoveryResult) (direct : Bool) (g : Guest)
      → IsMapped h port g
      → IsMapped h port (through_forward J p node_id socket_addr patch way center direct g).1
  unfolding through_forward
  through_forward-IsMapped way center true g k = k
  through_forward-IsMapped way center false g k =
      let forward = forward_rule way.local_port center.virtual_ip center.port in
      let ready = record g { config = push_forward forward g.config } in
      and_then-IsMapped h port
        (apply_port_forward_patch J p node_id socket_addr patch forward ready) _
        (apply_port_forward_patch-IsMapped forward ready
          (k.0, k.1, push_forward-ne-none forward g.config k.2, k.3))
        (λ u g1 k1.
          and_then-IsMapped h port
            (try_connect_with_retry J p node_id (endpoint local_host way.local_port) way.attempts
              way.cancelled 10 1 g1)
            _
            (try_connect_with_retry-IsMapped h port J p node_id (endpoint local_host way.local_port)
              way.attempts way.cancelled 10 1 g1 k1)
            (λ b g2 k2. end_of_retries-IsMapped b g2 k2))

  -- Joining a room keeps the address that was mapped before, whether it succeeds or not.
  pub connect_room-IsMapped :
      (way : Way) (code : RoomCode) (g : Guest)
      → IsMapped h port g
      → IsMapped h port (connect_room J p node_id socket_addr patch way code g).1
  unfolding connect_room
  connect_room-IsMapped way code g k =
      let config = guest_config J p node_id socket_addr patch way code in
      and_then-IsMapped h port (lift (way.easy_tier_start config) g) _ k (λ u g1 k1.
        and_then-IsMapped h port (lift (discover way.other_digit way.nodes way.wait_cancelled) g1) _
          k1
          (λ center g2 k2.
            let known = record g2 { center = some center; config = some config } in
            and_then-IsMapped h port
              (try_connect_once J p node_id (endpoint center.virtual_ip center.port) way.direct
                known)
              _
              (try_connect_once-IsMapped h port J p node_id (endpoint center.virtual_ip center.port)
                way.direct known (k2.0, k2.1, some-ne-none config, some-ne-none center))
              (λ direct g3 k3.
                and_then-IsMapped h port
                  (through_forward J p node_id socket_addr patch way center direct g3) _
                  (through_forward-IsMapped way center direct g3 k3) (λ v g4 k4. k4))))

  known_address-IsMapped :
      (ex : Exchange) (local_mc_port : ℕ) (o : Option Text) (q : Option ℕ) (g : Guest)
      → o ≡ some h
      → q ≡ some port
      → known_address J p node_id socket_addr patch ex local_mc_port o q g ≡ (ok (h, port), g)
  unfolding known_address
  known_address-IsMapped ex local_mc_port (some t) (some q) g e f = ground arith
  known_address-IsMapped ex local_mc_port none q g e f = cc
  known_address-IsMapped ex local_mc_port (some t) none g e f = cc

  map_minecraft_port-IsMapped :
      (ex : Exchange) (local_mc_port : ℕ) (g : Guest)
      → IsMapped h port g
      → map_minecraft_port J p node_id socket_addr patch ex local_mc_port g ≡ (ok (h, port), g)
  unfolding map_minecraft_port
  map_minecraft_port-IsMapped ex local_mc_port g k = elim (Option-cases g.config) [
    | inl c ↦ absurd (k.2 c)
    | inr (cfg, c) ↦ elim (Option-cases g.center) [
      | inl d ↦ absurd (k.3 d)
      | inr (center, d) ↦ ground (
        known_address-IsMapped ex local_mc_port g.minecraft_host g.minecraft_port g k.0 k.1,
        arith,
      )
    ]
  ]

  -- A guest that has mapped the address of the Minecraft server in one room answers that address
  -- also after it has left and joined another room, or failed to join it, without a request.
  pub map_minecraft_port-connect_room :
      (way : Way) (code : RoomCode) (g : Guest) (ex : Exchange) (local_mc_port : ℕ)
      → IsMapped h port g
      → (let g' = (connect_room J p node_id socket_addr patch way code (leave g)).1 in
          map_minecraft_port J p node_id socket_addr patch ex local_mc_port g' ≡ (ok (h, port), g'))
  map_minecraft_port-connect_room way code g ex local_mc_port k =
      map_minecraft_port-IsMapped ex local_mc_port
        (connect_room J p node_id socket_addr patch way code (leave g)).1
        (connect_room-IsMapped way code (leave g) (unfold leave in k))
