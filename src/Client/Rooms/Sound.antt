-- ===== src/Client/Rooms/Sound.antt =====
-- What a client keeps true over any sequence of its operations, and what closing it leaves.
use qomicex_connector_rust.Base.{
  ℕ, Bool, Text, ◌≡◌, refl, List, [], ◌∷◌, map, Option, All, All-append,
}
use qomicex_connector_rust.Base.Result.{ok, err}
use qomicex_connector_rust.Error.{Outcome}
use qomicex_connector_rust.Json.{JsonApi}
use qomicex_connector_rust.Models.RoomCode.{RoomCode, parse}
use qomicex_connector_rust.Relay.Provider.{Reply}
use qomicex_connector_rust.Center.Host.{Host, Site, new_host, start_host, close_host}
use qomicex_connector_rust.Center.Host.Laws.{start_host-IsTidy, IsClosed, close_host-IsClosed}
use qomicex_connector_rust.Guest.Joining.{Way}
use qomicex_connector_rust.Guest.Member.{Member, Net, new_member, connect, leave_room}
use qomicex_connector_rust.Guest.Member.Laws.{connect-IsTidy, IsGone, leave_room-IsGone}
use qomicex_connector_rust.EasyTier.Config.{Addresses, TomlConfig}
use qomicex_connector_rust.EasyTier.Instance.{Startup}
use qomicex_connector_rust.EasyTier.Instance.Lifecycle.{IsTidy, new_manager-IsTidy}
use qomicex_connector_rust.Client.RelayCache.{Settings}
use qomicex_connector_rust.Client.Rooms.{
  Client, new_client, Creation, Joiner, center_config, profile_of, relay_nodes, created,
  create_room, joined, entering, join_room, beside, close_all,
}

module _ (deletes : ℕ → Bool) where
  module _ {C : Type 0} where
    -- EasyTier runs what the managed rooms and guests hold and what it did not delete when it was asked to,
    -- and for a guest that failed to join only the latter.
    pub record IsSound (client : Client C) : Type 0 where
      pub centers : All (λ h. IsTidy deletes h.easy_tier) client.managed_centers
      pub guests : All (λ m. IsTidy deletes m.easy_tier) client.managed_guests
      pub failed_guests : All (IsGone deletes) client.abandoned_guests

    pub close_hosts-IsClosed :
        (closing hs : List (Host C))
        → All (λ h. IsTidy deletes h.easy_tier) hs
        → All (IsClosed deletes) (map (λ h. beside closing (close_host h)) hs)
    close_hosts-IsClosed closing [] t = tt
    close_hosts-IsClosed closing (h ∷ hs) t =
        let c = (close_host-IsClosed deletes h t.0).0 in
        (
          record {
            no_server = c.no_server;
            no_token = c.no_token;
            no_instance = c.no_instance;
            nothing_else_runs = c.nothing_else_runs;
          },
          close_hosts-IsClosed closing hs t.1,
        )

  pub leave_rooms-IsGone :
      (ms : List Member)
      → All (λ m. IsTidy deletes m.easy_tier) ms
      → All (IsGone deletes) (map leave_room ms)
  leave_rooms-IsGone [] t = tt
  leave_rooms-IsGone (m ∷ ms) t = (leave_room-IsGone deletes m t.0, leave_rooms-IsGone ms t.1)

module _ {C : Type 0} (J : JsonApi) (locale : Option Text)
    (http : ℕ → (user_agent url : Text) → Option Reply) (s : Settings) (api : Addresses)
    (default : TomlConfig api) where
  -- The operations of a client, and what happens in the managed rooms and guests without a start or a
  -- stop of their EasyTier.
  pub data Step : Client C → Client C → Type 0 where
    creates :
        {client : Client C} (up : Startup (TomlConfig api)) (site : Site) (now : ℕ)
        (room_code : RoomCode) (ct : ℕ) (c : Creation C)
        → Step client (create_room J locale http s api default up site now room_code ct c client).1
    joins :
        {client : Client C} (net : Net api) (way : Way) (now : ℕ) (code : Text) (j : Joiner)
        → Step client (join_room J locale http s api default net way now code j client).1
    closes : {client : Client C} → Step client (close_all client).1
    changes :
        {client : Client C} (centers : List (Host C)) (guests : List Member)
        → map (λ h. h.easy_tier) centers ≡ map (λ h. h.easy_tier) client.managed_centers
        → map (λ m. m.easy_tier) guests ≡ map (λ m. m.easy_tier) client.managed_guests
        → Step client (record client { managed_centers = centers; managed_guests = guests })

  pub data Reachable : Client C → Type 0 where
    begin : Reachable new_client
    next : {client client' : Client C} → Reachable client → Step client client' → Reachable client'

module _ (deletes : ℕ → Bool) {C : Type 0} (J : JsonApi) (locale : Option Text)
    (http : ℕ → (user_agent url : Text) → Option Reply) (s : Settings) (api : Addresses)
    (default : TomlConfig api) where
  created-IsSound :
      (client : Client C) (r : Outcome (Unit {0}) × Host C)
      → IsSound deletes client
      → IsTidy deletes r.1.easy_tier
      → IsSound deletes (created J locale http s api default client r).1
  unfolding created
  created-IsSound client (ok u, h) i t = record {
    centers =
        All-append (λ h. IsTidy deletes h.easy_tier) client.managed_centers (h ∷ []) i.centers
          (t, tt);
    guests = i.guests;
    failed_guests = i.failed_guests;
  }
  created-IsSound client (err e, h) i t = record {
    centers = i.centers;
    guests = i.guests;
    failed_guests = i.failed_guests;
  }

  joined-IsSound :
      (client : Client C) (r : Outcome (Unit {0}) × Member)
      → IsSound deletes client
      → IsTidy deletes r.1.easy_tier
      → IsSound deletes (joined J locale http s api default client r).1
  unfolding joined
  joined-IsSound client (ok u, m) i t = record {
    centers = i.centers;
    guests =
        All-append (λ m. IsTidy deletes m.easy_tier) client.managed_guests (m ∷ []) i.guests
          (t, tt);
    failed_guests = i.failed_guests;
  }
  joined-IsSound client (err e, m) i t = record {
    centers = i.centers;
    guests = i.guests;
    failed_guests =
        All-append (IsGone deletes) client.abandoned_guests (leave_room m ∷ []) i.failed_guests
          (leave_room-IsGone deletes m t, tt);
  }

  relay_nodes-IsSound :
      (now : ℕ) (client : Client C)
      → IsSound deletes client
      → IsSound deletes (relay_nodes J locale http s api default now client).1
  unfolding relay_nodes
  relay_nodes-IsSound now client i = record {
    centers = i.centers;
    guests = i.guests;
    failed_guests = i.failed_guests;
  }

  entering-IsSound :
      (net : Net api) (way : Way) (now : ℕ) (code : Outcome RoomCode) (j : Joiner)
      (client : Client C)
      → IsSound deletes client
      → IsSound deletes (entering J locale http s api default net way now code j client).1
  unfolding entering
  entering-IsSound net way now (err e) j client i = i
  entering-IsSound net way now (ok code) j client i =
      let (nodes, client1) = relay_nodes J locale http s api default now client in
      joined-IsSound client1 (connect J api default net way code (new_member (profile_of nodes j)))
        (relay_nodes-IsSound now client i)
        (connect-IsTidy deletes J api default net way code (new_member (profile_of nodes j)) refl
          (new_manager-IsTidy deletes))

  pub join_room-IsSound :
      (net : Net api) (way : Way) (now : ℕ) (code : Text) (j : Joiner) (client : Client C)
      → IsSound deletes client
      → IsSound deletes (join_room J locale http s api default net way now code j client).1
  unfolding join_room
  join_room-IsSound net way now code j client i =
      entering-IsSound net way now (parse code) j client i

  pub create_room-IsSound :
      (up : Startup (TomlConfig api)) (site : Site) (now : ℕ) (room_code : RoomCode) (ct : ℕ)
      (c : Creation C) (client : Client C)
      → IsSound deletes client
      → IsSound deletes
          (create_room J locale http s api default up site now room_code ct c client).1
  unfolding create_room
  create_room-IsSound up site now room_code ct c client i =
      let (nodes, client1) = relay_nodes J locale http s api default now client in
      let h = new_host (center_config room_code nodes c) c.custom in
      created-IsSound client1 (start_host api default up site J ct h)
        (relay_nodes-IsSound now client i)
        (start_host-IsTidy api default up site J deletes ct h refl (new_manager-IsTidy deletes))
