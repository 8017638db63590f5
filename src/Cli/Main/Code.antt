-- ===== src/Cli/Main/Code.antt =====
-- The code that a host prints, and what it is good for.
use qomicex_connector_rust.Base.{
  ℕ, Text, codes, Bytes, ◌≡◌, refl, sym, ap, subst, List, [], ◌∷◌, ◌++◌, Option, none, some, take,
  parse_unsigned,
}
use qomicex_connector_rust.Base.Result.{Result, ok, err}
use qomicex_connector_rust.Error.{Outcome}
use qomicex_connector_rust.Json.{JsonApi}
use qomicex_connector_rust.Models.RoomCode.{RoomCode, parse, generate}
use qomicex_connector_rust.Models.RoomCode.Generate.{generate-parse}
use qomicex_connector_rust.Relay.Provider.{Reply}
use qomicex_connector_rust.Center.Host.{Host, close_host}
use qomicex_connector_rust.EasyTier.Config.{Addresses, TomlConfig}
use qomicex_connector_rust.Client.Rooms.{Client, new_client, create_room, beside, close_all}
use qomicex_connector_rust.Client.Rooms.Created.{create_room-ok}
use qomicex_connector_rust.Cli.{settings_of}
use qomicex_connector_rust.Cli.Session.{
  Session, say, on_client, on_center, act_last, and_then, boxed,
}
use qomicex_connector_rust.Cli.Rooms.{
  World, hold, run_host, creation_of, host_meanwhile, closing, close_after,
}
use qomicex_connector_rust.Cli.Main.{
  Finished, success, close_down, refused, host_on_port, host_command,
}

-- The lines of a host that goes on to the end.
abbrev pub printed : Host (Unit {0}) → List Text
printed h = codes "创建房间..." ∷ (codes "房间码: " ++ h.config.room_code.raw) ∷ codes "按 Ctrl+C 退出" ∷ []

-- A session in which the client manages one center.
abbrev only : Host (Unit {0}) → Client (Unit {0}) → Session
only h client = record { client = record client { managed_centers = h ∷ [] }; console = printed h }

abbrev begun : Client (Unit {0}) → Session
begun client = record { client = client; console = codes "创建房间..." ∷ [] }

module _ (J : JsonApi) (locale : Option Text) (http : ℕ → (user_agent url : Text) → Option Reply)
    (api : Addresses) (default : TomlConfig api) (w : World api) (uuid : Text)
    (nodes : Option (List Text)) where
  -- What is known of a host's run that succeeded.
  pub record Hosted (f : Finished) : Type 0 where
    pub center : Host (Unit {0})
    pub closed : f.closed_centers ≡ center ∷ []
    pub code : center.config.room_code ≡ w.generated
    pub console : f.session.console ≡ printed center

  close_after-Hosted :
      (ctrl_c : Result Text (Unit {0})) (h handle : Host (Unit {0})) (client : Client (Unit {0}))
      → h.config.room_code ≡ w.generated
      → (close_down (close_after ctrl_c handle (only h client))).ending ≡ success
      → Hosted (close_down (close_after ctrl_c handle (only h client)))
  unfolding close_down close_after on_center closing act_last close_all close_host
  close_after-Hosted (err why) h handle client c e = cc
  close_after-Hosted (ok u) h handle client c e = record {
    center = beside (close_host h ∷ []) (close_host (close_host h));
    closed = refl;
    code = c;
    console = refl;
  }

  hold-Hosted :
      (h : Host (Unit {0})) (client : Client (Unit {0}))
      → client.managed_centers ≡ h ∷ []
      → h.config.room_code ≡ w.generated
      → (close_down (hold J locale http (settings_of nodes) api default w h (begun client))).ending
        ≡ success
      → Hosted (close_down (hold J locale http (settings_of nodes) api default w h (begun client)))
  unfolding hold say on_center host_meanwhile act_last
  hold-Hosted h client m c =
      subst
        (λ client.
          (close_down
              (hold J locale http (settings_of nodes) api default w h (begun client))).ending
            ≡ success
          → Hosted
              (close_down (hold J locale http (settings_of nodes) api default w h (begun client))))
        (ap (λ hs. record client { managed_centers = hs }) (sym m))
        (close_after-Hosted w.ctrl_c (host_meanwhile w.hosting h).1 h client c)

  entered-Hosted :
      (r : Outcome (Host (Unit {0})) × Client (Unit {0}))
      → ((h : Host (Unit {0}))
          → r.0 ≡ ok h
          → (h.config.room_code ≡ w.generated) × (r.1.managed_centers ≡ h ∷ []))
      → (close_down (
          and_then
            (boxed r.0, begun r.1)
            (hold J locale http (settings_of nodes) api default w))).ending
        ≡ success
      → Hosted (
          close_down (
            and_then (boxed r.0, begun r.1) (hold J locale http (settings_of nodes) api default w)))
  unfolding close_down
  entered-Hosted (err why, client) k e = cc
  entered-Hosted (ok h, client) k e = let (c, m) = k h refl in hold-Hosted h client m c e

  host_on_port-Hosted :
      (player_name : Text) (port : Option ℕ)
      → (host_on_port J locale http api default w uuid nodes player_name port).ending ≡ success
      → Hosted (host_on_port J locale http api default w uuid nodes player_name port)
  unfolding host_on_port refused run_host say on_client
  host_on_port-Hosted player_name none e = cc
  host_on_port-Hosted player_name (some port) e =
      entered-Hosted
        (create_room J locale http (settings_of nodes) api default w.startup w.site w.now
          w.generated w.token (creation_of player_name (take 12 uuid) port) new_client)
        (create_room-ok J locale http (settings_of nodes) api default w.startup w.site w.now
          w.generated w.token (creation_of player_name (take 12 uuid) port) new_client)
        e

  -- What a host's command that ends with success has done.
  pub host_command-success :
      (mc_port player_name : Text)
      → (host_command J locale http api default w uuid nodes mc_port player_name).ending ≡ success
      → Hosted (host_command J locale http api default w uuid nodes mc_port player_name)
  unfolding host_command
  host_command-success mc_port player_name =
      host_on_port-Hosted player_name (parse_unsigned 65535 mc_port)

  -- A host's command whose code was generated from random buffers and that ends with success has opened
  -- one room and closed it; it has printed the code of that room between two fixed lines; and a guest
  -- that is given the printed text parses that very code.
  pub host_command-parse :
      (buffers : List Bytes) (mc_port player_name : Text)
      → generate buffers ≡ some (ok w.generated)
      → (host_command J locale http api default w uuid nodes mc_port player_name).ending ≡ success
      → (h : Host (Unit {0})) × ((host_command J locale http api default w uuid nodes mc_port
            player_name).closed_centers
          ≡ h ∷ [])
        × ((host_command J locale http api default w uuid nodes mc_port player_name).session.console
            ≡ printed h)
        × (parse h.config.room_code.raw ≡ ok h.config.room_code)
  host_command-parse buffers mc_port player_name g e =
      let f = host_command-success mc_port player_name e in
      (
        f.center,
        f.closed,
        f.console,
        subst (λ (code : RoomCode). parse code.raw ≡ ok code) (sym f.code)
            (generate-parse buffers w.generated g),
      )
