-- ===== src/Cli/Main/Sound.antt =====
-- What the steps of the commands keep true of the client.
use qomicex_connector_rust.Base.{ℕ, Bool, Text, List, [], ◌∷◌, Option, All}
use qomicex_connector_rust.Base.Result.{ok, err}
use qomicex_connector_rust.Error.{Outcome}
use qomicex_connector_rust.Json.{JsonApi}
use qomicex_connector_rust.Relay.Provider.{Reply}
use qomicex_connector_rust.Center.Host.{Host, close_host}
use qomicex_connector_rust.Guest.Requests.{get_player_list}
use qomicex_connector_rust.Guest.Session.{Guest}
use qomicex_connector_rust.Guest.Member.{Member, leave_room}
use qomicex_connector_rust.EasyTier.Config.{Addresses, TomlConfig}
use qomicex_connector_rust.EasyTier.Instance.Lifecycle.{IsTidy, stop-IsTidy}
use qomicex_connector_rust.Client.RelayCache.{Settings}
use qomicex_connector_rust.Client.Rooms.{Client}
use qomicex_connector_rust.Client.Rooms.Sound.{IsSound, create_room-IsSound, join_room-IsSound}
use qomicex_connector_rust.Cli.{Fallible}
use qomicex_connector_rust.Cli.Session.{
  Session, Act, and_then, ◌>>=◌, say, say_all, on_client, act_last, on_center, on_guest, lift,
}
use qomicex_connector_rust.Cli.Rooms.{
  World, hold, run_host, run_guest, meanwhile, show_address, show_players, stay, mapping,
  host_meanwhile, closing, leaving, acting,
}

module _ (deletes : ℕ → Bool) where
  -- The client is sound after an action if it was before.
  pub record Keeps {A : Type 0} (act : Act Session A) : Type 0 where
    pub sound : (s : Session) → IsSound deletes s.client → IsSound deletes (act s).1.client

  and_then-IsSound :
      {A B : Type 0} (r : Fallible A × Session) (f : A → Act Session B)
      → IsSound deletes r.1.client
      → ((a : A) → Keeps (f a))
      → IsSound deletes (and_then r f).1.client
  and_then-IsSound (ok a, s) f i k = (k a).sound s i
  and_then-IsSound (err e, s) f i k = i

  >>=-Keeps :
      {A B : Type 0} (m : Act Session A) (f : A → Act Session B)
      → Keeps m
      → ((a : A) → Keeps (f a))
      → Keeps (m >>= f)
  >>=-Keeps m f km kf = record { sound = λ s i. and_then-IsSound (m s) f (km.sound s i) kf }

  say-Keeps : (line : Text) → Keeps (say line)
  unfolding say
  say-Keeps line = record { sound = λ s i. i }

  lift-Keeps : {A : Type 0} (r : Fallible A) → Keeps (lift r)
  lift-Keeps r = record { sound = λ s i. i }

  say_all-Keeps : {A : Type 0} (line : A → Text) (xs : List A) → Keeps (say_all line xs)
  unfolding say_all
  say_all-Keeps line [] = record { sound = λ s i. i }
  say_all-Keeps line (x ∷ xs) =
      >>=-Keeps (say (line x)) (λ u. say_all line xs) (say-Keeps (line x))
        (λ u. say_all-Keeps line xs)

  act_last-All :
      {X R : Type 0} (P : X → Type 0) (f : X → R × X) (handle : X) (xs : List X)
      → ((x : X) → P x → P (f x).1)
      → All P xs
      → All P (act_last f handle xs).1
  unfolding act_last
  act_last-All P f handle [] k h = tt
  act_last-All P f handle (x ∷ []) k h = (k x h.0, tt)
  act_last-All P f handle (x ∷ y ∷ rest) k h = (h.0, act_last-All P f handle (y ∷ rest) k h.1)

  on_center-Keeps :
      (f : Host (Unit {0}) → Outcome (Unit {0}) × Host (Unit {0})) (center : Host (Unit {0}))
      → ((h : Host (Unit {0})) → IsTidy deletes h.easy_tier → IsTidy deletes (f h).1.easy_tier)
      → Keeps (on_center f center)
  unfolding on_center
  on_center-Keeps f center k = record {
    sound = λ s i. record {
      centers =
          act_last-All (λ h. IsTidy deletes h.easy_tier) f center s.client.managed_centers k
            i.centers;
      guests = i.guests;
      failed_guests = i.failed_guests;
    };
  }

  on_guest-Keeps :
      {A : Type 0} (f : Member → Outcome A × Member) (guest : Member)
      → ((m : Member) → IsTidy deletes m.easy_tier → IsTidy deletes (f m).1.easy_tier)
      → Keeps (on_guest f guest)
  unfolding on_guest
  on_guest-Keeps f guest k = record {
    sound = λ s i. record {
      centers = i.centers;
      guests =
          act_last-All (λ m. IsTidy deletes m.easy_tier) f guest s.client.managed_guests k i.guests;
      failed_guests = i.failed_guests;
    };
  }

  acting-Keeps :
      {A : Type 0} (f : Member → Guest → Outcome A × Guest) (guest : Member)
      → Keeps (on_guest (acting f) guest)
  acting-Keeps f guest = on_guest-Keeps (acting f) guest (unfold acting in λ m t. t)

  closing-Keeps : (center : Host (Unit {0})) → Keeps (on_center closing center)
  closing-Keeps center =
      on_center-Keeps closing center
        (unfold closing close_host in λ h t. stop-IsTidy deletes h.easy_tier t)

  leaving-Keeps : (guest : Member) → Keeps (on_guest leaving guest)
  leaving-Keeps guest =
      on_guest-Keeps leaving guest
        (unfold leaving leave_room in λ m t. stop-IsTidy deletes m.easy_tier t)

  on_client-Keeps :
      {A : Type 0} (f : Client (Unit {0}) → Outcome A × Client (Unit {0}))
      → ((c : Client (Unit {0})) → IsSound deletes c → IsSound deletes (f c).1)
      → Keeps (on_client f)
  unfolding on_client
  on_client-Keeps f k = record { sound = λ s i. k s.client i }

  module _ (J : JsonApi) (locale : Option Text) (http : ℕ → (user_agent url : Text) → Option Reply)
      (s : Settings) (api : Addresses) (default : TomlConfig api) (w : World api) where
    hold-Keeps : (center : Host (Unit {0})) → Keeps (hold J locale http s api default w center)
    unfolding hold
    hold-Keeps center = >>=-Keeps _ _ (say-Keeps _) (λ u. >>=-Keeps _ _ (say-Keeps _) (λ u.
        >>=-Keeps _ _
          (on_center-Keeps (host_meanwhile w.hosting) center (unfold host_meanwhile in λ h t. t))
          (λ u. >>=-Keeps _ _ (lift-Keeps _) (λ u. closing-Keeps center))))

    -- However the command `host` goes on.
    pub run_host-Keeps :
        (player_name machine_id : Text) (port : ℕ)
        → Keeps (run_host J locale http s api default w player_name machine_id port)
    unfolding run_host
    run_host-Keeps player_name machine_id port = >>=-Keeps _ _ (say-Keeps _) (λ u.
        >>=-Keeps _ _
          (on_client-Keeps _ (
            create_room-IsSound deletes J locale http s api default w.startup w.site w.now
              w.generated w.token _))
          hold-Keeps)

    meanwhile-Keeps :
        (i : ℕ) (guest : Member) → Keeps (meanwhile J locale http s api default w i guest)
    unfolding meanwhile
    meanwhile-Keeps i guest = acting-Keeps (λ m g. (ok tt, w.beating i g)) guest

    show_address-Keeps : (guest : Member) → Keeps (show_address J locale http s api default w guest)
    unfolding show_address
    show_address-Keeps guest = >>=-Keeps _ _ (meanwhile-Keeps 0 guest) (λ u.
        >>=-Keeps _ _ (acting-Keeps (mapping J locale http s api default w) guest)
          (λ address. say-Keeps _))

    show_players-Keeps : (guest : Member) → Keeps (show_players J locale http s api default w guest)
    unfolding show_players
    show_players-Keeps guest = >>=-Keeps _ _ (meanwhile-Keeps 1 guest) (λ u.
        >>=-Keeps _ _ (acting-Keeps (λ m. get_player_list J w.listing) guest)
          (λ players. >>=-Keeps _ _ (say-Keeps _) (λ u. say_all-Keeps _ players)))

    stay-Keeps : (guest : Member) → Keeps (stay J locale http s api default w guest)
    unfolding stay
    stay-Keeps guest = >>=-Keeps _ _ (say-Keeps _) (λ u.
        >>=-Keeps _ _ (meanwhile-Keeps 2 guest)
          (λ u. >>=-Keeps _ _ (lift-Keeps _) (λ u. leaving-Keeps guest)))

    -- However the command `guest` goes on.
    pub run_guest-Keeps :
        (room_code player_name machine_id : Text)
        → Keeps (run_guest J locale http s api default w room_code player_name machine_id)
    unfolding run_guest
    run_guest-Keeps room_code player_name machine_id = >>=-Keeps _ _ (say-Keeps _) (λ u.
        >>=-Keeps _ _
          (on_client-Keeps _
            (join_room-IsSound deletes J locale http s api default w.net w.way w.now room_code _))
          (λ guest. >>=-Keeps _ _ (say-Keeps _) (λ u.
            >>=-Keeps _ _ (show_address-Keeps guest)
              (λ u. >>=-Keeps _ _ (show_players-Keeps guest) (λ u. stay-Keeps guest)))))
